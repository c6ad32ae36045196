-- ===== src/Ipam/Chunk/Split.antt =====
-- `GetIpChunk` of pkg/ipam/ipalloc.go splits a pool in two.
use z_presplit_aci_container.Base.{
  ℕ, zero, suc, ◌+◌, ◌-◌, ◌^◌, ◌≤◌, ◌<◌, ◌≡◌, refl, ◌⊎◌, inl, inr, ◌↔◌, true, [], ◌∷◌, length, ltb,
  leb, lt→ltb, ltb→lt, ltb→ge, ge→ltb, arith, dec_lt, Bool-cases, ◌∙◌,
}
use z_presplit_aci_container.Ipam.Address.Value.{value-lt, increment_exact}
use z_presplit_aci_container.Ipam.Address.Big.{pad-big_bytes}
use z_presplit_aci_container.Ipam.Alloc.{IpRange, IpAlloc, add_range, remove_range, add_ranges}
use z_presplit_aci_container.Ipam.Alloc.Order.{lo, hi, IsRange, Within, Holds, Above→Starts}
use z_presplit_aci_container.Ipam.Alloc.Cut.{beyond}
use z_presplit_aci_container.Ipam.Alloc.Add.{IsPool, Apart, add_range-Holds, add_range-IsPool}
use z_presplit_aci_container.Ipam.Alloc.Difference.{remove_range-IsPool, remove_range-Holds}
use z_presplit_aci_container.Ipam.Alloc.Batch.{Above-HasEnds, add_ranges-Holds, add_ranges-IsPool}
use z_presplit_aci_container.Ipam.Chunk.{
  Chunk, taken, insufficient, stuck, range_size, total, new_end, chunk_loop, get_ip_chunk,
}
use z_presplit_aci_container.Ipam.Chunk.Total.{add_range-total, remove_range_front}

-- `result` and `left` share the addresses of `pool` between them.
pub record Splits (w : ℕ) (pool result left : IpAlloc) : Type 0 where
  pub result_pool : IsPool w result
  pub left_pool : IsPool w left
  pub apart : (n : ℕ) → Holds result n → ¬ Holds left n
  pub whole : (n : ℕ) → Holds pool n ↔ (Holds result n ⊎ Holds left n)

-- A chunk of exactly the size asked for, or an error that gives all addresses back.
abbrev pub Delivers : (w : ℕ) (pool : IpAlloc) (size : ℕ) → Chunk → Type 0
Delivers w pool size (taken result left) = Splits w pool result left × (total result ≡ size)
Delivers w pool size (insufficient left) =
    (total pool < size) × IsPool w left × ((n : ℕ) → Holds left n ↔ Holds pool n)
Delivers w pool size stuck = ⊥

-- A range at the front of `left` moves over to `result`.
module _ (w : ℕ) (pool result l l' : IpAlloc) (x r : IpRange) (hx : IsRange w x)
    (s : Splits w pool result (r ∷ l)) (front : (lo x ≡ lo r) × (hi x ≤ hi r)) where
  x-in : (n : ℕ) → Within x n → Holds (r ∷ l) n
  x-in n i = inl (omega arith)

  x-Apart : Apart x result
  x-Apart n i j = s.apart n j (x-in n i)

  move-Splits :
      Splits w pool (add_range x.start x.end result) (remove_range x.start x.end (r ∷ l)).0
  move-Splits =
      let added = λ (n : ℕ).
        add_range-Holds w x result hx.start_ip hx.end_ip n
          (Above→Starts w 0 result s.result_pool) in
      let removed = remove_range-Holds w x (r ∷ l) hx.start_ip hx.end_ip s.left_pool in
      record {
        result_pool = add_range-IsPool w x result hx.start_ip hx.end_ip s.result_pool x-Apart;
        left_pool = remove_range-IsPool w x (r ∷ l) hx.start_ip hx.end_ip s.left_pool;
        apart = λ n i j. elim ((added n).0 i) [
          | inl a ↦ elim ((removed n).0 j).1 [ inl b ↦ omega arith | inr b ↦ omega arith ]
          | inr a ↦ s.apart n a ((removed n).0 j).0
        ];
        whole = λ n. (
          λ u. elim ((s.whole n).0 u) [
            | inl a ↦ inl ((added n).1 (inr a))
            | inr b ↦ elim (dec_lt n (lo x)) [
              | yes k ↦ inr ((removed n).1 (b, inl k))
              | no k ↦ elim (dec_lt (hi x) n) [
                | yes m ↦ inr ((removed n).1 (b, inr m))
                | no m ↦ inl ((added n).1 (inl (omega arith, omega arith)))
              ]
            ]
          ],
          λ u. elim u [
            | inl a ↦ elim ((added n).0 a) [
              | inl c ↦ (s.whole n).1 (inr (x-in n c))
              | inr c ↦ (s.whole n).1 (inl c)
            ]
            | inr b ↦ (s.whole n).1 (inr ((removed n).0 b).0)
          ],
        );
      }

total-nil : total [] ≡ 0
unfolding total
total-nil = refl

module _ (w : ℕ) (pool : IpAlloc) (size : ℕ) where
  -- The state of the loop: the size so far, and enough rounds to end.
  record Inv (fuel current : ℕ) (result l : IpAlloc) : Type 0 where
    split : Splits w pool result l
    counted : total result ≡ current
    conserved : current + total l ≡ total pool
    bounded : current ≤ size
    rounds : 1 ≤ fuel
    more_rounds : current < size → length l + 2 ≤ fuel

  give_back :
      (result : IpAlloc)
      → Splits w pool result []
      → total result < size
      → total result ≡ total pool
      → Delivers w pool size (insufficient (add_ranges result []))
  give_back result s h e =
      let held =
        λ (n : ℕ). add_ranges-Holds w result [] n (Above-HasEnds w 0 result s.result_pool) tt in
      (
        omega arith,
        add_ranges-IsPool w 0 result [] s.result_pool tt (λ n i j. j),
        λ n. (λ u. (s.whole n).1 ((held n).0 u), λ u. (held n).1 ((s.whole n).0 u)),
      )

  -- The whole range goes over.
  whole-Inv :
      (fuel current : ℕ) (result l : IpAlloc) (r : IpRange)
      → Inv (suc fuel) current result (r ∷ l)
      → current < size
      → range_size r ≤ size - current
      → Inv fuel
          (current + range_size r)
          (add_range r.start r.end result)
          (remove_range r.start r.end (r ∷ l)).0
  unfolding total
  whole-Inv fuel current result l r v h k =
      let p = v.split.left_pool in
      let hr = p.1 in
      let o = hr.ordered in
      let e : (remove_range r.start r.end (r ∷ l)).0 ≡ l =
        remove_range_front w r r l hr p (omega arith) o (omega arith)
        ∙ rw (ge→ltb (hi r) (hi r) (omega arith)) in
      let grown =
        add_range-total w r result hr v.split.result_pool
          (x-Apart w pool result l l r r hr v.split (omega arith)) in
      let m = v.more_rounds h in
      record {
        split = move-Splits w pool result l l r r hr v.split (omega arith);
        counted = omega (arith, grown, v.counted);
        conserved = rw e (omega (arith, v.conserved));
        bounded = omega arith;
        rounds = omega arith;
        more_rounds = λ _. rw e (omega arith);
      }

  -- The part of a range that a chunk still needs.
  part : IpRange → ℕ → IpRange
  part r needed = record { start = r.start; end = new_end r needed }

  part-IsRange :
      (r : IpRange) (needed : ℕ)
      → IsRange w r
      → 0 < needed
      → needed < range_size r
      → IsRange w (part r needed) × (hi (part r needed) ≡ lo r + needed - 1)
  unfolding part new_end range_size
  part-IsRange r needed hr pos h =
      let o = hr.ordered in
      let fits : lo r + needed - 1 < 256 ^ w = omega (arith, value-lt hr.end_ip) in
      let (ip, e) = pad-big_bytes w (lo r + needed - 1) fits in
      rw hr.end_ip.width
        (record { start_ip = hr.start_ip; end_ip = ip; ordered = rw e (omega arith) }, e)

  part-Inv :
      (fuel current : ℕ) (result l : IpAlloc) (r : IpRange)
      → Inv (suc fuel) current result (r ∷ l)
      → current < size
      → size - current < range_size r
      → Inv fuel
          (current + (size - current))
          (add_range r.start (new_end r (size - current)) result)
          (remove_range r.start (new_end r (size - current)) (r ∷ l)).0
  unfolding total part range_size
  part-Inv fuel current result l r v h k =
      let p = v.split.left_pool in
      let hr = p.1 in
      let o = hr.ordered in
      let x = part r (size - current) in
      let (hx, e) = part-IsRange r (size - current) hr (omega arith) k in
      let front : (lo x ≡ lo r) × (hi x ≤ hi r) = (refl, omega (arith, e)) in
      let below : ltb (hi x) (hi r) ≡ true = lt→ltb (hi x) (hi r) (omega (arith, e)) in
      let next = increment_exact hx.end_ip hr.end_ip (ltb→lt (hi x) (hi r) below) in
      let cut : (remove_range x.start x.end (r ∷ l)).0 ≡ beyond r x.end ∷ l =
        remove_range_front w x r l hx p (omega arith) (omega (arith, e)) (omega (arith, e))
        ∙ rw below in
      let grown =
        add_range-total w x result hx v.split.result_pool
          (x-Apart w pool result l l x r hx v.split front) in
      let m = v.more_rounds h in
      record {
        split = move-Splits w pool result l l x r hx v.split front;
        counted = omega (arith, grown, v.counted, e);
        conserved = rw cut (omega (arith, v.conserved, e, next));
        bounded = omega arith;
        rounds = omega arith;
        more_rounds = λ q. absurd (omega arith);
      }

  chunk_loop-Delivers :
      (fuel current : ℕ) (result l : IpAlloc)
      → Inv fuel current result l
      → Delivers w pool size (chunk_loop fuel size current result l)
  unfolding chunk_loop
  chunk_loop-Delivers zero current result l v = absurd (let r = v.rounds in omega arith)
  chunk_loop-Delivers (suc fuel) current result [] v = elim (Bool-cases (ltb current size)) [
    | inl e ↦
        let short = ltb→lt current size e in
        let c = v.counted in
        let k = v.conserved in
        rw e (give_back result v.split (omega arith) (omega (arith, total-nil)))
    | inr e ↦ rw e (v.split, omega (arith, v.counted, v.bounded, ltb→ge current size e))
  ]
  chunk_loop-Delivers (suc fuel) current result (r ∷ l) v = elim (Bool-cases (ltb current size)) [
    | inl e ↦ elim (Bool-cases (leb (range_size r) (size - current))) [
      | inl f ↦
          rw (e, f)
            (chunk_loop-Delivers fuel _ _ _
              (whole-Inv fuel current result l r v (ltb→lt current size e) (ground arith)))
      | inr f ↦
          rw (e, f)
            (chunk_loop-Delivers fuel _ _ _
              (part-Inv fuel current result l r v (ltb→lt current size e) (ground arith)))
    ]
    | inr e ↦ rw e (v.split, omega (arith, v.counted, v.bounded, ltb→ge current size e))
  ]

-- On separate ranges in order, GetIpChunk ends and either splits the pool in two pools that share
-- no address, hold together what it held, and of which the returned one has exactly the size asked
-- for; or, only if the pool is smaller than that, it fails and the pool holds what it held before.
pub get_ip_chunk-Delivers :
    (w size : ℕ) (l : IpAlloc) → IsPool w l → Delivers w l size (get_ip_chunk size l)
unfolding get_ip_chunk total
get_ip_chunk-Delivers w size l p = chunk_loop-Delivers w l size (length l + 2) 0 [] l (record {
  split = record {
    result_pool = tt;
    left_pool = p;
    apart = λ n h. absurd h;
    whole = λ n. (inr, λ u. elim u [ inl h ↦ absurd h | inr k ↦ k ]);
  };
  counted = refl;
  conserved = omega arith;
  bounded = omega arith;
  rounds = omega arith;
  more_rounds = λ _. omega arith;
})

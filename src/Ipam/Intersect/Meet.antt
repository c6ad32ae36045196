-- ===== src/Ipam/Intersect/Meet.antt =====
-- `Intersect` of pkg/ipam/ipalloc.go returns the addresses of both pools.
use z_presplit_aci_container.Base.{
  ℕ, zero, suc, ◌+◌, ◌≤◌, ◌<◌, ◌≡◌, ◌⊎◌, inl, inr, ◌↔◌, Bool, [], ◌∷◌, Option, none, some, length,
  is_lt, arith, Bool-cases, Ordering-cases,
}
use z_presplit_aci_container.Ipam.Address.{compare_bytes}
use z_presplit_aci_container.Ipam.Address.Value.{IsIp, compare_bytes-value}
use z_presplit_aci_container.Ipam.Alloc.{IpRange, IpAlloc, add_range}
use z_presplit_aci_container.Ipam.Alloc.Order.{
  lo, hi, Within, Holds, Above, Above-mono, Above→Starts, Holds-ge,
}
use z_presplit_aci_container.Ipam.Alloc.Add.{IsPool, add_range-Holds, add_range-IsPool}
use z_presplit_aci_container.Ipam.Intersect.{advance, intersect_left, intersect_loop, intersect}

abbrev pub Meet : IpAlloc → IpAlloc → ℕ → Type 0
Meet l m n = Holds l n × Holds m n

-- The common addresses are those of `x` and those that `l'` and `m'` still share.
record Peels (x : IpRange) (l m l' m' : IpAlloc) : Type 0 where
  covers : (n : ℕ) → Meet l m n ↔ (Within x n ⊎ Meet l' m' n)
  once : (n : ℕ) → Within x n → ¬ Meet l' m' n

module _ (w : ℕ) where
  tail-Above : (r : IpRange) (l : IpAlloc) (n : ℕ) → Above w (hi r + 1) l → Holds l n → hi r < n
  tail-Above r l n p h =
      let k = Holds-ge w (hi r + 1) n l (Above→Starts w (hi r + 1) l p) h in omega arith

  module _ (a b : IpRange) (l m : IpAlloc) (p : Above w (hi a + 1) l) (q : Above w (hi b + 1) m)
      (h : lo a ≤ lo b) (ordered : lo b ≤ hi b) where
    -- `a` ends before `b` starts.
    skip_first : hi a < lo b → (n : ℕ) → Meet (a ∷ l) (b ∷ m) n ↔ Meet l (b ∷ m) n
    skip_first k n = (
      λ u. ground (arith, tail-Above a l n p, tail-Above b m n q),
      λ u. ground (arith, tail-Above a l n p, tail-Above b m n q),
    )

    peel_first :
        lo b ≤ hi a
        → hi a < hi b
        → Peels (record { start = b.start; end = a.end }) (a ∷ l) (b ∷ m) l (b ∷ m)
    peel_first k j = record {
      covers = λ n. (
        λ u. ground (arith, tail-Above a l n p, tail-Above b m n q),
        λ u. ground (arith, tail-Above a l n p, tail-Above b m n q),
      );
      once = λ n i u. ground (arith, tail-Above a l n p, tail-Above b m n q);
    }

    peel_both :
        lo b ≤ hi a
        → hi a ≡ hi b
        → Peels (record { start = b.start; end = a.end }) (a ∷ l) (b ∷ m) l m
    peel_both k j = record {
      covers = λ n. (
        λ u. ground (arith, tail-Above a l n p, tail-Above b m n q),
        λ u. ground (arith, tail-Above a l n p, tail-Above b m n q),
      );
      once = λ n i u. ground (arith, tail-Above a l n p, tail-Above b m n q);
    }

    peel_second : lo b ≤ hi b → hi b < hi a → Peels b (a ∷ l) (b ∷ m) (a ∷ l) m
    peel_second k j = record {
      covers = λ n. (
        λ u. ground (arith, tail-Above a l n p, tail-Above b m n q),
        λ u. ground (arith, tail-Above a l n p, tail-Above b m n q),
      );
      once = λ n i u. ground (arith, tail-Above a l n p, tail-Above b m n q);
    }

  -- What is found and what the lists from the two indices on still share.
  record Inv (A B result l m : IpAlloc) : Type 0 where
    found_pool : IsPool w result
    left_pool : IsPool w l
    right_pool : IsPool w m
    covers : (n : ℕ) → Meet A B n ↔ (Holds result n ⊎ Meet l m n)
    once : (n : ℕ) → Holds result n → ¬ Meet l m n

  module _ (A B result l m l' m' : IpAlloc) (v : Inv A B result l m) (pl : IsPool w l')
      (pm : IsPool w m') where
    skip-Inv : ((n : ℕ) → Meet l m n ↔ Meet l' m' n) → Inv A B result l' m'
    skip-Inv e = record {
      found_pool = v.found_pool;
      left_pool = pl;
      right_pool = pm;
      covers = λ n. (
        λ u. elim ((v.covers n).0 u) [ inl i ↦ inl i | inr j ↦ inr ((e n).0 j) ],
        λ u. elim u [ inl i ↦ (v.covers n).1 (inl i) | inr j ↦ (v.covers n).1 (inr ((e n).1 j)) ],
      );
      once = λ n i j. v.once n i ((e n).1 j);
    }

    add-Inv :
        (x : IpRange)
        → IsIp w x.start
        → IsIp w x.end
        → Peels x l m l' m'
        → Inv A B (add_range x.start x.end result) l' m'
    add-Inv x hs he q =
        let added =
          λ (n : ℕ). add_range-Holds w x result hs he n (Above→Starts w 0 result v.found_pool) in
        record {
          found_pool =
              add_range-IsPool w x result hs he v.found_pool
                (λ n i j. v.once n j ((q.covers n).1 (inl i)));
          left_pool = pl;
          right_pool = pm;
          covers = λ n. (
            λ u. elim ((v.covers n).0 u) [
              | inl i ↦ inl ((added n).1 (inr i))
              | inr j ↦ elim ((q.covers n).0 j) [
                | inl a ↦ inl ((added n).1 (inl a))
                | inr b ↦ inr b
              ]
            ],
            λ u. elim u [
              | inl i ↦ elim ((added n).0 i) [
                | inl a ↦ (v.covers n).1 (inr ((q.covers n).1 (inl a)))
                | inr c ↦ (v.covers n).1 (inl c)
              ]
              | inr j ↦ (v.covers n).1 (inr ((q.covers n).1 (inr j)))
            ],
          );
          once = λ n i j. elim ((added n).0 i) [
            | inl a ↦ q.once n a j
            | inr c ↦ v.once n c ((q.covers n).1 (inr j))
          ];
        }

  Inv-flip : {A B result l m : IpAlloc} → Inv A B result l m → Inv B A result m l
  Inv-flip v = record {
    found_pool = v.found_pool;
    left_pool = v.right_pool;
    right_pool = v.left_pool;
    covers = λ n. (
      λ u. elim ((v.covers n).0 (u.1, u.0)) [ inl i ↦ inl i | inr j ↦ inr (j.1, j.0) ],
      λ u. elim u [
        | inl i ↦ (let k = (v.covers n).1 (inl i) in (k.1, k.0))
        | inr j ↦ (let k = (v.covers n).1 (inr (j.1, j.0)) in (k.1, k.0))
      ],
    );
    once = λ n i j. v.once n i (j.1, j.0);
  }

  IsPool-tail : (r : IpRange) (l : IpAlloc) → IsPool w (r ∷ l) → IsPool w l
  IsPool-tail r l p = Above-mono w (hi r + 1) 0 l (omega arith) p.2

  -- A round keeps the invariant, and a list moves on.
  abbrev Rounds :
      (A B : IpAlloc) (a : IpRange) (l : IpAlloc) (b : IpRange) (m : IpAlloc)
      → IpAlloc × Bool × Bool
      → Type 0
  Rounds A B a l b m (result, i, j) =
      Inv A B result (advance i a l) (advance j b m)
      × (length (advance i a l) + length (advance j b m) < length (a ∷ l) + length (b ∷ m))

  intersect_left-Rounds :
      (A B result : IpAlloc) (a : IpRange) (l : IpAlloc) (b : IpRange) (m : IpAlloc)
      → Inv A B result (a ∷ l) (b ∷ m)
      → lo a ≤ lo b
      → Rounds A B a l b m (intersect_left result a b)
  unfolding intersect_left
  intersect_left-Rounds A B result a l b m v h =
      let p = v.left_pool in
      let q = v.right_pool in
      let ob = q.1.ordered in
      let pl = IsPool-tail a l p in
      let pm = IsPool-tail b m q in
      let starts = compare_bytes-value p.1.end_ip q.1.start_ip in
      let ends = compare_bytes-value p.1.end_ip q.1.end_ip in
      elim (Bool-cases (is_lt (compare_bytes a.end b.start))) [
        | inl e ↦ rw e (
          skip-Inv A B result (a ∷ l) (b ∷ m) l (b ∷ m) v pl q
              (skip_first a b l m p.2 q.2 h ob (ground arith)),
          omega arith,
        )
        | inr e ↦ elim (Ordering-cases (compare_bytes a.end b.end)) [
          | inl f ↦
              rw (e, f)
                (
                  add-Inv A B result (a ∷ l) (b ∷ m) l (b ∷ m) v pl q _ q.1.start_ip p.1.end_ip
                      (peel_first a b l m p.2 q.2 h ob (ground arith) (ground arith)),
                  omega arith,
                )
          | inr (inl f) ↦
              rw (e, f)
                (
                  add-Inv A B result (a ∷ l) (b ∷ m) l m v pl pm _ q.1.start_ip p.1.end_ip
                      (peel_both a b l m p.2 q.2 h ob (ground arith) (ground arith)),
                  omega arith,
                )
          | inr (inr f) ↦
              rw (e, f)
                (
                  add-Inv A B result (a ∷ l) (b ∷ m) (a ∷ l) m v p pm _ q.1.start_ip q.1.end_ip
                      (peel_second a b l m p.2 q.2 h ob ob (ground arith)),
                  omega arith,
                )
        ]
      ]

  -- The lists are the addresses of both pools, and the rounds suffice.
  abbrev pub Common : (A B : IpAlloc) → Option IpAlloc → Type 0
  Common A B none = ⊥
  Common A B (some r) = IsPool w r × ((n : ℕ) → Holds r n ↔ Meet A B n)

  done-left : (A B result m : IpAlloc) → Inv A B result [] m → Common A B (some result)
  done-left A B result m v = (
    v.found_pool,
    λ n. (
      λ u. (v.covers n).1 (inl u),
      λ u. elim ((v.covers n).0 u) [ inl i ↦ i | inr j ↦ absurd j.0 ],
    ),
  )

  done-right : (A B result l : IpAlloc) → Inv A B result l [] → Common A B (some result)
  done-right A B result l v = (
    v.found_pool,
    λ n. (
      λ u. (v.covers n).1 (inl u),
      λ u. elim ((v.covers n).0 u) [ inl i ↦ i | inr j ↦ absurd j.1 ],
    ),
  )

  intersect_loop-Common :
      (A B : IpAlloc) (fuel : ℕ) (result l m : IpAlloc)
      → Inv A B result l m
      → length l + length m ≤ fuel
      → Common A B (intersect_loop fuel result l m)
  unfolding intersect_loop
  intersect_loop-Common A B zero result [] m v h = done-left A B result m v
  intersect_loop-Common A B zero result (a ∷ l) [] v h = done-right A B result (a ∷ l) v
  intersect_loop-Common A B zero result (a ∷ l) (b ∷ m) v h = absurd (omega arith)
  intersect_loop-Common A B (suc fuel) result [] m v h = done-left A B result m v
  intersect_loop-Common A B (suc fuel) result (a ∷ l) [] v h = done-right A B result (a ∷ l) v
  intersect_loop-Common A B (suc fuel) result (a ∷ l) (b ∷ m) v h =
      let p = v.left_pool in
      let q = v.right_pool in
      let order = compare_bytes-value p.1.start_ip q.1.start_ip in
      elim (Bool-cases (is_lt (compare_bytes a.start b.start))) [
        | inl e ↦
            let (k, fewer) = intersect_left-Rounds A B result a l b m v (ground arith) in
            rw e (intersect_loop-Common A B fuel _ _ _ k (omega arith))
        | inr e ↦
            let (k, fewer) = intersect_left-Rounds B A result b m a l (Inv-flip v) (ground arith) in
            rw e (intersect_loop-Common A B fuel _ _ _ (Inv-flip k) (omega arith))
      ]

  -- For two lists of separate ranges in order, Intersect ends, and its result is a list of
  -- separate ranges in order that holds exactly the addresses held by both.
  pub intersect-Common :
      (l other : IpAlloc) → IsPool w l → IsPool w other → Common l other (intersect l other)
  unfolding intersect
  intersect-Common l other p q =
      intersect_loop-Common l other (length l + length other) [] l other
        (record {
          found_pool = tt;
          left_pool = p;
          right_pool = q;
          covers = λ n. (inr, λ u. elim u [ inl i ↦ absurd i | inr j ↦ j ]);
          once = λ n i. absurd i;
        })
        (omega arith)

-- ===== src/Ipam/Alloc/Add.antt =====
-- `AddRange` of pkg/ipam/ipalloc.go: the addresses that it adds, and the order that it keeps.
use z_presplit_aci_container.Base.{
  ℕ, ◌+◌, ◌≤◌, ◌<◌, ◌≡◌, ◌⊎◌, inl, inr, ◌↔◌, true, [], ◌∷◌, leb, is_gt, arith, dec_lt, max,
  Bool-cases,
}
use z_presplit_aci_container.Ipam.Address.{compare_bytes}
use z_presplit_aci_container.Ipam.Address.Value.{IsIp, compare_bytes-value}
use z_presplit_aci_container.Ipam.Alloc.{IpRange, IpAlloc, add_range}
use z_presplit_aci_container.Ipam.Alloc.Order.{
  lo, hi, IsRange, Within, Holds, Starts, Above, Above→Starts, absorb-Holds, absorb-Starts,
  absorb-Above,
}
use z_presplit_aci_container.Ipam.Alloc.Insert.{
  reaches, insert_after, insert_range, add_range-insert_range,
}

-- No address of `r` is held.
abbrev pub Apart : IpRange → IpAlloc → Type 0
Apart r l = (n : ℕ) → Within r n → ¬ Holds l n

swap_next : {P Q R : Type 0} → P ⊎ Q ⊎ R → Q ⊎ P ⊎ R
swap_next (inl p) = inr (inl p)
swap_next (inr (inl q)) = inl q
swap_next (inr (inr r)) = inr (inr r)

module _ (w : ℕ) where
  pub reaches-value : (x s : IpRange) → IsRange w x → IsRange w s → reaches x s ≡ leb (lo x) (lo s)
  reaches-value x s hx hs = ground (arith, compare_bytes-value hs.start_ip hx.start_ip)

  pub Apart-sides :
      (x s : IpRange) (l : IpAlloc)
      → IsRange w x
      → IsRange w s
      → Apart x (s ∷ l)
      → (hi x < lo s) ⊎ (hi s < lo x)
  Apart-sides x s l hx hs apart =
      let ox = hx.ordered in
      let os = hs.ordered in
      elim (dec_lt (hi x) (lo s)) [
        | yes p ↦ inl p
        | no p ↦ elim (dec_lt (hi s) (lo x)) [
          | yes q ↦ inr q
          | no q ↦ absurd (
              apart (max (lo x) (lo s)) (omega arith, omega arith) (inl (omega arith, omega arith)))
        ]
      ]

  insert_after-Holds :
      (r x : IpRange) (l : IpAlloc) (n : ℕ)
      → IsRange w r
      → IsRange w x
      → lo r ≤ lo x
      → Starts w (lo r) l
      → Holds (insert_after r x l) n ↔ Holds (r ∷ x ∷ l) n
  unfolding insert_after
  insert_after-Holds r x [] n hr hx h p = absorb-Holds w r (x ∷ []) n hr (h, hx, tt)
  insert_after-Holds r x (s ∷ l) n hr hx h (k, hs, p) = elim (Bool-cases (reaches x s)) [
    | inl e ↦ rw e (
        absorb-Holds w r (x ∷ s ∷ l) n hr (h, hx, (ground (arith, reaches-value x s hx hs), hs, p)))
    | inr e ↦
        let (f, g) = insert_after-Holds s x l n hs hx (ground (arith, reaches-value x s hx hs)) p in
        rw e (
          λ u. elim u [ inl i ↦ inl i | inr j ↦ inr (swap_next (f j)) ],
          λ u. elim u [ inl i ↦ inl i | inr j ↦ inr (g (swap_next j)) ],
        )
  ]

  insert_after-Starts :
      (b : ℕ) (r x : IpRange) (l : IpAlloc)
      → b ≤ lo r
      → IsRange w r
      → IsRange w x
      → lo r ≤ lo x
      → Starts w (lo r) l
      → Starts w b (insert_after r x l)
  unfolding insert_after
  insert_after-Starts b r x [] h hr hx k p = absorb-Starts w b r (x ∷ []) h hr (k, hx, tt)
  insert_after-Starts b r x (s ∷ l) h hr hx k (m, hs, p) = elim (Bool-cases (reaches x s)) [
    | inl e ↦ rw e (
        absorb-Starts w b r (x ∷ s ∷ l) h hr
          (k, hx, (ground (arith, reaches-value x s hx hs), hs, p)))
    | inr e ↦ rw e (
      h,
      hr,
      insert_after-Starts (lo r) s x l m hs hx (ground (arith, reaches-value x s hx hs)) p,
    )
  ]

  insert_after-Above :
      (b : ℕ) (r x : IpRange) (l : IpAlloc)
      → b ≤ lo r
      → IsRange w r
      → IsRange w x
      → hi r < lo x
      → Above w (hi r + 1) l
      → Apart x l
      → Above w b (insert_after r x l)
  unfolding insert_after
  insert_after-Above b r x [] h hr hx k p apart =
      absorb-Above w b r (x ∷ []) h hr (omega arith, hx, tt)
  insert_after-Above b r x (s ∷ l) h hr hx k (m, hs, p) apart = elim (Bool-cases (reaches x s)) [
    | inl e ↦
        let before : lo x ≤ lo s = ground (arith, reaches-value x s hx hs) in
        let os = hs.ordered in
        let separate : hi x < lo s = omega (arith, Apart-sides x s l hx hs apart) in
        rw e (absorb-Above w b r (x ∷ s ∷ l) h hr (omega arith, hx, (omega arith, hs, p)))
    | inr e ↦
        let behind : lo s < lo x = ground (arith, reaches-value x s hx hs) in
        let ox = hx.ordered in
        let separate : hi s < lo x = omega (arith, Apart-sides x s l hx hs apart) in
        rw e (
          h,
          hr,
          insert_after-Above (hi r + 1) s x l m hs hx separate p (λ n i j. apart n i (inr j)),
        )
  ]

  insert_range-Holds :
      (b : ℕ) (x : IpRange) (l : IpAlloc) (n : ℕ)
      → IsRange w x
      → Starts w b l
      → Holds (insert_range x l) n ↔ (Within x n ⊎ Holds l n)
  unfolding insert_range
  insert_range-Holds b x [] n hx p = absorb-Holds w x [] n hx tt
  insert_range-Holds b x (r ∷ l) n hx (h, hr, p) = elim (Bool-cases (reaches x r)) [
    | inl e ↦ rw e (absorb-Holds w x (r ∷ l) n hx (ground (arith, reaches-value x r hx hr), hr, p))
    | inr e ↦
        let (f, g) = insert_after-Holds r x l n hr hx (ground (arith, reaches-value x r hx hr)) p in
        rw e (λ u. swap_next (f u), λ u. g (swap_next u))
  ]

  insert_range-Starts :
      (b : ℕ) (x : IpRange) (l : IpAlloc)
      → IsRange w x
      → Starts w b l
      → Starts w 0 (insert_range x l)
  unfolding insert_range
  insert_range-Starts b x [] hx p = absorb-Starts w 0 x [] (omega arith) hx tt
  insert_range-Starts b x (r ∷ l) hx (h, hr, p) = elim (Bool-cases (reaches x r)) [
    | inl e ↦ rw e (
        absorb-Starts w 0 x (r ∷ l) (omega arith) hx
          (ground (arith, reaches-value x r hx hr), hr, p))
    | inr e ↦ rw e (
        insert_after-Starts 0 r x l (omega arith) hr hx (ground (arith, reaches-value x r hx hr)) p)
  ]

  insert_range-Above :
      (b : ℕ) (x : IpRange) (l : IpAlloc)
      → b ≤ lo x
      → IsRange w x
      → Above w b l
      → Apart x l
      → Above w b (insert_range x l)
  unfolding insert_range
  insert_range-Above b x [] k hx p apart = absorb-Above w b x [] k hx tt
  insert_range-Above b x (r ∷ l) k hx (h, hr, p) apart = elim (Bool-cases (reaches x r)) [
    | inl e ↦
        let before : lo x ≤ lo r = ground (arith, reaches-value x r hx hr) in
        let os = hr.ordered in
        let separate : hi x < lo r = omega (arith, Apart-sides x r l hx hr apart) in
        rw e (absorb-Above w b x (r ∷ l) k hx (omega arith, hr, p))
    | inr e ↦
        let behind : lo r < lo x = ground (arith, reaches-value x r hx hr) in
        let ox = hx.ordered in
        let separate : hi r < lo x = omega (arith, Apart-sides x r l hx hr apart) in
        rw e (insert_after-Above b r x l h hr hx separate p (λ n i j. apart n i (inr j)))
  ]

-- The ranges start in order; they may overlap.
abbrev pub IsSorted : ℕ → IpAlloc → Type 0
IsSorted w l = Starts w 0 l

-- The ranges are in order and separate.
abbrev pub IsPool : ℕ → IpAlloc → Type 0
IsPool w l = Above w 0 l

module _ (w : ℕ) (x : IpRange) (l : IpAlloc) (hs : IsIp w x.start) (he : IsIp w x.end) where
  -- A range that ends before it starts is ignored.
  add_range_cases {ℓ} :
      (P : IpAlloc → Type ℓ)
      → IsSorted w l
      → (hi x < lo x → P l)
      → (IsRange w x → P (insert_range x l))
      → P (add_range x.start x.end l)
  add_range_cases P p ignored inserted = elim (dec_lt (hi x) (lo x)) [
    | yes h ↦
        unfold add_range in
        (let e : is_gt (compare_bytes x.start x.end) ≡ true =
            ground (arith, compare_bytes-value hs he) in
          rw e (ignored h))
    | no h ↦
        let hx : IsRange w x = record { start_ip = hs; end_ip = he; ordered = omega arith } in
        rw (add_range-insert_range w 0 x l hx p) (inserted hx)
  ]

  -- On a list of valid ranges in order of their starts, AddRange with any two addresses of the
  -- same width yields a list that holds exactly the addresses between them and those held before;
  -- a range that ends before it starts adds none.
  pub add_range-Holds :
      (n : ℕ) → IsSorted w l → Holds (add_range x.start x.end l) n ↔ (Within x n ⊎ Holds l n)
  add_range-Holds n p =
      add_range_cases (λ t. Holds t n ↔ (Within x n ⊎ Holds l n)) p
        (λ h. (inr, λ u. elim u [ inl i ↦ absurd (omega arith) | inr j ↦ j ]))
        (λ hx. insert_range-Holds w 0 x l n hx p)

  pub add_range-IsSorted : IsSorted w l → IsSorted w (add_range x.start x.end l)
  add_range-IsSorted p =
      add_range_cases (IsSorted w) p (λ h. p) (λ hx. insert_range-Starts w 0 x l hx p)

  -- AddRange keeps the ranges separate and in order, if no address of the new range was held.
  pub add_range-IsPool : IsPool w l → Apart x l → IsPool w (add_range x.start x.end l)
  add_range-IsPool p apart =
      add_range_cases (IsPool w) (Above→Starts w 0 l p) (λ h. p)
        (λ hx. insert_range-Above w 0 x l (omega arith) hx p apart)

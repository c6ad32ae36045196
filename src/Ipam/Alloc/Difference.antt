-- ===== src/Ipam/Alloc/Difference.antt =====
-- `RemoveRange` of pkg/ipam/ipalloc.go: the addresses that it leaves, and what its result tells.
use z_presplit_aci_container.Base.{
  ℕ, ◌+◌, ◌<◌, ◌≡◌, refl, ◌⊎◌, inl, inr, ◌↔◌, Bool, true, false, [], ◌∷◌, ◌++◌, max, is_gt, arith,
  dec_lt, Bool-cases,
}
use z_presplit_aci_container.Ipam.Address.{compare_bytes}
use z_presplit_aci_container.Ipam.Address.Value.{IsIp, compare_bytes-value}
use z_presplit_aci_container.Ipam.Alloc.{IpRange, IpAlloc, cut_range, remove_range}
use z_presplit_aci_container.Ipam.Alloc.Order.{lo, hi, IsRange, Within, Holds, Above}
use z_presplit_aci_container.Ipam.Alloc.Add.{IsPool}
use z_presplit_aci_container.Ipam.Alloc.Cut.{cut_range-Holds, cut_range-Above, cut_range_changed}
use z_presplit_aci_container.Ipam.Alloc.Remove.{cut_each, any_cut, remove_range-cut_each}

abbrev pub Outside : IpRange → ℕ → Type 0
Outside x n = (n < lo x) ⊎ (hi x < n)

-- Some address of `x` is held.
abbrev pub Meets : IpRange → IpAlloc → Type 0
Meets x l = (n : ℕ) × Within x n × Holds l n

pub Holds-append : (l m : IpAlloc) (n : ℕ) → Holds (l ++ m) n ↔ (Holds l n ⊎ Holds m n)
Holds-append [] m n = (inr, λ u. elim u [ inl e ↦ absurd e | inr h ↦ h ])
Holds-append (r ∷ l) m n =
    let (f, g) = Holds-append l m n in
    (
      λ u. elim u [
        | inl h ↦ inl (inl h)
        | inr k ↦ elim (f k) [ inl i ↦ inl (inr i) | inr j ↦ inr j ]
      ],
      λ u. elim u [ inl (inl h) ↦ inl h | inl (inr i) ↦ inr (g (inl i)) | inr j ↦ inr (g (inr j)) ],
    )

module _ (w : ℕ) (x : IpRange) (hx : IsRange w x) where
  cut_each-Holds :
      (b : ℕ) (l : IpAlloc) (n : ℕ)
      → Above w b l
      → Holds (cut_each x l) n ↔ (Holds l n × Outside x n)
  unfolding cut_each
  cut_each-Holds b [] n p = (λ h. absurd h, λ u. u.0)
  cut_each-Holds b (r ∷ l) n p =
      let (f, g) = cut_range-Holds w r x p.1 hx n in
      let (f', g') = cut_each-Holds (hi r + 1) l n p.2 in
      let (split, join) = Holds-append (cut_range r x.start x.end).0 (cut_each x l) n in
      (
        λ u. elim (split u) [ inl h ↦ (inl (f h).0, (f h).1) | inr h ↦ (inr (f' h).0, (f' h).1) ],
        λ u. elim u.0 [ inl h ↦ join (inl (g (h, u.1))) | inr h ↦ join (inr (g' (h, u.1))) ],
      )

  cut_each-Above : (b : ℕ) (l : IpAlloc) → Above w b l → Above w b (cut_each x l)
  unfolding cut_each
  cut_each-Above b [] p = tt
  cut_each-Above b (r ∷ l) p =
      cut_range-Above w r x p.1 hx b (cut_each x l) p.0 (cut_each-Above (hi r + 1) l p.2)

  -- A shared address, from ranges that overlap.
  any_cut-Meets : (b : ℕ) (l : IpAlloc) → Above w b l → (any_cut x l ≡ true) ↔ Meets x l
  unfolding any_cut
  any_cut-Meets b [] p = (λ e. cc, λ u. absurd u.2)
  any_cut-Meets b (r ∷ l) p =
      let (f, g) = cut_range_changed w r x p.1 hx in
      let (f', g') = any_cut-Meets (hi r + 1) l p.2 in
      let ox = hx.ordered in
      let or = p.1.ordered in
      elim (Bool-cases (cut_range r x.start x.end).1) [
        | inl e ↦
            let (h, k) = f e in
            rw e (
              λ u. (max (lo r) (lo x), (omega arith, omega arith), inl (omega arith, omega arith)),
              λ u. refl,
            )
        | inr e ↦ rw e (
          λ u. (let (n, i, j) = f' u in (n, i, inr j)),
          λ u. elim u.2 [
            | inl h ↦ absurd (differ (g (omega arith, omega arith)) e)
            | inr h ↦ g' (u.0, u.1, h)
          ],
        )
      ]
    where
      differ : {c : Bool} → c ≡ true → c ≡ false → ⊥
      differ p q = cc

module _ (w : ℕ) (x : IpRange) (l : IpAlloc) (hs : IsIp w x.start) (he : IsIp w x.end)
    (p : IsPool w l) where
  remove_range_cases {ℓ} :
      (P : IpAlloc × Bool → Type ℓ)
      → (hi x < lo x → P (l, false))
      → (IsRange w x → P (cut_each x l, any_cut x l))
      → P (remove_range x.start x.end l)
  remove_range_cases P ignored cut = elim (dec_lt (hi x) (lo x)) [
    | yes h ↦
        unfold remove_range in
        (let e : is_gt (compare_bytes x.start x.end) ≡ true =
            ground (arith, compare_bytes-value hs he) in
          rw e (ignored h))
    | no h ↦
        let hx : IsRange w x = record { start_ip = hs; end_ip = he; ordered = omega arith } in
        rw (remove_range-cut_each w x hx l p) (cut hx)
  ]

  -- On separate ranges in order, RemoveRange with any two addresses of the same width leaves
  -- exactly the addresses that were held and lie below the first or above the second.
  pub remove_range-Holds :
      (n : ℕ) → Holds (remove_range x.start x.end l).0 n ↔ (Holds l n × Outside x n)
  remove_range-Holds n =
      remove_range_cases (λ c. Holds c.0 n ↔ (Holds l n × Outside x n))
        (λ h. (λ u. (u, omega arith), λ u. u.0)) (λ hx. cut_each-Holds w x hx 0 l n p)

  -- RemoveRange keeps the ranges separate and in order, whatever addresses of the same width it is
  -- given.
  pub remove_range-IsPool : IsPool w (remove_range x.start x.end l).0
  remove_range-IsPool =
      remove_range_cases (λ c. IsPool w c.0) (λ h. p) (λ hx. cut_each-Above w x hx 0 l p)

  -- On separate ranges in order, RemoveRange reports a change exactly if some address between the
  -- two given was held.
  pub remove_range-Meets : ((remove_range x.start x.end l).1 ≡ true) ↔ Meets x l
  remove_range-Meets =
      remove_range_cases (λ c. (c.1 ≡ true) ↔ Meets x l) (λ h. (λ e. cc, λ u. absurd (omega arith)))
        (λ hx. any_cut-Meets w x hx 0 l p)

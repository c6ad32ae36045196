-- ===== src/Ipam/Cidr/Cover.antt =====
-- The subnets of Range2Cidr in pkg/ipam/iprange.go cover exactly the range.
use z_presplit_aci_container.Base.{
  ℕ, zero, suc, ◌+◌, ◌*◌, ◌^◌, ◌<◌, ◌≤◌, ◌≡◌, ◌∙◌, refl, sym, subst, ap, true, false, not, List, [],
  ◌∷◌, length, All, arith, ◌↔◌, ◌⊎◌, inl, inr, Bool-cases, ltb, is_eq, is_le, is_gt,
}
use z_presplit_aci_container.Ipam.Address.{Ip, compare_bytes}
use z_presplit_aci_container.Ipam.Address.Value.{
  value, IsByte, IsIp, value-lt, pow-suc_256, compare_bytes-value,
}
use z_presplit_aci_container.Ipam.Cidr.{
  mask, last, next, IpNet, fits, shrink, end_of_range, cidr_loop, range2cidr,
}
use z_presplit_aci_container.Ipam.Cidr.Next.{next-IsIp, value-next}
use z_presplit_aci_container.Ipam.Cidr.Masks.{Between, last-IsIp, mask_all, mask-Between}

-- `IPNet.Contains`, of a subnet whose address is masked.
abbrev pub InNet : IpNet → Ip → Type 0
InNet net x = mask net.ones x ≡ net.ip

abbrev pub InNets : List IpNet → Ip → Type 0
InNets [] x = ⊥
InNets (net ∷ nets) x = InNet net x ⊎ InNets nets x

compare_bytes-eq : (a b : Ip) → is_eq (compare_bytes a b) ≡ true → a ≡ b
unfolding compare_bytes
compare_bytes-eq [] [] h = refl
compare_bytes-eq [] (b ∷ bs) h = absurd (ground arith)
compare_bytes-eq (a ∷ as') [] h = absurd (ground arith)
compare_bytes-eq (a ∷ as') (b ∷ bs) h = ground (arith, compare_bytes-eq as' bs)

end_of_range-bytes : (a : Ip) → All IsByte (end_of_range a)
unfolding end_of_range
end_of_range-bytes [] = tt
end_of_range-bytes (b ∷ a) = (omega arith, end_of_range-bytes a)

length-end_of_range : (a : Ip) → length (end_of_range a) ≡ length a
unfolding end_of_range
length-end_of_range [] = refl
length-end_of_range (b ∷ a) = ap suc (length-end_of_range a)

value-end_of_range : (a : Ip) → value (end_of_range a) + 1 ≡ 256 ^ length a
unfolding value end_of_range
value-end_of_range [] = omega arith
value-end_of_range (b ∷ a) =
    rw length-end_of_range (omega (arith, value-end_of_range a, pow-suc_256 (length a)))

-- A subnet that starts at `s` and ends in time.
abbrev Fit : ℕ → Ip → Ip → Type 0
Fit l s e = (mask l s ≡ s) × (value (last l s) ≤ value e)

module _ {w : ℕ} {s e : Ip} (hs : IsIp w s) (he : IsIp w e) where
  fits-Fit : (l : ℕ) → fits l s e ≡ true → Fit l s e
  unfolding fits
  fits-Fit l h =
      let both : (is_eq (compare_bytes s (mask l s)) ≡ true)
          × (not (is_gt (compare_bytes (last l s) e)) ≡ true) =
        (ground (arith, h), ground (arith, h)) in
      (
        sym (compare_bytes-eq s (mask l s) both.0),
        ground (arith, both.1, compare_bytes-value (last-IsIp hs l) he),
      )

  shrink-Fit : (l : ℕ) → Fit l s e → Fit (shrink l s e) s e
  unfolding shrink
  shrink-Fit zero h = h
  shrink-Fit (suc l) h = elim (Bool-cases (fits l s e)) [
    | inl f ↦ rw f (shrink-Fit l (fits-Fit l f))
    | inr f ↦ rw f h
  ]

  start_fits : value s ≤ value e → Fit (8 * length s) s e
  start_fits h =
      let full = mask_all hs (8 * length s) (omega (arith, hs.width)) in
      (full.0, subst (λ a. value a ≤ value e) (sym full.1) h)

  at_end :
      (l : ℕ)
      → is_eq (compare_bytes (last l s) (end_of_range s)) ≡ true
      → value (last l s) + 1 ≡ 256 ^ w
  at_end l h =
      ap (λ a. value a + 1) (compare_bytes-eq (last l s) (end_of_range s) h)
      ∙ value-end_of_range s
      ∙ ap (λ n. 256 ^ n) hs.width

  not_at_end :
      (l : ℕ)
      → is_eq (compare_bytes (last l s) (end_of_range s)) ≡ false
      → value (last l s) + 1 < 256 ^ w
  not_at_end l h =
      let ends : IsIp w (end_of_range s) = record {
        width = length-end_of_range s ∙ hs.width;
        bytes = end_of_range-bytes s;
      } in
      let full : value (end_of_range s) + 1 ≡ 256 ^ w =
        value-end_of_range s ∙ ap (λ n. 256 ^ n) hs.width in
      ground (arith, full, value-lt (last-IsIp hs l), compare_bytes-value (last-IsIp hs l) ends, h)

  -- The first subnet, from its first address to its last one.
  first_net :
      (l : ℕ) {x : Ip}
      → IsIp w x
      → Fit l s e
      → (InNet (record { ip = s; ones = l }) x ↔ Between l s x) × (value s ≤ value (last l s))
  first_net l hx fit = (mask-Between hs l hx fit.0, ((mask-Between hs l hs fit.0).0 fit.0).1)

abbrev pub InRange : Ip → Ip → Ip → Type 0
InRange s e x = (value s ≤ value x) × (value x ≤ value e)

cidr_loop-covers :
    (w rounds : ℕ) (s e x : Ip)
    → IsIp w s
    → IsIp w e
    → IsIp w x
    → value e < rounds + value s
    → InNets (cidr_loop rounds s e) x ↔ InRange s e x
unfolding cidr_loop
cidr_loop-covers w zero s e x hs he hx h = (λ u. absurd u, λ u. absurd (omega (arith, u, h)))
cidr_loop-covers w (suc rounds) s e x hs he hx h =
    let l = shrink (8 * length s) s e in
    let net : IpNet = record { ip = s; ones = l } in
    let above = last l s in
    elim (Bool-cases (is_le (compare_bytes s e))) [
      | inr gt ↦ rw gt (
          let lt : value e < value s = ground (arith, gt, compare_bytes-value hs he) in
          (λ u. absurd u, λ u. absurd (omega (arith, u, lt))))
      | inl le ↦
          let ordered : value s ≤ value e = ground (arith, le, compare_bytes-value hs he) in
          let fit = shrink-Fit hs he (8 * length s) (start_fits hs he ordered) in
          let (here, grows) = first_net hs he l hx fit in
          elim (Bool-cases (is_eq (compare_bytes above (end_of_range s)))) [
            | inl full ↦
                rw (le, full)
                  (let top = at_end hs he l full in
                    (
                      λ u. elim u [
                        | inl i ↦ (omega (arith, here.0 i), omega (arith, here.0 i, fit.1))
                        | inr i ↦ absurd i
                      ],
                      λ u.
                          inl
                            (here.1 (omega (arith, u), omega (arith, u, top, value-lt he, fit.1))),
                    ))
            | inr more ↦
                rw (le, more)
                  (let after = value-next (last-IsIp hs l) (not_at_end hs he l more) in
                    let rest =
                      cidr_loop-covers w rounds (next above) e x (next-IsIp (last-IsIp hs l)) he hx
                        (omega (arith, after, grows, h)) in
                    (
                      λ u. elim u [
                        | inl i ↦ (omega (arith, here.0 i), omega (arith, here.0 i, fit.1))
                        | inr i ↦ (omega (arith, rest.0 i, after, grows), omega (arith, rest.0 i))
                      ],
                      λ u. elim (Bool-cases (ltb (value above) (value x))) [
                        | inl b ↦
                            let lt : value above < value x = ground (arith, b) in
                            inr (rest.1 (omega (arith, after, lt), omega (arith, u)))
                        | inr b ↦
                            let ge : value x ≤ value above = ground (arith, b) in
                            inl (here.1 (omega (arith, u), ge))
                      ],
                    ))
          ]
    ]

-- For two addresses of one width, the rounds given to Range2Cidr are enough, and the subnets that
-- it returns contain exactly the addresses of that width from the first to the second, none if the
-- second lies below the first.
pub range2cidr-covers :
    {w : ℕ} {s e x : Ip}
    → IsIp w s
    → IsIp w e
    → IsIp w x
    → InNets (range2cidr s e) x ↔ InRange s e x
unfolding range2cidr
range2cidr-covers {w} {s} {e} {x} hs he hx =
    cidr_loop-covers w (suc (value e)) s e x hs he hx (omega arith)

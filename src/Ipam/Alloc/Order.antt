-- ===== src/Ipam/Alloc/Order.antt =====
-- The order of the ranges of an `IpAlloc`, the addresses that it holds, and both through merges.
use z_presplit_aci_container.Base.{
  ℕ, ◌+◌, ◌≤◌, ◌≡◌, ◌⊎◌, inl, inr, ◌↔◌, true, [], ◌∷◌, leb, is_lt, max, arith, dec_le, Bool-cases,
}
use z_presplit_aci_container.Ipam.Address.{compare_bytes, is_adj_or_greater}
use z_presplit_aci_container.Ipam.Address.Value.{
  value, IsIp, compare_bytes-value, is_adj_or_greater-value,
}
use z_presplit_aci_container.Ipam.Alloc.{IpRange, IpAlloc}
use z_presplit_aci_container.Ipam.Alloc.Merge.{widen, absorb}

abbrev pub lo : IpRange → ℕ
lo r = value r.start

abbrev pub hi : IpRange → ℕ
hi r = value r.end

-- Addresses of `w` bytes, the first not above the last.
pub record IsRange (w : ℕ) (r : IpRange) : Type 0 where
  pub start_ip : IsIp w r.start
  pub end_ip : IsIp w r.end
  pub ordered : lo r ≤ hi r

-- The alternatives of the merged range put before the others, and back.
regroup : {P Q R S : Type 0} → (P → Q ⊎ R) → P ⊎ S → Q ⊎ R ⊎ S
regroup f (inl p) = elim (f p) [ inl q ↦ inl q | inr r ↦ inr (inl r) ]
regroup f (inr s) = inr (inr s)

ungroup : {P Q R S : Type 0} → (Q ⊎ R → P) → Q ⊎ R ⊎ S → P ⊎ S
ungroup g (inl q) = inl (g (inl q))
ungroup g (inr (inl r)) = inl (g (inr r))
ungroup g (inr (inr s)) = inr s

-- An address, given as a number, lies in the range.
abbrev pub Within : IpRange → ℕ → Type 0
Within r n = (lo r ≤ n) × (n ≤ hi r)

abbrev pub Holds : IpAlloc → ℕ → Type 0
Holds [] n = ⊥
Holds (r ∷ l) n = Within r n ⊎ Holds l n

-- Ranges by increasing start, from `b` on; they may overlap.
abbrev pub Starts : ℕ → ℕ → IpAlloc → Type 0
Starts w b [] = Unit {0}
Starts w b (r ∷ l) = (b ≤ lo r) × IsRange w r × Starts w (lo r) l

-- Ranges in order that do not overlap, from `b` on.
abbrev pub Above : ℕ → ℕ → IpAlloc → Type 0
Above w b [] = Unit {0}
Above w b (r ∷ l) = (b ≤ lo r) × IsRange w r × Above w (hi r + 1) l

module _ (w : ℕ) where
  pub Starts-mono : (b c : ℕ) (l : IpAlloc) → c ≤ b → Starts w b l → Starts w c l
  Starts-mono b c [] h p = tt
  Starts-mono b c (r ∷ l) h p = (omega arith, p.1, p.2)

  pub Above-mono : (b c : ℕ) (l : IpAlloc) → c ≤ b → Above w b l → Above w c l
  Above-mono b c [] h p = tt
  Above-mono b c (r ∷ l) h p = (omega arith, p.1, p.2)

  pub Above→Starts : (b : ℕ) (l : IpAlloc) → Above w b l → Starts w b l
  Above→Starts b [] p = tt
  Above→Starts b (r ∷ l) p =
      let ordered = p.1.ordered in
      (p.0, p.1, Starts-mono (hi r + 1) (lo r) l (omega arith) (Above→Starts (hi r + 1) l p.2))

  -- Nothing below the bound is held.
  pub Holds-ge : (b n : ℕ) (l : IpAlloc) → Starts w b l → Holds l n → b ≤ n
  Holds-ge b n [] p h = absurd h
  Holds-ge b n (r ∷ l) p (inl h) = omega arith
  Holds-ge b n (r ∷ l) p (inr h) = omega (arith, Holds-ge (lo r) n l p.2 h)

  module _ {r s : IpRange} (hr : IsRange w r) (hs : IsRange w s) where
    pub adjacent : is_adj_or_greater r.end s.start ≡ leb (lo s) (hi r + 1)
    adjacent = is_adj_or_greater-value hr.end_ip hs.start_ip

    pub widen-IsRange : IsRange w (widen r s)
    widen-IsRange =
        let ordered = hr.ordered in
        elim (Bool-cases (is_lt (compare_bytes r.end s.end))) [
          | inl e ↦ rw e (record {
            start_ip = hr.start_ip;
            end_ip = hs.end_ip;
            ordered = ground (arith, compare_bytes-value hr.end_ip hs.end_ip);
          })
          | inr e ↦ rw e hr
        ]

    pub lo-widen : lo (widen r s) ≡ lo r
    lo-widen = ground arith

    pub hi-widen : hi (widen r s) ≡ max (hi r) (hi s)
    hi-widen = ground (arith, compare_bytes-value hr.end_ip hs.end_ip)

    -- No address lies between adjacent ranges.
    pub widen-Within :
        (n : ℕ)
        → lo r ≤ lo s
        → is_adj_or_greater r.end s.start ≡ true
        → Within (widen r s) n ↔ (Within r n ⊎ Within s n)
    widen-Within n h e =
        let ordered = hs.ordered in
        let near : lo s ≤ hi r + 1 = ground (arith, adjacent) in
        (
          λ k. split n near k,
          λ k. elim k [
            | inl i ↦ (omega (arith, lo-widen), omega (arith, hi-widen))
            | inr j ↦ (omega (arith, lo-widen), omega (arith, hi-widen))
          ],
        )
      where
        split : (n : ℕ) → lo s ≤ hi r + 1 → Within (widen r s) n → Within r n ⊎ Within s n
        split n near k = elim (dec_le n (hi r)) [
          | yes i ↦ inl (omega (arith, lo-widen), i)
          | no j ↦ inr (omega arith, omega (arith, hi-widen))
        ]

  -- A merge keeps the set of addresses.
  pub absorb-Holds :
      (r : IpRange) (l : IpAlloc) (n : ℕ)
      → IsRange w r
      → Starts w (lo r) l
      → Holds (absorb r l) n ↔ Holds (r ∷ l) n
  unfolding absorb
  absorb-Holds r [] n hr p = (λ h. h, λ h. h)
  absorb-Holds r (s ∷ l) n hr (h, hs, p) = elim (Bool-cases (is_adj_or_greater r.end s.start)) [
    | inl e ↦ rw e (
        let (f, g) = widen-Within hr hs n h e in
        let (f', g') =
          absorb-Holds (widen r s) l n (widen-IsRange hr hs)
            (Starts-mono (lo s) (lo (widen r s)) l (omega (arith, lo-widen hr hs)) p) in
        (λ k. regroup f (f' k), λ k. g' (ungroup g k)))
    | inr e ↦ rw e (λ h. h, λ h. h)
  ]

  pub absorb-Starts :
      (b : ℕ) (r : IpRange) (l : IpAlloc)
      → b ≤ lo r
      → IsRange w r
      → Starts w (lo r) l
      → Starts w b (absorb r l)
  unfolding absorb
  absorb-Starts b r [] h hr p = (h, hr, tt)
  absorb-Starts b r (s ∷ l) h hr (k, hs, p) = elim (Bool-cases (is_adj_or_greater r.end s.start)) [
    | inl e ↦ rw e (
        absorb-Starts b (widen r s) l (omega (arith, lo-widen hr hs)) (widen-IsRange hr hs)
          (Starts-mono (lo s) (lo (widen r s)) l (omega (arith, lo-widen hr hs)) p))
    | inr e ↦ rw e (h, hr, (k, hs, p))
  ]

  -- A merge leaves separate ranges separate.
  pub absorb-Above :
      (b : ℕ) (r : IpRange) (l : IpAlloc)
      → b ≤ lo r
      → IsRange w r
      → Above w (hi r + 1) l
      → Above w b (absorb r l)
  unfolding absorb
  absorb-Above b r [] h hr p = (h, hr, tt)
  absorb-Above b r (s ∷ l) h hr (k, hs, p) = elim (Bool-cases (is_adj_or_greater r.end s.start)) [
    | inl e ↦
        let ordered = hs.ordered in
        rw e (
          absorb-Above b (widen r s) l (omega (arith, lo-widen hr hs)) (widen-IsRange hr hs)
            (Above-mono (hi s + 1) (hi (widen r s) + 1) l (omega (arith, hi-widen hr hs)) p))
    | inr e ↦ rw e (h, hr, (k, hs, p))
  ]

-- ===== src/Ipam/Alloc/Cut.antt =====
-- `cutRange` of pkg/ipam/ipalloc.go: what is left of one range.
use z_presplit_aci_container.Base.{
  ℕ, ◌+◌, ◌≤◌, ◌<◌, ◌≡◌, refl, ◌⊎◌, inl, inr, ◌↔◌, Bool, true, false, List, [], ◌∷◌, ◌++◌, ltb,
  if◌then◌else◌, arith, dec_lt, Bool-cases, ltb→lt, ltb→ge, ge→ltb, length,
}
use z_presplit_aci_container.Ipam.Address.{Ip, carry_increment, carry_decrement}
use z_presplit_aci_container.Ipam.Address.Value.{
  value, compare_bytes-value, increment_exact, decrement_exact, increment-value, decrement-value,
}
use z_presplit_aci_container.Ipam.Alloc.{IpRange, IpAlloc, cut_range}
use z_presplit_aci_container.Ipam.Alloc.Order.{lo, hi, IsRange, Within, Holds, Above, Above-mono}

abbrev below : IpRange → Ip → IpRange
below t start = record { start = t.start; end = (carry_decrement start).0 }

abbrev pub beyond : IpRange → Ip → IpRange
beyond t end = record { start = (carry_increment end).0; end = t.end }

left_part : IpRange → Ip → IpAlloc
left_part t start = if ltb (lo t) (value start) then below t start ∷ [] else []

right_part : IpRange → Ip → IpAlloc
right_part t end = if ltb (value end) (hi t) then beyond t end ∷ [] else []

module _ (w : ℕ) (t x : IpRange) (ht : IsRange w t) (hx : IsRange w x) where
  pub cut_range_before : hi t < lo x → cut_range t x.start x.end ≡ (t ∷ [], false)
  unfolding cut_range
  cut_range_before h =
      let ordered = hx.ordered in
      let o = ht.ordered in
      ground (
        arith,
        compare_bytes-value ht.start_ip hx.start_ip,
        compare_bytes-value ht.end_ip hx.start_ip,
        compare_bytes-value ht.end_ip hx.end_ip,
      )

  pub cut_range_behind : hi x < lo t → cut_range t x.start x.end ≡ (t ∷ [], false)
  unfolding cut_range
  cut_range_behind h =
      let ordered = hx.ordered in
      let o = ht.ordered in
      ground (
        arith,
        compare_bytes-value ht.start_ip hx.start_ip,
        compare_bytes-value ht.start_ip hx.end_ip,
        compare_bytes-value ht.end_ip hx.end_ip,
      )

  cut_range_overlap :
      lo t ≤ hi x
      → lo x ≤ hi t
      → cut_range t x.start x.end ≡ (left_part t x.start ++ right_part t x.end, true)
  unfolding cut_range left_part right_part
  cut_range_overlap h k = ground (
    arith,
    compare_bytes-value ht.start_ip hx.start_ip,
    compare_bytes-value ht.end_ip hx.start_ip,
    compare_bytes-value ht.start_ip hx.end_ip,
    compare_bytes-value ht.end_ip hx.end_ip,
  )

  -- Before the removed range, behind it, or meeting it.
  cut_range_cases {ℓ} :
      (P : List IpRange × Bool → Type ℓ)
      → (hi t < lo x → P (t ∷ [], false))
      → (hi x < lo t → P (t ∷ [], false))
      → (lo t ≤ hi x → lo x ≤ hi t → P (left_part t x.start ++ right_part t x.end, true))
      → P (cut_range t x.start x.end)
  cut_range_cases P before behind overlap = elim (dec_lt (hi t) (lo x)) [
    | yes h ↦ rw (cut_range_before h) (before h)
    | no h ↦ elim (dec_lt (hi x) (lo t)) [
      | yes k ↦ rw (cut_range_behind k) (behind k)
      | no k ↦
          rw (cut_range_overlap (omega arith) (omega arith)) (overlap (omega arith) (omega arith))
    ]
  ]

  parts-Holds :
      (n : ℕ)
      → lo t ≤ hi x
      → lo x ≤ hi t
      → Holds (left_part t x.start ++ right_part t x.end) n
        ↔ (Within t n × ((n < lo x) ⊎ (hi x < n)))
  unfolding left_part right_part
  parts-Holds n h k =
      let ot = ht.ordered in
      let ox = hx.ordered in
      elim (Bool-cases (ltb (lo t) (lo x))) [
        | inl e ↦
            let d = decrement_exact hx.start_ip (omega (arith, ltb→lt (lo t) (lo x) e)) in
            elim (Bool-cases (ltb (hi x) (hi t))) [
              | inl f ↦
                  let i = increment_exact hx.end_ip ht.end_ip (ltb→lt _ _ f) in
                  rw (e, f) (λ u. ground arith, λ u. ground arith)
              | inr f ↦ rw (e, f) (λ u. ground arith, λ u. ground arith)
            ]
        | inr e ↦ elim (Bool-cases (ltb (hi x) (hi t))) [
          | inl f ↦
              let i = increment_exact hx.end_ip ht.end_ip (ltb→lt _ _ f) in
              rw (e, f) (λ u. ground arith, λ u. ground arith)
          | inr f ↦ rw (e, f) (λ u. ground arith, λ u. ground arith)
        ]
      ]

  below-IsRange : lo t < lo x → IsRange w (below t x.start) × (hi (below t x.start) + 1 ≡ lo x)
  below-IsRange h =
      let d = decrement_exact hx.start_ip (omega arith) in
      (
        record {
          start_ip = ht.start_ip;
          end_ip = (decrement-value hx.start_ip).1;
          ordered = omega arith;
        },
        d,
      )

  beyond-IsRange : hi x < hi t → IsRange w (beyond t x.end) × (lo (beyond t x.end) ≡ hi x + 1)
  beyond-IsRange h =
      let i = increment_exact hx.end_ip ht.end_ip h in
      (
        record {
          start_ip = (increment-value hx.end_ip).1;
          end_ip = ht.end_ip;
          ordered = omega arith;
        },
        i,
      )

  parts-Above :
      (b : ℕ) (l : IpAlloc)
      → lo t ≤ hi x
      → lo x ≤ hi t
      → b ≤ lo t
      → Above w (hi t + 1) l
      → Above w b ((left_part t x.start ++ right_part t x.end) ++ l)
  unfolding left_part right_part
  parts-Above b l h k m p =
      let ot = ht.ordered in
      let ox = hx.ordered in
      elim (Bool-cases (ltb (lo t) (lo x))) [
        | inl e ↦
            let (left, d) = below-IsRange (ltb→lt _ _ e) in
            elim (Bool-cases (ltb (hi x) (hi t))) [
              | inl f ↦
                  let (right, i) = beyond-IsRange (ltb→lt _ _ f) in
                  rw (e, f) (m, left, (omega arith, right, p))
              | inr f ↦
                  rw (e, f)
                    (
                      m,
                      left,
                      Above-mono w (hi t + 1) (hi (below t x.start) + 1) l
                          (omega (arith, ltb→ge _ _ f)) p,
                    )
            ]
        | inr e ↦ elim (Bool-cases (ltb (hi x) (hi t))) [
          | inl f ↦
              let (right, i) = beyond-IsRange (ltb→lt _ _ f) in rw (e, f) (omega arith, right, p)
          | inr f ↦ rw (e, f) (Above-mono w (hi t + 1) b l (omega arith) p)
        ]
      ]

  -- The addresses of the target outside of the removed range are left.
  pub cut_range-Holds :
      (n : ℕ) → Holds (cut_range t x.start x.end).0 n ↔ (Within t n × ((n < lo x) ⊎ (hi x < n)))
  cut_range-Holds n =
      let ot = ht.ordered in
      let ox = hx.ordered in
      cut_range_cases (λ c. Holds c.0 n ↔ (Within t n × ((n < lo x) ⊎ (hi x < n))))
        (λ h. (λ u. ground arith, λ u. inl u.0)) (λ h. (λ u. ground arith, λ u. inl u.0))
        (λ h k. parts-Holds n h k)

  pub cut_range-Above :
      (b : ℕ) (l : IpAlloc)
      → b ≤ lo t
      → Above w (hi t + 1) l
      → Above w b ((cut_range t x.start x.end).0 ++ l)
  cut_range-Above b l m p =
      cut_range_cases (λ c. Above w b (c.0 ++ l)) (λ h. (m, ht, p)) (λ h. (m, ht, p))
        (λ h k. parts-Above b l h k m p)

  -- The target is split in two only if it goes on behind the removed range.
  pub cut_range_split : 1 < length (cut_range t x.start x.end).0 → hi x < hi t
  unfolding left_part right_part
  cut_range_split =
      cut_range_cases (λ c. 1 < length c.0 → hi x < hi t) (λ h k. absurd (omega arith))
        (λ h k. absurd (omega arith)) (λ h k u. ground arith)

  pub cut_range-length : length (cut_range t x.start x.end).0 ≤ 2
  unfolding left_part right_part
  cut_range-length =
      cut_range_cases (λ c. length c.0 ≤ 2) (λ h. omega arith) (λ h. omega arith)
        (λ h k. ground arith)

  -- The flag says whether the two ranges share an address.
  pub cut_range_changed : ((cut_range t x.start x.end).1 ≡ true) ↔ ((lo t ≤ hi x) × (lo x ≤ hi t))
  cut_range_changed =
      cut_range_cases (λ c. (c.1 ≡ true) ↔ ((lo t ≤ hi x) × (lo x ≤ hi t)))
        (λ h. (λ e. cc, λ u. absurd (omega arith))) (λ h. (λ e. cc, λ u. absurd (omega arith)))
        (λ h k. (λ e. (h, k), λ u. refl))

  -- A removed range that covers the start leaves what goes on behind it.
  pub cut_range_front :
      lo x ≤ lo t
      → lo t ≤ hi x
      → (cut_range t x.start x.end).0 ≡ (if ltb (hi x) (hi t) then beyond t x.end ∷ [] else [])
  unfolding left_part right_part
  cut_range_front h k =
      let o = ht.ordered in rw (cut_range_overlap k (omega arith), ge→ltb (lo t) (lo x) h)

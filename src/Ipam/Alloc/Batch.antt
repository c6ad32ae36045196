-- ===== src/Ipam/Alloc/Batch.antt =====
-- `AddRanges` and `RemoveRanges` of pkg/ipam/ipalloc.go: union and difference of pools.
use z_presplit_aci_container.Base.{ℕ, ◌+◌, ◌⊎◌, inl, inr, ◌↔◌, [], ◌∷◌, arith, dec_lt, All}
use z_presplit_aci_container.Ipam.Address.Value.{IsIp}
use z_presplit_aci_container.Ipam.Alloc.{
  IpRange, IpAlloc, add_range, remove_range, add_ranges, remove_ranges,
}
use z_presplit_aci_container.Ipam.Alloc.Order.{lo, hi, Within, Holds, Above, Above→Starts, Holds-ge}
use z_presplit_aci_container.Ipam.Alloc.Add.{
  IsSorted, IsPool, add_range-Holds, add_range-IsSorted, add_range-IsPool,
}
use z_presplit_aci_container.Ipam.Alloc.Difference.{
  Outside, remove_range-Holds, remove_range-IsPool,
}

-- Both ends are addresses of `w` bytes, in any order.
pub record HasEnds (w : ℕ) (r : IpRange) : Type 0 where
  pub start_ip : IsIp w r.start
  pub end_ip : IsIp w r.end

pub Above-HasEnds : (w b : ℕ) (l : IpAlloc) → Above w b l → All (HasEnds w) l
Above-HasEnds w b [] p = tt
Above-HasEnds w b (r ∷ l) (h, hr, p) =
    (record { start_ip = hr.start_ip; end_ip = hr.end_ip }, Above-HasEnds w (hi r + 1) l p)

module _ (w : ℕ) where
  -- AddRanges with any list of ranges with ends of the same width, added to valid ranges in order
  -- of their starts, yields the union of the addresses of both.
  pub add_ranges-Holds :
      (rs l : IpAlloc) (n : ℕ)
      → All (HasEnds w) rs
      → IsSorted w l
      → Holds (add_ranges rs l) n ↔ (Holds rs n ⊎ Holds l n)
  unfolding add_ranges
  add_ranges-Holds [] l n h p = (inr, λ u. elim u [ inl e ↦ absurd e | inr k ↦ k ])
  add_ranges-Holds (r ∷ rs) l n (h, hs) p =
      let (f, g) = add_range-Holds w r l h.start_ip h.end_ip n p in
      let (f', g') =
        add_ranges-Holds rs (add_range r.start r.end l) n hs
          (add_range-IsSorted w r l h.start_ip h.end_ip p) in
      (
        λ u. elim (f' u) [
          | inl i ↦ inl (inr i)
          | inr j ↦ elim (f j) [ inl a ↦ inl (inl a) | inr b ↦ inr b ]
        ],
        λ u. elim u [
          | inl (inl a) ↦ g' (inr (g (inl a)))
          | inl (inr i) ↦ g' (inl i)
          | inr b ↦ g' (inr (g (inr b)))
        ],
      )

  pub add_ranges-IsSorted :
      (rs l : IpAlloc) → All (HasEnds w) rs → IsSorted w l → IsSorted w (add_ranges rs l)
  unfolding add_ranges
  add_ranges-IsSorted [] l h p = p
  add_ranges-IsSorted (r ∷ rs) l (h, hs) p =
      add_ranges-IsSorted rs (add_range r.start r.end l) hs
        (add_range-IsSorted w r l h.start_ip h.end_ip p)

  -- Separate ranges that share no address with the pool leave its ranges separate.
  pub add_ranges-IsPool :
      (b : ℕ) (rs l : IpAlloc)
      → Above w b rs
      → IsPool w l
      → ((n : ℕ) → Holds rs n → ¬ Holds l n)
      → IsPool w (add_ranges rs l)
  unfolding add_ranges
  add_ranges-IsPool b [] l q p apart = p
  add_ranges-IsPool b (r ∷ rs) l (h, hr, q) p apart =
      let o = hr.ordered in
      add_ranges-IsPool (hi r + 1) rs (add_range r.start r.end l) q
        (add_range-IsPool w r l hr.start_ip hr.end_ip p (λ n i. apart n (inl i)))
        (λ n i j.
          elim ((add_range-Holds w r l hr.start_ip hr.end_ip n (Above→Starts w 0 l p)).0 j) [
            | inl a ↦ absurd (
                let k = Holds-ge w (hi r + 1) n rs (Above→Starts w (hi r + 1) rs q) i in
                omega arith)
            | inr c ↦ apart n (inr i) c
          ])

  pub outside : (r : IpRange) (n : ℕ) → Outside r n ↔ (¬ Within r n)
  outside r n = (
    λ u k. elim u [ inl i ↦ omega arith | inr j ↦ omega arith ],
    λ k. elim (dec_lt n (lo r)) [
      | yes i ↦ inl i
      | no i ↦ elim (dec_lt (hi r) n) [
        | yes j ↦ inr j
        | no j ↦ absurd (k (omega arith, omega arith))
      ]
    ],
  )

  pub remove_ranges-IsPool :
      (rs l : IpAlloc) → All (HasEnds w) rs → IsPool w l → IsPool w (remove_ranges rs l)
  unfolding remove_ranges
  remove_ranges-IsPool [] l h p = p
  remove_ranges-IsPool (r ∷ rs) l (h, hs) p =
      remove_ranges-IsPool rs (remove_range r.start r.end l).0 hs
        (remove_range-IsPool w r l h.start_ip h.end_ip p)

  -- RemoveRanges with any list of ranges with ends of the same width leaves, of separate ranges in
  -- order, exactly the addresses that no range of the list has.
  pub remove_ranges-Holds :
      (rs l : IpAlloc) (n : ℕ)
      → All (HasEnds w) rs
      → IsPool w l
      → Holds (remove_ranges rs l) n ↔ (Holds l n × (¬ Holds rs n))
  unfolding remove_ranges
  remove_ranges-Holds [] l n h p = (λ u. (u, λ e. e), λ u. u.0)
  remove_ranges-Holds (r ∷ rs) l n (h, hs) p =
      let (f, g) = remove_range-Holds w r l h.start_ip h.end_ip p n in
      let (f', g') =
        remove_ranges-Holds rs (remove_range r.start r.end l).0 n hs
          (remove_range-IsPool w r l h.start_ip h.end_ip p) in
      let (out, in') = outside r n in
      (
        λ u. ((f (f' u).0).0, λ k. elim k [ inl i ↦ out (f (f' u).0).1 i | inr j ↦ (f' u).1 j ]),
        λ u. g' (g (u.0, in' (λ i. u.1 (inl i))), λ j. u.1 (inr j)),
      )

-- ===== src/Ipam/Alloc/Merge.antt =====
-- The loop of `fixRange` in pkg/ipam/ipalloc.go, as a walk over the ranges behind the first.
use z_presplit_aci_container.Base.{
  ℕ, zero, suc, ◌≤◌, ◌≡◌, refl, [], ◌∷◌, length, is_lt, if◌then◌else◌, arith, Bool-cases, lt→ltb,
  inl, inr,
}
use z_presplit_aci_container.Ipam.Address.{compare_bytes, is_adj_or_greater}
use z_presplit_aci_container.Ipam.Alloc.{IpRange, IpAlloc, merge_next, fix_loop}

abbrev pub widen : IpRange → IpRange → IpRange
widen r s = if is_lt (compare_bytes r.end s.end) then record r { end = s.end } else r

-- `r` takes over the ranges that follow, up to the first that is not adjacent.
unfoldable pub absorb : IpRange → IpAlloc → IpAlloc
absorb r [] = r ∷ []
absorb r (s ∷ l) =
    let rest = absorb (widen r s) l in if is_adj_or_greater r.end s.start then rest else r ∷ s ∷ l

merge_next-zero : (r s : IpRange) (l : IpAlloc) → merge_next 0 (r ∷ s ∷ l) ≡ widen r s ∷ l
unfolding merge_next
merge_next-zero r s l = ground arith

merge_next-suc :
    (i : ℕ) (x : IpRange) (l : IpAlloc) → merge_next (suc i) (x ∷ l) ≡ x ∷ merge_next i l
unfolding merge_next
merge_next-suc i x l = ground arith

pub fix_loop-absorb :
    (fuel : ℕ) (r : IpRange) (l : IpAlloc) → length l ≤ fuel → fix_loop fuel 0 (r ∷ l) ≡ absorb r l
unfolding fix_loop absorb
fix_loop-absorb zero r [] h = refl
fix_loop-absorb zero r (s ∷ l) h = absurd (omega arith)
fix_loop-absorb (suc fuel) r [] h = refl
fix_loop-absorb (suc fuel) r (s ∷ l) h = elim (Bool-cases (is_adj_or_greater r.end s.start)) [
  | inl e ↦
      rw (lt→ltb 1 (suc (suc (length l))) (omega arith), e, merge_next-zero)
        (fix_loop-absorb fuel (widen r s) l (omega arith))
  | inr e ↦ rw (lt→ltb 1 (suc (suc (length l))) (omega arith), e)
]

pub fix_loop-suc :
    (fuel i : ℕ) (x : IpRange) (l : IpAlloc) → fix_loop fuel (suc i) (x ∷ l) ≡ x ∷ fix_loop fuel i l
unfolding fix_loop
fix_loop-suc zero i x l = refl
fix_loop-suc (suc fuel) i x l =
    ground (arith, merge_next-suc i x l, fix_loop-suc fuel i x (merge_next i l))

-- ===== src/Ipam/Intersect.antt =====
-- `Intersect` of pkg/ipam/ipalloc.go.
pub mod Meet
use z_presplit_aci_container.Base.{
  ℕ, zero, suc, ◌+◌, Bool, true, false, List, [], ◌∷◌, Option, none, some, length, Ordering, is_lt,
  if◌then◌else◌,
}
use z_presplit_aci_container.Ipam.Address.{compare_bytes}
use z_presplit_aci_container.Ipam.Alloc.{IpRange, IpAlloc, add_range}

-- The result so far, and whether the first list and the second one move on.
pub intersect_left : IpAlloc → IpRange → IpRange → IpAlloc × Bool × Bool
intersect_left result a b =
    if is_lt (compare_bytes a.end b.start)
    then (result, true, false)
    else (elim (compare_bytes a.end b.end) [
      | Ordering.lt ↦ (add_range b.start a.end result, true, false)
      | Ordering.eq ↦ (add_range b.start a.end result, true, true)
      | Ordering.gt ↦ (add_range b.start b.end result, false, true)
    ])

-- The ranges from an index on, after `*i += 1` if `step`.
abbrev advance : Bool → IpRange → IpAlloc → IpAlloc
advance step r l = if step then l else r ∷ l

-- The lists are those from `i` and from `j` on; `none` means that the rounds did not suffice.
pub intersect_loop : ℕ → IpAlloc → IpAlloc → IpAlloc → Option IpAlloc
intersect_loop fuel result [] bs = some result
intersect_loop fuel result (a ∷ as') [] = some result
intersect_loop zero result (a ∷ as') (b ∷ bs) = none
intersect_loop (suc fuel) result (a ∷ as') (b ∷ bs) =
    let (left, i, j) = intersect_left result a b in
    let (right, j', i') = intersect_left result b a in
    let on_left = intersect_loop fuel left (advance i a as') (advance j b bs) in
    let on_right = intersect_loop fuel right (advance i' a as') (advance j' b bs) in
    if is_lt (compare_bytes a.start b.start) then on_left else on_right

-- Each round leaves a range behind.
pub intersect : IpAlloc → IpAlloc → Option IpAlloc
intersect l other = intersect_loop (length l + length other) [] l other

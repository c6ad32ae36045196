-- ===== src/Ipam/Alloc/Overlap.antt =====
-- `AddRange` of pkg/ipam/ipalloc.go where a range is put behind one that it does not touch.
use z_presplit_aci_container.Base.{ℕ, ◌+◌, ◌≤◌, ◌<◌, ◌≡◌, false, true, ◌∷◌, arith}
use z_presplit_aci_container.Ipam.Address.{is_adj_or_greater}
use z_presplit_aci_container.Ipam.Alloc.{IpRange, IpAlloc, add_range}
use z_presplit_aci_container.Ipam.Alloc.Merge.{absorb}
use z_presplit_aci_container.Ipam.Alloc.Order.{lo, hi, IsRange, Above→Starts, adjacent}
use z_presplit_aci_container.Ipam.Alloc.Insert.{
  reaches, insert_after, insert_range, add_range-insert_range,
}
use z_presplit_aci_container.Ipam.Alloc.Add.{IsPool, reaches-value}

module _ (w : ℕ) (r x s : IpRange) (l : IpAlloc) (p : IsPool w (r ∷ s ∷ l)) (hx : IsRange w x)
    (gap : hi r + 1 < lo x) (order : lo x ≤ lo s) where
  -- `fixRange` looks at the range before the new one only.
  pub add_range_unmerged : add_range x.start x.end (r ∷ s ∷ l) ≡ r ∷ x ∷ s ∷ l
  unfolding insert_range insert_after absorb
  add_range_unmerged =
      let o = p.1.ordered in
      let behind : reaches x r ≡ false = ground (arith, reaches-value w x r hx p.1) in
      let found : reaches x s ≡ true = ground (arith, reaches-value w x s hx p.2.1) in
      let far : is_adj_or_greater r.end x.start ≡ false = ground (arith, adjacent w p.1 hx) in
      rw (
        add_range-insert_range w 0 x (r ∷ s ∷ l) hx (Above→Starts w 0 (r ∷ s ∷ l) p),
        behind,
        found,
        far,
      )

  -- Whenever AddRange is given a valid range that starts more than one address behind the first
  -- range of a pool, starts no later than the second range and reaches into it, the new range is
  -- left unmerged between the two, so that the ranges of the result are not separate.
  pub add_range-not-IsPool :
      lo s ≤ hi x
      → (add_range x.start x.end (r ∷ s ∷ l) ≡ r ∷ x ∷ s ∷ l)
        × (¬ IsPool w (add_range x.start x.end (r ∷ s ∷ l)))
  add_range-not-IsPool h = (add_range_unmerged, rw add_range_unmerged (λ q. omega arith))

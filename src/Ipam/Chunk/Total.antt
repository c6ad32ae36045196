-- ===== src/Ipam/Chunk/Total.antt =====
-- The number of addresses through `AddRange`, and `RemoveRange` at the front of a pool.
use z_presplit_aci_container.Base.{
  ℕ, ◌+◌, ◌≤◌, ◌<◌, ◌≡◌, refl, inl, inr, true, [], ◌∷◌, if◌then◌else◌, arith, Bool-cases, ltb,
}
use z_presplit_aci_container.Ipam.Address.{is_adj_or_greater}
use z_presplit_aci_container.Ipam.Alloc.{IpRange, IpAlloc, add_range, remove_range}
use z_presplit_aci_container.Ipam.Alloc.Merge.{widen, absorb}
use z_presplit_aci_container.Ipam.Alloc.Order.{
  lo, hi, IsRange, Above, Above-mono, Above→Starts, adjacent, widen-IsRange, lo-widen, hi-widen,
}
use z_presplit_aci_container.Ipam.Alloc.Insert.{
  reaches, insert_after, insert_range, add_range-insert_range,
}
use z_presplit_aci_container.Ipam.Alloc.Add.{Apart, IsPool, Apart-sides, reaches-value}
use z_presplit_aci_container.Ipam.Alloc.Cut.{beyond, cut_range_front}
use z_presplit_aci_container.Ipam.Alloc.Remove.{cut_each, cut_each_behind, remove_range-cut_each}
use z_presplit_aci_container.Ipam.Chunk.{range_size, total}

module _ (w : ℕ) where
  range_size-widen :
      (r s : IpRange)
      → IsRange w r
      → IsRange w s
      → hi r + 1 ≤ lo s
      → is_adj_or_greater r.end s.start ≡ true
      → range_size (widen r s) ≡ range_size r + range_size s
  unfolding range_size
  range_size-widen r s hr hs h e =
      let or = hr.ordered in
      let os = hs.ordered in
      let near : lo s ≤ hi r + 1 = ground (arith, adjacent w hr hs) in
      omega (arith, lo-widen w hr hs, hi-widen w hr hs)

  absorb-total :
      (r : IpRange) (l : IpAlloc)
      → IsRange w r
      → Above w (hi r + 1) l
      → total (absorb r l) ≡ range_size r + total l
  unfolding absorb total
  absorb-total r [] hr p = refl
  absorb-total r (s ∷ l) hr (h, hs, p) = elim (Bool-cases (is_adj_or_greater r.end s.start)) [
    | inl e ↦
        let os = hs.ordered in
        rw e (
          omega (
            arith,
            absorb-total (widen r s) l (widen-IsRange w hr hs) (
                Above-mono w (hi s + 1) (hi (widen r s) + 1) l (omega (arith, hi-widen w hr hs)) p),
            range_size-widen r s hr hs h e,
          ))
    | inr e ↦ rw e
  ]

  insert_after-total :
      (r x : IpRange) (l : IpAlloc)
      → IsRange w r
      → IsRange w x
      → hi r < lo x
      → Above w (hi r + 1) l
      → Apart x l
      → total (insert_after r x l) ≡ range_size r + (range_size x + total l)
  unfolding insert_after total
  insert_after-total r x [] hr hx k p apart = absorb-total r (x ∷ []) hr (omega arith, hx, tt)
  insert_after-total r x (s ∷ l) hr hx k (m, hs, p) apart = elim (Bool-cases (reaches x s)) [
    | inl e ↦
        let before : lo x ≤ lo s = ground (arith, reaches-value w x s hx hs) in
        let os = hs.ordered in
        let separate : hi x < lo s = omega (arith, Apart-sides w x s l hx hs apart) in
        rw e (absorb-total r (x ∷ s ∷ l) hr (omega arith, hx, (omega arith, hs, p)))
    | inr e ↦
        let behind : lo s < lo x = ground (arith, reaches-value w x s hx hs) in
        let ox = hx.ordered in
        let separate : hi s < lo x = omega (arith, Apart-sides w x s l hx hs apart) in
        rw e (omega (arith, insert_after-total s x l hs hx separate p (λ n i j. apart n i (inr j))))
  ]

  insert_range-total :
      (b : ℕ) (x : IpRange) (l : IpAlloc)
      → IsRange w x
      → Above w b l
      → Apart x l
      → total (insert_range x l) ≡ range_size x + total l
  unfolding insert_range total
  insert_range-total b x [] hx p apart = absorb-total x [] hx tt
  insert_range-total b x (r ∷ l) hx (h, hr, p) apart = elim (Bool-cases (reaches x r)) [
    | inl e ↦
        let before : lo x ≤ lo r = ground (arith, reaches-value w x r hx hr) in
        let os = hr.ordered in
        let separate : hi x < lo r = omega (arith, Apart-sides w x r l hx hr apart) in
        rw e (absorb-total x (r ∷ l) hx (omega arith, hr, p))
    | inr e ↦
        let behind : lo r < lo x = ground (arith, reaches-value w x r hx hr) in
        let ox = hx.ordered in
        let separate : hi r < lo x = omega (arith, Apart-sides w x r l hx hr apart) in
        rw e (omega (arith, insert_after-total r x l hr hx separate p (λ n i j. apart n i (inr j))))
  ]

  pub add_range-total :
      (x : IpRange) (l : IpAlloc)
      → IsRange w x
      → IsPool w l
      → Apart x l
      → total (add_range x.start x.end l) ≡ range_size x + total l
  add_range-total x l hx p apart =
      rw (add_range-insert_range w 0 x l hx (Above→Starts w 0 l p))
        (insert_range-total 0 x l hx p apart)

module _ (w : ℕ) (x r : IpRange) (l : IpAlloc) (hx : IsRange w x) (p : IsPool w (r ∷ l)) where
  -- A range that ends with the first one, or before it ends.
  pub remove_range_front :
      lo x ≤ lo r
      → lo r ≤ hi x
      → hi x ≤ hi r
      → (remove_range x.start x.end (r ∷ l)).0
        ≡ (if ltb (hi x) (hi r) then beyond r x.end ∷ l else l)
  unfolding cut_each
  remove_range_front h k m =
      let o = p.1.ordered in
      rw
        (
          remove_range-cut_each w x hx (r ∷ l) p,
          (cut_each_behind w x hx (hi r + 1) l p.2 (omega arith)).0,
          cut_range_front w r x p.1 hx h k,
        )
        (ground arith)

-- ===== src/Ipam/Cache/Lookup.antt =====
-- `HasIp` of pkg/ipam/ipcache.go.
use z_presplit_aci_container.Base.{
  ℕ, zero, suc, ◌<◌, ◌≡◌, refl, ◌↔◌, inl, inr, true, false, [], ◌∷◌, length, All, ◌==◌, arith,
  Bool-cases, sort_search, is_eq, is_ge, ◌||◌,
}
use z_presplit_aci_container.Ipam.Address.{Ip, compare_bytes}
use z_presplit_aci_container.Ipam.Address.Value.{value, IsIp, compare_bytes-value}
use z_presplit_aci_container.Ipam.Alloc.{IpAlloc, range_at}
use z_presplit_aci_container.Ipam.Alloc.Order.{IsRange, Within, Holds}
use z_presplit_aci_container.Ipam.Cache.{scan, has_end, has_ip}

module _ (w : ℕ) (ip : Ip) (h : IsIp w ip) where
  scan-Holds : (l : IpAlloc) → All (IsRange w) l → (scan ip l ≡ true) ↔ Holds l (value ip)
  unfolding scan
  scan-Holds [] p = (λ e. cc, λ u. absurd u)
  scan-Holds (r ∷ l) p =
      let starts = compare_bytes-value p.0.start_ip h in
      let ends = compare_bytes-value p.0.end_ip h in
      let (f, g) = scan-Holds l p.1 in (λ e. ground (arith, f), λ u. ground (arith, g))

  range_at-Holds :
      (i : ℕ) (l : IpAlloc)
      → All (IsRange w) l
      → i < length l
      → IsRange w (range_at l i) × (Within (range_at l i) (value ip) → Holds l (value ip))
  range_at-Holds i [] p k = absurd (omega arith)
  range_at-Holds zero (r ∷ l) p k = (p.0, inl)
  range_at-Holds (suc i) (r ∷ l) p k =
      let (q, f) = range_at-Holds i l p.1 (omega arith) in (q, λ u. inr (f u))

  has_end-Holds :
      (l : IpAlloc) (i : ℕ) → All (IsRange w) l → has_end l ip i ≡ true → Holds l (value ip)
  unfolding has_end
  has_end-Holds l i p e =
      let inside : i < length l = ground arith in
      let (q, f) = range_at-Holds i l p inside in
      let o = q.ordered in
      let starts = compare_bytes-value q.start_ip h in
      let ends = compare_bytes-value q.end_ip h in f (ground arith)

  -- On any list of valid ranges, in order or not, HasIp tells whether the list holds the address.
  pub has_ip-Holds : (l : IpAlloc) → All (IsRange w) l → (has_ip l ip ≡ true) ↔ Holds l (value ip)
  unfolding has_ip
  has_ip-Holds [] p = (λ e. cc, λ u. absurd u)
  has_ip-Holds (r ∷ l) p =
      let i = sort_search (suc (length l)) (λ i.
        is_ge (compare_bytes (range_at (r ∷ l) i).start ip)
        || is_eq (compare_bytes (range_at (r ∷ l) i).end ip)) in
      let (f, g) = scan-Holds (r ∷ l) p in
      let some_range : (suc (length l) == 0) ≡ false = ground arith in
      elim (Bool-cases (has_end (r ∷ l) ip i)) [
        | inl e ↦ rw (some_range, e) (λ _. has_end-Holds (r ∷ l) i p e, λ _. refl)
        | inr e ↦ rw (some_range, e) (f, g)
      ]

-- ===== src/Ipam/Alloc/Get.antt =====
-- `GetIp` of pkg/ipam/ipalloc.go.
use z_presplit_aci_container.Base.{
  ℕ, ◌+◌, ◌≤◌, ◌<◌, ◌≡◌, ◌≢◌, refl, inl, inr, ◌↔◌, [], ◌∷◌, Option, none, some, is_eq, arith,
  Bool-cases,
}
use z_presplit_aci_container.Ipam.Address.{Ip, compare_bytes}
use z_presplit_aci_container.Ipam.Address.Value.{
  value, IsIp, compare_bytes-value, increment-value, increment_exact,
}
use z_presplit_aci_container.Ipam.Alloc.{IpRange, IpAlloc, get_ip}
use z_presplit_aci_container.Ipam.Alloc.Order.{
  lo, hi, IsRange, Holds, Above, Above-mono, Above→Starts, Holds-ge,
}
use z_presplit_aci_container.Ipam.Alloc.Add.{IsPool}

-- The least address held goes out, and it alone; an error means that none is held.
abbrev pub Takes : ℕ → IpAlloc → Option Ip × IpAlloc → Type 0
Takes w l (none, l') = ((n : ℕ) → ¬ Holds l n) × (l' ≡ l)
Takes w l (some ip, l') =
    IsIp w ip
    × Holds l (value ip)
    × ((n : ℕ) → Holds l n → value ip ≤ n)
    × IsPool w l'
    × ((n : ℕ) → Holds l' n ↔ (Holds l n × (n ≢ value ip)))

module _ (w : ℕ) where
  behind-ne :
      (r : IpRange) (l : IpAlloc) (n : ℕ)
      → IsRange w r
      → Above w (hi r + 1) l
      → Holds l n
      → lo r < n
  behind-ne r l n hr p h =
      let o = hr.ordered in
      let k = Holds-ge w (hi r + 1) n l (Above→Starts w (hi r + 1) l p) h in omega arith

  -- On separate ranges in order, GetIp returns the least address held, removes it and no other,
  -- and keeps the ranges separate and in order; it fails only if no address is held, and then
  -- changes nothing.
  pub get_ip-Takes : (l : IpAlloc) → IsPool w l → Takes w l (get_ip l)
  unfolding get_ip
  get_ip-Takes [] p = (λ n h. h, refl)
  get_ip-Takes (r ∷ l) (h, hr, p) =
      let o = hr.ordered in
      let order = compare_bytes-value hr.start_ip hr.end_ip in
      let least : (n : ℕ) → Holds (r ∷ l) n → lo r ≤ n =
        λ n k. elim k [ inl i ↦ i.0 | inr j ↦ omega (arith, behind-ne r l n hr p j) ] in
      elim (Bool-cases (is_eq (compare_bytes r.start r.end))) [
        | inl e ↦
            let single : lo r ≡ hi r = ground arith in
            rw e (
              hr.start_ip,
              inl (omega arith, o),
              least,
              Above-mono w (hi r + 1) 0 l (omega arith) p,
              λ n. (
                λ k. (inr k, λ q. (let b = behind-ne r l n hr p k in omega arith)),
                λ k. elim k.0 [ inl i ↦ absurd (k.1 (omega arith)) | inr j ↦ j ],
              ),
            )
        | inr e ↦
            let more : lo r < hi r = ground arith in
            let next = increment_exact hr.start_ip hr.end_ip more in
            rw e (
              hr.start_ip,
              inl (omega arith, o),
              least,
              (
                omega arith,
                record {
                  start_ip = (increment-value hr.start_ip).1;
                  end_ip = hr.end_ip;
                  ordered = omega arith;
                },
                p,
              ),
              λ n. (
                λ k. elim k [
                  | inl i ↦ (inl (omega arith, i.1), omega arith)
                  | inr j ↦ (inr j, λ q. (let b = behind-ne r l n hr p j in omega arith))
                ],
                λ k. elim k.0 [ inl i ↦ inl (let m = k.1 in omega arith, i.1) | inr j ↦ inr j ],
              ),
            )
      ]

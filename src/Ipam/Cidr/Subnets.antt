-- ===== src/Ipam/Cidr/Subnets.antt =====
-- AddSubnet and RemoveSubnet of pkg/ipam/ipalloc.go.
use z_presplit_aci_container.Base.{ℕ, ◌≡◌, ◌↔◌, ◌⊎◌, inl, inr, []}
use z_presplit_aci_container.Ipam.Address.{Ip}
use z_presplit_aci_container.Ipam.Address.Value.{value, IsIp}
use z_presplit_aci_container.Ipam.Alloc.{IpAlloc, IpRange}
use z_presplit_aci_container.Ipam.Alloc.Order.{Holds, Within, Above→Starts}
use z_presplit_aci_container.Ipam.Alloc.Add.{IsPool, add_range-Holds, add_range-IsPool}
use z_presplit_aci_container.Ipam.Alloc.Batch.{outside}
use z_presplit_aci_container.Ipam.Alloc.Difference.{remove_range-Holds, remove_range-IsPool}
use z_presplit_aci_container.Ipam.Cidr.{mask, last, IpNet, subnet_range, add_subnet, remove_subnet}
use z_presplit_aci_container.Ipam.Cidr.Masks.{mask-IsIp, last-IsIp, mask_again, mask-Between}

-- `IPNet.Contains`.
abbrev pub Contains : IpNet → Ip → Type 0
Contains subnet x = mask subnet.ones x ≡ mask subnet.ones subnet.ip

abbrev span_of : IpNet → IpRange
span_of subnet = record {
  start = mask subnet.ones subnet.ip;
  end = last subnet.ones (mask subnet.ones subnet.ip);
}

module _ {w : ℕ} (subnet : IpNet) (x : Ip) (l : IpAlloc) (hi : IsIp w subnet.ip) (hx : IsIp w x)
    (p : IsPool w l) where
  Contains-Within : Contains subnet x ↔ Within (span_of subnet) (value x)
  Contains-Within =
      mask-Between (mask-IsIp hi subnet.ones) subnet.ones hx (mask_again hi subnet.ones)

  -- On separate ranges in order, AddSubnet adds exactly the addresses that the subnet contains,
  -- those that have its leading bits, whatever bits its own address has behind the mask.
  pub add_subnet-Holds :
      Holds (add_subnet subnet l) (value x) ↔ (Contains subnet x ⊎ Holds l (value x))
  unfolding add_subnet subnet_range
  add_subnet-Holds =
      let held =
        add_range-Holds w (span_of subnet) l (mask-IsIp hi subnet.ones)
          (last-IsIp (mask-IsIp hi subnet.ones) subnet.ones) (value x) (Above→Starts w 0 l p) in
      (
        λ u. elim (held.0 u) [ inl i ↦ inl (Contains-Within.1 i) | inr j ↦ inr j ],
        λ u. elim u [ inl i ↦ held.1 (inl (Contains-Within.0 i)) | inr j ↦ held.1 (inr j) ],
      )

  -- On separate ranges in order, RemoveSubnet removes exactly the addresses that the subnet
  -- contains.
  pub remove_subnet-Holds :
      Holds (remove_subnet subnet l).0 (value x) ↔ (Holds l (value x) × (¬ Contains subnet x))
  unfolding remove_subnet subnet_range
  remove_subnet-Holds =
      let held =
        remove_range-Holds w (span_of subnet) l (mask-IsIp hi subnet.ones)
          (last-IsIp (mask-IsIp hi subnet.ones) subnet.ones) p (value x) in
      (
        λ u.
            let v = held.0 u in
            (v.0, λ c. (outside w (span_of subnet) (value x)).0 v.1 (Contains-Within.0 c)),
        λ u.
            held.1 (u.0, (outside w (span_of subnet) (value x)).1 (λ i. u.1 (Contains-Within.1 i))),
      )

module _ {w : ℕ} (subnet : IpNet) (l : IpAlloc) (hi : IsIp w subnet.ip) (p : IsPool w l) where
  pub remove_subnet-IsPool : IsPool w (remove_subnet subnet l).0
  unfolding remove_subnet subnet_range
  remove_subnet-IsPool =
      remove_range-IsPool w (span_of subnet) l (mask-IsIp hi subnet.ones)
        (last-IsIp (mask-IsIp hi subnet.ones) subnet.ones) p

pub add_subnet-IsPool :
    {w : ℕ} (subnet : IpNet) → IsIp w subnet.ip → IsPool w (add_subnet subnet [])
unfolding add_subnet subnet_range
add_subnet-IsPool {w} subnet hi =
    add_range-IsPool w (span_of subnet) [] (mask-IsIp hi subnet.ones)
      (last-IsIp (mask-IsIp hi subnet.ones) subnet.ones) tt (λ n i j. j)

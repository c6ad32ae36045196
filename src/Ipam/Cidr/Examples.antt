-- ===== src/Ipam/Cidr/Examples.antt =====
-- Runs of pkg/ipam/iprange.go, and each theorem at an input.
use z_presplit_aci_container.Base.{ℕ, ◌<◌, ◌≡◌, refl, arith, ◌↔◌, ◌⊎◌, [], ◌∷◌}
use z_presplit_aci_container.Ipam.Address.{Ip, compare_bytes}
use z_presplit_aci_container.Ipam.Address.Value.{value, IsIp}
use z_presplit_aci_container.Ipam.Alloc.{IpAlloc}
use z_presplit_aci_container.Ipam.Alloc.Order.{Holds}
use z_presplit_aci_container.Ipam.Alloc.Add.{IsPool}
use z_presplit_aci_container.Ipam.Cidr.{
  mask, last, next, next_loop, IpNet, subnet_range, add_subnet, remove_subnet, fits, shrink,
  end_of_range, cidr_loop, range2cidr,
}
use z_presplit_aci_container.Ipam.Cidr.Cover.{InNets, InRange, range2cidr-covers}
use z_presplit_aci_container.Ipam.Cidr.Subnets.{Contains, add_subnet-Holds, remove_subnet-Holds}

abbrev host : ℕ → Ip
host n = 10 ∷ 3 ∷ 0 ∷ n ∷ []

abbrev one_span : IpAlloc
one_span = record { start = host 2; end = host 40 } ∷ []

-- 10.3.0.21/29, which starts at 10.3.0.16.
abbrev subnet : IpNet
subnet = record { ip = host 21; ones = 29 }

host-IsIp : (n : ℕ) → n < 256 → IsIp 4 (host n)
host-IsIp n h = record { width = refl; bytes = omega (arith, h) }

one_span-IsPool : IsPool 4 one_span
unfolding value
one_span-IsPool = let p : IsPool 4 one_span = omega arith in p

cidrs : range2cidr (host 1) (host 6) ≡ (
    record { ip = host 1; ones = 32 }
    ∷ record { ip = host 2; ones = 31 }
    ∷ record { ip = host 4; ones = 31 }
    ∷ record { ip = host 6; ones = 32 }
    ∷ [])
unfolding range2cidr cidr_loop shrink fits mask last next next_loop end_of_range compare_bytes value
cidrs = refl

ends : subnet_range subnet ≡ (host 16, host 23)
unfolding subnet_range mask last
ends = refl

range2cidr-covers_example :
    InNets (range2cidr (host 1) (host 6)) (host 3) ↔ InRange (host 1) (host 6) (host 3)
range2cidr-covers_example =
    range2cidr-covers (host-IsIp 1 (omega arith)) (host-IsIp 6 (omega arith))
      (host-IsIp 3 (omega arith))

add_subnet-Holds_example :
    Holds (add_subnet subnet one_span) (value (host 17))
    ↔ (Contains subnet (host 17) ⊎ Holds one_span (value (host 17)))
add_subnet-Holds_example =
    add_subnet-Holds subnet (host 17) one_span (host-IsIp 21 (omega arith))
      (host-IsIp 17 (omega arith)) one_span-IsPool

remove_subnet-Holds_example :
    Holds (remove_subnet subnet one_span).0 (value (host 17))
    ↔ (Holds one_span (value (host 17)) × (¬ Contains subnet (host 17)))
remove_subnet-Holds_example =
    remove_subnet-Holds subnet (host 17) one_span (host-IsIp 21 (omega arith))
      (host-IsIp 17 (omega arith)) one_span-IsPool

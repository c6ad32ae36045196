-- ===== src/Ipam/Cidr.antt =====
-- pkg/ipam/iprange.go: the ranges of subnets, and the subnets that a range is cut into. A mask is the
-- number of its leading ones, as `net.CIDRMask` makes it.
pub mod Masks
pub mod Next
pub mod Cover
pub mod Subnets
mod Examples
use z_presplit_aci_container.Base.{
  ℕ, zero, suc, ◌+◌, ◌-◌, ◌*◌, ◌%◌, ◌^◌, Bool, true, false, not, ◌&&◌, List, [], ◌∷◌, length, ltb,
  is_eq, is_le, is_gt, if◌then◌else◌,
}
use z_presplit_aci_container.Ipam.Address.{Ip, compare_bytes}
use z_presplit_aci_container.Ipam.Address.Value.{value}
use z_presplit_aci_container.Ipam.Alloc.{IpAlloc, add_range, remove_range}

-- The numbers that a byte can end in behind the first `ones` bits.
abbrev pub byte_size : ℕ → ℕ
byte_size ones = 2 ^ (8 - ones)

-- `IP.Mask` with a mask of as many bytes as the address, whose `ip[i] & mask[i]` clears what is
-- behind the ones.
unfoldable pub mask : ℕ → Ip → Ip
mask ones [] = []
mask ones (b ∷ ip) = (b - b % byte_size ones) ∷ mask (ones - 8) ip

-- `ip[i] | ^mask[i]` sets what is behind the mask.
unfoldable pub last : ℕ → Ip → Ip
last ones [] = []
last ones (b ∷ ip) = (b - b % byte_size ones + (byte_size ones - 1)) ∷ last (ones - 8) ip

-- The loop of `next`, from the last byte on, with `copy`.
unfoldable pub next_loop : Ip → Ip × Bool
next_loop [] = ([], false)
next_loop (b ∷ ip) =
    let (out, copy) = next_loop ip in
    if copy
    then (b ∷ out, true)
    else (if ltb b 255 then ((b + 1) ∷ out, true) else (0 ∷ out, false))

unfoldable pub next : Ip → Ip
next ip = (next_loop ip).0

pub record IpNet : Type 0 where
  pub ip : Ip
  pub ones : ℕ

unfoldable pub subnet_range : IpNet → Ip × Ip
subnet_range subnet = let start = mask subnet.ones subnet.ip in (start, last subnet.ones start)

unfoldable pub add_subnet : IpNet → IpAlloc → IpAlloc
add_subnet subnet ipa = let (start, end) = subnet_range subnet in add_range start end ipa

unfoldable pub remove_subnet : IpNet → IpAlloc → IpAlloc × Bool
remove_subnet subnet ipa = let (start, end) = subnet_range subnet in remove_range start end ipa

-- The test of the inner loop of `Range2Cidr`: the larger subnet starts at `start` and ends in time.
unfoldable pub fits : ℕ → Ip → Ip → Bool
fits l start end =
    is_eq (compare_bytes start (mask l start)) && not (is_gt (compare_bytes (last l start) end))

-- The inner loop.
unfoldable pub shrink : ℕ → Ip → Ip → ℕ
shrink zero start end = 0
shrink (suc l) start end = let rest = shrink l start end in if fits l start end then rest else suc l

unfoldable pub end_of_range : Ip → Ip
end_of_range [] = []
end_of_range (b ∷ ip) = 255 ∷ end_of_range ip

-- The outer loop.
unfoldable pub cidr_loop : ℕ → Ip → Ip → List IpNet
cidr_loop zero start end = []
cidr_loop (suc rounds) start end =
    let l = shrink (8 * length start) start end in
    let rest = cidr_loop rounds (next (last l start)) end in
    if is_le (compare_bytes start end)
    then record { ip = start; ones = l }
      ∷ (if is_eq (compare_bytes (last l start) (end_of_range start)) then [] else rest)
    else []

-- As many rounds as there are addresses up to the end.
unfoldable pub range2cidr : Ip → Ip → List IpNet
range2cidr start end = cidr_loop (suc (value end)) start end

-- ===== src/Ipam/Cache.antt =====
-- pkg/ipam/ipcache.go: for each family a list of available addresses and one of returned ones.
pub mod Lookup
pub mod Lists
use z_presplit_aci_container.Base.{
  ℕ, zero, suc, Bool, true, false, ◌&&◌, ◌||◌, List, [], ◌∷◌, Option, none, some, length, get_or,
  take, ◌==◌, is_eq, is_le, is_ge, ltb, if◌then◌else◌, sort_search,
}
use z_presplit_aci_container.Ipam.Address.{Ip, compare_bytes}
use z_presplit_aci_container.Ipam.Alloc.{
  IpRange, IpAlloc, range_at, add_range, add_ip, remove_ip, get_ip, add_ranges, empty,
}

-- The two lists that each family always has: `[0]` and `[1]`.
pub record IpLists : Type 0 where
  pub first : IpAlloc
  pub second : IpAlloc

pub record IpCache : Type 0 where
  pub cache_ips_v4 : IpLists
  pub cache_ips_v6 : IpLists

abbrev pub no_lists : IpLists
no_lists = record { first = []; second = [] }

pub new_ip_cache : IpCache
new_ip_cache = record { cache_ips_v4 = no_lists; cache_ips_v6 = no_lists }

unfoldable pub all_zero : List ℕ → Bool
all_zero [] = true
all_zero (b ∷ bs) = b == 0 && all_zero bs

-- `ip.To4() != nil`: four bytes, or sixteen that embed four.
unfoldable pub is_v4 : Ip → Bool
unfolding all_zero
is_v4 ip =
    length ip == 4
    || (length ip == 16
        && (all_zero (take 10 ip) && (get_or ip 10 0 == 255 && get_or ip 11 0 == 255)))

-- `ip.To16() != nil`.
unfoldable pub is_ip : Ip → Bool
is_ip ip = length ip == 4 || length ip == 16

-- An empty first list is dropped, the second takes its place, and a new one is added.
pub rotate : IpLists → IpLists
rotate ls = if empty ls.first then record { first = ls.second; second = [] } else ls

pub allocate_from : IpLists → Option Ip × IpLists
allocate_from ls =
    let ls' = rotate ls in
    let (ip, left) = get_ip ls'.first in
    if empty ls.first && empty ls.second then (none, ls) else (ip, record ls' { first = left })

pub allocate_ip : Bool → IpCache → Option Ip × IpCache
allocate_ip ipv4 c =
    let (ip, ls) = allocate_from c.cache_ips_v4 in
    let (ip', ls') = allocate_from c.cache_ips_v6 in
    if ipv4 then (ip, record c { cache_ips_v4 = ls }) else (ip', record c { cache_ips_v6 = ls' })

pub return_to : Ip → IpLists → IpLists
return_to ip ls = record ls { second = add_ip ip ls.second }

pub deallocate_ip : Ip → IpCache → IpCache
deallocate_ip ip c =
    if is_v4 ip
    then record c { cache_ips_v4 = return_to ip c.cache_ips_v4 }
    else if is_ip ip
    then record c { cache_ips_v6 = return_to ip c.cache_ips_v6 }
    else c

pub load_range : IpRange → IpCache → IpCache
load_range r c =
    let v4 = c.cache_ips_v4 in
    let v6 = c.cache_ips_v6 in
    if is_v4 r.start && is_v4 r.end
    then record c { cache_ips_v4 = record v4 { first = add_range r.start r.end v4.first } }
    else if is_ip r.start && is_ip r.end
    then record c { cache_ips_v6 = record v6 { first = add_range r.start r.end v6.first } }
    else c

pub load_ranges : List IpRange → IpCache → IpCache
load_ranges [] c = c
load_ranges (r ∷ rs) c = load_ranges rs (load_range r c)

-- The first list that has the address gives it up.
pub remove_from_lists : Ip → IpLists → IpLists × Bool
remove_from_lists ip ls =
    let (first, found) = remove_ip ip ls.first in
    let (second, found') = remove_ip ip ls.second in
    if found
    then (record ls { first = first }, true)
    else (record ls { first = first; second = second }, found')

pub cache_remove_ip : Ip → IpCache → IpCache × Bool
cache_remove_ip ip c =
    let (ls, found) = remove_from_lists ip c.cache_ips_v4 in
    let (ls', found') = remove_from_lists ip c.cache_ips_v6 in
    if is_v4 ip
    then (record c { cache_ips_v4 = ls }, found)
    else if is_ip ip
    then (record c { cache_ips_v6 = ls' }, found')
    else (c, false)

-- `CombineV4` and `CombineV6`.
pub combine : IpLists → List IpRange
combine ls = add_ranges ls.second (add_ranges ls.first [])

-- The scan of `HasIp` over all ranges.
pub scan : Ip → IpAlloc → Bool
scan ip [] = false
scan ip (r ∷ l) =
    if is_le (compare_bytes r.start ip) && is_ge (compare_bytes r.end ip) then true else scan ip l

-- The range at `i` exists and has the address at an end.
pub has_end : IpAlloc → Ip → ℕ → Bool
has_end list ip i =
    ltb i (length list)
    && (is_eq (compare_bytes (range_at list i).start ip)
        || is_eq (compare_bytes (range_at list i).end ip))

-- First the range that a search finds, then the scan.
pub has_ip : IpAlloc → Ip → Bool
has_ip list ip =
    let i = sort_search (length list) (λ i.
      is_ge (compare_bytes (range_at list i).start ip)
      || is_eq (compare_bytes (range_at list i).end ip)) in
    if length list == 0 then false else (if has_end list ip i then true else scan ip list)

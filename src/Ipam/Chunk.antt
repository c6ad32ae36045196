-- ===== src/Ipam/Chunk.antt =====
-- pkg/ipam/ipalloc.go: the size of a pool, and pools split off by size.
-- Sizes are those of `math/big`, which does not overflow. A range of a pool does not end before it
-- starts, so the differences of its ends are numbers.
pub mod Size
pub mod Total
pub mod Split
use z_presplit_aci_container.Base.{
  ℕ, zero, suc, ◌+◌, ◌-◌, ◌^◌, Bool, true, false, List, [], ◌∷◌, length, ltb, leb, if◌then◌else◌,
}
use z_presplit_aci_container.Ipam.Address.{Ip}
use z_presplit_aci_container.Ipam.Address.Value.{value}
use z_presplit_aci_container.Ipam.Address.Big.{big_bytes, pad}
use z_presplit_aci_container.Ipam.Alloc.{IpRange, IpAlloc, add_range, remove_range, add_ranges}

pub range_size : IpRange → ℕ
range_size r = 1 + (value r.end - value r.start)

-- The sum in `GetSize`, before it is cut off.
unfoldable pub total : IpAlloc → ℕ
total [] = 0
total (r ∷ l) = range_size r + total l

-- `math.MaxInt64`.
abbrev pub max_int64 : ℕ
max_int64 = 2 ^ 63 - 1

pub get_size : IpAlloc → ℕ
get_size l = if leb max_int64 (total l) then max_int64 else total l

-- `stuck` is no Go value: the rounds given did not suffice.
pub data Chunk : Type 0 where
  taken : IpAlloc → IpAlloc → Chunk
  insufficient : IpAlloc → Chunk
  stuck : Chunk

-- The end of the part of a range that has `needed` addresses.
pub new_end : IpRange → ℕ → Ip
new_end r needed = pad (length r.end) (big_bytes (value r.start + needed - 1))

-- The loop of `GetIpChunk`: `result` and `l` are the two lists, `current` the size so far.
pub chunk_loop : ℕ → ℕ → ℕ → IpAlloc → IpAlloc → Chunk
chunk_loop zero chunk_size current result l = stuck
chunk_loop (suc fuel) chunk_size current result [] =
    if ltb current chunk_size then insufficient (add_ranges result []) else taken result []
chunk_loop (suc fuel) chunk_size current result (r ∷ l) =
    let needed = chunk_size - current in
    let whole =
      chunk_loop fuel chunk_size (current + range_size r) (add_range r.start r.end result)
        (remove_range r.start r.end (r ∷ l)).0 in
    let part =
      chunk_loop fuel chunk_size (current + needed) (add_range r.start (new_end r needed) result)
        (remove_range r.start (new_end r needed) (r ∷ l)).0 in
    if ltb current chunk_size
    then (if leb (range_size r) needed then whole else part)
    else taken result (r ∷ l)

-- A negative size asks for as little as 0. Each round takes the first range or is the last but one.
pub get_ip_chunk : ℕ → IpAlloc → Chunk
get_ip_chunk chunk_size l = chunk_loop (length l + 2) chunk_size 0 [] l

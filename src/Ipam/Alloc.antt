-- ===== src/Ipam/Alloc.antt =====
-- pkg/ipam/ipalloc.go: a pool of free addresses as a list of ranges.
-- An `IpAlloc` is its only field `FreeList`.
pub mod Merge
pub mod Order
pub mod Insert
pub mod Add
pub mod Cut
pub mod Remove
pub mod Difference
pub mod Get
pub mod Batch
pub mod Overlap
use z_presplit_aci_container.Base.{
  ℕ, zero, suc, ◌+◌, ◌-◌, Bool, true, false, ◌&&◌, ◌||◌, List, [], ◌∷◌, ◌++◌, Option, none, some,
  length, get_or, set, take, drop, ltb, leb, is_lt, is_le, is_eq, is_ge, is_gt, if◌then◌else◌,
  sort_search,
}
use z_presplit_aci_container.Ipam.Address.{
  Ip, compare_bytes, carry_increment, carry_decrement, is_adj_or_greater,
}

-- Both ends belong to the range.
pub record IpRange : Type 0 where
  pub start : Ip
  pub end : Ip

abbrev pub IpAlloc : Type 0
IpAlloc = List IpRange

abbrev pub blank : IpRange
blank = record { start = []; end = [] }

-- `FreeList[i]`; the code reads it within the bounds.
abbrev pub range_at : IpAlloc → ℕ → IpRange
range_at l i = get_or l i blank

-- The body of the loop of `fixRange`: the range behind `i` is merged into the one at `i`.
unfoldable pub merge_next : ℕ → IpAlloc → IpAlloc
merge_next i l =
    let widened =
      if is_lt (compare_bytes (range_at l i).end (range_at l (suc i)).end)
      then set l i (record (range_at l i) { end = (range_at l (suc i)).end })
      else l in
    if ltb (suc i) (length l)
    then take (suc i) widened ++ drop (suc (suc i)) widened
    else take (suc i) widened

-- Each round removes a range, so `length l` rounds are enough.
unfoldable pub fix_loop : ℕ → ℕ → IpAlloc → IpAlloc
fix_loop zero i l = l
fix_loop (suc fuel) i l =
    let rest = fix_loop fuel i (merge_next i l) in
    if ltb (suc i) (length l) && is_adj_or_greater (range_at l i).end (range_at l (suc i)).start
    then rest
    else l

-- `i := index - 1; if i < 0 { i = 0 }` is the truncated difference.
unfoldable pub fix_range : ℕ → IpAlloc → IpAlloc
fix_range index l = fix_loop (length l) (index - 1) l

-- `copy(FreeList[pos+1:], FreeList[pos:])`.
unfoldable pub shift_right : ℕ → IpAlloc → IpAlloc
shift_right pos l = take (suc pos) l ++ take (length l - suc pos) (drop pos l)

unfoldable pub add_to_free : IpRange → ℕ → IpAlloc → IpAlloc × ℕ
add_to_free item pos l =
    if leb (length l) pos
    then (l ++ item ∷ [], length l)
    else (set (shift_right pos (l ++ item ∷ [])) pos item, pos)

-- The first range that does not start before `start`.
unfoldable pub start_index : Ip → IpAlloc → ℕ
start_index start l =
    sort_search (length l)
      (λ i. if leb (length l) i then true else is_ge (compare_bytes (range_at l i).start start))

unfoldable pub add_range : Ip → Ip → IpAlloc → IpAlloc
add_range start end l =
    let (l', i) = add_to_free (record { start = start; end = end }) (start_index start l) l in
    if is_gt (compare_bytes start end) then l else fix_range i l'

unfoldable pub add_ip : Ip → IpAlloc → IpAlloc
add_ip ip l = add_range ip ip l

-- The part of the target before the removed range.
unfoldable pub cut_left : IpRange → Ip → List IpRange × Bool
cut_left target start =
    if is_lt (compare_bytes target.start start)
    then (if is_ge (compare_bytes target.end start)
        then (record { start = target.start; end = (carry_decrement start).0 } ∷ [], true)
        else (target ∷ [], false))
    else ([], true)

-- The part behind it, added to what `cut_left` found.
unfoldable pub cut_right : IpRange → Ip → List IpRange × Bool → List IpRange × Bool
cut_right target end (result, changed) =
    if is_gt (compare_bytes target.end end)
    then (if is_le (compare_bytes target.start end)
        then (result ++ record { start = (carry_increment end).0; end = target.end } ∷ [], changed)
        else (result ++ target ∷ [], false))
    else (result, changed)

unfoldable pub cut_range : IpRange → Ip → Ip → List IpRange × Bool
unfolding cut_left cut_right
cut_range target start end = cut_right target end (cut_left target start)

-- `for i > 0 && (i >= len || FreeList[i].End >= start) { i-- }`.
unfoldable pub back_up : IpAlloc → Ip → ℕ → ℕ
back_up l start zero = zero
back_up l start (suc i) =
    let rest = back_up l start i in
    if leb (length l) (suc i) || is_ge (compare_bytes (range_at l (suc i)).end start)
    then rest
    else suc i

-- Each round takes one range more as read, so `length l` rounds are enough.
unfoldable pub remove_loop : ℕ → ℕ → Ip → Ip → ℕ → IpAlloc → Bool → IpAlloc × Bool
remove_loop zero endind start end i l changed = (l, changed)
remove_loop (suc fuel) endind start end i l changed =
    let (r, rchanged) = cut_range (range_at l i) start end in
    let rest =
      remove_loop fuel endind start end (i + length r) (take i l ++ (r ++ drop (suc i) l))
        (changed || rchanged) in
    if ltb i (length l) && leb i endind then rest else (l, changed)

-- The new list, and whether it changed.
unfoldable pub remove_range : Ip → Ip → IpAlloc → IpAlloc × Bool
remove_range start end l =
    let startind = sort_search (length l) (λ i. is_ge (compare_bytes (range_at l i).start start)) in
    let endind = sort_search (length l) (λ i. is_ge (compare_bytes (range_at l i).end end)) in
    let i = back_up l start startind in
    if is_gt (compare_bytes start end)
    then (l, false)
    else remove_loop (length l) endind start end i l false

unfoldable pub remove_ip : Ip → IpAlloc → IpAlloc × Bool
remove_ip ip l = remove_range ip ip l

-- `none` is the error that no address is available.
unfoldable pub get_ip : IpAlloc → Option Ip × IpAlloc
get_ip [] = (none, [])
get_ip (r ∷ l) = (
  some r.start,
  (if is_eq (compare_bytes r.start r.end)
      then l
      else record r { start = (carry_increment r.start).0 } ∷ l),
)

unfoldable pub add_ranges : List IpRange → IpAlloc → IpAlloc
add_ranges [] l = l
add_ranges (r ∷ rs) l = add_ranges rs (add_range r.start r.end l)

unfoldable pub remove_ranges : List IpRange → IpAlloc → IpAlloc
remove_ranges [] l = l
remove_ranges (r ∷ rs) l = remove_ranges rs (remove_range r.start r.end l).0

unfoldable pub empty : IpAlloc → Bool
empty [] = true
empty (r ∷ l) = false

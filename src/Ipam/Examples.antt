-- ===== src/Ipam/Examples.antt =====
-- Runs of pkg/ipam on small pools of IPv4 addresses, and each theorem at an input.
use z_presplit_aci_container.Base.{
  ℕ, ◌≡◌, ◌<◌, refl, ◌⊎◌, inl, inr, ◌↔◌, true, List, [], ◌∷◌, some, arith, sort_search, min, length,
}
use z_presplit_aci_container.Ipam.Address.{
  Ip, compare_bytes, carry_increment, carry_decrement, is_adj_or_greater,
}
use z_presplit_aci_container.Ipam.Address.Value.{value, IsIp}
use z_presplit_aci_container.Ipam.Alloc.{
  IpRange, IpAlloc, fix_loop, fix_range, merge_next, shift_right, add_to_free, start_index,
  add_range, cut_range, back_up, remove_loop, remove_range, get_ip, add_ranges, remove_ranges,
}
use z_presplit_aci_container.Ipam.Alloc.Order.{IsRange, Within, Holds}
use z_presplit_aci_container.Ipam.Alloc.Insert.{insert_range, add_range-insert_range}
use z_presplit_aci_container.Ipam.Alloc.Add.{IsSorted, IsPool, add_range-Holds, add_range-IsSorted}
use z_presplit_aci_container.Ipam.Alloc.Difference.{Outside, remove_range-Holds}
use z_presplit_aci_container.Ipam.Alloc.Get.{Takes, get_ip-Takes}
use z_presplit_aci_container.Ipam.Alloc.Batch.{HasEnds}
use z_presplit_aci_container.Ipam.Alloc.Overlap.{add_range-not-IsPool}
use z_presplit_aci_container.Ipam.Chunk.{get_size, get_ip_chunk, max_int64}
use z_presplit_aci_container.Ipam.Chunk.Size.{Counts, get_size-Counts}
use z_presplit_aci_container.Ipam.Chunk.Split.{Delivers, get_ip_chunk-Delivers}
use z_presplit_aci_container.Ipam.Intersect.{intersect}
use z_presplit_aci_container.Ipam.Intersect.Meet.{Common, intersect-Common}
use z_presplit_aci_container.Ipam.Cache.{IpLists, allocate_from, has_ip}
use z_presplit_aci_container.Ipam.Cache.Lists.{Held, IsLists, Allocates, allocate_from-Allocates}
use z_presplit_aci_container.Ipam.Cache.Lookup.{has_ip-Holds}

abbrev host : ℕ → Ip
host n = 10 ∷ 2 ∷ 1 ∷ n ∷ []

abbrev span : ℕ → ℕ → IpRange
span a b = record { start = host a; end = host b }

-- The tests of ipalloc_test.go use such lists.
abbrev two_spans : IpAlloc
two_spans = span 2 4 ∷ span 8 12 ∷ []

program : Unit {0}
unfolding compare_bytes carry_increment carry_decrement is_adj_or_greater fix_loop fix_range
    merge_next shift_right add_to_free start_index add_range cut_range back_up remove_loop
    remove_range get_ip sort_search value add_ranges remove_ranges
program = tt

add_range_between : add_range (host 5) (host 7) two_spans ≡ span 2 12 ∷ []
unfolding program
add_range_between = refl

remove_range_inside : remove_range (host 3) (host 9) two_spans ≡ (span 2 2 ∷ span 10 12 ∷ [], true)
unfolding program
remove_range_inside = refl

get_ip_first : get_ip two_spans ≡ (some (host 2), span 3 4 ∷ span 8 12 ∷ [])
unfolding program
get_ip_first = refl

two_spans-IsPool : IsPool 4 two_spans
unfolding value
two_spans-IsPool = omega arith

host-IsIp : (n : ℕ) → n < 256 → IsIp 4 (host n)
host-IsIp n h = record { width = refl; bytes = omega arith }

middle-IsRange : IsRange 4 (span 6 7)
unfolding value
middle-IsRange = omega arith

add_range_overlapping : add_range (host 6) (host 9) two_spans ≡ span 2 4 ∷ span 6 9 ∷ span 8 12 ∷ []
unfolding program
add_range_overlapping = refl

add_range-insert_range_example :
    add_range (host 6) (host 7) two_spans ≡ insert_range (span 6 7) two_spans
unfolding value
add_range-insert_range_example =
    add_range-insert_range 4 0 (span 6 7) two_spans middle-IsRange (omega arith)

add_range-Holds_example :
    Holds (add_range (host 6) (host 7) two_spans) (value (host 7))
    ↔ (Within (span 6 7) (value (host 7)) ⊎ Holds two_spans (value (host 7)))
unfolding value
add_range-Holds_example =
    add_range-Holds 4 (span 6 7) two_spans (host-IsIp 6 (omega arith)) (host-IsIp 7 (omega arith))
      (value (host 7)) (omega arith)

add_range-IsSorted_example : IsSorted 4 (add_range (host 6) (host 9) two_spans)
unfolding value
add_range-IsSorted_example =
    add_range-IsSorted 4 (span 6 9) two_spans (host-IsIp 6 (omega arith))
      (host-IsIp 9 (omega arith)) (omega arith)

middle_apart : (n : ℕ) → Within (span 6 7) n → ¬ Holds two_spans n
unfolding value
middle_apart n i (inl h) = omega arith
middle_apart n i (inr (inl h)) = omega arith
middle_apart n i (inr (inr h)) = h

overlap-IsRange : IsRange 4 (span 6 9)
unfolding value
overlap-IsRange = omega arith

add_range-not-IsPool_example :
    (add_range (host 6) (host 9) two_spans ≡ span 2 4 ∷ span 6 9 ∷ span 8 12 ∷ [])
    × (¬ IsPool 4 (add_range (host 6) (host 9) two_spans))
unfolding value
add_range-not-IsPool_example =
    add_range-not-IsPool 4 (span 2 4) (span 6 9) (span 8 12) [] two_spans-IsPool overlap-IsRange
      (omega arith) (omega arith) (omega arith)

cut_span-IsRange : IsRange 4 (span 3 9)
unfolding value
cut_span-IsRange = omega arith

remove_range-Holds_example :
    Holds (remove_range (host 3) (host 9) two_spans).0 (value (host 10))
    ↔ (Holds two_spans (value (host 10)) × Outside (span 3 9) (value (host 10)))
remove_range-Holds_example =
    remove_range-Holds 4 (span 3 9) two_spans (host-IsIp 3 (omega arith))
      (host-IsIp 9 (omega arith)) two_spans-IsPool (value (host 10))

get_ip-Takes_example : Takes 4 two_spans (get_ip two_spans)
get_ip-Takes_example = get_ip-Takes 4 two_spans two_spans-IsPool

ends : HasEnds 4 (span 6 7)
ends = record { start_ip = host-IsIp 6 (omega arith); end_ip = host-IsIp 7 (omega arith) }

cut_ends : HasEnds 4 (span 3 9)
cut_ends = record { start_ip = host-IsIp 3 (omega arith); end_ip = host-IsIp 9 (omega arith) }

get_size-Counts_example :
    (ns : List ℕ) × Counts two_spans ns × (get_size two_spans ≡ min (length ns) max_int64)
get_size-Counts_example = get_size-Counts 4 two_spans two_spans-IsPool

get_ip_chunk-Delivers_example : Delivers 4 two_spans 5 (get_ip_chunk 5 two_spans)
get_ip_chunk-Delivers_example = get_ip_chunk-Delivers 4 5 two_spans two_spans-IsPool

other-IsPool : IsPool 4 (span 3 9 ∷ [])
unfolding value
other-IsPool = omega arith

intersect-Common_example : Common 4 two_spans (span 3 9 ∷ []) (intersect two_spans (span 3 9 ∷ []))
intersect-Common_example =
    intersect-Common 4 two_spans (span 3 9 ∷ []) two_spans-IsPool other-IsPool

abbrev lists : IpLists
lists = record { first = span 2 4 ∷ []; second = span 8 12 ∷ [] }

lists-IsLists : IsLists 4 lists
unfolding value
lists-IsLists = record {
  first_pool = omega arith;
  second_pool = omega arith;
  apart = λ n u v. grind arith;
}

allocate_from-Allocates_example : Allocates 4 lists (allocate_from lists)
allocate_from-Allocates_example = allocate_from-Allocates 4 lists lists-IsLists

fresh_host : ¬ Held lists (value (host 6))
unfolding value
fresh_host u = grind arith

has_ip-Holds_example : (has_ip two_spans (host 9) ≡ true) ↔ Holds two_spans (value (host 9))
has_ip-Holds_example =
    has_ip-Holds 4 (host 9) (host-IsIp 9 (omega arith)) two_spans
      (two_spans-IsPool.1, (two_spans-IsPool.2.1, tt))

-- ===== src/Nodes/Examples.antt =====
-- A run of pkg/controller/nodes.go with three nodes, and the theorems at its states.
use z_presplit_aci_container.Base.{
  ℕ, inl, inr, refl, true, List, [], ◌∷◌, none, some, arith, sort_search,
}
use z_presplit_aci_container.Base.Maps.{Key}
use z_presplit_aci_container.Ipam.Address.{Ip, compare_bytes, is_adj_or_greater, carry_increment}
use z_presplit_aci_container.Ipam.Address.Value.{value, IsIp}
use z_presplit_aci_container.Ipam.Alloc.{
  IpRange, IpAlloc, add_range, add_to_free, start_index, fix_range, fix_loop, merge_next,
  shift_right,
}
use z_presplit_aci_container.Ipam.Alloc.Add.{IsPool}
use z_presplit_aci_container.Ipam.Alloc.Order.{Holds}
use z_presplit_aci_container.Ipam.Cache.{is_v4, all_zero}
use z_presplit_aci_container.Nodes.{
  NetIps, family, init_ipam, load_ip_ranges, new_ranges, merge_family,
}
use z_presplit_aci_container.Nodes.Moves.{Apart}
use z_presplit_aci_container.Nodes.Owned.{Separate, Keeps}
use z_presplit_aci_container.Nodes.Merged.{Granted, new_ranges-Granted, Merges, merge_family-Merges}
use z_presplit_aci_container.Nodes.Runs.{
  NodeOp, add_pod, remove_pod, check_node, run_op, run_ops, run_op-Keeps, runs-Separate,
}
use z_presplit_aci_container.Nodes.Service.{claim_ip, Serves, claim_ip-Serves}

abbrev host : ℕ → Ip
host n = 10 ∷ 3 ∷ 0 ∷ n ∷ []

abbrev span : ℕ → ℕ → IpRange
span a b = record { start = host a; end = host b }

abbrev pod_pool : List IpRange
pod_pool = span 2 40 ∷ []

abbrev no_text : NetIps → Key
no_text ips = ""

abbrev ops : List NodeOp
ops =
    add_pod "node1" "pod1"
    ∷ add_pod "node2" "pod2"
    ∷ remove_pod "node1" "pod1"
    ∷ check_node "node3"
    ∷ []

pod_pool-IsPool : IsPool 4 (family true (init_ipam pod_pool 8).configured_pod_network_ips)
unfolding init_ipam load_ip_ranges family value is_v4 all_zero add_range add_to_free start_index
    fix_range fix_loop merge_next shift_right sort_search compare_bytes is_adj_or_greater
    carry_increment
pod_pool-IsPool = let p : IsPool 4 (span 2 40 ∷ []) = omega arith in p

runs-Separate_example : Separate 4 true (run_ops no_text ops (init_ipam pod_pool 8))
runs-Separate_example = runs-Separate 4 true no_text pod_pool 8 ops pod_pool-IsPool

run_op-Keeps_example :
    Keeps 4 true "node2"
      (run_ops no_text ops (init_ipam pod_pool 8))
      (run_op no_text (add_pod "node2" "pod3") (run_ops no_text ops (init_ipam pod_pool 8)))
run_op-Keeps_example =
    run_op-Keeps 4 true no_text (add_pod "node2" "pod3")
      (run_ops no_text ops (init_ipam pod_pool 8))
      (runs-Separate 4 true no_text pod_pool 8 ops pod_pool-IsPool)

abbrev node_ranges : IpAlloc
node_ranges = span 2 9 ∷ []

abbrev left_ranges : IpAlloc
left_ranges = span 10 40 ∷ []

ranges-Apart : Apart 4 node_ranges left_ranges
unfolding value
ranges-Apart = record {
  own_pool = omega arith;
  left_pool = omega arith;
  apart = λ n i j. elim i [ inl h ↦ elim j [ inl k ↦ omega arith | inr k ↦ k ] | inr h ↦ h ];
}

new_ranges-Granted_example :
    Granted 4 5 8 node_ranges left_ranges (new_ranges 5 8 node_ranges left_ranges)
new_ranges-Granted_example = new_ranges-Granted 4 5 8 node_ranges left_ranges ranges-Apart

annotated-IsPool : IsPool 4 (span 20 30 ∷ [])
unfolding value
annotated-IsPool = omega arith

configured-IsPool : IsPool 4 (span 2 25 ∷ [])
unfolding value
configured-IsPool = omega arith

annotated-fresh : (n : ℕ) → Holds (span 20 30 ∷ []) n → ¬ Holds node_ranges n
unfolding value
annotated-fresh n i j = elim i [ inl h ↦ elim j [ inl k ↦ omega arith | inr k ↦ k ] | inr h ↦ h ]

merge_family-Merges_example :
    Merges 4 node_ranges
      (span 20 30 ∷ [])
      (span 2 25 ∷ [])
      left_ranges
      (merge_family node_ranges (span 20 30 ∷ []) (span 2 25 ∷ []) left_ranges).0
      (merge_family node_ranges (span 20 30 ∷ []) (span 2 25 ∷ []) left_ranges).1
merge_family-Merges_example =
    merge_family-Merges 4 node_ranges (span 20 30 ∷ []) (span 2 25 ∷ []) left_ranges ranges-Apart
      annotated-IsPool configured-IsPool annotated-fresh

host-IsIp : IsIp 4 (host 12)
host-IsIp = record { width = refl; bytes = omega arith }

left-IsPool : IsPool 4 left_ranges
unfolding value
left-IsPool = omega arith

claim_ip-Serves_example :
    Serves 4 (some (host 12)) left_ranges (claim_ip none (some (host 12)) left_ranges)
claim_ip-Serves_example = claim_ip-Serves 4 (some (host 12)) left_ranges host-IsIp left-IsPool

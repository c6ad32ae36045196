-- ===== src/Nodes.antt =====
-- pkg/controller/nodes.go: the addresses that the controller hands out to nodes, in chunks, for the
-- pods on them. An operation also tells whether `NodePodNetworkChanged` is called for the node.
pub mod Moves
pub mod Owned
pub mod Merged
pub mod Runs
pub mod Service
pub mod Examples
use z_presplit_aci_container.Base.{
  ℕ, ◌+◌, ◌/◌, Bool, true, false, not, ◌||◌, ◌&&◌, List, [], ◌∷◌, Option, none, some, length, ltb,
  if◌then◌else◌,
}
use z_presplit_aci_container.Base.Maps.{Key, KeySet, KeyMap, member, add, remove, lookup, insert}
use z_presplit_aci_container.Ipam.Alloc.{
  IpRange, IpAlloc, add_range, add_ranges, remove_ranges, empty,
}
use z_presplit_aci_container.Ipam.Cache.{is_v4, is_ip}
use z_presplit_aci_container.Ipam.Chunk.{Chunk, get_size, taken, insufficient, stuck, get_ip_chunk}
use z_presplit_aci_container.Ipam.Intersect.{intersect}

-- `NetIps` of pkg/metadata, as in the annotations, and `netIps`, with a pool for each family.
pub record NetIps : Type 0 where
  pub v4 : List IpRange
  pub v6 : List IpRange

pub record NodePodNetMeta : Type 0 where
  pub node_pods : KeySet
  pub pod_net_ips : NetIps
  pub pod_net_ips_annotation : Key

pub record AciController : Type 0 where
  pub configured_pod_network_ips : NetIps
  pub pod_network_ips : NetIps
  pub node_pod_net_cache : KeyMap NodePodNetMeta
  pub pod_ip_pool_chunk_size : ℕ

unfoldable pub new_node_pod_net_meta : NodePodNetMeta
new_node_pod_net_meta = record {
  node_pods = [];
  pod_net_ips = record { v4 = []; v6 = [] };
  pod_net_ips_annotation = "";
}

-- The field that `v4` chooses.
unfoldable pub family : Bool → NetIps → List IpRange
family v4 ips = if v4 then ips.v4 else ips.v6

unfoldable pub with_family : Bool → List IpRange → NetIps → NetIps
with_family true rs ips = record ips { v4 = rs }
with_family false rs ips = record ips { v6 = rs }

-- With a chunk, the node's ranges grow; without one the pool has the addresses back.
unfoldable pub after_chunk : List IpRange → IpAlloc → Chunk → Option (List IpRange) × IpAlloc
after_chunk ranges ipa (taken r left) = (some (add_ranges r ranges), left)
after_chunk ranges ipa (insufficient left) = (none, left)
after_chunk ranges ipa stuck = (none, ipa)

-- The ranges of a node with a new chunk, if one is due and there is one, and what the pool has left.
unfoldable pub new_ranges : ℕ → ℕ → List IpRange → IpAlloc → Option (List IpRange) × IpAlloc
new_ranges pods chunk_size ranges ipa =
    if ltb (get_size ranges) (pods + chunk_size / 2)
    then after_chunk ranges ipa (get_ip_chunk chunk_size ipa)
    else (none, ipa)

-- `nodePodNetCache[nodename]`, made if it is missing.
unfoldable pub pod_net_of : Key → AciController → NodePodNetMeta
pod_net_of nodename cont = elim (lookup nodename cont.node_pod_net_cache) [
  | none ↦ new_node_pod_net_meta
  | some existing ↦ existing
]

unfoldable pub put_node : Key → NodePodNetMeta → AciController → AciController
put_node nodename podnet cont = record cont {
  node_pod_net_cache = insert nodename podnet cont.node_pod_net_cache;
}

-- `mergePodNet` for one family: the ranges of the node, and what the controller's pool has left. The
-- loop of `Intersect` always ends with a result.
unfoldable pub merge_family :
    List IpRange → List IpRange → IpAlloc → IpAlloc → List IpRange × IpAlloc
merge_family ranges existing configured ipa = (
  (elim (intersect (add_ranges existing ranges) configured) [ none ↦ [] | some v ↦ v ]),
  remove_ranges existing ipa,
)

-- `loadIpRanges` of config.go, for both families.
unfoldable pub load_ip_ranges : List IpRange → NetIps → NetIps
load_ip_ranges [] ips = ips
load_ip_ranges (r ∷ rs) ips = load_ip_ranges rs (
    if is_v4 r.start && is_v4 r.end
    then record ips { v4 = add_range r.start r.end ips.v4 }
    else if is_ip r.start && is_ip r.end
    then record ips { v6 = add_range r.start r.end ips.v6 }
    else ips)

-- The part of `initIpam` for the pod network, from `PodIpPool`.
unfoldable pub init_ipam : List IpRange → ℕ → AciController
init_ipam pod_ip_pool chunk_size =
    let configured = load_ip_ranges pod_ip_pool (record { v4 = []; v6 = [] }) in
    record {
      configured_pod_network_ips = configured;
      pod_network_ips = record {
        v4 = add_ranges configured.v4 [];
        v6 = add_ranges configured.v6 [];
      };
      node_pod_net_cache = [];
      pod_ip_pool_chunk_size = chunk_size;
    }

-- `marshal` is the text of `json.Marshal`, empty on an error.
module _ (marshal : NetIps → Key) where
  unfoldable pub recompute_pod_net_annotation : NodePodNetMeta → NodePodNetMeta
  recompute_pod_net_annotation podnet = record podnet {
    pod_net_ips_annotation = marshal podnet.pod_net_ips;
  }

  -- The second part of `allocateIpChunk`: whether the node's ranges have changed.
  unfoldable pub grant :
      Bool
      → NodePodNetMeta
      → AciController
      → Option (List IpRange) × IpAlloc
      → Bool × NodePodNetMeta × AciController
  grant v4 podnet cont (none, left) =
      (false, podnet, record cont { pod_network_ips = with_family v4 left cont.pod_network_ips })
  grant v4 podnet cont (some ranges, left) = (
    true,
    recompute_pod_net_annotation
        (record podnet { pod_net_ips = with_family v4 ranges podnet.pod_net_ips }),
    record cont { pod_network_ips = with_family v4 left cont.pod_network_ips },
  )

  unfoldable pub allocate_ip_chunk :
      Bool → NodePodNetMeta → AciController → Bool × NodePodNetMeta × AciController
  allocate_ip_chunk v4 podnet cont = grant v4 podnet cont (
      new_ranges (length podnet.node_pods) cont.pod_ip_pool_chunk_size
        (family v4 podnet.pod_net_ips) (family v4 cont.pod_network_ips))

  unfoldable pub allocate_if :
      Bool → NodePodNetMeta → AciController → Bool × NodePodNetMeta × AciController
  allocate_if v4 podnet cont =
      if empty (family v4 cont.configured_pod_network_ips)
      then (false, podnet, cont)
      else allocate_ip_chunk v4 podnet cont

  unfoldable pub check_node_pod_net : Key → AciController → Bool × AciController
  check_node_pod_net nodename cont = elim (lookup nodename cont.node_pod_net_cache) [
    | none ↦ (false, cont)
    | some podnet ↦
        let (v4changed, podnet1, cont1) = allocate_if true podnet cont in
        let (v6changed, podnet2, cont2) = allocate_if false podnet1 cont1 in
        (
          v4changed || v6changed,
          record cont2 { node_pod_net_cache = insert nodename podnet2 cont2.node_pod_net_cache },
        )
  ]

  unfoldable pub add_pod_to_node : Key → Key → AciController → Bool × AciController
  add_pod_to_node nodename key cont =
      let existing = pod_net_of nodename cont in
      if not (member key existing.node_pods)
      then check_node_pod_net nodename
          (put_node nodename (record existing { node_pods = add key existing.node_pods }) cont)
      else (false, put_node nodename existing cont)

  unfoldable pub remove_pod_from_node : Key → Key → AciController → Bool × AciController
  remove_pod_from_node nodename key cont = elim (lookup nodename cont.node_pod_net_cache) [
    | none ↦ (false, cont)
    | some existing ↦
        check_node_pod_net nodename
          (put_node nodename (record existing { node_pods = remove key existing.node_pods }) cont)
  ]

  -- `existing` is the parsed annotation, none if it does not parse.
  unfoldable pub merge_pod_net :
      NodePodNetMeta → Option NetIps → AciController → NodePodNetMeta × AciController
  merge_pod_net podnet none cont = (podnet, cont)
  merge_pod_net podnet (some existing) cont =
      let (v4, left4) =
        merge_family podnet.pod_net_ips.v4 existing.v4 cont.configured_pod_network_ips.v4
          cont.pod_network_ips.v4 in
      let (v6, left6) =
        merge_family podnet.pod_net_ips.v6 existing.v6 cont.configured_pod_network_ips.v6
          cont.pod_network_ips.v6 in
      (
        recompute_pod_net_annotation (record podnet { pod_net_ips = record { v4 = v4; v6 = v6 } }),
        record cont { pod_network_ips = record { v4 = left4; v6 = left6 } },
      )

  -- `annotation` is the text of the node's pod network, if it has one, and `parse` is `json.Unmarshal`.
  unfoldable pub sync_pod_net :
      (Key → Option NetIps) → Key → Option Key → AciController → AciController
  sync_pod_net parse nodename annotation cont = elim annotation [
    | none ↦ cont
    | some netval ↦
        let (podnet, cont') = merge_pod_net new_node_pod_net_meta (parse netval) cont in
        put_node nodename podnet cont'
  ]

-- ===== src/Nodes/Runs.antt =====
-- Any sequence of operations of pkg/controller/nodes.go, from the start on.
use z_presplit_aci_container.Base.{ℕ, Bool, true, false, List, [], ◌∷◌}
use z_presplit_aci_container.Base.Maps.{Key, lookup}
use z_presplit_aci_container.Ipam.Alloc.{IpRange, add_ranges}
use z_presplit_aci_container.Ipam.Alloc.Add.{IsPool}
use z_presplit_aci_container.Ipam.Alloc.Batch.{add_ranges-IsPool}
use z_presplit_aci_container.Nodes.{
  NetIps, AciController, family, init_ipam, load_ip_ranges, add_pod_to_node, remove_pod_from_node,
  check_node_pod_net,
}
use z_presplit_aci_container.Nodes.Owned.{
  owned, Separate, Keeps, add_pod_to_node-Keeps, remove_pod_from_node-Keeps, check-Keeps,
}

pub data NodeOp : Type 0 where
  add_pod : (nodename key : Key) → NodeOp
  remove_pod : (nodename key : Key) → NodeOp
  check_node : (nodename : Key) → NodeOp

abbrev pub node_of : NodeOp → Key
node_of (add_pod nodename key) = nodename
node_of (remove_pod nodename key) = nodename
node_of (check_node nodename) = nodename

module _ (marshal : NetIps → Key) where
  unfoldable pub run_op : NodeOp → AciController → AciController
  run_op (add_pod nodename key) cont = (add_pod_to_node marshal nodename key cont).1
  run_op (remove_pod nodename key) cont = (remove_pod_from_node marshal nodename key cont).1
  run_op (check_node nodename) cont = (check_node_pod_net marshal nodename cont).1

  unfoldable pub run_ops : List NodeOp → AciController → AciController
  run_ops [] cont = cont
  run_ops (o ∷ os) cont = run_ops os (run_op o cont)

module _ (w : ℕ) (g : Bool) (marshal : NetIps → Key) where
  -- In an address family in which the ranges of all nodes and of the pool of the controller are
  -- separate and in order and share no address, addPodToNode, removePodFromNode and
  -- checkNodePodNet keep them so, and the node and the pool hold together exactly the addresses
  -- that they held.
  pub run_op-Keeps :
      (o : NodeOp) (cont : AciController)
      → Separate w g cont
      → Keeps w g (node_of o) cont (run_op marshal o cont)
  unfolding run_op
  run_op-Keeps (add_pod node key) cont s = add_pod_to_node-Keeps w g marshal node key cont s
  run_op-Keeps (remove_pod node key) cont s = remove_pod_from_node-Keeps w g marshal node key cont s
  run_op-Keeps (check_node node) cont s = check-Keeps w g marshal node cont s

  run_ops-Separate :
      (os : List NodeOp) (cont : AciController)
      → Separate w g cont
      → Separate w g (run_ops marshal os cont)
  unfolding run_ops
  run_ops-Separate [] cont s = s
  run_ops-Separate (o ∷ os) cont s =
      run_ops-Separate os (run_op marshal o cont) (run_op-Keeps o cont s).separate

  init-pool :
      (pool : List IpRange) (chunk_size : ℕ)
      → IsPool w (family g (init_ipam pool chunk_size).configured_pod_network_ips)
      → IsPool w (family g (init_ipam pool chunk_size).pod_network_ips)
  unfolding init_ipam family
  init-pool pool chunk_size p = both g p
    where
      configured : NetIps
      configured = load_ip_ranges pool (record { v4 = []; v6 = [] })

      both :
          (g : Bool)
          → IsPool w (family g configured)
          → IsPool w (
              family g
                (record { v4 = add_ranges configured.v4 []; v6 = add_ranges configured.v6 [] }))
      both true p = add_ranges-IsPool w 0 configured.v4 [] p tt (λ n i j. j)
      both false p = add_ranges-IsPool w 0 configured.v6 [] p tt (λ n i j. j)

  init-Separate :
      (pool : List IpRange) (chunk_size : ℕ)
      → IsPool w (family g (init_ipam pool chunk_size).configured_pod_network_ips)
      → Separate w g (init_ipam pool chunk_size)
  unfolding init_ipam owned lookup
  init-Separate pool chunk_size p = record {
    free = init-pool pool chunk_size p;
    own = λ node. tt;
    outside = λ node n h. absurd h;
    disjoint = λ i j n e h. absurd h;
  }

  -- If the configured ranges of an address family are separate and in order, then whatever pods
  -- are added to and removed from whatever nodes, in this family the ranges of each node and of
  -- the pool of the controller are separate and in order, and no address is at two nodes, or at a
  -- node and in the pool.
  pub runs-Separate :
      (pool : List IpRange) (chunk_size : ℕ) (os : List NodeOp)
      → IsPool w (family g (init_ipam pool chunk_size).configured_pod_network_ips)
      → Separate w g (run_ops marshal os (init_ipam pool chunk_size))
  runs-Separate pool chunk_size os p =
      run_ops-Separate os (init_ipam pool chunk_size) (init-Separate pool chunk_size p)

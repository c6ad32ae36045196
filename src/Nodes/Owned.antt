-- ===== src/Nodes/Owned.antt =====
-- Each address is at one node at most, or still in the pool of pkg/controller/nodes.go, whatever pods
-- come and go.
use z_presplit_aci_container.Base.{
  ℕ, ◌≡◌, ◌⊎◌, inl, inr, ◌↔◌, ◌∙◌, refl, sym, ap, subst, Bool, true, false, not, [], Option, none,
  some, arith, Bool-cases, Option-cases, if◌then◌else◌,
}
use z_presplit_aci_container.Base.Maps.{
  Key, KeyMap, lookup, insert, member, add, remove, same_key, same_key_iff, same_key_sym,
  same_key_refl, lookup-insert,
}
use z_presplit_aci_container.Ipam.Alloc.{IpAlloc, empty}
use z_presplit_aci_container.Ipam.Alloc.Order.{Holds}
use z_presplit_aci_container.Ipam.Alloc.Add.{IsPool}
use z_presplit_aci_container.Nodes.{
  NetIps, NodePodNetMeta, AciController, new_node_pod_net_meta, family, allocate_if,
  allocate_ip_chunk, grant, check_node_pod_net, pod_net_of, put_node, add_pod_to_node,
  remove_pod_from_node,
}
use z_presplit_aci_container.Nodes.Moves.{Apart, Moves, Moves-refl, allocate_both-Steps}

-- The ranges of a node, none for a node that is not known.
unfoldable pub owned : Bool → KeyMap NodePodNetMeta → Key → IpAlloc
owned g cache node = elim (lookup node cache) [
  | none ↦ []
  | some podnet ↦ family g podnet.pod_net_ips
]

no_ranges : (g : Bool) → [] ≡ family g (record { v4 = []; v6 = [] })
unfolding family
no_ranges true = refl
no_ranges false = refl

module _ (w : ℕ) (g : Bool) where
  -- The pools of all nodes and the controller's share no address, in the family `g`.
  pub record Separate (cont : AciController) : Type 0 where
    pub free : IsPool w (family g cont.pod_network_ips)
    pub own : (node : Key) → IsPool w (owned g cont.node_pod_net_cache node)
    pub outside :
        (node : Key) (n : ℕ)
        → Holds (owned g cont.node_pod_net_cache node) n
        → ¬ Holds (family g cont.pod_network_ips) n
    pub disjoint :
        (i j : Key) (n : ℕ)
        → same_key i j ≡ false
        → Holds (owned g cont.node_pod_net_cache i) n
        → ¬ Holds (owned g cont.node_pod_net_cache j) n

  owned-insert :
      (cache : KeyMap NodePodNetMeta) (node j : Key) (podnet : NodePodNetMeta)
      → owned g (insert node podnet cache) j
        ≡ (if same_key j node then family g podnet.pod_net_ips else owned g cache j)
  unfolding owned
  owned-insert cache node j podnet = elim (Bool-cases (same_key j node)) [
    | inl e ↦ ground (arith, e, lookup-insert j node podnet cache)
    | inr e ↦ ground (arith, e, lookup-insert j node podnet cache)
  ]

  -- One node's ranges and the pool change as a step changes them.
  put-Separate :
      (cont cont' : AciController) (node : Key) (podnet : NodePodNetMeta)
      → Separate cont
      → Moves w
          (owned g cont.node_pod_net_cache node)
          (family g cont.pod_network_ips)
          (family g podnet.pod_net_ips)
          (family g cont'.pod_network_ips)
      → cont'.node_pod_net_cache ≡ insert node podnet cont.node_pod_net_cache
      → Separate cont'
  put-Separate cont cont' node podnet s m e =
      let ranges = family g podnet.pod_net_ips in
      let old = owned g cont.node_pod_net_cache in
      let new = owned g cont'.node_pod_net_cache in
      let own : (j : Key) → same_key j node ≡ true → new j ≡ ranges = λ j same.
        ap (λ c. owned g c j) e
        ∙ ground (arith, same, owned-insert cont.node_pod_net_cache node j podnet) in
      let other : (j : Key) → same_key j node ≡ false → new j ≡ old j = λ j differs.
        ap (λ c. owned g c j) e
        ∙ ground (arith, differs, owned-insert cont.node_pod_net_cache node j podnet) in
      let clash : (j : Key) (n : ℕ) → same_key j node ≡ false → Holds ranges n → ¬ Holds (old j) n =
        λ j n differs h k. elim ((m.whole n).0 (inl h)) [
          | inl was ↦ s.disjoint j node n differs k was
          | inr was ↦ s.outside j n k was
        ] in
      record {
        free = m.still.left_pool;
        own = λ j. elim (Bool-cases (same_key j node)) [
          | inl same ↦ subst (IsPool w) (sym (own j same)) m.still.own_pool
          | inr differs ↦ subst (IsPool w) (sym (other j differs)) (s.own j)
        ];
        outside = λ j n h k. elim (Bool-cases (same_key j node)) [
          | inl same ↦ m.still.apart n (subst (λ l. Holds l n) (own j same) h) k
          | inr differs ↦
              let h' = subst (λ l. Holds l n) (other j differs) h in
              elim ((m.whole n).0 (inr k)) [
                | inl was ↦ s.disjoint j node n differs h' was
                | inr was ↦ s.outside j n h' was
              ]
        ];
        disjoint = λ i j n apart hi hj. elim (Bool-cases (same_key i node)) [
          | inl same ↦
              let differs : same_key j node ≡ false =
                ground (arith, apart, same_key_sym i j, same_key_iff i node same) in
              clash j n differs (subst (λ l. Holds l n) (own i same) hi)
                (subst (λ l. Holds l n) (other j differs) hj)
          | inr differs ↦
              let hi' = subst (λ l. Holds l n) (other i differs) hi in
              elim (Bool-cases (same_key j node)) [
                | inl same ↦ clash i n differs (subst (λ l. Holds l n) (own j same) hj) hi'
                | inr differs' ↦
                    s.disjoint i j n apart hi' (subst (λ l. Holds l n) (other j differs') hj)
              ]
        ];
      }

  -- What one operation does to the addresses of a node and of the pool together.
  abbrev pub Conserves : Key → AciController → AciController → Type 0
  Conserves node cont cont' =
      (n : ℕ)
      → (Holds (owned g cont'.node_pod_net_cache node) n ⊎ Holds (family g cont'.pod_network_ips) n)
        ↔ (Holds (owned g cont.node_pod_net_cache node) n ⊎ Holds (family g cont.pod_network_ips) n)

  -- An operation on one node keeps all pools apart, and loses and invents no address.
  pub record Keeps (node : Key) (cont cont' : AciController) : Type 0 where
    pub separate : Separate cont'
    pub conserves : Conserves node cont cont'

  Keeps-refl : (node : Key) (cont : AciController) → Separate cont → Keeps node cont cont
  Keeps-refl node cont s = record { separate = s; conserves = λ n. (λ u. u, λ u. u) }

  Keeps-trans :
      (node : Key) (a b c : AciController) → Keeps node a b → Keeps node b c → Keeps node a c
  Keeps-trans node a b c k l = record {
    separate = l.separate;
    conserves = λ n. (
      λ u. (k.conserves n).0 ((l.conserves n).0 u),
      λ u. (l.conserves n).1 ((k.conserves n).1 u),
    );
  }

  put-Keeps :
      (cont cont' : AciController) (node : Key) (podnet : NodePodNetMeta)
      → Separate cont
      → Moves w
          (owned g cont.node_pod_net_cache node)
          (family g cont.pod_network_ips)
          (family g podnet.pod_net_ips)
          (family g cont'.pod_network_ips)
      → cont'.node_pod_net_cache ≡ insert node podnet cont.node_pod_net_cache
      → Keeps node cont cont'
  put-Keeps cont cont' node podnet s m e =
      let is : owned g cont'.node_pod_net_cache node ≡ family g podnet.pod_net_ips =
        ap (λ c. owned g c node) e
        ∙ ground
            (arith, same_key_refl node, owned-insert cont.node_pod_net_cache node node podnet) in
      record {
        separate = put-Separate cont cont' node podnet s m e;
        conserves = λ n.
            subst
              (λ l. (Holds l n ⊎ Holds (family g cont'.pod_network_ips) n) ↔ (
                Holds (owned g cont.node_pod_net_cache node) n
                ⊎ Holds (family g cont.pod_network_ips) n))
              (sym is) (m.whole n);
      }

  owned_known :
      (node : Key) (podnet : NodePodNetMeta) (cache : KeyMap NodePodNetMeta)
      → lookup node cache ≡ some podnet
      → owned g cache node ≡ family g podnet.pod_net_ips
  unfolding owned
  owned_known node podnet cache h = rw (h, owned) refl

  owned-pod_net_of :
      (node : Key) (cont : AciController)
      → owned g cont.node_pod_net_cache node ≡ family g (pod_net_of node cont).pod_net_ips
  unfolding owned pod_net_of new_node_pod_net_meta family
  owned-pod_net_of node cont = elim (Option-cases (lookup node cont.node_pod_net_cache)) [
    | inl h ↦ rw (h, owned, pod_net_of) (no_ranges g)
    | inr (podnet, h) ↦ rw (h, owned, pod_net_of) refl
  ]

  module _ (marshal : NetIps → Key) where
    grant-cache :
        (v4 : Bool) (podnet : NodePodNetMeta) (cont : AciController) (found : Option IpAlloc)
        (left : IpAlloc)
        → (grant marshal v4 podnet cont (found, left)).2.node_pod_net_cache
          ≡ cont.node_pod_net_cache
    unfolding grant
    grant-cache v4 podnet cont none left = refl
    grant-cache v4 podnet cont (some r) left = refl

    allocate_if-cache :
        (v4 : Bool) (podnet : NodePodNetMeta) (cont : AciController)
        → (allocate_if marshal v4 podnet cont).2.node_pod_net_cache ≡ cont.node_pod_net_cache
    unfolding allocate_if allocate_ip_chunk
    allocate_if-cache v4 podnet cont =
        elim (Bool-cases (empty (family v4 cont.configured_pod_network_ips))) [
          | inl e ↦ rw (e, allocate_if) refl
          | inr e ↦ rw (e, allocate_if) (grant-cache v4 podnet cont _ _)
        ]

    pub check-Keeps :
        (node : Key) (cont : AciController)
        → Separate cont
        → Keeps node cont (check_node_pod_net marshal node cont).1
    unfolding check_node_pod_net
    check-Keeps node cont s = elim (Option-cases (lookup node cont.node_pod_net_cache)) [
      | inl h ↦ rw (h, check_node_pod_net) (Keeps-refl node cont s)
      | inr (podnet, h) ↦
          let is = owned_known node podnet cont.node_pod_net_cache h in
          let ranges = family g podnet.pod_net_ips in
          let ready : Apart w ranges (family g cont.pod_network_ips) = record {
            own_pool = subst (IsPool w) is (s.own node);
            left_pool = s.free;
            apart = λ n i j. s.outside node n (subst (λ l. Holds l n) (sym is) i) j;
          } in
          let one = allocate_if marshal true podnet cont in
          let two = allocate_if marshal false one.1 one.2 in
          let cache : two.2.node_pod_net_cache ≡ cont.node_pod_net_cache =
            allocate_if-cache false one.1 one.2 ∙ allocate_if-cache true podnet cont in
          rw (h, check_node_pod_net)
            (put-Keeps cont
              (record (two.2) { node_pod_net_cache = insert node two.1 two.2.node_pod_net_cache })
              node two.1 s
              (subst
                (λ l.
                  Moves w l (family g cont.pod_network_ips) (family g two.1.pod_net_ips)
                    (family g two.2.pod_network_ips))
                (sym is) (allocate_both-Steps w marshal g podnet cont ready))
              (ap (insert node two.1) cache))
    ]

    -- A node's pods change, and not its ranges.
    put_node-Keeps :
        (node : Key) (podnet : NodePodNetMeta) (cont : AciController)
        → Separate cont
        → podnet.pod_net_ips ≡ (pod_net_of node cont).pod_net_ips
        → Keeps node cont (put_node node podnet cont)
    unfolding put_node
    put_node-Keeps node podnet cont s e =
        let is : owned g cont.node_pod_net_cache node ≡ family g podnet.pod_net_ips =
          owned-pod_net_of node cont ∙ ap (family g) (sym e) in
        put-Keeps cont
          (record cont { node_pod_net_cache = insert node podnet cont.node_pod_net_cache }) node
          podnet s
          (subst
            (λ l.
              Moves w (owned g cont.node_pod_net_cache node) (family g cont.pod_network_ips) l
                (family g cont.pod_network_ips))
            is
            (Moves-refl w (owned g cont.node_pod_net_cache node) (family g cont.pod_network_ips)
              (record { own_pool = s.own node; left_pool = s.free; apart = s.outside node })))
          refl

    -- Where the pools of the nodes and the controller are lists of separate ranges in order and share
    -- no address, addPodToNode keeps them so.
    pub add_pod_to_node-Keeps :
        (node key : Key) (cont : AciController)
        → Separate cont
        → Keeps node cont (add_pod_to_node marshal node key cont).1
    unfolding add_pod_to_node
    add_pod_to_node-Keeps node key cont s =
        let existing = pod_net_of node cont in
        let grown = record existing { node_pods = add key existing.node_pods } in
        elim (Bool-cases (not (member key existing.node_pods))) [
          | inl e ↦
              let k = put_node-Keeps node grown cont s refl in
              rw (e, add_pod_to_node)
                (Keeps-trans node cont (put_node node grown cont) _ k
                  (check-Keeps node (put_node node grown cont) k.separate))
          | inr e ↦ rw (e, add_pod_to_node) (put_node-Keeps node existing cont s refl)
        ]

    pub remove_pod_from_node-Keeps :
        (node key : Key) (cont : AciController)
        → Separate cont
        → Keeps node cont (remove_pod_from_node marshal node key cont).1
    unfolding remove_pod_from_node pod_net_of
    remove_pod_from_node-Keeps node key cont s =
        elim (Option-cases (lookup node cont.node_pod_net_cache)) [
          | inl h ↦ rw (h, remove_pod_from_node) (Keeps-refl node cont s)
          | inr (existing, h) ↦
              let less = record existing { node_pods = remove key existing.node_pods } in
              let same : less.pod_net_ips ≡ (pod_net_of node cont).pod_net_ips =
                rw (h, pod_net_of) refl in
              let k = put_node-Keeps node less cont s same in
              rw (h, remove_pod_from_node)
                (Keeps-trans node cont (put_node node less cont) _ k
                  (check-Keeps node (put_node node less cont) k.separate))
        ]

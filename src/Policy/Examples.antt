-- ===== src/Policy/Examples.antt =====
-- Runs of pkg/controller/network_policy.go and of the handlers in services.go.
use z_presplit_aci_container.Base.{
  ◌++◌, ℕ, ◌<◌, sort_search, subst, arith, Option, ◌==◌, ◌≡◌, ◌∙◌, refl, Bool, true, false, ◌&&◌,
  ◌||◌, List, [], ◌∷◌, none, some, if◌then◌else◌,
}
use z_presplit_aci_container.Base.Maps.{
  Key, same_key, member, add, remove, is_empty, lookup, insert, delete,
}
use z_presplit_aci_container.Apic.{ApicObject, get_dn, get_attr_str}
use z_presplit_aci_container.Policy.{
  port_proto, tcp, udp, int_port, named_port, NetworkPolicyPort, Families, new_hostprot_subj,
  build_net_pol_subj_rules,
}
use z_presplit_aci_container.Ipam.Address.{
  Ip, compare_bytes, is_adj_or_greater, carry_increment, carry_decrement,
}
use z_presplit_aci_container.Ipam.Address.Value.{value, IsIp}
use z_presplit_aci_container.Ipam.Alloc.{
  add_range, start_index, add_to_free, fix_range, fix_loop, merge_next, shift_right, remove_range,
  cut_range, cut_left, cut_right, back_up, remove_loop,
}
use z_presplit_aci_container.Ipam.Cidr.{
  mask, last, next, next_loop, range2cidr, cidr_loop, shrink, fits, end_of_range, add_subnet,
  remove_subnet, subnet_range, IpNet,
}
use z_presplit_aci_container.Policy.Blocks.{
  ip_block_to_subnets, remove_excepts, nets_of, free_nets, HasWidth, BlockSubnets,
  ip_block_to_subnets-BlockSubnets,
}
use z_presplit_aci_container.Policy.Names.{names, child_names, policy_names}
use z_presplit_aci_container.Policy.Allows.{Packet, in_subnet, any_subnet, rules_allow}
use z_presplit_aci_container.Policy.Rules.{
  allows, family_open, remote_open, ports_open, build_net_pol_subj_rules-allows,
}
use z_presplit_aci_container.Policy.PortIndex.{
  update_target_port_index, drop_ports, add_ports, drop_entry, entry_or_new, drop_key, set_key,
  no_keys, has_port, egress_port, egress_ports, egress_rules, get_net_pol_target_ports,
  service_ports, get_service_target_ports, target_port_num, proto_of,
}
use z_presplit_aci_container.Policy.PortIndex.Handlers.{
  set_policy_event, delete_policy_event, set_service_event, delete_service_event,
  network_policy_added, network_policy_deleted, service_added, service_deleted,
  queue_port_net_pol_updates, queue_entry, add_keys, PortEvent, set_policy, delete_policy,
  set_service, delete_service, follow, follow_all, new_cluster,
}
use z_presplit_aci_container.Policy.PortIndex.Followed.{Agrees, follow_all-Agrees}
use z_presplit_aci_container.Policy.PortIndex.Queued.{concerns, follow-queues}

-- The texts of the numbers that the runs use.
abbrev itoa : ℕ → Key
itoa n = if n == 80 then "80" else (if n == 53 then "53" else (if n == 2 then "2" else "0"))

abbrev web : NetworkPolicyPort
web = record { protocol = none; port = some (int_port 80) }

abbrev dns : NetworkPolicyPort
dns = record { protocol = some udp; port = some (int_port 53) }

abbrev named : NetworkPolicyPort
named = record { protocol = some tcp; port = some (named_port "http") }

abbrev subj : ApicObject
subj = new_hostprot_subj "uni/pol-np" "egress"

abbrev ip : ℕ → Ip
ip n = 10 ∷ 3 ∷ 0 ∷ n ∷ []

-- The texts of two subnets.
abbrev parse : Key → Option IpNet
parse c =
    if same_key c "10.3.0.0/24"
    then some (record { ip = ip 0; ones = 24 })
    else (if same_key c "10.3.0.8/29" then some (record { ip = ip 8; ones = 29 }) else none)

-- A request to 10.3.0.9.
abbrev packet : Packet
packet = record {
  direction = "egress";
  ethertype = "ipv4";
  protocol = "udp";
  port = "53";
  remote = in_subnet parse (ip 9);
  reply = false;
}

abbrev only_v4 : Families
only_v4 = record { has_v4 = true; has_v6 = false }

differ_if :
    (b : Bool) (x y z : Key)
    → same_key x z ≡ false
    → same_key y z ≡ false
    → same_key (if b then x else y) z ≡ false
differ_if true x y z g h = g
differ_if false x y z g h = h

itoa_differs :
    (z : Key)
    → same_key "80" z ≡ false
    → same_key "53" z ≡ false
    → same_key "2" z ≡ false
    → same_key "0" z ≡ false
    → (n : ℕ) → same_key (itoa n) z ≡ false
itoa_differs z a b c d n =
    differ_if (n == 80) "80" (if n == 53 then "53" else (if n == 2 then "2" else "0")) z a (
      differ_if (n == 53) "53" (if n == 2 then "2" else "0") z b (differ_if (n == 2) "2" "0" z c d))

itoa-not_empty : (n : ℕ) → same_key (itoa n) "" ≡ false
unfolding same_key
itoa-not_empty = itoa_differs "" refl refl refl refl

itoa-not_any : (n : ℕ) → same_key (itoa n) "unspecified" ≡ false
unfolding same_key
itoa-not_any = itoa_differs "unspecified" refl refl refl refl

build_net_pol_subj_rules-allows_example :
    (allows packet (
        build_net_pol_subj_rules itoa only_v4 "0" "egress" true
          ("10.3.0.8/29" ∷ [])
          (web ∷ named ∷ dns ∷ [])
          subj)
      ≡ (allows packet subj
          || (same_key "egress" packet.direction
              && family_open only_v4 packet
              && (remote_open true ("10.3.0.8/29" ∷ []) packet
                  && ports_open itoa (web ∷ named ∷ dns ∷ []) packet))))
    × (child_names (
          build_net_pol_subj_rules itoa only_v4 "0" "egress" true
            ("10.3.0.8/29" ∷ [])
            (web ∷ named ∷ dns ∷ [])
            subj)
        ≡ child_names subj
          ++ policy_names itoa only_v4
              (get_dn subj)
              "0"
              true
              ("10.3.0.8/29" ∷ [])
              (web ∷ named ∷ dns ∷ []))
build_net_pol_subj_rules-allows_example =
    build_net_pol_subj_rules-allows itoa packet "egress" "0" only_v4 true ("10.3.0.8/29" ∷ [])
      (web ∷ named ∷ dns ∷ []) subj itoa-not_empty itoa-not_any

-- The policy "np1" opens port 53 of any address and, with a peer, port 80; the service "dns" has port 53.
abbrev events : List PortEvent
events =
    set_policy "np1" (
      record { has_to = false; ports = dns ∷ [] } ∷ record { has_to = true; ports = web ∷ [] } ∷ [])
    ∷ set_policy "np2" (record { has_to = false; ports = web ∷ [] } ∷ [])
    ∷ set_service "dns" (record { protocol = udp; target_port = 0; port = 53 } ∷ [])
    ∷ delete_policy "np2"
    ∷ []

follow_all-Agrees_example : Agrees itoa (follow_all itoa events new_cluster)
follow_all-Agrees_example = follow_all-Agrees itoa events

follow-queues_example :
    member "np1" (follow itoa (delete_service "dns") (follow_all itoa events new_cluster)).state.0
    ≡ (member "np1" (follow_all itoa events new_cluster).state.0
        || concerns itoa (delete_service "dns") (follow_all itoa events new_cluster) "np1")
follow-queues_example = follow-queues itoa events (delete_service "dns") "np1"

-- The rules let DNS through, and the deletion of the service queues the policy that names its port.
dns_allowed :
    allows packet (
      build_net_pol_subj_rules itoa only_v4 "0" "egress" true
        ("10.3.0.8/29" ∷ [])
        (web ∷ named ∷ dns ∷ [])
        subj)
    ≡ true
unfolding same_key any_subnet rules_allow new_hostprot_subj port_proto mask compare_bytes
dns_allowed = build_net_pol_subj_rules-allows_example.0 ∙ refl

-- The same packet as ingress is not let through.
dns_not_ingress :
    allows
      (record packet { direction = "ingress" })
      (build_net_pol_subj_rules itoa only_v4 "0" "egress" true ("10.3.0.8/29" ∷ []) (dns ∷ []) subj)
    ≡ false
unfolding same_key any_subnet rules_allow new_hostprot_subj port_proto mask compare_bytes
dns_not_ingress =
    (build_net_pol_subj_rules-allows itoa (record packet { direction = "ingress" }) "egress" "0"
      only_v4 true ("10.3.0.8/29" ∷ []) (dns ∷ []) subj itoa-not_empty itoa-not_any).0
    ∙ refl

-- The first entry and the last one of the ports have a rule each.
dns_names :
    child_names (
      build_net_pol_subj_rules itoa only_v4 "0" "egress" true
        ("10.3.0.8/29" ∷ [])
        (web ∷ named ∷ dns ∷ [])
        subj)
    ≡ "uni/pol-np/subj-egress/rule-0_0" ∷ "uni/pol-np/subj-egress/rule-0_2" ∷ []
unfolding names new_hostprot_subj get_dn get_attr_str lookup insert same_key
dns_names = build_net_pol_subj_rules-allows_example.1 ∙ refl

dns_queued :
    member "np1" (follow itoa (delete_service "dns") (follow_all itoa events new_cluster)).state.0
    ≡ true
unfolding follow follow_all set_policy_event delete_policy_event set_service_event
    delete_service_event network_policy_added network_policy_deleted service_added service_deleted
    update_target_port_index drop_ports add_ports drop_entry entry_or_new drop_key set_key no_keys
    has_port egress_port egress_ports egress_rules get_net_pol_target_ports service_ports
    get_service_target_ports target_port_num proto_of port_proto queue_port_net_pol_updates
    queue_entry add_keys member add remove is_empty same_key lookup insert delete
dns_queued = refl

ip-IsIp : (n : ℕ) → n < 256 → IsIp 4 (ip n)
ip-IsIp n h = record { width = refl; bytes = omega (arith, h) }

abbrev ParsedWidth : Option IpNet → Type 0
ParsedWidth none = IsIp 4 (ip 0)
ParsedWidth (some net) = IsIp 4 net.ip

block-HasWidth : HasWidth 4 parse (ip 9) (ip-IsIp 9 (omega arith)) "10.3.0.0/24"
unfolding same_key
block-HasWidth net e = subst ParsedWidth e (ip-IsIp 0 (omega arith))

except-HasWidth : HasWidth 4 parse (ip 9) (ip-IsIp 9 (omega arith)) "10.3.0.8/29"
unfolding same_key
except-HasWidth net e = subst ParsedWidth e (ip-IsIp 8 (omega arith))

ip_block_to_subnets-BlockSubnets_example :
    BlockSubnets 4 parse
      (ip 9)
      (ip-IsIp 9 (omega arith))
      "10.3.0.0/24"
      ("10.3.0.8/29" ∷ [])
      (ip_block_to_subnets parse "10.3.0.0/24" ("10.3.0.8/29" ∷ []))
ip_block_to_subnets-BlockSubnets_example =
    ip_block_to_subnets-BlockSubnets 4 parse (ip 9) (ip-IsIp 9 (omega arith)) "10.3.0.0/24"
      ("10.3.0.8/29" ∷ []) (block-HasWidth, (except-HasWidth, tt))

block_subnets :
    ip_block_to_subnets parse "10.3.0.0/24" ("10.3.0.8/29" ∷ [])
    ≡ some (
        record { ip = ip 0; ones = 29 }
        ∷ record { ip = ip 16; ones = 28 }
        ∷ record { ip = ip 32; ones = 27 }
        ∷ record { ip = ip 64; ones = 26 }
        ∷ record { ip = ip 128; ones = 25 }
        ∷ [])
unfolding ip_block_to_subnets remove_excepts nets_of free_nets same_key add_subnet remove_subnet
    subnet_range mask last next next_loop range2cidr cidr_loop shrink fits end_of_range
    compare_bytes value add_range start_index add_to_free fix_range fix_loop merge_next shift_right
    sort_search is_adj_or_greater carry_increment carry_decrement remove_range cut_range cut_left
    cut_right back_up remove_loop
block_subnets = refl

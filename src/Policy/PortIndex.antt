-- ===== src/Policy/PortIndex.antt =====
-- pkg/controller/network_policy.go and services.go: which services and network policies mention which
-- target ports, the `targetPortIndex` of pkg/controller/controller.go.
pub mod Entries
pub mod Indexed
pub mod Says
pub mod Handlers
pub mod Followed
pub mod Queued
use Prim.Native.String.{◌++◌ as append_text}
use z_presplit_aci_container.Base.{
  ℕ, zero, suc, Bool, true, false, not, ◌&&◌, ◌||◌, List, [], ◌∷◌, Option, none, some,
  if◌then◌else◌,
}
use z_presplit_aci_container.Base.Maps.{
  Key, KeyMap, KeySet, same_key, lookup, insert, delete, add, remove, is_empty,
}
use z_presplit_aci_container.Policy.{
  Protocol, tcp, port_proto, IntOrString, int_port, named_port, NetworkPolicyPort,
}

pub record TargetPort : Type 0 where
  pub proto : Protocol
  pub port : ℕ

pub record PortIndexEntry : Type 0 where
  pub port : TargetPort
  pub service_keys : KeySet
  pub network_policy_keys : KeySet

abbrev pub PortIndex : Type 0
PortIndex = KeyMap PortIndexEntry

-- `_, ok := ports[portkey]`.
unfoldable pub has_port : Key → KeyMap TargetPort → Bool
has_port portkey [] = false
has_port portkey ((j, p) ∷ ports) = same_key portkey j || has_port portkey ports

unfoldable pub drop_key : Bool → Key → PortIndexEntry → PortIndexEntry
drop_key true key entry = record entry { service_keys = remove key entry.service_keys }
drop_key false key entry = record entry {
  network_policy_keys = remove key entry.network_policy_keys;
}

unfoldable pub set_key : Bool → Key → PortIndexEntry → PortIndexEntry
set_key true key entry = record entry { service_keys = add key entry.service_keys }
set_key false key entry = record entry { network_policy_keys = add key entry.network_policy_keys }

unfoldable pub no_keys : PortIndexEntry → Bool
no_keys entry = is_empty entry.service_keys && is_empty entry.network_policy_keys

-- The body of the loop over the old ports, for an entry that is there.
unfoldable pub drop_entry : Bool → Key → Key → Option PortIndexEntry → PortIndex → PortIndex
drop_entry service key portkey none index = index
drop_entry service key portkey (some entry) index =
    let entry' = drop_key service key entry in
    if no_keys entry' then delete portkey index else insert portkey entry' index

unfoldable pub drop_ports :
    Bool → Key → KeyMap TargetPort → KeyMap TargetPort → PortIndex → PortIndex
drop_ports service key new_ports [] index = index
drop_ports service key new_ports ((portkey, p) ∷ old_ports) index =
    drop_ports service key new_ports old_ports (
      if has_port portkey new_ports
      then index
      else drop_entry service key portkey (lookup portkey index) index)

-- The entry that the loop over the new ports writes to.
unfoldable pub entry_or_new : TargetPort → Option PortIndexEntry → PortIndexEntry
entry_or_new port none = record { port = port; service_keys = []; network_policy_keys = [] }
entry_or_new port (some entry) = entry

unfoldable pub add_ports :
    Bool → Key → KeyMap TargetPort → KeyMap TargetPort → PortIndex → PortIndex
add_ports service key old_ports [] index = index
add_ports service key old_ports ((portkey, p) ∷ new_ports) index =
    add_ports service key old_ports new_ports (
      if has_port portkey old_ports
      then index
      else insert portkey (set_key service key (entry_or_new p (lookup portkey index))) index)

unfoldable pub update_target_port_index :
    Bool → Key → KeyMap TargetPort → KeyMap TargetPort → PortIndex → PortIndex
update_target_port_index service key old_ports new_ports index =
    add_ports service key old_ports new_ports (drop_ports service key new_ports old_ports index)

-- `v1.NetworkPolicyEgressRule`; `has_to` is `len(egress.To) != 0`.
pub record EgressRule : Type 0 where
  pub has_to : Bool
  pub ports : List NetworkPolicyPort

unfoldable pub proto_of : Option Protocol → Protocol
proto_of none = tcp
proto_of (some proto) = proto

-- `v1.ServicePort`; `target_port` is `port.TargetPort.IntValue()`, 0 for what is not a positive number.
pub record ServicePort : Type 0 where
  pub protocol : Protocol
  pub target_port : ℕ
  pub port : ℕ

unfoldable pub target_port_num : ℕ → ℕ → ℕ
target_port_num zero port = port
target_port_num (suc n) port = suc n

module _ (itoa : ℕ → Key) where
  abbrev pub num_key : Protocol → ℕ → Key
  num_key proto n = append_text (port_proto (some proto)) (append_text "-num-" (itoa n))

  -- The body of the inner loop of `getNetPolTargetPorts`.
  unfoldable pub egress_port :
      Option Protocol → Option IntOrString → KeyMap TargetPort → KeyMap TargetPort
  egress_port protocol none ports = ports
  egress_port protocol (some (named_port name)) ports = ports
  egress_port protocol (some (int_port n)) ports =
      insert (num_key (proto_of protocol) n) (record { proto = proto_of protocol; port = n }) ports

  unfoldable pub egress_ports : List NetworkPolicyPort → KeyMap TargetPort → KeyMap TargetPort
  egress_ports [] ports = ports
  egress_ports (p ∷ ps) ports = egress_ports ps (egress_port p.protocol p.port ports)

  unfoldable pub egress_rules : List EgressRule → KeyMap TargetPort → KeyMap TargetPort
  egress_rules [] ports = ports
  egress_rules (egress ∷ rules) ports =
      egress_rules rules (if egress.has_to then ports else egress_ports egress.ports ports)

  unfoldable pub get_net_pol_target_ports : List EgressRule → KeyMap TargetPort
  get_net_pol_target_ports rules = egress_rules rules []

  unfoldable pub service_ports : List ServicePort → KeyMap TargetPort → KeyMap TargetPort
  service_ports [] ports = ports
  service_ports (p ∷ ps) ports =
      let n = target_port_num p.target_port p.port in
      service_ports ps
        (insert (num_key p.protocol n) (record { proto = p.protocol; port = n }) ports)

  unfoldable pub get_service_target_ports : List ServicePort → KeyMap TargetPort
  get_service_target_ports ps = service_ports ps []

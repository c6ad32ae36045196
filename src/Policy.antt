-- ===== src/Policy.antt =====
-- pkg/controller/network_policy.go: the rules that a network policy becomes on the fabric. The objects
-- are made by pkg/apicapi/apic_types.go from the defaults in apic_metadata.go.
pub mod Allows
pub mod Names
pub mod Rules
pub mod PortIndex
pub mod Blocks
pub mod Examples
use Prim.Native.String.{◌++◌ as append_text}
use z_presplit_aci_container.Base.{
  ℕ, zero, suc, Bool, true, false, not, ◌&&◌, ◌||◌, List, [], ◌∷◌, Option, none, some,
  if◌then◌else◌,
}
use z_presplit_aci_container.Base.Maps.{Key, KeyMap, same_key, insert}
use z_presplit_aci_container.Apic.{
  Value, str, ApicObject, object, ApicSlice, nothing, ◌⨾◌, attributes_of, get_dn,
}
use z_presplit_aci_container.Apic.Tags.{add_child}

-- The attributes of three classes in apic_metadata.go.
abbrev pub subj_attributes : KeyMap Value
subj_attributes = ("name", str "") ∷ []

abbrev pub rule_attributes : KeyMap Value
rule_attributes =
    ("name", str "")
    ∷ ("connTrack", str "reflexive")
    ∷ ("direction", str "ingress")
    ∷ ("ethertype", str "undefined")
    ∷ ("protocol", str "unspecified")
    ∷ ("fromPort", str "unspecified")
    ∷ ("toPort", str "unspecified")
    ∷ []

abbrev pub remote_ip_attributes : KeyMap Value
remote_ip_attributes = ("addr", str "") ∷ []

unfoldable pub new_hostprot_subj : Key → Key → ApicObject
new_hostprot_subj parent_dn name =
    object "hostprotSubj"
      (insert "dn" (str (append_text parent_dn (append_text "/subj-" name)))
        (insert "name" (str name) subj_attributes))
      nothing

unfoldable pub new_hostprot_rule : Key → Key → ApicObject
new_hostprot_rule parent_dn name =
    object "hostprotRule"
      (insert "dn" (str (append_text parent_dn (append_text "/rule-" name)))
        (insert "name" (str name) rule_attributes))
      nothing

unfoldable pub new_hostprot_remote_ip : Key → Key → ApicObject
new_hostprot_remote_ip parent_dn addr =
    object "hostprotRemoteIp"
      (insert "dn" (str (append_text parent_dn (append_text "/ip-[" (append_text addr "]"))))
        (insert "addr" (str addr) remote_ip_attributes))
      nothing

-- `SetAttr` and `AddChild`.
unfoldable pub set_attr : Key → Key → ApicObject → ApicObject
set_attr name value (object class attributes children) =
    object class (insert name (str value) attributes) children

unfoldable pub with_child : ApicObject → ApicObject → ApicObject
with_child c (object class attributes children) = object class attributes (add_child c children)

unfoldable pub add_remotes : List Key → ApicObject → ApicObject
add_remotes [] rule = rule
add_remotes (ip ∷ ips) rule =
    add_remotes ips (with_child (new_hostprot_remote_ip (get_dn rule) ip) rule)

-- `buildNetPolSubjRule`, up to the last statement: the rule.
unfoldable pub net_pol_rule : Key → Key → Key → Key → Key → Key → List Key → ApicObject
net_pol_rule dn rule_name direction ethertype proto port remote_subnets =
    let rule =
      set_attr "ethertype" ethertype
        (set_attr "direction" direction (new_hostprot_rule dn rule_name)) in
    let with_proto = if not (same_key proto "") then set_attr "protocol" proto rule else rule in
    let with_remotes = add_remotes remote_subnets with_proto in
    if not (same_key port "") then set_attr "toPort" port with_remotes else with_remotes

unfoldable pub build_net_pol_subj_rule :
    Key → Key → Key → Key → Key → List Key → ApicObject → ApicObject
build_net_pol_subj_rule rule_name direction ethertype proto port remote_subnets subj =
    with_child (net_pol_rule (get_dn subj) rule_name direction ethertype proto port remote_subnets)
      subj

-- `v1.Protocol`: "TCP", "UDP", and any other text.
pub data Protocol : Type 0 where
  tcp : Protocol
  udp : Protocol
  other_protocol : Key → Protocol

unfoldable pub port_proto : Option Protocol → Key
port_proto none = "tcp"
port_proto (some tcp) = "tcp"
port_proto (some udp) = "udp"
port_proto (some (other_protocol text)) = "tcp"

-- `intstr.IntOrString`.
pub data IntOrString : Type 0 where
  int_port : ℕ → IntOrString
  named_port : Key → IntOrString

pub record NetworkPolicyPort : Type 0 where
  pub protocol : Option Protocol
  pub port : Option IntOrString

-- The families of the configured pod network.
pub record Families : Type 0 where
  pub has_v4 : Bool
  pub has_v6 : Bool

-- The rule of each family that the pod network has.
unfoldable pub build_families :
    Families → Key → Key → Key → Key → List Key → ApicObject → ApicObject
build_families f rule_name direction proto port remote_subnets subj =
    let with4 =
      if f.has_v4
      then build_net_pol_subj_rule rule_name direction "ipv4" proto port remote_subnets subj
      else subj in
    if f.has_v6
    then build_net_pol_subj_rule rule_name direction "ipv6" proto port remote_subnets with4
    else with4

-- `itoa` is `strconv.Itoa`, and the text that `intstr` gives an integer.
module _ (itoa : ℕ → Key) where
  -- The text of the port in a rule, none for a named port, which is not supported.
  unfoldable pub rule_port : Option IntOrString → Option Key
  rule_port none = some ""
  rule_port (some (int_port n)) = some (itoa n)
  rule_port (some (named_port name)) = none

  -- The body of the loop over the ports.
  unfoldable pub build_port :
      Families
      → ℕ
      → Key
      → Key
      → List Key
      → Option Protocol
      → Option IntOrString
      → ApicObject
      → ApicObject
  build_port f j rule_name direction remote_subnets protocol port subj = elim (rule_port port) [
    | none ↦ subj
    | some text ↦
        build_families f (append_text rule_name (append_text "_" (itoa j))) direction
          (port_proto protocol) text remote_subnets subj
  ]

  -- The loop over the ports, from the index `j` on.
  unfoldable pub build_ports :
      Families → ℕ → Key → Key → List Key → List NetworkPolicyPort → ApicObject → ApicObject
  build_ports f j rule_name direction remote_subnets [] subj = subj
  build_ports f j rule_name direction remote_subnets (p ∷ ports) subj =
      build_ports f (suc j) rule_name direction remote_subnets ports
        (build_port f j rule_name direction remote_subnets p.protocol p.port subj)

  -- `buildNetPolSubjRules` after the first test.
  unfoldable pub build_any :
      Families → Key → Key → List Key → List NetworkPolicyPort → ApicObject → ApicObject
  build_any f rule_name direction remote_subnets [] subj =
      build_families f rule_name direction "" "" remote_subnets subj
  build_any f rule_name direction remote_subnets (p ∷ ports) subj =
      build_ports f 0 rule_name direction remote_subnets (p ∷ ports) subj

  -- `has_peers` is `len(peers) > 0`.
  unfoldable pub build_net_pol_subj_rules :
      Families → Key → Key → Bool → List Key → List NetworkPolicyPort → ApicObject → ApicObject
  build_net_pol_subj_rules f rule_name direction has_peers [] ports subj =
      if has_peers then subj else build_any f rule_name direction [] ports subj
  build_net_pol_subj_rules f rule_name direction has_peers (ip ∷ ips) ports subj =
      build_any f rule_name direction (ip ∷ ips) ports subj

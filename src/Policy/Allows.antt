-- ===== src/Policy/Allows.antt =====
-- What the fabric lets through by the rules of pkg/controller/network_policy.go, and by one rule of
-- buildNetPolSubjRule.
use z_presplit_aci_container.Base.{
  ◌≡◌, ◌∙◌, refl, ap, ap₂, Bool, true, false, not, Option, none, some, is_eq, ◌&&◌, ◌||◌, List, [],
  ◌∷◌, Bool-cases, inl, inr, arith,
}
use z_presplit_aci_container.Base.Maps.{Key, KeyMap, same_key, lookup, insert}
use z_presplit_aci_container.Apic.{
  Value, str, ApicObject, object, ApicSlice, nothing, ◌⨾◌, attributes_of, children_of, get_attr_str,
  get_dn,
}
use z_presplit_aci_container.Apic.Tags.{add_child}
use z_presplit_aci_container.Ipam.Address.{Ip, compare_bytes}
use z_presplit_aci_container.Ipam.Cidr.{IpNet, mask}
use z_presplit_aci_container.Policy.{
  new_hostprot_rule, new_hostprot_remote_ip, set_attr, with_child, add_remotes, net_pol_rule,
}

-- A packet of a connection in the direction "ingress" or "egress", from or to a remote address.
-- `remote` tells of the text of a subnet whether it contains that address, and `reply` whether the
-- packet goes back to the side that opened the connection.
pub record Packet : Type 0 where
  pub direction : Key
  pub ethertype : Key
  pub protocol : Key
  pub port : Key
  pub remote : Key → Bool
  pub reply : Bool

-- The test of an address against a subnet's text, which `parse` reads.
abbrev pub in_subnet : (Key → Option IpNet) → Ip → Key → Bool
in_subnet parse x subnet = elim (parse subnet) [
  | none ↦ false
  | some net ↦ is_eq (compare_bytes (mask net.ones x) (mask net.ones net.ip))
]

-- An attribute that is not given lets everything through.
abbrev pub open_or : Key → Key → Bool
open_or attr value = same_key attr "unspecified" || same_key attr value

unfoldable pub has_remote : (Key → Bool) → ApicSlice → Bool
has_remote remote nothing = false
has_remote remote (c ⨾ cs) = remote (get_attr_str "addr" (attributes_of c)) || has_remote remote cs

unfoldable pub no_children : ApicSlice → Bool
no_children nothing = true
no_children (c ⨾ cs) = false

-- What the attributes of a rule let through, for a remote address that its children let through.
-- Replies pass where the connection is tracked.
abbrev pub attributes_allow : Packet → KeyMap Value → Bool → Bool
attributes_allow p attributes remote =
    same_key (get_attr_str "direction" attributes) p.direction
    && ((same_key (get_attr_str "connTrack" attributes) "reflexive" || not p.reply)
        && (same_key (get_attr_str "ethertype" attributes) p.ethertype
            && (open_or (get_attr_str "protocol" attributes) p.protocol
                && (open_or (get_attr_str "fromPort" attributes) p.port
                    && (open_or (get_attr_str "toPort" attributes) p.port && remote)))))

-- A rule without children is for every remote address.
unfoldable pub rule_allows : Packet → ApicObject → Bool
rule_allows p rule =
    attributes_allow p (attributes_of rule)
      (no_children (children_of rule) || has_remote p.remote (children_of rule))

unfoldable pub rules_allow : Packet → ApicSlice → Bool
rules_allow p nothing = false
rules_allow p (r ⨾ rs) = rule_allows p r || rules_allow p rs

abbrev pub is_nil : List Key → Bool
is_nil [] = true
is_nil (ip ∷ ips) = false

unfoldable pub any_subnet : (Key → Bool) → List Key → Bool
any_subnet remote [] = false
any_subnet remote (subnet ∷ subnets) = remote subnet || any_subnet remote subnets

-- What one rule is meant to let through: an empty protocol, port or list of subnets is any.
abbrev pub meant : Packet → Key → Key → Key → Key → List Key → Bool
meant p direction ethertype proto port subnets =
    same_key direction p.direction
    && (same_key ethertype p.ethertype
        && ((same_key proto "" || open_or proto p.protocol)
            && ((same_key port "" || open_or port p.port)
                && (is_nil subnets || any_subnet p.remote subnets))))

pub rules_allow-add_child :
    (p : Packet) (r : ApicObject) (rs : ApicSlice)
    → rules_allow p (add_child r rs) ≡ (rules_allow p rs || rule_allows p r)
unfolding rules_allow add_child
rules_allow-add_child p r nothing = ground arith
rules_allow-add_child p r (s ⨾ rs) = ground (arith, rules_allow-add_child p r rs)

has_remote-add_child :
    (remote : Key → Bool) (addr dn : Key) (cs : ApicSlice)
    → has_remote remote (add_child (new_hostprot_remote_ip dn addr) cs)
      ≡ (has_remote remote cs || remote addr)
unfolding has_remote add_child new_hostprot_remote_ip get_attr_str lookup insert same_key
has_remote-add_child remote addr dn nothing = ground arith
has_remote-add_child remote addr dn (c ⨾ cs) =
    ground (arith, has_remote-add_child remote addr dn cs)

no_children-add_child : (c : ApicObject) (cs : ApicSlice) → no_children (add_child c cs) ≡ false
unfolding no_children add_child
no_children-add_child c nothing = refl
no_children-add_child c (d ⨾ cs) = refl

pub add_remotes-attributes :
    (ips : List Key) (r : ApicObject) → attributes_of (add_remotes ips r) ≡ attributes_of r
unfolding add_remotes with_child
add_remotes-attributes [] r = refl
add_remotes-attributes (ip ∷ ips) (object class attributes children) = add_remotes-attributes ips (
    object class attributes
      (add_child (new_hostprot_remote_ip (get_dn (object class attributes children)) ip) children))

add_remotes-children :
    (remote : Key → Bool) (ips : List Key) (r : ApicObject)
    → has_remote remote (children_of (add_remotes ips r))
      ≡ (has_remote remote (children_of r) || any_subnet remote ips)
unfolding add_remotes with_child any_subnet
add_remotes-children remote [] r = ground arith
add_remotes-children remote (a ∷ ips) (object class attributes children) =
    let dn = get_dn (object class attributes children) in
    ground (
      arith,
      add_remotes-children remote ips
          (object class attributes (add_child (new_hostprot_remote_ip dn a) children)),
      has_remote-add_child remote a dn children,
    )

add_remotes-none :
    (ips : List Key) (r : ApicObject)
    → no_children (children_of (add_remotes ips r)) ≡ (no_children (children_of r) && is_nil ips)
unfolding add_remotes with_child no_children
add_remotes-none [] r = ground arith
add_remotes-none (a ∷ ips) (object class attributes children) =
    let c = new_hostprot_remote_ip (get_dn (object class attributes children)) a in
    ground (
      arith,
      add_remotes-none ips (object class attributes (add_child c children)),
      no_children-add_child c children,
    )

set_attr-children :
    (name value : Key) (r : ApicObject) → children_of (set_attr name value r) ≡ children_of r
unfolding set_attr
set_attr-children name value (object class attributes children) = refl

pub set_attr-attributes :
    (name value : Key) (r : ApicObject)
    → attributes_of (set_attr name value r) ≡ insert name (str value) (attributes_of r)
unfolding set_attr
set_attr-attributes name value (object class attributes children) = refl

with_remotes_allows :
    (p : Packet) (subnets : List Key) (r : ApicObject)
    → children_of r ≡ nothing
    → rule_allows p (add_remotes subnets r)
      ≡ attributes_allow p (attributes_of r) (is_nil subnets || any_subnet p.remote subnets)
unfolding rule_allows has_remote no_children
with_remotes_allows p subnets r h =
    let left : (no_children (children_of (add_remotes subnets r))
          || has_remote p.remote (children_of (add_remotes subnets r)))
        ≡ (is_nil subnets || any_subnet p.remote subnets) =
      ground (
        arith,
        add_remotes-none subnets r,
        add_remotes-children p.remote subnets r,
        ap no_children h,
        ap (has_remote p.remote) h,
      ) in
    ap₂ (attributes_allow p) (add_remotes-attributes subnets r) left

port_allows :
    (p : Packet) (port : Key) (r : ApicObject) (b : Bool)
    → (no_children (children_of r) || has_remote p.remote (children_of r)) ≡ b
    → rule_allows p (set_attr "toPort" port r)
      ≡ attributes_allow p (insert "toPort" (str port) (attributes_of r)) b
unfolding rule_allows
port_allows p port r b h =
    ap₂ (attributes_allow p) (set_attr-attributes "toPort" port r)
      (ap (λ cs. no_children cs || has_remote p.remote cs) (set_attr-children "toPort" port r) ∙ h)

remotes_left :
    (p : Packet) (subnets : List Key) (r : ApicObject)
    → children_of r ≡ nothing
    → (no_children (children_of (add_remotes subnets r))
        || has_remote p.remote (children_of (add_remotes subnets r)))
      ≡ (is_nil subnets || any_subnet p.remote subnets)
unfolding no_children has_remote
remotes_left p subnets r h = ground (
  arith,
  add_remotes-none subnets r,
  add_remotes-children p.remote subnets r,
  ap no_children h,
  ap (has_remote p.remote) h,
)

-- The rule of buildNetPolSubjRule lets a packet, a reply or not, through exactly if its connection
-- has the direction, it is of the ethertype, of the
-- protocol and to the port unless these are empty, and its remote address is one of the subnets
-- unless there are none.
pub net_pol_rule-meant :
    (p : Packet) (dn rule_name direction ethertype proto port : Key) (subnets : List Key)
    → rule_allows p (net_pol_rule dn rule_name direction ethertype proto port subnets)
      ≡ meant p direction ethertype proto port subnets
unfolding net_pol_rule new_hostprot_rule set_attr get_attr_str lookup insert same_key
net_pol_rule-meant p dn rule_name direction ethertype proto port subnets =
    let base =
      set_attr "ethertype" ethertype
        (set_attr "direction" direction (new_hostprot_rule dn rule_name)) in
    let full = set_attr "protocol" proto base in
    elim (Bool-cases (same_key proto "")) [
      | inl e ↦ elim (Bool-cases (same_key port "")) [
        | inl f ↦ rw (e, net_pol_rule, f) (with_remotes_allows p subnets base refl)
        | inr f ↦
            rw (e, net_pol_rule, f)
              (port_allows p port (add_remotes subnets base) _ (remotes_left p subnets base refl)
                ∙ ap
                    (λ attributes.
                      attributes_allow p (insert "toPort" (str port) attributes)
                        (is_nil subnets || any_subnet p.remote subnets))
                    (add_remotes-attributes subnets base))
      ]
      | inr e ↦ elim (Bool-cases (same_key port "")) [
        | inl f ↦ rw (e, net_pol_rule, f) (with_remotes_allows p subnets full refl)
        | inr f ↦
            rw (e, net_pol_rule, f)
              (port_allows p port (add_remotes subnets full) _ (remotes_left p subnets full refl)
                ∙ ap
                    (λ attributes.
                      attributes_allow p (insert "toPort" (str port) attributes)
                        (is_nil subnets || any_subnet p.remote subnets))
                    (add_remotes-attributes subnets full))
      ]
    ]

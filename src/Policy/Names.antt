-- ===== src/Policy/Names.antt =====
-- The names of the rules of buildNetPolSubjRules in pkg/controller/network_policy.go.
use Prim.Native.String.{◌++◌ as append_text}
use z_presplit_aci_container.Base.{
  ℕ, suc, ◌≡◌, ◌∙◌, refl, sym, ap, Bool, true, false, not, List, [], ◌∷◌, ◌++◌, append-nil,
  append_assoc, Option, none, some, arith, if◌then◌else◌,
}
use z_presplit_aci_container.Base.Maps.{Key, same_key, lookup, insert, lookup-insert}
use z_presplit_aci_container.Apic.{
  str, ApicObject, object, ApicSlice, nothing, ◌⨾◌, get_dn, get_attr_str, children_of,
}
use z_presplit_aci_container.Apic.Tags.{add_child}
use z_presplit_aci_container.Policy.{
  new_hostprot_rule, set_attr, with_child, add_remotes, net_pol_rule, build_net_pol_subj_rule,
  port_proto, IntOrString, int_port, named_port, NetworkPolicyPort, Families, build_families,
  rule_port, build_port, build_ports, build_any, build_net_pol_subj_rules, Protocol,
}
use z_presplit_aci_container.Policy.Allows.{add_remotes-attributes}

unfoldable pub names : ApicSlice → List Key
names nothing = []
names (o ⨾ s) = get_dn o ∷ names s

-- The names of the objects below an object.
abbrev pub child_names : ApicObject → List Key
child_names o = names (children_of o)

abbrev pub rule_dn : Key → Key → Key
rule_dn parent name = append_text parent (append_text "/rule-" name)

-- One rule for each family.
abbrev pub family_names : Families → Key → List Key
family_names f dn = (if f.has_v4 then dn ∷ [] else []) ++ (if f.has_v6 then dn ∷ [] else [])

module _ (itoa : ℕ → Key) (f : Families) (parent rule_name : Key) where
  abbrev pub port_names : ℕ → NetworkPolicyPort → List Key
  port_names j q = elim q.port [
    | none ↦ family_names f (rule_dn parent (append_text rule_name (append_text "_" (itoa j))))
    | some port ↦ elim port [
      | int_port n ↦
          family_names f (rule_dn parent (append_text rule_name (append_text "_" (itoa j))))
      | named_port name ↦ []
    ]
  ]

  -- The rules of the ports are numbered.
  abbrev pub ports_names : ℕ → List NetworkPolicyPort → List Key
  ports_names j [] = []
  ports_names j (q ∷ ports) = port_names j q ++ ports_names (suc j) ports

  abbrev pub any_names : List NetworkPolicyPort → List Key
  any_names [] = family_names f (rule_dn parent rule_name)
  any_names (q ∷ ports) = ports_names 0 (q ∷ ports)

  -- The names of the rules that a policy gets; none if it has peers and these have no subnets.
  abbrev pub policy_names : Bool → List Key → List NetworkPolicyPort → List Key
  policy_names true [] ports = []
  policy_names true (ip ∷ ips) ports = any_names ports
  policy_names false subnets ports = any_names ports

names-add_child :
    (c : ApicObject) (s : ApicSlice) → names (add_child c s) ≡ names s ++ (get_dn c ∷ [])
unfolding names add_child
names-add_child c nothing = refl
names-add_child c (d ⨾ s) = ap (λ l. get_dn d ∷ l) (names-add_child c s)

-- An object of that name gets more children and keeps the name.
abbrev Adds : Key → ApicObject → ApicObject → List Key → Type 0
Adds dn o p new = get_dn o ≡ dn → (get_dn p ≡ dn) × (child_names p ≡ child_names o ++ new)

Adds-none : (dn : Key) (o : ApicObject) → Adds dn o o []
Adds-none dn o h = (h, sym (append-nil (child_names o)))

Adds-then :
    (dn : Key) (o p q : ApicObject) (a b : List Key)
    → Adds dn o p a
    → Adds dn p q b
    → Adds dn o q (a ++ b)
Adds-then dn o p q a b g k h =
    let x = g h in
    let y = k x.0 in (y.0, y.1 ∙ ap (λ l. l ++ b) x.1 ∙ append_assoc (child_names o) a b)

with_child-Adds : (dn : Key) (r o : ApicObject) → Adds dn o (with_child r o) (get_dn r ∷ [])
unfolding with_child get_dn
with_child-Adds dn r (object class a s) h = (h, names-add_child r s)

set_attr-dn :
    (name value : Key) (r : ApicObject)
    → same_key "dn" name ≡ false
    → get_dn (set_attr name value r) ≡ get_dn r
unfolding set_attr get_dn get_attr_str
set_attr-dn name value (object class a s) h =
    ground (arith, lookup-insert "dn" name (str value) a, h)

add_remotes-dn : (ips : List Key) (r : ApicObject) → get_dn (add_remotes ips r) ≡ get_dn r
unfolding get_dn
add_remotes-dn ips r = ap (get_attr_str "dn") (add_remotes-attributes ips r)

if-dn :
    (b : Bool) (x y : ApicObject) (dn : Key)
    → get_dn x ≡ dn
    → get_dn y ≡ dn
    → get_dn (if b then x else y) ≡ dn
if-dn true x y dn g h = g
if-dn false x y dn g h = h

new_hostprot_rule-dn :
    (parent name : Key) → get_dn (new_hostprot_rule parent name) ≡ rule_dn parent name
unfolding new_hostprot_rule get_dn get_attr_str lookup insert same_key
new_hostprot_rule-dn parent name = refl

net_pol_rule-dn :
    (parent name direction ethertype proto port : Key) (subnets : List Key)
    → get_dn (net_pol_rule parent name direction ethertype proto port subnets) ≡ rule_dn parent name
unfolding net_pol_rule same_key
net_pol_rule-dn parent name direction ethertype proto port subnets =
    let rule =
      set_attr "ethertype" ethertype
        (set_attr "direction" direction (new_hostprot_rule parent name)) in
    let with_proto = if not (same_key proto "") then set_attr "protocol" proto rule else rule in
    let with_remotes = add_remotes subnets with_proto in
    let base : get_dn rule ≡ rule_dn parent name =
      set_attr-dn "ethertype" ethertype _ refl
      ∙ set_attr-dn "direction" direction _ refl
      ∙ new_hostprot_rule-dn parent name in
    let proto_dn : get_dn with_proto ≡ rule_dn parent name =
      if-dn (not (same_key proto "")) (set_attr "protocol" proto rule) rule _
        (set_attr-dn "protocol" proto rule refl ∙ base) base in
    let remotes_dn : get_dn with_remotes ≡ rule_dn parent name =
      add_remotes-dn subnets with_proto ∙ proto_dn in
    if-dn (not (same_key port "")) (set_attr "toPort" port with_remotes) with_remotes _
      (set_attr-dn "toPort" port with_remotes refl ∙ remotes_dn) remotes_dn

module _ (dn : Key) (direction : Key) (f : Families) (subnets : List Key) where
  subj_rule-Adds :
      (rule_name ethertype proto port : Key) (o : ApicObject)
      → Adds dn o
          (build_net_pol_subj_rule rule_name direction ethertype proto port subnets o)
          (rule_dn dn rule_name ∷ [])
  unfolding build_net_pol_subj_rule
  subj_rule-Adds rule_name ethertype proto port o h =
      let r = net_pol_rule (get_dn o) rule_name direction ethertype proto port subnets in
      let e : get_dn r ≡ rule_dn dn rule_name =
        net_pol_rule-dn (get_dn o) rule_name direction ethertype proto port subnets
        ∙ ap (λ d. rule_dn d rule_name) h in
      let x = with_child-Adds dn r o h in (x.0, x.1 ∙ ap (λ d. child_names o ++ (d ∷ [])) e)

  if_Adds :
      (b : Bool) (o p : ApicObject) (new : List Key)
      → Adds dn o p new
      → Adds dn o (if b then p else o) (if b then new else [])
  if_Adds true o p new h = h
  if_Adds false o p new h = Adds-none dn o

  families-Adds :
      (rule_name proto port : Key) (o : ApicObject)
      → Adds dn o
          (build_families f rule_name direction proto port subnets o)
          (family_names f (rule_dn dn rule_name))
  unfolding build_families
  families-Adds rule_name proto port o =
      let four = build_net_pol_subj_rule rule_name direction "ipv4" proto port subnets o in
      let with4 = if f.has_v4 then four else o in
      let six = build_net_pol_subj_rule rule_name direction "ipv6" proto port subnets with4 in
      let new = rule_dn dn rule_name ∷ [] in
      Adds-then dn o with4 (if f.has_v6 then six else with4) (if f.has_v4 then new else [])
        (if f.has_v6 then new else [])
        (if_Adds f.has_v4 o four new (subj_rule-Adds rule_name "ipv4" proto port o))
        (if_Adds f.has_v6 with4 six new (subj_rule-Adds rule_name "ipv6" proto port with4))

  module _ (itoa : ℕ → Key) (rule_name : Key) where
    port-Adds :
        (j : ℕ) (protocol : Option Protocol) (port : Option IntOrString) (o : ApicObject)
        → Adds dn o
            (build_port itoa f j rule_name direction subnets protocol port o)
            (port_names itoa f dn rule_name j (record { protocol = protocol; port = port }))
    unfolding build_port rule_port
    port-Adds j protocol none o =
        families-Adds (append_text rule_name (append_text "_" (itoa j))) (port_proto protocol) "" o
    port-Adds j protocol (some (int_port n)) o =
        families-Adds (append_text rule_name (append_text "_" (itoa j))) (port_proto protocol)
          (itoa n) o
    port-Adds j protocol (some (named_port name)) o = Adds-none dn o

    ports-Adds :
        (j : ℕ) (ports : List NetworkPolicyPort) (o : ApicObject)
        → Adds dn o
            (build_ports itoa f j rule_name direction subnets ports o)
            (ports_names itoa f dn rule_name j ports)
    unfolding build_ports
    ports-Adds j [] o = Adds-none dn o
    ports-Adds j (q ∷ ports) o =
        let p = build_port itoa f j rule_name direction subnets q.protocol q.port o in
        Adds-then dn o p (build_ports itoa f (suc j) rule_name direction subnets ports p)
          (port_names itoa f dn rule_name j q) (ports_names itoa f dn rule_name (suc j) ports)
          (port-Adds j q.protocol q.port o) (ports-Adds (suc j) ports p)

    any-Adds :
        (ports : List NetworkPolicyPort) (o : ApicObject)
        → Adds dn o
            (build_any itoa f rule_name direction subnets ports o)
            (any_names itoa f dn rule_name ports)
    unfolding build_any
    any-Adds [] o = families-Adds rule_name "" "" o
    any-Adds (q ∷ ports) o = ports-Adds 0 (q ∷ ports) o

-- The names of the rules below a subject after buildNetPolSubjRules.
pub rules-child_names :
    (itoa : ℕ → Key) (f : Families) (rule_name direction : Key) (has_peers : Bool)
    (subnets : List Key) (ports : List NetworkPolicyPort) (subj : ApicObject)
    → child_names (build_net_pol_subj_rules itoa f rule_name direction has_peers subnets ports subj)
      ≡ child_names subj ++ policy_names itoa f (get_dn subj) rule_name has_peers subnets ports
unfolding build_net_pol_subj_rules
rules-child_names itoa f rule_name direction true [] ports subj =
    sym (append-nil (child_names subj))
rules-child_names itoa f rule_name direction false [] ports subj =
    (any-Adds (get_dn subj) direction f [] itoa rule_name ports subj refl).1
rules-child_names itoa f rule_name direction true (ip ∷ ips) ports subj =
    (any-Adds (get_dn subj) direction f (ip ∷ ips) itoa rule_name ports subj refl).1
rules-child_names itoa f rule_name direction false (ip ∷ ips) ports subj =
    (any-Adds (get_dn subj) direction f (ip ∷ ips) itoa rule_name ports subj refl).1

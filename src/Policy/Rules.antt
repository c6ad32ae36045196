-- ===== src/Policy/Rules.antt =====
-- What the rules of buildNetPolSubjRules in pkg/controller/network_policy.go let through together.
use Prim.Native.String.{◌++◌ as append_text}
use z_presplit_aci_container.Base.{
  ℕ, suc, ◌≡◌, ◌∙◌, refl, ap, Bool, true, false, not, ◌&&◌, ◌||◌, List, [], ◌∷◌, ◌++◌, Option, none,
  some, Bool-cases, inl, inr, arith,
}
use z_presplit_aci_container.Base.Maps.{Key, same_key, same_key_refl}
use z_presplit_aci_container.Apic.{ApicObject, object, children_of, get_dn}
use z_presplit_aci_container.Policy.{
  with_child, net_pol_rule, build_net_pol_subj_rule, Protocol, tcp, udp, other_protocol, port_proto,
  IntOrString, int_port, named_port, NetworkPolicyPort, Families, build_families, rule_port,
  build_port, build_ports, build_any, build_net_pol_subj_rules,
}
use z_presplit_aci_container.Policy.Names.{child_names, policy_names, rules-child_names}
use z_presplit_aci_container.Policy.Allows.{
  Packet, open_or, rules_allow, rule_allows, meant, is_nil, any_subnet, rules_allow-add_child,
  net_pol_rule-meant,
}

-- The pod network has the packet's family.
abbrev pub family_open : Families → Packet → Bool
family_open f p =
    (f.has_v4 && same_key "ipv4" p.ethertype) || (f.has_v6 && same_key "ipv6" p.ethertype)

-- A policy with peers lets through what some peer has, one without peers everything.
abbrev pub remote_open : Bool → List Key → Packet → Bool
remote_open has_peers subnets p = (not has_peers && is_nil subnets) || any_subnet p.remote subnets

module _ (itoa : ℕ → Key) where
  -- A port entry with a number is for that port, one without for all; named ports are not supported.
  abbrev pub port_open : NetworkPolicyPort → Packet → Bool
  port_open q p = same_key (port_proto q.protocol) p.protocol && (elim q.port [
    | none ↦ true
    | some port ↦ elim port [ int_port n ↦ same_key (itoa n) p.port | named_port name ↦ false ]
  ])

  abbrev pub any_port : List NetworkPolicyPort → Packet → Bool
  any_port [] p = false
  any_port (q ∷ ports) p = port_open q p || any_port ports p

  abbrev pub ports_open : List NetworkPolicyPort → Packet → Bool
  ports_open [] p = true
  ports_open (q ∷ ports) p = any_port (q ∷ ports) p

-- The rules of an object.
abbrev pub allows : Packet → ApicObject → Bool
allows p subj = rules_allow p (children_of subj)

with_child-allows :
    (p : Packet) (r subj : ApicObject)
    → allows p (with_child r subj) ≡ (allows p subj || rule_allows p r)
unfolding with_child
with_child-allows p r (object class attributes children) = rules_allow-add_child p r children

module _ (p : Packet) (direction : Key) (f : Families) (subnets : List Key) where
  subj_rule_allows :
      (rule_name ethertype proto port : Key) (subj : ApicObject)
      → allows p (build_net_pol_subj_rule rule_name direction ethertype proto port subnets subj)
        ≡ (allows p subj || meant p direction ethertype proto port subnets)
  unfolding build_net_pol_subj_rule
  subj_rule_allows rule_name ethertype proto port subj =
      with_child-allows p
        (net_pol_rule (get_dn subj) rule_name direction ethertype proto port subnets) subj
      ∙ ap (λ b. allows p subj || b)
          (net_pol_rule-meant p (get_dn subj) rule_name direction ethertype proto port subnets)

  -- A rule for each family of the pod network.
  families_allow :
      (rule_name proto port : Key) (subj : ApicObject)
      → allows p (build_families f rule_name direction proto port subnets subj) ≡ (
          allows p subj
          || (same_key direction p.direction
              && family_open f p
              && ((same_key proto "" || open_or proto p.protocol)
                  && ((same_key port "" || open_or port p.port)
                      && (is_nil subnets || any_subnet p.remote subnets)))))
  unfolding build_families
  families_allow rule_name proto port subj =
      let four = build_net_pol_subj_rule rule_name direction "ipv4" proto port subnets subj in
      elim (Bool-cases f.has_v4) [
        | inl e ↦ elim (Bool-cases f.has_v6) [
          | inl g ↦ ground (
            arith,
            e,
            g,
            subj_rule_allows rule_name "ipv4" proto port subj,
            subj_rule_allows rule_name "ipv6" proto port four,
          )
          | inr g ↦ ground (arith, e, g, subj_rule_allows rule_name "ipv4" proto port subj)
        ]
        | inr e ↦ elim (Bool-cases f.has_v6) [
          | inl g ↦ ground (arith, e, g, subj_rule_allows rule_name "ipv6" proto port subj)
          | inr g ↦ ground (arith, e, g)
        ]
      ]

  module _ (itoa : ℕ → Key) (not_empty : (n : ℕ) → same_key (itoa n) "" ≡ false)
      (not_any : (n : ℕ) → same_key (itoa n) "unspecified" ≡ false) where
    port_proto-open :
        (q : Option Protocol)
        → (same_key (port_proto q) "" || open_or (port_proto q) p.protocol)
          ≡ same_key (port_proto q) p.protocol
    unfolding port_proto same_key
    port_proto-open none = refl
    port_proto-open (some tcp) = refl
    port_proto-open (some udp) = refl
    port_proto-open (some (other_protocol text)) = refl

    port_allows :
        (j : ℕ) (rule_name : Key) (protocol : Option Protocol) (port : Option IntOrString)
        (subj : ApicObject)
        → allows p (build_port itoa f j rule_name direction subnets protocol port subj) ≡ (
            allows p subj
            || (same_key direction p.direction
                && family_open f p
                && ((is_nil subnets || any_subnet p.remote subnets)
                    && port_open itoa (record { protocol = protocol; port = port }) p)))
    unfolding build_port rule_port
    port_allows j rule_name protocol none subj =
        let name = append_text rule_name (append_text "_" (itoa j)) in
        let any : same_key "" "" ≡ true = same_key_refl "" in
        ground
          (arith, families_allow name (port_proto protocol) "" subj, port_proto-open protocol, any)
    port_allows j rule_name protocol (some (int_port n)) subj =
        let name = append_text rule_name (append_text "_" (itoa j)) in
        ground (
          arith,
          families_allow name (port_proto protocol) (itoa n) subj,
          port_proto-open protocol,
          not_empty n,
          not_any n,
        )
    port_allows j rule_name protocol (some (named_port name)) subj = ground arith

    ports_allow :
        (j : ℕ) (rule_name : Key) (ports : List NetworkPolicyPort) (subj : ApicObject)
        → allows p (build_ports itoa f j rule_name direction subnets ports subj) ≡ (
            allows p subj
            || (same_key direction p.direction
                && family_open f p
                && ((is_nil subnets || any_subnet p.remote subnets) && any_port itoa ports p)))
    unfolding build_ports
    ports_allow j rule_name [] subj = ground arith
    ports_allow j rule_name (q ∷ ports) subj = ground (
      arith,
      ports_allow (suc j) rule_name ports
          (build_port itoa f j rule_name direction subnets q.protocol q.port subj),
      port_allows j rule_name q.protocol q.port subj,
    )

    any_allows :
        (rule_name : Key) (ports : List NetworkPolicyPort) (subj : ApicObject)
        → allows p (build_any itoa f rule_name direction subnets ports subj) ≡ (
            allows p subj
            || (same_key direction p.direction
                && family_open f p
                && ((is_nil subnets || any_subnet p.remote subnets) && ports_open itoa ports p)))
    unfolding build_any
    any_allows rule_name [] subj =
        let any : same_key "" "" ≡ true = same_key_refl "" in
        ground (arith, families_allow rule_name "" "" subj, any)
    any_allows rule_name (q ∷ ports) subj = ports_allow 0 rule_name (q ∷ ports) subj

rules-allows :
    (itoa : ℕ → Key) (p : Packet) (direction rule_name : Key) (f : Families) (has_peers : Bool)
    (subnets : List Key) (ports : List NetworkPolicyPort) (subj : ApicObject)
    → ((n : ℕ) → same_key (itoa n) "" ≡ false)
    → ((n : ℕ) → same_key (itoa n) "unspecified" ≡ false)
    → allows p (build_net_pol_subj_rules itoa f rule_name direction has_peers subnets ports subj)
      ≡ (allows p subj
          || (same_key direction p.direction
              && family_open f p
              && (remote_open has_peers subnets p && ports_open itoa ports p)))
unfolding build_net_pol_subj_rules any_subnet
rules-allows itoa p direction rule_name f true [] ports subj e a = ground arith
rules-allows itoa p direction rule_name f false [] ports subj e a =
    any_allows p direction f [] itoa e a rule_name ports subj
rules-allows itoa p direction rule_name f true (ip ∷ ips) ports subj e a =
    any_allows p direction f (ip ∷ ips) itoa e a rule_name ports subj
rules-allows itoa p direction rule_name f false (ip ∷ ips) ports subj e a =
    any_allows p direction f (ip ∷ ips) itoa e a rule_name ports subj

pub build_net_pol_subj_rules-allows :
    (itoa : ℕ → Key) (p : Packet) (direction rule_name : Key) (f : Families) (has_peers : Bool)
    (subnets : List Key) (ports : List NetworkPolicyPort) (subj : ApicObject)
    → ((n : ℕ) → same_key (itoa n) "" ≡ false)
    → ((n : ℕ) → same_key (itoa n) "unspecified" ≡ false)
    → (allows p (build_net_pol_subj_rules itoa f rule_name direction has_peers subnets ports subj)
        ≡ (allows p subj
            || (same_key direction p.direction
                && family_open f p
                && (remote_open has_peers subnets p && ports_open itoa ports p))))
      × (child_names
            (build_net_pol_subj_rules itoa f rule_name direction has_peers subnets ports subj)
          ≡ child_names subj ++ policy_names itoa f (get_dn subj) rule_name has_peers subnets ports)
build_net_pol_subj_rules-allows itoa p direction rule_name f has_peers subnets ports subj e a = (
  rules-allows itoa p direction rule_name f has_peers subnets ports subj e a,
  rules-child_names itoa f rule_name direction has_peers subnets ports subj,
)

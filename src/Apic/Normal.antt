-- ===== src/Apic/Normal.antt =====
-- The normalizers of pkg/apicapi/apic_metadata.go: the names that the APIC gives to well-known ports
-- and protocols.
use z_presplit_aci_container.Base.{
  ◌≡◌, refl, Bool, true, false, ◌&&◌, List, [], ◌∷◌, none, some, arith, Option-cases, inl, inr,
}
use z_presplit_aci_container.Base.Maps.{Key, KeyMap, same_key, lookup, insert}
use z_presplit_aci_container.Apic.{Value, str, other}

abbrev pub port_normalizations : KeyMap Key
port_normalizations =
    ("0", "unspecified")
    ∷ ("20", "ftpData")
    ∷ ("25", "smtp")
    ∷ ("53", "dns")
    ∷ ("80", "http")
    ∷ ("110", "pop3")
    ∷ ("443", "https")
    ∷ ("554", "rtsp")
    ∷ []

abbrev pub proto_normalizations : KeyMap Key
proto_normalizations =
    ("0", "unspecified")
    ∷ ("1", "icmp")
    ∷ ("2", "igmp")
    ∷ ("6", "tcp")
    ∷ ("8", "egp")
    ∷ ("9", "igp")
    ∷ ("17", "udp")
    ∷ ("58", "icmpv6")
    ∷ ("88", "eigrp")
    ∷ ("89", "ospfigp")
    ∷ ("103", "pim")
    ∷ ("115", "l2tp")
    ∷ []

-- The name in a table, or the text itself.
abbrev pub named : KeyMap Key → Key → Key
named table text = elim (lookup text table) [ none ↦ text | some name ↦ name ]

unfoldable pub normalize_port : Key → Key
normalize_port port = named port_normalizations port

unfoldable pub normalize_proto : Key → Key
normalize_proto proto = named proto_normalizations proto

-- An attribute that is a string is normalized in its place.
unfoldable pub normalize_attr : (Key → Key) → Key → KeyMap Value → KeyMap Value
normalize_attr f name attributes = elim (lookup name attributes) [
  | none ↦ attributes
  | some v ↦ elim v [ str s ↦ insert name (str (f s)) attributes | other s ↦ attributes ]
]

unfoldable pub normalize_ports : List Key → KeyMap Value → KeyMap Value
normalize_ports [] attributes = attributes
normalize_ports (port ∷ ports) attributes =
    normalize_ports ports (normalize_attr normalize_port port attributes)

-- `to_upper` is `strings.ToUpper`.
pub redirect_dest_normalizer : (Key → Key) → KeyMap Value → KeyMap Value
redirect_dest_normalizer to_upper attributes = normalize_attr to_upper "mac" attributes

unfoldable pub rule_normalizer : KeyMap Value → KeyMap Value
rule_normalizer attributes =
    normalize_attr normalize_proto "proto" (normalize_ports ("toPort" ∷ "fromPort" ∷ []) attributes)

pub filter_entry_normalizer : KeyMap Value → KeyMap Value
filter_entry_normalizer attributes =
    normalize_attr normalize_proto "prot"
      (normalize_ports ("dToPort" ∷ "dFromPort" ∷ "sToPort" ∷ "sFromPort" ∷ []) attributes)

pub injected_svc_port_normalizer : KeyMap Value → KeyMap Value
injected_svc_port_normalizer attributes =
    normalize_attr normalize_proto "protocol"
      (normalize_ports ("port" ∷ "nodePort" ∷ []) attributes)

-- No name of the first table is a number of the second.
all_final : KeyMap Key → KeyMap Key → Bool
all_final [] table = true
all_final ((k, name) ∷ m) table =
    (elim (lookup name table) [ none ↦ true | some n ↦ false ]) && all_final m table

lookup-all_final :
    (k name : Key) (m table : KeyMap Key)
    → all_final m table ≡ true
    → lookup k m ≡ some name
    → lookup name table ≡ none
unfolding all_final lookup
lookup-all_final k name [] table h g = ground (arith, g)
lookup-all_final k name ((j, n) ∷ m) table h g =
    ground (arith, h, g, lookup-all_final k name m table)

named_twice :
    (table : KeyMap Key) (text : Key)
    → all_final table table ≡ true
    → named table (named table text) ≡ named table text
named_twice table text h = elim (Option-cases (lookup text table)) [
  | inl g ↦ ground (arith, g)
  | inr (name, g) ↦ ground (arith, g, lookup-all_final text name table table h g)
]

-- normalizePort and normalizeProto change no text that they have given.
pub normalize-normalize :
    (text : Key)
    → (normalize_port (normalize_port text) ≡ normalize_port text)
      × (normalize_proto (normalize_proto text) ≡ normalize_proto text)
unfolding normalize_port normalize_proto all_final lookup same_key
normalize-normalize text =
    (named_twice port_normalizations text refl, named_twice proto_normalizations text refl)

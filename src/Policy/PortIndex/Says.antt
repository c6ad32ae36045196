-- ===== src/Policy/PortIndex/Says.antt =====
-- What an index of target ports says, and what one update of pkg/controller/network_policy.go makes of it.
use z_presplit_aci_container.Base.{
  ◌≡◌, ◌∙◌, refl, sym, ap, Bool, true, false, [], ◌∷◌, some, Bool-cases, inl, inr, arith,
  if◌then◌else◌,
}
use z_presplit_aci_container.Base.Maps.{Key, KeyMap, same_key, same_key_iff, lookup}
use z_presplit_aci_container.Policy.PortIndex.{
  TargetPort, PortIndex, has_port, update_target_port_index,
}
use z_presplit_aci_container.Policy.PortIndex.Entries.{indexed, in_use, same_kind}
use z_presplit_aci_container.Policy.PortIndex.Indexed.{indexed-update, update-in_use}
use z_presplit_aci_container.Policy.PortIndex.Handlers.{same_port, ports_within, same_ports}

-- An index that says of one kind of objects what the function `ports` says.
abbrev pub Says : Bool → (Key → KeyMap TargetPort) → PortIndex → Type 0
Says kind ports index = (k pk : Key) → indexed index kind k pk ≡ has_port pk (ports k)

abbrev pub AllInUse : PortIndex → Type 0
AllInUse index = (pk : Key) → in_use (lookup pk index) ≡ true

pub has_port_if :
    (pk : Key) (b : Bool) (x y : KeyMap TargetPort)
    → has_port pk (if b then x else y) ≡ (if b then has_port pk x else has_port pk y)
has_port_if pk true x y = refl
has_port_if pk false x y = refl

same_kind_refl : (b : Bool) → same_kind b b ≡ true
same_kind_refl true = refl
same_kind_refl false = refl

-- One update from the ports that the index has to new ones.
pub update-Says :
    (kind : Bool) (key : Key) (old_ports new_ports : KeyMap TargetPort)
    (ports after : Key → KeyMap TargetPort) (index : PortIndex)
    → Says kind ports index
    → ports key ≡ old_ports
    → ((k : Key) → after k ≡ (if same_key k key then new_ports else ports k))
    → Says kind after (update_target_port_index kind key old_ports new_ports index)
update-Says kind key old_ports new_ports ports after index says old now k pk =
    let at : same_key k key ≡ true → has_port pk (ports k) ≡ has_port pk old_ports =
      λ h. ap (λ x. has_port pk (ports x)) (same_key_iff k key h) ∙ ap (has_port pk) old in
    let left = ap (has_port pk) (now k) ∙ has_port_if pk (same_key k key) new_ports (ports k) in
    ground (
      arith,
      at,
      left,
      says k pk,
      same_kind_refl kind,
      indexed-update kind kind k key pk old_ports new_ports index,
    )

pub update-Says_other :
    (kind service : Bool) (key : Key) (old_ports new_ports : KeyMap TargetPort)
    (ports : Key → KeyMap TargetPort) (index : PortIndex)
    → same_kind kind service ≡ false
    → Says kind ports index
    → Says kind ports (update_target_port_index service key old_ports new_ports index)
update-Says_other kind service key old_ports new_ports ports index other says k pk =
    ground (arith, other, says k pk, indexed-update kind service k key pk old_ports new_ports index)

pub update-AllInUse :
    (service : Bool) (key : Key) (old_ports new_ports : KeyMap TargetPort) (index : PortIndex)
    → AllInUse index
    → AllInUse (update_target_port_index service key old_ports new_ports index)
update-AllInUse service key old_ports new_ports index used pk =
    update-in_use service key pk old_ports new_ports index (used pk)

-- Equal maps of ports have the same ports.
has_port-same_port :
    (k : Key) (p : TargetPort) (b : KeyMap TargetPort)
    → same_port p (lookup k b) ≡ true
    → has_port k b ≡ true
unfolding same_port has_port lookup
has_port-same_port k p [] h = ground arith
has_port-same_port k p ((j, q) ∷ b) h = elim (Bool-cases (same_key k j)) [
  | inl e ↦ ground (arith, e)
  | inr e ↦
      let rest : same_port p (lookup k b) ≡ true =
        ap (λ x. same_port p (if x then some q else lookup k b)) (sym e) ∙ h in
      ground (arith, has_port-same_port k p b rest)
]

has_port-ports_within :
    (pk : Key) (a b : KeyMap TargetPort)
    → ports_within a b ≡ true
    → has_port pk a ≡ true
    → has_port pk b ≡ true
unfolding ports_within has_port
has_port-ports_within pk [] b w h = ground arith
has_port-ports_within pk ((k, p) ∷ a) b w h =
    let here : same_key pk k ≡ true → has_port pk b ≡ has_port k b =
      λ e. ap (λ x. has_port x b) (same_key_iff pk k e) in
    ground (arith, here, has_port-same_port k p b, has_port-ports_within pk a b)

pub has_port-same_ports :
    (pk : Key) (a b : KeyMap TargetPort) → same_ports a b ≡ true → has_port pk a ≡ has_port pk b
unfolding same_ports
has_port-same_ports pk a b h =
    ground (arith, has_port-ports_within pk a b, has_port-ports_within pk b a)

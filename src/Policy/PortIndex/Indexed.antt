-- ===== src/Policy/PortIndex/Indexed.antt =====
-- What updateTargetPortIndex in pkg/controller/network_policy.go changes.
use z_presplit_aci_container.Base.{
  ◌≡◌, ◌∙◌, refl, sym, ap, Bool, true, false, not, ◌&&◌, ◌||◌, [], ◌∷◌, Option, none, some,
  Bool-cases, inl, inr, arith, if◌then◌else◌,
}
use z_presplit_aci_container.Base.Maps.{
  Key, KeyMap, same_key, same_key_iff, lookup, insert, lookup-insert, lookup-delete,
}
use z_presplit_aci_container.Policy.PortIndex.{
  TargetPort, PortIndexEntry, PortIndex, has_port, drop_key, set_key, no_keys, drop_entry,
  drop_ports, entry_or_new, add_ports, update_target_port_index,
}
use z_presplit_aci_container.Policy.PortIndex.Entries.{
  same_kind, has, indexed, in_use, has-no_keys, has-drop_key, has-set_key, has-entry_or_new,
  set_key-in_use, has_if, in_use_if,
}

indexed-drop_entry :
    (kind service : Bool) (k key pk portkey : Key) (e : Option PortIndexEntry) (index : PortIndex)
    → lookup portkey index ≡ e
    → indexed (drop_entry service key portkey e index) kind k pk ≡ (
        indexed index kind k pk
        && not (same_key pk portkey && (same_kind kind service && same_key k key)))
unfolding drop_entry has
indexed-drop_entry kind service k key pk portkey none index at =
    let here : same_key pk portkey ≡ true → indexed index kind k pk ≡ false =
      λ h. ap (λ x. has kind k (lookup x index)) (same_key_iff pk portkey h) ∙ ap (has kind k) at in
    elim (Bool-cases (same_key pk portkey)) [
      | inl h ↦ ground (arith, here h, h)
      | inr h ↦ ground (arith, h)
    ]
indexed-drop_entry kind service k key pk portkey (some entry) index at =
    let entry' = drop_key service key entry in
    let here : same_key pk portkey ≡ true → indexed index kind k pk ≡ has kind k (some entry) =
      λ h. ap (λ x. has kind k (lookup x index)) (same_key_iff pk portkey h) ∙ ap (has kind k) at in
    let kept = has-drop_key kind service k key entry in
    elim (Bool-cases (no_keys entry')) [
      | inl e ↦
          rw
            (
              e,
              drop_entry,
              lookup-delete pk portkey index,
              has_if kind k (same_key pk portkey) none (lookup pk index),
            )
            (ground (arith, here, kept, has-no_keys kind k entry' e))
      | inr e ↦
          rw
            (
              e,
              drop_entry,
              lookup-insert pk portkey entry' index,
              has_if kind k (same_key pk portkey) (some entry') (lookup pk index),
            )
            (ground (arith, here, kept))
    ]

indexed-insert_entry :
    (kind service : Bool) (k key pk portkey : Key) (p : TargetPort) (index : PortIndex)
    → indexed
        (insert portkey (set_key service key (entry_or_new p (lookup portkey index))) index)
        kind
        k
        pk
      ≡ (indexed index kind k pk
          || (same_key pk portkey && (same_kind kind service && same_key k key)))
indexed-insert_entry kind service k key pk portkey p index =
    let entry = entry_or_new p (lookup portkey index) in
    let entry' = set_key service key entry in
    let here : same_key pk portkey ≡ true → indexed index kind k pk ≡ has kind k (some entry) = λ h.
      ap (λ x. has kind k (lookup x index)) (same_key_iff pk portkey h)
      ∙ sym (has-entry_or_new kind k p (lookup portkey index)) in
    rw
      (
        lookup-insert pk portkey entry' index,
        has_if kind k (same_key pk portkey) (some entry') (lookup pk index),
      )
      (ground (arith, here, has-set_key kind service k key entry))

drop_entry-in_use :
    (service : Bool) (key pk portkey : Key) (e : Option PortIndexEntry) (index : PortIndex)
    → in_use (lookup pk index) ≡ true
    → in_use (lookup pk (drop_entry service key portkey e index)) ≡ true
unfolding drop_entry in_use
drop_entry-in_use service key pk portkey none index h = h
drop_entry-in_use service key pk portkey (some entry) index h =
    let entry' = drop_key service key entry in
    elim (Bool-cases (no_keys entry')) [
      | inl e ↦
          rw (e, drop_entry, lookup-delete pk portkey index)
            (in_use_if (same_key pk portkey) none (lookup pk index) refl h)
      | inr e ↦
          rw (e, drop_entry, lookup-insert pk portkey entry' index)
            (in_use_if (same_key pk portkey) (some entry') (lookup pk index) (ap not e) h)
    ]

insert_entry-in_use :
    (service : Bool) (key pk portkey : Key) (entry : PortIndexEntry) (index : PortIndex)
    → in_use (lookup pk index) ≡ true
    → in_use (lookup pk (insert portkey (set_key service key entry) index)) ≡ true
insert_entry-in_use service key pk portkey entry index h =
    rw (lookup-insert pk portkey (set_key service key entry) index) (
      in_use_if (same_key pk portkey) (some (set_key service key entry)) (lookup pk index)
        (set_key-in_use service key entry) h)

indexed-drop_ports :
    (kind service : Bool) (k key pk : Key) (new_ports old_ports : KeyMap TargetPort)
    (index : PortIndex)
    → indexed (drop_ports service key new_ports old_ports index) kind k pk ≡ (
        indexed index kind k pk
        && not (
            (has_port pk old_ports && not (has_port pk new_ports))
            && (same_kind kind service && same_key k key)))
unfolding drop_ports has_port
indexed-drop_ports kind service k key pk new_ports [] index = ground arith
indexed-drop_ports kind service k key pk new_ports ((portkey, p) ∷ old_ports) index =
    let dropped = drop_entry service key portkey (lookup portkey index) index in
    let agree : same_key pk portkey ≡ true → has_port portkey new_ports ≡ has_port pk new_ports =
      λ h. ap (λ x. has_port x new_ports) (sym (same_key_iff pk portkey h)) in
    elim (Bool-cases (has_port portkey new_ports)) [
      | inl e ↦
          rw (e, drop_ports)
            (ground
              (arith, agree, e, indexed-drop_ports kind service k key pk new_ports old_ports index))
      | inr e ↦
          rw (e, drop_ports)
            (ground (
              arith,
              agree,
              e,
              indexed-drop_ports kind service k key pk new_ports old_ports dropped,
              indexed-drop_entry kind service k key pk portkey (lookup portkey index) index refl,
            ))
    ]

indexed-add_ports :
    (kind service : Bool) (k key pk : Key) (old_ports new_ports : KeyMap TargetPort)
    (index : PortIndex)
    → indexed (add_ports service key old_ports new_ports index) kind k pk ≡ (
        indexed index kind k pk
        || ((has_port pk new_ports && not (has_port pk old_ports))
            && (same_kind kind service && same_key k key)))
unfolding add_ports has_port
indexed-add_ports kind service k key pk old_ports [] index = ground arith
indexed-add_ports kind service k key pk old_ports ((portkey, p) ∷ new_ports) index =
    let added =
      insert portkey (set_key service key (entry_or_new p (lookup portkey index))) index in
    let agree : same_key pk portkey ≡ true → has_port portkey old_ports ≡ has_port pk old_ports =
      λ h. ap (λ x. has_port x old_ports) (sym (same_key_iff pk portkey h)) in
    elim (Bool-cases (has_port portkey old_ports)) [
      | inl e ↦
          rw (e, add_ports)
            (ground
              (arith, agree, e, indexed-add_ports kind service k key pk old_ports new_ports index))
      | inr e ↦
          rw (e, add_ports)
            (ground (
              arith,
              agree,
              e,
              indexed-add_ports kind service k key pk old_ports new_ports added,
              indexed-insert_entry kind service k key pk portkey p index,
            ))
    ]

-- updateTargetPortIndex takes a key out of the ports that only the old ones have and puts it into
-- those that only the new ones have.
pub indexed-update :
    (kind service : Bool) (k key pk : Key) (old_ports new_ports : KeyMap TargetPort)
    (index : PortIndex)
    → indexed (update_target_port_index service key old_ports new_ports index) kind k pk ≡ (
        if same_kind kind service && same_key k key
        then (indexed index kind k pk && (not (has_port pk old_ports) || has_port pk new_ports))
          || (has_port pk new_ports && not (has_port pk old_ports))
        else indexed index kind k pk)
unfolding update_target_port_index
indexed-update kind service k key pk old_ports new_ports index = ground (
  arith,
  indexed-add_ports kind service k key pk old_ports new_ports
      (drop_ports service key new_ports old_ports index),
  indexed-drop_ports kind service k key pk new_ports old_ports index,
)

drop_ports-in_use :
    (service : Bool) (key pk : Key) (new_ports old_ports : KeyMap TargetPort) (index : PortIndex)
    → in_use (lookup pk index) ≡ true
    → in_use (lookup pk (drop_ports service key new_ports old_ports index)) ≡ true
unfolding drop_ports
drop_ports-in_use service key pk new_ports [] index h = h
drop_ports-in_use service key pk new_ports ((portkey, p) ∷ old_ports) index h =
    elim (Bool-cases (has_port portkey new_ports)) [
      | inl e ↦ rw (e, drop_ports) (drop_ports-in_use service key pk new_ports old_ports index h)
      | inr e ↦
          rw (e, drop_ports)
            (drop_ports-in_use service key pk new_ports old_ports _
              (drop_entry-in_use service key pk portkey (lookup portkey index) index h))
    ]

add_ports-in_use :
    (service : Bool) (key pk : Key) (old_ports new_ports : KeyMap TargetPort) (index : PortIndex)
    → in_use (lookup pk index) ≡ true
    → in_use (lookup pk (add_ports service key old_ports new_ports index)) ≡ true
unfolding add_ports
add_ports-in_use service key pk old_ports [] index h = h
add_ports-in_use service key pk old_ports ((portkey, p) ∷ new_ports) index h =
    elim (Bool-cases (has_port portkey old_ports)) [
      | inl e ↦ rw (e, add_ports) (add_ports-in_use service key pk old_ports new_ports index h)
      | inr e ↦
          rw (e, add_ports)
            (add_ports-in_use service key pk old_ports new_ports _
              (insert_entry-in_use service key pk portkey _ index h))
    ]

-- It leaves no entry without keys.
pub update-in_use :
    (service : Bool) (key pk : Key) (old_ports new_ports : KeyMap TargetPort) (index : PortIndex)
    → in_use (lookup pk index) ≡ true
    → in_use (lookup pk (update_target_port_index service key old_ports new_ports index)) ≡ true
unfolding update_target_port_index
update-in_use service key pk old_ports new_ports index h =
    add_ports-in_use service key pk old_ports new_ports _
      (drop_ports-in_use service key pk new_ports old_ports index h)

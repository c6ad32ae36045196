-- ===== src/Policy/PortIndex/Entries.antt =====
-- The keys of one entry of the index of target ports in pkg/controller/network_policy.go.
use z_presplit_aci_container.Base.{
  ◌≡◌, refl, Bool, true, false, not, ◌&&◌, ◌||◌, [], ◌∷◌, Option, none, some, Bool-cases, inl, inr,
  arith, if◌then◌else◌,
}
use z_presplit_aci_container.Base.Maps.{
  Key, KeySet, same_key, lookup, add, member, is_empty, member-add, member-remove,
}
use z_presplit_aci_container.Policy.PortIndex.{
  TargetPort, PortIndexEntry, PortIndex, drop_key, set_key, no_keys, entry_or_new,
}

abbrev pub keys_of : Bool → PortIndexEntry → KeySet
keys_of true entry = entry.service_keys
keys_of false entry = entry.network_policy_keys

abbrev pub same_kind : Bool → Bool → Bool
same_kind true b = b
same_kind false b = not b

unfoldable pub has : Bool → Key → Option PortIndexEntry → Bool
has kind k none = false
has kind k (some entry) = member k (keys_of kind entry)

-- The services (kind true) or network policies (kind false) of a port in the index.
abbrev pub indexed : PortIndex → Bool → Key → Key → Bool
indexed index kind k portkey = has kind k (lookup portkey index)

unfoldable pub in_use : Option PortIndexEntry → Bool
in_use none = true
in_use (some entry) = not (no_keys entry)

member-is_empty : (k : Key) (s : KeySet) → is_empty s ≡ true → member k s ≡ false
unfolding is_empty member
member-is_empty k [] h = refl
member-is_empty k (j ∷ s) h = ground arith

pub has-no_keys :
    (kind : Bool) (k : Key) (entry : PortIndexEntry)
    → no_keys entry ≡ true
    → has kind k (some entry) ≡ false
unfolding has no_keys
has-no_keys true k entry h = member-is_empty k entry.service_keys (ground arith)
has-no_keys false k entry h = member-is_empty k entry.network_policy_keys (ground arith)

pub has-drop_key :
    (kind service : Bool) (k key : Key) (entry : PortIndexEntry)
    → has kind k (some (drop_key service key entry))
      ≡ (has kind k (some entry) && not (same_kind kind service && same_key k key))
unfolding has drop_key
has-drop_key true true k key entry = ground (arith, member-remove k key entry.service_keys)
has-drop_key true false k key entry = ground arith
has-drop_key false true k key entry = ground arith
has-drop_key false false k key entry = ground (arith, member-remove k key entry.network_policy_keys)

pub has-set_key :
    (kind service : Bool) (k key : Key) (entry : PortIndexEntry)
    → has kind k (some (set_key service key entry))
      ≡ (has kind k (some entry) || (same_kind kind service && same_key k key))
unfolding has set_key
has-set_key true true k key entry = ground (arith, member-add k key entry.service_keys)
has-set_key true false k key entry = ground arith
has-set_key false true k key entry = ground arith
has-set_key false false k key entry = ground (arith, member-add k key entry.network_policy_keys)

pub has-entry_or_new :
    (kind : Bool) (k : Key) (p : TargetPort) (e : Option PortIndexEntry)
    → has kind k (some (entry_or_new p e)) ≡ has kind k e
unfolding has entry_or_new member
has-entry_or_new true k p none = refl
has-entry_or_new false k p none = refl
has-entry_or_new kind k p (some entry) = refl

is_empty-add : (k : Key) (s : KeySet) → is_empty (add k s) ≡ false
unfolding is_empty add member
is_empty-add k [] = refl
is_empty-add k (j ∷ s) = elim (Bool-cases (member k (j ∷ s))) [
  | inl e ↦ rw (e, add) refl
  | inr e ↦ rw (e, add) refl
]

pub set_key-in_use :
    (service : Bool) (key : Key) (entry : PortIndexEntry)
    → in_use (some (set_key service key entry)) ≡ true
unfolding in_use set_key no_keys
set_key-in_use true key entry = ground (arith, is_empty-add key entry.service_keys)
set_key-in_use false key entry = ground (arith, is_empty-add key entry.network_policy_keys)

pub has_if :
    (kind : Bool) (k : Key) (b : Bool) (x y : Option PortIndexEntry)
    → has kind k (if b then x else y) ≡ (if b then has kind k x else has kind k y)
has_if kind k true x y = refl
has_if kind k false x y = refl

pub in_use_if :
    (b : Bool) (x y : Option PortIndexEntry)
    → in_use x ≡ true
    → in_use y ≡ true
    → in_use (if b then x else y) ≡ true
in_use_if true x y g h = g
in_use_if false x y g h = h

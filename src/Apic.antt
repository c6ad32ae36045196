-- ===== src/Apic.antt =====
-- pkg/apicapi/apic_types.go and apic_sync.go: trees of APIC objects, and the difference between the
-- current state and the desired one.
pub mod Trees
pub mod Same
pub mod Normal
pub mod Tags
pub mod Sorted
pub mod Examples
pub mod Sync
use Prim.Native.Nat.{Ordering}
use Prim.Native.String.{compare}
use mathlib.Core.Bool.{not}
use z_presplit_aci_container.Base.{
  Bool, true, false, ◌&&◌, ◌||◌, List, [], ◌∷◌, ◌++◌, Option, none, some, if◌then◌else◌,
}
use z_presplit_aci_container.Base.Maps.{Key, KeySet, KeyMap, same_key, member, lookup}

-- An attribute, as JSON gives it: a string, or a value of another kind, by its text.
pub data Value : Type 0 where
  str : Key → Value
  other : Key → Value

-- `!=` on `interface{}`.
pub same_value : Value → Value → Bool
same_value (str s) (str t) = same_key s t
same_value (other s) (other t) = same_key s t
same_value (str s) (other t) = false
same_value (other s) (str t) = false

-- An object is a Go map with one class. A slice is a list of objects.
infixr 67 ◌⨾◌
mutual
  pub data ApicObject : Type 0 where
    object : Key → KeyMap Value → ApicSlice → ApicObject

  pub data ApicSlice : Type 0 where
    nothing : ApicSlice
    ◌⨾◌ : ApicObject → ApicSlice → ApicSlice

abbrev pub class_of : ApicObject → Key
class_of (object class attributes children) = class

abbrev pub attributes_of : ApicObject → KeyMap Value
attributes_of (object class attributes children) = attributes

abbrev pub children_of : ApicObject → ApicSlice
children_of (object class attributes children) = children

-- The string in an attribute, empty if there is none.
unfoldable pub get_attr_str : Key → KeyMap Value → Key
get_attr_str name attributes = elim (lookup name attributes) [
  | none ↦ ""
  | some v ↦ elim v [ str s ↦ s | other s ↦ "" ]
]

unfoldable pub get_dn : ApicObject → Key
get_dn o = get_attr_str "dn" (attributes_of o)

pub cmp_apic_object : ApicObject → ApicObject → Ordering
cmp_apic_object a b = compare (get_dn a) (get_dn b)

-- An attribute, or what stands for it where it is missing.
pub attr_or : Value → Key → KeyMap Value → Value
attr_or default name attributes = elim (lookup name attributes) [ none ↦ default | some v ↦ v ]

-- The loop over the attributes of the class, with their defaults.
pub same_attrs : KeyMap Value → KeyMap Value → KeyMap Value → Bool
same_attrs [] attrc attrd = true
same_attrs ((p, default) ∷ meta) attrc attrd =
    same_value (attr_or default p attrc) (attr_or default p attrd) && same_attrs meta attrc attrd

-- `metadata` of apic_metadata.go: the attributes of each class.
abbrev pub Metadata : Type 0
Metadata = KeyMap (KeyMap Value)

abbrev pub Diff : Type 0
Diff = List ApicObject × List Key

abbrev pub note : Bool × List Key → ApicObject → Diff → Diff
note (update, deleted) d (updates, deletes) =
    ((if update then d ∷ updates else updates), deleted ++ deletes)

module _ (metadata : Metadata) where
  pub apic_body_attr_cmp : Key → KeyMap Value → KeyMap Value → Bool
  apic_body_attr_cmp class attrc attrd = elim (lookup class metadata) [
    | none ↦ true
    | some meta ↦
        same_attrs meta attrc attrd
        && (same_key class "tagAnnotation"
            || same_key class "tagInst"
            || same_value (attr_or (str "") "annotation" attrc)
                (attr_or (str "") "annotation" attrd))
  ]

  pub apic_cnt_cmp : ApicObject → ApicObject → Bool
  apic_cnt_cmp (object classc attrc cs) (object classd attrd ds) =
      same_key classc classd && apic_body_attr_cmp classc attrc attrd

  mutual
    -- Whether the object has to be written, and what has to be deleted below it.
    pub apic_obj_cmp : ApicObject → ApicObject → Bool × List Key
    apic_obj_cmp (object classc attrc cs) (object classd attrd ds) =
        let (update, deletes) = children_cmp cs ds in
        if same_key classc classd
        then (not (apic_body_attr_cmp classc attrc attrd) || update, deletes)
        else (false, [])

    -- The loops of `apicObjCmp` on the children that are left.
    pub children_cmp : ApicSlice → ApicSlice → Bool × List Key
    children_cmp nothing nothing = (false, [])
    children_cmp nothing (d ⨾ ds) = (true, [])
    children_cmp (c ⨾ cs) nothing =
        let (update, deletes) = children_cmp cs nothing in (update, get_dn c ∷ deletes)
    children_cmp (c ⨾ cs) (d ⨾ ds) = elim (cmp_apic_object c d) [
      | Ordering.lt ↦
          (let (update, deletes) = children_cmp cs (d ⨾ ds) in (update, get_dn c ∷ deletes))
      | Ordering.gt ↦ (let (update, deletes) = children_cmp (c ⨾ cs) ds in (true, deletes))
      | Ordering.eq ↦
          (let (cu, cd) = apic_obj_cmp c d in
            let (update, deletes) = children_cmp cs ds in (cu || update, cd ++ deletes))
    ]

  -- The branch of `diffApicState` for two objects with one name.
  pub diff_pair : KeySet → ApicObject → ApicObject → Bool × List Key
  diff_pair containers c d =
      if member (get_dn c) containers then (not (apic_cnt_cmp c d), []) else apic_obj_cmp c d

  -- The objects to write and the names to delete; `containers` is `containerDns`.
  pub diff_apic_state : KeySet → ApicSlice → ApicSlice → Diff
  diff_apic_state containers nothing nothing = ([], [])
  diff_apic_state containers nothing (d ⨾ ds) =
      note (true, []) d (diff_apic_state containers nothing ds)
  diff_apic_state containers (c ⨾ cs) nothing =
      note (false, get_dn c ∷ []) c (diff_apic_state containers cs nothing)
  diff_apic_state containers (c ⨾ cs) (d ⨾ ds) = elim (cmp_apic_object c d) [
    | Ordering.lt ↦ note (false, get_dn c ∷ []) c (diff_apic_state containers cs (d ⨾ ds))
    | Ordering.gt ↦ note (true, []) d (diff_apic_state containers (c ⨾ cs) ds)
    | Ordering.eq ↦ note (diff_pair containers c d) d (diff_apic_state containers cs ds)
  ]

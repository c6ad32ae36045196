-- ===== src/Apic/Tags.antt =====
-- The tags of objects in pkg/apicapi/apic_types.go, and the preparation of objects for a write in
-- apic_sync.go.
pub mod Round
pub mod Rounds
pub mod Specified
pub mod Arranged
pub mod Retagged
pub mod Prepared
pub mod Examples
use Prim.Native.String.{◌++◌ as append_text}
use mathlib.Core.Bool.{not}
use z_presplit_aci_container.Base.{
  Bool, true, false, ◌&&◌, ◌||◌, List, [], ◌∷◌, Option, none, some, if◌then◌else◌, ℕ, zero, suc,
  max,
}
use z_presplit_aci_container.Base.Maps.{Key, KeyMap, same_key, lookup, insert}
use z_presplit_aci_container.Apic.{
  Value, str, other, ApicObject, ApicSlice, object, nothing, ◌⨾◌, get_attr_str, get_dn, Metadata,
  cmp_apic_object,
}
use z_presplit_aci_container.Apic.Sync.{ApicConnection, sort_slice, write_prepared}

abbrev pub annot_key : Key
annot_key = "aci-containers-controller-tag"

-- The attribute is this string.
pub is_str : Key → Key → KeyMap Value → Bool
is_str name text attributes = elim (lookup name attributes) [
  | none ↦ false
  | some v ↦ elim v [ str s ↦ same_key s text | other s ↦ false ]
]

pub find_tag : ApicSlice → Key
find_tag nothing = ""
find_tag (object class attributes children ⨾ s) =
    let rest = find_tag s in
    if same_key class "tagInst"
    then get_attr_str "name" attributes
    else (if same_key class "tagAnnotation" && is_str "key" annot_key attributes
        then get_attr_str "value" attributes
        else rest)

pub get_tag : ApicObject → Key
get_tag (object class attributes children) = find_tag children

pub is_tag : ApicObject → Bool
is_tag (object class attributes children) =
    same_key class "tagAnnotation" || same_key class "tagInst"

-- The child is the tag that `SetTag` looks for.
pub holds_tag : Bool → Key → ApicObject → Bool
holds_tag inst tag (object class attributes children) =
    (same_key class "tagAnnotation" && (not inst && is_str "key" annot_key attributes))
    || (same_key class "tagInst" && (inst && is_str "name" tag attributes))

-- An annotation gets the tag as its value.
pub mark : Bool → Key → ApicObject → ApicObject
mark inst tag (object class attributes children) =
    object class (if inst then attributes else insert "value" (str tag) attributes) children

-- The loop of `SetTag`, from the last child on; it ends at the tag that it looks for.
pub retag : Bool → Key → ApicSlice → Bool × ApicSlice
retag inst tag nothing = (false, nothing)
retag inst tag (c ⨾ s) =
    let (found, rest) = retag inst tag s in
    if found
    then (true, c ⨾ rest)
    else (if holds_tag inst tag c
        then (true, mark inst tag c ⨾ rest)
        else (if is_tag c then (false, rest) else (false, c ⨾ rest)))

unfoldable pub add_child : ApicObject → ApicSlice → ApicSlice
add_child c nothing = c ⨾ nothing
add_child c (d ⨾ s) = d ⨾ add_child c s

module _ (metadata : Metadata) where
  -- The attributes of a class with their defaults.
  pub new_attributes : Key → KeyMap Value
  new_attributes class = elim (lookup class metadata) [ none ↦ [] | some attributes ↦ attributes ]

  pub new_tag_inst : Key → Key → ApicObject
  new_tag_inst parent_dn name =
      object "tagInst"
        (insert "dn" (str (append_text parent_dn (append_text "/tag-" name)))
          (insert "name" (str name) (new_attributes "tagInst")))
        nothing

  -- With the value that `SetTag` sets.
  pub new_tag_annotation : Key → Key → Key → ApicObject
  new_tag_annotation parent_dn key value =
      object "tagAnnotation"
        (insert "value" (str value) (
          insert "dn" (str (append_text parent_dn (append_text "/annotationKey-" key)))
            (insert "key" (str key) (new_attributes "tagAnnotation"))))
        nothing

  pub new_tag : Bool → Key → Key → ApicObject
  new_tag inst parent_dn tag =
      if inst then new_tag_inst parent_dn tag else new_tag_annotation parent_dn annot_key tag

  pub set_tag : Bool → Key → ApicObject → ApicObject
  set_tag inst tag (object class attributes children) =
      let (found, rest) = retag inst tag children in
      object class attributes
        (if found then rest else add_child (new_tag inst (get_attr_str "dn" attributes) tag) rest)

pub map_slice : (ApicObject → ApicObject) → ApicSlice → ApicSlice
map_slice f nothing = nothing
map_slice f (o ⨾ s) = f o ⨾ map_slice f s

mutual
  -- The rounds that the preparation takes at most: an object that is no tag may get one as a child.
  pub rounds : ApicSlice → ℕ
  rounds nothing = 0
  rounds (o ⨾ s) = max (rounds_below o) (rounds s)

  pub rounds_below : ApicObject → ℕ
  rounds_below (object class attributes children) =
      if same_key class "tagAnnotation" || same_key class "tagInst"
      then suc (rounds children)
      else suc (suc (rounds children))

-- `normalizer` is the one of the class, or changes nothing if the class has none.
module _ (metadata : Metadata) (normalizer : Key → KeyMap Value → KeyMap Value) (inst : Bool)
    (tag : Key) where
  -- The tag and the annotation of an object that is no tag itself.
  pub own : ApicObject → ApicObject
  own (object class attributes children) =
      elim (set_tag metadata inst tag (object class attributes children)) [
        | object c a s ↦
            if is_tag (object class attributes children)
            then object class attributes children
            else object c
                (if inst
                  then a
                  else insert "annotation" (str "orchestrator:aci-containers-controller") a)
                s
      ]

  -- The object with its children prepared, normalized.
  pub prepare_object : (ApicSlice → ApicSlice) → ApicObject → ApicObject
  prepare_object below o = elim (own o) [ object c a s ↦ object c (normalizer c a) (below s) ]

  -- Each round goes one level down; a tag that is added has no children.
  pub prepare_rounds : ℕ → ApicSlice → ApicSlice
  prepare_rounds zero s = s
  prepare_rounds (suc fuel) s = map_slice (prepare_object (prepare_rounds fuel)) (sort_slice s)

  -- `prepareApicSliceTag`, with the rounds that it takes.
  pub prepare_apic_slice_tag : ApicSlice → ApicSlice
  prepare_apic_slice_tag s = prepare_rounds (rounds s) s

-- `doWriteApicObjects`; `normalizer`, `inst` and `tag_of` are the metadata's normalizers,
-- `UseAPICInstTag`, and `getTagFromKey` with the prefix of the connection.
pub do_write_apic_objects :
    Metadata
    → (Key → KeyMap Value → KeyMap Value)
    → Bool
    → (Key → Key)
    → Key
    → Option ApicSlice
    → Bool
    → ApicConnection
    → ApicConnection
do_write_apic_objects metadata normalizer inst tag_of key objects container conn =
    write_prepared metadata tag_of key
      (elim objects [
        | none ↦ none
        | some s ↦ some (prepare_apic_slice_tag metadata normalizer inst (tag_of key) s)
      ])
      container conn

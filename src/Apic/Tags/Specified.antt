-- ===== src/Apic/Tags/Specified.antt =====
-- What a prepared object is, for `prepareApicSliceTag` of pkg/apicapi/apic_sync.go.
use Prim.Native.String.{compare}
use z_presplit_aci_container.Base.{
  ℕ, suc, ◌≡◌, Bool, true, false, ◌||◌, some, ◌⊎◌, if◌then◌else◌, is_gt,
}
use z_presplit_aci_container.Base.Maps.{Key, KeyMap, same_key, lookup}
use z_presplit_aci_container.Apic.{Value, str, ApicObject, ApicSlice, object, nothing, ◌⨾◌, get_dn}

abbrev pub tag_class : Key → Bool
tag_class class = same_key class "tagAnnotation" || same_key class "tagInst"

-- The children that are no tags, in order.
unfoldable pub others : ApicSlice → ApicSlice
others nothing = nothing
others (object class a cs ⨾ s) =
    let rest = others s in if tag_class class then rest else object class a cs ⨾ rest

-- A tag of the controller: an instance with that name, or an annotation with that value.
abbrev pub IsOurs : Bool → Key → ApicObject → Type 0
IsOurs true tag (object class a s) = (class ≡ "tagInst") × (lookup "name" a ≡ some (str tag))
IsOurs false tag (object class a s) =
    (class ≡ "tagAnnotation")
    × (lookup "key" a ≡ some (str "aci-containers-controller-tag"))
    × (lookup "value" a ≡ some (str tag))

abbrev pub HasOurs : Bool → Key → ApicSlice → Type 0
HasOurs inst tag nothing = ⊥
HasOurs inst tag (c ⨾ s) = IsOurs inst tag c ⊎ HasOurs inst tag s

-- How many objects pass a test.
unfoldable pub count : (ApicObject → Bool) → ApicSlice → ℕ
count test nothing = 0
count test (o ⨾ s) = let rest = count test s in if test o then suc rest else rest

abbrev pub SameObjects : ApicSlice → ApicSlice → Type 0
SameObjects s u = (test : ApicObject → Bool) → count test s ≡ count test u

-- The names do not fall.
abbrev pub NotAbove : ApicObject → ApicSlice → Type 0
NotAbove o nothing = Unit
NotAbove o (p ⨾ s) = is_gt (compare (get_dn o) (get_dn p)) ≡ false

abbrev pub Rising : ApicSlice → Type 0
Rising nothing = Unit
Rising (o ⨾ s) = NotAbove o s × Rising s

module _ (normalizer : Key → KeyMap Value → KeyMap Value) (inst : Bool) (tag : Key) where
  mutual
    -- A tag keeps its attributes and children. Another object has the tag among its children,
    -- which are otherwise those that it had, and if tags are annotations, an annotation. All
    -- attributes are then normalized, and the children prepared.
    pub data IsPrepared : ApicObject → ApicObject → Type 0 where
      tag_prepared :
          (class : Key) (a : KeyMap Value) (s t : ApicSlice)
          → tag_class class ≡ true
          → AllPrepared s t
          → IsPrepared (object class a s) (object class (normalizer class a) t)
      object_prepared :
          (class : Key) (a b : KeyMap Value) (s u t : ApicSlice)
          → tag_class class ≡ false
          → ((k : Key) → same_key k "annotation" ≡ false → lookup k b ≡ lookup k a)
          → lookup "annotation" b ≡ (
              if inst
              then lookup "annotation" a
              else some (str "orchestrator:aci-containers-controller"))
          → HasOurs inst tag u
          → others u ≡ others s
          → AllPrepared u t
          → IsPrepared (object class a s) (object class (normalizer class b) t)

    pub data EachPrepared : ApicSlice → ApicSlice → Type 0 where
      none_prepared : EachPrepared nothing nothing
      next_prepared :
          (o p : ApicObject) (s t : ApicSlice)
          → IsPrepared o p
          → EachPrepared s t
          → EachPrepared (o ⨾ s) (p ⨾ t)

    -- The objects are sorted and prepared one by one.
    pub data AllPrepared : ApicSlice → ApicSlice → Type 0 where
      all_prepared :
          (s u t : ApicSlice) → SameObjects s u → Rising u → EachPrepared u t → AllPrepared s t

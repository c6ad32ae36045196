-- ===== src/Apic/Tags/Retagged.antt =====
-- The children of an object after `SetTag` of pkg/apicapi/apic_types.go.
use z_presplit_aci_container.Base.{
  ◌≡◌, ◌∙◌, refl, ap, Bool, true, false, Option, none, some, arith, Bool-cases, inl, inr,
}
use z_presplit_aci_container.Base.Maps.{Key, KeyMap, same_key, same_key_iff, lookup, lookup-insert}
use z_presplit_aci_container.Apic.{
  Value, str, other, ApicObject, ApicSlice, object, nothing, ◌⨾◌, get_attr_str, Metadata,
  children_of,
}
use z_presplit_aci_container.Apic.Tags.{
  annot_key, is_str, is_tag, holds_tag, mark, retag, add_child, new_attributes, new_tag,
  new_tag_inst, new_tag_annotation, set_tag,
}
use z_presplit_aci_container.Apic.Tags.Specified.{tag_class, others, IsOurs, HasOurs}

holds_tag-class :
    (inst : Bool) (tag class : Key) (a : KeyMap Value) (s : ApicSlice)
    → holds_tag inst tag (object class a s) ≡ true
    → tag_class class ≡ true
unfolding holds_tag
holds_tag-class inst tag class a s h = ground arith

retag-others : (inst : Bool) (tag : Key) (s : ApicSlice) → others (retag inst tag s).1 ≡ others s
unfolding others retag is_tag mark
retag-others inst tag nothing = refl
retag-others inst tag (object class a cs ⨾ s) =
    let ih = retag-others inst tag s in
    elim (Bool-cases (retag inst tag s).0) [
      | inl f ↦ rw (f, ih) refl
      | inr f ↦ elim (Bool-cases (holds_tag inst tag (object class a cs))) [
        | inl g ↦ rw (f, g, holds_tag-class inst tag class a cs g) ih
        | inr g ↦ elim (Bool-cases (tag_class class)) [
          | inl e ↦ rw (f, g, e) ih
          | inr e ↦ rw (f, g, e) (rw (e, ih) refl)
        ]
      ]
    ]

add_child-others :
    (c : ApicObject) (s : ApicSlice) → is_tag c ≡ true → others (add_child c s) ≡ others s
unfolding others add_child is_tag
add_child-others (object class a cs) nothing h = rw h refl
add_child-others (object class a cs) (object k b ds ⨾ s) h =
    rw (add_child-others (object class a cs) s h) refl

is_str-lookup :
    (name text : Key) (a : KeyMap Value)
    → is_str name text a ≡ true
    → lookup name a ≡ some (str text)
unfolding is_str
is_str-lookup name text a h = go (lookup name a) h
  where
    go :
        (o : Option Value)
        → (elim o [ none ↦ false | some v ↦ elim v [ str s ↦ same_key s text | other s ↦ false ] ])
          ≡ true
        → o ≡ some (str text)
    go none g = absurd (ground arith)
    go (some (str s)) g = ap (λ t. some (str t)) (same_key_iff s text g)
    go (some (other s)) g = absurd (ground arith)

mark-IsOurs :
    (inst : Bool) (tag : Key) (c : ApicObject)
    → holds_tag inst tag c ≡ true
    → IsOurs inst tag (mark inst tag c)
unfolding holds_tag mark same_key
mark-IsOurs true tag (object class a s) h =
    (same_key_iff class "tagInst" (ground arith), is_str-lookup "name" tag a (ground arith))
mark-IsOurs false tag (object class a s) h = (
  same_key_iff class "tagAnnotation" (ground arith),
  lookup-insert "key" "value" (str tag) a ∙ is_str-lookup "key" annot_key a (ground arith),
  lookup-insert "value" "value" (str tag) a,
)

retag-HasOurs :
    (inst : Bool) (tag : Key) (s : ApicSlice)
    → (retag inst tag s).0 ≡ true
    → HasOurs inst tag (retag inst tag s).1
unfolding retag
retag-HasOurs inst tag nothing h = absurd (ground arith)
retag-HasOurs inst tag (c ⨾ s) h = elim (Bool-cases (retag inst tag s).0) [
  | inl f ↦ rw f (inr (retag-HasOurs inst tag s f))
  | inr f ↦ elim (Bool-cases (holds_tag inst tag c)) [
    | inl g ↦ rw (f, g) (inl (mark-IsOurs inst tag c g))
    | inr g ↦ elim (Bool-cases (is_tag c)) [
      | inl e ↦ absurd (ground (arith, h, f, g, e))
      | inr e ↦ absurd (ground (arith, h, f, g, e))
    ]
  ]
]

new_tag-IsOurs :
    (metadata : Metadata) (inst : Bool) (dn tag : Key)
    → IsOurs inst tag (new_tag metadata inst dn tag)
unfolding new_tag new_tag_inst new_tag_annotation same_key
new_tag-IsOurs metadata true dn tag = (
  refl,
  lookup-insert "name" "dn" _ _
      ∙ lookup-insert "name" "name" (str tag) (new_attributes metadata "tagInst"),
)
new_tag-IsOurs metadata false dn tag = (
  refl,
  lookup-insert "key" "value" (str tag) _
      ∙ lookup-insert "key" "dn" _ _
      ∙ lookup-insert "key" "key" (str annot_key) (new_attributes metadata "tagAnnotation"),
  lookup-insert "value" "value" (str tag) _,
)

add_child-HasOurs :
    (inst : Bool) (tag : Key) (c : ApicObject) (s : ApicSlice)
    → IsOurs inst tag c
    → HasOurs inst tag (add_child c s)
unfolding add_child
add_child-HasOurs inst tag c nothing h = inl h
add_child-HasOurs inst tag c (d ⨾ s) h = inr (add_child-HasOurs inst tag c s h)

new_tag-is_tag :
    (metadata : Metadata) (inst : Bool) (dn tag : Key)
    → is_tag (new_tag metadata inst dn tag) ≡ true
unfolding new_tag new_tag_inst new_tag_annotation is_tag same_key
new_tag-is_tag metadata true dn tag = refl
new_tag-is_tag metadata false dn tag = refl

module _ (metadata : Metadata) (inst : Bool) (tag : Key) where
  -- The children after `SetTag`.
  pub set_tag-children :
      (class : Key) (a : KeyMap Value) (s : ApicSlice)
      → HasOurs inst tag (children_of (set_tag metadata inst tag (object class a s)))
        × (others (children_of (set_tag metadata inst tag (object class a s))) ≡ others s)
  unfolding set_tag
  set_tag-children class a s =
      let new = new_tag metadata inst (get_attr_str "dn" a) tag in
      let rest = (retag inst tag s).1 in
      elim (Bool-cases (retag inst tag s).0) [
        | inl f ↦ rw f (retag-HasOurs inst tag s f, retag-others inst tag s)
        | inr f ↦ rw f (
          add_child-HasOurs inst tag new rest
              (new_tag-IsOurs metadata inst (get_attr_str "dn" a) tag),
          add_child-others new rest (new_tag-is_tag metadata inst (get_attr_str "dn" a) tag)
              ∙ retag-others inst tag s,
        )
      ]

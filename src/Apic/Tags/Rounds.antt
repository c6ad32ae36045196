-- ===== src/Apic/Tags/Rounds.antt =====
-- The rounds of `prepareApicSliceTag` of pkg/apicapi/apic_sync.go: the children that an object is
-- left with take fewer.
use z_presplit_aci_container.Base.{
  ◌≡◌, refl, ap, ◌∙◌, Bool, true, false, ◌||◌, arith, Bool-cases, inl, inr, suc, max, ◌≤◌,
}
use z_presplit_aci_container.Base.Maps.{Key, KeyMap, same_key}
use z_presplit_aci_container.Apic.{
  Value, ApicObject, ApicSlice, object, nothing, ◌⨾◌, get_attr_str, Metadata, children_of,
}
use z_presplit_aci_container.Apic.Sync.{insert_object, sort_slice}
use z_presplit_aci_container.Apic.Tags.{
  is_tag, holds_tag, mark, retag, add_child, new_tag, new_tag_inst, new_tag_annotation, set_tag,
  own, rounds, rounds_below,
}

rounds-insert_object :
    (o : ApicObject) (s : ApicSlice) → rounds (insert_object o s) ≡ max (rounds_below o) (rounds s)
unfolding insert_object rounds
rounds-insert_object o nothing = refl
rounds-insert_object o (p ⨾ s) = grind (arith, rounds-insert_object o s)

pub rounds-sort_slice : (s : ApicSlice) → rounds (sort_slice s) ≡ rounds s
unfolding sort_slice rounds
rounds-sort_slice nothing = refl
rounds-sort_slice (o ⨾ s) =
    rounds-insert_object o (sort_slice s) ∙ ap (max (rounds_below o)) (rounds-sort_slice s)

rounds-add_child :
    (c : ApicObject) (s : ApicSlice) → rounds (add_child c s) ≡ max (rounds s) (rounds_below c)
unfolding add_child rounds
rounds-add_child c nothing = omega arith
rounds-add_child c (d ⨾ s) = let h = rounds-add_child c s in omega arith

rounds-mark :
    (inst : Bool) (tag : Key) (o : ApicObject) → rounds_below (mark inst tag o) ≡ rounds_below o
unfolding mark rounds is_tag
rounds-mark inst tag (object class attributes children) = refl

rounds-retag : (inst : Bool) (tag : Key) (s : ApicSlice) → rounds (retag inst tag s).1 ≤ rounds s
unfolding retag rounds
rounds-retag inst tag nothing = omega arith
rounds-retag inst tag (c ⨾ s) =
    let h = rounds-retag inst tag s in
    let m = rounds-mark inst tag c in
    elim (Bool-cases (retag inst tag s).0) [
      | inl f ↦ rw f (omega arith)
      | inr f ↦ elim (Bool-cases (holds_tag inst tag c)) [
        | inl g ↦ rw (f, g) (omega arith)
        | inr g ↦ elim (Bool-cases (is_tag c)) [
          | inl e ↦ rw (f, g, e) (omega arith)
          | inr e ↦ rw (f, g, e) (omega arith)
        ]
      ]
    ]

rounds-new_tag :
    (metadata : Metadata) (inst : Bool) (dn tag : Key)
    → rounds_below (new_tag metadata inst dn tag) ≡ 1
unfolding new_tag new_tag_inst new_tag_annotation rounds same_key
rounds-new_tag metadata true dn tag = refl
rounds-new_tag metadata false dn tag = refl

module _ (metadata : Metadata) (normalizer : Key → KeyMap Value → KeyMap Value) (inst : Bool)
    (tag : Key) where
  -- The children that an object is left with take fewer rounds than the object.
  pub rounds-own :
      (o : ApicObject)
      → suc (rounds (children_of (own metadata normalizer inst tag o))) ≤ rounds_below o
  unfolding own rounds set_tag is_tag
  rounds-own (object class attributes children) =
      let r = rounds-retag inst tag children in
      let new = new_tag metadata inst (get_attr_str "dn" attributes) tag in
      let a = rounds-add_child new (retag inst tag children).1 in
      let n = rounds-new_tag metadata inst (get_attr_str "dn" attributes) tag in
      elim (Bool-cases (same_key class "tagAnnotation" || same_key class "tagInst")) [
        | inl e ↦ rw e (omega arith)
        | inr e ↦ elim (Bool-cases (retag inst tag children).0) [
          | inl f ↦ rw (e, f) (omega arith)
          | inr f ↦ rw (e, f) (omega arith)
        ]
      ]

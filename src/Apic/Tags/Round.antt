-- ===== src/Apic/Tags/Round.antt =====
-- `GetTag` after `SetTag` of pkg/apicapi/apic_types.go.
use z_presplit_aci_container.Base.{
  ◌≡◌, refl, ap, ◌∙◌, Bool, true, false, ◌||◌, if◌then◌else◌, arith, Bool-cases, inl, inr,
}
use z_presplit_aci_container.Base.Maps.{Key, KeyMap, same_key, insert, lookup-insert}
use z_presplit_aci_container.Apic.{
  Value, str, ApicObject, ApicSlice, object, nothing, ◌⨾◌, get_attr_str, Metadata, children_of,
}
use z_presplit_aci_container.Apic.Tags.{
  annot_key, is_str, find_tag, get_tag, is_tag, holds_tag, retag, add_child, new_attributes,
  new_tag_inst, new_tag_annotation, new_tag, set_tag,
}

-- A child holds the tag that `SetTag` looks for.
unfoldable pub any_holds : Bool → Key → ApicSlice → Bool
any_holds inst tag nothing = false
any_holds inst tag (c ⨾ s) = holds_tag inst tag c || any_holds inst tag s

any_tag : ApicSlice → Bool
any_tag nothing = false
any_tag (c ⨾ s) = is_tag c || any_tag s

retag-clears :
    (inst : Bool) (tag : Key) (s : ApicSlice)
    → any_holds inst tag s ≡ false
    → ((retag inst tag s).0 ≡ false) × (any_tag (retag inst tag s).1 ≡ false)
unfolding any_holds any_tag retag
retag-clears inst tag nothing h = (refl, refl)
retag-clears inst tag (c ⨾ s) h =
    let g : holds_tag inst tag c ≡ false = ground (arith, h) in
    let (f, t) = retag-clears inst tag s (ground (arith, h)) in
    elim (Bool-cases (is_tag c)) [
      | inl e ↦ rw (f, g, e) (refl, t)
      | inr e ↦ rw (f, g, e) (refl, ground (arith, e, t))
    ]

find_tag-add_child :
    (c : ApicObject) (s : ApicSlice)
    → any_tag s ≡ false
    → find_tag (add_child c s) ≡ find_tag (c ⨾ nothing)
unfolding any_tag find_tag add_child is_tag
find_tag-add_child c nothing h = refl
find_tag-add_child c (object class attributes children ⨾ s) h =
    ground (arith, h, find_tag-add_child c s (ground (arith, h)))

get_attr_str-insert :
    (j k v : Key) (m : KeyMap Value)
    → get_attr_str j (insert k (str v) m) ≡ (if same_key j k then v else get_attr_str j m)
unfolding get_attr_str
get_attr_str-insert j k v m = ground (arith, lookup-insert j k (str v) m)

is_str-insert :
    (j k v w : Key) (m : KeyMap Value)
    → is_str j w (insert k (str v) m) ≡ (if same_key j k then same_key v w else is_str j w m)
unfolding is_str
is_str-insert j k v w m = ground (arith, lookup-insert j k (str v) m)

find_tag-new_tag :
    (metadata : Metadata) (inst : Bool) (dn tag : Key)
    → find_tag (new_tag metadata inst dn tag ⨾ nothing) ≡ tag
unfolding find_tag new_tag new_tag_inst new_tag_annotation same_key
find_tag-new_tag metadata true dn tag =
    let m = new_attributes metadata "tagInst" in
    get_attr_str-insert "name" "dn" _ (insert "name" (str tag) m)
    ∙ get_attr_str-insert "name" "name" tag m
find_tag-new_tag metadata false dn tag =
    let m = new_attributes metadata "tagAnnotation" in
    let k = insert "key" (str annot_key) m in
    let n = insert "dn" _ k in
    ap (λ b. if b then get_attr_str "value" (insert "value" (str tag) n) else "")
      (is_str-insert "key" "value" tag annot_key n
        ∙ is_str-insert "key" "dn" _ annot_key k
        ∙ is_str-insert "key" "key" annot_key annot_key m)
    ∙ get_attr_str-insert "value" "value" tag n

-- If no child of an object holds the tag that SetTag looks for, GetTag gives after SetTag the tag
-- that was set, as a tag instance or as an annotation, whatever other tags the object had.
pub get_tag-set_tag :
    (metadata : Metadata) (inst : Bool) (tag : Key) (o : ApicObject)
    → any_holds inst tag (children_of o) ≡ false
    → get_tag (set_tag metadata inst tag o) ≡ tag
unfolding get_tag set_tag
get_tag-set_tag metadata inst tag (object class attributes children) h =
    let (f, t) = retag-clears inst tag children h in
    let dn = get_attr_str "dn" attributes in
    let new = new_tag metadata inst dn tag in
    ap
      (λ b.
        find_tag
          (if b then (retag inst tag children).1 else add_child new (retag inst tag children).1))
      f
    ∙ find_tag-add_child new (retag inst tag children).1 t
    ∙ find_tag-new_tag metadata inst dn tag

-- ===== src/Apic/Tags/Examples.antt =====
-- Runs of the tags and normalizers of pkg/apicapi.
use z_presplit_aci_container.Base.{◌≡◌, refl, false, [], ◌∷◌, if◌then◌else◌}
use z_presplit_aci_container.Base.Maps.{Key, KeyMap, same_key, lookup, insert}
use z_presplit_aci_container.Apic.{
  Value, str, ApicObject, object, nothing, ◌⨾◌, get_attr_str, get_dn, cmp_apic_object,
}
use z_presplit_aci_container.Apic.Normal.{
  normalize_port, normalize_proto, normalize_attr, normalize_ports, rule_normalizer,
}
use z_presplit_aci_container.Apic.Sync.{insert_object, sort_slice}
use z_presplit_aci_container.Apic.Tags.{
  annot_key, is_str, get_tag, is_tag, holds_tag, mark, retag, add_child, new_attributes,
  new_tag_annotation, new_tag, set_tag, own, map_slice, rounds, prepare_object, prepare_rounds,
  prepare_apic_slice_tag,
}
use z_presplit_aci_container.Apic.Tags.Specified.{AllPrepared}
use z_presplit_aci_container.Apic.Tags.Prepared.{prepare_apic_slice_tag-AllPrepared}
use z_presplit_aci_container.Apic.Tags.Round.{any_holds, get_tag-set_tag}

abbrev rule : ApicObject
rule =
    object "hostprotRule" (("dn", str "r") ∷ ("proto", str "6") ∷ ("toPort", str "80") ∷ []) nothing

-- The rule with an old tag.
abbrev tagged : ApicObject
tagged =
    object "hostprotRule" (("dn", str "r") ∷ [])
      (object "tagInst" (("name", str "old") ∷ []) nothing ⨾ nothing)

abbrev normalizer : Key → KeyMap Value → KeyMap Value
normalizer class attributes =
    if same_key class "hostprotRule" then rule_normalizer attributes else attributes

prepared_rule :
    prepare_apic_slice_tag [] normalizer false "t" (rule ⨾ nothing)
    ≡ object "hostprotRule"
        (("dn", str "r")
          ∷ ("proto", str "tcp")
          ∷ ("toPort", str "http")
          ∷ ("annotation", str "orchestrator:aci-containers-controller")
          ∷ [])
        (object "tagAnnotation"
            (("key", str annot_key)
              ∷ ("dn", str "r/annotationKey-aci-containers-controller-tag")
              ∷ ("value", str "t")
              ∷ [])
            nothing
          ⨾ nothing)
      ⨾ nothing
unfolding same_key lookup insert get_attr_str get_dn cmp_apic_object normalize_port normalize_proto
    normalize_attr normalize_ports rule_normalizer insert_object sort_slice is_str is_tag holds_tag
    mark retag add_child new_attributes new_tag_annotation new_tag set_tag own map_slice rounds
    prepare_object prepare_rounds prepare_apic_slice_tag any_holds
prepared_rule = refl

untagged :
    any_holds false "t" (object "tagInst" (("name", str "old") ∷ []) nothing ⨾ nothing) ≡ false
unfolding same_key lookup insert get_attr_str get_dn cmp_apic_object normalize_port normalize_proto
    normalize_attr normalize_ports rule_normalizer insert_object sort_slice is_str is_tag holds_tag
    mark retag add_child new_attributes new_tag_annotation new_tag set_tag own map_slice rounds
    prepare_object prepare_rounds prepare_apic_slice_tag any_holds
untagged = refl

get_tag-set_tag_example : get_tag (set_tag [] false "t" tagged) ≡ "t"
get_tag-set_tag_example = get_tag-set_tag [] false "t" tagged untagged

prepare_apic_slice_tag-AllPrepared_example :
    AllPrepared normalizer false "t"
      (rule ⨾ tagged ⨾ nothing)
      (prepare_apic_slice_tag [] normalizer false "t" (rule ⨾ tagged ⨾ nothing))
prepare_apic_slice_tag-AllPrepared_example =
    prepare_apic_slice_tag-AllPrepared [] normalizer false "t" (rule ⨾ tagged ⨾ nothing)

-- ===== src/Apic/Examples.antt =====
-- Runs of the comparison of pkg/apicapi/apic_sync.go on small trees.
use z_presplit_aci_container.Base.{◌≡◌, ◌↔◌, refl, true, [], ◌∷◌}
use z_presplit_aci_container.Base.Maps.{Key, same_key, member, lookup}
use z_presplit_aci_container.Apic.{
  str, same_value, ApicObject, ApicSlice, object, nothing, ◌⨾◌, get_attr_str, get_dn,
  cmp_apic_object, attr_or, same_attrs, Metadata, apic_body_attr_cmp, apic_cnt_cmp, apic_obj_cmp,
  diff_pair, diff_apic_state,
}
use z_presplit_aci_container.Apic.Trees.{is_quiet}
use z_presplit_aci_container.Apic.Same.{SameTree, apic_obj_cmp-SameTree}
use z_presplit_aci_container.Apic.Sorted.{
  Behind, IsSorted, all_written, all_deleted, diff_apic_state-lookup,
}

abbrev metadata : Metadata
metadata = ("fvBD", ("arpFlood", str "no") ∷ []) ∷ ("fvSubnet", ("ip", str "") ∷ []) ∷ []

abbrev subnet : Key → ApicObject
subnet dn = object "fvSubnet" (("dn", str dn) ∷ ("ip", str dn) ∷ []) nothing

abbrev domain : Key → Key → ApicSlice → ApicObject
domain dn flood children = object "fvBD" (("dn", str dn) ∷ ("arpFlood", str flood) ∷ []) children

abbrev current : ApicSlice
current =
    domain "a" "no" (subnet "a/1" ⨾ subnet "a/2" ⨾ nothing)
    ⨾ domain "b" "no" nothing
    ⨾ domain "d" "no" nothing
    ⨾ nothing

-- `a` loses a subnet, `b` changes, `c` is new and `d` goes.
abbrev desired : ApicSlice
desired =
    domain "a" "no" (subnet "a/2" ⨾ nothing)
    ⨾ domain "b" "yes" nothing
    ⨾ domain "c" "no" nothing
    ⨾ nothing

diff_of_states :
    diff_apic_state metadata [] current desired
    ≡ (domain "b" "yes" nothing ∷ domain "c" "no" nothing ∷ [], "a/1" ∷ "d" ∷ [])
unfolding diff_apic_state apic_obj_cmp diff_pair apic_cnt_cmp apic_body_attr_cmp same_attrs attr_or
    same_value cmp_apic_object get_dn get_attr_str member lookup same_key
diff_of_states = refl

-- A container's children are left alone.
diff_of_container :
    diff_apic_state metadata ("a" ∷ "b" ∷ []) current desired
    ≡ (domain "b" "yes" nothing ∷ domain "c" "no" nothing ∷ [], "d" ∷ [])
unfolding diff_apic_state apic_obj_cmp diff_pair apic_cnt_cmp apic_body_attr_cmp same_attrs attr_or
    same_value cmp_apic_object get_dn get_attr_str member lookup same_key
diff_of_container = refl

current-IsSorted : IsSorted current
unfolding IsSorted Behind get_dn get_attr_str lookup same_key
current-IsSorted = ((refl, (refl, tt)), ((refl, tt), (tt, tt)))

desired-IsSorted : IsSorted desired
unfolding IsSorted Behind get_dn get_attr_str lookup same_key
desired-IsSorted = ((refl, (refl, tt)), ((refl, tt), (tt, tt)))

diff_apic_state-lookup_example :
    diff_apic_state metadata [] current desired
    ≡ (all_written metadata [] current desired, all_deleted metadata [] current desired)
diff_apic_state-lookup_example =
    diff_apic_state-lookup metadata [] current desired current-IsSorted desired-IsSorted

apic_obj_cmp-SameTree_example :
    (is_quiet
        (apic_obj_cmp metadata (domain "a" "no" (subnet "a/1" ⨾ nothing)) (domain "a" "no" nothing))
      ≡ true)
    ↔ SameTree metadata (domain "a" "no" (subnet "a/1" ⨾ nothing)) (domain "a" "no" nothing)
apic_obj_cmp-SameTree_example =
    apic_obj_cmp-SameTree metadata (domain "a" "no" (subnet "a/1" ⨾ nothing))
      (domain "a" "no" nothing)

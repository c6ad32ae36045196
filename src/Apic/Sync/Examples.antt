-- ===== src/Apic/Sync/Examples.antt =====
-- Runs of the operations of pkg/apicapi on the state of a connection.
use z_presplit_aci_container.Base.{◌≡◌, refl, true, false, ◌&&◌, ◌||◌, [], ◌∷◌, none, some}
use z_presplit_aci_container.Base.Maps.{Key, same_key, member, add, remove, lookup, insert, delete}
use z_presplit_aci_container.Apic.{
  str, same_value, ApicObject, object, nothing, ◌⨾◌, get_attr_str, get_dn, cmp_apic_object, attr_or,
  same_attrs, Metadata, apic_body_attr_cmp, apic_cnt_cmp, apic_obj_cmp, diff_pair, diff_apic_state,
}
use z_presplit_aci_container.Apic.Sync.{
  ApicConnection, insert_string, sort_strings, insert_object, sort_slice, queue_dn, queue_all,
  apply_diff, update_dn_index, each_dn, remove_rounds, remove_from_dn_index, remove_all,
  sort_states, add_each, remove_each, reconcile_diff, reconcile_apic_object, sync_cached,
  sync_desired, full_sync, write_diff, store_written, write_prepared,
}
use z_presplit_aci_container.Apic.Sync.Queue.{
  is_queued, in_diff, write_prepared-queues, write_prepared-again,
}
use z_presplit_aci_container.Apic.Sync.Names.{has}

abbrev metadata : Metadata
metadata = ("fvBD", ("arpFlood", str "no") ∷ []) ∷ []

abbrev subnet : ApicObject
subnet = object "fvSubnet" (("dn", str "a/1") ∷ []) nothing

abbrev domain : Key → ApicObject
domain flood = object "fvBD" (("dn", str "a") ∷ ("arpFlood", str flood) ∷ []) (subnet ⨾ nothing)

abbrev tag_of : Key → Key
tag_of key = key

abbrev new_connection : ApicConnection
new_connection = record {
  sync_enabled = true;
  desired_state = [];
  desired_state_dn = [];
  key_hashes = [];
  container_dns = [];
  cached_state = ("old", domain "no" ⨾ nothing) ∷ [];
  pending_sub_dn_update = [];
  delta_queue = some [];
}

abbrev written : ApicConnection
written = write_prepared metadata tag_of "k" (some (domain "no" ⨾ nothing)) false new_connection

-- A write queues the new object, and indexes it with what is below it.
write_queues :
    (written.delta_queue ≡ some ("a" ∷ [])) × (has (lookup "a/1" written.desired_state_dn) ≡ true)
unfolding write_prepared store_written write_diff diff_apic_state apic_obj_cmp diff_pair
    apic_cnt_cmp apic_body_attr_cmp same_attrs attr_or same_value cmp_apic_object get_dn
    get_attr_str member lookup same_key insert delete add remove insert_string sort_strings
    insert_object sort_slice queue_dn queue_all apply_diff update_dn_index each_dn remove_rounds
    remove_from_dn_index remove_all sort_states add_each remove_each reconcile_diff
    reconcile_apic_object sync_cached sync_desired full_sync has
write_queues = (refl, refl)

-- A clear takes it out again.
clear_queues :
    ((write_prepared metadata tag_of "k" none false written).delta_queue ≡ some ("a" ∷ "a" ∷ []))
    × ((write_prepared metadata tag_of "k" none false written).desired_state_dn ≡ [])
unfolding write_prepared store_written write_diff diff_apic_state apic_obj_cmp diff_pair
    apic_cnt_cmp apic_body_attr_cmp same_attrs attr_or same_value cmp_apic_object get_dn
    get_attr_str member lookup same_key insert delete add remove insert_string sort_strings
    insert_object sort_slice queue_dn queue_all apply_diff update_dn_index each_dn remove_rounds
    remove_from_dn_index remove_all sort_states add_each remove_each reconcile_diff
    reconcile_apic_object sync_cached sync_desired full_sync has
clear_queues = (refl, refl)

-- A full synchronisation deletes what is cached and no longer desired.
sync_deletes : (full_sync metadata tag_of new_connection).delta_queue ≡ some ("a" ∷ [])
unfolding write_prepared store_written write_diff diff_apic_state apic_obj_cmp diff_pair
    apic_cnt_cmp apic_body_attr_cmp same_attrs attr_or same_value cmp_apic_object get_dn
    get_attr_str member lookup same_key insert delete add remove insert_string sort_strings
    insert_object sort_slice queue_dn queue_all apply_diff update_dn_index each_dn remove_rounds
    remove_from_dn_index remove_all sort_states add_each remove_each reconcile_diff
    reconcile_apic_object sync_cached sync_desired full_sync has
sync_deletes = refl

-- An altered object is written again.
reconcile_restores :
    (reconcile_apic_object metadata (λ t. true) (λ o. "t") (domain "yes") written).delta_queue
    ≡ some ("a" ∷ "a" ∷ [])
unfolding write_prepared store_written write_diff diff_apic_state apic_obj_cmp diff_pair
    apic_cnt_cmp apic_body_attr_cmp same_attrs attr_or same_value cmp_apic_object get_dn
    get_attr_str member lookup same_key insert delete add remove insert_string sort_strings
    insert_object sort_slice queue_dn queue_all apply_diff update_dn_index each_dn remove_rounds
    remove_from_dn_index remove_all sort_states add_each remove_each reconcile_diff
    reconcile_apic_object sync_cached sync_desired full_sync has
reconcile_restores = refl

desired_a : lookup (get_dn (domain "yes")) written.desired_state_dn ≡ some (domain "no")
unfolding write_prepared store_written write_diff diff_apic_state apic_obj_cmp diff_pair
    apic_cnt_cmp apic_body_attr_cmp same_attrs attr_or same_value cmp_apic_object get_dn
    get_attr_str member lookup same_key insert delete add remove insert_string sort_strings
    insert_object sort_slice queue_dn queue_all apply_diff update_dn_index each_dn remove_rounds
    remove_from_dn_index remove_all sort_states add_each remove_each reconcile_diff
    reconcile_apic_object sync_cached sync_desired full_sync has
desired_a = refl

no_container : member (get_dn (domain "yes")) written.container_dns ≡ false
unfolding write_prepared store_written write_diff diff_apic_state apic_obj_cmp diff_pair
    apic_cnt_cmp apic_body_attr_cmp same_attrs attr_or same_value cmp_apic_object get_dn
    get_attr_str member lookup same_key insert delete add remove insert_string sort_strings
    insert_object sort_slice queue_dn queue_all apply_diff update_dn_index each_dn remove_rounds
    remove_from_dn_index remove_all sort_states add_each remove_each reconcile_diff
    reconcile_apic_object sync_cached sync_desired full_sync has
no_container = refl

write_prepared-queues_example :
    is_queued "a"
      (write_prepared metadata tag_of "k" (some (domain "no" ⨾ nothing)) false new_connection)
    ≡ (is_queued "a" new_connection
        || (true
            && in_diff "a"
                (write_diff metadata tag_of "k" (some (domain "no" ⨾ nothing)) new_connection)))
write_prepared-queues_example =
    write_prepared-queues metadata tag_of "a" "k" (some (domain "no" ⨾ nothing)) false
      new_connection [] refl

write_prepared-again_example :
    (write_prepared metadata tag_of "k" (some (domain "no" ⨾ nothing)) true written).delta_queue
    ≡ written.delta_queue
write_prepared-again_example =
    write_prepared-again metadata tag_of "k" (domain "no" ⨾ nothing) false true new_connection

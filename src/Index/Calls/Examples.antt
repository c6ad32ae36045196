-- ===== src/Index/Calls/Examples.antt =====
-- Runs of the operations of pkg/index/pod_selector_index.go on a small cluster.
use mathlib.Core.Bool.{true≢false}
use z_presplit_aci_container.Base.{
  ◌≡◌, ◌≢◌, refl, true, false, ◌&&◌, List, [], ◌∷◌, none, some, if◌then◌else◌,
}
use z_presplit_aci_container.Base.Maps.{
  Key, KeyMap, same_key, member, add, remove, is_empty, lookup, insert, delete,
}
use z_presplit_aci_container.Index.{
  Pod, PodSelectorIndex, get_obj_for_pod, get_pod_for_obj, update_pod_no_callback, update_locked,
  visit_objs, visit_selectors, visit_match, drop_stale, unlink, forget, add_all,
}
use z_presplit_aci_container.Index.Selecting.{
  update_selector_obj_for_ns, visit_namespaces, visit_ns, visit_pods, visit_pod, drop_old,
  same_keys, subset,
}
use z_presplit_aci_container.Index.Agree.{Agrees}
use z_presplit_aci_container.Index.Pods.{
  is_indexed, IsPodUpdated, update_pod_no_callback-IsPodUpdated,
}
use z_presplit_aci_container.Index.Objects.{IsObjUpdated, update_selector_obj-IsObjUpdated}
use z_presplit_aci_container.Index.Selects.{selects, lists_pod}
use z_presplit_aci_container.Index.Calls.{
  SelectorObj, Callbacks, pod_call, obj_call, get_obj_namespaces, Stores, new_pod_selector_index,
  Operation, update_pod, update_obj, perform, perform_all, update_selector_obj_no_callback,
  add_selectors, add_selector, append_at, append_each, update_objs, update_pods, call_if,
}
use z_presplit_aci_container.Index.Calls.Reachable.{perform_all-Agrees, new-Agrees, reachable-agree}
use z_presplit_aci_container.Index.Calls.Namespaces.{
  matches_at, any_selects, get_obj_namespaces-match,
}
use z_presplit_aci_container.Index.Calls.Told.{any_call, is_obj_call, update_pod-tells}

-- A selector is a label, and a pod has one label.
abbrev front : Pod Key
front = record { key = some "web/front"; namespace = "web"; labels = "app" }

abbrev back : Pod Key
back = record { key = some "web/back"; namespace = "web"; labels = "db" }

abbrev moved : Pod Key
moved = record { key = some "web/front"; namespace = "web"; labels = "db" }

-- A policy for the pods with the label, in the namespace `web`.
abbrev policy : Key → Key → SelectorObj Key
policy name label = record {
  key = some name;
  selectors = record { namespace = some "web"; ns_selector = none; pod_selector = label } ∷ [];
}

-- The store holds the two pods, under their labels.
abbrev stores : Stores Key Key
stores = record {
  matches = same_key;
  list_pods =
      λ ns s. if same_key s "app" then front ∷ [] else (if same_key s "db" then back ∷ [] else []);
  list_namespaces = λ s. "web" ∷ [];
  pod_hash_func = none;
  same_namespaces = λ m n. false;
}

abbrev callbacks : Callbacks
callbacks = record { update_pod = true; update_obj = true }

abbrev operations : List (Operation Key Key)
operations =
    update_obj (policy "web/p" "app") ∷ update_obj (policy "web/q" "db") ∷ update_pod front ∷ []

abbrev index : PodSelectorIndex Key
index = perform_all stores callbacks operations new_pod_selector_index

index-Agrees : Agrees index
index-Agrees =
    perform_all-Agrees stores callbacks operations new_pod_selector_index
      (new-Agrees stores callbacks)

test_front : get_obj_for_pod "web/front" index ≡ "web/p" ∷ []
unfolding perform perform_all new_pod_selector_index get_obj_for_pod update_pod_no_callback
    update_locked update_selector_obj_no_callback update_selector_obj_for_ns get_obj_namespaces
    add_selectors add_selector append_at append_each visit_objs visit_selectors visit_match
    drop_stale unlink visit_namespaces visit_ns visit_pods visit_pod drop_old forget same_keys
    subset add_all update_objs update_pods call_if same_key member add remove is_empty lookup insert
    delete
test_front = refl

test_moved :
    (perform stores callbacks (update_pod moved) index).1
    ≡ obj_call "web/p" ∷ obj_call "web/q" ∷ pod_call "web/front" ∷ []
unfolding perform perform_all new_pod_selector_index get_obj_for_pod update_pod_no_callback
    update_locked update_selector_obj_no_callback update_selector_obj_for_ns get_obj_namespaces
    add_selectors add_selector append_at append_each visit_objs visit_selectors visit_match
    drop_stale unlink visit_namespaces visit_ns visit_pods visit_pod drop_old forget same_keys
    subset add_all update_objs update_pods call_if same_key member add remove is_empty lookup insert
    delete
test_moved = refl

-- The move changes the pods of `web/q`.
moved-differs :
    member "web/front"
      (get_pod_for_obj "web/q" (perform stores callbacks (update_pod moved) index).0)
    ≢ member "web/front" (get_pod_for_obj "web/q" index)
unfolding perform perform_all new_pod_selector_index get_obj_for_pod update_pod_no_callback
    update_locked update_selector_obj_no_callback update_selector_obj_for_ns get_obj_namespaces
    add_selectors add_selector append_at append_each visit_objs visit_selectors visit_match
    drop_stale unlink visit_namespaces visit_ns visit_pods visit_pod drop_old forget same_keys
    subset add_all update_objs update_pods call_if same_key member add remove is_empty lookup insert
    delete get_pod_for_obj
moved-differs = true≢false

-- `web/q` comes to select the pods of `web/p`.
retarget-differs :
    member "web/q" (
      get_obj_for_pod "web/front"
        (perform stores callbacks (update_obj (policy "web/q" "app")) index).0)
    ≢ member "web/q" (get_obj_for_pod "web/front" index)
unfolding perform perform_all new_pod_selector_index get_obj_for_pod update_pod_no_callback
    update_locked update_selector_obj_no_callback update_selector_obj_for_ns get_obj_namespaces
    add_selectors add_selector append_at append_each visit_objs visit_selectors visit_match
    drop_stale unlink visit_namespaces visit_ns visit_pods visit_pod drop_old forget same_keys
    subset add_all update_objs update_pods call_if same_key member add remove is_empty lookup insert
    delete get_pod_for_obj
retarget-differs = true≢false

reachable-agree_example :
    member "web/front" (get_pod_for_obj "web/p" index)
    ≡ member "web/p" (get_obj_for_pod "web/front" index)
reachable-agree_example = reachable-agree stores callbacks operations "web/p" "web/front"

update_pod_no_callback-IsPodUpdated_example :
    IsPodUpdated "web/front"
      (λ obj. is_indexed none moved && selects same_key index.obj_ns_index moved obj)
      index
      (update_pod_no_callback same_key none moved index).0
      (update_pod_no_callback same_key none moved index).2
update_pod_no_callback-IsPodUpdated_example =
    update_pod_no_callback-IsPodUpdated same_key none moved "web/front" index refl index-Agrees

abbrev scope : KeyMap (List Key)
scope = ("web", "app" ∷ []) ∷ []

update_selector_obj-IsObjUpdated_example :
    IsObjUpdated "web/q"
      (lists_pod stores.list_pods scope)
      index
      (update_selector_obj_for_ns stores.list_pods "web/q" scope index).0
      (update_selector_obj_for_ns stores.list_pods "web/q" scope index).1
update_selector_obj-IsObjUpdated_example =
    update_selector_obj-IsObjUpdated stores.list_pods "web/q" scope index index-Agrees

get_obj_namespaces-match_example :
    matches_at same_key stores.list_namespaces
      (get_obj_namespaces stores.list_namespaces (policy "web/p" "app"))
      "web"
      "app"
    ≡ any_selects same_key stores.list_namespaces (policy "web/p" "app").selectors "web" "app"
get_obj_namespaces-match_example =
    get_obj_namespaces-match same_key stores.list_namespaces (policy "web/p" "app") "web" "app"

update_pod-tells_example :
    any_call (is_obj_call "web/q") (perform stores callbacks (update_pod moved) index).1 ≡ true
update_pod-tells_example =
    update_pod-tells stores callbacks moved index "web/front" "web/q" index-Agrees refl
      moved-differs

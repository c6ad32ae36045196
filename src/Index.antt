-- ===== src/Index.antt =====
-- pkg/index/pod_selector_index.go: which selector objects select which pods.
-- Keys of pods and objects, and names of namespaces, are strings. Kubernetes' label selectors are a
-- type with its test, and its stores and key functions are arguments.
pub mod Selecting
pub mod Links
pub mod Visits
pub mod Drops
pub mod Selects
pub mod Agree
pub mod Pods
pub mod Objects
pub mod Calls
use mathlib.Core.Bool.{not}
use z_presplit_aci_container.Base.{
  Bool, true, false, ◌&&◌, ◌||◌, List, [], ◌∷◌, ◌++◌, Option, none, some, if◌then◌else◌,
}
use z_presplit_aci_container.Base.Maps.{
  Key, KeySet, KeyMap, same_key, member, add, remove, is_empty, lookup, insert, delete,
}

pub record PodIndexState : Type 0 where
  pub obj_keys : KeySet
  pub pod_hash : Key

-- The three maps; `Selector` is `labels.Selector`.
pub record PodSelectorIndex (Selector : Type 0) : Type 0 where
  pub pod_index : KeyMap PodIndexState
  pub obj_pod_index : KeyMap KeySet
  pub obj_ns_index : KeyMap (KeyMap (List Selector))

-- A selector over a set of pods.
pub record PodSelector (Selector : Type 0) : Type 0 where
  pub namespace : Option Key
  pub ns_selector : Option Selector
  pub pod_selector : Selector

-- The fields of a pod that the index reads; `key` is what `MetaNamespaceKeyFunc` gives.
pub record Pod (Labels : Type 0) : Type 0 where
  pub key : Option Key
  pub namespace : Key
  pub labels : Labels

-- The keys in `m[k]`, where a missing entry is a nil map.
abbrev pub keys_at : Key → KeyMap KeySet → KeySet
keys_at k m = elim (lookup k m) [ none ↦ [] | some s ↦ s ]

-- `m[k]` without `v`; an entry that is left empty goes.
pub unlink : Key → Key → KeyMap KeySet → KeyMap KeySet
unlink k v m = elim (lookup k m) [
  | none ↦ m
  | some s ↦ if is_empty (remove v s) then delete k m else insert k (remove v s) m
]

-- The objects of a pod without `obj`; a pod that is left with none goes.
pub forget : Key → Key → KeyMap PodIndexState → KeyMap PodIndexState
forget pod obj m = elim (lookup pod m) [
  | none ↦ m
  | some st ↦
      if is_empty (remove obj st.obj_keys)
      then delete pod m
      else insert pod (record st { obj_keys = remove obj st.obj_keys }) m
]

-- The variables of the loops of `UpdatePodNoCallback`.
pub record Visit : Type 0 where
  pub obj_pod_index : KeyMap KeySet
  pub pod_updated : Bool
  pub updated_objs : KeySet
  pub matched : KeySet

-- The body for a selector that matches.
pub visit_match : Key → Key → Visit → Visit
visit_match obj pod v =
    let objm = keys_at obj v.obj_pod_index in
    record {
      obj_pod_index =
          (if member pod objm then v.obj_pod_index else insert obj (add pod objm) v.obj_pod_index);
      pod_updated = (if member pod objm then v.pod_updated else true);
      updated_objs = (if member pod objm then v.updated_objs else add obj v.updated_objs);
      matched = add obj v.matched;
    }

-- The body of the loop over the objects that no longer select the pod.
pub drop_stale : Key → KeySet → Visit → Visit
drop_stale pod [] v = v
drop_stale pod (obj ∷ objs) v = drop_stale pod objs (
    if member obj v.matched then v else (record v {
      obj_pod_index = unlink obj pod v.obj_pod_index;
      pod_updated = true;
      updated_objs = add obj v.updated_objs;
    }))

-- The state of a pod; the code makes one for a pod that has none.
abbrev pub state_at : Key → KeyMap PodIndexState → PodIndexState
state_at pod m = elim (lookup pod m) [
  | none ↦ record { obj_keys = []; pod_hash = "" }
  | some st ↦ st
]

-- The loop of `DeletePod`, over the objects of the pod: the links that are left, and the objects.
pub drop_links : Key → KeySet → KeyMap KeySet × KeySet → KeyMap KeySet × KeySet
drop_links pod [] (m, updated) = (m, updated)
drop_links pod (obj ∷ objs) (m, updated) =
    drop_links pod objs
      (elim (lookup obj m) [ none ↦ (m, updated) | some s ↦ (unlink obj pod m, add obj updated) ])

-- The new index, and the objects for which `updateObj` is called.
pub delete_pod :
    {Selector Labels : Type 0}
    → Pod Labels
    → PodSelectorIndex Selector
    → PodSelectorIndex Selector × KeySet
delete_pod pod i = elim pod.key [
  | none ↦ (i, [])
  | some key ↦ elim (lookup key i.pod_index) [
    | none ↦ (i, [])
    | some st ↦
        (let (links, updated) = drop_links key st.obj_keys (i.obj_pod_index, []) in
          (record i { pod_index = delete key i.pod_index; obj_pod_index = links }, updated))
  ]
]

pub add_all : KeySet → KeySet → KeySet
add_all [] s = s
add_all (k ∷ ks) s = add_all ks (add k s)

module _ {Selector Labels : Type 0} (matches : Selector → Labels → Bool) where
  pub visit_selectors : Key → Key → Labels → List Selector → Visit → Visit
  visit_selectors obj pod labels [] v = v
  visit_selectors obj pod labels (s ∷ ss) v =
      visit_selectors obj pod labels ss (if matches s labels then visit_match obj pod v else v)

  -- The loop over `objNsIndex`, for the selectors of the pod's namespace.
  pub visit_objs : Key → Pod Labels → KeyMap (KeyMap (List Selector)) → Visit → Visit
  visit_objs key pod [] v = v
  visit_objs key pod ((obj, nss) ∷ rest) v =
      visit_objs key pod rest (elim (lookup pod.namespace nss) [
        | none ↦ v
        | some ss ↦ visit_selectors obj key pod.labels ss v
      ])

  abbrev pub Index : Type 0
  Index = PodSelectorIndex Selector

  -- The part of `UpdatePodNoCallback` under the lock, for a pod with a key and a hash.
  pub update_locked : Key → Key → Pod Labels → Index → Index × Bool × KeySet
  update_locked key hash pod i =
      let start : Visit = record {
        obj_pod_index = i.obj_pod_index;
        pod_updated = false;
        updated_objs = [];
        matched = [];
      } in
      let found = visit_objs key pod i.obj_ns_index start in
      let state = state_at key i.pod_index in
      let kept = drop_stale key state.obj_keys found in
      (
        record i {
          pod_index = insert key (record { obj_keys = found.matched; pod_hash = hash }) i.pod_index;
          obj_pod_index = kept.obj_pod_index;
        },
        kept.pod_updated,
        (if same_key hash state.pod_hash
            then kept.updated_objs
            else add_all found.matched kept.updated_objs),
      )

  -- With the result, and the objects for which `updateObj` is called. `hash_func` is
  -- `podHashFunc`, if one is set.
  pub update_pod_no_callback :
      Option (Pod Labels → Key) → Pod Labels → Index → Index × Bool × KeySet
  update_pod_no_callback none pod i = elim pod.key [
    | none ↦ (i, false, [])
    | some key ↦ update_locked key "" pod i
  ]
  update_pod_no_callback (some hash_func) pod i =
      let (deleted, updated) = delete_pod pod i in
      if same_key (hash_func pod) "" then (deleted, false, updated) else (elim pod.key [
        | none ↦ (i, false, [])
        | some key ↦ update_locked key (hash_func pod) pod i
      ])

pub get_obj_for_pod : {Selector : Type 0} → Key → PodSelectorIndex Selector → KeySet
get_obj_for_pod pod i = (state_at pod i.pod_index).obj_keys

pub get_pod_for_obj : {Selector : Type 0} → Key → PodSelectorIndex Selector → KeySet
get_pod_for_obj obj i = keys_at obj i.obj_pod_index

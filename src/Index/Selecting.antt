-- ===== src/Index/Selecting.antt =====
-- The part of pkg/index/pod_selector_index.go that goes from a selector object to its pods:
-- `updateSelectorObjForNs` and `DeleteSelectorObj`.
use mathlib.Core.Bool.{not}
use z_presplit_aci_container.Base.{
  Bool, true, false, ◌&&◌, List, [], ◌∷◌, Option, none, some, if◌then◌else◌,
}
use z_presplit_aci_container.Base.Maps.{Key, KeySet, KeyMap, member, add, lookup, insert, delete}
use z_presplit_aci_container.Index.{PodIndexState, PodSelectorIndex, Pod, keys_at, state_at, forget}

-- The variables of the loops of `updateSelectorObjForNs`.
pub record PodVisit : Type 0 where
  pub pod_index : KeyMap PodIndexState
  pub updated_pods : KeySet
  pub matched : KeySet

unfoldable pub visit_pod : Key → Key → PodVisit → PodVisit
visit_pod obj pod v =
    let state = state_at pod v.pod_index in
    let linked = member obj state.obj_keys in
    record {
      pod_index =
          (if linked
            then v.pod_index
            else insert pod (record state { obj_keys = add obj state.obj_keys }) v.pod_index);
      updated_pods = (if linked then v.updated_pods else add pod v.updated_pods);
      matched = add pod v.matched;
    }

-- The loop over the pods that the object selected before.
unfoldable pub drop_old : Key → KeySet → PodVisit → PodVisit
drop_old obj [] v = v
drop_old obj (pod ∷ pods) v = drop_old obj pods (
    if member pod v.matched then v else (record v {
      pod_index = forget pod obj v.pod_index;
      updated_pods = add pod v.updated_pods;
    }))

-- The loop of `DeleteSelectorObj`.
unfoldable pub forget_all :
    Key → KeySet → KeyMap PodIndexState × KeySet → KeyMap PodIndexState × KeySet
forget_all obj [] (m, updated) = (m, updated)
forget_all obj (pod ∷ pods) (m, updated) =
    forget_all obj pods
      (elim (lookup pod m) [ none ↦ (m, updated) | some st ↦ (forget pod obj m, add pod updated) ])

unfoldable pub subset : KeySet → KeySet → Bool
subset [] t = true
subset (k ∷ s) t = member k t && subset s t

-- `reflect.DeepEqual` on sets: a nil map is not equal to an empty one.
unfoldable pub same_keys : Option KeySet → KeySet → Bool
same_keys none t = false
same_keys (some s) t = subset s t && subset t s

-- The callbacks of `ListAllByNamespace`, for the pods that it lists.
unfoldable pub visit_pods : {Labels : Type 0} → Key → List (Pod Labels) → PodVisit → PodVisit
visit_pods obj [] v = v
visit_pods obj (pod ∷ pods) v =
    visit_pods obj pods (elim pod.key [ none ↦ v | some key ↦ visit_pod obj key v ])

module _ {Selector Labels : Type 0} (list_pods : Key → Selector → List (Pod Labels)) where
  unfoldable pub visit_ns : Key → Key → List Selector → PodVisit → PodVisit
  visit_ns obj ns [] v = v
  visit_ns obj ns (s ∷ ss) v = visit_ns obj ns ss (visit_pods obj (list_pods ns s) v)

  unfoldable pub visit_namespaces : Key → KeyMap (List Selector) → PodVisit → PodVisit
  visit_namespaces obj [] v = v
  visit_namespaces obj ((ns, ss) ∷ rest) v = visit_namespaces obj rest (visit_ns obj ns ss v)

  -- The new index, the pods for which `updatePod` is called, and whether the object has changed.
  unfoldable pub update_selector_obj_for_ns :
      Key
      → KeyMap (List Selector)
      → PodSelectorIndex Selector
      → PodSelectorIndex Selector × KeySet × Bool
  update_selector_obj_for_ns obj nss i =
      let start : PodVisit = record { pod_index = i.pod_index; updated_pods = []; matched = [] } in
      let found = visit_namespaces obj nss start in
      let kept = drop_old obj (keys_at obj i.obj_pod_index) found in
      let same = same_keys (lookup obj i.obj_pod_index) found.matched in
      (
        record {
          pod_index = kept.pod_index;
          obj_pod_index =
              (if same then i.obj_pod_index else insert obj found.matched i.obj_pod_index);
          obj_ns_index = insert obj nss i.obj_ns_index;
        },
        kept.updated_pods,
        not same,
      )

-- The new index, and the pods for which `updatePod` is called.
unfoldable pub delete_selector_obj :
    {Selector : Type 0} → Key → PodSelectorIndex Selector → PodSelectorIndex Selector × KeySet
delete_selector_obj obj i =
    let (pods, updated) = forget_all obj (keys_at obj i.obj_pod_index) (i.pod_index, []) in
    (
      record {
        pod_index = pods;
        obj_pod_index = delete obj i.obj_pod_index;
        obj_ns_index = delete obj i.obj_ns_index;
      },
      updated,
    )

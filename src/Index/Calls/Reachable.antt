-- ===== src/Index/Calls/Reachable.antt =====
-- What holds after any sequence of operations of pkg/index/pod_selector_index.go, and which calls an
-- operation makes.
use z_presplit_aci_container.Base.{
  ◌≡◌, refl, false, List, [], ◌∷◌, none, some, Bool-cases, Option-cases, inl, inr,
}
use z_presplit_aci_container.Base.Maps.{Key, KeyMap, member, lookup}
use z_presplit_aci_container.Index.{PodSelectorIndex, get_obj_for_pod, get_pod_for_obj}
use z_presplit_aci_container.Index.Agree.{Agrees}
use z_presplit_aci_container.Index.Pods.{delete_pod-Agrees, update_pod_no_callback-Agrees}
use z_presplit_aci_container.Index.Objects.{update_selector_obj-Agrees, delete_selector_obj-Agrees}
use z_presplit_aci_container.Index.Calls.{
  SelectorObj, Callbacks, get_obj_namespaces, NsUpdate, Stores, update_selector_obj_no_callback,
  visit_obj, visit_all, Operation, update_pod, remove_pod, update_obj, remove_obj, update_namespace,
  perform, perform_all, new_pod_selector_index,
}

module _ {Selector Labels : Type 0} (stores : Stores Selector Labels) where
  update_obj-Agrees :
      (obj : SelectorObj Selector) (i : PodSelectorIndex Selector)
      → Agrees i
      → Agrees (update_selector_obj_no_callback stores obj i).0
  unfolding update_selector_obj_no_callback get_obj_namespaces
  update_obj-Agrees obj i w = elim (Option-cases obj.key) [
    | inl h ↦ rw h w
    | inr (key, h) ↦ rw h (
        update_selector_obj-Agrees stores.list_pods key
          (get_obj_namespaces stores.list_namespaces obj) i w)
  ]

  visit_obj-Agrees :
      (key : Key) (nss : KeyMap (List Selector)) (u : NsUpdate Selector)
      → Agrees u.index
      → Agrees (visit_obj stores key nss u).index
  unfolding visit_obj
  visit_obj-Agrees key nss u w =
      elim (Bool-cases (elim (lookup key u.index.obj_ns_index) [
        | none ↦ false
        | some old ↦ stores.same_namespaces nss old
      ])) [
        | inl h ↦ rw h w
        | inr h ↦ rw h (update_selector_obj-Agrees stores.list_pods key nss u.index w)
      ]

  visit_all-Agrees :
      (objs : List (SelectorObj Selector)) (u : NsUpdate Selector)
      → Agrees u.index
      → Agrees (visit_all stores objs u).index
  unfolding visit_all
  visit_all-Agrees [] u w = w
  visit_all-Agrees (obj ∷ objs) u w = elim (Option-cases obj.key) [
    | inl h ↦ rw (h, visit_all) (visit_all-Agrees objs u w)
    | inr (key, h) ↦
        let v = visit_obj stores key (get_obj_namespaces stores.list_namespaces obj) u in
        rw (h, visit_all)
          (visit_all-Agrees objs v
            (visit_obj-Agrees key (get_obj_namespaces stores.list_namespaces obj) u w))
  ]

  module _ (callbacks : Callbacks) where
    perform-Agrees :
        (o : Operation Selector Labels) (i : PodSelectorIndex Selector)
        → Agrees i
        → Agrees (perform stores callbacks o i).0
    unfolding perform
    perform-Agrees (update_pod pod) i w =
        update_pod_no_callback-Agrees stores.matches stores.pod_hash_func pod i w
    perform-Agrees (remove_pod pod) i w = delete_pod-Agrees pod i w
    perform-Agrees (update_obj obj) i w = update_obj-Agrees obj i w
    perform-Agrees (remove_obj obj) i w = elim (Option-cases obj.key) [
      | inl h ↦ rw h w
      | inr (key, h) ↦ rw h (delete_selector_obj-Agrees key i w)
    ]
    perform-Agrees (update_namespace objs) i w = visit_all-Agrees objs _ w

    pub perform_all-Agrees :
        (os : List (Operation Selector Labels)) (i : PodSelectorIndex Selector)
        → Agrees i
        → Agrees (perform_all stores callbacks os i)
    unfolding perform_all
    perform_all-Agrees [] i w = w
    perform_all-Agrees (o ∷ os) i w = perform_all-Agrees os _ (perform-Agrees o i w)

    pub new-Agrees : Agrees {Selector = Selector} new_pod_selector_index
    unfolding Agrees new_pod_selector_index lookup member
    new-Agrees j p = refl

    -- After any sequence of UpdatePod, DeletePod, UpdateSelectorObj, DeleteSelectorObj and
    -- UpdateNamespace on a new index, whatever the stores list and the selectors match, an object
    -- has a pod in objPodIndex exactly when the pod has the object in podIndex.
    pub reachable-agree :
        (os : List (Operation Selector Labels)) (obj pod : Key)
        → member pod (get_pod_for_obj obj (perform_all stores callbacks os new_pod_selector_index))
          ≡ member obj
              (get_obj_for_pod pod (perform_all stores callbacks os new_pod_selector_index))
    unfolding Agrees get_obj_for_pod get_pod_for_obj new_pod_selector_index lookup member
    reachable-agree os obj pod = perform_all-Agrees os new_pod_selector_index new-Agrees obj pod

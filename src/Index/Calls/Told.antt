-- ===== src/Index/Calls/Told.antt =====
-- The callbacks of pkg/index/pod_selector_index.go: whose sets have changed is told.
use z_presplit_aci_container.Base.{
  ◌≡◌, ◌≢◌, refl, ap, Bool, true, false, ◌||◌, List, [], ◌∷◌, ◌++◌, none, some, arith, Bool-cases,
  Option-cases, inl, inr,
}
use z_presplit_aci_container.Base.Maps.{Key, KeySet, same_key, member, same_key_iff}
use z_presplit_aci_container.Index.{
  Pod, PodSelectorIndex, get_obj_for_pod, get_pod_for_obj, update_pod_no_callback,
}
use z_presplit_aci_container.Index.Selecting.{update_selector_obj_for_ns}
use z_presplit_aci_container.Index.Agree.{Agrees}
use z_presplit_aci_container.Index.Pods.{update_pod_no_callback-IsPodUpdated, update-keyless}
use z_presplit_aci_container.Index.Objects.{update_selector_obj-IsObjUpdated}
use z_presplit_aci_container.Index.Calls.{
  SelectorObj, Callbacks, Call, pod_call, obj_call, get_obj_namespaces, Stores,
  update_selector_obj_no_callback, update_objs, update_pods, update_pod, update_obj, perform,
}

unfoldable pub is_obj_call : Key → Call → Bool
is_obj_call k (pod_call j) = false
is_obj_call k (obj_call j) = same_key k j

unfoldable pub is_pod_call : Key → Call → Bool
is_pod_call k (pod_call j) = same_key k j
is_pod_call k (obj_call j) = false

unfoldable pub any_call : (Call → Bool) → List Call → Bool
any_call f [] = false
any_call f (c ∷ cs) = f c || any_call f cs

any_call-append :
    (f : Call → Bool) (cs ds : List Call) → any_call f cs ≡ true → any_call f (cs ++ ds) ≡ true
unfolding any_call
any_call-append f [] ds h = ground (arith, h)
any_call-append f (c ∷ cs) ds h = ground (arith, h, any_call-append f cs ds)

any_call-update_objs :
    (callbacks : Callbacks) (s : KeySet) (k : Key)
    → callbacks.update_obj ≡ true
    → member k s ≡ true
    → any_call (is_obj_call k) (update_objs callbacks s) ≡ true
unfolding any_call update_objs is_obj_call member
any_call-update_objs callbacks [] k h m = ground (arith, m)
any_call-update_objs callbacks (j ∷ s) k h m =
    ground (arith, h, m, any_call-update_objs callbacks s k)

any_call-update_pods :
    (callbacks : Callbacks) (s : KeySet) (k : Key)
    → callbacks.update_pod ≡ true
    → member k s ≡ true
    → any_call (is_pod_call k) (update_pods callbacks s) ≡ true
unfolding any_call update_pods is_pod_call member
any_call-update_pods callbacks [] k h m = ground (arith, m)
any_call-update_pods callbacks (j ∷ s) k h m =
    ground (arith, h, m, any_call-update_pods callbacks s k)

Agrees-row :
    {Selector : Type 0} (i : PodSelectorIndex Selector)
    → Agrees i
    → (obj p : Key) → member p (get_pod_for_obj obj i) ≡ member obj (get_obj_for_pod p i)
unfolding Agrees get_obj_for_pod get_pod_for_obj
Agrees-row i w obj p = w obj p

module _ {Selector Labels : Type 0} (stores : Stores Selector Labels) where
  update_obj-keyless :
      (o : SelectorObj Selector) (i : PodSelectorIndex Selector)
      → o.key ≡ none
      → (update_selector_obj_no_callback stores o i).0 ≡ i
  unfolding update_selector_obj_no_callback
  update_obj-keyless o i h = rw h refl

  update_obj-keyed :
      (o : SelectorObj Selector) (i : PodSelectorIndex Selector) (key : Key)
      → o.key ≡ some key
      → update_selector_obj_no_callback stores o i
        ≡ update_selector_obj_for_ns stores.list_pods key
            (get_obj_namespaces stores.list_namespaces o)
            i
  unfolding update_selector_obj_no_callback get_obj_namespaces
  update_obj-keyed o i key h = rw h refl

module _ {Selector Labels : Type 0} (stores : Stores Selector Labels) (callbacks : Callbacks) where
  -- Where the two maps agree and the callback for objects is set, UpdatePod calls it for every
  -- object whose set of pods it changes.
  pub update_pod-tells :
      (pod : Pod Labels) (i : PodSelectorIndex Selector) (p obj : Key)
      → Agrees i
      → callbacks.update_obj ≡ true
      → member p (get_pod_for_obj obj (perform stores callbacks (update_pod pod) i).0)
        ≢ member p (get_pod_for_obj obj i)
      → any_call (is_obj_call obj) (perform stores callbacks (update_pod pod) i).1 ≡ true
  unfolding perform
  update_pod-tells pod i p obj w c d = elim (Option-cases pod.key) [
    | inl h ↦ absurd (
        d (
          ap (λ j. member p (get_pod_for_obj obj j))
            (update-keyless stores.matches stores.pod_hash_func pod i h)))
    | inr (key, h) ↦
        let u =
          update_pod_no_callback-IsPodUpdated stores.matches stores.pod_hash_func pod key i h w in
        let updated = (update_pod_no_callback stores.matches stores.pod_hash_func pod i).2 in
        any_call-append (is_obj_call obj) _ _ (
          any_call-update_objs callbacks updated obj c (elim (Bool-cases (member obj updated)) [
            | inl t ↦ t
            | inr t ↦ absurd (
                d (
                  ground (
                    arith,
                    u.pods obj p,
                    u.told obj,
                    t,
                    Agrees-row i w obj key,
                    same_key_iff p key,
                  )))
          ]))
  ]

  -- Where the two maps agree and the callback for pods is set, UpdateSelectorObj calls it for
  -- every pod whose set of objects it changes.
  pub update_obj-tells :
      (o : SelectorObj Selector) (i : PodSelectorIndex Selector) (p obj : Key)
      → Agrees i
      → callbacks.update_pod ≡ true
      → member obj (get_obj_for_pod p (perform stores callbacks (update_obj o) i).0)
        ≢ member obj (get_obj_for_pod p i)
      → any_call (is_pod_call p) (perform stores callbacks (update_obj o) i).1 ≡ true
  unfolding perform
  update_obj-tells o i p obj w c d = elim (Option-cases o.key) [
    | inl h ↦ absurd (d (rw (update_obj-keyless stores o i h) refl))
    | inr (key, h) ↦
        let nss = get_obj_namespaces stores.list_namespaces o in
        let u = update_selector_obj-IsObjUpdated stores.list_pods key nss i w in
        any_call-append (is_pod_call p) _ _ (
          any_call-update_pods callbacks (update_selector_obj_no_callback stores o i).1 p c (
            rw (update_obj-keyed stores o i key h)
              (elim (Bool-cases
                (member p (update_selector_obj_for_ns stores.list_pods key nss i).1)) [
                  | inl t ↦ t
                  | inr t ↦ absurd (
                      d (
                        rw (update_obj-keyed stores o i key h) (
                          ground (
                            arith,
                            u.objs p obj,
                            u.reported p,
                            t,
                            Agrees-row i w obj p,
                            same_key_iff obj key,
                          ))))
                ])))
  ]

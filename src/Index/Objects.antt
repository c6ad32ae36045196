-- ===== src/Index/Objects.antt =====
-- `updateSelectorObjForNs` and `DeleteSelectorObj` of pkg/index/pod_selector_index.go: the two maps
-- stay in agreement, and the object's row of them is the pods that its selectors list.
use mathlib.Core.Bool.{not}
use z_presplit_aci_container.Base.{
  ◌≡◌, Bool, true, false, List, [], ◌∷◌, Option, none, some, if◌then◌else◌, arith, Bool-cases, inl,
  inr,
}
use z_presplit_aci_container.Base.Maps.{Key, KeySet, KeyMap, same_key, member, lookup, same_key_iff}
use z_presplit_aci_container.Index.{
  Pod, PodSelectorIndex, keys_at, get_obj_for_pod, get_pod_for_obj,
}
use z_presplit_aci_container.Index.Selecting.{
  PodVisit, drop_old, subset, same_keys, visit_namespaces, update_selector_obj_for_ns,
  delete_selector_obj,
}
use z_presplit_aci_container.Index.Links.{links, links-insert, links-delete}
use z_presplit_aci_container.Index.Drops.{
  IsOldDropped, drop_old-IsOldDropped, forget_all-IsForgotten,
}
use z_presplit_aci_container.Index.Selects.{lists_pod, IsPodVisit, visit_namespaces-IsPodVisit}
use z_presplit_aci_container.Index.Agree.{Agrees}

-- What an operation on the object `obj` leaves of an index, and the pods that it reports, where the
-- pods of the object are to be those of the test `f`.
pub record IsObjUpdated {Selector : Type 0} (obj : Key) (f : Key → Bool)
    (i i' : PodSelectorIndex Selector) (updated : KeySet) : Type 0 where
  pub objs :
      (p j : Key)
      → member j (get_obj_for_pod p i')
        ≡ (if same_key j obj then f p else member j (get_obj_for_pod p i))
  pub pods :
      (j p : Key)
      → member p (get_pod_for_obj j i')
        ≡ (if same_key j obj then f p else member p (get_pod_for_obj j i))
  pub reported :
      (p : Key) → member p updated ≡ (if member p (get_pod_for_obj obj i) then not (f p) else f p)

subset-member : (s t : KeySet) (j : Key) → subset s t ≡ true → member j s ≡ true → member j t ≡ true
unfolding subset member
subset-member [] t j h m = ground arith
subset-member (k ∷ s) t j h m = ground (arith, subset-member s t j, same_key_iff j k)

same_keys-member :
    (o : Option KeySet) (t : KeySet) (p : Key)
    → same_keys o t ≡ true
    → member p (elim o [ none ↦ [] | some s ↦ s ]) ≡ member p t
unfolding same_keys
same_keys-member none t p h = ground (arith, h)
same_keys-member (some s) t p h = ground (arith, h, subset-member s t p, subset-member t s p)

module _ {Selector Labels : Type 0} (list_pods : Key → Selector → List (Pod Labels)) (obj : Key)
    (nss : KeyMap (List Selector)) (i : PodSelectorIndex Selector) where
  start : PodVisit
  start = record { pod_index = i.pod_index; updated_pods = []; matched = [] }

  found : PodVisit
  found = visit_namespaces list_pods obj nss start

  kept : PodVisit
  kept = drop_old obj (keys_at obj i.obj_pod_index) found

  found-IsPodVisit : IsPodVisit obj (lists_pod list_pods nss) start found
  unfolding found
  found-IsPodVisit = visit_namespaces-IsPodVisit obj list_pods nss start

  kept-IsOldDropped : IsOldDropped obj (keys_at obj i.obj_pod_index) found kept
  unfolding kept
  kept-IsOldDropped = drop_old-IsOldDropped obj (keys_at obj i.obj_pod_index) found

  matched-found : (p : Key) → member p found.matched ≡ lists_pod list_pods nss p
  unfolding start member
  matched-found p = found-IsPodVisit.matched p

  links-update :
      (j p : Key)
      → links (update_selector_obj_for_ns list_pods obj nss i).0.obj_pod_index j p
        ≡ (if same_key j obj then lists_pod list_pods nss p else links i.obj_pod_index j p)
  unfolding update_selector_obj_for_ns found start
  links-update j p = elim (Bool-cases (same_keys (lookup obj i.obj_pod_index) found.matched)) [
    | inl h ↦ rw h (
        ground (
          arith,
          matched-found p,
          same_keys-member (lookup obj i.obj_pod_index) found.matched p h,
          same_key_iff j obj,
        ))
    | inr h ↦
        rw h (ground (arith, matched-found p, links-insert i.obj_pod_index obj found.matched j p))
  ]

  -- Where the two maps agree, updateSelectorObjForNs leaves, in both maps, the object with exactly
  -- the pods that the store lists for its namespaces and selectors; the entries of the other
  -- objects stay as they were, and the pods reported are exactly those whose link to the object
  -- changes.
  pub update_selector_obj-IsObjUpdated :
      Agrees i
      → IsObjUpdated obj
          (lists_pod list_pods nss)
          i
          (update_selector_obj_for_ns list_pods obj nss i).0
          (update_selector_obj_for_ns list_pods obj nss i).1
  unfolding update_selector_obj_for_ns get_obj_for_pod get_pod_for_obj Agrees kept found start
      member
  update_selector_obj-IsObjUpdated w = record {
    objs = λ p j. ground (
      arith,
      kept-IsOldDropped.picked p j,
      found-IsPodVisit.picked p j,
      matched-found p,
      w j p,
      same_key_iff j obj,
    );
    pods = links-update;
    reported = λ p. ground (
      arith,
      kept-IsOldDropped.reported p,
      found-IsPodVisit.reported p,
      matched-found p,
      w obj p,
    );
  }

  pub update_selector_obj-Agrees :
      Agrees i → Agrees (update_selector_obj_for_ns list_pods obj nss i).0
  unfolding Agrees get_obj_for_pod get_pod_for_obj
  update_selector_obj-Agrees w =
      let u = update_selector_obj-IsObjUpdated w in
      λ j p. ground (arith, u.objs p j, u.pods j p, w j p)

module _ {Selector : Type 0} (obj : Key) (i : PodSelectorIndex Selector) where
  -- Where the two maps agree, DeleteSelectorObj leaves the object with no pod in both maps, the
  -- entries of the other objects as they were, and reports exactly the pods that it had.
  pub delete_selector_obj-IsObjUpdated :
      Agrees i
      → IsObjUpdated obj (λ p. false) i (delete_selector_obj obj i).0 (delete_selector_obj obj i).1
  unfolding delete_selector_obj get_obj_for_pod get_pod_for_obj Agrees member
  delete_selector_obj-IsObjUpdated w =
      let ih = forget_all-IsForgotten obj (keys_at obj i.obj_pod_index) i.pod_index [] in
      record {
        objs = λ p j. ground (arith, ih.picked p j, w obj p, same_key_iff j obj);
        pods = λ j p. links-delete i.obj_pod_index obj j p;
        reported = λ p. ground (arith, ih.sound p, ih.complete p, w obj p);
      }

  pub delete_selector_obj-Agrees : Agrees i → Agrees (delete_selector_obj obj i).0
  unfolding Agrees get_obj_for_pod get_pod_for_obj
  delete_selector_obj-Agrees w =
      let u = delete_selector_obj-IsObjUpdated w in
      λ j p. ground (arith, u.objs p j, u.pods j p, w j p)

-- ===== src/Index/Selects.antt =====
-- Which objects select a pod, and which pods an object selects, as tests with no loop variables; the
-- loops of pkg/index/pod_selector_index.go collect just these.
use mathlib.Core.Bool.{not}
use z_presplit_aci_container.Base.{
  ◌≡◌, Bool, false, ◌&&◌, ◌||◌, List, [], ◌∷◌, none, some, arith, Bool-cases, Option-cases, inl,
  inr,
}
use z_presplit_aci_container.Base.Maps.{Key, KeyMap, same_key, member, lookup, same_key_refl}
use z_presplit_aci_container.Index.{Pod, Visit, visit_match, visit_selectors, visit_objs}
use z_presplit_aci_container.Index.Selecting.{
  PodVisit, visit_pod, visit_pods, visit_ns, visit_namespaces,
}
use z_presplit_aci_container.Index.Links.{
  picks, matched-visit_match, picks-visit_pod, matched-visit_pod, updated-visit_pod,
}

module _ {Selector Labels : Type 0} (matches : Selector → Labels → Bool) where
  unfoldable pub any_matches : List Selector → Labels → Bool
  any_matches [] labels = false
  any_matches (s ∷ ss) labels = matches s labels || any_matches ss labels

  -- `obj` has a selector for the pod's namespace that matches its labels.
  unfoldable pub selects : KeyMap (KeyMap (List Selector)) → Pod Labels → Key → Bool
  selects [] pod j = false
  selects ((obj, nss) ∷ rest) pod j =
      (same_key j obj
        && (elim (lookup pod.namespace nss) [ none ↦ false | some ss ↦ any_matches ss pod.labels ]))
      || selects rest pod j

  matched-visit_selectors :
      (obj key : Key) (labels : Labels) (ss : List Selector) (v : Visit) (j : Key)
      → member j (visit_selectors matches obj key labels ss v).matched
        ≡ (member j v.matched || (same_key j obj && any_matches ss labels))
  unfolding visit_selectors any_matches
  matched-visit_selectors obj key labels [] v j = ground arith
  matched-visit_selectors obj key labels (s ∷ ss) v j = elim (Bool-cases (matches s labels)) [
    | inl h ↦
        rw (h, visit_selectors)
          (ground (
            arith,
            matched-visit_selectors obj key labels ss (visit_match obj key v) j,
            matched-visit_match obj key v j,
            h,
          ))
    | inr h ↦ rw (h, visit_selectors) (matched-visit_selectors obj key labels ss v j)
  ]

  pub matched-visit_objs :
      (key : Key) (pod : Pod Labels) (nss : KeyMap (KeyMap (List Selector))) (v : Visit) (j : Key)
      → member j (visit_objs matches key pod nss v).matched
        ≡ (member j v.matched || selects nss pod j)
  unfolding visit_objs selects
  matched-visit_objs key pod [] v j = ground arith
  matched-visit_objs key pod ((obj, nss) ∷ rest) v j =
      elim (Option-cases (lookup pod.namespace nss)) [
        | inl h ↦ rw h (ground (arith, matched-visit_objs key pod rest v j))
        | inr (ss, h) ↦ rw h (
            ground (
              arith,
              matched-visit_objs key pod rest (visit_selectors matches obj key pod.labels ss v) j,
              matched-visit_selectors obj key pod.labels ss v j,
            ))
      ]

unfoldable pub is_key : {Labels : Type 0} → Key → Pod Labels → Bool
is_key j pod = elim pod.key [ none ↦ false | some k ↦ same_key j k ]

unfoldable pub any_key : {Labels : Type 0} → Key → List (Pod Labels) → Bool
any_key j [] = false
any_key j (pod ∷ pods) = is_key j pod || any_key j pods

module _ {Selector Labels : Type 0} (list_pods : Key → Selector → List (Pod Labels)) where
  unfoldable pub any_lists : Key → List Selector → Key → Bool
  any_lists ns [] j = false
  any_lists ns (s ∷ ss) j = any_key j (list_pods ns s) || any_lists ns ss j

  -- A selector of one of the namespaces lists the pod `j` there.
  unfoldable pub lists_pod : KeyMap (List Selector) → Key → Bool
  lists_pod [] j = false
  lists_pod ((ns, ss) ∷ rest) j = any_lists ns ss j || lists_pod rest j

-- The visits for `obj` that went from `v` to `w` have matched the pods of the test `f`, linked them,
-- and reported those that were not linked.
pub record IsPodVisit (obj : Key) (f : Key → Bool) (v w : PodVisit) : Type 0 where
  pub matched : (j : Key) → member j w.matched ≡ (member j v.matched || f j)
  pub picked :
      (j u : Key) → picks w.pod_index j u ≡ (picks v.pod_index j u || (same_key u obj && f j))
  pub reported :
      (j : Key)
      → member j w.updated_pods
        ≡ (member j v.updated_pods || (f j && not (picks v.pod_index j obj)))

module _ (obj : Key) where
  IsPodVisit-trans :
      (f g : Key → Bool) (u v w : PodVisit)
      → IsPodVisit obj f u v
      → IsPodVisit obj g v w
      → IsPodVisit obj (λ j. f j || g j) u w
  IsPodVisit-trans f g u v w a b = record {
    matched = λ j. ground (arith, a.matched j, b.matched j);
    picked = λ j k. ground (arith, a.picked j k, b.picked j k);
    reported = λ j. ground (arith, a.reported j, b.reported j, a.picked j obj, same_key_refl obj);
  }

  IsPodVisit-refl : (v : PodVisit) → IsPodVisit obj (λ j. false) v v
  IsPodVisit-refl v = record {
    matched = λ j. ground arith;
    picked = λ j k. ground arith;
    reported = λ j. ground arith;
  }

  visit_pod-IsPodVisit :
      (pod : Key) (v : PodVisit) → IsPodVisit obj (λ j. same_key j pod) v (visit_pod obj pod v)
  visit_pod-IsPodVisit pod v = record {
    matched = λ j. ground (arith, matched-visit_pod obj pod v j);
    picked = λ j k. ground (arith, picks-visit_pod obj pod v j k);
    reported = λ j. updated-visit_pod obj pod v j;
  }

  visit_pods-IsPodVisit :
      {Labels : Type 0} (pods : List (Pod Labels)) (v : PodVisit)
      → IsPodVisit obj (λ j. any_key j pods) v (visit_pods obj pods v)
  unfolding visit_pods any_key is_key
  visit_pods-IsPodVisit [] v = IsPodVisit-refl v
  visit_pods-IsPodVisit (pod ∷ pods) v = elim (Option-cases pod.key) [
    | inl h ↦ rw h (visit_pods-IsPodVisit pods v)
    | inr (k, h) ↦ rw h (
        IsPodVisit-trans (λ j. same_key j k) (λ j. any_key j pods) v _ _ (visit_pod-IsPodVisit k v)
          (visit_pods-IsPodVisit pods (visit_pod obj k v)))
  ]

  module _ {Selector Labels : Type 0} (list_pods : Key → Selector → List (Pod Labels)) where
    visit_ns-IsPodVisit :
        (ns : Key) (ss : List Selector) (v : PodVisit)
        → IsPodVisit obj (any_lists list_pods ns ss) v (visit_ns list_pods obj ns ss v)
    unfolding visit_ns any_lists
    visit_ns-IsPodVisit ns [] v = IsPodVisit-refl v
    visit_ns-IsPodVisit ns (s ∷ ss) v =
        IsPodVisit-trans (λ j. any_key j (list_pods ns s)) (any_lists list_pods ns ss) v _ _
          (visit_pods-IsPodVisit (list_pods ns s) v) (visit_ns-IsPodVisit ns ss _)

    pub visit_namespaces-IsPodVisit :
        (nss : KeyMap (List Selector)) (v : PodVisit)
        → IsPodVisit obj (lists_pod list_pods nss) v (visit_namespaces list_pods obj nss v)
    unfolding visit_namespaces lists_pod
    visit_namespaces-IsPodVisit [] v = IsPodVisit-refl v
    visit_namespaces-IsPodVisit ((ns, ss) ∷ rest) v =
        IsPodVisit-trans (any_lists list_pods ns ss) (lists_pod list_pods rest) v _ _
          (visit_ns-IsPodVisit ns ss v) (visit_namespaces-IsPodVisit rest _)

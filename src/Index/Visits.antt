-- ===== src/Index/Visits.antt =====
-- The loops of pkg/index/pod_selector_index.go: what a run of visits has linked and reported.
use mathlib.Core.Bool.{not}
use z_presplit_aci_container.Base.{
  ◌≡◌, Bool, ◌&&◌, ◌||◌, List, [], ◌∷◌, arith, Bool-cases, Option-cases, inl, inr,
}
use z_presplit_aci_container.Base.Maps.{
  Key, KeySet, KeyMap, same_key, member, is_empty, lookup, same_key_iff, same_key_refl,
}
use z_presplit_aci_container.Index.{Pod, Visit, visit_match, visit_selectors, visit_objs}
use z_presplit_aci_container.Index.Links.{
  links, links-visit_match, matched-visit_match, updated-visit_match, pod_updated-visit_match,
}

-- The visits for `pod` that started from the links `m` have added the matched objects, and have
-- reported those that were not linked.
pub record IsVisit (m : KeyMap KeySet) (pod : Key) (v : Visit) : Type 0 where
  pub linked :
      (j u : Key)
      → links v.obj_pod_index j u ≡ (links m j u || (same_key u pod && member j v.matched))
  pub reported : (j : Key) → member j v.updated_objs ≡ (member j v.matched && not (links m j pod))
  pub flag : v.pod_updated ≡ not (is_empty v.updated_objs)

module _ (m : KeyMap KeySet) (pod : Key) where
  pub visit_match-IsVisit :
      (obj : Key) (v : Visit) → IsVisit m pod v → IsVisit m pod (visit_match obj pod v)
  visit_match-IsVisit obj v w = record {
    linked = λ j u.
        ground
          (arith, links-visit_match obj pod v j u, matched-visit_match obj pod v j, w.linked j u);
    reported = λ j. ground (
      arith,
      updated-visit_match obj pod v j,
      matched-visit_match obj pod v j,
      w.reported j,
      w.linked j pod,
      same_key_iff j obj,
      same_key_refl pod,
    );
    flag = pod_updated-visit_match obj pod v w.flag;
  }

module _ {Selector Labels : Type 0} (matches : Selector → Labels → Bool) (m : KeyMap KeySet)
    (key : Key) (pod : Pod Labels) where
  pub visit_selectors-IsVisit :
      (obj : Key) (ss : List Selector) (v : Visit)
      → IsVisit m key v
      → IsVisit m key (visit_selectors matches obj key pod.labels ss v)
  unfolding visit_selectors
  visit_selectors-IsVisit obj [] v w = w
  visit_selectors-IsVisit obj (s ∷ ss) v w =
      visit_selectors-IsVisit obj ss _ (elim (Bool-cases (matches s pod.labels)) [
        | inl h ↦ rw h (visit_match-IsVisit m key obj v w)
        | inr h ↦ rw h w
      ])

  pub visit_objs-IsVisit :
      (nss : KeyMap (KeyMap (List Selector))) (v : Visit)
      → IsVisit m key v
      → IsVisit m key (visit_objs matches key pod nss v)
  unfolding visit_objs
  visit_objs-IsVisit [] v w = w
  visit_objs-IsVisit ((obj, nss) ∷ rest) v w =
      visit_objs-IsVisit rest _ (elim (Option-cases (lookup pod.namespace nss)) [
        | inl h ↦ rw h w
        | inr (ss, h) ↦ rw h (visit_selectors-IsVisit obj ss v w)
      ])

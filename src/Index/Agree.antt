-- ===== src/Index/Agree.antt =====
-- The two maps of pkg/index/pod_selector_index.go through `UpdatePod` and `DeletePod`.
use mathlib.Core.Bool.{not}
use z_presplit_aci_container.Base.{
  ◌≡◌, refl, Bool, true, false, ◌&&◌, ◌||◌, [], ◌∷◌, if◌then◌else◌, arith, Bool-cases, inl, inr,
  ◌↔◌,
}
use z_presplit_aci_container.Base.Maps.{
  Key, KeySet, same_key, member, is_empty, same_key_iff, same_key_refl, member-add, add,
}
use z_presplit_aci_container.Index.{
  Pod, PodSelectorIndex, Visit, state_at, drop_stale, visit_objs, update_locked, add_all,
}
use z_presplit_aci_container.Index.Links.{links, picks, picks-insert, is_empty-member}
use z_presplit_aci_container.Index.Visits.{IsVisit, visit_objs-IsVisit}
use z_presplit_aci_container.Index.Drops.{IsStaleDropped, drop_stale-IsStaleDropped}
use z_presplit_aci_container.Index.Selects.{selects, matched-visit_objs}

-- An object has a pod in `objPodIndex` exactly when the pod has the object in `podIndex`.
unfoldable pub Agrees : {Selector : Type 0} → PodSelectorIndex Selector → Type 0
Agrees i = (obj pod : Key) → links i.obj_pod_index obj pod ≡ picks i.pod_index pod obj

member-is_empty : (s : KeySet) → ((j : Key) → member j s ≡ false) → is_empty s ≡ true
unfolding is_empty member
member-is_empty [] h = refl
member-is_empty (k ∷ s) h = ground (arith, h k, same_key_refl k)

member-add_all : (j : Key) (ks s : KeySet) → member j (add_all ks s) ≡ (member j ks || member j s)
unfolding add_all member
member-add_all j [] s = refl
member-add_all j (k ∷ ks) s = ground (arith, member-add_all j ks (add k s), member-add j k s)

module _ {Selector Labels : Type 0} (matches : Selector → Labels → Bool) (key hash : Key)
    (pod : Pod Labels) (i : PodSelectorIndex Selector) where
  start : Visit
  start = record {
    obj_pod_index = i.obj_pod_index;
    pod_updated = false;
    updated_objs = [];
    matched = [];
  }

  found : Visit
  found = visit_objs matches key pod i.obj_ns_index start

  kept : Visit
  kept = drop_stale key (state_at key i.pod_index).obj_keys found

  found-IsVisit : IsVisit i.obj_pod_index key found
  unfolding found start member is_empty
  found-IsVisit =
      visit_objs-IsVisit matches i.obj_pod_index key pod i.obj_ns_index start
        (record { linked = λ j u. ground arith; reported = λ j. ground arith; flag = refl })

  matched-found : (j : Key) → member j found.matched ≡ selects matches i.obj_ns_index pod j
  unfolding found start member
  matched-found j = matched-visit_objs matches key pod i.obj_ns_index start j

  kept-IsStaleDropped : IsStaleDropped key (state_at key i.pod_index).obj_keys found kept
  unfolding kept
  kept-IsStaleDropped = drop_stale-IsStaleDropped key (state_at key i.pod_index).obj_keys found

  pub picks-update_locked :
      (j u : Key)
      → picks (update_locked matches key hash pod i).0.pod_index u j
        ≡ (if same_key u key then selects matches i.obj_ns_index pod j else picks i.pod_index u j)
  unfolding update_locked found start
  picks-update_locked j u = ground (
    arith,
    picks-insert i.pod_index key (record { obj_keys = found.matched; pod_hash = hash }) u j,
    matched-found j,
  )

  pub links-update_locked :
      Agrees i
      → (j u : Key)
      → links (update_locked matches key hash pod i).0.obj_pod_index j u ≡ (
          if same_key u key
          then selects matches i.obj_ns_index pod j
          else links i.obj_pod_index j u)
  unfolding update_locked Agrees kept found start
  links-update_locked w j u = ground (
    arith,
    kept-IsStaleDropped.linked j u,
    found-IsVisit.linked j u,
    matched-found j,
    w j u,
    same_key_iff u key,
  )

  -- Up to the hash, the objects that are told are those whose link to the pod has changed.
  reported-kept :
      Agrees i
      → (j : Key)
      → member j kept.updated_objs ≡ (
          if links i.obj_pod_index j key
          then not (selects matches i.obj_ns_index pod j)
          else selects matches i.obj_ns_index pod j)
  unfolding Agrees
  reported-kept w j =
      ground
        (arith, kept-IsStaleDropped.reported j, found-IsVisit.reported j, matched-found j, w j key)

  pub updated-update_locked :
      Agrees i
      → (j : Key)
      → member j (update_locked matches key hash pod i).2 ≡ (
          (if links i.obj_pod_index j key
            then not (selects matches i.obj_ns_index pod j)
            else selects matches i.obj_ns_index pod j)
          || (not (same_key hash (state_at key i.pod_index).pod_hash)
              && selects matches i.obj_ns_index pod j))
  unfolding update_locked kept found start
  updated-update_locked w j =
      elim (Bool-cases (same_key hash (state_at key i.pod_index).pod_hash)) [
        | inl h ↦ rw h (ground (arith, reported-kept w j))
        | inr h ↦ rw h (
            ground (
              arith,
              reported-kept w j,
              member-add_all j found.matched kept.updated_objs,
              matched-found j,
            ))
      ]

  pub update_locked-Agrees : Agrees i → Agrees (update_locked matches key hash pod i).0
  unfolding Agrees
  update_locked-Agrees w j u =
      ground (arith, links-update_locked w j u, picks-update_locked j u, w j u)

  flag-kept : kept.pod_updated ≡ not (is_empty kept.updated_objs)
  flag-kept = kept-IsStaleDropped.flag found-IsVisit.flag

  -- Where the two maps agree, the result of UpdatePodNoCallback, for a pod with a key that is not
  -- kept out, is false exactly if the objects that select the pod are those that it had.
  pub result-update_locked :
      Agrees i
      → (update_locked matches key hash pod i).1 ≡ false
        ↔ ((j : Key) → selects matches i.obj_ns_index pod j ≡ picks i.pod_index key j)
  unfolding update_locked kept found start Agrees
  result-update_locked w = (
    λ h j.
        ground
          (arith, flag-kept, h, is_empty-member j kept.updated_objs, reported-kept w j, w j key),
    λ h. ground (
      arith,
      flag-kept,
      member-is_empty kept.updated_objs (λ j. ground (arith, reported-kept w j, w j key, h j)),
    ),
  )

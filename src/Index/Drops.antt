-- ===== src/Index/Drops.antt =====
-- The loops of pkg/index/pod_selector_index.go that take links away.
use mathlib.Core.Bool.{not}
use z_presplit_aci_container.Base.{
  ◌≡◌, true, ◌&&◌, ◌||◌, [], ◌∷◌, arith, Bool-cases, Option-cases, inl, inr,
}
use z_presplit_aci_container.Base.Maps.{
  Key, KeySet, KeyMap, same_key, member, add, is_empty, lookup, same_key_iff, member-add,
}
use z_presplit_aci_container.Index.{PodIndexState, unlink, forget, Visit, drop_stale, drop_links}
use z_presplit_aci_container.Index.Selecting.{PodVisit, drop_old, forget_all}
use z_presplit_aci_container.Index.Links.{links, picks, links-unlink, picks-forget, is_empty-add}

-- What the loop over `ks` does to a visit.
pub record IsStaleDropped (pod : Key) (ks : KeySet) (v w : Visit) : Type 0 where
  pub linked :
      (j u : Key)
      → links w.obj_pod_index j u ≡ (
          links v.obj_pod_index j u
          && not (same_key u pod && (member j ks && not (member j v.matched))))
  pub reported :
      (j : Key)
      → member j w.updated_objs
        ≡ (member j v.updated_objs || (member j ks && not (member j v.matched)))
  pub flag :
      v.pod_updated ≡ not (is_empty v.updated_objs) → w.pod_updated ≡ not (is_empty w.updated_objs)

pub drop_stale-IsStaleDropped :
    (pod : Key) (ks : KeySet) (v : Visit) → IsStaleDropped pod ks v (drop_stale pod ks v)
unfolding drop_stale member
drop_stale-IsStaleDropped pod [] v = record {
  linked = λ j u. ground arith;
  reported = λ j. ground arith;
  flag = λ h. h;
}
drop_stale-IsStaleDropped pod (k ∷ ks) v = elim (Bool-cases (member k v.matched)) [
  | inl h ↦
      let ih = drop_stale-IsStaleDropped pod ks v in
      rw h (record {
        linked = λ j u. ground (arith, ih.linked j u, h, same_key_iff j k);
        reported = λ j. ground (arith, ih.reported j, h, same_key_iff j k);
        flag = ih.flag;
      })
  | inr h ↦
      let next : Visit = record v {
        obj_pod_index = unlink k pod v.obj_pod_index;
        pod_updated = true;
        updated_objs = add k v.updated_objs;
      } in
      let ih = drop_stale-IsStaleDropped pod ks next in
      rw h (record {
        linked = λ j u.
            ground
              (arith, ih.linked j u, h, same_key_iff j k, links-unlink v.obj_pod_index k pod j u);
        reported =
            λ j. ground (arith, ih.reported j, h, same_key_iff j k, member-add j k v.updated_objs);
        flag = λ f. ih.flag (ground (arith, is_empty-add k v.updated_objs));
      })
]

-- What the loop of `DeletePod` leaves, and reports.
pub record IsUnlinked (pod : Key) (ks : KeySet) (m : KeyMap KeySet) (s : KeySet)
    (m' : KeyMap KeySet) (s' : KeySet) : Type 0 where
  pub linked : (j u : Key) → links m' j u ≡ (links m j u && not (same_key u pod && member j ks))
  pub kept : (j : Key) → member j s ≡ true → member j s' ≡ true
  pub sound : (j : Key) → member j s' ≡ true → (member j s || member j ks) ≡ true
  pub complete : (j : Key) → member j ks ≡ true → links m j pod ≡ true → member j s' ≡ true

pub drop_links-IsUnlinked :
    (pod : Key) (ks : KeySet) (m : KeyMap KeySet) (s : KeySet)
    → IsUnlinked pod ks m s (drop_links pod ks (m, s)).0 (drop_links pod ks (m, s)).1
unfolding drop_links member
drop_links-IsUnlinked pod [] m s = record {
  linked = λ j u. ground arith;
  kept = λ j h. h;
  sound = λ j h. ground arith;
  complete = λ j h l. ground arith;
}
drop_links-IsUnlinked pod (k ∷ ks) m s = elim (Option-cases (lookup k m)) [
  | inl h ↦
      let ih = drop_links-IsUnlinked pod ks m s in
      rw (h, drop_links)
        (record {
          linked = λ j u. ground (arith, ih.linked j u, h, same_key_iff j k);
          kept = ih.kept;
          sound = λ j g. ground (arith, ih.sound j g);
          complete = λ j g l. ground (arith, ih.complete j, h, same_key_iff j k);
        })
  | inr (t, h) ↦
      let ih = drop_links-IsUnlinked pod ks (unlink k pod m) (add k s) in
      rw (h, drop_links)
        (record {
          linked = λ j u. ground (arith, ih.linked j u, links-unlink m k pod j u);
          kept = λ j g. ih.kept j (ground (arith, member-add j k s));
          sound = λ j g. ground (arith, ih.sound j g, member-add j k s);
          complete = λ j g l.
              ground
                (arith, ih.complete j, ih.kept j, member-add j k s, links-unlink m k pod j pod);
        })
]

-- What the loop over `ks` does to the visit of the pods of `obj`.
pub record IsOldDropped (obj : Key) (ks : KeySet) (v w : PodVisit) : Type 0 where
  pub picked :
      (j u : Key)
      → picks w.pod_index j u ≡ (
          picks v.pod_index j u
          && not (same_key u obj && (member j ks && not (member j v.matched))))
  pub reported :
      (j : Key)
      → member j w.updated_pods
        ≡ (member j v.updated_pods || (member j ks && not (member j v.matched)))

pub drop_old-IsOldDropped :
    (obj : Key) (ks : KeySet) (v : PodVisit) → IsOldDropped obj ks v (drop_old obj ks v)
unfolding drop_old member
drop_old-IsOldDropped obj [] v = record {
  picked = λ j u. ground arith;
  reported = λ j. ground arith;
}
drop_old-IsOldDropped obj (k ∷ ks) v = elim (Bool-cases (member k v.matched)) [
  | inl h ↦
      let ih = drop_old-IsOldDropped obj ks v in
      rw h (record {
        picked = λ j u. ground (arith, ih.picked j u, h, same_key_iff j k);
        reported = λ j. ground (arith, ih.reported j, h, same_key_iff j k);
      })
  | inr h ↦
      let ih =
        drop_old-IsOldDropped obj ks (record v {
          pod_index = forget k obj v.pod_index;
          updated_pods = add k v.updated_pods;
        }) in
      rw h (record {
        picked = λ j u.
            ground (arith, ih.picked j u, h, same_key_iff j k, picks-forget v.pod_index k obj j u);
        reported =
            λ j. ground (arith, ih.reported j, h, same_key_iff j k, member-add j k v.updated_pods);
      })
]

-- What the loop of `DeleteSelectorObj` leaves, and reports.
pub record IsForgotten (obj : Key) (ks : KeySet) (m : KeyMap PodIndexState) (s : KeySet)
    (m' : KeyMap PodIndexState) (s' : KeySet) : Type 0 where
  pub picked : (j u : Key) → picks m' j u ≡ (picks m j u && not (same_key u obj && member j ks))
  pub kept : (j : Key) → member j s ≡ true → member j s' ≡ true
  pub sound : (j : Key) → member j s' ≡ true → (member j s || member j ks) ≡ true
  pub complete : (j : Key) → member j ks ≡ true → picks m j obj ≡ true → member j s' ≡ true

pub forget_all-IsForgotten :
    (obj : Key) (ks : KeySet) (m : KeyMap PodIndexState) (s : KeySet)
    → IsForgotten obj ks m s (forget_all obj ks (m, s)).0 (forget_all obj ks (m, s)).1
unfolding forget_all member
forget_all-IsForgotten obj [] m s = record {
  picked = λ j u. ground arith;
  kept = λ j h. h;
  sound = λ j h. ground arith;
  complete = λ j h l. ground arith;
}
forget_all-IsForgotten obj (k ∷ ks) m s = elim (Option-cases (lookup k m)) [
  | inl h ↦
      let ih = forget_all-IsForgotten obj ks m s in
      rw (h, forget_all)
        (record {
          picked = λ j u. ground (arith, ih.picked j u, h, same_key_iff j k);
          kept = ih.kept;
          sound = λ j g. ground (arith, ih.sound j g);
          complete = λ j g l. ground (arith, ih.complete j, h, same_key_iff j k);
        })
  | inr (t, h) ↦
      let ih = forget_all-IsForgotten obj ks (forget k obj m) (add k s) in
      rw (h, forget_all)
        (record {
          picked = λ j u. ground (arith, ih.picked j u, picks-forget m k obj j u);
          kept = λ j g. ih.kept j (ground (arith, member-add j k s));
          sound = λ j g. ground (arith, ih.sound j g, member-add j k s);
          complete = λ j g l.
              ground
                (arith, ih.complete j, ih.kept j, member-add j k s, picks-forget m k obj j obj);
        })
]

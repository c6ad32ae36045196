-- ===== src/Index/Links.antt =====
-- The links between objects and pods in the two maps of pkg/index/pod_selector_index.go, through
-- the steps that change them.
use mathlib.Core.Bool.{not}
use z_presplit_aci_container.Base.{
  ◌≡◌, refl, Bool, true, false, ◌&&◌, ◌||◌, [], ◌∷◌, if◌then◌else◌, arith, Bool-cases, Option-cases,
  inl, inr,
}
use z_presplit_aci_container.Base.Maps.{
  Key, KeySet, KeyMap, same_key, member, add, remove, is_empty, lookup, insert, delete,
  same_key_iff, member-add, member-remove, lookup-insert, lookup-delete,
}
use z_presplit_aci_container.Index.{
  PodIndexState, keys_at, state_at, unlink, forget, Visit, visit_match,
}
use z_presplit_aci_container.Index.Selecting.{PodVisit, visit_pod}

-- `v` stands in the set of `k`.
abbrev pub links : KeyMap KeySet → Key → Key → Bool
links m k v = member v (keys_at k m)

-- `obj` stands among the objects of `pod`.
abbrev pub picks : KeyMap PodIndexState → Key → Key → Bool
picks m pod obj = member obj (state_at pod m).obj_keys

pub is_empty-member : (k : Key) (s : KeySet) → is_empty s ≡ true → member k s ≡ false
unfolding is_empty member
is_empty-member k [] h = refl
is_empty-member k (j ∷ s) h = cc

pub is_empty-add : (k : Key) (s : KeySet) → is_empty (add k s) ≡ false
unfolding is_empty add member
is_empty-add k [] = refl
is_empty-add k (j ∷ s) = ground arith

pub links-insert :
    (m : KeyMap KeySet) (k : Key) (s : KeySet) (j v : Key)
    → links (insert k s m) j v ≡ (if same_key j k then member v s else links m j v)
links-insert m k s j v = ground (arith, lookup-insert j k s m)

pub links-delete :
    (m : KeyMap KeySet) (k j v : Key)
    → links (delete k m) j v ≡ (if same_key j k then false else links m j v)
unfolding member
links-delete m k j v = ground (arith, lookup-delete j k m)

pub links-unlink :
    (m : KeyMap KeySet) (k v j u : Key)
    → links (unlink k v m) j u ≡ (links m j u && not (same_key j k && same_key u v))
unfolding unlink member
links-unlink m k v j u = elim (Option-cases (lookup k m)) [
  | inl h ↦ ground (arith, h, same_key_iff j k)
  | inr (s, h) ↦ elim (Bool-cases (is_empty (remove v s))) [
    | inl e ↦ ground (
      arith,
      h,
      e,
      links-delete m k j u,
      member-remove u v s,
      is_empty-member u (remove v s) e,
      same_key_iff j k,
    )
    | inr e ↦
        ground
          (arith, h, e, links-insert m k (remove v s) j u, member-remove u v s, same_key_iff j k)
  ]
]

pub links-visit_match :
    (obj pod : Key) (v : Visit) (j u : Key)
    → links (visit_match obj pod v).obj_pod_index j u
      ≡ (links v.obj_pod_index j u || (same_key j obj && same_key u pod))
unfolding visit_match
links-visit_match obj pod v j u = elim (Bool-cases (member pod (keys_at obj v.obj_pod_index))) [
  | inl h ↦ ground (arith, h, same_key_iff j obj, same_key_iff u pod)
  | inr h ↦ ground (
    arith,
    h,
    links-insert v.obj_pod_index obj (add pod (keys_at obj v.obj_pod_index)) j u,
    member-add u pod (keys_at obj v.obj_pod_index),
    same_key_iff j obj,
  )
]

pub picks-insert :
    (m : KeyMap PodIndexState) (k : Key) (st : PodIndexState) (pod obj : Key)
    → picks (insert k st m) pod obj
      ≡ (if same_key pod k then member obj st.obj_keys else picks m pod obj)
picks-insert m k st pod obj = ground (arith, lookup-insert pod k st m)

pub picks-delete :
    (m : KeyMap PodIndexState) (k pod obj : Key)
    → picks (delete k m) pod obj ≡ (if same_key pod k then false else picks m pod obj)
unfolding member
picks-delete m k pod obj = ground (arith, lookup-delete pod k m)

pub picks-forget :
    (m : KeyMap PodIndexState) (k o pod obj : Key)
    → picks (forget k o m) pod obj ≡ (picks m pod obj && not (same_key pod k && same_key obj o))
unfolding forget member
picks-forget m k o pod obj = elim (Option-cases (lookup k m)) [
  | inl h ↦ ground (arith, h, same_key_iff pod k)
  | inr (s, h) ↦ elim (Bool-cases (is_empty (remove o s.obj_keys))) [
    | inl e ↦ ground (
      arith,
      h,
      e,
      picks-delete m k pod obj,
      member-remove obj o s.obj_keys,
      is_empty-member obj (remove o s.obj_keys) e,
      same_key_iff pod k,
    )
    | inr e ↦ ground (
      arith,
      h,
      e,
      picks-insert m k (record s { obj_keys = remove o s.obj_keys }) pod obj,
      member-remove obj o s.obj_keys,
      same_key_iff pod k,
    )
  ]
]

pub picks-visit_pod :
    (obj pod : Key) (v : PodVisit) (j u : Key)
    → picks (visit_pod obj pod v).pod_index j u
      ≡ (picks v.pod_index j u || (same_key j pod && same_key u obj))
unfolding visit_pod
picks-visit_pod obj pod v j u =
    let state = state_at pod v.pod_index in
    elim (Bool-cases (member obj state.obj_keys)) [
      | inl h ↦ ground (arith, h, same_key_iff j pod, same_key_iff u obj)
      | inr h ↦ ground (
        arith,
        h,
        picks-insert v.pod_index pod (record state { obj_keys = add obj state.obj_keys }) j u,
        member-add u obj state.obj_keys,
        same_key_iff j pod,
      )
    ]

module _ (obj pod : Key) (v : Visit) where
  pub matched-visit_match :
      (j : Key) → member j (visit_match obj pod v).matched ≡ (same_key j obj || member j v.matched)
  unfolding visit_match
  matched-visit_match j = member-add j obj v.matched

  -- A visit reports a change exactly when it makes the link.
  pub updated-visit_match :
      (j : Key)
      → member j (visit_match obj pod v).updated_objs
        ≡ (member j v.updated_objs || (same_key j obj && not (links v.obj_pod_index j pod)))
  unfolding visit_match
  updated-visit_match j = elim (Bool-cases (member pod (keys_at obj v.obj_pod_index))) [
    | inl h ↦ ground (arith, h, same_key_iff j obj)
    | inr h ↦ ground (arith, h, member-add j obj v.updated_objs, same_key_iff j obj)
  ]

  pub pod_updated-visit_match :
      v.pod_updated ≡ not (is_empty v.updated_objs)
      → (visit_match obj pod v).pod_updated ≡ not (is_empty (visit_match obj pod v).updated_objs)
  unfolding visit_match
  pod_updated-visit_match w = elim (Bool-cases (member pod (keys_at obj v.obj_pod_index))) [
    | inl h ↦ ground (arith, h, w)
    | inr h ↦ ground (arith, h, is_empty-add obj v.updated_objs)
  ]

module _ (obj pod : Key) (v : PodVisit) where
  pub matched-visit_pod :
      (j : Key) → member j (visit_pod obj pod v).matched ≡ (same_key j pod || member j v.matched)
  unfolding visit_pod
  matched-visit_pod j = member-add j pod v.matched

  pub updated-visit_pod :
      (j : Key)
      → member j (visit_pod obj pod v).updated_pods
        ≡ (member j v.updated_pods || (same_key j pod && not (picks v.pod_index j obj)))
  unfolding visit_pod
  updated-visit_pod j = elim (Bool-cases (member obj (state_at pod v.pod_index).obj_keys)) [
    | inl h ↦ ground (arith, h, same_key_iff j pod)
    | inr h ↦ ground (arith, h, member-add j pod v.updated_pods, same_key_iff j pod)
  ]

-- ===== src/Index/Calls/Namespaces.antt =====
-- `getObjNamespaces` of pkg/index/pod_selector_index.go against the meaning of the selectors.
use z_presplit_aci_container.Base.{
  ◌≡◌, Bool, false, ◌&&◌, ◌||◌, List, [], ◌∷◌, ◌++◌, none, some, arith, Option-cases, inl, inr,
}
use z_presplit_aci_container.Base.Maps.{
  Key, KeyMap, same_key, member, lookup, same_key_iff, lookup-insert,
}
use z_presplit_aci_container.Index.{PodSelector}
use z_presplit_aci_container.Index.Selects.{any_matches}
use z_presplit_aci_container.Index.Calls.{
  SelectorObj, append_at, append_each, add_selector, add_selectors, get_obj_namespaces,
}

module _ {Selector Labels : Type 0} (matches : Selector → Labels → Bool)
    (list_namespaces : Selector → List Key) where
  -- The namespace is the one named, or is listed by the selector of namespaces.
  unfoldable pub in_scope : PodSelector Selector → Key → Bool
  in_scope selector ns =
      (elim selector.namespace [ none ↦ false | some name ↦ same_key ns name ])
      || (elim selector.ns_selector [ none ↦ false | some s ↦ member ns (list_namespaces s) ])

  unfoldable pub any_selects : List (PodSelector Selector) → Key → Labels → Bool
  any_selects [] ns labels = false
  any_selects (selector ∷ selectors) ns labels =
      (in_scope selector ns && matches selector.pod_selector labels)
      || any_selects selectors ns labels

  -- One of the selectors kept for the namespace matches.
  abbrev pub matches_at : KeyMap (List Selector) → Key → Labels → Bool
  matches_at m ns labels = elim (lookup ns m) [
    | none ↦ false
    | some ss ↦ any_matches matches ss labels
  ]

  any_matches-append :
      (s : Selector) (ss : List Selector) (labels : Labels)
      → any_matches matches (ss ++ (s ∷ [])) labels
        ≡ (any_matches matches ss labels || matches s labels)
  unfolding any_matches
  any_matches-append s [] labels = ground arith
  any_matches-append s (t ∷ ss) labels = ground (arith, any_matches-append s ss labels)

  matches_at-append_at :
      (name : Key) (s : Selector) (m : KeyMap (List Selector)) (ns : Key) (labels : Labels)
      → matches_at (append_at name s m) ns labels
        ≡ (matches_at m ns labels || (same_key ns name && matches s labels))
  unfolding append_at any_matches
  matches_at-append_at name s m ns labels = elim (Option-cases (lookup name m)) [
    | inl h ↦ ground (
      arith,
      h,
      lookup-insert ns name (s ∷ []) m,
      any_matches-append s [] labels,
      same_key_iff ns name,
    )
    | inr (ss, h) ↦ ground (
      arith,
      h,
      lookup-insert ns name (ss ++ (s ∷ [])) m,
      any_matches-append s ss labels,
      same_key_iff ns name,
    )
  ]

  matches_at-append_each :
      (names : List Key) (s : Selector) (m : KeyMap (List Selector)) (ns : Key) (labels : Labels)
      → matches_at (append_each names s m) ns labels
        ≡ (matches_at m ns labels || (member ns names && matches s labels))
  unfolding append_each member
  matches_at-append_each [] s m ns labels = ground arith
  matches_at-append_each (name ∷ names) s m ns labels = ground (
    arith,
    matches_at-append_each names s (append_at name s m) ns labels,
    matches_at-append_at name s m ns labels,
  )

  matches_at-add_selector :
      (selector : PodSelector Selector) (m : KeyMap (List Selector)) (ns : Key) (labels : Labels)
      → matches_at (add_selector list_namespaces selector m) ns labels
        ≡ (matches_at m ns labels || (in_scope selector ns && matches selector.pod_selector labels))
  unfolding add_selector in_scope
  matches_at-add_selector selector m ns labels = elim (Option-cases selector.namespace) [
    | inl h ↦ elim (Option-cases selector.ns_selector) [
      | inl g ↦ ground (arith, h, g)
      | inr (s, g) ↦ ground (
        arith,
        h,
        g,
        matches_at-append_each (list_namespaces s) selector.pod_selector m ns labels,
      )
    ]
    | inr (name, h) ↦
        let p = selector.pod_selector in
        elim (Option-cases selector.ns_selector) [
          | inl g ↦ ground (arith, h, g, matches_at-append_at name p m ns labels)
          | inr (s, g) ↦ ground (
            arith,
            h,
            g,
            matches_at-append_each (list_namespaces s) p (append_at name p m) ns labels,
            matches_at-append_at name p m ns labels,
          )
        ]
  ]

  matches_at-add_selectors :
      (selectors : List (PodSelector Selector)) (m : KeyMap (List Selector)) (ns : Key)
      (labels : Labels)
      → matches_at (add_selectors list_namespaces selectors m) ns labels
        ≡ (matches_at m ns labels || any_selects selectors ns labels)
  unfolding add_selectors any_selects
  matches_at-add_selectors [] m ns labels = ground arith
  matches_at-add_selectors (selector ∷ selectors) m ns labels = ground (
    arith,
    matches_at-add_selectors selectors (add_selector list_namespaces selector m) ns labels,
    matches_at-add_selector selector m ns labels,
  )

  -- A selector that getObjNamespaces keeps for a namespace matches some labels exactly if one of
  -- the selectors of the object names the namespace, or lists it through its selector of
  -- namespaces, and matches the labels.
  pub get_obj_namespaces-match :
      (obj : SelectorObj Selector) (ns : Key) (labels : Labels)
      → matches_at (get_obj_namespaces list_namespaces obj) ns labels
        ≡ any_selects obj.selectors ns labels
  unfolding get_obj_namespaces lookup
  get_obj_namespaces-match obj ns labels = matches_at-add_selectors obj.selectors [] ns labels

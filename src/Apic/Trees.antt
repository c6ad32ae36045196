-- ===== src/Apic/Trees.antt =====
-- `apicObjCmp` of pkg/apicapi/apic_sync.go against the equality of trees.
use Prim.Native.Nat.{Ordering}
use mathlib.Core.Bool.{not}
use z_presplit_aci_container.Base.{
  ◌≡◌, refl, ap, ap₂, ◌∙◌, Bool, true, false, ◌&&◌, ◌||◌, List, [], ◌∷◌, ◌++◌, arith, Bool-cases,
  Option-cases, Ordering-cases, inl, inr,
}
use z_presplit_aci_container.Base.Strings.{compare_refl}
use z_presplit_aci_container.Base.Maps.{
  Key, KeySet, KeyMap, same_key, member, lookup, same_key_refl,
}
use z_presplit_aci_container.Apic.{
  Value, str, other, same_value, ApicObject, ApicSlice, object, nothing, ◌⨾◌, get_dn,
  cmp_apic_object, attr_or, same_attrs, Metadata, apic_body_attr_cmp, apic_cnt_cmp, apic_obj_cmp,
  children_cmp, diff_pair, Diff, note, diff_apic_state,
}

unfoldable pub is_eq : Ordering → Bool
is_eq Ordering.lt = false
is_eq Ordering.eq = true
is_eq Ordering.gt = false

-- Nothing to write and nothing to delete.
unfoldable pub is_quiet : Bool × List Key → Bool
is_quiet (update, []) = not update
is_quiet (update, k ∷ ks) = false

is_quiet-append :
    (a b : Bool) (ks ls : List Key)
    → is_quiet (a || b, ks ++ ls) ≡ (is_quiet (a, ks) && is_quiet (b, ls))
unfolding is_quiet
is_quiet-append a b [] [] = ground arith
is_quiet-append a b [] (l ∷ ls) = ground arith
is_quiet-append a b (k ∷ ks) ls = ground arith

is_quiet-or : (a u : Bool) (ks : List Key) → is_quiet (not a || u, ks) ≡ (a && is_quiet (u, ks))
unfolding is_quiet
is_quiet-or a u [] = ground arith
is_quiet-or a u (k ∷ ks) = ground arith

is_quiet-busy : (ks : List Key) → is_quiet (true, ks) ≡ false
unfolding is_quiet
is_quiet-busy [] = refl
is_quiet-busy (k ∷ ks) = refl

module _ (metadata : Metadata) (c d : ApicObject) (cs ds : ApicSlice) where
  -- What `children_cmp` does for an answer of the comparison.
  abbrev children_case : Ordering → Bool × List Key
  children_case o = elim o [
    | Ordering.lt ↦
        ((children_cmp metadata cs (d ⨾ ds)).0, get_dn c ∷ (children_cmp metadata cs (d ⨾ ds)).1)
    | Ordering.eq ↦ (
      (apic_obj_cmp metadata c d).0 || (children_cmp metadata cs ds).0,
      (apic_obj_cmp metadata c d).1 ++ (children_cmp metadata cs ds).1,
    )
    | Ordering.gt ↦ (true, (children_cmp metadata (c ⨾ cs) ds).1)
  ]

  children_cmp-case :
      {o : Ordering}
      → cmp_apic_object c d ≡ o
      → children_cmp metadata (c ⨾ cs) (d ⨾ ds) ≡ children_case o
  unfolding children_cmp
  children_cmp-case h = ap children_case h

  -- What `diff_apic_state` does for an answer of the comparison.
  abbrev pub diff_case : KeySet → Ordering → Diff
  diff_case containers o = elim o [
    | Ordering.lt ↦ note (false, get_dn c ∷ []) c (diff_apic_state metadata containers cs (d ⨾ ds))
    | Ordering.gt ↦ note (true, []) d (diff_apic_state metadata containers (c ⨾ cs) ds)
    | Ordering.eq ↦
        note (diff_pair metadata containers c d) d (diff_apic_state metadata containers cs ds)
  ]

  pub diff_apic_state-case :
      (containers : KeySet) {o : Ordering}
      → cmp_apic_object c d ≡ o
      → diff_apic_state metadata containers (c ⨾ cs) (d ⨾ ds) ≡ diff_case containers o
  unfolding diff_apic_state
  diff_apic_state-case containers h = ap (diff_case containers) h

module _ (metadata : Metadata) where
  unfoldable mutual
    -- The trees agree in the attributes of their classes, and in names. Objects of two classes are
    -- not compared.
    pub same_tree : ApicObject → ApicObject → Bool
    same_tree (object classc attrc cs) (object classd attrd ds) =
        not (same_key classc classd)
        || (apic_body_attr_cmp metadata classc attrc attrd && same_trees cs ds)

    pub same_trees : ApicSlice → ApicSlice → Bool
    same_trees nothing nothing = true
    same_trees nothing (d ⨾ ds) = false
    same_trees (c ⨾ cs) nothing = false
    same_trees (c ⨾ cs) (d ⨾ ds) =
        is_eq (cmp_apic_object c d) && (same_tree c d && same_trees cs ds)

  mutual
    unfolding apic_obj_cmp children_cmp same_tree same_trees is_quiet is_eq

    obj_cmp-tree : (c d : ApicObject) → is_quiet (apic_obj_cmp metadata c d) ≡ same_tree c d
    obj_cmp-tree (object classc attrc cs) (object classd attrd ds) =
        elim (Bool-cases (same_key classc classd)) [
          | inl h ↦
              let p = children_cmp metadata cs ds in
              rw h (
                is_quiet-or (apic_body_attr_cmp metadata classc attrc attrd) p.0 p.1
                ∙ ap (λ b. apic_body_attr_cmp metadata classc attrc attrd && b)
                    (children_cmp-same_trees cs ds))
          | inr h ↦ rw h refl
        ]

    children_cmp-same_trees :
        (cs ds : ApicSlice) → is_quiet (children_cmp metadata cs ds) ≡ same_trees cs ds
    children_cmp-same_trees nothing nothing = refl
    children_cmp-same_trees nothing (d ⨾ ds) = refl
    children_cmp-same_trees (c ⨾ cs) nothing = refl
    children_cmp-same_trees (c ⨾ cs) (d ⨾ ds) = elim (Ordering-cases (cmp_apic_object c d)) [
      | inl h ↦ rw (children_cmp-case metadata c d cs ds h, h) refl
      | inr (inl h) ↦
          let p = apic_obj_cmp metadata c d in
          let q = children_cmp metadata cs ds in
          rw (children_cmp-case metadata c d cs ds h, h)
            (is_quiet-append p.0 q.0 p.1 q.1
              ∙ ap₂ (λ a b. a && b) (obj_cmp-tree c d) (children_cmp-same_trees cs ds))
      | inr (inr h) ↦
          rw (children_cmp-case metadata c d cs ds h, h)
            (is_quiet-busy (children_cmp metadata (c ⨾ cs) ds).1)
    ]

  -- apicObjCmp has nothing to write and nothing to delete exactly if `same_tree` holds.
  pub apic_obj_cmp-same_tree :
      (c d : ApicObject) → is_quiet (apic_obj_cmp metadata c d) ≡ same_tree c d
  apic_obj_cmp-same_tree c d = obj_cmp-tree c d

pub same_value_refl : (v : Value) → same_value v v ≡ true
unfolding same_value
same_value_refl (str s) = same_key_refl s
same_value_refl (other s) = same_key_refl s

pub cmp_refl : (o : ApicObject) → cmp_apic_object o o ≡ Ordering.eq
unfolding cmp_apic_object
cmp_refl o = compare_refl (get_dn o)

same_attrs_refl : (meta attrs : KeyMap Value) → same_attrs meta attrs attrs ≡ true
unfolding same_attrs
same_attrs_refl [] attrs = refl
same_attrs_refl ((p, default) ∷ meta) attrs =
    ground (arith, same_value_refl (attr_or default p attrs), same_attrs_refl meta attrs)

module _ (metadata : Metadata) where
  attr_cmp_refl :
      (class : Key) (attrs : KeyMap Value) → apic_body_attr_cmp metadata class attrs attrs ≡ true
  unfolding apic_body_attr_cmp
  attr_cmp_refl class attrs = elim (Option-cases (lookup class metadata)) [
    | inl h ↦ rw (h, apic_body_attr_cmp) refl
    | inr (meta, h) ↦
        rw (h, apic_body_attr_cmp)
          (ground (
            arith,
            same_attrs_refl meta attrs,
            same_value_refl (attr_or (str "") "annotation" attrs),
          ))
  ]

  cnt_cmp_refl : (o : ApicObject) → apic_cnt_cmp metadata o o ≡ true
  unfolding apic_cnt_cmp
  cnt_cmp_refl (object class attrs cs) =
      ground (arith, same_key_refl class, attr_cmp_refl class attrs)

  mutual
    unfolding apic_obj_cmp children_cmp

    obj_cmp_refl : (o : ApicObject) → apic_obj_cmp metadata o o ≡ (false, [])
    obj_cmp_refl (object class attrs cs) =
        rw (same_key_refl class, attr_cmp_refl class attrs, children_cmp_refl cs) refl

    children_cmp_refl : (cs : ApicSlice) → children_cmp metadata cs cs ≡ (false, [])
    children_cmp_refl nothing = refl
    children_cmp_refl (c ⨾ cs) =
        rw (children_cmp-case metadata c c cs cs (cmp_refl c), obj_cmp_refl c, children_cmp_refl cs)
          refl

  pub diff_pair_refl :
      (containers : KeySet) (o : ApicObject) → diff_pair metadata containers o o ≡ (false, [])
  unfolding diff_pair
  diff_pair_refl containers o = elim (Bool-cases (member (get_dn o) containers)) [
    | inl h ↦ rw (h, cnt_cmp_refl o) refl
    | inr h ↦ rw h (obj_cmp_refl o)
  ]

  -- diffApicState of any state and itself has nothing to write and nothing to delete, whatever
  -- objects are containers.
  pub diff_apic_state_refl :
      (containers : KeySet) (s : ApicSlice) → diff_apic_state metadata containers s s ≡ ([], [])
  unfolding diff_apic_state
  diff_apic_state_refl containers nothing = refl
  diff_apic_state_refl containers (o ⨾ s) =
      rw
        (
          diff_apic_state-case metadata o o s s containers (cmp_refl o),
          diff_pair_refl containers o,
          diff_apic_state_refl containers s,
        )
        refl

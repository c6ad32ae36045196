-- ===== src/Apic/Tags/Prepared.antt =====
-- What `prepareApicSliceTag` of pkg/apicapi/apic_sync.go makes of objects.
use z_presplit_aci_container.Base.{
  ℕ, zero, suc, ◌≤◌, ◌≡◌, ◌∙◌, refl, sym, ap, subst, Bool, true, false, some, arith, Bool-cases,
  inl, inr, if◌then◌else◌,
}
use z_presplit_aci_container.Base.Maps.{Key, KeyMap, same_key, lookup, insert, lookup-insert}
use z_presplit_aci_container.Apic.{
  Value, str, ApicObject, ApicSlice, object, nothing, ◌⨾◌, Metadata, children_of,
}
use z_presplit_aci_container.Apic.Sync.{sort_slice}
use z_presplit_aci_container.Apic.Tags.{
  is_tag, set_tag, own, map_slice, rounds, rounds_below, prepare_object, prepare_rounds,
  prepare_apic_slice_tag,
}
use z_presplit_aci_container.Apic.Tags.Rounds.{rounds-own, rounds-sort_slice}
use z_presplit_aci_container.Apic.Tags.Specified.{
  tag_class, IsPrepared, tag_prepared, object_prepared, EachPrepared, none_prepared, next_prepared,
  AllPrepared, all_prepared,
}
use z_presplit_aci_container.Apic.Tags.Arranged.{count-sort_slice, sort_slice-Rising}
use z_presplit_aci_container.Apic.Tags.Retagged.{set_tag-children}

module _ (metadata : Metadata) (normalizer : Key → KeyMap Value → KeyMap Value) (inst : Bool)
    (tag : Key) where
  own-tag :
      (class : Key) (a : KeyMap Value) (s : ApicSlice)
      → tag_class class ≡ true
      → own metadata normalizer inst tag (object class a s) ≡ object class a s
  unfolding own set_tag is_tag
  own-tag class a s h = rw h refl

  abbrev annotated : KeyMap Value → KeyMap Value
  annotated a =
      if inst then a else insert "annotation" (str "orchestrator:aci-containers-controller") a

  own-object :
      (class : Key) (a : KeyMap Value) (s : ApicSlice)
      → tag_class class ≡ false
      → own metadata normalizer inst tag (object class a s)
        ≡ object class (annotated a) (children_of (set_tag metadata inst tag (object class a s)))
  unfolding own set_tag is_tag
  own-object class a s h = rw h refl

  some_rounds : (o : ApicObject) (s : ApicSlice) → rounds (o ⨾ s) ≤ 0 → ⊥
  unfolding rounds
  some_rounds o s h = let p = rounds-own metadata normalizer inst tag o in omega (arith, p, h)

  annotated-others :
      (a : KeyMap Value) (k : Key)
      → same_key k "annotation" ≡ false
      → lookup k (annotated a) ≡ lookup k a
  annotated-others a k h = elim (Bool-cases inst) [
    | inl e ↦ rw e refl
    | inr e ↦ rw e (
        lookup-insert k "annotation" (str "orchestrator:aci-containers-controller") a
        ∙ ap (λ b. if b then some (str "orchestrator:aci-containers-controller") else lookup k a) h)
  ]

  annotated-annotation :
      (a : KeyMap Value)
      → lookup "annotation" (annotated a) ≡ (
          if inst
          then lookup "annotation" a
          else some (str "orchestrator:aci-containers-controller"))
  unfolding same_key
  annotated-annotation a = elim (Bool-cases inst) [
    | inl e ↦ rw e refl
    | inr e ↦
        rw e
          (lookup-insert "annotation" "annotation" (str "orchestrator:aci-containers-controller") a)
  ]

  module _ (below : ApicSlice → ApicSlice) (n : ℕ)
      (prepares : (s : ApicSlice)
        → rounds s ≤ n
        → AllPrepared normalizer inst tag s (below s)) where
    finished : ApicObject → ApicObject
    finished p = elim p [ object c a s ↦ object c (normalizer c a) (below s) ]

    prepare_object-IsPrepared :
        (o : ApicObject)
        → rounds_below o ≤ suc n
        → IsPrepared normalizer inst tag o (prepare_object metadata normalizer inst tag below o)
    unfolding prepare_object finished
    prepare_object-IsPrepared (object class a s) h =
        let o = object class a s in
        let less = rounds-own metadata normalizer inst tag o in
        let left =
          λ (u : ApicSlice) (p : ApicObject) (e : own metadata normalizer inst tag o ≡ p)
              (f : children_of p ≡ u).
            (let k : rounds (children_of (own metadata normalizer inst tag o)) ≡ rounds u =
                ap rounds (ap children_of e ∙ f) in
              let r : rounds u ≤ n = omega (arith, k, less, h) in r) in
        elim (Bool-cases (tag_class class)) [
          | inl e ↦
              let same = own-tag class a s e in
              subst (λ p. IsPrepared normalizer inst tag o (finished p)) (sym same)
                (tag_prepared class a s (below s) e (prepares s (left s o same refl)))
          | inr e ↦
              let same = own-object class a s e in
              let u = children_of (set_tag metadata inst tag o) in
              let kept = set_tag-children metadata inst tag class a s in
              subst (λ p. IsPrepared normalizer inst tag o (finished p)) (sym same)
                (object_prepared class a (annotated a) s u (below u) e (annotated-others a)
                  (annotated-annotation a) kept.0 kept.1
                  (prepares u (left u (object class (annotated a) u) same refl)))
        ]

    map_slice-EachPrepared :
        (u : ApicSlice)
        → rounds u ≤ suc n
        → EachPrepared normalizer inst tag u
            (map_slice (prepare_object metadata normalizer inst tag below) u)
    unfolding map_slice rounds
    map_slice-EachPrepared nothing h = none_prepared
    map_slice-EachPrepared (o ⨾ u) h =
        next_prepared o (prepare_object metadata normalizer inst tag below o) u _
          (prepare_object-IsPrepared o (omega (arith, h)))
          (map_slice-EachPrepared u (omega (arith, h)))

  prepare_rounds-AllPrepared :
      (n : ℕ) (s : ApicSlice)
      → rounds s ≤ n
      → AllPrepared normalizer inst tag s (prepare_rounds metadata normalizer inst tag n s)
  unfolding prepare_rounds
  prepare_rounds-AllPrepared zero nothing h =
      all_prepared nothing nothing nothing (λ test. refl) tt none_prepared
  prepare_rounds-AllPrepared zero (o ⨾ s) h = absurd (some_rounds o s h)
  prepare_rounds-AllPrepared (suc n) s h =
      all_prepared s (sort_slice s) _ (count-sort_slice s) (sort_slice-Rising s) (
        map_slice-EachPrepared (prepare_rounds metadata normalizer inst tag n) n
          (prepare_rounds-AllPrepared n) (sort_slice s)
          (let e = rounds-sort_slice s in omega (arith, e, h)))

  -- The rounds given to prepareApicSliceTag are enough for trees of any depth: at every level it
  -- leaves the objects it was given, each as often as before, in an order in which the names do
  -- not fall. An object that is no tag then has among its children a tag instance with the name,
  -- or a tag annotation of the controller with the value, that was asked for; its children that
  -- are no tags are those that it had, in their order; it has the annotation of the controller if
  -- tags are annotations, and its other attributes as they were, all normalized for its class. A
  -- tag has its own attributes, normalized. The children are prepared in the same way.
  pub prepare_apic_slice_tag-AllPrepared :
      (s : ApicSlice)
      → AllPrepared normalizer inst tag s (prepare_apic_slice_tag metadata normalizer inst tag s)
  unfolding prepare_apic_slice_tag
  prepare_apic_slice_tag-AllPrepared s = prepare_rounds-AllPrepared (rounds s) s (omega arith)

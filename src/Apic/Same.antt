-- ===== src/Apic/Same.antt =====
-- `apicObjCmp` of pkg/apicapi/apic_sync.go against the agreement of trees.
use Prim.Native.Nat.{Ordering}
use Prim.Native.String.{compare}
use z_presplit_aci_container.Base.{
  ◌≡◌, ◌≢◌, ◌↔◌, ◌∙◌, refl, sym, ap, subst, Bool, true, false, not, ◌&&◌, ◌||◌, [], ◌∷◌, Option,
  none, some, arith, Bool-cases, inl, inr,
}
use z_presplit_aci_container.Base.Strings.{compare_refl, path_by_compare}
use z_presplit_aci_container.Base.Maps.{Key, KeyMap, same_key, lookup, same_key_refl, same_key_iff}
use z_presplit_aci_container.Apic.{
  Value, str, other, same_value, ApicObject, ApicSlice, object, nothing, ◌⨾◌, get_dn,
  cmp_apic_object, attr_or, same_attrs, Metadata, apic_body_attr_cmp, apic_obj_cmp,
}
use z_presplit_aci_container.Apic.Trees.{
  is_eq, is_quiet, same_value_refl, same_tree, same_trees, apic_obj_cmp-same_tree,
}

-- The value found, or the default of the attribute.
abbrev pub found_or : Value → Option Value → Value
found_or default none = default
found_or default (some v) = v

-- The attributes of the class have the same values.
abbrev pub EachSame : KeyMap Value → KeyMap Value → KeyMap Value → Type 0
EachSame [] attrc attrd = Unit
EachSame ((p, default) ∷ meta) attrc attrd =
    (found_or default (lookup p attrc) ≡ found_or default (lookup p attrd))
    × EachSame meta attrc attrd

-- A class without attributes of its own is not compared. A tag has no annotation.
abbrev pub SameAttributes : Metadata → Key → KeyMap Value → KeyMap Value → Type 0
SameAttributes metadata class attrc attrd =
    (meta : KeyMap Value)
    → lookup class metadata ≡ some meta
    → EachSame meta attrc attrd
      × (class ≢ "tagAnnotation"
          → class ≢ "tagInst"
          → found_or (str "") (lookup "annotation" attrc)
            ≡ found_or (str "") (lookup "annotation" attrd))

module _ (metadata : Metadata) where
  unfoldable mutual
    -- Objects of two classes are not compared.
    pub SameTree : ApicObject → ApicObject → Type 0
    SameTree (object classc attrc cs) (object classd attrd ds) =
        classc ≡ classd → SameAttributes metadata classc attrc attrd × SameTrees cs ds

    pub SameTrees : ApicSlice → ApicSlice → Type 0
    SameTrees nothing nothing = Unit
    SameTrees nothing (d ⨾ ds) = ⊥
    SameTrees (c ⨾ cs) nothing = ⊥
    SameTrees (c ⨾ cs) (d ⨾ ds) = (get_dn c ≡ get_dn d) × (SameTree c d × SameTrees cs ds)

same_value-path : (v u : Value) → same_value v u ≡ true → v ≡ u
unfolding same_value
same_value-path (str s) (str t) h = ap str (same_key_iff s t h)
same_value-path (other s) (other t) h = ap other (same_key_iff s t h)
same_value-path (str s) (other t) h = absurd (ground arith)
same_value-path (other s) (str t) h = absurd (ground arith)

same_value_iff : (v u : Value) → (same_value v u ≡ true) ↔ (v ≡ u)
same_value_iff v u =
    (same_value-path v u, λ e. subst (λ w. same_value v w ≡ true) e (same_value_refl v))

same_key_path : (a b : Key) → a ≡ b → same_key a b ≡ true
same_key_path a b e = subst (λ c. same_key a c ≡ true) e (same_key_refl a)

and_iff :
    {P Q : Type 0} (a b : Bool) → (a ≡ true) ↔ P → (b ≡ true) ↔ Q → ((a && b) ≡ true) ↔ (P × Q)
and_iff true b h k = (λ e. (h.0 refl, k.0 e), λ u. k.1 u.1)
and_iff false b h k = (λ e. absurd (ground arith), λ u. h.1 u.0)

same_attrs-EachSame :
    (meta attrc attrd : KeyMap Value)
    → (same_attrs meta attrc attrd ≡ true) ↔ EachSame meta attrc attrd
unfolding same_attrs attr_or
same_attrs-EachSame [] attrc attrd = (λ e. tt, λ u. refl)
same_attrs-EachSame ((p, default) ∷ meta) attrc attrd =
    and_iff _ _ (same_value_iff _ _) (same_attrs-EachSame meta attrc attrd)

-- The test that a tag passes.
annotation_iff :
    (class : Key) (b : Bool) {P : Type 0}
    → (b ≡ true) ↔ P
    → ((same_key class "tagAnnotation" || same_key class "tagInst" || b) ≡ true)
      ↔ (class ≢ "tagAnnotation" → class ≢ "tagInst" → P)
annotation_iff class b h = elim (Bool-cases (same_key class "tagAnnotation")) [
  | inl e ↦ (λ t f g. absurd (f (same_key_iff class "tagAnnotation" e)), λ u. ground (arith, e))
  | inr e ↦ elim (Bool-cases (same_key class "tagInst")) [
    | inl i ↦ (λ t f g. absurd (g (same_key_iff class "tagInst" i)), λ u. ground (arith, i))
    | inr i ↦ (
      λ t f g. h.0 (ground (arith, e, i, t)),
      λ u.
          let f : class ≢ "tagAnnotation" =
            λ p. absurd (let k = same_key_path class "tagAnnotation" p in ground (arith, e, k)) in
          let g : class ≢ "tagInst" =
            λ p. absurd (let k = same_key_path class "tagInst" p in ground (arith, i, k)) in
          let t = h.1 (u f g) in ground (arith, t),
    )
  ]
]

-- A test of what is found, and the statement for what is found.
found_iff :
    (o : Option (KeyMap Value)) (test : KeyMap Value → Bool) (Q : KeyMap Value → Type 0)
    → ((meta : KeyMap Value) → (test meta ≡ true) ↔ Q meta)
    → ((elim o [ none ↦ true | some meta ↦ test meta ]) ≡ true)
      ↔ ((meta : KeyMap Value) → o ≡ some meta → Q meta)
found_iff none test Q h = (λ e meta k. absurd (ground arith), λ u. refl)
found_iff (some attributes) test Q h = (
  λ e meta k. subst Q (ap (λ o. elim o [ none ↦ attributes | some m ↦ m ]) k) ((h attributes).0 e),
  λ u. (h attributes).1 (u attributes refl),
)

body_attr_cmp-SameAttributes :
    (metadata : Metadata) (class : Key) (attrc attrd : KeyMap Value)
    → (apic_body_attr_cmp metadata class attrc attrd ≡ true)
      ↔ SameAttributes metadata class attrc attrd
unfolding apic_body_attr_cmp attr_or
body_attr_cmp-SameAttributes metadata class attrc attrd =
    found_iff (lookup class metadata) _ _ (λ meta.
      and_iff _ _ (same_attrs-EachSame meta attrc attrd) (
        annotation_iff class _ (
          same_value_iff (found_or (str "") (lookup "annotation" attrc))
            (found_or (str "") (lookup "annotation" attrd)))))

is_eq-path : (o : Ordering) → is_eq o ≡ true → o ≡ Ordering.eq
unfolding is_eq
is_eq-path Ordering.eq h = refl
is_eq-path Ordering.lt h = absurd (ground arith)
is_eq-path Ordering.gt h = absurd (ground arith)

is_eq-dn : (c d : ApicObject) → (is_eq (cmp_apic_object c d) ≡ true) ↔ (get_dn c ≡ get_dn d)
unfolding cmp_apic_object is_eq
is_eq-dn c d = (
  λ h. path_by_compare (get_dn c) (get_dn d) (is_eq-path _ h),
  λ e. ap is_eq (ap (compare (get_dn c)) (sym e) ∙ compare_refl (get_dn c)),
)

or_iff :
    {P : Type 0} (a b : Key) (x : Bool)
    → (x ≡ true) ↔ P
    → ((not (same_key a b) || x) ≡ true) ↔ (a ≡ b → P)
or_iff a b x h = elim (Bool-cases (same_key a b)) [
  | inl e ↦ (
    λ t p. h.0 (ground (arith, e, t)),
    λ u. let t = h.1 (u (same_key_iff a b e)) in ground (arith, t),
  )
  | inr e ↦
      (λ t p. absurd (let k = same_key_path a b p in ground (arith, e, k)), λ u. ground (arith, e))
]

module _ (metadata : Metadata) where
  mutual
    unfolding same_tree same_trees SameTree SameTrees

    tree_iff : (c d : ApicObject) → (same_tree metadata c d ≡ true) ↔ SameTree metadata c d
    tree_iff (object classc attrc cs) (object classd attrd ds) =
        or_iff classc classd _
          (and_iff _ _ (body_attr_cmp-SameAttributes metadata classc attrc attrd) (trees_iff cs ds))

    trees_iff : (cs ds : ApicSlice) → (same_trees metadata cs ds ≡ true) ↔ SameTrees metadata cs ds
    trees_iff nothing nothing = (λ e. tt, λ u. refl)
    trees_iff nothing (d ⨾ ds) = (λ e. absurd (ground arith), λ u. absurd u)
    trees_iff (c ⨾ cs) nothing = (λ e. absurd (ground arith), λ u. absurd u)
    trees_iff (c ⨾ cs) (d ⨾ ds) =
        and_iff _ _ (is_eq-dn c d) (and_iff _ _ (tree_iff c d) (trees_iff cs ds))

  -- apicObjCmp has nothing to write and nothing to delete exactly if the two trees agree: of one
  -- class in the metadata, they have the same value, or default where it is missing, of each
  -- attribute of the class, and if they are no tags the same annotation; their children have the
  -- same names in order and agree in turn. The attributes of a class that the metadata does not
  -- have are not compared, and objects of two classes count as agreeing.
  pub apic_obj_cmp-SameTree :
      (c d : ApicObject) → (is_quiet (apic_obj_cmp metadata c d) ≡ true) ↔ SameTree metadata c d
  apic_obj_cmp-SameTree c d =
      let e = apic_obj_cmp-same_tree metadata c d in
      let k = tree_iff c d in (λ h. k.0 (sym e ∙ h), λ u. e ∙ k.1 u)

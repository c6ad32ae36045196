-- ===== src/Apic/Sync/Names.antt =====
-- The index of desired objects by name of pkg/apicapi, through `updateDnIndex` and
-- `removeFromDnIndex`.
use z_presplit_aci_container.Base.{
  ◌≡◌, refl, sym, ap, ◌∙◌, Bool, true, false, ◌||◌, [], ◌∷◌, Option, none, some, if◌then◌else◌,
  arith, Bool-cases, Option-cases, inl, inr, ◌⊎◌, ℕ, zero, suc, ◌≤◌, ◌<◌, length, dec_le,
}
use z_presplit_aci_container.Base.Maps.{
  Key, KeyMap, same_key, lookup, insert, delete, lookup-insert, lookup-delete, same_key_refl,
}
use z_presplit_aci_container.Apic.{ApicObject, ApicSlice, object, nothing, ◌⨾◌, get_dn, children_of}
use z_presplit_aci_container.Apic.Sync.{
  update_dn_index, index_object, each_dn, remove_rounds, remove_from_dn_index,
}

unfoldable pub has : {V : Type 0} → Option V → Bool
has none = false
has (some v) = true

unfoldable mutual
  -- The name stands in the trees.
  pub in_slice : Key → ApicSlice → Bool
  in_slice k nothing = false
  in_slice k (o ⨾ s) = in_tree k o || in_slice k s

  pub in_tree : Key → ApicObject → Bool
  in_tree k (object class attributes children) =
      same_key k (get_dn (object class attributes children)) || in_slice k children

has-insert :
    {V : Type 0} (k j : Key) (v : V) (m : KeyMap V)
    → has (lookup k (insert j v m)) ≡ (same_key k j || has (lookup k m))
unfolding has
has-insert k j v m = ground (arith, lookup-insert k j v m)

mutual
  unfolding update_dn_index in_slice

  index_slice-has :
      (k : Key) (s : ApicSlice) (m : KeyMap ApicObject)
      → has (lookup k (update_dn_index s m)) ≡ (in_slice k s || has (lookup k m))
  index_slice-has k nothing m = refl
  index_slice-has k (o ⨾ s) m =
      ground (arith, index_slice-has k s (index_object o m), index_object-has k o m)

  index_object-has :
      (k : Key) (o : ApicObject) (m : KeyMap ApicObject)
      → has (lookup k (index_object o m)) ≡ (in_tree k o || has (lookup k m))
  index_object-has k (object class attributes children) m =
      let o = object class attributes children in
      ground
        (arith, index_slice-has k children (insert (get_dn o) o m), has-insert k (get_dn o) o m)

-- After updateDnIndex, the index has a name exactly if the name stands in the trees, at any depth,
-- or the index had it before.
pub update_dn_index-has :
    (k : Key) (s : ApicSlice) (m : KeyMap ApicObject)
    → has (lookup k (update_dn_index s m)) ≡ (in_slice k s || has (lookup k m))
update_dn_index-has k s m = index_slice-has k s m

length-delete : (k : Key) (m : KeyMap ApicObject) → length (delete k m) ≤ length m
unfolding delete
length-delete k [] = omega arith
length-delete k ((j, o) ∷ m) = ground (arith, length-delete k m)

length-delete_found :
    (k : Key) (m : KeyMap ApicObject) (o : ApicObject)
    → lookup k m ≡ some o
    → length (delete k m) < length m
unfolding delete lookup
length-delete_found k [] o h = ground (arith, h)
length-delete_found k ((j, p) ∷ m) o h =
    ground (arith, length-delete_found k m o, length-delete k m, h)

-- An entry stays as it is, or goes.
record Shrinks (m m' : KeyMap ApicObject) : Type 0 where
  pub kept : (k : Key) → (lookup k m' ≡ none) ⊎ (lookup k m' ≡ lookup k m)
  pub short : length m' ≤ length m

Shrinks-refl : (m : KeyMap ApicObject) → Shrinks m m
Shrinks-refl m = record { kept = λ k. inr refl; short = omega arith }

Shrinks-trans : (a b c : KeyMap ApicObject) → Shrinks a b → Shrinks b c → Shrinks a c
Shrinks-trans a b c x y = record {
  kept = λ k. elim (y.kept k) [
    | inl h ↦ inl h
    | inr h ↦ elim (x.kept k) [ inl g ↦ inl (h ∙ g) | inr g ↦ inr (h ∙ g) ]
  ];
  short = let p = x.short in let q = y.short in omega arith;
}

delete-Shrinks : (dn : Key) (m : KeyMap ApicObject) → Shrinks m (delete dn m)
delete-Shrinks dn m = record {
  kept = λ k. elim (Bool-cases (same_key k dn)) [
    | inl h ↦ inl (lookup-delete k dn m ∙ ap (λ b. if b then none else lookup k m) h)
    | inr h ↦ inr (lookup-delete k dn m ∙ ap (λ b. if b then none else lookup k m) h)
  ];
  short = length-delete dn m;
}

each_dn-Shrinks :
    (f : Key → KeyMap ApicObject → KeyMap ApicObject)
    → ((dn : Key) (m : KeyMap ApicObject) → Shrinks m (f dn m))
    → (s : ApicSlice) (m : KeyMap ApicObject) → Shrinks m (each_dn f s m)
unfolding each_dn
each_dn-Shrinks f w nothing m = Shrinks-refl m
each_dn-Shrinks f w (o ⨾ s) m =
    Shrinks-trans m (f (get_dn o) m) _ (w (get_dn o) m) (each_dn-Shrinks f w s (f (get_dn o) m))

remove_rounds-Shrinks :
    (n : ℕ) (dn : Key) (m : KeyMap ApicObject) → Shrinks m (remove_rounds n dn m)
unfolding remove_rounds
remove_rounds-Shrinks zero dn m = Shrinks-refl m
remove_rounds-Shrinks (suc n) dn m = elim (Option-cases (lookup dn m)) [
  | inl h ↦ rw (h, remove_rounds) (Shrinks-refl m)
  | inr (o, h) ↦
      rw (h, remove_rounds)
        (Shrinks-trans m (delete dn m) _ (delete-Shrinks dn m) (
          each_dn-Shrinks (remove_rounds n) (remove_rounds-Shrinks n) (children_of o)
            (delete dn m)))
]

-- Two ways to remove that agree on small maps agree along a slice.
each_dn-agree :
    (f g : Key → KeyMap ApicObject → KeyMap ApicObject) (n : ℕ)
    → ((dn : Key) (m : KeyMap ApicObject) → length m ≤ n → f dn m ≡ g dn m)
    → ((dn : Key) (m : KeyMap ApicObject) → Shrinks m (f dn m))
    → (s : ApicSlice) (m : KeyMap ApicObject) → length m ≤ n
    → each_dn f s m ≡ each_dn g s m
unfolding each_dn
each_dn-agree f g n e w nothing m l = refl
each_dn-agree f g n e w (o ⨾ s) m l =
    each_dn-agree f g n e w s (f (get_dn o) m) (let p = (w (get_dn o) m).short in omega arith)
    ∙ ap (each_dn g s) (e (get_dn o) m l)

remove_rounds-nil : (n : ℕ) (dn : Key) → remove_rounds n dn [] ≡ []
unfolding remove_rounds lookup
remove_rounds-nil zero dn = refl
remove_rounds-nil (suc n) dn = refl

-- As many rounds as there are entries are enough: one more makes no difference.
remove_rounds-enough :
    (n : ℕ) (dn : Key) (m : KeyMap ApicObject)
    → length m ≤ n
    → remove_rounds n dn m ≡ remove_rounds (suc n) dn m
unfolding remove_rounds
remove_rounds-enough zero dn [] l = sym (remove_rounds-nil 1 dn)
remove_rounds-enough zero dn (e ∷ m) l = absurd (omega arith)
remove_rounds-enough (suc n) dn m l = elim (Option-cases (lookup dn m)) [
  | inl h ↦ rw (h, remove_rounds) refl
  | inr (o, h) ↦
      rw (h, remove_rounds)
        (each_dn-agree (remove_rounds n) (remove_rounds (suc n)) n (remove_rounds-enough n)
          (remove_rounds-Shrinks n) (children_of o) (delete dn m)
          (let p = length-delete_found dn m o h in omega arith))
]

remove_rounds-more :
    (n : ℕ) (dn : Key) (m : KeyMap ApicObject)
    → length m ≤ n
    → remove_rounds n dn m ≡ remove_from_dn_index dn m
unfolding remove_from_dn_index
remove_rounds-more zero dn [] l = refl
remove_rounds-more zero dn (e ∷ m) l = absurd (omega arith)
remove_rounds-more (suc n) dn m l = elim (dec_le (length m) n) [
  | yes h ↦ sym (remove_rounds-enough n dn m h) ∙ remove_rounds-more n dn m h
  | no h ↦ let e : length m ≡ suc n = omega arith in ap (λ k. remove_rounds k dn m) (sym e)
]

-- The removal with the object's children, as the code has it without rounds.
unfoldable pub remove_recursively : Key → KeyMap ApicObject → KeyMap ApicObject
remove_recursively dn m = elim (lookup dn m) [
  | none ↦ m
  | some o ↦ each_dn remove_from_dn_index (children_of o) (delete dn m)
]

-- As many rounds as the index has entries are enough for removeFromDnIndex: the result is that of
-- removing the entry and then, with the rounds that the smaller index asks for, the names of the
-- children of the object.
pub remove_from_dn_index-recurses :
    (dn : Key) (m : KeyMap ApicObject) → remove_from_dn_index dn m ≡ remove_recursively dn m
unfolding remove_recursively remove_rounds
remove_from_dn_index-recurses dn m = elim (Option-cases (lookup dn m)) [
  | inl h ↦
      sym (remove_rounds-more (suc (length m)) dn m (omega arith))
      ∙ ap
          (λ o. elim o as (λ x. KeyMap ApicObject) [
            | none ↦ m
            | some p ↦ each_dn (remove_rounds (length m)) (children_of p) (delete dn m)
          ])
          h
      ∙ sym (
          ap
            (λ o. elim o as (λ x. KeyMap ApicObject) [
              | none ↦ m
              | some p ↦ each_dn remove_from_dn_index (children_of p) (delete dn m)
            ])
            h)
  | inr (o, h) ↦
      sym (remove_rounds-more (suc (length m)) dn m (omega arith))
      ∙ ap
          (λ o. elim o as (λ x. KeyMap ApicObject) [
            | none ↦ m
            | some p ↦ each_dn (remove_rounds (length m)) (children_of p) (delete dn m)
          ])
          h
      ∙ each_dn-agree (remove_rounds (length m)) remove_from_dn_index (length m)
          (remove_rounds-more (length m)) (remove_rounds-Shrinks (length m)) (children_of o)
          (delete dn m) (length-delete dn m)
      ∙ sym (
          ap
            (λ o. elim o as (λ x. KeyMap ApicObject) [
              | none ↦ m
              | some p ↦ each_dn remove_from_dn_index (children_of p) (delete dn m)
            ])
            h)
]

remove_from_dn_index-Shrinks :
    (dn : Key) (m : KeyMap ApicObject) → Shrinks m (remove_from_dn_index dn m)
unfolding remove_from_dn_index
remove_from_dn_index-Shrinks dn m = remove_rounds-Shrinks (length m) dn m

-- After removeFromDnIndex, the index does not have the name, and has for each other name the
-- object that it had, or none.
pub remove_from_dn_index-gone :
    (dn : Key) (m : KeyMap ApicObject)
    → (lookup dn (remove_from_dn_index dn m) ≡ none)
      × ((k : Key)
          → (lookup k (remove_from_dn_index dn m) ≡ none)
            ⊎ (lookup k (remove_from_dn_index dn m) ≡ lookup k m))
unfolding remove_recursively
remove_from_dn_index-gone dn m = (
  elim (Option-cases (lookup dn m)) [
    | inl h ↦ elim ((remove_from_dn_index-Shrinks dn m).kept dn) [ inl g ↦ g | inr g ↦ g ∙ h ]
    | inr (o, h) ↦
        ap (lookup dn) (
          remove_from_dn_index-recurses dn m
          ∙ ap
              (λ p. elim p as (λ x. KeyMap ApicObject) [
                | none ↦ m
                | some q ↦ each_dn remove_from_dn_index (children_of q) (delete dn m)
              ])
              h)
        ∙ (elim ((each_dn-Shrinks remove_from_dn_index remove_from_dn_index-Shrinks (children_of o)
              (delete dn m)).kept
            dn) [
              | inl g ↦ g
              | inr g ↦
                  g
                  ∙ lookup-delete dn dn m
                  ∙ ap (λ b. if b then none else lookup dn m) (same_key_refl dn)
            ])
  ],
  (remove_from_dn_index-Shrinks dn m).kept,
)

-- ===== src/Apic/Sorted.antt =====
-- `diffApicState` of pkg/apicapi/apic_sync.go, a merge of two sorted lists, against a look-up of
-- every name.
use Prim.Native.Nat.{Ordering}
use Prim.Native.String.{compare}
use z_presplit_aci_container.Base.{
  ◌≡◌, refl, sym, ap, ap₂, ◌∙◌, Bool, true, false, List, [], ◌∷◌, ◌++◌, Option, none, some,
  if◌then◌else◌, Ordering-cases, inl, inr,
}
use z_presplit_aci_container.Base.Strings.{
  compare_trans, compare_back, compare_front, compare_refl, path_by_compare,
}
use z_presplit_aci_container.Base.Maps.{Key, KeySet}
use z_presplit_aci_container.Apic.{
  ApicObject, ApicSlice, nothing, ◌⨾◌, get_dn, cmp_apic_object, Metadata, diff_pair, note,
  diff_apic_state,
}
use z_presplit_aci_container.Apic.Trees.{diff_apic_state-case, is_eq}

-- Every object's name is behind `k`.
unfoldable pub Behind : Key → ApicSlice → Type 0
Behind k nothing = Unit
Behind k (o ⨾ s) = (compare k (get_dn o) ≡ Ordering.lt) × Behind k s

-- The names rise.
unfoldable pub IsSorted : ApicSlice → Type 0
IsSorted nothing = Unit
IsSorted (o ⨾ s) = Behind (get_dn o) s × IsSorted s

unfoldable pub find : Key → ApicSlice → Option ApicObject
find k nothing = none
find k (o ⨾ s) = if is_eq (compare k (get_dn o)) then some o else find k s

Behind-trans : (j k : Key) (s : ApicSlice) → compare j k ≡ Ordering.lt → Behind k s → Behind j s
unfolding Behind
Behind-trans j k nothing h b = b
Behind-trans j k (o ⨾ s) h (b, bs) = (compare_trans j k (get_dn o) h b, Behind-trans j k s h bs)

-- A name in front of a slice is not in it.
find-Behind : (k : Key) (s : ApicSlice) → Behind k s → find k s ≡ none
unfolding Behind find is_eq
find-Behind k nothing b = refl
find-Behind k (o ⨾ s) (b, bs) = rw (b, find-Behind k s bs) refl

find-miss :
    (k : Key) (o : ApicObject) (s : ApicSlice)
    → compare (get_dn o) k ≡ Ordering.lt
    → find k (o ⨾ s) ≡ find k s
unfolding find is_eq
find-miss k o s h = ap (λ c. if is_eq c then some o else find k s) (compare_back (get_dn o) k h)

find-hit :
    (k : Key) (o : ApicObject) (s : ApicSlice)
    → compare k (get_dn o) ≡ Ordering.eq
    → find k (o ⨾ s) ≡ some o
unfolding find is_eq
find-hit k o s h = ap (λ c. if is_eq c then some o else find k s) h

module _ (metadata : Metadata) (containers : KeySet) where
  abbrev pub written_over : ApicObject → Option ApicObject → Bool
  written_over d o = elim o [ none ↦ true | some c ↦ (diff_pair metadata containers c d).0 ]

  abbrev pub deleted_under : ApicObject → Option ApicObject → List Key
  deleted_under c o = elim o [
    | none ↦ get_dn c ∷ []
    | some d ↦ (diff_pair metadata containers c d).1
  ]

  -- An object is written if it is new, or differs from the current one in its place.
  unfoldable pub is_written : ApicSlice → ApicObject → Bool
  is_written current d = written_over d (find (get_dn d) current)

  unfoldable pub all_written : ApicSlice → ApicSlice → List ApicObject
  all_written current nothing = []
  all_written current (d ⨾ ds) =
      let rest = all_written current ds in if is_written current d then d ∷ rest else rest

  -- A current object is deleted if it is not desired; below one that is, the differences are.
  unfoldable pub deleted_at : ApicSlice → ApicObject → List Key
  deleted_at desired c = deleted_under c (find (get_dn c) desired)

  unfoldable pub all_deleted : ApicSlice → ApicSlice → List Key
  all_deleted nothing desired = []
  all_deleted (c ⨾ cs) desired = deleted_at desired c ++ all_deleted cs desired

  -- The first current object does not count for names behind it.
  all_written-front :
      (c : ApicObject) (cs ds : ApicSlice)
      → Behind (get_dn c) ds
      → all_written (c ⨾ cs) ds ≡ all_written cs ds
  unfolding all_written is_written find Behind is_eq
  all_written-front c cs nothing b = refl
  all_written-front c cs (d ⨾ ds) (b, bs) =
      ap₂ (λ w rest. if w then d ∷ rest else rest)
        (ap (written_over d) (find-miss (get_dn d) c cs b)) (all_written-front c cs ds bs)

  all_deleted-front :
      (d : ApicObject) (cs ds : ApicSlice)
      → Behind (get_dn d) cs
      → all_deleted cs (d ⨾ ds) ≡ all_deleted cs ds
  unfolding all_deleted deleted_at find Behind is_eq
  all_deleted-front d nothing ds b = refl
  all_deleted-front d (c ⨾ cs) ds (b, bs) =
      ap₂ (λ l rest. l ++ rest) (ap (deleted_under c) (find-miss (get_dn c) d ds b))
        (all_deleted-front d cs ds bs)

  -- For two lists of objects whose names rise, the merge of diffApicState computes what a look-up
  -- of every name computes: it writes the desired objects that are new or differ from the current
  -- object of their name, and deletes the current objects that are not desired and what the
  -- comparison of two objects of one name has to delete.
  pub diff_apic_state-lookup :
      (cs ds : ApicSlice)
      → IsSorted cs
      → IsSorted ds
      → diff_apic_state metadata containers cs ds ≡ (all_written cs ds, all_deleted cs ds)
  unfolding diff_apic_state all_written all_deleted is_written deleted_at find IsSorted Behind
      get_dn cmp_apic_object
  diff_apic_state-lookup nothing nothing a b = refl
  diff_apic_state-lookup nothing (d ⨾ ds) a (b, bs) =
      rw (diff_apic_state-lookup nothing ds a bs) refl
  diff_apic_state-lookup (c ⨾ cs) nothing (a, as') b =
      rw (diff_apic_state-lookup cs nothing as' b) refl
  diff_apic_state-lookup (c ⨾ cs) (d ⨾ ds) (a, as') (b, bs) =
      elim (Ordering-cases (cmp_apic_object c d)) [
        | inl h ↦
            diff_apic_state-case metadata c d cs ds containers h
            ∙ ap (note (false, get_dn c ∷ []) c) (diff_apic_state-lookup cs (d ⨾ ds) as' (b, bs))
            ∙ ap₂ (λ w l. (w, l ++ all_deleted cs (d ⨾ ds)))
                (sym
                  (all_written-front c cs (d ⨾ ds) (h, Behind-trans (get_dn c) (get_dn d) ds h b)))
                (sym (
                  ap (deleted_under c) (
                    find-Behind (get_dn c) (d ⨾ ds)
                      (h, Behind-trans (get_dn c) (get_dn d) ds h b))))
        | inr (inl h) ↦
            let e = path_by_compare (get_dn c) (get_dn d) h in
            diff_apic_state-case metadata c d cs ds containers h
            ∙ ap (note (diff_pair metadata containers c d) d) (diff_apic_state-lookup cs ds as' bs)
            ∙ ap₂ (λ w l. (w, l))
                (ap₂ (λ w rest. if w then d ∷ rest else rest)
                  (sym (
                    ap (written_over d)
                      (find-hit (get_dn d) c cs (rw e (compare_refl (get_dn d))))))
                  (sym (all_written-front c cs ds (rw e b))))
                (ap₂ (λ l rest. l ++ rest) (sym (ap (deleted_under c) (find-hit (get_dn c) d ds h)))
                  (sym (all_deleted-front d cs ds (rw⁻¹ e a))))
        | inr (inr h) ↦
            let g = compare_front (get_dn c) (get_dn d) h in
            diff_apic_state-case metadata c d cs ds containers h
            ∙ ap (note (true, []) d) (diff_apic_state-lookup (c ⨾ cs) ds (a, as') bs)
            ∙ ap₂ (λ w l. ((if w then d ∷ all_written (c ⨾ cs) ds else all_written (c ⨾ cs) ds), l))
                (sym (
                  ap (written_over d) (
                    find-Behind (get_dn d) (c ⨾ cs)
                      (g, Behind-trans (get_dn d) (get_dn c) cs g a))))
                (sym
                  (all_deleted-front d (c ⨾ cs) ds (g, Behind-trans (get_dn d) (get_dn c) cs g a)))
      ]

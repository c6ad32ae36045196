-- ===== src/Kv/Updates.antt =====
-- FindUpdatedAfter and GetAll of pkg/keyvalueservice/namespace.go, for a client that keeps a copy: it
-- takes all items first, and then replays the actions that it is sent.
use z_presplit_aci_container.Base.{
  ℕ, zero, suc, ◌+◌, ◌^◌, ◌<◌, ◌≤◌, ◌≡◌, ◌⊎◌, ◌∙◌, refl, sym, ap, subst, List, [], ◌∷◌, map, Option,
  none, some, length, drop, ltb, leb, ◌&&◌, Bool-cases, Option-cases, inl, inr, arith,
  if◌then◌else◌, sort_search, IsBoundary, sort_search-IsBoundary,
}
use z_presplit_aci_container.Base.Maps.{
  Key, KeyMap, lookup, insert, delete, same_key, same_key_iff, same_key_sym, lookup-insert,
  lookup-delete,
}
use z_presplit_aci_container.Kv.{
  KvNsValue, KvChange, KvNamespace, KvItem, KvAction, Op, op_set, op_delete, Result, ok, err,
  version_too_old, version_at, action_of, find_updated_after, get_all,
}
use z_presplit_aci_container.Kv.Log.{Upto, Distinct, Distinct-drop, find_key}
use z_presplit_aci_container.Kv.Log.Positions.{find_key-IsAt}
use z_presplit_aci_container.Kv.Log.Dropped.{find_key-kept, find_key-dropped, version_at-Upto}
use z_presplit_aci_container.Kv.Holds.{Holds, state_of}
use z_presplit_aci_container.Kv.Holds.Since.{Since, perform_all-Since}
use z_presplit_aci_container.Kv.Holds.Kept.{KvOp, perform_all, perform_all-Holds}

Op-cases : (o : Op) → (o ≡ op_set) ⊎ (o ≡ op_delete)
Op-cases op_set = inl refl
Op-cases op_delete = inr refl

module _ {V : Type 0} where
  abbrev pub value_of : Option (KvNsValue V) → Option V
  value_of none = none
  value_of (some v) = some v.value

  -- The client's copy has the namespace's values.
  pub Mirrors : KeyMap V → KvNamespace V → Type 0
  Mirrors copy n = (k : Key) → lookup k copy ≡ value_of (lookup k n.store)

  unfoldable pub load_items : List (KvItem V) → KeyMap V
  load_items items = map (λ i. (i.key, i.value)) items

  unfoldable pub apply_action : KvAction V → KeyMap V → KeyMap V
  apply_action a copy = elim a.action [
    | op_set ↦ insert a.item.key a.item.value copy
    | op_delete ↦ delete a.item.key copy
  ]

  unfoldable pub replay : List (KvAction V) → KeyMap V → KeyMap V
  replay [] copy = copy
  replay (a ∷ acts) copy = replay acts (apply_action a copy)

  -- What a client with a copy of an earlier state can do with an answer.
  abbrev pub Updates :
      KeyMap V → KvNamespace V → KvNamespace V → Result (ℕ × List (KvAction V)) → Type 0
  Updates copy base n (ok (version, acts)) =
      Mirrors (replay acts copy) n × (version ≡ n.last_version)
  Updates copy base n (err e) =
      (e ≡ version_too_old)
      × (0 < n.last_expired_change)
      × (base.last_version ≤ n.last_expired_change)
      × (base.last_version < n.last_version)

  load_entries :
      (k : Key) (store : KeyMap (KvNsValue V))
      → lookup k
          (load_items (map (λ e. record { key = e.0; value = e.1.value; version = 0 }) store))
        ≡ value_of (lookup k store)
  unfolding load_items lookup
  load_entries k [] = refl
  load_entries k ((j, v) ∷ store) = elim (Bool-cases (same_key k j)) [
    | inl e ↦ rw e refl
    | inr e ↦ rw e (load_entries k store)
  ]

  -- A client that loads the items of GetAll has exactly the values of the namespace.
  pub get_all-Mirrors : (n : KvNamespace V) → Mirrors (load_items (get_all n).1) n
  unfolding get_all Mirrors
  get_all-Mirrors n k = load_entries k n.store

  lookup-apply_action :
      (k : Key) (c : KvChange V) (copy : KeyMap V)
      → lookup k (apply_action (action_of c) copy)
        ≡ (if same_key c.key k then value_of (state_of c.action c.value) else lookup k copy)
  unfolding apply_action action_of
  lookup-apply_action k c copy = elim (Op-cases c.action) [
    | inl e ↦
        rw (e, apply_action)
          (lookup-insert k c.key c.value.value copy ∙ ground (arith, same_key_sym k c.key))
    | inr e ↦
        rw (e, apply_action) (lookup-delete k c.key copy ∙ ground (arith, same_key_sym k c.key))
  ]

  -- Each key's last change decides.
  lookup-replay :
      (k : Key) (log : List (KvChange V)) (copy : KeyMap V)
      → Distinct log
      → lookup k (replay (map action_of log) copy) ≡ (elim (find_key k log) [
        | none ↦ lookup k copy
        | some c ↦ value_of (state_of c.action c.value)
      ])
  unfolding replay find_key
  lookup-replay k [] copy d = refl
  lookup-replay k (c ∷ cs) copy d = elim (Bool-cases (same_key c.key k)) [
    | inl e ↦
        let gone : find_key k cs ≡ none =
          subst (λ j. find_key j cs ≡ none) (same_key_iff c.key k e) d.0 in
        rw e (
          lookup-replay k cs (apply_action (action_of c) copy) d.1
          ∙ rw gone (ground (arith, lookup-apply_action k c copy, e)))
    | inr e ↦ rw e (
        lookup-replay k cs (apply_action (action_of c) copy) d.1
        ∙ elim (Option-cases (find_key k cs)) [
          | inl h ↦ rw h (ground (arith, lookup-apply_action k c copy, e))
          | inr (b, h) ↦ rw h refl
        ])
  ]

  find_key-Upto :
      (k : Key) (hi : ℕ) (log : List (KvChange V)) (c : KvChange V)
      → Upto hi log
      → find_key k log ≡ some c
      → c.value.version ≤ hi
  find_key-Upto k hi log c u h =
      let (i, at) = find_key-IsAt k log c h in
      omega (arith, at.version_is, version_at-Upto hi i log u at.within)

  module _ (base n : KvNamespace V) (holds : Holds n) where
    find_key-after :
        (k : Key) (c : KvChange V) (r : ℕ)
        → IsBoundary
            (length n.change_log)
            (λ i. ltb base.last_version (version_at n.change_log i))
            r
        → find_key k n.change_log ≡ some c
        → base.last_version < c.value.version
        → find_key k (drop r n.change_log) ≡ some c
    find_key-after k c zero b found newer = found
    find_key-after k c (suc i) b found newer =
        find_key-kept k n.last_expired_change i n.change_log c holds.rising
          (omega (arith, b.within)) found (ground (arith, b.fails i refl, newer))

    -- The newer part of the log, replayed on a copy of the earlier state.
    replay-Mirrors :
        (copy : KeyMap V) (r : ℕ)
        → Since base n
        → n.last_expired_change ≤ base.last_version
        → IsBoundary
            (length n.change_log)
            (λ i. ltb base.last_version (version_at n.change_log i))
            r
        → Mirrors copy base
        → Mirrors (replay (map action_of (drop r n.change_log)) copy) n
    unfolding Mirrors
    replay-Mirrors copy r s recent b mirrors k =
        let tail = drop r n.change_log in
        lookup-replay k tail copy (Distinct-drop r n.change_log holds.distinct)
        ∙ elim (Option-cases (find_key k tail)) [
          | inr (c, h) ↦ rw h (
              ap value_of
                (holds.current k c (find_key-dropped k r n.change_log c holds.distinct h)))
          | inl h ↦ rw h (elim (s.logged k recent) [
            | inl same ↦ mirrors k ∙ ap value_of (sym same)
            | inr (c, found, newer) ↦ absurd (ground (arith, h, find_key-after k c r b found newer))
          ])
        ]

    -- With no newer version nothing has changed.
    pub unchanged-Mirrors :
        (copy : KeyMap V)
        → Since base n
        → n.last_version ≤ base.last_version
        → Mirrors copy base
        → Mirrors copy n
    unfolding Mirrors
    unchanged-Mirrors copy s same_version mirrors k =
        elim (s.logged k (omega (arith, holds.expired, same_version))) [
          | inl same ↦ mirrors k ∙ ap value_of (sym same)
          | inr (c, found, newer) ↦ absurd (
              omega (
                arith,
                newer,
                same_version,
                find_key-Upto k n.last_version n.change_log c holds.upto found,
              ))
        ]

    pub find_updated_after-Updates :
        (copy : KeyMap V)
        → Since base n
        → Mirrors copy base
        → Updates copy base n (find_updated_after base.last_version n)
    unfolding find_updated_after replay
    find_updated_after-Updates copy s mirrors =
        let newer = λ (i : ℕ). ltb base.last_version (version_at n.change_log i) in
        let expired = ltb 0 n.last_expired_change && leb base.last_version n.last_expired_change in
        elim (Bool-cases (leb n.last_version base.last_version)) [
          | inl h ↦
              rw (h, find_updated_after)
                ((unchanged-Mirrors copy s (ground (arith, h)) mirrors, refl))
          | inr h ↦ elim (Bool-cases expired) [
            | inl e ↦
                rw (h, find_updated_after, e)
                  ((refl, ground (arith, e), ground (arith, e), ground (arith, h)))
            | inr e ↦
                rw (h, find_updated_after, e)
                  ((
                    replay-Mirrors copy (sort_search (length n.change_log) newer) s
                        (ground (arith, e)) (sort_search-IsBoundary (length n.change_log) newer)
                        mirrors,
                    refl,
                  ))
          ]
        ]

  pub Since-refl : (n : KvNamespace V) → Since n n
  Since-refl n = record { later = omega arith; logged = λ k h. inl refl }

  -- Take a namespace in a state that its operations keep, a copy at a client with exactly its
  -- values, and any calls of Set and Delete after that, which do not use up the 64 bits of the
  -- version. FindUpdatedAfter for the version of the copy then either answers with the last
  -- version and actions that, replayed in order, turn the copy into exactly the values of the
  -- namespace, or reports that the version is too old, and then some change as new as the copy has
  -- expired and the namespace has changed since.
  pub find_updated_after-perform_all :
      (base : KvNamespace V) (ops : List (KvOp V)) (copy : KeyMap V)
      → Holds base
      → base.last_version + length ops < 2 ^ 64
      → Mirrors copy base
      → Updates copy base
          (perform_all ops base)
          (find_updated_after base.last_version (perform_all ops base))
  find_updated_after-perform_all base ops copy h fits mirrors =
      find_updated_after-Updates base (perform_all ops base) (perform_all-Holds ops base h fits)
        copy (perform_all-Since base ops base h fits (Since-refl base)) mirrors

-- ===== src/Kv/Holds/Since.antt =====
-- What the log of a namespace of pkg/keyvalueservice/namespace.go tells of an earlier state: a key
-- with no newer change in the log has the value that it had then.
use z_presplit_aci_container.Base.{
  suc, ◌+◌, ◌-◌, ◌*◌, ◌^◌, ◌<◌, ◌≤◌, ◌≡◌, ◌⊎◌, ◌∙◌, ap, subst, false, List, [], ◌∷◌, some, length,
  drop, leb, Bool-cases, Option-cases, inl, inr, arith, if◌then◌else◌,
}
use z_presplit_aci_container.Base.Maps.{
  Key, KeyMap, lookup, insert, delete, same_key, same_key_iff, same_key_sym, lookup-insert,
  lookup-delete,
}
use z_presplit_aci_container.Kv.{
  KvNsValue, KvChange, KvNamespace, Op, op_set, op_delete, old_version, purge, log_change,
  next_version, set, delete_key,
}
use z_presplit_aci_container.Kv.Log.{
  Rising, find_key, without, find_key-without, find_key-append, Rising-without,
}
use z_presplit_aci_container.Kv.Log.Positions.{version_at-above}
use z_presplit_aci_container.Kv.Log.Dropped.{find_key-kept}
use z_presplit_aci_container.Kv.Holds.{Holds, state_of, remove_old-without}
use z_presplit_aci_container.Kv.Holds.Logging.{log_change_own, purge_store}
use z_presplit_aci_container.Kv.Holds.Kept.{
  KvOp, set_op, delete_op, perform, perform_all, perform-Holds, perform_last_version,
  next_version_lem, log_change_last_version,
}

module _ {V : Type 0} where
  -- Whatever changed after `base` is in the log, unless changes as new as `base` have expired.
  pub record Since (base n : KvNamespace V) : Type 0 where
    pub later : base.last_version ≤ n.last_version
    pub logged :
        (k : Key)
        → n.last_expired_change ≤ base.last_version
        → (lookup k n.store ≡ lookup k base.store)
          ⊎ ((c : KvChange V) × (find_key k n.change_log ≡ some c)
              × (base.last_version < c.value.version))

  -- What logChange does to the log, for an operation on `key`.
  record Logged (key : Key) (n n' : KvNamespace V) : Type 0 where
    expired : n.last_expired_change ≤ n'.last_expired_change
    same_store : (k : Key) → same_key key k ≡ false → lookup k n'.store ≡ lookup k n.store
    kept :
        (k : Key) (c : KvChange V)
        → same_key key k ≡ false
        → find_key k n.change_log ≡ some c
        → n'.last_expired_change < c.value.version
        → find_key k n'.change_log ≡ some c
    own :
        (c : KvChange V) × (find_key key n'.change_log ≡ some c)
        × (n.last_version < c.value.version)

  module _ (n : KvNamespace V) (rising : Rising n.last_expired_change n.change_log)
      (retained : 0 < n.max_retained) where
    purge-kept :
        (k : Key) (c : KvChange V)
        → find_key k n.change_log ≡ some c
        → (purge n).last_expired_change < c.value.version
        → find_key k (purge n).change_log ≡ some c
    unfolding purge
    purge-kept k c found = elim (Bool-cases (leb (2 * n.max_retained) (length n.change_log))) [
      | inl h ↦
          let i = n.max_retained - 1 in
          let e : suc i ≡ n.max_retained = omega (arith, retained) in
          let inside : i < length n.change_log = ground (arith, h, retained) in
          rw (h, purge)
            (λ above.
              subst (λ m. find_key k (drop m n.change_log) ≡ some c) e
                (find_key-kept k n.last_expired_change i n.change_log c rising inside found above))
      | inr h ↦ rw (h, purge) (λ above. found)
    ]

    purge_expired : n.last_expired_change ≤ (purge n).last_expired_change
    unfolding purge
    purge_expired = elim (Bool-cases (leb (2 * n.max_retained) (length n.change_log))) [
      | inl h ↦
          let i = n.max_retained - 1 in
          let inside : i < length n.change_log = ground (arith, h, retained) in
          rw (h, purge)
            (omega (arith, version_at-above n.last_expired_change n.change_log i rising inside))
      | inr h ↦ rw (h, purge) (omega arith)
    ]

  log_change-Logged :
      (key : Key) (n : KvNamespace V) (store' : KeyMap (KvNsValue V)) (val : KvNsValue V) (op : Op)
      → Holds n
      → n.last_version < val.version
      → ((k : Key)
          → lookup k store' ≡ (if same_key key k then state_of op val else lookup k n.store))
      → Logged key n (
          log_change key val
            (old_version (lookup key n.store))
            op
            (record n { store = store'; last_version = val.version }))
  unfolding log_change
  log_change-Logged key n store' val op h above stored =
      let log = without key n.change_log in
      let n' = record n { change_log = log; store = store'; last_version = val.version } in
      let c : KvChange V = record { key = key; value = val; action = op } in
      let rising = Rising-without key n.last_expired_change n.change_log h.rising in
      let own = log_change_own key n store' val op h stored in
      let old = remove_old-without key n h in
      record {
        expired = rw (old) (purge_expired n' rising h.retained);
        same_store =
            λ k other. rw (old) (ap (lookup k) (purge_store n') ∙ ground (arith, stored k, other));
        kept = λ k b other found. rw (old) (λ newer.
            let left : find_key k log ≡ some b =
              ground
                (arith, found, other, find_key-without k key n.change_log, same_key_sym key k) in
            ground (
              arith,
              purge-kept n' rising h.retained k b left newer,
              find_key-append k (purge n').change_log c,
            ));
        own = (c, own, above);
      }

  Logged-Since :
      (key : Key) (base n n' : KvNamespace V)
      → Logged key n n'
      → n.last_version ≤ n'.last_version
      → Since base n
      → Since base n'
  Logged-Since key base n n' l up s = record {
    later = omega (arith, s.later, up);
    logged = λ k old. elim (Bool-cases (same_key key k)) [
      | inl same ↦
          let (c, found, newer) = l.own in
          inr (
            c,
            subst (λ j. find_key j n'.change_log ≡ some c) (same_key_iff key k same) found,
            omega (arith, newer, s.later),
          )
      | inr other ↦ elim (s.logged k (omega (arith, l.expired, old))) [
        | inl e ↦ inl (l.same_store k other ∙ e)
        | inr (c, found, newer) ↦ inr (c, l.kept k c other found (omega (arith, old, newer)), newer)
      ]
    ];
  }

  pub perform-Since :
      (base : KvNamespace V) (o : KvOp V) (n : KvNamespace V)
      → Holds n
      → n.last_version + 1 < 2 ^ 64
      → Since base n
      → Since base (perform o n)
  unfolding perform set delete_key old_version
  perform-Since base (set_op key value) n h fits s =
      let newv : KvNsValue V = record { value = value; version = next_version n.last_version } in
      Logged-Since key base n (set key value n)
        (log_change-Logged key n (insert key newv n.store) newv op_set h
          (rw (next_version_lem n.last_version fits) (omega arith))
          (λ k. lookup-insert k key newv n.store ∙ ground (arith, same_key_sym key k)))
        (perform_last_version (set_op key value) n fits).0 s
  perform-Since base (delete_op key) n h fits s = elim (Option-cases (lookup key n.store)) [
    | inl e ↦ rw (e, perform, delete_key) s
    | inr (oldv, e) ↦
        let gone : KvNsValue V = record {
          value = oldv.value;
          version = next_version n.last_version;
        } in
        let n' = record n { store = delete key n.store; last_version = gone.version } in
        let l =
          log_change-Logged key n (delete key n.store) gone op_delete h
            (rw (next_version_lem n.last_version fits) (omega arith))
            (λ k. lookup-delete k key n.store ∙ ground (arith, same_key_sym key k)) in
        let up : n.last_version ≤ (log_change key gone oldv.version op_delete n').last_version =
          omega (
            arith,
            log_change_last_version key gone oldv.version op_delete n',
            next_version_lem n.last_version fits,
          ) in
        rw (e, perform, delete_key)
          (Logged-Since key base n (log_change key gone oldv.version op_delete n')
            (subst (λ o. Logged key n (log_change key gone (old_version o) op_delete n')) e l) up s)
  ]

  pub perform_all-Since :
      (base : KvNamespace V) (ops : List (KvOp V)) (n : KvNamespace V)
      → Holds n
      → n.last_version + length ops < 2 ^ 64
      → Since base n
      → Since base (perform_all ops n)
  unfolding perform_all
  perform_all-Since base [] n h fits s = s
  perform_all-Since base (o ∷ os) n h fits s =
      let fits_one : n.last_version + 1 < 2 ^ 64 = omega (arith, fits) in
      let up = perform_last_version o n fits_one in
      perform_all-Since base os (perform o n) (perform-Holds o n h fits_one)
        (omega (arith, fits, up)) (perform-Since base o n h fits_one s)

-- ===== src/Kv/Holds/Logging.antt =====
-- The operations of pkg/keyvalueservice/namespace.go keep the state of a namespace: logChange in its
-- three parts, Set, Delete, and any sequence of them.
use z_presplit_aci_container.Base.{
  ℕ, suc, ◌-◌, ◌*◌, ◌<◌, ◌≤◌, ◌≡◌, ◌⊎◌, ◌∙◌, sym, ap, subst, false, [], ◌∷◌, ◌++◌, none, some,
  length, drop, leb, Bool-cases, Option-cases, inl, inr, arith, length-append, length-drop,
  if◌then◌else◌, dec_le,
}
use z_presplit_aci_container.Base.Maps.{
  Key, KeyMap, lookup, same_key, same_key_iff, same_key_refl, same_key_sym,
}
use z_presplit_aci_container.Kv.{
  KvNsValue, KvChange, KvNamespace, Op, op_set, op_delete, old_version, purge, log_change,
  version_at,
}
use z_presplit_aci_container.Kv.Log.{
  Rising, Upto, Distinct, find_key, without, find_key-without, Rising-without, Upto-without,
  Distinct-without, length-without, find_key-append, Rising-append, Upto-append, Distinct-append,
  Upto-drop, Distinct-drop,
}
use z_presplit_aci_container.Kv.Log.Positions.{version_at-above}
use z_presplit_aci_container.Kv.Log.Dropped.{
  Rising-drop, find_key-dropped, find_key-kept, version_at-Upto,
}
use z_presplit_aci_container.Kv.Holds.{Holds, state_of, set_change, remove_old-without}

module _ {V : Type 0} where
  -- A namespace in the middle of logChange: the log has no change of `key` yet, and goes up to `last`.
  record Ready (key : Key) (last : ℕ) (n : KvNamespace V) : Type 0 where
    retained : 0 < n.max_retained
    rising : Rising n.last_expired_change n.change_log
    upto : Upto last n.change_log
    distinct : Distinct n.change_log
    absent : find_key key n.change_log ≡ none
    expired : n.last_expired_change ≤ last
    bounded : length n.change_log ≤ 2 * n.max_retained
    current :
        (k : Key) (c : KvChange V)
        → find_key k n.change_log ≡ some c
        → state_of c.action c.value ≡ lookup k n.store
    stored :
        (k : Key) (v : KvNsValue V)
        → same_key key k ≡ false
        → lookup k n.store ≡ some v
        → (0 < v.version)
          × (v.version ≤ last)
          × ((v.version ≤ n.last_expired_change)
              ⊎ (find_key k n.change_log ≡ some (set_change k v)))

  module _ (key : Key) (last : ℕ) (n : KvNamespace V) where
    dropped_absent : Ready key last n → find_key key (drop n.max_retained n.change_log) ≡ none
    dropped_absent r = elim (Option-cases (find_key key (drop n.max_retained n.change_log))) [
      | inl h ↦ h
      | inr (c, h) ↦ absurd (
          ground (arith, find_key-dropped key n.max_retained n.change_log c r.distinct h, r.absent))
    ]

    -- A value that was in the log is in what is left, or is as old as the last change dropped.
    still_known :
        (k : Key) (v : KvNsValue V)
        → Ready key last n
        → n.max_retained - 1 < length n.change_log
        → (v.version ≤ n.last_expired_change) ⊎ (find_key k n.change_log ≡ some (set_change k v))
        → (v.version ≤ version_at n.change_log (n.max_retained - 1))
          ⊎ (find_key k (drop n.max_retained n.change_log) ≡ some (set_change k v))
    still_known k v r inside known =
        let i = n.max_retained - 1 in
        let cut = version_at n.change_log i in
        elim known [
          | inl old ↦ inl (
              omega
                (arith, old, version_at-above n.last_expired_change n.change_log i r.rising inside))
          | inr h ↦ elim (dec_le v.version cut) [
            | yes low ↦ inl low
            | no high ↦
                let e : suc i ≡ n.max_retained = omega (arith, r.retained) in
                let above : cut < v.version = omega arith in
                inr (
                  subst (λ m. find_key k (drop m n.change_log) ≡ some (set_change k v)) e
                    (find_key-kept k n.last_expired_change i n.change_log (set_change k v) r.rising
                      inside h above))
          ]
        ]

    purge_full-Ready :
        Ready key last n
        → length n.change_log ≡ 2 * n.max_retained
        → Ready key last (record n {
          last_expired_change = version_at n.change_log (n.max_retained - 1);
          change_log = drop n.max_retained n.change_log;
        })
    purge_full-Ready r full =
        let log = n.change_log in
        let i = n.max_retained - 1 in
        let e : suc i ≡ n.max_retained = omega (arith, r.retained) in
        let inside : i < length log = omega (arith, full, r.retained) in
        record {
          retained = r.retained;
          rising =
              subst (λ m. Rising (version_at log i) (drop m log)) e
                (Rising-drop n.last_expired_change i log r.rising inside);
          upto = Upto-drop n.max_retained last log r.upto;
          distinct = Distinct-drop n.max_retained log r.distinct;
          absent = dropped_absent r;
          expired = version_at-Upto last i log r.upto inside;
          bounded = omega (arith, length-drop n.max_retained log, r.bounded);
          current = λ k c h. r.current k c (find_key-dropped k n.max_retained log c r.distinct h);
          stored = λ k v other h.
              let was = r.stored k v other h in (was.0, was.1, still_known k v r inside was.2);
        }

    purge-Ready : Ready key last n → Ready key last (purge n)
    unfolding purge
    purge-Ready r = elim (Bool-cases (leb (2 * n.max_retained) (length n.change_log))) [
      | inl h ↦ rw h (purge_full-Ready r (ground (arith, h, r.bounded)))
      | inr h ↦ rw h r
    ]

    length-purge : Ready key last n → length (purge n).change_log < 2 * (purge n).max_retained
    unfolding purge
    length-purge r = elim (Bool-cases (leb (2 * n.max_retained) (length n.change_log))) [
      | inl h ↦ rw h (omega (arith, length-drop n.max_retained n.change_log, r.bounded, r.retained))
      | inr h ↦ rw h (ground (arith, h))
    ]

  pub purge_store : (n : KvNamespace V) → (purge n).store ≡ n.store
  unfolding purge
  purge_store n = ground arith

  pub purge_max_retained : (n : KvNamespace V) → (purge n).max_retained ≡ n.max_retained
  unfolding purge
  purge_max_retained n = ground arith

  pub purge_last_version : (n : KvNamespace V) → (purge n).last_version ≡ n.last_version
  unfolding purge
  purge_last_version n = ground arith

  removed-Ready :
      (key : Key) (n : KvNamespace V) (store' : KeyMap (KvNsValue V)) (version : ℕ)
      → Holds n
      → ((k : Key) → same_key key k ≡ false → lookup k store' ≡ lookup k n.store)
      → Ready key n.last_version (record n {
        change_log = without key n.change_log;
        store = store';
        last_version = version;
      })
  removed-Ready key n store' version h same = record {
    retained = h.retained;
    rising = Rising-without key n.last_expired_change n.change_log h.rising;
    upto = Upto-without key n.last_version n.change_log h.upto;
    distinct = Distinct-without key n.change_log h.distinct;
    absent = ground (arith, find_key-without key key n.change_log, same_key_refl key);
    expired = h.expired;
    bounded = omega (arith, length-without key n.change_log, h.bounded);
    current = λ k c e.
        let other : same_key key k ≡ false =
          ground (arith, e, find_key-without k key n.change_log, same_key_sym key k) in
        let was : find_key k n.change_log ≡ some c =
          ground (arith, e, find_key-without k key n.change_log, same_key_sym key k) in
        h.current k c was ∙ sym (same k other);
    stored = λ k v other e.
        let was = h.stored k v (sym (same k other) ∙ e) in
        (
          was.0,
          was.1,
          elim (was.2) [
            | inl old ↦ inl old
            | inr known ↦ inr (
                ground
                  (arith, known, other, find_key-without k key n.change_log, same_key_sym key k))
          ],
        );
  }

  abbrev change : Key → KvNsValue V → Op → KvChange V
  change key val op = record { key = key; value = val; action = op }

  module _ (key : Key) (last : ℕ) (n : KvNamespace V) (val : KvNsValue V) (op : Op) where
    appended_current :
        Ready key last n
        → lookup key n.store ≡ state_of op val
        → (k : Key) (b : KvChange V)
        → find_key k (n.change_log ++ (change key val op ∷ [])) ≡ some b
        → state_of b.action b.value ≡ lookup k n.store
    appended_current r is_state k b e = elim (Option-cases (find_key k n.change_log)) [
      | inr (d, h) ↦
          r.current k b (ground (arith, e, h, find_key-append k n.change_log (change key val op)))
      | inl h ↦ elim (Bool-cases (same_key key k)) [
        | inl same ↦
            let is : change key val op ≡ b =
              ground (arith, e, h, same, find_key-append k n.change_log (change key val op)) in
            subst (λ b. state_of b.action b.value ≡ lookup k n.store) is
              (subst (λ j. state_of op val ≡ lookup j n.store) (same_key_iff key k same)
                (sym is_state))
        | inr other ↦
            absurd (ground (arith, e, h, other, find_key-append k n.change_log (change key val op)))
      ]
    ]

    appended_key :
        Ready key last n
        → find_key key (n.change_log ++ (change key val op ∷ [])) ≡ some (change key val op)
    appended_key r =
        ground
          (arith, r.absent, same_key_refl key, find_key-append key n.change_log (change key val op))

    appended_other :
        (k : Key) (c : KvChange V)
        → find_key k n.change_log ≡ some c
        → find_key k (n.change_log ++ (change key val op ∷ [])) ≡ some c
    appended_other k c h = ground (arith, h, find_key-append k n.change_log (change key val op))

  set_change_of :
      (key : Key) (val v : KvNsValue V) (op : Op)
      → state_of op val ≡ some v
      → change key val op ≡ set_change key v
  set_change_of key val v op_set h =
      let same : val ≡ v = ground (arith, h) in ap (set_change key) same
  set_change_of key val v op_delete h = absurd (ground (arith, h))

  append-Holds :
      (key : Key) (last : ℕ) (n : KvNamespace V) (val : KvNsValue V) (op : Op)
      → Ready key last n
      → length n.change_log < 2 * n.max_retained
      → last < val.version
      → n.last_version ≡ val.version
      → lookup key n.store ≡ state_of op val
      → Holds (record n { change_log = n.change_log ++ (change key val op ∷ []) })
  append-Holds key last n val op r short later is_last is_state =
      let c = change key val op in
      record {
        retained = r.retained;
        rising =
            Rising-append n.last_expired_change last n.change_log c r.rising r.upto r.expired later;
        upto =
            subst (λ m. Upto m (n.change_log ++ (c ∷ []))) (sym is_last)
              (Upto-append last n.change_log c r.upto (omega (arith, later)));
        distinct = Distinct-append n.change_log c r.distinct r.absent;
        expired = omega (arith, r.expired, later, is_last);
        bounded = omega (arith, length-append n.change_log (c ∷ []), short);
        current = appended_current key last n val op r is_state;
        stored = λ k v e. elim (Bool-cases (same_key key k)) [
          | inl same ↦
              let k_is : key ≡ k = same_key_iff key k same in
              let is_some : state_of op val ≡ some v =
                sym is_state ∙ subst (λ j. lookup j n.store ≡ some v) (sym k_is) e in
              let is : c ≡ set_change key v = set_change_of key val v op is_some in
              let version_is : val.version ≡ v.version = ap (λ b. b.value.version) is in
              (
                omega (arith, version_is, later),
                omega (arith, version_is, is_last),
                inr (
                    subst (λ j. find_key j (n.change_log ++ (c ∷ [])) ≡ some (set_change j v)) k_is
                      (appended_key key last n val op r ∙ ap some is)),
              )
          | inr other ↦
              let was = r.stored k v other e in
              (
                was.0,
                omega (arith, was.1, later, is_last),
                elim (was.2) [
                  | inl old ↦ inl old
                  | inr h ↦ inr (appended_other key last n val op k (set_change k v) h)
                ],
              )
        ];
      }

  pub log_change-Holds :
      (key : Key) (n : KvNamespace V) (store' : KeyMap (KvNsValue V)) (val : KvNsValue V) (op : Op)
      → Holds n
      → n.last_version < val.version
      → ((k : Key)
          → lookup k store' ≡ (if same_key key k then state_of op val else lookup k n.store))
      → Holds (
          log_change key val
            (old_version (lookup key n.store))
            op
            (record n { store = store'; last_version = val.version }))
  unfolding log_change
  log_change-Holds key n store' val op h later stored =
      let n' = record n {
        change_log = without key n.change_log;
        store = store';
        last_version = val.version;
      } in
      let ready : Ready key n.last_version n' =
        removed-Ready key n store' val.version h (λ k other. ground (arith, stored k, other)) in
      rw (remove_old-without key n h) (
        append-Holds key n.last_version (purge n') val op (purge-Ready key n.last_version n' ready)
          (length-purge key n.last_version n' ready) later (purge_last_version n')
          (ap (lookup key) (purge_store n') ∙ ground (arith, stored key, same_key_refl key)))

  pub log_change_own :
      (key : Key) (n : KvNamespace V) (store' : KeyMap (KvNsValue V)) (val : KvNsValue V) (op : Op)
      → Holds n
      → ((k : Key)
          → lookup k store' ≡ (if same_key key k then state_of op val else lookup k n.store))
      → find_key key
          (log_change key val
            (old_version (lookup key n.store))
            op
            (record n { store = store'; last_version = val.version })).change_log
        ≡ some (record { key = key; value = val; action = op })
  unfolding log_change
  log_change_own key n store' val op h stored =
      let n' = record n {
        change_log = without key n.change_log;
        store = store';
        last_version = val.version;
      } in
      let ready : Ready key n.last_version n' =
        removed-Ready key n store' val.version h (λ k other. ground (arith, stored k, other)) in
      rw (remove_old-without key n h) (
        appended_key key n.last_version (purge n') val op (purge-Ready key n.last_version n' ready))

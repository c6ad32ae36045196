-- ===== src/Kv/Holds/Kept.antt =====
-- Set, Delete and any sequence of them keep the state of a namespace of
-- pkg/keyvalueservice/namespace.go, as long as the 64 bits of its version are enough.
use native.Mathlib.Nat.{mod-eq_of_lt}
use z_presplit_aci_container.Base.{
  ℕ, ◌+◌, ◌^◌, ◌<◌, ◌≤◌, ◌≡◌, ◌∙◌, subst, List, [], ◌∷◌, length, Option-cases, inl, inr, arith,
}
use z_presplit_aci_container.Base.Maps.{
  Key, lookup, insert, delete, same_key_sym, lookup-insert, lookup-delete,
}
use z_presplit_aci_container.Kv.{
  KvNsValue, KvNamespace, Op, op_set, op_delete, old_version, log_change, remove_old, next_version,
  set, delete_key, new_kv_namespace,
}
use z_presplit_aci_container.Kv.Log.{find_key}
use z_presplit_aci_container.Kv.Holds.{Holds}
use z_presplit_aci_container.Kv.Holds.Logging.{log_change-Holds, purge_last_version}

-- What changes a namespace.
pub data KvOp (V : Type 0) : Type 0 where
  set_op : Key → V → KvOp V
  delete_op : Key → KvOp V

pub next_version_lem : (v : ℕ) → v + 1 < 2 ^ 64 → next_version v ≡ v + 1
unfolding next_version
next_version_lem v h = mod-eq_of_lt h

module _ {V : Type 0} where
  unfoldable pub perform : KvOp V → KvNamespace V → KvNamespace V
  perform (set_op k v) n = set k v n
  perform (delete_op k) n = (delete_key k n).1

  unfoldable pub perform_all : List (KvOp V) → KvNamespace V → KvNamespace V
  perform_all [] n = n
  perform_all (o ∷ os) n = perform_all os (perform o n)

  pub new_kv_namespace-Holds :
      (name : Key) (max_retained : ℕ)
      → 0 < max_retained
      → Holds (new_kv_namespace {V = V} name max_retained)
  unfolding new_kv_namespace find_key lookup
  new_kv_namespace-Holds name max_retained h = record {
    retained = h;
    rising = tt;
    upto = tt;
    distinct = tt;
    expired = omega arith;
    bounded = omega arith;
    current = λ k c e. absurd (ground (arith, e));
    stored = λ k v e. absurd (ground (arith, e));
  }

  set-Holds :
      (key : Key) (value : V) (n : KvNamespace V)
      → Holds n
      → n.last_version + 1 < 2 ^ 64
      → Holds (set key value n)
  unfolding set
  set-Holds key value n h fits =
      let newv : KvNsValue V = record { value = value; version = next_version n.last_version } in
      log_change-Holds key n (insert key newv n.store) newv op_set h
        (rw (next_version_lem n.last_version fits) (omega arith))
        (λ k. lookup-insert k key newv n.store ∙ ground (arith, same_key_sym key k))

  delete_key-Holds :
      (key : Key) (n : KvNamespace V)
      → Holds n
      → n.last_version + 1 < 2 ^ 64
      → Holds (delete_key key n).1
  unfolding delete_key old_version
  delete_key-Holds key n h fits = elim (Option-cases (lookup key n.store)) [
    | inl e ↦ rw (e, delete_key) h
    | inr (oldv, e) ↦
        let gone : KvNsValue V = record {
          value = oldv.value;
          version = next_version n.last_version;
        } in
        let n' = record n { store = delete key n.store; last_version = gone.version } in
        let kept =
          log_change-Holds key n (delete key n.store) gone op_delete h
            (rw (next_version_lem n.last_version fits) (omega arith))
            (λ k. lookup-delete k key n.store ∙ ground (arith, same_key_sym key k)) in
        rw (e, delete_key)
          (subst (λ o. Holds (log_change key gone (old_version o) op_delete n')) e kept)
  ]

  pub log_change_last_version :
      (key : Key) (val : KvNsValue V) (oldver : ℕ) (op : Op) (n : KvNamespace V)
      → (log_change key val oldver op n).last_version ≡ n.last_version
  unfolding log_change
  log_change_last_version key val oldver op n =
      purge_last_version (record n { change_log = remove_old key oldver n.change_log })

  pub perform-Holds :
      (o : KvOp V) (n : KvNamespace V) → Holds n → n.last_version + 1 < 2 ^ 64 → Holds (perform o n)
  unfolding perform
  perform-Holds (set_op k v) n h fits = set-Holds k v n h fits
  perform-Holds (delete_op k) n h fits = delete_key-Holds k n h fits

  -- A version goes up by one, or not at all.
  pub perform_last_version :
      (o : KvOp V) (n : KvNamespace V)
      → n.last_version + 1 < 2 ^ 64
      → (n.last_version ≤ (perform o n).last_version)
        × ((perform o n).last_version ≤ n.last_version + 1)
  unfolding perform set delete_key
  perform_last_version (set_op k v) n fits =
      let newv : KvNsValue V = record { value = v; version = next_version n.last_version } in
      let e =
        log_change_last_version k newv (old_version (lookup k n.store)) op_set
          (record n { last_version = newv.version; store = insert k newv n.store }) in
      omega (arith, e, next_version_lem n.last_version fits)
  perform_last_version (delete_op k) n fits = elim (Option-cases (lookup k n.store)) [
    | inl e ↦ rw (e, perform, delete_key) (omega arith, omega arith)
    | inr (oldv, e) ↦
        let gone : KvNsValue V = record {
          value = oldv.value;
          version = next_version n.last_version;
        } in
        let l =
          log_change_last_version k gone oldv.version op_delete
            (record n { store = delete k n.store; last_version = gone.version }) in
        let up = next_version_lem n.last_version fits in
        rw (e, perform, delete_key) (omega (arith, l, up), omega (arith, l, up))
  ]

  -- Any sequence of Set and Delete that does not use up the 64 bits of the version keeps this: the
  -- versions in the change log rise strictly from the last expired one to the last one, each key
  -- has at most one change in it, which is what the store has for the key, each stored value is in
  -- the log or not newer than the last expired change, and the log has at most twice maxRetained
  -- changes.
  pub perform_all-Holds :
      (ops : List (KvOp V)) (n : KvNamespace V)
      → Holds n
      → n.last_version + length ops < 2 ^ 64
      → Holds (perform_all ops n)
  unfolding perform_all
  perform_all-Holds [] n h fits = h
  perform_all-Holds (o ∷ os) n h fits =
      let fits_one : n.last_version + 1 < 2 ^ 64 = omega (arith, fits) in
      let up = perform_last_version o n fits_one in
      perform_all-Holds os (perform o n) (perform-Holds o n h fits_one) (omega (arith, fits, up))

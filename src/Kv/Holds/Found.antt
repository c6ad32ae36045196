-- ===== src/Kv/Holds/Found.antt =====
-- Get after the other operations of pkg/keyvalueservice/namespace.go.
use z_presplit_aci_container.Base.{
  ℕ, ◌≡◌, ◌∙◌, refl, ap, true, false, Bool, Option, none, some, Option-cases, inl, inr, arith,
  if◌then◌else◌,
}
use z_presplit_aci_container.Base.Maps.{
  Key, lookup, insert, delete, same_key, same_key_iff, lookup-insert, lookup-delete,
}
use z_presplit_aci_container.Kv.{
  KvNsValue, KvNamespace, Op, op_set, op_delete, old_version, log_change, remove_old, next_version,
  set, delete_key, get, KvItem, Result, ok, err, not_found,
}
use z_presplit_aci_container.Kv.Holds.Logging.{purge_store}
use z_presplit_aci_container.Kv.Holds.Kept.{KvOp, set_op, delete_op, perform}

module _ {V : Type 0} where
  -- What Get finds after a Set or Delete.
  abbrev pub get_after : KvOp V → Key → Result (KvItem V) → Result (KvItem V)
  get_after (set_op k v) j before =
      if same_key j k then ok (record { key = j; value = v; version = 0 }) else before
  get_after (delete_op k) j before = if same_key j k then err not_found else before

  log_change_store :
      (key : Key) (val : KvNsValue V) (oldver : ℕ) (op : Op) (n : KvNamespace V)
      → (log_change key val oldver op n).store ≡ n.store
  unfolding log_change
  log_change_store key val oldver op n =
      purge_store (record n { change_log = remove_old key oldver n.change_log })

  abbrev found : Key → Option (KvNsValue V) → Result (KvItem V)
  found j o = elim o [
    | none ↦ err not_found
    | some v ↦ ok (record { key = j; value = v.value; version = 0 })
  ]

  found_if :
      (b : Bool) (j : Key) (o o' : Option (KvNsValue V))
      → found j (if b then o else o') ≡ (if b then found j o else found j o')
  found_if true j o o' = refl
  found_if false j o o' = refl

  -- After Set, Get returns the value for its key, after Delete it returns KvErrorNotFound, and for
  -- every other key it returns what it returned before, whatever the change log has.
  pub get-perform :
      (o : KvOp V) (j : Key) (n : KvNamespace V) → get j (perform o n) ≡ get_after o j (get j n)
  unfolding get perform set delete_key
  get-perform (set_op k v) j n =
      let newv : KvNsValue V = record { value = v; version = next_version n.last_version } in
      let n' = record n { last_version = newv.version; store = insert k newv n.store } in
      ap (λ store. found j (lookup j store))
        (log_change_store k newv (old_version (lookup k n.store)) op_set n')
      ∙ ap (found j) (lookup-insert j k newv n.store)
      ∙ found_if (same_key j k) j (some newv) (lookup j n.store)
  get-perform (delete_op k) j n = elim (Option-cases (lookup k n.store)) [
    | inl h ↦
        let absent : lookup j n.store ≡ (if same_key j k then none else lookup j n.store) =
          ground (arith, h, same_key_iff j k) in
        rw (h, perform, delete_key)
          (ap (found j) absent ∙ found_if (same_key j k) j none (lookup j n.store))
    | inr (oldv, h) ↦
        let gone : KvNsValue V = record {
          value = oldv.value;
          version = next_version n.last_version;
        } in
        let n' = record n { store = delete k n.store; last_version = gone.version } in
        rw (h, perform, delete_key)
          (ap (λ store. found j (lookup j store))
              (log_change_store k gone oldv.version op_delete n')
            ∙ ap (found j) (lookup-delete j k n.store)
            ∙ found_if (same_key j k) j none (lookup j n.store))
  ]

-- ===== src/Kv/Holds.antt =====
-- The state of a namespace of pkg/keyvalueservice/namespace.go between its operations, and that Set
-- and Delete keep it.
pub mod Logging
pub mod Kept
pub mod Bounded
pub mod Found
pub mod Since
use z_presplit_aci_container.Base.{
  ℕ, ◌*◌, ◌<◌, ◌≤◌, ◌≡◌, ◌≢◌, ◌⊎◌, ◌∙◌, refl, sym, ap, subst, true, false, List, Option, none, some,
  length, Bool-cases, Option-cases, inl, inr, arith, ◌==◌,
}
use z_presplit_aci_container.Base.Maps.{Key, lookup, same_key}
use z_presplit_aci_container.Kv.{
  KvNsValue, KvChange, KvNamespace, Op, op_set, op_delete, old_version, remove_old, find_version,
  find_key_below, version_at, key_at,
}
use z_presplit_aci_container.Kv.Log.{Rising, Upto, Distinct, find_key, without, without-absent}
use z_presplit_aci_container.Kv.Log.Positions.{
  IsAt, version_at-above, find_key-IsAt, find_key_absent, remove_change-without, remove_change_none,
  find_key_below-cases, find_version-cases, version_at_unique,
}

module _ {V : Type 0} where
  -- What the store has for a key after a change.
  abbrev pub state_of : Op → KvNsValue V → Option (KvNsValue V)
  state_of op_set v = some v
  state_of op_delete v = none

  abbrev pub set_change : Key → KvNsValue V → KvChange V
  set_change k v = record { key = k; value = v; action = op_set }

  -- The log's changes are the latest ones, and a stored value is in the log or has expired.
  pub record Holds (n : KvNamespace V) : Type 0 where
    pub retained : 0 < n.max_retained
    pub rising : Rising n.last_expired_change n.change_log
    pub upto : Upto n.last_version n.change_log
    pub distinct : Distinct n.change_log
    pub expired : n.last_expired_change ≤ n.last_version
    pub bounded : length n.change_log ≤ 2 * n.max_retained
    pub current :
        (k : Key) (c : KvChange V)
        → find_key k n.change_log ≡ some c
        → state_of c.action c.value ≡ lookup k n.store
    pub stored :
        (k : Key) (v : KvNsValue V)
        → lookup k n.store ≡ some v
        → (0 < v.version)
          × (v.version ≤ n.last_version)
          × ((v.version ≤ n.last_expired_change)
              ⊎ (find_key k n.change_log ≡ some (set_change k v)))

  state_of_set : (op : Op) (u v : KvNsValue V) → state_of op u ≡ some v → u.version ≡ v.version
  state_of_set op_set u v h = let same : u ≡ v = ground (arith, h) in ap (λ x. x.version) same
  state_of_set op_delete u v h = absurd (ground (arith, h))

  module _ (k : Key) (n : KvNamespace V) (holds : Holds n) where
    remove_unstored : lookup k n.store ≡ none → remove_old k 0 n.change_log ≡ without k n.change_log
    unfolding remove_old
    remove_unstored h =
        elim (find_key_below-cases n.change_log k (length n.change_log) (omega arith)) [
          | inl found ↦
              remove_change-without (find_key_below n.change_log k (length n.change_log)) k
                n.change_log holds.distinct found.0 found.1
          | inr missing ↦ rw (missing.0) (
              remove_change_none n.change_log
              ∙ sym (without-absent k n.change_log (find_key_absent k n.change_log missing.1)))
        ]

    module _ (v : KvNsValue V) (is_stored : lookup k n.store ≡ some v) where
      -- The version that a stored value has leads to no other key's change.
      found_key_is :
          (i : ℕ)
          → i < length n.change_log
          → version_at n.change_log i ≡ v.version
          → key_at n.change_log i ≡ k
      found_key_is i inside e = elim (holds.stored k v is_stored).2 [
        | inl old ↦ absurd (
            omega (
              arith,
              old,
              e,
              version_at-above n.last_expired_change n.change_log i holds.rising inside,
            ))
        | inr h ↦
            let (j, at) = find_key-IsAt k n.change_log (set_change k v) h in
            subst (λ m. key_at n.change_log m ≡ k)
              (version_at_unique n.last_expired_change n.change_log j i holds.rising at.within
                inside (at.version_is ∙ sym e))
              at.key_is
      ]

      missing_absent :
          ((j : ℕ) → j < length n.change_log → version_at n.change_log j ≢ v.version)
          → find_key k n.change_log ≡ none
      missing_absent h = elim (Option-cases (find_key k n.change_log)) [
        | inl e ↦ e
        | inr (c, e) ↦
            let (j, at) = find_key-IsAt k n.change_log c e in
            absurd (
              h j at.within
                (at.version_is ∙ state_of_set c.action c.value v (holds.current k c e ∙ is_stored)))
      ]

      remove_stored : remove_old k v.version n.change_log ≡ without k n.change_log
      unfolding remove_old
      remove_stored =
          let nonzero : (v.version == 0) ≡ false = ground (arith, (holds.stored k v is_stored).0) in
          rw nonzero
            (elim (find_version-cases n.last_expired_change n.change_log v.version holds.rising) [
              | inl found ↦
                  remove_change-without (find_version n.change_log v.version) k n.change_log
                    holds.distinct found.0
                    (found_key_is (find_version n.change_log v.version) found.0 found.1)
              | inr missing ↦ rw (missing.0) (
                  remove_change_none n.change_log
                  ∙ sym (without-absent k n.change_log (missing_absent missing.1)))
            ])

  -- Between two operations, the search of logChange by the version of the stored value of a key,
  -- or by the key when nothing is stored, ends at the one older change of the key, if the log has
  -- it: what is left is the log without the changes of that key, in the same order.
  pub remove_old-without :
      (k : Key) (n : KvNamespace V)
      → Holds n
      → remove_old k (old_version (lookup k n.store)) n.change_log ≡ without k n.change_log
  unfolding old_version
  remove_old-without k n holds = elim (Option-cases (lookup k n.store)) [
    | inl h ↦ rw h (remove_unstored k n holds h)
    | inr (v, h) ↦ rw h (remove_stored k n holds v h)
  ]

-- ===== src/Kv/Holds/Bounded.antt =====
-- The size of the change log of pkg/keyvalueservice/namespace.go.
use z_presplit_aci_container.Base.{
  ℕ, ◌+◌, ◌*◌, ◌^◌, ◌<◌, ◌≤◌, ◌≡◌, ◌∙◌, refl, List, [], ◌∷◌, length, Option-cases, inl, inr, arith,
}
use z_presplit_aci_container.Base.Maps.{Key, lookup}
use z_presplit_aci_container.Kv.{KvNamespace, log_change, set, delete_key, new_kv_namespace}
use z_presplit_aci_container.Kv.Holds.Logging.{purge_max_retained}
use z_presplit_aci_container.Kv.Holds.Kept.{
  KvOp, set_op, delete_op, perform, perform_all, new_kv_namespace-Holds, perform_all-Holds,
  perform_last_version,
}

module _ {V : Type 0} where
  perform_all_last_version :
      (ops : List (KvOp V)) (n : KvNamespace V)
      → n.last_version + length ops < 2 ^ 64
      → (perform_all ops n).last_version ≤ n.last_version + length ops
  unfolding perform_all
  perform_all_last_version [] n fits = omega arith
  perform_all_last_version (o ∷ os) n fits =
      let up = perform_last_version o n (omega (arith, fits)) in
      omega (arith, up, fits, perform_all_last_version os (perform o n) (omega (arith, up, fits)))

  perform_max_retained :
      (o : KvOp V) (n : KvNamespace V) → (perform o n).max_retained ≡ n.max_retained
  unfolding perform set delete_key log_change
  perform_max_retained (set_op k v) n = purge_max_retained _
  perform_max_retained (delete_op k) n = elim (Option-cases (lookup k n.store)) [
    | inl e ↦ rw (e, perform, delete_key) refl
    | inr (oldv, e) ↦ rw (e, perform, delete_key) (purge_max_retained _)
  ]

  perform_all_max_retained :
      (ops : List (KvOp V)) (n : KvNamespace V) → (perform_all ops n).max_retained ≡ n.max_retained
  unfolding perform_all
  perform_all_max_retained [] n = refl
  perform_all_max_retained (o ∷ os) n =
      perform_all_max_retained os (perform o n) ∙ perform_max_retained o n

  -- After any sequence of Set and Delete on a new namespace, fewer than 2^64 of them, the change
  -- log has at most twice maxRetained changes, and the last version is at most their number.
  pub perform_all-bounded :
      (name : Key) (max_retained : ℕ) (ops : List (KvOp V))
      → 0 < max_retained
      → length ops < 2 ^ 64
      → (length (perform_all ops (new_kv_namespace name max_retained)).change_log
          ≤ 2 * max_retained)
        × ((perform_all ops (new_kv_namespace name max_retained)).last_version ≤ length ops)
  unfolding new_kv_namespace
  perform_all-bounded name max_retained ops h fits =
      let n = new_kv_namespace {V = V} name max_retained in
      let holds =
        perform_all-Holds ops n (new_kv_namespace-Holds name max_retained h)
          (omega (arith, fits)) in
      (
        omega (arith, holds.bounded, perform_all_max_retained ops n),
        omega (arith, perform_all_last_version ops n (omega (arith, fits))),
      )

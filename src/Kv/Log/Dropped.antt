-- ===== src/Kv/Log/Dropped.antt =====
-- The newer half of the change log of pkg/keyvalueservice/namespace.go, after a purge.
use z_presplit_aci_container.Base.{
  ℕ, zero, suc, ◌<◌, ◌≤◌, ◌≡◌, List, [], ◌∷◌, some, length, drop, subst, Bool-cases, inl, inr,
  arith,
}
use z_presplit_aci_container.Base.Maps.{Key, same_key, same_key_iff}
use z_presplit_aci_container.Kv.{KvChange, version_at}
use z_presplit_aci_container.Kv.Log.{Rising, Upto, Distinct, find_key}
use z_presplit_aci_container.Kv.Log.Positions.{version_at-above}

module _ {V : Type 0} where
  pub find_key-key :
      (k : Key) (log : List (KvChange V)) (c : KvChange V) → find_key k log ≡ some c → c.key ≡ k
  unfolding find_key
  find_key-key k [] c h = absurd (ground (arith, h))
  find_key-key k (d ∷ ds) c h = elim (Bool-cases (same_key d.key k)) [
    | inl e ↦
        let same : d ≡ c = ground (arith, h, e) in
        subst (λ b. b.key ≡ k) same (same_key_iff d.key k e)
    | inr e ↦ find_key-key k ds c (ground (arith, h, e))
  ]

  pub Rising-drop :
      (lo i : ℕ) (log : List (KvChange V))
      → Rising lo log
      → i < length log
      → Rising (version_at log i) (drop (suc i) log)
  unfolding version_at
  Rising-drop lo i [] r h = absurd (omega arith)
  Rising-drop lo zero (c ∷ cs) r h = r.1
  Rising-drop lo (suc i) (c ∷ cs) r h = Rising-drop c.value.version i cs r.1 (omega arith)

  pub find_key-dropped :
      (k : Key) (m : ℕ) (log : List (KvChange V)) (c : KvChange V)
      → Distinct log
      → find_key k (drop m log) ≡ some c
      → find_key k log ≡ some c
  unfolding find_key
  find_key-dropped k zero log c d h = h
  find_key-dropped k (suc m) [] c d h = h
  find_key-dropped k (suc m) (b ∷ bs) c d h =
      ground (arith, find_key-dropped k m bs c d.1 h, d.0, same_key_iff b.key k)

  pub find_key-kept :
      (k : Key) (lo i : ℕ) (log : List (KvChange V)) (c : KvChange V)
      → Rising lo log
      → i < length log
      → find_key k log ≡ some c
      → version_at log i < c.value.version
      → find_key k (drop (suc i) log) ≡ some c
  unfolding find_key version_at
  find_key-kept k lo i [] c r l h v = absurd (omega arith)
  find_key-kept k lo zero (b ∷ bs) c r l h v = elim (Bool-cases (same_key b.key k)) [
    | inl e ↦
        let same : b ≡ c = ground (arith, h, e) in
        absurd (omega (arith, v, subst (λ d. d.value.version ≤ b.value.version) same (omega arith)))
    | inr e ↦ ground (arith, h, e)
  ]
  find_key-kept k lo (suc i) (b ∷ bs) c r l h v = elim (Bool-cases (same_key b.key k)) [
    | inl e ↦
        let same : b ≡ c = ground (arith, h, e) in
        let low : c.value.version ≤ b.value.version =
          subst (λ d. d.value.version ≤ b.value.version) same (omega arith) in
        absurd (omega (arith, v, low, version_at-above b.value.version bs i r.1 (omega arith)))
    | inr e ↦ find_key-kept k b.value.version i bs c r.1 (omega arith) (ground (arith, h, e)) v
  ]

  pub version_at-Upto :
      (hi i : ℕ) (log : List (KvChange V)) → Upto hi log → i < length log → version_at log i ≤ hi
  unfolding version_at
  version_at-Upto hi i [] u h = absurd (omega arith)
  version_at-Upto hi zero (c ∷ cs) u h = u.0
  version_at-Upto hi (suc i) (c ∷ cs) u h = version_at-Upto hi i cs u.1 (omega arith)

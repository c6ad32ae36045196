-- ===== src/Kv/Log.antt =====
-- The change log of pkg/keyvalueservice/namespace.go: versions that rise, one change for each key,
-- and what the two searches and the removal of logChange do on such a log.
pub mod Positions
pub mod Dropped
use z_presplit_aci_container.Base.{
  ℕ, zero, suc, ◌+◌, ◌<◌, ◌≤◌, ◌≡◌, refl, ap, Bool, true, false, not, ◌&&◌, ◌||◌, List, [], ◌∷◌,
  ◌++◌, map, Option, none, some, length, drop, All, if◌then◌else◌, Bool-cases, Option-cases, inl,
  inr, arith,
}
use z_presplit_aci_container.Base.Maps.{
  Key, same_key, member, same_key_iff, same_key_refl, same_key_sym,
}
use z_presplit_aci_container.Kv.{KvChange, Op, KvNsValue}

module _ {V : Type 0} where
  -- The versions are above `lo` and rise strictly.
  abbrev pub Rising : ℕ → List (KvChange V) → Type 0
  Rising lo [] = Unit
  Rising lo (c ∷ cs) = (lo < c.value.version) × Rising c.value.version cs

  abbrev pub Upto : ℕ → List (KvChange V) → Type 0
  Upto hi = All (λ c. c.value.version ≤ hi)

  -- The first change of a key.
  unfoldable pub find_key : Key → List (KvChange V) → Option (KvChange V)
  find_key key [] = none
  find_key key (c ∷ cs) = if same_key c.key key then some c else find_key key cs

  -- The log without the changes of a key.
  unfoldable pub without : Key → List (KvChange V) → List (KvChange V)
  without key [] = []
  without key (c ∷ cs) = let rest = without key cs in if same_key c.key key then rest else c ∷ rest

  -- No key has two changes.
  abbrev pub Distinct : List (KvChange V) → Type 0
  Distinct [] = Unit
  Distinct (c ∷ cs) = (find_key c.key cs ≡ none) × Distinct cs

  pub Rising-weaken :
      (lo lo' : ℕ) (log : List (KvChange V)) → lo' ≤ lo → Rising lo log → Rising lo' log
  Rising-weaken lo lo' [] h r = tt
  Rising-weaken lo lo' (c ∷ cs) h r = (omega (arith, r.0), r.1)

  pub find_key-without :
      (j k : Key) (log : List (KvChange V))
      → find_key j (without k log) ≡ (if same_key j k then none else find_key j log)
  unfolding find_key without
  find_key-without j k [] = ground arith
  find_key-without j k (c ∷ cs) = ground (
    arith,
    find_key-without j k cs,
    same_key_iff c.key k,
    same_key_iff c.key j,
    same_key_iff j k,
    same_key_refl j,
  )

  pub without-absent :
      (k : Key) (log : List (KvChange V)) → find_key k log ≡ none → without k log ≡ log
  unfolding find_key without
  without-absent k [] h = refl
  without-absent k (c ∷ cs) h = elim (Bool-cases (same_key c.key k)) [
    | inl e ↦ absurd (ground (arith, e, h))
    | inr e ↦ rw e (ap (◌∷◌ c) (without-absent k cs (ground (arith, e, h))))
  ]

  pub Rising-without :
      (k : Key) (lo : ℕ) (log : List (KvChange V)) → Rising lo log → Rising lo (without k log)
  unfolding without
  Rising-without k lo [] r = tt
  Rising-without k lo (c ∷ cs) r = elim (Bool-cases (same_key c.key k)) [
    | inl e ↦ rw e (
        Rising-weaken c.value.version lo (without k cs) (omega (arith, r.0))
          (Rising-without k c.value.version cs r.1))
    | inr e ↦ rw e ((r.0, Rising-without k c.value.version cs r.1))
  ]

  pub Upto-without :
      (k : Key) (hi : ℕ) (log : List (KvChange V)) → Upto hi log → Upto hi (without k log)
  unfolding without
  Upto-without k hi [] u = tt
  Upto-without k hi (c ∷ cs) u = elim (Bool-cases (same_key c.key k)) [
    | inl e ↦ rw e (Upto-without k hi cs u.1)
    | inr e ↦ rw e ((u.0, Upto-without k hi cs u.1))
  ]

  pub Distinct-without :
      (k : Key) (log : List (KvChange V)) → Distinct log → Distinct (without k log)
  unfolding without
  Distinct-without k [] d = tt
  Distinct-without k (c ∷ cs) d = elim (Bool-cases (same_key c.key k)) [
    | inl e ↦ rw e (Distinct-without k cs d.1)
    | inr e ↦ rw e ((ground (arith, find_key-without c.key k cs, d.0), Distinct-without k cs d.1))
  ]

  pub length-without : (k : Key) (log : List (KvChange V)) → length (without k log) ≤ length log
  unfolding without
  length-without k [] = omega arith
  length-without k (c ∷ cs) = elim (Bool-cases (same_key c.key k)) [
    | inl e ↦ rw e (omega (arith, length-without k cs))
    | inr e ↦ rw e (omega (arith, length-without k cs))
  ]

  pub find_key-append :
      (k : Key) (log : List (KvChange V)) (c : KvChange V)
      → find_key k (log ++ (c ∷ [])) ≡ (elim (find_key k log) [
        | none ↦ if same_key c.key k then some c else none
        | some d ↦ some d
      ])
  unfolding find_key
  find_key-append k [] c = refl
  find_key-append k (d ∷ ds) c = elim (Bool-cases (same_key d.key k)) [
    | inl e ↦ rw e refl
    | inr e ↦ rw e (find_key-append k ds c)
  ]

  pub Rising-append :
      (lo hi : ℕ) (log : List (KvChange V)) (c : KvChange V)
      → Rising lo log
      → Upto hi log
      → lo ≤ hi
      → hi < c.value.version
      → Rising lo (log ++ (c ∷ []))
  Rising-append lo hi [] c r u l h = (omega arith, tt)
  Rising-append lo hi (d ∷ ds) c r u l h =
      (r.0, Rising-append d.value.version hi ds c r.1 u.1 u.0 h)

  pub Upto-append :
      (hi : ℕ) (log : List (KvChange V)) (c : KvChange V)
      → Upto hi log
      → hi ≤ c.value.version
      → Upto c.value.version (log ++ (c ∷ []))
  Upto-append hi [] c u h = (omega arith, tt)
  Upto-append hi (d ∷ ds) c u h = (omega (arith, u.0), Upto-append hi ds c u.1 h)

  pub Distinct-append :
      (log : List (KvChange V)) (c : KvChange V)
      → Distinct log
      → find_key c.key log ≡ none
      → Distinct (log ++ (c ∷ []))
  unfolding find_key
  Distinct-append [] c d h = (refl, tt)
  Distinct-append (b ∷ bs) c d h = (
    ground (arith, find_key-append b.key bs c, d.0, h, same_key_sym b.key c.key),
    Distinct-append bs c d.1 (ground (arith, h)),
  )

  pub Upto-drop : (m hi : ℕ) (log : List (KvChange V)) → Upto hi log → Upto hi (drop m log)
  Upto-drop zero hi log u = u
  Upto-drop (suc m) hi [] u = tt
  Upto-drop (suc m) hi (c ∷ cs) u = Upto-drop m hi cs u.1

  pub Distinct-drop : (m : ℕ) (log : List (KvChange V)) → Distinct log → Distinct (drop m log)
  Distinct-drop zero log d = d
  Distinct-drop (suc m) [] d = tt
  Distinct-drop (suc m) (c ∷ cs) d = Distinct-drop m cs d.1

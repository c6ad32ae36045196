-- ===== src/Kv/Log/Positions.antt =====
-- Positions in the change log of pkg/keyvalueservice/namespace.go: where its searches end, and what
-- the removal of the change at a position leaves.
use z_presplit_aci_container.Base.{
  ℕ, zero, suc, ◌+◌, ◌-◌, ◌<◌, ◌≤◌, ◌≡◌, ◌≢◌, ◌⊎◌, refl, sym, ap, subst, ◌∙◌, true, false, List, [],
  ◌∷◌, ◌++◌, none, some, length, take, drop, leb, ltb, ◌==◌, Bool-cases, inl, inr, arith,
  append-nil, append_assoc, length-append, length-take, length-drop, take-length_append,
  sort_search, IsBoundary, sort_search-IsBoundary, dec_lt,
}
use z_presplit_aci_container.Base.Maps.{Key, same_key, same_key_iff, same_key_refl}
use z_presplit_aci_container.Kv.{
  KvChange, version_at, key_at, find_version, find_key_below, remove_change,
}
use z_presplit_aci_container.Kv.Log.{Rising, Distinct, find_key, without, without-absent}

drop_all : {A : Type 0} (n : ℕ) (xs : List A) → length xs ≤ n → drop n xs ≡ []
drop_all zero [] h = refl
drop_all zero (x ∷ xs) h = absurd (omega arith)
drop_all (suc n) [] h = refl
drop_all (suc n) (x ∷ xs) h = drop_all n xs (omega arith)

-- A change at a position of the log, by its key and its version.
pub record IsAt {V : Type 0} (log : List (KvChange V)) (key : Key) (version : ℕ) (i : ℕ)
    : Type 0 where
  pub within : i < length log
  pub key_is : key_at log i ≡ key
  pub version_is : version_at log i ≡ version

ℕ_split : (j i : ℕ) → j < suc i → (j < i) ⊎ (j ≡ i)
ℕ_split j i h = elim (dec_lt j i) [ yes l ↦ inl l | no n ↦ inr (omega arith) ]

module _ {V : Type 0} where
  pub version_at-above :
      (lo : ℕ) (log : List (KvChange V)) (j : ℕ)
      → Rising lo log
      → j < length log
      → lo < version_at log j
  unfolding version_at
  version_at-above lo [] j r h = absurd (omega arith)
  version_at-above lo (c ∷ cs) zero r h = r.0
  version_at-above lo (c ∷ cs) (suc j) r h =
      omega (arith, r.0, version_at-above c.value.version cs j r.1 (omega arith))

  pub version_at-rises :
      (lo : ℕ) (log : List (KvChange V)) (i j : ℕ)
      → Rising lo log
      → i < j
      → j < length log
      → version_at log i < version_at log j
  unfolding version_at
  version_at-rises lo [] i j r l h = absurd (omega arith)
  version_at-rises lo (c ∷ cs) i zero r l h = absurd (omega arith)
  version_at-rises lo (c ∷ cs) zero (suc j) r l h =
      version_at-above c.value.version cs j r.1 (omega arith)
  version_at-rises lo (c ∷ cs) (suc i) (suc j) r l h =
      version_at-rises c.value.version cs i j r.1 (omega arith) (omega arith)

  pub find_key-IsAt :
      (k : Key) (log : List (KvChange V)) (c : KvChange V)
      → find_key k log ≡ some c
      → (i : ℕ) × IsAt log k c.value.version i
  unfolding find_key key_at version_at
  find_key-IsAt k [] c h = absurd (ground (arith, h))
  find_key-IsAt k (d ∷ ds) c h = elim (Bool-cases (same_key d.key k)) [
    | inl e ↦
        let same : d ≡ c = ground (arith, h, e) in
        (
          0,
          record {
            within = omega arith;
            key_is = same_key_iff d.key k e;
            version_is = ap (λ b. b.value.version) same;
          },
        )
    | inr e ↦
        let (i, at) = find_key-IsAt k ds c (ground (arith, h, e)) in
        (
          suc i,
          record {
            within = omega (arith, at.within);
            key_is = at.key_is;
            version_is = at.version_is;
          },
        )
  ]

  pub find_key_absent :
      (k : Key) (log : List (KvChange V))
      → ((j : ℕ) → j < length log → same_key (key_at log j) k ≡ false)
      → find_key k log ≡ none
  unfolding find_key key_at
  find_key_absent k [] h = refl
  find_key_absent k (c ∷ cs) h =
      rw (h 0 (omega arith)) (find_key_absent k cs (λ j l. h (suc j) (omega arith)))

  key_at-present :
      (log : List (KvChange V)) (i : ℕ) → i < length log → find_key (key_at log i) log ≢ none
  unfolding find_key key_at
  key_at-present [] i h e = absurd (omega arith)
  key_at-present (c ∷ cs) zero h e = ground (arith, e, same_key_refl c.key)
  key_at-present (c ∷ cs) (suc i) h e = elim (Bool-cases (same_key c.key (key_at cs i))) [
    | inl s ↦ ground (arith, e, s)
    | inr s ↦ key_at-present cs i (omega arith) (ground (arith, e, s))
  ]

  remove_change_lem :
      (i : ℕ) (log : List (KvChange V))
      → i < length log
      → remove_change i log ≡ take i log ++ drop (suc i) log
  unfolding remove_change
  remove_change_lem i log h = elim (Bool-cases (ltb i (length log - 1))) [
    | inl l ↦
        let before = take i log in
        let after = drop (suc i) log in
        let size : length log - 1 ≡ length (before ++ after) = omega (
          arith,
          h,
          length-append before after,
          length-take i log (omega arith),
          length-drop (suc i) log,
        ) in
        let same : i + 1 ≡ suc i = omega arith in
        let inside : ltb i (length log) ≡ true = ground (arith, h) in
        rw (inside, l, same)
          (rw (sym (append_assoc before after (drop (length log - 1) log))) (
            subst (λ n. take n ((before ++ after) ++ drop (length log - 1) log) ≡ before ++ after)
              (sym size) (take-length_append (before ++ after) (drop (length log - 1) log))))
    | inr l ↦
        let last : length log - 1 ≡ i = ground (arith, h, l) in
        let inside : ltb i (length log) ≡ true = ground (arith, h) in
        let none_left : drop (suc i) log ≡ [] = drop_all (suc i) log (omega (arith, last)) in
        rw (inside, l, none_left, append-nil (take i log)) (ap (λ n. take n log) last)
  ]

  take-drop-without :
      (i : ℕ) (k : Key) (log : List (KvChange V))
      → Distinct log
      → i < length log
      → key_at log i ≡ k
      → take i log ++ drop (suc i) log ≡ without k log
  unfolding key_at without
  take-drop-without i k [] d h e = absurd (omega arith)
  take-drop-without zero k (c ∷ cs) d h e =
      let here : same_key c.key k ≡ true = rw e (same_key_refl k) in
      let gone : find_key k cs ≡ none = subst (λ j. find_key j cs ≡ none) e d.0 in
      rw here (sym (without-absent k cs gone))
  take-drop-without (suc i) k (c ∷ cs) d h e = elim (Bool-cases (same_key c.key k)) [
    | inl s ↦
        let same : c.key ≡ key_at cs i = same_key_iff c.key k s ∙ sym e in
        absurd (key_at-present cs i (omega arith) (subst (λ j. find_key j cs ≡ none) same d.0))
    | inr s ↦ rw s (ap (◌∷◌ c) (take-drop-without i k cs d.1 (omega arith) e))
  ]

  pub remove_change-without :
      (i : ℕ) (k : Key) (log : List (KvChange V))
      → Distinct log
      → i < length log
      → key_at log i ≡ k
      → remove_change i log ≡ without k log
  remove_change-without i k log d h e = remove_change_lem i log h ∙ take-drop-without i k log d h e

  pub remove_change_none : (log : List (KvChange V)) → remove_change (length log) log ≡ log
  unfolding remove_change
  remove_change_none log = ground arith

  pub find_key_below-cases :
      (log : List (KvChange V)) (k : Key) (n : ℕ)
      → n ≤ length log
      → ((find_key_below log k n < length log) × (key_at log (find_key_below log k n) ≡ k))
        ⊎ ((find_key_below log k n ≡ length log)
            × ((j : ℕ) → j < n → same_key (key_at log j) k ≡ false))
  unfolding find_key_below
  find_key_below-cases log k zero h = inr (refl, λ j l. absurd (omega arith))
  find_key_below-cases log k (suc i) h = elim (Bool-cases (same_key (key_at log i) k)) [
    | inl e ↦ rw e (inl (omega arith, same_key_iff (key_at log i) k e))
    | inr e ↦ rw e (elim (find_key_below-cases log k i (omega arith)) [
      | inl found ↦ inl found
      | inr missing ↦ inr (
        missing.0,
        λ j l. elim (ℕ_split j i (omega arith)) [ inl lt ↦ missing.1 j lt | inr eq ↦ rw eq e ],
      )
    ])
  ]

  -- Before the boundary of a search in rising versions the versions are too low.
  version_at-before :
      (lo : ℕ) (log : List (KvChange V)) (v r j : ℕ)
      → Rising lo log
      → IsBoundary (length log) (λ i. leb v (version_at log i)) r
      → j < r
      → version_at log j < v
  version_at-before lo log v zero j rising b h = absurd (omega arith)
  version_at-before lo log v (suc r) j rising b h =
      let last : version_at log r < v = ground (arith, b.fails r refl) in
      elim (ℕ_split j r h) [
        | inl l ↦
            omega (arith, last, version_at-rises lo log j r rising l (omega (arith, b.within)))
        | inr e ↦ rw e last
      ]

  version_at-after :
      (lo : ℕ) (log : List (KvChange V)) (v r j : ℕ)
      → Rising lo log
      → v < version_at log r
      → j < length log
      → r < suc j
      → v < version_at log j
  version_at-after lo log v r j rising above h l = elim (ℕ_split r j l) [
    | inl before ↦ omega (arith, above, version_at-rises lo log r j rising before h)
    | inr e ↦ subst (λ i. v < version_at log i) e above
  ]

  pub find_version-cases :
      (lo : ℕ) (log : List (KvChange V)) (v : ℕ)
      → Rising lo log
      → ((find_version log v < length log) × (version_at log (find_version log v) ≡ v))
        ⊎ ((find_version log v ≡ length log) × ((j : ℕ) → j < length log → version_at log j ≢ v))
  unfolding find_version
  find_version-cases lo log v rising =
      let r = sort_search (length log) (λ i. leb v (version_at log i)) in
      let b : IsBoundary (length log) (λ i. leb v (version_at log i)) r =
        sort_search-IsBoundary (length log) (λ i. leb v (version_at log i)) in
      let before : (j : ℕ) → j < r → version_at log j < v =
        λ j h. version_at-before lo log v r j rising b h in
      elim (Bool-cases (ltb r (length log))) [
        | inl inside ↦
            let l : r < length log = ground (arith, inside) in
            elim (Bool-cases (version_at log r == v)) [
              | inl e ↦ rw (inside, e) (inl (l, ground (arith, e)))
              | inr e ↦
                  rw (inside, e)
                    (inr (
                      refl,
                      λ j h same. elim (dec_lt j r) [
                        | yes early ↦ omega (arith, before j early, same)
                        | no late ↦
                            let above : v < version_at log r = ground (arith, b.holds l, e) in
                            omega (
                              arith,
                              same,
                              version_at-after lo log v r j rising above h (omega arith),
                            )
                      ],
                    ))
            ]
        | inr outside ↦
            let end : r ≡ length log = ground (arith, outside, b.within) in
            rw outside (inr (end, λ j h same. omega (arith, same, before j (omega (arith, end)))))
      ]

  -- Rising versions are at one position only.
  pub version_at_unique :
      (lo : ℕ) (log : List (KvChange V)) (i j : ℕ)
      → Rising lo log
      → i < length log
      → j < length log
      → version_at log i ≡ version_at log j
      → i ≡ j
  version_at_unique lo log i j rising hi hj e = elim (dec_lt i j) [
    | yes l ↦ absurd (omega (arith, version_at-rises lo log i j rising l hj))
    | no n ↦ elim (dec_lt j i) [
      | yes l ↦ absurd (omega (arith, version_at-rises lo log j i rising l hi))
      | no m ↦ omega arith
    ]
  ]

-- ===== src/Base/Search.antt =====
-- `sort.Search` of the Go library: binary search for the boundary of a test on indices.
use Prim.Native.Nat.{ℕ, zero, suc, ◌+◌, ◌/◌, ◌≤◌, ◌<◌}
use mathlib.Core.Path.{◌≡◌, subst}
use mathlib.Core.Bool.{Bool, true, false}
use mathlib.Core.Logic.{inl, inr}
use native.Mathlib.Omega.{arith}
use z_presplit_aci_container.Base.Tests.{ltb, ltb→lt, ltb→ge, Bool-cases}

search_loop : ℕ → (ℕ → Bool) → ℕ → ℕ → ℕ
search_loop zero f i j = i
search_loop (suc fuel) f i j = elim (ltb i j) [
  | true ↦ elim (f ((i + j) / 2)) [
    | true ↦ search_loop fuel f i ((i + j) / 2)
    | false ↦ search_loop fuel f ((i + j) / 2 + 1) j
  ]
  | false ↦ i
]

-- The window halves each round, so `n` rounds are enough.
unfoldable pub sort_search : ℕ → (ℕ → Bool) → ℕ
unfolding search_loop
sort_search n f = search_loop n f 0 n

-- The test holds at `r`, unless that is the end, and fails just before it.
pub record IsBoundary (n : ℕ) (f : ℕ → Bool) (r : ℕ) : Type 0 where
  pub within : r ≤ n
  pub holds : r < n → f r ≡ true
  pub fails : (k : ℕ) → suc k ≡ r → f k ≡ false

module _ (n : ℕ) (f : ℕ → Bool) where
  search_loop-IsBoundary :
      (fuel i j : ℕ)
      → j ≤ i + fuel
      → i ≤ j
      → j ≤ n
      → (j < n → f j ≡ true)
      → ((k : ℕ) → suc k ≡ i → f k ≡ false)
      → IsBoundary n f (search_loop fuel f i j)
  unfolding search_loop
  search_loop-IsBoundary zero i j short order fits holds fails =
      let e : j ≡ i = omega arith in
      record {
        within = omega arith;
        holds = subst (λ k. k < n → f k ≡ true) e holds;
        fails = fails;
      }
  search_loop-IsBoundary (suc fuel) i j short order fits holds fails = elim (Bool-cases (ltb i j)) [
    | inr stop ↦
        let e : j ≡ i = omega (arith, ltb→ge i j stop) in
        rw (stop, search_loop)
          (record {
            within = omega arith;
            holds = subst (λ k. k < n → f k ≡ true) e holds;
            fails = fails;
          })
    | inl go ↦
        let p : i < j = ltb→lt i j go in
        elim (Bool-cases (f ((i + j) / 2))) [
          | inl t ↦
              rw (go, search_loop, t)
                (search_loop-IsBoundary fuel i ((i + j) / 2) (omega arith) (omega arith)
                  (omega arith) (λ _. t) fails)
          | inr u ↦
              rw (go, search_loop, u)
                (search_loop-IsBoundary fuel ((i + j) / 2 + 1) j (omega arith) (omega arith)
                  (omega arith) holds
                  (λ k e. subst (λ m. f m ≡ false) (let q : (i + j) / 2 ≡ k = omega arith in q) u))
        ]
  ]

  pub sort_search-IsBoundary : IsBoundary n f (sort_search n f)
  unfolding sort_search
  sort_search-IsBoundary =
      search_loop-IsBoundary n 0 n (omega arith) (omega arith) (omega arith)
        (λ h. absurd (omega arith)) (λ k e. absurd (omega arith))

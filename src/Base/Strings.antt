-- ===== src/Base/Strings.antt =====
-- The order of strings, `strings.Compare` of the Go library: by the characters' numbers, which is the
-- order of the bytes.
use Prim.Native.Nat.{ℕ, Ordering, compare as compare_number}
use Prim.Native.Char.{code}
use Prim.Native.String.compare
use Prim.Native.String.{String, [], ◌∷◌, compare, then}
use mathlib.Core.Path.{◌≡◌, refl, sym, ap, ◌∙◌}
use mathlib.Core.Logic.{◌⊎◌, inl, inr}
use native.Mathlib.Omega.{arith}
pub use text.Mathlib.TextPositions.{compare_refl}
pub use text.Mathlib.TextEquality.{path_by_compare}

-- The other way round.
unfoldable pub flip : Ordering → Ordering
flip Ordering.lt = Ordering.gt
flip Ordering.eq = Ordering.eq
flip Ordering.gt = Ordering.lt

flip-number : (m n : ℕ) → compare_number m n ≡ flip (compare_number n m)
unfolding flip
flip-number m n = ground arith

pub compare-flip : (s t : String) → compare s t ≡ flip (compare t s)
unfolding flip
compare-flip [] [] = refl
compare-flip [] (d ∷ t) = compare.nil-cons d t ∙ ap flip (sym (compare.cons-nil d t))
compare-flip (c ∷ s) [] = compare.cons-nil c s ∙ ap flip (sym (compare.nil-cons c s))
compare-flip (c ∷ s) (d ∷ t) =
    let h = compare.cons-cons c d s t in
    let g = compare.cons-cons d c t s in
    ground (arith, h, g, flip-number (code c) (code d), compare-flip s t)

then-lt :
    (x y : Ordering)
    → then x y ≡ Ordering.lt
    → (x ≡ Ordering.lt) ⊎ ((x ≡ Ordering.eq) × (y ≡ Ordering.lt))
then-lt Ordering.lt y h = inl refl
then-lt Ordering.eq y h = inr (refl, h)
then-lt Ordering.gt y h = ground (arith, h)

pub compare_trans :
    (s t u : String)
    → compare s t ≡ Ordering.lt
    → compare t u ≡ Ordering.lt
    → compare s u ≡ Ordering.lt
compare_trans [] [] u h g = g
compare_trans (c ∷ s) [] u h g = ground (arith, compare.cons-nil c s, h)
compare_trans s (d ∷ t) [] h g = ground (arith, compare.cons-nil d t, g)
compare_trans [] (d ∷ t) (e ∷ u) h g = compare.nil-cons e u
compare_trans (c ∷ s) (d ∷ t) (e ∷ u) h g = ground (
  arith,
  compare.cons-cons c d s t,
  compare.cons-cons d e t u,
  compare.cons-cons c e s u,
  compare_trans s t u,
  h,
  g,
)

pub compare_back : (s t : String) → compare s t ≡ Ordering.lt → compare t s ≡ Ordering.gt
unfolding flip
compare_back s t h = ground (arith, compare-flip t s, h)

pub compare_front : (s t : String) → compare s t ≡ Ordering.gt → compare t s ≡ Ordering.lt
unfolding flip
compare_front s t h = ground (arith, compare-flip t s, h)

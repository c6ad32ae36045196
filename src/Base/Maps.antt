-- ===== src/Base/Maps.antt =====
-- Go's maps with string keys: sets as lists of keys, maps as association lists.
use Prim.Native.String.{String}
use mathlib.Core.Path.{◌≡◌, refl}
use mathlib.Core.Bool.{Bool, true, false, not, ◌&&◌, ◌||◌}
use mathlib.Core.Option.{Option, none, some}
use mathlib.Core.List.{List, [], ◌∷◌}
use native.Mathlib.Omega.{arith}
use text.Mathlib.Text.{◌==◌ as str_eq}
use text.Mathlib.TextEquality.{eq_iff}
use z_presplit_aci_container.Base.Tests.{if◌then◌else◌}

abbrev pub Key : Type 0
Key = String

-- Equality of keys.
unfoldable pub same_key : Key → Key → Bool
same_key = str_eq

abbrev pub KeySet : Type 0
KeySet = List Key

unfoldable pub member : Key → KeySet → Bool
member k [] = false
member k (j ∷ s) = same_key k j || member k s

unfoldable pub add : Key → KeySet → KeySet
add k s = if member k s then s else k ∷ s

unfoldable pub remove : Key → KeySet → KeySet
remove k [] = []
remove k (j ∷ s) = let rest = remove k s in if same_key k j then rest else j ∷ rest

unfoldable pub is_empty : KeySet → Bool
is_empty [] = true
is_empty (k ∷ s) = false

abbrev pub KeyMap {ℓ} : Type ℓ → Type ℓ
KeyMap V = List (Key × V)

module _ {ℓ} {V : Type ℓ} where
  unfoldable pub lookup : Key → KeyMap V → Option V
  lookup k [] = none
  lookup k ((j, v) ∷ m) = if same_key k j then some v else lookup k m

  unfoldable pub insert : Key → V → KeyMap V → KeyMap V
  insert k v [] = (k, v) ∷ []
  insert k v ((j, u) ∷ m) = if same_key k j then (k, v) ∷ m else (j, u) ∷ insert k v m

  unfoldable pub delete : Key → KeyMap V → KeyMap V
  delete k [] = []
  delete k ((j, v) ∷ m) = let rest = delete k m in if same_key k j then rest else (j, v) ∷ rest

pub same_key_iff : (a b : Key) → same_key a b ≡ true → a ≡ b
unfolding same_key
same_key_iff a b h = (eq_iff a b).0 h

pub same_key_refl : (a : Key) → same_key a a ≡ true
unfolding same_key
same_key_refl a = (eq_iff a a).1 refl

-- What a comparison with one key tells of another.
pub same_key_trans : (a b c : Key) → same_key a b ≡ true → same_key a c ≡ same_key b c
same_key_trans a b c h = rw (same_key_iff a b h)

pub same_key_sym : (a b : Key) → same_key a b ≡ same_key b a
unfolding same_key
same_key_sym a b = ground (arith, eq_iff a b, eq_iff b a)

pub member_congr : (j k : Key) (s : KeySet) → same_key j k ≡ true → member j s ≡ member k s
member_congr j k s h = rw (same_key_iff j k h)

pub member-add : (j k : Key) (s : KeySet) → member j (add k s) ≡ (same_key j k || member j s)
unfolding member add
member-add j k s = ground (arith, member_congr j k s)

pub member-remove :
    (j k : Key) (s : KeySet) → member j (remove k s) ≡ (not (same_key j k) && member j s)
unfolding member remove
member-remove j k [] = ground arith
member-remove j k (i ∷ s) =
    ground (arith, member-remove j k s, same_key_iff k i, same_key_iff j i, same_key_iff j k)

module _ {ℓ} {V : Type ℓ} where
  pub lookup-insert :
      (j k : Key) (v : V) (m : KeyMap V)
      → lookup j (insert k v m) ≡ (if same_key j k then some v else lookup j m)
  unfolding lookup insert
  lookup-insert j k v [] = refl
  lookup-insert j k v ((i, u) ∷ m) = ground (
    arith,
    lookup-insert j k v m,
    same_key_iff j k,
    same_key_iff j i,
    same_key_iff k i,
    same_key_trans k i j,
  )

  pub lookup-delete :
      (j k : Key) (m : KeyMap V)
      → lookup j (delete k m) ≡ (if same_key j k then none else lookup j m)
  unfolding lookup delete
  lookup-delete j k [] = ground arith
  lookup-delete j k ((i, u) ∷ m) =
      ground (arith, lookup-delete j k m, same_key_iff j k, same_key_iff j i, same_key_iff k i)

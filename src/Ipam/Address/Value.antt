-- ===== src/Ipam/Address/Value.antt =====
-- Addresses read as big-endian numbers: the byte loops are arithmetic on them.
use z_presplit_aci_container.Base.{
  ℕ, zero, suc, ◌+◌, ◌-◌, ◌*◌, ◌^◌, ◌<◌, ◌≡◌, refl, ap, compare, Bool, true, false, [], ◌∷◌, length,
  get_or, set, All, ltb, leb, if◌then◌else◌, arith, Bool-cases, inl, inr, ◌∙◌, subst, ltb→lt, sym,
}
use native.Mathlib.Nat.{pow-suc, mul_comm}
use z_presplit_aci_container.Ipam.Address.{
  Ip, compare_bytes, increment_loop, decrement_loop, carry_increment, carry_decrement,
  is_adj_or_greater,
}

unfoldable pub value : Ip → ℕ
value [] = 0
value (b ∷ bs) = b * 256 ^ length bs + value bs

abbrev pub IsByte : ℕ → Type 0
IsByte b = b < 256

-- An address of `w` bytes: 4 of them, or 16.
pub record IsIp (w : ℕ) (a : Ip) : Type 0 where
  pub width : length a ≡ w
  pub bytes : All IsByte a

pub pow-suc_256 : (n : ℕ) → 256 ^ suc n ≡ 256 * 256 ^ n
pow-suc_256 n = pow-suc 256 n ∙ mul_comm _ _

pub value_bound : (a : Ip) → All IsByte a → value a < 256 ^ length a
unfolding value
value_bound [] h = omega arith
value_bound (b ∷ bs) h = grind (arith, value_bound bs h.1, pow-suc_256 (length bs))

-- A smaller leading byte decides, whatever follows.
lead_lt : (a b p x y : ℕ) → a < b → x < p → a * p + x < b * p + y
lead_lt a b p x y h k = grind arith

compare-value :
    (a b : Ip)
    → length a ≡ length b
    → All IsByte a
    → All IsByte b
    → compare_bytes a b ≡ compare (value a) (value b)
unfolding compare_bytes value
compare-value [] [] e ha hb = refl
compare-value [] (b ∷ bs) e ha hb = absurd (omega arith)
compare-value (a ∷ as') [] e ha hb = absurd (omega arith)
compare-value (a ∷ as') (b ∷ bs) e ha hb = ground (
  arith,
  compare-value as' bs (omega arith) ha.1 hb.1,
  ap (λ n. 256 ^ n) (let l : length as' ≡ length bs = omega arith in l),
  lead_lt a b (256 ^ length as') (value as') (value bs),
  lead_lt b a (256 ^ length as') (value bs) (value as'),
  value_bound as' ha.1,
  value_bound bs hb.1,
)

-- One more leading byte: the loop first runs over the bytes behind it.
abbrev carry_over : ℕ → Ip × Bool → Ip × Bool
carry_over b (r, c) =
    if c then (if ltb b 255 then ((b + 1) ∷ r, false) else (0 ∷ r, true)) else (b ∷ r, false)

increment_loop-cons :
    (b : ℕ) (r : Ip) (n : ℕ) → increment_loop (b ∷ r) (suc n) ≡ carry_over b (increment_loop r n)
unfolding increment_loop
increment_loop-cons b r zero = refl
increment_loop-cons b r (suc n) = elim (Bool-cases (ltb (get_or r n 0) 255)) [
  | inl e ↦ rw e
  | inr e ↦ rw e (increment_loop-cons b (set r n 0) n)
]

abbrev wrap : Bool → ℕ → ℕ
wrap c n = if c then n else 0

-- The number grows by one; on a carry it has wrapped.
abbrev Increments : Ip → Ip × Bool → Type 0
Increments a (r, c) =
    (value r + wrap c (256 ^ length a) ≡ value a + 1) × (length r ≡ length a) × All IsByte r

succ_mul : (b p : ℕ) → (b + 1) * p ≡ b * p + p
succ_mul b p = omega arith

carry_over-Increments :
    (b : ℕ) (a : Ip) (x : Ip × Bool)
    → b < 256
    → Increments a x
    → Increments (b ∷ a) (carry_over b x)
unfolding value
carry_over-Increments b a (r, false) h k = rw (k.1) (omega arith, refl, (h, k.2))
carry_over-Increments b a (r, true) h k = elim (Bool-cases (ltb b 255)) [
  | inl e ↦
      rw e (rw k.1 (omega (arith, succ_mul b (256 ^ length a))), ap suc k.1, (ground arith, k.2))
  | inr e ↦ rw e (
      let full : b ≡ 255 = ground arith in
      (rw full (omega (arith, pow-suc_256 (length a))), ap suc k.1, (omega arith, k.2)))
]

increment_loop-Increments : (a : Ip) → All IsByte a → Increments a (increment_loop a (length a))
unfolding value
increment_loop-Increments [] h = unfold increment_loop in (omega arith, refl, tt)
increment_loop-Increments (b ∷ a) h =
    rw increment_loop-cons (
      carry_over-Increments b a (increment_loop a (length a)) h.0 (increment_loop-Increments a h.1))

borrow : ℕ → Ip × Bool → Ip × Bool
borrow b (r, c) =
    if c then (if ltb 0 b then ((b - 1) ∷ r, false) else (255 ∷ r, true)) else (b ∷ r, false)

decrement_loop-cons :
    (b : ℕ) (r : Ip) (n : ℕ) → decrement_loop (b ∷ r) (suc n) ≡ borrow b (decrement_loop r n)
unfolding decrement_loop borrow
decrement_loop-cons b r zero = refl
decrement_loop-cons b r (suc n) = elim (Bool-cases (ltb 0 (get_or r n 0))) [
  | inl e ↦ rw e
  | inr e ↦ rw e (decrement_loop-cons b (set r n 255) n)
]

-- The number falls by one; on a borrow it has wrapped.
abbrev Decrements : Ip → Ip × Bool → Type 0
Decrements a (r, c) =
    (value r + 1 ≡ value a + wrap c (256 ^ length a)) × (length r ≡ length a) × All IsByte r

pred_mul : (b p : ℕ) → 0 < b → (b - 1) * p + p ≡ b * p
pred_mul zero p h = elim h [ ]
pred_mul (suc b) p h = grind arith

borrow-Decrements :
    (b : ℕ) (a : Ip) (x : Ip × Bool) → b < 256 → Decrements a x → Decrements (b ∷ a) (borrow b x)
unfolding value borrow
borrow-Decrements b a (r, false) h k = rw (k.1) (omega arith, refl, (h, k.2))
borrow-Decrements b a (r, true) h k = elim (Bool-cases (ltb 0 b)) [
  | inl e ↦ rw e (
    rw k.1 (omega (arith, pred_mul b (256 ^ length a) (ltb→lt 0 b e))),
    ap suc k.1,
    (omega arith, k.2),
  )
  | inr e ↦ rw e (
      let none : b ≡ 0 = ground arith in
      (rw (none, k.1) (omega (arith, pow-suc_256 (length a))), ap suc k.1, (omega arith, k.2)))
]

decrement_loop-Decrements : (a : Ip) → All IsByte a → Decrements a (decrement_loop a (length a))
unfolding value
decrement_loop-Decrements [] h = unfold decrement_loop in (omega arith, refl, tt)
decrement_loop-Decrements (b ∷ a) h =
    rw decrement_loop-cons
      (borrow-Decrements b a (decrement_loop a (length a)) h.0 (decrement_loop-Decrements a h.1))

module _ {w : ℕ} {a : Ip} (ha : IsIp w a) where
  pub value-lt : value a < 256 ^ w
  value-lt = subst (λ n. value a < 256 ^ n) ha.width (value_bound a ha.bytes)

  -- Exact unless all bytes are 255.
  pub increment-value :
      (value (carry_increment a).0 + wrap (carry_increment a).1 (256 ^ w) ≡ value a + 1)
      × IsIp w (carry_increment a).0
  unfolding carry_increment
  increment-value =
      let k = increment_loop-Increments a ha.bytes in
      let e : 256 ^ length a ≡ 256 ^ w = ap (λ n. 256 ^ n) ha.width in
      (rw (← e) k.0, record { width = k.1 ∙ ha.width; bytes = k.2 })

  pub decrement-value :
      (value (carry_decrement a).0 + 1 ≡ value a + wrap (carry_decrement a).1 (256 ^ w))
      × IsIp w (carry_decrement a).0
  unfolding carry_decrement
  decrement-value =
      let k = decrement_loop-Decrements a ha.bytes in
      let e : 256 ^ length a ≡ 256 ^ w = ap (λ n. 256 ^ n) ha.width in
      (rw (← e) k.0, record { width = k.1 ∙ ha.width; bytes = k.2 })

-- On addresses of one width the byte comparison is the comparison of the numbers that the
-- addresses stand for.
pub compare_bytes-value :
    {w : ℕ} {a b : Ip} → IsIp w a → IsIp w b → compare_bytes a b ≡ compare (value a) (value b)
compare_bytes-value {a = a} {b = b} ha hb =
    compare-value a b (ha.width ∙ sym hb.width) ha.bytes hb.bytes

-- The end of the address space is adjacent to everything.
pub is_adj_or_greater-value :
    {w : ℕ} {a b : Ip} → IsIp w a → IsIp w b → is_adj_or_greater a b ≡ leb (value b) (value a + 1)
unfolding is_adj_or_greater
is_adj_or_greater-value {a = a} {b = b} ha hb =
    let (k, next) = increment-value ha in
    elim (Bool-cases (carry_increment a).1) [
      | inl e ↦ ground (arith, value-lt hb)
      | inr e ↦ ground (arith, compare_bytes-value next hb)
    ]

-- Off the ends of the address space the loops are exact.
pub increment_exact :
    {w : ℕ} {a b : Ip}
    → IsIp w a
    → IsIp w b
    → value a < value b
    → value (carry_increment a).0 ≡ value a + 1
increment_exact {a = a} ha hb h = ground (arith, increment-value ha, value-lt hb)

pub decrement_exact :
    {w : ℕ} {a : Ip} → IsIp w a → 0 < value a → value (carry_decrement a).0 + 1 ≡ value a
decrement_exact {a = a} ha h =
    let (k, before) = decrement-value ha in ground (arith, value-lt before)

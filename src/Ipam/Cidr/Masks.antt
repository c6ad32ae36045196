-- ===== src/Ipam/Cidr/Masks.antt =====
-- The subnets of pkg/ipam/iprange.go as ranges: the addresses with one masked address are those from
-- it to its last one.
use z_presplit_aci_container.Base.{
  ℕ, zero, suc, ◌+◌, ◌-◌, ◌*◌, ◌%◌, ◌^◌, ◌<◌, ◌≤◌, ◌≡◌, ◌∙◌, refl, sym, subst, ap, ap₂, [], ◌∷◌,
  length, get_or, All, arith, ◌↔◌, inl, inr, ◌⊎◌,
}
use z_presplit_aci_container.Ipam.Address.{Ip}
use z_presplit_aci_container.Ipam.Address.Value.{value, IsByte, IsIp, pow-suc_256, value_bound}
use z_presplit_aci_container.Ipam.Cidr.{byte_size, mask, last}

-- What one byte does: clearing and setting its last bits.
abbrev IsSplit : ℕ → Type 0
IsSplit p =
    (b : ℕ)
    → b < 256
    → (b - b % p + (p - 1) < 256)
      × (b - b % p < 256)
      × (b - b % p - (b - b % p) % p ≡ b - b % p)
      × ((y : ℕ)
          → y < 256
          → b - b % p ≡ b
          → (y - y % p ≡ b) ↔ ((b ≤ y) × (y ≤ b - b % p + (p - 1))))

IsSplit-by :
    (p : ℕ)
    → ((b : ℕ) → b < 256 → b - b % p + (p - 1) < 256)
    → ((b : ℕ) → b < 256 → b - b % p < 256)
    → ((b : ℕ) → b - b % p - (b - b % p) % p ≡ b - b % p)
    → ((b y : ℕ) → y < 256 → b - b % p ≡ b → y - y % p ≡ b → (b ≤ y) × (y ≤ b - b % p + (p - 1)))
    → ((b y : ℕ) → y < 256 → b - b % p ≡ b → b ≤ y → y ≤ b - b % p + (p - 1) → y - y % p ≡ b)
    → IsSplit p
IsSplit-by p f k r g h b hb =
    (f b hb, k b hb, r b, λ y hy e. (λ q. g b y hy e q, λ q. h b y hy e q.0 q.1))

one-IsSplit : (p : ℕ) → p ≡ 1 → IsSplit p
one-IsSplit p e = subst IsSplit (sym e) (
    IsSplit-by 1 (λ b h. omega arith) (λ b h. omega arith) (λ b. omega arith)
      (λ b y h e q. omega arith) (λ b y h e q r. omega arith))

byte_size_cases : (ones : ℕ) → IsSplit (byte_size ones) × ((byte_size ones ≡ 1) ⊎ (ones - 8 ≡ 0))
byte_size_cases zero = (
  IsSplit-by 256 (λ b h. omega arith) (λ b h. omega arith) (λ b. omega arith)
      (λ b y h e q. omega arith) (λ b y h e q r. omega arith),
  inr refl,
)
byte_size_cases (suc zero) = (
  IsSplit-by 128 (λ b h. omega arith) (λ b h. omega arith) (λ b. omega arith)
      (λ b y h e q. omega arith) (λ b y h e q r. omega arith),
  inr refl,
)
byte_size_cases (suc (suc zero)) = (
  IsSplit-by 64 (λ b h. omega arith) (λ b h. omega arith) (λ b. omega arith)
      (λ b y h e q. omega arith) (λ b y h e q r. omega arith),
  inr refl,
)
byte_size_cases (suc (suc (suc zero))) = (
  IsSplit-by 32 (λ b h. omega arith) (λ b h. omega arith) (λ b. omega arith)
      (λ b y h e q. omega arith) (λ b y h e q r. omega arith),
  inr refl,
)
byte_size_cases (suc (suc (suc (suc zero)))) = (
  IsSplit-by 16 (λ b h. omega arith) (λ b h. omega arith) (λ b. omega arith)
      (λ b y h e q. omega arith) (λ b y h e q r. omega arith),
  inr refl,
)
byte_size_cases (suc (suc (suc (suc (suc zero))))) = (
  IsSplit-by 8 (λ b h. omega arith) (λ b h. omega arith) (λ b. omega arith)
      (λ b y h e q. omega arith) (λ b y h e q r. omega arith),
  inr refl,
)
byte_size_cases (suc (suc (suc (suc (suc (suc zero)))))) = (
  IsSplit-by 4 (λ b h. omega arith) (λ b h. omega arith) (λ b. omega arith)
      (λ b y h e q. omega arith) (λ b y h e q r. omega arith),
  inr refl,
)
byte_size_cases (suc (suc (suc (suc (suc (suc (suc zero))))))) = (
  IsSplit-by 2 (λ b h. omega arith) (λ b h. omega arith) (λ b. omega arith)
      (λ b y h e q. omega arith) (λ b y h e q r. omega arith),
  inr refl,
)
byte_size_cases (suc (suc (suc (suc (suc (suc (suc (suc n)))))))) =
    let e : byte_size _ ≡ 1 =
      (let z : 8 - (suc (suc (suc (suc (suc (suc (suc (suc n)))))))) ≡ 0 = omega arith in
        ap (λ m. 2 ^ m) z) in
    (one-IsSplit _ e, inl e)

-- A leading byte, and what follows it.
lead_le : (a c p x z : ℕ) → a ≤ c → x ≤ z → a * p + x ≤ c * p + z
lead_le a c p x z h k = grind arith

lead_lt : (a c p x z : ℕ) → a < c → x < p → a * p + x < c * p + z
lead_lt a c p x z h k = grind arith

lead_between : (a c p x z : ℕ) → x < p → z < p → a * p + x ≤ c * p + z → a ≤ c
lead_between a c p x z hx hz h = ground (arith, lead_lt c a p z x)

pub length-mask : (ones : ℕ) (a : Ip) → length (mask ones a) ≡ length a
unfolding mask
length-mask ones [] = refl
length-mask ones (b ∷ a) = ap suc (length-mask (ones - 8) a)

pub length-last : (ones : ℕ) (a : Ip) → length (last ones a) ≡ length a
unfolding last
length-last ones [] = refl
length-last ones (b ∷ a) = ap suc (length-last (ones - 8) a)

mask-bytes : (ones : ℕ) (a : Ip) → All IsByte a → All IsByte (mask ones a)
unfolding mask
mask-bytes ones [] h = h
mask-bytes ones (b ∷ a) h = (((byte_size_cases ones).0 b h.0).1, mask-bytes (ones - 8) a h.1)

last-bytes : (ones : ℕ) (a : Ip) → All IsByte a → All IsByte (last ones a)
unfolding last
last-bytes ones [] h = h
last-bytes ones (b ∷ a) h = (((byte_size_cases ones).0 b h.0).0, last-bytes (ones - 8) a h.1)

-- Without ones nothing of an address is left.
mask_none : (a b : Ip) → length a ≡ length b → All IsByte a → All IsByte b → mask 0 a ≡ mask 0 b
unfolding mask
mask_none [] [] e ha hb = refl
mask_none [] (b ∷ bs) e ha hb = absurd (omega arith)
mask_none (a ∷ as') [] e ha hb = absurd (omega arith)
mask_none (a ∷ as') (b ∷ bs) e ha hb =
    let l : length as' ≡ length bs = omega arith in
    let here : a - a % 256 ≡ b - b % 256 = omega (arith, ha.0, hb.0) in
    ap₂ (λ x y. x ∷ y) here (mask_none as' bs l ha.1 hb.1)

value-mask_none : (a : Ip) → All IsByte a → value (mask 0 a) ≡ 0
unfolding mask value
value-mask_none [] h = refl
value-mask_none (b ∷ a) h =
    let here : b - b % 256 ≡ 0 = omega (arith, h.0) in
    rw (here, value-mask_none a h.1) (omega arith)

value-last_none : (a : Ip) → All IsByte a → value (last 0 a) + 1 ≡ 256 ^ length a
unfolding last value
value-last_none [] h = omega arith
value-last_none (b ∷ a) h =
    let here : b - b % 256 + 255 ≡ 255 = omega (arith, h.0) in
    rw (here, length-last 0 a) (omega (arith, value-last_none a h.1, pow-suc_256 (length a)))

same_lead :
    (b y c q x z t : ℕ)
    → y ≡ b
    → c ≡ b
    → b * q + x ≤ y * q + z
    → y * q + z ≤ c * q + t
    → (x ≤ z) × (z ≤ t)
same_lead b y c q x z t e f g h =
    let ey : y * q ≡ b * q = ap (λ a. a * q) e in
    let ec : c * q ≡ b * q = ap (λ a. a * q) f in (omega (arith, ey, g), omega (arith, ey, ec, h))

abbrev pub Between : ℕ → Ip → Ip → Type 0
Between ones s x = (value s ≤ value x) × (value x ≤ value (last ones s))

abbrev tail_of : Ip → Ip
tail_of [] = []
tail_of (b ∷ a) = a

-- From a masked address to its last one are the addresses that are masked to it.
Between-mask :
    (ones : ℕ) (s x : Ip)
    → length x ≡ length s
    → All IsByte s
    → All IsByte x
    → mask ones s ≡ s
    → (mask ones x ≡ s) ↔ Between ones s x
unfolding mask last value
Between-mask ones [] [] l hs hx m = (λ e. (omega arith, omega arith), λ u. refl)
Between-mask ones [] (y ∷ ys) l hs hx m = absurd (omega arith)
Between-mask ones (b ∷ bs) [] l hs hx m = absurd (omega arith)
Between-mask ones (b ∷ bs) (y ∷ ys) l hs hx m =
    let l' : length ys ≡ length bs = omega arith in
    let p = byte_size ones in
    let head : b - b % p ≡ b = ap (λ a. get_or a 0 0) m in
    let tail : mask (ones - 8) bs ≡ bs = ap tail_of m in
    let ih = Between-mask (ones - 8) bs ys l' hs.1 hx.1 tail in
    let lead = ((byte_size_cases ones).0 b hs.0).3 y hx.0 head in
    let c = b - b % p + (p - 1) in
    let q = 256 ^ length bs in
    let above = last (ones - 8) bs in
    let eys : 256 ^ length ys ≡ q = ap (λ n. 256 ^ n) l' in
    let eab : 256 ^ length above ≡ q = ap (λ n. 256 ^ n) (length-last (ones - 8) bs) in
    let bound : value above < q =
      subst (λ n. value above < n) eab (value_bound above (last-bytes (ones - 8) bs hs.1)) in
    let ybound : value ys < q = subst (λ n. value ys < n) eys (value_bound ys hx.1) in
    (
      λ e.
          let inside = lead.0 (ap (λ a. get_or a 0 0) e) in
          let behind = ih.0 (ap tail_of e) in
          rw (eys, eab)
            (
              lead_le b y q (value bs) (value ys) inside.0 behind.0,
              lead_le y c q (value ys) (value above) inside.1 behind.1,
            ),
      λ u.
          let v : (b * q + value bs ≤ y * q + value ys) × (y * q + value ys ≤ c * q + value above) =
            subst
              (λ t.
                (b * q + value bs ≤ y * q + value ys) × (y * q + value ys ≤ c * t + value above))
              eab
              (subst
                (λ r.
                  (b * q + value bs ≤ y * r + value ys)
                  × (y * r + value ys ≤ c * 256 ^ length above + value above))
                eys u) in
          let low = lead_between b y q (value bs) (value ys) (value_bound bs hs.1) ybound v.0 in
          let high = lead_between y c q (value ys) (value above) ybound bound v.1 in
          let here = lead.1 (low, high) in
          let there : mask (ones - 8) ys ≡ bs = elim (byte_size_cases ones).1 [
            | inl one ↦
                let same : c ≡ b = omega (arith, head, one) in
                let here' : y ≡ b = omega (arith, low, high, same) in
                ih.1 (same_lead b y c q (value bs) (value ys) (value above) here' same v.0 v.1)
            | inr none ↦
                ap (λ n. mask n ys) none
                ∙ mask_none ys bs l' hx.1 hs.1
                ∙ sym (ap (λ n. mask n bs) none)
                ∙ tail
          ] in
          ap₂ (λ a as'. a ∷ as') here there,
    )

mask-mask : (ones : ℕ) (a : Ip) → All IsByte a → mask ones (mask ones a) ≡ mask ones a
unfolding mask
mask-mask ones [] h = refl
mask-mask ones (b ∷ a) h =
    ap₂ (λ c as'. c ∷ as') ((byte_size_cases ones).0 b h.0).2 (mask-mask (ones - 8) a h.1)

-- With a one for each bit the whole address is left.
mask_full : (ones : ℕ) (a : Ip) → 8 * length a ≤ ones → (mask ones a ≡ a) × (last ones a ≡ a)
unfolding mask last
mask_full ones [] h = (refl, refl)
mask_full ones (b ∷ a) h =
    let one : byte_size ones ≡ 1 = (let z : 8 - ones ≡ 0 = omega (arith, h) in ap (λ m. 2 ^ m) z) in
    let rest = mask_full (ones - 8) a (omega (arith, h)) in
    let cleared : b - b % 1 ≡ b = omega arith in
    let set : b - b % 1 + (1 - 1) ≡ b = omega arith in
    rw one (ap₂ (λ c as'. c ∷ as') cleared rest.0, ap₂ (λ c as'. c ∷ as') set rest.1)

module _ {w : ℕ} {a : Ip} (ha : IsIp w a) (ones : ℕ) where
  pub mask-IsIp : IsIp w (mask ones a)
  mask-IsIp = record { width = length-mask ones a ∙ ha.width; bytes = mask-bytes ones a ha.bytes }

  pub last-IsIp : IsIp w (last ones a)
  last-IsIp = record { width = length-last ones a ∙ ha.width; bytes = last-bytes ones a ha.bytes }

  pub mask_again : mask ones (mask ones a) ≡ mask ones a
  mask_again = mask-mask ones a ha.bytes

  pub mask_all : 8 * w ≤ ones → (mask ones a ≡ a) × (last ones a ≡ a)
  mask_all h = mask_full ones a (subst (λ n. 8 * n ≤ ones) (sym ha.width) h)

  -- The addresses that are masked to a masked address are those from it to its last one.
  pub mask-Between : {x : Ip} → IsIp w x → mask ones a ≡ a → (mask ones x ≡ a) ↔ Between ones a x
  mask-Between {x} hx m = Between-mask ones a x (hx.width ∙ sym ha.width) ha.bytes hx.bytes m

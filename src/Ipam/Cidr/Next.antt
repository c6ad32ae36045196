-- ===== src/Ipam/Cidr/Next.antt =====
-- The successor of an address in pkg/ipam/iprange.go.
use z_presplit_aci_container.Base.{
  ℕ, suc, ◌+◌, ◌*◌, ◌^◌, ◌<◌, ◌≡◌, ◌∙◌, refl, ap, Bool, true, false, [], ◌∷◌, length, All, ltb,
  if◌then◌else◌, arith, Bool-cases, inl, inr,
}
use z_presplit_aci_container.Ipam.Address.{Ip}
use z_presplit_aci_container.Ipam.Address.Value.{value, IsByte, IsIp, pow-suc_256}
use z_presplit_aci_container.Ipam.Cidr.{next_loop, next}

-- The number grows by one, or wraps if no byte could take it.
abbrev Follows : Ip → Ip × Bool → Type 0
Follows a (r, copy) =
    (value r + (if copy then 0 else 256 ^ length a) ≡ value a + 1)
    × (length r ≡ length a)
    × All IsByte r

add_mul : (b p : ℕ) → (b + 1) * p ≡ b * p + p
add_mul b p = omega arith

next_step : ℕ → Ip × Bool → Ip × Bool
next_step b (out, copy) =
    if copy
    then (b ∷ out, true)
    else (if ltb b 255 then ((b + 1) ∷ out, true) else (0 ∷ out, false))

next_step-Follows :
    (b : ℕ) (a : Ip) (x : Ip × Bool) → b < 256 → Follows a x → Follows (b ∷ a) (next_step b x)
unfolding value next_step
next_step-Follows b a (r, true) h k = rw (k.1) (omega arith, refl, (h, k.2))
next_step-Follows b a (r, false) h k = elim (Bool-cases (ltb b 255)) [
  | inl e ↦
      rw e (rw k.1 (omega (arith, add_mul b (256 ^ length a))), ap suc k.1, (ground arith, k.2))
  | inr e ↦ rw e (
      let full : b ≡ 255 = ground arith in
      (rw full (omega (arith, pow-suc_256 (length a))), ap suc k.1, (omega arith, k.2)))
]

next_loop-Follows : (a : Ip) → All IsByte a → Follows a (next_loop a)
unfolding next_loop value next_step
next_loop-Follows [] h = (omega arith, refl, tt)
next_loop-Follows (b ∷ a) h = next_step-Follows b a (next_loop a) h.0 (next_loop-Follows a h.1)

module _ {w : ℕ} {a : Ip} (ha : IsIp w a) where
  pub next-IsIp : IsIp w (next a)
  unfolding next
  next-IsIp = let k = next_loop-Follows a ha.bytes in record { width = k.1 ∙ ha.width; bytes = k.2 }

  -- Below the end of the address space the successor is the next number.
  pub value-next : value a + 1 < 256 ^ w → value (next a) ≡ value a + 1
  unfolding next
  value-next h =
      let k = next_loop-Follows a ha.bytes in
      let e : 256 ^ length a ≡ 256 ^ w = ap (λ n. 256 ^ n) ha.width in
      elim (Bool-cases (next_loop a).1) [
        | inl c ↦ ground (arith, k.0, c)
        | inr c ↦ ground (arith, k.0, c, e)
      ]

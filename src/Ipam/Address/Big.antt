-- ===== src/Ipam/Address/Big.antt =====
-- `math/big` as pkg/ipam/ipalloc.go uses it: numbers to byte slices and back.
use mathlib.Core.WellFounded.{Acc}
use mathlib.Core.Logic.{dite, dif_pos, dif_neg}
use native.Mathlib.Bridge.{le_prop}
use z_presplit_aci_container.Base.{
  ℕ, zero, suc, ◌+◌, ◌-◌, ◌*◌, ◌/◌, ◌%◌, ◌^◌, ◌≤◌, ◌<◌, ◌≡◌, refl, ◌∙◌, ap, [], ◌∷◌, ◌++◌, length,
  replicate, All, ltb, if◌then◌else◌, arith, dec_lt, Bool-cases, inl, inr, lt_wf, subst, ltb→ge,
  length-append, length-replicate,
}
use z_presplit_aci_container.Ipam.Address.{Ip}
use z_presplit_aci_container.Ipam.Address.Value.{value, IsByte, IsIp, pow-suc_256}

bytes_loop : (n : ℕ) → Acc ◌<◌ n → Ip → Ip
bytes_loop n (Acc.intro _ smaller) bs =
    dite (dec_lt 0 n) (λ h. bytes_loop (n / 256) (smaller (n / 256) (omega arith)) ((n % 256) ∷ bs))
      (λ _. bs)

-- `Int.Bytes`: big-endian, with no leading zero byte.
unfoldable pub big_bytes : ℕ → Ip
unfolding bytes_loop lt_wf dec_lt
big_bytes n = bytes_loop n (lt_wf.apply n) []

-- Zero bytes in front, up to the length wanted.
unfoldable pub pad : ℕ → Ip → Ip
pad width bs = if ltb (length bs) width then replicate (width - length bs) 0 ++ bs else bs

-- What the loop has produced before `bs`.
record Produces (n : ℕ) (bs r : Ip) : Type 0 where
  sums : value r ≡ n * 256 ^ length bs + value bs
  bytes : All IsByte r
  short : (k : ℕ) → n < 256 ^ k → length r ≤ k + length bs

digit_sum : (n p v : ℕ) → n / 256 * (256 * p) + (n % 256 * p + v) ≡ n * p + v
digit_sum n p v =
    let e : n ≡ n / 256 * 256 + n % 256 = omega arith in omega (arith, ap (λ (t : ℕ). t * p) e)

Produces-next :
    (n : ℕ) (bs r : Ip) → 0 < n → Produces (n / 256) ((n % 256) ∷ bs) r → Produces n bs r
unfolding value
Produces-next n bs r pos q = record {
  sums =
      let e : n / 256 * 256 ^ suc (length bs) ≡ n / 256 * (256 * 256 ^ length bs) =
        ap (λ t. n / 256 * t) (pow-suc_256 (length bs)) in
      q.sums
      ∙ ap (λ t. t + (n % 256 * 256 ^ length bs + value bs)) e
      ∙ digit_sum n (256 ^ length bs) (value bs);
  bytes = q.bytes;
  short = shorter;
}
  where
    shorter : (k : ℕ) → n < 256 ^ k → length r ≤ k + length bs
    shorter zero h = absurd (omega arith)
    shorter (suc k) h =
        let m = q.short k (let b : n < 256 * 256 ^ k = rw (← pow-suc_256 k) h in omega arith) in
        omega arith

bytes_loop-Produces :
    (n : ℕ) (a : Acc ◌<◌ n) (bs : Ip) → All IsByte bs → Produces n bs (bytes_loop n a bs)
unfolding bytes_loop
bytes_loop-Produces n (Acc.intro _ smaller) bs h = elim (dec_lt 0 n) [
  | yes pos ↦ rw (dif_pos (dec_lt 0 n) le_prop pos) (
      Produces-next n bs _ pos (
        bytes_loop-Produces (n / 256) (smaller (n / 256) (omega arith)) ((n % 256) ∷ bs)
          (omega arith, h)))
  | no z ↦ rw (dif_neg (dec_lt 0 n) z) (
      let e : 0 ≡ n = omega arith in
      record {
        sums = subst (λ m. value bs ≡ m * 256 ^ length bs + value bs) e (omega arith);
        bytes = h;
        short = λ k _. omega arith;
      })
]

value-replicate : (k : ℕ) (bs : Ip) → value (replicate k 0 ++ bs) ≡ value bs
unfolding value
value-replicate zero bs = refl
value-replicate (suc k) bs = omega (arith, value-replicate k bs)

bytes-replicate : (k : ℕ) (bs : Ip) → All IsByte bs → All IsByte (replicate k 0 ++ bs)
bytes-replicate zero bs h = h
bytes-replicate (suc k) bs h = (omega arith, bytes-replicate k bs h)

-- Padded to the width of an address, the bytes of a number that fits are the address.
pub pad-big_bytes :
    (w n : ℕ) → n < 256 ^ w → IsIp w (pad w (big_bytes n)) × (value (pad w (big_bytes n)) ≡ n)
unfolding pad big_bytes value
pad-big_bytes w n h =
    let bs = bytes_loop n (lt_wf.apply n) [] in
    let q = bytes_loop-Produces n (lt_wf.apply n) [] tt in
    let short = q.short w h in
    let sums : value bs ≡ n = omega (arith, q.sums) in
    elim (Bool-cases (ltb (length bs) w)) [
      | inl e ↦ rw e (
        record {
          width = omega (
            arith,
            length-append (replicate (w - length bs) 0) bs,
            length-replicate {A = ℕ} (w - length bs) 0,
          );
          bytes = bytes-replicate (w - length bs) bs q.bytes;
        },
        value-replicate (w - length bs) bs ∙ sums,
      )
      | inr e ↦ rw e (record { width = omega (arith, ltb→ge _ _ e); bytes = q.bytes }, sums)
    ]

-- ===== src/Ipam/Address.antt =====
-- pkg/ipam/ipalloc.go: addresses as byte slices, and the byte loops on them.
-- A `net.IP` is the list of its bytes, most significant first.
pub mod Value
pub mod Big
use z_presplit_aci_container.Base.{
  ℕ, zero, suc, ◌+◌, ◌-◌, ◌<◌, compare, Ordering, Bool, true, false, List, [], ◌∷◌, length, get_or,
  set, ltb, is_ge, if◌then◌else◌,
}

abbrev pub Ip : Type 0
Ip = List ℕ

-- `bytes.Compare`: lexicographic, and a proper prefix is less.
unfoldable pub compare_bytes : Ip → Ip → Ordering
compare_bytes [] [] = Ordering.eq
compare_bytes [] (b ∷ bs) = Ordering.lt
compare_bytes (a ∷ as') [] = Ordering.gt
compare_bytes (a ∷ as') (b ∷ bs) = elim (compare a b) [
  | Ordering.lt ↦ Ordering.lt
  | Ordering.gt ↦ Ordering.gt
  | Ordering.eq ↦ compare_bytes as' bs
]

-- The loop of `carryIncrement` with `i + 1` bytes left to read. Those bytes of `result` are still
-- the input's.
increment_loop : Ip → ℕ → Ip × Bool
increment_loop result zero = (result, true)
increment_loop result (suc i) =
    let rest = increment_loop (set result i 0) i in
    if ltb (get_or result i 0) 255 then (set result i (get_or result i 0 + 1), false) else rest

unfoldable pub carry_increment : Ip → Ip × Bool
unfolding increment_loop
carry_increment input = increment_loop input (length input)

decrement_loop : Ip → ℕ → Ip × Bool
decrement_loop result zero = (result, true)
decrement_loop result (suc i) =
    let rest = decrement_loop (set result i 255) i in
    if ltb 0 (get_or result i 0) then (set result i (get_or result i 0 - 1), false) else rest

unfoldable pub carry_decrement : Ip → Ip × Bool
unfolding decrement_loop
carry_decrement input = decrement_loop input (length input)

unfoldable pub is_adj_or_greater : Ip → Ip → Bool
is_adj_or_greater a b =
    let (ainc, carry) = carry_increment a in if carry then true else is_ge (compare_bytes ainc b)

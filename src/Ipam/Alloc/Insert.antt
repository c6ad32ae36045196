-- ===== src/Ipam/Alloc/Insert.antt =====
-- `AddRange` of pkg/ipam/ipalloc.go against insertion by a walk over the list.
use z_presplit_aci_container.Base.{
  ℕ, zero, suc, ◌-◌, ◌≤◌, ◌<◌, ◌≡◌, refl, ap, sym, Bool, true, false, [], ◌∷◌, ◌++◌, length, set,
  take, drop, leb, is_ge, is_gt, if◌then◌else◌, arith, Bool-cases, inl, inr, length-append,
  take-length_append, suc-sub-one, sort_search-IsBoundary,
}
use z_presplit_aci_container.Ipam.Address.{compare_bytes}
use z_presplit_aci_container.Ipam.Address.Value.{IsIp, compare_bytes-value}
use z_presplit_aci_container.Ipam.Alloc.{
  IpRange, IpAlloc, range_at, fix_loop, fix_range, shift_right, add_to_free, start_index, add_range,
}
use z_presplit_aci_container.Ipam.Alloc.Merge.{absorb, fix_loop-absorb, fix_loop-suc}
use z_presplit_aci_container.Ipam.Alloc.Order.{lo, IsRange, Starts}

-- The test of the search.
abbrev pub reaches : IpRange → IpRange → Bool
reaches x r = is_ge (compare_bytes r.start x.start)

-- How many ranges start before `x`.
position : IpRange → IpAlloc → ℕ
position x [] = 0
position x (r ∷ l) = if reaches x r then 0 else suc (position x l)

-- `x` put behind `r`; what is merged is the range before `x` with those that follow.
unfoldable pub insert_after : IpRange → IpRange → IpAlloc → IpAlloc
insert_after r x [] = absorb r (x ∷ [])
insert_after r x (s ∷ l) = if reaches x s then absorb r (x ∷ s ∷ l) else r ∷ insert_after s x l

unfoldable pub insert_range : IpRange → IpAlloc → IpAlloc
unfolding insert_after
insert_range x [] = absorb x []
insert_range x (r ∷ l) = if reaches x r then absorb x (r ∷ l) else insert_after r x l

insert_at : ℕ → IpRange → IpAlloc → IpAlloc
insert_at i x l = take i l ++ x ∷ drop i l

insert_at-zero : (x : IpRange) (l : IpAlloc) → insert_at 0 x l ≡ x ∷ l
unfolding insert_at
insert_at-zero x l = refl

insert_at-suc :
    (i : ℕ) (x r : IpRange) (l : IpAlloc) → insert_at (suc i) x (r ∷ l) ≡ r ∷ insert_at i x l
unfolding insert_at
insert_at-suc i x r l = refl

length-insert_at : (i : ℕ) (x : IpRange) (l : IpAlloc) → length (insert_at i x l) ≡ suc (length l)
unfolding insert_at
length-insert_at zero x l = refl
length-insert_at (suc i) x [] = refl
length-insert_at (suc i) x (r ∷ l) = ap suc (length-insert_at i x l)

shift_right-suc :
    (i : ℕ) (r : IpRange) (l : IpAlloc) → shift_right (suc i) (r ∷ l) ≡ r ∷ shift_right i l
unfolding shift_right
shift_right-suc i r l =
    let e : suc (length l) - suc (suc i) ≡ length l - suc i = omega arith in
    ap (λ n. r ∷ (take (suc i) l ++ take n (drop i l))) e

shift_right-insert :
    (i : ℕ) (x : IpRange) (l : IpAlloc)
    → i < length l
    → set (shift_right i (l ++ x ∷ [])) i x ≡ insert_at i x l
unfolding insert_at
shift_right-insert i x [] h = absurd (omega arith)
shift_right-insert zero x (r ∷ l) h =
    unfold shift_right in
    let e : suc (length (l ++ x ∷ [])) - 1 ≡ suc (length l) =
      omega (arith, length-append l (x ∷ [])) in
    rw e (ap (λ t. x ∷ r ∷ t) (take-length_append l (x ∷ [])))
shift_right-insert (suc i) x (r ∷ l) h =
    rw shift_right-suc (ap (◌∷◌ r) (shift_right-insert i x l (omega arith)))

insert_at-length : (x : IpRange) (l : IpAlloc) → insert_at (length l) x l ≡ l ++ x ∷ []
unfolding insert_at
insert_at-length x [] = refl
insert_at-length x (r ∷ l) = ap (◌∷◌ r) (insert_at-length x l)

add_to_free-insert :
    (i : ℕ) (x : IpRange) (l : IpAlloc) → i ≤ length l → add_to_free x i l ≡ (insert_at i x l, i)
unfolding add_to_free
add_to_free-insert i x l h = elim (Bool-cases (leb (length l) i)) [
  | inl e ↦
      let full : i ≡ length l = ground arith in
      rw (e, full) (ap (λ t. (t, length l)) (sym (insert_at-length x l)))
  | inr e ↦ rw (e, shift_right-insert i x l (ground arith))
]

fix_loop-insert_after :
    (fuel : ℕ) (r x : IpRange) (l : IpAlloc)
    → suc (length l) ≤ fuel
    → fix_loop fuel (position x l) (r ∷ insert_at (position x l) x l) ≡ insert_after r x l
unfolding position insert_at insert_after
fix_loop-insert_after fuel r x [] h = fix_loop-absorb fuel r (x ∷ []) h
fix_loop-insert_after fuel r x (s ∷ l) h = elim (Bool-cases (reaches x s)) [
  | inl e ↦ rw e (fix_loop-absorb fuel r (x ∷ s ∷ l) h)
  | inr e ↦ rw (e, fix_loop-suc) (ap (◌∷◌ r) (fix_loop-insert_after fuel s x l (omega arith)))
]

fix_range-insert_range :
    (x : IpRange) (l : IpAlloc)
    → fix_range (position x l) (insert_at (position x l) x l) ≡ insert_range x l
unfolding fix_range position insert_range
fix_range-insert_range x [] = rw insert_at-zero (fix_loop-absorb 1 x [] (omega arith))
fix_range-insert_range x (r ∷ l) = elim (Bool-cases (reaches x r)) [
  | inl e ↦ rw (e, insert_at-zero) (fix_loop-absorb (suc (length (r ∷ l))) x (r ∷ l) (omega arith))
  | inr e ↦
      rw (e, insert_at-suc, suc-sub-one)
        (fix_loop-insert_after _ r x l (omega (arith, length-insert_at (position x l) x l)))
]

module _ (w : ℕ) where
  pub range_at-IsRange :
      (b i : ℕ) (l : IpAlloc)
      → Starts w b l
      → i < length l
      → (b ≤ lo (range_at l i)) × IsRange w (range_at l i)
  range_at-IsRange b i [] p h = absurd (omega arith)
  range_at-IsRange b zero (r ∷ l) p h = (p.0, p.1)
  range_at-IsRange b (suc i) (r ∷ l) p h =
      let (k, q) = range_at-IsRange (lo r) i l p.2 (omega arith) in (omega arith, q)

  range_at_ge :
      (b i : ℕ) (l : IpAlloc) → Starts w b l → i < length l → lo (range_at l 0) ≤ lo (range_at l i)
  range_at_ge b i [] p h = absurd (omega arith)
  range_at_ge b zero (r ∷ l) p h = omega arith
  range_at_ge b (suc i) (r ∷ l) p h = (range_at-IsRange (lo r) i l p.2 (omega arith)).0

  position_le : (x : IpRange) (l : IpAlloc) → position x l ≤ length l
  unfolding position
  position_le x [] = omega arith
  position_le x (r ∷ l) = ground (arith, position_le x l)

  -- On ranges in order the boundary that the search finds is the position.
  boundary-position :
      (b i : ℕ) (x : IpRange) (l : IpAlloc)
      → IsIp w x.start
      → Starts w b l
      → i ≤ length l
      → (i < length l → reaches x (range_at l i) ≡ true)
      → ((k : ℕ) → suc k ≡ i → reaches x (range_at l k) ≡ false)
      → i ≡ position x l
  unfolding position
  boundary-position b i x [] hx p fits holds fails = omega arith
  boundary-position b zero x (r ∷ l) hx p fits holds fails = rw (holds (omega arith))
  boundary-position b (suc i) x (r ∷ l) hx p fits holds fails =
      let (k, q) = range_at-IsRange b i (r ∷ l) p (omega arith) in
      let behind = fails i refl in
      let order = compare_bytes-value q.start_ip hx in
      let before : reaches x r ≡ false =
        ground (arith, compare_bytes-value p.1.start_ip hx, range_at_ge b i (r ∷ l) p fits) in
      rw before (
        ap suc (
          boundary-position (lo r) i x l hx p.2 (omega arith) (λ h. holds (omega arith))
            (λ k e. fails (suc k) (ap suc e))))

  start_index-position :
      (b : ℕ) (x : IpRange) (l : IpAlloc)
      → IsIp w x.start
      → Starts w b l
      → start_index x.start l ≡ position x l
  unfolding start_index
  start_index-position b x l hx p =
      let found = sort_search-IsBoundary (length l) (λ i.
        if leb (length l) i then true else is_ge (compare_bytes (range_at l i).start x.start)) in
      boundary-position b (start_index x.start l) x l hx p found.within
        (λ h. ground (arith, found.holds h)) (λ k e. ground (arith, found.fails k e, found.within))

  -- On valid ranges in order of their starts, AddRange of a valid range, with its binary search
  -- and its loop on indices, computes what a walk over the list computes that puts the new range
  -- before the first one that does not start below it and merges from the range before it.
  pub add_range-insert_range :
      (b : ℕ) (x : IpRange) (l : IpAlloc)
      → IsRange w x
      → Starts w b l
      → add_range x.start x.end l ≡ insert_range x l
  unfolding add_range
  add_range-insert_range b x l hx p =
      let e = start_index-position b x l hx.start_ip p in
      let up : is_gt (compare_bytes x.start x.end) ≡ false =
        let ordered = hx.ordered in ground (arith, compare_bytes-value hx.start_ip hx.end_ip) in
      rw (up, e, add_to_free-insert (position x l) x l (position_le x l))
        (fix_range-insert_range x l)

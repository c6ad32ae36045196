-- ===== src/Ipam/Alloc/Remove.antt =====
-- `RemoveRange` of pkg/ipam/ipalloc.go against a cut of every range.
use mathlib.Core.Bool.{or-false, or_assoc}
use z_presplit_aci_container.Base.{
  ℕ, zero, suc, ◌+◌, ◌≤◌, ◌<◌, ◌≡◌, refl, ap, ap₂, sym, ◌∙◌, inl, inr, Bool, true, false, ◌||◌, [],
  ◌∷◌, ◌++◌, length, take, drop, ltb, leb, is_ge, is_gt, arith, dec_le, ◌&&◌, get_or-append,
  drop-suc_append, Bool-cases, append_assoc, length-append, length-take, length-drop,
  take-append-drop, take-length_append, get_or-drop, sort_search, sort_search-IsBoundary,
}
use z_presplit_aci_container.Ipam.Address.{compare_bytes}
use z_presplit_aci_container.Ipam.Address.Value.{compare_bytes-value}
use z_presplit_aci_container.Ipam.Alloc.{
  IpRange, IpAlloc, range_at, blank, cut_range, back_up, remove_loop, remove_range,
}
use z_presplit_aci_container.Ipam.Alloc.Order.{lo, hi, IsRange, Above, Above-mono, Above→Starts}
use z_presplit_aci_container.Ipam.Alloc.Add.{IsPool}
use z_presplit_aci_container.Ipam.Alloc.Insert.{range_at-IsRange}
use z_presplit_aci_container.Ipam.Alloc.Cut.{cut_range_before, cut_range_behind, cut_range_split}

-- What is left of each range.
unfoldable pub cut_each : IpRange → IpAlloc → IpAlloc
cut_each x [] = []
cut_each x (r ∷ l) = (cut_range r x.start x.end).0 ++ cut_each x l

-- Whether one of them shares an address with `x`.
unfoldable pub any_cut : IpRange → IpAlloc → Bool
any_cut x [] = false
any_cut x (r ∷ l) = (cut_range r x.start x.end).1 || any_cut x l

module _ (w : ℕ) where
  range_at-Above :
      (b i : ℕ) (l : IpAlloc)
      → Above w b l
      → i < length l
      → (b ≤ lo (range_at l i)) × IsRange w (range_at l i)
  range_at-Above b i l p h = range_at-IsRange w b i l (Above→Starts w b l p) h

  range_at-lt :
      (b i j : ℕ) (l : IpAlloc)
      → Above w b l
      → i < j
      → j < length l
      → hi (range_at l i) < lo (range_at l j)
  range_at-lt b i j [] p h k = absurd (omega arith)
  range_at-lt b i zero (r ∷ l) p h k = absurd (omega arith)
  range_at-lt b zero (suc j) (r ∷ l) p h k =
      omega (arith, (range_at-Above (hi r + 1) j l p.2 (omega arith)).0)
  range_at-lt b (suc i) (suc j) (r ∷ l) p h k =
      range_at-lt (hi r + 1) i j l p.2 (omega arith) (omega arith)

  module _ (x : IpRange) (hx : IsRange w x) where
    pub cut_each_behind :
        (b : ℕ) (l : IpAlloc) → Above w b l → hi x < b → (cut_each x l ≡ l) × (any_cut x l ≡ false)
    unfolding cut_each any_cut
    cut_each_behind b [] p h = (refl, refl)
    cut_each_behind b (r ∷ l) p h =
        let o = p.1.ordered in
        let (e, f) = cut_each_behind (hi r + 1) l p.2 (omega arith) in
        rw (cut_range_behind w r x p.1 hx (omega arith), e, f) (refl, refl)

    cut_each_far :
        {b : ℕ} (r : IpRange) (l : IpAlloc)
        → hi x < lo r
        → Above w b (r ∷ l)
        → (cut_each x (r ∷ l) ≡ r ∷ l) × (any_cut x (r ∷ l) ≡ false)
    cut_each_far r l h p = cut_each_behind (lo r) (r ∷ l) (omega arith, p.1, p.2) h

    cut_each_before :
        (b i : ℕ) (l : IpAlloc)
        → Above w b l
        → i < length l
        → hi (range_at l i) < lo x
        → (cut_each x l ≡ take i l ++ cut_each x (drop i l)) × (any_cut x l ≡ any_cut x (drop i l))
    unfolding cut_each any_cut
    cut_each_before b i [] p h k = absurd (omega arith)
    cut_each_before b zero (r ∷ l) p h k = (refl, refl)
    cut_each_before b (suc i) (r ∷ l) p h k =
        let (m, q) = range_at-Above (hi r + 1) i l p.2 (omega arith) in
        let o = q.ordered in
        let (e, f) = cut_each_before (hi r + 1) i l p.2 (omega arith) k in
        rw (cut_range_before w r x p.1 hx (omega arith)) (ap (◌∷◌ r) e, f)

    remove_loop_stop :
        (fuel endind i : ℕ) (l : IpAlloc) (changed : Bool)
        → (ltb i (length l) && leb i endind) ≡ false
        → remove_loop fuel endind x.start x.end i l changed ≡ (l, changed)
    unfolding remove_loop
    remove_loop_stop zero endind i l changed e = refl
    remove_loop_stop (suc fuel) endind i l changed e = rw e

    remove_loop_step :
        (fuel endind i : ℕ) (pre suf l : IpAlloc) (r : IpRange) (changed : Bool)
        → i ≡ length pre
        → l ≡ pre ++ r ∷ suf
        → i ≤ endind
        → let (c, cut) = cut_range r x.start x.end in
          remove_loop (suc fuel) endind x.start x.end i l changed
          ≡ remove_loop fuel endind x.start x.end
              (i + length c)
              (pre ++ (c ++ suf))
              (changed || cut)
    unfolding remove_loop
    remove_loop_step fuel endind i pre suf l r changed ei el h =
        rw (el, ei)
          (let short : (ltb (length pre) (length (pre ++ r ∷ suf)) && leb (length pre) endind)
                ≡ true =
              ground (arith, length-append pre (r ∷ suf)) in
            rw (
              short,
              get_or-append pre suf r blank,
              take-length_append pre (r ∷ suf),
              drop-suc_append pre suf r,
            ))

    -- A range that is split in two reaches behind `x`, and so do all that follow.
    farther :
        (endind : ℕ) (pre suf : IpAlloc) (r : IpRange)
        → IsRange w r
        → Above w (hi r + 1) suf
        → ((j : ℕ)
            → j < suc (length suf)
            → endind < length pre + j
            → hi x < lo (range_at (r ∷ suf) j))
        → (j : ℕ) → j < length suf
        → endind < length pre + length (cut_range r x.start x.end).0 + j
        → hi x < lo (range_at suf j)
    farther endind pre suf r hr p far j hj k =
        elim (dec_le (length (cut_range r x.start x.end).0) 1) [
          | yes m ↦ far (suc j) (omega arith) (omega arith)
          | no m ↦ omega (
            arith,
            cut_range_split w r x hr hx (omega arith),
            (range_at-Above (hi r + 1) j suf p hj).0,
          )
        ]

    -- The ranges that the loop does not reach lie behind `x`.
    remove_loop-cut_each :
        (fuel endind b i : ℕ) (pre suf l : IpAlloc) (changed : Bool)
        → length suf ≤ fuel
        → i ≡ length pre
        → l ≡ pre ++ suf
        → Above w b suf
        → ((j : ℕ) → j < length suf → endind < length pre + j → hi x < lo (range_at suf j))
        → remove_loop fuel endind x.start x.end i l changed
          ≡ (pre ++ cut_each x suf, changed || any_cut x suf)
    remove_loop-cut_each fuel endind b i pre [] l changed h ei el p far =
        unfold cut_each any_cut in
        (remove_loop_stop fuel endind i l changed
            (ground (arith, ap length el, length-append pre []))
          ∙ ap₂ (λ s c. (s, c)) el (sym (or-false changed)))
    remove_loop-cut_each zero endind b i pre (r ∷ suf) l changed h ei el p far =
        absurd (omega arith)
    remove_loop-cut_each (suc fuel) endind b i pre (r ∷ suf) l changed h ei el p far =
        elim (dec_le i endind) [
          | yes m ↦
              let (c, cut) = cut_range r x.start x.end in
              remove_loop_step fuel endind i pre suf l r changed ei el m
              ∙ remove_loop-cut_each fuel endind (hi r + 1) (i + length c) (pre ++ c) suf
                  (pre ++ (c ++ suf)) (changed || cut) (omega arith)
                  (omega (arith, length-append pre c)) (sym (append_assoc pre c suf)) p.2
                  (λ j hj k.
                    farther endind pre suf r p.1 p.2 far j hj (omega (arith, length-append pre c)))
              ∙ unfold cut_each any_cut in
                ap₂ (λ s d. (s, d)) (append_assoc pre c (cut_each x suf))
                  (or_assoc changed cut (any_cut x suf))
          | no m ↦
              let (e, f) = cut_each_far r suf (far 0 (omega arith) (omega arith)) p in
              remove_loop_stop (suc fuel) endind i l changed (ground arith)
              ∙ rw (e, f) (ap₂ (λ s c. (s, c)) el (sym (or-false changed)))
        ]

    back_up-le : (l : IpAlloc) (i : ℕ) → i ≤ length l → back_up l x.start i ≤ length l
    unfolding back_up
    back_up-le l zero h = omega arith
    back_up-le l (suc i) h = ground (arith, back_up-le l i (omega arith))

    back_up_before :
        (l : IpAlloc) (i : ℕ)
        → IsPool w l
        → 0 < back_up l x.start i
        → (back_up l x.start i < length l) × (hi (range_at l (back_up l x.start i)) < lo x)
    unfolding back_up
    back_up_before l zero p h = absurd (omega arith)
    back_up_before l (suc i) p h =
        elim (Bool-cases
          (leb (length l) (suc i) || is_ge (compare_bytes (range_at l (suc i)).end x.start))) [
            | inl e ↦ rw e (back_up_before l i p (rw e at h))
            | inr e ↦
                let inside : suc i < length l = ground arith in
                let (m, q) = range_at-Above 0 (suc i) l p inside in
                rw e (inside, ground (arith, compare_bytes-value q.end_ip hx.start_ip))
          ]

    drop-Above : (b i : ℕ) (l : IpAlloc) → Above w b l → Above w b (drop i l)
    drop-Above b zero l p = p
    drop-Above b (suc i) [] p = tt
    drop-Above b (suc i) (r ∷ l) p =
        let o = p.1.ordered in drop-Above b i l (Above-mono w (hi r + 1) b l (omega arith) p.2)

    -- The ranges behind the one at `endind` lie behind `x`.
    end_index : IpAlloc → ℕ
    end_index l = sort_search (length l) (λ i. is_ge (compare_bytes (range_at l i).end x.end))

    end_index_far :
        (l : IpAlloc)
        → IsPool w l
        → (j : ℕ) → j < length l
        → end_index l < j
        → hi x < lo (range_at l j)
    unfolding end_index
    end_index_far l p j h k =
        let test = λ (i : ℕ). is_ge (compare_bytes (range_at l i).end x.end) in
        let found = sort_search-IsBoundary (length l) test in
        let inside : sort_search (length l) test < length l = omega arith in
        let (m, q) = range_at-Above 0 (sort_search (length l) test) l p inside in
        let reached : hi x ≤ hi (range_at l (sort_search (length l) test)) =
          ground (arith, found.holds inside, compare_bytes-value q.end_ip hx.end_ip) in
        omega (arith, range_at-lt 0 (sort_search (length l) test) j l p k h)

    remove_from :
        (l : IpAlloc) (i : ℕ)
        → IsPool w l
        → (0 < i → (i < length l) × (hi (range_at l i) < lo x))
        → remove_loop (length l) (end_index l) x.start x.end i l false ≡ (cut_each x l, any_cut x l)
    remove_from l zero p h =
        remove_loop-cut_each (length l) (end_index l) 0 0 [] l l false (omega arith) (omega arith)
          refl p (λ j hj k. end_index_far l p j hj (omega arith))
    remove_from l (suc i) p h =
        let (inside, before) = h (omega arith) in
        let (e, f) = cut_each_before 0 (suc i) l p inside before in
        let front = length-take (suc i) l (omega arith) in
        let behind = length-drop (suc i) l in
        remove_loop-cut_each (length l) (end_index l) 0 (suc i) (take (suc i) l) (drop (suc i) l) l
          false (omega arith) (sym front) (sym (take-append-drop (suc i) l))
          (drop-Above 0 (suc i) l p)
          (λ j hj k. rw get_or-drop (end_index_far l p (suc i + j) (omega arith) (omega arith)))
        ∙ ap₂ (λ s c. (s, c)) (sym e) (sym f)

    -- On separate ranges in order, RemoveRange of a valid range, with its two searches, its step
    -- back and its loop on indices, computes what cutting every range of the list computes, and
    -- reports a change if one of the cuts does.
    pub remove_range-cut_each :
        (l : IpAlloc) → IsPool w l → remove_range x.start x.end l ≡ (cut_each x l, any_cut x l)
    unfolding remove_range end_index
    remove_range-cut_each l p =
        let o = hx.ordered in
        let up : is_gt (compare_bytes x.start x.end) ≡ false =
          ground (arith, compare_bytes-value hx.start_ip hx.end_ip) in
        rw up (remove_from l _ p (back_up_before l _ p))

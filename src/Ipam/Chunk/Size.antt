-- ===== src/Ipam/Chunk/Size.antt =====
-- `GetSize` of pkg/ipam/ipalloc.go counts the addresses held.
use z_presplit_aci_container.Base.{
  ℕ, zero, suc, ◌+◌, ◌≤◌, ◌<◌, ◌≡◌, refl, ap, ◌⊎◌, inl, inr, ◌↔◌, List, [], ◌∷◌, ◌++◌, length,
  length-append, min, arith, dec_le,
}
use z_presplit_aci_container.Ipam.Chunk.{range_size, total, max_int64, get_size}
use z_presplit_aci_container.Ipam.Alloc.{IpAlloc}
use z_presplit_aci_container.Ipam.Alloc.Order.{lo, hi, Holds, Above}
use z_presplit_aci_container.Ipam.Alloc.Add.{IsPool}

-- Numbers from `b` on that rise strictly, so that none stands twice.
abbrev pub Rises : ℕ → List ℕ → Type 0
Rises b [] = Unit {0}
Rises b (n ∷ ns) = (b ≤ n) × Rises (suc n) ns

abbrev pub Listed : ℕ → List ℕ → Type 0
Listed n [] = ⊥
Listed n (m ∷ ms) = (n ≡ m) ⊎ Listed n ms

enumerate : ℕ → ℕ → List ℕ
enumerate b zero = []
enumerate b (suc k) = b ∷ enumerate (suc b) k

addresses : IpAlloc → List ℕ
unfolding enumerate range_size
addresses [] = []
addresses (r ∷ l) = enumerate (lo r) (range_size r) ++ addresses l

Rises-mono : (b c : ℕ) (ns : List ℕ) → c ≤ b → Rises b ns → Rises c ns
Rises-mono b c [] h p = tt
Rises-mono b c (n ∷ ns) h p = (omega arith, p.1)

enumerate-Rises : (b k c : ℕ) (ns : List ℕ) → b + k ≤ c → Rises c ns → Rises b (enumerate b k ++ ns)
unfolding enumerate
enumerate-Rises b zero c ns h p = Rises-mono c b ns (omega arith) p
enumerate-Rises b (suc k) c ns h p = (omega arith, enumerate-Rises (suc b) k c ns (omega arith) p)

enumerate-Listed :
    (b k n : ℕ) (ns : List ℕ)
    → Listed n (enumerate b k ++ ns) ↔ (((b ≤ n) × (n < b + k)) ⊎ Listed n ns)
unfolding enumerate
enumerate-Listed b zero n ns = (inr, λ u. elim u [ inl i ↦ absurd (omega arith) | inr j ↦ j ])
enumerate-Listed b (suc k) n ns =
    let (f, g) = enumerate-Listed (suc b) k n ns in
    (
      λ u. elim u [
        | inl e ↦ inl (omega arith)
        | inr h ↦ elim (f h) [ inl i ↦ inl (omega arith) | inr j ↦ inr j ]
      ],
      λ u. elim u [
        | inl i ↦ elim (dec_le n b) [
          | yes e ↦ inl (omega arith)
          | no m ↦ inr (g (inl (omega arith)))
        ]
        | inr j ↦ inr (g (inr j))
      ],
    )

length-enumerate : (b k : ℕ) → length (enumerate b k) ≡ k
unfolding enumerate
length-enumerate b zero = refl
length-enumerate b (suc k) = ap suc (length-enumerate (suc b) k)

module _ (w : ℕ) where
  addresses-Rises : (b : ℕ) (l : IpAlloc) → Above w b l → Rises b (addresses l)
  unfolding addresses
  addresses-Rises b [] p = tt
  addresses-Rises b (r ∷ l) p =
      let o = p.1.ordered in
      Rises-mono (lo r) b (addresses (r ∷ l)) p.0 (
        enumerate-Rises (lo r) (range_size r) (hi r + 1) (addresses l) (omega arith)
          (addresses-Rises (hi r + 1) l p.2))

  addresses-Listed : (b n : ℕ) (l : IpAlloc) → Above w b l → Listed n (addresses l) ↔ Holds l n
  unfolding addresses
  addresses-Listed b n [] p = (λ h. h, λ h. h)
  addresses-Listed b n (r ∷ l) p =
      let o = p.1.ordered in
      let (f, g) = enumerate-Listed (lo r) (range_size r) n (addresses l) in
      let (f', g') = addresses-Listed (hi r + 1) n l p.2 in
      (
        λ u. elim (f u) [ inl i ↦ inl (omega arith) | inr j ↦ inr (f' j) ],
        λ u. elim u [ inl i ↦ g (inl (omega arith)) | inr j ↦ g (inr (g' j)) ],
      )

length-addresses : (l : IpAlloc) → length (addresses l) ≡ total l
unfolding addresses total
length-addresses [] = refl
length-addresses (r ∷ l) = omega (
  arith,
  length-append (enumerate (lo r) (range_size r)) (addresses l),
  length-enumerate (lo r) (range_size r),
  length-addresses l,
)

-- `ns` names the addresses held, each once.
pub record Counts (l : IpAlloc) (ns : List ℕ) : Type 0 where
  pub once : Rises 0 ns
  pub exact : (n : ℕ) → Listed n ns ↔ Holds l n

-- On separate ranges in order, GetSize is the number of the addresses held, each counted once, or
-- the largest int64 if that is less.
pub get_size-Counts :
    (w : ℕ) (l : IpAlloc)
    → IsPool w l
    → (ns : List ℕ) × Counts l ns × (get_size l ≡ min (length ns) max_int64)
unfolding get_size
get_size-Counts w l p = (
  addresses l,
  record { once = addresses-Rises w 0 l p; exact = λ n. addresses-Listed w 0 n l p },
  ground (arith, length-addresses l),
)

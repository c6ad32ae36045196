-- ===== src/Ipam/Cache/Lists.antt =====
-- pkg/ipam/ipcache.go: the two lists of a family hand each address out once.
use z_presplit_aci_container.Base.{
  ℕ, ◌<◌, ◌≡◌, ◌≢◌, refl, sym, subst, ◌⊎◌, inl, inr, ◌↔◌, Bool, true, false, [], ◌∷◌, Option, none,
  some, arith, Bool-cases,
}
use z_presplit_aci_container.Ipam.Address.{Ip}
use z_presplit_aci_container.Ipam.Address.Value.{value, IsIp}
use z_presplit_aci_container.Ipam.Alloc.{
  IpRange, IpAlloc, add_ip, remove_ip, get_ip, empty, add_ranges,
}
use z_presplit_aci_container.Ipam.Alloc.Order.{lo, Within, Holds, Above→Starts}
use z_presplit_aci_container.Ipam.Alloc.Add.{IsPool, add_range-Holds, add_range-IsPool}
use z_presplit_aci_container.Ipam.Alloc.Difference.{
  remove_range-Holds, remove_range-IsPool, remove_range-Meets,
}
use z_presplit_aci_container.Ipam.Alloc.Get.{Takes, get_ip-Takes}
use z_presplit_aci_container.Ipam.Alloc.Batch.{Above-HasEnds, add_ranges-Holds, add_ranges-IsPool}
use z_presplit_aci_container.Ipam.Cache.{
  IpLists, rotate, allocate_from, return_to, remove_from_lists, combine,
}

abbrev pub Held : IpLists → ℕ → Type 0
Held ls n = Holds ls.first n ⊎ Holds ls.second n

-- Pools of separate ranges that share no address.
pub record IsLists (w : ℕ) (ls : IpLists) : Type 0 where
  pub first_pool : IsPool w ls.first
  pub second_pool : IsPool w ls.second
  pub apart : (n : ℕ) → Holds ls.first n → ¬ Holds ls.second n

-- An address that was held goes out, and it alone, from the first list while that lasts.
-- An error means that no address is held.
abbrev pub Allocates : ℕ → IpLists → Option Ip × IpLists → Type 0
Allocates w ls (none, ls') = ((n : ℕ) → ¬ Held ls n) × (ls' ≡ ls)
Allocates w ls (some ip, ls') =
    IsIp w ip
    × Held ls (value ip)
    × (empty ls.first ≡ false → Holds ls.first (value ip))
    × IsLists w ls'
    × ((n : ℕ) → Held ls' n ↔ (Held ls n × (n ≢ value ip)))

pub differ : {b : Bool} → b ≡ true → b ≡ false → ⊥
differ p q = cc

ne_sides : (n m : ℕ) → n ≢ m → (n < m) ⊎ (m < n)
ne_sides n m h = grind arith

nonempty-Holds : (w : ℕ) (l : IpAlloc) → IsPool w l → empty l ≡ false → (n : ℕ) × Holds l n
unfolding empty
nonempty-Holds w [] p e = cc
nonempty-Holds w (r ∷ l) p e = (lo r, inl (let o = p.1.ordered in omega arith, p.1.ordered))

empty-not-Holds : (l : IpAlloc) → empty l ≡ true → (n : ℕ) → ¬ Holds l n
unfolding empty
empty-not-Holds [] e n h = h
empty-not-Holds (r ∷ l) e n h = cc

module _ (w : ℕ) where
  -- The same with the first list in use known to hold an address.
  take_first :
      (ls : IpLists) (r : Option Ip × IpAlloc)
      → IsLists w ls
      → empty ls.first ≡ false
      → Takes w ls.first r
      → Allocates w ls (r.0, record ls { first = r.1 })
  take_first ls (none, l) v full t =
      let (n, h) = nonempty-Holds w ls.first v.first_pool full in absurd (t.0 n h)
  take_first ls (some ip, l) v full (hi', h, least, p, e) = (
    hi',
    inl h,
    λ _. h,
    record {
      first_pool = p;
      second_pool = v.second_pool;
      apart = λ n i j. v.apart n ((e n).0 i).0 j;
    },
    λ n. (
      λ u. elim u [
        | inl i ↦ (inl ((e n).0 i).0, ((e n).0 i).1)
        | inr j ↦ (inr j, λ q. v.apart n (subst (Holds ls.first) (sym q) h) j)
      ],
      λ u. elim u.0 [ inl i ↦ inl ((e n).1 (i, u.1)) | inr j ↦ inr j ],
    ),
  )

  -- With no address in the first list the second one takes its place.
  take_rotated :
      (ls : IpLists) (r : Option Ip × IpLists)
      → empty ls.first ≡ true
      → Allocates w (record { first = ls.second; second = [] }) (r.0, r.1)
      → empty ls.second ≡ false
      → IsPool w ls.second
      → Allocates w ls r
  take_rotated ls (none, ls') e t full p =
      let (n, h) = nonempty-Holds w ls.second p full in absurd (t.0 n (inl h))
  take_rotated ls (some ip, ls') e (hi', h, least, v, f) full p = (
    hi',
    moved (value ip) h,
    λ k. absurd (differ e k),
    v,
    λ n. (
      λ u. (moved n ((f n).0 u).0, ((f n).0 u).1),
      λ u. elim u.0 [
        | inl i ↦ absurd (empty-not-Holds ls.first e n i)
        | inr j ↦ (f n).1 (inl j, u.1)
      ],
    ),
  )
    where
      moved : (n : ℕ) → Held (record { first = ls.second; second = [] }) n → Held ls n
      moved n u = elim u [ inl i ↦ inr i | inr j ↦ absurd j ]

  -- On two pools that share no address, the allocation of AllocateIp returns an address that one
  -- of them held, from the first pool if that is not empty, and removes it and no other; the pools
  -- stay separate. It fails only if neither holds an address, and then changes nothing.
  pub allocate_from-Allocates : (ls : IpLists) → IsLists w ls → Allocates w ls (allocate_from ls)
  unfolding allocate_from rotate
  allocate_from-Allocates ls v = elim (Bool-cases (empty ls.first)) [
    | inr e ↦ rw e (take_first ls (get_ip ls.first) v e (get_ip-Takes w ls.first v.first_pool))
    | inl e ↦ elim (Bool-cases (empty ls.second)) [
      | inl f ↦
          rw (e, f)
            (
              λ n u. elim u [
                | inl i ↦ empty-not-Holds ls.first e n i
                | inr j ↦ empty-not-Holds ls.second f n j
              ],
              refl,
            )
      | inr f ↦
          rw (e, f)
            (take_rotated ls _ e
              (take_first (record { first = ls.second; second = [] }) (get_ip ls.second)
                (record { first_pool = v.second_pool; second_pool = tt; apart = λ n i j. j }) f
                (get_ip-Takes w ls.second v.second_pool))
              f v.second_pool)
    ]
  ]

  module _ (ip : Ip) (ls : IpLists) (h : IsIp w ip) (v : IsLists w ls) where
    -- Returning an address that neither pool holds, as DeallocateIp does, keeps the two pools
    -- separate and adds this address and no other.
    pub return_to-Held :
        ¬ Held ls (value ip)
        → IsLists w (return_to ip ls)
          × ((n : ℕ) → Held (return_to ip ls) n ↔ ((n ≡ value ip) ⊎ Held ls n))
    unfolding return_to add_ip
    return_to-Held fresh =
        let x : IpRange = record { start = ip; end = ip } in
        let added = λ (n : ℕ).
          add_range-Holds w x ls.second h h n (Above→Starts w 0 ls.second v.second_pool) in
        let own : (n : ℕ) → Within x n → n ≡ value ip = λ n i. omega arith in
        (
          record {
            first_pool = v.first_pool;
            second_pool =
                add_range-IsPool w x ls.second h h v.second_pool
                  (λ n i j. fresh (inr (subst (Holds ls.second) (own n i) j)));
            apart = λ n i j. elim ((added n).0 j) [
              | inl a ↦ fresh (inl (subst (Holds ls.first) (own n a) i))
              | inr b ↦ v.apart n i b
            ];
          },
          λ n. (
            λ u. elim u [
              | inl i ↦ inr (inl i)
              | inr j ↦ elim ((added n).0 j) [ inl a ↦ inl (own n a) | inr b ↦ inr (inr b) ]
            ],
            λ u. elim u [
              | inl e ↦ inr ((added n).1 (inl (omega arith, omega arith)))
              | inr (inl i) ↦ inl i
              | inr (inr j) ↦ inr ((added n).1 (inr j))
            ],
          ),
        )

    pub removed_Holds :
        (l : IpAlloc)
        → IsPool w l
        → IsPool w (remove_ip ip l).0
          × ((n : ℕ) → Holds (remove_ip ip l).0 n ↔ (Holds l n × (n ≢ value ip)))
          × (((remove_ip ip l).1 ≡ true) ↔ Holds l (value ip))
    unfolding remove_ip
    removed_Holds l p =
        let x : IpRange = record { start = ip; end = ip } in
        let removed = remove_range-Holds w x l h h p in
        let (f, g) = remove_range-Meets w x l h h p in
        (
          remove_range-IsPool w x l h h p,
          λ n. (
            λ u. (
              ((removed n).0 u).0,
              λ e. elim ((removed n).0 u).1 [ inl i ↦ omega arith | inr j ↦ omega arith ],
            ),
            λ u. (removed n).1 (u.0, (let k = u.1 in ne_sides n (value ip) k)),
          ),
          (
            λ e. (let (n, i, j) = f e in let q : n ≡ value ip = omega arith in subst (Holds l) q j),
            λ u. g (value ip, (omega arith, omega arith), u),
          ),
        )

    -- RemoveIp on two pools that share no address reports whether one of them held the address,
    -- keeps them separate, and removes the address and no other.
    pub remove_from_lists-Held :
        (((remove_from_lists ip ls).1 ≡ true) ↔ Held ls (value ip))
        × IsLists w (remove_from_lists ip ls).0
        × ((n : ℕ) → Held (remove_from_lists ip ls).0 n ↔ (Held ls n × (n ≢ value ip)))
    unfolding remove_from_lists
    remove_from_lists-Held =
        let (p, e, f) = removed_Holds ls.first v.first_pool in
        let (q, e', f') = removed_Holds ls.second v.second_pool in
        elim (Bool-cases (remove_ip ip ls.first).1) [
          | inl t ↦ rw t (
            (λ _. inl (f.0 t), λ _. refl),
            record {
              first_pool = p;
              second_pool = v.second_pool;
              apart = λ n i j. v.apart n ((e n).0 i).0 j;
            },
            λ n. (
              λ u. elim u [
                | inl i ↦ (inl ((e n).0 i).0, ((e n).0 i).1)
                | inr j ↦ (inr j, λ k. v.apart n (subst (Holds ls.first) (sym k) (f.0 t)) j)
              ],
              λ u. elim u.0 [ inl i ↦ inl ((e n).1 (i, u.1)) | inr j ↦ inr j ],
            ),
          )
          | inr t ↦ rw t (
            (λ u. inr (f'.0 u), λ u. elim u [ inl i ↦ absurd (differ (f.1 i) t) | inr j ↦ f'.1 j ]),
            record {
              first_pool = p;
              second_pool = q;
              apart = λ n i j. v.apart n ((e n).0 i).0 ((e' n).0 j).0;
            },
            λ n. (
              λ u. elim u [
                | inl i ↦ (inl ((e n).0 i).0, ((e n).0 i).1)
                | inr j ↦ (inr ((e' n).0 j).0, ((e' n).0 j).1)
              ],
              λ u. elim u.0 [ inl i ↦ inl ((e n).1 (i, u.1)) | inr j ↦ inr ((e' n).1 (j, u.1)) ],
            ),
          )
        ]

  -- CombineV4 and CombineV6 of two pools that share no address return separate ranges in order
  -- that hold exactly the addresses of the two.
  pub combine-Held :
      (ls : IpLists)
      → IsLists w ls
      → IsPool w (combine ls) × ((n : ℕ) → Holds (combine ls) n ↔ Held ls n)
  unfolding combine
  combine-Held ls v =
      let one = add_ranges-Holds w ls.first [] in
      let ends = Above-HasEnds w 0 ls.first v.first_pool in
      let first_pool = add_ranges-IsPool w 0 ls.first [] v.first_pool tt (λ n i j. j) in
      let both = λ (n : ℕ).
        add_ranges-Holds w ls.second (add_ranges ls.first []) n
          (Above-HasEnds w 0 ls.second v.second_pool)
          (Above→Starts w 0 (add_ranges ls.first []) first_pool) in
      (
        add_ranges-IsPool w 0 ls.second (add_ranges ls.first []) v.second_pool first_pool
            (λ n i j. elim ((one n ends tt).0 j) [ inl a ↦ v.apart n a i | inr b ↦ b ]),
        λ n. (
          λ u. elim ((both n).0 u) [
            | inl i ↦ inr i
            | inr j ↦ elim ((one n ends tt).0 j) [ inl a ↦ inl a | inr b ↦ absurd b ]
          ],
          λ u. elim u [
            | inl i ↦ (both n).1 (inr ((one n ends tt).1 (inl i)))
            | inr j ↦ (both n).1 (inl j)
          ],
        ),
      )

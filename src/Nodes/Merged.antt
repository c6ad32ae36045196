-- ===== src/Nodes/Merged.antt =====
-- How many addresses a node of pkg/controller/nodes.go gets, and what the annotation of a node that is
-- found at the start does to the pools.
use z_presplit_aci_container.Base.{
  ℕ, ◌+◌, ◌/◌, ◌≤◌, ◌<◌, ◌≡◌, ◌⊎◌, inl, inr, ◌↔◌, subst, [], ◌∷◌, Option, none, some, ltb, arith,
  Bool-cases, Option-cases,
}
use z_presplit_aci_container.Ipam.Alloc.{IpAlloc, add_range, add_ranges}
use z_presplit_aci_container.Ipam.Alloc.Order.{hi, Within, Holds, Above, Above→Starts, Holds-ge}
use z_presplit_aci_container.Ipam.Alloc.Add.{IsPool, add_range-IsPool, add_range-Holds}
use z_presplit_aci_container.Ipam.Alloc.Batch.{
  Above-HasEnds, add_ranges-Holds, add_ranges-IsPool, remove_ranges-Holds, remove_ranges-IsPool,
}
use z_presplit_aci_container.Ipam.Chunk.{
  Chunk, taken, insufficient, stuck, total, get_size, get_ip_chunk,
}
use z_presplit_aci_container.Ipam.Chunk.Total.{add_range-total}
use z_presplit_aci_container.Ipam.Chunk.Split.{Delivers, get_ip_chunk-Delivers}
use z_presplit_aci_container.Ipam.Intersect.{intersect}
use z_presplit_aci_container.Ipam.Intersect.Meet.{Common, intersect-Common}
use z_presplit_aci_container.Nodes.{new_ranges, after_chunk, merge_family}
use z_presplit_aci_container.Nodes.Moves.{Apart}

module _ (w : ℕ) where
  add_ranges-total :
      (b : ℕ) (rs l : IpAlloc)
      → Above w b rs
      → IsPool w l
      → ((n : ℕ) → Holds rs n → ¬ Holds l n)
      → total (add_ranges rs l) ≡ total rs + total l
  unfolding add_ranges total
  add_ranges-total b [] l q p apart = omega arith
  add_ranges-total b (r ∷ rs) l (h, hr, q) p apart =
      let free : (n : ℕ) → Within r n → ¬ Holds l n = λ n i. apart n (inl i) in
      let one = add_range-total w r l hr p free in
      let rest =
        add_ranges-total (hi r + 1) rs (add_range r.start r.end l) q
          (add_range-IsPool w r l hr.start_ip hr.end_ip p free)
          (λ n i j.
            elim ((add_range-Holds w r l hr.start_ip hr.end_ip n (Above→Starts w 0 l p)).0 j) [
              | inl a ↦ absurd (
                  let k = Holds-ge w (hi r + 1) n rs (Above→Starts w (hi r + 1) rs q) i in
                  omega arith)
              | inr c ↦ apart n (inr i) c
            ]) in
      omega (arith, one, rest)

  -- A chunk of the size asked for, or none: then none was due, or there is none.
  abbrev pub Granted :
      (pods chunk_size : ℕ) (ranges ipa : IpAlloc) → Option IpAlloc × IpAlloc → Type 0
  Granted pods chunk_size ranges ipa (none, left) =
      (pods + chunk_size / 2 ≤ get_size ranges) ⊎ (total ipa < chunk_size)
  Granted pods chunk_size ranges ipa (some ranges', left) =
      (get_size ranges < pods + chunk_size / 2) × (total ranges' ≡ chunk_size + total ranges)

  after_chunk-Granted :
      (pods chunk_size : ℕ) (ranges ipa : IpAlloc) (c : Chunk)
      → get_size ranges < pods + chunk_size / 2
      → Apart w ranges ipa
      → Delivers w ipa chunk_size c
      → Granted pods chunk_size ranges ipa (after_chunk ranges ipa c)
  unfolding after_chunk
  after_chunk-Granted pods chunk_size ranges ipa (taken r left) short a d =
      let sum =
        add_ranges-total 0 r ranges d.0.result_pool a.own_pool
          (λ n i j. a.apart n j ((d.0.whole n).1 (inl i))) in
      (short, omega (arith, sum, d.1))
  after_chunk-Granted pods chunk_size ranges ipa (insufficient left) short a d = inr d.0
  after_chunk-Granted pods chunk_size ranges ipa stuck short a d = absurd d

  -- When the ranges of a node and the pool of the controller are separate and in order and share
  -- no address, allocateIpChunk gives the node a chunk only if its addresses are fewer than its
  -- pods and half a chunk, and then exactly as many addresses as a chunk has; it gives none only
  -- if they are as many, or if the pool has fewer addresses than a chunk.
  pub new_ranges-Granted :
      (pods chunk_size : ℕ) (ranges ipa : IpAlloc)
      → Apart w ranges ipa
      → Granted pods chunk_size ranges ipa (new_ranges pods chunk_size ranges ipa)
  unfolding new_ranges
  new_ranges-Granted pods chunk_size ranges ipa a =
      elim (Bool-cases (ltb (get_size ranges) (pods + chunk_size / 2))) [
        | inl e ↦
            rw (e, new_ranges)
              (after_chunk-Granted pods chunk_size ranges ipa (get_ip_chunk chunk_size ipa)
                (ground (arith, e)) a (get_ip_chunk-Delivers w chunk_size ipa a.left_pool))
        | inr e ↦ rw (e, new_ranges) (inl (ground (arith, e)))
      ]

  -- The node has what is configured of its old ranges and the annotation's, and the pool loses
  -- the annotation's.
  pub record Merges (ranges existing configured ipa ranges' left : IpAlloc) : Type 0 where
    pub still : Apart w ranges' left
    pub own : (n : ℕ) → Holds ranges' n ↔ ((Holds existing n ⊎ Holds ranges n) × Holds configured n)
    pub left_over : (n : ℕ) → Holds left n ↔ (Holds ipa n × (¬ Holds existing n))

  -- When the ranges of a node, the pool, the configured ranges and those of an annotation are
  -- separate ranges in order, and the node shares no address with the pool or the annotation,
  -- mergePodNet leaves the node with exactly the configured addresses among its own and those of
  -- the annotation, takes exactly those of the annotation from the pool, and the two still share
  -- no address.
  pub merge_family-Merges :
      (ranges existing configured ipa : IpAlloc)
      → Apart w ranges ipa
      → IsPool w existing
      → IsPool w configured
      → ((n : ℕ) → Holds existing n → ¬ Holds ranges n)
      → Merges ranges existing configured ipa
          (merge_family ranges existing configured ipa).0
          (merge_family ranges existing configured ipa).1
  unfolding merge_family
  merge_family-Merges ranges existing configured ipa a p c fresh =
      let ends = Above-HasEnds w 0 existing p in
      let united = add_ranges existing ranges in
      let held =
        λ (n : ℕ). add_ranges-Holds w existing ranges n ends (Above→Starts w 0 ranges a.own_pool) in
      let pool = add_ranges-IsPool w 0 existing ranges p a.own_pool fresh in
      let left = λ (n : ℕ). remove_ranges-Holds w existing ipa n ends a.left_pool in
      let common = intersect-Common w united configured pool c in
      elim (Option-cases (intersect united configured)) [
        | inl h ↦ absurd (subst (Common w united configured) h common)
        | inr (v, h) ↦
            let (is_pool, met) = subst (Common w united configured) h common in
            rw (h, merge_family)
              (record {
                still = record {
                  own_pool = is_pool;
                  left_pool = remove_ranges-IsPool w existing ipa ends a.left_pool;
                  apart = λ n i j. elim ((held n).0 ((met n).0 i).0) [
                    | inl e ↦ ((left n).0 j).1 e
                    | inr e ↦ a.apart n e ((left n).0 j).0
                  ];
                };
                own = λ n. (
                  λ u. ((held n).0 ((met n).0 u).0, ((met n).0 u).1),
                  λ u. (met n).1 ((held n).1 (u.0), u.1),
                );
                left_over = left;
              })
      ]

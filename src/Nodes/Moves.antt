-- ===== src/Nodes/Moves.antt =====
-- What a step of pkg/controller/nodes.go does to the ranges of one node and the controller's pool.
use z_presplit_aci_container.Base.{
  ℕ, ◌+◌, ◌/◌, ◌≡◌, ◌⊎◌, inl, inr, ◌↔◌, refl, subst, Bool, true, false, Option, none, some, length,
  ltb, Bool-cases,
}
use z_presplit_aci_container.Ipam.Alloc.{IpAlloc, add_ranges, empty}
use z_presplit_aci_container.Ipam.Alloc.Order.{Holds, Above→Starts}
use z_presplit_aci_container.Ipam.Alloc.Add.{IsPool}
use z_presplit_aci_container.Ipam.Alloc.Batch.{Above-HasEnds, add_ranges-Holds, add_ranges-IsPool}
use z_presplit_aci_container.Ipam.Chunk.{Chunk, taken, insufficient, stuck, get_size, get_ip_chunk}
use z_presplit_aci_container.Ipam.Chunk.Split.{Splits, Delivers, get_ip_chunk-Delivers}
use z_presplit_aci_container.Base.Maps.{Key}
use z_presplit_aci_container.Nodes.{
  NetIps, NodePodNetMeta, AciController, family, with_family, grant, after_chunk, new_ranges,
  allocate_ip_chunk, allocate_if, recompute_pod_net_annotation,
}

-- Two pools that share no address.
pub record Apart (w : ℕ) (ranges ipa : IpAlloc) : Type 0 where
  pub own_pool : IsPool w ranges
  pub left_pool : IsPool w ipa
  pub apart : (n : ℕ) → Holds ranges n → ¬ Holds ipa n

-- They stay so, and hold together what they held, of which the node loses nothing.
pub record Moves (w : ℕ) (ranges ipa ranges' ipa' : IpAlloc) : Type 0 where
  pub still : Apart w ranges' ipa'
  pub whole : (n : ℕ) → (Holds ranges' n ⊎ Holds ipa' n) ↔ (Holds ranges n ⊎ Holds ipa n)
  pub kept : (n : ℕ) → Holds ranges n → Holds ranges' n

module _ (w : ℕ) where
  pub Moves-refl : (ranges ipa : IpAlloc) → Apart w ranges ipa → Moves w ranges ipa ranges ipa
  Moves-refl ranges ipa a = record { still = a; whole = λ n. (λ u. u, λ u. u); kept = λ n h. h }

  pub Moves-trans : (a b c d e f : IpAlloc) → Moves w a b c d → Moves w c d e f → Moves w a b e f
  Moves-trans a b c d e f m m' = record {
    still = m'.still;
    whole = λ n. (λ u. (m.whole n).0 ((m'.whole n).0 u), λ u. (m'.whole n).1 ((m.whole n).1 u));
    kept = λ n h. m'.kept n (m.kept n h);
  }

  -- The chunk goes over to the node.
  taken-Moves :
      (ranges ipa r left : IpAlloc)
      → Apart w ranges ipa
      → Splits w ipa r left
      → Moves w ranges ipa (add_ranges r ranges) left
  taken-Moves ranges ipa r left a s =
      let held = λ (n : ℕ).
        add_ranges-Holds w r ranges n (Above-HasEnds w 0 r s.result_pool)
          (Above→Starts w 0 ranges a.own_pool) in
      record {
        still = record {
          own_pool =
              add_ranges-IsPool w 0 r ranges s.result_pool a.own_pool
                (λ n i j. a.apart n j ((s.whole n).1 (inl i)));
          left_pool = s.left_pool;
          apart = λ n i j. elim ((held n).0 i) [
            | inl h ↦ s.apart n h j
            | inr h ↦ a.apart n h ((s.whole n).1 (inr j))
          ];
        };
        whole = λ n. (
          λ u. elim u [
            | inl i ↦ elim ((held n).0 i) [ inl h ↦ inr ((s.whole n).1 (inl h)) | inr h ↦ inl h ]
            | inr j ↦ inr ((s.whole n).1 (inr j))
          ],
          λ u. elim u [
            | inl i ↦ inl ((held n).1 (inr i))
            | inr j ↦ elim ((s.whole n).0 j) [ inl h ↦ inl ((held n).1 (inl h)) | inr h ↦ inr h ]
          ],
        );
        kept = λ n h. (held n).1 (inr h);
      }

  -- An error gives all addresses back.
  returned-Moves :
      (ranges ipa left : IpAlloc)
      → Apart w ranges ipa
      → IsPool w left
      → ((n : ℕ) → Holds left n ↔ Holds ipa n)
      → Moves w ranges ipa ranges left
  returned-Moves ranges ipa left a p same = record {
    still = record {
      own_pool = a.own_pool;
      left_pool = p;
      apart = λ n i j. a.apart n i ((same n).0 j);
    };
    whole = λ n. (
      λ u. elim u [ inl i ↦ inl i | inr j ↦ inr ((same n).0 j) ],
      λ u. elim u [ inl i ↦ inl i | inr j ↦ inr ((same n).1 j) ],
    );
    kept = λ n h. h;
  }

  abbrev ranges_after : IpAlloc → Option IpAlloc → IpAlloc
  ranges_after ranges none = ranges
  ranges_after ranges (some r) = r

  after_chunk-Moves :
      (size : ℕ) (ranges ipa : IpAlloc) (c : Chunk)
      → Apart w ranges ipa
      → Delivers w ipa size c
      → Moves w ranges ipa
          (ranges_after ranges (after_chunk ranges ipa c).0)
          (after_chunk ranges ipa c).1
  unfolding after_chunk
  after_chunk-Moves size ranges ipa (taken r left) a d = taken-Moves ranges ipa r left a d.0
  after_chunk-Moves size ranges ipa (insufficient left) a d =
      returned-Moves ranges ipa left a d.1 d.2
  after_chunk-Moves size ranges ipa stuck a d = absurd d

  new_ranges-Moves :
      (pods chunk_size : ℕ) (ranges ipa : IpAlloc)
      → Apart w ranges ipa
      → Moves w ranges ipa
          (ranges_after ranges (new_ranges pods chunk_size ranges ipa).0)
          (new_ranges pods chunk_size ranges ipa).1
  unfolding new_ranges
  new_ranges-Moves pods chunk_size ranges ipa a =
      elim (Bool-cases (ltb (get_size ranges) (pods + chunk_size / 2))) [
        | inr e ↦ rw (e, new_ranges) (Moves-refl ranges ipa a)
        | inl e ↦
            rw (e, new_ranges)
              (after_chunk-Moves chunk_size ranges ipa (get_ip_chunk chunk_size ipa) a
                (get_ip_chunk-Delivers w chunk_size ipa a.left_pool))
      ]

  module _ (marshal : NetIps → Key) (g : Bool) where
    -- A step on the ranges of a node with the pool of its family, seen in either family.
    abbrev pub Steps : NodePodNetMeta → AciController → NodePodNetMeta → AciController → Type 0
    Steps podnet cont podnet' cont' =
        Moves w (family g podnet.pod_net_ips) (family g cont.pod_network_ips)
          (family g podnet'.pod_net_ips) (family g cont'.pod_network_ips)

    abbrev pub Ready : NodePodNetMeta → AciController → Type 0
    Ready podnet cont = Apart w (family g podnet.pod_net_ips) (family g cont.pod_network_ips)

    grant-Steps :
        (v4 : Bool) (podnet : NodePodNetMeta) (cont : AciController) (found : Option IpAlloc)
        (left : IpAlloc)
        → Ready podnet cont
        → (g ≡ v4
            → Moves w
                (family v4 podnet.pod_net_ips)
                (family v4 cont.pod_network_ips)
                (ranges_after (family v4 podnet.pod_net_ips) found)
                left)
        → Steps podnet cont
            (grant marshal v4 podnet cont (found, left)).1
            (grant marshal v4 podnet cont (found, left)).2
    unfolding grant family with_family recompute_pod_net_annotation
    grant-Steps v4 podnet cont found left a m = both g v4 found m a
      where
        both :
            (g v4 : Bool) (found : Option IpAlloc)
            → (g ≡ v4
                → Moves w
                    (family v4 podnet.pod_net_ips)
                    (family v4 cont.pod_network_ips)
                    (ranges_after (family v4 podnet.pod_net_ips) found)
                    left)
            → Apart w (family g podnet.pod_net_ips) (family g cont.pod_network_ips)
            → Moves w
                (family g podnet.pod_net_ips)
                (family g cont.pod_network_ips)
                (family g (grant marshal v4 podnet cont (found, left)).1.pod_net_ips)
                (family g (grant marshal v4 podnet cont (found, left)).2.pod_network_ips)
        both true true none m a = m refl
        both true true (some r) m a = m refl
        both false false none m a = m refl
        both false false (some r) m a = m refl
        both true false none m a = Moves-refl podnet.pod_net_ips.v4 cont.pod_network_ips.v4 a
        both true false (some r) m a = Moves-refl podnet.pod_net_ips.v4 cont.pod_network_ips.v4 a
        both false true none m a = Moves-refl podnet.pod_net_ips.v6 cont.pod_network_ips.v6 a
        both false true (some r) m a = Moves-refl podnet.pod_net_ips.v6 cont.pod_network_ips.v6 a

    allocate_if-Steps :
        (v4 : Bool) (podnet : NodePodNetMeta) (cont : AciController)
        → Ready podnet cont
        → Steps podnet cont
            (allocate_if marshal v4 podnet cont).1
            (allocate_if marshal v4 podnet cont).2
    unfolding allocate_if allocate_ip_chunk
    allocate_if-Steps v4 podnet cont a =
        let pods = length podnet.node_pods in
        let size = cont.pod_ip_pool_chunk_size in
        let ranges = family v4 podnet.pod_net_ips in
        let ipa = family v4 cont.pod_network_ips in
        let r = new_ranges pods size ranges ipa in
        elim (Bool-cases (empty (family v4 cont.configured_pod_network_ips))) [
          | inl e ↦
              rw (e, allocate_if)
                (Moves-refl (family g podnet.pod_net_ips) (family g cont.pod_network_ips) a)
          | inr e ↦
              rw (e, allocate_if)
                (grant-Steps v4 podnet cont r.0 r.1 a (λ same.
                  new_ranges-Moves pods size ranges ipa (
                    subst
                      (λ f. Apart w (family f podnet.pod_net_ips) (family f cont.pod_network_ips))
                      same a)))
        ]

    -- Both families, one after the other, as in checkNodePodNet.
    pub allocate_both-Steps :
        (podnet : NodePodNetMeta) (cont : AciController)
        → Ready podnet cont
        → Steps podnet cont
            (allocate_if marshal false
              (allocate_if marshal true podnet cont).1
              (allocate_if marshal true podnet cont).2).1
            (allocate_if marshal false
              (allocate_if marshal true podnet cont).1
              (allocate_if marshal true podnet cont).2).2
    allocate_both-Steps podnet cont a =
        let podnet1 = (allocate_if marshal true podnet cont).1 in
        let cont1 = (allocate_if marshal true podnet cont).2 in
        let m = allocate_if-Steps true podnet cont a in
        Moves-trans (family g podnet.pod_net_ips) (family g cont.pod_network_ips)
          (family g podnet1.pod_net_ips) (family g cont1.pod_network_ips) _ _ m
          (allocate_if-Steps false podnet1 cont1 m.still)

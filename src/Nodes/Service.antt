-- ===== src/Nodes/Service.antt =====
-- pkg/controller/nodes.go: the service endpoint of a node, with an address of each family from the
-- pools of node service addresses.
use z_presplit_aci_container.Base.{
  ℕ, ◌≡◌, ◌≢◌, ◌↔◌, inl, inr, refl, sym, subst, Bool, true, false, not, ◌&&◌, [], Option, none,
  some, arith, ℕ_discrete, Bool-cases, if◌then◌else◌,
}
use z_presplit_aci_container.Base.Maps.{Key, KeyMap, same_key, lookup, delete}
use z_presplit_aci_container.Ipam.Address.{Ip}
use z_presplit_aci_container.Ipam.Address.Value.{value, IsIp}
use z_presplit_aci_container.Ipam.Alloc.{IpRange, IpAlloc, add_ip, remove_ip, get_ip}
use z_presplit_aci_container.Ipam.Alloc.Order.{Within, Holds, Above→Starts}
use z_presplit_aci_container.Ipam.Alloc.Add.{IsPool, add_range-Holds, add_range-IsPool}
use z_presplit_aci_container.Ipam.Cache.Lists.{removed_Holds, differ}
use z_presplit_aci_container.Ipam.Alloc.Get.{Takes, get_ip-Takes}
use z_presplit_aci_container.Nodes.{NetIps}

pub record ServiceEndpoint : Type 0 where
  pub mac : Key
  pub ipv4 : Option Ip
  pub ipv6 : Option Ip

-- The caches of the controller that a service endpoint is about.
pub record NodeServices : Type 0 where
  pub node_service_ips : NetIps
  pub node_service_meta_cache : KeyMap ServiceEndpoint

-- The address that an earlier endpoint had, if it is still in the pool.
unfoldable pub reclaim_ip : Option Ip → IpAlloc → Option Ip × IpAlloc
reclaim_ip none pool = (none, pool)
reclaim_ip (some ip) pool =
    ((if (remove_ip ip pool).1 then some ip else none), (remove_ip ip pool).0)

-- The address of one family: the endpoint's, the earlier one's, or one from the pool.
unfoldable pub claim_ip : Option Ip → Option Ip → IpAlloc → Option Ip × IpAlloc
claim_ip (some ip) existing pool = (some ip, pool)
claim_ip none existing pool = elim (reclaim_ip existing pool).0 [
  | some ip ↦ (some ip, (reclaim_ip existing pool).1)
  | none ↦ get_ip (reclaim_ip existing pool).1
]

unfoldable pub has_address : Option Ip → Option Ip → Bool
has_address none none = false
has_address none (some ip) = true
has_address (some ip) ipv6 = true

-- `parse_mac` tells whether `net.ParseMAC` succeeds, and `random_mac` is the address made from
-- `rand.Read`, none if it fails.
module _ (parse_mac : Key → Bool) (random_mac : Option Key) where
  unfoldable pub choose_mac : Key → Key → Option Key
  choose_mac existing device_mac =
      if parse_mac device_mac && not (same_key device_mac "00:00:00:00:00:00")
      then some device_mac
      else if parse_mac existing
      then some existing
      else random_mac

  -- Whether there is no error, the endpoint, and the pools.
  unfoldable pub create_service_endpoint :
      ServiceEndpoint → ServiceEndpoint → Key → NetIps → Bool × ServiceEndpoint × NetIps
  create_service_endpoint existing ep device_mac ips =
      let (ipv4, left4) = claim_ip ep.ipv4 existing.ipv4 ips.v4 in
      let (ipv6, left6) = claim_ip ep.ipv6 existing.ipv6 ips.v6 in
      elim (choose_mac existing.mac device_mac) [
        | none ↦ (false, ep, ips)
        | some mac ↦ (
          has_address ipv4 ipv6,
          record { mac = mac; ipv4 = ipv4; ipv6 = ipv6 },
          record { v4 = left4; v6 = left6 },
        )
      ]

unfoldable pub give_back : Option Ip → IpAlloc → IpAlloc
give_back none pool = pool
give_back (some ip) pool = add_ip ip pool

-- The part of `nodeDeleted` for the caches.
unfoldable pub node_deleted : Key → NodeServices → NodeServices
node_deleted node s = record s {
  node_service_ips = elim (lookup node s.node_service_meta_cache) [
    | none ↦ s.node_service_ips
    | some existing ↦ record {
      v4 = give_back existing.ipv4 s.node_service_ips.v4;
      v6 = give_back existing.ipv6 s.node_service_ips.v6;
    }
  ];
  node_service_meta_cache = delete node s.node_service_meta_cache;
}

module _ (w : ℕ) where
  -- An address that was in the pool and is no longer, and the pool is otherwise the same; or
  -- there is none.
  abbrev pub Claims : IpAlloc → Option Ip × IpAlloc → Type 0
  Claims pool (none, left) = ((n : ℕ) → ¬ Holds pool n) × IsPool w left × ((n : ℕ) → ¬ Holds left n)
  Claims pool (some ip, left) =
      IsIp w ip
      × Holds pool (value ip)
      × IsPool w left
      × ((n : ℕ) → Holds left n ↔ (Holds pool n × (n ≢ value ip)))

  get_ip-Claims : (pool : IpAlloc) → IsPool w pool → Claims pool (get_ip pool)
  get_ip-Claims pool p = taken (get_ip pool) (get_ip-Takes w pool p)
    where
      taken : (r : Option Ip × IpAlloc) → Takes w pool r → Claims pool r
      taken (none, left) t =
          (t.0, subst (IsPool w) (sym t.1) p, λ n h. t.0 n (subst (λ l. Holds l n) t.1 h))
      taken (some ip, left) t = (t.0, t.1, t.3, t.4)

  same-Claims :
      (pool pool' : IpAlloc) (r : Option Ip × IpAlloc)
      → ((n : ℕ) → Holds pool' n ↔ Holds pool n)
      → Claims pool' r
      → Claims pool r
  same-Claims pool pool' (none, left) e c = (λ n h. c.0 n ((e n).1 h), c.1, c.2)
  same-Claims pool pool' (some ip, left) e c = (
    c.0,
    (e (value ip)).0 c.1,
    c.2,
    λ n. (λ u. ((e n).0 ((c.3 n).0 u).0, ((c.3 n).0 u).1), λ u. (c.3 n).1 ((e n).1 u.0, u.1)),
  )

  abbrev pub Valid : Option Ip → Type 0
  Valid none = Unit
  Valid (some ip) = IsIp w ip

  -- What the pool's removal of an address does.
  module _ (ip : Ip) (pool : IpAlloc) (h : IsIp w ip) (p : IsPool w pool) where
    removed :
        IsPool w (remove_ip ip pool).0
        × ((n : ℕ) → Holds (remove_ip ip pool).0 n ↔ (Holds pool n × (n ≢ value ip)))
        × (((remove_ip ip pool).1 ≡ true) ↔ Holds pool (value ip))
    removed =
        removed_Holds w ip (record { first = pool; second = [] }) h
          (record { first_pool = p; second_pool = tt; apart = λ n i j. j }) pool p

    not_held_same :
        (remove_ip ip pool).1 ≡ false → (n : ℕ) → Holds (remove_ip ip pool).0 n ↔ Holds pool n
    not_held_same e n = (
      λ u. ((removed.1 n).0 u).0,
      λ u. (removed.1 n).1 (u, λ same. differ (removed.2.1 (subst (Holds pool) same u)) e),
    )

  claim-Claims :
      (existing : Option Ip) (pool : IpAlloc)
      → Valid existing
      → IsPool w pool
      → Claims pool (claim_ip none existing pool)
  unfolding claim_ip reclaim_ip
  claim-Claims none pool h p = get_ip-Claims pool p
  claim-Claims (some ip) pool h p = elim (Bool-cases (remove_ip ip pool).1) [
    | inl e ↦ let r = removed ip pool h p in rw (e, claim_ip, reclaim_ip) ((h, r.2.0 e, r.0, r.1))
    | inr e ↦
        rw (e, claim_ip, reclaim_ip)
          (same-Claims pool (remove_ip ip pool).0 (get_ip (remove_ip ip pool).0)
            (not_held_same ip pool h p e)
            (get_ip-Claims (remove_ip ip pool).0 (removed ip pool h p).0))
  ]

  claim-prefers :
      (ip : Ip) (pool : IpAlloc)
      → IsIp w ip
      → IsPool w pool
      → Holds pool (value ip)
      → (claim_ip none (some ip) pool).0 ≡ some ip
  unfolding claim_ip reclaim_ip
  claim-prefers ip pool h p held =
      let e = (removed ip pool h p).2.1 held in rw (e, claim_ip, reclaim_ip) refl

  given_back :
      (pool : IpAlloc) (r : Option Ip × IpAlloc)
      → Claims pool r
      → IsPool w (give_back r.0 r.1) × ((n : ℕ) → Holds (give_back r.0 r.1) n ↔ Holds pool n)
  unfolding give_back add_ip
  given_back pool (none, left) c = (c.1, λ n. (λ u. absurd (c.2 n u), λ u. absurd (c.0 n u)))
  given_back pool (some ip, left) c =
      let x : IpRange = record { start = ip; end = ip } in
      let added = λ (n : ℕ). add_range-Holds w x left c.0 c.0 n (Above→Starts w 0 left c.2) in
      let own : (n : ℕ) → Within x n → n ≡ value ip = λ n i. omega arith in
      (
        add_range-IsPool w x left c.0 c.0 c.2 (λ n i j. ((c.3 n).0 j).1 (own n i)),
        λ n. (
          λ u. elim ((added n).0 u) [
            | inl i ↦ subst (Holds pool) (sym (own n i)) c.1
            | inr j ↦ ((c.3 n).0 j).0
          ],
          λ u. elim (ℕ_discrete n (value ip)) [
            | yes e ↦ (added n).1 (inl (omega arith, omega arith))
            | no differs ↦ (added n).1 (inr ((c.3 n).1 (u, differs)))
          ],
        ),
      )

  -- A pool's address goes to an endpoint and comes back.
  pub record Serves (existing : Option Ip) (pool : IpAlloc) (r : Option Ip × IpAlloc) : Type 0 where
    pub claims : Claims pool r
    pub returns : IsPool w (give_back r.0 r.1)
    pub same_again : (n : ℕ) → Holds (give_back r.0 r.1) n ↔ Holds pool n

  -- On a pool of separate ranges in order, createServiceEndpoint gives an endpoint without an
  -- address one that was in the pool, removes it and no other, and gives none only if the pool has
  -- none; and when nodeDeleted gives it back, the pool has again exactly the addresses that it
  -- had.
  pub claim_ip-Serves :
      (existing : Option Ip) (pool : IpAlloc)
      → Valid existing
      → IsPool w pool
      → Serves existing pool (claim_ip none existing pool)
  claim_ip-Serves existing pool h p =
      let c = claim-Claims existing pool h p in
      let (q, same) = given_back pool (claim_ip none existing pool) c in
      record { claims = c; returns = q; same_again = same }

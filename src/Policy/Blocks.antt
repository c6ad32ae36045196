-- ===== src/Policy/Blocks.antt =====
-- `ipBlockToSubnets` of pkg/controller/network_policy.go, less the texts of the subnets that it returns.
use z_presplit_aci_container.Base.{
  ℕ, ◌+◌, ◌≡◌, sym, subst, ◌↔◌, ◌⊎◌, inl, inr, List, [], ◌∷◌, ◌++◌, Option, none, some, All,
  Option-cases,
}
use z_presplit_aci_container.Base.Maps.{Key}
use z_presplit_aci_container.Ipam.Address.{Ip}
use z_presplit_aci_container.Ipam.Address.Value.{value, IsIp}
use z_presplit_aci_container.Ipam.Alloc.{IpAlloc}
use z_presplit_aci_container.Ipam.Alloc.Order.{Holds, Above, hi}
use z_presplit_aci_container.Ipam.Alloc.Add.{IsPool}
use z_presplit_aci_container.Ipam.Cidr.{IpNet, add_subnet, remove_subnet, range2cidr}
use z_presplit_aci_container.Ipam.Cidr.Cover.{InNets, range2cidr-covers}
use z_presplit_aci_container.Ipam.Cidr.Subnets.{
  Contains, add_subnet-Holds, remove_subnet-Holds, add_subnet-IsPool, remove_subnet-IsPool,
}

-- The loop over the ranges that are left.
unfoldable pub free_nets : IpAlloc → List IpNet
free_nets [] = []
free_nets (r ∷ ranges) = range2cidr r.start r.end ++ free_nets ranges

-- `parse` is `net.ParseCIDR`, none for an error.
module _ (parse : Key → Option IpNet) where
  unfoldable pub remove_excepts : List Key → IpAlloc → Option IpAlloc
  remove_excepts [] ips = some ips
  remove_excepts (except ∷ excepts) ips = elim (parse except) [
    | none ↦ none
    | some nw ↦ remove_excepts excepts (remove_subnet nw ips).0
  ]

  unfoldable pub nets_of : Option IpAlloc → Option (List IpNet)
  nets_of none = none
  nets_of (some ips) = some (free_nets ips)

  unfoldable pub ip_block_to_subnets : Key → List Key → Option (List IpNet)
  ip_block_to_subnets cidr excepts = elim (parse cidr) [
    | none ↦ none
    | some nw ↦ nets_of (remove_excepts excepts (add_subnet nw []))
  ]

InNets-append : (a b : List IpNet) (x : Ip) → InNets (a ++ b) x ↔ (InNets a x ⊎ InNets b x)
InNets-append [] b x = (inr, λ u. elim u [ inl i ↦ absurd i | inr j ↦ j ])
InNets-append (n ∷ a) b x =
    let rest = InNets-append a b x in
    (
      λ u. elim u [
        | inl i ↦ inl (inl i)
        | inr j ↦ elim (rest.0 j) [ inl k ↦ inl (inr k) | inr k ↦ inr k ]
      ],
      λ u. elim u [
        | inl i ↦ elim i [ inl k ↦ inl k | inr k ↦ inr (rest.1 (inl k)) ]
        | inr j ↦ inr (rest.1 (inr j))
      ],
    )

-- The subnets of the ranges contain the addresses that the ranges hold.
free_nets-Holds :
    (w : ℕ) (l : IpAlloc) (b : ℕ) (x : Ip)
    → Above w b l
    → IsIp w x
    → InNets (free_nets l) x ↔ Holds l (value x)
unfolding free_nets
free_nets-Holds w [] b x p hx = (λ u. u, λ u. u)
free_nets-Holds w (r ∷ l) b x p hx =
    let here = range2cidr-covers p.1.start_ip p.1.end_ip hx in
    let rest = free_nets-Holds w l (hi r + 1) x p.2 hx in
    let both = InNets-append (range2cidr r.start r.end) (free_nets l) x in
    (
      λ u. elim (both.0 u) [ inl i ↦ inl (here.0 i) | inr j ↦ inr (rest.0 j) ],
      λ u. elim u [ inl i ↦ both.1 (inl (here.1 i)) | inr j ↦ both.1 (inr (rest.1 j)) ],
    )

module _ (w : ℕ) (parse : Key → Option IpNet) (x : Ip) (hx : IsIp w x) where
  abbrev InParsed : Option IpNet → Type 0
  InParsed none = ⊥
  InParsed (some net) = Contains net x

  abbrev InAny : List Key → Type 0
  InAny [] = ⊥
  InAny (c ∷ cs) = InParsed (parse c) ⊎ InAny cs

  abbrev AnyUnparsed : List Key → Type 0
  AnyUnparsed [] = ⊥
  AnyUnparsed (c ∷ cs) = (parse c ≡ none) ⊎ AnyUnparsed cs

  -- What the text parses to is an address of that width.
  abbrev pub HasWidth : Key → Type 0
  HasWidth c = (net : IpNet) → parse c ≡ some net → IsIp w net.ip

  -- The exceptions leave the other addresses, or one of them does not parse.
  abbrev Left : IpAlloc → List Key → Option IpAlloc → Type 0
  Left l excepts none = AnyUnparsed excepts
  Left l excepts (some ips) =
      IsPool w ips × (Holds ips (value x) ↔ (Holds l (value x) × (¬ InAny excepts)))

  Left-cons :
      (net : IpNet) (l : IpAlloc) (except : Key) (excepts : List Key) (o : Option IpAlloc)
      → parse except ≡ some net
      → IsIp w net.ip
      → IsPool w l
      → Left (remove_subnet net l).0 excepts o
      → Left l (except ∷ excepts) o
  Left-cons net l except excepts none e hip p h = inr h
  Left-cons net l except excepts (some ips) e hip p h =
      let held = remove_subnet-Holds net x l hip hx p in
      (
        h.0,
        (
          λ u.
              let (after, others) = h.1.0 u in
              let before = held.0 after in
              (before.0, λ i. elim i [ inl j ↦ before.1 (subst InParsed e j) | inr j ↦ others j ]),
          λ u. h.1.1 (held.1 (u.0, λ i. u.1 (inl (subst InParsed (sym e) i))), λ j. u.1 (inr j)),
        ),
      )

  remove_excepts-Left :
      (excepts : List Key) (l : IpAlloc)
      → All HasWidth excepts
      → IsPool w l
      → Left l excepts (remove_excepts parse excepts l)
  unfolding remove_excepts
  remove_excepts-Left [] l h p = (p, (λ u. (u, λ i. i), λ u. u.0))
  remove_excepts-Left (except ∷ excepts) l h p = elim (Option-cases (parse except)) [
    | inl e ↦ rw (e, remove_excepts) (inl e)
    | inr (net, e) ↦
        rw (e, remove_excepts)
          (Left-cons net l except excepts _ e (h.0 net e) p (
            remove_excepts-Left excepts (remove_subnet net l).0 h.1
              (remove_subnet-IsPool net l (h.0 net e) p)))
  ]

  -- Subnets that contain the block less the exceptions, or some text that does not parse.
  abbrev pub BlockSubnets : Key → List Key → Option (List IpNet) → Type 0
  BlockSubnets cidr excepts none = AnyUnparsed (cidr ∷ excepts)
  BlockSubnets cidr excepts (some nets) =
      InNets nets x ↔ (InParsed (parse cidr) × (¬ InAny excepts))

  nets_of-BlockSubnets :
      (net : IpNet) (cidr : Key) (excepts : List Key) (o : Option IpAlloc)
      → parse cidr ≡ some net
      → IsIp w net.ip
      → Left (add_subnet net []) excepts o
      → BlockSubnets cidr excepts (nets_of parse o)
  unfolding nets_of
  nets_of-BlockSubnets net cidr excepts none e hip h = inr h
  nets_of-BlockSubnets net cidr excepts (some ips) e hip h =
      let held = add_subnet-Holds net x [] hip hx tt in
      let nets = free_nets-Holds w ips 0 x h.0 hx in
      (
        λ u.
            let (kept, others) = h.1.0 (nets.0 u) in
            (elim (held.0 kept) [ inl i ↦ subst InParsed (sym e) i | inr j ↦ absurd j ], others),
        λ u. nets.1 (h.1.1 (held.1 (inl (subst InParsed e u.0)), u.1)),
      )

  -- Where the texts of an IP block parse to subnets of one width, if at all, ipBlockToSubnets
  -- returns either subnets that contain exactly the addresses of that width that the block
  -- contains and none of its exceptions does, or none, and then the text of the block or that of
  -- an exception does not parse.
  pub ip_block_to_subnets-BlockSubnets :
      (cidr : Key) (excepts : List Key)
      → All HasWidth (cidr ∷ excepts)
      → BlockSubnets cidr excepts (ip_block_to_subnets parse cidr excepts)
  unfolding ip_block_to_subnets
  ip_block_to_subnets-BlockSubnets cidr excepts h = elim (Option-cases (parse cidr)) [
    | inl e ↦ rw (e, ip_block_to_subnets) (inl e)
    | inr (net, e) ↦
        rw (e, ip_block_to_subnets)
          (nets_of-BlockSubnets net cidr excepts _ e (h.0 net e) (
            remove_excepts-Left excepts (add_subnet net []) h.1
              (add_subnet-IsPool net (h.0 net e))))
  ]

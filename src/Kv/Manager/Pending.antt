-- ===== src/Kv/Manager/Pending.antt =====
-- The pending requests of pkg/keyvalueservice/manager.go after a change has been taken.
use z_presplit_aci_container.Base.{
  ◌≡◌, ◌⊎◌, ◌∙◌, refl, false, ◌||◌, List, [], ◌∷◌, ◌++◌, some, inl, inr, arith,
}
use z_presplit_aci_container.Base.Maps.{
  Key, KeyMap, lookup, insert, member, same_key, same_key_refl, lookup-insert, lookup-delete,
}
use z_presplit_aci_container.Base.Maps.{delete as delete_at}
use z_presplit_aci_container.Kv.Manager.{WatchReq}

pub List-cases {ℓ} :
    {A : Type ℓ} (xs : List A) → (xs ≡ []) ⊎ ((x : A) × (ys : List A) × (xs ≡ x ∷ ys))
List-cases [] = inl refl
List-cases (x ∷ xs) = inr (x, xs, refl)

pub member-middle :
    (j k : Key) (before after : List Key)
    → member j (before ++ (k ∷ after)) ≡ (same_key j k || member j (before ++ after))
unfolding member
member-middle j k [] after = refl
member-middle j k (i ∷ before) after = ground (arith, member-middle j k before after)

-- The pending requests after a change of a namespace has been taken.
abbrev pub put_pending : Key → List WatchReq → KeyMap (List WatchReq) → KeyMap (List WatchReq)
put_pending ns [] pending = delete_at ns pending
put_pending ns (r ∷ rs) pending = insert ns (r ∷ rs) pending

pub lookup-put_pending :
    (j ns : Key) (reqs : List WatchReq) (pending : KeyMap (List WatchReq))
    → same_key j ns ≡ false
    → lookup j (put_pending ns reqs pending) ≡ lookup j pending
lookup-put_pending j ns [] pending other = lookup-delete j ns pending ∙ ground (arith, other)
lookup-put_pending j ns (r ∷ rs) pending other =
    lookup-insert j ns (r ∷ rs) pending ∙ ground (arith, other)

pub lookup-put_pending_own :
    (ns : Key) (reqs qs : List WatchReq) (pending : KeyMap (List WatchReq))
    → lookup ns (put_pending ns reqs pending) ≡ some qs
    → reqs ≡ qs
lookup-put_pending_own ns [] qs pending e =
    absurd (ground (arith, e, lookup-delete ns ns pending, same_key_refl ns))
lookup-put_pending_own ns (r ∷ rs) qs pending e =
    ground (arith, e, lookup-insert ns ns (r ∷ rs) pending, same_key_refl ns)

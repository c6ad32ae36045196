-- ===== src/Kv/Watcher/Session.antt =====
-- A watcher of pkg/keyvalueservice/watcher.go whose functions keep a copy of a namespace, while the
-- namespace changes.
use z_presplit_aci_container.Base.{
  ℕ, ◌+◌, ◌^◌, ◌<◌, ◌≡◌, refl, sym, subst, true, List, [], ◌∷◌, Option, none, some, arith,
}
use z_presplit_aci_container.Base.Maps.{Key, KeyMap, same_key_refl}
use z_presplit_aci_container.Kv.{
  KvNamespace, KvAction, Result, ok, err, internal, not_found, version_too_old, find_updated_after,
  get_all, new_kv_namespace,
}
use z_presplit_aci_container.Kv.Holds.{Holds}
use z_presplit_aci_container.Kv.Holds.Kept.{KvOp, perform, perform-Holds, new_kv_namespace-Holds}
use z_presplit_aci_container.Kv.Holds.Since.{Since, perform-Since}
use z_presplit_aci_container.Kv.Updates.{
  Mirrors, Updates, load_items, replay, get_all-Mirrors, find_updated_after-Updates, Since-refl,
  unchanged-Mirrors,
}
use z_presplit_aci_container.Kv.Manager.{WatchRes, reply}
use z_presplit_aci_container.Kv.Watcher.{
  NextCall, list_call, watch_call, Handed, all_items, updates, Handlers, Handling, close, continue,
  service_watch, handle_list_reply, handle_actions, handle_watch_reply, RpcListReply, error_text,
}

abbrev both_handlers : Handlers
both_handlers = record { all_handler = true; update_handler = true }

-- The namespace at the server, the copy at the client, and the call that is under way.
pub record Session (V : Type 0) : Type 0 where
  pub namespace : KvNamespace V
  pub copy : KeyMap V
  pub call : NextCall

module _ {V : Type 0} where
  -- What the client's functions do with what they are handed.
  unfoldable pub hand : List (Handed V) → KeyMap V → KeyMap V
  hand [] copy = copy
  hand (all_items ns items ∷ more) copy = hand more (load_items items)
  hand (updates ns acts ∷ more) copy = hand more (replay acts copy)

  abbrev list_reply : KvNamespace V → RpcListReply V
  list_reply n = record { items = (get_all n).1; version = (get_all n).0 }

  abbrev handle_watch : Key → ℕ → Option (WatchRes V) → Handling V
  handle_watch ns version res =
      handle_watch_reply both_handlers ns (service_watch version res).0
        (service_watch version res).1

  abbrev goes_on : List (Handed V) → NextCall → Session V → Session V
  goes_on handed call s = record s { copy = hand handed s.copy; call = call }

  -- The namespace changes, or the call under way is answered; a watch that is aborted is answered
  -- without a result.
  pub data Round (s : Session V) : Session V → Type 0 where
    operate :
        (o : KvOp V)
        → s.namespace.last_version + 1 < 2 ^ 64
        → Round s (record s { namespace = perform o s.namespace })
    listed :
        (ns : Key) (handed : List (Handed V)) (call : NextCall)
        → s.call ≡ list_call ns
        → handle_list_reply both_handlers ns none (list_reply s.namespace) ≡ continue handed call
        → Round s (goes_on handed call s)
    watched :
        (ns : Key) (version : ℕ) (res : WatchRes V) (handed : List (Handed V)) (call : NextCall)
        → s.call ≡ watch_call ns version
        → reply (find_updated_after version s.namespace) ≡ some res
        → handle_watch ns version (some res) ≡ continue handed call
        → Round s (goes_on handed call s)
    aborted :
        (ns : Key) (version : ℕ) (handed : List (Handed V)) (call : NextCall)
        → s.call ≡ watch_call ns version
        → handle_watch ns version none ≡ continue handed call
        → Round s (goes_on handed call s)

  pub data Rounds (name : Key) (max_retained : ℕ) (copy : KeyMap V) : Session V → Type 0 where
    begin : Rounds name max_retained copy (record {
      namespace = new_kv_namespace name max_retained;
      copy = copy;
      call = list_call name;
    })
    next :
        {s t : Session V}
        → Rounds name max_retained copy s
        → Round s t
        → Rounds name max_retained copy t

  -- The copy is right for an earlier state with the version that the call asks about.
  abbrev Followed : NextCall → KeyMap V → KvNamespace V → Type 0
  Followed (list_call ns) copy n = Unit
  Followed (watch_call ns version) copy n =
      (base : KvNamespace V) × (base.last_version ≡ version) × Mirrors copy base × Since base n

  record Follows (s : Session V) : Type 0 where
    holds : Holds s.namespace
    followed : Followed s.call s.copy s.namespace

  operate-Followed :
      (call : NextCall) (copy : KeyMap V) (n : KvNamespace V) (o : KvOp V)
      → Holds n
      → n.last_version + 1 < 2 ^ 64
      → Followed call copy n
      → Followed call copy (perform o n)
  operate-Followed (list_call ns) copy n o h fits f = tt
  operate-Followed (watch_call ns version) copy n o h fits (base, at, mirrors, since) =
      (base, at, mirrors, perform-Since base o n h fits since)

  -- What a client that handles a reply then has.
  abbrev After : Handling V → KeyMap V → KvNamespace V → Type 0
  After (close e) copy n = Unit
  After (continue handed call) copy n = Followed call (hand handed copy) n

  listed-After :
      (ns : Key) (copy : KeyMap V) (n : KvNamespace V)
      → After (handle_list_reply both_handlers ns none (list_reply n)) copy n
  unfolding handle_list_reply hand get_all
  listed-After ns copy n = (n, refl, get_all-Mirrors n, Since-refl n)

  answer-After :
      (ns : Key) (copy : KeyMap V) (base n : KvNamespace V) (r : Result (ℕ × List (KvAction V)))
      (res : WatchRes V)
      → Updates copy base n r
      → reply r ≡ some res
      → After (handle_watch ns base.last_version (some res)) copy n
  unfolding reply handle_watch_reply service_watch handle_actions hand replay
  answer-After ns copy base n (err internal) res u e = absurd (ground (arith, u.0))
  answer-After ns copy base n (err not_found) res u e = absurd (ground (arith, u.0))
  answer-After ns copy base n (err version_too_old) res u e =
      let is : record { actions = []; version = 0; error = some version_too_old } ≡ res =
        ground (arith, e) in
      let again : After
          (handle_watch ns base.last_version
            (some (record { actions = []; version = 0; error = some version_too_old })))
          copy n =
        rw (same_key_refl (error_text version_too_old)) tt in
      subst (λ q. After (handle_watch ns base.last_version (some q)) copy n) is again
  answer-After ns copy base n (ok (last, [])) res u e = absurd (ground (arith, e))
  answer-After ns copy base n (ok (last, a ∷ acts)) res u e =
      let is : record { actions = a ∷ acts; version = last; error = none } ≡ res =
        ground (arith, e) in
      subst (λ q. After (handle_watch ns base.last_version (some q)) copy n) is
        ((n, sym u.1, u.0, Since-refl n))

  Round-Follows : {s t : Session V} → Round s t → Follows s → Follows t
  unfolding hand handle_watch_reply service_watch handle_actions replay
  Round-Follows {s} (operate o fits) f = record {
    holds = perform-Holds o s.namespace f.holds fits;
    followed = operate-Followed s.call s.copy s.namespace o f.holds fits f.followed;
  }
  Round-Follows {s} (listed ns handed call at e) f = record {
    holds = f.holds;
    followed = subst (λ h. After h s.copy s.namespace) e (listed-After ns s.copy s.namespace);
  }
  Round-Follows {s} (watched ns version res handed call at is e) f =
      let (base, last_is, mirrors, since) =
        subst (λ c. Followed c s.copy s.namespace) at f.followed in
      record {
        holds = f.holds;
        followed =
            subst (λ h. After h s.copy s.namespace) e
              (subst (λ v. After (handle_watch ns v (some res)) s.copy s.namespace) last_is
                (answer-After ns s.copy base s.namespace
                  (find_updated_after base.last_version s.namespace) res
                  (find_updated_after-Updates base s.namespace f.holds s.copy since mirrors)
                  (subst (λ v. reply (find_updated_after v s.namespace) ≡ some res) (sym last_is)
                    is)));
      }
  Round-Follows {s} (aborted ns version handed call at e) f = record {
    holds = f.holds;
    followed =
        subst (λ h. After h s.copy s.namespace) e
          (subst (λ c. Followed c s.copy s.namespace) at f.followed);
  }

  Rounds-Follows :
      (name : Key) (max_retained : ℕ) (copy : KeyMap V) {s : Session V}
      → 0 < max_retained
      → Rounds name max_retained copy s
      → Follows s
  Rounds-Follows name max_retained copy h begin = record {
    holds = new_kv_namespace-Holds name max_retained h;
    followed = tt;
  }
  Rounds-Follows name max_retained copy h (next rs r) =
      Round-Follows r (Rounds-Follows name max_retained copy h rs)

  -- However the changes of a namespace are interleaved with the calls of a client that lists it,
  -- watches it, lists it again when its version is too old, and applies what it is handed:
  -- whenever the version that the client watches from is the last one of the namespace, the copy
  -- of the client has exactly the values of the namespace, whatever it had at first and whatever
  -- has expired from the change log.
  pub Rounds-Mirrors :
      {s : Session V} (name : Key) (max_retained : ℕ) (copy : KeyMap V) (ns : Key)
      → 0 < max_retained
      → Rounds name max_retained copy s
      → s.call ≡ watch_call ns s.namespace.last_version
      → Mirrors s.copy s.namespace
  Rounds-Mirrors {s} name max_retained copy ns h rs caught_up =
      let f = Rounds-Follows name max_retained copy h rs in
      let (base, last_is, mirrors, since) =
        subst (λ c. Followed c s.copy s.namespace) caught_up f.followed in
      unchanged-Mirrors base s.namespace f.holds s.copy since (omega (arith, last_is)) mirrors

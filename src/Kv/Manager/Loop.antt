-- ===== src/Kv/Manager/Loop.antt =====
-- The messages that the watch loop of pkg/keyvalueservice/manager.go takes, and every state that the
-- steps reach.
use z_presplit_aci_container.Base.{
  ℕ, ◌≡◌, ◌∙◌, refl, sym, subst, true, false, List, [], ◌∷◌, ◌++◌, none, some, Bool-cases,
  Option-cases, inl, inr, arith,
}
use z_presplit_aci_container.Base.Maps.{
  Key, KeyMap, lookup, insert, member, same_key, same_key_iff, lookup-insert,
}
use z_presplit_aci_container.Kv.{ok}
use z_presplit_aci_container.Kv.Manager.{
  WatchReq, KvManager, new_kv_manager, watch_async, serve_request, serve_change, serve_stop,
  serve_start, process, process_each, pending_at, get_or_create_namespace, request_namespace,
}
use z_presplit_aci_container.Kv.Manager.Pending.{
  List-cases, member-middle, put_pending, lookup-put_pending, lookup-put_pending_own,
}
use z_presplit_aci_container.Kv.Manager.Steps.{
  System, start, Step, set_call, delete_call, watch_call, not_serving, take_request, take_change,
  stop, serve, Reachable, started, next,
}
use z_presplit_aci_container.Kv.Manager.Serving.{
  Named, Settled, Waits, NoneLost, set-NoneLost, delete-NoneLost, same-NoneLost, created,
}

Named-append :
    (ns : Key) (reqs : List WatchReq) (r : WatchReq)
    → Named ns reqs
    → r.namespace ≡ ns
    → Named ns (reqs ++ (r ∷ []))
Named-append ns [] r n e = (e, tt)
Named-append ns (q ∷ qs) r n e = (n.0, Named-append ns qs r n.1 e)

module _ {V : Type 0} where
  Settled-append :
      (m : KvManager V) (reqs : List WatchReq) (r : WatchReq)
      → Settled m reqs
      → process m r ≡ none
      → Settled m (reqs ++ (r ∷ []))
  Settled-append m [] r s e = (e, tt)
  Settled-append m (q ∷ qs) r s e = (s.0, Settled-append m qs r s.1 e)

  -- The reply does not depend on what is pending.
  Settled-pending :
      (m m' : KvManager V) (reqs : List WatchReq)
      → ((r : WatchReq) → process m' r ≡ process m r)
      → Settled m reqs
      → Settled m' reqs
  Settled-pending m m' [] same s = tt
  Settled-pending m m' (r ∷ reqs) same s = (same r ∙ s.0, Settled-pending m m' reqs same s.1)

  pub process_pending :
      (m : KvManager V) (pending : KeyMap (List WatchReq)) (r : WatchReq)
      → process (record m { pending = pending }) r ≡ process m r
  unfolding process request_namespace
  process_pending m pending r = refl

  process_serving :
      (m : KvManager V) (r : WatchReq) → process (record m { serving_watch = true }) r ≡ process m r
  unfolding process request_namespace
  process_serving m r = refl

  Waits-pending :
      (m m' : KvManager V) (changed changed' : List Key) (ns : Key) (reqs : List WatchReq)
      → ((r : WatchReq) → process m' r ≡ process m r)
      → (member ns changed ≡ true → member ns changed' ≡ true)
      → Waits m changed ns reqs
      → Waits m' changed' ns reqs
  Waits-pending m m' changed changed' ns reqs same kept w = record {
    named = w.named;
    settled = elim (w.settled) [
      | inl s ↦ inl (Settled-pending m m' reqs same s)
      | inr c ↦ inr (kept c)
    ];
  }

  Waits-pending_at :
      (m : KvManager V) (changed : List Key) (ns : Key)
      → NoneLost m changed
      → Waits m changed ns (pending_at ns m)
  unfolding pending_at
  Waits-pending_at m changed ns l = elim (Option-cases (lookup ns m.pending)) [
    | inl h ↦ rw (h, pending_at) (record { named = tt; settled = inl tt })
    | inr (reqs, h) ↦ rw (h, pending_at) (l.waits ns reqs h)
  ]

  Waits-append :
      (m : KvManager V) (changed : List Key) (reqs : List WatchReq) (r : WatchReq)
      → process m r ≡ none
      → Waits m changed r.namespace reqs
      → Waits m changed r.namespace (reqs ++ (r ∷ []))
  Waits-append m changed reqs r e w = record {
    named = Named-append r.namespace reqs r w.named refl;
    settled = elim (w.settled) [ inl s ↦ inl (Settled-append m reqs r s e) | inr c ↦ inr c ];
  }

  serve_request-NoneLost :
      (r : WatchReq) (m : KvManager V) (changed : List Key)
      → m.serving_watch ≡ true
      → NoneLost m changed
      → NoneLost (serve_request r m).0 changed
  unfolding serve_request
  serve_request-NoneLost r m changed serving l = elim (Option-cases (process m r)) [
    | inr (res, h) ↦ rw (h, serve_request) l
    | inl h ↦
        let reqs = pending_at r.namespace m ++ (r ∷ []) in
        let m' = record m { pending = insert r.namespace reqs m.pending } in
        let same : (q : WatchReq) → process m' q ≡ process m q =
          λ q. process_pending m m'.pending q in
        let l' : NoneLost m' changed = record {
          waits = λ j qs e. elim (Bool-cases (same_key j r.namespace)) [
            | inl is ↦
                let qs_is : reqs ≡ qs =
                  ground (arith, e, is, lookup-insert j r.namespace reqs m.pending) in
                subst (λ i. Waits m' changed i qs) (sym (same_key_iff j r.namespace is))
                  (subst (λ qs. Waits m' changed r.namespace qs) qs_is
                    (Waits-pending m m' changed changed r.namespace reqs same (λ c. c)
                      (Waits-append m changed (pending_at r.namespace m) r h
                        (Waits-pending_at m changed r.namespace l))))
            | inr other ↦
                Waits-pending m m' changed changed j qs same (λ c. c)
                  (l.waits j qs
                    (ground (arith, e, other, lookup-insert j r.namespace reqs m.pending)))
          ];
          stopped = λ e. absurd (ground (arith, e, serving));
        } in
        rw (h, serve_request) l'
  ]

  -- What is left of the requests of a namespace has nothing new.
  pub process_each-Settled :
      (m : KvManager V) (reqs : List WatchReq) → Settled m (process_each m reqs).0
  unfolding process_each
  process_each-Settled m [] = tt
  process_each-Settled m (r ∷ reqs) = elim (Option-cases (process m r)) [
    | inl h ↦ rw (h, process_each) ((h, process_each-Settled m reqs))
    | inr (res, h) ↦ rw (h, process_each) (process_each-Settled m reqs)
  ]

  process_each-Named :
      (m : KvManager V) (ns : Key) (reqs : List WatchReq)
      → Named ns reqs
      → Named ns (process_each m reqs).0
  unfolding process_each
  process_each-Named m ns [] n = tt
  process_each-Named m ns (r ∷ reqs) n = elim (Option-cases (process m r)) [
    | inl h ↦ rw (h, process_each) ((n.0, process_each-Named m ns reqs n.1))
    | inr (res, h) ↦ rw (h, process_each) (process_each-Named m ns reqs n.1)
  ]

  pub serve_change-pending :
      (ns : Key) (m : KvManager V) (reqs : List WatchReq)
      → lookup ns m.pending ≡ some reqs
      → (serve_change ns m).0
        ≡ record m { pending = put_pending ns (process_each m reqs).0 m.pending }
  unfolding serve_change
  serve_change-pending ns m reqs h = elim (List-cases (process_each m reqs).0) [
    | inl e ↦ rw (h, serve_change, e) refl
    | inr (r, rs, e) ↦ rw (h, serve_change, e) refl
  ]

  pub serve_change-NoneLost :
      (before after : List Key) (ns : Key) (m : KvManager V)
      → m.serving_watch ≡ true
      → NoneLost m (before ++ (ns ∷ after))
      → NoneLost (serve_change ns m).0 (before ++ after)
  unfolding serve_change
  serve_change-NoneLost before after ns m serving l =
      let changed = before ++ after in
      elim (Option-cases (lookup ns m.pending)) [
        | inl h ↦
            let l' : NoneLost m changed = record {
              waits = λ j qs e.
                  Waits-pending m m (before ++ (ns ∷ after)) changed j qs (λ r. refl)
                    (λ c.
                      ground (arith, c, e, h, member-middle j ns before after, same_key_iff j ns))
                    (l.waits j qs e);
              stopped = λ e. absurd (ground (arith, e, serving));
            } in
            rw (h, serve_change) l'
        | inr (reqs, h) ↦
            let left = (process_each m reqs).0 in
            let m' = record m { pending = put_pending ns left m.pending } in
            let same : (q : WatchReq) → process m' q ≡ process m q =
              λ q. process_pending m m'.pending q in
            let l' : NoneLost m' changed = record {
              waits = λ j qs e. elim (Bool-cases (same_key j ns)) [
                | inl is ↦
                    let j_is : j ≡ ns = same_key_iff j ns is in
                    let qs_is : left ≡ qs =
                      lookup-put_pending_own ns left qs m.pending
                        (subst (λ i. lookup i m'.pending ≡ some qs) j_is e) in
                    subst (λ i. Waits m' changed i qs) (sym j_is)
                      (subst (λ qs. Waits m' changed ns qs) qs_is
                        (record {
                          named = process_each-Named m ns reqs (l.waits ns reqs h).named;
                          settled =
                              inl (Settled-pending m m' left same (process_each-Settled m reqs));
                        }))
                | inr other ↦
                    Waits-pending m m' (before ++ (ns ∷ after)) changed j qs same
                      (λ c. ground (arith, c, other, member-middle j ns before after))
                      (l.waits j qs (sym (lookup-put_pending j ns left m.pending other) ∙ e))
              ];
              stopped = λ e. absurd (ground (arith, e, serving));
            } in
            subst (λ m. NoneLost m changed) (sym (serve_change-pending ns m reqs h)) l'
      ]

  shrunk-NoneLost :
      (m : KvManager V) (changed changed' : List Key)
      → m.serving_watch ≡ false
      → NoneLost m changed
      → NoneLost m changed'
  shrunk-NoneLost m changed changed' idle l = record {
    waits = λ j qs e. absurd (ground (arith, e, l.stopped idle j));
    stopped = l.stopped;
  }

  serve_stop-NoneLost : (m : KvManager V) (changed : List Key) → NoneLost (serve_stop m).0 changed
  unfolding serve_stop lookup
  serve_stop-NoneLost m changed = record {
    waits = λ j qs e. absurd (ground (arith, e));
    stopped = λ e j. refl;
  }

  serve_start-NoneLost :
      (m : KvManager V) (changed : List Key) → NoneLost m changed → NoneLost (serve_start m) changed
  unfolding serve_start
  serve_start-NoneLost m changed l = record {
    waits = λ j qs e.
        Waits-pending m (record m { serving_watch = true }) changed changed j qs
          (λ r. process_serving m r) (λ c. c) (l.waits j qs e);
    stopped = λ e. absurd (ground (arith, e));
  }

  watch_async-NoneLost :
      (ns : Key) (version res_chan : ℕ) (m m' : KvManager V) (r : WatchReq) (changed : List Key)
      → watch_async ns version res_chan m ≡ (ok r, m')
      → NoneLost m changed
      → NoneLost m' changed
  unfolding watch_async
  watch_async-NoneLost ns version res_chan m m' r changed e l = elim (Bool-cases m.serving_watch) [
    | inl h ↦
        let is : (get_or_create_namespace ns m).1 ≡ m' = ground (arith, e, h) in
        subst (λ m. NoneLost m changed) is
          (same-NoneLost m (get_or_create_namespace ns m).1 changed (created ns m) l)
    | inr h ↦ absurd (ground (arith, e, h))
  ]

  Step-NoneLost :
      {s t : System V} → Step s t → NoneLost s.manager s.changed → NoneLost t.manager t.changed
  Step-NoneLost {s} (set_call ns key value) l = set-NoneLost ns key value s.manager s.changed l
  Step-NoneLost {s} (delete_call ns key) l = delete-NoneLost ns key s.manager s.changed l
  Step-NoneLost {s} (watch_call ns version res_chan m r e) l =
      watch_async-NoneLost ns version res_chan s.manager m r s.changed e l
  Step-NoneLost {s} (not_serving before after ns e idle) l =
      shrunk-NoneLost s.manager s.changed (before ++ after) idle l
  Step-NoneLost {s} (take_request before after r e serving) l =
      serve_request-NoneLost r s.manager s.changed serving l
  Step-NoneLost {s} (take_change before after ns e serving) l =
      serve_change-NoneLost before after ns s.manager serving
        (subst (λ c. NoneLost s.manager c) e l)
  Step-NoneLost {s} (stop serving) l = serve_stop-NoneLost s.manager s.changed
  Step-NoneLost {s} serve l = serve_start-NoneLost s.manager s.changed l

  -- In every state that calls of Set, Delete and Watch and the watch loop reach, however they are
  -- interleaved, each request that waits for a namespace is one for that namespace, and unless a
  -- change of the namespace is still to be taken by the loop, Process has no answer for any of
  -- them; while the loop is not running, no request waits.
  pub Reachable-NoneLost : {s : System V} → Reachable s → NoneLost s.manager s.changed
  unfolding start new_kv_manager lookup
  Reachable-NoneLost started = record {
    waits = λ j qs e. absurd (ground (arith, e));
    stopped = λ e j. refl;
  }
  Reachable-NoneLost (next r st) = Step-NoneLost st (Reachable-NoneLost r)

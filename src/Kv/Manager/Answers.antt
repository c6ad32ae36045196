-- ===== src/Kv/Manager/Answers.antt =====
-- What the watch loop of pkg/keyvalueservice/manager.go sends once it takes the changes that are on
-- their way.
use z_presplit_aci_container.Base.{
  ◌≡◌, ◌∙◌, refl, sym, ap, subst, true, false, List, [], ◌∷◌, ◌++◌, some, Bool-cases, Option-cases,
  inl, inr, arith,
}
use z_presplit_aci_container.Base.Maps.{Key, lookup, member, same_key, same_key_iff}
use z_presplit_aci_container.Kv.Manager.{
  WatchReq, WatchRes, KvManager, Replies, serve_change, process, process_each,
}
use z_presplit_aci_container.Kv.Manager.Steps.{System, Reachable}
use z_presplit_aci_container.Kv.Manager.Serving.{Settled, NoneLost}
use z_presplit_aci_container.Kv.Manager.Pending.{put_pending, lookup-put_pending}
use z_presplit_aci_container.Kv.Manager.Loop.{
  serve_change-pending, serve_change-NoneLost, Reachable-NoneLost, process_pending,
}

pub data Elem {A : Type 0} (a : A) : List A → Type 0 where
  here : {xs : List A} → Elem a (a ∷ xs)
  there : {x : A} {xs : List A} → Elem a xs → Elem a (x ∷ xs)

Elem-left : {A : Type 0} {a : A} {xs : List A} (ys : List A) → Elem a xs → Elem a (xs ++ ys)
Elem-left ys here = here
Elem-left ys (there e) = there (Elem-left ys e)

Elem-right : {A : Type 0} {a : A} (xs : List A) {ys : List A} → Elem a ys → Elem a (xs ++ ys)
Elem-right [] e = e
Elem-right (x ∷ xs) e = there (Elem-right xs e)

module _ {V : Type 0} where
  -- The loop takes one change after another.
  unfoldable pub take_changes : List Key → KvManager V → KvManager V × Replies V
  take_changes [] m = (m, [])
  take_changes (ns ∷ changed) m =
      let (m1, sent) = serve_change ns m in
      let (m2, later) = take_changes changed m1 in (m2, sent ++ later)

  unsettled :
      (m : KvManager V) (reqs : List WatchReq) (r : WatchReq) (res : WatchRes V)
      → Elem r reqs
      → process m r ≡ some res
      → Settled m reqs
      → ⊥
  unsettled m [] r res i e s = elim i [ ]
  unsettled m (r ∷ reqs) _ res here e s = ground (arith, e, s.0)
  unsettled m (q ∷ reqs) r res (there i) e s = unsettled m reqs r res i e s.1

  process_each-Elem :
      (m : KvManager V) (reqs : List WatchReq) (r : WatchReq) (res : WatchRes V)
      → Elem r reqs
      → process m r ≡ some res
      → Elem (r.res_chan, res) (process_each m reqs).1
  unfolding process_each
  process_each-Elem m [] r res i e = elim i [ ]
  process_each-Elem m (r ∷ reqs) _ res here e = rw (e, process_each) here
  process_each-Elem m (q ∷ reqs) r res (there i) e = elim (Option-cases (process m q)) [
    | inl h ↦ rw (h, process_each) (process_each-Elem m reqs r res i e)
    | inr (b, h) ↦ rw (h, process_each) (there (process_each-Elem m reqs r res i e))
  ]

  serve_change-sent :
      (ns : Key) (m : KvManager V) (reqs : List WatchReq)
      → lookup ns m.pending ≡ some reqs
      → (serve_change ns m).1 ≡ (process_each m reqs).1
  unfolding serve_change
  serve_change-sent ns m reqs h = rw (h, serve_change) refl

  -- A change of another namespace leaves what waits for this one, and its replies.
  serve_change_other :
      (ns other : Key) (m : KvManager V)
      → same_key ns other ≡ false
      → (lookup ns (serve_change other m).0.pending ≡ lookup ns m.pending)
        × ((r : WatchReq) → process (serve_change other m).0 r ≡ process m r)
  unfolding serve_change
  serve_change_other ns other m h = elim (Option-cases (lookup other m.pending)) [
    | inl e ↦ rw (e, serve_change) ((refl, λ r. refl))
    | inr (reqs, e) ↦
        let left = (process_each m reqs).0 in
        let pending' = put_pending other left m.pending in
        let is = serve_change-pending other m reqs e in
        (
          ap (λ m. lookup ns m.pending) is ∙ lookup-put_pending ns other left m.pending h,
          λ r. ap (λ m. process m r) is ∙ process_pending m pending' r,
        )
  ]

  take_changes-Elem :
      (changed : List Key) (m : KvManager V) (ns : Key) (reqs : List WatchReq) (r : WatchReq)
      (res : WatchRes V)
      → member ns changed ≡ true
      → lookup ns m.pending ≡ some reqs
      → Elem r reqs
      → process m r ≡ some res
      → Elem (r.res_chan, res) (take_changes changed m).1
  unfolding take_changes member
  take_changes-Elem [] m ns reqs r res c h i e = absurd (ground (arith, c))
  take_changes-Elem (other ∷ changed) m ns reqs r res c h i e =
      elim (Bool-cases (same_key ns other)) [
        | inl is ↦
            let h' = subst (λ j. lookup j m.pending ≡ some reqs) (same_key_iff ns other is) h in
            Elem-left (take_changes changed (serve_change other m).0).1 (
              subst (λ sent. Elem (r.res_chan, res) sent) (sym (serve_change-sent other m reqs h'))
                (process_each-Elem m reqs r res i e))
        | inr differ ↦
            let (kept, same) = serve_change_other ns other m differ in
            Elem-right (serve_change other m).1 (
              take_changes-Elem changed (serve_change other m).0 ns reqs r res
                (ground (arith, c, differ)) (kept ∙ h) i (same r ∙ e))
      ]

  serve_change-serving :
      (ns : Key) (m : KvManager V) → (serve_change ns m).0.serving_watch ≡ m.serving_watch
  unfolding serve_change
  serve_change-serving ns m = elim (Option-cases (lookup ns m.pending)) [
    | inl e ↦ rw (e, serve_change) refl
    | inr (reqs, e) ↦ ap (λ m. m.serving_watch) (serve_change-pending ns m reqs e)
  ]

  take_changes-NoneLost :
      (changed : List Key) (m : KvManager V)
      → m.serving_watch ≡ true
      → NoneLost m changed
      → NoneLost (take_changes changed m).0 []
  unfolding take_changes
  take_changes-NoneLost [] m serving l = l
  take_changes-NoneLost (ns ∷ changed) m serving l =
      take_changes-NoneLost changed (serve_change ns m).0 (serve_change-serving ns m ∙ serving)
        (serve_change-NoneLost [] changed ns m serving l)

  none_changed :
      (m : KvManager V) (ns : Key) (reqs : List WatchReq)
      → NoneLost m []
      → lookup ns m.pending ≡ some reqs
      → Settled m reqs
  unfolding member
  none_changed m ns reqs l h = elim ((l.waits ns reqs h).settled) [
    | inl s ↦ s
    | inr c ↦ absurd (ground (arith, c))
  ]

  -- In every state that calls of Set, Delete and Watch and the watch loop reach, however they are
  -- interleaved, each waiting request that Process has an answer for is sent that answer, on its
  -- own channel, when the loop takes the changes that are on their way.
  pub take_changes-answers :
      {s : System V} (ns : Key) (reqs : List WatchReq) (r : WatchReq) (res : WatchRes V)
      → Reachable s
      → lookup ns s.manager.pending ≡ some reqs
      → Elem r reqs
      → process s.manager r ≡ some res
      → Elem (r.res_chan, res) (take_changes s.changed s.manager).1
  take_changes-answers {s} ns reqs r res reached h i e =
      let l = Reachable-NoneLost reached in
      elim ((l.waits ns reqs h).settled) [
        | inl done ↦ absurd (unsettled s.manager reqs r res i e done)
        | inr c ↦ take_changes-Elem s.changed s.manager ns reqs r res c h i e
      ]

  -- In every state that is reached while the loop is running, the requests that still wait once
  -- the loop has taken the changes that are on their way are ones that Process has no answer for.
  pub take_changes-Settled :
      {s : System V} (ns : Key) (reqs : List WatchReq)
      → Reachable s
      → s.manager.serving_watch ≡ true
      → lookup ns (take_changes s.changed s.manager).0.pending ≡ some reqs
      → Settled (take_changes s.changed s.manager).0 reqs
  take_changes-Settled {s} ns reqs reached serving h =
      none_changed (take_changes s.changed s.manager).0 ns reqs
        (take_changes-NoneLost s.changed s.manager serving (Reachable-NoneLost reached)) h

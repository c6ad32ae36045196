-- ===== src/Kv/Manager.antt =====
-- pkg/keyvalueservice/manager.go: the namespaces, the pending watch requests, and the watch loop as
-- one function for each message that it takes. What a channel is sent is part of a result.
pub mod Steps
pub mod Serving
pub mod Pending
pub mod Loop
pub mod Answers
use z_presplit_aci_container.Base.{
  ℕ, Bool, true, false, List, [], ◌∷◌, ◌++◌, Option, none, some, if◌then◌else◌,
}
use z_presplit_aci_container.Base.Maps.{Key, KeyMap, lookup, insert}
use z_presplit_aci_container.Base.Maps.{delete as delete_at}
use z_presplit_aci_container.Kv
use z_presplit_aci_container.Kv.{
  KvNamespace, KvItem, KvAction, KvError, internal, not_found, Result, ok, err, new_kv_namespace,
  find_updated_after, get_all, delete_key,
}

-- `res_chan` tells the channels of the requests apart.
pub record WatchReq : Type 0 where
  pub namespace : Key
  pub version : ℕ
  pub res_chan : ℕ

pub record WatchRes (V : Type 0) : Type 0 where
  pub actions : List (KvAction V)
  pub version : ℕ
  pub error : Option KvError

pub record KvManager (V : Type 0) : Type 0 where
  pub namespaces : KeyMap (KvNamespace V)
  pub serving_watch : Bool
  pub pending : KeyMap (List WatchReq)
  pub max_retained : ℕ

-- What is sent on the channels of requests, each with its channel.
abbrev pub Replies : Type 0 → Type 0
Replies V = List (ℕ × WatchRes V)

module _ {V : Type 0} where
  unfoldable pub new_kv_manager : KvManager V
  new_kv_manager = record {
    namespaces = [];
    serving_watch = false;
    pending = [];
    max_retained = 50;
  }

  unfoldable pub get_or_create_namespace : Key → KvManager V → KvNamespace V × KvManager V
  get_or_create_namespace namespace m = elim (lookup namespace m.namespaces) [
    | some ns ↦ (ns, m)
    | none ↦
        let ns = new_kv_namespace namespace m.max_retained in
        (ns, record m { namespaces = insert namespace ns m.namespaces })
  ]

  unfoldable pub list : Key → KvManager V → ℕ × List (KvItem V)
  list namespace m = elim (lookup namespace m.namespaces) [ some ns ↦ get_all ns | none ↦ (0, []) ]

  unfoldable pub get : Key → Key → KvManager V → Result (KvItem V)
  get namespace key m = elim (lookup namespace m.namespaces) [
    | some ns ↦ Kv.get key ns
    | none ↦ err not_found
  ]

  -- The manager, once the namespace has been changed; a message on `changedChan` follows.
  unfoldable pub set : Key → Key → V → KvManager V → KvManager V
  set namespace key value m =
      let (ns, m') = get_or_create_namespace namespace m in
      record m' { namespaces = insert namespace (Kv.set key value ns) m'.namespaces }

  -- Whether the key was deleted: only then a message on `changedChan` follows.
  unfoldable pub delete : Key → Key → KvManager V → Bool × KvManager V
  delete namespace key m = elim (lookup namespace m.namespaces) [
    | none ↦ (false, m)
    | some ns ↦
        let (deleted, ns') = delete_key key ns in
        (
          elim deleted [ none ↦ false | some d ↦ true ],
          record m { namespaces = insert namespace ns' m.namespaces },
        )
  ]

  -- The request that is sent on `watchReqChan`.
  unfoldable pub watch_async : Key → ℕ → ℕ → KvManager V → Result WatchReq × KvManager V
  watch_async namespace version res_chan m =
      if m.serving_watch
      then (
        ok (record { namespace = namespace; version = version; res_chan = res_chan }),
        (get_or_create_namespace namespace m).1,
      )
      else (err internal, m)

  -- The namespace that a request points to: a request always has one.
  unfoldable pub request_namespace : KvManager V → WatchReq → KvNamespace V
  request_namespace m r = elim (lookup r.namespace m.namespaces) [
    | some ns ↦ ns
    | none ↦ new_kv_namespace r.namespace m.max_retained
  ]

  unfoldable pub reply : Result (ℕ × List (KvAction V)) → Option (WatchRes V)
  reply (err e) = some (record { actions = []; version = 0; error = some e })
  reply (ok (last, [])) = none
  reply (ok (last, a ∷ acts)) = some (record { actions = a ∷ acts; version = last; error = none })

  -- What `Process` sends on the request's channel, if it sends something.
  unfoldable pub process : KvManager V → WatchReq → Option (WatchRes V)
  process m r = reply (find_updated_after r.version (request_namespace m r))

  unfoldable pub abort : WatchReq → WatchRes V
  abort r = record { actions = []; version = r.version; error = none }

  unfoldable pub pending_at : Key → KvManager V → List WatchReq
  pending_at namespace m = elim (lookup namespace m.pending) [ none ↦ [] | some reqs ↦ reqs ]

  -- `case req := <-m.watchReqChan`.
  unfoldable pub serve_request : WatchReq → KvManager V → KvManager V × Replies V
  serve_request req m = elim (process m req) [
    | some res ↦ (m, (req.res_chan, res) ∷ [])
    | none ↦ (
      record m {
        pending = insert req.namespace (pending_at req.namespace m ++ (req ∷ [])) m.pending;
      },
      [],
    )
  ]

  -- The loop over the requests that wait for a namespace: those that still wait, and the replies.
  unfoldable pub process_each : KvManager V → List WatchReq → List WatchReq × Replies V
  process_each m [] = ([], [])
  process_each m (r ∷ reqs) =
      let (new_pending, replies) = process_each m reqs in
      elim (process m r) [
        | some res ↦ (new_pending, (r.res_chan, res) ∷ replies)
        | none ↦ (r ∷ new_pending, replies)
      ]

  -- `case ns := <-m.changedChan`.
  unfoldable pub serve_change : Key → KvManager V → KvManager V × Replies V
  serve_change ns m = elim (lookup ns m.pending) [
    | none ↦ (m, [])
    | some reqs ↦
        let (new_pending, replies) = process_each m reqs in
        (
          record m {
            pending = elim new_pending [
              | [] ↦ delete_at ns m.pending
              | r ∷ rs ↦ insert ns (r ∷ rs) m.pending
            ];
          },
          replies,
        )
  ]

  unfoldable pub abort_each : List WatchReq → Replies V
  abort_each [] = []
  abort_each (r ∷ reqs) = (r.res_chan, abort r) ∷ abort_each reqs

  unfoldable pub abort_all : KeyMap (List WatchReq) → Replies V
  abort_all [] = []
  abort_all ((ns, reqs) ∷ pending) = abort_each reqs ++ abort_all pending

  -- `case <-stopCh`.
  unfoldable pub serve_stop : KvManager V → KvManager V × Replies V
  serve_stop m = (record m { serving_watch = false; pending = [] }, abort_all m.pending)

  -- The start of `ServeWatch`.
  unfoldable pub serve_start : KvManager V → KvManager V
  serve_start m = record m { serving_watch = true }

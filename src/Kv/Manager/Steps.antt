-- ===== src/Kv/Manager/Steps.antt =====
-- The goroutines around the watch loop of pkg/keyvalueservice/manager.go: calls of Set, Delete and
-- Watch whose message has not been taken yet, and the steps that they and the loop take in any order.
use z_presplit_aci_container.Base.{ℕ, ◌≡◌, true, false, List, [], ◌∷◌, ◌++◌, if◌then◌else◌}
use z_presplit_aci_container.Base.Maps.{Key}
use z_presplit_aci_container.Kv.{ok}
use z_presplit_aci_container.Kv.Manager.{
  WatchReq, KvManager, Replies, new_kv_manager, set, delete, watch_async, serve_request,
  serve_change, serve_stop, serve_start,
}

-- `changed` has the namespaces of the calls of Set and Delete that have made their change and have
-- not sent it, `requests` the requests of the calls of Watch that have not been taken, and `replies`
-- what the loop has sent.
pub record System (V : Type 0) : Type 0 where
  pub manager : KvManager V
  pub changed : List Key
  pub requests : List WatchReq
  pub replies : Replies V

module _ {V : Type 0} where
  unfoldable pub start : System V
  start = record { manager = new_kv_manager; changed = []; requests = []; replies = [] }

  abbrev after_loop : KvManager V × Replies V → System V → System V
  after_loop (m, replies) s = record s { manager = m; replies = s.replies ++ replies }

  pub data Step (s : System V) : System V → Type 0 where
    set_call :
        (namespace key : Key) (value : V)
        → Step s (record s {
          manager = set namespace key value s.manager;
          changed = namespace ∷ s.changed;
        })
    delete_call :
        (namespace key : Key)
        → Step s (record s {
          manager = (delete namespace key s.manager).1;
          changed = if (delete namespace key s.manager).0 then namespace ∷ s.changed else s.changed;
        })
    watch_call :
        (namespace : Key) (version res_chan : ℕ) (m : KvManager V) (r : WatchReq)
        → watch_async namespace version res_chan s.manager ≡ (ok r, m)
        → Step s (record s { manager = m; requests = r ∷ s.requests })
    -- A call that finds the loop not running sends nothing.
    not_serving :
        (before after : List Key) (namespace : Key)
        → s.changed ≡ before ++ (namespace ∷ after)
        → s.manager.serving_watch ≡ false
        → Step s (record s { changed = before ++ after })
    take_request :
        (before after : List WatchReq) (r : WatchReq)
        → s.requests ≡ before ++ (r ∷ after)
        → s.manager.serving_watch ≡ true
        → Step s (after_loop (serve_request r s.manager) (record s { requests = before ++ after }))
    take_change :
        (before after : List Key) (namespace : Key)
        → s.changed ≡ before ++ (namespace ∷ after)
        → s.manager.serving_watch ≡ true
        → Step s
            (after_loop (serve_change namespace s.manager) (record s { changed = before ++ after }))
    stop : s.manager.serving_watch ≡ true → Step s (after_loop (serve_stop s.manager) s)
    serve : Step s (record s { manager = serve_start s.manager })

  pub data Reachable : System V → Type 0 where
    started : Reachable start
    next : {s t : System V} → Reachable s → Step s t → Reachable t

-- ===== src/Kv/Watcher.antt =====
-- pkg/keyvalueservice/watcher.go and the calls of pkg/keyvalueservice/rpc.go that it makes: what a
-- reply hands to the watcher's two functions, and the next call.
pub mod Session
use z_presplit_aci_container.Base.{
  ℕ, Bool, true, false, List, [], ◌∷◌, Option, none, some, if◌then◌else◌,
}
use z_presplit_aci_container.Base.Maps.{Key, same_key}
use z_presplit_aci_container.Kv.{
  KvItem, KvAction, KvError, internal, version_too_old, not_found, Result, ok, err,
}
use z_presplit_aci_container.Kv.Manager.{WatchReq, WatchRes, KvManager, list, watch_async}

-- The messages of the errors, which are all that a reply has of them.
unfoldable pub error_text : KvError → Key
error_text internal = "KvError: Internal Error"
error_text version_too_old = "KvError: Requested version is too old"
error_text not_found = "KvError: Key or namespace not found"

pub record RpcListReply (V : Type 0) : Type 0 where
  pub items : List (KvItem V)
  pub version : ℕ

pub record RpcWatchReply (V : Type 0) : Type 0 where
  pub actions : List (KvAction V)
  pub version : ℕ

-- The next call: "KvService.List" or "KvService.Watch".
pub data NextCall : Type 0 where
  list_call : (namespace : Key) → NextCall
  watch_call : (namespace : Key) (version : ℕ) → NextCall

-- A call of `allHandler` or of `updateHandler`.
pub data Handed (V : Type 0) : Type 0 where
  all_items : Key → List (KvItem V) → Handed V
  updates : Key → List (KvAction V) → Handed V

-- Which of the two functions are set.
pub record Handlers : Type 0 where
  pub all_handler : Bool
  pub update_handler : Bool

-- The error that closes the connection, or what is handed over and the next call.
pub data Handling (V : Type 0) : Type 0 where
  close : Key → Handling V
  continue : List (Handed V) → NextCall → Handling V

module _ {V : Type 0} where
  unfoldable pub service_list : Key → KvManager V → RpcListReply V
  service_list namespace m =
      let (last, items) = list namespace m in record { items = items; version = last }

  -- The end of `KvService.Watch` for a request of the version: what came on the request's channel, or
  -- none when the watch is aborted. A reply with an error has its text only.
  unfoldable pub service_watch : ℕ → Option (WatchRes V) → Option Key × RpcWatchReply V
  service_watch version none = (none, record { actions = []; version = version })
  service_watch version (some res) = (
    elim res.error [ none ↦ none | some e ↦ some (error_text e) ],
    record { actions = res.actions; version = res.version },
  )

  unfoldable pub handle_list_reply : Handlers → Key → Option Key → RpcListReply V → Handling V
  handle_list_reply w namespace error reply = elim error [
    | some e ↦ close e
    | none ↦
        continue (if w.all_handler then all_items namespace reply.items ∷ [] else [])
          (watch_call namespace reply.version)
  ]

  -- The part of `handleWatchReply` without an error.
  unfoldable pub handle_actions : Handlers → Key → RpcWatchReply V → Handling V
  handle_actions w namespace reply =
      continue (if w.update_handler then updates namespace reply.actions ∷ [] else [])
        (watch_call namespace reply.version)

  unfoldable pub handle_watch_reply : Handlers → Key → Option Key → RpcWatchReply V → Handling V
  handle_watch_reply w namespace error reply = elim error [
    | none ↦ handle_actions w namespace reply
    | some e ↦
        if same_key e (error_text version_too_old)
        then continue [] (list_call namespace)
        else close e
  ]

-- ===== src/Kv/Examples.antt =====
-- Runs of pkg/keyvalueservice, and the theorems on it at concrete states.
use z_presplit_aci_container.Base.{
  ℕ, ◌≤◌, ◌≡◌, refl, true, List, [], ◌∷◌, none, some, length, arith, sort_search,
}
use z_presplit_aci_container.Base.Maps.{lookup, insert, delete, same_key}
use z_presplit_aci_container.Kv
use z_presplit_aci_container.Kv.{
  KvNamespace, KvItem, KvAction, op_set, op_delete, Result, ok, err, version_too_old, not_found,
  new_kv_namespace, find_updated_after, get, set, log_change, next_version, remove_old, old_version,
  version_at, key_at, find_version, find_key_below, remove_change, purge, delete_key,
}
use z_presplit_aci_container.Kv.Holds.{Holds}
use z_presplit_aci_container.Kv.Holds.Kept.{
  KvOp, set_op, delete_op, perform, perform_all, new_kv_namespace-Holds, perform_all-Holds,
}
use z_presplit_aci_container.Kv.Holds.Bounded.{perform_all-bounded}
use z_presplit_aci_container.Kv.Holds.Found.{get_after, get-perform}
use z_presplit_aci_container.Kv.Updates.{
  Mirrors, Updates, find_updated_after-perform_all, get_all-Mirrors, load_items,
}
use z_presplit_aci_container.Kv.Manager
use z_presplit_aci_container.Kv.Manager.{
  WatchReq, WatchRes, KvManager, new_kv_manager, watch_async, process, request_namespace, reply,
  serve_start, serve_request, serve_change, get_or_create_namespace, pending_at, process_each,
}
use z_presplit_aci_container.Kv.Manager.Steps.{
  System, start, Reachable, started, next, serve, watch_call, take_request, set_call,
}
use z_presplit_aci_container.Kv.Manager.Serving.{NoneLost}
use z_presplit_aci_container.Kv.Manager.Loop.{Reachable-NoneLost}
use z_presplit_aci_container.Kv.Manager.Answers.{Elem, here, take_changes, take_changes-answers}
use z_presplit_aci_container.Kv.Watcher.{all_items, handle_list_reply, watch_call as next_watch}
use z_presplit_aci_container.Kv.Watcher.Session.{
  Session, Rounds, begin, operate, listed, hand, Rounds-Mirrors,
}
use z_presplit_aci_container.Kv.Watcher.Session.{next as next_round}

abbrev ops : List (KvOp ℕ)
ops = set_op "a" 1 ∷ set_op "b" 2 ∷ delete_op "a" ∷ set_op "b" 3 ∷ []

abbrev more : List (KvOp ℕ)
more = set_op "c" 5 ∷ delete_op "b" ∷ []

abbrev fresh : KvNamespace ℕ
fresh = new_kv_namespace "ns" 2

abbrev used : KvNamespace ℕ
used = perform_all ops fresh

used_versions : (used.last_version ≡ 4) × (length used.change_log ≡ 2)
unfolding perform_all perform new_kv_namespace set delete_key log_change purge remove_old
    remove_change find_version find_key_below version_at key_at old_version next_version lookup
    insert sort_search same_key delete
used_versions = (refl, refl)

used-Holds : Holds used
unfolding new_kv_namespace
used-Holds = perform_all-Holds ops fresh (new_kv_namespace-Holds "ns" 2 (omega arith)) (omega arith)

perform_all-Holds_example : Holds (perform_all ops fresh)
unfolding new_kv_namespace
perform_all-Holds_example =
    perform_all-Holds ops fresh (new_kv_namespace-Holds "ns" 2 (omega arith)) (omega arith)

perform_all-bounded_example :
    (length (perform_all ops fresh).change_log ≤ 4) × ((perform_all ops fresh).last_version ≤ 4)
perform_all-bounded_example = perform_all-bounded "ns" 2 ops (omega arith) (omega arith)

get-perform_example :
    get "a" (perform (delete_op "a") used) ≡ get_after (delete_op "a") "a" (get "a" used)
get-perform_example = get-perform (delete_op "a") "a" used

find_updated_after-perform_all_example :
    Updates
      (load_items (Kv.get_all used).1)
      used
      (perform_all more used)
      (find_updated_after used.last_version (perform_all more used))
find_updated_after-perform_all_example =
    find_updated_after-perform_all used more (load_items (Kv.get_all used).1) used-Holds
      (omega (arith, used_versions)) (get_all-Mirrors used)

abbrev ahead : WatchReq
ahead = record { namespace = "ns"; version = 5; res_chan = 8 }

abbrev request : WatchReq
request = record { namespace = "ns"; version = 0; res_chan = 7 }

-- The loop runs, and has taken two requests for an empty namespace.
abbrev waiting : System ℕ
waiting = record start {
  manager = record new_kv_manager {
    serving_watch = true;
    namespaces = ("ns", new_kv_namespace "ns" 50) ∷ [];
    pending = ("ns", request ∷ ahead ∷ []) ∷ [];
  };
}

waiting-Reachable : Reachable waiting
unfolding start new_kv_manager serve_start serve_request process request_namespace reply watch_async
    get_or_create_namespace pending_at lookup insert find_updated_after new_kv_namespace sort_search
    same_key
waiting-Reachable =
    let both =
      next
        (next (next started serve)
          (watch_call "ns" 5 8 (record waiting.manager { pending = [] }) ahead refl))
        (watch_call "ns" 0 7 (record waiting.manager { pending = [] }) request refl) in
    next (next both (take_request [] (ahead ∷ []) request refl refl))
      (take_request [] [] ahead refl refl)

-- Then a call of Set has made its change.
abbrev changed : System ℕ
changed = record waiting { manager = Manager.set "ns" "k" 9 waiting.manager; changed = "ns" ∷ [] }

changed-Reachable : Reachable changed
unfolding start
changed-Reachable = next waiting-Reachable (set_call "ns" "k" 9)

Reachable-NoneLost_example : NoneLost changed.manager changed.changed
Reachable-NoneLost_example = Reachable-NoneLost changed-Reachable

abbrev answer : WatchRes ℕ
answer = record {
  actions = record { action = op_set; item = record { key = "k"; value = 9; version = 0 } } ∷ [];
  version = 1;
  error = none;
}

answer_is : process changed.manager request ≡ some answer
unfolding process request_namespace reply Manager.set get_or_create_namespace lookup insert
    find_updated_after Kv.set log_change purge remove_old remove_change find_version find_key_below
    version_at key_at old_version next_version new_kv_namespace sort_search start new_kv_manager
    same_key Kv.action_of
answer_is = refl

take_changes-answers_example : Elem (7, answer) (take_changes changed.changed changed.manager).1
unfolding lookup same_key start new_kv_manager Manager.set get_or_create_namespace insert
take_changes-answers_example =
    take_changes-answers {s = changed} "ns" (request ∷ ahead ∷ []) request answer changed-Reachable
      refl here answer_is

still_waits :
    lookup "ns" (take_changes changed.changed changed.manager).0.pending ≡ some (ahead ∷ [])
unfolding take_changes serve_change process_each process request_namespace reply Manager.set
    get_or_create_namespace lookup insert find_updated_after Kv.set log_change purge remove_old
    remove_change find_version find_key_below version_at key_at old_version next_version
    new_kv_namespace sort_search start new_kv_manager same_key Kv.action_of
still_waits = refl

-- A client lists a namespace that has one value, before it is changed.
abbrev listing : Session ℕ
listing = record {
  namespace = perform (set_op "k" 1) (new_kv_namespace "ns" 2);
  copy = ("k", 1) ∷ [];
  call = next_watch "ns" 1;
}

abbrev list_items : List (KvItem ℕ)
list_items = record { key = "k"; value = 1; version = 0 } ∷ []

listing-Rounds : Rounds "ns" 2 (("old", 8) ∷ []) listing
unfolding hand load_items handle_list_reply perform Kv.get_all lookup insert Kv.set log_change purge
    remove_old remove_change find_version find_key_below version_at key_at old_version next_version
    new_kv_namespace sort_search same_key
listing-Rounds =
    next_round (next_round begin (operate (set_op "k" 1) (omega arith)))
      (listed "ns" (all_items "ns" list_items ∷ []) (next_watch "ns" 1) refl refl)

Rounds-Mirrors_example : Mirrors (("k", 1) ∷ []) listing.namespace
unfolding perform lookup insert Kv.set log_change purge remove_old remove_change find_version
    find_key_below version_at key_at old_version next_version new_kv_namespace sort_search same_key
Rounds-Mirrors_example =
    Rounds-Mirrors {s = listing} "ns" 2 (("old", 8) ∷ []) "ns" (omega arith) listing-Rounds refl

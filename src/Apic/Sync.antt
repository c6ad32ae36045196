-- ===== src/Apic/Sync.antt =====
-- The state of `ApicConnection` of pkg/apicapi: what is desired, what is cached, and the queue of
-- names, with the operations of apic_sync.go and apicapi.go that change it.
pub mod Queue
pub mod Names
pub mod Examples
use Prim.Native.Nat.{Ordering}
use Prim.Native.String.{compare}
use mathlib.Core.Bool.{not}
use z_presplit_aci_container.Base.{
  Bool, true, false, ◌&&◌, ◌||◌, List, [], ◌∷◌, ◌++◌, map, Option, none, some, if◌then◌else◌, ℕ,
  zero, suc, length,
}
use z_presplit_aci_container.Base.Maps.{
  Key, KeySet, KeyMap, same_key, member, add, remove, lookup, insert, delete,
}
use z_presplit_aci_container.Apic.{
  ApicObject, ApicSlice, object, nothing, ◌⨾◌, get_dn, cmp_apic_object, children_of, class_of,
  attributes_of, get_attr_str, Metadata, diff_pair, diff_apic_state, Diff,
}

pub data PendingKind : Type 0 where
  delete_pending : PendingKind
  update_pending : PendingKind

-- The fields that these operations read or write. `delta_queue` has what was added to the queue of
-- the connection, if there is one, the latest last.
pub record ApicConnection : Type 0 where
  pub sync_enabled : Bool
  pub desired_state : KeyMap ApicSlice
  pub desired_state_dn : KeyMap ApicObject
  pub key_hashes : KeyMap Key
  pub container_dns : KeySet
  pub cached_state : KeyMap ApicSlice
  pub pending_sub_dn_update : KeyMap PendingKind
  pub delta_queue : Option (List Key)

-- `sort.Sort` on slices and `sort.Strings`. Objects of one name keep their order here; `sort.Sort`
-- leaves their order open.
abbrev pub is_above : Ordering → Bool
is_above Ordering.lt = false
is_above Ordering.eq = false
is_above Ordering.gt = true

unfoldable pub insert_object : ApicObject → ApicSlice → ApicSlice
insert_object o nothing = o ⨾ nothing
insert_object o (p ⨾ s) =
    let rest = insert_object o s in if is_above (cmp_apic_object o p) then p ⨾ rest else o ⨾ (p ⨾ s)

unfoldable pub sort_slice : ApicSlice → ApicSlice
sort_slice nothing = nothing
sort_slice (o ⨾ s) = insert_object o (sort_slice s)

pub insert_string : Key → List Key → List Key
insert_string k [] = k ∷ []
insert_string k (j ∷ ks) =
    let rest = insert_string k ks in if is_above (compare k j) then j ∷ rest else k ∷ j ∷ ks

pub sort_strings : List Key → List Key
sort_strings [] = []
sort_strings (k ∷ ks) = insert_string k (sort_strings ks)

pub queue_dn : Key → ApicConnection → ApicConnection
queue_dn dn conn = elim conn.delta_queue [
  | none ↦ conn
  | some queue ↦ record conn { delta_queue = some (queue ++ (dn ∷ [])) }
]

pub queue_all : List Key → ApicConnection → ApicConnection
queue_all [] conn = conn
queue_all (dn ∷ dns) conn = queue_all dns (queue_dn dn conn)

-- Only the names of the updates count, so that they are sorted as names.
pub apply_diff : Diff → ApicConnection → ApicConnection
apply_diff (updates, deletes) conn =
    queue_all (sort_strings (map get_dn updates)) (queue_all (sort_strings deletes) conn)

mutual
  pub update_dn_index : ApicSlice → KeyMap ApicObject → KeyMap ApicObject
  update_dn_index nothing m = m
  update_dn_index (o ⨾ s) m = update_dn_index s (index_object o m)

  pub index_object : ApicObject → KeyMap ApicObject → KeyMap ApicObject
  index_object (object class attributes children) m =
      update_dn_index children
        (insert (get_dn (object class attributes children)) (object class attributes children) m)

-- The loop over the children, with what is done for each name.
pub each_dn :
    (Key → KeyMap ApicObject → KeyMap ApicObject)
    → ApicSlice
    → KeyMap ApicObject
    → KeyMap ApicObject
each_dn f nothing m = m
each_dn f (o ⨾ s) m = each_dn f s (f (get_dn o) m)

-- Each round deletes an entry, so that as many rounds as there are entries are enough.
pub remove_rounds : ℕ → Key → KeyMap ApicObject → KeyMap ApicObject
remove_rounds zero dn m = m
remove_rounds (suc fuel) dn m = elim (lookup dn m) [
  | none ↦ m
  | some o ↦ each_dn (remove_rounds fuel) (children_of o) (delete dn m)
]

pub remove_from_dn_index : Key → KeyMap ApicObject → KeyMap ApicObject
remove_from_dn_index dn m = remove_rounds (length m) dn m

pub remove_all : List Key → KeyMap ApicObject → KeyMap ApicObject
remove_all [] m = m
remove_all (dn ∷ dns) m = remove_all dns (remove_from_dn_index dn m)

-- `fullSync` sorts each cached slice in its place.
pub sort_states : KeyMap ApicSlice → KeyMap ApicSlice
sort_states [] = []
sort_states ((tag, s) ∷ m) = (tag, sort_slice s) ∷ sort_states m

pub add_each : List Key → KeySet → KeySet
add_each [] s = s
add_each (k ∷ ks) s = add_each ks (add k s)

pub remove_each : List Key → KeySet → KeySet
remove_each [] s = s
remove_each (k ∷ ks) s = remove_each ks (remove k s)

-- A slice that is nil stands for none.
abbrev pub slice_at : Key → KeyMap ApicSlice → ApicSlice
slice_at k m = elim (lookup k m) [ none ↦ nothing | some s ↦ s ]

module _ (metadata : Metadata) (is_sync_tag : Key → Bool) (get_tag : ApicObject → Key) where
  -- What `reconcileApicObject` writes and deletes.
  pub reconcile_diff : ApicObject → ApicConnection → Diff
  reconcile_diff aci conn = elim (lookup (get_dn aci) conn.desired_state_dn) [
    | none ↦ ([], if is_sync_tag (get_tag aci) then get_dn aci ∷ [] else [])
    | some eobj ↦
        (let (update, deletes) = diff_pair metadata conn.container_dns aci eobj in
          ((if update then eobj ∷ [] else []), deletes))
  ]

  pub reconcile_apic_object : ApicObject → ApicConnection → ApicConnection
  reconcile_apic_object aci conn =
      if conn.sync_enabled then apply_diff (reconcile_diff aci conn) conn else conn

abbrev pub join : Diff → Diff → Diff
join (updates, deletes) (us, ds) = (updates ++ us, deletes ++ ds)

module _ (metadata : Metadata) (tag_of : Key → Key) where
  -- The loop of `fullSync` over the cached state.
  pub sync_cached : KeyMap ApicSlice → ApicConnection → Diff
  sync_cached [] conn = ([], [])
  sync_cached ((tag, current) ∷ cached) conn =
      let key = elim (lookup tag conn.key_hashes) as (λ x. Key) [ none ↦ "" | some key ↦ key ] in
      join
        (diff_apic_state metadata conn.container_dns (sort_slice current)
          (slice_at key conn.desired_state))
        (sync_cached cached conn)

  -- The loop over the desired state, for the keys that are not cached.
  pub sync_desired : KeyMap ApicSlice → ApicConnection → Diff
  sync_desired [] conn = ([], [])
  sync_desired ((key, desired) ∷ states) conn = elim (lookup (tag_of key) conn.cached_state) [
    | none ↦
        join (diff_apic_state metadata conn.container_dns nothing desired)
          (sync_desired states conn)
    | some s ↦ sync_desired states conn
  ]

  pub full_sync : ApicConnection → ApicConnection
  full_sync conn =
      apply_diff (join (sync_cached conn.cached_state conn) (sync_desired conn.desired_state conn))
        (record conn { sync_enabled = true; cached_state = sort_states conn.cached_state })

  -- What `doWriteApicObjects` writes and deletes; nil objects are none.
  pub write_diff : Key → Option ApicSlice → ApicConnection → Diff
  write_diff key objects conn =
      diff_apic_state metadata conn.container_dns (slice_at key conn.desired_state)
        (elim objects [ none ↦ nothing | some s ↦ s ])

  -- The indexes after it.
  pub store_written : Key → Option ApicSlice → Bool → Diff → ApicConnection → ApicConnection
  store_written key objects container (updates, deletes) conn = record conn {
    desired_state_dn =
        remove_all deletes
          (update_dn_index (elim objects [ none ↦ nothing | some s ↦ s ]) conn.desired_state_dn);
    container_dns =
        (if container
          then add_each (map get_dn updates) (remove_each deletes conn.container_dns)
          else conn.container_dns);
    desired_state = (elim objects [
      | none ↦ delete key conn.desired_state
      | some s ↦ insert key s conn.desired_state
    ]);
    key_hashes = (elim objects [
      | none ↦ delete (tag_of key) conn.key_hashes
      | some s ↦ insert (tag_of key) key conn.key_hashes
    ]);
  }

  -- `doWriteApicObjects`, with the objects that `prepareApicSliceTag` has made of its argument.
  pub write_prepared : Key → Option ApicSlice → Bool → ApicConnection → ApicConnection
  write_prepared key objects container conn =
      let diff = write_diff key objects conn in
      let written = store_written key objects container diff conn in
      if conn.sync_enabled then apply_diff diff written else written

-- What a name that leaves the queue leads to.
pub data Action : Type 0 where
  post : ApicObject → Action
  delete_dn : Action
  get_subtree : Action
  call_delete_hooks : Action
  no_action : Action

-- `handleQueuedDn`; `has_classes` tells that a subscription of the change has response classes.
pub queued_action : Bool → Option PendingKind → Option ApicObject → Action
queued_action has_classes none none = delete_dn
queued_action has_classes none (some o) = post o
queued_action has_classes (some delete_pending) none = call_delete_hooks
queued_action has_classes (some delete_pending) (some o) = post o
queued_action has_classes (some update_pending) o = if has_classes then get_subtree else no_action

pub handle_queued_dn : Bool → Key → ApicConnection → ApicConnection × Action
handle_queued_dn has_classes dn conn = (
  record conn { pending_sub_dn_update = delete dn conn.pending_sub_dn_update },
  queued_action has_classes (lookup dn conn.pending_sub_dn_update)
      (lookup dn conn.desired_state_dn),
)

-- `handleSocketUpdate` for an object with a name and a status.
pub handle_socket_update : Key → Key → ApicConnection → ApicConnection
handle_socket_update dn status conn = queue_dn dn (record conn {
  pending_sub_dn_update =
      insert dn (if same_key status "deleted" then delete_pending else update_pending)
        conn.pending_sub_dn_update;
})

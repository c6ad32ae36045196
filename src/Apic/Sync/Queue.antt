-- ===== src/Apic/Sync/Queue.antt =====
-- The queue of names of pkg/apicapi: which names `applyDiff`, `doWriteApicObjects` and
-- `reconcileApicObject` add to it.
use mathlib.Core.Bool.{not}
use z_presplit_aci_container.Base.{
  ◌≡◌, refl, sym, ap, ◌∙◌, append-nil, append_assoc, Bool, true, false, ◌&&◌, ◌||◌, List, [], ◌∷◌,
  ◌++◌, map, Option, none, some, if◌then◌else◌, arith, Bool-cases, Option-cases, inl, inr,
}
use z_presplit_aci_container.Base.Maps.{
  Key, KeySet, same_key, member, lookup, lookup-insert, same_key_refl,
}
use z_presplit_aci_container.Apic.{
  ApicObject, ApicSlice, nothing, get_dn, Metadata, diff_pair, diff_apic_state, Diff, apic_obj_cmp,
  apic_cnt_cmp,
}
use z_presplit_aci_container.Apic.Trees.{
  diff_apic_state_refl, is_quiet, same_tree, apic_obj_cmp-same_tree,
}
use z_presplit_aci_container.Apic.Sync.{
  ApicConnection, insert_string, sort_strings, queue_dn, queue_all, apply_diff, reconcile_diff,
  reconcile_apic_object, write_prepared, write_diff, store_written,
}

-- The names in the queue.
unfoldable pub is_queued : Key → ApicConnection → Bool
is_queued k conn = elim conn.delta_queue [ none ↦ false | some queue ↦ member k queue ]

member-append : (k : Key) (s t : KeySet) → member k (s ++ t) ≡ (member k s || member k t)
unfolding member
member-append k [] t = refl
member-append k (j ∷ s) t = ground (arith, member-append k s t)

member-insert_string :
    (k j : Key) (s : KeySet) → member k (insert_string j s) ≡ (same_key k j || member k s)
unfolding insert_string member
member-insert_string k j [] = refl
member-insert_string k j (i ∷ s) = ground (arith, member-insert_string k j s)

member-sort_strings : (k : Key) (s : KeySet) → member k (sort_strings s) ≡ member k s
unfolding sort_strings member
member-sort_strings k [] = refl
member-sort_strings k (j ∷ s) =
    ground (arith, member-insert_string k j (sort_strings s), member-sort_strings k s)

queue_dn-set :
    (dn : Key) (conn : ApicConnection) (q : List Key)
    → conn.delta_queue ≡ some q
    → (queue_dn dn conn).delta_queue ≡ some (q ++ (dn ∷ []))
unfolding queue_dn
queue_dn-set dn conn q h = ground (arith, h)

queue_all-set :
    (dns q : List Key) (conn : ApicConnection)
    → conn.delta_queue ≡ some q
    → (queue_all dns conn).delta_queue ≡ some (q ++ dns)
unfolding queue_all
queue_all-set [] q conn h = h ∙ ap some (sym (append-nil q))
queue_all-set (dn ∷ dns) q conn h =
    queue_all-set dns (q ++ (dn ∷ [])) (queue_dn dn conn) (queue_dn-set dn conn q h)
    ∙ ap some (append_assoc q (dn ∷ []) dns)

-- Nothing else changes.
queue_dn-keeps :
    (dn : Key) (conn : ApicConnection) → (queue_dn dn conn).desired_state ≡ conn.desired_state
unfolding queue_dn
queue_dn-keeps dn conn = elim (Option-cases conn.delta_queue) [
  | inl h ↦ rw h refl
  | inr (q, h) ↦ rw h refl
]

queue_all-keeps :
    (dns : List Key) (conn : ApicConnection)
    → (queue_all dns conn).desired_state ≡ conn.desired_state
unfolding queue_all
queue_all-keeps [] conn = refl
queue_all-keeps (dn ∷ dns) conn = queue_all-keeps dns (queue_dn dn conn) ∙ queue_dn-keeps dn conn

apply_diff-keeps :
    (d : Diff) (conn : ApicConnection) → (apply_diff d conn).desired_state ≡ conn.desired_state
unfolding apply_diff
apply_diff-keeps (us, ds) conn =
    queue_all-keeps (sort_strings (map get_dn us)) (queue_all (sort_strings ds) conn)
    ∙ queue_all-keeps (sort_strings ds) conn

-- The names of a difference.
unfoldable pub in_diff : Key → Diff → Bool
in_diff k (updates, deletes) = member k deletes || member k (map get_dn updates)

apply_diff-queues :
    (k : Key) (d : Diff) (conn : ApicConnection) (q : List Key)
    → conn.delta_queue ≡ some q
    → is_queued k (apply_diff d conn) ≡ (is_queued k conn || in_diff k d)
unfolding apply_diff is_queued in_diff
apply_diff-queues k (us, ds) conn q h =
    let names = sort_strings (map get_dn us) in
    let g = queue_all-set (sort_strings ds) q conn h in
    let e = queue_all-set names (q ++ sort_strings ds) (queue_all (sort_strings ds) conn) g in
    ground (
      arith,
      e,
      h,
      member-append k (q ++ sort_strings ds) names,
      member-append k q (sort_strings ds),
      member-sort_strings k ds,
      member-sort_strings k (map get_dn us),
    )

module _ (metadata : Metadata) (is_sync_tag : Key → Bool) (get_tag : ApicObject → Key) where
  pub reconcile_apic_object-queues :
      (k : Key) (aci : ApicObject) (conn : ApicConnection) (q : List Key)
      → conn.delta_queue ≡ some q
      → is_queued k (reconcile_apic_object metadata is_sync_tag get_tag aci conn) ≡ (
          is_queued k conn
          || (conn.sync_enabled
              && in_diff k (reconcile_diff metadata is_sync_tag get_tag aci conn)))
  unfolding reconcile_apic_object
  reconcile_apic_object-queues k aci conn q h = elim (Bool-cases conn.sync_enabled) [
    | inl e ↦ ground (
      arith,
      e,
      apply_diff-queues k (reconcile_diff metadata is_sync_tag get_tag aci conn) conn q h,
    )
    | inr e ↦ ground (arith, e)
  ]

module _ (metadata : Metadata) (tag_of : Key → Key) where
  -- If the connection has a queue, a write of prepared objects adds to it the names of the
  -- difference to the objects desired before under the key, if synchronisation is enabled, and no
  -- other names.
  pub write_prepared-queues :
      (k key : Key) (objects : Option ApicSlice) (container : Bool) (conn : ApicConnection)
      (q : List Key)
      → conn.delta_queue ≡ some q
      → is_queued k (write_prepared metadata tag_of key objects container conn) ≡ (
          is_queued k conn
          || (conn.sync_enabled && in_diff k (write_diff metadata tag_of key objects conn)))
  unfolding write_prepared store_written is_queued
  write_prepared-queues k key objects container conn q h =
      let diff = write_diff metadata tag_of key objects conn in
      let written = store_written metadata tag_of key objects container diff conn in
      elim (Bool-cases conn.sync_enabled) [
        | inl e ↦ ground (arith, e, apply_diff-queues k diff written q h)
        | inr e ↦ ground (arith, e)
      ]

  write_prepared-desired :
      (key : Key) (s : ApicSlice) (container : Bool) (conn : ApicConnection)
      → lookup key (write_prepared metadata tag_of key (some s) container conn).desired_state
        ≡ some s
  unfolding write_prepared store_written
  write_prepared-desired key s container conn =
      let diff = write_diff metadata tag_of key (some s) conn in
      let written = store_written metadata tag_of key (some s) container diff conn in
      elim (Bool-cases conn.sync_enabled) [
        | inl e ↦ ground (
          arith,
          e,
          apply_diff-keeps diff written,
          lookup-insert key key s conn.desired_state,
          same_key_refl key,
        )
        | inr e ↦ ground (arith, e, lookup-insert key key s conn.desired_state, same_key_refl key)
      ]

  write_diff-known :
      (key : Key) (s : ApicSlice) (conn : ApicConnection)
      → lookup key conn.desired_state ≡ some s
      → write_diff metadata tag_of key (some s) conn ≡ ([], [])
  unfolding write_diff
  write_diff-known key s conn h =
      ap
        (λ o.
          diff_apic_state metadata conn.container_dns (elim o [ none ↦ nothing | some t ↦ t ]) s)
        h
      ∙ diff_apic_state_refl metadata conn.container_dns s

  apply_diff-empty : (conn : ApicConnection) → apply_diff ([], []) conn ≡ conn
  unfolding apply_diff queue_all sort_strings
  apply_diff-empty conn = refl

  write_prepared-known :
      (key : Key) (s : ApicSlice) (container : Bool) (conn : ApicConnection)
      → lookup key conn.desired_state ≡ some s
      → (write_prepared metadata tag_of key (some s) container conn).delta_queue ≡ conn.delta_queue
  unfolding write_prepared store_written
  write_prepared-known key s container conn h =
      let diff = write_diff metadata tag_of key (some s) conn in
      let written = store_written metadata tag_of key (some s) container diff conn in
      let e =
        ap (λ d. apply_diff d written) (write_diff-known key s conn h) ∙ apply_diff-empty written in
      elim (Bool-cases conn.sync_enabled) [
        | inl t ↦
            ap (λ b. (if b then apply_diff diff written else written).delta_queue) t
            ∙ ap (λ c. c.delta_queue) e
        | inr t ↦ ap (λ b. (if b then apply_diff diff written else written).delta_queue) t
      ]

  -- Writing the same prepared objects under the same key a second time queues nothing, whether or
  -- not they are containers.
  pub write_prepared-again :
      (key : Key) (s : ApicSlice) (first again : Bool) (conn : ApicConnection)
      → (write_prepared metadata tag_of key
          (some s)
          again
          (write_prepared metadata tag_of key (some s) first conn)).delta_queue
        ≡ (write_prepared metadata tag_of key (some s) first conn).delta_queue
  write_prepared-again key s first again conn =
      write_prepared-known key s again _ (write_prepared-desired key s first conn)

-- Nothing to write and nothing to delete.
unfoldable pub is_empty_diff : Diff → Bool
is_empty_diff ([], []) = true
is_empty_diff ([], k ∷ ks) = false
is_empty_diff (o ∷ os, ks) = false

quiet-empty_diff :
    (u : Bool) (ks : List Key) (o : ApicObject)
    → is_empty_diff ((if u then o ∷ [] else []), ks) ≡ is_quiet (u, ks)
unfolding is_empty_diff is_quiet
quiet-empty_diff true [] o = refl
quiet-empty_diff true (k ∷ ks) o = refl
quiet-empty_diff false [] o = refl
quiet-empty_diff false (k ∷ ks) o = refl

module _ (metadata : Metadata) (is_sync_tag : Key → Bool) (get_tag : ApicObject → Key) where
  -- For an object whose name is desired and is not that of a container, reconcileApicObject has
  -- nothing to write and nothing to delete exactly if the tree agrees with the desired one.
  pub reconcile_diff-same_tree :
      (aci eobj : ApicObject) (conn : ApicConnection)
      → lookup (get_dn aci) conn.desired_state_dn ≡ some eobj
      → member (get_dn aci) conn.container_dns ≡ false
      → is_empty_diff (reconcile_diff metadata is_sync_tag get_tag aci conn)
        ≡ same_tree metadata aci eobj
  unfolding reconcile_diff diff_pair
  reconcile_diff-same_tree aci eobj conn h g =
      let p = apic_obj_cmp metadata aci eobj in
      ap
        (λ o. is_empty_diff (elim o as (λ x. Diff) [
          | none ↦ ([], if is_sync_tag (get_tag aci) then get_dn aci ∷ [] else [])
          | some e ↦ (
            (if (diff_pair metadata conn.container_dns aci e).0 then e ∷ [] else []),
            (diff_pair metadata conn.container_dns aci e).1,
          )
        ]))
        h
      ∙ ap
          (λ b. is_empty_diff (
            (if (if b then (not (apic_cnt_cmp metadata aci eobj), []) else p).0
                then eobj ∷ []
                else []),
            (if b then (not (apic_cnt_cmp metadata aci eobj), []) else p).1,
          ))
          g
      ∙ quiet-empty_diff p.0 p.1 eobj
      ∙ apic_obj_cmp-same_tree metadata aci eobj

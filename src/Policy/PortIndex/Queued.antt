-- ===== src/Policy/PortIndex/Queued.antt =====
-- The network policies that the handlers of services in pkg/controller/services.go queue.
use z_presplit_aci_container.Base.{
  ℕ, ◌≡◌, ◌∙◌, Bool, true, false, not, ◌&&◌, ◌||◌, List, [], ◌∷◌, Option, none, some, Bool-cases,
  inl, inr, arith,
}
use z_presplit_aci_container.Base.Maps.{Key, KeyMap, KeySet, lookup, member, add, member-add}
use z_presplit_aci_container.Policy.PortIndex.{
  TargetPort, PortIndexEntry, PortIndex, has_port, update_target_port_index, ServicePort,
  get_service_target_ports,
}
use z_presplit_aci_container.Policy.PortIndex.Entries.{has, indexed}
use z_presplit_aci_container.Policy.PortIndex.Indexed.{indexed-update}
use z_presplit_aci_container.Policy.PortIndex.Handlers.{
  same_ports, add_keys, queue_entry, queue_port_net_pol_updates, service_added, service_updated,
  service_deleted, PortEvent, set_policy, delete_policy, set_service, delete_service, Cluster,
  set_service_event, delete_service_event, follow, follow_all, new_cluster,
}
use z_presplit_aci_container.Policy.PortIndex.Followed.{
  ports_of_policy, ports_of_service, Agrees, follow_all-Agrees,
}

-- Some port of `b` is one of `a`.
unfoldable pub shares : KeyMap TargetPort → KeyMap TargetPort → Bool
shares a [] = false
shares a ((pk, p) ∷ b) = has_port pk a || shares a b

member-add_keys :
    (np : Key) (ks queued : KeySet)
    → member np (add_keys ks queued) ≡ (member np queued || member np ks)
unfolding add_keys member
member-add_keys np [] queued = ground arith
member-add_keys np (k ∷ ks) queued =
    ground (arith, member-add_keys np ks (add k queued), member-add np k queued)

member-queue_entry :
    (np : Key) (e : Option PortIndexEntry) (queued : KeySet)
    → member np (queue_entry e queued) ≡ (member np queued || has false np e)
unfolding queue_entry has
member-queue_entry np none queued = ground arith
member-queue_entry np (some entry) queued = member-add_keys np entry.network_policy_keys queued

-- The index says which ports the policy has.
member-queue_ports :
    (np : Key) (has_ports ports : KeyMap TargetPort) (index : PortIndex) (queued : KeySet)
    → ((pk : Key) → indexed index false np pk ≡ has_port pk has_ports)
    → member np (queue_port_net_pol_updates ports index queued)
      ≡ (member np queued || shares has_ports ports)
unfolding queue_port_net_pol_updates shares
member-queue_ports np has_ports [] index queued says = ground arith
member-queue_ports np has_ports ((portkey, p) ∷ ports) index queued says = ground (
  arith,
  member-queue_ports np has_ports ports index (queue_entry (lookup portkey index) queued) says,
  member-queue_entry np (lookup portkey index) queued,
  says portkey,
)

service-policies :
    (np key pk : Key) (old_ports new_ports : KeyMap TargetPort) (index : PortIndex)
    → indexed (update_target_port_index true key old_ports new_ports index) false np pk
      ≡ indexed index false np pk
service-policies np key pk old_ports new_ports index =
    indexed-update false true np key pk old_ports new_ports index

module _ (itoa : ℕ → Key) where
  -- The ports of a service that are set are not the ones it had.
  abbrev pub changed : Option (List ServicePort) → List ServicePort → Bool
  changed none service = true
  changed (some old) service =
      not (same_ports (get_service_target_ports itoa old) (get_service_target_ports itoa service))

  -- A service event concerns a policy that names one of the service's ports, old or new.
  abbrev pub concerns : PortEvent → Cluster → Key → Bool
  concerns (set_policy key np) c k = false
  concerns (delete_policy key) c k = false
  concerns (set_service key service) c k =
      changed (lookup key c.services) service
      && (shares (ports_of_policy itoa (lookup k c.policies))
            (ports_of_service itoa (lookup key c.services))
          || shares (ports_of_policy itoa (lookup k c.policies))
              (get_service_target_ports itoa service))
  concerns (delete_service key) c k =
      shares (ports_of_policy itoa (lookup k c.policies))
        (ports_of_service itoa (lookup key c.services))

  module _ (np : Key) (ports : KeyMap TargetPort) where
    set_service_event-queues :
        (key : Key) (service : List ServicePort) (o : Option (List ServicePort)) (queued : KeySet)
        (index : PortIndex)
        → ((pk : Key) → indexed index false np pk ≡ has_port pk ports)
        → member np (set_service_event itoa key service o (queued, index)).0 ≡ (
            member np queued
            || (changed o service
                && (shares ports (ports_of_service itoa o)
                    || shares ports (get_service_target_ports itoa service))))
    unfolding set_service_event service_added service_updated shares
    set_service_event-queues key service none queued index says =
        member-queue_ports np ports (get_service_target_ports itoa service) index queued says
    set_service_event-queues key service (some old) queued index says =
        let old_ports = get_service_target_ports itoa old in
        let new_ports = get_service_target_ports itoa service in
        let index' = update_target_port_index true key old_ports new_ports index in
        let queued' = queue_port_net_pol_updates old_ports index queued in
        elim (Bool-cases (same_ports old_ports new_ports)) [
          | inl e ↦ rw (e, service_updated) (ground arith)
          | inr e ↦
              rw (e, service_updated)
                (ground (
                  arith,
                  member-queue_ports np ports old_ports index queued says,
                  member-queue_ports np ports new_ports index' queued'
                      (λ pk. service-policies np key pk old_ports new_ports index ∙ says pk),
                ))
        ]

    delete_service_event-queues :
        (key : Key) (o : Option (List ServicePort)) (queued : KeySet) (index : PortIndex)
        → ((pk : Key) → indexed index false np pk ≡ has_port pk ports)
        → member np (delete_service_event itoa key o (queued, index)).0
          ≡ (member np queued || shares ports (ports_of_service itoa o))
    unfolding delete_service_event service_deleted shares
    delete_service_event-queues key none queued index says = ground arith
    delete_service_event-queues key (some old) queued index says =
        let old_ports = get_service_target_ports itoa old in
        member-queue_ports np ports old_ports (update_target_port_index true key old_ports [] index)
          queued (λ pk. service-policies np key pk old_ports [] index ∙ says pk)

  follow_from-queues :
      (e : PortEvent) (c : Cluster) (np : Key)
      → Agrees itoa c
      → member np (follow itoa e c).state.0 ≡ (member np c.state.0 || concerns e c np)
  unfolding follow
  follow_from-queues (set_policy key rules) c np h = ground arith
  follow_from-queues (delete_policy key) c np h = ground arith
  follow_from-queues (set_service key service) c np h =
      set_service_event-queues np (ports_of_policy itoa (lookup np c.policies)) key service
        (lookup key c.services) c.state.0 c.state.1 (h.by_policy np)
  follow_from-queues (delete_service key) c np h =
      delete_service_event-queues np (ports_of_policy itoa (lookup np c.policies)) key
        (lookup key c.services) c.state.0 c.state.1 (h.by_policy np)

-- After any sequence of changes and deletions of network policies and services, a further change
-- of a service whose target ports are not the same as before, or its deletion, queues exactly the
-- network policies that share a target port with the service, as it was or as it is, besides those
-- that were queued; a change of a service whose ports stay the same adds none.
pub follow-queues :
    (itoa : ℕ → Key) (events : List PortEvent) (e : PortEvent) (np : Key)
    → member np (follow itoa e (follow_all itoa events new_cluster)).state.0 ≡ (
        member np (follow_all itoa events new_cluster).state.0
        || concerns itoa e (follow_all itoa events new_cluster) np)
follow-queues itoa events e np =
    follow_from-queues itoa e (follow_all itoa events new_cluster) np
      (follow_all-Agrees itoa events)

-- ===== src/Policy/PortIndex/Followed.antt =====
-- The index of target ports of pkg/controller/network_policy.go after any sequence of events.
use z_presplit_aci_container.Base.{
  ℕ, ◌≡◌, ◌∙◌, refl, sym, subst, ap, Bool, true, false, List, [], ◌∷◌, Option, none, some,
  Bool-cases, inl, inr, arith, if◌then◌else◌,
}
use z_presplit_aci_container.Base.Maps.{
  Key, KeyMap, KeySet, same_key, same_key_iff, lookup, insert, delete, lookup-insert, lookup-delete,
}
use z_presplit_aci_container.Policy.PortIndex.{
  TargetPort, PortIndex, has_port, update_target_port_index, drop_ports, add_ports, EgressRule,
  ServicePort, get_net_pol_target_ports, get_service_target_ports,
}
use z_presplit_aci_container.Policy.PortIndex.Entries.{has, in_use}
use z_presplit_aci_container.Policy.PortIndex.Handlers.{
  same_ports, network_policy_added, network_policy_changed, network_policy_deleted, service_added,
  service_updated, service_deleted, PortEvent, set_policy, delete_policy, set_service,
  delete_service, Cluster, set_policy_event, delete_policy_event, set_service_event,
  delete_service_event, follow, follow_all, new_cluster,
}
use z_presplit_aci_container.Policy.PortIndex.Says.{
  Says, AllInUse, has_port_if, update-Says, update-Says_other, update-AllInUse, has_port-same_ports,
}

module _ (itoa : ℕ → Key) where
  abbrev pub ports_of_policy : Option (List EgressRule) → KeyMap TargetPort
  ports_of_policy none = []
  ports_of_policy (some np) = get_net_pol_target_ports itoa np

  abbrev pub ports_of_service : Option (List ServicePort) → KeyMap TargetPort
  ports_of_service none = []
  ports_of_service (some service) = get_service_target_ports itoa service

  -- Each port is indexed for exactly the policies and the services that the cluster now has with
  -- that port, and every entry is in use.
  pub record Agrees (c : Cluster) : Type 0 where
    pub by_policy : Says false (λ k. ports_of_policy (lookup k c.policies)) c.state.1
    pub by_service : Says true (λ k. ports_of_service (lookup k c.services)) c.state.1
    pub used : AllInUse c.state.1

  ports_of_policy_if :
      (b : Bool) (np x : Option (List EgressRule))
      → ports_of_policy (if b then np else x)
        ≡ (if b then ports_of_policy np else ports_of_policy x)
  ports_of_policy_if true np x = refl
  ports_of_policy_if false np x = refl

  ports_of_service_if :
      (b : Bool) (service x : Option (List ServicePort))
      → ports_of_service (if b then service else x)
        ≡ (if b then ports_of_service service else ports_of_service x)
  ports_of_service_if true service x = refl
  ports_of_service_if false service x = refl

  -- The handlers of policies update from the old ports to the new ones.
  set_policy_event_lem :
      (key : Key) (np : List EgressRule) (o : Option (List EgressRule)) (index : PortIndex)
      → set_policy_event itoa key np o index
        ≡ update_target_port_index false key
            (ports_of_policy o)
            (get_net_pol_target_ports itoa np)
            index
  unfolding set_policy_event network_policy_added network_policy_changed
  set_policy_event_lem key np none index = refl
  set_policy_event_lem key np (some oldnp) index = refl

  policy-Agrees :
      (key : Key) (np : Option (List EgressRule)) (after : KeyMap (List EgressRule)) (c : Cluster)
      → ((k : Key) → lookup k after ≡ (if same_key k key then np else lookup k c.policies))
      → Agrees c
      → Agrees (record c {
        policies = after;
        state = (
          c.state.0,
          update_target_port_index false key
              (ports_of_policy (lookup key c.policies))
              (ports_of_policy np)
              c.state.1,
        );
      })
  policy-Agrees key np after c now h =
      let old = ports_of_policy (lookup key c.policies) in
      record {
        by_policy =
            update-Says false key old (ports_of_policy np)
              (λ k. ports_of_policy (lookup k c.policies)) (λ k. ports_of_policy (lookup k after))
              c.state.1 h.by_policy refl
              (λ k.
                ap ports_of_policy (now k)
                ∙ ports_of_policy_if (same_key k key) np (lookup k c.policies));
        by_service =
            update-Says_other true false key old (ports_of_policy np)
              (λ k. ports_of_service (lookup k c.services)) c.state.1 refl h.by_service;
        used = update-AllInUse false key old (ports_of_policy np) c.state.1 h.used;
      }

  service-Agrees :
      (key : Key) (o service : Option (List ServicePort)) (after : KeyMap (List ServicePort))
      (queued : KeySet) (c : Cluster)
      → lookup key c.services ≡ o
      → ((k : Key) → lookup k after ≡ (if same_key k key then service else lookup k c.services))
      → Agrees c
      → Agrees (record c {
        services = after;
        state = (
          queued,
          update_target_port_index true key
              (ports_of_service o)
              (ports_of_service service)
              c.state.1,
        );
      })
  service-Agrees key o service after queued c at now h = record {
    by_policy =
        update-Says_other false true key (ports_of_service o) (ports_of_service service)
          (λ k. ports_of_policy (lookup k c.policies)) c.state.1 refl h.by_policy;
    by_service =
        update-Says true key (ports_of_service o) (ports_of_service service)
          (λ k. ports_of_service (lookup k c.services)) (λ k. ports_of_service (lookup k after))
          c.state.1 h.by_service (ap ports_of_service at)
          (λ k.
            ap ports_of_service (now k)
            ∙ ports_of_service_if (same_key k key) service (lookup k c.services));
    used =
        update-AllInUse true key (ports_of_service o) (ports_of_service service) c.state.1 h.used;
  }

  set_policy-Agrees :
      (key : Key) (np : List EgressRule) (c : Cluster)
      → Agrees c
      → Agrees (follow itoa (set_policy key np) c)
  unfolding follow
  set_policy-Agrees key np c h =
      subst
        (λ index.
          Agrees (record c { policies = insert key np c.policies; state = (c.state.0, index) }))
        (sym (set_policy_event_lem key np (lookup key c.policies) c.state.1))
        (policy-Agrees key (some np) (insert key np c.policies) c
          (λ k. lookup-insert k key np c.policies) h)

  delete_policy_event_lem :
      (key : Key) (o : Option (List EgressRule)) (index : PortIndex)
      → delete_policy_event itoa key o index
        ≡ update_target_port_index false key (ports_of_policy o) [] index
  unfolding delete_policy_event network_policy_deleted update_target_port_index drop_ports add_ports
  delete_policy_event_lem key none index = refl
  delete_policy_event_lem key (some oldnp) index = refl

  delete_policy-Agrees :
      (key : Key) (c : Cluster) → Agrees c → Agrees (follow itoa (delete_policy key) c)
  unfolding follow
  delete_policy-Agrees key c h =
      subst
        (λ index.
          Agrees (record c { policies = delete key c.policies; state = (c.state.0, index) }))
        (sym (delete_policy_event_lem key (lookup key c.policies) c.state.1))
        (policy-Agrees key none (delete key c.policies) c (λ k. lookup-delete k key c.policies) h)

  -- A service whose ports stay the same leaves the index as it is.
  same-Agrees :
      (key : Key) (service : List ServicePort) (o : Option (List ServicePort)) (c : Cluster)
      → lookup key c.services ≡ o
      → same_ports (ports_of_service o) (get_service_target_ports itoa service) ≡ true
      → Agrees c
      → Agrees (record c { services = insert key service c.services })
  same-Agrees key service o c at same h = record {
    by_policy = h.by_policy;
    by_service = λ k pk.
        let here : same_key k key ≡ true
            → has_port pk (ports_of_service (lookup k c.services))
              ≡ has_port pk (ports_of_service o) =
          λ e.
            ap (λ x. has_port pk (ports_of_service (lookup x c.services))) (same_key_iff k key e)
            ∙ ap (λ x. has_port pk (ports_of_service x)) at in
        let left =
          ap (λ x. has_port pk (ports_of_service x)) (lookup-insert k key service c.services)
          ∙ ap (has_port pk)
              (ports_of_service_if (same_key k key) (some service) (lookup k c.services))
          ∙ has_port_if pk (same_key k key) (get_service_target_ports itoa service)
              (ports_of_service (lookup k c.services)) in
        ground (
          arith,
          here,
          left,
          h.by_service k pk,
          has_port-same_ports pk (ports_of_service o) (get_service_target_ports itoa service) same,
        );
    used = h.used;
  }

  set_service_event-Agrees :
      (key : Key) (service : List ServicePort) (o : Option (List ServicePort)) (c : Cluster)
      → lookup key c.services ≡ o
      → Agrees c
      → Agrees (record c {
        services = insert key service c.services;
        state = set_service_event itoa key service o c.state;
      })
  unfolding set_service_event service_added service_updated
  set_service_event-Agrees key service none c at h =
      service-Agrees key none (some service) (insert key service c.services) _ c at
        (λ k. lookup-insert k key service c.services) h
  set_service_event-Agrees key service (some old) c at h =
      let old_ports = get_service_target_ports itoa old in
      let new_ports = get_service_target_ports itoa service in
      elim (Bool-cases (same_ports old_ports new_ports)) [
        | inl e ↦ rw (e, service_updated) (same-Agrees key service (some old) c at e h)
        | inr e ↦
            rw (e, service_updated)
              (service-Agrees key (some old) (some service) (insert key service c.services) _ c at
                (λ k. lookup-insert k key service c.services) h)
      ]

  gone-Agrees :
      (key : Key) (c : Cluster)
      → lookup key c.services ≡ none
      → Agrees c
      → Agrees (record c { services = delete key c.services })
  unfolding update_target_port_index drop_ports add_ports
  gone-Agrees key c at h =
      service-Agrees key none none (delete key c.services) c.state.0 c at
        (λ k. lookup-delete k key c.services) h

  delete_service_event-Agrees :
      (key : Key) (o : Option (List ServicePort)) (c : Cluster)
      → lookup key c.services ≡ o
      → Agrees c
      → Agrees (record c {
        services = delete key c.services;
        state = delete_service_event itoa key o c.state;
      })
  unfolding delete_service_event service_deleted
  delete_service_event-Agrees key none c at h = gone-Agrees key c at h
  delete_service_event-Agrees key (some old) c at h =
      service-Agrees key (some old) none (delete key c.services) _ c at
        (λ k. lookup-delete k key c.services) h

  follow-Agrees : (e : PortEvent) (c : Cluster) → Agrees c → Agrees (follow itoa e c)
  unfolding follow
  follow-Agrees (set_policy key np) c h = set_policy-Agrees key np c h
  follow-Agrees (delete_policy key) c h = delete_policy-Agrees key c h
  follow-Agrees (set_service key service) c h =
      set_service_event-Agrees key service (lookup key c.services) c refl h
  follow-Agrees (delete_service key) c h =
      delete_service_event-Agrees key (lookup key c.services) c refl h

  follow_all_from-Agrees :
      (events : List PortEvent) (c : Cluster) → Agrees c → Agrees (follow_all itoa events c)
  unfolding follow_all
  follow_all_from-Agrees [] c h = h
  follow_all_from-Agrees (e ∷ events) c h =
      follow_all_from-Agrees events (follow itoa e c) (follow-Agrees e c h)

  new_cluster-Agrees : Agrees new_cluster
  unfolding lookup has has_port in_use
  new_cluster-Agrees = record {
    by_policy = λ k pk. refl;
    by_service = λ k pk. refl;
    used = λ pk. refl;
  }

-- After any sequence of changes and deletions of network policies and services, of which the
-- handlers of the two are told, each port in targetPortIndex is there for exactly the network
-- policies that name it in an egress rule without peers, and for exactly the services that have it
-- as a target port, and no entry is left without either.
pub follow_all-Agrees :
    (itoa : ℕ → Key) (events : List PortEvent) → Agrees itoa (follow_all itoa events new_cluster)
follow_all-Agrees itoa events =
    follow_all_from-Agrees itoa events new_cluster (new_cluster-Agrees itoa)

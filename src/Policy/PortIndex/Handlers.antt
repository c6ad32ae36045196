-- ===== src/Policy/PortIndex/Handlers.antt =====
-- What the handlers of network policies in pkg/controller/network_policy.go and of services in
-- services.go do to the index of target ports, and which network policies the latter queue.
use z_presplit_aci_container.Base.{
  ℕ, ◌==◌, Bool, true, false, not, ◌&&◌, List, [], ◌∷◌, Option, none, some, if◌then◌else◌,
}
use z_presplit_aci_container.Base.Maps.{Key, KeyMap, KeySet, same_key, lookup, insert, delete, add}
use z_presplit_aci_container.Policy.{Protocol, tcp, udp, other_protocol}
use z_presplit_aci_container.Policy.PortIndex.{
  TargetPort, PortIndexEntry, PortIndex, update_target_port_index, EgressRule, ServicePort,
  get_net_pol_target_ports, get_service_target_ports,
}

-- `reflect.DeepEqual` on maps of target ports.
unfoldable pub same_proto : Protocol → Protocol → Bool
same_proto tcp tcp = true
same_proto tcp udp = false
same_proto tcp (other_protocol b) = false
same_proto udp tcp = false
same_proto udp udp = true
same_proto udp (other_protocol b) = false
same_proto (other_protocol a) tcp = false
same_proto (other_protocol a) udp = false
same_proto (other_protocol a) (other_protocol b) = same_key a b

unfoldable pub same_port : TargetPort → Option TargetPort → Bool
same_port p none = false
same_port p (some q) = same_proto p.proto q.proto && (p.port == q.port)

unfoldable pub ports_within : KeyMap TargetPort → KeyMap TargetPort → Bool
ports_within [] b = true
ports_within ((k, p) ∷ a) b = same_port p (lookup k b) && ports_within a b

unfoldable pub same_ports : KeyMap TargetPort → KeyMap TargetPort → Bool
same_ports a b = ports_within a b && ports_within b a

unfoldable pub add_keys : KeySet → KeySet → KeySet
add_keys [] queued = queued
add_keys (k ∷ ks) queued = add_keys ks (add k queued)

unfoldable pub queue_entry : Option PortIndexEntry → KeySet → KeySet
queue_entry none queued = queued
queue_entry (some entry) queued = add_keys entry.network_policy_keys queued

-- `queuePortNetPolUpdates`; `queued` is what is in the queue.
unfoldable pub queue_port_net_pol_updates : KeyMap TargetPort → PortIndex → KeySet → KeySet
queue_port_net_pol_updates [] index queued = queued
queue_port_net_pol_updates ((portkey, p) ∷ ports) index queued =
    queue_port_net_pol_updates ports index (queue_entry (lookup portkey index) queued)

-- An event of the cluster: an object of that key is set or deleted.
pub data PortEvent : Type 0 where
  set_policy : Key → List EgressRule → PortEvent
  delete_policy : Key → PortEvent
  set_service : Key → List ServicePort → PortEvent
  delete_service : Key → PortEvent

-- The objects that the informers have, and the controller's index and queue.
pub record Cluster : Type 0 where
  pub policies : KeyMap (List EgressRule)
  pub services : KeyMap (List ServicePort)
  pub state : KeySet × PortIndex

module _ (itoa : ℕ → Key) where
  unfoldable pub network_policy_added : Key → List EgressRule → PortIndex → PortIndex
  network_policy_added npkey np index =
      update_target_port_index false npkey [] (get_net_pol_target_ports itoa np) index

  unfoldable pub network_policy_changed :
      Key → List EgressRule → List EgressRule → PortIndex → PortIndex
  network_policy_changed npkey oldnp newnp index =
      update_target_port_index false npkey (get_net_pol_target_ports itoa oldnp)
        (get_net_pol_target_ports itoa newnp) index

  unfoldable pub network_policy_deleted : Key → List EgressRule → PortIndex → PortIndex
  network_policy_deleted npkey np index =
      update_target_port_index false npkey (get_net_pol_target_ports itoa np) [] index

  unfoldable pub service_added : Key → List ServicePort → KeySet × PortIndex → KeySet × PortIndex
  service_added servicekey service (queued, index) =
      let ports = get_service_target_ports itoa service in
      (
        queue_port_net_pol_updates ports index queued,
        update_target_port_index true servicekey [] ports index,
      )

  unfoldable pub service_updated :
      Key → List ServicePort → List ServicePort → KeySet × PortIndex → KeySet × PortIndex
  service_updated servicekey oldservice newservice (queued, index) =
      let old_ports = get_service_target_ports itoa oldservice in
      let new_ports = get_service_target_ports itoa newservice in
      let queued' = queue_port_net_pol_updates old_ports index queued in
      let index' = update_target_port_index true servicekey old_ports new_ports index in
      if not (same_ports old_ports new_ports)
      then (queue_port_net_pol_updates new_ports index' queued', index')
      else (queued, index)

  unfoldable pub service_deleted : Key → List ServicePort → KeySet × PortIndex → KeySet × PortIndex
  service_deleted servicekey service (queued, index) =
      let ports = get_service_target_ports itoa service in
      let index' = update_target_port_index true servicekey ports [] index in
      (queue_port_net_pol_updates ports index' queued, index')

  unfoldable pub set_policy_event :
      Key → List EgressRule → Option (List EgressRule) → PortIndex → PortIndex
  set_policy_event key np none index = network_policy_added key np index
  set_policy_event key np (some oldnp) index = network_policy_changed key oldnp np index

  unfoldable pub delete_policy_event : Key → Option (List EgressRule) → PortIndex → PortIndex
  delete_policy_event key none index = index
  delete_policy_event key (some oldnp) index = network_policy_deleted key oldnp index

  unfoldable pub set_service_event :
      Key → List ServicePort → Option (List ServicePort) → KeySet × PortIndex → KeySet × PortIndex
  set_service_event key service none state = service_added key service state
  set_service_event key service (some old) state = service_updated key old service state

  unfoldable pub delete_service_event :
      Key → Option (List ServicePort) → KeySet × PortIndex → KeySet × PortIndex
  delete_service_event key none state = state
  delete_service_event key (some old) state = service_deleted key old state

  -- An informer calls the handler of added, changed or deleted objects.
  unfoldable pub follow : PortEvent → Cluster → Cluster
  follow (set_policy key np) c =
      let (queued, index) = c.state in
      record c {
        policies = insert key np c.policies;
        state = (queued, set_policy_event key np (lookup key c.policies) index);
      }
  follow (delete_policy key) c =
      let (queued, index) = c.state in
      record c {
        policies = delete key c.policies;
        state = (queued, delete_policy_event key (lookup key c.policies) index);
      }
  follow (set_service key service) c = record c {
    services = insert key service c.services;
    state = set_service_event key service (lookup key c.services) c.state;
  }
  follow (delete_service key) c = record c {
    services = delete key c.services;
    state = delete_service_event key (lookup key c.services) c.state;
  }

  unfoldable pub follow_all : List PortEvent → Cluster → Cluster
  follow_all [] c = c
  follow_all (e ∷ events) c = follow_all events (follow e c)

abbrev pub new_cluster : Cluster
new_cluster = record { policies = []; services = []; state = ([], []) }

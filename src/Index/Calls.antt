-- ===== src/Index/Calls.antt =====
-- The outer operations of pkg/index/pod_selector_index.go: the namespaces of an object's selectors,
-- the update of every object for a namespace, and the callbacks, as a list of calls.
pub mod Reachable
pub mod Namespaces
pub mod Told
pub mod Examples
use mathlib.Core.Bool.{not}
use z_presplit_aci_container.Base.{
  ◌≡◌, refl, Bool, true, false, ◌&&◌, ◌||◌, List, [], ◌∷◌, ◌++◌, map, Option, none, some,
  if◌then◌else◌,
}
use z_presplit_aci_container.Base.Maps.{Key, KeySet, KeyMap, same_key, member, add, lookup, insert}
use z_presplit_aci_container.Index.{
  Pod, PodSelector, PodSelectorIndex, add_all, update_pod_no_callback, delete_pod,
}
use z_presplit_aci_container.Index.Selecting.{update_selector_obj_for_ns, delete_selector_obj}

-- What the index asks of a selector object: its key, and its selectors.
pub record SelectorObj (Selector : Type 0) : Type 0 where
  pub key : Option Key
  pub selectors : List (PodSelector Selector)

-- Which callbacks are set.
pub record Callbacks : Type 0 where
  pub update_pod : Bool
  pub update_obj : Bool

pub data Call : Type 0 where
  pod_call : Key → Call
  obj_call : Key → Call

pub new_pod_selector_index : {Selector : Type 0} → PodSelectorIndex Selector
new_pod_selector_index = record { pod_index = []; obj_pod_index = []; obj_ns_index = [] }

-- `parse` is `LabelSelectorAsSelector`, with none for an error.
pub pod_selector_from_ns_and_selector :
    {Selector LabelSelector : Type 0}
    → (LabelSelector → Option Selector)
    → Key
    → LabelSelector
    → List (PodSelector Selector)
pod_selector_from_ns_and_selector parse ns selector = elim (parse selector) [
  | none ↦ []
  | some s ↦ record { namespace = some ns; ns_selector = none; pod_selector = s } ∷ []
]

-- `ret[ns] = append(ret[ns], s)`.
pub append_at :
    {Selector : Type 0} → Key → Selector → KeyMap (List Selector) → KeyMap (List Selector)
append_at ns s ret = insert ns ((elim (lookup ns ret) [ none ↦ [] | some ss ↦ ss ]) ++ (s ∷ [])) ret

-- The callbacks of `ListAll`, for the names of the namespaces that it lists.
pub append_each :
    {Selector : Type 0} → List Key → Selector → KeyMap (List Selector) → KeyMap (List Selector)
append_each [] s ret = ret
append_each (ns ∷ names) s ret = append_each names s (append_at ns s ret)

module _ {Selector : Type 0} (list_namespaces : Selector → List Key) where
  -- The body of the loop of `getObjNamespaces`.
  pub add_selector : PodSelector Selector → KeyMap (List Selector) → KeyMap (List Selector)
  add_selector selector ret =
      let named : KeyMap (List Selector) = elim selector.namespace [
        | none ↦ ret
        | some ns ↦ append_at ns selector.pod_selector ret
      ] in
      elim selector.ns_selector [
        | none ↦ named
        | some s ↦ append_each (list_namespaces s) selector.pod_selector named
      ]

  pub add_selectors : List (PodSelector Selector) → KeyMap (List Selector) → KeyMap (List Selector)
  add_selectors [] ret = ret
  add_selectors (selector ∷ selectors) ret = add_selectors selectors (add_selector selector ret)

  pub get_obj_namespaces : SelectorObj Selector → KeyMap (List Selector)
  get_obj_namespaces obj = add_selectors obj.selectors []

-- The variables of `UpdateNamespace`.
pub record NsUpdate (Selector : Type 0) : Type 0 where
  pub index : PodSelectorIndex Selector
  pub updated_pods : KeySet
  pub updated_objs : KeySet

-- The stores of pods and namespaces, the selectors' test, the hash of a pod if there is one, and
-- `reflect.DeepEqual` on the selectors of an object.
pub record Stores (Selector Labels : Type 0) : Type 0 where
  pub matches : Selector → Labels → Bool
  pub list_pods : Key → Selector → List (Pod Labels)
  pub list_namespaces : Selector → List Key
  pub pod_hash_func : Option (Pod Labels → Key)
  pub same_namespaces : KeyMap (List Selector) → KeyMap (List Selector) → Bool

module _ {Selector Labels : Type 0} (stores : Stores Selector Labels) where
  -- The new index, the pods for which `updatePod` is called, and the result.
  pub update_selector_obj_no_callback :
      SelectorObj Selector → PodSelectorIndex Selector → PodSelectorIndex Selector × KeySet × Bool
  update_selector_obj_no_callback obj i = elim obj.key [
    | none ↦ (i, [], false)
    | some key ↦
        update_selector_obj_for_ns stores.list_pods key
          (get_obj_namespaces stores.list_namespaces obj) i
  ]

  -- The body of the loop of `UpdateNamespace`, once the object has a key.
  pub visit_obj : Key → KeyMap (List Selector) → NsUpdate Selector → NsUpdate Selector
  visit_obj key namespaces u =
      let (i, pods, obj_updated) =
        update_selector_obj_for_ns stores.list_pods key namespaces u.index in
      let same : Bool = elim (lookup key u.index.obj_ns_index) [
        | none ↦ false
        | some old ↦ stores.same_namespaces namespaces old
      ] in
      if same then u else (record {
        index = i;
        updated_pods = add_all pods u.updated_pods;
        updated_objs = (if obj_updated then add key u.updated_objs else u.updated_objs);
      })

  pub visit_all : List (SelectorObj Selector) → NsUpdate Selector → NsUpdate Selector
  visit_all [] u = u
  visit_all (obj ∷ objs) u = visit_all objs (elim obj.key [
    | none ↦ u
    | some key ↦ visit_obj key (get_obj_namespaces stores.list_namespaces obj) u
  ])

-- `updatePods`, `updateObjs`: the order in which a Go map gives its keys is not fixed.
pub update_pods : Callbacks → KeySet → List Call
update_pods callbacks updated = if callbacks.update_pod then map pod_call updated else []

pub update_objs : Callbacks → KeySet → List Call
update_objs callbacks updated = if callbacks.update_obj then map obj_call updated else []

-- A call of an operation; the objects of `update_namespace` are those that the store lists.
pub data Operation (Selector Labels : Type 0) : Type 0 where
  update_pod : Pod Labels → Operation Selector Labels
  remove_pod : Pod Labels → Operation Selector Labels
  update_obj : SelectorObj Selector → Operation Selector Labels
  remove_obj : SelectorObj Selector → Operation Selector Labels
  update_namespace : List (SelectorObj Selector) → Operation Selector Labels

-- The call with the key, if it is asked for and there is a key.
pub call_if : Bool → Option Key → (Key → Call) → List Call
call_if false key f = []
call_if true none f = []
call_if true (some key) f = f key ∷ []

module _ {Selector Labels : Type 0} (stores : Stores Selector Labels) (callbacks : Callbacks) where
  -- `UpdatePod`, `DeletePod`, `UpdateSelectorObj`, `DeleteSelectorObj` and `UpdateNamespace`.
  pub perform :
      Operation Selector Labels → PodSelectorIndex Selector → PodSelectorIndex Selector × List Call
  perform (update_pod pod) i =
      let (j, changed, objs) = update_pod_no_callback stores.matches stores.pod_hash_func pod i in
      (j, update_objs callbacks objs ++ call_if (changed && callbacks.update_pod) pod.key pod_call)
  perform (remove_pod pod) i = let (j, objs) = delete_pod pod i in (j, update_objs callbacks objs)
  perform (update_obj obj) i =
      let (j, pods, changed) = update_selector_obj_no_callback stores obj i in
      (j, update_pods callbacks pods ++ call_if (changed && callbacks.update_obj) obj.key obj_call)
  perform (remove_obj obj) i = elim obj.key [
    | none ↦ (i, [])
    | some key ↦ (let (j, pods) = delete_selector_obj key i in (j, update_pods callbacks pods))
  ]
  perform (update_namespace objs) i =
      let u = visit_all stores objs (record { index = i; updated_pods = []; updated_objs = [] }) in
      (u.index, update_pods callbacks u.updated_pods ++ update_objs callbacks u.updated_objs)

  pub perform_all :
      List (Operation Selector Labels) → PodSelectorIndex Selector → PodSelectorIndex Selector
  perform_all [] i = i
  perform_all (o ∷ os) i = perform_all os (perform o i).0

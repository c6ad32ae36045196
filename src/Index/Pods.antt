-- ===== src/Index/Pods.antt =====
-- `UpdatePodNoCallback` and `DeletePod` of pkg/index/pod_selector_index.go: the two maps stay in
-- agreement, and the pod's row of them is the objects that select it.
use mathlib.Core.Bool.{not}
use z_presplit_aci_container.Base.{
  ◌≡◌, refl, Bool, true, false, ◌&&◌, [], Option, none, some, if◌then◌else◌, arith, Bool-cases,
  Option-cases, inl, inr,
}
use z_presplit_aci_container.Base.Maps.{Key, KeySet, same_key, member, lookup, same_key_iff}
use z_presplit_aci_container.Index.{
  Pod, PodSelectorIndex, update_locked, delete_pod, update_pod_no_callback, get_obj_for_pod,
  get_pod_for_obj,
}
use z_presplit_aci_container.Index.Links.{picks-delete}
use z_presplit_aci_container.Index.Drops.{drop_links-IsUnlinked}
use z_presplit_aci_container.Index.Selects.{selects}
use z_presplit_aci_container.Index.Agree.{
  Agrees, picks-update_locked, links-update_locked, updated-update_locked,
}

-- What `DeletePod` leaves of an index, for a pod with the key `key`.
pub record IsPodDeleted {Selector : Type 0} (key : Key) (i i' : PodSelectorIndex Selector)
    (updated : KeySet) : Type 0 where
  pub selectors : i'.obj_ns_index ≡ i.obj_ns_index
  pub objs :
      (pod obj : Key)
      → member obj (get_obj_for_pod pod i')
        ≡ (not (same_key pod key) && member obj (get_obj_for_pod pod i))
  pub pods :
      (obj pod : Key)
      → member pod (get_pod_for_obj obj i')
        ≡ (not (same_key pod key) && member pod (get_pod_for_obj obj i))
  pub reported : (obj : Key) → member obj updated ≡ member obj (get_obj_for_pod key i)

module _ {Selector Labels : Type 0} where
  -- Where the two maps agree, DeletePod on a pod with a key leaves the pod with no object in both
  -- maps, the entries of the other pods and the selectors as they were, and reports exactly the
  -- objects that it had.
  pub delete_pod-IsPodDeleted :
      (pod : Pod Labels) (key : Key) (i : PodSelectorIndex Selector)
      → pod.key ≡ some key
      → Agrees i
      → IsPodDeleted key i (delete_pod pod i).0 (delete_pod pod i).1
  unfolding Agrees get_obj_for_pod get_pod_for_obj delete_pod member
  delete_pod-IsPodDeleted pod key i k w = elim (Option-cases (lookup key i.pod_index)) [
    | inl h ↦
        rw (k, h, delete_pod)
          (record {
            selectors = refl;
            objs = λ p obj. ground (arith, h, same_key_iff p key);
            pods = λ obj p. ground (arith, h, w obj p, same_key_iff p key);
            reported = λ obj. ground (arith, h);
          })
    | inr (st, h) ↦
        let ih = drop_links-IsUnlinked key st.obj_keys i.obj_pod_index [] in
        rw (k, h, delete_pod)
          (record {
            selectors = refl;
            objs = λ p obj. ground (arith, picks-delete i.pod_index key p obj);
            pods = λ obj p. ground (arith, h, ih.linked obj p, w obj key, same_key_iff p key);
            reported = λ obj. ground (arith, h, ih.sound obj, ih.complete obj, w obj key);
          })
  ]

  -- `DeletePod` on any pod, also one that has no key.
  pub delete_pod-Agrees :
      (pod : Pod Labels) (i : PodSelectorIndex Selector) → Agrees i → Agrees (delete_pod pod i).0
  unfolding Agrees get_obj_for_pod get_pod_for_obj delete_pod
  delete_pod-Agrees pod i w = elim (Option-cases pod.key) [
    | inl h ↦ rw (h, delete_pod) w
    | inr (key, h) ↦
        let d = delete_pod-IsPodDeleted pod key i h w in
        λ obj p. ground (arith, d.objs p obj, d.pods obj p, w obj p)
  ]

-- What `UpdatePodNoCallback` leaves of an index, for a pod with the key `key` whose objects are to
-- be those of the test `row`.
pub record IsPodUpdated {Selector : Type 0} (key : Key) (row : Key → Bool)
    (i i' : PodSelectorIndex Selector) (updated : KeySet) : Type 0 where
  pub selectors : i'.obj_ns_index ≡ i.obj_ns_index
  pub objs :
      (pod obj : Key)
      → member obj (get_obj_for_pod pod i')
        ≡ (if same_key pod key then row obj else member obj (get_obj_for_pod pod i))
  pub pods :
      (obj pod : Key)
      → member pod (get_pod_for_obj obj i')
        ≡ (if same_key pod key then row obj else member pod (get_pod_for_obj obj i))
  -- No object is left out whose link to the pod changes.
  pub told :
      (obj : Key)
      → ((if member obj (get_obj_for_pod key i) then not (row obj) else row obj)
          && not (member obj updated))
        ≡ false

-- A pod is kept out of the index by an empty hash.
unfoldable pub is_indexed : {Labels : Type 0} → Option (Pod Labels → Key) → Pod Labels → Bool
is_indexed none pod = true
is_indexed (some hash_func) pod = not (same_key (hash_func pod) "")

module _ {Selector Labels : Type 0} (matches : Selector → Labels → Bool) where
  update_locked-IsPodUpdated :
      (key hash : Key) (pod : Pod Labels) (i : PodSelectorIndex Selector)
      → Agrees i
      → IsPodUpdated key
          (λ obj. selects matches i.obj_ns_index pod obj)
          i
          (update_locked matches key hash pod i).0
          (update_locked matches key hash pod i).2
  unfolding get_obj_for_pod get_pod_for_obj Agrees update_locked
  update_locked-IsPodUpdated key hash pod i w = record {
    selectors = refl;
    objs = λ p obj. picks-update_locked matches key hash pod i obj p;
    pods = λ obj p. links-update_locked matches key hash pod i w obj p;
    told = λ obj. ground (arith, updated-update_locked matches key hash pod i w obj, w obj key);
  }

  -- Where the pod has a key, the update is one under the lock or a deletion.
  update-unhashed :
      (pod : Pod Labels) (key : Key) (i : PodSelectorIndex Selector)
      → pod.key ≡ some key
      → update_pod_no_callback matches none pod i ≡ update_locked matches key "" pod i
  unfolding update_pod_no_callback
  update-unhashed pod key i k = rw k refl

  update-hashed :
      (hash_func : Pod Labels → Key) (pod : Pod Labels) (key : Key) (i : PodSelectorIndex Selector)
      → same_key (hash_func pod) "" ≡ false
      → pod.key ≡ some key
      → update_pod_no_callback matches (some hash_func) pod i
        ≡ update_locked matches key (hash_func pod) pod i
  unfolding update_pod_no_callback
  update-hashed hash_func pod key i h k = simp (h, k)

  update-empty :
      (hash_func : Pod Labels → Key) (pod : Pod Labels) (i : PodSelectorIndex Selector)
      → same_key (hash_func pod) "" ≡ true
      → update_pod_no_callback matches (some hash_func) pod i
        ≡ ((delete_pod pod i).0, false, (delete_pod pod i).1)
  unfolding update_pod_no_callback
  update-empty hash_func pod i h = rw h refl

  pub update-keyless :
      (hash_func : Option (Pod Labels → Key)) (pod : Pod Labels) (i : PodSelectorIndex Selector)
      → pod.key ≡ none
      → (update_pod_no_callback matches hash_func pod i).0 ≡ i
  unfolding update_pod_no_callback delete_pod
  update-keyless none pod i k = rw k refl
  update-keyless (some hash_func) pod i k = elim (Bool-cases (same_key (hash_func pod) "")) [
    | inl h ↦ rw (h, k) refl
    | inr h ↦ rw (h, k) refl
  ]

  -- Where the two maps agree, UpdatePodNoCallback on a pod with a key leaves, in both maps, the
  -- pod with exactly the objects that have a selector for its namespace that matches its labels,
  -- or with none if the hash function gives an empty hash; the entries of the other pods and the
  -- selectors stay as they were, and no object is left out of the calls of updateObj whose link to
  -- the pod changes.
  pub update_pod_no_callback-IsPodUpdated :
      (hash_func : Option (Pod Labels → Key)) (pod : Pod Labels) (key : Key)
      (i : PodSelectorIndex Selector)
      → pod.key ≡ some key
      → Agrees i
      → IsPodUpdated key
          (λ obj. is_indexed hash_func pod && selects matches i.obj_ns_index pod obj)
          i
          (update_pod_no_callback matches hash_func pod i).0
          (update_pod_no_callback matches hash_func pod i).2
  unfolding is_indexed
  update_pod_no_callback-IsPodUpdated none pod key i k w =
      rw (update-unhashed pod key i k) (update_locked-IsPodUpdated key "" pod i w)
  update_pod_no_callback-IsPodUpdated (some hash_func) pod key i k w =
      elim (Bool-cases (same_key (hash_func pod) "")) [
        | inl h ↦
            let d = delete_pod-IsPodDeleted pod key i k w in
            rw (update-empty hash_func pod i h, h)
              (record {
                selectors = d.selectors;
                objs = λ p obj. ground (arith, d.objs p obj);
                pods = λ obj p. ground (arith, d.pods obj p);
                told = λ obj. ground (arith, d.reported obj);
              })
        | inr h ↦
            rw (is_indexed, h, update-hashed hash_func pod key i h k)
              (update_locked-IsPodUpdated key (hash_func pod) pod i w)
      ]

  pub update_pod_no_callback-Agrees :
      (hash_func : Option (Pod Labels → Key)) (pod : Pod Labels) (i : PodSelectorIndex Selector)
      → Agrees i
      → Agrees (update_pod_no_callback matches hash_func pod i).0
  unfolding Agrees get_obj_for_pod get_pod_for_obj
  update_pod_no_callback-Agrees hash_func pod i w = elim (Option-cases pod.key) [
    | inl h ↦ rw (update-keyless hash_func pod i h) w
    | inr (key, h) ↦
        let d = update_pod_no_callback-IsPodUpdated hash_func pod key i h w in
        λ obj p. ground (arith, d.objs p obj, d.pods obj p, w obj p)
  ]

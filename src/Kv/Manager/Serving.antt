-- ===== src/Kv/Manager/Serving.antt =====
-- Whatever order the steps of pkg/keyvalueservice/manager.go come in, no change is lost on a watch
-- request that waits.
use z_presplit_aci_container.Base.{
  ◌≡◌, ◌⊎◌, ◌∙◌, refl, sym, ap, ap₂, subst, true, false, List, [], ◌∷◌, none, some, Option, All,
  if◌then◌else◌, Bool-cases, Option-cases, inl, inr, arith,
}
use z_presplit_aci_container.Base.Maps.{
  Key, lookup, insert, member, same_key, same_key_iff, same_key_sym, lookup-insert,
}
use z_presplit_aci_container.Kv
use z_presplit_aci_container.Kv.{KvNamespace, new_kv_namespace, find_updated_after, delete_key}
use z_presplit_aci_container.Kv.Manager.{
  WatchReq, WatchRes, KvManager, set, delete, process, reply, request_namespace,
  get_or_create_namespace,
}

abbrev pub Named : Key → List WatchReq → Type 0
Named ns = All (λ r. r.namespace ≡ ns)

module _ {V : Type 0} where
  -- There is nothing new for any of the requests.
  abbrev pub Settled : KvManager V → List WatchReq → Type 0
  Settled m = All (λ r. process m r ≡ none)

  -- The pending requests of a namespace have nothing new, or a change of it is still to be taken.
  pub record Waits (m : KvManager V) (changed : List Key) (ns : Key) (reqs : List WatchReq)
      : Type 0 where
    pub named : Named ns reqs
    pub settled : Settled m reqs ⊎ (member ns changed ≡ true)

  pub record NoneLost (m : KvManager V) (changed : List Key) : Type 0 where
    pub waits :
        (ns : Key) (reqs : List WatchReq)
        → lookup ns m.pending ≡ some reqs
        → Waits m changed ns reqs
    pub stopped : m.serving_watch ≡ false → (ns : Key) → lookup ns m.pending ≡ none

  -- A step that leaves the loop alone, and gives no news outside of some namespaces.
  pub record Outside (P : Key → Type 0) (m m' : KvManager V) : Type 0 where
    pending : m'.pending ≡ m.pending
    serving : m'.serving_watch ≡ m.serving_watch
    same : (r : WatchReq) → P r.namespace → process m' r ≡ process m r

  -- The reply to a request depends on its own namespace only.
  process_same :
      (m m' : KvManager V) (r : WatchReq)
      → m'.max_retained ≡ m.max_retained
      → lookup r.namespace m'.namespaces ≡ lookup r.namespace m.namespaces
      → process m' r ≡ process m r
  unfolding process request_namespace
  process_same m m' r size same =
      ap₂
        (λ o k. reply (
          find_updated_after r.version
            (elim o [ some ns ↦ ns | none ↦ new_kv_namespace r.namespace k ])))
        same size

  created_same :
      (ns : Key) (m : KvManager V) (r : WatchReq)
      → lookup ns m.namespaces ≡ none
      → process
          (record m { namespaces = insert ns (new_kv_namespace ns m.max_retained) m.namespaces })
          r
        ≡ process m r
  unfolding process request_namespace
  created_same ns m r h = elim (Bool-cases (same_key ns r.namespace)) [
    | inr other ↦
        process_same m
          (record m { namespaces = insert ns (new_kv_namespace ns m.max_retained) m.namespaces }) r
          refl
          (lookup-insert r.namespace ns (new_kv_namespace ns m.max_retained) m.namespaces
            ∙ ground (arith, other, same_key_sym ns r.namespace))
    | inl same ↦
        let is : ns ≡ r.namespace = same_key_iff ns r.namespace same in
        let there : lookup r.namespace (insert ns (new_kv_namespace ns m.max_retained) m.namespaces)
            ≡ some (new_kv_namespace ns m.max_retained) =
          lookup-insert r.namespace ns (new_kv_namespace ns m.max_retained) m.namespaces
          ∙ ground (arith, same, same_key_sym ns r.namespace) in
        let answer : Option (KvNamespace V) → Option (WatchRes V) = λ o. reply (
          find_updated_after r.version
            (elim o [ some ns ↦ ns | none ↦ new_kv_namespace r.namespace m.max_retained ])) in
        ap answer there
        ∙ ap (λ j. reply (find_updated_after r.version (new_kv_namespace j m.max_retained))) is
        ∙ ap answer (sym (subst (λ j. lookup j m.namespaces ≡ none) is h))
  ]

  -- A namespace that is created has no news.
  pub created :
      (ns : Key) (m : KvManager V) → Outside (λ j. Unit) m (get_or_create_namespace ns m).1
  unfolding get_or_create_namespace
  created ns m = elim (Option-cases (lookup ns m.namespaces)) [
    | inr (n, h) ↦
        rw (h, get_or_create_namespace)
          (record { pending = refl; serving = refl; same = λ r u. refl })
    | inl h ↦
        rw (h, get_or_create_namespace)
          (record { pending = refl; serving = refl; same = λ r u. created_same ns m r h })
  ]

  Settled-same :
      (P : Key → Type 0) (m m' : KvManager V) (ns : Key) (reqs : List WatchReq)
      → Outside P m m'
      → P ns
      → Named ns reqs
      → Settled m reqs
      → Settled m' reqs
  Settled-same P m m' ns [] o p n s = tt
  Settled-same P m m' ns (r ∷ reqs) o p n s =
      (o.same r (subst P (sym n.0) p) ∙ s.0, Settled-same P m m' ns reqs o p n.1 s.1)

  changed-NoneLost :
      (m m' : KvManager V) (changed : List Key) (ns : Key)
      → Outside (λ j. same_key ns j ≡ false) m m'
      → NoneLost m changed
      → NoneLost m' (ns ∷ changed)
  unfolding member
  changed-NoneLost m m' changed ns o l = record {
    waits = λ j reqs e.
        let w = l.waits j reqs (sym (ap (lookup j) o.pending) ∙ e) in
        record {
          named = w.named;
          settled = elim (Bool-cases (same_key ns j)) [
            | inl is ↦ inr (ground (arith, is, same_key_sym ns j))
            | inr other ↦ elim (w.settled) [
              | inl s ↦
                  inl (Settled-same (λ i. same_key ns i ≡ false) m m' j reqs o other w.named s)
              | inr c ↦ inr (ground (arith, c, other, same_key_sym ns j))
            ]
          ];
        };
    stopped = λ e j. ap (lookup j) o.pending ∙ l.stopped (sym o.serving ∙ e) j;
  }

  pub same-NoneLost :
      (m m' : KvManager V) (changed : List Key)
      → Outside (λ j. Unit) m m'
      → NoneLost m changed
      → NoneLost m' changed
  same-NoneLost m m' changed o l = record {
    waits = λ j reqs e.
        let w = l.waits j reqs (sym (ap (lookup j) o.pending) ∙ e) in
        record {
          named = w.named;
          settled = elim (w.settled) [
            | inl s ↦ inl (Settled-same (λ i. Unit) m m' j reqs o tt w.named s)
            | inr c ↦ inr c
          ];
        };
    stopped = λ e j. ap (lookup j) o.pending ∙ l.stopped (sym o.serving ∙ e) j;
  }

  pub set-NoneLost :
      (ns key : Key) (value : V) (m : KvManager V) (changed : List Key)
      → NoneLost m changed
      → NoneLost (set ns key value m) (ns ∷ changed)
  unfolding set
  set-NoneLost ns key value m changed l =
      let (n, m') = get_or_create_namespace ns m in
      changed-NoneLost m' (set ns key value m) changed ns
        (record {
          pending = refl;
          serving = refl;
          same = λ r other. process_same m' (set ns key value m) r refl (
              lookup-insert r.namespace ns (Kv.set key value n) m'.namespaces
              ∙ ground (arith, other, same_key_sym ns r.namespace));
        })
        (same-NoneLost m m' changed (created ns m) l)

  -- A namespace put back as it was.
  put_back :
      (ns : Key) (n : KvNamespace V) (m : KvManager V)
      → lookup ns m.namespaces ≡ some n
      → Outside (λ j. Unit) m (record m { namespaces = insert ns n m.namespaces })
  put_back ns n m h = record {
    pending = refl;
    serving = refl;
    same = λ r u.
        process_same m (record m { namespaces = insert ns n m.namespaces }) r refl
          (lookup-insert r.namespace ns n m.namespaces
            ∙ ground (arith, h, same_key_iff r.namespace ns));
  }

  pub delete-NoneLost :
      (ns key : Key) (m : KvManager V) (changed : List Key)
      → NoneLost m changed
      → NoneLost (delete ns key m).1 (if (delete ns key m).0 then ns ∷ changed else changed)
  unfolding delete delete_key
  delete-NoneLost ns key m changed l = elim (Option-cases (lookup ns m.namespaces)) [
    | inl h ↦ rw (h, delete) l
    | inr (n, h) ↦ elim (Option-cases (lookup key n.store)) [
      | inl e ↦
          rw (h, delete, e, delete_key)
            (same-NoneLost m (record m { namespaces = insert ns n m.namespaces }) changed
              (put_back ns n m h) l)
      | inr (v, e) ↦
          let n' = (delete_key key n).1 in
          let m' = record m { namespaces = insert ns n' m.namespaces } in
          let o : Outside (λ j. same_key ns j ≡ false) m m' = record {
            pending = refl;
            serving = refl;
            same = λ r other. process_same m m' r refl (
                lookup-insert r.namespace ns n' m.namespaces
                ∙ ground (arith, other, same_key_sym ns r.namespace));
          } in
          rw (h, delete, e, delete_key)
            (subst
              (λ d. NoneLost (record m { namespaces = insert ns d m.namespaces }) (ns ∷ changed))
              (let unfolded : n' ≡ _ = rw (e, delete_key) refl in unfolded)
              (changed-NoneLost m m' changed ns o l))
    ]
  ]

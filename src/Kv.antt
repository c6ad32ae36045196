-- ===== src/Kv.antt =====
-- pkg/keyvalueservice/namespace.go: a store of versioned values with the log of its latest changes.
pub mod Log
pub mod Holds
pub mod Updates
pub mod Manager
pub mod Watcher
pub mod Examples
use z_presplit_aci_container.Base.{
  ℕ, zero, suc, ◌+◌, ◌-◌, ◌*◌, ◌^◌, ◌%◌, Bool, true, false, not, ◌&&◌, List, [], ◌∷◌, ◌++◌, map,
  Option, none, some, length, get_or, take, drop, ◌==◌, ltb, leb, if◌then◌else◌, sort_search,
}
use z_presplit_aci_container.Base.Maps.{Key, KeyMap, same_key, lookup, insert, delete}

pub record KvNsValue (V : Type 0) : Type 0 where
  pub value : V
  pub version : ℕ

pub data Op : Type 0 where
  op_set : Op
  op_delete : Op

pub record KvChange (V : Type 0) : Type 0 where
  pub key : Key
  pub value : KvNsValue V
  pub action : Op

pub record KvNamespace (V : Type 0) : Type 0 where
  pub name : Key
  pub store : KeyMap (KvNsValue V)
  pub change_log : List (KvChange V)
  pub last_version : ℕ
  pub max_retained : ℕ
  pub last_expired_change : ℕ

-- Nothing sets `version` to another number than 0.
pub record KvItem (V : Type 0) : Type 0 where
  pub key : Key
  pub value : V
  pub version : ℕ

pub record KvAction (V : Type 0) : Type 0 where
  pub action : Op
  pub item : KvItem V

pub data KvError : Type 0 where
  internal : KvError
  version_too_old : KvError
  not_found : KvError

pub data Result {ℓ} (A : Type ℓ) : Type ℓ where
  ok : A → Result A
  err : KvError → Result A

-- `LastVersion + 1` on 64 bits.
unfoldable pub next_version : ℕ → ℕ
next_version v = (v + 1) % 2 ^ 64

module _ {V : Type 0} where
  unfoldable pub new_kv_namespace : Key → ℕ → KvNamespace V
  new_kv_namespace name max_retained = record {
    name = name;
    store = [];
    change_log = [];
    last_version = 0;
    max_retained = max_retained;
    last_expired_change = 0;
  }

  -- `ChangeLog[i].Value.Version` and `ChangeLog[i].Key`.
  unfoldable pub version_at : List (KvChange V) → ℕ → ℕ
  version_at log i = get_or (map (λ c. c.value.version) log) i 0

  unfoldable pub key_at : List (KvChange V) → ℕ → Key
  key_at log i = get_or (map (λ c. c.key) log) i ""

  -- The two searches of `logChange`, with the length of the log for no match.
  unfoldable pub find_version : List (KvChange V) → ℕ → ℕ
  find_version log oldver =
      let oldi = sort_search (length log) (λ i. leb oldver (version_at log i)) in
      if ltb oldi (length log) && not (version_at log oldi == oldver) then length log else oldi

  -- The loop over the last `n` positions, backwards.
  unfoldable pub find_key_below : List (KvChange V) → Key → ℕ → ℕ
  find_key_below log key zero = length log
  find_key_below log key (suc i) =
      let rest = find_key_below log key i in if same_key (key_at log i) key then i else rest

  -- `copy(ChangeLog[oldi:], ChangeLog[oldi+1:])`, then all but the last element.
  unfoldable pub remove_change : ℕ → List (KvChange V) → List (KvChange V)
  remove_change oldi log =
      let sz = length log in
      let moved =
        if ltb oldi (sz - 1)
        then take oldi log ++ (drop (oldi + 1) log ++ drop (sz - 1) log)
        else log in
      if ltb oldi sz then take (sz - 1) moved else log

  -- The part of `logChange` that removes the key's older change.
  unfoldable pub remove_old : Key → ℕ → List (KvChange V) → List (KvChange V)
  remove_old key oldver log =
      remove_change
        (if not (oldver == 0) then find_version log oldver else find_key_below log key (length log))
        log

  -- The part that drops the older half of a log that has become too long.
  unfoldable pub purge : KvNamespace V → KvNamespace V
  purge n =
      if leb (2 * n.max_retained) (length n.change_log)
      then record n {
        last_expired_change = version_at n.change_log (n.max_retained - 1);
        change_log = drop n.max_retained n.change_log;
      }
      else n

  unfoldable pub log_change : Key → KvNsValue V → ℕ → Op → KvNamespace V → KvNamespace V
  log_change key val oldver op n =
      let n' = purge (record n { change_log = remove_old key oldver n.change_log }) in
      record n' {
        change_log = n'.change_log ++ (record { key = key; value = val; action = op } ∷ []);
      }

  unfoldable pub old_version : Option (KvNsValue V) → ℕ
  old_version none = 0
  old_version (some v) = v.version

  unfoldable pub set : Key → V → KvNamespace V → KvNamespace V
  set key value n =
      let version = next_version n.last_version in
      let newv : KvNsValue V = record { value = value; version = version } in
      log_change key newv (old_version (lookup key n.store)) op_set
        (record n { last_version = version; store = insert key newv n.store })

  unfoldable pub get : Key → KvNamespace V → Result (KvItem V)
  get key n = elim (lookup key n.store) [
    | none ↦ err not_found
    | some v ↦ ok (record { key = key; value = v.value; version = 0 })
  ]

  -- Whether the key was there, with its value and the version of the change.
  unfoldable pub delete_key : Key → KvNamespace V → Option (V × ℕ) × KvNamespace V
  delete_key key n = elim (lookup key n.store) [
    | none ↦ (none, n)
    | some oldv ↦
        let version = next_version n.last_version in
        (
          some (oldv.value, version),
          log_change key (record { value = oldv.value; version = version }) oldv.version op_delete
              (record n { store = delete key n.store; last_version = version }),
        )
  ]

  -- The body of the loop of `FindUpdatedAfter`.
  unfoldable pub action_of : KvChange V → KvAction V
  action_of c = record {
    action = c.action;
    item = record { key = c.key; value = c.value.value; version = 0 };
  }

  unfoldable pub find_updated_after : ℕ → KvNamespace V → Result (ℕ × List (KvAction V))
  find_updated_after version n =
      let start =
        sort_search (length n.change_log) (λ i. ltb version (version_at n.change_log i)) in
      if leb n.last_version version
      then ok (n.last_version, [])
      else (if ltb 0 n.last_expired_change && leb version n.last_expired_change
          then err version_too_old
          else ok (n.last_version, map action_of (drop start n.change_log)))

  unfoldable pub get_all : KvNamespace V → ℕ × List (KvItem V)
  get_all n =
      (n.last_version, map (λ e. record { key = e.0; value = e.1.value; version = 0 }) n.store)

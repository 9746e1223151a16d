-- ===== src/Discovery/Scoped.antt =====
-- The scope of discovery (chatx5/core/discovery.py): on which transport an announce is taken, that a row
-- that is stored for the LAN is in scope, and what becomes of a peer that is not.
use mathlib.Core.Path.{subst}
use chatx.Discovery.Removal.{remove_peer_entry}
use chatx.Prelude.{
  ◌≡◌, sym, ap, ◌∙◌, ◌⊎◌, inl, inr, Bool, true, false, some, List, [], ◌∷◌, arith, if◌then◌else◌,
  Bool-cases, nat_eq, if_both, option_both,
}
use chatx.Text.{Str, codes, truthy, strip, str_eq, str_beq, str_beq_iff}
use chatx.Text.Laws.{strip_idem, str_beq_refl}
use chatx.Dict.{lookup, insert}
use chatx.Dict.Laws.{lookup-insert}
use chatx.Hash.{normalize_hash}
use chatx.Scope.{peer_in_scope}
use chatx.Discovery.{
  Row, State, Env, scope_ip, is_serial, peer_storage_key, index_peer, peer_keys_for_hash, effect,
  registered, evicted, is_empty,
}
use chatx.Discovery.Rows.{attach_peer_ip, sanitize_peer_scope}
use chatx.Discovery.Probing.{change_row, change_rows, for_hash, reset_peer_probe_state, alive}
use chatx.Discovery.Choice.{peers-peer_keys_for_hash}
use chatx.Discovery.Store.{
  store_allowed, evict_superseded_peers, merge_ip, merge_names, merge_rest, stored_row, merge_at,
  place, with_lan_ip,
}
use chatx.Discovery.Announce.{classify}

-- An announce is taken for the serial link only while that is up, and then without an address; on the
-- LAN it is taken only with an address, which is in the scope if there is one.
pub classify_lem :
    (env : Env) (fam ip via ip' : Str)
    → classify env fam ip ≡ some (via, ip')
    → ((via ≡ codes "serial") × (ip' ≡ []) × (env.serial_active ≡ true))
      ⊎ ((via ≡ codes "rns")
          × (ip' ≡ ip)
          × (truthy ip ≡ true)
          × ((truthy (scope_ip env) ≡ false) ⊎ (peer_in_scope ip (scope_ip env) ≡ true)))
unfolding classify
classify_lem env fam ip via ip' taken = ground arith

-- A row for the LAN passes under a scope only with an address in it.
pub sanitized :
    (env : Env) (s : State) (row r : Row)
    → is_serial row ≡ false
    → truthy (scope_ip env) ≡ true
    → sanitize_peer_scope env s row ≡ some r
    → (truthy (strip r.ip) ≡ true) × (peer_in_scope (strip r.ip) (scope_ip env) ≡ true)
unfolding sanitize_peer_scope
sanitized env s row r lan scope passed = ground arith

module _ (env : Env) where
  abbrev pub InScope : Row → Type 0
  InScope row = peer_in_scope (strip row.ip) (scope_ip env) ≡ true

  merge_ip-InScope :
      (row e e' : Row)
      → truthy (strip row.ip) ≡ true
      → InScope row
      → merge_ip env row e ≡ some e'
      → InScope e'
  unfolding merge_ip
  merge_ip-InScope row e e' has inside merged =
      ground (arith, strip_idem row.ip, str_beq_iff (strip row.ip) (strip e.ip))

  merge_rest-ip : (hash_hex : Str) (row e : Row) → (merge_rest hash_hex row e).ip ≡ e.ip
  unfolding merge_names
  merge_rest-ip hash_hex row e = ground arith

  with_lan_ip_of :
      (s : State) (row : Row)
      → truthy (strip row.ip) ≡ true
      → is_serial row ≡ false
      → with_lan_ip env s row ≡ row
  unfolding attach_peer_ip
  with_lan_ip_of s row has lan = ground arith

-- A row under a key with an address in scope.
abbrev pub StoredIn : Env → Str → State → Type 0
StoredIn env k s = (r : Row) × (lookup k s.peers ≡ some r) × InScope env r

module _ (env : Env) (k : Str) where
  change_row-StoredIn :
      (j : Str) (s : State) → StoredIn env k s → StoredIn env k (change_row (alive env) j s)
  unfolding change_row
  change_row-StoredIn j s (r, at, inside) =
      option_both (StoredIn env k) (lookup j s.peers) s _ (λ free. (r, at, inside))
        (λ e there. elim (Bool-cases (str_beq j k)) [
          | inl same ↦ (
            alive env e,
            lookup-insert k j (alive env e) s.peers ∙ ground arith,
            ground (arith, str_beq_iff j k),
          )
          | inr other ↦ (r, lookup-insert k j (alive env e) s.peers ∙ ground arith, inside)
        ])

  change_rows-StoredIn :
      (js : List Str) (s : State) → StoredIn env k s → StoredIn env k (change_rows (alive env) js s)
  unfolding change_rows
  change_rows-StoredIn [] s h = h
  change_rows-StoredIn (j ∷ js) s h =
      change_rows-StoredIn js (change_row (alive env) j s) (change_row-StoredIn j s h)

  reset-StoredIn :
      (h : Str) (s : State) → StoredIn env k s → StoredIn env k (reset_peer_probe_state env h s)
  unfolding reset_peer_probe_state for_hash
  reset-StoredIn h s stored =
      let keys = peer_keys_for_hash (normalize_hash h) s in
      if_both (StoredIn env k) (truthy (normalize_hash h)) _ s
        (λ has. change_rows-StoredIn keys.0 keys.1 (
          stored.0,
          ap (lookup k) (peers-peer_keys_for_hash (normalize_hash h) s) ∙ stored.1,
          stored.2,
        ))
        (λ lacks. stored)

  stored_row-StoredIn :
      (h : Str) (row : Row) (s : State)
      → StoredIn env k s
      → StoredIn env k (stored_row env h k row s)
  stored_row-StoredIn h row s stored = reset-StoredIn h _ (
      if_both (StoredIn env k) (truthy row.ip) (effect (registered row.ip) s) s (λ has. stored)
        (λ lacks. stored))

-- The key under which a successful store leaves a row in scope.
unfoldable pub Success : Env → Str → Bool × State → Type 0
Success env k r = r.0 ≡ true → StoredIn env k r.1

pub failed : (env : Env) (k : Str) (s : State) → Success env k (false, s)
unfolding Success
failed env k s h = absurd (ground arith)

module _ (env : Env) (hash_hex : Str) (row : Row) (has : truthy (strip row.ip) ≡ true)
    (inside : InScope env row) where
  merge_at-Success :
      (key : Str) (e : Row) (s : State) → Success env key (merge_at env hash_hex key row e s)
  unfolding merge_ip Success
  merge_at-Success key e s =
      option_both (Success env key) (merge_ip env row e) _ _
        (λ out. failed env key (remove_peer_entry key s))
        (λ e' merged done.
          let m = merge_rest hash_hex row e' in
          stored_row-StoredIn env key hash_hex m (record s { peers = insert key m s.peers })
            (
              m,
              lookup-insert key key m s.peers ∙ ground (arith, str_beq_refl key),
              ap (λ ip. peer_in_scope (strip ip) (scope_ip env)) (merge_rest-ip env hash_hex row e')
                  ∙ merge_ip-InScope env row e e' has inside merged,
            ))

  place-Success : (key : Str) (s : State) → Success env key (place env hash_hex key row s)
  unfolding index_peer Success
  place-Success key s =
      option_both (Success env key) (lookup key s.peers) _ _
        (λ free done.
          stored_row-StoredIn env key hash_hex row
            (index_peer key row (record s { peers = insert key row s.peers }))
            (row, lookup-insert key key row s.peers ∙ ground (arith, str_beq_refl key), inside))
        (λ e there. merge_at-Success key e s)

  pub store_allowed-Success :
      is_serial row ≡ false
      → (s : State) → Success env (peer_storage_key row) (store_allowed env hash_hex row s)
  unfolding store_allowed evict_superseded_peers Success
  store_allowed-Success lan s =
      let r = evict_superseded_peers env row s in
      let s' = if is_empty r.0.0 then r.1 else effect (evicted r.0.0 (some r.0.1)) r.1 in
      let same = with_lan_ip_of env s row has lan in
      subst
        (λ row'. Success env (peer_storage_key row) (
          if truthy (peer_storage_key row')
          then place env hash_hex (peer_storage_key row') row' s'
          else (false, s')))
        (sym same)
        (if_both (Success env (peer_storage_key row)) (truthy (peer_storage_key row)) _ _
          (λ keyed. place-Success (peer_storage_key row) s')
          (λ unkeyed. failed env (peer_storage_key row) s'))

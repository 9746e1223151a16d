-- ===== src/Discovery/Storing.antt =====
-- To store a row keeps the discovery table well-formed, whatever row it is (`_store_peer` of
-- chatx5/core/discovery.py).
use chatx.Discovery.Removal.{remove_peer_entry}
use chatx.Prelude.{
  ◌≡◌, refl, ◌∙◌, Bool, true, false, not, ◌&&◌, ◌||◌, some, List, [], ◌∷◌, arith, nat_eq, contains,
  keep, if_both, option_both,
}
use chatx.Text.{lower, strip, remove_char, Str, truthy, or_else, str_eq, remove_char}
use chatx.Dict.{lookup}
use chatx.Hash.{normalize_hash, normalize_hash_idem}
use chatx.Discovery.{
  Row, State, Env, effect, evicted, index_hashes_for_peer, scope_ip, pop_peer_key, or_empty_row,
  keys_of, is_local_hash, peer_storage_key, is_empty, lower, strip,
}
use chatx.Discovery.Invariant.{
  RowOk, Table, WellFormed, effect-Table, pop_peer_key-Table, add-Table, change-Table, foreign,
  Locals, locals,
}
use chatx.Discovery.Preserved.{
  Kept, kept, kept_pair, if_kept, if_table, remove_peer_entry-Table, sweep-Kept, for_hash-Table,
}
use chatx.Discovery.Rows.{attach_peer_ip, sanitize_peer_scope}
use chatx.Discovery.Probing.{reset_peer_probe_state, alive}
use chatx.Discovery.Store.{
  superseded, evict_loop, evict_superseded_peers, merge_ip, merge_names, merge_rest, stored_row,
  merge_at, place, store_allowed, reject_peer, prepared, store_peer, with_lan_ip,
}

-- What names the row: its hash, its transport and its identity.
abbrev pub SameName : Row → Row → Type 0
SameName a b = (a.hash ≡ b.hash) × (a.via ≡ b.via) × (a.identity_hash ≡ b.identity_hash)

-- An address does not change what a row is called.
attach_peer_ip-SameName :
    (env : Env) (scope_only : Bool) (s : State) (row : Row)
    → SameName (attach_peer_ip env scope_only s row) row
unfolding attach_peer_ip
attach_peer_ip-SameName env scope_only s row = ground arith

with_lan_ip-SameName : (env : Env) (s : State) (row : Row) → SameName (with_lan_ip env s row) row
with_lan_ip-SameName env s row =
    ground (arith, attach_peer_ip-SameName env (truthy (scope_ip env)) s row)

pub sanitize_peer_scope-SameName :
    (env : Env) (s : State) (row row' : Row)
    → sanitize_peer_scope env s row ≡ some row'
    → SameName row' row
unfolding sanitize_peer_scope
sanitize_peer_scope-SameName env s row row' h =
    ground (arith, attach_peer_ip-SameName env true s row)

merge_ip-SameName : (env : Env) (row e e' : Row) → merge_ip env row e ≡ some e' → SameName e' e
unfolding merge_ip
merge_ip-SameName env row e e' h = ground arith

-- The merged row keeps its hash and its transport, and its identity where it has one.
merge_rest-names :
    (hash_hex : Str) (row e : Row)
    → ((merge_rest hash_hex row e).hash ≡ e.hash)
      × ((merge_rest hash_hex row e).via ≡ e.via)
      × ((merge_rest hash_hex row e).identity_hash ≡ or_else e.identity_hash row.identity_hash)
unfolding merge_names
merge_rest-names hash_hex row e = ground arith

-- A row may be stored under a hash: the hash is normalised and foreign, and so is its identity.
pub record Storable (local : Locals) (hash_hex : Str) (row : Row) : Type 0 where
  pub same : row.hash ≡ hash_hex
  pub normal : normalize_hash hash_hex ≡ hash_hex
  pub has_hash : truthy hash_hex ≡ true
  pub foreign_hash : contains hash_hex local.avoid ≡ false
  pub foreign_identity : foreign local.avoid row.identity_hash ≡ true

module _ (local : Locals) where
  Storable-SameName :
      (hash_hex : Str) (a b : Row)
      → SameName a b
      → Storable local hash_hex b
      → Storable local hash_hex a
  Storable-SameName hash_hex a b names ok = record {
    same = names.0 ∙ ok.same;
    normal = ok.normal;
    has_hash = ok.has_hash;
    foreign_hash = ok.foreign_hash;
    foreign_identity = rw (names.2) ok.foreign_identity;
  }

  Storable-RowOk :
      (hash_hex : Str) (row : Row)
      → Storable local hash_hex row
      → RowOk local (peer_storage_key row) row
  Storable-RowOk hash_hex row ok = record {
    keyed = refl;
    normal = rw ok.same ok.normal;
    has_hash = rw ok.same ok.has_hash;
    foreign_hash = rw ok.same ok.foreign_hash;
    foreign_identity = ok.foreign_identity;
  }

  stored_row-Table :
      (env : Env) (hash_hex key : Str) (row : Row) (s : State)
      → Table local s
      → Table local (stored_row env hash_hex key row s)
  unfolding reset_peer_probe_state
  stored_row-Table env hash_hex key row s t = effect-Table local _ _ (
      for_hash-Table local (alive env) (λ r. (refl, refl, refl)) hash_hex _
        (if_table local (truthy row.ip) _ s (effect-Table local _ s t) t))

  -- The row as it is merged into the one that is there.
  merged-RowOk :
      (hash_hex key : Str) (row e : Row)
      → Storable local hash_hex row
      → RowOk local key e
      → RowOk local key (merge_rest hash_hex row e)
  merged-RowOk hash_hex key row e ok there =
      let names = merge_rest-names hash_hex row e in
      record {
        keyed = there.keyed ∙ cc (names.0, names.1);
        normal = rw names.0 there.normal;
        has_hash = rw names.0 there.has_hash;
        foreign_hash = rw names.0 there.foreign_hash;
        foreign_identity = rw names.2 (
            if_both (λ i. foreign local.avoid i ≡ true) (truthy e.identity_hash) e.identity_hash
              row.identity_hash (λ has. there.foreign_identity) (λ lacks. ok.foreign_identity));
      }

  named-RowOk : (key : Str) (a b : Row) → SameName a b → RowOk local key b → RowOk local key a
  named-RowOk key a b names ok = record {
    keyed = ok.keyed ∙ cc (names.0, names.1);
    normal = rw names.0 ok.normal;
    has_hash = rw names.0 ok.has_hash;
    foreign_hash = rw names.0 ok.foreign_hash;
    foreign_identity = rw names.2 ok.foreign_identity;
  }

  no_hash : normalize_hash [] ≡ []
  unfolding normalize_hash lower strip remove_char
  no_hash = refl

  -- What the index knows of a row it knows of the merged row.
  merged_more :
      (hash_hex key : Str) (row e e' : Row)
      → SameName e' e
      → (h : Str) → contains h (index_hashes_for_peer key e) ≡ true
      → contains h (index_hashes_for_peer key (merge_rest hash_hex row e')) ≡ true
  unfolding index_hashes_for_peer keep contains
  merged_more hash_hex key row e e' names h has = ground (
    arith,
    (merge_rest-names hash_hex row e').0,
    (merge_rest-names hash_hex row e').2,
    names.0,
    names.2,
    no_hash,
  )

  merge_at-Kept :
      (env : Env) (hash_hex key : Str) (row e : Row) (s : State)
      → Storable local hash_hex row
      → Table local s
      → lookup key s.peers ≡ some e
      → Kept local (merge_at env hash_hex key row e s)
  unfolding merge_ip
  merge_at-Kept env hash_hex key row e s ok t there =
      option_both (Kept local) (merge_ip env row e) _ _
        (λ out. kept_pair local false _ (remove_peer_entry-Table local key s t))
        (λ e' found.
          let names = merge_ip-SameName env row e e' found in
          let e_ok = named-RowOk key e' e names (t.rows key e there) in
          kept_pair local true _ (
            stored_row-Table env hash_hex key (merge_rest hash_hex row e') _ (
              change-Table local s t key e (merge_rest hash_hex row e') there
                (merged-RowOk hash_hex key row e' ok e_ok)
                ((merge_rest-names hash_hex row e').0 ∙ names.0)
                (merged_more hash_hex key row e e' names))))

  place-Kept :
      (env : Env) (hash_hex : Str) (row : Row) (s : State)
      → Storable local hash_hex row
      → Table local s
      → Kept local (place env hash_hex (peer_storage_key row) row s)
  place-Kept env hash_hex row s ok t =
      let key = peer_storage_key row in
      option_both (Kept local) (lookup key s.peers) _ _
        (λ free. kept_pair local true _ (
          stored_row-Table env hash_hex key row _
            (add-Table local s t key row free (Storable-RowOk hash_hex row ok))))
        (λ e there. merge_at-Kept env hash_hex key row e s ok t there)

  evict_loop-Kept :
      (env : Env) (row : Row) (ks : List Str) (s : State)
      → Table local s
      → Kept local (evict_loop env row ks s)
  unfolding evict_loop
  evict_loop-Kept env row [] s t = kept_pair local [] s t
  evict_loop-Kept env row (k ∷ ks) s t =
      kept local
        (evict_loop-Kept env row ks _ (
          if_table local (superseded env row k (or_empty_row (lookup k s.peers))) (pop_peer_key k s)
            s (pop_peer_key-Table local k s t) t)).table

  evict_superseded_peers-Kept :
      (env : Env) (row : Row) (s : State)
      → Table local s
      → Kept local (evict_superseded_peers env row s)
  unfolding evict_superseded_peers
  evict_superseded_peers-Kept env row s t =
      kept local (evict_loop-Kept env (with_lan_ip env s row) (keys_of s.peers) s t).table

  store_allowed-Kept :
      (env : Env) (hash_hex : Str) (row : Row) (s : State)
      → Storable local hash_hex row
      → Table local s
      → Kept local (store_allowed env hash_hex row s)
  unfolding store_allowed evict_superseded_peers
  store_allowed-Kept env hash_hex row s ok t =
      let row' = with_lan_ip env s row in
      let r = evict_superseded_peers env row s in
      let t' =
        if_table local (is_empty r.0.0) r.1 (effect (evicted r.0.0 (some row')) r.1)
          (evict_superseded_peers-Kept env row s t).table
          (effect-Table local _ _ (evict_superseded_peers-Kept env row s t).table) in
      if_kept local (truthy (peer_storage_key row')) _ _
        (place-Kept env hash_hex row' _
          (Storable-SameName hash_hex row' row (with_lan_ip-SameName env s row) ok) t')
        (kept_pair local false _ t')

  reject_peer-Table :
      (hash_hex : Str) (row : Row) (s : State)
      → Table local s
      → Table local (reject_peer hash_hex row s)
  unfolding reject_peer
  reject_peer-Table hash_hex row s t =
      (sweep-Kept local remove_peer_entry _ (remove_peer_entry-Table local) _ _
        (remove_peer_entry-Table local (peer_storage_key row) s t)).table

-- The guards of `_store_peer`.
guards :
    (row : Row) (s : State)
    → (not (truthy (normalize_hash row.hash))
        || is_local_hash (normalize_hash row.hash) s
        || truthy (normalize_hash row.identity_hash)
          && is_local_hash (normalize_hash row.identity_hash) s)
      ≡ false
    → Storable (locals s) (normalize_hash row.hash) (prepared (normalize_hash row.hash) row)
unfolding is_local_hash
guards row s passed = record {
  same = refl;
  normal = normalize_hash_idem row.hash;
  has_hash = ground arith;
  foreign_hash = ground (arith, normalize_hash_idem row.hash);
  foreign_identity = ground (arith, normalize_hash_idem row.identity_hash);
}

pub store_peer-WellFormed :
    (env : Env) (row : Row) (s : State) → WellFormed s → Kept (locals s) (store_peer env row s)
unfolding store_peer
store_peer-WellFormed env row s t =
    let hash_hex = normalize_hash row.hash in
    let row' = prepared hash_hex row in
    let local = locals s in
    if_both (Kept local) _ (false, s) _ (λ refused. kept_pair local false s t)
      (λ passed.
        option_both (Kept local) (sanitize_peer_scope env s row') _ _
          (λ out. kept_pair local false _ (reject_peer-Table local hash_hex row' s t))
          (λ row'' allowed.
            store_allowed-Kept local env hash_hex row'' s
              (Storable-SameName local hash_hex row'' row'
                (sanitize_peer_scope-SameName env s row' row'' allowed) (guards row s passed))
              t))

-- ===== src/Discovery/Preserved.antt =====
-- The sweeps, the lookups by hash and the probes keep the discovery table well-formed
-- (chatx5/core/discovery.py).
use chatx.Discovery.Removal.{remove_peer_entry, remove_at, removed_entry, sweep}
use chatx.Prelude.{
  ℕ, ◌≡◌, refl, ◌∙◌, Bool, true, false, Option, none, some, List, [], ◌∷◌, if◌then◌else◌, nat_eq,
  option_both, if_both,
}
use chatx.Text.{Str, truthy, str_eq}
use chatx.Dict.{Dict, lookup, insert}
use chatx.Hash.{normalize_hash}
use chatx.Discovery.{
  Row, State, Env, index_hashes_for_peer, index_peer, index_found, keys_or_scan, scan,
  peer_keys_for_hash, pop_peer_key, or_empty_row,
}
use chatx.Discovery.Invariant.{
  RowOk, Table, effect-Table, pop_peer_key-Table, index_peer-Table, change-Table, Locals,
}
use chatx.Discovery.Purge.{
  purge_out_of_scope, pop_and_unregister, purge_ipless_non_serial, purge_misclassified_serial,
  purge_offline_serial_peers, purge_hashes, purge_stale_probes, dedupe_identities, given_scope,
  refresh_paths_for_scope, settle, settle_groups,
}
use chatx.Discovery.Rows.{prefers_first}
use chatx.Discovery.Probing.{change_row, change_rows, for_hash}

-- To put found rows into the index again changes no row.
pub peers-index_found : (ks : List Str) (s : State) → (index_found ks s).peers ≡ s.peers
unfolding index_peer
peers-index_found [] s = refl
peers-index_found (k ∷ ks) s =
    peers-index_found ks (elim (lookup k s.peers) [ none ↦ s | some row ↦ index_peer k row s ])
    ∙ option_both (λ (s' : State). s'.peers ≡ s.peers) (lookup k s.peers) s
        (λ row. index_peer k row s) (λ free. refl) (λ row there. refl)

-- The table that an operation returns beside its result.
pub record Kept {ℓ} {A : Type ℓ} (local : Locals) (r : A × State) : Type ℓ where
  pub table : Table local r.1

module _ (local : Locals) where
  pub kept {ℓ} : {A : Type ℓ} {r : A × State} → Table local r.1 → Kept local r
  kept t = record { table = t }

  pub kept_pair {ℓ} : {A : Type ℓ} (a : A) (s : State) → Table local s → Kept local (a, s)
  kept_pair a s t = record { table = t }

  pub if_kept {ℓ} :
      {A : Type ℓ} (b : Bool) (x y : A × State)
      → Kept local x
      → Kept local y
      → Kept local (if b then x else y)
  if_kept true x y f g = f
  if_kept false x y f g = g

  pub if_table :
      (b : Bool) (x y : State) → Table local x → Table local y → Table local (if b then x else y)
  if_table true x y f g = f
  if_table false x y f g = g

  pub index_found-Table :
      (ks : List Str) (s : State) → Table local s → Table local (index_found ks s)
  index_found-Table [] s t = t
  index_found-Table (k ∷ ks) s t = index_found-Table ks _ (
      option_both (Table local) (lookup k s.peers) s (λ row. index_peer k row s) (λ free. t)
        (λ row there. index_peer-Table local k row s there t))

  keys_or_scan-Kept :
      (clean : Str) (ks : List Str) (s : State)
      → Table local s
      → Kept local (keys_or_scan clean ks s)
  keys_or_scan-Kept clean [] s t = kept (index_found-Table (scan clean s) s t)
  keys_or_scan-Kept clean (k ∷ ks) s t = kept t

  pub peer_keys_for_hash-Kept :
      (h : Str) (s : State) → Table local s → Kept local (peer_keys_for_hash h s)
  unfolding peer_keys_for_hash
  peer_keys_for_hash-Kept h s t = search (if_kept, keys_or_scan-Kept, kept_pair)

  removed_entry-Table :
      (k : Str) (row : Row) (s : State) → Table local s → Table local (removed_entry k row s)
  removed_entry-Table k row s t =
      effect-Table local _ _
        (if_both (Table local) (truthy row.ip) _ s (λ has. effect-Table local _ s t) (λ lacks. t))

  remove_at-Table : (k : Str) (s : State) → Table local s → Table local (remove_at k s)
  unfolding pop_peer_key remove_peer_entry lookup
  remove_at-Table k s t =
      removed_entry-Table k (or_empty_row (lookup k s.peers)) _ (pop_peer_key-Table local k s t)

  pub remove_peer_entry-Table :
      (k : Str) (s : State) → Table local s → Table local (remove_peer_entry k s)
  unfolding remove_peer_entry
  remove_peer_entry-Table k s t = search (if_table, remove_at-Table)

  -- A sweep keeps what its step keeps.
  pub sweep-Kept :
      (drop_key : Str → State → State) (doomed : Str → Row → Bool)
      → ((k : Str) (s : State) → Table local s → Table local (drop_key k s))
      → (ks : List Str) (s : State) → Table local s
      → Kept local (sweep drop_key doomed ks s)
  unfolding sweep
  sweep-Kept drop_key doomed keeps [] s t = kept t
  sweep-Kept drop_key doomed keeps (k ∷ ks) s t =
      kept
        (sweep-Kept drop_key doomed keeps ks _ (
          if_table (doomed k (or_empty_row (lookup k s.peers))) (drop_key k s) s (keeps k s t)
            t)).table

  pop_and_unregister-Table :
      (k : Str) (s : State) → Table local s → Table local (pop_and_unregister k s)
  unfolding pop_peer_key
  pop_and_unregister-Table k s t = pop_peer_key-Table local k _ (effect-Table local _ s t)

  pub purge_out_of_scope-Kept :
      (scope : Str) (s : State) → Table local s → Kept local (purge_out_of_scope scope s)
  unfolding purge_out_of_scope
  purge_out_of_scope-Kept scope s t =
      search (if_kept, sweep-Kept, pop_and_unregister-Table, kept_pair)

  pub purge_ipless_non_serial-Kept :
      (s : State) → Table local s → Kept local (purge_ipless_non_serial s)
  unfolding purge_ipless_non_serial
  purge_ipless_non_serial-Kept s t = sweep-Kept pop_peer_key _ (pop_peer_key-Table local) _ s t

  pub purge_misclassified_serial-Kept :
      (env : Env) (s : State) → Table local s → Kept local (purge_misclassified_serial env s)
  unfolding purge_misclassified_serial
  purge_misclassified_serial-Kept env s t =
      sweep-Kept pop_peer_key _ (pop_peer_key-Table local) _ s t

  pub purge_offline_serial_peers-Kept :
      (env : Env) (s : State) → Table local s → Kept local (purge_offline_serial_peers env s)
  unfolding purge_offline_serial_peers
  purge_offline_serial_peers-Kept env s t =
      search (if_kept, sweep-Kept, pop_peer_key-Table, kept_pair)

  pub purge_hashes-Kept :
      (hs : List Str) (s : State) → Table local s → Kept local (purge_hashes hs s)
  unfolding purge_hashes
  purge_hashes-Kept hs s t = search (if_kept, sweep-Kept, pop_peer_key-Table, kept_pair)

  pub purge_stale_probes-Kept :
      (env : Env) (max_rtt stale_s failures : ℕ) (s : State)
      → Table local s
      → Kept local (purge_stale_probes env max_rtt stale_s failures s)
  unfolding purge_stale_probes
  purge_stale_probes-Kept env max_rtt stale_s failures s t =
      sweep-Kept remove_peer_entry _ remove_peer_entry-Table _ s t

  settle-Kept :
      (env : Env) (scope : Option Str) (winner : Str × Row) (es : List (Str × Row)) (s : State)
      → Table local s
      → Kept local (settle env scope winner es s)
  unfolding settle
  settle-Kept env scope winner [] s t = search (if_kept, kept_pair, remove_peer_entry-Table)
  settle-Kept env scope winner (e ∷ es) s t =
      let first = prefers_first env scope winner.1 e.1 in
      kept
        (settle-Kept env scope (if first then winner else e) es _
          (remove_peer_entry-Table _ s t)).table

  settle_groups-Kept :
      (env : Env) (scope : Option Str) (groups : Dict (List (Str × Row))) (s : State)
      → Table local s
      → Kept local (settle_groups env scope groups s)
  unfolding settle_groups settle
  settle_groups-Kept env scope [] s t = kept t
  settle_groups-Kept env scope ((dedup, []) ∷ groups) s t =
      kept (settle_groups-Kept env scope groups s t).table
  settle_groups-Kept env scope ((dedup, e ∷ []) ∷ groups) s t =
      kept (settle_groups-Kept env scope groups s t).table
  settle_groups-Kept env scope ((dedup, e ∷ f ∷ es) ∷ groups) s t =
      kept
        (settle_groups-Kept env scope groups _ (settle-Kept env scope e (f ∷ es) s t).table).table

  pub dedupe_identities-Kept :
      (env : Env) (scope : Str) (s : State)
      → Table local s
      → Kept local (dedupe_identities env scope s)
  unfolding dedupe_identities
  dedupe_identities-Kept env scope s t = settle_groups-Kept env _ _ s t

  pub refresh_paths_for_scope-Kept :
      (env : Env) (scope : Str) (s : State)
      → Table local s
      → Kept local (refresh_paths_for_scope env scope s)
  unfolding refresh_paths_for_scope
  refresh_paths_for_scope-Kept env scope s t =
      kept
        (dedupe_identities-Kept env _ _
          (purge_misclassified_serial-Kept env _
            (if_kept (truthy (given_scope env scope)) _ (0, s) (purge_out_of_scope-Kept _ s t)
              (kept t)).table).table).table

  -- A change of a row that leaves its hash, its transport and its identity as they are.
  abbrev pub Mild : (Row → Row) → Type 0
  Mild f =
      (row : Row)
      → ((f row).hash ≡ row.hash)
        × ((f row).via ≡ row.via)
        × ((f row).identity_hash ≡ row.identity_hash)

  Mild-RowOk :
      (f : Row → Row) → Mild f → (k : Str) (row : Row) → RowOk local k row → RowOk local k (f row)
  Mild-RowOk f mild k row ok = record {
    keyed = ok.keyed ∙ cc ((mild row).0, (mild row).1);
    normal = rw (mild row).0 ok.normal;
    has_hash = rw (mild row).0 ok.has_hash;
    foreign_hash = rw (mild row).0 ok.foreign_hash;
    foreign_identity = rw (mild row).2 ok.foreign_identity;
  }

  mild_change :
      (f : Row → Row)
      → Mild f
      → (k : Str) (s : State) (row : Row) → Table local s
      → lookup k s.peers ≡ some row
      → Table local (record s { peers = insert k (f row) s.peers })
  unfolding index_hashes_for_peer
  mild_change f mild k s row t there =
      change-Table local s t k row (f row) there (Mild-RowOk f mild k row (t.rows k row there))
        (mild row).0 (λ h has. rw ((mild row).0, (mild row).2) has)

  change_row-Table :
      (f : Row → Row)
      → Mild f
      → (k : Str) (s : State) → Table local s
      → Table local (change_row f k s)
  unfolding change_row
  change_row-Table f mild k s t =
      option_both (Table local) (lookup k s.peers) s _ (λ free. t)
        (λ row there. mild_change f mild k s row t there)

  pub change_rows-Table :
      (f : Row → Row)
      → Mild f
      → (ks : List Str) (s : State) → Table local s
      → Table local (change_rows f ks s)
  unfolding change_rows
  change_rows-Table f mild [] s t = t
  change_rows-Table f mild (k ∷ ks) s t =
      change_rows-Table f mild ks _ (change_row-Table f mild k s t)

  pub for_hash-Table :
      (f : Row → Row)
      → Mild f
      → (h : Str) (s : State) → Table local s
      → Table local (for_hash f h s)
  unfolding for_hash
  for_hash-Table f mild h s t =
      if_table (truthy (normalize_hash h)) _ s
        (change_rows-Table f mild _ _ (peer_keys_for_hash-Kept _ s t).table) t

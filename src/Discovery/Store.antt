-- ===== src/Discovery/Store.antt =====
-- How a row comes into the discovery table (chatx5/core/discovery.py): the check of its scope, the
-- rows that it supersedes, and the merge with the row under its key.
use chatx.Discovery.Removal.{remove_peer_entry, sweep}
use chatx.Prelude.{
  ℕ, Bool, true, false, not, ◌&&◌, ◌||◌, Option, none, some, List, [], ◌∷◌, if◌then◌else◌, ◌==◌,
  nat_eq,
}
use chatx.Text.{Str, codes, truthy, or_else, strip, lower, str_eq}
use chatx.Dict.{lookup, insert}
use chatx.Hash.{normalize_hash}
use chatx.Scope.{peer_in_scope}
use chatx.Discovery.{
  Row, State, Env, evicted, registered, seen, effect, scope_ip, is_serial, keys_of, no_row,
  or_empty_row, prefix, is_empty, peer_storage_key, pop_peer_key, is_local_hash, index_peer,
}
use chatx.Discovery.Rows.{attach_peer_ip, sanitize_peer_scope, peer_allowed}
use chatx.Discovery.Probing.{reset_peer_probe_state}

abbrev family : Row → Str
family row = if is_serial row then codes "serial" else codes "lan"

-- `{"serial", "rns"} & {new_via, existing_via}`
abbrev touches : Str → Bool
touches via = via == codes "serial" || via == codes "rns"

-- Whether an existing row gives way to a new one, in `_evict_superseded_peers`.
unfoldable pub superseded : Env → Row → Str → Row → Bool
superseded env row k e =
    let ip = strip row.ip in
    let new_hash = normalize_hash row.hash in
    let new_ident = normalize_hash row.identity_hash in
    let name = strip row.name in
    let existing_name = strip e.name in
    let same_host = truthy ip && e.ip == ip in
    let same_ident = truthy new_ident && normalize_hash e.identity_hash == new_ident in
    let same_pubkey = truthy row.pubkey && e.pubkey == row.pubkey in
    let same_name =
      truthy name
      && truthy existing_name
      && name == existing_name
      && not (name == prefix new_hash)
      && not (existing_name == prefix (normalize_hash e.hash)) in
    if normalize_hash e.hash == new_hash
    then false
    else if not (family e == family row)
    then false
    else if same_ident || same_pubkey
    then true
    else if env.serial_active && same_name && not same_host
    then false
    else if same_name
        && (touches (strip row.via) || touches (strip e.via))
        && (same_ident || same_pubkey)
    then false
    else same_host || same_name

-- The hashes of the rows that went, and the table without them.
unfoldable pub evict_loop : Env → Row → List Str → State → List Str × State
unfolding superseded
evict_loop env row [] s = ([], s)
evict_loop env row (k ∷ ks) s =
    let e = or_empty_row (lookup k s.peers) in
    let b = superseded env row k e in
    let r = evict_loop env row ks (if b then pop_peer_key k s else s) in
    (if b then or_else (normalize_hash e.hash) k ∷ r.0 else r.0, r.1)

abbrev pub with_lan_ip : Env → State → Row → Row
with_lan_ip env s row =
    if is_serial row then row else attach_peer_ip env (truthy (scope_ip env)) s row

-- `_evict_superseded_peers`, with the address that the row takes from another.
unfoldable pub evict_superseded_peers : Env → Row → State → (List Str × Row) × State
unfolding evict_loop
evict_superseded_peers env row s =
    let row' = with_lan_ip env s row in
    let r = evict_loop env row' (keys_of s.peers) s in ((r.0, row'), r.1)

abbrev port_or : Option ℕ → Option ℕ → Option ℕ
port_or (some p) other = some p
port_or none (some p) = some p
port_or none none = some 8742

-- The address of the merged row; `none` when the new address is out of scope.
unfoldable pub merge_ip : Env → Row → Row → Option Row
merge_ip env row e =
    let new_ip = strip row.ip in
    let scope = scope_ip env in
    if truthy new_ip && not (new_ip == strip e.ip)
    then (if not (truthy scope) || peer_in_scope new_ip scope
        then some (record e { ip = new_ip; port = port_or row.port e.port })
        else none)
    else if truthy row.ip && not (truthy e.ip) && (not (truthy scope) || peer_in_scope row.ip scope)
    then some (record e { ip = row.ip; port = port_or row.port none })
    else some e

-- A name that is no more than the start of the hash.
abbrev is_hash_name : Str → Str → Bool
is_hash_name hash_prefix name =
    not (truthy name) || name == hash_prefix || lower name == lower hash_prefix

unfoldable pub merge_names : Str → Row → Row → Row
merge_names hash_hex row e =
    let incoming_name = strip row.name in
    if truthy incoming_name && not (is_hash_name (prefix hash_hex) incoming_name)
    then record e { name = incoming_name }
    else e

abbrev pub merge_rest : Str → Row → Row → Row
merge_rest hash_hex row e = record (merge_names hash_hex row e) {
  identity_hash = or_else e.identity_hash row.identity_hash;
  pubkey = or_else e.pubkey row.pubkey;
  last_seen = row.last_seen;
}

-- After the row stands in the table under its key.
abbrev pub stored_row : Env → Str → Str → Row → State → State
stored_row env hash_hex key row s =
    let s' = if truthy row.ip then effect (registered row.ip) s else s in
    let s'' = reset_peer_probe_state env hash_hex s' in
    effect (seen (or_empty_row (lookup key s''.peers))) s''

-- The row merged into the one that stands under its key.
abbrev pub merge_at : Env → Str → Str → Row → Row → State → Bool × State
merge_at env hash_hex key row existing s = elim (merge_ip env row existing) [
  | none ↦ (false, remove_peer_entry key s)
  | some e ↦ (
    true,
    let e' = merge_rest hash_hex row e in
        stored_row env hash_hex key e' (record s { peers = insert key e' s.peers }),
  )
]

abbrev pub add_at : Env → Str → Str → Row → State → Bool × State
add_at env hash_hex key row s = (
  true,
  stored_row env hash_hex key row
      (index_peer key row (record s { peers = insert key row s.peers })),
)

abbrev pub place : Env → Str → Str → Row → State → Bool × State
place env hash_hex key row s = elim (lookup key s.peers) [
  | none ↦ add_at env hash_hex key row s
  | some existing ↦ merge_at env hash_hex key row existing s
]

-- From `_evict_superseded_peers` on.
unfoldable pub store_allowed : Env → Str → Row → State → Bool × State
store_allowed env hash_hex row s =
    let r = evict_superseded_peers env row s in
    let row' = r.0.1 in
    let s' = if is_empty r.0.0 then r.1 else effect (evicted r.0.0 (some row')) r.1 in
    let key = peer_storage_key row' in
    if truthy key then place env hash_hex key row' s' else (false, s')

-- A peer that is out of scope loses all its rows.
unfoldable pub reject_peer : Str → Row → State → State
reject_peer hash_hex row s =
    let s' = remove_peer_entry (peer_storage_key row) s in
    (sweep remove_peer_entry (λ k r. normalize_hash r.hash == hash_hex) (keys_of s'.peers) s').1

abbrev default_true : Option Bool → Option Bool
default_true none = some true
default_true (some b) = some b

-- The copy that is stored: its hash is normalised, and a serial row counts as confirmed.
abbrev pub prepared : Str → Row → Row
prepared hash_hex row = record row {
  hash = hash_hex;
  serial_rns = if is_serial row then default_true row.serial_rns else row.serial_rns;
}

unfoldable pub store_peer : Env → Row → State → Bool × State
unfolding store_allowed reject_peer
store_peer env row s =
    let hash_hex = normalize_hash row.hash in
    let ident_hex = normalize_hash row.identity_hash in
    let row' = prepared hash_hex row in
    if not (truthy hash_hex)
      || is_local_hash hash_hex s
      || truthy ident_hex && is_local_hash ident_hex s
    then (false, s)
    else elim (sanitize_peer_scope env s row') [
      | none ↦ (false, reject_peer hash_hex row' s)
      | some row'' ↦ store_allowed env hash_hex row'' s
    ]

unfoldable pub register_link_peer : Env → Str → Str → Str → Str → State → State
register_link_peer env peer_hash name via ip s =
    let hash_hex = normalize_hash peer_hash in
    let label = prefix hash_hex in
    let row = record no_row {
      hash = hash_hex;
      name = or_else (strip (or_else name label)) label;
      via = via;
      last_seen = env.now;
      ip = strip ip;
    } in
    if truthy hash_hex && peer_allowed env s row then (store_peer env row s).1 else s

-- ===== src/Discovery/Removal.antt =====
-- How entries leave the discovery table (chatx5/core/discovery.py): `_remove_peer_entry`, sweeps over all
-- keys, the hashes that are our own, and the switches.
use chatx.Prelude.{
  ℕ, ◌+◌, Bool, true, false, not, ◌&&◌, ◌||◌, none, List, [], ◌∷◌, map, if◌then◌else◌, nat_eq,
  contains, keep,
}
use chatx.Text.{Str, truthy, or_else, strip, str_eq}
use chatx.Dict.{lookup}
use chatx.Hash.{normalize_hash}
use chatx.Discovery.{
  or_empty_row, is_empty, keys_of, has_key, pop_peer_key, effect, Row, State, unregistered, evicted,
}

-- After the entry `row` has left the table under `key`.
abbrev pub removed_entry : Str → Row → State → State
removed_entry key row s =
    let s' = if truthy row.ip then effect (unregistered row.ip) s else s in
    effect (evicted (normalize_hash (or_else row.hash key) ∷ []) none) s'

abbrev pub remove_at : Str → State → State
remove_at key s = removed_entry key (or_empty_row (lookup key s.peers)) (pop_peer_key key s)

-- A key that is not in the table is tried as a hash.
unfoldable pub remove_peer_entry : Str → State → State
remove_peer_entry storage_key s =
    let key = strip storage_key in
    let clean = normalize_hash key in
    if not (truthy key)
    then s
    else if has_key s.peers key
    then remove_at key s
    else if truthy clean && has_key s.peers clean
    then remove_at clean s
    else s

-- `for key in keys: if doomed(key, peers.get(key) or {}): drop(key)`, with the number dropped.
unfoldable pub sweep : (Str → State → State) → (Str → Row → Bool) → List Str → State → ℕ × State
sweep drop_key doomed [] s = (0, s)
sweep drop_key doomed (k ∷ ks) s =
    let b = doomed k (or_empty_row (lookup k s.peers)) in
    let r = sweep drop_key doomed ks (if b then drop_key k s else s) in
    ((if b then 1 else 0) + r.0, r.1)

-- `{normalize_hash(h) for h in hashes if normalize_hash(h)}`
unfoldable pub clean_hashes : List Str → List Str
clean_hashes raws = keep truthy (map normalize_hash raws)

unfoldable pub set_local_hashes : List Str → State → State
set_local_hashes hashes s =
    let clean = clean_hashes hashes in
    let s' = record s { local_hashes = clean } in
    let doomed = λ (k : Str) (row : Row).
      contains (normalize_hash row.hash) clean
      || contains (normalize_hash row.identity_hash) clean in
    if is_empty clean then s' else (sweep remove_peer_entry doomed (keys_of s.peers) s').1

unfoldable pub clear_peers : State → State
clear_peers s = record s { peers = []; hash_index = [] }

unfoldable pub start : State → State
start s = record s { running = true; accept_peers = false }

unfoldable pub stop : State → State
stop s = record s { running = false }

unfoldable pub enable_discovery : Bool → State → State
enable_discovery clear s =
    let s' = record s { accept_peers = true } in if clear then clear_peers s' else s'

unfoldable pub disable_discovery : State → State
disable_discovery s = clear_peers (record s { accept_peers = false })

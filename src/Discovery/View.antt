-- ===== src/Discovery/View.antt =====
-- The peers that are shown (`get_peers` of chatx5/core/discovery.py): the rows that are not stale, one
-- for a deduplication key and one for an address, and those of them that can be reached.
use chatx.Discovery.Removal.{sweep}
use chatx.Prelude.{
  ℕ, ◌-◌, Bool, false, not, ◌&&◌, Option, none, some, List, [], ◌∷◌, ◌++◌, ltb, leb, if◌then◌else◌,
  ◌==◌, nat_eq, contains, keep, any,
}
use chatx.Text.{Str, truthy, strip, str_eq, given, or_empty}
use chatx.Dict.{Dict, lookup, insert, values}
use chatx.Hash.{normalize_hash}
use chatx.Discovery.{
  Row, State, Env, scope_ip, is_serial, truth, keys_of, pop_peer_key, storage_key_of,
  peer_keys_for_hash,
}
use chatx.Discovery.Rows.{
  peer_viable, prefer_peer, same_peer_identity, same_ip_preferred, same_subnet_or_missing,
  peer_dedup_key,
}

abbrev pub discovery_timeout : ℕ
discovery_timeout = 300

abbrev pub stale : Env → Str → Row → Bool
stale env k row = ltb discovery_timeout (env.now - row.last_seen)

unfoldable pub drop_stale : Env → State → State
drop_stale env s = (sweep pop_peer_key (stale env) (keys_of s.peers) s).1

-- Two rows with one key and different hashes, of one transport.
abbrev pub different_hash : Env → Option Str → Str → Row → Row → Dict Row → Dict Row
different_hash env scope key existing row deduped =
    if same_peer_identity existing row
    then insert key (prefer_peer env scope existing row) deduped
    else if truthy row.pubkey && not (truthy existing.pubkey)
    then insert key row deduped
    else if truthy existing.pubkey && not (truthy row.pubkey)
    then deduped
    else if leb existing.last_seen row.last_seen
    then insert key row deduped
    else deduped

-- Two rows with one key.
abbrev pub same_key : Env → Option Str → Str → Row → Row → Dict Row → Dict Row
same_key env scope key existing row deduped =
    let peer_hash = normalize_hash row.hash in
    if normalize_hash existing.hash == peer_hash
    then insert key (prefer_peer env scope existing row) deduped
    else if not (strip existing.via == strip row.via)
    then insert (key ++ (b':' ∷ peer_hash)) row deduped
    else different_hash env scope key existing row deduped

-- One round of the first loop. The scope counts where it is given and not empty.
unfoldable pub dedupe_row : Env → Option Str → Row → Dict Row → Dict Row
dedupe_row env scope row deduped =
    let key = peer_dedup_key row in
    if given scope && truthy row.ip && not (same_subnet_or_missing row.ip (or_empty scope))
    then deduped
    else elim (lookup key deduped) [
      | none ↦ insert key row deduped
      | some existing ↦ same_key env scope key existing row deduped
    ]

unfoldable pub dedupe_rows : Env → Option Str → List Row → Dict Row → Dict Row
dedupe_rows env scope [] deduped = deduped
dedupe_rows env scope (row ∷ rows) deduped =
    dedupe_rows env scope rows (dedupe_row env scope row deduped)

-- The serial rows and the rows by address that the second loop collects.
pub record Shown : Type 0 where
  pub no_ip_peers : List Row
  pub collapsed : Dict Row

-- An unconfirmed serial row yields to a LAN row of its hash.
abbrev has_lan_row : Str → List Row → Bool
has_lan_row hash rows =
    any (λ other. normalize_hash other.hash == hash && not (is_serial other)) rows

abbrev pub show_serial : Env → List Row → Row → Shown → Shown
show_serial env all_rows row shown =
    if not env.serial_active
    then shown
    else if not (truth row.serial_rns) && has_lan_row (normalize_hash row.hash) all_rows
    then shown
    else record shown { no_ip_peers = shown.no_ip_peers ++ (record row { ip = [] } ∷ []) }

abbrev pub show_lan : Env → Option Str → Row → Shown → Shown
show_lan env scope row shown =
    let ip = strip row.ip in
    if not (truthy ip) then shown else record shown {
      collapsed =
          insert ip
            (elim (lookup ip shown.collapsed) [
              | none ↦ row
              | some existing ↦ same_ip_preferred env scope row existing
            ])
            shown.collapsed;
    }

unfoldable pub show_row : Env → Option Str → List Row → Row → Shown → Shown
show_row env scope all_rows row shown =
    if is_serial row then show_serial env all_rows row shown else show_lan env scope row shown

unfoldable pub show_rows : Env → Option Str → List Row → List Row → Shown → Shown
show_rows env scope all_rows [] shown = shown
show_rows env scope all_rows (row ∷ rows) shown =
    show_rows env scope all_rows rows (show_row env scope all_rows row shown)

abbrev pub nothing_shown : Shown
nothing_shown = record { no_ip_peers = []; collapsed = [] }

unfoldable pub shown_rows : Env → Option Str → State → List Row
shown_rows env scope s =
    let deduped = values (dedupe_rows env scope (values s.peers) []) in
    let shown = show_rows env scope deduped deduped nothing_shown in
    keep (peer_viable env scope) (shown.no_ip_peers ++ values shown.collapsed)

unfoldable pub get_peers : Env → Option Str → State → List Row × State
get_peers env scope s =
    let s' = drop_stale env s in if s.accept_peers then (shown_rows env scope s', s') else ([], s)

-- The hashes and identities of rows.
abbrev hashes_of : List Row → List Str
hashes_of [] = []
hashes_of (row ∷ rows) =
    keep truthy (normalize_hash row.hash ∷ normalize_hash row.identity_hash ∷ []) ++ hashes_of rows

unfoldable pub current_hashes : Env → State → List Str × State
unfolding get_peers
current_hashes env s = let r = get_peers env none s in (hashes_of r.0, r.1)

-- A scope that is not given is our own.
abbrev pub scope_or_own : Env → Option Str → Option Str
scope_or_own env none = if truthy (scope_ip env) then some (scope_ip env) else none
scope_or_own env (some t) = some t

unfoldable pub peer_is_current : Env → Str → Option Str → State → Bool × State
unfolding get_peers
peer_is_current env peer_hash scope s =
    let clean = normalize_hash peer_hash in
    let scope' = scope_or_own env scope in
    let r = get_peers env scope' s in
    if truthy clean then (contains clean (hashes_of r.0), r.1) else (false, s)

-- `peer_row`: with a transport, the row under its key; without, the first row of the hash, in the
-- order in which the keys were indexed.
abbrev head_or : Option Row → List Str → State → Option Row
head_or otherwise [] s = otherwise
head_or otherwise (k ∷ ks) s = elim (lookup k s.peers) [
  | none ↦ head_or otherwise ks s
  | some row ↦ some row
]

unfoldable pub peer_row : Str → Str → State → Option Row × State
peer_row hash_hex via s =
    let clean = normalize_hash hash_hex in
    let r = peer_keys_for_hash clean s in
    if not (truthy clean)
    then (none, s)
    else if truthy via
    then (lookup (storage_key_of clean via) s.peers, s)
    else (head_or (lookup clean s.peers) r.0 r.1, r.1)

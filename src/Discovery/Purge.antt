-- ===== src/Discovery/Purge.antt =====
-- The sweeps that take rows out of the discovery table (chatx5/core/discovery.py).
use chatx.Discovery.Removal.{remove_peer_entry, sweep, clean_hashes}
use chatx.Prelude.{
  ℕ, ◌+◌, ◌-◌, Bool, true, false, not, ◌&&◌, ◌||◌, Option, none, some, List, [], ◌∷◌, ◌++◌, ltb,
  leb, if◌then◌else◌, ◌==◌, nat_eq, contains, length, any,
}
use chatx.Text.{Str, codes, truthy, or_else, strip, str_eq}
use chatx.Dict.{Dict, lookup, insert}
use chatx.Hash.{normalize_hash}
use chatx.Scope.{same_lan_scope}
use chatx.Discovery.{
  Row, State, Env, unregistered, effect, scope_ip, is_serial, truth, or_nil, is_empty, keys_of,
  or_empty_row, pop_peer_key,
}
use chatx.Discovery.Rows.{peer_viable, prefers_first, peer_dedup_key}

-- `purge_out_of_scope`: the address leaves the registry of UDP peers too.
abbrev pub out_of_scope : Str → Str → Row → Bool
out_of_scope scope k row =
    let ip = strip row.ip in not (is_serial row) && truthy ip && not (same_lan_scope ip scope)

abbrev pub pop_and_unregister : Str → State → State
pop_and_unregister k s =
    pop_peer_key k (effect (unregistered (strip (or_empty_row (lookup k s.peers)).ip)) s)

unfoldable pub purge_out_of_scope : Str → State → ℕ × State
unfolding sweep
purge_out_of_scope scope s =
    let clean = strip scope in
    if truthy clean
    then sweep pop_and_unregister (out_of_scope clean) (keys_of s.peers) s
    else (0, s)

-- `purge_ipless_non_serial`
abbrev pub ipless : Str → Row → Bool
ipless k row = not (is_serial row) && not (truthy (strip row.ip))

unfoldable pub purge_ipless_non_serial : State → ℕ × State
purge_ipless_non_serial s = sweep pop_peer_key ipless (keys_of s.peers) s

-- `bytes.fromhex(h)` succeeds with at least one byte: pairs of digits, with spaces between them.
abbrev hex_digit : ℕ → Bool
hex_digit c = leb b'0' c && leb c b'9' || leb b'a' c && leb c b'f' || leb b'A' c && leb c b'F'

abbrev ascii_space : ℕ → Bool
ascii_space c = leb 9 c && leb c 13 || c == 32

unfoldable pub hex_pairs : Str → Bool
hex_pairs [] = true
hex_pairs (c ∷ []) = ascii_space c
hex_pairs (c ∷ d ∷ s) = elim (ascii_space c) [
  | true ↦ hex_pairs (d ∷ s)
  | false ↦ hex_digit c && hex_digit d && hex_pairs s
]

abbrev is_bytes : Str → Bool
is_bytes h = any hex_digit h && hex_pairs h

-- A serial row that is not confirmed, and whose last announce came in on another interface.
abbrev pub misclassified : Env → Str → Row → Bool
misclassified env k row =
    let h = normalize_hash (or_else row.hash k) in
    let family = if is_bytes h then env.packet_family h else none in
    is_serial row
    && not (truth row.serial_rns)
    && elim family [ none ↦ false | some f ↦ not (f == codes "serial") ]

unfoldable pub purge_misclassified_serial : Env → State → ℕ × State
unfolding hex_pairs
purge_misclassified_serial env s = sweep pop_peer_key (misclassified env) (keys_of s.peers) s

unfoldable pub purge_offline_serial_peers : Env → State → ℕ × State
purge_offline_serial_peers env s =
    if env.serial_active
    then (0, s)
    else sweep pop_peer_key (λ k row. is_serial row) (keys_of s.peers) s

-- `purge_hashes`
abbrev pub has_target : List Str → Str → Row → Bool
has_target targets k row =
    contains (normalize_hash k) targets
    || contains (normalize_hash row.hash) targets
    || contains (normalize_hash row.identity_hash) targets

unfoldable pub purge_hashes : List Str → State → ℕ × State
purge_hashes hashes s =
    let targets = clean_hashes hashes in
    if is_empty targets then (0, s) else sweep pop_peer_key (has_target targets) (keys_of s.peers) s

-- `purge_stale_probes`
abbrev age_since : ℕ → ℕ → ℕ → ℕ
age_since now ok announce_age = if ok == 0 then announce_age else now - ok

abbrev too_slow : ℕ → Option ℕ → List ℕ → Bool
too_slow max_rtt none samples = false
too_slow max_rtt (some rtt) samples = leb 3 (length samples) && ltb max_rtt rtt

unfoldable pub stale_probe : Env → ℕ → ℕ → ℕ → Str → Row → Bool
stale_probe env max_rtt_ms stale_s max_failures k row =
    let announce_age = env.now - row.last_seen in
    let probe_age = age_since env.now row.last_probe_ok announce_age in
    not (is_serial row)
    && ltb stale_s announce_age
    && (too_slow max_rtt_ms row.rtt_avg_ms (or_nil row.rtt_samples) && ltb stale_s probe_age
        || ltb stale_s probe_age && leb max_failures row.probe_failures)

unfoldable pub purge_stale_probes : Env → ℕ → ℕ → ℕ → State → ℕ × State
unfolding stale_probe
purge_stale_probes env max_rtt_ms stale_s max_failures s =
    sweep remove_peer_entry (stale_probe env max_rtt_ms stale_s max_failures) (keys_of s.peers) s

-- The rows of the table by their deduplication key.
abbrev Group : Type 0
Group = List (Str × Row)

abbrev pub grouped : Dict Row → Dict Group → Dict Group
grouped [] groups = groups
grouped ((key, row) ∷ d) groups =
    let dedup = peer_dedup_key row in
    grouped d (insert dedup (or_nil (lookup dedup groups) ++ ((key, row) ∷ [])) groups)

-- The losers of a group go, and so does a winner that is not viable.
unfoldable pub settle : Env → Option Str → Str × Row → Group → State → ℕ × State
settle env scope winner [] s =
    if peer_viable env scope winner.1 then (0, s) else (1, remove_peer_entry winner.0 s)
settle env scope winner (entry ∷ entries) s =
    let first = prefers_first env scope winner.1 entry.1 in
    let loser = if first then entry else winner in
    let r =
      settle env scope (if first then winner else entry) entries (remove_peer_entry loser.0 s) in
    (1 + r.0, r.1)

abbrev pub settle_group : Env → Option Str → Group → State → ℕ × State
settle_group env scope [] s = (0, s)
settle_group env scope (entry ∷ []) s = (0, s)
settle_group env scope (entry ∷ other ∷ entries) s = settle env scope entry (other ∷ entries) s

unfoldable pub settle_groups : Env → Option Str → Dict Group → State → ℕ × State
settle_groups env scope [] s = (0, s)
settle_groups env scope ((dedup, group) ∷ groups) s =
    let r = settle_group env scope group s in
    let rest = settle_groups env scope groups r.1 in (r.0 + rest.0, rest.1)

-- `(scope_ip or self._scope_ip() or "").strip() or None`
abbrev pub given_scope : Env → Str → Str
given_scope env scope = strip (or_else scope (scope_ip env))

abbrev pub scope_or_none : Str → Option Str
scope_or_none scope = if truthy scope then some scope else none

unfoldable pub dedupe_identities : Env → Str → State → ℕ × State
dedupe_identities env scope s =
    settle_groups env (scope_or_none (given_scope env scope)) (grouped s.peers []) s

unfoldable pub refresh_paths_for_scope : Env → Str → State → ℕ × State
refresh_paths_for_scope env scope s =
    let clean = given_scope env scope in
    let r = if truthy clean then purge_out_of_scope clean s else (0, s) in
    let r' = purge_misclassified_serial env r.1 in
    let r'' = dedupe_identities env clean r'.1 in (r.0 + r'.0 + r''.0, r''.1)

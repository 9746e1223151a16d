-- ===== src/Discovery/Rows.antt =====
-- Which of two rows of the discovery table is better (chatx5/core/discovery.py), and which rows are
-- allowed in the table at all.
use chatx.Prelude.{
  ℕ, ◌+◌, Bool, true, false, not, ◌&&◌, ◌||◌, Option, none, some, List, [], ◌∷◌, ◌++◌, ltb, leb,
  if◌then◌else◌, ◌==◌, nat_eq, contains, length, take,
}
use chatx.Text.{Str, codes, truthy, or_else, or_empty, strip, lower, starts_with, str_eq}
use chatx.Dict.{values}
use chatx.Hash.{normalize_hash}
use chatx.Scope.{same_lan_scope, peer_in_scope}
use chatx.Discovery.{Row, State, Env, scope_ip, is_serial, prefix}

-- `_peer_viable`; the scope is None or a text that is compared once it is stripped.
unfoldable pub peer_viable : Env → Option Str → Row → Bool
peer_viable env scope row =
    let s = strip (or_empty scope) in
    let ip = strip row.ip in
    if is_serial row
    then env.serial_active
    else if not (truthy ip)
    then false
    else if truthy s && not (peer_in_scope ip s)
    then false
    else true

unfoldable pub peer_rank : Row → ℕ
peer_rank row =
    let h = normalize_hash row.hash in
    let p = prefix h in
    (if row.via == codes "serial"
      then 22
      else if contains row.via (codes "rns" ∷ codes "beacon" ∷ [])
      then 20
      else 0)
    + (if truthy row.pubkey then 8 else 0)
    + (if leb 32 (length h) then 5 else 0)
    + (if truthy row.ip then 2 else 0)
    + (if truthy row.name && not (row.name == p) && not (starts_with row.name p) then 3 else 0)

-- The tests of `_prefer_peer` on the viability, the round trip, the rank and the time of two rows.
abbrev pub rank_first : ℕ → ℕ → ℕ → ℕ → Bool
rank_first rank_a rank_b seen_a seen_b =
    if rank_a == rank_b then leb seen_b seen_a else ltb rank_b rank_a

abbrev pub rtt_first : Option ℕ → Option ℕ → Bool → Bool
rtt_first (some x) (some y) otherwise = if x == y then otherwise else ltb x y
rtt_first (some x) none otherwise = true
rtt_first none (some y) otherwise = false
rtt_first none none otherwise = otherwise

abbrev pub viable_first : Bool → Bool → Bool → Bool
viable_first true false otherwise = true
viable_first false true otherwise = false
viable_first true true otherwise = otherwise
viable_first false false otherwise = otherwise

-- Whether `_prefer_peer` returns the first of its two rows.
unfoldable pub prefers_first : Env → Option Str → Row → Row → Bool
unfolding peer_viable peer_rank
prefers_first env scope a b = viable_first (peer_viable env scope a) (peer_viable env scope b) (
    rtt_first a.rtt_avg_ms b.rtt_avg_ms
      (rank_first (peer_rank a) (peer_rank b) a.last_seen b.last_seen))

abbrev pub prefer_peer : Env → Option Str → Row → Row → Row
prefer_peer env scope a b = if prefers_first env scope a b then a else b

-- `_same_peer_identity`
unfoldable pub same_peer_identity : Row → Row → Bool
same_peer_identity a b =
    let a_ident = normalize_hash a.identity_hash in
    let b_ident = normalize_hash b.identity_hash in
    truthy a_ident && truthy b_ident && a_ident == b_ident
    || truthy a.pubkey && truthy b.pubkey && a.pubkey == b.pubkey

-- `_same_ip_preferred`
unfoldable pub same_ip_preferred : Env → Option Str → Row → Row → Row
unfolding prefers_first
same_ip_preferred env scope a b =
    let a_verified = truthy a.pubkey in
    let b_verified = truthy b.pubkey in
    let a_via = strip a.via in
    let b_via = strip b.via in
    if a_verified && not b_verified
    then a
    else if b_verified && not a_verified
    then b
    else if not (a.last_seen == b.last_seen)
    then (if leb b.last_seen a.last_seen then a else b)
    else if a_via == codes "rns" && b_via == codes "beacon"
    then a
    else if b_via == codes "rns" && a_via == codes "beacon"
    then b
    else prefer_peer env scope a b

-- `PeerDiscovery._same_subnet`: an address that is missing is taken to be near.
unfoldable pub same_subnet_or_missing : Str → Str → Bool
same_subnet_or_missing ip_a ip_b =
    if not (truthy ip_a) || not (truthy ip_b) then true else same_lan_scope ip_a ip_b

abbrev pub via_label : Str → Str
via_label via =
    if contains via (codes "rns" ∷ codes "beacon" ∷ [] ∷ [])
    then codes "lan"
    else if via == codes "serial"
    then codes "usb"
    else via

-- `_peer_dedup_key`
unfoldable pub peer_dedup_key : Row → Str
peer_dedup_key row =
    let h = normalize_hash row.hash in
    let ident = normalize_hash row.identity_hash in
    let pubkey = strip row.pubkey in
    let tail = codes ":via:" ++ via_label (lower (strip (or_else row.via (codes "lan")))) in
    if truthy h
    then codes "dest:" ++ (h ++ tail)
    else if truthy ident
    then codes "ident:" ++ (ident ++ tail)
    else if truthy pubkey
    then codes "pk:" ++ (take 48 pubkey ++ tail)
    else codes "hash:unknown" ++ tail

-- `_probe_via_matches`
unfoldable pub probe_via_matches : Row → Str → Bool
probe_via_matches row via =
    let want = lower (strip via) in
    let want' = if want == codes "usb" then codes "serial" else want in
    if not (truthy want)
    then true
    else (if is_serial row then codes "serial" else codes "lan") == want'

-- The row that `_attach_peer_ip` takes an address from, with the rows gone through in order.
-- A serial row of the same name or identity ends the search with no address.
unfoldable pub ip_source : Str → Str → Str → List Row → Option Row
ip_source scope name ident [] = none
ip_source scope name ident (e ∷ rows) =
    let existing_ip = strip e.ip in
    let rest = ip_source scope name ident rows in
    let mine = if is_serial e then none else some e in
    if not (truthy existing_ip)
    then rest
    else if truthy scope && not (peer_in_scope existing_ip scope)
    then rest
    else if truthy name && e.name == name
    then mine
    else if truthy ident && normalize_hash e.identity_hash == ident
    then mine
    else rest

abbrev or_default_port : Option ℕ → Option ℕ
or_default_port none = some 8742
or_default_port (some p) = some p

-- The row with the address of another, if one was found.
abbrev with_ip_of : Option Row → Row → Row
with_ip_of none row = row
with_ip_of (some e) row = record row { ip = strip e.ip; port = or_default_port e.port }

-- `_attach_peer_ip`
unfoldable pub attach_peer_ip : Env → Bool → State → Row → Row
unfolding ip_source
attach_peer_ip env scope_only s row =
    let scope = if scope_only then scope_ip env else [] in
    let found =
      ip_source scope (strip row.name) (normalize_hash row.identity_hash) (values s.peers) in
    if is_serial row
    then record row { ip = [] }
    else if truthy (strip row.ip)
    then row
    else with_ip_of found row

-- The end of `_sanitize_peer_scope`, for a row that is not serial under a scope.
abbrev in_scope : Env → Row → Option Row
in_scope env row =
    let ip = strip row.ip in
    if not (truthy ip) then none else if peer_in_scope ip (scope_ip env) then some row else none

-- `_sanitize_peer_scope`: the row as it may be stored, or `none` to reject it.
unfoldable pub sanitize_peer_scope : Env → State → Row → Option Row
unfolding attach_peer_ip
sanitize_peer_scope env s row =
    if is_serial row
    then (if env.serial_active then some (record row { ip = [] }) else none)
    else if not (truthy (scope_ip env))
    then some row
    else if truthy (strip row.ip)
    then in_scope env row
    else in_scope env (attach_peer_ip env true s row)

-- `_peer_allowed`
abbrev pub peer_allowed : Env → State → Row → Bool
peer_allowed env s row = elim (sanitize_peer_scope env s row) [ none ↦ false | some r ↦ true ]

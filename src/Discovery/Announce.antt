-- ===== src/Discovery/Announce.antt =====
-- What discovery makes of an announce (chatx5/core/discovery.py). The payload is given as decoded.
use chatx.Prelude.{
  Bool, true, false, not, ◌&&◌, ◌||◌, Option, none, some, List, [], ◌∷◌, if◌then◌else◌, ◌==◌,
  nat_eq, contains,
}
use chatx.Text.{Str, codes, truthy, or_else, strip, str_eq}
use chatx.Dict.{values}
use chatx.Hash.{normalize_hash}
use chatx.Scope.{peer_in_scope}
use chatx.Discovery.{Row, State, Env, scope_ip, is_serial, no_row, prefix, is_local_hash}
use chatx.Discovery.Store.{store_peer}

abbrev pub app_name : Str
app_name = codes "chatx5"

-- An announce: the destination, the identity that made it, and its payload. `receiving_family` is
-- what `announce_receiving_interface` says of the path when there is no packet on record.
pub record Announcement : Type 0 where
  pub destination_hash : Str
  pub identity_hash : Str
  pub public_key : Str
  pub app : Str
  pub name : Str
  pub ip : Str
  pub receiving_family : Option Str

-- `packet_fam`
abbrev pub packet_fam : Env → Announcement → Str
packet_fam env a = elim (env.packet_family (normalize_hash a.destination_hash)) [
  | none ↦ elim a.receiving_family [ none ↦ [] | some f ↦ f ]
  | some f ↦ f
]

abbrev serial_or_drop : Env → Option (Str × Str)
serial_or_drop env = if env.serial_active then some (codes "serial", []) else none

abbrev rns_in_scope : Env → Str → Option (Str × Str)
rns_in_scope env ip =
    if truthy (scope_ip env) && not (peer_in_scope ip (scope_ip env))
    then none
    else some (codes "rns", ip)

-- The transport of an announce and the address it is stored with; `none` drops it.
unfoldable pub classify : Env → Str → Str → Option (Str × Str)
classify env fam announce_ip =
    if fam == codes "serial"
    then serial_or_drop env
    else if contains fam (codes "udp" ∷ codes "lan" ∷ codes "tcp" ∷ [])
    then (if truthy announce_ip then rns_in_scope env announce_ip else serial_or_drop env)
    else if truthy announce_ip
    then rns_in_scope env announce_ip
    else serial_or_drop env

-- The first LAN row of the identity: whether it has the hash.
abbrev row_of_identity : Str → Str → List Row → Option Bool
row_of_identity ident hash [] = none
row_of_identity ident hash (e ∷ rows) =
    if is_serial e || not (normalize_hash e.identity_hash == ident)
    then row_of_identity ident hash rows
    else some (normalize_hash e.hash == hash)

-- `_lan_peer_row_for_name`
unfoldable pub lan_peer_row_for_name : Str → List Row → Option Row
lan_peer_row_for_name name [] = none
lan_peer_row_for_name name (e ∷ rows) =
    let rest = lan_peer_row_for_name name rows in
    if truthy (strip name) && not (is_serial e) && strip e.name == strip name then some e else rest

-- Whether an announce without an address is the serial end of a host that is known on the LAN.
unfoldable pub reclassified : Str → Str → Str → List Row → Bool
unfolding lan_peer_row_for_name
reclassified ident hash name rows =
    let by_identity = if truthy ident then row_of_identity ident hash rows else none in
    let by_name = if truthy name then lan_peer_row_for_name name rows else none in
    elim by_identity [
      | some same ↦ not same
      | none ↦ elim by_name [ none ↦ false | some e ↦ not (normalize_hash e.hash == hash) ]
    ]

abbrev pub reclassify : Env → Announcement → State → Str × Str → Str × Str
reclassify env a s (via, ip) =
    let hash = normalize_hash a.destination_hash in
    if via == codes "rns"
      && not (truthy ip)
      && env.serial_active
      && reclassified (normalize_hash a.identity_hash) hash a.name (values s.peers)
    then (codes "serial", [])
    else (via, ip)

abbrev pub announced_row : Env → Announcement → Str × Str → Row
announced_row env a (via, ip) =
    let hash = normalize_hash a.destination_hash in
    record no_row {
      hash = hash;
      name = or_else a.name (prefix hash);
      app = a.app;
      last_seen = env.now;
      via = via;
      serial_rns = if via == codes "serial" then some true else none;
      ip = ip;
      identity_hash = normalize_hash a.identity_hash;
      pubkey = a.public_key;
    }

-- The row that an announce asks to store.
unfoldable pub row_of_announce : Env → Announcement → State → Option Row
unfolding classify
row_of_announce env a s = elim (classify env (packet_fam env a) (strip a.ip)) [
  | none ↦ none
  | some c ↦ some (announced_row env a (reclassify env a s c))
]

unfoldable pub on_announce : Env → Announcement → State → State
on_announce env a s =
    let hash = normalize_hash a.destination_hash in
    let ident = normalize_hash a.identity_hash in
    if not s.running
      || not s.accept_peers
      || not (a.app == app_name)
      || is_local_hash hash s
      || truthy ident && is_local_hash ident s
    then s
    else elim (row_of_announce env a s) [ none ↦ s | some row ↦ (store_peer env row s).1 ]

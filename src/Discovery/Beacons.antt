-- ===== src/Discovery/Beacons.antt =====
-- What discovery makes of a beacon (chatx5/core/discovery.py, and `peer_record_from_beacon` of
-- chatx5/core/peer_identity.py). The payload is given as decoded.
use chatx.Discovery.Removal.{remove_peer_entry}
use chatx.Prelude.{
  ℕ, Bool, true, false, not, ◌&&◌, ◌||◌, Option, none, some, List, [], ◌∷◌, if◌then◌else◌, ◌==◌,
  nat_eq, length,
}
use chatx.Text.{Str, codes, truthy, or_else, strip, lower, str_eq}
use chatx.Dict.{lookup, values}
use chatx.Hash.{normalize_hash}
use chatx.Scope.{peer_in_scope}
use chatx.Discovery.{
  Row, State, Env, scope_ip, truth, no_row, prefix, storage_key_of, is_local_hash,
}
use chatx.Discovery.Rows.{peer_allowed}
use chatx.Discovery.Store.{store_peer}
use chatx.Discovery.Announce.{app_name}

-- A beacon. `registered` is what `register_beacon_identity` returns: the connect hash, or nothing.
pub record Beacon : Type 0 where
  pub app : Str
  pub hash : Str
  pub identity_hash : Str
  pub name : Str
  pub ip : Str
  pub port : Option ℕ
  pub pubkey : Str
  pub serial_hash : Str
  pub serial_identity_hash : Str
  pub serial_pubkey : Str
  pub registered : Str

abbrev beacon_port : Option ℕ → Option ℕ
beacon_port none = some 8742
beacon_port (some p) = some p

unfoldable pub peer_record_from_beacon : Beacon → Option Row
peer_record_from_beacon b =
    let hash = normalize_hash (or_else b.registered b.hash) in
    let ident = normalize_hash b.identity_hash in
    if not (b.app == app_name) || not (length hash == 32)
    then none
    else some (record no_row {
      hash = hash;
      name = or_else (strip b.name) (prefix hash);
      app = app_name;
      ip = strip b.ip;
      port = beacon_port b.port;
      via = codes "beacon";
      identity_hash = if ident == hash then [] else ident;
      pubkey = b.pubkey;
    })

-- The serial end that a beacon names beside its LAN end.
abbrev serial_row : Env → Beacon → Str → Str → Row
serial_row env b name lan_identity_hex =
    let hash = normalize_hash b.serial_hash in
    let label = prefix hash in
    record no_row {
      hash = hash;
      name = or_else (strip (or_else name label)) label;
      via = codes "serial";
      serial_rns = some true;
      last_seen = env.now;
      identity_hash =
          or_else (normalize_hash b.serial_identity_hash) (normalize_hash lan_identity_hex);
      pubkey = strip b.serial_pubkey;
    }

unfoldable pub register_serial_peer_from_beacon : Env → Beacon → Str → Str → State → Bool × State
register_serial_peer_from_beacon env b name lan_identity_hex s =
    let hash = normalize_hash b.serial_hash in
    let ident = normalize_hash b.serial_identity_hash in
    if not (length hash == 32)
      || not env.serial_active
      || is_local_hash hash s
      || truthy ident && is_local_hash ident s
    then (false, s)
    else store_peer env (serial_row env b name lan_identity_hex) s

-- The address that a beacon is stored with; `none` drops it.
unfoldable pub beacon_ip : Env → Str → Str → Option Str
beacon_ip env peer_ip source =
    let local_ip = scope_ip env in
    let effective_ip = or_else peer_ip source in
    if not (truthy local_ip)
    then some effective_ip
    else if truthy source && not (peer_in_scope source local_ip)
    then none
    else if truthy peer_ip && not (peer_in_scope peer_ip local_ip)
    then none
    else if not (truthy effective_ip) || not (peer_in_scope effective_ip local_ip)
    then none
    else some effective_ip

abbrev hash_name : Str → Str → Bool
hash_name name hash = name == prefix hash || lower name == lower (prefix hash)

-- A proper name that a row of the same identity has.
unfoldable pub known_name : Str → List Row → Str → Str
known_name ident [] name = name
known_name ident (e ∷ rows) name =
    let eh = normalize_hash e.hash in
    let ei = normalize_hash e.identity_hash in
    let en = strip e.name in
    let rest = known_name ident rows name in
    if truthy ident && (ei == ident || eh == ident) && truthy en && not (hash_name en eh)
    then en
    else rest

abbrev pub beacon_name : State → Str → Row → Str
beacon_name s ident row =
    let name = strip row.name in
    if not (truthy name) || hash_name name row.hash
    then known_name ident (values s.peers) name
    else name

-- A row that stands as serial under the hash of the beacon, and is not confirmed, goes.
abbrev pub drop_unconfirmed : Str → State → State
drop_unconfirmed hash s =
    let key = storage_key_of hash (codes "serial") in
    elim (lookup key s.peers) [
      | none ↦ s
      | some e ↦ if truth e.serial_rns then s else remove_peer_entry key s
    ]

abbrev pub store_beacon : Env → Beacon → Str → Row → State → State
store_beacon env b name row s =
    let s' = drop_unconfirmed row.hash s in
    let s'' = (store_peer env row s').1 in
    (register_serial_peer_from_beacon env b name (normalize_hash b.identity_hash) s'').1

-- From the record of the beacon on.
abbrev pub accept_beacon : Env → Beacon → Str → Row → State → Bool × State
accept_beacon env b source row s =
    let ident = normalize_hash b.identity_hash in
    let own_ip = strip (or_else b.ip row.ip) in
    elim (beacon_ip env own_ip source) [
      | none ↦ (false, s)
      | some ip ↦
          (let row' = record row { last_seen = env.now; ip = ip } in
            let name = beacon_name s ident row' in
            let row'' = record row' {
              port = beacon_port b.port;
              name = or_else name (prefix row.hash);
            } in
            if peer_allowed env s row' then (true, store_beacon env b name row'' s) else (false, s))
    ]

-- Whether a beacon is our own or names one of our hashes.
abbrev pub own_beacon : Str → Str → Str → Str → State → Bool
own_beacon my_dest my_ident ident hash s =
    truthy ident && (ident == my_ident || ident == my_dest)
    || not (truthy hash)
    || hash == my_dest
    || hash == my_ident
    || is_local_hash hash s
    || is_local_hash ident s

unfoldable pub on_beacon : Env → Beacon → Str → Str → Str → State → Bool × State
unfolding peer_record_from_beacon
on_beacon env b my_dest_hash my_identity_hash source_ip s =
    let my_dest = normalize_hash my_dest_hash in
    let my_ident = normalize_hash (or_else my_identity_hash my_dest_hash) in
    let ident = normalize_hash b.identity_hash in
    if not s.running || not s.accept_peers || not (b.app == app_name)
    then (false, s)
    else elim (peer_record_from_beacon b) [
      | none ↦ (false, s)
      | some row ↦
          if own_beacon my_dest my_ident ident (normalize_hash row.hash) s
          then (false, s)
          else accept_beacon env b (strip source_ip) row s
    ]

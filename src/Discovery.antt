-- ===== src/Discovery.antt =====
-- The table of peers that discovery keeps (chatx5/core/discovery.py): its rows, their keys, and the
-- index from hashes to keys. Sets are lists; what the table hands to the callbacks and to the
-- registry of UDP peers is listed in `effects`.
pub mod Removal
pub mod Beacons
pub mod Rows
pub mod Purge
pub mod Probing
pub mod Store
pub mod Announce
pub mod View
pub mod Index
pub mod Invariant
pub mod Preserved
pub mod Storing
pub mod Sweeps
pub mod Swept
pub mod Found
pub mod Purges
pub mod Choice
pub mod Scoped
pub mod Accepted
pub mod Shown
pub mod Listed
pub mod Inputs
pub mod Ours
pub mod Reachable
mod Tests
use chatx.Prelude.{
  ℕ, zero, suc, ◌+◌, ◌-◌, ◌*◌, ◌/◌, ◌%◌, ◌≤◌, ◌<◌, max, min, ◌≡◌, refl, sym, ap, ◌∙◌, ◌≢◌, ◌↔◌, ◌⊎◌,
  inl, inr, Bool, true, false, not, ◌&&◌, ◌||◌, Option, none, some, List, [], ◌∷◌, ◌++◌, map,
  append-nil, append_assoc, arith, ltb, leb, nat_beq, nat_beq_iff, if◌then◌else◌, Bool-cases,
  Option-cases, Eq, ◌==◌, nat_eq, contains, length, drop, take, keep, count, any, all,
  length-append, length-drop, length-keep-le, keep-append, keep-keep, keep_of_length, any-keep-not,
  keep_of_none, keep_of_some, All, All-append, All-keep, All-drop,
}
use chatx.Text.{Str, codes, truthy, or_else, strip, lower, str_eq}
use chatx.Dict.{Dict, lookup, insert, erase}
use chatx.Hash.{normalize_hash}

-- A record of a peer; a field that is missing is empty.
pub record Row : Type 0 where
  pub hash : Str
  pub name : Str
  pub app : Str
  pub via : Str
  pub ip : Str
  pub port : Option ℕ
  pub identity_hash : Str
  pub pubkey : Str
  pub serial_rns : Option Bool
  pub last_seen : ℕ
  pub rtt_ms : Option ℕ
  pub rtt_avg_ms : Option ℕ
  pub rtt_samples : Option (List ℕ)
  pub probe_failures : ℕ
  pub last_probe_ok : ℕ
  pub last_probe_at : Option ℕ
  pub last_rtt_probe_at : Option ℕ

-- `{}`
abbrev pub no_row : Row
no_row = record {
  hash = [];
  name = [];
  app = [];
  via = [];
  ip = [];
  port = none;
  identity_hash = [];
  pubkey = [];
  serial_rns = none;
  last_seen = 0;
  rtt_ms = none;
  rtt_avg_ms = none;
  rtt_samples = none;
  probe_failures = 0;
  last_probe_ok = 0;
  last_probe_at = none;
  last_rtt_probe_at = none;
}

-- Calls that leave the table: `register_udp_peer_ip`, `unregister_udp_peer_ip`, `on_peer_evicted`
-- and `on_peer_seen`.
pub data Effect : Type 0 where
  registered : Str → Effect
  unregistered : Str → Effect
  evicted : List Str → Option Row → Effect
  seen : Row → Effect

pub record State : Type 0 where
  pub peers : Dict Row
  pub hash_index : Dict (List Str)
  pub running : Bool
  pub accept_peers : Bool
  pub local_hashes : List Str
  pub effects : List Effect

-- What an operation reads of the world: `serial_discovery_active()`, `discovery_scope_ip()`, the clock,
-- and the family of the interface on which the last announce of a hash came in, if there is one.
pub record Env : Type 0 where
  pub serial_active : Bool
  pub discovery_scope_ip : Str
  pub now : ℕ
  pub packet_family : Str → Option Str

-- `_scope_ip`; the empty text is None.
abbrev pub scope_ip : Env → Str
scope_ip env = strip env.discovery_scope_ip

-- `(peer.get("via") or "").strip() == "serial"`
abbrev pub is_serial : Row → Bool
is_serial row = strip row.via == codes "serial"

abbrev pub truth : Option Bool → Bool
truth none = false
truth (some b) = b

-- `d.get(k) or []`
abbrev pub or_nil {ℓ} : {A : Type ℓ} → Option (List A) → List A
or_nil none = []
or_nil (some xs) = xs

-- `self.peers.get(key) or {}`
abbrev pub or_empty_row : Option Row → Row
or_empty_row none = no_row
or_empty_row (some row) = row

-- `s.split(c, 1)[0]`
unfoldable pub before : ℕ → Str → Str
before c [] = []
before c (d ∷ s) = let rest = before c s in if d == c then [] else d ∷ rest

-- `s.add(x)` and `s.discard(x)`
abbrev pub add : Str → List Str → List Str
add k ks = if contains k ks then ks else ks ++ (k ∷ [])

abbrev pub discard : Str → List Str → List Str
discard k ks = keep (λ j. not (j == k)) ks

abbrev pub is_empty {ℓ} : {A : Type ℓ} → List A → Bool
is_empty [] = true
is_empty (x ∷ xs) = false

-- `{h for h in hashes if h}`
unfoldable pub index_hashes_for_peer : Str → Row → List Str
index_hashes_for_peer storage_key row = keep truthy (
    normalize_hash (before b':' storage_key)
    ∷ normalize_hash row.hash
    ∷ normalize_hash row.identity_hash
    ∷ [])

unfoldable pub index_hash : Str → Str → Dict (List Str) → Dict (List Str)
index_hash storage_key h index = insert h (add storage_key (or_nil (lookup h index))) index

unfoldable pub index_hashes : Str → List Str → Dict (List Str) → Dict (List Str)
index_hashes storage_key [] index = index
index_hashes storage_key (h ∷ hs) index =
    index_hashes storage_key hs (index_hash storage_key h index)

unfoldable pub index_peer : Str → Row → State → State
index_peer storage_key row s = record s {
  hash_index = index_hashes storage_key (index_hashes_for_peer storage_key row) s.hash_index;
}

-- The set of a hash once the key has left it.
abbrev put_left : Str → List Str → Dict (List Str) → Dict (List Str)
put_left h left index = if is_empty left then erase h index else insert h left index

unfoldable pub unindex_hash : Str → Str → Dict (List Str) → Dict (List Str)
unindex_hash storage_key h index =
    let keys = or_nil (lookup h index) in
    if is_empty keys then index else put_left h (discard storage_key keys) index

unfoldable pub unindex_hashes : Str → List Str → Dict (List Str) → Dict (List Str)
unindex_hashes storage_key [] index = index
unindex_hashes storage_key (h ∷ hs) index =
    unindex_hashes storage_key hs (unindex_hash storage_key h index)

unfoldable pub unindex_peer : Str → Row → State → State
unindex_peer storage_key row s = record s {
  hash_index = unindex_hashes storage_key (index_hashes_for_peer storage_key row) s.hash_index;
}

-- `list(self.peers.keys())`
abbrev pub keys_of {ℓ} : {V : Type ℓ} → Dict V → List Str
keys_of [] = []
keys_of ((k, v) ∷ d) = k ∷ keys_of d

abbrev pub has_key {ℓ} : {V : Type ℓ} → Dict V → Str → Bool
has_key d k = elim (lookup k d) [ none ↦ false | some v ↦ true ]

-- The rows with a hash, found by going through the table, are indexed on the way.
abbrev pub index_found : List Str → State → State
index_found [] s = s
index_found (k ∷ ks) s =
    index_found ks (elim (lookup k s.peers) [ none ↦ s | some row ↦ index_peer k row s ])

-- The keys of the rows with a hash, by going through the table.
abbrev pub scan : Str → State → List Str
scan clean s =
    keep (λ k. normalize_hash (or_empty_row (lookup k s.peers)).hash == clean) (keys_of s.peers)

-- `clean` stands in the index under `keys`.
abbrev pub keys_or_scan : Str → List Str → State → List Str × State
keys_or_scan clean [] s = (scan clean s, index_found (scan clean s) s)
keys_or_scan clean (k ∷ ks) s = (k ∷ ks, s)

-- What the index has under a hash, and the hash itself if it is a key.
abbrev pub candidates : Str → State → List Str
candidates clean s =
    let keys = keep (has_key s.peers) (or_nil (lookup clean s.hash_index)) in
    if has_key s.peers clean then add clean keys else keys

unfoldable pub peer_keys_for_hash : Str → State → List Str × State
peer_keys_for_hash hash_hex s =
    let clean = normalize_hash hash_hex in
    if truthy clean then keys_or_scan clean (candidates clean s) s else ([], s)

unfoldable pub has_peer_hash : Str → State → Bool × State
has_peer_hash hash_hex s = let r = peer_keys_for_hash hash_hex s in (not (is_empty r.0), r.1)

-- An entry that is there is taken out of the index too.
unfoldable pub pop_peer_key : Str → State → State
pop_peer_key key s = elim (lookup key s.peers) [
  | none ↦ s
  | some row ↦ unindex_peer key row (record s { peers = erase key s.peers })
]

unfoldable pub is_local_hash : Str → State → Bool
is_local_hash hash_hex s =
    let clean = normalize_hash hash_hex in truthy clean && contains clean s.local_hashes

abbrev pub effect : Effect → State → State
effect e s = record s { effects = s.effects ++ (e ∷ []) }

-- `h[:8]`
abbrev pub prefix : Str → Str
prefix h = take 8 h

-- The transport in a storage key: `rns`, `beacon` and `lan` are one.
abbrev pub storage_via : Str → Str
storage_via raw_via =
    if raw_via == codes "serial"
    then codes "serial"
    else if contains raw_via (codes "rns" ∷ codes "beacon" ∷ codes "lan" ∷ [] ∷ [])
    then codes "lan"
    else raw_via

unfoldable pub storage_key_of : Str → Str → Str
storage_key_of hash via =
    let h = normalize_hash hash in
    if truthy h then h ++ (b':' ∷ storage_via (lower (strip (or_else via (codes "lan"))))) else []

abbrev pub peer_storage_key : Row → Str
peer_storage_key row = storage_key_of row.hash row.via

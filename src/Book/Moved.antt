-- ===== src/Book/Moved.antt =====
-- Contacts whose peer has another hash or another address (`migrate_contact_by_ip` and
-- `update_contact_endpoint` of chatx5/core/contacts.py). `none` is the ValueError of a save without a hash.
use chatx.Prelude.{
  ℕ, Bool, false, not, ◌&&◌, ◌||◌, Option, none, some, List, [], ◌∷◌, ◌++◌, if◌then◌else◌, ◌==◌,
  nat_eq,
}
use chatx.Text.{Str, codes, truthy, or_else, strip, lower, str_eq}
use chatx.Scope.{should_update_contact_ip}
use chatx.Contacts.{no_colons, contact_primary_hash}
use chatx.Contacts.Discovery.{names_related}
use chatx.Book.{Card, normalize_card, is_custom, resolve_contact_name}
use chatx.Book.Files.{Directory, list_contacts, unlink_contact_file}
use chatx.Book.Save.{Request, clean_hash, save_contact}

-- The peer as it is seen now.
pub record Endpoint : Type 0 where
  pub hash : Str
  pub ip : Str
  pub port : Option ℕ
  pub identity_hash : Str
  pub name : Str

abbrev pub migration : Endpoint → Card → Request
migration e c = record {
  peer_hash = clean_hash e.hash;
  name = resolve_contact_name c e.name false;
  ip = strip e.ip;
  port = e.port;
  identity_hash = e.identity_hash;
  via = codes "lan";
  lan_hash = clean_hash e.hash;
  serial_hash = c.entry.serial_hash;
  lan_identity_hash = [];
  serial_identity_hash = c.entry.serial_identity_hash;
  custom_name = is_custom c;
}

-- After the save: the file under the old hash goes, and the hash is reported.
abbrev pub replaced : Str → Str → Card × Directory → List Str × Directory
replaced new_clean old_key (updated, files) =
    if truthy old_key && not (old_key == or_else (contact_primary_hash updated.entry) new_clean)
    then (old_key ∷ [], unlink_contact_file old_key files)
    else ([], files)

abbrev pub migrate_one : Endpoint → Card → Directory → Option (List Str × Directory)
migrate_one e c files = elim (save_contact (migration e (normalize_card c)) files) [
  | none ↦ none
  | some r ↦ some (replaced (clean_hash e.hash) (contact_primary_hash c.entry) r)
]

abbrev pub prepend : List Str → Option (List Str × Directory) → Option (List Str × Directory)
prepend removed none = none
prepend removed (some (more, files)) = some (removed ++ more, files)

-- For each contact with the address.
unfoldable pub migrate_each : Endpoint → List Card → Directory → Option (List Str × Directory)
migrate_each e [] files = some ([], files)
migrate_each e (c ∷ cs) files =
    elim (if strip c.entry.ip == strip e.ip then migrate_one e c files else some ([], files)) [
      | none ↦ none
      | some r ↦ prepend r.0 (migrate_each e cs r.1)
    ]

unfoldable pub migrate_contact_by_ip : Endpoint → Directory → Option (List Str × Directory)
migrate_contact_by_ip e files =
    let r = list_contacts files in
    if not (truthy (strip e.ip)) || not (truthy (clean_hash e.hash))
    then some ([], files)
    else migrate_each e r.0 r.1

-- Whether a contact is the peer.
unfoldable pub same_contact : (Str → Str → Bool) → Endpoint → Card → Bool
same_contact peers_equivalent e c =
    let clean = clean_hash e.hash in
    let ch = no_colons c.entry.hash in
    let ih = no_colons c.entry.identity_hash in
    let ident = clean_hash e.identity_hash in
    let peer_name = lower (strip e.name) in
    let cn = lower (strip c.name) in
    ch == clean
    || peers_equivalent ch clean
    || truthy ih && peers_equivalent ih clean
    || truthy e.identity_hash && (ih == ident || ch == ident)
    || truthy peer_name && truthy cn && (names_related cn peer_name || cn == peer_name)

abbrev or_port : Option ℕ → Option ℕ → Option ℕ
or_port (some p) other = some p
or_port none other = other

-- The save of an endpoint, with the hash and the address that it is for.
abbrev pub endpoint_request : Endpoint → Card → Str → Str → Str → Request
endpoint_request e c peer_hash lan_hash ip = record {
  peer_hash = peer_hash;
  name = resolve_contact_name c e.name false;
  ip = ip;
  port = or_port e.port c.port;
  identity_hash = or_else e.identity_hash (no_colons c.entry.identity_hash);
  via = codes "lan";
  lan_hash = lan_hash;
  serial_hash = c.entry.serial_hash;
  lan_identity_hash = [];
  serial_identity_hash = c.entry.serial_identity_hash;
  custom_name = is_custom c;
}

abbrev pub updated : Option (Card × Directory) → Option (Option Card × Directory)
updated none = none
updated (some (c, files)) = some (some c, files)

-- The contact is saved under the new hash, or with the new address, or left alone.
unfoldable pub update_same : Endpoint → Str → Card → Directory → Option (Option Card × Directory)
update_same e local_scope_ip c files =
    let clean = clean_hash e.hash in
    let target_ip = strip e.ip in
    let contact_ip = strip c.entry.ip in
    let ch = no_colons c.entry.hash in
    let lan = no_colons (or_else c.entry.lan_hash ch) in
    if not (lan == clean) && ch == lan
    then updated
        (save_contact (endpoint_request e c clean clean (or_else target_ip contact_ip)) files)
    else if truthy target_ip && should_update_contact_ip contact_ip target_ip local_scope_ip
    then updated
        (save_contact (endpoint_request e c (or_else ch clean) (or_else lan clean) target_ip) files)
    else some (none, files)

unfoldable pub update_first :
    (Str → Str → Bool) → Endpoint → Str → List Card → Directory → Option (Option Card × Directory)
update_first peers_equivalent e scope [] files = some (none, files)
update_first peers_equivalent e scope (c ∷ cs) files =
    let rest = update_first peers_equivalent e scope cs files in
    if same_contact peers_equivalent e c then update_same e scope c files else rest

unfoldable pub update_contact_endpoint :
    (Str → Str → Bool) → Endpoint → Str → Directory → Option (Option Card × Directory)
update_contact_endpoint peers_equivalent e local_scope_ip files =
    let r = list_contacts files in
    if truthy (clean_hash e.hash)
    then update_first peers_equivalent e local_scope_ip r.0 r.1
    else some (none, files)

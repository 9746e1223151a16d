-- ===== src/Book/Update.antt =====
-- How discovery brings saved contacts up to date (chatx5/core/contacts.py): a peer that is seen again, and a
-- hash that takes the place of another.
use chatx.Prelude.{
  ℕ, Bool, true, false, not, ◌&&◌, ◌||◌, Option, none, some, List, [], ◌∷◌, if◌then◌else◌, ◌==◌,
  nat_eq,
}
use chatx.Text.{Str, codes, truthy, or_else, strip, lower, str_eq}
use chatx.Scope.{should_update_contact_ip}
use chatx.Contacts.{no_colons, contact_primary_hash}
use chatx.Contacts.Discovery.{Peer, peer_transport_family, contact_matches_discovery_peer}
use chatx.Book.{Card, normalize_card, has_persisted_display_name, resolve_contact_name}
use chatx.Book.Files.{
  Directory, load_contact, list_contacts, find_card, write_contact, purge_stale_contact_files,
  unlink_contact_file,
}
use chatx.Book.Save.{clean_hash, lan_identity, serial_identity}

-- A row of discovery as the contacts read it.
pub record Sighting : Type 0 where
  pub peer : Peer
  pub via : Str
  pub port : Option ℕ

-- A card with whether it was changed.
abbrev pub Change : Type 0
Change = Card × Bool

abbrev pub set_serial : Str → Str → Change → Change
set_serial new_hash ident (c, changed) =
    let b = not (no_colons c.entry.serial_hash == new_hash) in
    let c' = if b then record c { entry = record c.entry { serial_hash = new_hash } } else c in
    if truthy ident
    then (record c' { entry = record c'.entry { serial_identity_hash = ident } }, true)
    else (c', changed || b)

-- The LAN hash is set when it is another, which it is too when it was that of the serial link.
abbrev pub set_lan : Str → Change → Change
set_lan new_hash (c, changed) =
    if not (no_colons (or_else c.entry.lan_hash c.entry.hash) == new_hash)
    then (record c { entry = record c.entry { lan_hash = new_hash; hash = new_hash } }, true)
    else (c, changed)

abbrev pub set_ip : Str → Str → Change → Change
set_ip ip scope (c, changed) =
    if truthy ip
      && (should_update_contact_ip (strip c.entry.ip) ip scope || not (truthy (strip c.entry.ip)))
    then (record c { entry = record c.entry { ip = ip } }, true)
    else (c, changed)

abbrev same_port : Option ℕ → ℕ → Bool
same_port none p = false
same_port (some q) p = q == p

abbrev pub set_port : Option ℕ → Change → Change
set_port none (c, changed) = (c, changed)
set_port (some p) (c, changed) =
    if same_port c.port p then (c, changed) else (record c { port = some p }, true)

abbrev pub set_lan_identity : Str → Change → Change
set_lan_identity ident (c, changed) =
    if truthy ident
    then (
      record c { entry = record c.entry { lan_identity_hash = ident; identity_hash = ident } },
      true,
    )
    else (c, changed)

abbrev pub set_name : Str → Change → Change
set_name name (c, changed) =
    let resolved = resolve_contact_name c name false in
    if truthy name
      && not (has_persisted_display_name c)
      && truthy resolved
      && not (resolved == strip c.name)
    then (record c { name = resolved }, true)
    else (c, changed)

unfoldable pub refreshed : Sighting → Str → Card → Card × Bool
refreshed seen scope contact =
    let new_hash = no_colons seen.peer.hash in
    let ident = no_colons seen.peer.identity_hash in
    let c : Card × Bool = (normalize_card contact, false) in
    let c' =
      if peer_transport_family seen.via == codes "serial"
      then set_serial new_hash ident c
      else set_lan_identity ident
          (set_port seen.port (set_ip (strip seen.peer.ip) scope (set_lan new_hash c))) in
    set_name seen.peer.name c'

-- The entry in place of what it was, so that the files of both go.
abbrev over : Str → Str → Str
over old new = or_else new old

abbrev stale_card : Card → Card → Card
stale_card old new = record new {
  entry = record new.entry {
    hash = over old.entry.hash new.entry.hash;
    lan_hash = over old.entry.lan_hash new.entry.lan_hash;
    serial_hash = over old.entry.serial_hash new.entry.serial_hash;
    identity_hash = over old.entry.identity_hash new.entry.identity_hash;
    lan_identity_hash = over old.entry.lan_identity_hash new.entry.lan_identity_hash;
    serial_identity_hash = over old.entry.serial_identity_hash new.entry.serial_identity_hash;
  };
}

abbrev write_refreshed : Str → Card → Card × Bool → Directory → Directory
write_refreshed new_hash old (c, changed) files =
    let file_key = or_else (contact_primary_hash c.entry) new_hash in
    if changed
    then purge_stale_contact_files (stale_card old c) file_key (write_contact file_key c files)
    else files

-- The first contact that matches.
unfoldable pub sync_first :
    (Str → Str → Bool) → Sighting → Str → List Card → Directory → Option Card × Directory
sync_first peers_equivalent seen scope [] files = (none, files)
sync_first peers_equivalent seen scope (c ∷ cs) files =
    let rest = sync_first peers_equivalent seen scope cs files in
    let r = refreshed seen scope c in
    if contact_matches_discovery_peer peers_equivalent c.entry c.name seen.peer
    then (some r.0, write_refreshed (no_colons seen.peer.hash) c r files)
    else rest

unfoldable pub sync_contact_from_discovery :
    (Str → Str → Bool) → Sighting → Str → Directory → Option Card × Directory
sync_contact_from_discovery peers_equivalent seen scope files =
    let r = list_contacts files in
    if truthy (no_colons seen.peer.hash)
    then sync_first peers_equivalent seen scope r.0 r.1
    else (none, files)

-- The arguments of `update_contact_transport_hash` and of `migrate_contact_hash`.
pub record Supersede : Type 0 where
  pub old_hash : Str
  pub new_hash : Str
  pub via : Str
  pub name : Str
  pub ip : Str
  pub port : Option ℕ
  pub identity_hash : Str

unfoldable pub superseding : Bool → Supersede → Card → Card
superseding is_serial u c =
    let new_clean = clean_hash u.new_hash in
    let c' =
      if is_serial
      then serial_identity u.identity_hash
          (record c { entry = record c.entry { serial_hash = new_clean } })
      else (let d =
            lan_identity u.identity_hash
              (record c { entry = record c.entry { lan_hash = new_clean; hash = new_clean } }) in
          record d {
            entry = record d.entry { ip = if truthy (strip u.ip) then strip u.ip else d.entry.ip };
            port = elim u.port [ none ↦ d.port | some p ↦ some p ];
          }) in
    if truthy (strip u.name) then record c' { name = resolve_contact_name c' u.name false } else c'

abbrev nothing_to_do : Supersede → Bool
nothing_to_do u =
    not (truthy (clean_hash u.old_hash))
    || not (truthy (clean_hash u.new_hash))
    || clean_hash u.old_hash == clean_hash u.new_hash

abbrev write_superseding : Supersede → (Card → Card) → Card → Directory → Directory
write_superseding u written c files =
    let file_key = or_else (contact_primary_hash c.entry) (clean_hash u.new_hash) in
    let files' = write_contact file_key (written c) files in
    if clean_hash u.old_hash == file_key
    then files'
    else unlink_contact_file (clean_hash u.old_hash) files'

abbrev update_found : Supersede → Option Card × Directory → Option Card × Directory
update_found u (none, files) = (none, files)
update_found u (some entry, files) =
    let transport = lower (strip u.via) in
    let is_serial =
      transport == codes "serial"
      || not (truthy transport) && clean_hash u.old_hash == no_colons entry.entry.serial_hash in
    let c = superseding is_serial u entry in
    (some (normalize_card c), write_superseding u normalize_card c files)

unfoldable pub update_contact_transport_hash : Supersede → Directory → Option Card × Directory
update_contact_transport_hash u files =
    if nothing_to_do u
    then (none, files)
    else update_found u (find_card files (clean_hash u.old_hash))

abbrev or_load : Str → Option Card × Directory → Option Card × Directory
or_load clean (some c, files) = (some c, files)
or_load clean (none, files) = (load_contact files clean, files)

abbrev migrate_found : Supersede → Option Card × Directory → Bool × Directory
migrate_found u (none, files) = (false, files)
migrate_found u (some found, files) =
    let entry = normalize_card found in
    let old_clean = clean_hash u.old_hash in
    let transport = lower (strip u.via) in
    let is_serial =
      transport == codes "serial"
      || not (truthy transport)
        && old_clean == no_colons entry.entry.serial_hash
        && not (old_clean == no_colons (or_else entry.entry.lan_hash entry.entry.hash)) in
    let c = superseding is_serial u entry in (true, write_superseding u (λ card. card) c files)

unfoldable pub migrate_contact_hash : Supersede → Directory → Bool × Directory
migrate_contact_hash u files =
    let old_clean = clean_hash u.old_hash in
    if nothing_to_do u
    then (false, files)
    else migrate_found u (or_load old_clean (find_card files old_clean))

abbrev pub port_or_default : Option ℕ → ℕ
port_or_default none = 8742
port_or_default (some p) = if p == 0 then 8742 else p

-- `contact_connect_meta`, on the contacts that are listed
unfoldable pub contact_connect_meta : (Str → Str → Bool) → Str → List Card → Option (Str × ℕ)
contact_connect_meta peers_equivalent peer_hash [] = none
contact_connect_meta peers_equivalent peer_hash (c ∷ cs) =
    let clean = clean_hash peer_hash in
    let rest = contact_connect_meta peers_equivalent peer_hash cs in
    let ih = no_colons c.entry.identity_hash in
    if (peers_equivalent (no_colons c.entry.hash) clean || truthy ih && peers_equivalent ih clean)
      && truthy (strip c.entry.ip)
    then some (strip c.entry.ip, port_or_default c.port)
    else rest

-- ===== src/Book/Save.antt =====
-- `save_contact` of chatx5/core/contacts.py.
use chatx.Prelude.{
  ℕ, Bool, true, false, not, ◌&&◌, ◌||◌, Option, none, some, List, [], ◌∷◌, if◌then◌else◌, ◌==◌,
  nat_eq, contains,
}
use chatx.Text.{Str, codes, truthy, or_else, strip, lower, str_eq}
use chatx.Contacts.{no_colons, contact_primary_hash}
use chatx.Contacts.Discovery.{names_related}
use chatx.Book.{Card, normalize_card, card_hashes, resolve_contact_name}
use chatx.Book.Files.{
  Directory, load_contact, list_contacts, find_card, bare_card, write_contact,
  purge_stale_contact_files, unlink_contact_file,
}

-- The arguments of a save. What is not given is empty; a port that `int` refuses is not given.
pub record Request : Type 0 where
  pub peer_hash : Str
  pub name : Str
  pub ip : Str
  pub port : Option ℕ
  pub identity_hash : Str
  pub via : Str
  pub lan_hash : Str
  pub serial_hash : Str
  pub lan_identity_hash : Str
  pub serial_identity_hash : Str
  pub custom_name : Bool

-- `(x or "").strip().replace(":", "")`
abbrev pub clean_hash : Str → Str
clean_hash s = no_colons (strip s)

abbrev pub dual_save : Request → Bool
dual_save r =
    truthy (clean_hash r.lan_hash)
    && truthy (clean_hash r.serial_hash)
    && not (clean_hash r.lan_hash == clean_hash r.serial_hash)

-- Whether a save is for the serial link alone.
unfoldable pub is_serial_save : Request → Bool
is_serial_save r =
    let lan = truthy (clean_hash r.lan_hash) in
    let serial = truthy (clean_hash r.serial_hash) in
    let transport = lower (strip r.via) in
    let explicit_serial = transport == codes "serial" in
    let explicit_lan =
      contains transport
        (codes "lan" ∷ codes "rns" ∷ codes "beacon" ∷ codes "udp" ∷ codes "tcp" ∷ []) in
    if dual_save r
    then false
    else if serial && not lan && not explicit_lan
    then true
    else if lan && not serial && not explicit_serial
    then false
    else explicit_serial && not explicit_lan

-- The contact that a save is merged into.
abbrev first_identity : Str → List Card → Option Card
first_identity ident [] = none
first_identity ident (c ∷ cs) =
    let rest = first_identity ident cs in
    if contains ident (card_hashes c) then some (normalize_card c) else rest

abbrev first_named : Str → List Card → Option Card
first_named display [] = none
first_named display (c ∷ cs) =
    let rest = first_named display cs in
    let cname = strip c.name in
    if lower cname == lower display || names_related cname display
    then some (normalize_card c)
    else rest

abbrev by_name : Str → Option Card × Directory → Option Card × Directory
by_name display (some c, files) = (some c, files)
by_name display (none, files) =
    let r = list_contacts files in
    if truthy display then (first_named display r.0, r.1) else (none, files)

abbrev by_identity : Str → Option Card × Directory → Option Card × Directory
by_identity identity (some c, files) = (some c, files)
by_identity identity (none, files) =
    let r = list_contacts files in
    if truthy identity then (first_identity (clean_hash identity) r.0, r.1) else (none, files)

abbrev or_loaded : Str → Option Card × Directory → Card × Directory
or_loaded clean (some c, files) = (c, files)
or_loaded clean (none, files) = elim (load_contact files clean) [
  | none ↦ (bare_card clean clean, files)
  | some c ↦ (c, files)
]

unfoldable pub existing_card : Request → Directory → Card × Directory
existing_card r files =
    let clean = clean_hash r.peer_hash in
    or_loaded clean (by_name (strip r.name) (by_identity r.identity_hash (find_card files clean)))

abbrev pub endpoint : Request → Card → Card
endpoint r c = record c {
  entry = record c.entry { ip = if truthy (strip r.ip) then strip r.ip else c.entry.ip };
  port = elim r.port [ none ↦ c.port | some p ↦ some p ];
}

abbrev pub lan_identity : Str → Card → Card
lan_identity given_identity c =
    let ident = clean_hash given_identity in
    if truthy given_identity
    then record c { entry = record c.entry { lan_identity_hash = ident; identity_hash = ident } }
    else c

abbrev pub serial_identity : Str → Card → Card
serial_identity given_identity c =
    if truthy given_identity
    then record c { entry = record c.entry { serial_identity_hash = clean_hash given_identity } }
    else c

abbrev save_dual : Request → Card → Card
save_dual r c =
    let lan = clean_hash r.lan_hash in
    endpoint r (
      serial_identity r.serial_identity_hash (
        lan_identity (or_else r.lan_identity_hash r.identity_hash) (record c {
          entry = record c.entry {
            lan_hash = lan;
            hash = lan;
            serial_hash = clean_hash r.serial_hash;
          };
        })))

-- Without a LAN hash that differs, the contact has no primary hash.
abbrev serial_primary : Str → Card → Card
serial_primary target c =
    let lan = no_colons c.entry.lan_hash in
    if truthy lan && not (lan == target)
    then record c { entry = record c.entry { hash = lan } }
    else record c {
      entry = record c.entry {
        hash = [];
        lan_hash = if lan == target then [] else c.entry.lan_hash;
      };
    }

abbrev save_serial : Request → Card → Card
save_serial r c =
    let clean = clean_hash r.peer_hash in
    let target =
      or_else (clean_hash r.serial_hash) (if clean == clean_hash r.lan_hash then [] else clean) in
    let c' =
      if truthy target then record c { entry = record c.entry { serial_hash = target } } else c in
    serial_primary target (serial_identity (or_else r.serial_identity_hash r.identity_hash) c')

abbrev serial_beside : Request → Card → Card
serial_beside r c =
    if truthy (clean_hash r.serial_hash)
    then serial_identity r.serial_identity_hash
        (record c { entry = record c.entry { serial_hash = clean_hash r.serial_hash } })
    else c

abbrev save_lan : Request → Card → Card
save_lan r c =
    let lan = or_else (clean_hash r.lan_hash) (clean_hash r.peer_hash) in
    serial_beside r (
      endpoint r (
        lan_identity (or_else r.lan_identity_hash r.identity_hash)
          (record c { entry = record c.entry { lan_hash = lan; hash = lan } })))

-- The name and the mark of a name that the user chose.
abbrev named : Request → Card → Card
named r c =
    let c' =
      if r.custom_name
      then record c { entry = record c.entry { custom_name = some true } }
      else c in
    let resolved = resolve_contact_name c' (strip r.name) r.custom_name in
    if truthy resolved then record c' { name = resolved } else c'

-- One hash in both fields is the LAN's.
abbrev drop_double : Card → Card
drop_double c =
    let lan = no_colons c.entry.lan_hash in
    if truthy lan && truthy (no_colons c.entry.serial_hash) && lan == no_colons c.entry.serial_hash
    then record c { entry = record c.entry { serial_hash = [] } }
    else c

unfoldable pub saved_card : Request → Card → Card
saved_card r existing =
    let c = named r (normalize_card existing) in
    drop_double (
      normalize_card (
        if dual_save r
        then save_dual r c
        else if is_serial_save r
        then save_serial r c
        else save_lan r c))

-- Written under its primary hash; the files of its other hashes go.
unfoldable pub store_card : Str → Card → Directory → Directory
store_card clean c files =
    let file_key = or_else (contact_primary_hash c.entry) clean in
    let files' = purge_stale_contact_files c file_key (write_contact file_key c files) in
    if clean == file_key then files' else unlink_contact_file clean files'

-- `none` is the ValueError of a save without a hash.
unfoldable pub save_contact : Request → Directory → Option (Card × Directory)
save_contact r files =
    let clean = clean_hash r.peer_hash in
    let existing = existing_card r files in
    let c = saved_card r existing.0 in
    if truthy clean then some (c, store_card clean c existing.1) else none

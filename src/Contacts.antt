-- ===== src/Contacts.antt =====
-- Saved contacts (chatx5/core/contacts.py): the two hashes of a contact, for LAN and for serial links. A
-- missing field and an empty one are the same. Names, files and searches stand in Book.
pub mod Normal
pub mod Discovery
mod Tests
use chatx.Prelude.{
  ℕ, zero, suc, ◌+◌, ◌-◌, ◌*◌, ◌/◌, ◌%◌, ◌≤◌, ◌<◌, max, min, ◌≡◌, refl, sym, ap, ◌∙◌, ◌≢◌, ◌↔◌, ◌⊎◌,
  inl, inr, Bool, true, false, not, ◌&&◌, ◌||◌, Option, none, some, List, [], ◌∷◌, ◌++◌, map,
  append-nil, append_assoc, arith, ltb, leb, nat_beq, nat_beq_iff, if◌then◌else◌, Bool-cases,
  Option-cases, Eq, ◌==◌, nat_eq, contains, length, drop, take, keep, count, any, all,
  length-append, length-drop, length-keep-le, keep-append, keep-keep, keep_of_length, any-keep-not,
  keep_of_none, keep_of_some, All, All-append, All-keep, All-drop,
}
use chatx.Text.{Str, codes, truthy, or_else, remove_char, strip, lower, str_eq}
use chatx.Hash.{normalize_hash}

pub record Contact : Type 0 where
  pub hash : Str
  pub lan_hash : Str
  pub serial_hash : Str
  pub identity_hash : Str
  pub lan_identity_hash : Str
  pub serial_identity_hash : Str
  pub ip : Str
  pub via : Str
  pub custom_name : Option Bool

-- `x.replace(":", "")`
abbrev pub no_colons : Str → Str
no_colons = remove_char b':'

-- The entry with the local variables `h`, `lan` and `serial`.
pub record Stage : Type 0 where
  pub entry : Contact
  pub h : Str
  pub lan : Str
  pub serial : Str

abbrev start : Contact → Stage
start e = record {
  entry = e;
  h = no_colons e.hash;
  lan = no_colons e.lan_hash;
  serial = no_colons e.serial_hash;
}

abbrev pop_hash : Stage → Stage
pop_hash s = record s { entry = record s.entry { hash = [] }; h = [] }

abbrev pop_serial : Stage → Stage
pop_serial s = record s { entry = record s.entry { serial_hash = [] }; serial = [] }

abbrev pop_lan : Stage → Stage
pop_lan s = record s { entry = record s.entry { lan_hash = [] }; lan = [] }

-- One hash in both fields: with an address it is the LAN's.
unfoldable pub separate : Stage → Stage
separate s =
    if truthy s.serial && truthy s.lan && s.lan == s.serial
    then (if truthy (strip s.entry.ip)
        then pop_serial s
        else if s.h == s.serial
        then pop_hash (pop_lan s)
        else pop_lan s)
    else s

unfoldable pub drop_serial_primary : Stage → Stage
drop_serial_primary s =
    if truthy s.serial && s.h == s.serial && not (truthy s.lan) then pop_hash s else s

-- A hash alone goes to the transport of the contact.
unfoldable pub assign_transport : Stage → Stage
assign_transport s =
    if truthy s.h && not (truthy s.lan) && not (truthy s.serial)
    then (if lower (strip s.entry.via) == codes "serial"
        then record s {
          entry = record s.entry { serial_hash = s.h; hash = [] };
          serial = s.h;
          h = [];
        }
        else record s { entry = record s.entry { lan_hash = s.h }; lan = s.h })
    else s

abbrev set_primary : Stage → Contact
set_primary s =
    if truthy s.lan && not (truthy s.entry.hash) then record s.entry { hash = s.lan } else s.entry

abbrev set_identity : Str → Contact → Contact
set_identity lan e =
    if truthy lan && not (truthy e.identity_hash) && truthy e.lan_identity_hash
    then record e { identity_hash = e.lan_identity_hash }
    else e

abbrev set_custom : Contact → Contact
set_custom e = elim e.custom_name [ none ↦ record e { custom_name = some false } | some b ↦ e ]

abbrev finish : Stage → Contact
finish s = set_custom (set_identity s.lan (set_primary s))

-- Of an entry that is not empty.
unfoldable pub normalize_contact : Contact → Contact
normalize_contact entry = finish (assign_transport (drop_serial_primary (separate (start entry))))

-- `_contact_hashes`, without the empty ones.
unfoldable pub contact_hashes : Contact → List Str
contact_hashes contact =
    let c = normalize_contact contact in
    keep truthy (
      map no_colons (
        c.hash ∷ c.lan_hash ∷ c.serial_hash ∷ c.identity_hash ∷ c.lan_identity_hash
        ∷ c.serial_identity_hash ∷ []))

unfoldable pub contact_primary_hash : Contact → Str
contact_primary_hash contact =
    let c = normalize_contact contact in
    or_else (or_else (no_colons c.lan_hash) (no_colons c.serial_hash)) (no_colons c.hash)

abbrev pub or_none : Str → Option Str
or_none s = if truthy s then some s else none

abbrev lan_of : Contact → Str
lan_of c = no_colons (or_else c.lan_hash c.hash)

abbrev pub is_serial_via : Str → Bool
is_serial_via prefer_via = contains (lower (strip prefer_via)) (codes "serial" ∷ codes "usb" ∷ [])

abbrev lan_vias : List Str
lan_vias = codes "lan" ∷ codes "rns" ∷ codes "beacon" ∷ codes "udp" ∷ codes "tcp" ∷ codes "" ∷ []

unfoldable pub contact_hash_for_transport : Contact → Str → Option Str
contact_hash_for_transport contact prefer_via =
    let entry = normalize_contact contact in
    if is_serial_via prefer_via
    then or_none (no_colons entry.serial_hash)
    else if contains (lower (strip prefer_via)) lan_vias
    then or_none (lan_of entry)
    else if truthy (lan_of entry)
    then some (lan_of entry)
    else or_none (no_colons entry.serial_hash)

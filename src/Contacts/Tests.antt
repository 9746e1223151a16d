-- ===== src/Contacts/Tests.antt =====
-- Runs of the contacts, and the theorems at concrete contacts.
use chatx.Prelude.{false, ◌≡◌, refl, some, [], nat_eq, keep}
use chatx.Text.{Str, codes, remove_char, str_beq, lower, strip, is_space, lstrip, rstrip}
use chatx.Contacts.{
  Contact, normalize_contact, contact_primary_hash, assign_transport, drop_serial_primary, separate,
}

-- A contact that has been saved with one hash, for LAN.
abbrev saved_with : Str → Contact
saved_with h = record {
  hash = h;
  lan_hash = h;
  serial_hash = [];
  identity_hash = [];
  lan_identity_hash = [];
  serial_identity_hash = [];
  ip = [];
  via = [];
  custom_name = some false;
}

abbrev dual : Contact
dual = record (saved_with (codes "aa:bb")) { serial_hash = codes "ccdd" }

abbrev old_serial : Contact
old_serial = record (saved_with (codes "aabb")) { lan_hash = []; via = codes "Serial " }

moved : (normalize_contact old_serial).serial_hash ≡ codes "aabb"
unfolding remove_char normalize_contact assign_transport drop_serial_primary separate str_beq lower
    strip keep is_space lstrip rstrip
moved = refl

primary : contact_primary_hash dual ≡ codes "aabb"
unfolding contact_primary_hash remove_char normalize_contact assign_transport drop_serial_primary
    separate str_beq
primary = refl

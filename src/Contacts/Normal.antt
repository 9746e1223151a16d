-- ===== src/Contacts/Normal.antt =====
-- The normal form of a contact, and what its hashes are.
use chatx.Prelude.{◌≡◌, refl, [], arith, nat_eq, keep}
use chatx.Text.{Str, remove_char, str_eq, str_beq_iff}
use chatx.Text.Laws.{remove_char-Lacks_self, remove_char_of_Lacks}
use chatx.Contacts.{
  Contact, no_colons, separate, drop_serial_primary, assign_transport, normalize_contact,
}

no_colons_idem : (s : Str) → no_colons (no_colons s) ≡ no_colons s
no_colons_idem s = remove_char_of_Lacks b':' (no_colons s) (remove_char-Lacks_self b':' s)

no_colons_nil : no_colons [] ≡ []
unfolding remove_char keep
no_colons_nil = refl

-- Migrating a contact a second time changes nothing.
pub normalize_contact_idem :
    (c : Contact) → normalize_contact (normalize_contact c) ≡ normalize_contact c
unfolding normalize_contact separate drop_serial_primary assign_transport
normalize_contact_idem c = ground (
  arith,
  no_colons_idem c.hash,
  no_colons_nil,
  str_beq_iff (no_colons c.lan_hash) (no_colons c.serial_hash),
  str_beq_iff (no_colons c.hash) (no_colons c.serial_hash),
)

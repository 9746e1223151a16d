-- ===== src/Book/Tests.antt =====
-- Saved contacts at concrete inputs.
use chatx.Text.Parts.{split, int}
use chatx.Scope.{same_lan_scope}
use chatx.Book.Update.{refreshed, Sighting}
use chatx.Book.Pinned.{refreshed-Inside, Inside}
use mathlib.Core.Path.{subst}
use chatx.Prelude.{
  Option, ◌≢◌, ◌≡◌, refl, sym, ap, ◌∙◌, ◌⊎◌, true, false, none, some, [], ◌∷◌, nat_eq, contains,
  keep, count, All,
}
use chatx.Hash.{normalize_hash}
use chatx.Dict.{insert, lookup}
use chatx.Text.{
  Str, codes, truthy, strip, str_eq, str_beq, remove_char, lower, starts_with, lstrip, rstrip,
  is_space, lower_char,
}
use chatx.Contacts.{
  normalize_contact, assign_transport, drop_serial_primary, separate, contact_hashes,
  contact_primary_hash,
}
use chatx.Book.{
  Card, card_hashes, normalize_card, is_corrupt_contact_name, has_persisted_display_name,
  resolve_contact_name, is_corrupt_raw, name_is_hash_like, has_word, has_ms, has_hex_run,
}
use chatx.Book.Merge.{contact_dedup_keys, should_merge_contacts}
use chatx.Book.Files.{
  absorb, group_card, write_contact, unlink_contact_file, purge_stale_contact_files, Directory,
  no_contact, json, read_file, load_contact, list_contacts, find_card, sorted, absorb_all,
  group_cards, persist, drop_orphans,
}
use chatx.Book.Save.{
  store_card, Request, clean_hash, save_contact, saved_card, is_serial_save, existing_card,
}
use chatx.Book.Names.{resolve_contact_name_lem, resolve_contact_name-persisted}
use chatx.Book.Merged.{should_merge_contacts_symm}
use chatx.Book.Stored.{saved_by, file_key, save_contact-load}

abbrev ann : Card
ann = record {
  entry = record no_contact { lan_hash = codes "aa11"; hash = codes "aa11" };
  name = codes "Ann";
  port = none;
}

abbrev bob : Card
bob = record {
  entry = record no_contact { serial_hash = codes "bb22" };
  name = codes "Bob";
  port = none;
}

persisted : has_persisted_display_name ann ≡ true
unfolding has_persisted_display_name normalize_contact assign_transport drop_serial_primary separate
    remove_char is_corrupt_contact_name strip contains lower starts_with contact_hashes str_beq
persisted = refl

fine : is_corrupt_contact_name ann.name (card_hashes (normalize_card ann)) ≡ false
unfolding is_corrupt_contact_name strip contains lower starts_with remove_char contact_hashes
    normalize_contact assign_transport drop_serial_primary separate str_beq
fine = refl

resolve_contact_name-persisted_example :
    resolve_contact_name ann (codes "Zoe") false ≡ strip ann.name
resolve_contact_name-persisted_example =
    resolve_contact_name-persisted ann (codes "Zoe") persisted fine

-- Leaked text of the user interface is no name.
leaked : is_corrupt_contact_name (codes "Ann 12ms") [] ≡ true
unfolding is_corrupt_contact_name strip contains lower starts_with
leaked = refl

resolve_contact_name_lem_example :
    (resolve_contact_name ann (codes " Zoe ") true ≡ [])
    ⊎ ((is_corrupt_contact_name
            (resolve_contact_name ann (codes " Zoe ") true)
            (card_hashes (normalize_card ann))
          ≡ false)
        × ((resolve_contact_name ann (codes " Zoe ") true ≡ strip (codes " Zoe "))
            ⊎ (resolve_contact_name ann (codes " Zoe ") true ≡ strip ann.name)))
resolve_contact_name_lem_example = resolve_contact_name_lem ann (codes " Zoe ") true

should_merge_contacts_symm_example : should_merge_contacts ann bob ≡ should_merge_contacts bob ann
should_merge_contacts_symm_example = should_merge_contacts_symm ann bob

abbrev request : Request
request = record {
  peer_hash = codes "aa:11";
  name = [];
  ip = codes "10.0.0.7";
  port = none;
  identity_hash = [];
  via = codes "lan";
  lan_hash = [];
  serial_hash = [];
  lan_identity_hash = [];
  serial_identity_hash = [];
  custom_name = false;
}

given_hash : truthy (clean_hash request.peer_hash) ≡ true
unfolding remove_char strip
given_hash = refl

trimmed : strip (clean_hash request.peer_hash) ≡ clean_hash request.peer_hash
unfolding remove_char strip
trimmed = refl

key_is : file_key request [] ≡ codes "aa11"
unfolding contact_primary_hash contact_hashes strip lstrip rstrip is_space remove_char
    normalize_contact assign_transport drop_serial_primary separate saved_card is_serial_save
    str_beq lower lower_char resolve_contact_name existing_card find_card normalize_hash
    list_contacts sorted load_contact absorb_all group_cards persist drop_orphans is_corrupt_raw
    is_corrupt_contact_name name_is_hash_like has_word has_ms has_hex_run count keep contains
    starts_with lookup
key_is = refl

trimmed_text : strip (codes "aa11") ≡ codes "aa11"
unfolding strip lstrip rstrip is_space
trimmed_text = refl

trimmed_key : strip (file_key request []) ≡ file_key request []
trimmed_key = ap strip key_is ∙ trimmed_text ∙ sym key_is

hashes_are : card_hashes (saved_by request []) ≡ codes "aa11" ∷ codes "aa11" ∷ []
unfolding contact_primary_hash contact_hashes strip lstrip rstrip is_space remove_char
    normalize_contact assign_transport drop_serial_primary separate saved_card is_serial_save
    str_beq lower lower_char resolve_contact_name existing_card find_card normalize_hash
    list_contacts sorted load_contact absorb_all group_cards persist drop_orphans is_corrupt_raw
    is_corrupt_contact_name name_is_hash_like has_word has_ms has_hex_run count keep contains
    starts_with lookup
hashes_are = refl

trimmed_hashes : All (λ h. strip h ≡ h) (card_hashes (saved_by request []))
trimmed_hashes = subst (All (λ h. strip h ≡ h)) (sym hashes_are) (trimmed_text, (trimmed_text, tt))

save_contact-load_example :
    (files' : Directory) × (save_contact request [] ≡ some (saved_by request [], files'))
    × (load_contact files' (file_key request [])
        ≡ some (read_file (file_key request []) (json (saved_by request []))))
save_contact-load_example =
    save_contact-load request [] given_hash trimmed_hashes trimmed trimmed_key

abbrev in_capitals : Request
in_capitals = record request { peer_hash = codes "AB" }

abbrev found_after : Request → Str → Option (Option Card)
found_after r h = elim (save_contact r []) [
  | none ↦ none
  | some saved ↦ some (find_card saved.1 h).0
]

-- A contact that is saved with a hash in capitals is not found by that hash.
capitals_missed : found_after in_capitals (codes "AB") ≡ some none
unfolding contact_primary_hash contact_hashes strip lstrip rstrip is_space remove_char
    normalize_contact assign_transport drop_serial_primary separate saved_card is_serial_save
    str_beq lower lower_char resolve_contact_name existing_card find_card normalize_hash
    list_contacts sorted load_contact absorb_all group_cards persist drop_orphans is_corrupt_raw
    is_corrupt_contact_name name_is_hash_like has_word has_ms has_hex_run count keep contains
    starts_with lookup save_contact store_card purge_stale_contact_files unlink_contact_file
    write_contact insert group_card contact_dedup_keys absorb
capitals_missed = refl

-- A saved contact with an address, and the same peer seen at another one.
abbrev dora : Card
dora = record {
  entry = record no_contact {
    lan_hash = codes "dd44";
    hash = codes "dd44";
    ip = codes "192.168.1.9";
  };
  name = codes "Dora";
  port = none;
}

abbrev outside : Sighting
outside = record {
  peer = record {
    hash = codes "dd44";
    identity_hash = [];
    ip = codes "10.0.0.7";
    name = codes "Dora";
  };
  via = codes "rns";
  port = none;
}

dora-Inside : Inside (codes "192.168.1.20") dora
unfolding same_lan_scope int split str_beq strip
dora-Inside = (λ e. cc e, refl)

scope_given : strip (codes "192.168.1.20") ≢ []
unfolding strip
scope_given = λ e. cc e

refreshed-Inside_example :
    Inside (codes "192.168.1.20") (refreshed outside (codes "192.168.1.20") dora).0
refreshed-Inside_example =
    refreshed-Inside outside (codes "192.168.1.20") dora scope_given dora-Inside

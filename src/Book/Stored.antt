-- ===== src/Book/Stored.antt =====
-- A contact that is saved is read back (`save_contact` and `load_contact` of chatx5/core/contacts.py): the
-- files that a save removes are never the one it has written.
use mathlib.Core.Path.{subst}
use chatx.Prelude.{
  ◌≡◌, refl, sym, ap, ◌∙◌, true, none, some, List, [], ◌∷◌, map, arith, if◌then◌else◌, ◌==◌, nat_eq,
  All, All-keep, if_both,
}
use chatx.Text.{Str, truthy, or_else, strip, remove_char, str_eq, str_beq_iff}
use chatx.Text.Laws.{remove_char-Lacks_self, remove_char_of_Lacks}
use chatx.Dict.{lookup, insert}
use chatx.Dict.Laws.{lookup-insert, lookup-erase}
use chatx.Contacts.{no_colons, normalize_contact, contact_hashes, contact_primary_hash}
use chatx.Book.{Card, card_hashes}
use chatx.Book.Files.{
  Directory, File, json, contact_path, read_file, load_contact, unlink_contact_file, write_contact,
  unlink_all, purge_stale_contact_files,
}
use chatx.Book.Save.{Request, clean_hash, existing_card, saved_card, store_card, save_contact}

no_colons_idem : (s : Str) → no_colons (no_colons s) ≡ no_colons s
no_colons_idem s = remove_char_of_Lacks b':' (remove_char b':' s) (remove_char-Lacks_self b':' s)

-- A hash that a file name is made of is that name.
abbrev pub Clean : Str → Type 0
Clean h = (strip h ≡ h) × (no_colons h ≡ h)

Clean-path : (h : Str) → Clean h → contact_path h ≡ h
Clean-path h (s, n) = ap no_colons s ∙ n

lookup-unlink :
    (k h : Str) (files : Directory)
    → lookup k (unlink_contact_file h files)
      ≡ (if contact_path h == k then none else lookup k files)
unfolding unlink_contact_file
lookup-unlink k h files = lookup-erase k (contact_path h) files

lookup-unlink_all :
    (k : Str) (hs : List Str) (files : Directory)
    → All Clean hs
    → lookup k (unlink_all k hs files) ≡ lookup k files
unfolding unlink_all
lookup-unlink_all k [] files clean = refl
lookup-unlink_all k (h ∷ hs) files clean =
    lookup-unlink_all k hs (if h == k then files else unlink_contact_file h files) clean.1
    ∙ ground (arith, lookup-unlink k h files, Clean-path h clean.0, str_beq_iff h k)

-- After a save the file under the primary hash holds the contact.
lookup-store_card :
    (clean : Str) (c : Card) (files : Directory)
    → All Clean (card_hashes c)
    → Clean clean
    → Clean (or_else (contact_primary_hash c.entry) clean)
    → lookup (or_else (contact_primary_hash c.entry) clean) (store_card clean c files)
      ≡ some (json c)
unfolding store_card purge_stale_contact_files write_contact
lookup-store_card clean c files hs cl fk =
    let key = or_else (contact_primary_hash c.entry) clean in
    let written = insert (contact_path key) (json c) files in
    let purged = unlink_all (no_colons key) (card_hashes c) written in
    let at : lookup key purged ≡ some (json c) =
      subst (λ k. lookup key (unlink_all k (card_hashes c) written) ≡ some (json c)) (sym fk.1)
        (lookup-unlink_all key (card_hashes c) written hs
          ∙ lookup-insert key (contact_path key) (json c) files
          ∙ ground (arith, Clean-path key fk, str_beq_iff (contact_path key) key)) in
    if_both (λ d. lookup key d ≡ some (json c)) (clean == key) purged
      (unlink_contact_file clean purged) (λ same. at)
      (λ other.
        lookup-unlink key clean purged ∙ ground (arith, Clean-path clean cl, str_beq_iff clean key))

no_colons-hashes : (xs : List Str) → All (λ h. no_colons h ≡ h) (map no_colons xs)
no_colons-hashes [] = tt
no_colons-hashes (x ∷ xs) = (no_colons_idem x, no_colons-hashes xs)

both-Clean :
    (xs : List Str) → All (λ h. strip h ≡ h) xs → All (λ h. no_colons h ≡ h) xs → All Clean xs
both-Clean [] s n = tt
both-Clean (x ∷ xs) s n = ((s.0, n.0), both-Clean xs s.1 n.1)

hashes_without_colons : (c : Card) → All (λ h. no_colons h ≡ h) (card_hashes c)
unfolding contact_hashes
hashes_without_colons c =
    let n = normalize_contact c.entry in
    All-keep (λ h. no_colons h ≡ h) truthy _
      (no_colons-hashes (
        n.hash ∷ n.lan_hash ∷ n.serial_hash ∷ n.identity_hash ∷ n.lan_identity_hash
        ∷ n.serial_identity_hash ∷ []))

primary_without_colons :
    (c : Card) → no_colons (contact_primary_hash c.entry) ≡ contact_primary_hash c.entry
unfolding contact_primary_hash
primary_without_colons c =
    let n = normalize_contact c.entry in
    ground (arith, no_colons_idem n.lan_hash, no_colons_idem n.serial_hash, no_colons_idem n.hash)

-- The contact that a save makes, and the name of its file.
abbrev pub saved_by : Request → Directory → Card
saved_by r files = saved_card r (existing_card r files).0

abbrev pub file_key : Request → Directory → Str
file_key r files = or_else (contact_primary_hash (saved_by r files).entry) (clean_hash r.peer_hash)

key_without_colons :
    (r : Request) (files : Directory) → no_colons (file_key r files) ≡ file_key r files
key_without_colons r files =
    let p = contact_primary_hash (saved_by r files).entry in
    if_both (λ k. no_colons k ≡ k) (truthy p) p (clean_hash r.peer_hash)
      (λ has. primary_without_colons (saved_by r files))
      (λ lacks. no_colons_idem (strip r.peer_hash))

load_found :
    (d : Directory) (k : Str) (f : File)
    → lookup k d ≡ some f
    → load_contact d k ≡ some (read_file k f)
unfolding load_contact
load_found d k f at = ap (λ o. elim o [ none ↦ none | some g ↦ some (read_file k g) ]) at

-- A save with a hash succeeds, and under its primary hash the contact that it returns is read back as a
-- file with that contact is: in normal form, and with the primary hash for a hash or a name that is
-- missing. The hashes of the contact, its primary hash and the one it is saved by have no spaces at their
-- ends.
pub save_contact-load :
    (r : Request) (files : Directory)
    → truthy (clean_hash r.peer_hash) ≡ true
    → All (λ h. strip h ≡ h) (card_hashes (saved_by r files))
    → strip (clean_hash r.peer_hash) ≡ clean_hash r.peer_hash
    → strip (file_key r files) ≡ file_key r files
    → (files' : Directory) × (save_contact r files ≡ some (saved_by r files, files'))
      × (load_contact files' (file_key r files)
          ≡ some (read_file (file_key r files) (json (saved_by r files))))
unfolding save_contact
save_contact-load r files has hashes clean key =
    let c = saved_by r files in
    let stored =
      lookup-store_card (clean_hash r.peer_hash) c (existing_card r files).1
        (both-Clean (card_hashes c) hashes (hashes_without_colons c))
        (clean, no_colons_idem (strip r.peer_hash)) (key, key_without_colons r files) in
    (
      store_card (clean_hash r.peer_hash) c (existing_card r files).1,
      rw has refl,
      load_found (store_card (clean_hash r.peer_hash) c (existing_card r files).1)
          (file_key r files) (json c) stored,
    )

-- ===== src/Book/Files.antt =====
-- The directory of saved contacts (chatx5/core/contacts.py): a file for a contact, by the hash it is saved
-- under, and the list of contacts, which joins the files of one peer and cleans up after itself.
use chatx.Prelude.{
  ℕ, zero, suc, Bool, true, false, not, ◌&&◌, ◌||◌, Option, none, some, List, [], ◌∷◌, ◌++◌, map,
  ltb, if◌then◌else◌, ◌==◌, nat_eq, contains, length, keep, any,
}
use chatx.Text.{Str, codes, truthy, or_else, strip, starts_with, str_eq}
use chatx.Dict.{Dict, lookup, insert, erase}
use chatx.Hash.{normalize_hash}
use chatx.Contacts.{Contact, no_colons, contact_primary_hash}
use chatx.Book.{Card, normalize_card, card_hashes}
use chatx.Book.Merge.{contact_dedup_keys, should_merge_contacts, merge_contact_entries}

-- What a file holds: a contact, or a text from before contacts were JSON, which is its name. A file
-- that cannot be read counts as an empty text.
pub data File : Type 0 where
  json : Card → File
  legacy : Str → File

abbrev pub Directory : Type 0
Directory = Dict File

-- `_contact_path`, below the directory.
abbrev pub contact_path : Str → Str
contact_path peer_hash = no_colons (strip peer_hash)

abbrev pub no_contact : Contact
no_contact = record {
  hash = [];
  lan_hash = [];
  serial_hash = [];
  identity_hash = [];
  lan_identity_hash = [];
  serial_identity_hash = [];
  ip = [];
  via = [];
  custom_name = none;
}

-- `{"hash": hash, "name": name}`
abbrev pub bare_card : Str → Str → Card
bare_card hash name = record { entry = record no_contact { hash = hash }; name = name; port = none }

abbrev pub read_file : Str → File → Card
read_file filename (json c) = normalize_card (record c {
  entry = record c.entry { hash = or_else c.entry.hash filename };
  name = or_else c.name filename;
})
read_file filename (legacy raw) = normalize_card (bare_card filename (or_else (strip raw) filename))

unfoldable pub load_contact : Directory → Str → Option Card
load_contact files filename = elim (lookup filename files) [
  | none ↦ none
  | some f ↦ some (read_file filename f)
]

unfoldable pub unlink_contact_file : Str → Directory → Directory
unlink_contact_file peer_hash files = erase (contact_path peer_hash) files

abbrev pub has_file : Directory → Str → Bool
has_file files peer_hash = elim (lookup (contact_path peer_hash) files) [
  | none ↦ false
  | some f ↦ true
]

unfoldable pub write_contact : Str → Card → Directory → Directory
write_contact file_key card files = insert (contact_path file_key) (json card) files

-- `for h in hashes: if h != keep: unlink(h)`
unfoldable pub unlink_all : Str → List Str → Directory → Directory
unlink_all kept [] files = files
unlink_all kept (h ∷ hs) files =
    unlink_all kept hs (if h == kept then files else unlink_contact_file h files)

-- `_purge_stale_contact_files`
unfoldable pub purge_stale_contact_files : Card → Str → Directory → Directory
unfolding unlink_all
purge_stale_contact_files card keep_key files =
    unlink_all (no_colons keep_key) (card_hashes card) files

-- The order of `sorted`: by code points.
unfoldable pub str_le : Str → Str → Bool
str_le [] t = true
str_le (c ∷ s) [] = false
str_le (c ∷ s) (d ∷ t) = ltb c d || c == d && str_le s t

abbrev FileEntry : Type 0
FileEntry = Str × File

unfoldable pub insert_sorted : Str × File → Directory → Directory
insert_sorted e [] = e ∷ []
insert_sorted e (f ∷ fs) =
    let rest = insert_sorted e fs in if str_le e.0 f.0 then e ∷ f ∷ fs else f ∷ rest

unfoldable pub sorted : Directory → Directory
unfolding insert_sorted str_le
sorted [] = []
sorted (e ∷ es) = insert_sorted e (sorted es)

-- The contacts in the files, hidden files left out.
abbrev read_all : Directory → List Card
read_all [] = []
read_all ((fname, f) ∷ fs) =
    let rest = read_all fs in
    if starts_with fname (codes ".") then rest else read_file fname f ∷ rest

-- The first loop of `list_contacts`: the contacts by their primary key, the primary key of each key, and
-- the hashes whose files are left over.
pub record Grouped : Type 0 where
  pub deduped : Dict Card
  pub key_to_primary : Dict Str
  pub orphans : List Str

abbrev first_known : Dict Str → List Str → Option Str
first_known known [] = none
first_known known (k ∷ ks) = elim (lookup k known) [ none ↦ first_known known ks | some p ↦ some p ]

abbrev know_all : Str → List Str → Dict Str → Dict Str
know_all primary [] known = known
know_all primary (k ∷ ks) known = know_all primary ks (insert k primary known)

abbrev pub others : Str → Card → List Str
others kept c = keep (λ h. not (h == kept)) (card_hashes c)

abbrev head_or : Str → List Str → Str
head_or d [] = d
head_or d (k ∷ ks) = k

abbrev or_card : Card → Option Card → Card
or_card d none = d
or_card d (some c) = c

unfoldable pub group_card : Card → Grouped → Grouped
group_card card g =
    let keys = contact_dedup_keys card in
    elim (first_known g.key_to_primary keys) [
      | none ↦
          let primary = head_or [] keys in
          record g {
            deduped = insert primary card g.deduped;
            key_to_primary = know_all primary keys g.key_to_primary;
          }
      | some primary ↦
          let merged = merge_contact_entries (or_card card (lookup primary g.deduped)) card in
          let kept = contact_primary_hash merged.entry in
          record {
            deduped = insert primary merged g.deduped;
            key_to_primary = know_all primary keys g.key_to_primary;
            orphans = g.orphans ++ (others kept card ++ others kept merged);
          }
    ]

unfoldable pub group_cards : List Card → Grouped → Grouped
group_cards [] g = g
group_cards (c ∷ cs) g = group_cards cs (group_card (normalize_card c) g)

-- The second loop: a contact takes in every later one that it should be merged with.
unfoldable pub absorb : Card → List Card → (Card × List Card) × List Str
absorb current [] = ((current, []), [])
absorb current (c ∷ cs) =
    let b = should_merge_contacts current c in
    let merged = merge_contact_entries current c in
    let r = absorb (if b then merged else current) cs in
    (
      (r.0.0, if b then r.0.1 else c ∷ r.0.1),
      if b then others (contact_primary_hash merged.entry) c ++ r.1 else r.1,
    )

-- On fuel, one round for each contact at most.
unfoldable pub absorb_all : ℕ → List Card → List Card × List Str
absorb_all zero cs = ([], [])
absorb_all (suc n) [] = ([], [])
absorb_all (suc n) (c ∷ cs) =
    let r = absorb (normalize_card c) cs in
    let rest = absorb_all n r.0.1 in (r.0.0 ∷ rest.0, r.1 ++ rest.1)

abbrev leftover : List Card → List Str
leftover [] = []
leftover (c ∷ cs) = others (contact_primary_hash c.entry) c ++ leftover cs

-- Each contact is written under its primary hash where something was joined, and its other files go.
unfoldable pub persist : Bool → List Card → Directory → Directory
persist needs_persist [] files = files
persist needs_persist (c ∷ cs) files =
    let kept = contact_primary_hash c.entry in
    let files' =
      if needs_persist && truthy kept then write_contact kept (normalize_card c) files else files in
    persist needs_persist cs (purge_stale_contact_files c kept files')

unfoldable pub drop_orphans : List Str → List Str → Directory → Directory
drop_orphans keepers [] files = files
drop_orphans keepers (o ∷ os) files =
    drop_orphans keepers os (if contains o keepers then files else unlink_contact_file o files)

abbrev values_of : Dict Card → List Card
values_of [] = []
values_of ((k, c) ∷ d) = c ∷ values_of d

abbrev no_groups : Grouped
no_groups = record { deduped = []; key_to_primary = []; orphans = [] }

unfoldable pub list_contacts : Directory → List Card × Directory
unfolding group_cards absorb_all
list_contacts files =
    let raw = read_all (sorted files) in
    let g = group_cards raw no_groups in
    let deduped = values_of g.deduped in
    let r = absorb_all (length deduped) deduped in
    let orphans = g.orphans ++ (r.1 ++ leftover r.0) in
    let needs_persist = ltb (length r.0) (length raw) || not (length orphans == 0) in
    (
      r.0,
      drop_orphans (map (λ (c : Card). contact_primary_hash c.entry) r.0) orphans
          (persist needs_persist r.0 files),
    )

-- `find_contact_by_hash`, with what the listing does to the files.
abbrev first_with : Str → List Card → Option Card
first_with clean [] = none
first_with clean (c ∷ cs) =
    let rest = first_with clean cs in
    if contains clean (card_hashes c) then some (normalize_card c) else rest

unfoldable pub find_card : Directory → Str → Option Card × Directory
find_card files peer_hash =
    let clean = normalize_hash peer_hash in
    let r = list_contacts files in
    if truthy clean then (first_with clean r.0, r.1) else (none, files)

-- `delete_contact`
abbrev any_file : Directory → List Str → Bool
any_file files hs = any (has_file files) hs

abbrev unlink_each : List Str → Directory → Directory
unlink_each [] files = files
unlink_each (h ∷ hs) files = unlink_each hs (unlink_contact_file h files)

abbrev delete_found : Str → Option Card → Directory → Bool × Directory
delete_found clean none files = (has_file files clean, unlink_contact_file clean files)
delete_found clean (some c) files =
    (any_file files (card_hashes c), unlink_each (card_hashes c) files)

unfoldable pub delete_contact : Directory → Str → Bool × Directory
delete_contact files peer_hash =
    let clean = no_colons (strip peer_hash) in
    let r = find_card files clean in
    if truthy clean then delete_found clean r.0 r.1 else (false, files)

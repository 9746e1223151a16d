-- ===== src/Book.antt =====
-- Saved contacts with their names (chatx5/core/contacts.py): which names are refused, and which of two
-- names a contact keeps. `\b`, `\d` and the letters of the patterns are those of ASCII.
pub mod Merge
pub mod Files
pub mod Save
mod Absorbed
pub mod Update
pub mod Pinned
pub mod Moved
pub mod Names
pub mod Merged
pub mod Stored
mod Tests
use chatx.Prelude.{
  ℕ, zero, suc, ◌+◌, ◌-◌, ◌*◌, ◌/◌, ◌%◌, ◌≤◌, ◌<◌, max, min, ◌≡◌, refl, sym, ap, ◌∙◌, ◌≢◌, ◌↔◌, ◌⊎◌,
  inl, inr, Bool, true, false, not, ◌&&◌, ◌||◌, Option, none, some, List, [], ◌∷◌, ◌++◌, map,
  append-nil, append_assoc, arith, ltb, leb, nat_beq, nat_beq_iff, if◌then◌else◌, Bool-cases,
  Option-cases, Eq, ◌==◌, nat_eq, contains, length, drop, take, keep, count, any, all,
  length-append, length-drop, length-keep-le, keep-append, keep-keep, keep_of_length, any-keep-not,
  keep_of_none, keep_of_some, All, All-append, All-keep, All-drop, if_both, option_both,
}
use chatx.Text.{
  Str, codes, truthy, or_else, strip, lower, remove_char, starts_with, includes, str_eq,
}
use chatx.Text.Parts.{is_digit}
use chatx.Contacts.{Contact, normalize_contact, contact_hashes, contact_primary_hash}

-- A contact as it is saved: the hashes and the address, and the name and port with them.
pub record Card : Type 0 where
  pub entry : Contact
  pub name : Str
  pub port : Option ℕ

abbrev pub normalize_card : Card → Card
normalize_card c = record c { entry = normalize_contact c.entry }

abbrev pub card_hashes : Card → List Str
card_hashes c = contact_hashes c.entry

abbrev pub is_custom : Card → Bool
is_custom c = elim c.entry.custom_name [ none ↦ false | some b ↦ b ]

-- `_name_is_hash_like`
unfoldable pub name_is_hash_like : Str → List Str → Bool
name_is_hash_like name hashes =
    let raw = lower (strip name) in
    not (truthy raw)
    || any
        (λ h.
          truthy h
          && (raw == h || raw == take 8 h || raw == take 12 h || starts_with raw (take 8 h)))
        hashes

-- The characters of `\w`.
abbrev word_char : ℕ → Bool
word_char c = is_digit c || leb b'a' c && leb c b'z' || leb b'A' c && leb c b'Z' || c == b'_'

abbrev ends_word : Str → Bool
ends_word [] = true
ends_word (c ∷ s) = not (word_char c)

-- `\bw\b` at the start of a text that is in lower case, after a character of a word or not.
abbrev word_here : Str → Bool → Str → Bool
word_here w after_word s = not after_word && starts_with s w && ends_word (drop (length w) s)

unfoldable pub has_word : Str → Bool → Str → Bool
has_word w after_word [] = false
has_word w after_word (c ∷ s) = word_here w after_word (c ∷ s) || has_word w (word_char c) s

-- `\d+ms\b` in a text that is in lower case.
unfoldable pub has_ms : Str → Bool
has_ms [] = false
has_ms (c ∷ s) = is_digit c && starts_with s (codes "ms") && ends_word (drop 2 s) || has_ms s

abbrev pub hex_char : ℕ → Bool
hex_char c = is_digit c || leb b'a' c && leb c b'f' || leb b'A' c && leb c b'F'

-- `[0-9a-f]{n,}`, after a run of digits.
unfoldable pub has_hex_run : ℕ → ℕ → Str → Bool
has_hex_run n run [] = false
has_hex_run n run (c ∷ s) =
    let next = if hex_char c then run + 1 else 0 in leb n next || has_hex_run n next s

-- `hex_chars >= max(16, len(compact) * 0.6)`
abbrev mostly_hex : Str → Bool
mostly_hex compact = let n = count hex_char compact in leb 16 n && leb (6 * length compact) (10 * n)

-- The tests of `_is_corrupt_contact_name` on the trimmed name.
unfoldable pub is_corrupt_raw : Str → List Str → Bool
unfolding name_is_hash_like has_word has_ms has_hex_run count
is_corrupt_raw raw hashes =
    let compact = remove_char 32 (remove_char b':' raw) in
    not (truthy raw)
    || contains 10 raw
    || contains 13 raw
    || ltb 48 (length raw)
    || has_word (codes "lan") false (lower raw)
    || has_word (codes "usb") false (lower raw)
    || has_ms (lower raw)
    || leb 20 (length compact) && all hex_char compact
    || has_hex_run 16 0 compact && mostly_hex compact
    || name_is_hash_like raw hashes && any truthy hashes

unfoldable pub is_corrupt_contact_name : Str → List Str → Bool
unfolding is_corrupt_raw
is_corrupt_contact_name name hashes = is_corrupt_raw (strip name) hashes

abbrev pub sanitize_contact_name : Str → List Str → Str
sanitize_contact_name name hashes = if is_corrupt_contact_name name hashes then [] else strip name

-- `_has_persisted_display_name`
unfoldable pub has_persisted_display_name : Card → Bool
has_persisted_display_name card =
    let c = normalize_card card in
    let saved = sanitize_contact_name c.name (card_hashes c) in
    is_custom c || truthy saved && not (name_is_hash_like saved (card_hashes c))

-- `_resolve_contact_name`; a name that is not given is the empty one.
unfoldable pub resolve_contact_name : Card → Str → Bool → Str
unfolding is_corrupt_contact_name name_is_hash_like
resolve_contact_name existing name custom_name =
    let c = normalize_card existing in
    let hashes = card_hashes c in
    let incoming = sanitize_contact_name name hashes in
    let saved = sanitize_contact_name c.name hashes in
    if custom_name && truthy incoming
    then incoming
    else if is_custom c
    then or_else saved incoming
    else if truthy saved && not (name_is_hash_like saved hashes)
    then saved
    else if truthy incoming && not (name_is_hash_like incoming hashes)
    then incoming
    else or_else saved incoming

-- ===== src/Book/Merge.antt =====
-- When two saved contacts are taken for one peer, and what becomes of them (chatx5/core/contacts.py).
use chatx.Prelude.{
  ℕ, Bool, true, false, not, ◌&&◌, ◌||◌, Option, none, some, List, [], ◌∷◌, ◌++◌, if◌then◌else◌,
  ◌==◌, nat_eq, contains, any,
}
use chatx.Text.{Str, codes, truthy, or_else, strip, lower, str_eq}
use chatx.Contacts.{Contact, no_colons, normalize_contact, contact_hashes}
use chatx.Book.{
  Card, normalize_card, card_hashes, is_custom, name_is_hash_like, has_persisted_display_name,
  resolve_contact_name,
}

-- `_contact_dedup_keys`
abbrev key_if : Bool → Str → List Str
key_if b key = if b then key ∷ [] else []

abbrev or_orphan : Str → List Str → List Str
or_orphan rest [] = (codes "orphan:" ++ rest) ∷ []
or_orphan rest (k ∷ ks) = k ∷ ks

unfoldable pub contact_dedup_keys : Card → List Str
contact_dedup_keys card =
    let c = normalize_card card in
    let ident = no_colons c.entry.identity_hash in
    let lan = no_colons (or_else c.entry.lan_hash c.entry.hash) in
    let serial = no_colons c.entry.serial_hash in
    let name = lower (strip c.name) in
    or_orphan (or_else lan (or_else serial (codes "unknown"))) (
      key_if (truthy ident) (codes "ident:" ++ ident)
      ++ (key_if (truthy lan || truthy serial) (codes "h:" ++ (lan ++ (b':' ∷ serial)))
          ++ key_if (truthy name && not (name_is_hash_like c.name (card_hashes c)))
              (codes "name:" ++ name)))

-- The hash of a contact that has neither a LAN nor a serial hash counts as one of them.
pub record Hashes : Type 0 where
  pub lan : Str
  pub serial : Str
  pub hash : Str

unfoldable pub transport_hashes : Contact → Hashes
transport_hashes c =
    let lan = no_colons c.lan_hash in
    let serial = no_colons c.serial_hash in
    let hash = no_colons c.hash in
    if not (truthy lan) && not (truthy serial) && truthy c.hash
    then (if c.via == codes "serial" || truthy c.serial_hash
        then record { lan = lan; serial = hash; hash = hash }
        else record { lan = hash; serial = serial; hash = hash })
    else record { lan = lan; serial = serial; hash = hash }

abbrev pub same_given : Str → Str → Bool
same_given a b = truthy a && a == b

-- One has only a LAN hash and the other only a serial one.
abbrev pub complementary : Hashes → Hashes → Bool
complementary a b =
    truthy a.lan && truthy b.serial && not (truthy a.serial) && not (truthy b.lan)
    || truthy a.serial && truthy b.lan && not (truthy a.lan) && not (truthy b.serial)

abbrev pub crossed : Hashes → Hashes → Bool
crossed a b =
    same_given a.serial b.lan
    || same_given a.serial b.hash
    || same_given b.serial a.lan
    || same_given b.serial a.hash
    || same_given a.lan b.serial
    || same_given a.lan b.hash
    || same_given b.lan a.serial
    || same_given b.lan a.hash

-- `_should_merge_contacts`
unfoldable pub should_merge_contacts : Card → Card → Bool
unfolding transport_hashes
should_merge_contacts primary secondary =
    let a = normalize_contact primary.entry in
    let b = normalize_contact secondary.entry in
    any (λ h. contains h (contact_hashes b)) (contact_hashes a)
    || same_given (no_colons a.identity_hash) (no_colons b.identity_hash)
    || crossed (transport_hashes a) (transport_hashes b)
    || complementary (transport_hashes a) (transport_hashes b)

-- A field that is empty takes the other's.
abbrev fill : Str → Str → Str
fill mine other = if not (truthy (strip mine)) && truthy (strip other) then other else mine

abbrev or_port : Option ℕ → Option ℕ → Option ℕ
or_port none other = other
or_port (some p) other = some p

-- The fields of both.
abbrev pub filled : Card → Card → Card
filled out other = record {
  entry = record out.entry {
    hash = fill out.entry.hash other.entry.hash;
    lan_hash = fill out.entry.lan_hash other.entry.lan_hash;
    serial_hash = fill out.entry.serial_hash other.entry.serial_hash;
    identity_hash = fill out.entry.identity_hash other.entry.identity_hash;
    lan_identity_hash = fill out.entry.lan_identity_hash other.entry.lan_identity_hash;
    serial_identity_hash = fill out.entry.serial_identity_hash other.entry.serial_identity_hash;
    ip = fill out.entry.ip other.entry.ip;
    custom_name = if is_custom other then some true else out.entry.custom_name;
  };
  name = fill out.name other.name;
  port = or_port out.port other.port;
}

abbrev pub with_name : Card → Str → Card
with_name c name = if truthy name then record c { name = name } else c

abbrev with_lan : Card → Card
with_lan c =
    if not (truthy c.entry.lan_hash) && truthy c.entry.hash
    then record c { entry = record c.entry { lan_hash = c.entry.hash } }
    else c

-- `_merge_contact_entries`
unfoldable pub merge_contact_entries : Card → Card → Card
merge_contact_entries primary secondary =
    let other = normalize_card secondary in
    let out = filled (normalize_card primary) other in
    let incoming =
      if is_custom other || not (has_persisted_display_name out) then other.name else [] in
    normalize_card (with_lan (with_name out (resolve_contact_name out incoming false)))

-- ===== src/Aliases.antt =====
-- The identity and destination hashes of one peer (chatx5/core/messaging/backend.py): the two maps of
-- the backend, passed from call to call.
pub mod Canonical
mod Tests
use chatx.Prelude.{
  Bool, true, false, not, ◌&&◌, ◌||◌, Option, none, some, List, [], ◌∷◌, ◌==◌, if◌then◌else◌,
}
use chatx.Text.{Str, truthy, str_eq}
use chatx.Dict.{Dict, lookup, insert}
use chatx.Hash.{normalize_hash}

pub record Aliases : Type 0 where
  pub identity_to_dest : Dict Str
  pub dest_to_identity : Dict Str

abbrev pub is_in : Option Str → Bool
is_in none = false
is_in (some v) = true

-- `register_peer_mapping`, after the normalisation of both hashes.
unfoldable pub note_identity : Str → Str → Aliases → Aliases
note_identity dest ident a =
    if truthy ident && not (ident == dest)
    then record {
      identity_to_dest = insert ident dest a.identity_to_dest;
      dest_to_identity = insert dest ident a.dest_to_identity;
    }
    else a

unfoldable pub register_peer_mapping : Str → Str → Aliases → Aliases
register_peer_mapping dest_hash identity_hash a =
    if not (truthy (normalize_hash dest_hash)) || not (truthy identity_hash)
    then a
    else note_identity (normalize_hash dest_hash) (normalize_hash identity_hash) a

-- `mapped or clean`
abbrev mapped_or : Option Str → Str → Str
mapped_or none clean = clean
mapped_or (some m) clean = if truthy m then m else clean

-- After the normalisation.
unfoldable pub dest_of : Aliases → Str → Str
dest_of a clean =
    if not (truthy clean)
    then []
    else if is_in (lookup clean a.dest_to_identity)
    then clean
    else mapped_or (lookup clean a.identity_to_dest) clean

unfoldable pub dest_hash_for : Aliases → Str → Str
unfolding dest_of
dest_hash_for a any_hash = dest_of a (normalize_hash any_hash)

-- The dictionary maps the normalised key to this destination, which is not empty.
abbrev maps_to : Option Str → Str → Bool
maps_to none other = false
maps_to (some m) other = truthy other && m == other

unfoldable pub hashes_equivalent : Aliases → Str → Str → Bool
hashes_equivalent m hash_a hash_b =
    let a = dest_hash_for m hash_a in
    let b = dest_hash_for m hash_b in
    if truthy a && truthy b && a == b
    then true
    else if not (truthy a) || not (truthy b)
    then false
    else if maps_to (lookup (normalize_hash hash_a) m.identity_to_dest) b
    then true
    else maps_to (lookup (normalize_hash hash_b) m.identity_to_dest)
        (dest_hash_for m (if hash_b == hash_a then hash_b else hash_a))

-- ===== src/Aliases/Tests.antt =====
-- Runs of the alias maps, and the theorems at concrete maps.
use chatx.Prelude.{true, ◌≡◌, refl, ◌≢◌, false, [], arith, nat_eq}
use chatx.Text.{codes, lower, strip, remove_char, str_beq}
use chatx.Hash.{normalize_hash}
use chatx.Aliases.{Aliases, register_peer_mapping, dest_hash_for, hashes_equivalent, note_identity}
use chatx.Aliases.Canonical.{
  register_peer_mapping-equivalent, IsSound, empty_aliases-IsSound, register_peer_mapping-IsSound,
}
use chatx.Dict.{lookup, insert}

abbrev no_aliases : Aliases
no_aliases = record { identity_to_dest = []; dest_to_identity = [] }

abbrev aliases : Aliases
aliases = register_peer_mapping (codes "<AA11>") (codes "bb22") no_aliases

mapped : dest_hash_for aliases (codes "<BB22>") ≡ codes "aa11"
unfolding dest_hash_for register_peer_mapping normalize_hash lower strip remove_char lookup
    note_identity str_beq insert
mapped = refl

unrelated : hashes_equivalent aliases (codes "bb22") (codes "cc33") ≡ false
unfolding hashes_equivalent register_peer_mapping dest_hash_for normalize_hash lower strip
    remove_char lookup note_identity str_beq insert
unrelated = refl

aliases-IsSound : IsSound aliases
aliases-IsSound =
    register_peer_mapping-IsSound (codes "<AA11>") (codes "bb22") no_aliases empty_aliases-IsSound

register_peer_mapping-IsSound_example :
    IsSound (register_peer_mapping (codes "cc33") (codes "dd44") aliases)
register_peer_mapping-IsSound_example =
    register_peer_mapping-IsSound (codes "cc33") (codes "dd44") aliases aliases-IsSound

dest_normal : normalize_hash (codes "<AA11>") ≡ codes "aa11"
unfolding normalize_hash lower strip remove_char
dest_normal = refl

ident_normal : normalize_hash (codes "bb22") ≡ codes "bb22"
unfolding normalize_hash lower strip remove_char
ident_normal = refl

dest_given : normalize_hash (codes "<AA11>") ≢ []
dest_given = rw dest_normal (ground arith)

ident_given : normalize_hash (codes "bb22") ≢ []
ident_given = rw ident_normal (ground arith)

register_peer_mapping-equivalent_example :
    hashes_equivalent
      (register_peer_mapping (codes "<AA11>") (codes "bb22") no_aliases)
      (codes "bb22")
      (codes "<AA11>")
    ≡ true
register_peer_mapping-equivalent_example =
    register_peer_mapping-equivalent (codes "<AA11>") (codes "bb22") no_aliases dest_given
      ident_given

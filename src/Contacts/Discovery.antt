-- ===== src/Contacts/Discovery.antt =====
-- Whether a peer that discovery has seen is a saved contact (chatx5/core/contacts.py).
use chatx.Prelude.{◌≡◌, Bool, false, not, ◌&&◌, ◌||◌, arith, if◌then◌else◌, ◌==◌, nat_eq, contains}
use chatx.Text.{Str, codes, truthy, or_else, strip, lower, starts_with, str_eq, str_beq_iff}
use chatx.Contacts.{Contact, no_colons, normalize_contact, contact_hashes}

unfoldable pub peer_transport_family : Str → Str
peer_transport_family via =
    if lower (strip via) == codes "serial" then codes "serial" else codes "lan"

unfoldable pub names_related : Str → Str → Bool
names_related a b =
    let left = lower (strip a) in
    let right = lower (strip b) in
    if not (truthy left) || not (truthy right)
    then false
    else left == right || starts_with left right || starts_with right left

pub record Peer : Type 0 where
  pub hash : Str
  pub identity_hash : Str
  pub ip : Str
  pub name : Str

-- With the test for equivalent hashes that the caller passes.
abbrev equivalent_to : (Str → Str → Bool) → Contact → Str → Str → Bool
equivalent_to peers_equivalent c new_hash peer_ident =
    peers_equivalent (no_colons (or_else c.lan_hash c.hash)) new_hash
    || peers_equivalent (no_colons c.serial_hash) new_hash
    || truthy peer_ident
      && truthy (no_colons c.identity_hash)
      && peers_equivalent (no_colons c.identity_hash) peer_ident

unfoldable pub contact_matches_discovery_peer : (Str → Str → Bool) → Contact → Str → Peer → Bool
contact_matches_discovery_peer peers_equivalent contact contact_name peer =
    let c = normalize_contact contact in
    let new_hash = no_colons peer.hash in
    let peer_ident = no_colons peer.identity_hash in
    let peer_ip = strip peer.ip in
    let peer_name = strip peer.name in
    let c_name = strip contact_name in
    if not (truthy new_hash)
    then false
    else contains new_hash (contact_hashes c)
      || truthy peer_ident && contains peer_ident (contact_hashes c)
      || equivalent_to peers_equivalent c new_hash peer_ident
      || truthy peer_ip && truthy (strip c.ip) && peer_ip == strip c.ip
      || truthy peer_ip && names_related c_name peer_name
      || truthy peer_name && truthy c_name && names_related c_name peer_name

-- Names are related both ways or not at all.
names_related_symm : (a b : Str) → names_related a b ≡ names_related b a
unfolding names_related
names_related_symm a b = ground (
  arith,
  str_beq_iff (lower (strip a)) (lower (strip b)),
  str_beq_iff (lower (strip b)) (lower (strip a)),
)

-- ===== src/Scope.antt =====
-- Which IPv4 addresses share a LAN discovery scope (chatx5/utils/lan_scope.py), and when a saved
-- contact takes a new address (`should_update_contact_ip` of chatx5/core/contacts.py).
pub mod Equivalence
pub mod Pinned
mod Tests
use chatx.Prelude.{
  ℕ, Bool, true, false, not, ◌&&◌, ◌||◌, List, [], ◌∷◌, Option, none, some, ◌==◌, leb,
  if◌then◌else◌,
}
use chatx.Prelude.Int.{ℤ, pos, negsuc, int_eq}
use chatx.Text.{Str, truthy, strip, str_eq}
use chatx.Text.Parts.{split, int}

-- The parts of a dotted address.
pub record Quad : Type 0 where
  pub p0 : Str
  pub p1 : Str
  pub p2 : Str
  pub p3 : Str

-- The test `len(parts) != 4`.
quad : List Str → Option Quad
quad (a ∷ b ∷ c ∷ d ∷ []) = some (record { p0 = a; p1 = b; p2 = c; p3 = d })
quad _ = none

abbrev pub quad_of : Str → Option Quad
unfolding quad
quad_of ip = quad (split b'.' ip)

-- `lo <= n <= hi`
abbrev between : ℕ → ℕ → ℤ → Bool
between lo hi (pos n) = leb lo n && leb n hi
between lo hi (negsuc n) = false

-- The RFC 1918 ranges that count as one network each, on the first two numbers of both addresses.
private_range : ℤ → ℤ → ℤ → ℤ → Bool
private_range a0 a1 b0 b1 =
    if a0 == b0 && b0 == pos 172 && between 16 31 a1 && between 16 31 b1
    then true
    else if a0 == b0 && b0 == pos 192 && a1 == b1 && b1 == pos 168
    then true
    else false

-- The `try` block: a part that is no number is a ValueError.
numbers_match : Option ℤ → Option ℤ → Option ℤ → Option ℤ → Bool
numbers_match (some a0) (some a1) (some b0) (some b1) = private_range a0 a1 b0 b1
numbers_match (some a0) (some a1) (some b0) none = false
numbers_match (some a0) (some a1) none b1 = false
numbers_match (some a0) none b0 b1 = false
numbers_match none a1 b0 b1 = false

-- After the split; `none` is an address without four parts.
quads_match : Option Quad → Option Quad → Bool
quads_match none b = false
quads_match (some a) none = false
quads_match (some a) (some b) =
    if a.p0 == b.p0 && a.p1 == b.p1 && a.p2 == b.p2
    then true
    else numbers_match (int a.p0) (int a.p1) (int b.p0) (int b.p1)

unfoldable pub same_lan_scope : Str → Str → Bool
unfolding quads_match quad numbers_match private_range
same_lan_scope ip_a ip_b =
    if not (truthy ip_a) || not (truthy ip_b)
    then false
    else quads_match (quad_of ip_a) (quad_of ip_b)

unfoldable pub peer_in_scope : Str → Str → Bool
peer_in_scope peer_ip scope_ip =
    let peer = strip peer_ip in
    let scope = strip scope_ip in
    if not (truthy peer) || not (truthy scope) then false else same_lan_scope peer scope

-- `contacts._same_subnet`
abbrev same_subnet : Str → Str → Bool
same_subnet ip_a ip_b = same_lan_scope ip_a ip_b

-- After the addresses have been stripped.
update_ip : Str → Str → Str → Bool
update_ip contact_ip new_ip scope =
    if not (truthy new_ip)
    then false
    else if not (truthy contact_ip)
    then true
    else if contact_ip == new_ip
    then false
    else if not (truthy scope)
    then true
    else let new_local = same_subnet new_ip scope in
      let contact_local = same_subnet contact_ip scope in
      if new_local && not contact_local
      then true
      else if new_local && contact_local
      then true
      else if not new_local && contact_local
      then false
      else true

unfoldable pub should_update_contact_ip : Str → Str → Str → Bool
unfolding update_ip
should_update_contact_ip contact_ip new_ip local_scope_ip =
    update_ip (strip contact_ip) (strip new_ip) (strip local_scope_ip)

-- ===== src/Scope/Tests.antt =====
-- Runs of the scope tests, and the theorems at concrete addresses.
use chatx.Prelude.{◌≡◌, refl, true, false, some}
use chatx.Prelude.Int.{pos, negsuc}
use chatx.Text.{codes, Str, strip, str_beq}
use chatx.Text.Parts.{split, int}
use chatx.Scope.{same_lan_scope, peer_in_scope}

abbrev home : Str
home = codes "192.168.1.7"

abbrev attic : Str
attic = codes "192.168.40.7"

abbrev office : Str
office = codes "10.0.30.5"

int_tests : (int (codes " 1_0 ") ≡ some (pos 10)) × (int (codes "-3") ≡ some (negsuc 2))
unfolding int
int_tests = (refl, refl)

attic_in_scope : same_lan_scope home attic ≡ true
unfolding same_lan_scope int split str_beq
attic_in_scope = refl

neighbour_in_scope : same_lan_scope attic (codes "192.168.40.9") ≡ true
unfolding same_lan_scope int split str_beq
neighbour_in_scope = refl

ten_is_not_one_network : same_lan_scope office (codes "10.10.100.5") ≡ false
unfolding same_lan_scope int split str_beq
ten_is_not_one_network = refl

peer_in_scope_strips : peer_in_scope (codes " 192.168.1.9\n") home ≡ true
unfolding peer_in_scope same_lan_scope int split strip str_beq
peer_in_scope_strips = refl

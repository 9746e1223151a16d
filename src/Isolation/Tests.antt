-- ===== src/Isolation/Tests.antt =====
-- The filter on three interfaces, and the theorem there.
use chatx.Prelude.{ℕ, ◌≡◌, refl, true, false, ◌||◌, some, [], ◌∷◌, if◌then◌else◌, ◌==◌, nat_eq}
use chatx.Text.{Str, codes, str_eq, str_beq}
use chatx.Isolation.{serial, is_lan_family, families_compatible, filter_interfaces}

abbrev family : ℕ → Str
family n =
    if n == 0
    then codes "serial"
    else if n == 1
    then codes "udp"
    else if n == 2
    then codes "tcp"
    else []

kept : filter_interfaces family true (some 1) (0 ∷ 1 ∷ 2 ∷ 3 ∷ []) ≡ 2 ∷ 3 ∷ []
unfolding filter_interfaces str_beq is_lan_family families_compatible
kept = refl

apart : families_compatible (codes "serial") (codes "lan") ≡ false
unfolding families_compatible str_beq is_lan_family
apart = refl

abbrev usb : ℕ
usb = 0

abbrev wifi : ℕ
wifi = 1

wifi_is_lan : (family wifi == serial || is_lan_family (family wifi)) ≡ true
unfolding is_lan_family str_beq
wifi_is_lan = refl

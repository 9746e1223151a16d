-- ===== src/Failover/Timing.antt =====
-- How long the code waits before it tries again, and whether serial is faster
-- (chatx5/core/messaging/failover.py). Round trips are in whole units of the caller's, and those that are not
-- known are `none`.
use chatx.Prelude.{
  ℕ, ◌*◌, ◌≡◌, refl, Bool, true, false, not, ◌&&◌, ◌||◌, Option, none, some, List, [], ◌∷◌, ltb,
  if◌then◌else◌, nat_eq,
}
use chatx.Failover.{Family, is_lan, is_serial}

-- `SERIAL_SPEED_MARGIN` is 1.15.
abbrev serial_speed_margin_percent : ℕ
serial_speed_margin_percent = 115

-- A link of the peer: its interface's family and its round trip.
abbrev PeerLink : Type 0
PeerLink = Family × Option ℕ

abbrev rtt_of : (Family → Bool) → PeerLink → Option ℕ
rtt_of on (f, rtt) = if on f then rtt else none

abbrev or_rtt : Option ℕ → Option ℕ → Option ℕ
or_rtt none other = other
or_rtt (some t) other = some t

-- The first known round trip of the links on a transport, else that of the active link.
unfoldable pub first_rtt : (Family → Bool) → List PeerLink → PeerLink → Option ℕ
first_rtt on [] active = rtt_of on active
first_rtt on (l ∷ ls) active = or_rtt (rtt_of on l) (first_rtt on ls active)

abbrev faster : Option ℕ → Option ℕ → Bool
faster none l = false
faster (some s) none = false
faster (some s) (some l) = ltb (s * serial_speed_margin_percent) (l * 100)

unfoldable pub serial_faster_than_lan :
    (serial_ready physical_lan udp_online serial_path : Bool) → List PeerLink → PeerLink → Bool
serial_faster_than_lan serial_ready physical_lan udp_online serial_path links active =
    if not serial_ready
    then false
    else if not physical_lan || not udp_online
    then true
    else if not serial_path
    then false
    else faster (first_rtt is_serial links active) (first_rtt is_lan links active)

unfoldable pub session_reconnect_min_idle : (peer serial_only dual_path : Bool) → ℕ
session_reconnect_min_idle peer serial_only dual_path =
    if peer && serial_only then 18 else if dual_path then 4 else 18

unfoldable pub failover_cooldown :
    (serial_only dual_path disconnected : Bool) (failover_cooldown_s : ℕ) → ℕ
failover_cooldown serial_only dual_path disconnected failover_cooldown_s =
    if serial_only
    then failover_cooldown_s
    else if dual_path
    then (if disconnected then 4 else 8)
    else if disconnected
    then 4
    else failover_cooldown_s

-- With the LAN up, serial counts as faster only when a serial round trip has been measured.
serial_faster-measured :
    (links : List PeerLink) (active : PeerLink)
    → first_rtt is_serial links active ≡ none
    → serial_faster_than_lan true true true true links active ≡ false
unfolding serial_faster_than_lan
serial_faster-measured links active h = rw h refl

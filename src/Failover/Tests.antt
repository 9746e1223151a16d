-- ===== src/Failover/Tests.antt =====
-- Runs of the choice of a transport, and the theorems in concrete situations.
use chatx.Prelude.{◌||◌, ◌⊎◌, ◌≡◌, refl, true, false, none, some, [], ◌∷◌, nat_eq, contains, all}
use chatx.Failover.{
  Situation, no_session, udp, lan, serial, failover_families_to_try, preferred_failover_family,
  expected_of, order, lan_up, same_family,
}
use chatx.Failover.Needs.{
  Observed, link_needs_failover, session_needs_reconnect, reconnect_only_when_needed, on_picked,
  reconnect_checks, link_checks, path_moved, lan_swapped, by_expected, worn_out, path_lost,
}
use chatx.Failover.Order.{permitted, Distinct, failover_families_permitted}

-- A machine with both transports up, and a link over serial.
abbrev both_up : Situation
both_up = record {
  session = no_session;
  serial_ready = true;
  udp_lan = true;
  tcp_lan = false;
  hub = false;
  via_serial = false;
  physical_lan = true;
  peer_lan_down = false;
  udp_online = true;
  tcp_online = false;
  lan_online = false;
  udp_interfaces = true;
  serial_online = true;
  mesh_peer = false;
  serial_faster = true;
  serial_path = true;
  attached = serial;
  path = none;
  path_healthy = false;
  expected = udp ∷ serial ∷ [];
}

serial_when_faster : failover_families_to_try both_up ≡ serial ∷ udp ∷ lan ∷ []
unfolding failover_families_to_try expected_of order lan_up contains same_family
serial_when_faster = refl

stays_on_serial : preferred_failover_family both_up ≡ some serial
unfolding preferred_failover_family
stays_on_serial = refl

failover_families_permitted_example :
    (all (permitted both_up) (failover_families_to_try both_up) ≡ true)
    × Distinct (failover_families_to_try both_up)
failover_families_permitted_example = failover_families_permitted both_up

abbrev dead : Observed
dead = record {
  situation = both_up;
  dual_identity_mode = false;
  active_link = true;
  active_peer = true;
  active_transfer = false;
  peer_known = true;
  healthy = false;
  now = 100;
  last_link_established_at = 90;
  peer_path = none;
  peer_path_healthy = false;
  same_interface = true;
  path_score = 0;
  link_score = 0;
  lan_ready = true;
  parallel = false;
  pending_sends = [];
  link_stale = false;
  inactive_for = 0;
  has_path = true;
  link_active = true;
  connect_in_progress = false;
  user_disconnected = false;
  serial_configured = true;
  serial_missing = false;
  adopts = false;
  healthy_links = false;
  peer_links = true;
  failover_in_progress = false;
  lost_recently = false;
  reconnect_pending = false;
  cooling_down = false;
}

alive : link_needs_failover (record dead { healthy = true }) ≡ false
unfolding link_needs_failover link_checks path_moved lan_swapped same_family by_expected worn_out
    path_lost
alive = refl

dead_again : session_needs_reconnect dead ≡ true
unfolding session_needs_reconnect reconnect_checks
dead_again = refl

reconnect_only_when_needed_example :
    ((link_needs_failover dead ≡ true) ⊎ (dead.healthy ≡ false))
    × (on_picked dead ≡ false)
    × ((dead.active_transfer || dead.user_disconnected || dead.connect_in_progress) ≡ false)
reconnect_only_when_needed_example = reconnect_only_when_needed dead refl dead_again

-- ===== src/Failover.antt =====
-- The choice of a transport when a link has failed (`_failover_families_to_try` and
-- `_preferred_failover_family` of chatx5/core/messaging/failover.py). What the code reads of its settings, of
-- Reticulum's interfaces and of the peer is the record `Situation`: `udp_online` is `_has_online_family("udp")`,
-- and `udp_interfaces` says that `online_interfaces(family="udp")` names one.
pub mod Order
pub mod Needs
pub mod Timing
mod Tests
use chatx.Prelude.{
  ℕ, zero, suc, ◌+◌, ◌-◌, ◌*◌, ◌/◌, ◌%◌, ◌≤◌, ◌<◌, max, min, ◌≡◌, refl, sym, ap, ◌∙◌, ◌≢◌, ◌↔◌, ◌⊎◌,
  inl, inr, Bool, true, false, not, ◌&&◌, ◌||◌, Option, none, some, List, [], ◌∷◌, ◌++◌, map,
  append-nil, append_assoc, arith, ltb, leb, nat_beq, nat_beq_iff, if◌then◌else◌, Bool-cases,
  Option-cases, Eq, ◌==◌, nat_eq, contains, length, drop, take, keep, count, any, all,
  length-append, length-drop, length-keep-le, keep-append, keep-keep, keep_of_length, any-keep-not,
  keep_of_none, keep_of_some, All, All-append, All-keep, All-drop,
}

pub data Family : Type 0 where
  udp lan tcp serial unknown : Family

-- The transport that the user picked, after `_normalize_transport`.
pub data Session : Type 0 where
  no_session serial_session lan_session other_session : Session

pub record Situation : Type 0 where
  pub session : Session
  pub serial_ready : Bool
  pub udp_lan : Bool
  pub tcp_lan : Bool
  pub hub : Bool
  pub via_serial : Bool
  pub physical_lan : Bool
  pub peer_lan_down : Bool
  pub udp_online : Bool
  pub tcp_online : Bool
  pub lan_online : Bool
  pub udp_interfaces : Bool
  pub serial_online : Bool
  pub mesh_peer : Bool
  pub serial_faster : Bool
  pub serial_path : Bool
  pub attached : Family
  pub path : Option Family
  pub path_healthy : Bool
  pub expected : List Family

unfoldable pub same_family : Family → Family → Bool
same_family udp udp = true
same_family lan lan = true
same_family tcp tcp = true
same_family serial serial = true
same_family unknown unknown = true
same_family _ _ = false

pub same_family_iff : (f g : Family) → (same_family f g ≡ true) ↔ (f ≡ g)
unfolding same_family
same_family_iff f g = ground arith

instance abbrev pub family_eq : Eq Family
family_eq = record { test = same_family; test_iff = same_family_iff }

abbrev pub is_lan : Family → Bool
is_lan udp = true
is_lan lan = true
is_lan tcp = true
is_lan serial = false
is_lan unknown = false

abbrev pub is_serial : Family → Bool
is_serial serial = true
is_serial _ = false

unfoldable pub lan_up : Situation → Bool
lan_up s =
    s.physical_lan
    && not s.peer_lan_down
    && (s.udp_lan && s.udp_online || s.tcp_lan && s.tcp_online)

-- Without UDP among the settings.
abbrev tcp_order : Situation → List Family
tcp_order s =
    if lan_up s && s.serial_ready
    then (if s.serial_faster then serial ∷ tcp ∷ [] else tcp ∷ serial ∷ [])
    else if lan_up s
    then tcp ∷ serial ∷ []
    else if s.serial_ready
    then serial ∷ tcp ∷ []
    else tcp ∷ serial ∷ []

abbrev lan_first : Situation → List Family
lan_first s = if s.tcp_lan then udp ∷ tcp ∷ lan ∷ serial ∷ [] else udp ∷ lan ∷ serial ∷ []

abbrev serial_first : Situation → List Family
serial_first s = if s.tcp_lan then serial ∷ udp ∷ tcp ∷ lan ∷ [] else serial ∷ udp ∷ lan ∷ []

unfoldable pub order : Situation → List Family
order s =
    if s.tcp_lan && not s.udp_lan
    then tcp_order s
    else if lan_up s && s.serial_ready
    then (if s.serial_faster then serial_first s else lan_first s)
    else if lan_up s
    then lan_first s
    else if s.serial_ready
    then serial_first s
    else (if s.tcp_lan then udp ∷ tcp ∷ serial ∷ lan ∷ [] else udp ∷ serial ∷ lan ∷ [])

-- A family that the peer is expected on, or any without expectations.
abbrev pub is_expected : List Family → Family → Bool
is_expected [] f = true
is_expected (e ∷ es) f =
    if is_serial f then any is_serial (e ∷ es) else not (is_lan f) || any is_lan (e ∷ es)

-- The loop over the order, with the families seen.
unfoldable pub expected_of : List Family → List Family → List Family → List Family
expected_of expected seen [] = []
expected_of expected seen (f ∷ fs) =
    if contains f seen || not (is_expected expected f)
    then expected_of expected seen fs
    else f ∷ expected_of expected (f ∷ seen) fs

abbrev pub only_serial : List Family → Bool
only_serial [] = false
only_serial (e ∷ es) = all is_serial (e ∷ es)

abbrev pub lan_families : Situation → List Family
lan_families s =
    if s.tcp_lan && not s.udp_lan
    then tcp ∷ []
    else if s.udp_lan
    then (if s.tcp_lan then udp ∷ tcp ∷ [] else udp ∷ [])
    else udp ∷ tcp ∷ lan ∷ []

abbrev pub unlocked_families : Situation → List Family
unlocked_families s =
    let out = expected_of s.expected [] (order s) in
    if s.hub
    then tcp ∷ []
    else if s.via_serial
    then (if s.serial_ready then serial ∷ [] else [])
    else if only_serial s.expected && any is_serial out
    then serial ∷ []
    else out

unfoldable pub failover_families_to_try : Situation → List Family
failover_families_to_try s = elim s.session [
  | no_session ↦ unlocked_families s
  | serial_session ↦ if s.serial_ready then serial ∷ [] else unlocked_families s
  | lan_session ↦ lan_families s
  | other_session ↦ unlocked_families s
]

abbrev pub udp_up : Situation → Bool
udp_up s = s.udp_lan && s.udp_online

abbrev pub tcp_up : Situation → Bool
tcp_up s = s.tcp_lan && s.tcp_online

-- The interface of the path to the peer, if there is one.
abbrev path_list : Option Family → List Family
path_list none = []
path_list (some f) = f ∷ []

-- From `if physical_lan and lan_mesh_has_peer()` on.
abbrev without_lan_primary : Situation → Option Family
without_lan_primary s =
    if s.physical_lan && s.mesh_peer && is_serial s.attached
    then some lan
    else if s.serial_ready && not s.physical_lan
    then some serial
    else if is_serial s.attached && tcp_up s
    then some tcp
    else if is_serial s.attached && udp_up s
    then some udp
    else if is_serial s.attached && s.lan_online
    then some lan
    else if s.attached == lan && not s.mesh_peer && s.udp_interfaces
    then some udp
    else if s.attached == lan && not s.mesh_peer && s.serial_ready
    then some serial
    else if s.attached == udp && s.mesh_peer
    then some lan
    else if s.path_healthy && any (λ f. not (f == s.attached)) (path_list s.path)
    then s.path
    else if s.udp_online
    then some udp
    else if s.lan_online
    then some lan
    else if s.serial_online
    then some serial
    else none

-- With a physical LAN, UDP or TCP up on it, and the peer not known to be unreachable there.
abbrev lan_primary : Situation → Option Family
lan_primary s =
    if is_serial s.attached && s.serial_ready && s.serial_faster && s.serial_path
    then some serial
    else if s.tcp_lan && s.tcp_online && not s.udp_lan
    then some tcp
    else if not (is_serial s.attached) && tcp_up s && udp_up s
    then some tcp
    else some udp

unfoldable pub preferred_failover_family : Situation → Option Family
preferred_failover_family s =
    if s.hub
    then some tcp
    else if s.peer_lan_down && s.serial_ready
    then some serial
    else if any is_serial (path_list s.path) && s.serial_ready && not s.physical_lan
    then some serial
    else if s.physical_lan && (udp_up s || tcp_up s) && not s.peer_lan_down
    then lan_primary s
    else without_lan_primary s

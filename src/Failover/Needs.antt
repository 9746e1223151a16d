-- ===== src/Failover/Needs.antt =====
-- When a link is given up and when a session is connected again (`link_needs_failover` and
-- `session_needs_reconnect` of chatx5/core/messaging/failover.py). The reason, which is only shown, is left
-- out. The transfer state, the links and the paths that the code reads are the record `Observed`, for a
-- session as they are after `_adopt_healthy_peer_link`. `same_interface` says that the link has no
-- interface, or the one of the path.
use chatx.Prelude.{
  Bool-cases, inr, inl, ◌⊎◌, ℕ, ◌+◌, min, ◌≡◌, Bool, true, false, not, ◌&&◌, ◌||◌, Option, none,
  some, List, [], ◌∷◌, arith, ltb, leb, if◌then◌else◌, ◌==◌, nat_eq, length, any, all,
}
use chatx.Failover.{
  Family, Situation, no_session, other_session, serial_session, lan_session, is_lan, is_serial,
  family_eq, serial, udp, tcp, lan, unknown, preferred_failover_family,
}

abbrev link_failover_grace_s : ℕ
link_failover_grace_s = 30

abbrev receipt_failover_min_pending : ℕ
receipt_failover_min_pending = 2

abbrev receipt_failover_timeout_s : ℕ
receipt_failover_timeout_s = 30

abbrev link_stale_failover_idle_s : ℕ
link_stale_failover_idle_s = 90

pub record Observed : Type 0 where
  pub situation : Situation
  pub open situation use *
  pub dual_identity_mode : Bool
  pub active_link : Bool
  pub active_peer : Bool
  pub active_transfer : Bool
  pub peer_known : Bool
  pub healthy : Bool
  pub now : ℕ
  pub last_link_established_at : ℕ
  pub peer_path : Option Family
  pub peer_path_healthy : Bool
  pub same_interface : Bool
  pub path_score : ℕ
  pub link_score : ℕ
  pub lan_ready : Bool
  pub parallel : Bool
  pub pending_sends : List ℕ
  pub link_stale : Bool
  pub inactive_for : ℕ
  pub has_path : Bool
  pub link_active : Bool
  pub connect_in_progress : Bool
  pub user_disconnected : Bool
  pub serial_configured : Bool
  pub serial_missing : Bool
  pub adopts : Bool
  pub healthy_links : Bool
  pub peer_links : Bool
  pub failover_in_progress : Bool
  pub lost_recently : Bool
  pub reconnect_pending : Bool
  pub cooling_down : Bool

-- `_session_transport_locked`
abbrev pub locked : Observed → Bool
locked o = elim o.session [
  | no_session ↦ false
  | serial_session ↦ true
  | lan_session ↦ true
  | other_session ↦ false
]

-- A healthy link on the transport that the user picked.
abbrev pub on_picked : Observed → Bool
on_picked o = elim o.session [
  | no_session ↦ false
  | serial_session ↦ is_serial o.attached && o.healthy
  | lan_session ↦ is_lan o.attached && o.healthy
  | other_session ↦ false
]

abbrev in_grace : Observed → Bool
in_grace o = ltb o.now (o.last_link_established_at + link_failover_grace_s)

unfoldable pub hub_needs : Observed → Bool
hub_needs o = if o.attached == tcp && o.healthy then false else o.tcp_online

-- The path to the peer has moved to an interface with a better score.
unfoldable pub path_moved : Observed → Bool
path_moved o = elim o.peer_path [
  | none ↦ false
  | some f ↦
      if locked o || o.same_interface || not o.peer_path_healthy
      then false
      else if f == udp && o.attached == udp && o.healthy
      then false
      else if not (f == o.attached)
      then not (in_grace o) && ltb (o.link_score + 10) o.path_score
      else not (in_grace o) && ltb (o.link_score + 25) o.path_score
]

unfoldable pub lan_swapped : Observed → Bool
lan_swapped o =
    not (locked o)
    && (o.attached == lan && not o.mesh_peer && o.udp_interfaces
        || o.attached == udp && not o.lan_ready && o.mesh_peer)

abbrev serial_only : List Family → Bool
serial_only [] = false
serial_only (e ∷ es) = all is_serial (e ∷ es)

abbrev lan_only : List Family → Bool
lan_only [] = false
lan_only (e ∷ es) = not (any is_serial (e ∷ es))

-- What follows from the transports that the peer is expected on: `some` is a return.
unfoldable pub by_expected : Observed → Option Bool
by_expected o =
    let ser = serial_only o.expected in
    let net = lan_only o.expected in
    if o.parallel && (ser && is_serial o.attached || net && is_lan o.attached)
    then some false
    else if o.parallel
        && not (in_grace o)
        && (ser && is_lan o.attached || net && is_serial o.attached)
    then some true
    else if ser && is_serial o.attached && o.healthy
    then some false
    else none

abbrev oldest : List ℕ → ℕ → ℕ
oldest [] t = t
oldest (s ∷ ss) t = oldest ss (min s t)

abbrev overdue : Observed → Bool
overdue o = elim o.pending_sends [
  | [] ↦ false
  | s ∷ ss ↦
      leb receipt_failover_min_pending (length (s ∷ ss))
      && ltb (oldest ss s + receipt_failover_timeout_s) o.now
]

abbrev family_online : Observed → Family → Bool
family_online o udp = o.udp_online
family_online o tcp = o.tcp_online
family_online o lan = o.lan_online
family_online o serial = o.serial_online
family_online o unknown = false

-- `_preferred_failover_family(peer, attached)`, without an address of the peer.
abbrev preferred_online : Observed → Bool
preferred_online o =
    elim (preferred_failover_family (record o.situation { peer_lan_down = false })) [
      | none ↦ false
      | some f ↦ f == o.attached && family_online o f
    ]

unfoldable pub path_lost : Observed → Bool
path_lost o =
    if o.has_path || in_grace o
    then false
    else if is_serial o.attached && o.healthy && o.link_active
    then false
    else if locked o
    then not o.healthy
    else preferred_online o || not o.healthy

unfoldable pub worn_out : Observed → Bool
worn_out o =
    let serial_offline =
      is_serial o.attached
      && not o.serial_ready
      && not (serial_only o.expected)
      && not (locked o)
      && (o.udp_online || o.lan_online)
      && o.physical_lan in
    let unanswered =
      overdue o
      && (o.link_stale || ltb (o.last_link_established_at + link_failover_grace_s) o.now) in
    serial_offline
    || unanswered
    || path_lost o
    || o.link_stale && ltb link_stale_failover_idle_s o.inactive_for

unfoldable pub link_checks : Observed → Bool
link_checks o =
    if not o.healthy
    then true
    else if path_moved o || lan_swapped o
    then true
    else elim (by_expected o) [ none ↦ worn_out o | some b ↦ b ]

unfoldable pub link_needs_failover : Observed → Bool
link_needs_failover o =
    if o.dual_identity_mode
      || not o.active_link
      || not o.active_peer
      || o.active_transfer
      || not o.peer_known
    then false
    else if on_picked o
    then false
    else if o.hub
    then hub_needs o
    else link_checks o

-- Once no link of the peer serves.
unfoldable pub without_link : Observed → Bool
without_link o =
    if in_grace o && o.peer_links
    then false
    else if o.failover_in_progress
    then false
    else if o.active_link
    then link_needs_failover o
    else if o.lost_recently
    then false
    else o.reconnect_pending || not o.cooling_down

unfoldable pub reconnect_checks : Observed → Bool
reconnect_checks o =
    if o.adopts && o.active_link && is_serial o.attached
    then false
    else if o.adopts && o.active_link && o.healthy
    then link_needs_failover o
    else if o.link_active && o.active_link && not o.healthy
    then true
    else if o.link_active && o.active_link && is_serial o.attached
    then false
    else if o.link_active
    then o.active_link && link_needs_failover o
    else if o.healthy_links
    then false
    else without_link o

unfoldable pub session_needs_reconnect : Observed → Bool
session_needs_reconnect o =
    if o.dual_identity_mode
      || o.connect_in_progress
      || o.active_transfer
      || not o.peer_known
      || o.user_disconnected
    then false
    else if serial_only o.expected && o.serial_configured && o.serial_missing
    then false
    else reconnect_checks o

on_picked-healthy : (o : Observed) → on_picked o ≡ true → o.healthy ≡ true
on_picked-healthy o h = ground arith

on_picked_kept : (o : Observed) → on_picked o ≡ true → link_needs_failover o ≡ false
unfolding link_needs_failover
on_picked_kept o h = ground (arith, h)

needs_or_dead :
    (o : Observed)
    → o.active_link ≡ true
    → session_needs_reconnect o ≡ true
    → (link_needs_failover o ≡ true) ⊎ (o.healthy ≡ false)
unfolding session_needs_reconnect reconnect_checks without_link
needs_or_dead o there again = ground arith

-- A session that has an active link is connected again only if that link needs failover or its interface
-- is not healthy; and never while a healthy link is on the transport that the user picked, during
-- a transfer, after the user has ended the session, or while a connection is under way.
pub reconnect_only_when_needed :
    (o : Observed)
    → o.active_link ≡ true
    → session_needs_reconnect o ≡ true
    → ((link_needs_failover o ≡ true) ⊎ (o.healthy ≡ false))
      × (on_picked o ≡ false)
      × ((o.active_transfer || o.user_disconnected || o.connect_in_progress) ≡ false)
unfolding session_needs_reconnect
reconnect_only_when_needed o there again =
    let cause = needs_or_dead o there again in
    let picked : on_picked o ≡ false = elim (Bool-cases (on_picked o)) [
      | inl on ↦ absurd (ground (arith, cause, on_picked_kept o on, on_picked-healthy o on))
      | inr off ↦ off
    ] in
    (cause, picked, ground arith)

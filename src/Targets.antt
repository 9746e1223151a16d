-- ===== src/Targets.antt =====
-- The addresses that discovery sends to (chatx5/core/lan_targets.py). The interfaces of the machine, the
-- user's preference among them and the platform are arguments; a missing text is the empty one.
pub mod Distinct
mod Tests
use chatx.Prelude.{
  ℕ, zero, suc, ◌+◌, ◌-◌, ◌*◌, ◌/◌, ◌%◌, ◌≤◌, ◌<◌, max, min, ◌≡◌, refl, sym, ap, ◌∙◌, ◌≢◌, ◌↔◌, ◌⊎◌,
  inl, inr, Bool, true, false, not, ◌&&◌, ◌||◌, Option, none, some, List, [], ◌∷◌, ◌++◌, map,
  append-nil, append_assoc, arith, ltb, leb, nat_beq, nat_beq_iff, if◌then◌else◌, Bool-cases,
  Option-cases, Eq, ◌==◌, nat_eq, contains, length, drop, take, keep, count, any, all,
  length-append, length-drop, length-keep-le, keep-append, keep-keep, keep_of_length, any-keep-not,
  keep_of_none, keep_of_some, All, All-append, All-keep, All-drop,
}
use chatx.Text.{Str, codes, truthy, strip, str_eq}
use chatx.Text.Parts.{split}

pub record Interface : Type 0 where
  pub kind : Str
  pub up : Bool
  pub gateway_iface : Bool
  pub broadcast : Str
  pub subnet_broadcast : Str

unfoldable pub up_broadcast_ifaces : List Interface → List Interface
up_broadcast_ifaces entries =
    keep (λ i. i.up && truthy i.broadcast && not (i.kind == codes "vpn")) entries

abbrev some_of : List Interface → Bool
some_of [] = false
some_of (i ∷ is) = true

-- `entries` are all interfaces and `scoped` those that pass `_filter_interfaces_for_lan`.
unfoldable pub broadcast_interface_entries :
    (android preference : Bool) (entries scoped : List Interface) → List Interface
unfolding contains
broadcast_interface_entries android preference entries scoped =
    let gateway = up_broadcast_ifaces (keep (λ i. i.gateway_iface) scoped) in
    let physical =
      up_broadcast_ifaces
        (keep (λ i. contains i.kind (codes "wifi" ∷ codes "ethernet" ∷ [])) scoped) in
    let active = up_broadcast_ifaces scoped in
    if android
    then entries
    else if not preference && some_of gateway
    then gateway
    else if not preference && some_of physical
    then take 2 physical
    else if some_of active
    then active
    else up_broadcast_ifaces (keep (λ i. i.gateway_iface) entries)

-- `if x and x not in targets: targets.append(x)`
abbrev pub add_new : Str → List Str → List Str
add_new x targets = if truthy x && not (contains x targets) then targets ++ (x ∷ []) else targets

-- The same at the front.
abbrev pub put_first : Str → List Str → List Str
put_first x targets = if truthy x && not (contains x targets) then x ∷ targets else targets

unfoldable pub iface_targets : List Str → List Interface → List Str
iface_targets targets [] = targets
iface_targets targets (i ∷ is) =
    iface_targets (add_new i.subnet_broadcast (add_new i.broadcast targets)) is

-- `f"{base}.{last}"` for the first three parts of an address.
abbrev pub dotted : Str → Str → Str → Str → Str
dotted a b c last = a ++ (b'.' ∷ b ++ (b'.' ∷ c ++ (b'.' ∷ last)))

abbrev pub with_directed : List Str → List Str → List Str
with_directed (a ∷ b ∷ c ∷ d ∷ []) targets = put_first (dotted a b c (codes "255")) targets
with_directed _ targets = targets

-- `ip` is the argument, or the machine's address without one.
unfoldable pub directed_broadcasts : List Interface → Str → List Str
directed_broadcasts ifaces ip =
    let targets = iface_targets [] ifaces in
    add_new (codes "255.255.255.255")
      (if truthy ip then with_directed (split b'.' ip) targets else targets)

-- `str(i)`, for numbers up to 999
unfoldable pub decimal : ℕ → Str
decimal i =
    if ltb i 10
    then (b'0' + i) ∷ []
    else if ltb i 100
    then (b'0' + i / 10) ∷ (b'0' + i % 10) ∷ []
    else (b'0' + i / 100) ∷ (b'0' + i / 10 % 10) ∷ (b'0' + i % 10) ∷ []

-- `range(start, start + n)`
abbrev range_from : ℕ → ℕ → List ℕ
range_from start zero = []
range_from start (suc n) = start ∷ range_from (suc start) n

abbrev dhcp_hosts : List ℕ
dhcp_hosts =
    1 ∷ 2 ∷ 3 ∷ 4 ∷ 5 ∷ 10 ∷ 20 ∷ 50 ∷ 100 ∷ 101 ∷ 102 ∷ 103 ∷ 104 ∷ 105 ∷ 110 ∷ 120 ∷ 150 ∷ 200
    ∷ 254 ∷ []

-- The loops of the sample: each adds the hosts but the machine's own.
unfoldable pub add_hosts : (Str → Str) → Str → List ℕ → List Str → List Str
add_hosts host my_host [] hosts = hosts
add_hosts host my_host (i ∷ is) hosts =
    add_hosts host my_host is
      (if decimal i == my_host then hosts else add_new (host (decimal i)) hosts)

unfoldable pub sample_subnet_hosts : (android : Bool) (host : Str → Str) (my_host : Str) → List Str
sample_subnet_hosts android host my_host =
    let small = add_hosts host my_host dhcp_hosts [] in
    if android
    then add_hosts host my_host (range_from 100 16) (add_hosts host my_host (range_from 2 30) small)
    else small

unfoldable pub add_all : List Str → List Str → List Str
add_all [] targets = targets
add_all (x ∷ xs) targets = add_all xs (add_new x targets)

abbrev pub with_sample : Bool → List Str → List Str → List Str
with_sample android (a ∷ b ∷ c ∷ d ∷ []) targets =
    add_all (sample_subnet_hosts android (dotted a b c) d) targets
with_sample android _ targets = targets

unfoldable pub efficient_unicast_hosts :
    (android : Bool) (ip : Str) (known_ips : List Str) (peer_ip : Str) → List Str
efficient_unicast_hosts android ip known_ips peer_ip =
    let targets = put_first (strip peer_ip) (add_all (map strip known_ips) []) in
    if truthy ip then with_sample android (split b'.' ip) targets else targets

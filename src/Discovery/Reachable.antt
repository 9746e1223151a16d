-- ===== src/Discovery/Reachable.antt =====
-- Every sequence of calls on the discovery table (chatx5/core/discovery.py), from the moment it is made:
-- the table stays well-formed.
use mathlib.Core.Path.{subst}
use chatx.Discovery.Beacons.{Beacon, on_beacon}
use chatx.Discovery.Removal.{
  set_local_hashes, clean_hashes, clear_peers, start, stop, enable_discovery, disable_discovery,
}
use chatx.Prelude.{
  ℕ, ◌≡◌, refl, sym, Bool, true, false, Option, none, some, List, [], ◌∷◌, arith, nat_eq, contains,
  if_both,
}
use chatx.Text.{Str, str_eq}
use chatx.Dict.{lookup}
use chatx.Discovery.{Row, State, Env, keys_of, has_peer_hash, pop_peer_key}
use chatx.Discovery.Ours.{set_local_hashes-Own}
use chatx.Discovery.Inputs.{
  Own, both, own_locals, register_link_peer-Own, on_announce-Own, on_beacon-Own,
}
use chatx.Discovery.Invariant.{Table, WellFormed, pop_peer_key-Table}
use chatx.Discovery.Preserved.{
  if_table, sweep-Kept, for_hash-Table, Mild, peer_keys_for_hash-Kept, purge_out_of_scope-Kept,
  purge_ipless_non_serial-Kept, purge_misclassified_serial-Kept, purge_offline_serial_peers-Kept,
  purge_hashes-Kept, purge_stale_probes-Kept, dedupe_identities-Kept, refresh_paths_for_scope-Kept,
  change_rows-Table,
}
use chatx.Discovery.Purge.{
  purge_out_of_scope, purge_ipless_non_serial, purge_misclassified_serial,
  purge_offline_serial_peers, purge_hashes, purge_stale_probes, dedupe_identities,
  refresh_paths_for_scope,
}
use chatx.Discovery.Store.{register_link_peer}
use chatx.Discovery.Announce.{Announcement, on_announce}
use chatx.Discovery.Probing.{
  reset_peer_probe_state, clear_peer_rtt, update_peer_probe, reset_probe_timers, note_probe,
  probe_row, clear_rtt, alive, without_timer,
}
use chatx.Discovery.View.{drop_stale, get_peers, stale}

-- A call on the table, with what it reads of the world.
pub data Call : Type 0 where
  starting : Call
  stopping : Call
  enabling : Bool → Call
  disabling : Call
  setting_local : List Str → Call
  link_peer : Str → Str → Str → Str → Call
  announce : Announcement → Call
  beacon : Beacon → Str → Str → Str → Call
  out_of_scope : Str → Call
  ipless : Call
  misclassified : Call
  offline_serial : Call
  hashes : List Str → Call
  stale_probes : ℕ → ℕ → ℕ → Call
  dedupe : Str → Call
  refreshing : Str → Call
  alive_again : Str → Call
  timers : Call
  drop_rtt : Str → Str → Call
  probe : Str → Option ℕ → Bool → Str → Call
  asking : Str → Call
  listing : Option Str → Call

unfoldable pub apply : Env → Call → State → State
unfolding get_peers
apply env starting s = start s
apply env stopping s = stop s
apply env (enabling clear) s = enable_discovery clear s
apply env disabling s = disable_discovery s
apply env (setting_local hs) s = set_local_hashes hs s
apply env (link_peer h name via ip) s = register_link_peer env h name via ip s
apply env (announce a) s = on_announce env a s
apply env (beacon b my_dest my_ident source) s = (on_beacon env b my_dest my_ident source s).1
apply env (out_of_scope scope) s = (purge_out_of_scope scope s).1
apply env ipless s = (purge_ipless_non_serial s).1
apply env misclassified s = (purge_misclassified_serial env s).1
apply env offline_serial s = (purge_offline_serial_peers env s).1
apply env (hashes hs) s = (purge_hashes hs s).1
apply env (stale_probes max_rtt stale_s failures) s =
    (purge_stale_probes env max_rtt stale_s failures s).1
apply env (dedupe scope) s = (dedupe_identities env scope s).1
apply env (refreshing scope) s = (refresh_paths_for_scope env scope s).1
apply env (alive_again h) s = reset_peer_probe_state env h s
apply env timers s = reset_probe_timers s
apply env (drop_rtt h via) s = (clear_peer_rtt h via s).1
apply env (probe h rtt ok via) s = update_peer_probe env h rtt ok via s
apply env (asking h) s = (has_peer_hash h s).1
apply env (listing scope) s = (get_peers env scope s).1

unfoldable pub run : List (Env × Call) → State → State
unfolding apply
run [] s = s
run ((env, c) ∷ calls) s = run calls (apply env c s)

-- `PeerDiscovery()`
abbrev pub new_discovery : State
new_discovery = record {
  peers = [];
  hash_index = [];
  running = false;
  accept_peers = false;
  local_hashes = [];
  effects = [];
}

-- The switches are no part of the table.
pub switched :
    (own : List Str) (running accept_peers : Bool) (s : State)
    → Own own s
    → Own own (record s { running = running; accept_peers = accept_peers })
switched own running accept_peers s t = record {
  ours = t.ours;
  distinct = t.distinct;
  rows = t.rows;
  indexed = t.indexed;
  sound = t.sound;
}

pub cleared : (own : List Str) (s : State) → s.local_hashes ≡ own → Own own (clear_peers s)
unfolding clear_peers lookup contains
cleared own s ours = record {
  ours = ours;
  distinct = tt;
  rows = λ k row at. absurd (ground arith);
  indexed = λ k row at. absurd (ground arith);
  sound = λ h k st. absurd (ground arith);
}

clear_rtt-Mild : (via : Str) → Mild (both []) (clear_rtt via)
clear_rtt-Mild via row = ground arith

probe_row-Mild :
    (env : Env) (rtt : Option ℕ) (ok : Bool) (via : Str) → Mild (both []) (probe_row env rtt ok via)
unfolding note_probe
probe_row-Mild env none true via row = ground arith
probe_row-Mild env none false via row = ground arith
probe_row-Mild env (some rtt) true via row = ground arith
probe_row-Mild env (some rtt) false via row = ground arith

-- The own hashes after a call.
abbrev own_after : Call → List Str → List Str
own_after (setting_local hs) own = clean_hashes hs
own_after _ own = own

apply-Own :
    (env : Env) (c : Call) (own : List Str) (s : State)
    → Own own s
    → Own (own_after c own) (apply env c s)
unfolding apply start stop enable_discovery disable_discovery has_peer_hash get_peers drop_stale
    reset_peer_probe_state reset_probe_timers clear_peer_rtt update_peer_probe
apply-Own env starting own s t = switched own true false s t
apply-Own env stopping own s t = switched own false s.accept_peers s t
apply-Own env (enabling clear) own s t =
    if_table (both own) clear _ _ (cleared own (record s { accept_peers = true }) t.ours)
      (switched own s.running true s t)
apply-Own env disabling own s t = cleared own (record s { accept_peers = false }) t.ours
apply-Own env (setting_local hs) own s t = set_local_hashes-Own own hs s t
apply-Own env (link_peer h name via ip) own s t = register_link_peer-Own own env h name via ip s t
apply-Own env (announce a) own s t = on_announce-Own own env a s t
apply-Own env (beacon b my_dest my_ident source) own s t =
    (on_beacon-Own own env b my_dest my_ident source s t).table
apply-Own env (out_of_scope scope) own s t = (purge_out_of_scope-Kept (both own) scope s t).table
apply-Own env ipless own s t = (purge_ipless_non_serial-Kept (both own) s t).table
apply-Own env misclassified own s t = (purge_misclassified_serial-Kept (both own) env s t).table
apply-Own env offline_serial own s t = (purge_offline_serial_peers-Kept (both own) env s t).table
apply-Own env (hashes hs) own s t = (purge_hashes-Kept (both own) hs s t).table
apply-Own env (stale_probes max_rtt stale_s failures) own s t =
    (purge_stale_probes-Kept (both own) env max_rtt stale_s failures s t).table
apply-Own env (dedupe scope) own s t = (dedupe_identities-Kept (both own) env scope s t).table
apply-Own env (refreshing scope) own s t =
    (refresh_paths_for_scope-Kept (both own) env scope s t).table
apply-Own env (alive_again h) own s t =
    for_hash-Table (both own) (alive env) (λ row. (refl, refl, refl)) h s t
apply-Own env timers own s t =
    change_rows-Table (both own) without_timer (λ row. (refl, refl, refl)) (keys_of s.peers) s t
apply-Own env (drop_rtt h via) own s t = for_hash-Table (both own) _ (clear_rtt-Mild via) h s t
apply-Own env (probe h rtt ok via) own s t =
    for_hash-Table (both own) _ (probe_row-Mild env rtt ok via) h s t
apply-Own env (asking h) own s t = (peer_keys_for_hash-Kept (both own) h s t).table
apply-Own env (listing scope) own s t =
    if_both (λ (r : List Row × State). Own own r.1) s.accept_peers _ _
      (λ shown.
        (sweep-Kept (both own) pop_peer_key (stale env) (pop_peer_key-Table (both own))
          (keys_of s.peers) s t).table)
      (λ hidden. t)

run-Own :
    (calls : List (Env × Call)) (own : List Str) (s : State) → Own own s → WellFormed (run calls s)
unfolding run
run-Own [] own s t = subst (λ l. Table l s) (sym (own_locals own s t)) t
run-Own ((env, c) ∷ calls) own s t =
    run-Own calls (own_after c own) (apply env c s) (apply-Own env c own s t)

-- Whatever the calls on the table are, and whatever each of them reads of the world, no key stands twice
-- in it, each row stands under its storage key and in the index under its hash, each entry of the index
-- is a row with that hash or identity, and no row has one of our own hashes as its hash or identity.
pub run-WellFormed : (calls : List (Env × Call)) → WellFormed (run calls new_discovery)
unfolding clear_peers
run-WellFormed calls = run-Own calls [] new_discovery (cleared [] new_discovery refl)

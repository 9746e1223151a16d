-- ===== src/Discovery/Probing.antt =====
-- Round trips and failures of probes on the rows of the discovery table (chatx5/core/discovery.py).
-- `float(peer.get("last_seen") or time.time())` reads the clock where the row has no time.
use chatx.Prelude.{
  ℕ, ◌+◌, ◌-◌, Bool, true, false, not, ◌&&◌, ◌||◌, Option, none, some, List, [], ◌∷◌, ltb,
  if◌then◌else◌, ◌==◌, nat_eq, any,
}
use chatx.Text.{Str, truthy}
use chatx.Dict.{lookup, insert}
use chatx.Hash.{normalize_hash}
use chatx.Probe.{rolling_avg_ms, avg_ms}
use chatx.Discovery.{Row, State, Env, or_nil, keys_of, peer_keys_for_hash}
use chatx.Discovery.Rows.{probe_via_matches}

-- A row changed in place, the others left alone.
unfoldable pub change_row : (Row → Row) → Str → State → State
change_row f k s = elim (lookup k s.peers) [
  | none ↦ s
  | some row ↦ record s { peers = insert k (f row) s.peers }
]

unfoldable pub change_rows : (Row → Row) → List Str → State → State
unfolding change_row
change_rows f [] s = s
change_rows f (k ∷ ks) s = change_rows f ks (change_row f k s)

-- `for peer in self._peers_for_hash(clean): …`, which changes each row in place
unfoldable pub for_hash : (Row → Row) → Str → State → State
for_hash f hash_hex s =
    let r = peer_keys_for_hash (normalize_hash hash_hex) s in
    if truthy (normalize_hash hash_hex) then change_rows f r.0 r.1 else s

abbrev pub alive : Env → Row → Row
alive env row = record row {
  probe_failures = 0;
  last_probe_ok = if row.last_seen == 0 then env.now else row.last_seen;
}

unfoldable pub reset_peer_probe_state : Env → Str → State → State
unfolding for_hash
reset_peer_probe_state env hash_hex s = for_hash (alive env) hash_hex s

-- `reset_probe_timers`
abbrev pub without_timer : Row → Row
without_timer row = record row { last_rtt_probe_at = none }

unfoldable pub reset_probe_timers : State → State
unfolding change_rows
reset_probe_timers s = change_rows without_timer (keys_of s.peers) s

-- `clear_peer_rtt`
abbrev pub without_rtt : Row → Row
without_rtt row = record row { rtt_ms = none; rtt_avg_ms = none; rtt_samples = none }

abbrev pub present {ℓ} : {A : Type ℓ} → Option A → Bool
present none = false
present (some a) = true

-- Whether a row has something to drop.
abbrev pub has_rtt : Str → Option Row → Bool
has_rtt via none = false
has_rtt via (some row) =
    probe_via_matches row via
    && (present row.rtt_ms || present row.rtt_avg_ms || present row.rtt_samples)

abbrev pub clear_rtt : Str → Row → Row
clear_rtt via row = if probe_via_matches row via then without_rtt row else row

unfoldable pub clear_peer_rtt : Str → Str → State → Bool × State
unfolding for_hash
clear_peer_rtt hash_hex via s =
    let r = peer_keys_for_hash (normalize_hash hash_hex) s in
    (
      truthy (normalize_hash hash_hex) && any (λ k. has_rtt via (lookup k s.peers)) r.0,
      for_hash (clear_rtt via) hash_hex s,
    )

-- `update_peer_probe`, for one row of the transport that was probed.
abbrev recent : Env → Row → Bool
recent env row = not (row.last_seen == 0) && ltb (env.now - row.last_seen) 12

abbrev refresh : Env → Row → Row
refresh env row =
    if recent env row then record row { probe_failures = 0; last_probe_ok = row.last_seen } else row

abbrev note_rtt : Env → ℕ → Row → Row
note_rtt env rtt row =
    let samples = rolling_avg_ms (or_nil row.rtt_samples) (some rtt) in
    record row {
      rtt_samples = some samples;
      rtt_ms = some rtt;
      rtt_avg_ms = avg_ms samples;
      last_probe_ok = env.now;
      probe_failures = 0;
    }

abbrev note_failure : Env → Row → Row
note_failure env row = record (without_rtt row) {
  probe_failures = row.probe_failures + 1;
  last_probe_at = some env.now;
}

-- A probe that succeeded without a round trip changes no more than `refresh`.
unfoldable pub note_probe : Env → Option ℕ → Bool → Row → Row
note_probe env (some rtt) true row = note_rtt env rtt (refresh env row)
note_probe env none true row = refresh env row
note_probe env rtt_ms false row = if recent env row then refresh env row else note_failure env row

abbrev pub probe_row : Env → Option ℕ → Bool → Str → Row → Row
probe_row env rtt_ms ok via row =
    if probe_via_matches row via then note_probe env rtt_ms ok row else row

unfoldable pub update_peer_probe : Env → Str → Option ℕ → Bool → Str → State → State
unfolding for_hash
update_peer_probe env hash_hex rtt_ms ok via s = for_hash (probe_row env rtt_ms ok via) hash_hex s

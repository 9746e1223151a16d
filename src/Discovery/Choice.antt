-- ===== src/Discovery/Choice.antt =====
-- The choice between two rows for one peer (`_prefer_peer` of chatx5/core/discovery.py), and the rows
-- that a probe changes.
use chatx.Prelude.{
  ℕ, ◌≡◌, refl, sym, ap, ◌∙◌, ◌⊎◌, inl, inr, Bool, true, false, not, ◌||◌, Option, none, some, List,
  [], ◌∷◌, arith, nat_eq, if_both, option_both,
}
use chatx.Text.{str_beq, codes, strip, lower, Str, truthy, str_eq, str_beq_iff}
use chatx.Dict.{lookup}
use chatx.Dict.Laws.{lookup-insert}
use chatx.Hash.{normalize_hash}
use chatx.Discovery.{is_serial, Row, State, Env, peer_keys_for_hash, keys_or_scan, candidates, scan}
use chatx.Discovery.Rows.{
  probe_via_matches, prefers_first, prefer_peer, peer_viable, peer_rank, viable_first, rank_first,
  rtt_first,
}
use chatx.Discovery.Probing.{
  change_row, change_rows, for_hash, update_peer_probe, probe_row, note_probe,
}
use chatx.Discovery.Preserved.{peers-index_found}

-- A row that is viable is never given up for one that is not.
pub prefer_peer-viable :
    (env : Env) (scope : Option Str) (a b : Row)
    → peer_viable env scope (prefer_peer env scope a b)
      ≡ (peer_viable env scope a || peer_viable env scope b)
unfolding prefers_first
prefer_peer-viable env scope a b = ground arith

rank_first_antisym :
    (k l m n : ℕ) → (rank_first l k n m ≡ not (rank_first k l m n)) ⊎ ((k ≡ l) × (m ≡ n))
rank_first_antisym k l m n = ground arith

rtt_first_antisym :
    (x y : Option ℕ) (p q : Bool)
    → (rtt_first y x q ≡ not (rtt_first x y p))
      ⊎ ((x ≡ y) × (rtt_first y x q ≡ q) × (rtt_first x y p ≡ p))
rtt_first_antisym none none p q = ground arith
rtt_first_antisym none (some y) p q = ground arith
rtt_first_antisym (some x) none p q = ground arith
rtt_first_antisym (some x) (some y) p q = ground arith

viable_first_antisym :
    (a b p q : Bool)
    → (viable_first b a q ≡ not (viable_first a b p))
      ⊎ ((a ≡ b) × (viable_first b a q ≡ q) × (viable_first a b p ≡ p))
viable_first_antisym true true p q = ground arith
viable_first_antisym true false p q = ground arith
viable_first_antisym false true p q = ground arith
viable_first_antisym false false p q = ground arith

-- The choice does not depend on the order of the two rows, unless they tie in everything that it
-- looks at: both are viable or neither, their round trips are the same, and so are their rank and the
-- time at which they were seen.
pub prefers_first_antisym :
    (env : Env) (scope : Option Str) (a b : Row)
    → (prefers_first env scope b a ≡ not (prefers_first env scope a b))
      ⊎ ((peer_viable env scope a ≡ peer_viable env scope b)
          × (a.rtt_avg_ms ≡ b.rtt_avg_ms)
          × (peer_rank a ≡ peer_rank b)
          × (a.last_seen ≡ b.last_seen))
unfolding prefers_first
prefers_first_antisym env scope a b =
    let by_rank = rank_first (peer_rank a) (peer_rank b) a.last_seen b.last_seen in
    let by_rank' = rank_first (peer_rank b) (peer_rank a) b.last_seen a.last_seen in
    let by_rtt = rtt_first a.rtt_avg_ms b.rtt_avg_ms by_rank in
    let by_rtt' = rtt_first b.rtt_avg_ms a.rtt_avg_ms by_rank' in
    elim (viable_first_antisym (peer_viable env scope a) (peer_viable env scope b) by_rtt by_rtt') [
      | inl turned ↦ inl turned
      | inr viable ↦ elim (rtt_first_antisym a.rtt_avg_ms b.rtt_avg_ms by_rank by_rank') [
        | inl turned ↦ inl (viable.1 ∙ turned ∙ ap not (sym viable.2))
        | inr rtt ↦ elim (rank_first_antisym (peer_rank a) (peer_rank b) a.last_seen b.last_seen) [
          | inl turned ↦ inl (viable.1 ∙ rtt.1 ∙ turned ∙ ap not (sym (viable.2 ∙ rtt.2)))
          | inr tie ↦ inr (viable.0, rtt.0, tie.0, tie.1)
        ]
      ]
    ]

-- The rows that a probe changes: those of the transport that it measured.
module _ (f : Row → Row) (k : Str) (row : Row) (fixed : f row ≡ row) where
  change_row-fixed :
      (j : Str) (s : State)
      → lookup k s.peers ≡ some row
      → lookup k (change_row f j s).peers ≡ some row
  unfolding change_row
  change_row-fixed j s at =
      option_both (λ (u : State). lookup k u.peers ≡ some row) (lookup j s.peers) s _ (λ free. at)
        (λ r there.
          lookup-insert k j (f r) s.peers ∙ ground (arith, str_beq_iff j k, ap some fixed))

  change_rows-fixed :
      (js : List Str) (s : State)
      → lookup k s.peers ≡ some row
      → lookup k (change_rows f js s).peers ≡ some row
  unfolding change_rows
  change_rows-fixed [] s at = at
  change_rows-fixed (j ∷ js) s at =
      change_rows-fixed js (change_row f j s) (change_row-fixed j s at)

peers-keys_or_scan : (c : Str) (ks : List Str) (s : State) → (keys_or_scan c ks s).1.peers ≡ s.peers
peers-keys_or_scan c [] s = peers-index_found (scan c s) s
peers-keys_or_scan c (k ∷ ks) s = refl

pub peers-peer_keys_for_hash : (h : Str) (s : State) → (peer_keys_for_hash h s).1.peers ≡ s.peers
unfolding peer_keys_for_hash
peers-peer_keys_for_hash h s =
    ground (arith, peers-keys_or_scan (normalize_hash h) (candidates (normalize_hash h) s) s)

-- The row is of the transport that the probe does not name.
abbrev pub ProbedElsewhere : Str → Row → Type 0
ProbedElsewhere via row =
    (((lower (strip via) ≡ codes "serial") ⊎ (lower (strip via) ≡ codes "usb"))
      × (is_serial row ≡ false))
    ⊎ ((lower (strip via) ≡ codes "lan") × (is_serial row ≡ true))

probe_via_matches_other :
    (via : Str) (row : Row) → ProbedElsewhere via row → probe_via_matches row via ≡ false
unfolding probe_via_matches str_beq
probe_via_matches_other via row (inl (inl e, lan)) = rw (e, lan)
probe_via_matches_other via row (inl (inr e, lan)) = rw (e, lan)
probe_via_matches_other via row (inr (e, serial)) = rw (e, serial)

-- A probe of the serial link (`serial` or `usb`) leaves every row of the LAN as it is, and a probe of the
-- LAN (`lan`) every serial row, whatever the hash that was probed and the outcome are: the round trip on
-- one is never taken for that on the other.
pub update_peer_probe-other_transport :
    (env : Env) (h : Str) (rtt : Option ℕ) (ok : Bool) (via : Str) (s : State) (k : Str) (row : Row)
    → lookup k s.peers ≡ some row
    → ProbedElsewhere via row
    → lookup k (update_peer_probe env h rtt ok via s).peers ≡ some row
unfolding update_peer_probe for_hash note_probe
update_peer_probe-other_transport env h rtt ok via s k row at other =
    let keys = peer_keys_for_hash (normalize_hash h) s in
    if_both (λ (u : State). lookup k u.peers ≡ some row) (truthy (normalize_hash h)) _ s
      (λ has.
        change_rows-fixed (probe_row env rtt ok via) k row
          (rw (probe_via_matches_other via row other)) keys.0 keys.1
          (ap (lookup k) (peers-peer_keys_for_hash (normalize_hash h) s) ∙ at))
      (λ lacks. at)

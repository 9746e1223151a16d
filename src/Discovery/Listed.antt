-- ===== src/Discovery/Listed.antt =====
-- The peers that are shown (`get_peers` of chatx5/core/discovery.py): none is stale, each can be reached,
-- and no two on the LAN have one address.
use chatx.Prelude.{
  ◌-◌, ◌≤◌, ◌≡◌, refl, Bool, true, false, not, ◌&&◌, Option, none, some, List, [], ◌∷◌, ◌++◌, arith,
  ◌==◌, nat_eq, keep, any, All, All-append, if_both,
}
use chatx.Text.{Str, strip, str_eq, str_beq_iff}
use chatx.Text.Laws.{str_beq_refl}
use chatx.Dict.{Dict, lookup, values, IsDict}
use chatx.Discovery.{Row, State, Env, is_serial, pop_peer_key, keys_of}
use chatx.Discovery.Invariant.{WellFormed, Table, locals, pop_peer_key-Table}
use chatx.Discovery.Preserved.{sweep-Kept}
use chatx.Discovery.Swept.{lookup-sweep_pop}
use chatx.Discovery.Rows.{peer_viable}
use chatx.Discovery.View.{
  stale, drop_stale, dedupe_rows, show_rows, nothing_shown, shown_rows, get_peers,
}
use chatx.Discovery.Shown.{
  All-table, All-values, dedupe_rows-Q, show_rows-Collected, OfRow, Under, Serial,
}

-- No two rows on the LAN have one address.
abbrev pub shares_ip : Row → Row → Bool
shares_ip a b = not (is_serial a) && not (is_serial b) && strip a.ip == strip b.ip

abbrev pub DistinctIps : List Row → Type 0
DistinctIps [] = Unit
DistinctIps (row ∷ rows) = (any (shares_ip row) rows ≡ false) × DistinctIps rows

any-keep : (p q : Row → Bool) (rows : List Row) → any p rows ≡ false → any p (keep q rows) ≡ false
unfolding keep
any-keep p q [] h = refl
any-keep p q (row ∷ rows) h = ground (arith, any-keep p q rows)

keep-DistinctIps : (q : Row → Bool) (rows : List Row) → DistinctIps rows → DistinctIps (keep q rows)
unfolding keep
keep-DistinctIps q [] h = tt
keep-DistinctIps q (row ∷ rows) h =
    if_both DistinctIps (q row) (row ∷ keep q rows) (keep q rows)
      (λ kept. (any-keep (shares_ip row) q rows h.0, keep-DistinctIps q rows h.1))
      (λ dropped. keep-DistinctIps q rows h.1)

none_serial :
    (row : Row) (rows : List Row) → is_serial row ≡ true → any (shares_ip row) rows ≡ false
none_serial row [] h = refl
none_serial row (r ∷ rows) h = ground (arith, none_serial row rows h)

serial_first :
    (serials lans : List Row)
    → All (λ row. is_serial row ≡ true) serials
    → DistinctIps lans
    → DistinctIps (serials ++ lans)
serial_first [] lans h d = d
serial_first (row ∷ rows) lans h d =
    (none_serial row (rows ++ lans) h.0, serial_first rows lans h.1 d)

any_under :
    (k : Str) (row : Row) (d : Dict Row)
    → strip row.ip ≡ k
    → lookup k d ≡ none
    → All (λ (e : Str × Row). (strip e.1.ip ≡ e.0) × (is_serial e.1 ≡ false)) d
    → any (shares_ip row) (values d) ≡ false
unfolding lookup
any_under k row [] at free h = refl
any_under k row ((j, r) ∷ d) at free h = ground (
  arith,
  any_under k row d,
  h.0,
  str_beq_iff (strip row.ip) (strip r.ip),
  str_beq_iff j k,
  str_beq_refl k,
)

values-DistinctIps :
    (d : Dict Row)
    → IsDict d
    → All (λ (e : Str × Row). (strip e.1.ip ≡ e.0) × (is_serial e.1 ≡ false)) d
    → DistinctIps (values d)
values-DistinctIps [] h u = tt
values-DistinctIps ((k, row) ∷ d) h u =
    (any_under k row d u.0.0 h.0 u.1, values-DistinctIps d h.1 u.1)

module _ (env : Env) where
  abbrev Current : Row → Type 0
  Current row = env.now - row.last_seen ≤ 300

  bare-Current : (row : Row) → Current row → Current (record row { ip = [] })
  bare-Current row h = h

  not_stale :
      (s : State)
      → WellFormed s
      → (k : Str) (row : Row) → lookup k (drop_stale env s).peers ≡ some row
      → Current row
  unfolding drop_stale
  not_stale s t k row at = ground (arith, lookup-sweep_pop (stale env) s k)

  dropped-WellFormed : (s : State) → WellFormed s → Table (locals s) (drop_stale env s)
  unfolding drop_stale
  dropped-WellFormed s t =
      (sweep-Kept (locals s) pop_peer_key (stale env) (pop_peer_key-Table (locals s))
        (keys_of s.peers) s t).table

  abbrev Fit : Option Str → Row → Type 0
  Fit scope row = (peer_viable env scope row ≡ true) × Current row

  keep-Fit :
      (scope : Option Str) (rows : List Row)
      → All Current rows
      → All (Fit scope) (keep (peer_viable env scope) rows)
  unfolding keep
  keep-Fit scope [] h = tt
  keep-Fit scope (row ∷ rows) h =
      if_both (All (Fit scope)) (peer_viable env scope row) _ _
        (λ viable. ((viable, h.0), keep-Fit scope rows h.1)) (λ lost. keep-Fit scope rows h.1)

  Current-values : (s : State) → WellFormed s → All Current (values (drop_stale env s).peers)
  Current-values s t = All-values Current bare-Current env none (drop_stale env s).peers (
      All-table (OfRow Current bare-Current env none) (drop_stale env s).peers
        (dropped-WellFormed s t).distinct (not_stale s t))

  All-map :
      (A B : Row → Type 0)
      → ((row : Row) → A row → B row)
      → (rows : List Row) → All A rows
      → All B rows
  All-map A B f [] h = tt
  All-map A B f (row ∷ rows) h = (f row h.0, All-map A B f rows h.1)

  All-under :
      (A B : Str × Row → Type 0)
      → ((e : Str × Row) → A e → B e)
      → (d : Dict Row) → All A d
      → All B d
  All-under A B f [] h = tt
  All-under A B f (e ∷ d) h = (f e h.0, All-under A B f d h.1)

  shown_lem :
      (scope : Option Str) (s : State)
      → All Current (values s.peers)
      → DistinctIps (shown_rows env scope s) × All (Fit scope) (shown_rows env scope s)
  unfolding shown_rows
  shown_lem scope s current =
      let d = dedupe_rows env scope (values s.peers) [] in
      let fresh =
        All-values Current bare-Current env scope d
          (dedupe_rows-Q Current bare-Current env scope (values s.peers) [] current tt) in
      let c =
        show_rows-Collected Current bare-Current env scope (values d) (values d) nothing_shown fresh
          (tt, tt, tt) in
      let shown = show_rows env scope (values d) (values d) nothing_shown in
      let serials =
        All-map (Serial Current bare-Current env scope) (λ row. is_serial row ≡ true) (λ row h. h.1)
          shown.no_ip_peers c.0 in
      let lans =
        All-under (Under Current bare-Current env scope)
          (λ (e : Str × Row). (strip e.1.ip ≡ e.0) × (is_serial e.1 ≡ false)) (λ e h. (h.1, h.2))
          shown.collapsed c.2 in
      (
        keep-DistinctIps (peer_viable env scope) (shown.no_ip_peers ++ values shown.collapsed) (
            serial_first shown.no_ip_peers (values shown.collapsed) serials
              (values-DistinctIps shown.collapsed c.1 lans)),
        keep-Fit scope (shown.no_ip_peers ++ values shown.collapsed) (
            All-append Current shown.no_ip_peers (values shown.collapsed)
              (All-map (Serial Current bare-Current env scope) Current (λ row h. h.0)
                shown.no_ip_peers c.0)
              (All-values Current bare-Current env scope shown.collapsed (
                All-under (Under Current bare-Current env scope)
                  (OfRow Current bare-Current env scope) (λ e h. h.0) shown.collapsed c.2))),
      )

-- Of a well-formed table `get_peers` shows only rows that can be reached on their transport in the scope
-- that is asked for and that were seen in the last 300 seconds, and no two of them on the LAN have one
-- address.
pub get_peers_lem :
    (env : Env) (scope : Option Str) (s : State)
    → WellFormed s
    → DistinctIps (get_peers env scope s).0
      × All
          (λ row. (peer_viable env scope row ≡ true) × (env.now - row.last_seen ≤ 300))
          (get_peers env scope s).0
unfolding get_peers
get_peers_lem env scope s t =
    if_both (λ (r : List Row × State). DistinctIps r.0 × All (Fit env scope) r.0) s.accept_peers
      (shown_rows env scope (drop_stale env s), drop_stale env s) ([], s)
      (λ accepts. shown_lem env scope (drop_stale env s) (Current-values env s t))
      (λ hidden. (tt, tt))

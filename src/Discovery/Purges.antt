-- ===== src/Discovery/Purges.antt =====
-- What the purges and the probes leave alone, and the numbers that the purges return
-- (chatx5/core/discovery.py).
use chatx.Scope.{same_lan_scope}
use chatx.Discovery.Removal.{clean_hashes}
use chatx.Prelude.{
  ℕ, ◌+◌, ◌-◌, ◌≤◌, ◌≡◌, ◌∙◌, ◌⊎◌, Bool, true, false, none, some, List, arith, if◌then◌else◌, ◌==◌,
  nat_eq, length, ◌||◌, not, ap,
}
use chatx.Text.{Str, truthy, strip, str_eq}
use chatx.Dict.{lookup}
use chatx.Dict.Laws.{unless, holds}
use chatx.Discovery.{
  Row, State, Env, is_serial, pop_peer_key, is_empty, effect, unregistered, or_empty_row,
}
use chatx.Discovery.Invariant.{WellFormed, locals}
use chatx.Discovery.Purge.{
  purge_ipless_non_serial, ipless, purge_misclassified_serial, misclassified,
  purge_offline_serial_peers, purge_hashes, has_target, purge_stale_probes, stale_probe,
  purge_out_of_scope, out_of_scope, pop_and_unregister,
}
use chatx.Discovery.Sweeps.{lookup-pop_peer_key}
use chatx.Discovery.Swept.{count-sweep_pop, lookup-sweep_remove, lookup-sweep_any}

abbrev pub Counted : State → ℕ × State → Type 0
Counted s r = r.0 + length r.1.peers ≡ length s.peers

Counted-if :
    (s : State) (b : Bool) (x y : ℕ × State)
    → Counted s x
    → Counted s y
    → Counted s (if b then x else y)
Counted-if s true x y f g = f
Counted-if s false x y f g = g

-- In a well-formed table the purges of rows without an address, of misclassified and of offline serial
-- rows and of given hashes each return the number of rows by which the table became smaller.
pub purges_count :
    (env : Env) (targets : List Str) (s : State)
    → WellFormed s
    → Counted s (purge_ipless_non_serial s)
      × Counted s (purge_misclassified_serial env s)
      × Counted s (purge_offline_serial_peers env s)
      × Counted s (purge_hashes targets s)
unfolding purge_ipless_non_serial purge_misclassified_serial purge_offline_serial_peers purge_hashes
purges_count env targets s t = (
  count-sweep_pop ipless s t.distinct,
  count-sweep_pop (misclassified env) s t.distinct,
  Counted-if s env.serial_active (0, s) _ (omega arith)
      (count-sweep_pop (λ k row. is_serial row) s t.distinct),
  Counted-if s (is_empty (clean_hashes targets)) (0, s) _ (omega arith)
      (count-sweep_pop (has_target (clean_hashes targets)) s t.distinct),
)

lookup-pop_and_unregister :
    (k : Str) (s : State) (j : Str)
    → lookup j (pop_and_unregister k s).peers ≡ (if k == j then none else lookup j s.peers)
unfolding pop_peer_key
lookup-pop_and_unregister k s j =
    lookup-pop_peer_key j k (effect (unregistered (strip (or_empty_row (lookup k s.peers)).ip)) s)

purged_by_scope :
    (scope : Str) (s : State) (k : Str)
    → truthy (strip scope) ≡ true
    → lookup k (purge_out_of_scope scope s).1.peers
      ≡ unless (holds (out_of_scope (strip scope)) k (lookup k s.peers)) (lookup k s.peers)
unfolding purge_out_of_scope pop_peer_key
purged_by_scope scope s k has =
    rw has (
      lookup-sweep_any pop_and_unregister lookup-pop_and_unregister (out_of_scope (strip scope)) s
        k)

-- To purge by a scope that is given leaves a row as it is if it is serial, has no address or shares the
-- scope, and takes out every other row.
pub purge_out_of_scope_lem :
    (scope : Str) (s : State) (k : Str) (row : Row)
    → truthy (strip scope) ≡ true
    → lookup k s.peers ≡ some row
    → lookup k (purge_out_of_scope scope s).1.peers ≡ (
        if is_serial row
          || not (truthy (strip row.ip))
          || same_lan_scope (strip row.ip) (strip scope)
        then some row
        else none)
purge_out_of_scope_lem scope s k row has there =
    purged_by_scope scope s k has
    ∙ ap (λ o. unless (holds (out_of_scope (strip scope)) k o) o) there
    ∙ ground arith

-- In a well-formed table a purge by probes leaves a serial row, and a row that was announced within the time that makes it
-- stale, as it is, however many of its probes failed.
pub purge_stale_probes-alive :
    (env : Env) (max_rtt stale_s failures : ℕ) (s : State) (k : Str) (row : Row)
    → WellFormed s
    → lookup k s.peers ≡ some row
    → (is_serial row ≡ true) ⊎ (env.now - row.last_seen ≤ stale_s)
    → lookup k (purge_stale_probes env max_rtt stale_s failures s).1.peers ≡ some row
unfolding purge_stale_probes stale_probe
purge_stale_probes-alive env max_rtt stale_s failures s k row t there fresh =
    lookup-sweep_remove (locals s) (stale_probe env max_rtt stale_s failures) s t k ∙ ground arith

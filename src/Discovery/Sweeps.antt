-- ===== src/Discovery/Sweeps.antt =====
-- What a sweep of the discovery table takes out and what it leaves (chatx5/core/discovery.py): exactly
-- the rows that the test marks, also where an entry is removed by `_remove_peer_entry`, which trims its
-- key and tries it as a hash.
use mathlib.Core.Path.{subst}
use chatx.Discovery.Removal.{remove_peer_entry, remove_at}
use chatx.Prelude.{
  ◌≡◌, refl, sym, ◌∙◌, inl, inr, true, false, none, [], ◌∷◌, ◌++◌, arith, if◌then◌else◌,
  Option-cases, ◌==◌, nat_eq,
}
use chatx.Text.{Str, codes, truthy, or_else, strip, lower, rstrip, is_space, str_eq, str_beq_iff}
use chatx.Text.Laws.{strip-joined, rstrip-lower-strip, Lacks}
use chatx.Dict.{lookup}
use chatx.Dict.Laws.{lookup-erase}
use chatx.Hash.{normalize_hash, normalize_hash-Lacks_colon, lstrip-normalize_hash}
use chatx.Discovery.{Row, State, unindex_peer, pop_peer_key, storage_key_of, storage_via}
use chatx.Discovery.Invariant.{Locals, Table, RowOk}

rstrip_names : (rstrip (codes "serial") ≡ codes "serial") × (rstrip (codes "lan") ≡ codes "lan")
unfolding rstrip is_space
rstrip_names = (refl, refl)

rstrip-storage_via : (raw : Str) → rstrip raw ≡ raw → rstrip (storage_via raw) ≡ storage_via raw
rstrip-storage_via raw h = ground (arith, rstrip_names)

colon : is_space b':' ≡ false
unfolding is_space
colon = refl

pub joined :
    (hash via : Str)
    → truthy (normalize_hash hash) ≡ true
    → storage_key_of hash via
      ≡ normalize_hash hash ++ (b':' ∷ storage_via (lower (strip (or_else via (codes "lan")))))
unfolding storage_key_of
joined hash via has = ground arith

-- A storage key has no space at its ends, so to trim it changes nothing.
pub strip-storage_key_of :
    (hash via : Str)
    → truthy (normalize_hash hash) ≡ true
    → strip (storage_key_of hash via) ≡ storage_key_of hash via
strip-storage_key_of hash via has =
    let given_via = or_else via (codes "lan") in
    subst (λ k. strip k ≡ k) (sym (joined hash via has))
      (strip-joined b':' colon (normalize_hash hash) _ has (lstrip-normalize_hash hash)
        (rstrip-storage_via (lower (strip given_via)) (rstrip-lower-strip given_via)))

-- A storage key is no hash: it has a colon.
Lacks-joined : (s t : Str) → Lacks b':' (s ++ (b':' ∷ t)) → ⊥
Lacks-joined [] t h = ground (arith, h.0)
Lacks-joined (c ∷ s) t h = Lacks-joined s t h.1

storage_key_no_hash :
    (hash via h : Str)
    → truthy (normalize_hash hash) ≡ true
    → storage_key_of hash via ≡ normalize_hash h
    → ⊥
storage_key_no_hash hash via h has e =
    Lacks-joined (normalize_hash hash) (storage_via (lower (strip (or_else via (codes "lan")))))
      (subst (Lacks b':') (sym e ∙ joined hash via has) (normalize_hash-Lacks_colon h))

pub lookup-pop_peer_key :
    (j k : Str) (s : State)
    → lookup j (pop_peer_key k s).peers ≡ (if k == j then none else lookup j s.peers)
unfolding pop_peer_key unindex_peer
lookup-pop_peer_key j k s = ground (arith, lookup-erase j k s.peers, str_beq_iff k j)

lookup-remove_at :
    (j k : Str) (s : State)
    → lookup j (remove_at k s).peers ≡ (if k == j then none else lookup j s.peers)
unfolding pop_peer_key
lookup-remove_at j k s = ground (arith, lookup-pop_peer_key j k s)

module _ (local : Locals) where
  pub row_has : (k : Str) (row : Row) → RowOk local k row → truthy (normalize_hash row.hash) ≡ true
  row_has k row ok = rw ok.normal ok.has_hash

  pub no_hash_key : (h : Str) (s : State) → Table local s → lookup (normalize_hash h) s.peers ≡ none
  no_hash_key h s t = elim (Option-cases (lookup (normalize_hash h) s.peers)) [
    | inl free ↦ free
    | inr found ↦
        let ok = t.rows (normalize_hash h) found.0 found.1 in
        absurd
          (storage_key_no_hash found.0.hash found.0.via h (row_has _ found.0 ok) (sym ok.keyed))
  ]

  no_empty_key : (s : State) → Table local s → lookup [] s.peers ≡ none
  no_empty_key s t = elim (Option-cases (lookup [] s.peers)) [
    | inl free ↦ free
    | inr found ↦
        let ok = t.rows [] found.0 found.1 in
        absurd (
          ground (
            arith,
            ok.keyed ∙ joined found.0.hash found.0.via (row_has _ found.0 ok),
            row_has _ found.0 ok,
          ))
  ]

  -- In a well-formed table `_remove_peer_entry` takes out the entry under the trimmed key.
  pub lookup-remove_peer_entry :
      (k : Str)
      → strip k ≡ k
      → (s : State) → Table local s
      → (j : Str)
      → lookup j (remove_peer_entry k s).peers ≡ (if k == j then none else lookup j s.peers)
  unfolding remove_peer_entry
  lookup-remove_peer_entry k trimmed s t j = ground (
    arith,
    trimmed,
    no_empty_key s t,
    no_hash_key (strip k) s t,
    lookup-remove_at j (strip k) s,
    str_beq_iff k j,
  )

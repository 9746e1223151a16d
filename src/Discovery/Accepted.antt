-- ===== src/Discovery/Accepted.antt =====
-- What a store of a row promises (`_store_peer` of chatx5/core/discovery.py): a row for the LAN is in
-- scope, and a peer out of scope is in the table no more.
use mathlib.Core.Path.{subst}
use chatx.Discovery.Removal.{remove_peer_entry}
use chatx.Prelude.{
  ◌≡◌, refl, sym, ap, ◌∙◌, ◌⊎◌, inl, inr, Bool, true, false, not, ◌&&◌, ◌||◌, none, some, arith,
  Option-cases, ◌==◌, nat_eq, if_both, option_both,
}
use chatx.Text.{Str, codes, truthy, strip, str_eq, str_beq_iff}
use chatx.Dict.{lookup}
use chatx.Dict.Laws.{unless, holds}
use chatx.Hash.{normalize_hash, normalize_hash_idem}
use chatx.Discovery.{
  Row, State, Env, scope_ip, is_serial, peer_storage_key, storage_key_of, is_local_hash,
}
use chatx.Discovery.Rows.{sanitize_peer_scope}
use chatx.Discovery.Invariant.{WellFormed, locals}
use chatx.Discovery.Preserved.{remove_peer_entry-Table}
use chatx.Discovery.Swept.{lookup-sweep_remove}
use chatx.Discovery.Store.{store_peer, store_allowed, reject_peer, prepared}
use chatx.Discovery.Found.{before_key, before-joined}
use chatx.Discovery.Sweeps.{lookup-remove_peer_entry, strip-storage_key_of, joined}
use chatx.Discovery.{before}
use chatx.Hash.{normalize_hash-Lacks_colon}
use chatx.Discovery.Scoped.{sanitized, failed, Success, store_allowed-Success, StoredIn}
use chatx.Discovery.Storing.{sanitize_peer_scope-SameName}

storage_key_normal :
    (hash via : Str) (r : Row)
    → r.hash ≡ normalize_hash hash
    → r.via ≡ via
    → peer_storage_key r ≡ storage_key_of hash via
unfolding storage_key_of
storage_key_normal hash via r h v = rw (h, v, normalize_hash_idem hash) refl

store_peer-Success :
    (env : Env) (row : Row) (s : State)
    → is_serial row ≡ false
    → truthy (scope_ip env) ≡ true
    → Success env (storage_key_of row.hash row.via) (store_peer env row s)
unfolding store_peer
store_peer-Success env row s lan scope =
    let hash_hex = normalize_hash row.hash in
    let row' = prepared hash_hex row in
    let key = storage_key_of row.hash row.via in
    if_both (Success env key) _ (false, s) _ (λ refused. failed env key s)
      (λ passed.
        option_both (Success env key) (sanitize_peer_scope env s row') _ _
          (λ out. failed env key (reject_peer hash_hex row' s))
          (λ r allowed.
            let ok = sanitized env s row' r lan scope allowed in
            let names = sanitize_peer_scope-SameName env s row' r allowed in
            subst (λ k. Success env k (store_allowed env hash_hex r s))
              (storage_key_normal row.hash row.via r names.0 names.1)
              (store_allowed-Success env hash_hex r ok.0 ok.1
                (ap (λ v. strip v == codes "serial") names.1 ∙ lan) s)))

-- A row for the LAN that is stored while there is a scope stands in the table under its key with an
-- address in that scope, also when it is merged into a row that was there.
pub store_peer-StoredIn :
    (env : Env) (row : Row) (s : State)
    → is_serial row ≡ false
    → truthy (scope_ip env) ≡ true
    → (store_peer env row s).0 ≡ true
    → StoredIn env (storage_key_of row.hash row.via) (store_peer env row s).1
unfolding Success
store_peer-StoredIn env row s lan scope = store_peer-Success env row s lan scope

-- The guards that refuse a row before its scope is looked at: no hash, or a hash or identity of our own.
abbrev pub refused : Row → State → Bool
refused row s =
    not (truthy (normalize_hash row.hash))
    || is_local_hash (normalize_hash row.hash) s
    || truthy (normalize_hash row.identity_hash)
      && is_local_hash (normalize_hash row.identity_hash) s

abbrev same_hash : Row → Str → Row → Bool
same_hash row j r = normalize_hash r.hash == normalize_hash row.hash

module _ (row : Row) (s : State) (t : WellFormed s)
    (has : truthy (normalize_hash row.hash) ≡ true) where
  abbrev rejected_key : Str
  rejected_key = storage_key_of (normalize_hash row.hash) row.via

  trimmed_key : strip rejected_key ≡ rejected_key
  trimmed_key =
      strip-storage_key_of (normalize_hash row.hash) row.via
        (ap truthy (normalize_hash_idem row.hash) ∙ has)

  -- The row under that key has the hash.
  under_key : (r : Row) → lookup rejected_key s.peers ≡ some r → same_hash row rejected_key r ≡ true
  under_key r at =
      let has' = ap truthy (normalize_hash_idem row.hash) ∙ has in
      let e : r.hash ≡ normalize_hash row.hash =
        sym (before_key s t rejected_key r at)
        ∙ ap (before b':') (joined (normalize_hash row.hash) row.via has')
        ∙ before-joined b':' (normalize_hash (normalize_hash row.hash)) _
            (normalize_hash-Lacks_colon (normalize_hash row.hash))
        ∙ normalize_hash_idem row.hash in
      (str_beq_iff (normalize_hash r.hash) (normalize_hash row.hash)).1
        ((t.rows rejected_key r at).normal ∙ e)

  key_fate :
      (lookup rejected_key s.peers ≡ none)
      ⊎ (holds (same_hash row) rejected_key (lookup rejected_key s.peers) ≡ true)
  key_fate = elim (Option-cases (lookup rejected_key s.peers)) [
    | inl free ↦ inl free
    | inr found ↦ inr (ap (holds (same_hash row) rejected_key) found.1 ∙ under_key found.0 found.1)
  ]

  rejected :
      (k : Str)
      → lookup k
          (reject_peer (normalize_hash row.hash) (prepared (normalize_hash row.hash) row) s).peers
        ≡ unless (holds (same_hash row) k (lookup k s.peers)) (lookup k s.peers)
  unfolding reject_peer
  rejected k =
      let s' = remove_peer_entry rejected_key s in
      lookup-sweep_remove (locals s) (same_hash row) s'
        (remove_peer_entry-Table (locals s) rejected_key s t) k
      ∙ ground (
        arith,
        lookup-remove_peer_entry (locals s) rejected_key trimmed_key s t k,
        str_beq_iff rejected_key k,
        key_fate,
      )

-- When a row that is not refused is rejected by its scope, a well-formed table has no row with its hash left, on
-- any transport, and the rows of other hashes are as they were.
pub store_peer_rejects :
    (env : Env) (row : Row) (s : State) (k : Str)
    → WellFormed s
    → refused row s ≡ false
    → sanitize_peer_scope env s (prepared (normalize_hash row.hash) row) ≡ none
    → ((store_peer env row s).0 ≡ false)
      × (lookup k (store_peer env row s).1.peers
          ≡ unless
              (holds (λ j r. normalize_hash r.hash == normalize_hash row.hash) k (lookup k s.peers))
              (lookup k s.peers))
unfolding store_peer reject_peer
store_peer_rejects env row s k t passed out =
    let r : store_peer env row s ≡ (
      false,
      reject_peer (normalize_hash row.hash) (prepared (normalize_hash row.hash) row) s,
    ) =
      ground arith in
    (
      ap (λ r. r.0) r,
      ap (λ (r : Bool × State). lookup k r.1.peers) r ∙ rejected row s t (ground arith) k,
    )

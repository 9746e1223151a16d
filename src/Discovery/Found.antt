-- ===== src/Discovery/Found.antt =====
-- The rows that are found by a hash (`_peer_keys_for_hash` of chatx5/core/discovery.py), against the rows
-- of the table.
use mathlib.Core.Path.{subst}
use chatx.Prelude.{
  ℕ, ◌≡◌, refl, sym, ap, ◌∙◌, ◌⊎◌, inl, inr, true, false, some, List, [], ◌∷◌, ◌++◌, arith,
  if◌then◌else◌, Bool-cases, Option-cases, ◌==◌, nat_eq, contains, keep,
}
use chatx.Text.{Str, truthy, lower, strip, or_else, codes, str_eq, str_beq_iff}
use chatx.Text.Laws.{str_beq_refl, Lacks}
use chatx.Dict.{lookup}
use chatx.Hash.{normalize_hash, normalize_hash-Lacks_colon}
use chatx.Discovery.{
  Row, State, has_key, keys_of, or_nil, scan, keys_or_scan, or_empty_row, peer_keys_for_hash,
  index_hashes_for_peer, before, is_empty, storage_via,
}
use chatx.Discovery.Index.{contains-keep}
use chatx.Discovery.Invariant.{WellFormed, locals}
use chatx.Discovery.Sweeps.{no_hash_key, joined, row_has}
use chatx.Discovery.Swept.{contains-keys_of}

keys_of_index :
    (c : Str) (ks : List Str) (s : State)
    → (keys_or_scan c ks s).0 ≡ (if is_empty ks then scan c s else ks)
keys_of_index c [] s = refl
keys_of_index c (k ∷ ks) s = refl

contains-not_empty : (k : Str) (ks : List Str) → contains k ks ≡ true → is_empty ks ≡ false
unfolding contains
contains-not_empty k [] h = absurd (ground arith)
contains-not_empty k (j ∷ ks) h = refl

-- In a well-formed table no key is a hash, so the index alone is read.
found_keys :
    (h : Str) (s : State)
    → WellFormed s
    → (peer_keys_for_hash h s).0 ≡ (
        if truthy (normalize_hash h)
        then (keys_or_scan
            (normalize_hash h)
            (keep (has_key s.peers) (or_nil (lookup (normalize_hash h) s.hash_index)))
            s).0
        else [])
unfolding peer_keys_for_hash
found_keys h s t = ground (arith, no_hash_key (locals s) h s t)

pub before-joined : (c : ℕ) (s t : Str) → Lacks c s → before c (s ++ (c ∷ t)) ≡ s
unfolding before
before-joined c [] t h = ground arith
before-joined c (d ∷ s) t h = ground (arith, before-joined c s t h.1, h.0)

module _ (s : State) (t : WellFormed s) where
  -- The part of a storage key before the colon is the hash of the row.
  pub before_key : (k : Str) (row : Row) → lookup k s.peers ≡ some row → before b':' k ≡ row.hash
  before_key k row at =
      let ok = t.rows k row at in
      let has = row_has (locals s) k row ok in
      ap (before b':') (ok.keyed ∙ joined row.hash row.via has)
      ∙ before-joined b':' (normalize_hash row.hash)
          (storage_via (lower (strip (or_else row.via (codes "lan")))))
          (normalize_hash-Lacks_colon row.hash)
      ∙ ok.normal

  -- A row is in the index under nothing but its hash and its identity.
  index_hashes_of :
      (k : Str) (row : Row)
      → lookup k s.peers ≡ some row
      → (c : Str) → contains c (index_hashes_for_peer k row) ≡ true
      → (row.hash ≡ c) ⊎ (normalize_hash row.identity_hash ≡ c)
  unfolding index_hashes_for_peer keep contains
  index_hashes_of k row at c has = ground (
    arith,
    before_key k row at,
    (t.rows k row at).normal,
    str_beq_iff c row.hash,
    str_beq_iff c (normalize_hash row.identity_hash),
  )

  -- The indexed keys of a hash that have an entry.
  abbrev indexed_keys : Str → List Str
  indexed_keys c = keep (has_key s.peers) (or_nil (lookup c s.hash_index))

  indexed_complete :
      (k : Str) (row : Row)
      → lookup k s.peers ≡ some row
      → contains k (indexed_keys row.hash) ≡ true
  indexed_complete k row at =
      contains-keep (has_key s.peers) k (or_nil (lookup row.hash s.hash_index))
      ∙ ground (arith, t.indexed k row at)

  indexed_sound :
      (k c : Str)
      → contains k (indexed_keys c) ≡ true
      → (row : Row) × (lookup k s.peers ≡ some row)
        × ((row.hash ≡ c) ⊎ (normalize_hash row.identity_hash ≡ c))
  indexed_sound k c has =
      let r =
        t.sound c k
          (ground (arith, contains-keep (has_key s.peers) k (or_nil (lookup c s.hash_index)))) in
      (r.0, r.1, index_hashes_of k r.0 r.1 c r.2)

  scan_sound :
      (k c : Str)
      → contains k (scan c s) ≡ true
      → (row : Row) × (lookup k s.peers ≡ some row) × (row.hash ≡ c)
  scan_sound k c has = elim (Option-cases (lookup k s.peers)) [
    | inl free ↦ absurd (
        ground (
          arith,
          contains-keep (λ j. normalize_hash (or_empty_row (lookup j s.peers)).hash == c) k
              (keys_of s.peers),
          contains-keys_of k s.peers,
        ))
    | inr found ↦ (
      found.0,
      found.1,
      ground (
        arith,
        (t.rows k found.0 found.1).normal,
        found.1,
        contains-keep (λ j. normalize_hash (or_empty_row (lookup j s.peers)).hash == c) k
            (keys_of s.peers),
        str_beq_iff (normalize_hash found.0.hash) c,
      ),
    )
  ]

  scan_complete :
      (k : Str) (row : Row) → lookup k s.peers ≡ some row → contains k (scan row.hash s) ≡ true
  scan_complete k row at =
      contains-keep (λ j. normalize_hash (or_empty_row (lookup j s.peers)).hash == row.hash) k
        (keys_of s.peers)
      ∙ ground (arith, contains-keys_of k s.peers, (t.rows k row at).normal, str_beq_refl row.hash)

  -- What is found under a hash has an entry in the table, whose hash or identity it is.
  found_sound :
      (h k : Str)
      → contains k (peer_keys_for_hash h s).0 ≡ true
      → (row : Row) × (lookup k s.peers ≡ some row)
        × ((row.hash ≡ normalize_hash h) ⊎ (normalize_hash row.identity_hash ≡ normalize_hash h))
  unfolding contains
  found_sound h k has =
      let c = normalize_hash h in
      let found = ap (contains k) (found_keys h s t) in
      let keys = ap (contains k) (keys_of_index c (indexed_keys c) s) in
      elim (Bool-cases (is_empty (indexed_keys c))) [
        | inl none_indexed ↦
            let r = scan_sound k c (ground (arith, found, keys)) in (r.0, r.1, inl r.2)
        | inr indexed ↦ indexed_sound k c (ground (arith, found, keys))
      ]

  found_complete :
      (h k : Str) (row : Row)
      → lookup k s.peers ≡ some row
      → row.hash ≡ normalize_hash h
      → contains k (peer_keys_for_hash h s).0 ≡ true
  unfolding contains
  found_complete h k row at same =
      let c = normalize_hash h in
      ap (contains k) (found_keys h s t)
      ∙ ground (
        arith,
        ap (contains k) (keys_of_index c (indexed_keys c) s),
        subst (λ c. contains k (indexed_keys c) ≡ true) same (indexed_complete k row at),
        contains-not_empty k (indexed_keys c),
        (t.rows k row at).has_hash,
        same,
      )

-- In a well-formed table what is found under a hash is a row of the table whose hash or identity it is.
pub peer_keys_for_hash_sound :
    (h k : Str) (s : State)
    → WellFormed s
    → contains k (peer_keys_for_hash h s).0 ≡ true
    → (row : Row) × (lookup k s.peers ≡ some row)
      × ((row.hash ≡ normalize_hash h) ⊎ (normalize_hash row.identity_hash ≡ normalize_hash h))
peer_keys_for_hash_sound h k s t has = found_sound s t h k has

-- For a hash that is no row's identity alone, the index of a well-formed table finds the same keys as
-- going through the whole table.
pub peer_keys_for_hash-scan :
    (h k : Str) (s : State)
    → WellFormed s
    → ((j : Str) (row : Row)
        → lookup j s.peers ≡ some row
        → normalize_hash row.identity_hash ≡ normalize_hash h
        → row.hash ≡ normalize_hash h)
    → contains k (peer_keys_for_hash h s).0 ≡ contains k (scan (normalize_hash h) s)
peer_keys_for_hash-scan h k s t no_identity =
    elim (Bool-cases (contains k (peer_keys_for_hash h s).0)) [
      | inl found ↦
          let r = found_sound s t h k found in
          let same : r.0.hash ≡ normalize_hash h = elim r.2 [
            | inl e ↦ e
            | inr e ↦ no_identity k r.0 r.1 e
          ] in
          found ∙ sym (subst (λ c. contains k (scan c s) ≡ true) same (scan_complete s t k r.0 r.1))
      | inr missing ↦ elim (Bool-cases (contains k (scan (normalize_hash h) s))) [
        | inl there ↦
            let r = scan_sound s t k (normalize_hash h) there in
            found_complete s t h k r.0 r.1 r.2 ∙ sym there
        | inr absent ↦ missing ∙ sym absent
      ]
    ]

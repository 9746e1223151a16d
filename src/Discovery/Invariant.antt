-- ===== src/Discovery/Invariant.antt =====
-- What always holds of the discovery table (chatx5/core/discovery.py), and that the steps by which it
-- is changed keep it: a row put in, taken out or changed in place.
use chatx.Prelude.{
  ◌≡◌, sym, ◌∙◌, inl, inr, Bool, true, false, not, ◌&&◌, none, some, List, arith, Bool-cases,
  Option-cases, ◌==◌, nat_eq, contains, keep,
}
use mathlib.Core.Path.{subst}
use chatx.Text.{Str, truthy, str_eq, str_beq_iff, str_beq}
use chatx.Text.Laws.{str_beq_refl}
use chatx.Dict.{lookup, insert, erase, IsDict}
use chatx.Dict.Laws.{lookup-insert, lookup-erase, insert-IsDict, erase-IsDict}
use chatx.Hash.{normalize_hash}
use chatx.Discovery.{
  Row, State, Effect, effect, index_hashes_for_peer, index_peer, unindex_peer, peer_storage_key,
  pop_peer_key,
}
use chatx.Discovery.Index.{stands, stands-index_hashes, stands-unindex_hashes}

-- Our own hashes, as the table has them, and the hashes that no row has.
pub record Locals : Type 0 where
  pub own : List Str
  pub avoid : List Str

-- A hash that is missing or none of our own.
abbrev pub foreign : List Str → Str → Bool
foreign local h = not (truthy (normalize_hash h) && contains (normalize_hash h) local)

-- A row stands under its storage key, its hash is normalised and not empty, and neither its hash
-- nor its identity is one of our own.
pub record RowOk (local : Locals) (k : Str) (row : Row) : Type 0 where
  pub keyed : k ≡ peer_storage_key row
  pub normal : normalize_hash row.hash ≡ row.hash
  pub has_hash : truthy row.hash ≡ true
  pub foreign_hash : contains row.hash local.avoid ≡ false
  pub foreign_identity : foreign local.avoid row.identity_hash ≡ true

-- No key stands twice, each row is in order and stands in the index under its hash, and what stands
-- in the index is a row with that hash or identity.
pub record Table (local : Locals) (s : State) : Type 0 where
  pub ours : s.local_hashes ≡ local.own
  pub distinct : IsDict s.peers
  pub rows : (k : Str) (row : Row) → lookup k s.peers ≡ some row → RowOk local k row
  pub indexed :
      (k : Str) (row : Row) → lookup k s.peers ≡ some row → stands s.hash_index row.hash k ≡ true
  pub sound :
      (h k : Str)
      → stands s.hash_index h k ≡ true
      → (row : Row) × (lookup k s.peers ≡ some row)
        × (contains h (index_hashes_for_peer k row) ≡ true)

-- The hashes are our own, and no row has them.
abbrev pub locals : State → Locals
locals s = record { own = s.local_hashes; avoid = s.local_hashes }

abbrev pub WellFormed : State → Type 0
WellFormed s = Table (locals s) s

some_inj : (a b : Row) → some a ≡ some b → a ≡ b
some_inj a b h = cc

pub pop_peer_key_free : (k : Str) (s : State) → lookup k s.peers ≡ none → pop_peer_key k s ≡ s
unfolding pop_peer_key
pop_peer_key_free k s free = ground arith

pub pop_peer_key_there :
    (k : Str) (s : State) (row : Row)
    → lookup k s.peers ≡ some row
    → pop_peer_key k s ≡ unindex_peer k row (record s { peers = erase k s.peers })
unfolding pop_peer_key
pop_peer_key_there k s row there = ground arith

module _ (local : Locals) where
  pub effect-Table : (e : Effect) (s : State) → Table local s → Table local (effect e s)
  effect-Table e s t = record {
    ours = t.ours;
    distinct = t.distinct;
    rows = t.rows;
    indexed = t.indexed;
    sound = t.sound;
  }

  -- A row is in the index under its own hash.
  pub own_hash :
      (k : Str) (row : Row)
      → RowOk local k row
      → contains row.hash (index_hashes_for_peer k row) ≡ true
  unfolding index_hashes_for_peer keep contains
  own_hash k row ok = ground (arith, ok.normal, ok.has_hash, str_beq_refl row.hash)

  -- The entries that are left when one is taken out.
  module _ (s : State) (t : Table local s) (k : Str) (row : Row)
      (there : lookup k s.peers ≡ some row) where
    left :
        (j : Str) (r : Row)
        → lookup j (erase k s.peers) ≡ some r
        → (str_beq j k ≡ false) × (lookup j s.peers ≡ some r)
    left j r h = ground (arith, lookup-erase j k s.peers, str_beq_iff k j, str_beq_iff j k)

    left_sound :
        (h j : Str)
        → (stands s.hash_index h j && not (contains h (index_hashes_for_peer k row) && j == k))
          ≡ true
        → (r : Row) × (lookup j (erase k s.peers) ≡ some r)
          × (contains h (index_hashes_for_peer j r) ≡ true)
    left_sound h j st = elim (Bool-cases (stands s.hash_index h j)) [
      | inl before ↦
          let old = t.sound h j before in
          (
            old.0,
            ground (arith, old.1, lookup-erase j k s.peers, str_beq_iff k j, str_beq_iff j k),
            old.2,
          )
      | inr absent ↦ absurd (ground arith)
    ]

    pub popped-Table : Table local (unindex_peer k row (record s { peers = erase k s.peers }))
    unfolding unindex_peer
    popped-Table = record {
      ours = t.ours;
      distinct = erase-IsDict k s.peers t.distinct;
      rows = λ j r h. t.rows j r (left j r h).1;
      indexed = λ j r h.
          stands-unindex_hashes k (index_hashes_for_peer k row) s.hash_index r.hash j
          ∙ ground (arith, left j r h, t.indexed j r (left j r h).1);
      sound = λ h j st.
          left_sound h j
            (sym (stands-unindex_hashes k (index_hashes_for_peer k row) s.hash_index h j) ∙ st);
    }

  pub pop_peer_key-Table : (k : Str) (s : State) → Table local s → Table local (pop_peer_key k s)
  pop_peer_key-Table k s t = elim (Option-cases (lookup k s.peers)) [
    | inl free ↦ subst (Table local) (sym (pop_peer_key_free k s free)) t
    | inr found ↦
        subst (Table local) (sym (pop_peer_key_there k s found.0 found.1))
          (popped-Table s t k found.0 found.1)
  ]

  -- A row that is put into the index a second time.
  pub index_peer-Table :
      (k : Str) (row : Row) (s : State)
      → lookup k s.peers ≡ some row
      → Table local s
      → Table local (index_peer k row s)
  unfolding index_peer
  index_peer-Table k row s there t =
      let again = stands-index_hashes k (index_hashes_for_peer k row) s.hash_index in
      record {
        ours = t.ours;
        distinct = t.distinct;
        rows = t.rows;
        indexed = λ j r h. again r.hash j ∙ ground (arith, t.indexed j r h);
        sound = λ h j st. elim (Bool-cases (stands s.hash_index h j)) [
          | inl before ↦ t.sound h j before
          | inr absent ↦ (
            row,
            ground (arith, again h j, str_beq_iff j k),
            ground (arith, again h j, str_beq_iff j k),
          )
        ];
      }

  -- A row under a key that was free.
  module _ (s : State) (t : Table local s) (k : Str) (row : Row) (free : lookup k s.peers ≡ none)
      (ok : RowOk local k row) where
    added-rows : (j : Str) (r : Row) → lookup j (insert k row s.peers) ≡ some r → RowOk local j r
    added-rows j r h = elim (Bool-cases (str_beq k j)) [
      | inl same ↦
          let e = (str_beq_iff k j).0 same in
          let f = some_inj row r (ground (arith, lookup-insert j k row s.peers)) in
          subst (λ i. RowOk local i r) e (subst (RowOk local k) f ok)
      | inr other ↦ t.rows j r (ground (arith, lookup-insert j k row s.peers))
    ]

    pub add-Table : Table local (index_peer k row (record s { peers = insert k row s.peers }))
    unfolding index_peer
    add-Table =
        let now = stands-index_hashes k (index_hashes_for_peer k row) s.hash_index in
        record {
          ours = t.ours;
          distinct = insert-IsDict k row s.peers t.distinct;
          rows = added-rows;
          indexed = λ j r h.
              now r.hash j
              ∙ ground (
                arith,
                lookup-insert j k row s.peers,
                t.indexed j r,
                own_hash k row ok,
                str_beq_iff k j,
                str_beq_iff j k,
              );
          sound = λ h j st. elim (Bool-cases (stands s.hash_index h j)) [
            | inl before ↦
                let old = t.sound h j before in
                (
                  old.0,
                  ground (arith, old.1, lookup-insert j k row s.peers, str_beq_iff k j),
                  old.2,
                )
            | inr absent ↦ (
              row,
              ground
                  (arith, now h j, lookup-insert j k row s.peers, str_beq_iff k j, str_beq_iff j k),
              ground (arith, now h j, str_beq_iff j k),
            )
          ];
        }

  -- A row changed in place: its hash stays, and the index still points at it.
  module _ (s : State) (t : Table local s) (k : Str) (row row' : Row)
      (there : lookup k s.peers ≡ some row) (ok : RowOk local k row')
      (same_hash : row'.hash ≡ row.hash)
      (more : (h : Str)
        → contains h (index_hashes_for_peer k row) ≡ true
        → contains h (index_hashes_for_peer k row') ≡ true) where
    changed-rows : (j : Str) (r : Row) → lookup j (insert k row' s.peers) ≡ some r → RowOk local j r
    changed-rows j r h = elim (Bool-cases (str_beq k j)) [
      | inl same ↦
          let e = (str_beq_iff k j).0 same in
          let f = some_inj row' r (ground (arith, lookup-insert j k row' s.peers)) in
          subst (λ i. RowOk local i r) e (subst (RowOk local k) f ok)
      | inr other ↦ t.rows j r (ground (arith, lookup-insert j k row' s.peers))
    ]

    pub change-Table : Table local (record s { peers = insert k row' s.peers })
    change-Table = record {
      ours = t.ours;
      distinct = insert-IsDict k row' s.peers t.distinct;
      rows = changed-rows;
      indexed = λ j r h. ground (
        arith,
        lookup-insert j k row' s.peers,
        t.indexed j r,
        t.indexed k row there,
        str_beq_iff k j,
      );
      sound = λ h j st.
          let old = t.sound h j st in
          elim (Bool-cases (str_beq k j)) [
            | inl same ↦ (
              row',
              ground (arith, lookup-insert j k row' s.peers),
              ground (arith, more h, old.1, str_beq_iff k j),
            )
            | inr other ↦ (old.0, ground (arith, old.1, lookup-insert j k row' s.peers), old.2)
          ];
    }

-- ===== src/Discovery/Swept.antt =====
-- A sweep of the discovery table as a whole (chatx5/core/discovery.py): the rows that are left, and that
-- the number it returns is the number of rows that went.
use chatx.Discovery.Removal.{remove_peer_entry, sweep}
use chatx.Prelude.{
  suc, ◌+◌, ◌≡◌, refl, ◌∙◌, Bool, true, false, ◌&&◌, Option, none, some, List, [], ◌∷◌, arith,
  if◌then◌else◌, ◌==◌, nat_eq, contains, length, All, if_both,
}
use chatx.Text.{Str, strip, str_eq, str_beq_iff}
use chatx.Text.Laws.{str_beq_refl}
use chatx.Dict.{Dict, lookup, erase, IsDict}
use chatx.Dict.Laws.{erase-IsDict, lookup-erase, unless, holds}
use chatx.Discovery.{Row, State, pop_peer_key, has_key, or_empty_row, keys_of, unindex_peer}
use chatx.Discovery.Invariant.{Locals, Table}
use chatx.Discovery.Preserved.{remove_peer_entry-Table}
use chatx.Discovery.Sweeps.{
  lookup-pop_peer_key, lookup-remove_peer_entry, strip-storage_key_of, row_has,
}

-- The keys of a table are those that it has an entry for.
pub contains-keys_of {ℓ} :
    {V : Type ℓ} (k : Str) (d : Dict V) → contains k (keys_of d) ≡ has_key d k
unfolding contains lookup
contains-keys_of k [] = refl
contains-keys_of k ((j, v) ∷ d) =
    ground (arith, contains-keys_of k d, str_beq_iff k j, str_beq_iff j k)

-- A step that takes out the entry of its key, and the keys that it may be given.
module _ (drop_key : Str → State → State) (P : State → Type 0) (K : Str → Type 0)
    (keeps : (k : Str) (s : State) → P s → P (drop_key k s))
    (law : (k : Str)
      → K k
      → (s : State) → P s
      → (j : Str) → lookup j (drop_key k s).peers ≡ (if k == j then none else lookup j s.peers))
    (doomed : Str → Row → Bool) where
  -- What is left under a key: its row, unless the sweep comes by it and it is marked.
  abbrev left_at : Str → List Str → State → Option Row
  left_at j ks s = unless (contains j ks && holds doomed j (lookup j s.peers)) (lookup j s.peers)

  step-lookup :
      (k : Str)
      → K k
      → (s : State) → P s
      → (j : Str)
      → lookup j (if doomed k (or_empty_row (lookup k s.peers)) then drop_key k s else s).peers ≡ (
          if k == j
          then unless (holds doomed k (lookup k s.peers)) (lookup k s.peers)
          else lookup j s.peers)
  step-lookup k fit s p j = ground (arith, law k fit s p j, str_beq_iff k j)

  pub lookup-sweep :
      (ks : List Str)
      → All K ks
      → (s : State) → P s
      → (j : Str) → lookup j (sweep drop_key doomed ks s).1.peers ≡ left_at j ks s
  unfolding sweep contains
  lookup-sweep [] fit s p j = refl
  lookup-sweep (k ∷ ks) fit s p j =
      let s' = if doomed k (or_empty_row (lookup k s.peers)) then drop_key k s else s in
      let p' =
        if_both P (doomed k (or_empty_row (lookup k s.peers))) (drop_key k s) s
          (λ marked. keeps k s p) (λ other. p) in
      lookup-sweep ks fit.1 s' p' j
      ∙ ground (arith, step-lookup k fit.0 s p j, str_beq_iff k j, str_beq_iff j k)

abbrev AnyKey : Str → Type 0
AnyKey k = Unit

abbrev AnyState : State → Type 0
AnyState s = Unit

All-unit : (ks : List Str) → All AnyKey ks
All-unit [] = tt
All-unit (k ∷ ks) = (tt, All-unit ks)

-- The same for every step that takes out the entry of its key, whatever the table is.
pub lookup-sweep_any :
    (drop_key : Str → State → State)
    → ((k : Str) (s : State) (j : Str)
        → lookup j (drop_key k s).peers ≡ (if k == j then none else lookup j s.peers))
    → (doomed : Str → Row → Bool) (s : State) (j : Str)
    → lookup j (sweep drop_key doomed (keys_of s.peers) s).1.peers
      ≡ unless (holds doomed j (lookup j s.peers)) (lookup j s.peers)
lookup-sweep_any drop_key law doomed s j =
    lookup-sweep drop_key AnyState AnyKey (λ k s u. tt) (λ k u s p j. law k s j) doomed
      (keys_of s.peers) (All-unit (keys_of s.peers)) s tt j
    ∙ ground (arith, contains-keys_of j s.peers)

-- A sweep that pops the marked rows of the whole table.
pub lookup-sweep_pop :
    (doomed : Str → Row → Bool) (s : State) (j : Str)
    → lookup j (sweep pop_peer_key doomed (keys_of s.peers) s).1.peers
      ≡ unless (holds doomed j (lookup j s.peers)) (lookup j s.peers)
lookup-sweep_pop = lookup-sweep_any pop_peer_key (λ k s j. lookup-pop_peer_key j k s)

-- What holds of every key that has an entry holds of the keys.
All-keys :
    (K : Str → Type 0) (d : Dict Row)
    → IsDict d
    → ((k : Str) (row : Row) → lookup k d ≡ some row → K k)
    → All K (keys_of d)
unfolding lookup
All-keys K [] h f = tt
All-keys K ((k, row) ∷ d) h f = (
  f k row (ground (arith, str_beq_refl k)),
  All-keys K d h.1 (λ j r at. f j r (ground (arith, h.0, str_beq_iff k j))),
)

-- A sweep that removes the marked rows of the whole table by `_remove_peer_entry`.
module _ (local : Locals) where
  pub Table-trimmed : (s : State) → Table local s → All (λ k. strip k ≡ k) (keys_of s.peers)
  Table-trimmed s t =
      All-keys (λ k. strip k ≡ k) s.peers t.distinct
        (λ k row at.
          let ok = t.rows k row at in
          rw ok.keyed (strip-storage_key_of row.hash row.via (row_has local k row ok)))

  pub lookup-sweep_remove :
      (doomed : Str → Row → Bool) (s : State)
      → Table local s
      → (j : Str)
      → lookup j (sweep remove_peer_entry doomed (keys_of s.peers) s).1.peers
        ≡ unless (holds doomed j (lookup j s.peers)) (lookup j s.peers)
  lookup-sweep_remove doomed s t j =
      lookup-sweep remove_peer_entry (Table local) (λ k. strip k ≡ k)
        (remove_peer_entry-Table local) (λ k fit s p j. lookup-remove_peer_entry local k fit s p j)
        doomed (keys_of s.peers) (Table-trimmed s t) s t j
      ∙ ground (arith, contains-keys_of j s.peers)

-- Keys that are all there, and of which none stands twice.
abbrev Fresh : List Str → Dict Row → Type 0
Fresh [] d = Unit
Fresh (k ∷ ks) d = (has_key d k ≡ true) × (contains k ks ≡ false) × Fresh ks d

Fresh-erase :
    (j : Str) (ks : List Str) (d : Dict Row)
    → contains j ks ≡ false
    → Fresh ks d
    → Fresh ks (erase j d)
unfolding contains
Fresh-erase j [] d h f = tt
Fresh-erase j (k ∷ ks) d h f = (
  ground (arith, lookup-erase k j d, str_beq_iff j k),
  f.1,
  Fresh-erase j ks d (ground arith) f.2,
)

Fresh-more :
    (j : Str) (row : Row) (ks : List Str) (d : Dict Row)
    → contains j ks ≡ false
    → Fresh ks d
    → Fresh ks ((j, row) ∷ d)
unfolding contains lookup
Fresh-more j row [] d h f = tt
Fresh-more j row (k ∷ ks) d h f = (
  ground (arith, str_beq_iff j k, str_beq_iff k j),
  f.1,
  Fresh-more j row ks d (ground arith) f.2,
)

Fresh-keys_of : (d : Dict Row) → IsDict d → Fresh (keys_of d) d
unfolding lookup
Fresh-keys_of [] h = tt
Fresh-keys_of ((k, row) ∷ d) h =
    let free : contains k (keys_of d) ≡ false = contains-keys_of k d ∙ ground arith in
    (
      ground (arith, str_beq_refl k),
      free,
      Fresh-more k row (keys_of d) d free (Fresh-keys_of d h.1),
    )

erase_free : (k : Str) (d : Dict Row) → lookup k d ≡ none → erase k d ≡ d
unfolding lookup erase
erase_free k [] h = refl
erase_free k ((j, w) ∷ d) h = ground (arith, erase_free k d)

length-erase :
    (k : Str) (d : Dict Row) → IsDict d → has_key d k ≡ true → suc (length (erase k d)) ≡ length d
unfolding lookup erase
length-erase k [] h has = absurd (ground arith)
length-erase k ((j, w) ∷ d) h has =
    ground (arith, length-erase k d, erase_free k d, str_beq_iff j k)

peers-pop_peer_key : (k : Str) (s : State) → (pop_peer_key k s).peers ≡ erase k s.peers
unfolding pop_peer_key unindex_peer
peers-pop_peer_key k s = ground (arith, erase_free k s.peers)

sweep_pop-count :
    (doomed : Str → Row → Bool) (ks : List Str) (s : State)
    → IsDict s.peers
    → Fresh ks s.peers
    → (sweep pop_peer_key doomed ks s).0 + length (sweep pop_peer_key doomed ks s).1.peers
      ≡ length s.peers
unfolding sweep
sweep_pop-count doomed [] s h f = omega arith
sweep_pop-count doomed (k ∷ ks) s h f =
    let b = doomed k (or_empty_row (lookup k s.peers)) in
    let s' = if b then pop_peer_key k s else s in
    let gone = peers-pop_peer_key k s in
    let h' =
      if_both (λ (u : State). IsDict u.peers) b (pop_peer_key k s) s
        (λ marked. rw gone (erase-IsDict k s.peers h)) (λ other. h) in
    let f' =
      if_both (λ (u : State). Fresh ks u.peers) b (pop_peer_key k s) s
        (λ marked. rw gone (Fresh-erase k ks s.peers f.1 f.2)) (λ other. f.2) in
    let one : (if b then 1 else 0) + length s'.peers ≡ length s.peers =
      ground (arith, gone, length-erase k s.peers h f.0) in
    omega (arith, one, sweep_pop-count doomed ks s' h' f')

-- A sweep of the whole table returns the number of rows that it took out.
pub count-sweep_pop :
    (doomed : Str → Row → Bool) (s : State)
    → IsDict s.peers
    → (sweep pop_peer_key doomed (keys_of s.peers) s).0
        + length (sweep pop_peer_key doomed (keys_of s.peers) s).1.peers
      ≡ length s.peers
count-sweep_pop doomed s h = sweep_pop-count doomed (keys_of s.peers) s h (Fresh-keys_of s.peers h)

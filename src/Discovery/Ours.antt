-- ===== src/Discovery/Ours.antt =====
-- A new set of our own hashes takes the rows that have one of them out of the discovery table
-- (`set_local_hashes` of chatx5/core/discovery.py).
use chatx.Discovery.Removal.{set_local_hashes, clean_hashes, sweep, remove_peer_entry}
use chatx.Prelude.{
  ◌≡◌, refl, Bool, false, ◌||◌, List, [], ◌∷◌, arith, if◌then◌else◌, nat_eq, contains,
}
use chatx.Text.{Str, str_eq}
use chatx.Hash.{normalize_hash}
use chatx.Discovery.{Row, State, keys_of, is_empty}
use chatx.Discovery.Inputs.{Own, both}
use chatx.Discovery.Invariant.{Locals, RowOk, Table}
use chatx.Discovery.Preserved.{remove_peer_entry-Table, sweep-Kept}
use chatx.Discovery.Swept.{lookup-sweep_remove}

-- A row that does not have one of the new hashes is in order for them.
foreign_row :
    (old clean : List Str) (k : Str) (row : Row)
    → RowOk (record { own = clean; avoid = old }) k row
    → (contains (normalize_hash row.hash) clean
        || contains (normalize_hash row.identity_hash) clean)
      ≡ false
    → RowOk (both clean) k row
foreign_row old clean k row ok spared = record {
  keyed = ok.keyed;
  normal = ok.normal;
  has_hash = ok.has_hash;
  foreign_hash = ground (arith, ok.normal);
  foreign_identity = ground arith;
}

no_locals : (old : List Str) (s : State) → Own old s → Own [] (record s { local_hashes = [] })
unfolding contains
no_locals old s t = record {
  ours = refl;
  distinct = t.distinct;
  rows = λ k row at.
      let ok = t.rows k row at in
      record {
        keyed = ok.keyed;
        normal = ok.normal;
        has_hash = ok.has_hash;
        foreign_hash = refl;
        foreign_identity = ground arith;
      };
  indexed = t.indexed;
  sound = t.sound;
}

abbrev ours_in : List Str → Str → Row → Bool
ours_in clean k row =
    contains (normalize_hash row.hash) clean || contains (normalize_hash row.identity_hash) clean

relabelled :
    (old clean : List Str) (s : State)
    → Own old s
    → Table (record { own = clean; avoid = old }) (record s { local_hashes = clean })
relabelled old clean s t = record {
  ours = refl;
  distinct = t.distinct;
  rows = λ k row at.
      let ok = t.rows k row at in
      record {
        keyed = ok.keyed;
        normal = ok.normal;
        has_hash = ok.has_hash;
        foreign_hash = ok.foreign_hash;
        foreign_identity = ok.foreign_identity;
      };
  indexed = t.indexed;
  sound = t.sound;
}

-- The rows that have one of the new hashes are swept out.
new_locals :
    (old : List Str) (s : State) (clean : List Str)
    → Own old s
    → Own clean
        (sweep remove_peer_entry
          (ours_in clean)
          (keys_of s.peers)
          (record s { local_hashes = clean })).1
new_locals old s clean t =
    let l : Locals = record { own = clean; avoid = old } in
    let s' = record s { local_hashes = clean } in
    let t' = relabelled old clean s t in
    let swept =
      (sweep-Kept l remove_peer_entry (ours_in clean) (remove_peer_entry-Table l) (keys_of s.peers)
        s' t').table in
    record {
      ours = swept.ours;
      distinct = swept.distinct;
      rows = λ k row at.
          foreign_row old clean k row (swept.rows k row at)
            (ground (arith, lookup-sweep_remove l (ours_in clean) s' t' k));
      indexed = swept.indexed;
      sound = swept.sound;
    }

set_clean :
    (old clean : List Str) (s : State)
    → Own old s
    → Own clean (
        if is_empty clean
        then record s { local_hashes = clean }
        else (sweep remove_peer_entry
            (ours_in clean)
            (keys_of s.peers)
            (record s { local_hashes = clean })).1)
set_clean old [] s t = no_locals old s t
set_clean old (c ∷ cs) s t = new_locals old s (c ∷ cs) t

pub set_local_hashes-Own :
    (old : List Str) (hashes : List Str) (s : State)
    → Own old s
    → Own (clean_hashes hashes) (set_local_hashes hashes s)
unfolding set_local_hashes
set_local_hashes-Own old hashes s t = set_clean old (clean_hashes hashes) s t

-- ===== src/Queue/Conservation.antt =====
-- What a pass over the queue leaves alone, and what it does to the ids.
use mathlib.Core.Path.{ap₂}
use chatx.Prelude.{
  ℕ, suc, ◌≡◌, refl, sym, ap, ◌∙◌, inl, inr, Bool, true, false, not, ◌||◌, List, [], ◌∷◌, ◌++◌,
  arith, Bool-cases, nat_eq, keep, any, keep-append,
}
use chatx.Text.{Str, str_eq, str_beq_iff}
use chatx.Queue.{Entry, has_id, Peers, queue_matches_target}
use chatx.Queue.Drain.{World, drain_entry, drain_loop, Step}

-- What is kept of an entry: nothing, or the entry itself up to the time of its last send.
abbrev pub Same : Entry → Entry → Type 0
Same e f =
    (f.type ≡ e.type)
    × (f.content ≡ e.content)
    × (f.target_hash ≡ e.target_hash)
    × (f.file_name ≡ e.file_name)
    × (f.file_size ≡ e.file_size)
    × (f.file_path ≡ e.file_path)
    × (f.msg_id ≡ e.msg_id)
    × (f.timestamp ≡ e.timestamp)

abbrev pub Keeps : Entry → List Entry → Type 0
Keeps e [] = Unit
Keeps e (f ∷ []) = Same e f
Keeps e (f ∷ g ∷ fs) = ⊥

module _ (p : Peers) (w : World) (include_files : Bool) (peer : Str) (now : ℕ) where
  abbrev pub mine : Entry → Bool
  mine e = queue_matches_target p e peer

  pub drain_entry-Keeps :
      (n : ℕ) (confirmed : List Str) (e : Entry)
      → Keeps e (drain_entry p w include_files peer now n confirmed e).kept
  unfolding drain_entry
  drain_entry-Keeps n confirmed e = ground arith

  matches-Same : (e f : Entry) → Same e f → mine f ≡ mine e
  unfolding queue_matches_target
  matches-Same e f s = ground arith

  drain_entry_foreign :
      (n : ℕ) (confirmed : List Str) (e : Entry)
      → mine e ≡ false
      → drain_entry p w include_files peer now n confirmed e
        ≡ record { kept = e ∷ []; sent = 0; confirmed = confirmed }
  unfolding drain_entry
  drain_entry_foreign n confirmed e foreign = rw foreign

  keep-Keeps :
      (e : Entry) (fs : List Entry) → Keeps e fs → mine e ≡ true → keep (λ f. not (mine f)) fs ≡ []
  unfolding keep
  keep-Keeps e [] k own = refl
  keep-Keeps e (f ∷ []) k own = rw (matches-Same e f k ∙ own)
  keep-Keeps e (f ∷ g ∷ fs) k own = elim k [ ]

  -- What is kept of an entry of another peer is the entry.
  keep-drain_entry :
      (n : ℕ) (confirmed : List Str) (e : Entry)
      → keep (λ f. not (mine f)) (drain_entry p w include_files peer now n confirmed e).kept
        ≡ keep (λ f. not (mine f)) (e ∷ [])
  unfolding keep
  keep-drain_entry n confirmed e = elim (Bool-cases (mine e)) [
    | inl own ↦ keep-Keeps e _ (drain_entry-Keeps n confirmed e) own ∙ rw own
    | inr foreign ↦
        ap (λ (s : Step). keep (λ f. not (mine f)) s.kept)
          (drain_entry_foreign n confirmed e foreign)
  ]

  -- A pass for a peer leaves the entries that are for others as they are and in their order.
  pub keep-drain_loop :
      (n : ℕ) (confirmed : List Str) (es : List Entry)
      → keep (λ f. not (mine f)) (drain_loop p w include_files peer now n confirmed es).kept
        ≡ keep (λ f. not (mine f)) es
  unfolding drain_loop
  keep-drain_loop n confirmed [] = refl
  keep-drain_loop n confirmed (e ∷ es) =
      let s = drain_entry p w include_files peer now n confirmed e in
      let r = drain_loop p w include_files peer now (suc n) s.confirmed es in
      keep-append (λ f. not (mine f)) s.kept r.kept
      ∙ ap₂ (◌++◌) (keep-drain_entry n confirmed e) (keep-drain_loop (suc n) s.confirmed es)
      ∙ sym (keep-append (λ f. not (mine f)) (e ∷ []) es)

-- No id stands twice in the queue.
abbrev pub DistinctIds : List Entry → Type 0
DistinctIds [] = Unit
DistinctIds (e ∷ es) = (any (has_id e.msg_id) es ≡ false) × DistinctIds es

pub any-append : (f : Entry → Bool) (xs ys : List Entry) → any f (xs ++ ys) ≡ (any f xs || any f ys)
any-append f [] ys = refl
any-append f (x ∷ xs) ys = ground (arith, any-append f xs ys)

any-keep : (f g : Entry → Bool) (xs : List Entry) → any f xs ≡ false → any f (keep g xs) ≡ false
unfolding keep
any-keep f g [] h = refl
any-keep f g (x ∷ xs) h = ground (arith, any-keep f g xs)

pub keep-DistinctIds :
    (g : Entry → Bool) (xs : List Entry) → DistinctIds xs → DistinctIds (keep g xs)
unfolding keep
keep-DistinctIds g [] h = tt
keep-DistinctIds g (x ∷ xs) h =
    ground (arith, keep-DistinctIds g xs, any-keep (has_id x.msg_id) g xs)

pub snoc-DistinctIds :
    (xs : List Entry) (e : Entry)
    → DistinctIds xs
    → any (has_id e.msg_id) xs ≡ false
    → DistinctIds (xs ++ (e ∷ []))
snoc-DistinctIds [] e h k = (refl, tt)
snoc-DistinctIds (x ∷ xs) e h k = ground (
  arith,
  snoc-DistinctIds xs e,
  any-append (has_id x.msg_id) xs (e ∷ []),
  str_beq_iff x.msg_id e.msg_id,
  str_beq_iff e.msg_id x.msg_id,
)

pub any-Keeps :
    (id : Str) (e : Entry) (fs : List Entry)
    → Keeps e fs
    → has_id id e ≡ false
    → any (has_id id) fs ≡ false
any-Keeps id e [] k h = refl
any-Keeps id e (f ∷ []) k h = ground arith
any-Keeps id e (f ∷ g ∷ fs) k h = elim k [ ]

cons_Keeps-DistinctIds :
    (e : Entry) (fs es : List Entry)
    → Keeps e fs
    → any (has_id e.msg_id) es ≡ false
    → DistinctIds es
    → DistinctIds (fs ++ es)
cons_Keeps-DistinctIds e [] es k h d = d
cons_Keeps-DistinctIds e (f ∷ []) es k h d = (rw k.6 h, d)
cons_Keeps-DistinctIds e (f ∷ g ∷ fs) es k h d = elim k [ ]

module _ (p : Peers) (w : World) (include_files : Bool) (peer : Str) (now : ℕ) where
  pub any-drain_loop :
      (id : Str) (n : ℕ) (confirmed : List Str) (es : List Entry)
      → any (has_id id) es ≡ false
      → any (has_id id) (drain_loop p w include_files peer now n confirmed es).kept ≡ false
  unfolding drain_loop
  any-drain_loop id n confirmed [] h = refl
  any-drain_loop id n confirmed (e ∷ es) h =
      let s = drain_entry p w include_files peer now n confirmed e in
      let r = drain_loop p w include_files peer now (suc n) s.confirmed es in
      ground (
        arith,
        any-append (has_id id) s.kept r.kept,
        any-drain_loop id (suc n) s.confirmed es,
        any-Keeps id e s.kept (drain_entry-Keeps p w include_files peer now n confirmed e),
      )

  pub drain_loop-DistinctIds :
      (n : ℕ) (confirmed : List Str) (es : List Entry)
      → DistinctIds es
      → DistinctIds (drain_loop p w include_files peer now n confirmed es).kept
  unfolding drain_loop
  drain_loop-DistinctIds n confirmed [] h = tt
  drain_loop-DistinctIds n confirmed (e ∷ es) h =
      let s = drain_entry p w include_files peer now n confirmed e in
      cons_Keeps-DistinctIds e s.kept _ (drain_entry-Keeps p w include_files peer now n confirmed e)
        (any-drain_loop e.msg_id (suc n) s.confirmed es h.0)
        (drain_loop-DistinctIds (suc n) s.confirmed es h.1)

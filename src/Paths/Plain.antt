-- ===== src/Paths/Plain.antt =====
-- Names that stay inside their directory, and paths made of them.
use mathlib.Core.List.{reverse, reverse-cons}
use chatx.Prelude.{
  ℕ, ◌≡◌, refl, sym, ap, ◌∙◌, ◌≢◌, Bool, true, false, inl, inr, List, [], ◌∷◌, ◌++◌, arith, ◌==◌,
  nat_eq, All, All-append, append-nil, append_assoc, Bool-cases,
}
use chatx.Text.{Str, codes, str_eq, str_beq_iff}
use chatx.Text.Laws.{Lacks}
use chatx.Text.Parts.{split, join, cons_head}
use chatx.Paths.Posix.{push_comp, norm_loop, initial_slashes, normpath}

-- A name of a file or directory: not empty, not "." or "..", without a slash.
abbrev pub IsPlain : Str → Type 0
IsPlain p = (p ≢ []) × (p ≢ codes ".") × (p ≢ codes "..") × Lacks b'/' p

-- Splitting a text without the separator.
pub split_of_Lacks : (sep : ℕ) (p : Str) → Lacks sep p → split sep p ≡ p ∷ []
unfolding split
split_of_Lacks sep [] h = refl
split_of_Lacks sep (c ∷ p) h = rw (h.0, split_of_Lacks sep p h.1)

split-append : (sep : ℕ) (p s : Str) → Lacks sep p → split sep (p ++ (sep ∷ s)) ≡ p ∷ split sep s
unfolding split
split-append sep [] s h = ground arith
split-append sep (c ∷ p) s h = rw (h.0, split-append sep p s h.1)

-- The parts of a path that was joined from parts without slashes.
pub split-join :
    (sep : ℕ) (p : Str) (ps : List Str)
    → Lacks sep p
    → All (Lacks sep) ps
    → split sep (join sep (p ∷ ps)) ≡ p ∷ ps
unfolding join
split-join sep p [] h k = split_of_Lacks sep p h
split-join sep p (q ∷ ps) h k =
    split-append sep p (join sep (q ∷ ps)) h ∙ ap (◌∷◌ p) (split-join sep q ps k.0 k.1)

cons_head-Lacks :
    (sep c : ℕ) (ps : List Str)
    → (c == sep) ≡ false
    → All (Lacks sep) ps
    → All (Lacks sep) (cons_head c ps)
cons_head-Lacks sep c [] h k = ((h, tt), tt)
cons_head-Lacks sep c (p ∷ ps) h k = ((h, k.0), k.1)

-- No part of a split text holds the separator.
pub split-Lacks : (sep : ℕ) (s : Str) → All (Lacks sep) (split sep s)
unfolding split
split-Lacks sep [] = (tt, tt)
split-Lacks sep (c ∷ s) = elim (Bool-cases (c == sep)) [
  | inl same ↦ rw same (tt, split-Lacks sep s)
  | inr other ↦ rw other (cons_head-Lacks sep c (split sep s) other (split-Lacks sep s))
]

pub plain-Lacks : (ps : List Str) → All IsPlain ps → All (Lacks b'/') ps
plain-Lacks [] h = tt
plain-Lacks (p ∷ ps) h = (h.0.3, plain-Lacks ps h.1)

push_comp_of_IsPlain :
    (absolute : Bool) (stack : List Str) (p : Str)
    → IsPlain p
    → push_comp absolute stack p ≡ p ∷ stack
unfolding push_comp
push_comp_of_IsPlain absolute stack p h =
    ground (arith, str_beq_iff p (codes "."), str_beq_iff p (codes ".."))

norm_loop_of_IsPlain :
    (absolute : Bool) (stack ps : List Str)
    → All IsPlain ps
    → norm_loop absolute stack ps ≡ reverse stack ++ ps
unfolding norm_loop
norm_loop_of_IsPlain absolute stack [] h = sym (append-nil (reverse stack))
norm_loop_of_IsPlain absolute stack (p ∷ ps) h =
    rw (push_comp_of_IsPlain absolute stack p h.0)
      (norm_loop_of_IsPlain absolute (p ∷ stack) ps h.1 ∙ (simp (reverse-cons, append_assoc)))

-- An absolute path of plain names.
abbrev pub absolute : List Str → Str
absolute ps = join b'/' ([] ∷ ps)

pub join-head :
    (sep c : ℕ) (p : Str) (ps : List Str) → join sep ((c ∷ p) ∷ ps) ≡ c ∷ join sep (p ∷ ps)
unfolding join
join-head sep c p [] = refl
join-head sep c p (q ∷ ps) = refl

initial_slashes-absolute :
    (p : Str) (ps : List Str) → IsPlain p → initial_slashes (b'/' ∷ join b'/' (p ∷ ps)) ≡ codes "/"
unfolding initial_slashes
initial_slashes-absolute [] ps h = absurd (h.0 refl)
initial_slashes-absolute (c ∷ p) ps h =
    let other : (c == b'/') ≡ false = h.3.0 in rw join-head (ground arith)

-- A path of plain names is normal.
pub normpath-absolute :
    (p : Str) (ps : List Str)
    → IsPlain p
    → All IsPlain ps
    → normpath (absolute (p ∷ ps)) ≡ absolute (p ∷ ps)
unfolding normpath join norm_loop push_comp
normpath-absolute p ps h k = rw (initial_slashes-absolute p ps h) (
    rw (split-join b'/' [] (p ∷ ps) tt (h.3, plain-Lacks ps k))
      (rw (norm_loop_of_IsPlain true [] (p ∷ ps) (h, k))))

-- Empty names at the end of a path are dropped.
norm_loop-empty :
    (abs : Bool) (stack ps : List Str)
    → norm_loop abs stack (ps ++ ([] ∷ [])) ≡ norm_loop abs stack ps
unfolding norm_loop push_comp
norm_loop-empty abs stack [] = refl
norm_loop-empty abs stack (p ∷ ps) = norm_loop-empty abs (push_comp abs stack p) ps

-- A slash at the end is dropped.
pub normpath-trailing :
    (p : Str) (ps : List Str)
    → IsPlain p
    → All IsPlain ps
    → normpath (absolute (p ∷ ps ++ ([] ∷ []))) ≡ absolute (p ∷ ps)
unfolding normpath join norm_loop push_comp
normpath-trailing p ps h k =
    let lacks = All-append (Lacks b'/') ps ([] ∷ []) (plain-Lacks ps k) (tt, tt) in
    rw (initial_slashes-absolute p (ps ++ ([] ∷ [])) h) (
      rw (split-join b'/' [] (p ∷ ps ++ ([] ∷ [])) tt (h.3, lacks))
        (rw (norm_loop-empty true [] (p ∷ ps)) (rw (norm_loop_of_IsPlain true [] (p ∷ ps) (h, k)))))

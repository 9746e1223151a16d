-- ===== src/Paths/Names.antt =====
-- `safe_basename`, and what becomes of a single name under a directory; the shared root directory.
use chatx.Prelude.{
  ℕ, ◌≡◌, refl, ◌≢◌, false, inl, inr, List, [], ◌∷◌, ◌++◌, arith, ◌==◌, none, some, nat_eq,
  contains, keep, All, Bool-cases,
}
use chatx.Text.{Str, codes, replace_char, starts_with, str_eq, str_beq_iff}
use chatx.Text.Laws.{Lacks}
use chatx.Text.Parts.{split, join, cons_head}
use chatx.Paths.{
  slashed, lstrip_slashes, clean_parts, or_default, safe_basename, safe_path_under,
  safe_rel_path_under,
}
use chatx.Paths.Posix.{
  initial_slashes, normpath, norm_loop, push_comp, basename, last_part, join_one, path_join,
}
use chatx.Paths.Plain.{IsPlain, absolute, split_of_Lacks, split-Lacks, join-head, normpath-absolute}
use chatx.Paths.Safety.{
  safe_path_under-plain, path_join-absolute, Relative-of_IsPlain, clean_parts-IsPlain,
}

-- A name that is plain on the sender's system too.
abbrev pub IsName : Str → Type 0
IsName p = IsPlain p × Lacks b'\\' p

slashed-Lacks : (s : Str) → Lacks b'\\' (slashed s)
unfolding replace_char
slashed-Lacks [] = tt
slashed-Lacks (c ∷ s) = ground (arith, slashed-Lacks s)

slashed_of_Lacks : (s : Str) → Lacks b'\\' s → slashed s ≡ s
unfolding replace_char
slashed_of_Lacks [] h = refl
slashed_of_Lacks (c ∷ s) h = ground (arith, slashed_of_Lacks s h.1)

cons_head-Lacks_other :
    (b c : ℕ) (ps : List Str) → (c == b) ≡ false → All (Lacks b) ps → All (Lacks b) (cons_head c ps)
cons_head-Lacks_other b c [] h k = ((h, tt), tt)
cons_head-Lacks_other b c (p ∷ ps) h k = ((h, k.0), k.1)

split-Lacks_other : (b sep : ℕ) (s : Str) → Lacks b s → All (Lacks b) (split sep s)
unfolding split
split-Lacks_other b sep [] h = (tt, tt)
split-Lacks_other b sep (c ∷ s) h = elim (Bool-cases (c == sep)) [
  | inl same ↦ rw same (tt, split-Lacks_other b sep s h.1)
  | inr other ↦
      rw other (cons_head-Lacks_other b c (split sep s) h.0 (split-Lacks_other b sep s h.1))
]

last_part-All : (P : Str → Type 0) → P [] → (ps : List Str) → All P ps → P (last_part ps)
last_part-All P nil [] h = nil
last_part-All P nil (p ∷ []) h = h.0
last_part-All P nil (p ∷ q ∷ ps) h = last_part-All P nil (q ∷ ps) h.1

-- The name under which an upload is stored is a plain name without a backslash, whatever name the peer
-- sends, if the default is one.
pub safe_basename-IsName :
    (filename default : Str) → IsName default → IsName (safe_basename filename default)
unfolding safe_basename basename
safe_basename-IsName filename default h =
    let base = basename (slashed filename) in
    let slash = last_part-All (Lacks b'/') tt _ (split-Lacks b'/' (slashed filename)) in
    let back =
      last_part-All (Lacks b'\\') tt _
        (split-Lacks_other b'\\' b'/' (slashed filename) (slashed-Lacks filename)) in
    ground (arith, slash, back, str_beq_iff base (codes "."), str_beq_iff base (codes ".."))

clean_parts_of_IsName : (f d : Str) → IsName f → clean_parts f d ≡ f ∷ []
unfolding clean_parts lstrip_slashes keep contains
clean_parts_of_IsName [] d h = absurd (h.0.0 refl)
clean_parts_of_IsName (c ∷ f) d h =
    let first : (c == b'/') ≡ false = h.0.3.0 in
    rw (slashed_of_Lacks (c ∷ f) h.1) (
      rw (first, lstrip_slashes)
        (rw (split_of_Lacks b'/' (c ∷ f) h.0.3)
          (ground (arith, str_beq_iff (c ∷ f) (codes "."), str_beq_iff (c ∷ f) (codes "..")))))

-- A file is stored under the directory, by its name.
pub safe_rel_path_under_name :
    (p : Str) (ps : List Str) (f : Str)
    → IsPlain p
    → All IsPlain ps
    → IsName f
    → safe_rel_path_under (absolute (p ∷ ps)) f f ≡ some (absolute (p ∷ ps ++ (f ∷ [])))
unfolding safe_rel_path_under
safe_rel_path_under_name p ps f h k n =
    rw (clean_parts_of_IsName f f n) (safe_path_under-plain p ps h k (f ∷ []) (n.0, tt))

normpath-root : normpath (codes "/") ≡ codes "/"
unfolding normpath split norm_loop push_comp initial_slashes join
normpath-root = refl

path_join-root :
    (q : Str) (qs : List Str)
    → IsPlain q
    → All IsPlain qs
    → path_join (codes "/") (q ∷ qs) ≡ absolute (q ∷ qs)
unfolding path_join join_one join
path_join-root q qs h k = rw (Relative-of_IsPlain q h) (path_join-absolute q [] qs h tt k)

-- A path of names starts with one slash and goes on.
below_root :
    (q : Str) (qs : List Str)
    → IsPlain q
    → (starts_with (absolute (q ∷ qs)) (codes "//") ≡ false) × (absolute (q ∷ qs) ≢ codes "/")
unfolding starts_with join
below_root [] qs h = absurd (h.0 refl)
below_root (c ∷ q) qs h =
    let other : (c == b'/') ≡ false = h.3.0 in
    rw (join-head b'/' c q qs) (ground arith, ground arith)

root-none :
    (q : Str) (qs : List Str)
    → IsPlain q
    → All IsPlain qs
    → safe_path_under (codes "/") (q ∷ qs) ≡ none
unfolding safe_path_under
root-none q qs h k =
    rw (normpath-root, safe_path_under)
      (rw (path_join-root q qs h k) (
        rw (normpath-absolute q qs h k)
          (ground (arith, below_root q qs h, str_beq_iff (absolute (q ∷ qs)) (codes "/")))))

-- Under the root directory nothing is found: the test for the prefix "/" + "/" fails for every path
-- that names anything.
pub safe_rel_path_under_root :
    (rel default : Str)
    → clean_parts rel default ≢ []
    → safe_rel_path_under (codes "/") rel default ≡ none
unfolding safe_rel_path_under
safe_rel_path_under_root rel default h =
    refuse (clean_parts rel default) (clean_parts-IsPlain rel default) h
  where
    refuse :
        (qs : List Str)
        → All IsPlain qs
        → qs ≢ []
        → safe_path_under (codes "/") (or_default default qs) ≡ none
    refuse [] l ne = absurd (ne refl)
    refuse (q ∷ qs) l ne = root-none q qs l.0 l.1

-- ===== src/Paths/Safety.antt =====
-- What `safe_rel_path_under` and `safe_basename` promise, for a base directory that is an absolute path
-- of plain names.
use chatx.Prelude.{
  ℕ, ◌≡◌, refl, sym, ap, ◌∙◌, ◌⊎◌, true, false, inl, inr, List, [], ◌∷◌, ◌++◌, arith, ◌==◌, some,
  nat_eq, contains, keep, All, All-append, append-nil, append_assoc,
}
use chatx.Text.{Str, codes, starts_with, str_eq, str_beq_iff}
use chatx.Text.Laws.{Lacks}
use chatx.Text.Parts.{join}
use chatx.Paths.{is_plain, clean_parts, or_default, safe_path_under, safe_rel_path_under}
use chatx.Paths.Posix.{normpath, ends_with_slash, join_one, path_join}
use chatx.Paths.Plain.{IsPlain, absolute, split-Lacks, normpath-absolute, normpath-trailing}

join-append :
    (sep : ℕ) (p : Str) (ps : List Str) (q : Str) (qs : List Str)
    → join sep (p ∷ ps ++ (q ∷ qs)) ≡ join sep (p ∷ ps) ++ (sep ∷ join sep (q ∷ qs))
unfolding join
join-append sep p [] q qs = refl
join-append sep p (r ∷ ps) q qs =
    rw (join-append sep r ps q qs) (sym (append_assoc p (sep ∷ join sep (r ∷ ps)) _))

starts_with-append : (s t : Str) → starts_with (s ++ t) s ≡ true
unfolding starts_with
starts_with-append [] [] = refl
starts_with-append [] (c ∷ t) = refl
starts_with-append (c ∷ s) t = ground (arith, starts_with-append s t)

ends_with_slash-append :
    (s : Str) (c : ℕ) (t : Str) → ends_with_slash (s ++ (c ∷ t)) ≡ ends_with_slash (c ∷ t)
unfolding ends_with_slash
ends_with_slash-append [] c t = refl
ends_with_slash-append (a ∷ []) c t = refl
ends_with_slash-append (a ∷ b ∷ s) c t = ends_with_slash-append (b ∷ s) c t

ends_with_slash_of_Lacks : (s : Str) → Lacks b'/' s → ends_with_slash s ≡ false
unfolding ends_with_slash
ends_with_slash_of_Lacks [] h = refl
ends_with_slash_of_Lacks (c ∷ []) h = h.0
ends_with_slash_of_Lacks (c ∷ d ∷ s) h = ends_with_slash_of_Lacks (d ∷ s) h.1

-- A path of names does not end in a slash.
ends_with_slash-join :
    (a p : Str) (ps : List Str)
    → IsPlain p
    → All IsPlain ps
    → ends_with_slash (join b'/' (a ∷ p ∷ ps)) ≡ false
unfolding join ends_with_slash
ends_with_slash-join a [] ps h k = absurd (h.0 refl)
ends_with_slash-join a (c ∷ p) [] h k =
    ends_with_slash-append a b'/' (c ∷ p) ∙ ends_with_slash_of_Lacks (c ∷ p) h.3
ends_with_slash-join a (c ∷ p) (q ∷ ps) h k =
    ends_with_slash-append a b'/' (c ∷ p ++ (b'/' ∷ join b'/' (q ∷ ps)))
    ∙ ends_with_slash-join (c ∷ p) q ps k.0 k.1

-- What `join_one` wants of a name: that it does not start with a slash.
abbrev pub Relative : Str → Type 0
Relative q = starts_with q (codes "/") ≡ false

pub Relative-of_IsPlain : (q : Str) → IsPlain q → Relative q
unfolding starts_with
Relative-of_IsPlain [] h = absurd (h.0 refl)
Relative-of_IsPlain (c ∷ q) h = let other : (c == b'/') ≡ false = h.3.0 in ground arith

module _ (p : Str) (ps : List Str) (h : IsPlain p) (k : All IsPlain ps) where
  join_one-absolute :
      (q : Str) → Relative q → join_one (absolute (p ∷ ps)) q ≡ absolute (p ∷ ps ++ (q ∷ []))
  unfolding join_one join
  join_one-absolute q rel =
      rw rel
        (rw (ends_with_slash-join [] p ps h k) (ap (◌∷◌ b'/') (sym (join-append b'/' p ps q []))))

pub path_join-absolute :
    (p : Str) (ps qs : List Str)
    → IsPlain p
    → All IsPlain ps
    → All IsPlain qs
    → path_join (absolute (p ∷ ps)) qs ≡ absolute (p ∷ ps ++ qs)
unfolding path_join
path_join-absolute p ps [] h k l = rw append-nil
path_join-absolute p ps (q ∷ qs) h k l =
    rw (join_one-absolute p ps h k q (Relative-of_IsPlain q l.0)) (
      path_join-absolute p (ps ++ (q ∷ [])) qs h (All-append IsPlain ps (q ∷ []) k (l.0, tt)) l.1
      ∙ ap (λ r. absolute (p ∷ r)) (append_assoc ps (q ∷ []) qs))

pub safe_path_under-some :
    (base_dir : Str) (parts : List Str) (base joined : Str)
    → normpath base_dir ≡ base
    → normpath (path_join base parts) ≡ joined
    → (joined ≡ base) ⊎ (starts_with joined (base ++ codes "/") ≡ true)
    → safe_path_under base_dir parts ≡ some joined
unfolding safe_path_under
safe_path_under-some base_dir parts base joined b j h =
    rw (b, safe_path_under) (rw j (ground (arith, str_beq_iff joined base)))

starts_with-absolute :
    (p : Str) (ps : List Str) (q : Str) (qs : List Str)
    → starts_with (absolute (p ∷ ps ++ (q ∷ qs))) (absolute (p ∷ ps) ++ codes "/") ≡ true
starts_with-absolute p ps q qs = rw (join-append b'/' [] (p ∷ ps) q qs) (
    rw (← append_assoc (absolute (p ∷ ps)) (codes "/") (join b'/' (q ∷ qs)))
      (starts_with-append (absolute (p ∷ ps) ++ codes "/") (join b'/' (q ∷ qs))))

module _ (p : Str) (ps : List Str) (h : IsPlain p) (k : All IsPlain ps) where
  -- Names under a base directory stay under it.
  pub safe_path_under-plain :
      (qs : List Str)
      → All IsPlain qs
      → safe_path_under (absolute (p ∷ ps)) qs ≡ some (absolute (p ∷ ps ++ qs))
  safe_path_under-plain [] l =
      safe_path_under-some (absolute (p ∷ ps)) [] (absolute (p ∷ ps)) _ (normpath-absolute p ps h k)
        (ap normpath (path_join-absolute p ps [] h k tt)
          ∙ normpath-absolute p (ps ++ []) h (All-append IsPlain ps [] k tt))
        (inl (rw append-nil))
  safe_path_under-plain (q ∷ qs) l =
      safe_path_under-some (absolute (p ∷ ps)) (q ∷ qs) (absolute (p ∷ ps)) _
        (normpath-absolute p ps h k)
        (ap normpath (path_join-absolute p ps (q ∷ qs) h k l)
          ∙ normpath-absolute p (ps ++ (q ∷ qs)) h (All-append IsPlain ps (q ∷ qs) k l))
        (inr (starts_with-absolute p ps q qs))

-- An empty name leads to the directory itself.
safe_path_under-empty :
    (p : Str) (ps : List Str)
    → IsPlain p
    → All IsPlain ps
    → safe_path_under (absolute (p ∷ ps)) ([] ∷ []) ≡ some (absolute (p ∷ ps))
unfolding path_join starts_with
safe_path_under-empty p ps h k =
    safe_path_under-some (absolute (p ∷ ps)) ([] ∷ []) (absolute (p ∷ ps)) (absolute (p ∷ ps))
      (normpath-absolute p ps h k)
      (ap normpath (join_one-absolute p ps h k [] refl) ∙ normpath-trailing p ps h k) (inl refl)

clean-IsPlain : (ps : List Str) → All (Lacks b'/') ps → All IsPlain (keep is_plain ps)
unfolding keep contains
clean-IsPlain [] h = tt
clean-IsPlain (p ∷ ps) h =
    ground (arith, clean-IsPlain ps h.1, str_beq_iff p (codes "."), str_beq_iff p (codes ".."))

-- What is left of a path that a peer sends: names that stay inside their directory.
pub clean_parts-IsPlain : (rel default : Str) → All IsPlain (clean_parts rel default)
unfolding clean_parts
clean_parts-IsPlain rel default = clean-IsPlain _ (split-Lacks b'/' _)

-- Listing and download: whatever path the peer asks for, under a shared directory that is an absolute
-- path of names it is resolved, to that directory followed by the names that are left of the path when
-- empty parts, "." and ".." are dropped.
pub safe_rel_path_under_lem :
    (p : Str) (ps : List Str) (rel : Str)
    → IsPlain p
    → All IsPlain ps
    → safe_rel_path_under (absolute (p ∷ ps)) rel []
      ≡ some (absolute (p ∷ ps ++ clean_parts rel []))
unfolding safe_rel_path_under
safe_rel_path_under_lem p ps rel h k = resolve (clean_parts rel []) (clean_parts-IsPlain rel [])
  where
    resolve :
        (qs : List Str)
        → All IsPlain qs
        → safe_path_under (absolute (p ∷ ps)) (or_default [] qs) ≡ some (absolute (p ∷ ps ++ qs))
    resolve [] l = safe_path_under-empty p ps h k ∙ rw append-nil
    resolve (q ∷ qs) l = safe_path_under-plain p ps h k (q ∷ qs) l

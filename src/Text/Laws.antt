-- ===== src/Text/Laws.antt =====
-- Laws of `strip`, `lower` and `replace`: each leaves alone a text that it has cleaned.
use chatx.Prelude.{
  ℕ, ◌≡◌, refl, true, false, not, inl, inr, ◌&&◌, [], ◌∷◌, arith, ◌==◌, nat_eq, leb, keep, All,
  All-keep, Bool-cases, ◌∙◌, length, ◌++◌, ap, ◌≤◌,
}
use chatx.Text.{
  Str, is_space, lstrip, rstrip_cons, rstrip, strip, lower_char, lower, remove_char, str_beq,
  str_beq_iff, truthy,
}

pub str_beq_refl : (s : Str) → str_beq s s ≡ true
str_beq_refl s = (str_beq_iff s s).1 refl

lstrip-rstrip_cons :
    (c : ℕ) (s : Str) → is_space c ≡ false → lstrip (rstrip_cons c s) ≡ rstrip_cons c s
unfolding lstrip
lstrip-rstrip_cons c [] h = ground arith
lstrip-rstrip_cons c (d ∷ s) h = ground arith

lstrip-rstrip-lstrip : (s : Str) → lstrip (rstrip (lstrip s)) ≡ rstrip (lstrip s)
unfolding lstrip rstrip
lstrip-rstrip-lstrip [] = refl
lstrip-rstrip-lstrip (c ∷ s) =
    ground (arith, lstrip-rstrip-lstrip s, lstrip-rstrip_cons c (rstrip s))

rstrip_cons_idem : (c : ℕ) (s : Str) → rstrip s ≡ s → rstrip (rstrip_cons c s) ≡ rstrip_cons c s
unfolding rstrip
rstrip_cons_idem c [] h = ground arith
rstrip_cons_idem c (d ∷ s) h = rw h

rstrip_idem : (s : Str) → rstrip (rstrip s) ≡ rstrip s
unfolding rstrip
rstrip_idem [] = refl
rstrip_idem (c ∷ s) = rstrip_cons_idem c (rstrip s) (rstrip_idem s)

pub strip_idem : (s : Str) → strip (strip s) ≡ strip s
unfolding strip
strip_idem s = rw lstrip-rstrip-lstrip (rstrip_idem (lstrip s))

lower_char_idem : (c : ℕ) → lower_char (lower_char c) ≡ lower_char c
unfolding lower_char
lower_char_idem c = ground arith

pub lower_idem : (s : Str) → lower (lower s) ≡ lower s
unfolding lower
lower_idem [] = refl
lower_idem (c ∷ s) = cc (lower_char_idem c, lower_idem s)

is_space-lower_char : (c : ℕ) → is_space (lower_char c) ≡ is_space c
unfolding lower_char is_space
is_space-lower_char c = elim (Bool-cases (leb 65 c && leb c 90)) [
  | inl up ↦ ground arith
  | inr other ↦ rw other
]

lstrip-lower : (s : Str) → lstrip (lower s) ≡ lower (lstrip s)
unfolding lstrip lower
lstrip-lower [] = refl
lstrip-lower (c ∷ s) = rw is_space-lower_char (ground (arith, lstrip-lower s))

rstrip_cons-lower :
    (c : ℕ) (s : Str) → rstrip_cons (lower_char c) (lower s) ≡ lower (rstrip_cons c s)
unfolding lower
rstrip_cons-lower c [] = rw is_space-lower_char (ground arith)
rstrip_cons-lower c (d ∷ s) = refl

rstrip-lower : (s : Str) → rstrip (lower s) ≡ lower (rstrip s)
unfolding rstrip lower
rstrip-lower [] = refl
rstrip-lower (c ∷ s) = rw (rstrip-lower s) (rstrip_cons-lower c (rstrip s))

-- A cleaned text in lower case is still clean.
pub strip-lower : (s : Str) → strip (lower s) ≡ lower (strip s)
unfolding strip
strip-lower s = rw lstrip-lower (rstrip-lower (lstrip s))

-- What holds of every character holds of those that are left.
module _ (P : ℕ → Type 0) where
  All-lstrip : (s : Str) → All P s → All P (lstrip s)
  unfolding lstrip
  All-lstrip [] h = tt
  All-lstrip (c ∷ s) h = ground (arith, All-lstrip s)

  All-rstrip_cons : (c : ℕ) (s : Str) → P c → All P s → All P (rstrip_cons c s)
  All-rstrip_cons c [] p h = ground arith
  All-rstrip_cons c (d ∷ s) p h = (p, h)

  All-rstrip : (s : Str) → All P s → All P (rstrip s)
  unfolding rstrip
  All-rstrip [] h = tt
  All-rstrip (c ∷ s) h = All-rstrip_cons c (rstrip s) h.0 (All-rstrip s h.1)

  pub All-strip : (s : Str) → All P s → All P (strip s)
  unfolding strip
  All-strip s h = All-rstrip (lstrip s) (All-lstrip s h)

  pub All-lower : ((c : ℕ) → P c → P (lower_char c)) → (s : Str) → All P s → All P (lower s)
  unfolding lower
  All-lower f [] h = tt
  All-lower f (c ∷ s) h = (f c h.0, All-lower f s h.1)

-- The characters that stay after `replace(c, "")`.
abbrev pub Lacks : ℕ → Str → Type 0
Lacks c = All (λ d. (d == c) ≡ false)

pub remove_char-Lacks_self : (c : ℕ) (s : Str) → Lacks c (remove_char c s)
unfolding remove_char keep
remove_char-Lacks_self c [] = tt
remove_char-Lacks_self c (d ∷ s) = ground (arith, remove_char-Lacks_self c s)

pub remove_char-Lacks : (b c : ℕ) (s : Str) → Lacks b s → Lacks b (remove_char c s)
unfolding remove_char
remove_char-Lacks b c s h = All-keep (λ d. (d == b) ≡ false) (λ d. not (d == c)) s h

pub remove_char_of_Lacks : (c : ℕ) (s : Str) → Lacks c s → remove_char c s ≡ s
unfolding remove_char keep
remove_char_of_Lacks c [] h = refl
remove_char_of_Lacks c (d ∷ s) h = ground (arith, remove_char_of_Lacks c s h.1)

-- A cleaned text in lower case has no space at either end.
pub lstrip-lower-strip : (s : Str) → lstrip (lower (strip s)) ≡ lower (strip s)
unfolding strip
lstrip-lower-strip s = lstrip-lower (rstrip (lstrip s)) ∙ ap lower (lstrip-rstrip-lstrip s)

pub rstrip-lower-strip : (s : Str) → rstrip (lower (strip s)) ≡ lower (strip s)
unfolding strip
rstrip-lower-strip s = rstrip-lower (rstrip (lstrip s)) ∙ ap lower (rstrip_idem (lstrip s))

length-lstrip-le : (s : Str) → length (lstrip s) ≤ length s
unfolding lstrip
length-lstrip-le [] = omega arith
length-lstrip-le (c ∷ s) = ground (arith, length-lstrip-le s)

-- A text that begins with no space, and one that ends with none, joined by a character.
module _ (c : ℕ) (mark : is_space c ≡ false) where
  lstrip-joined :
      (s t : Str) → truthy s ≡ true → lstrip s ≡ s → lstrip (s ++ (c ∷ t)) ≡ s ++ (c ∷ t)
  unfolding lstrip
  lstrip-joined [] t h e = absurd (ground arith)
  lstrip-joined (d ∷ s) t h e = ground (arith, length-lstrip-le s, ap length e)

  rstrip-joined : (s t : Str) → rstrip t ≡ t → rstrip (s ++ (c ∷ t)) ≡ s ++ (c ∷ t)
  unfolding rstrip
  rstrip-joined [] [] e = rw mark
  rstrip-joined [] (d ∷ t) e = rw e
  rstrip-joined (d ∷ []) t e = rw (rstrip-joined [] t e)
  rstrip-joined (d ∷ f ∷ s) t e = rw (rstrip-joined (f ∷ s) t e)

  pub strip-joined :
      (s t : Str)
      → truthy s ≡ true
      → lstrip s ≡ s
      → rstrip t ≡ t
      → strip (s ++ (c ∷ t)) ≡ s ++ (c ∷ t)
  unfolding strip
  strip-joined s t h e f = rw (lstrip-joined s t h e) (rstrip-joined s t f)

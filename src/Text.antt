-- ===== src/Text.antt =====
-- Python's `str`, as the list of its code points, with the methods that the program calls on it.
-- `lower` knows the letters of ASCII; other letters that have case are left as they are.
pub mod Laws
pub mod Parts
use Prim.Native.Char.{code}
use Prim.Native.String.{String}
use chatx.Prelude.{
  ℕ, ◌+◌, ◌≡◌, refl, ◌↔◌, Bool, true, false, not, ◌&&◌, ◌||◌, List, [], ◌∷◌, Option, none, some,
  arith, Eq, ◌==◌, nat_eq, nat_beq, leb, keep, drop, if◌then◌else◌,
}

abbrev pub Str : Type 0
Str = List ℕ

-- A literal.
abbrev pub codes : String → Str
codes String.[] = []
codes (String.◌∷◌ c s) = code c ∷ codes s

unfoldable pub str_beq : Str → Str → Bool
str_beq [] [] = true
str_beq (c ∷ s) (d ∷ t) = nat_beq c d && str_beq s t
str_beq [] (d ∷ t) = false
str_beq (c ∷ s) [] = false

pub str_beq_iff : (s t : Str) → (str_beq s t ≡ true) ↔ (s ≡ t)
unfolding str_beq
str_beq_iff [] [] = ground arith
str_beq_iff (c ∷ s) (d ∷ t) = ground (arith, str_beq_iff s t)
str_beq_iff [] (d ∷ t) = ground arith
str_beq_iff (c ∷ s) [] = ground arith

instance abbrev pub str_eq : Eq Str
str_eq = record { test = str_beq; test_iff = str_beq_iff }

-- Whether a text counts as true.
abbrev pub truthy : Str → Bool
truthy [] = false
truthy (c ∷ s) = true

-- `s or t`
abbrev pub or_else : Str → Str → Str
or_else s t = if truthy s then s else t

-- `o or ""`
abbrev pub or_empty : Option Str → Str
or_empty none = []
or_empty (some s) = s

-- Whether an optional text counts as true.
abbrev pub given : Option Str → Bool
given none = false
given (some s) = truthy s

-- `str.isspace` of one character
unfoldable pub is_space : ℕ → Bool
is_space c =
    leb 9 c && leb c 13
    || leb 28 c && leb c 32
    || c == 0x85
    || c == 0xa0
    || c == 0x1680
    || leb 0x2000 c && leb c 0x200a
    || c == 0x2028
    || c == 0x2029
    || c == 0x202f
    || c == 0x205f
    || c == 0x3000

unfoldable pub lstrip : Str → Str
lstrip [] = []
lstrip (c ∷ s) = if is_space c then lstrip s else c ∷ s

-- The empty text stays empty; a last character that is a space goes.
abbrev pub rstrip_cons : ℕ → Str → Str
rstrip_cons c [] = if is_space c then [] else c ∷ []
rstrip_cons c (d ∷ s) = c ∷ d ∷ s

unfoldable pub rstrip : Str → Str
rstrip [] = []
rstrip (c ∷ s) = rstrip_cons c (rstrip s)

unfoldable pub strip : Str → Str
unfolding lstrip rstrip is_space
strip s = rstrip (lstrip s)

unfoldable pub lower_char : ℕ → ℕ
lower_char c = if leb b'A' c && leb c b'Z' then c + 32 else c

unfoldable pub lower : Str → Str
unfolding lower_char
lower [] = []
lower (c ∷ s) = lower_char c ∷ lower s

-- `s.replace(c, "")` for a single character
unfoldable pub remove_char : ℕ → Str → Str
unfolding keep
remove_char c = keep (λ d. not (d == c))

-- `s.replace(c, d)` for single characters
unfoldable pub replace_char : ℕ → ℕ → Str → Str
replace_char c d [] = []
replace_char c d (x ∷ s) = (if x == c then d else x) ∷ replace_char c d s

unfoldable pub starts_with : Str → Str → Bool
starts_with s [] = true
starts_with [] (d ∷ t) = false
starts_with (c ∷ s) (d ∷ t) = c == d && starts_with s t

-- `t in s`
unfoldable pub includes : Str → Str → Bool
unfolding starts_with
includes t [] = starts_with [] t
includes t (c ∷ s) = starts_with (c ∷ s) t || includes t s

-- ===== src/Text/Parts.antt =====
-- `split` and `join` on a single character, and `int()`.
use chatx.Prelude.{
  ℕ, ◌+◌, ◌-◌, ◌*◌, Bool, true, false, ◌&&◌, List, [], ◌∷◌, ◌++◌, Option, none, some, ◌==◌, nat_eq,
  leb, if◌then◌else◌,
}
use chatx.Prelude.Int.{ℤ, pos, neg}
use chatx.Text.{Str, strip}

abbrev pub cons_head : ℕ → List Str → List Str
cons_head c [] = (c ∷ []) ∷ []
cons_head c (p ∷ ps) = (c ∷ p) ∷ ps

-- `s.split(sep)`: always at least one part.
unfoldable pub split : ℕ → Str → List Str
split sep [] = [] ∷ []
split sep (c ∷ s) = let parts = split sep s in if c == sep then [] ∷ parts else cons_head c parts

-- `sep.join(parts)`
unfoldable pub join : ℕ → List Str → Str
join sep [] = []
join sep (p ∷ []) = p
join sep (p ∷ q ∷ ps) = p ++ (sep ∷ join sep (q ∷ ps))

abbrev pub is_digit : ℕ → Bool
is_digit c = leb b'0' c && leb c b'9'

-- The digits of a number, with single underscores between digits. The flag says that a digit
-- stands just before.
unfoldable pub digits : ℕ → Bool → Str → Option ℕ
digits n after [] = if after then some n else none
digits n after (c ∷ s) =
    let more = digits (n * 10 + (c - b'0')) true s in
    let skip = digits n false s in
    if is_digit c then more else if c == b'_' && after then skip else none

abbrev signed : (ℕ → ℤ) → Option ℕ → Option ℤ
signed f none = none
signed f (some n) = some (f n)

unfoldable pub parse_int : Str → Option ℤ
parse_int [] = none
parse_int (c ∷ s) =
    if c == b'-'
    then signed neg (digits 0 false s)
    else if c == b'+'
    then signed pos (digits 0 false s)
    else signed pos (digits 0 false (c ∷ s))

-- `int(s)`; `none` is a ValueError. Digits outside ASCII are not read.
unfoldable pub int : Str → Option ℤ
unfolding digits parse_int strip
int s = parse_int (strip s)

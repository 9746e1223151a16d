-- ===== src/Ranges/Served.antt =====
-- What a request for the bytes from a number to another gets (`stream_file_response` of
-- chatx5/utils/file_serve.py).
use chatx.Prelude.{
  Bool-cases, inr, inl, ℕ, ◌+◌, ◌-◌, ◌<◌, min, ◌≡◌, refl, ◌≢◌, Bool, true, false, ◌&&◌, some, [],
  ◌∷◌, ◌++◌, arith, ltb, leb, if◌then◌else◌, ◌==◌, nat_eq, contains,
}
use chatx.Prelude.Int.{pos}
use chatx.Text.{Str, codes, truthy, strip, starts_with}
use chatx.Text.Parts.{int}
use chatx.Ranges.{
  dash_parts, spec_range, is_range, requested_range, stream_file_response, streamed,
  not_satisfiable, send_range, send_range_all,
}

-- `bytes=left-right`
abbrev pub range_text : Str → Str → Str
range_text left right = codes "bytes=" ++ (left ++ (b'-' ∷ right))

dash_parts-append :
    (left right : Str)
    → contains b'-' left ≡ false
    → dash_parts (left ++ (b'-' ∷ right)) ≡ (left, right)
unfolding dash_parts contains
dash_parts-append [] right h = ground arith
dash_parts-append (c ∷ left) right h = ground (arith, dash_parts-append left right)

contains_dash : (left right : Str) → contains b'-' (left ++ (b'-' ∷ right)) ≡ true
unfolding contains
contains_dash [] right = ground arith
contains_dash (c ∷ left) right = ground (arith, contains_dash left right)

int_given : (s : Str) (n : ℕ) → int s ≡ some (pos n) → truthy s ≡ true
unfolding int strip
int_given [] n h = absurd (cc h)
int_given (c ∷ s) n h = refl

spec_range-append :
    (total : ℕ) (left right : Str) (a b : ℕ)
    → contains b'-' left ≡ false
    → int left ≡ some (pos a)
    → int right ≡ some (pos b)
    → spec_range total (left ++ (b'-' ∷ right)) ≡ (a, min total (b + 1))
unfolding spec_range
spec_range-append total left right a b plain first last = rw (
  contains_dash left right,
  dash_parts-append left right plain,
  int_given left a first,
  int_given right b last,
  first,
  last,
)

range_text-is_range : (left right : Str) → is_range (range_text left right) ≡ true
unfolding starts_with
range_text-is_range left right = refl

requested_range-range_text :
    (total : ℕ) (left right : Str) (a b : ℕ)
    → contains b'-' left ≡ false
    → strip (left ++ (b'-' ∷ right)) ≡ left ++ (b'-' ∷ right)
    → int left ≡ some (pos a)
    → int right ≡ some (pos b)
    → requested_range total (range_text left right) ≡ (a, min total (b + 1))
unfolding requested_range
requested_range-range_text total left right a b plain tight first last =
    rw (range_text-is_range left right, tight)
      (spec_range-append total left right a b plain first last)

-- A request for the bytes from a to b, two numbers that `int` reads and that stand around a dash with no space
-- at the ends, gets exactly these bytes as far as the file has them, with the status 206, or 200 if they
-- are the whole file; and it is refused if b comes before a or the file has no byte a. No write fails here,
-- a chunk has a byte at least, and the loop has more rounds than the file has bytes.
pub stream_file_response-range :
    (fuel : ℕ) (writes : ℕ → Bool) (chunk_size : ℕ) (left right : Str) (a b : ℕ) (path : Str)
    (total : ℕ)
    → ((n : ℕ) → writes n ≡ true)
    → 0 < chunk_size
    → total < fuel
    → path ≢ []
    → contains b'-' left ≡ false
    → strip (left ++ (b'-' ∷ right)) ≡ left ++ (b'-' ∷ right)
    → int left ≡ some (pos a)
    → int right ≡ some (pos b)
    → stream_file_response fuel writes chunk_size (range_text left right) path (some total) ≡ (
        if leb a b && ltb a total
        then streamed
            (if a == 0 && leb total (b + 1) then 200 else 206)
            a
            (min (b + 1) total - a)
            (min (b + 1) total - a)
        else not_satisfiable)
unfolding stream_file_response
stream_file_response-range fuel writes chunk_size left right a b path total good c enough p plain
      tight first last =
    let stop = min total (b + 1) in
    elim (Bool-cases (leb a b && ltb a total)) [
      | inl inside ↦
          let all : send_range fuel writes chunk_size total a (stop - a) ≡ stop - a =
            send_range_all fuel writes chunk_size total a (stop - a) good c (ground (arith, inside))
              (ground (arith, inside)) in
          rw
            (
              requested_range-range_text total left right a b plain tight first last,
              range_text-is_range left right,
              all,
            )
            (ground (arith, inside))
      | inr outside ↦
          rw
            (
              requested_range-range_text total left right a b plain tight first last,
              range_text-is_range left right,
            )
            (ground (arith, outside))
    ]

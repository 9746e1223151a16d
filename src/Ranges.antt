-- ===== src/Ranges.antt =====
-- Files over HTTP with a range of bytes (`stream_file_response` of chatx5/utils/file_serve.py). The size of
-- the file and the writes that reach the client are parameters. The end of a range is kept as the
-- byte after its last, since the code's `end` can be -1.
pub mod Served
mod Tests
use chatx.Prelude.{
  ℕ, zero, suc, ◌+◌, ◌-◌, ◌*◌, ◌/◌, ◌%◌, ◌≤◌, ◌<◌, max, min, ◌≡◌, refl, sym, ap, ◌∙◌, ◌≢◌, ◌↔◌, ◌⊎◌,
  inl, inr, Bool, true, false, not, ◌&&◌, ◌||◌, Option, none, some, List, [], ◌∷◌, ◌++◌, map,
  append-nil, append_assoc, arith, ltb, leb, nat_beq, nat_beq_iff, if◌then◌else◌, Bool-cases,
  Option-cases, Eq, ◌==◌, nat_eq, contains, length, drop, take, keep, count, any, all,
  length-append, length-drop, length-keep-le, keep-append, keep-keep, All, All-append, All-keep,
  All-drop,
}
use chatx.Prelude.Int.{ℤ, pos, negsuc}
use chatx.Text.{Str, codes, truthy, strip, starts_with}
use chatx.Text.Parts.{int}

-- `spec.split("-", 1)`
unfoldable pub dash_parts : Str → Str × Str
dash_parts [] = ([], [])
dash_parts (c ∷ s) = let rest = dash_parts s in if c == b'-' then ([], s) else (c ∷ rest.0, rest.1)

-- `max(0, int(left))`, the start without a left part, or a ValueError
abbrev range_first : Str → Option ℕ
range_first left =
    if not (truthy left)
    then some 0
    else elim (int left) [ none ↦ none | some n ↦ elim n [ pos k ↦ some k | negsuc k ↦ some 0 ] ]

-- One more than `min(total - 1, int(right))`
abbrev range_stop : ℕ → Str → Option ℕ
range_stop total right = if not (truthy right) then some total else elim (int right) [
  | none ↦ none
  | some n ↦ elim n [ pos k ↦ some (min total (k + 1)) | negsuc k ↦ some 0 ]
]

-- Both, or the whole file after a ValueError.
abbrev both_or_all : ℕ → Option ℕ → Option ℕ → ℕ × ℕ
both_or_all total none b = (0, total)
both_or_all total (some a) none = (0, total)
both_or_all total (some a) (some b) = (a, b)

unfoldable pub spec_range : ℕ → Str → ℕ × ℕ
unfolding dash_parts
spec_range total spec =
    let parts = dash_parts spec in
    if not (contains b'-' spec)
    then (0, total)
    else both_or_all total (range_first parts.0) (range_stop total parts.1)

abbrev pub is_range : Str → Bool
is_range range_hdr = starts_with range_hdr (codes "bytes=")

-- The first byte to send and the one after the last.
unfoldable pub requested_range : ℕ → Str → ℕ × ℕ
requested_range total range_hdr =
    if is_range range_hdr then spec_range total (strip (drop 6 range_hdr)) else (0, total)

-- The loop: the number of bytes written. The file ends at `total`.
unfoldable pub send_range : ℕ → (ℕ → Bool) → (chunk_size total start remaining : ℕ) → ℕ
send_range zero writes chunk_size total start remaining = 0
send_range (suc fuel) writes chunk_size total start remaining =
    let chunk = min (min chunk_size remaining) (total - start) in
    let rest = send_range fuel writes chunk_size total (start + chunk) (remaining - chunk) in
    if chunk == 0 then 0 else if writes start then chunk + rest else 0

pub data Response : Type 0 where
  no_file : Response
  not_satisfiable : Response
  streamed : (status start content_length sent : ℕ) → Response

-- `size` is the size of the file at the path, if it is a file.
unfoldable pub stream_file_response :
    ℕ → (ℕ → Bool) → (chunk_size : ℕ) → Str → Str → Option ℕ → Response
stream_file_response fuel writes chunk_size range_hdr path none = no_file
stream_file_response fuel writes chunk_size range_hdr path (some total) =
    let r = requested_range total range_hdr in
    let length = r.1 - r.0 in
    let partial = not (r.0 == 0) || not (r.1 == total) in
    if not (truthy path)
    then no_file
    else if is_range range_hdr && (leb r.1 r.0 || leb total r.0)
    then not_satisfiable
    else streamed (if partial && truthy range_hdr then 206 else 200) r.0 length
        (send_range fuel writes chunk_size total r.0 length)

range_stop-le : (total : ℕ) (right : Str) (n : ℕ) → range_stop total right ≡ some n → n ≤ total
range_stop-le total right n h = ground arith

spec_range-le : (total : ℕ) (spec : Str) → (spec_range total spec).1 ≤ total
unfolding spec_range
spec_range-le total spec = ground (arith, range_stop-le total (dash_parts spec).1)

requested_range-le : (total : ℕ) (range_hdr : Str) → (requested_range total range_hdr).1 ≤ total
unfolding requested_range
requested_range-le total range_hdr = ground (arith, spec_range-le total (strip (drop 6 range_hdr)))

-- With every write accepted and fuel for the bytes, the loop writes all of them.
pub send_range_all :
    (fuel : ℕ) (writes : ℕ → Bool) (chunk_size total start remaining : ℕ)
    → ((n : ℕ) → writes n ≡ true)
    → 0 < chunk_size
    → start + remaining ≤ total
    → remaining < fuel
    → send_range fuel writes chunk_size total start remaining ≡ remaining
unfolding send_range
send_range_all zero writes chunk_size total start remaining good c h enough = absurd (omega arith)
send_range_all (suc fuel) writes chunk_size total start remaining good c h enough =
    let chunk = min (min chunk_size remaining) (total - start) in
    let ih =
      send_range_all fuel writes chunk_size total (start + chunk) (remaining - chunk) good c in
    ground (arith, ih, good start)

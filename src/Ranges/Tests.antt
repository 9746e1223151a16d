-- ===== src/Ranges/Tests.antt =====
-- Runs of the range parser, and the theorem at a concrete request.
use chatx.Prelude.{◌≡◌, refl, true, some, arith, nat_eq, contains}
use chatx.Text.{codes, starts_with, strip}
use chatx.Ranges.{requested_range, stream_file_response, streamed, spec_range}
use chatx.Text.Parts.{int}
use chatx.Ranges.Served.{range_text, stream_file_response-range}

part : requested_range 1000 (codes "bytes=10-19") ≡ (10, 20)
unfolding requested_range starts_with spec_range contains strip int
part = refl

open_end : requested_range 1000 (codes "bytes=10-") ≡ (10, 1000)
unfolding requested_range starts_with spec_range contains strip int
open_end = refl

-- The first bytes are served for a request of the last ones.
suffix : requested_range 1000 (codes "bytes=-5") ≡ (0, 6)
unfolding requested_range starts_with spec_range contains strip int
suffix = refl

stream_file_response-range_example :
    stream_file_response 1001
      (λ n. true)
      64
      (range_text (codes "10") (codes "19"))
      (codes "/a")
      (some 1000)
    ≡ streamed 206 10 10 10
unfolding contains strip int
stream_file_response-range_example =
    stream_file_response-range 1001 (λ n. true) 64 (codes "10") (codes "19") 10 19 (codes "/a") 1000
      (λ n. refl) (omega arith) (omega arith) (λ e. cc e) refl refl refl refl

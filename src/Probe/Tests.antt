-- ===== src/Probe/Tests.antt =====
-- Runs of the probe helpers, and the theorems at concrete values.
use chatx.Prelude.{◌≡◌, refl, some, [], ◌∷◌, nat_eq}
use chatx.Prelude.Int.{pos}
use chatx.Probe.{serial_link_quality_percent, avg_ms}

half : serial_link_quality_percent (some (pos 1025)) ≡ some 50
unfolding serial_link_quality_percent
half = refl

quarter : serial_link_quality_percent (some (pos 1512)) ≡ some 25
unfolding serial_link_quality_percent
quarter = refl

average : avg_ms (10 ∷ 20 ∷ 33 ∷ []) ≡ some 21
unfolding avg_ms
average = refl

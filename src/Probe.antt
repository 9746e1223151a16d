-- ===== src/Probe.antt =====
-- Probes of peers (chatx5/core/peer_probe.py): the quality of a link, the intervals that a user may set,
-- and the average over the last round trips. An argument that `int()` refuses is `none`.
mod Tests
use chatx.Prelude.{
  ℕ, zero, suc, ◌+◌, ◌-◌, ◌*◌, ◌/◌, ◌%◌, ◌≤◌, ◌<◌, max, min, ◌≡◌, refl, sym, ap, ◌∙◌, ◌≢◌, ◌↔◌, ◌⊎◌,
  inl, inr, Bool, true, false, not, ◌&&◌, ◌||◌, Option, none, some, List, [], ◌∷◌, ◌++◌, map,
  append-nil, append_assoc, arith, ltb, leb, nat_beq, nat_beq_iff, if◌then◌else◌, Bool-cases,
  Option-cases, Eq, ◌==◌, nat_eq, contains, length, drop, take, keep, count, any, all,
  length-append, length-drop, length-keep-le, keep-append, keep-keep, All, All-append, All-keep,
  All-drop,
}
use chatx.Prelude.Int.{ℤ, pos, negsuc}

abbrev probe_interval_s : ℕ
probe_interval_s = 30

abbrev probe_interval_serial_min_s : ℕ
probe_interval_serial_min_s = 3

abbrev pub probe_interval_max_s : ℕ
probe_interval_max_s = 18000

abbrev pub probe_avg_window : ℕ
probe_avg_window = 6

-- `max(0, min(100, int(100 * (2000 - rtt) / 1950)))` between the two limits
unfoldable pub serial_link_quality_percent : Option ℤ → Option ℕ
serial_link_quality_percent none = none
serial_link_quality_percent (some (negsuc n)) = none
serial_link_quality_percent (some (pos rtt)) =
    if leb rtt 50
    then some 100
    else if leb 2000 rtt
    then some 0
    else some (min 100 (100 * (2000 - rtt) / 1950))

-- `max(0, min(MAX, value))`
abbrev clamp : ℕ → ℤ → ℕ
clamp most (pos n) = min most n
clamp most (negsuc n) = 0

unfoldable pub clamp_probe_interval : Option ℤ → ℕ
clamp_probe_interval none = clamp probe_interval_max_s (pos probe_interval_s)
clamp_probe_interval (some v) = clamp probe_interval_max_s v

unfoldable pub clamp_announce_interval : Option ℤ → ℕ
clamp_announce_interval none = 0
clamp_announce_interval (some v) = clamp probe_interval_max_s v

-- Nothing up to 0, and from there at least three seconds.
abbrev serial_interval : ℤ → ℕ
serial_interval (negsuc n) = 0
serial_interval (pos n) =
    if n == 0 then 0 else max probe_interval_serial_min_s (min probe_interval_max_s n)

abbrev or_value : Option ℤ → ℕ → ℤ
or_value none d = pos d
or_value (some v) d = v

unfoldable pub clamp_serial_quality_interval : Option ℤ → ℕ
clamp_serial_quality_interval seconds = serial_interval (or_value seconds 5)

unfoldable pub clamp_serial_probe_interval : Option ℤ → ℕ
clamp_serial_probe_interval seconds = serial_interval (or_value seconds probe_interval_s)

unfoldable pub rolling_avg_ms : List ℕ → Option ℕ → List ℕ
rolling_avg_ms samples none = samples
rolling_avg_ms samples (some value) =
    let all_samples = samples ++ (value ∷ []) in
    drop (length all_samples - probe_avg_window) all_samples

abbrev pub sum : List ℕ → ℕ
sum [] = 0
sum (n ∷ ns) = n + sum ns

unfoldable pub avg_ms : List ℕ → Option ℕ
avg_ms [] = none
avg_ms (n ∷ ns) = some (sum (n ∷ ns) / length (n ∷ ns))

-- A round trip that is longer never has a better quality, and qualities are percentages.
pub serial_link_quality_percent_antitone :
    (r s p q : ℕ)
    → r ≤ s
    → serial_link_quality_percent (some (pos r)) ≡ some p
    → serial_link_quality_percent (some (pos s)) ≡ some q
    → (q ≤ p) × (p ≤ 100)
unfolding serial_link_quality_percent
serial_link_quality_percent_antitone r s p q le hp hq = (ground arith, ground arith)

-- Each interval that is set is off or within its limits, and to set it again to what it is changes nothing.
pub intervals_in_limits :
    (seconds : Option ℤ)
    → ((clamp_serial_probe_interval seconds ≡ 0)
        ⊎ ((3 ≤ clamp_serial_probe_interval seconds)
            × (clamp_serial_probe_interval seconds ≤ 18000)))
      × ((clamp_serial_quality_interval seconds ≡ 0)
          ⊎ ((3 ≤ clamp_serial_quality_interval seconds)
              × (clamp_serial_quality_interval seconds ≤ 18000)))
      × (clamp_probe_interval seconds ≤ 18000)
      × (clamp_announce_interval seconds ≤ 18000)
      × (clamp_serial_probe_interval (some (pos (clamp_serial_probe_interval seconds)))
          ≡ clamp_serial_probe_interval seconds)
      × (clamp_probe_interval (some (pos (clamp_probe_interval seconds)))
          ≡ clamp_probe_interval seconds)
unfolding clamp_serial_probe_interval clamp_serial_quality_interval clamp_probe_interval
    clamp_announce_interval
intervals_in_limits seconds =
    (ground arith, ground arith, ground arith, ground arith, ground arith, ground arith)

drop-snoc :
    (k : ℕ) (xs : List ℕ) (v : ℕ) → k ≤ length xs → drop k (xs ++ (v ∷ [])) ≡ drop k xs ++ (v ∷ [])
drop-snoc zero xs v h = refl
drop-snoc (suc k) [] v h = absurd (omega arith)
drop-snoc (suc k) (x ∷ xs) v h = drop-snoc k xs v (omega arith)

-- The window holds six samples at most, the last of which is the new one.
pub rolling_avg_ms_window :
    (samples : List ℕ) (value : ℕ)
    → (length (rolling_avg_ms samples (some value)) ≤ 6)
      × ((older : List ℕ) × (rolling_avg_ms samples (some value) ≡ older ++ (value ∷ [])))
unfolding rolling_avg_ms
rolling_avg_ms_window samples value =
    let k = length (samples ++ (value ∷ [])) - probe_avg_window in
    let n = length-append samples (value ∷ []) in
    (
      rw (length-drop k (samples ++ (value ∷ []))) (omega (arith, n)),
      (drop k samples, drop-snoc k samples value (omega (arith, n))),
    )

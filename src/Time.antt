-- ===== src/Time.antt =====
-- Clock readings and durations. `time.time()` is an argument of each operation that reads it, a
-- whole number of microseconds since the epoch; it need not grow, since the clock can be set back.
-- A comparison `now - w < t` of the source is written `now < t + w` here, which is the same over
-- the real numbers and needs no negative number. A float duration is an exact fraction of
-- microseconds, and a configured float the fraction that it stands for; rounding is not modelled.
use langgraph_lens.Prelude.{ℕ, ◌*◌, ◌/◌}

abbrev pub ticks_per_second : ℕ
ticks_per_second = 1000000

-- `seconds` of a configuration, in ticks
abbrev pub ticks : ℕ → ℕ
ticks seconds = seconds * ticks_per_second

-- `num / den`, with a positive `den`
pub record Fraction : Type 0 where
  pub num : ℕ
  pub den : ℕ

-- `int(d)` in seconds, for a duration in ticks
unfoldable pub whole_seconds : Fraction → ℕ
whole_seconds d = d.num / (d.den * ticks_per_second)

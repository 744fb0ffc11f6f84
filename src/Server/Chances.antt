-- ===== src/Server/Chances.antt =====
-- `applyChaos` and `calculateLatency`. A call of `rand.Intn` panics if its bound is not positive. The
-- bounds of a latency are ints of 64 bits, whose difference wraps around.
use pmp_mock_http.Prelude.{
  ℕ, ltb, ℤ, pos, ◌+ℤ◌, ◌-ℤ◌, ltb_ℤ, pos_part, Option, none, some, List, [], ◌∷◌, length, get_elem?,
  ◌==◌, if◌then◌else◌,
}
use pmp_mock_http.Models.{ChaosConfig, LatencyConfig, Float64, lt_float64}
use pmp_mock_http.Server.Types.{Rolls}

-- What chaos does: an error code, or an injected latency in milliseconds (0 for none), or a panic,
-- of an index out of range or of `rand.Intn`.
pub data Chaos : Type 0 where
  fails : ℤ → Chaos
  delays : ℤ → Chaos
  out_of_range : Chaos

unfoldable pub picked : Option ℤ → Chaos
picked none = out_of_range
picked (some code) = fails code

-- `min + rand.Intn(max - min)` where min < max: their difference is below 2 ^ 64, and is negative as
-- an int from 2 ^ 63 on, on which `rand.Intn` panics.
unfoldable pub drawn_between : (ℕ → ℕ) → ℤ → ℤ → Option ℤ
drawn_between roll min max =
    let bound = pos_part (max -ℤ min) in
    if ltb bound 9223372036854775808 then some (min +ℤ pos (roll bound)) else none

unfoldable pub chaos_latency : Rolls → ChaosConfig → Option ℤ
unfolding drawn_between
chaos_latency rolls chaos =
    if ltb_ℤ (pos 0) chaos.latency_max
    then (if ltb_ℤ chaos.latency_min chaos.latency_max
        then drawn_between rolls.chaos_latency chaos.latency_min chaos.latency_max
        else some chaos.latency_min)
    else some (pos 0)

unfoldable pub waits : Option ℤ → Chaos
waits none = out_of_range
waits (some latency) = delays latency

-- The error codes are tested for being none in the source.
unfoldable pub failure : Rolls → ChaosConfig → List ℤ → Chaos
unfolding chaos_latency picked waits
failure rolls chaos [] = waits (chaos_latency rolls chaos)
failure rolls chaos (code ∷ codes) =
    if lt_float64 rolls.failure chaos.failure_rate
    then picked (get_elem? (code ∷ codes) (rolls.error_code (length (code ∷ codes))))
    else waits (chaos_latency rolls chaos)

unfoldable pub apply_chaos : Rolls → Option ChaosConfig → Chaos
unfolding failure
apply_chaos rolls none = delays (pos 0)
apply_chaos rolls (some chaos) =
    if chaos.enabled then failure rolls chaos chaos.error_codes else delays (pos 0)

abbrev half : Float64
half = record { bits = 0x3FE0000000000000 }

abbrev ninety_five_hundredths : Float64
ninety_five_hundredths = record { bits = 0x3FEE666666666666 }

-- The latency, or none where `rand.Intn` panics.
unfoldable pub calculate_latency : Rolls → Option LatencyConfig → ℤ → Option ℤ
unfolding drawn_between
calculate_latency rolls none base_delay = some base_delay
calculate_latency rolls (some latency) base_delay =
    if latency.type == "random"
    then (if ltb_ℤ (pos 0) latency.max
        then (if ltb_ℤ latency.min latency.max
            then drawn_between rolls.latency latency.min latency.max
            else some latency.min)
        else some base_delay)
    else if latency.type == "percentile"
    then (if lt_float64 rolls.percentile half
        then some latency.p50
        else if lt_float64 rolls.percentile ninety_five_hundredths
        then some latency.p95
        else some latency.p99)
    else some base_delay

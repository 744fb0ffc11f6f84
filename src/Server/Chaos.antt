-- ===== src/Server/Chaos.antt =====
-- What chaos and latency may come to.
use pmp_mock_http.Prelude.{
  false, ℕ, ℤ, pos, ◌-ℤ◌, ◌≤ℤ◌, ◌<ℤ◌, ltb_ℤ, pos_part, true, some, [], get_elem?, ◌≡◌, ◌⊎◌, ◌≤◌,
  ◌^◌, Option, none,
}
use pmp_mock_http.Models.{ChaosConfig, LatencyConfig, lt_float64}
use pmp_mock_http.Server.Types.{Rolls}
use pmp_mock_http.Server.Chances.{Chaos, out_of_range, fails, delays, failure}

-- What a latency with two bounds comes to, or none for the panic of `rand.Intn`: without a positive
-- maximum the default; the minimum if the maximum is not above it; else a number between them, but a
-- panic if their difference does not fit an int of 64 bits.
pub data Draws (default min max : ℤ) : Option ℤ → Type 0 where
  unset : ltb_ℤ (pos 0) max ≡ false → Draws default min max (some default)
  fixed : ltb_ℤ (pos 0) max ≡ true → ltb_ℤ min max ≡ false → Draws default min max (some min)
  drawn :
      (latency : ℤ)
      → ltb_ℤ (pos 0) max ≡ true
      → min ≤ℤ latency
      → latency <ℤ max
      → Draws default min max (some latency)
  overflows :
      ltb_ℤ (pos 0) max ≡ true
      → ltb_ℤ min max ≡ true
      → 2 ^ 63 ≤ pos_part (max -ℤ min)
      → Draws default min max none

-- What chaos that is enabled does: it fails with one of its codes if the draw is below its rate and
-- it has codes, and otherwise waits for a latency between its bounds.
pub data ChaosOutcome (rolls : Rolls) (c : ChaosConfig) : Chaos → Type 0 where
  fails_with :
      (code : ℤ) (i : ℕ)
      → lt_float64 rolls.failure c.failure_rate ≡ true
      → get_elem? c.error_codes i ≡ some code
      → ChaosOutcome rolls c (fails code)
  waits_for :
      (latency : ℤ)
      → (c.error_codes ≡ []) ⊎ (lt_float64 rolls.failure c.failure_rate ≡ false)
      → Draws (pos 0) c.latency_min c.latency_max (some latency)
      → ChaosOutcome rolls c (delays latency)
  panics_for :
      (c.error_codes ≡ []) ⊎ (lt_float64 rolls.failure c.failure_rate ≡ false)
      → Draws (pos 0) c.latency_min c.latency_max none
      → ChaosOutcome rolls c out_of_range

-- What a configured latency comes to, with 0.5 and 0.95 as the bounds of the percentiles.
pub data LatencyOutcome (rolls : Rolls) (c : LatencyConfig) (base_delay : ℤ)
    : Option ℤ → Type 0 where
  random :
      (o : Option ℤ)
      → c.type ≡ "random"
      → Draws base_delay c.min c.max o
      → LatencyOutcome rolls c base_delay o
  half :
      c.type ≡ "percentile"
      → lt_float64 rolls.percentile (record { bits = 0x3FE0000000000000 }) ≡ true
      → LatencyOutcome rolls c base_delay (some c.p50)
  most :
      c.type ≡ "percentile"
      → lt_float64 rolls.percentile (record { bits = 0x3FE0000000000000 }) ≡ false
      → lt_float64 rolls.percentile (record { bits = 0x3FEE666666666666 }) ≡ true
      → LatencyOutcome rolls c base_delay (some c.p95)
  rest :
      c.type ≡ "percentile"
      → lt_float64 rolls.percentile (record { bits = 0x3FE0000000000000 }) ≡ false
      → lt_float64 rolls.percentile (record { bits = 0x3FEE666666666666 }) ≡ false
      → LatencyOutcome rolls c base_delay (some c.p99)
  other :
      ¬ (c.type ≡ "random")
      → ¬ (c.type ≡ "percentile")
      → LatencyOutcome rolls c base_delay (some base_delay)

-- ===== src/Bitrates/Samples.antt =====
-- Bitrates for the tests.
use voicekit.Prelude.{ℕ, zero, suc, arith}
use voicekit.Prelude.Int.{pos, ◌≤ℤ◌}
use voicekit.Bitrates.{Bitrates}

-- Spatial layers 0 and 1 with temporal layers 0 and 1 each
abbrev pub simulcast_rates : Bitrates
simulcast_rates zero zero = pos 100
simulcast_rates zero (suc zero) = pos 150
simulcast_rates (suc zero) zero = pos 300
simulcast_rates (suc zero) (suc zero) = pos 400
simulcast_rates _ _ = pos 0

pub simulcast_rates-nonnegative : (s t : ℕ) → pos 0 ≤ℤ simulcast_rates s t
simulcast_rates-nonnegative zero zero = omega arith
simulcast_rates-nonnegative zero (suc zero) = omega arith
simulcast_rates-nonnegative zero (suc (suc t)) = omega arith
simulcast_rates-nonnegative (suc zero) zero = omega arith
simulcast_rates-nonnegative (suc zero) (suc zero) = omega arith
simulcast_rates-nonnegative (suc zero) (suc (suc t)) = omega arith
simulcast_rates-nonnegative (suc (suc s)) t = omega arith

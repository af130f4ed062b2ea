-- ===== src/Bitrates/Examples.antt =====
-- Tests of the bitrates, and the theorems at concrete inputs.
use voicekit.Prelude.{ℕ, ◌<◌, false, some, [], ◌∷◌, ◌≡◌, refl, ◌⊎◌, arith}
use voicekit.Bitrates.Samples.{simulcast_rates}
use voicekit.Prelude.Int.{pos}
use voicekit.VideoLayer.{invalid_layer}
use voicekit.Bitrates.{
  rate, row_down, down, nonzero, get_optimal_bandwidth_needed, get_bandwidth_needed,
  get_distance_to_desired,
}
use voicekit.Bitrates.Highest.{layer_at, IsHighest, get_optimal_bandwidth_needed-IsHighest}

optimal_of_all :
    get_optimal_bandwidth_needed false false (pos 1) simulcast_rates (layer_at 2 3) ≡ some (pos 400)
unfolding get_optimal_bandwidth_needed down row_down rate
optimal_of_all = refl

optimal_of_low :
    get_optimal_bandwidth_needed false false (pos 1) simulcast_rates (layer_at 0 3) ≡ some (pos 150)
unfolding get_optimal_bandwidth_needed down row_down rate
optimal_of_low = refl

unmeasured : get_bandwidth_needed simulcast_rates (layer_at 2 0) (pos 7) ≡ some (pos 7)
unfolding get_bandwidth_needed rate
unmeasured = refl

-- From the lowest layer to the highest, of two temporal layers: (1 * 2 + 1) / 2
away :
    get_distance_to_desired false false
      (layer_at 1 1)
      (pos 0 ∷ pos 1 ∷ [])
      simulcast_rates
      (layer_at 0 0)
      (layer_at 2 3)
    ≡ some (pos 3, pos 2)
unfolding get_distance_to_desired down row_down rate
away = refl

not_streaming :
    get_distance_to_desired false false
      (layer_at 1 1)
      (pos 0 ∷ pos 1 ∷ [])
      simulcast_rates
      invalid_layer
      (layer_at 2 3)
    ≡ some (pos 5, pos 2)
unfolding get_distance_to_desired down row_down rate
not_streaming = refl

get_optimal_bandwidth_needed-IsHighest_example :
    ((get_optimal_bandwidth_needed false false (pos 1) simulcast_rates (layer_at 2 3)
        ≡ some (pos 0))
      × ((s t : ℕ) → s < 3 → t < 4 → nonzero (simulcast_rates s t) ≡ false))
    ⊎ ((s : ℕ) × (t : ℕ) × (get_optimal_bandwidth_needed false false
            (pos 1)
            simulcast_rates
            (layer_at 2 3)
          ≡ some (simulcast_rates s t))
        × IsHighest nonzero simulcast_rates 3 4 s t)
get_optimal_bandwidth_needed-IsHighest_example =
    get_optimal_bandwidth_needed-IsHighest (pos 1) simulcast_rates 2 3 refl (omega arith)
      (omega arith)

-- ===== src/Forwarder/Examples.antt =====
-- Tests of the allocation, and the theorems at concrete inputs.
use voicekit.Prelude.{ℕ, Bool, true, false, Option, none, some, [], ◌∷◌, ◌≡◌, refl, arith, inr}
use voicekit.Bitrates.Samples.{simulcast_rates, simulcast_rates-nonnegative}
use voicekit.Prelude.Int.{negsuc, ◌*ℤ◌, ltb_ℤ, eqb_ℤ, ℤ, pos}
use voicekit.VideoLayer.{VideoLayer, invalid_layer}
use voicekit.LayerSelector.{new_base}
use voicekit.Forwarder.{State, VideoAllocation, video_allocation_default}
use voicekit.Forwarder.{
  VideoTransition, update_allocation, restrict_temporal, set_target_layer, resync,
}
use voicekit.Forwarder.Provisional.{
  is_barred, takes, allocate_if_fits, provisional_allocate, TransitionResult, allocate, move,
  find_minimal, minimal_or_current, keep_or_lower, for_target,
  provisional_allocate_get_cooperative_transition,
}
use voicekit.Forwarder.Weighted.{
  Float32, column_down, columns_down, cost, better, weigh, weigh_row, weigh_rows, best_transition,
  provisional_allocate_get_best_weighted_transition,
}
use voicekit.Forwarder.Optimal.{
  look_through, get_max_temporal, get_available, opportunistic_target, start_or_latch,
  choose_target, optimal_target, only_valid, allocate_target, allocate_video, allocate_optimal,
}
use voicekit.Forwarder.Boost.{
  may_overshoot, search_between, boost_to, boost, allocate_next_higher, get_next_higher_transition,
}
use voicekit.Forwarder.Raised.{IsRaised, allocate_next_higher-IsRaised}
use voicekit.Forwarder.Fits.{IsSound}
use voicekit.Forwarder.Cooperate.{
  Cooperates, provisional_allocate_get_cooperative_transition-Cooperates,
}
use voicekit.Bitrates.{
  rate, row_down, down, row_up, up, get_optimal_bandwidth_needed, get_bandwidth_needed,
  get_distance_to_desired,
}

abbrev layer : ℕ → ℕ → VideoLayer
layer s t = record { spatial = pos s; temporal = pos t }

abbrev start : State
start = record {
  is_audio = false;
  is_h264 = false;
  is_overshoot_okay = true;
  muted = false;
  pub_muted = false;
  last_ssrc = 0;
  resume_behind_threshold = 0;
  last_allocation = video_allocation_default;
  provisional = record {
    muted = false;
    pub_muted = false;
    max_seen_layer = layer 1 1;
    available_layers = pos 0 ∷ pos 1 ∷ [];
    bitrates = simulcast_rates;
    max_layer = layer 1 1;
    current_layer = invalid_layer;
    allocated_layer = invalid_layer;
  };
  vls = record new_base { max_layer = layer 1 1; max_seen_layer = layer 1 1 };
}

abbrev streaming : State
streaming = record start {
  last_allocation = record video_allocation_default { is_deficient = true };
  provisional = record (start.provisional) { current_layer = layer 0 1 };
  vls = record (start.vls) { target_layer = layer 0 1; current_layer = layer 0 1 };
}

abbrev target_of : Option (State × VideoAllocation) → Option VideoLayer
target_of none = none
target_of (some r) = some r.0.vls.target_layer

abbrev transition_of : Option TransitionResult → Option VideoTransition
transition_of none = none
transition_of (some r) = some r.1

abbrev boosted : Option (State × VideoAllocation × Bool) → Option (VideoLayer × Bool)
boosted none = none
boosted (some r) = some (r.1.target_layer, r.2)

-- The highest layer that is available is requested at once.
optimal_start :
    target_of (allocate_optimal start (pos 0 ∷ pos 1 ∷ []) simulcast_rates true false)
    ≡ some (layer 1 1)
unfolding allocate_optimal allocate_video allocate_target only_valid optimal_target choose_target
    start_or_latch opportunistic_target get_available get_max_temporal look_through
    get_optimal_bandwidth_needed get_bandwidth_needed get_distance_to_desired down row_down rate
    update_allocation restrict_temporal set_target_layer resync
optimal_start = refl

-- A track that does not stream gets the lowest layer.
cooperative_start :
    transition_of (provisional_allocate_get_cooperative_transition start false)
    ≡ some (record { from = invalid_layer; to = layer 0 0; bandwidth_delta = pos 100 })
unfolding provisional_allocate_get_cooperative_transition minimal_or_current find_minimal move
    allocate up row_up rate get_bandwidth_needed
cooperative_start = refl

-- One that streams is not raised.
cooperative_streaming :
    transition_of (provisional_allocate_get_cooperative_transition streaming false)
    ≡ some (record { from = layer 0 1; to = layer 0 1; bandwidth_delta = pos 0 })
unfolding provisional_allocate_get_cooperative_transition for_target keep_or_lower move allocate
    down row_down rate
cooperative_streaming = refl

-- The next layer fits in 150, but not in 100.
boost_150 :
    boosted (allocate_next_higher streaming (pos 150) (pos 0 ∷ pos 1 ∷ []) simulcast_rates false)
    ≡ some (layer 1 0, true)
unfolding allocate_next_higher boost boost_to may_overshoot search_between up row_up rate
    get_optimal_bandwidth_needed get_distance_to_desired down row_down update_allocation
    restrict_temporal set_target_layer resync
boost_150 = refl

boost_100 :
    boosted (allocate_next_higher streaming (pos 100) (pos 0 ∷ pos 1 ∷ []) simulcast_rates false)
    ≡ some (invalid_layer, false)
unfolding allocate_next_higher boost may_overshoot search_between up row_up rate
    get_optimal_bandwidth_needed down row_down
boost_100 = refl

next_transition :
    get_next_higher_transition streaming simulcast_rates false
    ≡ some (some (record { from = layer 0 1; to = layer 1 0; bandwidth_delta = pos 150 }))
unfolding get_next_higher_transition may_overshoot search_between up row_up rate
next_transition = refl

streaming-IsSound : IsSound streaming
unfolding IsSound
streaming-IsSound = (omega arith, omega arith, λ h. refl, simulcast_rates-nonnegative)

provisional_allocate_get_cooperative_transition-Cooperates_example :
    Cooperates streaming (provisional_allocate_get_cooperative_transition streaming false)
provisional_allocate_get_cooperative_transition-Cooperates_example =
    provisional_allocate_get_cooperative_transition-Cooperates streaming false refl refl
      streaming-IsSound (λ h. refl)

-- The maximum is compared as a whole: with a maximum of spatial layer 1 and temporal layer 0, a layer
-- of spatial layer 0 and temporal layer 1 is taken.
abbrev capped : State
capped = record start { provisional = record (start.provisional) { max_layer = layer 1 0 } }

abbrev allocated_of : Option (State × Bool × ℤ) → Option VideoLayer
allocated_of none = none
allocated_of (some r) = some r.0.provisional.allocated_layer

above_temporal :
    allocated_of (provisional_allocate capped (pos 200) (layer 0 1) true false) ≡ some (layer 0 1)
unfolding provisional_allocate is_barred allocate_if_fits takes allocate rate
above_temporal = refl

allocate_next_higher-IsRaised_example :
    (r : State × VideoAllocation × Bool) × (allocate_next_higher streaming
        (pos 150)
        (pos 0 ∷ pos 1 ∷ [])
        simulcast_rates
        false
      ≡ some r)
    × IsRaised streaming (pos 150) simulcast_rates r
allocate_next_higher-IsRaised_example =
    allocate_next_higher-IsRaised streaming (pos 150) (pos 0 ∷ pos 1 ∷ []) simulcast_rates
      (omega arith) (omega arith) (inr (0, 1, refl, (omega arith, omega arith)))

-- The quotients as they are in exact arithmetic
abbrev fractions : Float32
fractions = record {
  Value = ℤ × ℤ;
  zero_value = (pos 0, pos 1);
  quotient = λ n d. (n, d);
  greater = λ x y. ltb_ℤ (y.0 *ℤ x.1) (x.0 *ℤ y.1);
  same = λ x y. eqb_ℤ (y.0 *ℤ x.1) (x.0 *ℤ y.1);
}

-- Moving down within the spatial layer saves the most for its cost.
abbrev full : State
full = record start { vls = record (start.vls) { target_layer = layer 1 1 } }

weighted :
    transition_of (provisional_allocate_get_best_weighted_transition fractions full)
    ≡ some (record { from = layer 1 1; to = layer 1 0; bandwidth_delta = negsuc 99 })
unfolding provisional_allocate_get_best_weighted_transition best_transition weigh_rows weigh_row
    weigh better cost columns_down column_down move allocate rate get_bandwidth_needed
weighted = refl

-- ===== src/StreamAllocator/Examples.antt =====
-- Tests of the stream allocator, and the theorems at concrete inputs.
use voicekit.Prelude.{ℕ, true, false, Option, none, some, List, [], ◌∷◌, map, ◌≡◌, refl, arith}
use voicekit.Bitrates.Samples.{simulcast_rates, simulcast_rates-nonnegative}
use voicekit.Prelude.Int.{ℤ, pos, ◌≤ℤ◌}
use voicekit.VideoLayer.{VideoLayer, invalid_layer}
use voicekit.LayerSelector.{new_base}
use voicekit.Bitrates.{
  rate, down, row_down, get_optimal_bandwidth_needed, get_bandwidth_needed, get_distance_to_desired,
}
use voicekit.Forwarder.{
  State, video_allocation_default, update_allocation, restrict_temporal, set_target_layer, resync,
}
use voicekit.Forwarder.Provisional.{
  provisional_allocate_prepare, provisional_allocate, is_barred, allocate_if_fits, takes, allocate,
}
use voicekit.Forwarder.Commit.{
  provisional_allocate_commit, allocated_or_none, commit_case, commit_requested,
}
use voicekit.Forwarder.Fits.{IsSound}
use voicekit.StreamAllocator.{
  Track, allocate_layer, commit_all, allocate_layers, all_layers, prepare_all, allocate_managed,
}
use voicekit.StreamAllocator.Capacity.{AreSound}
use voicekit.StreamAllocator.NoPause.{AreStreaming, allocate_layers-AreStreaming}
use voicekit.StreamAllocator.Requests.{total_requested, allocate_managed-total_requested}

abbrev layer : ℕ → ℕ → VideoLayer
layer s t = record { spatial = pos s; temporal = pos t }

abbrev forwarder : State
forwarder = record {
  is_audio = false;
  is_h264 = false;
  is_overshoot_okay = true;
  muted = false;
  pub_muted = false;
  last_ssrc = 0;
  resume_behind_threshold = 0;
  last_allocation = video_allocation_default;
  provisional = record {
    muted = false;
    pub_muted = false;
    max_seen_layer = invalid_layer;
    available_layers = [];
    bitrates = simulcast_rates;
    max_layer = invalid_layer;
    current_layer = invalid_layer;
    allocated_layer = invalid_layer;
  };
  vls = record new_base { max_layer = layer 1 1; max_seen_layer = layer 1 1 };
}

abbrev track : Track
track = record {
  forwarder = forwarder;
  available_layers = pos 0 ∷ pos 1 ∷ [];
  bitrates = simulcast_rates;
  is_managed = true;
}

abbrev targets : Option (List State) → Option (List VideoLayer)
targets none = none
targets (some fs) = some (map (λ f. f.vls.target_layer) fs)

-- With room for one upper layer, the first of the two tracks gets it.
shared_500 :
    targets (allocate_managed true (pos 500) (track ∷ track ∷ []))
    ≡ some (layer 1 0 ∷ layer 0 1 ∷ [])
unfolding allocate_managed allocate_layers allocate_layer prepare_all commit_all
    provisional_allocate is_barred provisional_allocate_prepare rate allocate_if_fits takes allocate
    get_optimal_bandwidth_needed get_bandwidth_needed get_distance_to_desired down row_down
    provisional_allocate_commit allocated_or_none commit_case commit_requested update_allocation
    restrict_temporal set_target_layer resync
shared_500 = refl

track-IsSound :
    IsSound (provisional_allocate_prepare forwarder (pos 0 ∷ pos 1 ∷ []) simulcast_rates)
unfolding IsSound provisional_allocate_prepare
track-IsSound = (omega arith, omega arith, λ h. absurd (ground arith), simulcast_rates-nonnegative)

tracks-AreSound : AreSound (prepare_all (track ∷ track ∷ []))
unfolding AreSound prepare_all
tracks-AreSound = (track-IsSound, (track-IsSound, tt))

allocate_managed-total_requested_example :
    (fs : List State) × (allocate_managed true (pos 500) (track ∷ track ∷ []) ≡ some fs)
    × (total_requested fs ≤ℤ pos 500)
allocate_managed-total_requested_example =
    allocate_managed-total_requested (track ∷ track ∷ []) (pos 500) (omega arith) tracks-AreSound

-- A channel without room keeps both tracks at the lowest layer.
shared_0 :
    targets (allocate_managed false (pos 0) (track ∷ track ∷ []))
    ≡ some (layer 0 0 ∷ layer 0 0 ∷ [])
unfolding allocate_managed allocate_layers allocate_layer prepare_all commit_all
    provisional_allocate is_barred provisional_allocate_prepare rate allocate_if_fits takes allocate
    get_optimal_bandwidth_needed get_bandwidth_needed get_distance_to_desired down row_down
    provisional_allocate_commit allocated_or_none commit_case commit_requested update_allocation
    restrict_temporal set_target_layer resync
shared_0 = refl

allocate_layers-AreStreaming_example :
    (r : List State × ℤ) × (allocate_layers false all_layers
        (pos 0)
        (prepare_all (track ∷ track ∷ []))
      ≡ some r)
    × AreStreaming all_layers (prepare_all (track ∷ track ∷ [])) r.0
allocate_layers-AreStreaming_example = allocate_layers-AreStreaming (track ∷ track ∷ []) (pos 0)

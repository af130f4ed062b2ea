-- ===== src/Forwarder.antt =====
-- pkg/sfu/forwarder.go: which layer of a track a subscriber's forwarder aims at, and what it lets the
-- stream allocator know of it. A method returns the new state and its results; `none` is a panic. Of
-- the forwarder, the fields that these methods read or write are here; its layer selector is `vls`,
-- and `is_overshoot_okay` tells which kind it is.
pub mod Optimal
pub mod Provisional
pub mod Commit
pub mod Weighted
pub mod Boost
pub mod Fits
pub mod Streams
pub mod Committed
pub mod Cooperate
pub mod Above
pub mod Raised
mod Examples
use voicekit.Prelude.{
  ℕ, Bool, true, false, not, ◌&&◌, ◌||◌, Option, none, some, List, if◌then◌else◌, ◌>>=◌,
}
use voicekit.Prelude.Int.{ℤ, pos, ◌-ℤ◌, eqb_ℤ}
use voicekit.VideoLayer.{VideoLayer, invalid, invalid_layer, is_valid}
use voicekit.LayerSelector.{
  Base, set_target, set_request_spatial, set_current, set_max_spatial, set_max_temporal,
}
use voicekit.Bitrates.{
  Bitrates, Quotient, get_optimal_bandwidth_needed, get_bandwidth_needed, get_distance_to_desired,
}

-- `VideoPauseReason`
pub data PauseReason : Type 0 where
  not_paused : PauseReason
  muted_reason : PauseReason
  pub_muted_reason : PauseReason
  feed_dry : PauseReason
  bandwidth : PauseReason

pub record VideoAllocation : Type 0 where
  pub pause_reason : PauseReason
  pub is_deficient : Bool
  pub bandwidth_requested : ℤ
  pub bandwidth_delta : ℤ
  pub bandwidth_needed : ℤ
  pub bitrates : Bitrates
  pub target_layer : VideoLayer
  pub request_layer_spatial : ℤ
  pub max_layer : VideoLayer
  pub distance_to_desired : Quotient

pub record VideoAllocationProvisional : Type 0 where
  pub muted : Bool
  pub pub_muted : Bool
  pub max_seen_layer : VideoLayer
  pub available_layers : List ℤ
  pub bitrates : Bitrates
  pub max_layer : VideoLayer
  pub current_layer : VideoLayer
  pub allocated_layer : VideoLayer

pub record VideoTransition : Type 0 where
  pub from : VideoLayer
  pub to : VideoLayer
  pub bandwidth_delta : ℤ

-- The threshold is in milliseconds.
pub record State : Type 0 where
  pub is_audio : Bool
  pub is_h264 : Bool
  pub is_overshoot_okay : Bool
  pub muted : Bool
  pub pub_muted : Bool
  pub last_ssrc : ℕ
  pub resume_behind_threshold : ℕ
  pub last_allocation : VideoAllocation
  pub provisional : VideoAllocationProvisional
  pub vls : Base

abbrev pub video_allocation_default : VideoAllocation
video_allocation_default = record {
  pause_reason = feed_dry;
  is_deficient = false;
  bandwidth_requested = pos 0;
  bandwidth_delta = pos 0;
  bandwidth_needed = pos 0;
  bitrates = λ s t. pos 0;
  target_layer = invalid_layer;
  request_layer_spatial = invalid;
  max_layer = invalid_layer;
  distance_to_desired = (pos 0, pos 1);
}

unfoldable pub resync : State → State
resync f = record f {
  vls = set_current f.vls invalid_layer;
  last_ssrc = 0;
  resume_behind_threshold = if f.pub_muted then 200 else f.resume_behind_threshold;
}

unfoldable pub set_target_layer : State → VideoLayer → ℤ → State
set_target_layer f target request = record f {
  vls =
      set_request_spatial (set_target f.vls target) (if is_valid target then request else invalid);
}

-- The target of a codec without temporal layers
unfoldable pub restrict_temporal : State → VideoAllocation → VideoAllocation
restrict_temporal f alloc =
    if is_valid alloc.target_layer && f.is_h264
    then record alloc { target_layer = record (alloc.target_layer) { temporal = pos 0 } }
    else alloc

unfoldable pub update_allocation : State → VideoAllocation → State × VideoAllocation
update_allocation f alloc =
    let last = restrict_temporal f alloc in
    let g =
      set_target_layer (record f { last_allocation = last }) last.target_layer
        last.request_layer_spatial in
    (if is_valid g.vls.target_layer then g else resync g, last)

pub mute : State → Bool → Bool → State × Bool
mute f true is_subscribe_mutable =
    if f.muted || not is_subscribe_mutable
    then (f, false)
    else (resync (record f { muted = true }), true)
mute f false is_subscribe_mutable =
    if f.muted then (record f { muted = false }, true) else (f, false)

pub pub_mute : State → Bool → State × Bool
pub_mute f true = if f.pub_muted then (f, false) else (resync (record f { pub_muted = true }), true)
pub_mute f false = if f.pub_muted then (record f { pub_muted = false }, true) else (f, false)

pub set_max_spatial_layer : State → ℤ → State × Bool × VideoLayer
set_max_spatial_layer f layer =
    if f.is_audio
    then (f, false, invalid_layer)
    else if eqb_ℤ layer f.vls.max_layer.spatial
    then (f, false, f.vls.max_layer)
    else (
      record f { vls = set_max_spatial f.vls layer },
      true,
      (set_max_spatial f.vls layer).max_layer,
    )

pub set_max_temporal_layer : State → ℤ → State × Bool × VideoLayer
set_max_temporal_layer f layer =
    if f.is_audio
    then (f, false, invalid_layer)
    else if eqb_ℤ layer f.vls.max_layer.temporal
    then (f, false, f.vls.max_layer)
    else (
      record f { vls = set_max_temporal f.vls layer },
      true,
      (set_max_temporal f.vls layer).max_layer,
    )

-- What the target needs, with what was requested last for a target that is not measured
abbrev pub bandwidth_of_target : State → Bitrates → Option ℤ
bandwidth_of_target f brs =
    get_bandwidth_needed brs f.vls.target_layer f.last_allocation.bandwidth_requested

abbrev pub optimal_of : State → Bitrates → VideoLayer → Option ℤ
optimal_of f brs layer =
    get_optimal_bandwidth_needed f.muted f.pub_muted f.vls.max_seen_layer.spatial brs layer

abbrev pub distance_of : State → List ℤ → Bitrates → VideoLayer → Option Quotient
distance_of f available brs target =
    get_distance_to_desired f.muted f.pub_muted f.vls.max_seen_layer available brs target
      f.vls.max_layer

-- The allocation of a pause before the cases, with what the target needed before
abbrev pub unallocated : State → Bitrates → ℤ → ℤ → Quotient → VideoAllocation
unallocated f brs optimal before distance = record {
  pause_reason = not_paused;
  is_deficient = false;
  bandwidth_requested = pos 0;
  bandwidth_delta = pos 0 -ℤ before;
  bandwidth_needed = optimal;
  bitrates = brs;
  target_layer = invalid_layer;
  request_layer_spatial = invalid;
  max_layer = f.vls.max_layer;
  distance_to_desired = distance;
}

abbrev pub paused : State → VideoAllocation → VideoAllocation
paused f alloc =
    if f.muted
    then record alloc { pause_reason = muted_reason }
    else if f.pub_muted
    then record alloc { pause_reason = pub_muted_reason }
    else if eqb_ℤ alloc.bandwidth_needed (pos 0)
    then record alloc { pause_reason = feed_dry }
    else record alloc { is_deficient = true; pause_reason = bandwidth }

unfoldable pub pause : State → List ℤ → Bitrates → Option (State × VideoAllocation)
pause f available brs = do
  optimal ← optimal_of f brs f.vls.max_layer
  before ← bandwidth_of_target f brs
  distance ← distance_of f available brs invalid_layer
  some (update_allocation f (paused f (unallocated f brs optimal before distance)))

-- ===== src/Forwarder/Optimal.antt =====
-- pkg/sfu/forwarder.go, AllocateOptimal: the allocation of a track in a channel with room.
use voicekit.Prelude.{
  Bool, false, not, ◌&&◌, ◌||◌, Option, some, List, [], ◌∷◌, if◌then◌else◌, ◌>>=◌,
}
use voicekit.Prelude.Int.{ℤ, pos, ◌-ℤ◌, ltb_ℤ, leb_ℤ, eqb_ℤ, min_ℤ}
use voicekit.VideoLayer.{VideoLayer, invalid, invalid_layer, is_valid}
use voicekit.Bitrates.{Bitrates}
use voicekit.Forwarder.{
  State, VideoAllocation, PauseReason, not_paused, muted_reason, pub_muted_reason, feed_dry,
  update_allocation, bandwidth_of_target, optimal_of, distance_of,
}

-- The highest of the available layers that can be requested, the highest and the lowest of them
pub record Available : Type 0 where
  pub request : ℤ
  pub highest : ℤ
  pub lowest : ℤ

unfoldable pub look_through : ℤ → List ℤ → Available → Available
look_through limit [] a = a
look_through limit (al ∷ rest) a = look_through limit rest (record {
  request = if ltb_ℤ a.request al && leb_ℤ al limit then al else a.request;
  highest = if ltb_ℤ a.highest al then al else a.highest;
  lowest = if eqb_ℤ a.lowest invalid || ltb_ℤ al a.lowest then al else a.lowest;
})

-- `getMaxTemporal`
unfoldable pub get_max_temporal : State → ℤ
get_max_temporal f =
    let seen = f.vls.max_seen_layer.temporal in
    let maximum = f.vls.max_layer.temporal in
    if not (eqb_ℤ seen invalid) && ltb_ℤ seen maximum then seen else maximum

unfoldable pub get_available : State → List ℤ → Bool → Available
get_available f available allow_overshoot =
    let limit = min_ℤ f.vls.max_layer.spatial f.vls.max_seen_layer.spatial in
    let a =
      look_through limit available
        (record { request = invalid; highest = invalid; lowest = invalid }) in
    if eqb_ℤ a.request invalid
      && not (eqb_ℤ a.highest invalid)
      && (allow_overshoot && f.is_overshoot_okay)
    then record a { request = a.highest }
    else a

-- `opportunisticAlloc`
unfoldable pub opportunistic_target : State → Bool → VideoLayer
opportunistic_target f allow_overshoot =
    let seen = f.vls.max_seen_layer.spatial in
    let maximum = f.vls.max_layer.spatial in
    record {
      spatial =
          min_ℤ seen (
            if allow_overshoot && f.is_overshoot_okay && ltb_ℤ maximum seen then seen else maximum);
      temporal = get_max_temporal f;
    }

-- The target and the spatial layer that is requested
unfoldable pub stay_or_switch : State → Available → Bool → VideoLayer × ℤ
stay_or_switch f a hold =
    let current = f.vls.current_layer.spatial in
    let request = f.vls.request_spatial in
    let target =
      if eqb_ℤ a.request request && eqb_ℤ current request || eqb_ℤ a.request invalid
      then record { spatial = current; temporal = get_max_temporal f }
      else if hold
      then record { spatial = a.lowest; temporal = pos 0 }
      else record { spatial = a.request; temporal = get_max_temporal f } in
    (target, target.spatial)

unfoldable pub start_or_latch : State → Available → Bool → Bool → VideoLayer × ℤ
start_or_latch f a allow_overshoot hold =
    let lowest = if eqb_ℤ a.lowest invalid then pos 0 else a.lowest in
    if hold then (record { spatial = lowest; temporal = pos 0 }, lowest) else (
      opportunistic_target f allow_overshoot,
      if eqb_ℤ a.request invalid
          then min_ℤ f.vls.max_layer.spatial f.vls.max_seen_layer.spatial
          else a.request,
    )

unfoldable pub choose_target : State → List ℤ → Bool → Bool → VideoLayer × ℤ
choose_target f available allow_overshoot hold =
    let a = get_available f available allow_overshoot in
    if is_valid f.vls.current_layer
    then stay_or_switch f a hold
    else start_or_latch f a allow_overshoot hold

-- The three cases that leave the target invalid, with the reason of the first that has one, and the
-- default
unfoldable pub optimal_target :
    State → List ℤ → Bool → Bool → PauseReason → PauseReason × VideoLayer × ℤ
optimal_target f available allow_overshoot hold reason =
    let request = f.vls.request_spatial in
    if not (is_valid f.vls.max_layer) || eqb_ℤ f.vls.max_seen_layer.spatial invalid
    then (reason, invalid_layer, request)
    else if f.muted
    then (muted_reason, invalid_layer, request)
    else if f.pub_muted
    then (pub_muted_reason, invalid_layer, request)
    else (let aim = choose_target f available allow_overshoot hold in (reason, aim.0, aim.1))

unfoldable pub only_valid : VideoLayer × ℤ → VideoLayer × ℤ
only_valid (target, request) =
    if is_valid target then (target, request) else (invalid_layer, invalid)

unfoldable pub allocate_target :
    State → List ℤ → Bitrates → PauseReason → VideoLayer × ℤ → ℤ → Option (State × VideoAllocation)
allocate_target f available brs reason (target, request) optimal = do
  requested ← if is_valid target then optimal_of f brs target else some (pos 0)
  before ← bandwidth_of_target f brs
  distance ← distance_of f available brs target
  some (
      update_allocation f (record {
        pause_reason = reason;
        is_deficient = false;
        bandwidth_requested = requested;
        bandwidth_delta = requested -ℤ before;
        bandwidth_needed = optimal;
        bitrates = brs;
        target_layer = target;
        request_layer_spatial = request;
        max_layer = f.vls.max_layer;
        distance_to_desired = distance;
      }))

unfoldable pub allocate_video :
    State → List ℤ → Bitrates → Bool → Bool → Option (State × VideoAllocation)
allocate_video f available brs allow_overshoot hold = do
  optimal ← optimal_of f brs f.vls.max_layer
  let reason = if eqb_ℤ optimal (pos 0) then feed_dry else not_paused
  let aim = optimal_target f available allow_overshoot hold reason
  allocate_target f available brs aim.0 (only_valid (aim.1, aim.2)) optimal

unfoldable pub allocate_optimal :
    State → List ℤ → Bitrates → Bool → Bool → Option (State × VideoAllocation)
allocate_optimal f available brs allow_overshoot hold =
    if f.is_audio
    then some (f, f.last_allocation)
    else allocate_video f available brs allow_overshoot hold

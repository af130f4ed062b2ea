-- ===== src/Forwarder/Boost.antt =====
-- pkg/sfu/forwarder.go: the next higher layer of a track that has less than it needs, to probe for and
-- to take. A search that goes on after a layer looks at those above it.
use voicekit.Prelude.{
  Bool, true, false, not, ◌&&◌, ◌||◌, Option, none, some, List, if◌then◌else◌, ◌>>=◌,
}
use voicekit.Prelude.Int.{ℤ, pos, ◌+ℤ◌, ◌-ℤ◌, ltb_ℤ, leb_ℤ}
use voicekit.VideoLayer.{VideoLayer, default_max_layer, is_valid, greater_than, eqb_layer}
use voicekit.Bitrates.{Quotient, Bitrates, Search, panics, absent, found, or_later, nonzero, lowest}
use voicekit.Forwarder.{
  State, VideoAllocation, VideoTransition, not_paused, update_allocation, optimal_of, distance_of,
}
use voicekit.Forwarder.Provisional.{rate_or_none}

unfoldable pub may_overshoot : State → Bool → Bool
may_overshoot f allow_overshoot = allow_overshoot && f.is_overshoot_okay

-- A higher temporal layer of the target's spatial layer, then a higher spatial layer, then one above
-- the maximum.
unfoldable pub search_between : (ℤ → Bool) → VideoLayer → VideoLayer → Bitrates → Bool → Search
search_between wanted target maximum brs overshoots =
    or_later
      (if is_valid target
        then lowest wanted brs target.spatial target.spatial (target.temporal +ℤ pos 1)
            maximum.temporal
        else absent)
      (or_later
        (lowest wanted brs (target.spatial +ℤ pos 1) maximum.spatial (pos 0) maximum.temporal)
        (if overshoots && is_valid maximum
          then lowest wanted brs (maximum.spatial +ℤ pos 1) default_max_layer.spatial (pos 0)
              default_max_layer.temporal
          else absent))

abbrev pub search_above : (ℤ → Bool) → State → Bitrates → Bool → Search
search_above wanted f brs allow_overshoot =
    search_between wanted f.vls.target_layer f.vls.max_layer brs (may_overshoot f allow_overshoot)

-- The allocation of a layer with its bitrate
abbrev pub boosted : State → Bitrates → ℤ → ℤ → VideoLayer → ℤ → Quotient → VideoAllocation
boosted f brs optimal already v r distance = record {
  pause_reason = not_paused;
  is_deficient = not (greater_than v f.vls.max_layer || leb_ℤ optimal r);
  bandwidth_requested = r;
  bandwidth_delta = r -ℤ already;
  bandwidth_needed = optimal;
  bitrates = brs;
  target_layer = v;
  request_layer_spatial = v.spatial;
  max_layer = f.vls.max_layer;
  distance_to_desired = distance;
}

unfoldable pub boost_to :
    State → List ℤ → Bitrates → ℤ → ℤ → VideoLayer → ℤ → Option (State × VideoAllocation × Bool)
boost_to f available brs optimal already v r = do
  distance ← distance_of f available brs v
  let result = update_allocation f (boosted f brs optimal already v r distance)
  some (result.0, result.1, true)

unfoldable pub boost :
    State → ℤ → List ℤ → Bitrates → Bool → ℤ → ℤ → Search → Option (State × VideoAllocation × Bool)
boost f capacity available brs allow_overshoot optimal already panics = none
boost f capacity available brs allow_overshoot optimal already absent =
    some (f, f.last_allocation, false)
boost f capacity available brs allow_overshoot optimal already (found v r) =
    if not (may_overshoot f allow_overshoot) && ltb_ℤ capacity (r -ℤ already)
    then some (f, f.last_allocation, false)
    else boost_to f available brs optimal already v r

-- Whether the allocation was raised comes last.
unfoldable pub allocate_next_higher :
    State → ℤ → List ℤ → Bitrates → Bool → Option (State × VideoAllocation × Bool)
allocate_next_higher f capacity available brs allow_overshoot =
    if f.is_audio || not f.last_allocation.is_deficient
    then some (f, f.last_allocation, false)
    else (do
      optimal ← optimal_of f brs f.vls.max_layer
      already ← rate_or_none brs f.vls.target_layer
      boost f capacity available brs allow_overshoot optimal already
          (search_above nonzero f brs allow_overshoot))

abbrev transition_to : State → ℤ → Search → Option (Option VideoTransition)
transition_to f already panics = none
transition_to f already absent = some none
transition_to f already (found v r) =
    some (some (record { from = f.vls.target_layer; to = v; bandwidth_delta = r -ℤ already }))

-- The result within is `none` where there is no such transition.
unfoldable pub get_next_higher_transition :
    State → Bitrates → Bool → Option (Option VideoTransition)
get_next_higher_transition f brs allow_overshoot =
    let target = f.vls.target_layer in
    if f.is_audio
      || not f.last_allocation.is_deficient
      || is_valid target && not (eqb_layer target f.vls.current_layer)
    then some none
    else (do
      already ← rate_or_none brs target
      transition_to f already
          (search_above (λ r. nonzero r && leb_ℤ already r) f brs allow_overshoot))

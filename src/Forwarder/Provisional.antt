-- ===== src/Forwarder/Provisional.antt =====
-- pkg/sfu/forwarder.go: the trial of layers by the stream allocator, for a congested channel.
use voicekit.Prelude.{
  Bool, true, false, not, ◌&&◌, ◌||◌, Option, none, some, List, if◌then◌else◌, ◌>>=◌,
}
use voicekit.Prelude.Int.{ℤ, pos, ◌+ℤ◌, ◌-ℤ◌, leb_ℤ, eqb_ℤ}
use voicekit.VideoLayer.{
  VideoLayer, invalid, invalid_layer, default_max_layer, is_valid, greater_than,
}
use voicekit.Bitrates.{Bitrates, Search, panics, absent, found, rate, nonzero, lowest, highest}
use voicekit.Forwarder.{State, VideoTransition, bandwidth_of_target}

unfoldable pub provisional_allocate_prepare : State → List ℤ → Bitrates → State
provisional_allocate_prepare f available brs = record f {
  provisional = record {
    muted = f.muted;
    pub_muted = f.pub_muted;
    max_seen_layer = f.vls.max_seen_layer;
    available_layers = available;
    bitrates = brs;
    max_layer = f.vls.max_layer;
    current_layer = f.vls.current_layer;
    allocated_layer = invalid_layer;
  };
}

unfoldable pub allocate : State → VideoLayer → State
allocate f layer = record f { provisional = record (f.provisional) { allocated_layer = layer } }

abbrev pub provisional_allocate_reset : State → State
provisional_allocate_reset f = allocate f invalid_layer

-- `bitrates[layer.Spatial][layer.Temporal]`, and 0 for no layer
abbrev pub rate_at : Bitrates → VideoLayer → Option ℤ
rate_at brs v = rate brs v.spatial v.temporal

abbrev pub rate_or_none : Bitrates → VideoLayer → Option ℤ
rate_or_none brs v = if is_valid v then rate_at brs v else some (pos 0)

unfoldable pub is_barred : State → VideoLayer → Bool → Bool
is_barred f layer allow_overshoot =
    f.provisional.muted
    || f.provisional.pub_muted
    || eqb_ℤ f.provisional.max_seen_layer.spatial invalid
    || not (is_valid f.provisional.max_layer)
    || ((not allow_overshoot || not f.is_overshoot_okay)
        && greater_than layer f.provisional.max_layer)

-- The two branches that take the layer
unfoldable pub takes : State → VideoLayer → ℤ → ℤ → ℤ → Bool → Bool
takes f layer capacity required already allow_pause =
    (not (greater_than layer f.provisional.max_layer) && leb_ℤ required (capacity +ℤ already))
    || (not allow_pause
        && (not (is_valid f.provisional.allocated_layer)
            || not (greater_than layer f.provisional.allocated_layer)))

unfoldable pub allocate_if_fits : State → ℤ → VideoLayer → Bool → ℤ → Option (State × Bool × ℤ)
allocate_if_fits f capacity layer allow_pause required =
    if nonzero required
    then (do
      already ← rate_or_none f.provisional.bitrates f.provisional.allocated_layer
      some (
          if takes f layer capacity required already allow_pause
          then (allocate f layer, true, required -ℤ already)
          else (f, false, pos 0)))
    else some (f, false, pos 0)

-- Whether the layer was allocated, and the bits per second that it adds
unfoldable pub provisional_allocate :
    State → ℤ → VideoLayer → Bool → Bool → Option (State × Bool × ℤ)
provisional_allocate f capacity layer allow_pause allow_overshoot =
    if is_barred f layer allow_overshoot then some (f, false, pos 0) else (do
      required ← rate_at f.provisional.bitrates layer
      allocate_if_fits f capacity layer allow_pause required)

abbrev pub TransitionResult : Type 0
TransitionResult = State × VideoTransition × List ℤ × Bitrates

-- The allocation of `to`, which needs `needed` more than nothing
unfoldable pub move : State → VideoLayer → ℤ → ℤ → TransitionResult
move f to needed before = (
  allocate f to,
  record { from = f.vls.target_layer; to = to; bandwidth_delta = needed -ℤ before },
  f.provisional.available_layers,
  f.provisional.bitrates,
)

unfoldable pub find_minimal : State → Bool → Search
find_minimal f allow_overshoot =
    let p = f.provisional in
    let within =
      lowest nonzero p.bitrates (pos 0) p.max_layer.spatial (pos 0) p.max_layer.temporal in
    let over =
      lowest nonzero p.bitrates (p.max_layer.spatial +ℤ pos 1) default_max_layer.spatial (pos 0)
        default_max_layer.temporal in
    elim within [
      | absent ↦
          if is_valid p.max_layer && allow_overshoot && f.is_overshoot_okay then over else absent
      | panics ↦ panics
      | found v r ↦ found v r
    ]

-- What remains when the target is not kept: the lowest layer if there is no target, else the current
-- layer.
unfoldable pub minimal_or_current : State → Search → Option TransitionResult
minimal_or_current f panics = none
minimal_or_current f absent = do
  needed ← rate_or_none f.provisional.bitrates f.provisional.current_layer
  before ← bandwidth_of_target f f.provisional.bitrates
  some (move f f.provisional.current_layer needed before)
minimal_or_current f (found v r) = do
  before ← bandwidth_of_target f f.provisional.bitrates
  some (move f v r before)

unfoldable pub keep_or_lower : State → VideoLayer → ℤ → ℤ → Option TransitionResult
keep_or_lower f maximal needed at_target =
    if not (greater_than f.vls.target_layer maximal) && nonzero at_target
    then some (move f f.vls.target_layer (pos 0) (pos 0))
    else if greater_than f.vls.target_layer maximal
    then (do
      before ← bandwidth_of_target f f.provisional.bitrates
      some (move f maximal needed before))
    else minimal_or_current f absent

-- The bitrate of the target is read if the target is not above the highest layer that there is.
unfoldable pub for_target : State → Search → Option TransitionResult
for_target f panics = none
for_target f absent = minimal_or_current f absent
for_target f (found maximal needed) =
    if greater_than f.vls.target_layer maximal then keep_or_lower f maximal needed (pos 0) else (do
      at_target ← rate_at f.provisional.bitrates f.vls.target_layer
      keep_or_lower f maximal needed at_target)

unfoldable pub provisional_allocate_get_cooperative_transition :
    State → Bool → Option TransitionResult
provisional_allocate_get_cooperative_transition f allow_overshoot =
    if f.provisional.muted || f.provisional.pub_muted
    then (do
      before ← bandwidth_of_target f f.provisional.bitrates
      some (move f invalid_layer (pos 0) before))
    else if is_valid f.vls.target_layer
    then for_target f (highest nonzero f.provisional.bitrates f.provisional.max_layer)
    else minimal_or_current f (find_minimal f allow_overshoot)

-- ===== src/Bitrates.antt =====
-- pkg/sfu/forwarder.go, the functions at its end, with buffer.Bitrates: what the layers of a track
-- need. A bitrate is an int64 that is far from the bounds of its type, so that sums are those of the
-- integers. `none` is a panic, an index out of the array.
pub mod Highest
pub mod Distance
pub mod Lowest
pub mod Samples
mod Examples
use voicekit.Prelude.{
  ℕ, zero, suc, Bool, true, false, not, ◌&&◌, ◌||◌, Option, none, some, List, [], ◌∷◌,
  if◌then◌else◌, ◌>>=◌,
}
use voicekit.Prelude.Int.{ℤ, pos, pos_part, ◌+ℤ◌, ◌-ℤ◌, ◌*ℤ◌, ltb_ℤ, leb_ℤ, eqb_ℤ}
use voicekit.VideoLayer.{VideoLayer, invalid, is_valid}

-- `[DefaultMaxLayerSpatial + 1][DefaultMaxLayerTemporal + 1]int64`, of which only the elements at an
-- index in the array are read.
abbrev pub Bitrates : Type 0
Bitrates = ℕ → ℕ → ℤ

abbrev pub in_array : ℤ → ℤ → Bool
in_array s t = leb_ℤ (pos 0) s && ltb_ℤ s (pos 3) && (leb_ℤ (pos 0) t && ltb_ℤ t (pos 4))

-- `brs[s][t]`
unfoldable pub rate : Bitrates → ℤ → ℤ → Option ℤ
rate brs s t = if in_array s t then some (brs (pos_part s) (pos_part t)) else none

abbrev pub nonzero : ℤ → Bool
nonzero r = not (eqb_ℤ r (pos 0))

-- How a search for a bitrate with a property ends.
pub data Search : Type 0 where
  panics : Search
  absent : Search
  found : VideoLayer → ℤ → Search

abbrev pub or_later : Search → Search → Search
or_later panics later = panics
or_later absent later = later
or_later (found v r) later = found v r

abbrev pub look_at : (ℤ → Bool) → ℤ → ℤ → Option ℤ → Search → Search
look_at wanted s t none later = panics
look_at wanted s t (some r) later =
    if wanted r then found (record { spatial = s; temporal = t }) r else later

-- The loops `for t := n - 1; t >= 0; t--` and `for s := n - 1; s >= 0; s--`
unfoldable pub row_down : (ℤ → Bool) → Bitrates → ℕ → ℕ → Search
row_down wanted brs s zero = absent
row_down wanted brs s (suc t) =
    look_at wanted (pos s) (pos t) (rate brs (pos s) (pos t)) (row_down wanted brs s t)

unfoldable pub down : (ℤ → Bool) → Bitrates → ℕ → ℕ → Search
down wanted brs zero m = absent
down wanted brs (suc s) m = or_later (row_down wanted brs s m) (down wanted brs s m)

-- The loops `for t := from; t <= to; t++`, which go round `turns from to` times, and the same for s
unfoldable pub row_up : (ℤ → Bool) → Bitrates → ℤ → ℤ → ℕ → Search
row_up wanted brs s t zero = absent
row_up wanted brs s t (suc n) =
    look_at wanted s t (rate brs s t) (row_up wanted brs s (t +ℤ pos 1) n)

unfoldable pub up : (ℤ → Bool) → Bitrates → ℤ → ℕ → ℤ → ℕ → Search
up wanted brs s zero t m = absent
up wanted brs s (suc n) t m = or_later (row_up wanted brs s t m) (up wanted brs (s +ℤ pos 1) n t m)

abbrev pub turns : ℤ → ℤ → ℕ
turns from to = pos_part (to -ℤ from +ℤ pos 1)

-- The first layer with a wanted bitrate, spatial layers first, from the least and from the greatest
abbrev pub lowest : (ℤ → Bool) → Bitrates → ℤ → ℤ → ℤ → ℤ → Search
lowest wanted brs min_spatial max_spatial min_temporal max_temporal =
    up wanted brs min_spatial (turns min_spatial max_spatial) min_temporal
      (turns min_temporal max_temporal)

abbrev pub highest : (ℤ → Bool) → Bitrates → VideoLayer → Search
highest wanted brs v = down wanted brs (turns (pos 0) v.spatial) (turns (pos 0) v.temporal)

abbrev pub found_rate : Search → Option ℤ
found_rate panics = none
found_rate absent = some (pos 0)
found_rate (found v r) = some r

unfoldable pub get_optimal_bandwidth_needed : Bool → Bool → ℤ → Bitrates → VideoLayer → Option ℤ
get_optimal_bandwidth_needed muted pub_muted max_published_layer brs max_layer =
    if muted || pub_muted || eqb_ℤ max_published_layer invalid
    then some (pos 0)
    else found_rate (highest nonzero brs max_layer)

abbrev pub positive_or : ℤ → ℤ → ℤ
positive_or r fallback = if ltb_ℤ (pos 0) r then r else fallback

unfoldable pub get_bandwidth_needed : Bitrates → VideoLayer → ℤ → Option ℤ
get_bandwidth_needed brs layer fallback =
    if is_valid layer
    then (do r ← rate brs layer.spatial layer.temporal; some (positive_or r fallback))
    else some fallback

-- The float64 n / d
abbrev pub Quotient : Type 0
Quotient = ℤ × ℤ

abbrev pub later_max : ℤ → List ℤ → ℤ × ℤ → ℤ × ℤ
later_max seen_temporal [] best = best
later_max seen_temporal (layer ∷ layers) (s, t) =
    later_max seen_temporal layers (if ltb_ℤ s layer then (layer, seen_temporal) else (s, t))

abbrev pub found_spatial : Search → ℤ
found_spatial (found v r) = v.spatial
found_spatial _ = invalid

-- The search of a row for the highest temporal layer; none has been found before it.
abbrev pub row_temporal : Search → ℤ → Option ℤ
row_temporal panics t = none
row_temporal absent t = some t
row_temporal (found v r) t = some v.temporal

abbrev pub max_temporal_in : Bitrates → ℤ → ℤ → Option ℤ
max_temporal_in brs s t =
    if eqb_ℤ s invalid then some t else row_temporal (row_down nonzero brs (pos_part s) 4) t

abbrev pub at_most : ℤ → ℤ → ℤ
at_most bound n = if ltb_ℤ bound n then bound else n

abbrev pub or_lowest : VideoLayer → VideoLayer
or_lowest v = if is_valid v then v else record { spatial = pos 0; temporal = pos 0 }

abbrev pub distance : VideoLayer → VideoLayer → VideoLayer → Quotient
distance max_seen adjusted_max target =
    let layers = max_seen.temporal +ℤ pos 1 in
    let adjusted_target = or_lowest target in
    let steps =
      (adjusted_max.spatial -ℤ adjusted_target.spatial) *ℤ layers
      +ℤ (adjusted_max.temporal -ℤ adjusted_target.temporal) in
    (if is_valid target then steps else steps +ℤ layers, layers)

-- `adjustedMaxLayer.Spatial` is -1 or more, as its bounds are.
unfoldable pub get_distance_to_desired :
    Bool → Bool → VideoLayer → List ℤ → Bitrates → VideoLayer → VideoLayer → Option Quotient
get_distance_to_desired muted pub_muted max_seen available brs target max_layer =
    if muted || pub_muted || not (is_valid max_seen) || not (is_valid max_layer)
    then some (pos 0, pos 1)
    else (let best =
          later_max max_seen.temporal available (found_spatial (down nonzero brs 3 4), invalid) in
        let s = at_most max_seen.spatial (at_most best.0 max_layer.spatial) in
        do
          t ← max_temporal_in brs s best.1
          some (
              distance max_seen
                (or_lowest (record {
                  spatial = s;
                  temporal = at_most max_seen.temporal (at_most t max_layer.temporal);
                }))
                target))

-- ===== src/Bitrates/Distance.antt =====
-- pkg/sfu/forwarder.go, getBandwidthNeeded and getDistanceToDesired: they index within the array.
use voicekit.Prelude.{
  ℕ, ◌<◌, Bool, true, not, ◌||◌, some, List, ◌≡◌, refl, Bool-cases, inl, inr, arith,
}
use voicekit.Prelude.Int.{ℤ, pos, negsuc, pos_part, ◌≤ℤ◌, eqb_ℤ}
use voicekit.VideoLayer.{VideoLayer, invalid, is_valid}
use voicekit.Bitrates.{
  Bitrates, Quotient, Search, panics, absent, found, in_array, rate, nonzero, row_down,
  get_bandwidth_needed, get_distance_to_desired, row_temporal, max_temporal_in, at_most, later_max,
  found_spatial, down,
}
use voicekit.Bitrates.Highest.{RowAnswer, row_down-RowAnswer}

pub get_bandwidth_needed-some :
    (brs : Bitrates) (v : VideoLayer) (fallback : ℤ)
    → (is_valid v ≡ true → in_array v.spatial v.temporal ≡ true)
    → (r : ℤ) × (get_bandwidth_needed brs v fallback ≡ some r)
unfolding get_bandwidth_needed rate
get_bandwidth_needed-some brs v fallback inside = elim (Bool-cases (is_valid v)) [
  | inl e ↦ rw (e, inside e) (_, refl)
  | inr e ↦ rw e (fallback, refl)
]

row_temporal-some :
    (brs : Bitrates) (s : ℕ) (x : Search) (t : ℤ)
    → RowAnswer nonzero brs s 4 x
    → (r : ℤ) × (row_temporal x t ≡ some r)
unfolding RowAnswer
row_temporal-some brs s panics t a = absurd a
row_temporal-some brs s absent t a = (t, refl)
row_temporal-some brs s (found v r) t a = (v.temporal, refl)

part_small : (s : ℤ) → s ≤ℤ pos 2 → pos_part s < 3
part_small (pos n) h = omega arith
part_small (negsuc n) h = omega arith

max_temporal_in-some :
    (brs : Bitrates) (s t : ℤ) → s ≤ℤ pos 2 → (r : ℤ) × (max_temporal_in brs s t ≡ some r)
max_temporal_in-some brs s t h = elim (Bool-cases (eqb_ℤ s invalid)) [
  | inl e ↦ rw e (t, refl)
  | inr e ↦ rw e (
      row_temporal-some brs (pos_part s) (row_down nonzero brs (pos_part s) 4) t
        (row_down-RowAnswer nonzero brs (pos_part s) 4 (part_small s h) (omega arith)))
]

at_most-le : (a b c : ℤ) → b ≤ℤ c → at_most a b ≤ℤ c
at_most-le a b c h = ground arith

pub get_distance_to_desired-some :
    (muted pub_muted : Bool) (seen : VideoLayer) (available : List ℤ) (brs : Bitrates)
    (target max_layer : VideoLayer)
    → max_layer.spatial ≤ℤ pos 2
    → (q : Quotient) × (get_distance_to_desired muted pub_muted seen available brs target max_layer
        ≡ some q)
unfolding get_distance_to_desired
get_distance_to_desired-some muted pub_muted seen available brs target max_layer h =
    let best = later_max seen.temporal available (found_spatial (down nonzero brs 3 4), invalid) in
    let s = at_most seen.spatial (at_most best.0 max_layer.spatial) in
    let t = max_temporal_in-some brs s best.1 (
      at_most-le seen.spatial (at_most best.0 max_layer.spatial) (pos 2)
        (at_most-le best.0 max_layer.spatial (pos 2) h)) in
    elim (Bool-cases (muted || pub_muted || not (is_valid seen) || not (is_valid max_layer))) [
      | inl e ↦ rw e ((pos 0, pos 1), refl)
      | inr e ↦ rw (e, t.1) (_, refl)
    ]

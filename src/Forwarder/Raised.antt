-- ===== src/Forwarder/Raised.antt =====
-- pkg/sfu/forwarder.go, AllocateNextHigher: what a deficient track is raised to.
use voicekit.Prelude.{
  ℕ, Bool, true, false, not, ◌&&◌, ◌||◌, some, List, ◌≡◌, refl, ◌⊎◌, ◌∙◌, ap, Bool-cases, inl, inr,
  arith, if_either,
}
use mathlib.Core.Path.{subst, sym}
use voicekit.Prelude.Int.{ℤ, pos, ◌-ℤ◌, ◌≤ℤ◌, ltb_ℤ}
use voicekit.VideoLayer.{VideoLayer, is_valid, greater_than}
use voicekit.Bitrates.{Bitrates, Search, panics, absent, found, nonzero}
use voicekit.Bitrates.Highest.{layer_at, get_optimal_bandwidth_needed-some}
use voicekit.Bitrates.Distance.{get_distance_to_desired-some}
use voicekit.Forwarder.{
  State, VideoAllocation, update_allocation, set_target_layer, resync, restrict_temporal,
}
use voicekit.Forwarder.Boost.{
  may_overshoot, search_above, boosted, boost_to, boost, allocate_next_higher,
}
use voicekit.Forwarder.Fits.{element}
use voicekit.Forwarder.Above.{IsLayer, IsAbove, search_above-IsAbove, rate_or_none-IsLayer}

-- Nothing changed, or the allocation was raised to a layer above the target that has bits, and the
-- bits that it adds fit. With a codec that has temporal layers, this layer is the new target.
unfoldable pub IsRaised : State → ℤ → Bitrates → State × VideoAllocation × Bool → Type 0
IsRaised f capacity brs r =
    (r ≡ (f, f.last_allocation, false))
    ⊎ ((v : VideoLayer) × (r.2 ≡ true)
        × (greater_than v f.vls.target_layer ≡ true)
        × (r.1.bandwidth_requested ≡ element brs v)
        × (nonzero r.1.bandwidth_requested ≡ true)
        × (r.1.bandwidth_delta ≤ℤ capacity)
        × (f.is_h264 ≡ false → r.0.vls.target_layer ≡ v))

restrict_temporal-amounts :
    (f : State) (alloc : VideoAllocation)
    → ((restrict_temporal f alloc).bandwidth_requested ≡ alloc.bandwidth_requested)
      × ((restrict_temporal f alloc).bandwidth_delta ≡ alloc.bandwidth_delta)
unfolding restrict_temporal
restrict_temporal-amounts f alloc =
    if_either
      (λ (a : VideoAllocation).
        (a.bandwidth_requested ≡ alloc.bandwidth_requested)
        × (a.bandwidth_delta ≡ alloc.bandwidth_delta))
      (is_valid alloc.target_layer && f.is_h264) (refl, refl) (refl, refl)

restrict_temporal_none :
    (f : State) (alloc : VideoAllocation)
    → f.is_h264 ≡ false
    → (restrict_temporal f alloc).target_layer ≡ alloc.target_layer
unfolding restrict_temporal
restrict_temporal_none f alloc h = elim (Bool-cases (is_valid alloc.target_layer)) [
  | inl e ↦ rw (e, h) refl
  | inr e ↦ rw e refl
]

update_allocation-target :
    (f : State) (alloc : VideoAllocation)
    → (update_allocation f alloc).0.vls.target_layer ≡ (restrict_temporal f alloc).target_layer
unfolding update_allocation set_target_layer resync
update_allocation-target f alloc =
    if_either (λ (g : State). g.vls.target_layer ≡ (restrict_temporal f alloc).target_layer)
      (is_valid (restrict_temporal f alloc).target_layer) refl refl

fits_lem : (a b : ℤ) → ltb_ℤ a b ≡ false → b ≤ℤ a
fits_lem a b h = ground arith

boost_to-IsRaised :
    (f : State) (capacity : ℤ) (available : List ℤ) (brs : Bitrates) (optimal already : ℤ) (i j : ℕ)
    → f.vls.max_layer.spatial ≤ℤ pos 2
    → nonzero (brs i j) ≡ true
    → greater_than (layer_at i j) f.vls.target_layer ≡ true
    → brs i j -ℤ already ≤ℤ capacity
    → (r : State × VideoAllocation × Bool) × (boost_to f available brs optimal already
          (layer_at i j)
          (brs i j)
        ≡ some r)
      × IsRaised f capacity brs r
unfolding boost_to IsRaised update_allocation
boost_to-IsRaised f capacity available brs optimal already i j h wanted above fits =
    let v = layer_at i j in
    let distance =
      get_distance_to_desired-some f.muted f.pub_muted f.vls.max_seen_layer available brs v
        f.vls.max_layer h in
    let alloc = boosted f brs optimal already v (brs i j) distance.0 in
    let amounts = restrict_temporal-amounts f alloc in
    let target = update_allocation-target f alloc in
    rw (distance.1) (
      _,
      refl,
      inr (
        v,
        refl,
        above,
        amounts.0,
        ap nonzero (amounts.0) ∙ wanted,
        subst (λ d. d ≤ℤ capacity) (sym amounts.1) fits,
        λ none_below. target ∙ restrict_temporal_none f alloc none_below,
      ),
    )

unchanged-IsRaised :
    (f : State) (capacity : ℤ) (brs : Bitrates)
    → (r : State × VideoAllocation × Bool) × (some (f, f.last_allocation, false) ≡ some r)
      × IsRaised f capacity brs r
unfolding IsRaised
unchanged-IsRaised f capacity brs = ((f, f.last_allocation, false), refl, inl refl)

boost-IsRaised :
    (f : State) (capacity : ℤ) (available : List ℤ) (brs : Bitrates) (optimal already : ℤ)
    (x : Search)
    → f.vls.max_layer.spatial ≤ℤ pos 2
    → IsAbove nonzero brs f.vls.target_layer x
    → (r : State × VideoAllocation × Bool) × (boost f capacity available brs false optimal already x
        ≡ some r)
      × IsRaised f capacity brs r
unfolding boost may_overshoot IsAbove
boost-IsRaised f capacity available brs optimal already panics h a = absurd a
boost-IsRaised f capacity available brs optimal already absent h a =
    unchanged-IsRaised f capacity brs
boost-IsRaised f capacity available brs optimal already (found v r) h (i, j, e, er, w, above) =
    elim (Bool-cases (ltb_ℤ capacity (r -ℤ already))) [
      | inl k ↦ rw k (unchanged-IsRaised f capacity brs)
      | inr k ↦
          rw (k, e, er)
            (boost_to-IsRaised f capacity available brs optimal already i j h
              (subst (λ b. nonzero b ≡ true) er w)
              (subst (λ u. greater_than u f.vls.target_layer ≡ true) e above)
              (subst (λ b. b -ℤ already ≤ℤ capacity) er (fits_lem capacity (r -ℤ already) k)))
    ]

-- Without overshoot, with a maximum within the layers that there are and a target that is none or
-- one of them, `AllocateNextHigher` ends without a panic. Either it changes nothing, or it raises the
-- track: to a layer above the target that has bits, which it requests, and the bits that it adds are
-- within the capacity. If the codec has temporal layers, that layer is the new target.
pub allocate_next_higher-IsRaised :
    (f : State) (capacity : ℤ) (available : List ℤ) (brs : Bitrates)
    → f.vls.max_layer.spatial ≤ℤ pos 2
    → f.vls.max_layer.temporal ≤ℤ pos 3
    → IsLayer f.vls.target_layer
    → (r : State × VideoAllocation × Bool) × (allocate_next_higher f capacity available brs false
        ≡ some r)
      × IsRaised f capacity brs r
unfolding allocate_next_higher
allocate_next_higher-IsRaised f capacity available brs h k layer =
    let optimal =
      get_optimal_bandwidth_needed-some f.muted f.pub_muted f.vls.max_seen_layer.spatial brs
        f.vls.max_layer h k in
    let already = rate_or_none-IsLayer brs f.vls.target_layer layer in
    elim (Bool-cases (f.is_audio || not f.last_allocation.is_deficient)) [
      | inl e ↦ rw e (unchanged-IsRaised f capacity brs)
      | inr e ↦
          rw (e, optimal.1, already.1)
            (boost-IsRaised f capacity available brs optimal.0 already.0
              (search_above nonzero f brs false) h (search_above-IsAbove f brs h k layer))
    ]

-- ===== src/Forwarder/Cooperate.antt =====
-- pkg/sfu/forwarder.go, ProvisionalAllocateGetCooperativeTransition of a track that streams.
use mathlib.Core.Path.{subst}
use voicekit.Prelude.{
  ℕ, ◌<◌, sym, Bool, true, false, ◌||◌, Option, some, ◌≡◌, refl, ◌⊎◌, inl, inr, Bool-cases,
}
use voicekit.Prelude.Int.{ℤ, pos}
use voicekit.VideoLayer.{VideoLayer, is_valid, greater_than}
use voicekit.Bitrates.{Bitrates, Search, panics, absent, found, nonzero, highest, turns}
use voicekit.Bitrates.Highest.{Answer, IsHighest, layer_at, down-Answer, turns_most}
use voicekit.Bitrates.Distance.{get_bandwidth_needed-some}
use voicekit.Forwarder.{State, VideoTransition, bandwidth_of_target}
use voicekit.Forwarder.Provisional.{
  TransitionResult, allocate, rate_or_none, move, minimal_or_current, keep_or_lower, for_target,
  provisional_allocate_get_cooperative_transition,
}
use voicekit.Forwarder.Fits.{IsInArray, IsSound, element, rate-InArray}

-- The layers up to the maximum, by the number of spatial and of temporal ones
abbrev pub spatials : State → ℕ
spatials f = turns (pos 0) f.provisional.max_layer.spatial

abbrev pub temporals : State → ℕ
temporals f = turns (pos 0) f.provisional.max_layer.temporal

-- The transition, where `highest` is the highest layer up to the maximum that has bits: a target above it
-- is lowered to it; another one is kept, at no cost, if it has bits, and left for the current layer if not.
abbrev pub KeepsOrLowers : State → VideoTransition → VideoLayer → Type 0
KeepsOrLowers f t highest =
    let at_target = element f.provisional.bitrates f.vls.target_layer in
    ((greater_than f.vls.target_layer highest ≡ true) × (t.to ≡ highest))
    ⊎ ((greater_than f.vls.target_layer highest ≡ false)
        × (nonzero at_target ≡ true)
        × (t.to ≡ f.vls.target_layer)
        × (t.bandwidth_delta ≡ pos 0))
    ⊎ ((greater_than f.vls.target_layer highest ≡ false)
        × (nonzero at_target ≡ false)
        × (t.to ≡ f.provisional.current_layer))

-- The highest layer exists, or no layer up to the maximum has bits, and the current layer is taken.
unfoldable pub IsCooperative : State → VideoTransition → Type 0
IsCooperative f tr =
    ((s : ℕ) × (t : ℕ) × IsHighest nonzero f.provisional.bitrates (spatials f) (temporals f) s t
      × KeepsOrLowers f tr (layer_at s t))
    ⊎ (((s t : ℕ) → s < spatials f → t < temporals f → nonzero (f.provisional.bitrates s t) ≡ false)
        × (tr.to ≡ f.provisional.current_layer))

-- A result that is no panic, of which the new layer is allocated
unfoldable pub Cooperates : State → Option TransitionResult → Type 0
Cooperates f o =
    (r : TransitionResult) × (o ≡ some r)
    × (r.0.provisional.allocated_layer ≡ r.1.to)
    × IsCooperative f r.1

rate_or_none-some :
    (brs : Bitrates) (v : VideoLayer)
    → (is_valid v ≡ true → IsInArray v)
    → (r : ℤ) × (rate_or_none brs v ≡ some r)
rate_or_none-some brs v inside = elim (Bool-cases (is_valid v)) [
  | inl e ↦ rw e (element brs v, rate-InArray brs v (inside e))
  | inr e ↦ rw e (pos 0, refl)
]

-- The current layer is none or one of the array.
abbrev pub CurrentInside : State → Type 0
CurrentInside f =
    is_valid f.provisional.current_layer ≡ true → IsInArray f.provisional.current_layer

bandwidth_before :
    (f : State) → IsSound f → (r : ℤ) × (bandwidth_of_target f f.provisional.bitrates ≡ some r)
unfolding IsSound
bandwidth_before f sound =
    get_bandwidth_needed-some f.provisional.bitrates f.vls.target_layer
      f.last_allocation.bandwidth_requested sound.2

-- The transition to the current layer, which makes `IsCooperative` true
current-Cooperates :
    (f : State)
    → IsSound f
    → CurrentInside f
    → ((tr : VideoTransition) → tr.to ≡ f.provisional.current_layer → IsCooperative f tr)
    → Cooperates f (minimal_or_current f absent)
unfolding minimal_or_current Cooperates move allocate
current-Cooperates f sound inside suits =
    let needed = rate_or_none-some f.provisional.bitrates f.provisional.current_layer inside in
    let before = bandwidth_before f sound in
    rw (needed.1, before.1)
      (move f f.provisional.current_layer needed.0 before.0, refl, refl, suits _ refl)

module _ (f : State) (s t : ℕ)
    (highest : IsHighest nonzero f.provisional.bitrates (spatials f) (temporals f) s t) where
  KeepsOrLowers-IsCooperative :
      (tr : VideoTransition) → KeepsOrLowers f tr (layer_at s t) → IsCooperative f tr
  unfolding IsCooperative
  KeepsOrLowers-IsCooperative tr k = inl (s, t, highest, k)

  lowered-Cooperates :
      (needed : ℤ)
      → IsSound f
      → greater_than f.vls.target_layer (layer_at s t) ≡ true
      → Cooperates f (keep_or_lower f (layer_at s t) needed (pos 0))
  unfolding keep_or_lower Cooperates move allocate
  lowered-Cooperates needed sound above =
      let before = bandwidth_before f sound in
      rw (above, before.1)
        (
          move f (layer_at s t) needed before.0,
          refl,
          refl,
          KeepsOrLowers-IsCooperative _ (inl (above, refl)),
        )

  kept-Cooperates :
      (needed : ℤ)
      → IsSound f
      → CurrentInside f
      → greater_than f.vls.target_layer (layer_at s t) ≡ false
      → Cooperates f (
          keep_or_lower f (layer_at s t) needed (element f.provisional.bitrates f.vls.target_layer))
  unfolding keep_or_lower Cooperates move allocate
  kept-Cooperates needed sound inside above =
      elim (Bool-cases (nonzero (element f.provisional.bitrates f.vls.target_layer))) [
        | inl bits ↦
            rw (above, bits)
              (
                move f f.vls.target_layer (pos 0) (pos 0),
                refl,
                refl,
                KeepsOrLowers-IsCooperative _ (inr (inl (above, bits, refl, refl))),
              )
        | inr dry ↦
            rw (above, dry)
              (current-Cooperates f sound inside
                (λ tr e. KeepsOrLowers-IsCooperative tr (inr (inr (above, dry, e)))))
      ]

for_target-Cooperates :
    (f : State) (x : Search)
    → IsSound f
    → (is_valid f.vls.target_layer ≡ true)
    → CurrentInside f
    → Answer nonzero f.provisional.bitrates (spatials f) (temporals f) x
    → Cooperates f (for_target f x)
unfolding Answer for_target IsSound IsCooperative
for_target-Cooperates f panics sound valid inside a = absurd a
for_target-Cooperates f absent sound valid inside a =
    current-Cooperates f sound inside (λ tr e. inr (a, e))
for_target-Cooperates f (found v r) sound valid inside (s, t, e, er, highest) =
    subst (λ w. Cooperates f (for_target f (found w r))) (sym e)
      (elim (Bool-cases (greater_than f.vls.target_layer (layer_at s t))) [
        | inl above ↦ rw above (lowered-Cooperates f s t highest r sound above)
        | inr above ↦
            rw (above, rate-InArray f.provisional.bitrates f.vls.target_layer (sound.2 valid))
              (kept-Cooperates f s t highest r sound inside above)
      ])

-- A track is not muted and has a target, its maximum is within the layers that there are, its target and
-- its current layer are in the array, and no bitrate is negative. Then the transition ends without a panic
-- and allocates its layer. Where a layer up to the maximum has bits: a target above the highest such layer
-- is lowered to it, and another target is kept, at no cost, if it has bits itself. The current layer is
-- taken only where no layer up to the maximum has bits, or where the target is not above the highest one
-- that has and has none itself.
pub provisional_allocate_get_cooperative_transition-Cooperates :
    (f : State) (allow_overshoot : Bool)
    → f.provisional.muted || f.provisional.pub_muted ≡ false
    → is_valid f.vls.target_layer ≡ true
    → IsSound f
    → CurrentInside f
    → Cooperates f (provisional_allocate_get_cooperative_transition f allow_overshoot)
unfolding provisional_allocate_get_cooperative_transition IsSound
provisional_allocate_get_cooperative_transition-Cooperates f allow_overshoot on valid sound inside =
    rw (on, valid)
      (for_target-Cooperates f (highest nonzero f.provisional.bitrates f.provisional.max_layer)
        sound valid inside
        (down-Answer nonzero f.provisional.bitrates (spatials f) (temporals f)
          (turns_most f.provisional.max_layer.spatial 2 sound.0)
          (turns_most f.provisional.max_layer.temporal 3 sound.1)))

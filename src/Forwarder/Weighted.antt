-- ===== src/Forwarder/Weighted.antt =====
-- pkg/sfu/forwarder.go, ProvisionalAllocateGetBestWeightedTransition: how a track can best give bits
-- back. Of float32, there are the quotient of two integers, the zero and the two comparisons.
use voicekit.Prelude.{ℕ, zero, suc, Bool, ◌&&◌, ◌||◌, Option, none, some, if◌then◌else◌, ◌>>=◌}
use voicekit.Prelude.Int.{ℤ, pos, ◌+ℤ◌, ◌-ℤ◌, ◌*ℤ◌, eqb_ℤ, ltb_ℤ, max_ℤ}
use voicekit.VideoLayer.{VideoLayer, invalid_layer}
use voicekit.Bitrates.{
  Bitrates, Search, panics, absent, found, or_later, look_at, rate, nonzero, turns,
}
use voicekit.Forwarder.{State, bandwidth_of_target}
use voicekit.Forwarder.Provisional.{TransitionResult, move}

pub record Float32 : Type 1 where
  pub Value : Type 0
  pub zero_value : Value
  pub quotient : ℤ → ℤ → Value
  pub greater : Value → Value → Bool
  pub same : Value → Value → Bool

-- The search for the highest temporal layer with bits, in any of the spatial layers
unfoldable pub column_down : Bitrates → ℕ → ℕ → Search
column_down brs zero t = absent
column_down brs (suc s) t =
    look_at nonzero (pos s) (pos t) (rate brs (pos s) (pos t)) (column_down brs s t)

unfoldable pub columns_down : Bitrates → ℕ → ℕ → Search
columns_down brs m zero = absent
columns_down brs m (suc t) = or_later (column_down brs m t) (columns_down brs m t)

-- `TransitionCostSpatial`
abbrev pub transition_cost_spatial : ℤ
transition_cost_spatial = pos 10

unfoldable pub cost : VideoLayer → ℤ → ℤ → ℤ → ℤ
cost target reachable s t =
    (if eqb_ℤ target.spatial s then pos 0 else transition_cost_spatial)
    +ℤ ((reachable +ℤ pos 1) *ℤ (target.spatial -ℤ s) +ℤ (target.temporal -ℤ t))

module _ (F : Float32) where
  pub record Best : Type 0 where
    pub layer : VideoLayer
    pub delta : ℤ
    pub value : F.Value

  unfoldable pub better : Best → VideoLayer → ℤ → ℤ → Best
  better best v delta c =
      let value = if eqb_ℤ c (pos 0) then F.zero_value else F.quotient delta c in
      if F.greater value best.value || F.same value best.value && ltb_ℤ best.delta delta
      then record { layer = v; delta = delta; value = value }
      else best

  -- The round for one layer
  unfoldable pub weigh : Bitrates → VideoLayer → ℤ → ℤ → ℤ → ℤ → Best → Option Best
  weigh brs target reachable existing s t best = do
    r ← rate brs s t
    some (
        better best (record { spatial = s; temporal = t }) (max_ℤ (pos 0) (existing -ℤ r))
          (cost target reachable s t))

  -- The loop over t from a start, which ends at the target
  unfoldable pub weigh_row : Bitrates → VideoLayer → ℤ → ℤ → ℤ → ℤ → ℕ → Best → Option Best
  weigh_row brs target reachable existing s t zero best = some best
  weigh_row brs target reachable existing s t (suc n) best =
      if eqb_ℤ s target.spatial && eqb_ℤ t target.temporal then some best else (do
        next ← weigh brs target reachable existing s t best
        weigh_row brs target reachable existing s (t +ℤ pos 1) n next)

  unfoldable pub weigh_rows : Bitrates → VideoLayer → ℤ → ℤ → ℤ → ℕ → Best → Option Best
  weigh_rows brs target reachable existing s zero best = some best
  weigh_rows brs target reachable existing s (suc n) best = do
    next ← weigh_row brs target reachable existing s (pos 0) (turns (pos 0) target.temporal) best
    weigh_rows brs target reachable existing (s +ℤ pos 1) n next

  unfoldable pub best_transition : State → Search → ℤ → Option TransitionResult
  best_transition f panics existing = none
  best_transition f absent existing = some (move f f.provisional.current_layer (pos 0) existing)
  best_transition f (found v r) existing = do
    best ←
        weigh_rows f.provisional.bitrates f.vls.target_layer v.temporal existing (pos 0)
          (turns (pos 0) f.vls.target_layer.spatial)
          (record { layer = invalid_layer; delta = pos 0; value = F.zero_value })
    some (move f best.layer (pos 0) best.delta)

  unfoldable pub provisional_allocate_get_best_weighted_transition : State → Option TransitionResult
  provisional_allocate_get_best_weighted_transition f = do
    existing ← bandwidth_of_target f f.provisional.bitrates
    if f.provisional.muted || f.provisional.pub_muted
        then some (move f invalid_layer (pos 0) existing)
        else best_transition f
            (columns_down f.provisional.bitrates (turns (pos 0) f.provisional.max_layer.spatial)
              (turns (pos 0) f.provisional.max_layer.temporal))
            existing

-- ===== src/LayerSelector/Simulcast.antt =====
-- pkg/sfu/videolayerselector/simulcast.go: when the spatial layer is switched, and how a switch is
-- taken back.
use voicekit.Prelude.{
  Bool, true, false, not, ◌&&◌, ◌||◌, ◌≡◌, ◌≢◌, refl, sym, ap, ◌∙◌, arith, Bool-cases, inl, inr,
}
use voicekit.Prelude.Int.{ℤ, ltb_ℤ, leb_ℤ, eqb_ℤ, eqb_ℤ→eq, eqb_ℤ_refl}
use voicekit.VideoLayer.{is_valid}
use voicekit.LayerSelector.{
  Base, ExtPacket, SelectResult, no_result, switch_to, moves, is_on_way, is_overshot, select_target,
  adjust_overshoot, select_simulcast, rollback,
}

false≢true : false ≢ true
false≢true e = ground arith

not-overshot : (a b : ℤ) (k : Bool) → (ltb_ℤ a b && leb_ℤ b a && k) ≡ false
not-overshot a b k = ground arith

on_way_target :
    (current target : ℤ)
    → eqb_ℤ current target ≡ false
    → ((ltb_ℤ current target && leb_ℤ target target)
        || (ltb_ℤ target current && leb_ℤ target target))
      ≡ true
on_way_target current target h = ground arith

-- The stage that moves towards the target leaves nothing to adjust where it switched.
adjust-switched :
    (s : Base) (pkt : ExtPacket) (layer : ℤ)
    → moves s pkt layer ≡ true
    → adjust_overshoot (select_target s pkt layer) pkt layer ≡ select_target s pkt layer
unfolding adjust_overshoot select_target
adjust-switched s pkt layer h = rw (h, not-overshot s.max_layer.spatial layer pkt.key_frame) refl

abbrev stages : Base → ExtPacket → ℤ → Base × SelectResult
stages s pkt layer = adjust_overshoot (select_target s pkt layer) pkt layer

-- The three outcomes: a move towards the target, a step back, or nothing.
data Outcome (s : Base) (pkt : ExtPacket) (layer : ℤ) : Type 0 where
  moved :
      moves s pkt layer ≡ true
      → stages s pkt layer ≡ (
        switch_to s (record { spatial = layer; temporal = pkt.layer.temporal }),
        record (no_result) { is_switching = true; is_resuming = not (is_valid s.current_layer) },
      )
      → Outcome s pkt layer
  stepped_back :
      is_overshot s pkt layer ≡ true
      → stages s pkt layer ≡ (
        switch_to s (record (s.current_layer) { spatial = layer }),
        record (no_result) { is_switching = true },
      )
      → Outcome s pkt layer
  stayed : moves s pkt layer ≡ false → stages s pkt layer ≡ (s, no_result) → Outcome s pkt layer

outcome : (s : Base) (pkt : ExtPacket) (layer : ℤ) → Outcome s pkt layer
unfolding adjust_overshoot select_target
outcome s pkt layer = elim (Bool-cases (moves s pkt layer)) [
  | inl h ↦ moved h (adjust-switched s pkt layer h ∙ rw h refl)
  | inr h ↦ elim (Bool-cases (is_overshot s pkt layer)) [
    | inl o ↦ stepped_back o (rw h (rw o refl))
    | inr o ↦ stayed h (rw h (rw o refl))
  ]
]

select_simulcast-stages :
    (s : Base) (pkt : ExtPacket) (layer : ℤ)
    → ((select_simulcast s pkt layer).0 ≡ (stages s pkt layer).0)
      × ((select_simulcast s pkt layer).1.is_switching ≡ (stages s pkt layer).1.is_switching)
      × ((select_simulcast s pkt layer).1.is_selected
          ≡ eqb_ℤ layer (stages s pkt layer).0.current_layer.spatial)
unfolding select_simulcast
select_simulcast-stages s pkt layer = (refl, refl, refl)

key_of_moves : (a k b : Bool) → (a && k && b) ≡ true → k ≡ true
key_of_moves true true b h = refl
key_of_moves true false b h = h
key_of_moves false k b h = absurd (ground arith)

key_of_overshot : (a b k : Bool) → (a && b && k) ≡ true → k ≡ true
key_of_overshot true true k h = h
key_of_overshot true false k h = absurd (ground arith)
key_of_overshot false b k h = absurd (ground arith)

-- A packet on which the selector switches is of a key frame, and `Rollback` after it gives back the
-- current and the target layer from before.
pub rollback-select_simulcast :
    (s : Base) (pkt : ExtPacket) (layer : ℤ)
    → (select_simulcast s pkt layer).1.is_switching ≡ true
    → let s' = rollback (select_simulcast s pkt layer).0 in
      (pkt.key_frame ≡ true)
      × (s'.current_layer ≡ s.current_layer)
      × (s'.target_layer ≡ s.target_layer)
unfolding rollback
rollback-select_simulcast s pkt layer h =
    let (state, switching, _) = select_simulcast-stages s pkt layer in
    elim (outcome s pkt layer) [
      | moved m e ↦ (
        key_of_moves _ pkt.key_frame (is_on_way s layer) m,
        ap (λ b. b.previous_layer) (state ∙ ap (λ r. r.0) e),
        ap (λ b. b.previous_target_layer) (state ∙ ap (λ r. r.0) e),
      )
      | stepped_back o e ↦ (
        key_of_overshot (ltb_ℤ s.max_layer.spatial s.current_layer.spatial)
            (leb_ℤ layer s.max_layer.spatial) pkt.key_frame o,
        ap (λ b. b.previous_layer) (state ∙ ap (λ r. r.0) e),
        ap (λ b. b.previous_target_layer) (state ∙ ap (λ r. r.0) e),
      )
      | stayed n e ↦ absurd (false≢true (sym (ap (λ r. r.1.is_switching) e) ∙ sym switching ∙ h))
    ]

-- A key frame of the target's spatial layer locks the selector to it: whatever the current layer
-- was, it is the packet's spatial layer after, and the packet is selected.
pub select_simulcast-locks :
    (s : Base) (pkt : ExtPacket)
    → pkt.key_frame ≡ true
    → let (s', result) = select_simulcast s pkt s.target_layer.spatial in
      (s'.current_layer.spatial ≡ s.target_layer.spatial) × (result.is_selected ≡ true)
select_simulcast-locks s pkt key =
    let layer = s.target_layer.spatial in
    let (state, _, selected) = select_simulcast-stages s pkt layer in
    let locked : (stages s pkt layer).0.current_layer.spatial ≡ layer = elim (outcome s pkt layer) [
      | moved m e ↦ ap (λ r. r.0.current_layer.spatial) e
      | stepped_back o e ↦ ap (λ r. r.0.current_layer.spatial) e
      | stayed n e ↦ ap (λ r. r.0.current_layer.spatial) e ∙ stays s pkt key n
    ] in
    (
      ap (λ b. b.current_layer.spatial) state ∙ locked,
      selected ∙ ap (eqb_ℤ layer) locked ∙ eqb_ℤ_refl layer,
    )
  where
    stays :
        (s : Base) (pkt : ExtPacket)
        → pkt.key_frame ≡ true
        → moves s pkt s.target_layer.spatial ≡ false
        → s.current_layer.spatial ≡ s.target_layer.spatial
    stays s pkt key n = elim (Bool-cases (eqb_ℤ s.current_layer.spatial s.target_layer.spatial)) [
      | inl e ↦ eqb_ℤ→eq s.current_layer.spatial s.target_layer.spatial e
      | inr e ↦ absurd (
          false≢true
            (sym n ∙ rw (e, key) (on_way_target s.current_layer.spatial s.target_layer.spatial e)))
    ]

-- Without a key frame the selector stays as it is, and selects the packets of its current layer.
pub select_simulcast-between :
    (s : Base) (pkt : ExtPacket) (layer : ℤ)
    → pkt.key_frame ≡ false
    → let (s', result) = select_simulcast s pkt layer in
      (s' ≡ s) × (result.is_selected ≡ eqb_ℤ layer s.current_layer.spatial)
select_simulcast-between s pkt layer key =
    let (state, _, selected) = select_simulcast-stages s pkt layer in
    elim (outcome s pkt layer) [
      | moved m e ↦
          absurd (false≢true (sym key ∙ key_of_moves _ pkt.key_frame (is_on_way s layer) m))
      | stepped_back o e ↦ absurd (
          false≢true (
            sym key
            ∙ key_of_overshot (ltb_ℤ s.max_layer.spatial s.current_layer.spatial)
                (leb_ℤ layer s.max_layer.spatial) pkt.key_frame o))
      | stayed n e ↦
          (state ∙ ap (λ r. r.0) e, selected ∙ ap (λ r. eqb_ℤ layer r.0.current_layer.spatial) e)
    ]

-- ===== src/LayerSelector/Examples.antt =====
-- Concrete packets, and the theorems at concrete inputs.
use voicekit.Prelude.{Bool, true, false, ◌≡◌, refl}
use voicekit.Prelude.Int.{ℤ, pos, leb_ℤ}
use voicekit.VideoLayer.{VideoLayer}
use voicekit.LayerSelector.{
  Base, ExtPacket, Payload, vp8, vp9, Vp9, new_base, set_target, set_max, rollback, select_target,
  adjust_overshoot, select_simulcast, select_vp9, select_temporal,
}
use voicekit.LayerSelector.Simulcast.{rollback-select_simulcast, select_simulcast-locks}
use voicekit.LayerSelector.Within.{IsWithin, select-IsWithin, select_vp9-resume}

abbrev at : ℤ → ℤ → VideoLayer
at s t = record { spatial = s; temporal = t }

abbrev packet : Payload → ℤ → ℤ → Bool → ExtPacket
packet p s t key = record { payload = p; layer = at s t; key_frame = key; marker = false }

-- Layer 0 is current, layer 2 wanted.
abbrev upgrading : Base
upgrading = record (set_target (set_max new_base (at (pos 2) (pos 3))) (at (pos 2) (pos 3))) {
  current_layer = at (pos 0) (pos 3);
}

switches :
    (select_simulcast upgrading (packet (vp8 true) (pos 1) (pos 0) true) (pos 1)).1.is_switching
    ≡ true
unfolding select_simulcast select_target adjust_overshoot
switches = refl

rollback-select_simulcast_example :
    let pkt = packet (vp8 true) (pos 1) (pos 0) true in
    let s' = rollback (select_simulcast upgrading pkt (pos 1)).0 in
    (pkt.key_frame ≡ true)
    × (s'.current_layer ≡ at (pos 0) (pos 3))
    × (s'.target_layer ≡ at (pos 2) (pos 3))
rollback-select_simulcast_example =
    rollback-select_simulcast upgrading (packet (vp8 true) (pos 1) (pos 0) true) (pos 1) switches

select_simulcast-locks_example :
    let (s', result) =
      select_simulcast upgrading (packet (vp8 true) (pos 2) (pos 0) true) (pos 2) in
    (s'.current_layer.spatial ≡ pos 2) × (result.is_selected ≡ true)
select_simulcast-locks_example =
    select_simulcast-locks upgrading (packet (vp8 true) (pos 2) (pos 0) true) refl

select-IsWithin_example :
    let pkt = packet (vp8 true) (pos 1) (pos 0) false in
    let s9 = (select_vp9 upgrading pkt).0 in
    let (s8, this) = select_temporal upgrading pkt in
    IsWithin s9.current_layer s9.target_layer
    × IsWithin s8.current_layer s8.target_layer
    × (leb_ℤ this (pos 3) ≡ true)
select-IsWithin_example =
    select-IsWithin upgrading (packet (vp8 true) (pos 1) (pos 0) false) refl (refl, refl)

abbrev starting : Base
starting = set_target (set_max new_base (at (pos 2) (pos 3))) (at (pos 2) (pos 3))

abbrev inter : Vp9
inter = record { u = false; b = true; e = false; p = false }

select_vp9-resume_example :
    let (s', result) = select_vp9 starting (packet (vp9 inter) (pos 0) (pos 0) true) in
    (s'.current_layer ≡ at (pos 0) (pos 0))
    × (result.is_switching ≡ true)
    × (result.is_resuming ≡ true)
    × (result.is_selected ≡ false)
select_vp9-resume_example =
    select_vp9-resume starting (packet (vp9 inter) (pos 0) (pos 0) true) inter 0 0 2 (pos 3) refl
      refl refl refl refl

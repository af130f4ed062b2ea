-- ===== src/LayerSelector/Within.antt =====
-- pkg/sfu/videolayerselector/vp9.go and base.go: layers that stay within the target, and the start
-- of a VP9 stream.
use voicekit.Prelude.{
  ℕ, Bool, true, false, not, ◌&&◌, ◌≡◌, refl, ap, ◌∙◌, arith, Bool-cases, inl, inr,
}
use mathlib.Core.Path.{subst, sym}
use voicekit.Prelude.Int.{ℤ, pos, leb_ℤ, eqb_ℤ}
use voicekit.VideoLayer.{VideoLayer, invalid, invalid_layer, is_valid, eqb_layer, greater_than}
use voicekit.LayerSelector.{
  Base, ExtPacket, Payload, vp8, vp9, other, Vp9, scale, scaled, vp9_result, select_vp9,
  select_vp9_payload, select_temporal, select_vp8,
}

-- Both components are at most those of the target.
abbrev pub IsWithin : VideoLayer → VideoLayer → Type 0
IsWithin v target =
    (leb_ℤ v.spatial target.spatial ≡ true) × (leb_ℤ v.temporal target.temporal ≡ true)

scale_within :
    (can_raise can_lower : Bool) (pkt current target : ℤ)
    → leb_ℤ current target ≡ true
    → (leb_ℤ (scale can_raise can_lower pkt current target).0 target ≡ true)
      × (leb_ℤ (scale can_raise can_lower pkt current target).1 target ≡ true)
scale_within true can_lower pkt current target h = ground arith
scale_within false can_lower pkt current target h = ground arith

vp9_result-current :
    (s : Base) (pkt : ExtPacket) (v : Vp9) (current updated : VideoLayer)
    → IsWithin s.current_layer s.target_layer
    → IsWithin updated s.target_layer
    → IsWithin
        (vp9_result s pkt v (current, updated)).0.current_layer
        (vp9_result s pkt v (current, updated)).0.target_layer
unfolding vp9_result
vp9_result-current s pkt v current updated h k =
    elim (Bool-cases (eqb_layer updated s.current_layer)) [ inl e ↦ rw e h | inr e ↦ rw e k ]

select_vp9_payload-IsWithin :
    (s : Base) (pkt : ExtPacket) (p : Payload)
    → is_valid s.current_layer ≡ true
    → IsWithin s.current_layer s.target_layer
    → IsWithin
        (select_vp9_payload s pkt p).0.current_layer
        (select_vp9_payload s pkt p).0.target_layer
unfolding scaled
select_vp9_payload-IsWithin s pkt (vp8 starts) valid h = h
select_vp9_payload-IsWithin s pkt other valid h = h
select_vp9_payload-IsWithin s pkt (vp9 v) valid h =
    elim (Bool-cases (eqb_layer s.current_layer s.target_layer)) [
      | inl e ↦ rw e (vp9_result-current s pkt v s.current_layer s.current_layer h h)
      | inr e ↦
          let temporal =
            scale_within (v.u && v.b) v.e pkt.layer.temporal s.current_layer.temporal
              s.target_layer.temporal h.1 in
          let spatial =
            scale_within (not v.p && v.b) v.e pkt.layer.spatial s.current_layer.spatial
              s.target_layer.spatial h.0 in
          rw (e, valid)
            (vp9_result-current s pkt v (scaled s pkt v).0 (scaled s pkt v).1 h
              (spatial.1, temporal.1))
    ]

select_vp8-le :
    (p : Payload) (marker : Bool) (tid current target : ℤ)
    → leb_ℤ current target ≡ true
    → (leb_ℤ (select_vp8 p marker tid current target).0 target ≡ true)
      × (leb_ℤ (select_vp8 p marker tid current target).1 target ≡ true)
select_vp8-le (vp8 true) marker tid current target h = ground arith
select_vp8-le (vp8 false) marker tid current target h = ground arith
select_vp8-le (vp9 v) marker tid current target h = (h, h)
select_vp8-le other marker tid current target h = (h, h)

select_temporal-IsWithin :
    (s : Base) (pkt : ExtPacket)
    → IsWithin s.current_layer s.target_layer
    → let (s', this) = select_temporal s pkt in
      IsWithin s'.current_layer s'.target_layer × (leb_ℤ this s.target_layer.temporal ≡ true)
unfolding select_temporal
select_temporal-IsWithin s pkt h = elim (Bool-cases s.has_tls) [
  | inl e ↦
      let (this, next) =
        select_vp8-le pkt.payload pkt.marker pkt.layer.temporal s.current_layer.temporal
          s.target_layer.temporal h.1 in
      simp e ((h.0, next), this)
  | inr e ↦ simp e (h, h.1)
]

-- Once a valid current layer is within the target, in both components, the VP9 selector and the VP8
-- temporal selector keep it there on every packet; the temporal layer that the latter returns for
-- the packet is within the target too.
pub select-IsWithin :
    (s : Base) (pkt : ExtPacket)
    → is_valid s.current_layer ≡ true
    → IsWithin s.current_layer s.target_layer
    → let s9 = (select_vp9 s pkt).0 in
      let (s8, this) = select_temporal s pkt in
      IsWithin s9.current_layer s9.target_layer
      × IsWithin s8.current_layer s8.target_layer
      × (leb_ℤ this s.target_layer.temporal ≡ true)
unfolding select_vp9
select-IsWithin s pkt valid h =
    let (within, this) = select_temporal-IsWithin s pkt h in
    (select_vp9_payload-IsWithin s pkt pkt.payload valid h, within, this)

eqb_pos_invalid : (a : ℕ) → eqb_ℤ (pos a) invalid ≡ false
eqb_pos_invalid a = ground arith

eqb_invalid_pos : (a : ℕ) → eqb_ℤ invalid (pos a) ≡ false
eqb_invalid_pos a = ground arith

layer_facts :
    (v current : VideoLayer) (a b : ℕ)
    → current ≡ invalid_layer
    → v ≡ record { spatial = pos a; temporal = pos b }
    → (is_valid v ≡ true) × (eqb_layer v current ≡ false) × (greater_than v current ≡ true)
layer_facts v current a b e h =
    rw (e, h) (rw (eqb_pos_invalid a, eqb_pos_invalid b) (refl, refl, ground arith))

vp9_result-resume :
    (s : Base) (pkt : ExtPacket) (v : Vp9) (a b : ℕ)
    → s.current_layer ≡ invalid_layer
    → pkt.layer ≡ record { spatial = pos a; temporal = pos b }
    → let (s', result) = vp9_result s pkt v (s.current_layer, pkt.layer) in
      (s'.current_layer ≡ pkt.layer)
      × (result.is_switching ≡ true)
      × (result.is_resuming ≡ true)
      × (result.is_selected ≡ false)
unfolding vp9_result
vp9_result-resume s pkt v a b cur lay =
    let (valid, differs, greater) = layer_facts pkt.layer s.current_layer a b cur lay in
    let none : is_valid s.current_layer ≡ false = ap is_valid cur in
    rw (differs, valid, greater, none) (refl, refl, refl, refl)

-- A VP9 stream that starts, or starts again, on a key frame is switched to on that packet, and the
-- packet itself is not selected: it is compared with the layer from before, which is none.
pub select_vp9-resume :
    (s : Base) (pkt : ExtPacket) (v : Vp9) (a b c : ℕ) (t : ℤ)
    → pkt.payload ≡ vp9 v
    → s.current_layer ≡ invalid_layer
    → s.target_layer ≡ record { spatial = pos c; temporal = t }
    → pkt.key_frame ≡ true
    → pkt.layer ≡ record { spatial = pos a; temporal = pos b }
    → let (s', result) = select_vp9 s pkt in
      (s'.current_layer ≡ pkt.layer)
      × (result.is_switching ≡ true)
      × (result.is_resuming ≡ true)
      × (result.is_selected ≡ false)
unfolding select_vp9
select_vp9-resume s pkt v a b c t e cur tgt key lay =
    let differs : eqb_layer s.current_layer s.target_layer ≡ false =
      ap (λ l. eqb_layer l s.target_layer) cur
      ∙ ap (eqb_layer invalid_layer) tgt
      ∙ ap (λ (b : Bool). b && eqb_ℤ invalid t) (eqb_invalid_pos c) in
    let none : is_valid s.current_layer ≡ false = ap is_valid cur in
    let result : select_vp9_payload s pkt pkt.payload
        ≡ vp9_result s pkt v (s.current_layer, pkt.layer) =
      ap (select_vp9_payload s pkt) e ∙ simp (differs, none, key) in
    subst
      (λ r.
        (r.0.current_layer ≡ pkt.layer)
        × (r.1.is_switching ≡ true)
        × (r.1.is_resuming ≡ true)
        × (r.1.is_selected ≡ false))
      (sym result) (vp9_result-resume s pkt v a b cur lay)

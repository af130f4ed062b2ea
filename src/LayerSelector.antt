-- ===== src/LayerSelector.antt =====
-- pkg/sfu/videolayerselector: base.go, simulcast.go and vp9.go, with temporallayerselector/vp8.go:
-- which packets of a layered video stream a subscriber gets. A selector is its Base; the methods that
-- change it return the new one.
pub mod Simulcast
pub mod Within
mod Examples
use voicekit.Prelude.{Bool, true, false, not, ◌&&◌, ◌||◌, if◌then◌else◌}
use voicekit.Prelude.Int.{ℤ, ltb_ℤ, leb_ℤ, eqb_ℤ}
use voicekit.VideoLayer.{VideoLayer, invalid, invalid_layer, greater_than, is_valid, eqb_layer}

-- The fields of a VP9 descriptor that are read: a switching point, the start and the end of a frame,
-- and whether the frame depends on an earlier one.
pub record Vp9 : Type 0 where
  pub u : Bool
  pub b : Bool
  pub e : Bool
  pub p : Bool

-- What the payload was parsed to; of a VP8 descriptor, S is read.
pub data Payload : Type 0 where
  vp8 : Bool → Payload
  vp9 : Vp9 → Payload
  other : Payload

-- The fields of buffer.ExtPacket that are read; its temporal layer is that of `layer`.
pub record ExtPacket : Type 0 where
  pub payload : Payload
  pub layer : VideoLayer
  pub key_frame : Bool
  pub marker : Bool

-- `has_tls` tells whether there is a temporal layer selector, which is that of VP8.
pub record Base : Type 0 where
  pub has_tls : Bool
  pub max_layer : VideoLayer
  pub max_seen_layer : VideoLayer
  pub target_layer : VideoLayer
  pub previous_target_layer : VideoLayer
  pub request_spatial : ℤ
  pub current_layer : VideoLayer
  pub previous_layer : VideoLayer

abbrev pub new_base : Base
new_base = record {
  has_tls = false;
  max_layer = invalid_layer;
  max_seen_layer = invalid_layer;
  target_layer = invalid_layer;
  previous_target_layer = invalid_layer;
  request_spatial = invalid;
  current_layer = invalid_layer;
  previous_layer = invalid_layer;
}

abbrev pub set_target : Base → VideoLayer → Base
set_target s target_layer = record s {
  previous_target_layer = target_layer;
  target_layer = target_layer;
}

abbrev pub set_max : Base → VideoLayer → Base
set_max s max_layer = record s { max_layer = max_layer }

abbrev pub set_max_spatial : Base → ℤ → Base
set_max_spatial s layer = record s { max_layer = record (s.max_layer) { spatial = layer } }

abbrev pub set_max_temporal : Base → ℤ → Base
set_max_temporal s layer = record s { max_layer = record (s.max_layer) { temporal = layer } }

abbrev pub set_request_spatial : Base → ℤ → Base
set_request_spatial s layer = record s { request_spatial = layer }

abbrev pub set_max_seen_spatial : Base → ℤ → Base
set_max_seen_spatial s layer = record s {
  max_seen_layer = record (s.max_seen_layer) { spatial = layer };
}

abbrev pub set_max_seen_temporal : Base → ℤ → Base
set_max_seen_temporal s layer = record s {
  max_seen_layer = record (s.max_seen_layer) { temporal = layer };
}

abbrev pub set_max_seen : Base → VideoLayer → Base
set_max_seen s max_seen_layer = record s { max_seen_layer = max_seen_layer }

abbrev pub set_current : Base → VideoLayer → Base
set_current s current_layer = record s { current_layer = current_layer }

-- Whether the stream is in sync, and the layer that is asked for.
abbrev pub check_sync : Base → Bool × ℤ
check_sync s = (eqb_ℤ s.request_spatial s.current_layer.spatial, s.request_spatial)

pub rollback : Base → Base
rollback s = record s { current_layer = s.previous_layer; target_layer = s.previous_target_layer }

-- The temporal layer of this packet and that of the next ones.
abbrev pub select_vp8_tid : Bool → Bool → ℤ → ℤ → ℤ → ℤ × ℤ
select_vp8_tid starts marker tid current target =
    if eqb_ℤ current target
    then (current, current)
    else if ltb_ℤ current target
    then if ltb_ℤ current tid && leb_ℤ tid target && starts then (tid, tid) else (current, current)
    else if marker
    then (current, target)
    else (current, current)

abbrev pub select_vp8 : Payload → Bool → ℤ → ℤ → ℤ → ℤ × ℤ
select_vp8 (vp8 starts) marker tid current target = select_vp8_tid starts marker tid current target
select_vp8 (vp9 p) marker tid current target = (current, current)
select_vp8 other marker tid current target = (current, current)

unfoldable pub select_temporal : Base → ExtPacket → Base × ℤ
select_temporal s pkt =
    if s.has_tls
    then (let (this, next) =
          select_vp8 pkt.payload pkt.marker pkt.layer.temporal s.current_layer.temporal
            s.target_layer.temporal in
        (record s { current_layer = record (s.current_layer) { temporal = next } }, this))
    else (s, s.current_layer.temporal)

pub record SelectResult : Type 0 where
  pub is_selected : Bool
  pub is_relevant : Bool
  pub is_switching : Bool
  pub is_resuming : Bool
  pub rtp_marker : Bool

abbrev pub no_result : SelectResult
no_result = record {
  is_selected = false;
  is_relevant = false;
  is_switching = false;
  is_resuming = false;
  rtp_marker = false;
}

-- Whether the target follows the layer that is switched to.
abbrev pub is_top : Base → ℤ → Bool
is_top s spatial = leb_ℤ s.max_layer.spatial spatial || eqb_ℤ spatial s.max_seen_layer.spatial

-- The state after a switch to a spatial layer.
abbrev pub switch_to : Base → VideoLayer → Base
switch_to s layer = record s {
  previous_layer = s.current_layer;
  current_layer = layer;
  previous_target_layer = s.target_layer;
  target_layer =
      if is_top s layer.spatial
      then record (s.target_layer) { spatial = layer.spatial }
      else s.target_layer;
}

-- Towards the target, on a key frame of a layer on the way.
abbrev pub is_on_way : Base → ℤ → Bool
is_on_way s layer =
    (ltb_ℤ s.current_layer.spatial layer && leb_ℤ layer s.target_layer.spatial)
    || (ltb_ℤ layer s.current_layer.spatial && leb_ℤ s.target_layer.spatial layer)

abbrev pub moves : Base → ExtPacket → ℤ → Bool
moves s pkt layer =
    not (eqb_ℤ s.current_layer.spatial s.target_layer.spatial) && pkt.key_frame && is_on_way s layer

unfoldable pub select_target : Base → ExtPacket → ℤ → Base × SelectResult
select_target s pkt layer =
    if moves s pkt layer
    then (
      switch_to s (record { spatial = layer; temporal = pkt.layer.temporal }),
      record (no_result) { is_switching = true; is_resuming = not (is_valid s.current_layer) },
    )
    else (s, no_result)

-- Back from a layer above the highest one that is wanted.
abbrev pub is_overshot : Base → ExtPacket → ℤ → Bool
is_overshot s pkt layer =
    ltb_ℤ s.max_layer.spatial s.current_layer.spatial
    && leb_ℤ layer s.max_layer.spatial
    && pkt.key_frame

unfoldable pub adjust_overshoot : Base × SelectResult → ExtPacket → ℤ → Base × SelectResult
adjust_overshoot (s, result) pkt layer =
    if is_overshot s pkt layer
    then (
      switch_to s (record (s.current_layer) { spatial = layer }),
      record result { is_switching = true },
    )
    else (s, result)

unfoldable pub select_simulcast : Base → ExtPacket → ℤ → Base × SelectResult
select_simulcast s pkt layer =
    let (s', result) = adjust_overshoot (select_target s pkt layer) pkt layer in
    (
      s',
      record result {
        rtp_marker = pkt.marker;
        is_selected = eqb_ℤ layer s'.current_layer.spatial;
        is_relevant = false;
      },
    )

-- A component of the layer for this packet, and for the next ones, where the current one is valid:
-- `can_raise` and `can_lower` are the conditions of the packet.
abbrev pub scale : Bool → Bool → ℤ → ℤ → ℤ → ℤ × ℤ
scale can_raise can_lower pkt current target =
    if eqb_ℤ current target
    then (current, current)
    else if ltb_ℤ current target
    then if ltb_ℤ current pkt && leb_ℤ pkt target && can_raise
      then (pkt, pkt)
      else (current, current)
    else if can_lower
    then (current, target)
    else (current, current)

-- The layer for this packet, and for the next ones.
pub scaled : Base → ExtPacket → Vp9 → VideoLayer × VideoLayer
scaled s pkt v =
    let (temporal, next_temporal) =
      scale (v.u && v.b) v.e pkt.layer.temporal s.current_layer.temporal s.target_layer.temporal in
    let (spatial, next_spatial) =
      scale (not v.p && v.b) v.e pkt.layer.spatial s.current_layer.spatial s.target_layer.spatial in
    (
      record { spatial = spatial; temporal = temporal },
      record { spatial = next_spatial; temporal = next_temporal },
    )

-- The outcome, by the layer for this packet and the one for the next ones.
pub vp9_result : Base → ExtPacket → Vp9 → VideoLayer × VideoLayer → Base × SelectResult
vp9_result s pkt v (current, updated) =
    let switches = not (eqb_layer updated s.current_layer) in
    let s' =
      if switches
      then record s { previous_layer = s.current_layer; current_layer = updated }
      else s in
    (
      s',
      record {
        is_selected = not (greater_than pkt.layer current);
        is_relevant = true;
        is_switching = switches;
        is_resuming = switches && not (is_valid s.current_layer) && is_valid updated;
        rtp_marker =
            pkt.marker
            || (v.e
                && eqb_ℤ pkt.layer.spatial current.spatial
                && (v.p || leb_ℤ s'.target_layer.spatial s'.current_layer.spatial));
      },
    )

abbrev pub select_vp9_payload : Base → ExtPacket → Payload → Base × SelectResult
select_vp9_payload s pkt (vp8 starts) = (s, no_result)
select_vp9_payload s pkt other = (s, no_result)
select_vp9_payload s pkt (vp9 v) =
    if eqb_layer s.current_layer s.target_layer
    then vp9_result s pkt v (s.current_layer, s.current_layer)
    else if is_valid s.current_layer
    then vp9_result s pkt v (scaled s pkt v)
    else if pkt.key_frame
    then vp9_result s pkt v (s.current_layer, pkt.layer)
    else (s, no_result)

pub select_vp9 : Base → ExtPacket → Base × SelectResult
select_vp9 s pkt = select_vp9_payload s pkt pkt.payload

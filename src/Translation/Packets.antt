-- ===== src/Translation/Packets.antt =====
-- pkg/sfu/forwarder.go: processSourceSwitch, and the translation of one packet from GetTranslationParams
-- on. `none` is a panic.
use voicekit.Prelude.{
  ℕ, ◌%◌, Bool, true, false, not, ◌&&◌, ◌||◌, Option, none, some, List, [], ◌==◌, if◌then◌else◌,
  ◌>>=◌, sub64, u32_mod,
}
use voicekit.Prelude.Int.{ℤ, eqb_ℤ, ltb_ℤ}
use voicekit.VideoLayer.{invalid, is_valid}
use voicekit.LayerSelector.{SelectResult, select_temporal, rollback}
use voicekit.RtpMunger.{
  RtpMunger, TranslationParams, Ordering, contiguous, out_of_order, gap, duplicate,
  padding_not_on_frame_boundary, set_last_sn_ts, update_sn_ts_offsets, packet_dropped,
  update_and_get_sn_ts,
}
use voicekit.Vp8Munger.{Outcome, ok, err, panics, not_vp8, cache_miss, filtered_layer}
use voicekit.Translation.{Packet, Parts, Translator}
use voicekit.Translation.Timestamp.{
  Estimate, RefTs, ref_ts, no_ref_ts, ref_panics, get_ref_layer_rtp_timestamp, near_last,
  adjusted_ref, estimate, resumed, switched, past_last,
}

abbrev pub is_out_of_order : Ordering → Bool
is_out_of_order contiguous = false
is_out_of_order out_of_order = true
is_out_of_order gap = false
is_out_of_order duplicate = false

abbrev pub is_gap : Ordering → Bool
is_gap contiguous = false
is_gap out_of_order = false
is_gap gap = true
is_gap duplicate = false

abbrev pub is_contiguous : Ordering → Bool
is_contiguous contiguous = true
is_contiguous out_of_order = false
is_contiguous gap = false
is_contiguous duplicate = false

-- `TranslationParams` of the forwarder, with whether an error is returned
pub record Params : Type 0 where
  pub should_drop : Bool
  pub is_resuming : Bool
  pub is_switching : Bool
  pub rtp : Option TranslationParams
  pub incoming_header_size : ℕ
  pub codec_bytes : List ℕ
  pub marker : Bool
  pub has_error : Bool

abbrev pub no_params : Params
no_params = record {
  should_drop = false;
  is_resuming = false;
  is_switching = false;
  rtp = none;
  incoming_header_size = 0;
  codec_bytes = [];
  marker = false;
  has_error = false;
}

abbrev pub dropped : Params → Params
dropped tp = record tp { should_drop = true }

module _ (P : Parts) where
  -- The last lines of the switch
  unfoldable pub switch_to_ts : Translator P → Packet → ℕ → ℕ → Translator P
  switch_to_ts t pkt last next = record t {
    munger = update_sn_ts_offsets t.munger pkt.rtp 1 (sub64 (past_last P last next) last);
    codec = P.update_offsets t.codec pkt;
  }

  unfoldable pub switch_or_not : Translator P → Packet → ℕ → Option ℕ → Translator P × Bool
  switch_or_not t pkt last none = (t, false)
  switch_or_not t pkt last (some next) = (switch_to_ts t pkt last next, true)

  -- From the estimate on; the Boolean tells whether the switch succeeds.
  unfoldable pub switch_by : Translator P → Packet → ℕ → Estimate P → Translator P × Bool
  switch_by t pkt last e =
      let u : Translator P = record t { dummy_start_ts_offset = e.dummy } in
      if t.state.last_ssrc == 0
      then (
        switch_to_ts (record u { state = record (t.state) { resume_behind_threshold = 0 } }) pkt
            last (resumed P t e),
        true,
      )
      else switch_or_not u pkt last (switched P t e last)

  unfoldable pub switch_from : Translator P → Packet → RefTs → Option (Translator P × Bool)
  switch_from t pkt (ref_ts ts) =
      let last = t.munger.ext_last_ts in
      let adjusted = adjusted_ref P last ts t.dummy_start_ts_offset in
      some (
        switch_by t pkt last (
          estimate P t last (adjusted % u32_mod) (near_last P last adjusted) pkt.expected_ts
            pkt.since_start))
  switch_from t pkt no_ref_ts = some (t, false)
  switch_from t pkt ref_panics = none

  unfoldable pub start : Translator P → Packet → ℤ → Translator P
  start t pkt layer = record t {
    started = true;
    reference_layer_spatial = layer;
    munger = set_last_sn_ts t.munger pkt.rtp;
    codec = P.set_last t.codec pkt;
  }

  unfoldable pub catch_up : Translator P → Packet → ℤ → Translator P
  catch_up t pkt layer =
      if eqb_ℤ t.reference_layer_spatial invalid
      then record t { reference_layer_spatial = layer; codec = P.set_last t.codec pkt }
      else t

  unfoldable pub reference : Translator P → Packet → ℤ → RefTs
  reference t pkt layer =
      if t.skip_reference_ts
      then ref_ts (t.munger.ext_last_ts % u32_mod)
      else get_ref_layer_rtp_timestamp P t pkt.timestamp t.reference_layer_spatial layer

  unfoldable pub process_source_switch : Translator P → Packet → ℤ → Option (Translator P × Bool)
  process_source_switch t pkt layer =
      if not t.started
      then some (start t pkt layer, true)
      else (let u = catch_up t pkt layer in switch_from u pkt (reference u pkt layer))

  -- The result of the codec munger
  unfoldable pub with_header :
      Translator P → Packet → Params → Outcome → Option (Translator P × Params)
  with_header t pkt tp (ok size bytes) =
      some (t, record tp { incoming_header_size = size; codec_bytes = bytes })
  with_header t pkt tp (err filtered_layer) =
      some (record t { munger = packet_dropped t.munger pkt.rtp }, dropped tp)
  with_header t pkt tp (err cache_miss) = some (t, dropped tp)
  with_header t pkt tp (err not_vp8) = some (t, record tp { should_drop = true; has_error = true })
  with_header t pkt tp panics = none

  unfoldable pub translate_codec_header :
      Translator P → Packet → Params → Ordering → Option (Translator P × Params)
  translate_codec_header t pkt tp ordering =
      let (vls, layer) = select_temporal t.state.vls pkt.media in
      let (codec, outcome) =
        P.update_and_get t.codec pkt (is_out_of_order ordering) (is_gap ordering) layer in
      with_header (record t { state = record (t.state) { vls = vls }; codec = codec }) pkt tp
        outcome

  unfoldable pub with_numbers :
      Translator P
      → Packet
      → Params
      → RtpMunger × TranslationParams × Option voicekit.RtpMunger.Error
      → Option (Translator P × Params)
  with_numbers t pkt tp (munger, rtp, none) =
      let u : Translator P = record t { munger = munger } in
      if pkt.rtp.payload_size == 0
      then some (u, record tp { rtp = some rtp })
      else translate_codec_header u pkt (record tp { rtp = some rtp }) rtp.sn_ordering
  with_numbers t pkt tp (munger, rtp, some padding_not_on_frame_boundary) =
      some (record t { munger = munger }, record tp { should_drop = true; has_error = true })
  with_numbers t pkt tp (munger, rtp, some e) = some (record t { munger = munger }, dropped tp)

  unfoldable pub from_source : Translator P → Packet → Translator P
  from_source t pkt = record t {
    state = record (t.state) { last_ssrc = pkt.ssrc };
    last_payload_type = some pkt.payload_type;
    last_switch_ts = pkt.rtp.ext_timestamp;
  }

  unfoldable pub translate : Translator P → Packet → Params → Option (Translator P × Params)
  translate t pkt tp = with_numbers t pkt tp (update_and_get_sn_ts t.munger pkt.rtp tp.marker)

  -- After the attempt to switch
  unfoldable pub after_switch :
      Translator P → Packet → Params → Bool → Option (Translator P × Params)
  after_switch t pkt tp true = translate (from_source t pkt) pkt tp
  after_switch t pkt tp false =
      some (record t { state = record (t.state) { vls = rollback t.state.vls } }, dropped tp)

  unfoldable pub get_translation_params_common :
      Translator P → Packet → ℤ → Params → Option (Translator P × Params)
  get_translation_params_common t pkt layer tp =
      if t.state.last_ssrc == pkt.ssrc
      then translate t pkt tp
      else (do (u, succeeds) ← process_source_switch t pkt layer; after_switch u pkt tp succeeds)

  unfoldable pub get_translation_params_audio :
      Translator P → Packet → ℤ → Option (Translator P × Params)
  get_translation_params_audio t pkt layer = do
    (u, tp) ← get_translation_params_common t pkt layer no_params
    some (u, if tp.has_error then dropped tp else tp)

  -- A packet that is not selected
  unfoldable pub passed_over : Translator P → Packet → SelectResult → Translator P
  passed_over t pkt result =
      if t.started && result.is_relevant
      then (let (munger, rtp, error) = update_and_get_sn_ts t.munger pkt.rtp result.rtp_marker in
          elim error [
            | some e ↦ record t { munger = munger }
            | none ↦ record t {
              munger =
                  if is_contiguous rtp.sn_ordering then packet_dropped munger pkt.rtp else munger;
            }
          ])
      else t

  -- `FlagPauseOnDowngrade` is set.
  unfoldable pub pauses : Translator P → Bool
  pauses t =
      t.state.last_allocation.is_deficient
      && ltb_ℤ t.state.vls.target_layer.spatial t.state.vls.current_layer.spatial

  unfoldable pub selected_params : SelectResult → Params
  selected_params result = record no_params {
    is_resuming = result.is_resuming;
    is_switching = result.is_switching;
    marker = result.rtp_marker;
  }

  unfoldable pub get_translation_params_video :
      Translator P → Packet → ℤ → Option (Translator P × Params)
  get_translation_params_video t pkt layer =
      if not (is_valid t.state.vls.target_layer)
      then some (t, dropped no_params)
      else (let (vls, result) = P.select t.state.vls pkt layer in
          let s : Translator P = record t { state = record (t.state) { vls = vls } } in
          if not result.is_selected then some (passed_over s pkt result, dropped no_params) else (do
            (u, tp) ← get_translation_params_common s pkt layer (selected_params result)
            some (u, if not tp.should_drop && pauses u then dropped tp else tp)))

  unfoldable pub get_translation_params : Translator P → Packet → ℤ → Option (Translator P × Params)
  get_translation_params t pkt layer =
      if t.state.muted || t.state.pub_muted
      then some (t, dropped no_params)
      else if t.state.is_audio
      then get_translation_params_audio t pkt layer
      else get_translation_params_video t pkt layer

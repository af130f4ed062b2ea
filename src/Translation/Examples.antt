-- ===== src/Translation/Examples.antt =====
-- Runs of the translation, and the theorems at concrete inputs: a switch from the low to the high layer
-- of a simulcast track. The floats are milliseconds, rounded down.
use voicekit.Prelude.{
  ℕ, ◌+◌, ◌-◌, ◌*◌, ◌/◌, Bool, true, false, none, some, List, [], ◌∷◌, if◌then◌else◌, ◌≡◌, refl,
  arith, is_negative64, u64_mod, inl,
}
use voicekit.Prelude.Int.{ℤ, pos, negsuc, ltb_ℤ, leb_ℤ}
use voicekit.RangeMap.{get_value, clear_and_reset_value}
use voicekit.VideoLayer.{VideoLayer}
use voicekit.LayerSelector.{
  Base, new_base, select_simulcast, select_target, adjust_overshoot, select_temporal, other,
}
use voicekit.Forwarder.{State, video_allocation_default}
use voicekit.RtpMunger.{
  update_and_get_padding_sn_ts, padding_loop, RtpMunger, update_sn_ts_offsets, update_and_get_sn_ts,
}
use voicekit.RtpMunger.Runs.{numbers_after}
use voicekit.Vp8Munger.{ok}
use voicekit.Translation.{Float64, Packet, Parts, Translator}
use voicekit.Translation.Timestamp.{
  get_ref_layer_rtp_timestamp, at_layers, at_reports, between_reports, index_of, has_ntp, div_int64,
  near_last, adjusted_ref, estimate, switched, past_last,
}
use voicekit.Translation.Packets.{
  Params, process_source_switch, get_translation_params, get_translation_params_video,
  get_translation_params_common, translate, with_numbers, translate_codec_header, with_header,
  after_switch, from_source, switch_from, switch_by, switch_or_not, switch_to_ts, catch_up,
  reference, passed_over, pauses, selected_params,
}
use voicekit.Translation.Contiguous.{IsRunning, TakesInOrder, sent}
use voicekit.Translation.Run.{counts_on}
use voicekit.Translation.Padding.{Draw, maybe_start, with_munger, get_sn_ts_for_padding}
use voicekit.Forwarder.{resync, set_target_layer}
use voicekit.Translation.Others.{restart, set_ref_sender_report, get_padding}
use voicekit.Translation.Events.{
  pads, changes, reports, restarts, gets_padding, Event, arrives, forward_all, AreInTurn,
  forward_all-numbers_after,
}
use voicekit.Translation.Sent.{IsSent, get_translation_params-IsSent}
use voicekit.Translation.Ahead.{GoesOn, process_source_switch-GoesOn}

abbrev millis : ℕ → ℕ → ℤ
millis d rate =
    if is_negative64 d then negsuc ((u64_mod - d) * 1000 / rate) else pos (d * 1000 / rate)

abbrev magnitude : ℤ → ℤ
magnitude (pos n) = pos n
magnitude (negsuc n) = pos (n + 1)

abbrev float : Float64
float = record {
  Value = ℤ;
  seconds = millis;
  of_millis = pos;
  abs = magnitude;
  less = ltb_ℤ;
  at_least = λ a b. leb_ℤ b a;
}

-- The codec munger that leaves the packets alone, and the selector of simulcast
abbrev parts : Parts
parts = record {
  Codec = Unit {0};
  set_last = λ c pkt. tt;
  update_offsets = λ c pkt. tt;
  update_and_get = λ c pkt late gap layer. (tt, ok 0 []);
  update_and_get_padding = λ c new_picture. (tt, some []);
  select = λ vls pkt layer. select_simulcast vls pkt.media layer;
  ntp_difference = λ a b. 0;
  float = float;
}

takes : TakesInOrder parts (λ pkt. Unit {0})
unfolding TakesInOrder
takes c pkt layer good = inl (0, [], refl)

abbrev layer_of : ℕ → VideoLayer
layer_of s = record { spatial = pos s; temporal = pos 0 }

abbrev state : State
state = record {
  is_audio = false;
  is_h264 = false;
  is_overshoot_okay = true;
  muted = false;
  pub_muted = false;
  last_ssrc = 11;
  resume_behind_threshold = 0;
  last_allocation = video_allocation_default;
  provisional = record {
    muted = false;
    pub_muted = false;
    max_seen_layer = layer_of 2;
    available_layers = [];
    bitrates = λ s t. pos 0;
    max_layer = layer_of 2;
    current_layer = layer_of 0;
    allocated_layer = layer_of 2;
  };
  vls = record (new_base) {
    max_layer = layer_of 2;
    max_seen_layer = layer_of 2;
    target_layer = layer_of 2;
    current_layer = layer_of 0;
  };
}

abbrev munger : RtpMunger
munger = record {
  ext_highest_incoming_sn = 20;
  sn_range_map = record {
    size = 100;
    earlier = [];
    last = record { start = 17; end = 0; value = 2 };
  };
  ext_last_sn = 18;
  ext_second_last_sn = 17;
  sn_offset = 2;
  ext_last_ts = 9000;
  ext_second_last_ts = 6000;
  ts_offset = 0;
  last_marker = true;
  second_last_marker = true;
  ext_rtx_gate_sn = 0;
  is_in_rtx_gate_region = false;
}

abbrev translator : Translator parts
translator = record {
  state = state;
  clock_rate = 90000;
  skip_reference_ts = false;
  started = true;
  is_pre_started = false;
  ext_first_ts = 0;
  last_payload_type = some 96;
  last_switch_ts = 0;
  reference_layer_spatial = pos 0;
  dummy_start_ts_offset = 0;
  ref_infos =
      some (record { ntp_timestamp = 1000; rtp_timestamp = 5000 })
      ∷ none
      ∷ some (record { ntp_timestamp = 1000; rtp_timestamp = 7000 })
      ∷ [];
  ref_is_svc = false;
  munger = munger;
  codec = tt;
}

translator-IsRunning : IsRunning parts translator
translator-IsRunning = record {
  started = refl;
  ready = record {
    valid = omega arith;
    open_start = omega arith;
    offset = refl;
    offset_word = omega arith;
    aligned = refl;
    room = omega arith;
  };
  reports = refl;
  layered = refl;
}

abbrev packet : ℕ → ℕ → ℕ → ℕ → Bool → Packet
packet ssrc sn ts layer key = record {
  rtp = record { ext_sequence_number = sn; ext_timestamp = ts; payload_size = 5; key_frame = key };
  media = record { payload = other; layer = layer_of layer; key_frame = key; marker = true };
  codec = record { payload = none; temporal = 0 };
  ssrc = ssrc;
  payload_type = 96;
  timestamp = ts;
  expected_ts = none;
  since_start = 0;
}

abbrev key_frame : Packet
key_frame = packet 22 501 17000 2 true

-- The low layer, the key frame of the high one, the low one, which is no longer selected, and the high
-- one again, and then a probe of two packets; a report comes in between, and after a restart the high layer
-- is sent again from a key frame on
abbrev draw : Draw
draw = record { for_sn = 1; for_ts = 1 }

abbrev run : List Event
run =
    arrives (packet 11 21 12000 0 false) (pos 0)
    ∷ reports false (pos 1) (record { ntp_timestamp = 1000; rtp_timestamp = 6000 })
    ∷ arrives key_frame (pos 2)
    ∷ arrives (packet 11 22 15000 0 false) (pos 0)
    ∷ arrives (packet 22 502 20000 2 false) (pos 2)
    ∷ pads draw 2 false
    ∷ gets_padding true
    ∷ restarts
    ∷ changes state
    ∷ arrives (packet 22 503 23000 2 true) (pos 2)
    ∷ []

run_switch : forward_all parts translator run ≡ some (19 ∷ 20 ∷ 21 ∷ 22 ∷ 23 ∷ 24 ∷ [])
unfolding forward_all get_translation_params get_translation_params_video
    get_translation_params_common translate with_numbers translate_codec_header with_header
    after_switch from_source process_source_switch switch_from switch_by switch_or_not switch_to_ts
    catch_up reference get_ref_layer_rtp_timestamp at_layers at_reports between_reports index_of
    has_ntp div_int64 near_last adjusted_ref estimate switched past_last passed_over pauses
    selected_params sent update_and_get_sn_ts update_sn_ts_offsets get_value clear_and_reset_value
    select_simulcast select_target adjust_overshoot select_temporal get_sn_ts_for_padding
    maybe_start with_munger update_and_get_padding_sn_ts padding_loop restart set_ref_sender_report
    get_padding resync set_target_layer
run_switch = refl

-- The high layer is sent while the allocation is deficient and aims at the low one: its packet is
-- dropped, but has taken the number 19.
abbrev aims_low : Base
aims_low = record (state.vls) { target_layer = layer_of 0; current_layer = layer_of 2 }

abbrev deficient : Translator parts
deficient = record translator {
  state = record state {
    vls = aims_low;
    last_allocation = record (video_allocation_default) { is_deficient = true };
  };
}

abbrev recovers : List Event
recovers =
    arrives (packet 11 21 12000 2 false) (pos 2)
    ∷ changes (record state { vls = aims_low })
    ∷ arrives (packet 11 22 15000 2 false) (pos 2)
    ∷ []

run_hole : forward_all parts deficient recovers ≡ some (20 ∷ [])
unfolding forward_all get_translation_params get_translation_params_video
    get_translation_params_common translate with_numbers translate_codec_header with_header
    after_switch from_source process_source_switch switch_from switch_by switch_or_not switch_to_ts
    catch_up reference get_ref_layer_rtp_timestamp at_layers at_reports between_reports index_of
    has_ntp div_int64 near_last adjusted_ref estimate switched past_last passed_over pauses
    selected_params sent update_and_get_sn_ts update_sn_ts_offsets get_value clear_and_reset_value
    select_simulcast select_target adjust_overshoot select_temporal
run_hole = refl

run-AreInTurn : AreInTurn parts (λ pkt. Unit {0}) translator run
unfolding AreInTurn counts_on get_translation_params get_translation_params_video
    get_translation_params_common translate with_numbers translate_codec_header with_header
    after_switch from_source process_source_switch switch_from switch_by switch_or_not switch_to_ts
    catch_up reference get_ref_layer_rtp_timestamp at_layers at_reports between_reports index_of
    has_ntp div_int64 near_last adjusted_ref estimate switched past_last passed_over pauses
    selected_params sent update_and_get_sn_ts update_sn_ts_offsets get_value clear_and_reset_value
    select_simulcast select_target adjust_overshoot select_temporal get_sn_ts_for_padding
    maybe_start with_munger update_and_get_padding_sn_ts padding_loop restart set_ref_sender_report
    get_padding resync set_target_layer
run-AreInTurn = (
  record {
    positive = omega arith;
    room = omega arith;
    payload = omega arith;
    layered = refl;
    good = tt;
    sufficient = refl;
    in_order = λ e. refl;
  },
  (
    record {
      positive = omega arith;
      room = omega arith;
      payload = omega arith;
      layered = refl;
      good = tt;
      sufficient = refl;
      in_order = λ e. absurd cc;
    },
    (
      record {
        positive = omega arith;
        room = omega arith;
        payload = omega arith;
        layered = refl;
        good = tt;
        sufficient = refl;
        in_order = λ e. absurd cc;
      },
      (
        record {
          positive = omega arith;
          room = omega arith;
          payload = omega arith;
          layered = refl;
          good = tt;
          sufficient = refl;
          in_order = λ e. refl;
        },
        (
          omega arith,
          (
            record {
              positive = omega arith;
              room = omega arith;
              payload = omega arith;
              layered = refl;
              good = tt;
              sufficient = refl;
              in_order = λ e. refl;
            },
            tt,
          ),
        ),
      ),
    ),
  ),
)

-- After the switch to the high layer
abbrev switched_to : Translator parts
switched_to = record translator { munger = update_sn_ts_offsets munger key_frame.rtp 1 6000 }

switches : process_source_switch parts translator key_frame (pos 2) ≡ some (switched_to, true)
unfolding process_source_switch switch_from switch_by switch_or_not switch_to_ts catch_up reference
    get_ref_layer_rtp_timestamp at_layers at_reports between_reports index_of has_ntp div_int64
    near_last adjusted_ref estimate switched past_last
switches = refl

forward_all-numbers_after_example :
    (n : ℕ) × (forward_all parts translator run ≡ some (numbers_after 18 n))
forward_all-numbers_after_example =
    forward_all-numbers_after parts (λ pkt. Unit {0}) takes run translator translator-IsRunning
      run-AreInTurn

process_source_switch-GoesOn_example : GoesOn munger (switched_to.munger) key_frame.rtp true
process_source_switch-GoesOn_example =
    process_source_switch-GoesOn parts translator switched_to key_frame (pos 2) true
      translator-IsRunning (omega arith) (omega arith) (omega arith) (omega arith) (omega arith)
      refl switches

is_selected :
    (select_simulcast state.vls (packet 11 21 12000 0 false).media (pos 0)).1.is_selected ≡ true
unfolding select_simulcast select_target adjust_overshoot
is_selected = refl

get_translation_params-IsSent_example :
    (out : Translator parts × Params) × (get_translation_params parts translator
        (packet 11 21 12000 0 false)
        (pos 0)
      ≡ some out)
    × IsSent parts munger (packet 11 21 12000 0 false) 0 [] out
get_translation_params-IsSent_example =
    get_translation_params-IsSent parts translator (packet 11 21 12000 0 false) (pos 0) 0 []
      translator-IsRunning refl refl refl is_selected refl refl (omega arith) (omega arith) refl

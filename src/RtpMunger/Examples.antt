-- ===== src/RtpMunger/Examples.antt =====
-- Concrete runs of the munger, and the theorems at concrete inputs.
use voicekit.Prelude.{
  ℕ, ◌<◌, ◌≡◌, refl, arith, Bool, true, false, List, [], ◌∷◌, none, map, add64, sub64, inl,
}
use voicekit.RangeMap.{RangeMap, ok, get_value, get_before, prune, exclude_range}
use voicekit.RtpMunger.{
  ExtPacket, RtpMunger, out_of_order, update_and_get_sn_ts, update_and_get_padding_sn_ts,
  packet_dropped, filter_rtx,
}
use voicekit.RtpMunger.InOrder.{IsReady, update_and_get_sn_ts_in_order}
use voicekit.RtpMunger.Late.{update_and_get_sn_ts_late}
use voicekit.RtpMunger.Runs.{translate_all, translate_all_contiguous, numbers_after}
use voicekit.RtpMunger.Padding.{update_and_get_padding_sn_ts_numbers}

-- 10 to 14 with offset 0, 15 and 16 excluded, and offset 2 from 17 on.
abbrev offsets : RangeMap
offsets = record {
  size = 100;
  earlier = record { start = 10; end = 14; value = 0 } ∷ [];
  last = record { start = 17; end = 0; value = 2 };
}

abbrev ready : RtpMunger
ready = record {
  ext_highest_incoming_sn = 20;
  sn_range_map = offsets;
  ext_last_sn = 18;
  ext_second_last_sn = 17;
  sn_offset = 2;
  ext_last_ts = 9000;
  ext_second_last_ts = 6000;
  ts_offset = 0;
  last_marker = true;
  second_last_marker = true;
  ext_rtx_gate_sn = 0;
  is_in_rtx_gate_region = false;
}

ready-IsReady : IsReady ready
ready-IsReady = record {
  valid = omega arith;
  open_start = omega arith;
  offset = refl;
  offset_word = omega arith;
  aligned = refl;
  room = omega arith;
}

abbrev packet : ℕ → ℕ → ExtPacket
packet sn payload_size = record {
  ext_sequence_number = sn;
  ext_timestamp = 12000;
  payload_size = payload_size;
  key_frame = false;
}

-- 21 is sent, 22 is padding only, 23 is dropped, 24 is sent.
abbrev run : List (ExtPacket × Bool)
run = (packet 21 5, false) ∷ (packet 22 0, false) ∷ (packet 23 5, true) ∷ (packet 24 5, false) ∷ []

translate_all-run : translate_all ready run ≡ 19 ∷ 20 ∷ []
unfolding translate_all update_and_get_sn_ts packet_dropped exclude_range prune get_value
translate_all-run = refl

translate_all_contiguous_example : translate_all ready run ≡ numbers_after 18 2
translate_all_contiguous_example =
    translate_all_contiguous run ready ready-IsReady (refl, (refl, (refl, (refl, tt))))
      (omega arith)

update_and_get_sn_ts_in_order_example :
    let (m', params, error) = update_and_get_sn_ts ready (packet 25 5) true in
    (error ≡ none)
    × (params.ext_sequence_number ≡ add64 18 5)
    × (params.ext_timestamp ≡ sub64 12000 0)
    × (m'.ext_last_sn ≡ params.ext_sequence_number)
    × (m'.ext_second_last_sn ≡ 18)
    × (m'.ext_highest_incoming_sn ≡ 25)
    × (m'.sn_range_map ≡ offsets)
    × IsReady m'
update_and_get_sn_ts_in_order_example =
    update_and_get_sn_ts_in_order ready (packet 25 5) true ready-IsReady (omega arith) (omega arith)
      (inl (omega arith))

found : get_value offsets 14 ≡ ok 0
unfolding get_value get_before
found = refl

update_and_get_sn_ts_late_example :
    let (m', params, error) = update_and_get_sn_ts ready (packet 14 5) true in
    (m' ≡ ready)
    × (error ≡ none)
    × (params.sn_ordering ≡ out_of_order)
    × (params.ext_sequence_number ≡ sub64 14 0)
    × (params.ext_sequence_number < 18)
    × (params.ext_timestamp ≡ sub64 12000 0)
update_and_get_sn_ts_late_example =
    update_and_get_sn_ts_late ready (packet 14 5) true 0 ready-IsReady (omega arith) (omega arith)
      (omega arith) (omega arith) found

update_and_get_padding_sn_ts_numbers_example :
    let (m', vals, error) = update_and_get_padding_sn_ts ready 2 90000 30 false 15000 in
    (error ≡ none)
    × (map (λ v. v.ext_sequence_number) vals ≡ numbers_after 18 2)
    × (m'.ext_last_sn ≡ add64 18 2)
    × (m'.ext_highest_incoming_sn ≡ 20)
    × (m'.last_marker ≡ true)
    × IsReady m'
update_and_get_padding_sn_ts_numbers_example =
    update_and_get_padding_sn_ts_numbers ready 2 90000 30 false 15000 ready-IsReady (omega arith)
      (omega arith) refl

filtered :
    filter_rtx
      (record ready { is_in_rtx_gate_region = true; ext_rtx_gate_sn = 15 })
      (14 ∷ 15 ∷ 16 ∷ [])
    ≡ 15 ∷ 16 ∷ []
unfolding filter_rtx
filtered = refl

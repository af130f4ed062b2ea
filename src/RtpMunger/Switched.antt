-- ===== src/RtpMunger/Switched.antt =====
-- pkg/sfu/rtpmunger.go, UpdateSnTsOffsets: the munger is ready for the first packet of a new stream.
use voicekit.Prelude.{ℕ, ◌+◌, ◌<◌, ◌≡◌, refl, ap, sym, ◌∙◌, arith, add64, sub64}
use voicekit.RangeMap.{half_range}
use voicekit.RangeMap.Updates.{clear_and_reset_value-open, get_value-last}
use voicekit.RtpMunger.{ExtPacket, RtpMunger, value_or_zero, update_sn_ts_offsets}
use voicekit.RtpMunger.InOrder.{IsReady}

pub update_sn_ts_offsets-IsReady :
    (m : RtpMunger) (pkt : ExtPacket) (ts_adjust : ℕ)
    → IsReady m
    → 0 < pkt.ext_sequence_number
    → pkt.ext_sequence_number + 1 < half_range
    → let m' = update_sn_ts_offsets m pkt 1 ts_adjust in
      (m'.ext_last_sn ≡ m.ext_last_sn)
      × (pkt.ext_sequence_number ≡ m'.ext_highest_incoming_sn + 1)
      × IsReady m'
unfolding update_sn_ts_offsets
update_sn_ts_offsets-IsReady m pkt ts_adjust v pos room =
    let m' = update_sn_ts_offsets m pkt 1 ts_adjust in
    let value = sub64 (sub64 pkt.ext_sequence_number m.ext_last_sn) 1 in
    let (v', start, at_start) =
      clear_and_reset_value-open m.sn_range_map pkt.ext_sequence_number value v.valid
        (omega arith) in
    let offset : m'.sn_offset ≡ value =
      ap value_or_zero
        (get_value-last m'.sn_range_map (add64 (sub64 pkt.ext_sequence_number 1) 1) (omega arith))
      ∙ at_start in
    let last = v.aligned in
    (
      refl,
      omega arith,
      record {
        valid = v';
        open_start = omega arith;
        offset = offset ∙ sym at_start;
        offset_word = rw offset (omega arith);
        aligned = rw offset (omega arith);
        room = omega arith;
      },
    )

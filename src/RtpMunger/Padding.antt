-- ===== src/RtpMunger/Padding.antt =====
-- pkg/sfu/rtpmunger.go: padding that the down track inserts, and the start of a stream.
use voicekit.Prelude.{
  ℕ, zero, suc, ◌+◌, ◌^◌, ◌<◌, ◌≡◌, refl, ap, sym, ◌∙◌, Bool, true, false, none, some, arith, sub64,
  add64, List, [], ◌∷◌, map, not, ◌&&◌, ◌||◌, inl, ne→==,
}
use voicekit.RangeMap.{half_range, clear_and_reset_value}
use voicekit.RangeMap.Lookup.{IsValid}
use voicekit.RangeMap.Updates.{
  get_value-last, dec_value-last, clear_and_reset_value-open, dec_value-IsValid,
}
use voicekit.RtpMunger.{
  ExtPacket, RtpMunger, value_or_zero, SnTs, PaddingParams, padded, padding_ts, padding_loop,
  padding_not_on_frame_boundary, update_sn_offset, update_and_get_padding_sn_ts,
  update_and_get_sn_ts, set_last_sn_ts, update_sn_ts_offsets,
}
use voicekit.RtpMunger.InOrder.{IsReady, updated-IsReady, update_forwards}
use voicekit.RtpMunger.Runs.{numbers_after}

padding_loop-numbers :
    (p : PaddingParams) (own_ts n i last_sn last_ts : ℕ)
    → map (λ v. v.ext_sequence_number) (padding_loop p own_ts n i last_sn last_ts).0
      ≡ numbers_after last_sn n
unfolding padding_loop
padding_loop-numbers p own_ts zero i last_sn last_ts = refl
padding_loop-numbers p own_ts (suc n) i last_sn last_ts =
    ap (λ ns. add64 last_sn 1 ∷ ns) (padding_loop-numbers p own_ts n (i + 1) (add64 last_sn 1) _)

-- Each padding packet that is given a time of its own is later than the one before it, in the signed
-- 64-bit order of the source.
padding_ts_later :
    (p : PaddingParams) (i last_ts : ℕ)
    → last_ts < 2 ^ 64
    → (0 < sub64 (padding_ts p i last_ts) last_ts)
      × (sub64 (padding_ts p i last_ts) last_ts < 2 ^ 63)
padding_ts_later p i last_ts h = ground arith

padded-IsReady :
    (m : RtpMunger) (num : ℕ) (force_marker : Bool) (out : List SnTs × ℕ)
    → IsReady m
    → num < 2 ^ 64
    → IsReady (update_sn_offset (padded m num force_marker out))
padded-IsReady m num force_marker out v word =
    let (start, value) =
      dec_value-last m.sn_range_map m.ext_highest_incoming_sn num v.room v.open_start in
    updated-IsReady (padded m num force_marker out)
      (dec_value-IsValid m.sn_range_map m.ext_highest_incoming_sn num v.valid v.room) (omega arith)
      (rw value (omega arith)) (rw value (omega (arith, v.aligned, v.offset, v.offset_word))) v.room

-- Where padding stands on a frame boundary or is forced to end a frame, it gets the numbers after
-- the last outgoing one, and the munger stays ready: the next packet gets the number after them.
pub update_and_get_padding_sn_ts_numbers :
    (m : RtpMunger) (num clock_rate frame_rate : ℕ) (force_marker : Bool) (ext_rtp_timestamp : ℕ)
    → IsReady m
    → 0 < num
    → num < 2 ^ 64
    → m.last_marker || force_marker ≡ true
    → let (m', vals, error) =
        update_and_get_padding_sn_ts m num clock_rate frame_rate force_marker ext_rtp_timestamp in
      (error ≡ none)
      × (map (λ v. v.ext_sequence_number) vals ≡ numbers_after m.ext_last_sn num)
      × (m'.ext_last_sn ≡ add64 m.ext_last_sn num)
      × (m'.ext_highest_incoming_sn ≡ m.ext_highest_incoming_sn)
      × (m'.last_marker ≡ true)
      × IsReady m'
unfolding update_and_get_padding_sn_ts
update_and_get_padding_sn_ts_numbers m num clock_rate frame_rate force_marker ts v pos word marker =
    let p : PaddingParams = record {
      clock_rate = clock_rate;
      frame_rate = frame_rate;
      use_last_ts_for_first = not m.last_marker;
      ext_rtp_timestamp = ts;
    } in
    let out = padding_loop p m.ext_last_ts num 0 m.ext_last_sn m.ext_last_ts in
    let go : (not m.last_marker && not force_marker) ≡ false = ground arith in
    simp (ne→== num 0 (omega arith), go)
      (
        refl,
        padding_loop-numbers p m.ext_last_ts num 0 m.ext_last_sn m.ext_last_ts,
        refl,
        refl,
        marker,
        padded-IsReady m num force_marker out v word,
      )

-- Off a frame boundary, and not forced, padding is refused and changes nothing.
pub update_and_get_padding_sn_ts_refused :
    (m : RtpMunger) (num clock_rate frame_rate ext_rtp_timestamp : ℕ)
    → 0 < num
    → m.last_marker ≡ false
    → update_and_get_padding_sn_ts m num clock_rate frame_rate false ext_rtp_timestamp
      ≡ (m, [], some padding_not_on_frame_boundary)
unfolding update_and_get_padding_sn_ts
update_and_get_padding_sn_ts_refused m num clock_rate frame_rate ts pos open_frame =
    simp (ne→== num 0 (omega arith), open_frame)

-- The munger before the first packet of a source stream, with `value` as the offset.
abbrev at_first : RtpMunger → ℕ → ℕ → RtpMunger
at_first m sn value = update_sn_offset (record m {
  ext_highest_incoming_sn = sub64 sn 1;
  sn_range_map = clear_and_reset_value m.sn_range_map sn value;
})

at_first-passes :
    (m : RtpMunger) (pkt : ExtPacket) (value : ℕ) (marker : Bool)
    → IsValid m.sn_range_map
    → value < 2 ^ 64
    → 0 < pkt.ext_sequence_number
    → pkt.ext_sequence_number + 1 < half_range
    → 0 < pkt.payload_size
    → let (m', params, error) =
        update_and_get_sn_ts (at_first m pkt.ext_sequence_number value) pkt marker in
      (error ≡ none)
      × (params.ext_sequence_number ≡ sub64 pkt.ext_sequence_number value)
      × (params.ext_timestamp ≡ sub64 pkt.ext_timestamp m.ts_offset)
      × IsReady m'
at_first-passes m pkt value marker v w pos room payload =
    let m1 = at_first m pkt.ext_sequence_number value in
    let (v', start, at_start) =
      clear_and_reset_value-open m.sn_range_map pkt.ext_sequence_number value v (omega arith) in
    let offset : m1.sn_offset ≡ value =
      ap value_or_zero
        (get_value-last m1.sn_range_map (add64 (sub64 pkt.ext_sequence_number 1) 1) (omega arith))
      ∙ at_start in
    let (state, no_error, sn, ts, _) =
      update_forwards m1 pkt marker (omega arith) (omega arith) (inl payload) in
    rw (state, sn)
      (
        no_error,
        ap (sub64 pkt.ext_sequence_number) offset,
        ts,
        record {
          valid = v';
          open_start = omega arith;
          offset = offset ∙ sym at_start;
          offset_word = rw offset w;
          aligned = refl;
          room = room;
        },
      )

-- After a switch of the source stream, `UpdateSnTsOffsets` with the first packet of the new one makes
-- that packet follow the last outgoing one by the given distances, and the munger is ready after it.
pub update_sn_ts_offsets-follows :
    (m : RtpMunger) (pkt : ExtPacket) (sn_adjust ts_adjust : ℕ) (marker : Bool)
    → IsValid m.sn_range_map
    → m.ext_last_sn < 2 ^ 64
    → m.ext_last_ts < 2 ^ 64
    → pkt.ext_timestamp < 2 ^ 64
    → sn_adjust < 2 ^ 64
    → ts_adjust < 2 ^ 64
    → 0 < pkt.ext_sequence_number
    → pkt.ext_sequence_number + 1 < half_range
    → 0 < pkt.payload_size
    → let (m', params, error) =
        update_and_get_sn_ts (update_sn_ts_offsets m pkt sn_adjust ts_adjust) pkt marker in
      (error ≡ none)
      × (params.ext_sequence_number ≡ add64 m.ext_last_sn sn_adjust)
      × (params.ext_timestamp ≡ add64 m.ext_last_ts ts_adjust)
      × IsReady m'
unfolding update_sn_ts_offsets
update_sn_ts_offsets-follows m pkt sn_adjust ts_adjust marker v wl wt wp ws wa pos room payload =
    let m1 : RtpMunger = record m {
      ts_offset = sub64 (sub64 pkt.ext_timestamp m.ext_last_ts) ts_adjust;
    } in
    let value = sub64 (sub64 pkt.ext_sequence_number m.ext_last_sn) sn_adjust in
    let (no_error, sn, ts, ready) =
      at_first-passes m1 pkt value marker v (omega arith) pos room payload in
    (no_error, sn ∙ omega arith, ts ∙ omega arith, ready)

-- `SetLastSnTs` with the first packet of a stream makes that packet pass with its own numbers, and
-- the munger is ready after it.
set_last_sn_ts-passes :
    (m : RtpMunger) (pkt : ExtPacket) (marker : Bool)
    → IsValid m.sn_range_map
    → pkt.ext_timestamp < 2 ^ 64
    → 0 < pkt.ext_sequence_number
    → pkt.ext_sequence_number + 1 < half_range
    → 0 < pkt.payload_size
    → let (m', params, error) = update_and_get_sn_ts (set_last_sn_ts m pkt) pkt marker in
      (error ≡ none)
      × (params.ext_sequence_number ≡ pkt.ext_sequence_number)
      × (params.ext_timestamp ≡ pkt.ext_timestamp)
      × IsReady m'
unfolding set_last_sn_ts
set_last_sn_ts-passes m pkt marker v wp pos room payload =
    let m1 : RtpMunger = record m {
      ext_last_sn = pkt.ext_sequence_number;
      ext_second_last_sn = sub64 pkt.ext_sequence_number 1;
      ext_last_ts = pkt.ext_timestamp;
      ext_second_last_ts = pkt.ext_timestamp;
      ts_offset = 0;
    } in
    let (no_error, sn, ts, ready) =
      at_first-passes m1 pkt 0 marker v (omega arith) pos room payload in
    (no_error, sn ∙ omega arith, ts ∙ omega arith, ready)

-- ===== src/RtpMunger.antt =====
-- pkg/sfu/rtpmunger.go: outgoing sequence numbers and timestamps of a down track.
-- Logging has no effect on the state and is left out.
pub mod Padding
pub mod InOrder
pub mod Late
pub mod Runs
pub mod Switched
pub mod Probes
mod Examples
use voicekit.Prelude.{
  ℕ, zero, suc, ◌+◌, ◌-◌, ◌*◌, ◌/◌, ◌%◌, ◌^◌, Bool, true, false, not, ◌&&◌, ◌||◌, Option, none,
  some, List, [], ◌∷◌, ltb, leb, ◌==◌, if◌then◌else◌, add64, sub64, sub16, u16_mod, u32_mod,
  is_negative64,
}
use voicekit.RangeMap.{
  RangeMap, Result, ok, err, new_range_map, clear_and_reset_value, exclude_range, dec_value,
  get_value,
}

-- `SequenceNumberOrdering`
pub data Ordering : Type 0 where
  contiguous out_of_order gap duplicate : Ordering

pub data Error : Type 0 where
  out_of_order_cache_miss padding_only_packet duplicate_packet padding_not_on_frame_boundary : Error

abbrev pub rtx_gate_window : ℕ
rtx_gate_window = 2000

pub record TranslationParams : Type 0 where
  pub sn_ordering : Ordering
  pub ext_sequence_number : ℕ
  pub ext_timestamp : ℕ

pub record SnTs : Type 0 where
  pub ext_sequence_number : ℕ
  pub ext_timestamp : ℕ

-- The fields of `buffer.ExtPacket` that the munger reads.
pub record ExtPacket : Type 0 where
  pub ext_sequence_number : ℕ
  pub ext_timestamp : ℕ
  pub payload_size : ℕ
  pub key_frame : Bool

pub record RtpMunger : Type 0 where
  pub ext_highest_incoming_sn : ℕ
  pub sn_range_map : RangeMap
  pub ext_last_sn : ℕ
  pub ext_second_last_sn : ℕ
  pub sn_offset : ℕ
  pub ext_last_ts : ℕ
  pub ext_second_last_ts : ℕ
  pub ts_offset : ℕ
  pub last_marker : Bool
  pub second_last_marker : Bool
  pub ext_rtx_gate_sn : ℕ
  pub is_in_rtx_gate_region : Bool

pub new_rtp_munger : RtpMunger
new_rtp_munger = record {
  ext_highest_incoming_sn = 0;
  sn_range_map = new_range_map 100;
  ext_last_sn = 0;
  ext_second_last_sn = 0;
  sn_offset = 0;
  ext_last_ts = 0;
  ext_second_last_ts = 0;
  ts_offset = 0;
  last_marker = false;
  second_last_marker = false;
  ext_rtx_gate_sn = 0;
  is_in_rtx_gate_region = false;
}

-- `voicekit.RTPMungerState`
pub record State : Type 0 where
  pub ext_last_sequence_number : ℕ
  pub ext_second_last_sequence_number : ℕ
  pub ext_last_timestamp : ℕ
  pub ext_second_last_timestamp : ℕ
  pub last_marker : Bool
  pub second_last_marker : Bool

pub get_state : RtpMunger → State
get_state m = record {
  ext_last_sequence_number = m.ext_last_sn;
  ext_second_last_sequence_number = m.ext_second_last_sn;
  ext_last_timestamp = m.ext_last_ts;
  ext_second_last_timestamp = m.ext_second_last_ts;
  last_marker = m.last_marker;
  second_last_marker = m.second_last_marker;
}

pub seed_state : RtpMunger → State → RtpMunger
seed_state m s = record m {
  ext_last_sn = s.ext_last_sequence_number;
  ext_second_last_sn = s.ext_second_last_sequence_number;
  ext_last_ts = s.ext_last_timestamp;
  ext_second_last_ts = s.ext_second_last_timestamp;
  last_marker = s.last_marker;
  second_last_marker = s.second_last_marker;
}

-- `GetValue` gives 0 beside an error.
abbrev pub value_or_zero : Result → ℕ
value_or_zero (ok v) = v
value_or_zero (err e) = 0

abbrev pub update_sn_offset : RtpMunger → RtpMunger
update_sn_offset m = record m {
  sn_offset = value_or_zero (get_value m.sn_range_map (add64 m.ext_highest_incoming_sn 1));
}

pub set_last_sn_ts : RtpMunger → ExtPacket → RtpMunger
set_last_sn_ts m pkt = update_sn_offset (record m {
  ext_highest_incoming_sn = sub64 pkt.ext_sequence_number 1;
  ext_last_sn = pkt.ext_sequence_number;
  ext_second_last_sn = sub64 pkt.ext_sequence_number 1;
  sn_range_map = clear_and_reset_value m.sn_range_map pkt.ext_sequence_number 0;
  ext_last_ts = pkt.ext_timestamp;
  ext_second_last_ts = pkt.ext_timestamp;
  ts_offset = 0;
})

unfoldable pub update_sn_ts_offsets : RtpMunger → ExtPacket → ℕ → ℕ → RtpMunger
update_sn_ts_offsets m pkt sn_adjust ts_adjust = update_sn_offset (record m {
  ext_highest_incoming_sn = sub64 pkt.ext_sequence_number 1;
  sn_range_map =
      clear_and_reset_value m.sn_range_map pkt.ext_sequence_number
        (sub64 (sub64 pkt.ext_sequence_number m.ext_last_sn) sn_adjust);
  ts_offset = sub64 (sub64 pkt.ext_timestamp m.ext_last_ts) ts_adjust;
})

-- The key `sn` alone is excluded; an error leaves the map as it is.
abbrev pub exclude_one : RangeMap → ℕ → RangeMap
exclude_one r sn = (exclude_range r sn (add64 sn 1)).0

pub packet_dropped : RtpMunger → ExtPacket → RtpMunger
packet_dropped m pkt =
    if not (m.ext_highest_incoming_sn == pkt.ext_sequence_number)
    then m
    else update_sn_offset (record m {
      sn_range_map = exclude_one m.sn_range_map m.ext_highest_incoming_sn;
      ext_last_sn = m.ext_second_last_sn;
      ext_last_ts = m.ext_second_last_ts;
      last_marker = m.second_last_marker;
    })

-- A packet that is ahead: the new state with its outgoing numbers.
abbrev pub forward_ahead : RtpMunger → ExtPacket → Bool → RtpMunger
forward_ahead m pkt marker =
    let munged_sn = sub64 pkt.ext_sequence_number m.sn_offset in
    let gate_sn = if pkt.key_frame then munged_sn else m.ext_rtx_gate_sn in
    record m {
      ext_highest_incoming_sn = pkt.ext_sequence_number;
      ext_last_sn = munged_sn;
      ext_second_last_sn = m.ext_last_sn;
      ext_last_ts = sub64 pkt.ext_timestamp m.ts_offset;
      ext_second_last_ts = m.ext_last_ts;
      last_marker = marker;
      second_last_marker = m.last_marker;
      ext_rtx_gate_sn = gate_sn;
      is_in_rtx_gate_region =
          (pkt.key_frame || m.is_in_rtx_gate_region)
          && not (ltb rtx_gate_window (sub64 munged_sn gate_sn));
    }

abbrev pub failed : Ordering → TranslationParams
failed ordering = record { sn_ordering = ordering; ext_sequence_number = 0; ext_timestamp = 0 }

-- A packet behind the highest: its number is looked up.
abbrev pub translate_late : RtpMunger → ExtPacket → Result → TranslationParams × Option Error
translate_late m pkt (err e) = (failed out_of_order, some out_of_order_cache_miss)
translate_late m pkt (ok sn_offset) =
    let sn = sub64 pkt.ext_sequence_number sn_offset in
    if leb m.ext_last_sn sn then (failed out_of_order, some out_of_order_cache_miss) else (
      record {
        sn_ordering = out_of_order;
        ext_sequence_number = sn;
        ext_timestamp = sub64 pkt.ext_timestamp m.ts_offset;
      },
      none,
    )

unfoldable pub update_and_get_sn_ts :
    RtpMunger → ExtPacket → Bool → RtpMunger × TranslationParams × Option Error
update_and_get_sn_ts m pkt marker =
    let diff = sub64 pkt.ext_sequence_number m.ext_highest_incoming_sn in
    let is_more = ltb 1 diff && not (is_negative64 diff) in
    if diff == 1 && not (pkt.payload_size == 0) || is_more
    then (let m' = forward_ahead m pkt marker in
        (
          m',
          record {
            sn_ordering = if is_more then gap else contiguous;
            ext_sequence_number = m'.ext_last_sn;
            ext_timestamp = m'.ext_last_ts;
          },
          none,
        ))
    else if is_negative64 diff
    then (let (params, error) =
          translate_late m pkt (get_value m.sn_range_map pkt.ext_sequence_number) in
        (m, params, error))
    else if diff == 1
    then (
      update_sn_offset (record m {
        ext_highest_incoming_sn = pkt.ext_sequence_number;
        sn_range_map = exclude_one m.sn_range_map pkt.ext_sequence_number;
      }),
      failed contiguous,
      some padding_only_packet,
    )
    else (m, failed duplicate, some duplicate_packet)

pub filter_rtx : RtpMunger → List ℕ → List ℕ
filter_rtx m [] = []
filter_rtx m (sn ∷ nacks) =
    let rest = filter_rtx m nacks in
    if not m.is_in_rtx_gate_region || ltb (sub16 sn (m.ext_rtx_gate_sn % u16_mod)) (2 ^ 15)
    then sn ∷ rest
    else rest

-- The parameters of `UpdateAndGetPaddingSnTs` that its loop reads.
pub record PaddingParams : Type 0 where
  pub clock_rate : ℕ
  pub frame_rate : ℕ
  pub use_last_ts_for_first : Bool
  pub ext_rtp_timestamp : ℕ

-- The timestamp of packet `i`, where the last one had `last_ts`.
abbrev pub padding_ts : PaddingParams → ℕ → ℕ → ℕ
padding_ts p i last_ts =
    let ts_offset : ℕ = if p.use_last_ts_for_first then 1 else 0 in
    let ticks =
      ((i + 1 - ts_offset) % u32_mod * p.clock_rate % u32_mod + p.frame_rate + u32_mod - 1)
      % u32_mod
      / p.frame_rate in
    let ets = add64 p.ext_rtp_timestamp ticks in
    let ahead = sub64 ets last_ts in
    if ahead == 0 || is_negative64 ahead then add64 last_ts 1 else ets

-- `n` rounds from `i` on, with the last number and timestamp so far. `own_ts` is the munger's own
-- last timestamp. The second part is the last timestamp at the end.
unfoldable pub padding_loop : PaddingParams → ℕ → ℕ → ℕ → ℕ → ℕ → List SnTs × ℕ
padding_loop p own_ts zero i last_sn last_ts = ([], last_ts)
padding_loop p own_ts (suc n) i last_sn last_ts =
    let keeps = p.frame_rate == 0 || p.use_last_ts_for_first && i == 0 in
    let ts = if keeps then own_ts else padding_ts p i last_ts in
    let (vals, end_ts) =
      padding_loop p own_ts n (i + 1) (add64 last_sn 1) (if keeps then last_ts else ts) in
    (record { ext_sequence_number = add64 last_sn 1; ext_timestamp = ts } ∷ vals, end_ts)

-- The timestamp of the last packet but one, `own_ts` for a single packet.
abbrev pub second_last : ℕ → List SnTs → ℕ
second_last own_ts [] = own_ts
second_last own_ts (v ∷ []) = own_ts
second_last own_ts (v ∷ w ∷ []) = v.ext_timestamp
second_last own_ts (v ∷ w ∷ x ∷ vals) = second_last own_ts (w ∷ x ∷ vals)

-- The state after `num` padding packets, by what the loop returns, before the offset is read.
abbrev pub padded : RtpMunger → ℕ → Bool → List SnTs × ℕ → RtpMunger
padded m num force_marker out =
    let end_sn = add64 m.ext_last_sn num in
    record m {
      ext_last_sn = end_sn;
      ext_second_last_sn = sub64 end_sn 1;
      sn_range_map = dec_value m.sn_range_map m.ext_highest_incoming_sn num;
      ext_last_ts = out.1;
      ext_second_last_ts = second_last m.ext_last_ts out.0;
      ts_offset = sub64 m.ts_offset (sub64 out.1 m.ext_last_ts);
      last_marker = m.last_marker || force_marker;
    }

unfoldable pub update_and_get_padding_sn_ts :
    RtpMunger → ℕ → ℕ → ℕ → Bool → ℕ → RtpMunger × List SnTs × Option Error
update_and_get_padding_sn_ts m num clock_rate frame_rate force_marker ext_rtp_timestamp =
    if num == 0
    then (m, [], none)
    else if not m.last_marker && not force_marker
    then (m, [], some padding_not_on_frame_boundary)
    else (let p : PaddingParams = record {
      clock_rate = clock_rate;
      frame_rate = frame_rate;
      use_last_ts_for_first = not m.last_marker;
      ext_rtp_timestamp = ext_rtp_timestamp;
    } in
        let out = padding_loop p m.ext_last_ts num 0 m.ext_last_sn m.ext_last_ts in
        (update_sn_offset (padded m num force_marker out), out.0, none))

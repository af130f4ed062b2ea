-- ===== src/RtpMunger/InOrder.antt =====
-- pkg/sfu/rtpmunger.go: packets in order, packets that are dropped, and padding-only packets.
use voicekit.Prelude.{
  ℕ, ◌+◌, ◌-◌, ◌^◌, ◌≤◌, ◌<◌, ◌≡◌, refl, ◌∙◌, ap, Bool, true, none, some, ltb, ◌==◌, if◌then◌else◌,
  add64, sub64, arith, eq→==, ◌⊎◌, inl, inr,
}
use voicekit.RangeMap.{RangeMap, half_range, get_value}
use voicekit.RangeMap.Lookup.{IsValid}
use voicekit.RangeMap.Updates.{exclude_range-last, exclude_range-IsValid, get_value-last}
use voicekit.RtpMunger.{
  ExtPacket, RtpMunger, value_or_zero, gap, contiguous, padding_only_packet, exclude_one,
  forward_ahead, failed, update_sn_offset, packet_dropped, update_and_get_sn_ts,
}

-- Between packets: the next packet's number lies in the open range, the offset is that range's
-- value, and the last outgoing number is the highest incoming one less the offset. `room` keeps the
-- numbers below half of the 64-bit range.
pub record IsReady (m : RtpMunger) : Type 0 where
  pub valid : IsValid m.sn_range_map
  pub open_start : m.sn_range_map.last.start ≤ m.ext_highest_incoming_sn + 1
  pub offset : m.sn_offset ≡ m.sn_range_map.last.value
  pub offset_word : m.sn_offset < 2 ^ 64
  pub aligned : m.ext_last_sn ≡ sub64 m.ext_highest_incoming_sn m.sn_offset
  pub room : m.ext_highest_incoming_sn + 1 < half_range

-- A packet that is ahead by `d` gets the last outgoing number plus `d`: gaps are kept.
pub forward_ahead-IsReady :
    (m : RtpMunger) (pkt : ExtPacket) (marker : Bool)
    → IsReady m
    → m.ext_highest_incoming_sn < pkt.ext_sequence_number
    → pkt.ext_sequence_number + 1 < half_range
    → IsReady (forward_ahead m pkt marker)
forward_ahead-IsReady m pkt marker v h room = record {
  valid = v.valid;
  open_start = omega arith;
  offset = v.offset;
  offset_word = v.offset_word;
  aligned = refl;
  room = room;
}

-- `updateSnOffset` reads the value of the open range.
pub updated-IsReady :
    (m : RtpMunger)
    → IsValid m.sn_range_map
    → m.sn_range_map.last.start ≤ m.ext_highest_incoming_sn + 1
    → m.sn_range_map.last.value < 2 ^ 64
    → m.ext_last_sn ≡ sub64 m.ext_highest_incoming_sn m.sn_range_map.last.value
    → m.ext_highest_incoming_sn + 1 < half_range
    → IsReady (update_sn_offset m)
updated-IsReady m v lo word al room =
    let offset : value_or_zero (get_value m.sn_range_map (add64 m.ext_highest_incoming_sn 1))
        ≡ m.sn_range_map.last.value =
      ap value_or_zero
        (get_value-last m.sn_range_map (add64 m.ext_highest_incoming_sn 1) (omega arith)) in
    record {
      valid = v;
      open_start = lo;
      offset = offset;
      offset_word = rw offset word;
      aligned = rw offset al;
      room = room;
    }

exclude_one_open :
    (r : RangeMap) (sn : ℕ)
    → IsValid r
    → r.last.start ≤ sn
    → sn + 1 < half_range
    → IsValid (exclude_one r sn)
      × ((exclude_one r sn).last.start ≡ sn + 1)
      × ((exclude_one r sn).last.value ≡ add64 r.last.value 1)
exclude_one_open r sn v lo room =
    let next : add64 sn 1 ≡ sn + 1 = omega arith in
    let ends = exclude_range-last r sn (sn + 1) lo (omega arith) room in
    rw (next, exclude_one)
      (
        exclude_range-IsValid r sn (sn + 1) v lo (omega arith) room,
        ends.0,
        ends.1 ∙ ap (λ d. add64 r.last.value d) (omega arith),
      )

diff_ahead : (h sn : ℕ) → h < sn → sn < half_range → sub64 sn h ≡ sn - h
diff_ahead h sn lt room = omega arith

-- The packet next to the highest one, with a payload, or any packet after a gap, is forwarded.
pub update_forwards :
    (m : RtpMunger) (pkt : ExtPacket) (marker : Bool)
    → m.ext_highest_incoming_sn < pkt.ext_sequence_number
    → pkt.ext_sequence_number < half_range
    → (0 < pkt.payload_size) ⊎ (m.ext_highest_incoming_sn + 1 < pkt.ext_sequence_number)
    → let (m', params, error) = update_and_get_sn_ts m pkt marker in
      (m' ≡ forward_ahead m pkt marker)
      × (error ≡ none)
      × (params.ext_sequence_number ≡ (forward_ahead m pkt marker).ext_last_sn)
      × (params.ext_timestamp ≡ sub64 pkt.ext_timestamp m.ts_offset)
      × (params.sn_ordering ≡ (
          if ltb (m.ext_highest_incoming_sn + 1) pkt.ext_sequence_number then gap else contiguous))
unfolding update_and_get_sn_ts
update_forwards m pkt marker h room (inl payload) =
    simp (diff_ahead m.ext_highest_incoming_sn pkt.ext_sequence_number h room) (ground arith)
update_forwards m pkt marker h room (inr ahead) =
    simp (diff_ahead m.ext_highest_incoming_sn pkt.ext_sequence_number h room) (ground arith)

-- The next packet, if it has a payload, or a packet after a gap, gets the last outgoing number plus
-- its distance from the highest one, and the munger stays ready.
pub update_and_get_sn_ts_in_order :
    (m : RtpMunger) (pkt : ExtPacket) (marker : Bool)
    → IsReady m
    → m.ext_highest_incoming_sn < pkt.ext_sequence_number
    → pkt.ext_sequence_number + 1 < half_range
    → (0 < pkt.payload_size) ⊎ (m.ext_highest_incoming_sn + 1 < pkt.ext_sequence_number)
    → let (m', params, error) = update_and_get_sn_ts m pkt marker in
      (error ≡ none)
      × (params.ext_sequence_number
          ≡ add64 m.ext_last_sn (pkt.ext_sequence_number - m.ext_highest_incoming_sn))
      × (params.ext_timestamp ≡ sub64 pkt.ext_timestamp m.ts_offset)
      × (m'.ext_last_sn ≡ params.ext_sequence_number)
      × (m'.ext_second_last_sn ≡ m.ext_last_sn)
      × (m'.ext_highest_incoming_sn ≡ pkt.ext_sequence_number)
      × (m'.sn_range_map ≡ m.sn_range_map)
      × IsReady m'
update_and_get_sn_ts_in_order m pkt marker v h room kind =
    let (state, no_error, sn, ts, _) = update_forwards m pkt marker h (omega arith) kind in
    rw (state, sn)
      (
        no_error,
        omega (arith, v.aligned),
        ts,
        refl,
        refl,
        refl,
        refl,
        forward_ahead-IsReady m pkt marker v h room,
      )

-- The state after the key `sn` was excluded.
abbrev without : RtpMunger → ℕ → RtpMunger
without m sn = record m {
  ext_highest_incoming_sn = sn;
  sn_range_map = exclude_one m.sn_range_map sn;
}

without-IsReady :
    (m : RtpMunger) (sn : ℕ)
    → IsValid m.sn_range_map
    → m.sn_range_map.last.start ≤ sn
    → sn + 1 < half_range
    → m.ext_last_sn ≡ sub64 sn (add64 m.sn_range_map.last.value 1)
    → IsReady (update_sn_offset (without m sn))
without-IsReady m sn v lo room al =
    let (v', start, value) = exclude_one_open m.sn_range_map sn v lo room in
    updated-IsReady (without m sn) v' (omega arith) (rw value (omega arith)) (rw value al) room

update_refuses_padding :
    (m : RtpMunger) (pkt : ExtPacket) (marker : Bool)
    → pkt.ext_sequence_number ≡ m.ext_highest_incoming_sn + 1
    → pkt.ext_sequence_number < half_range
    → pkt.payload_size ≡ 0
    → update_and_get_sn_ts m pkt marker ≡ (
      update_sn_offset (without m pkt.ext_sequence_number),
      failed contiguous,
      some padding_only_packet,
    )
unfolding update_and_get_sn_ts
update_refuses_padding m pkt marker next room empty =
    let diff : sub64 pkt.ext_sequence_number m.ext_highest_incoming_sn ≡ 1 = omega arith in
    simp (diff, empty)

-- The next packet, if it is padding only, is refused; no outgoing number is used, and the munger
-- stays ready.
pub update_and_get_sn_ts_padding :
    (m : RtpMunger) (pkt : ExtPacket) (marker : Bool)
    → IsReady m
    → pkt.ext_sequence_number ≡ m.ext_highest_incoming_sn + 1
    → pkt.ext_sequence_number + 1 < half_range
    → pkt.payload_size ≡ 0
    → let (m', params, error) = update_and_get_sn_ts m pkt marker in
      (error ≡ some padding_only_packet)
      × (m'.ext_last_sn ≡ m.ext_last_sn)
      × (m'.ext_highest_incoming_sn ≡ pkt.ext_sequence_number)
      × IsReady m'
update_and_get_sn_ts_padding m pkt marker v next room empty =
    rw (update_refuses_padding m pkt marker next (omega arith) empty) (
      refl,
      refl,
      refl,
      without-IsReady m pkt.ext_sequence_number v.valid (omega (arith, v.open_start)) room
          (omega (arith, v.aligned, v.offset, v.offset_word)),
    )

-- `PacketDropped` for the packet that was forwarded last.
pub packet_dropped-IsReady :
    (m : RtpMunger) (pkt : ExtPacket)
    → IsReady m
    → m.ext_highest_incoming_sn ≡ pkt.ext_sequence_number
    → m.sn_range_map.last.start ≤ m.ext_highest_incoming_sn
    → add64 m.ext_second_last_sn 1 ≡ m.ext_last_sn
    → m.ext_second_last_sn < 2 ^ 64
    → let m' = packet_dropped m pkt in
      (m'.ext_last_sn ≡ m.ext_second_last_sn)
      × (m'.ext_highest_incoming_sn ≡ pkt.ext_sequence_number)
      × IsReady m'
unfolding packet_dropped
packet_dropped-IsReady m pkt v eq lo prev word =
    let same : (m.ext_highest_incoming_sn == pkt.ext_sequence_number) ≡ true = eq→== _ _ eq in
    let m' : RtpMunger = record m {
      ext_last_sn = m.ext_second_last_sn;
      ext_last_ts = m.ext_second_last_ts;
      last_marker = m.second_last_marker;
    } in
    simp same (
      refl,
      eq,
      without-IsReady m' m.ext_highest_incoming_sn v.valid lo v.room
          (omega (arith, v.aligned, v.offset, v.offset_word)),
    )

-- ===== src/RtpMunger/Late.antt =====
-- pkg/sfu/rtpmunger.go: packets behind the highest one, duplicates, and the gate of retransmissions.
use voicekit.Prelude.{ℕ, ◌^◌, ◌≤◌, ◌<◌, ◌≡◌, refl, Bool, none, some, arith, sub64, lt→leb_false}
use voicekit.RangeMap.{ok, err, half_range, get_value, Error}
use voicekit.RangeMap.Updates.{get_value-last}
use voicekit.RangeMap.Ascending.{IsAscending, image, get_value_mono}
use voicekit.RtpMunger.{
  ExtPacket, RtpMunger, out_of_order, out_of_order_cache_miss, failed, update_and_get_sn_ts,
  translate_late,
}
use voicekit.RtpMunger.InOrder.{IsReady}

update_looks_up :
    (m : RtpMunger) (pkt : ExtPacket) (marker : Bool)
    → pkt.ext_sequence_number < m.ext_highest_incoming_sn
    → m.ext_highest_incoming_sn < half_range
    → update_and_get_sn_ts m pkt marker ≡ (
        let (params, error) =
          translate_late m pkt (get_value m.sn_range_map pkt.ext_sequence_number) in
        (m, params, error))
unfolding update_and_get_sn_ts
update_looks_up m pkt marker lt room = ground arith

-- A packet behind the highest one that has an offset gets its number less the offset, which is below
-- the last outgoing number, so the check after the lookup never refuses it; nothing changes. The map
-- ascends, its images do not wrap, and the highest packet itself was not excluded.
pub update_and_get_sn_ts_late :
    (m : RtpMunger) (pkt : ExtPacket) (marker : Bool) (offset : ℕ)
    → IsReady m
    → IsAscending m.sn_range_map
    → m.sn_range_map.last.start ≤ m.ext_highest_incoming_sn
    → image m.sn_range_map.last m.ext_highest_incoming_sn < 2 ^ 64
    → pkt.ext_sequence_number < m.ext_highest_incoming_sn
    → get_value m.sn_range_map pkt.ext_sequence_number ≡ ok offset
    → let (m', params, error) = update_and_get_sn_ts m pkt marker in
      (m' ≡ m)
      × (error ≡ none)
      × (params.sn_ordering ≡ out_of_order)
      × (params.ext_sequence_number ≡ sub64 pkt.ext_sequence_number offset)
      × (params.ext_sequence_number < m.ext_last_sn)
      × (params.ext_timestamp ≡ sub64 pkt.ext_timestamp m.ts_offset)
update_and_get_sn_ts_late m pkt marker offset v asc lo room lt found =
    let below : sub64 pkt.ext_sequence_number offset < m.ext_last_sn =
      rw (v.aligned, v.offset)
        (get_value_mono m.sn_range_map pkt.ext_sequence_number m.ext_highest_incoming_sn offset
          m.sn_range_map.last.value v.valid asc room lt found
          (get_value-last m.sn_range_map m.ext_highest_incoming_sn lo)) in
    simp
      (
        update_looks_up m pkt marker lt (omega (arith, v.room)),
        found,
        lt→leb_false m.ext_last_sn _ below,
      )
      (refl, refl, refl, refl, below, refl)

-- A packet behind the highest one that has no offset, or the highest one again, is refused and
-- changes nothing.
pub update_and_get_sn_ts_refused :
    (m : RtpMunger) (pkt : ExtPacket) (marker : Bool) (e : Error)
    → IsReady m
    → pkt.ext_sequence_number < m.ext_highest_incoming_sn
    → get_value m.sn_range_map pkt.ext_sequence_number ≡ err e
    → update_and_get_sn_ts m pkt marker ≡ (m, failed out_of_order, some out_of_order_cache_miss)
update_and_get_sn_ts_refused m pkt marker e v lt missing =
    simp (update_looks_up m pkt marker lt (omega (arith, v.room)), missing)

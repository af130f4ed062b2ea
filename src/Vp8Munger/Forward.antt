-- ===== src/Vp8Munger/Forward.antt =====
-- pkg/sfu/codecmunger/vp8.go: `UpdateAndGet` and `UpdateAndGetPadding`.
use voicekit.Prelude.{
  ℕ, zero, suc, ◌+◌, ◌%◌, ◌^◌, Bool, true, false, ◌&&◌, ◌||◌, not, Option, none, some, List, ltb,
  ◌==◌, if◌then◌else◌, sub8, add8,
}
use voicekit.Vp8Header.{Vp8, marshal, add_picture_id_size_diff}
use voicekit.Vp8Munger.Unwrap.{unwrap, update_max_picture_id, add32, sub32, lt32}
use voicekit.Vp8Munger.{
  OrderedMap, Vp8Munger, ExtPacket, Outcome, ok, err, panics, cache_miss, filtered_layer, not_vp8,
  trim, put_and_trim, has, missing_picture_ids_threshold, dropped_picture_ids_threshold,
  exempted_picture_ids_threshold,
}

-- The new header of a packet with other indices.
abbrev pub munge : Vp8 → ℕ → ℕ → ℕ → Vp8
munge p picture_id tl0_pic_idx key_idx = record p {
  s = false;
  m = ltb 127 picture_id;
  picture_id = picture_id;
  tl0_pic_idx = tl0_pic_idx;
  key_idx = key_idx;
  header_size = add_picture_id_size_diff p.header_size (ltb 127 picture_id) p.m;
}

abbrev pub outcome_of : ℕ → Option (List ℕ) → Outcome
outcome_of size none = panics
outcome_of size (some bytes) = ok size bytes

-- The number of rounds of the loop over the pictures that a gap can belong to.
abbrev pub lost_pictures : ℕ → ℕ → ℕ
lost_pictures prev_max ext_picture_id =
    if lt32 ext_picture_id prev_max then 0 else sub32 ext_picture_id prev_max + 1

module _ {I : OrderedMap ℕ} {B : OrderedMap Bool} where
  -- A late packet has the offset that its picture had when it was missed.
  abbrev pub late_outcome : Vp8Munger I B → Vp8 → ℕ → Option ℕ → Outcome
  late_outcome v p ext_picture_id none = err cache_miss
  late_outcome v p ext_picture_id (some offset) = outcome_of p.header_size (
      marshal (
        munge p (sub32 ext_picture_id offset % 2 ^ 15) (sub8 p.tl0_pic_idx v.tl0_pic_idx_offset)
          (sub8 p.key_idx v.key_idx_offset)))

  -- The loop over the pictures that a gap can belong to, from `lost` on. The id before the largest
  -- int32 is never reached.
  pub record_missing : Vp8Munger I B → ℕ → ℕ → I.Carrier → I.Carrier
  record_missing v zero lost missing = missing
  record_missing v (suc rounds) lost missing =
      record_missing v rounds (add32 lost 1)
        (if has B lost v.dropped then missing else I.put lost v.picture_id_offset missing)

  abbrev pub after_gap : Vp8Munger I B → ℕ → ℕ → Bool → Vp8Munger I B
  after_gap v prev_max ext_picture_id filtered =
      let missing = record_missing v (lost_pictures prev_max ext_picture_id) prev_max v.missing in
      record v {
        missing = trim I (I.len missing) missing_picture_ids_threshold missing;
        exempted =
            if filtered
            then put_and_trim B exempted_picture_ids_threshold ext_picture_id true v.exempted
            else v.exempted;
      }

  -- A picture is counted as dropped with its first packet only.
  abbrev pub drop_picture : Vp8Munger I B → ℕ → ℕ → Bool → Vp8Munger I B
  drop_picture v prev_max ext_picture_id i =
      if i && not (prev_max == ext_picture_id)
      then record v {
        dropped = put_and_trim B dropped_picture_ids_threshold ext_picture_id true v.dropped;
        picture_id_offset = add32 v.picture_id_offset 1;
      }
      else v

  unfoldable pub forward : Vp8Munger I B → Vp8 → ℕ → Vp8Munger I B × Outcome
  forward v p ext_picture_id =
      let ext_munged = sub32 ext_picture_id v.picture_id_offset in
      let tl0 = sub8 p.tl0_pic_idx v.tl0_pic_idx_offset in
      let key_idx = sub8 p.key_idx v.key_idx_offset % 32 in
      (
        record v {
          ext_last_picture_id = ext_munged;
          last_tl0_pic_idx = tl0;
          last_key_idx = key_idx;
        },
        outcome_of p.header_size (marshal (munge p (ext_munged % 2 ^ 15) tl0 key_idx)),
      )

  -- A packet in order, once the highest id is updated from `prev_max`.
  unfoldable pub in_order : Vp8Munger I B → Vp8 → ℕ → ℕ → Bool → Bool → Vp8Munger I B × Outcome
  in_order v p prev_max ext_picture_id sn_has_gap filtered =
      if sn_has_gap
      then forward (after_gap v prev_max ext_picture_id filtered) p ext_picture_id
      else if filtered && not (has B ext_picture_id v.exempted)
      then (drop_picture v prev_max ext_picture_id p.i, err filtered_layer)
      else forward v p ext_picture_id

  abbrev pub update_and_get_payload :
      Vp8Munger I B → Option Vp8 → Bool → Bool → Bool → Vp8Munger I B × Outcome
  update_and_get_payload v none sn_out_of_order sn_has_gap filtered = (v, err not_vp8)
  update_and_get_payload v (some p) sn_out_of_order sn_has_gap filtered =
      let (handler, ext_picture_id) = unwrap v.wrap_handler p.picture_id p.m in
      let late : Vp8Munger I B = record v { wrap_handler = handler } in
      let current : Vp8Munger I B = record v {
        wrap_handler = update_max_picture_id handler ext_picture_id p.m;
      } in
      if sn_out_of_order
      then (late, late_outcome v p ext_picture_id (I.get ext_picture_id v.missing))
      else in_order current p handler.max_picture_id ext_picture_id sn_has_gap filtered

  unfoldable pub update_and_get :
      Vp8Munger I B → ExtPacket → Bool → Bool → ℕ → Vp8Munger I B × Outcome
  update_and_get v ext_pkt sn_out_of_order sn_has_gap max_temporal_layer =
      update_and_get_payload v ext_pkt.payload sn_out_of_order sn_has_gap
        (lt32 max_temporal_layer ext_pkt.temporal)

  abbrev pub padding_size : Vp8Munger I B → ℕ → ℕ
  padding_size v ext_picture_id =
      (if v.picture_id_used || v.tl0_pic_idx_used || v.tid_used || v.key_idx_used then 2 else 1)
      + (if v.picture_id_used then if ltb 127 (ext_picture_id % 2 ^ 15) then 2 else 1 else 0)
      + (if v.tl0_pic_idx_used then 1 else 0)
      + (if v.tid_used || v.key_idx_used then 1 else 0)

  pub padding_header : Vp8Munger I B → Vp8
  padding_header v =
      let picture_id = v.ext_last_picture_id % 2 ^ 15 in
      record {
        first_byte = 16;
        s = false;
        i = v.picture_id_used;
        m = ltb 127 picture_id;
        picture_id = picture_id;
        l = v.tl0_pic_idx_used;
        tl0_pic_idx = if v.tl0_pic_idx_used then v.last_tl0_pic_idx else 0;
        t = v.tid_used;
        tid = 0;
        y = true;
        k = v.key_idx_used;
        key_idx = if v.key_idx_used then v.last_key_idx else 0;
        header_size = padding_size v v.ext_last_picture_id;
        is_key_frame = true;
      }

  -- The indices of a padding packet, which begins a new picture where `offset` is 1.
  abbrev pub advance : Vp8Munger I B → ℕ → Vp8Munger I B
  advance v offset = record v {
    ext_last_picture_id =
        if v.picture_id_used then add32 v.ext_last_picture_id offset else v.ext_last_picture_id;
    picture_id_offset =
        if v.picture_id_used then sub32 v.picture_id_offset offset else v.picture_id_offset;
    last_tl0_pic_idx =
        if v.tl0_pic_idx_used then add8 v.last_tl0_pic_idx offset else v.last_tl0_pic_idx;
    tl0_pic_idx_offset =
        if v.tl0_pic_idx_used then sub8 v.tl0_pic_idx_offset offset else v.tl0_pic_idx_offset;
    last_key_idx = if v.key_idx_used then add8 v.last_key_idx offset % 32 else v.last_key_idx;
    key_idx_offset = if v.key_idx_used then sub8 v.key_idx_offset offset else v.key_idx_offset;
  }

  -- `none` where `Marshal` panics.
  pub update_and_get_padding : Vp8Munger I B → Bool → Vp8Munger I B × Option (List ℕ)
  update_and_get_padding v new_picture =
      let v' = advance v (if new_picture then 1 else 0) in (v', marshal (padding_header v'))

-- ===== src/Sequencer/Window.antt =====
-- pkg/sfu/sequencer.go: what `push` of a packet ahead of the highest one stores.
use voicekit.Prelude.{
  ℕ, ◌+◌, ◌-◌, ◌%◌, ◌^◌, ◌≤◌, ◌<◌, ◌≡◌, ◌∙◌, true, none, some, Option, length, length-set, set,
  arith, add64, sub64, lt→leb_false, lt→ltb, le→ltb_false, max,
}
use voicekit.RangeMap.{RangeMap, ok}
use voicekit.RangeMap.Lookup.{IsValid}
use voicekit.RangeMap.Updates.{get_value-last}
use voicekit.Sequencer.{
  Sequencer, PushArgs, invalidate_missing, meta_of, store, push_started, push, offset_at, offset_in,
}
use voicekit.Sequencer.Slots.{length-invalidate_missing}

-- The offset of the numbers past the highest one: that of the open range.
abbrev pub OpensAt : Sequencer → Option RangeMap → Type 0
OpensAt s none = s.sn_offset ≡ 0
OpensAt s (some r) =
    IsValid r × (r.last.start ≤ s.ext_highest_sn + 1) × (s.sn_offset ≡ r.last.value)

-- A started sequencer whose slots are all there. `room` keeps its numbers below half of the 64-bit
-- range.
pub record IsReady (s : Sequencer) : Type 0 where
  pub started : s.initialized ≡ true
  pub slots : length s.meta ≡ s.size
  pub some_slot : 0 < s.size
  pub size_word : s.size < 2 ^ 62
  pub start_low : s.ext_start_sn ≤ s.ext_highest_sn
  pub offset_low : s.sn_offset ≤ s.ext_highest_sn
  pub opens : OpensAt s s.sn_range_map
  pub room : s.ext_highest_sn + 1 < 2 ^ 62

-- The numbers past the highest one have the sequencer's offset.
pub offset_at-open :
    (s : Sequencer) (sn : ℕ) → IsReady s → s.ext_highest_sn < sn → offset_at s sn ≡ ok s.sn_offset
offset_at-open s sn v h = go s.sn_range_map v.opens
  where
    go : (m : Option RangeMap) → OpensAt s m → offset_in sn m ≡ ok s.sn_offset
    go none o = rw o
    go (some r) o = rw (o.2) (get_value-last r sn (omega (arith, o.1)))

-- The state after a packet ahead of the highest one.
abbrev pub stored : Sequencer → PushArgs → Sequencer
stored s a = record s {
  meta =
      set
        (invalidate_missing s.size s.size (s.ext_highest_sn - s.sn_offset + 1)
          (a.ext_modified_sn - s.sn_offset) s.meta)
        ((a.ext_modified_sn - s.sn_offset) % s.size) (meta_of s a);
  ext_highest_sn = a.ext_modified_sn;
  ext_highest_ts = max s.ext_highest_ts a.ext_modified_ts;
}

store-ahead :
    (s : Sequencer) (a : PushArgs)
    → IsReady s
    → s.ext_highest_sn < a.ext_modified_sn
    → a.ext_modified_sn + 1 < 2 ^ 62
    → store s a (sub64 a.ext_modified_sn s.sn_offset) ≡ stored s a
unfolding store
store-ahead s a v h room =
    let adjusted : sub64 a.ext_modified_sn s.sn_offset ≡ a.ext_modified_sn - s.sn_offset =
      omega (arith, v.offset_low) in
    let highest : sub64 s.ext_highest_sn s.sn_offset ≡ s.ext_highest_sn - s.sn_offset =
      omega (arith, v.offset_low, v.room) in
    let top = s.ext_highest_sn - s.sn_offset in
    let new = a.ext_modified_sn - s.sn_offset in
    let distance : sub64 new top ≡ new - top = omega (arith, v.offset_low) in
    let next : add64 top 1 ≡ top + 1 = omega (arith, v.room) in
    let higher : max s.ext_highest_sn a.ext_modified_sn ≡ a.ext_modified_sn = omega arith in
    simp (
      adjusted,
      highest,
      distance,
      next,
      higher,
      lt→leb_false (2 ^ 63) (new - top) (omega arith),
      lt→ltb top new (omega (arith, v.offset_low)),
    )

push-push_started :
    (s : Sequencer) (a : PushArgs) → s.initialized ≡ true → push s a ≡ push_started s a
unfolding push
push-push_started s a h = simp h

pub push-ahead :
    (s : Sequencer) (a : PushArgs)
    → IsReady s
    → s.ext_highest_sn < a.ext_modified_sn
    → a.ext_modified_sn + 1 < 2 ^ 62
    → push s a ≡ stored s a
unfolding push_started
push-ahead s a v h room =
    push-push_started s a v.started
    ∙ simp
        (
          le→ltb_false a.ext_modified_sn s.ext_start_sn (omega (arith, v.start_low)),
          le→ltb_false a.ext_modified_sn s.ext_highest_sn (omega arith),
        )
        (store-ahead s a v h room)

pub length-stored : (s : Sequencer) (a : PushArgs) → length (stored s a).meta ≡ length s.meta
length-stored s a = length-set _ _ _ ∙ length-invalidate_missing s.size s.size _ _ s.meta

-- `push` of a packet ahead keeps the sequencer ready.
push-IsReady :
    (s : Sequencer) (a : PushArgs)
    → IsReady s
    → s.ext_highest_sn < a.ext_modified_sn
    → a.ext_modified_sn + 1 < 2 ^ 62
    → IsReady (push s a)
push-IsReady s a v h room = rw (push-ahead s a v h room) (record {
  started = v.started;
  slots = length-stored s a ∙ v.slots;
  some_slot = v.some_slot;
  size_word = v.size_word;
  start_low = omega (arith, v.start_low);
  offset_low = omega (arith, v.offset_low);
  opens = still_opens s.sn_range_map v.opens;
  room = room;
})
  where
    still_opens : (m : Option RangeMap) → OpensAt s m → OpensAt (stored s a) m
    still_opens none o = o
    still_opens (some r) o = (o.0, omega (arith, o.1), o.2)

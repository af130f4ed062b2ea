-- ===== src/Sequencer/Padding.antt =====
-- pkg/sfu/sequencer.go: `pushPadding` past the highest number excludes the padding from the window.
use mathlib.Core.Path.{subst}
use native.Mathlib.Decide.{dec_lt}
use voicekit.Prelude.{
  ℕ, ◌+◌, ◌-◌, ◌^◌, ◌≤◌, ◌<◌, ◌≡◌, refl, ap, ◌∙◌, true, none, some, arith, add64, lt→leb_false,
  le→leb, lt→ltb, le→ltb_false,
}
use voicekit.RangeMap.{
  RangeMap, Error, err, oldest, key_too_old, key_excluded, exclude_range, get_value,
}
use voicekit.RangeMap.Lookup.{IsValid}
use voicekit.RangeMap.Updates.{
  get_value-last, get_value-exclude_range, exclude_range-last, exclude_range-IsValid,
}
use voicekit.Sequencer.{
  Sequencer, read_offset, set_offset, exclude_padding, push_padding_in, push_padding,
  update_sn_offset, slot_of, slot_from, offset_in, lookup_ext_packet_meta,
}
use voicekit.Sequencer.Lookups.{lookup_outside}
use voicekit.Sequencer.Window.{IsReady, OpensAt}

-- The state after padding from `start` to `end`, where the open range of the new map is `r'`.
abbrev excluded : Sequencer → RangeMap → ℕ → Sequencer
excluded s r' end = record s {
  sn_range_map = some r';
  ext_highest_sn = end;
  sn_offset = r'.last.value;
}

update_sn_offset-open :
    (s : Sequencer) (r : RangeMap)
    → s.sn_range_map ≡ some r
    → s.ext_highest_sn < 2 ^ 63
    → r.last.start ≤ s.ext_highest_sn + 1
    → update_sn_offset s ≡ record s { sn_offset = r.last.value }
unfolding update_sn_offset
update_sn_offset-open s r h room lo =
    ap (read_offset s) h
    ∙ ap (set_offset s) (get_value-last r (add64 s.ext_highest_sn 1) (omega arith))

push_padding_in-ahead :
    (s : Sequencer) (r : RangeMap) (start end : ℕ)
    → s.initialized ≡ true
    → s.ext_highest_sn < start
    → end + 1 < 2 ^ 62
    → push_padding_in s start end (some r) ≡ exclude_padding s end (exclude_range r start (end + 1))
push_padding_in-ahead s r start end h above room =
    let next : add64 end 1 ≡ end + 1 = omega arith in
    simp (h, next, lt→leb_false start s.ext_highest_sn above)

push_padding-excluded :
    (s : Sequencer) (r : RangeMap) (start end : ℕ)
    → s.initialized ≡ true
    → s.sn_range_map ≡ some r
    → IsValid r
    → r.last.start ≤ start
    → s.ext_highest_sn < start
    → start ≤ end
    → end + 1 < 2 ^ 62
    → push_padding s start end ≡ excluded s (exclude_range r start (end + 1)).0 end
unfolding push_padding
push_padding-excluded s r start end h m v lo above le room =
    let (start', value) = exclude_range-last r start (end + 1) lo (omega arith) (omega arith) in
    let done = (get_value-exclude_range r start (end + 1) 0 v lo (omega arith) (omega arith)).0 in
    ap (push_padding_in s start end) m
    ∙ push_padding_in-ahead s r start end h above room
    ∙ ap (λ e. exclude_padding s end ((exclude_range r start (end + 1)).0, e)) done
    ∙ update_sn_offset-open _ _ refl (omega arith) (omega arith)

-- The lookup of a number that has no offset.
slot_of-error :
    (s : Sequencer) (r : RangeMap) (sn : ℕ) (e : Error)
    → s.sn_range_map ≡ some r
    → get_value r sn ≡ err e
    → slot_of s sn ≡ none
unfolding slot_of
slot_of-error s r sn e m h = ap (slot_from s sn) (ap (offset_in sn) m ∙ h)

excluded-error :
    (r : RangeMap) (start end sn : ℕ)
    → IsValid r
    → r.last.start ≤ start
    → start ≤ sn
    → sn ≤ end
    → end + 1 < 2 ^ 62
    → (e : Error) × (get_value (exclude_range r start (end + 1)).0 sn ≡ err e)
excluded-error r start end sn v lo from to room =
    let (_, _, answer) =
      get_value-exclude_range r start (end + 1) sn v lo (omega arith) (omega arith) in
    let r' = (exclude_range r start (end + 1)).0 in
    elim (dec_lt sn (oldest r'.last r'.earlier).start) [
      | yes old ↦ (key_too_old, answer ∙ rw (lt→ltb _ _ old))
      | no kept ↦ (
        key_excluded,
        answer
            ∙ rw (
              le→ltb_false sn (oldest r'.last r'.earlier).start (omega arith),
              lt→leb_false (end + 1) sn (omega arith),
              le→leb start sn from,
            ),
      )
    ]

-- In a ready sequencer with a range map, padding past the highest number is left out of the window:
-- the sequencer stays ready, its highest adjusted number is the one just before the padding, and the
-- padding itself is not found.
pub push_padding_lem :
    (s : Sequencer) (r : RangeMap) (start end sn : ℕ)
    → IsReady s
    → s.sn_range_map ≡ some r
    → s.ext_highest_sn < start
    → start ≤ end
    → end + 1 < 2 ^ 62
    → start ≤ sn
    → sn ≤ end
    → let s' = push_padding s start end in
      IsReady s'
      × (s'.ext_highest_sn - s'.sn_offset ≡ start - 1 - s.sn_offset)
      × (lookup_ext_packet_meta s' sn ≡ none)
push_padding_lem s r start end sn v m above le room from to =
    let (valid, opens, offset) : OpensAt s (some r) = subst (OpensAt s) m v.opens in
    let lo : r.last.start ≤ start = omega arith in
    let r' = (exclude_range r start (end + 1)).0 in
    let (start', value) = exclude_range-last r start (end + 1) lo (omega arith) (omega arith) in
    let (e, missing) = excluded-error r start end sn valid lo from to room in
    let grown : r'.last.value ≡ s.sn_offset + (end + 1 - start) =
      value ∙ omega (arith, v.offset_low) in
    rw (push_padding-excluded s r start end v.started m valid lo above le room) (
      record {
        started = v.started;
        slots = v.slots;
        some_slot = v.some_slot;
        size_word = v.size_word;
        start_low = omega (arith, v.start_low);
        offset_low = omega (arith, v.offset_low);
        opens = (
          exclude_range-IsValid r start (end + 1) valid lo (omega arith) (omega arith),
          omega arith,
          refl,
        );
        room = room;
      },
      omega (arith, v.offset_low),
      lookup_outside (excluded s r' end) sn
          (slot_of-error (excluded s r' end) r' sn e refl missing),
    )

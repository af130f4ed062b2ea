-- ===== src/Sequencer/Found.antt =====
-- pkg/sfu/sequencer.go: what `lookupExtPacketMeta` finds after `push` of a packet ahead.
use native.Mathlib.Decide.{dec_lt}
use native.Mathlib.Nat.{mod-lt}
use voicekit.Prelude.{
  ℕ, ◌+◌, ◌-◌, ◌%◌, ◌^◌, ◌≤◌, ◌<◌, ◌≡◌, refl, sym, ap, List, [], ◌∷◌, take, Bool-cases, inl, inr,
  ltb, ◌++◌, replicate, zero, suc, u8_mod, u16_mod, u32_mod, ◌∙◌, none, some, length, length-set,
  get_or, get_or-set_self, get_or-set_ne, arith, sub64, lt→leb_false, le→leb, leb, if◌then◌else◌,
}
use voicekit.Sequencer.{
  empty_meta, Sequencer, PushArgs, ExtPacketMeta, invalidate_missing, meta_of, get_ref_time,
  in_array, in_slice, PacketMeta, push, slot_of, lookup_ext_packet_meta,
}
use voicekit.Sequencer.Lookups.{
  lookup_in_slot, lookup_outside, found_at-meta, valid_slot, empty_slot, extend_ts-low_part,
}
use voicekit.Sequencer.Slots.{slot-ne, invalidate_missing-clears, length-invalidate_missing}
use voicekit.Sequencer.Window.{IsReady, stored, push-ahead, offset_at-open}

-- The window after a packet ahead, for any number that was above the highest one.
slot_of-stored :
    (s : Sequencer) (a : PushArgs) (sn : ℕ)
    → IsReady s
    → s.ext_highest_sn < sn
    → sn ≤ a.ext_modified_sn
    → a.ext_modified_sn + 1 < 2 ^ 62
    → slot_of (stored s a) sn
      ≡ (if leb s.size (a.ext_modified_sn - sn) then none else some ((sn - s.sn_offset) % s.size))
unfolding slot_of
slot_of-stored s a sn v lo hi room =
    let adjusted : sub64 sn s.sn_offset ≡ sn - s.sn_offset = omega (arith, v.offset_low) in
    let top : sub64 a.ext_modified_sn s.sn_offset ≡ a.ext_modified_sn - s.sn_offset =
      omega (arith, v.offset_low) in
    let distance : sub64 (a.ext_modified_sn - s.sn_offset) (sn - s.sn_offset)
        ≡ a.ext_modified_sn - sn =
      omega (arith, v.offset_low) in
    simp (offset_at-open s sn v lo, adjusted, top, distance)

-- The bytes of a descriptor, as the down track reads them: the slice, if it has any, else the first
-- bytes of the array.
abbrev pub stored_bytes : List ℕ → ℕ → List ℕ → List ℕ
stored_bytes array size [] = take size array
stored_bytes array size (b ∷ slice) = b ∷ slice

-- An entry that holds what was pushed
pub record HoldsPushed (s : Sequencer) (a : PushArgs) (m : PacketMeta) : Type 0 where
  pub source : m.source_seq_no ≡ a.ext_incoming_sn
  pub target : m.target_seq_no ≡ a.ext_modified_sn % u16_mod
  pub timestamp : m.timestamp ≡ a.ext_modified_ts % u32_mod
  pub marker : m.marker ≡ a.marker
  pub last_nack : m.last_nack ≡ get_ref_time s a.packet_time
  pub nacked : m.nacked ≡ 0
  pub layer : m.layer ≡ a.layer
  pub codec_bytes :
      stored_bytes m.codec_bytes m.num_codec_bytes_out m.codec_bytes_slice ≡ a.codec_bytes
  pub num_codec_bytes_in : m.num_codec_bytes_in ≡ a.num_codec_bytes_in % u8_mod
  pub dd_bytes : stored_bytes m.dd_bytes m.dd_bytes_size m.dd_bytes_slice ≡ a.dd_bytes
  pub act_bytes : m.act_bytes ≡ a.act_bytes

-- What is found is what `store` put into the slot.
lookup-push_meta :
    (s : Sequencer) (a : PushArgs)
    → IsReady s
    → s.ext_highest_sn < a.ext_modified_sn
    → a.ext_modified_sn + 1 < 2 ^ 62
    → 0 < a.ext_incoming_sn
    → s.ext_highest_ts < 2 ^ 63
    → a.ext_modified_ts < 2 ^ 63
    → s.ext_highest_ts < a.ext_modified_ts + 2 ^ 32
    → lookup_ext_packet_meta (push s a) a.ext_modified_sn
      ≡ some (record {
        meta = meta_of s a;
        ext_sequence_number = a.ext_modified_sn;
        ext_timestamp = a.ext_modified_ts;
      })
unfolding meta_of
lookup-push_meta s a v h room real hts ts near =
    let slot = (a.ext_modified_sn - s.sn_offset) % s.size in
    let in_window : slot_of (stored s a) a.ext_modified_sn ≡ some slot =
      slot_of-stored s a a.ext_modified_sn v h (omega arith) room
      ∙ rw (
          lt→leb_false s.size (a.ext_modified_sn - a.ext_modified_sn)
            (omega (arith, v.some_slot))) in
    let here : slot
        < length (
            invalidate_missing s.size s.size (s.ext_highest_sn - s.sn_offset + 1)
              (a.ext_modified_sn - s.sn_offset) s.meta) =
      rw
        (
          length-invalidate_missing s.size s.size (s.ext_highest_sn - s.sn_offset + 1)
              (a.ext_modified_sn - s.sn_offset) s.meta,
          v.slots,
        )
        (mod-lt (a.ext_modified_sn - s.sn_offset) v.some_slot) in
    let held : get_or (stored s a).meta slot empty_meta ≡ meta_of s a =
      get_or-set_self _ slot (meta_of s a) empty_meta here in
    rw (push-ahead s a v h room) (
      lookup_in_slot (stored s a) a.ext_modified_sn slot v.started in_window
      ∙ rw (valid_slot (stored s a).meta slot (rw length-set here) (rw (held, meta_of) real)) (
          ap some (
            found_at-meta (stored s a) a.ext_modified_sn slot (meta_of s a) held
            ∙ ap {A = ℕ} {B = ExtPacketMeta}
                (λ t. record {
                  meta = meta_of s a;
                  ext_sequence_number = a.ext_modified_sn;
                  ext_timestamp = t;
                })
                (extend_ts-low_part (stored s a) a.ext_modified_ts (omega arith) (omega arith)
                  (omega arith)))))

take-append : (k : ℕ) (xs ys : List ℕ) → length xs ≤ k → take (length xs) (take k (xs ++ ys)) ≡ xs
take-append zero [] ys h = refl
take-append (suc k) [] ys h = refl
take-append zero (x ∷ xs) ys h = absurd (omega arith)
take-append (suc k) (x ∷ xs) ys h = ap (λ l. x ∷ l) (take-append k xs ys (omega arith))

stored_bytes-slice :
    (array : List ℕ) (size : ℕ) (bytes : List ℕ)
    → 0 < length bytes
    → stored_bytes array size bytes ≡ bytes
stored_bytes-slice array size [] h = absurd (omega arith)
stored_bytes-slice array size (b ∷ bytes) h = refl

-- All bytes that were pushed, wherever they are
stored_bytes-in :
    (bytes : List ℕ)
    → stored_bytes (in_array bytes) (length bytes % u8_mod) (in_slice bytes) ≡ bytes
stored_bytes-in bytes = elim (Bool-cases (ltb 8 (length bytes))) [
  | inl long ↦
      rw long (stored_bytes-slice (replicate 8 0) (length bytes % u8_mod) bytes (ground arith))
  | inr short ↦
      let e : length bytes % u8_mod ≡ length bytes = ground arith in
      rw (short, e) (take-append 8 bytes (replicate 8 0) (ground arith))
]

meta_of-HoldsPushed : (s : Sequencer) (a : PushArgs) → HoldsPushed s a (meta_of s a)
unfolding meta_of
meta_of-HoldsPushed s a = record {
  source = refl;
  target = refl;
  timestamp = refl;
  marker = refl;
  last_nack = refl;
  nacked = refl;
  layer = refl;
  codec_bytes = stored_bytes-in a.codec_bytes;
  num_codec_bytes_in = refl;
  dd_bytes = stored_bytes-in a.dd_bytes;
  act_bytes = refl;
}

-- In a ready sequencer, a packet ahead of the highest one, whose incoming number is not 0, is found
-- again under its number, and with its own timestamp where that is less than 2 ^ 32 below the highest;
-- the numbers and timestamps are far from the end of 64 bits. What is found holds the incoming number,
-- the low parts of the outgoing number, of the timestamp and of the size of the incoming codec header,
-- the marker, the layer, the time of the packet and all the bytes that were pushed, and counts no
-- request.
pub lookup-push_self :
    (s : Sequencer) (a : PushArgs)
    → IsReady s
    → s.ext_highest_sn < a.ext_modified_sn
    → a.ext_modified_sn + 1 < 2 ^ 62
    → 0 < a.ext_incoming_sn
    → s.ext_highest_ts < 2 ^ 63
    → a.ext_modified_ts < 2 ^ 63
    → s.ext_highest_ts < a.ext_modified_ts + 2 ^ 32
    → (m : PacketMeta) × (lookup_ext_packet_meta (push s a) a.ext_modified_sn
        ≡ some (record {
          meta = m;
          ext_sequence_number = a.ext_modified_sn;
          ext_timestamp = a.ext_modified_ts;
        }))
      × HoldsPushed s a m
lookup-push_self s a v h room real hts ts near =
    (meta_of s a, lookup-push_meta s a v h room real hts ts near, meta_of-HoldsPushed s a)

-- In a ready sequencer, the numbers that a packet ahead skips are not found after it.
pub lookup-push_missing :
    (s : Sequencer) (a : PushArgs) (sn : ℕ)
    → IsReady s
    → s.ext_highest_sn < sn
    → sn < a.ext_modified_sn
    → a.ext_modified_sn + 1 < 2 ^ 62
    → lookup_ext_packet_meta (push s a) sn ≡ none
lookup-push_missing s a sn v lo hi room =
    rw (push-ahead s a v (omega arith) room) (elim (dec_lt (a.ext_modified_sn - sn) s.size) [
      | no outside ↦ lookup_outside (stored s a) sn (
          slot_of-stored s a sn v lo (omega arith) room
          ∙ rw (le→leb s.size (a.ext_modified_sn - sn) (omega arith)))
      | yes inside ↦
          let slot = (sn - s.sn_offset) % s.size in
          let in_window : slot_of (stored s a) sn ≡ some slot =
            slot_of-stored s a sn v lo (omega arith) room
            ∙ rw (lt→leb_false s.size (a.ext_modified_sn - sn) inside) in
          let cleared : get_or (stored s a).meta slot empty_meta ≡ empty_meta =
            get_or-set_ne _ (meta_of s a) empty_meta (λ e.
              slot-ne s.size (sn - s.sn_offset) (a.ext_modified_sn - s.sn_offset)
                (omega (arith, v.offset_low)) (omega (arith, v.offset_low)) (sym e))
            ∙ invalidate_missing-clears s.size (s.ext_highest_sn - s.sn_offset + 1)
                (a.ext_modified_sn - s.sn_offset) (sn - s.sn_offset) s.meta v.some_slot
                (omega (arith, v.offset_low)) (omega (arith, v.offset_low)) (omega arith) in
          lookup_in_slot (stored s a) sn slot v.started in_window
          ∙ rw (empty_slot (stored s a).meta slot cleared)
    ])

-- ===== src/Sequencer/Lookups.antt =====
-- pkg/sfu/sequencer.go: `lookupExtPacketMeta` by the slot of the number.
use voicekit.Prelude.{
  ℕ, ◌+◌, ◌%◌, ◌^◌, ◌≤◌, ◌<◌, ◌≡◌, true, false, none, some, length, get_or, arith, u32_mod,
  if◌then◌else◌, lt→leb_false, ne→==, List,
}
use voicekit.Sequencer.{
  PacketMeta, empty_meta, Sequencer, ExtPacketMeta, is_invalid_slot, slot_of, extend_ts,
  lookup_ext_packet_meta,
}

abbrev pub found_at : Sequencer → ℕ → ℕ → ExtPacketMeta
found_at s ext_sn slot = record {
  meta = get_or s.meta slot empty_meta;
  ext_sequence_number = ext_sn;
  ext_timestamp = extend_ts s (get_or s.meta slot empty_meta).timestamp;
}

pub lookup_in_slot :
    (s : Sequencer) (ext_sn slot : ℕ)
    → s.initialized ≡ true
    → slot_of s ext_sn ≡ some slot
    → lookup_ext_packet_meta s ext_sn
      ≡ (if is_invalid_slot s.meta slot then none else some (found_at s ext_sn slot))
unfolding lookup_ext_packet_meta
lookup_in_slot s ext_sn slot h e = simp (h, e)

pub lookup_outside :
    (s : Sequencer) (ext_sn : ℕ) → slot_of s ext_sn ≡ none → lookup_ext_packet_meta s ext_sn ≡ none
unfolding lookup_ext_packet_meta
lookup_outside s ext_sn e = rw (e, lookup_ext_packet_meta) (ground arith)

-- Within one cycle of 32 bits below the highest timestamp, extending the low part gives it back.
pub extend_ts-low_part :
    (s : Sequencer) (ts : ℕ)
    → s.ext_highest_ts < 2 ^ 63
    → ts ≤ s.ext_highest_ts
    → s.ext_highest_ts < ts + 2 ^ 32
    → extend_ts s (ts % u32_mod) ≡ ts
extend_ts-low_part s ts room le near = ground arith

pub valid_slot :
    (meta : List PacketMeta) (slot : ℕ)
    → slot < length meta
    → 0 < (get_or meta slot empty_meta).source_seq_no
    → is_invalid_slot meta slot ≡ false
valid_slot meta slot h real = simp (
  lt→leb_false (length meta) slot h,
  ne→== (get_or meta slot empty_meta).source_seq_no 0 (omega arith),
)

pub empty_slot :
    (meta : List PacketMeta) (slot : ℕ)
    → get_or meta slot empty_meta ≡ empty_meta
    → is_invalid_slot meta slot ≡ true
empty_slot meta slot h = simp h (ground arith)

pub found_at-meta :
    (s : Sequencer) (ext_sn slot : ℕ) (m : PacketMeta)
    → get_or s.meta slot empty_meta ≡ m
    → found_at s ext_sn slot
      ≡ record { meta = m; ext_sequence_number = ext_sn; ext_timestamp = extend_ts s m.timestamp }
found_at-meta s ext_sn slot m h = rw h

-- ===== src/Sequencer/Earlier.antt =====
-- pkg/sfu/sequencer.go: `push` of a packet ahead leaves the packets that stay in the window alone.
use voicekit.Prelude.{
  ℕ, ◌+◌, ◌-◌, ◌%◌, ◌^◌, ◌≤◌, ◌<◌, ◌≡◌, sym, ◌∙◌, true, none, some, Option, length, get_or,
  get_or-set_ne, arith, sub64, lt→leb_false,
}
use voicekit.RangeMap.{ok}
use voicekit.Sequencer.{
  PacketMeta, empty_meta, Sequencer, PushArgs, ExtPacketMeta, meta_of, push, offset_at, slot_of,
  lookup_ext_packet_meta,
}
use voicekit.Sequencer.Lookups.{lookup_in_slot}
use voicekit.Sequencer.Slots.{slot-ne, invalidate_missing-keeps}
use voicekit.Sequencer.Window.{IsReady, stored, length-stored, push-ahead}

-- What was stored, without the timestamp that is computed at the lookup.
abbrev pub found_meta : Option ExtPacketMeta → Option PacketMeta
found_meta none = none
found_meta (some m) = some m.meta

slot_of-in_window :
    (s : Sequencer) (sn v : ℕ)
    → offset_at s sn ≡ ok v
    → v ≤ sn
    → sn < 2 ^ 63
    → s.sn_offset ≤ s.ext_highest_sn
    → s.ext_highest_sn < 2 ^ 63
    → sn - v ≤ s.ext_highest_sn - s.sn_offset
    → s.ext_highest_sn - s.sn_offset < sn - v + s.size
    → slot_of s sn ≡ some ((sn - v) % s.size)
unfolding slot_of
slot_of-in_window s sn v found le word low room hi near =
    let adjusted : sub64 sn v ≡ sn - v = omega arith in
    let top : sub64 s.ext_highest_sn s.sn_offset ≡ s.ext_highest_sn - s.sn_offset = omega arith in
    let distance : sub64 (s.ext_highest_sn - s.sn_offset) (sn - v)
        ≡ s.ext_highest_sn - s.sn_offset - (sn - v) =
      omega arith in
    simp (
      found,
      adjusted,
      top,
      distance,
      lt→leb_false s.size (s.ext_highest_sn - s.sn_offset - (sn - v)) (omega arith),
    )

meta-stored_earlier :
    (s : Sequencer) (a : PushArgs) (n : ℕ)
    → s.sn_offset ≤ s.ext_highest_sn
    → s.ext_highest_sn < a.ext_modified_sn
    → a.ext_modified_sn < 2 ^ 62
    → n ≤ s.ext_highest_sn - s.sn_offset
    → a.ext_modified_sn - s.sn_offset < n + s.size
    → get_or (stored s a).meta (n % s.size) empty_meta ≡ get_or s.meta (n % s.size) empty_meta
meta-stored_earlier s a n low h room le near =
    let new = a.ext_modified_sn - s.sn_offset in
    get_or-set_ne _ (meta_of s a) empty_meta (λ e. slot-ne s.size n new (omega arith) near (sym e))
    ∙ invalidate_missing-keeps s.size s.size (s.ext_highest_sn - s.sn_offset + 1) new n s.meta
        (omega arith) (omega arith) (omega arith) (omega arith)

found_meta-eq :
    (s s' : Sequencer) (sn slot : ℕ)
    → s.initialized ≡ true
    → s'.initialized ≡ true
    → length s.meta ≡ length s'.meta
    → slot_of s sn ≡ some slot
    → slot_of s' sn ≡ some slot
    → get_or s'.meta slot empty_meta ≡ get_or s.meta slot empty_meta
    → found_meta (lookup_ext_packet_meta s' sn) ≡ found_meta (lookup_ext_packet_meta s sn)
found_meta-eq s s' sn slot h h' len at at' same =
    rw (lookup_in_slot s sn slot h at, lookup_in_slot s' sn slot h' at', same, len) (ground arith)

-- A packet that stays in the window after a packet ahead was pushed is found with the same content
-- as before; `offset` is the padding before it, which is left out of the window.
pub lookup-push_earlier :
    (s : Sequencer) (a : PushArgs) (sn offset : ℕ)
    → IsReady s
    → s.ext_highest_sn < a.ext_modified_sn
    → a.ext_modified_sn + 1 < 2 ^ 62
    → offset_at s sn ≡ ok offset
    → offset ≤ sn
    → sn < 2 ^ 63
    → sn - offset ≤ s.ext_highest_sn - s.sn_offset
    → a.ext_modified_sn - s.sn_offset < sn - offset + s.size
    → found_meta (lookup_ext_packet_meta (push s a) sn) ≡ found_meta (lookup_ext_packet_meta s sn)
lookup-push_earlier s a sn offset v h room at le word hi near =
    let n = sn - offset in
    let before : slot_of s sn ≡ some (n % s.size) =
      slot_of-in_window s sn offset at le word v.offset_low (omega (arith, v.room)) hi
        (omega arith) in
    let after : slot_of (stored s a) sn ≡ some (n % s.size) =
      slot_of-in_window (stored s a) sn offset at le word (omega (arith, v.offset_low))
        (omega arith) (omega arith) near in
    rw (push-ahead s a v h room) (
      found_meta-eq s (stored s a) sn (n % s.size) v.started v.started (sym (length-stored s a))
        before after (meta-stored_earlier s a n v.offset_low h (omega arith) hi near))

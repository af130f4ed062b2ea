-- ===== src/Sequencer/Examples.antt =====
-- Concrete runs of the sequencer, and the theorems at concrete inputs.
use voicekit.Prelude.{ℕ, ◌+◌, ◌*◌, ◌-◌, ◌≤◌, ◌≡◌, refl, arith, true, false, none, some, [], ◌∷◌}
use voicekit.Prelude.Int.{pos}
use voicekit.RangeMap.{new_range_map}
use voicekit.Sequencer.{
  PacketMeta, empty_meta, Sequencer, PushArgs, push, push_padding, slot_of, answer_nack,
  lookup_ext_packet_meta, nack_one, answer_all,
}
use voicekit.Sequencer.Window.{IsReady}
use voicekit.Sequencer.Found.{HoldsPushed, lookup-push_self, lookup-push_missing}
use voicekit.Sequencer.Earlier.{found_meta, lookup-push_earlier}
use voicekit.Sequencer.Padding.{push_padding_lem}
use voicekit.Sequencer.Nacks.{
  All, IsBounded, IsCounted, nacks_of, slots_of, times_sent, answer_all-IsBounded,
}
use voicekit.Sequencer.Again.{nack_one-again}

abbrev packet : ℕ → PushArgs
packet sn = record {
  packet_time = pos 2000000000;
  ext_incoming_sn = sn + 10;
  ext_modified_sn = sn;
  ext_modified_ts = sn * 960;
  marker = false;
  layer = pos 1;
  codec_bytes = 7 ∷ 8 ∷ [];
  num_codec_bytes_in = 3;
  dd_bytes = [];
  act_bytes = [];
}

abbrev held : PacketMeta
held = record (empty_meta) {
  source_seq_no = 110;
  target_seq_no = 100;
  timestamp = 96000;
  last_nack = 500;
}

-- A window of four slots, in which 100 is the last packet.
abbrev window : Sequencer
window = record {
  size = 4;
  start_time = pos 1000000000;
  initialized = true;
  ext_start_sn = 98;
  ext_highest_sn = 100;
  sn_offset = 0;
  ext_highest_ts = 96000;
  meta = held ∷ empty_meta ∷ empty_meta ∷ empty_meta ∷ [];
  sn_range_map = none;
  rtt = 70;
}

abbrev sparse : Sequencer
sparse = record (window) { sn_range_map = some (new_range_map 2) }

window-IsReady : IsReady window
window-IsReady = record {
  started = refl;
  slots = refl;
  some_slot = omega arith;
  size_word = omega arith;
  start_low = omega arith;
  offset_low = omega arith;
  opens = refl;
  room = omega arith;
}

sparse-IsReady : IsReady sparse
unfolding new_range_map
sparse-IsReady = record {
  started = refl;
  slots = refl;
  some_slot = omega arith;
  size_word = omega arith;
  start_low = omega arith;
  offset_low = omega arith;
  opens = (omega arith, omega arith, refl);
  room = omega arith;
}

lookup-push_self_example :
    (m : PacketMeta) × (lookup_ext_packet_meta (push window (packet 103)) 103
      ≡ some (record { meta = m; ext_sequence_number = 103; ext_timestamp = 98880 }))
    × HoldsPushed window (packet 103) m
lookup-push_self_example =
    lookup-push_self window (packet 103) window-IsReady (omega arith) (omega arith) (omega arith)
      (omega arith) (omega arith) (omega arith)

lookup-push_missing_example : lookup_ext_packet_meta (push window (packet 103)) 102 ≡ none
lookup-push_missing_example =
    lookup-push_missing window (packet 103) 102 window-IsReady (omega arith) (omega arith)
      (omega arith)

lookup-push_earlier_example :
    found_meta (lookup_ext_packet_meta (push window (packet 103)) 100)
    ≡ found_meta (lookup_ext_packet_meta window 100)
lookup-push_earlier_example =
    lookup-push_earlier window (packet 103) 100 0 window-IsReady (omega arith) (omega arith) refl
      (omega arith) (omega arith) (omega arith) (omega arith)

push_padding_lem_example :
    let s' = push_padding sparse 101 104 in
    IsReady s' × (s'.ext_highest_sn - s'.sn_offset ≡ 100) × (lookup_ext_packet_meta s' 102 ≡ none)
push_padding_lem_example =
    push_padding_lem sparse (new_range_map 2) 101 104 102 sparse-IsReady refl (omega arith)
      (omega arith) (omega arith) (omega arith) (omega arith)

window-IsBounded : All IsBounded window.meta
window-IsBounded = (omega arith, (omega arith, (omega arith, (omega arith, tt))))

answer_all-IsBounded_example :
    let (s', outs) = answer_all window 900 (100 ∷ 100 ∷ 99 ∷ []) in
    All IsBounded s'.meta
    × All IsCounted outs
    × ((k : ℕ) → nacks_of k s'.meta ≡ nacks_of k window.meta + times_sent k outs)
    × ((k : ℕ) → nacks_of k window.meta + times_sent k outs ≤ 3 * slots_of k window.meta)
answer_all-IsBounded_example =
    answer_all-IsBounded window 900 (100 ∷ 100 ∷ 99 ∷ []) window-IsBounded

abbrev asked : PacketMeta
asked = record (held) { last_nack = 900; nacked = 1 }

-- The first request is answered.
answered :
    (nack_one window 900 100).1
    ≡ some (record { meta = asked; ext_sequence_number = 100; ext_timestamp = 96000 })
unfolding nack_one slot_of answer_nack
answered = refl

nack_one-again_example :
    nack_one (nack_one window 900 100).0 950 100 ≡ ((nack_one window 900 100).0, none)
nack_one-again_example =
    nack_one-again window 900 950 100 _ refl (omega arith) (omega arith) answered

-- ===== src/FrameIntegrity/Examples.antt =====
-- Runs of frame integrity
use voicekit.Prelude.{
  ℕ, Bool, true, false, Option, none, some, List, [], ◌∷◌, ◌≡◌, refl, arith, ◌>>=◌,
}
use voicekit.FrameIntegrity.{
  PacketHistory, new_packet_history, position, mark, clear_from, first_packet, ahead, add_packet,
  ones64, same_word, ones_from, ones_to, words_between, packets_consecutive, FrameIntegrityChecker,
  new_frame_integrity_checker, check, add_to_frame, reset_frames, add_at, start_at,
  add_frame_packet, frame_integrity,
}
use voicekit.FrameIntegrity.Window.{
  add_all, AreSequences, all_listed, packets_consecutive-all_listed,
}

-- With 150 lost, and 130 and 170 out of order
abbrev after_first : List ℕ
after_first = 131 ∷ 132 ∷ 171 ∷ 130 ∷ 170 ∷ []

abbrev history : PacketHistory
history = add_all (new_packet_history 100) (129 ∷ after_first)

run_all : packets_consecutive history 129 132 ≡ some true
unfolding new_packet_history position mark clear_from first_packet ahead add_packet ones64 same_word
    ones_from ones_to words_between packets_consecutive add_all
run_all = refl

run_lost : packets_consecutive history 129 133 ≡ some false
unfolding new_packet_history position mark clear_from first_packet ahead add_packet ones64 same_word
    ones_from ones_to words_between packets_consecutive add_all
run_lost = refl

after_first-AreSequences : AreSequences (129 ∷ after_first)
unfolding AreSequences
after_first-AreSequences =
    (omega arith, (omega arith, (omega arith, (omega arith, (omega arith, (omega arith, tt))))))

packets_consecutive-all_listed_example :
    packets_consecutive history 170 171 ≡ some (all_listed (129 ∷ after_first) 170 1)
unfolding new_packet_history position mark clear_from first_packet ahead add_packet add_all
packets_consecutive-all_listed_example =
    packets_consecutive-all_listed 100 129 after_first 170 1 (omega arith) after_first-AreSequences
      (omega arith) (omega arith) (omega arith)

-- One packet of the frame comes late: only then it is whole.
abbrev late_frame : Option FrameIntegrityChecker
late_frame = do
  a ← add_frame_packet (new_frame_integrity_checker 2 128) 7 20 true false
  b ← add_frame_packet a 9 20 false true
  add_frame_packet b 10 21 true true

abbrev whole_frame : Option FrameIntegrityChecker
whole_frame = do fc ← late_frame; add_frame_packet fc 8 20 false false

abbrev answers : Option FrameIntegrityChecker → Option (Bool × Bool)
answers none = none
answers (some fc) = some (frame_integrity fc 20, frame_integrity fc 21)

run_late : answers late_frame ≡ some (false, true)
unfolding new_packet_history position mark clear_from first_packet ahead add_packet ones64 same_word
    ones_from ones_to words_between packets_consecutive new_frame_integrity_checker check
    add_to_frame reset_frames add_at start_at add_frame_packet frame_integrity
run_late = refl

run_whole : answers whole_frame ≡ some (true, true)
unfolding new_packet_history position mark clear_from first_packet ahead add_packet ones64 same_word
    ones_from ones_to words_between packets_consecutive new_frame_integrity_checker check
    add_to_frame reset_frames add_at start_at add_frame_packet frame_integrity
run_whole = refl

-- In one word, no digit is tested for an end one below the start, and one further below is a panic.
run_below : same_word 0 10 9 ≡ some true
unfolding same_word ones64
run_below = refl

run_further_below : same_word 0 10 8 ≡ none
unfolding same_word
run_further_below = refl

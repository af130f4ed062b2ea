-- ===== src/KeyFrame/Examples.antt =====
-- Concrete payloads, and the theorems at concrete inputs.
use voicekit.Prelude.{◌≡◌, refl, arith, true, false, [], ◌∷◌}
use voicekit.KeyFrame.{
  answer, panics, is_h264_key_frame, is_h265_key_frame, is_av1_key_frame, at, scan_units, scan_h265,
  scan_obus, get_obu, obu_length,
}
use voicekit.KeyFrame.Total.{Answers, key_frame_tests-Answers}
use voicekit.KeyFrame.Overflow.{overlong, is_av1_key_frame-overlong}

-- A STAP-A packet with an access unit delimiter and a sequence parameter set.
h264_parameters : is_h264_key_frame (24 ∷ 0 ∷ 2 ∷ 9 ∷ 16 ∷ 0 ∷ 1 ∷ 103 ∷ []) ≡ answer true
unfolding is_h264_key_frame scan_units at
h264_parameters = refl

h264_cut : is_h264_key_frame (24 ∷ 0 ∷ 9 ∷ 9 ∷ []) ≡ answer false
unfolding is_h264_key_frame scan_units at
h264_cut = refl

h265_parameters : is_h265_key_frame (96 ∷ 1 ∷ 0 ∷ 2 ∷ 66 ∷ 1 ∷ 0 ∷ []) ≡ answer true
unfolding is_h265_key_frame scan_h265 at
h265_parameters = refl

-- A sequence header and a key frame.
av1_key_frame : is_av1_key_frame (40 ∷ 1 ∷ 8 ∷ 48 ∷ 16 ∷ []) ≡ answer true
unfolding is_av1_key_frame scan_obus get_obu obu_length at
av1_key_frame = refl

key_frame_tests-Answers_example :
    Answers (is_h264_key_frame (24 ∷ 0 ∷ 9 ∷ 9 ∷ []))
    × Answers (is_h265_key_frame (24 ∷ 0 ∷ 9 ∷ 9 ∷ []))
key_frame_tests-Answers_example = key_frame_tests-Answers (24 ∷ 0 ∷ 9 ∷ 9 ∷ [])

is_av1_key_frame-overlong_example : is_av1_key_frame (overlong 2 1 (5 ∷ [])) ≡ panics
is_av1_key_frame-overlong_example =
    is_av1_key_frame-overlong 2 1 (5 ∷ []) (omega arith) (omega arith) (omega arith) refl

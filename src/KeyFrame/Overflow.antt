-- ===== src/KeyFrame/Overflow.antt =====
-- pkg/sfu/buffer/helpers.go: a length field of ten bytes makes the AV1 test panic.
use voicekit.Prelude.{
  ap, ◌∙◌, suc, ℕ, ◌+◌, ◌*◌, ◌%◌, ◌/◌, ◌^◌, ◌<◌, ◌≡◌, ◌≢◌, refl, none, some, List, ◌∷◌, ◌++◌,
  replicate, arith, length, ne→==, le→ltb_false, ltb, ◌==◌, false,
}
use voicekit.KeyFrame.{panics, at, scan_obus, get_obu, obu_length, is_av1_key_frame}

-- A packet of `w` OBUs whose first OBU has a length field of ten bytes, of which the last, `l`, is odd.
abbrev pub overlong : ℕ → ℕ → List ℕ → List ℕ
overlong w l rest = (8 + 16 * w) ∷ (replicate 9 128 ++ l ∷ rest)

obu_length-overlong :
    (l : ℕ) (rest : List ℕ)
    → l < 128
    → l % 2 ≡ 1
    → obu_length (replicate 9 128 ++ l ∷ rest) 0 0 ≡ some (10, 2 ^ 63)
unfolding obu_length
obu_length-overlong l rest small odd =
    let last : l / 128 % 2 ≡ 0 = omega arith in
    let value : (0 + l % 128 * 2 ^ 63) % 2 ^ 64 ≡ 2 ^ 63 = omega arith in rw (last, value) refl

get_obu-overlong :
    (l : ℕ) (rest : List ℕ)
    → l < 128
    → l % 2 ≡ 1
    → get_obu (replicate 9 128 ++ l ∷ rest) false ≡ none
unfolding get_obu
get_obu-overlong l rest small odd = rw (obu_length-overlong l rest small odd) refl

scan_obus-panics :
    (fuel w i : ℕ) (bytes : List ℕ)
    → get_obu bytes (w == i + 1) ≡ none
    → scan_obus (suc fuel) w i bytes ≡ panics
unfolding scan_obus
scan_obus-panics fuel w i bytes e = rw (e, scan_obus) refl

scan_obus-overlong :
    (w l : ℕ) (rest : List ℕ)
    → w ≢ 1
    → l < 128
    → l % 2 ≡ 1
    → scan_obus 4 w 0 (replicate 9 128 ++ l ∷ rest) ≡ panics
scan_obus-overlong w l rest w1 small odd = scan_obus-panics 3 w 0 (replicate 9 128 ++ l ∷ rest) (
    ap (get_obu (replicate 9 128 ++ l ∷ rest)) (ne→== w (0 + 1) (omega arith))
    ∙ get_obu-overlong l rest small odd)

-- A packet whose first OBU has a length field of ten bytes that sets the sign bit makes the test
-- panic: the length is negative as an int, so that the slice ends before it starts. The packet holds
-- any number of OBUs but one.
pub is_av1_key_frame-overlong :
    (w l : ℕ) (rest : List ℕ)
    → w < 4
    → w ≢ 1
    → l < 128
    → l % 2 ≡ 1
    → is_av1_key_frame (overlong w l rest) ≡ panics
unfolding is_av1_key_frame at
is_av1_key_frame-overlong w l rest w4 w1 small odd =
    let top : (8 + 16 * w) / 128 % 2 ≡ 0 = omega arith in
    let new : (8 + 16 * w) / 8 % 2 ≡ 1 = omega arith in
    let count : (8 + 16 * w) / 16 % 4 ≡ w = omega arith in
    let long : ltb (length (overlong w l rest)) 2 ≡ false =
      le→ltb_false (length (overlong w l rest)) 2 (omega arith) in
    rw long (rw (top, new, count) (scan_obus-overlong w l rest w1 small odd))

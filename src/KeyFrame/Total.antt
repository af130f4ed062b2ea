-- ===== src/KeyFrame/Total.antt =====
-- pkg/sfu/buffer/helpers.go: the scans of H.264 and H.265 payloads end, and read no byte out of range.
use voicekit.Prelude.{
  ℕ, zero, suc, ◌+◌, ◌-◌, ◌*◌, ◌/◌, ◌%◌, ◌≤◌, ◌<◌, ◌≡◌, refl, Bool, true, false, ◌||◌, List, length,
  get_elem?-lt, ltb, leb, ◌==◌, if◌then◌else◌, arith, le→ltb_false, ltb→lt,
}
use voicekit.KeyFrame.{
  Scan, answer, at, at16, unit_offset, scan_units, is_aggregation, is_h264_key_frame, h265_type,
  is_parameter_set, scan_h265, is_h265_key_frame,
}

-- The scan ends with an answer: it does not panic, and the loop ends.
abbrev pub Answers : Scan → Type 0
Answers s = (b : Bool) × (s ≡ answer b)

at-Answers :
    (payload : List ℕ) (i : ℕ) (k : ℕ → Scan)
    → i < length payload
    → ((b : ℕ) → Answers (k b))
    → Answers (at payload i k)
unfolding at
at-Answers payload i k h all = let (b, e) = get_elem?-lt payload i h in rw (e, at) (all b)

at16-Answers :
    (payload : List ℕ) (i : ℕ) (k : ℕ → Scan)
    → i + 1 < length payload
    → ((b : ℕ) → Answers (k b))
    → Answers (at16 payload i k)
at16-Answers payload i k h all =
    at-Answers payload i (λ hi. at payload (i + 1) λ lo. k (hi * 256 + lo)) (omega arith)
      (λ hi. at-Answers payload (i + 1) (λ lo. k (hi * 256 + lo)) h (λ lo. all (hi * 256 + lo)))

if-Answers :
    (b : Bool) (x y : Scan)
    → (b ≡ true → Answers x)
    → (b ≡ false → Answers y)
    → Answers (if b then x else y)
if-Answers true x y f g = f refl
if-Answers false x y f g = g refl

or-left : (a b : Bool) → (a || b) ≡ false → a ≡ false
or-left false b h = refl
or-left true b h = h

or-right : (a b : Bool) → (a || b) ≡ false → b ≡ false
or-right false b h = h
or-right true b h = absurd (ground arith)

ltb_false→le : (a b : ℕ) → ltb a b ≡ false → b ≤ a
ltb_false→le a b h = ground arith

leb_false→lt : (a b : ℕ) → leb a b ≡ false → b < a
leb_false→lt a b h = ground arith

ends : (b : Bool) → Answers (answer b)
ends b = (b, refl)

scan_units-Answers :
    (fuel nalu : ℕ) (payload : List ℕ) (i : ℕ)
    → length payload ≤ i + fuel
    → Answers (scan_units fuel nalu payload i)
unfolding scan_units
scan_units-Answers zero nalu payload i h =
    rw (le→ltb_false i (length payload) (omega arith)) (ends false)
scan_units-Answers (suc fuel) nalu payload i h =
    let n = length payload in
    let off = unit_offset nalu in
    if-Answers (ltb i n) _ _
      (λ e.
        if-Answers (ltb n (i + 2)) _ _ (λ _. ends false)
          (λ room. at16-Answers payload i _ (omega (arith, ltb_false→le n (i + 2) room)) (λ size.
            if-Answers (ltb n (i + 2 + size) || leb size off) _ _ (λ _. ends false)
              (λ fits.
                let within : i + 2 + size ≤ n =
                  ltb_false→le n (i + 2 + size)
                    (or-left (ltb n (i + 2 + size)) (leb size off) fits) in
                let past : off < size =
                  leb_false→lt size off (or-right (ltb n (i + 2 + size)) (leb size off) fits) in
                at-Answers payload (i + 2 + off) _ (omega (arith, within, past)) (λ b.
                  if-Answers (b % 32 == 7) _ _ (λ _. ends true)
                    (λ _.
                      scan_units-Answers fuel nalu payload (i + 2 + size)
                        (omega (arith, within, past))))))))
      (λ _. ends false)

h264-Answers : (payload : List ℕ) → Answers (is_h264_key_frame payload)
unfolding is_h264_key_frame
h264-Answers payload =
    let n = length payload in
    if-Answers (ltb n 1) _ _ (λ _. ends false)
      (λ e. at-Answers payload 0 _ (omega (arith, ltb_false→le n 1 e)) (λ b.
        let nalu = b % 32 in
        if-Answers (nalu == 0) _ _ (λ _. ends false)
          (λ _.
            if-Answers (leb nalu 23) _ _ (λ _. ends (nalu == 7))
              (λ _.
                if-Answers (is_aggregation nalu) _ _
                  (λ _.
                    scan_units-Answers n nalu payload (if nalu == 24 then 1 else 3) (omega arith))
                  (λ _.
                    if-Answers (nalu == 28 || nalu == 29) _ _
                      (λ _.
                        if-Answers (ltb n 2) _ _ (λ _. ends false)
                          (λ two. at-Answers payload 1 _ (omega (arith, ltb_false→le n 2 two)) (λ c.
                            if-Answers (c / 128 % 2 == 0) _ _ (λ _. ends false)
                              (λ _. ends (c % 32 == 7)))))
                      (λ _. ends false))))))

scan_h265-Answers :
    (fuel : ℕ) (payload : List ℕ) (idx : ℕ)
    → length payload ≤ idx + fuel
    → Answers (scan_h265 fuel payload idx)
unfolding scan_h265
scan_h265-Answers zero payload idx h =
    rw (le→ltb_false idx (length payload - 2) (omega arith)) (ends false)
scan_h265-Answers (suc fuel) payload idx h =
    let n = length payload in
    if-Answers (ltb idx (n - 2)) _ _
      (λ e.
        let lt = ltb→lt idx (n - 2) e in
        at16-Answers payload idx _ (omega (arith, lt)) (λ size.
          if-Answers (leb n (idx + 2)) _ _ (λ _. ends false)
            (λ room. at-Answers payload (idx + 2) _ (omega (arith, lt)) (λ b.
              if-Answers (is_parameter_set (h265_type b)) _ _ (λ _. ends true)
                (λ _. scan_h265-Answers fuel payload (idx + 2 + size) (omega arith))))))
      (λ _. ends false)

h265-Answers : (payload : List ℕ) → Answers (is_h265_key_frame payload)
unfolding is_h265_key_frame
h265-Answers payload =
    let n = length payload in
    if-Answers (ltb n 2) _ _ (λ _. ends false)
      (λ e. at-Answers payload 0 _ (omega (arith, ltb_false→le n 2 e)) (λ b.
        let nalu_type = h265_type b in
        if-Answers (is_parameter_set nalu_type) _ _ (λ _. ends true)
          (λ _.
            if-Answers (nalu_type == 48) _ _ (λ _. scan_h265-Answers n payload 2 (omega arith))
              (λ _.
                if-Answers (nalu_type == 49) _ _
                  (λ _.
                    if-Answers (ltb n 3) _ _ (λ _. ends false)
                      (λ three.
                        at-Answers payload 2 _ (omega (arith, ltb_false→le n 3 three))
                          (λ c. ends (is_parameter_set (h265_type c)))))
                  (λ _. ends false)))))

-- On any payload, the H.264 and the H.265 test end with an answer: the loops over the units of an
-- aggregation packet end, and no byte past the end of the payload is read.
pub key_frame_tests-Answers :
    (payload : List ℕ) → Answers (is_h264_key_frame payload) × Answers (is_h265_key_frame payload)
key_frame_tests-Answers payload = (h264-Answers payload, h265-Answers payload)

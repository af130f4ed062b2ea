-- ===== src/FrameIntegrity/Marks.antt =====
-- pkg/sfu/buffer/frameintegrity.go, the method set: it changes the bit of one number.
use voicekit.Prelude.{
  ℕ, ◌-◌, ◌*◌, ◌/◌, ◌%◌, ◌^◌, ◌≤◌, ◌<◌, Bool, true, false, length, length-set, get_or,
  get_or-set_self, get_or-set_ne, set, if◌then◌else◌, ◌≡◌, ◌≢◌, sym, ap, ◌∙◌, arith, u64_mod,
}
use mathlib.Core.Path.{subst}
use native.Mathlib.Decide.{ℕ_discrete}
use native.Mathlib.Nat.{pow-le-pow_right}
use voicekit.Prelude.Bits.{bit, bit-lt, bit-bit_and, bit-bit_or, bit_complement}
use voicekit.Prelude.Masks.{bit_pow_self, bit_pow_other, bit_or-lt, bit_and-lt}
use voicekit.FrameIntegrity.{PacketHistory, word, position, marked, mark}
use voicekit.FrameIntegrity.Positions.{IsRing, position_small}

-- The bit of a number
abbrev pub bit_of : PacketHistory → ℕ → ℕ
bit_of ph seq = bit (word ph (position ph seq / 64)) (position ph seq % 64)

pow_small : (o : ℕ) → o < 64 → 2 ^ o < u64_mod
pow_small o h =
    let e : 2 ^ o ≤ 2 ^ 63 =
      pow-le-pow_right {n = 2} (omega arith) {i = o} {j = 63} (omega arith) in
    omega arith

marked_self : (w o : ℕ) (b : Bool) → o < 64 → bit (marked w o b) o ≡ (if b then 1 else 0)
marked_self w o true h =
    let e = bit-bit_or w (2 ^ o) o in let s = bit_pow_self o in let l = bit-lt w o in omega arith
marked_self w o false h =
    let e = bit-bit_and w (u64_mod - 1 - 2 ^ o) o in
    let c = bit_complement 64 (2 ^ o) o (pow_small o h) h in let s = bit_pow_self o in omega arith

marked_other : (w o i : ℕ) (b : Bool) → o < 64 → i < 64 → i ≢ o → bit (marked w o b) i ≡ bit w i
marked_other w o i true h k ne =
    let e = bit-bit_or w (2 ^ o) i in let s = bit_pow_other o i ne in omega arith
marked_other w o i false h k ne =
    let e = bit-bit_and w (u64_mod - 1 - 2 ^ o) i in
    let c = bit_complement 64 (2 ^ o) i (pow_small o h) k in
    let s = bit_pow_other o i ne in let l = bit-lt w i in omega arith

marked_small : (w o : ℕ) (b : Bool) → o < 64 → w < u64_mod → marked w o b < u64_mod
marked_small w o true h k = bit_or-lt 64 w (2 ^ o) k (pow_small o h)
marked_small w o false h k = bit_and-lt 64 w (u64_mod - 1 - 2 ^ o) k

module _ (ph : PacketHistory) (r : IsRing ph) (seq : ℕ) (b : Bool) where
  index_small : position ph seq / 64 < length ph.bits
  index_small = let h = position_small ph seq r in omega arith

  pub bit_of-mark_self :
      (x : ℕ) → position ph x ≡ position ph seq → bit_of (mark ph seq b) x ≡ (if b then 1 else 0)
  unfolding mark position
  bit_of-mark_self x e =
      let i = position ph seq / 64 in
      let v = marked (word ph i) (position ph seq % 64) b in
      subst (λ p. bit (get_or (set ph.bits i v) (p / 64) 0) (p % 64) ≡ (if b then 1 else 0)) (sym e)
        (ap (λ w. bit w (position ph seq % 64)) (get_or-set_self ph.bits i v 0 index_small)
          ∙ marked_self (word ph i) (position ph seq % 64) b (omega arith))

  pub bit_of-mark_other :
      (x : ℕ) → position ph x ≢ position ph seq → bit_of (mark ph seq b) x ≡ bit_of ph x
  unfolding mark position
  bit_of-mark_other x ne =
      let p = position ph x in
      let i = position ph seq / 64 in
      let v = marked (word ph i) (position ph seq % 64) b in
      elim (ℕ_discrete i (p / 64)) [
        | no other ↦ ap (λ w. bit w (p % 64)) (get_or-set_ne ph.bits v 0 other)
        | yes e ↦
            subst
              (λ j. bit (get_or (set ph.bits i v) j 0) (p % 64) ≡ bit (get_or ph.bits j 0) (p % 64))
              e
              (ap (λ w. bit w (p % 64)) (get_or-set_self ph.bits i v 0 index_small)
                ∙ marked_other (word ph i) (position ph seq % 64) (p % 64) b (omega arith)
                    (omega arith) (λ f. ne (omega arith)))
      ]

  pub mark-IsRing : IsRing (mark ph seq b)
  unfolding mark
  mark-IsRing =
      let i = position ph seq / 64 in
      let v = marked (word ph i) (position ph seq % 64) b in
      let same = length-set ph.bits i v in
      record {
        counted = r.counted ∙ ap (λ n. n * 64) (sym same);
        several = subst (λ n. 2 ≤ n) (sym same) r.several;
        are_words = λ j. elim (ℕ_discrete i j) [
          | no other ↦
              subst (λ w. w < u64_mod) (sym (get_or-set_ne ph.bits v 0 other)) (r.are_words j)
          | yes e ↦
              subst (λ j. get_or (set ph.bits i v) j 0 < u64_mod) e
                (subst (λ w. w < u64_mod) (sym (get_or-set_self ph.bits i v 0 index_small))
                  (marked_small (word ph i) (position ph seq % 64) b (omega arith) (r.are_words i)))
        ];
        based = r.based;
      }

-- ===== src/FrameIntegrity/Consecutive.antt =====
-- pkg/sfu/buffer/frameintegrity.go, PacketsConsecutive: it answers whether each number from the first
-- to the last has its bit.
use voicekit.Prelude.{
  ℕ, suc, ◌+◌, ◌-◌, ◌*◌, ◌/◌, ◌%◌, ◌≤◌, ◌<◌, Bool, true, false, ◌&&◌, ◌||◌, some, List, length,
  get_or, ltb, leb, ◌==◌, ◌≡◌, refl, sym, ap, ◌∙◌, Bool-cases, inl, inr, arith, u64_mod,
}
use mathlib.Core.Path.{subst}
use voicekit.Prelude.Masks.{Ones}
use voicekit.FrameIntegrity.{
  PacketHistory, position, same_word, ones_from, ones_to, words_between, packets_consecutive,
}
use voicekit.FrameIntegrity.Words.{same_word-Ones, ones_to-Ones, ones_from-Ones, wrap, late}
use voicekit.FrameIntegrity.Between.{AreWords, words_between-Between}
use voicekit.FrameIntegrity.Ring.{
  IsMarked, AreMarked, Ones-AreMarked, AreMarked-Ones, AreMarked-Between, AreMarked-split,
}
use voicekit.FrameIntegrity.Positions.{IsRing, Has, position_small, position_parts, Has-IsMarked}

both : (a b c : Bool) → (a && b && c) ≡ true → (a ≡ true) × (b ≡ true) × (c ≡ true)
both a b c h = ground arith

-- One word holds both ends only if the run does not leave it.
no_leave :
    (len p d : ℕ)
    → 2 ≤ len
    → p < len * 64
    → d ≤ 64
    → wrap len ((p + d) / 64) ≡ p / 64
    → (p + d) / 64 ≡ p / 64
no_leave len p d h k l e = ground arith

leaves :
    (len p d : ℕ)
    → p < len * 64
    → (p / 64 == wrap len ((p + d) / 64) && leb d 64) ≡ false
    → p / 64 < (p + d) / 64
leaves len p d k e = ground arith

first_wrap : (len p : ℕ) → p < len * 64 → wrap len (p / 64) ≡ p / 64
first_wrap len p h = ground arith

-- The result where the run leaves its first word
split_answer :
    (bits : List ℕ) (p q : ℕ)
    → AreWords bits
    → 2 ≤ length bits
    → p < length bits * 64
    → q < p + length bits * 64
    → p / 64 < q / 64
    → let t =
        ones_from (get_or bits (p / 64) 0) (p % 64)
        && words_between (suc (length bits)) bits (p / 64 + 1) (wrap (length bits) (q / 64))
        && ones_to (get_or bits (wrap (length bits) (q / 64)) 0) (q % 64) in
      (t ≡ true → AreMarked bits p q) × (AreMarked bits p q → t ≡ true)
split_answer bits p q words several low near leave =
    let w = get_or bits (p / 64) 0 in
    let v = get_or bits (wrap (length bits) (q / 64)) 0 in
    let same = first_wrap (length bits) p low in
    let start = ones_from-Ones w (p % 64) (omega arith) (words (p / 64)) in
    let stop = ones_to-Ones v (q % 64) (omega arith) in
    let begin : late (length bits) (p / 64 + 1) ≡ p / 64 + 1 = ground arith in
    let middle =
      words_between-Between (suc (length bits)) bits (p / 64 + 1) (q / 64) words (omega arith)
        (omega arith) (omega arith) (omega arith) (omega arith) in
    let loop = words_between (suc (length bits)) bits (p / 64 + 1) (wrap (length bits) (q / 64)) in
    let at_begin =
      λ (i : ℕ). words_between (suc (length bits)) bits i (wrap (length bits) (q / 64)) in
    (
      (λ r.
          let parts = both (ones_from w (p % 64)) loop (ones_to v (q % 64)) r in
          AreMarked-split bits p q leave
            (subst (λ i. Ones (get_or bits i 0) (p % 64) 64) (sym same) (start.0 parts.0))
            (middle.0 (ap at_begin begin ∙ parts.1)) (stop.0 parts.2)),
      λ all.
          let a = start.1 (
            subst (λ i. Ones (get_or bits i 0) (p % 64) 64) same
              (AreMarked-Ones bits (p / 64) (p % 64) 63 (omega arith)
                (λ x h k. all x (omega arith) (omega arith)))) in
          let b =
            ap at_begin (sym begin)
            ∙ middle.1 (
                AreMarked-Between bits (p / 64 + 1) (q / 64) p q words (omega arith) (omega arith)
                  all) in
          let c = stop.1 (
            AreMarked-Ones bits (q / 64) 0 (q % 64) (omega arith)
              (λ x h k. all x (omega arith) (omega arith))) in
          rw (a, b, c) refl,
    )

AreMarked-same :
    (bits : List ℕ) (p q : ℕ)
    → p < length bits * 64
    → p ≤ q
    → q / 64 ≡ p / 64
    → let t = same_word (get_or bits (p / 64) 0) (p % 64) (q % 64) in
      (t ≡ some true → AreMarked bits p q) × (AreMarked bits p q → t ≡ some true)
AreMarked-same bits p q low h same =
    let stay = first_wrap (length bits) p low in
    let test =
      same_word-Ones (get_or bits (p / 64) 0) (p % 64) (q % 64) (omega arith) (omega arith) in
    let at_word = λ (i : ℕ). Ones (get_or bits i 0) (p % 64) (q % 64 + 1) in
    (
      (λ r x a b.
          Ones-AreMarked bits (p / 64) (p % 64) (q % 64) (omega arith)
            (subst at_word (sym stay) (test.0 r)) x (omega arith) (omega arith)),
      λ all. test.1 (
          subst at_word stay (
            AreMarked-Ones bits (p / 64) (p % 64) (q % 64) (omega arith)
              (λ x a b. all x (omega arith) (omega arith)))),
    )

small_run : (a b d : ℕ) → (a == b && leb d 64) ≡ true → (b ≡ a) × (d ≤ 64)
small_run a b d h = ground arith

pub some-true : (b : Bool) → some b ≡ some true → b ≡ true
some-true b h = cc

-- The result for a run of `d` more numbers
run_answer :
    (ph : PacketHistory) (start d : ℕ)
    → IsRing ph
    → ph.base ≤ start
    → start + d < u64_mod
    → d < length ph.bits * 64
    → let p = position ph start in
      (packets_consecutive ph start (start + d) ≡ some true → AreMarked ph.bits p (p + d))
      × (AreMarked ph.bits p (p + d) → packets_consecutive ph start (start + d) ≡ some true)
unfolding packets_consecutive
run_answer ph start d r h l m =
    let p = position ph start in
    let low = position_small ph start r in
    let parts = position_parts ph start d r h l m in
    let e : start + d - start ≡ d = omega arith in
    let c = r.counted in
    let guard : ltb (start + d) start || leb ph.packet_count d ≡ false = ground arith in
    rw (e, guard, parts.0, parts.1)
      (elim (Bool-cases (p / 64 == wrap (length ph.bits) ((p + d) / 64) && leb d 64)) [
        | inl same ↦
            let stays = small_run (p / 64) (wrap (length ph.bits) ((p + d) / 64)) d same in
            rw same (
              AreMarked-same ph.bits p (p + d) low (omega arith)
                (no_leave (length ph.bits) p d r.several low stays.1 stays.0))
        | inr leave ↦
            let answer =
              split_answer ph.bits p (p + d) r.are_words r.several low (omega arith)
                (leaves (length ph.bits) p d low leave) in
            rw leave ((λ t. answer.0 (some-true _ t)), λ all. ap some (answer.1 all))
      ])

-- In a history of at least two words, for numbers from the base on, of which fewer than the history
-- holds are asked for: the answer is yes exactly if each of them has its bit.
pub packets_consecutive-Has :
    (ph : PacketHistory) (start d : ℕ)
    → IsRing ph
    → ph.base ≤ start
    → start + d < u64_mod
    → d < ph.packet_count
    → (packets_consecutive ph start (start + d) ≡ some true → (k : ℕ) → k ≤ d → Has ph (start + k))
      × (((k : ℕ) → k ≤ d → Has ph (start + k))
          → packets_consecutive ph start (start + d) ≡ some true)
packets_consecutive-Has ph start d r h l m =
    let c = r.counted in
    let p = position ph start in
    let answer = run_answer ph start d r h l (omega arith) in
    (
      (λ t k a.
          (Has-IsMarked ph start k r h (omega arith) (omega arith)).1
            (answer.0 t (p + k) (omega arith) (omega arith))),
      λ all. answer.1 (λ x a b.
          let e : p + (x - p) ≡ x = omega arith in
          subst (IsMarked ph.bits) e (
            (Has-IsMarked ph start (x - p) r h (omega arith) (omega arith)).0
              (all (x - p) (omega arith)))),
    )

no_leave_digits : (p d : ℕ) → (p + d) / 64 ≡ p / 64 → ltb ((p + d) % 64 + 1) (p % 64) ≡ false
no_leave_digits p d e = ground arith

-- It answers.
pub packets_consecutive-some :
    (ph : PacketHistory) (start d : ℕ)
    → IsRing ph
    → ph.base ≤ start
    → start + d < u64_mod
    → d < ph.packet_count
    → (b : Bool) × (packets_consecutive ph start (start + d) ≡ some b)
unfolding packets_consecutive same_word
packets_consecutive-some ph start d r h l m =
    let p = position ph start in
    let low = position_small ph start r in
    let c = r.counted in
    let parts = position_parts ph start d r h l (omega arith) in
    let e : start + d - start ≡ d = omega arith in
    let guard : ltb (start + d) start || leb ph.packet_count d ≡ false = ground arith in
    rw (e, guard, parts.0, parts.1)
      (elim (Bool-cases (p / 64 == wrap (length ph.bits) ((p + d) / 64) && leb d 64)) [
        | inl same ↦
            let stays = small_run (p / 64) (wrap (length ph.bits) ((p + d) / 64)) d same in
            let leave = no_leave (length ph.bits) p d r.several low stays.1 stays.0 in
            rw (same, no_leave_digits p d leave) (_, refl)
        | inr leave ↦ rw leave (_, refl)
      ])

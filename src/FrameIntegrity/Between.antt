-- ===== src/FrameIntegrity/Between.antt =====
-- pkg/sfu/buffer/frameintegrity.go, PacketsConsecutive: the loop over the words between the ends.
use voicekit.Prelude.{
  ℕ, zero, suc, ◌+◌, ◌*◌, ◌^◌, ◌≤◌, ◌<◌, true, ◌||◌, List, length, get_or, ◌==◌, if◌then◌else◌, ◌≡◌,
  refl, sym, ◌∙◌, Bool-cases, inl, inr, arith, u64_mod, add64,
}
use mathlib.Core.Path.{subst}
use native.Mathlib.Decide.{dec_lt}
use voicekit.FrameIntegrity.{words_between}
use voicekit.FrameIntegrity.Words.{
  wrap, late, all_ones_word, word_all_ones, Between, loop_end, loop_index, loop_next, loop_goes,
}

-- Every element is a word.
abbrev pub AreWords : List ℕ → Type 0
AreWords bits = (i : ℕ) → get_or bits i 0 < u64_mod

Between-step :
    (bits : List ℕ) (u last : ℕ)
    → get_or bits (wrap (length bits) u) 0 + 1 ≡ 2 ^ 64
    → Between bits (u + 1) last
    → Between bits u last
Between-step bits u last here rest v h k = elim (dec_lt u v) [
  | yes l ↦ rest v (omega arith) k
  | no l ↦
      let e : u ≡ v = omega arith in
      subst (λ x. get_or bits (wrap (length bits) x) 0 + 1 ≡ 2 ^ 64) e here
]

-- With as many rounds as there are words between, the loop finds whether they are all ones.
pub words_between-Between :
    (rounds : ℕ) (bits : List ℕ) (u last : ℕ)
    → AreWords bits
    → 0 < length bits
    → u ≤ last
    → last < u + rounds
    → last < u + length bits
    → last < 2 * length bits
    → (words_between rounds bits (late (length bits) u) (wrap (length bits) last) ≡ true
        → Between bits u last)
      × (Between bits u last
          → words_between rounds bits (late (length bits) u) (wrap (length bits) last) ≡ true)
unfolding words_between
words_between-Between zero bits u last words some_word h fuel near low = absurd (omega arith)
words_between-Between (suc rounds) bits u last words some_word h fuel near low =
    elim (dec_lt u last) [
      | no done ↦
          let e : u ≡ last = omega arith in
          let finished =
            subst
              (λ x.
                ((late (length bits) u == wrap (length bits) x)
                  || ((if late (length bits) u == length bits then 0 else late (length bits) u)
                      == wrap (length bits) x))
                ≡ true)
              e (loop_end (length bits) u some_word (omega arith)) in
          rw finished ((λ r v a b. absurd (omega arith)), λ r. refl)
      | yes more ↦
          let rest =
            words_between-Between rounds bits (u + 1) last words some_word (omega arith)
              (omega arith) (omega arith) low in
          let w = get_or bits (wrap (length bits) u) 0 in
          rw
            (
              loop_index (length bits) u some_word (omega arith),
              loop_goes (length bits) u last more near low,
              loop_next (length bits) u some_word (omega arith),
            )
            (elim (Bool-cases (add64 w 1 == 0)) [
              | inl ones ↦
                  let here = all_ones_word w (words (wrap (length bits) u)) ones in
                  rw ones (
                    (λ r. Between-step bits u last here (rest.0 r)),
                    λ all. rest.1 (λ v a b. all v (omega arith) b),
                  )
              | inr other ↦ rw other (
                (λ r. let c : ⊥ = cc in absurd c),
                λ all. sym other ∙ word_all_ones w (all u (omega arith) more),
              )
            ])
    ]

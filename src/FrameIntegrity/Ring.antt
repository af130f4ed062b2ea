-- ===== src/FrameIntegrity/Ring.antt =====
-- pkg/sfu/buffer/frameintegrity.go, PacketsConsecutive: it answers whether all bits from one place of
-- the ring to another are set. A place is counted on past the end of the ring.
use voicekit.Prelude.{ℕ, ◌+◌, ◌*◌, ◌/◌, ◌%◌, ◌≤◌, ◌<◌, List, length, get_or, ◌≡◌, refl, sym, arith}
use mathlib.Core.Path.{subst}
use native.Mathlib.Decide.{dec_lt}
use voicekit.Prelude.Bits.{bit}
use voicekit.Prelude.Masks.{Ones, all-Ones, Ones-of_all}
use voicekit.FrameIntegrity.Words.{wrap, Between}
use voicekit.FrameIntegrity.Between.{AreWords}

abbrev pub IsMarked : List ℕ → ℕ → Type 0
IsMarked bits x = bit (get_or bits (wrap (length bits) (x / 64)) 0) (x % 64) ≡ 1

abbrev pub AreMarked : List ℕ → ℕ → ℕ → Type 0
AreMarked bits p q = (x : ℕ) → p ≤ x → x ≤ q → IsMarked bits x

set_in :
    (bits : List ℕ) (x u i : ℕ)
    → x / 64 ≡ u
    → x % 64 ≡ i
    → bit (get_or bits (wrap (length bits) u) 0) i ≡ 1
    → IsMarked bits x
set_in bits x u i e f h =
    subst (λ v. bit (get_or bits (wrap (length bits) v) 0) (x % 64) ≡ 1) (sym e)
      (subst (λ j. bit (get_or bits (wrap (length bits) u) 0) j ≡ 1) (sym f) h)

set_at :
    (bits : List ℕ) (x u i : ℕ)
    → x / 64 ≡ u
    → x % 64 ≡ i
    → IsMarked bits x
    → bit (get_or bits (wrap (length bits) u) 0) i ≡ 1
set_at bits x u i e f h =
    subst (λ v. bit (get_or bits (wrap (length bits) v) 0) i ≡ 1) e
      (subst (λ j. bit (get_or bits (wrap (length bits) (x / 64)) 0) j ≡ 1) f h)

-- The digits of one word
pub Ones-AreMarked :
    (bits : List ℕ) (u a b : ℕ)
    → b ≤ 63
    → Ones (get_or bits (wrap (length bits) u) 0) a (b + 1)
    → AreMarked bits (u * 64 + a) (u * 64 + b)
Ones-AreMarked bits u a b k ones x h l =
    set_in bits x u (x % 64) (omega arith) refl (ones (x % 64) (omega arith) (omega arith))

pub AreMarked-Ones :
    (bits : List ℕ) (u a b : ℕ)
    → b ≤ 63
    → AreMarked bits (u * 64 + a) (u * 64 + b)
    → Ones (get_or bits (wrap (length bits) u) 0) a (b + 1)
AreMarked-Ones bits u a b k all i h l =
    set_at bits (u * 64 + i) u i (omega arith) (omega arith)
      (all (u * 64 + i) (omega arith) (omega arith))

Between-AreMarked :
    (bits : List ℕ) (u last x : ℕ)
    → Between bits u last
    → u * 64 ≤ x
    → x < last * 64
    → IsMarked bits x
Between-AreMarked bits u last x all h k = set_in bits x (x / 64) (x % 64) refl refl (
    Ones-of_all 64 (get_or bits (wrap (length bits) (x / 64)) 0)
      (all (x / 64) (omega arith) (omega arith)) (x % 64) (omega arith) (omega arith))

pub AreMarked-Between :
    (bits : List ℕ) (u last p q : ℕ)
    → AreWords bits
    → p ≤ u * 64
    → last * 64 ≤ q + 1
    → AreMarked bits p q
    → Between bits u last
AreMarked-Between bits u last p q words h k all v a b =
    all-Ones 64 (get_or bits (wrap (length bits) v) 0) (words (wrap (length bits) v)) (λ i l m.
      set_at bits (v * 64 + i) v i (omega arith) (omega arith)
        (all (v * 64 + i) (omega arith) (omega arith)))

-- The three parts of a run that leaves its first word
pub AreMarked-split :
    (bits : List ℕ) (p q : ℕ)
    → p / 64 < q / 64
    → Ones (get_or bits (wrap (length bits) (p / 64)) 0) (p % 64) 64
    → Between bits (p / 64 + 1) (q / 64)
    → Ones (get_or bits (wrap (length bits) (q / 64)) 0) 0 (q % 64 + 1)
    → AreMarked bits p q
AreMarked-split bits p q h first between last x a b = elim (dec_lt (p / 64) (x / 64)) [
  | no same ↦
      Ones-AreMarked bits (p / 64) (p % 64) 63 (omega arith) first x (omega arith) (omega arith)
  | yes past ↦ elim (dec_lt (x / 64) (q / 64)) [
    | yes k ↦ Between-AreMarked bits (p / 64 + 1) (q / 64) x between (omega arith) (omega arith)
    | no k ↦
        Ones-AreMarked bits (q / 64) 0 (q % 64) (omega arith) last x (omega arith) (omega arith)
  ]
]

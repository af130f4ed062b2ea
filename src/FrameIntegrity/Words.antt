-- ===== src/FrameIntegrity/Words.antt =====
-- pkg/sfu/buffer/frameintegrity.go, PacketsConsecutive: what its tests of single words say.
use Prim.Native.Nat.{bit_and}
use voicekit.Prelude.{
  ℕ, ◌+◌, ◌-◌, ◌*◌, ◌/◌, ◌%◌, ◌^◌, ◌≤◌, ◌<◌, true, false, ◌||◌, some, List, length, get_or, ltb,
  ◌==◌, if◌then◌else◌, ◌≡◌, sym, ap, ◌∙◌, eq→==, arith, u64_mod, add64,
}
use mathlib.Core.Path.{subst}
use native.Mathlib.Nat.{pow-le-pow_right, mul-lt-mul_of_pos_right, div-lt_iff_lt-mul}
use voicekit.Prelude.Bits.{bit, bit_shr}
use voicekit.Prelude.Masks.{
  Ones, and_mask-Ones, Ones-and_mask, all-Ones, Ones-of_all, pow_pos, pow_split,
}
use voicekit.FrameIntegrity.{ones64, same_word, ones_from, ones_to}

==→eq : (a b : ℕ) → (a == b) ≡ true → a ≡ b
==→eq a b h = ground arith

pow_64 : (n : ℕ) → n ≤ 64 → 2 ^ n ≤ u64_mod
pow_64 n h = pow-le-pow_right {n = 2} (omega arith) h

ones64_lem : (n : ℕ) → 1 ≤ n → n ≤ 64 → ones64 n ≡ 2 ^ n - 1
unfolding ones64
ones64_lem n l h = let p = pow_64 n h in let q = pow_pos n in omega arith

-- The shifted mask fits in a word.
mask_fits : (c s : ℕ) → 1 ≤ c → s + c ≤ 64 → ones64 c * 2 ^ s % u64_mod ≡ (2 ^ c - 1) * 2 ^ s
mask_fits c s l h =
    let p = pow_pos s in
    let t = pow_pos c in
    let q = pow_64 (s + c) h in
    let e = pow_split s c in
    let r = mul-lt-mul_of_pos_right {m = 2 ^ c - 1} {n = 2 ^ c} {k = 2 ^ s} (omega arith) p in
    let b : (2 ^ c - 1) * 2 ^ s < u64_mod = omega arith in
    rw (ones64_lem c l (omega arith)) (omega arith)

pub same_word-Ones :
    (w from to : ℕ)
    → from ≤ to
    → to < 64
    → (same_word w from to ≡ some true → Ones w from (to + 1))
      × (Ones w from (to + 1) → same_word w from to ≡ some true)
unfolding same_word
same_word-Ones w from to h k =
    let e = mask_fits (to + 1 - from) from (omega arith) (omega arith) in
    let f : from + (to + 1 - from) ≡ to + 1 = omega arith in
    let g : ltb (to + 1) from ≡ false = ground arith in
    rw (g, e)
      (
        (λ r. subst (Ones w from) f (
            and_mask-Ones w from (to + 1 - from) (
              ==→eq (bit_and w ((2 ^ (to + 1 - from) - 1) * 2 ^ from))
                ((2 ^ (to + 1 - from) - 1) * 2 ^ from) (cc)))),
        λ r. ap some (
            eq→== (bit_and w ((2 ^ (to + 1 - from) - 1) * 2 ^ from))
              ((2 ^ (to + 1 - from) - 1) * 2 ^ from)
              (Ones-and_mask w from (to + 1 - from) (subst (Ones w from) (sym f) r))),
      )

pub ones_to-Ones :
    (w to : ℕ)
    → to < 64
    → (ones_to w to ≡ true → Ones w 0 (to + 1)) × (Ones w 0 (to + 1) → ones_to w to ≡ true)
unfolding ones_to
ones_to-Ones w to h =
    let e : ones64 (to + 1) ≡ (2 ^ (to + 1) - 1) * 2 ^ 0 =
      ones64_lem (to + 1) (omega arith) (omega arith) ∙ omega arith in
    let f : 0 + (to + 1) ≡ to + 1 = omega arith in
    let mask = (2 ^ (to + 1) - 1) * 2 ^ 0 in
    rw e (
      (λ r. subst (Ones w 0) f (and_mask-Ones w 0 (to + 1) (==→eq (bit_and w mask) mask r))),
      λ r. eq→== (bit_and w mask) mask (Ones-and_mask w 0 (to + 1) (subst (Ones w 0) (sym f) r)),
    )

-- Adding one to a number of n digits wraps as the power does.
wrapped :
    (n x : ℕ)
    → 1 ≤ n
    → n ≤ 64
    → x < 2 ^ n
    → (add64 x 1 ≡ 2 ^ n % u64_mod → x + 1 ≡ 2 ^ n) × (x + 1 ≡ 2 ^ n → add64 x 1 ≡ 2 ^ n % u64_mod)
wrapped n x l h k =
    let p = pow_64 n h in let q = pow_pos n in ((λ e. omega arith), λ e. ap (λ y. y % u64_mod) e)

shr_small : (w s : ℕ) → s ≤ 64 → w < u64_mod → w / 2 ^ s < 2 ^ (64 - s)
shr_small w s h k =
    let e : s + (64 - s) ≡ 64 = omega arith in
    let p = pow_split s (64 - s) ∙ ap (λ n. 2 ^ n) e in
    (div-lt_iff_lt-mul {k = 2 ^ s} {x = w} {y = 2 ^ (64 - s)} (pow_pos s)).1 (omega arith)

pub ones_from-Ones :
    (w from : ℕ)
    → from < 64
    → w < u64_mod
    → (ones_from w from ≡ true → Ones w from 64) × (Ones w from 64 → ones_from w from ≡ true)
unfolding ones_from
ones_from-Ones w from h k =
    let x = w / 2 ^ from in
    let n = 64 - from in
    let small = shr_small w from (omega arith) k in
    let wrap = wrapped n x (omega arith) (omega arith) small in
    (
      (λ r i a b.
          let e : from + (i - from) ≡ i = omega arith in
          ap (bit w) (sym e)
          ∙ (sym (bit_shr w from (i - from))
              ∙ Ones-of_all n x (wrap.0 (==→eq (add64 x 1) (2 ^ n % u64_mod) r)) (i - from)
                  (omega arith) (omega arith))),
      λ ones. eq→== (add64 x 1) (2 ^ n % u64_mod) (
          wrap.1 (
            all-Ones n x small
              (λ i a b. bit_shr w from i ∙ ones (from + i) (omega arith) (omega arith)))),
    )

-- An index past the last goes round.
abbrev pub wrap : ℕ → ℕ → ℕ
wrap len u = if ltb u len then u else u - len

-- The index as the loop has it, which goes round one step later
abbrev pub late : ℕ → ℕ → ℕ
late len u = if ltb len u then u - len else u

pub all_ones_word : (w : ℕ) → w < u64_mod → (add64 w 1 == 0) ≡ true → w + 1 ≡ 2 ^ 64
all_ones_word w h k = ground arith

pub word_all_ones : (w : ℕ) → w + 1 ≡ 2 ^ 64 → (add64 w 1 == 0) ≡ true
word_all_ones w h = ground arith

-- The words from index u up to the last one, which is not looked at
abbrev pub Between : List ℕ → ℕ → ℕ → Type 0
Between bits u last = (v : ℕ) → u ≤ v → v < last → get_or bits (wrap (length bits) v) 0 + 1 ≡ 2 ^ 64

pub loop_end :
    (len u : ℕ)
    → 0 < len
    → u < 2 * len
    → ((late len u == wrap len u) || ((if late len u == len then 0 else late len u) == wrap len u))
      ≡ true
loop_end len u h k = ground arith

pub loop_index :
    (len u : ℕ) → 0 < len → u < 2 * len → (if late len u == len then 0 else late len u) ≡ wrap len u
loop_index len u h k = ground arith

pub loop_next : (len u : ℕ) → 0 < len → u < 2 * len → wrap len u + 1 ≡ late len (u + 1)
loop_next len u h k = ground arith

pub loop_goes :
    (len u last : ℕ)
    → u < last
    → last < u + len
    → last < 2 * len
    → ((late len u == wrap len last) || (wrap len u == wrap len last)) ≡ false
loop_goes len u last h k l = ground arith

-- ===== src/Prelude/Masks.antt =====
-- Runs of ones in the digits of a number, and the tests for them.
use Prim.Native.Nat.{ℕ, zero, suc, ◌+◌, ◌-◌, ◌*◌, ◌/◌, ◌^◌, ◌≤◌, ◌<◌, bit_and, bit_or}
use mathlib.Core.Path.{◌≡◌, sym, ap, ◌∙◌}
use mathlib.Core.Logic.{◌≢◌}
use native.Mathlib.Nat.{pow-succ'}
use native.Mathlib.Decide.{dec_lt}
use native.Mathlib.Omega.{arith}
use voicekit.Prelude.Bits.{
  bit, bit-bit_and, bit-bit_or, eq_of_bits, bit_high, bit_shl, bit_shl_low, bit_complement, bit-lt,
  double, bit_zero,
}

-- The digits from a up to, but not including, b are ones.
abbrev pub Ones : ℕ → ℕ → ℕ → Type 0
Ones w a b = (i : ℕ) → a ≤ i → i < b → bit w i ≡ 1

lt_pow : (n : ℕ) → n < 2 ^ n
lt_pow zero = omega arith
lt_pow (suc n) = let p = pow-succ' 2 n in let h = lt_pow n in omega arith

pub pow_pos : (n : ℕ) → 0 < 2 ^ n
pow_pos n = let h = lt_pow n in omega arith

pub eq_of_all_bits : (a b : ℕ) → ((i : ℕ) → bit a i ≡ bit b i) → a ≡ b
eq_of_all_bits a b e =
    let ha = lt_pow (a + b) in eq_of_bits (a + b) a b (omega arith) (omega arith) (λ i h. e i)

bit_ones : (c j : ℕ) → j < c → bit (2 ^ c - 1) j ≡ 1
bit_ones c j h =
    let p = pow_pos c in
    let e : 2 ^ c - 1 - 0 ≡ 2 ^ c - 1 = omega arith in
    ap (λ x. bit x j) (sym e) ∙ (bit_complement c 0 j p h ∙ ap (λ d. 1 - d) (bit_zero j))

-- The ones of `(2 ^ c - 1) << s` stand at s, ..., s + c - 1.
pub mask-Ones : (s c : ℕ) → Ones ((2 ^ c - 1) * 2 ^ s) s (s + c)
mask-Ones s c i h k =
    let e : i ≡ s + (i - s) = omega arith in
    rw e (bit_shl (2 ^ c - 1) s (i - s) ∙ bit_ones c (i - s) (omega arith))

mask_below : (s c i : ℕ) → i < s → bit ((2 ^ c - 1) * 2 ^ s) i ≡ 0
mask_below s c i h = bit_shl_low (2 ^ c - 1) s i h

mask_above : (s c i : ℕ) → s + c ≤ i → bit ((2 ^ c - 1) * 2 ^ s) i ≡ 0
mask_above s c i h =
    let p = pow_pos c in
    let e : i ≡ s + (i - s) = omega arith in
    rw e
      (bit_shl (2 ^ c - 1) s (i - s) ∙ bit_high c (2 ^ c - 1) (i - s) (omega arith) (omega arith))

-- `w & mask == mask` holds exactly if w has the ones of the mask.
pub and_mask-Ones :
    (w s c : ℕ) → bit_and w ((2 ^ c - 1) * 2 ^ s) ≡ (2 ^ c - 1) * 2 ^ s → Ones w s (s + c)
and_mask-Ones w s c e i h k =
    let m = mask-Ones s c i h k in
    let d = sym (bit-bit_and w ((2 ^ c - 1) * 2 ^ s) i) ∙ ap (λ x. bit x i) e in
    let l = bit-lt w i in omega arith

pub Ones-and_mask :
    (w s c : ℕ) → Ones w s (s + c) → bit_and w ((2 ^ c - 1) * 2 ^ s) ≡ (2 ^ c - 1) * 2 ^ s
Ones-and_mask w s c ones =
    eq_of_all_bits (bit_and w ((2 ^ c - 1) * 2 ^ s)) ((2 ^ c - 1) * 2 ^ s) λ i.
      bit-bit_and w ((2 ^ c - 1) * 2 ^ s) i ∙ elim (dec_lt i s) [
        | yes below ↦ let z = mask_below s c i below in omega arith
        | no from ↦ elim (dec_lt i (s + c)) [
          | yes k ↦
              let m = mask-Ones s c i (omega arith) k in
              let d = ones i (omega arith) k in omega arith
          | no past ↦ let z = mask_above s c i (omega arith) in omega arith
        ]
      ]

-- A number of n digits is all ones exactly if it is 2 ^ n - 1.
pub all-Ones : (n x : ℕ) → x < 2 ^ n → Ones x 0 n → x + 1 ≡ 2 ^ n
all-Ones n x h ones =
    let p = pow_pos n in
    let e =
      eq_of_bits n x (2 ^ n - 1) h (omega arith)
        (λ i k. ones i (omega arith) k ∙ sym (bit_ones n i k)) in
    omega arith

pub Ones-of_all : (n x : ℕ) → x + 1 ≡ 2 ^ n → Ones x 0 n
Ones-of_all n x h i a b = let e : x ≡ 2 ^ n - 1 = omega arith in rw e (bit_ones n i b)

pub pow_split : (s c : ℕ) → 2 ^ c * 2 ^ s ≡ 2 ^ (s + c)
pow_split zero c = let e : zero + c ≡ c = omega arith in rw e (omega arith)
pow_split (suc s) c =
    let e : suc s + c ≡ suc (s + c) = omega arith in
    rw e (
      let p = double (2 ^ c) s in
      let q = pow_split s c in let r = pow-succ' 2 (s + c) in omega arith)

pub bit_pow_self : (o : ℕ) → bit (2 ^ o) o ≡ 1
bit_pow_self o =
    let e : (2 ^ 1 - 1) * 2 ^ o ≡ 2 ^ o = omega arith in
    ap (λ x. bit x o) (sym e) ∙ mask-Ones o 1 o (omega arith) (omega arith)

pub bit_pow_other : (o i : ℕ) → i ≢ o → bit (2 ^ o) i ≡ 0
bit_pow_other o i h =
    let e : (2 ^ 1 - 1) * 2 ^ o ≡ 2 ^ o = omega arith in
    ap (λ x. bit x i) (sym e)
    ∙ elim (dec_lt i o) [ yes l ↦ mask_below o 1 i l | no l ↦ mask_above o 1 i (omega arith) ]

-- A number without digits past the width is within it.
pub lt_of_bits : (n x : ℕ) → ((i : ℕ) → n ≤ i → bit x i ≡ 0) → x < 2 ^ n
unfolding bit
lt_of_bits zero x h =
    let e = eq_of_all_bits x 0 (λ i. h i (omega arith) ∙ sym (bit_zero i)) in omega arith
lt_of_bits (suc n) x h =
    let p = pow-succ' 2 n in
    let k = lt_of_bits n (x / 2) (λ i l. h (suc i) (omega arith)) in omega arith

pub bit_or-lt : (n a b : ℕ) → a < 2 ^ n → b < 2 ^ n → bit_or a b < 2 ^ n
bit_or-lt n a b h k = lt_of_bits n (bit_or a b) (λ i l.
    let e = bit-bit_or a b i in
    let x = bit_high n a i h l in let y = bit_high n b i k l in omega arith)

pub bit_and-lt : (n a b : ℕ) → a < 2 ^ n → bit_and a b < 2 ^ n
bit_and-lt n a b h =
    lt_of_bits n (bit_and a b)
      (λ i l. let e = bit-bit_and a b i in let x = bit_high n a i h l in omega arith)

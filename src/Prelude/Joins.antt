-- ===== src/Prelude/Joins.antt =====
-- Two numbers in the digits of one, and the digits of a number up to one.
use Prim.Native.Nat.{ℕ, zero, suc, ◌+◌, ◌-◌, ◌*◌, ◌/◌, ◌%◌, ◌^◌, ◌<◌, bit_and, bit_or}
use mathlib.Core.Path.{◌≡◌, refl, sym, ap, ◌∙◌}
use native.Mathlib.Decide.{dec_lt}
use native.Mathlib.Nat.{pow-succ', div-add-mod', mod-lt}
use voicekit.Prelude.Masks.{pow_pos, eq_of_all_bits}
use native.Mathlib.Omega.{arith}
use voicekit.Prelude.Bits.{
  bit, bit-lt, bit-bit_and, bit-bit_or, bit_zero, eq_of_bits, bit_high, bit_shl, bit_shl_low,
  double, bit_complement,
}

-- The digits of x * 2 ^ s + y, where y has s digits
pub bit_join_low : (s x y i : ℕ) → i < s → bit (x * 2 ^ s + y) i ≡ bit y i
unfolding bit
bit_join_low zero x y i h = absurd (omega arith)
bit_join_low (suc s) x y zero h = let p = double x s in omega arith
bit_join_low (suc s) x y (suc i) h =
    let p = double x s in
    let e : (x * 2 ^ suc s + y) / 2 ≡ x * 2 ^ s + y / 2 = omega arith in
    rw (e, bit) (bit_join_low s x (y / 2) i (omega arith))

pub bit_join_high : (s x y i : ℕ) → y < 2 ^ s → bit (x * 2 ^ s + y) (s + i) ≡ bit x i
unfolding bit
bit_join_high zero x y i h =
    let e : x * 2 ^ 0 + y ≡ x = omega arith in let f : 0 + i ≡ i = omega arith in rw (e, f) refl
bit_join_high (suc s) x y i h =
    let p = double x s in
    let q = pow-succ' 2 s in
    let e : (x * 2 ^ suc s + y) / 2 ≡ x * 2 ^ s + y / 2 = omega arith in
    let f : suc s + i ≡ suc (s + i) = omega arith in
    rw f (rw (e, bit) (bit_join_high s x (y / 2) i (omega arith)))

-- An `or` of parts that do not overlap is their sum.
pub bit_or_join :
    (n s x y : ℕ)
    → y < 2 ^ s
    → x * 2 ^ s + y < 2 ^ n
    → bit_or (x * 2 ^ s) y < 2 ^ n
    → bit_or (x * 2 ^ s) y ≡ x * 2 ^ s + y
bit_or_join n s x y h k l = eq_of_bits n (bit_or (x * 2 ^ s) y) (x * 2 ^ s + y) l k (λ i m.
    bit-bit_or (x * 2 ^ s) y i ∙ elim (dec_lt i s) [
      | yes low ↦ let z = bit_shl_low x s i low in let j = bit_join_low s x y i low in omega arith
      | no high ↦
          let e : s + (i - s) ≡ i = omega arith in
          let z = bit_high s y i h (omega arith) in
          let a = ap (bit (x * 2 ^ s)) (sym e) ∙ bit_shl x s (i - s) in
          let b = ap (bit (x * 2 ^ s + y)) (sym e) ∙ bit_join_high s x y (i - s) h in omega arith
    ])

pub bit_or_comm : (x y : ℕ) → bit_or x y ≡ bit_or y x
bit_or_comm x y =
    eq_of_all_bits (bit_or x y) (bit_or y x)
      (λ i. let a = bit-bit_or x y i in let b = bit-bit_or y x i in omega arith)

-- The digits below n
pub bit_and_mask : (n x : ℕ) → bit_and x (2 ^ n - 1 - 0) ≡ x % 2 ^ n
bit_and_mask n x =
    let small : x % 2 ^ n < 2 ^ n = mod-lt x (pow_pos n) in
    let whole = div-add-mod' x (2 ^ n) in
    let pos = pow_pos n in
    eq_of_all_bits (bit_and x (2 ^ n - 1 - 0)) (x % 2 ^ n) (λ i.
      bit-bit_and x (2 ^ n - 1 - 0) i ∙ elim (dec_lt i n) [
        | yes low ↦
            let z = bit_zero i in
            let m = bit_complement n 0 i pos low in
            let j = bit_join_low n (x / 2 ^ n) (x % 2 ^ n) i low in
            let w = ap (λ y. bit y i) whole in let l = bit-lt x i in omega arith
        | no high ↦
            let m = bit_high n (2 ^ n - 1 - 0) i (omega arith) (omega arith) in
            let j = bit_high n (x % 2 ^ n) i small (omega arith) in omega arith
      ])

-- ===== src/Prelude/Bits.antt =====
-- The binary digits of a number, the lowest first, and what the bitwise operations do to each.
use Prim.Native.Nat.{
  ℕ, zero, suc, ◌+◌, ◌-◌, ◌*◌, ◌/◌, ◌%◌, ◌^◌, ◌≤◌, ◌<◌, min, max, bit_and, bit_or, digits,
  bit_and-bitwise, bit_or-bitwise,
}
use mathlib.Core.Path.{◌≡◌, refl, sym, ap, ◌∙◌}
use native.Mathlib.Nat.{mul_assoc, pow-suc, pow-succ', div-div-eq-div-mul}
use native.Mathlib.Omega.{arith}

unfoldable pub bit : ℕ → ℕ → ℕ
bit w zero = w % 2
bit w (suc i) = bit (w / 2) i

pub bit-lt : (w i : ℕ) → bit w i < 2
unfolding bit
bit-lt w zero = omega arith
bit-lt w (suc i) = bit-lt (w / 2) i

pub bit_zero : (i : ℕ) → bit 0 i ≡ 0
unfolding bit
bit_zero zero = refl
bit_zero (suc i) = bit_zero i

-- An operation that works on each digit, where `z` does on what is left of the second number
module _ (z : ℕ → ℕ) (f : ℕ → ℕ → ℕ) (rest : (b i : ℕ) → bit (z b) i ≡ f 0 (bit b i))
    (digit : (a b : ℕ) → a < 2 → b < 2 → f a b < 2) where
  bit-digits : (n a b i : ℕ) → a ≤ n → bit (digits z f n a b) i ≡ f (bit a i) (bit b i)
  unfolding bit
  bit-digits zero zero b i h = rw (bit_zero i) (rest b i)
  bit-digits zero (suc a) b i h = absurd (omega arith)
  bit-digits (suc n) zero b i h = rw (bit_zero i) (rest b i)
  bit-digits (suc n) (suc a) b zero h =
      let d = digit (suc a % 2) (b % 2) (omega arith) (omega arith) in omega arith
  bit-digits (suc n) (suc a) b (suc i) h =
      let d = digit (suc a % 2) (b % 2) (omega arith) (omega arith) in
      let e : (digits z f n (suc a / 2) (b / 2) * 2 + f (suc a % 2) (b % 2)) / 2
          ≡ digits z f n (suc a / 2) (b / 2) =
        omega arith in
      rw e (bit-digits n (suc a / 2) (b / 2) i (omega arith))

pub bit-bit_and : (a b i : ℕ) → bit (bit_and a b) i ≡ min (bit a i) (bit b i)
bit-bit_and a b i =
    ap (λ x. bit x i) (bit_and-bitwise a b)
    ∙ bit-digits (λ b. 0) min (λ b i. bit_zero i ∙ omega arith) (λ a b h k. omega arith) a a b i
        (omega arith)

pub bit-bit_or : (a b i : ℕ) → bit (bit_or a b) i ≡ max (bit a i) (bit b i)
bit-bit_or a b i =
    ap (λ x. bit x i) (bit_or-bitwise a b)
    ∙ bit-digits (λ b. b) max (λ b i. omega arith) (λ a b h k. omega arith) a a b i (omega arith)

-- Numbers of n digits are equal if their digits are.
pub eq_of_bits : (n a b : ℕ) → a < 2 ^ n → b < 2 ^ n → ((i : ℕ) → i < n → bit a i ≡ bit b i) → a ≡ b
unfolding bit
eq_of_bits zero a b h k e = omega arith
eq_of_bits (suc n) a b h k e =
    let p = pow-succ' 2 n in
    let low = e 0 (omega arith) in
    let high =
      eq_of_bits n (a / 2) (b / 2) (omega arith) (omega arith) (λ i l. e (suc i) (omega arith)) in
    omega arith

-- There are no digits past the width.
pub bit_high : (n x i : ℕ) → x < 2 ^ n → n ≤ i → bit x i ≡ 0
unfolding bit
bit_high zero x i h k = let e : x ≡ 0 = omega arith in rw e (bit_zero i)
bit_high (suc n) x zero h k = absurd (omega arith)
bit_high (suc n) x (suc i) h k =
    let p = pow-succ' 2 n in bit_high n (x / 2) i (omega arith) (omega arith)

pub double : (x s : ℕ) → x * 2 ^ suc s ≡ x * 2 ^ s * 2
double x s = ap (λ d. x * d) (pow-suc 2 s) ∙ sym (mul_assoc x (2 ^ s) 2)

-- The digits of x * 2 ^ s and of x / 2 ^ s are shifted.
pub bit_shl : (x s i : ℕ) → bit (x * 2 ^ s) (s + i) ≡ bit x i
unfolding bit
bit_shl x zero i =
    let e : x * 2 ^ 0 ≡ x = omega arith in let f : 0 + i ≡ i = omega arith in rw (e, f) refl
bit_shl x (suc s) i =
    let p = double x s in
    let e : x * 2 ^ suc s / 2 ≡ x * 2 ^ s = omega arith in
    let f : suc s + i ≡ suc (s + i) = omega arith in rw f (rw (e, bit) (bit_shl x s i))

pub bit_shl_low : (x s i : ℕ) → i < s → bit (x * 2 ^ s) i ≡ 0
unfolding bit
bit_shl_low x zero i h = absurd (omega arith)
bit_shl_low x (suc s) zero h = let p = double x s in omega arith
bit_shl_low x (suc s) (suc i) h =
    let p = double x s in
    let e : x * 2 ^ suc s / 2 ≡ x * 2 ^ s = omega arith in
    rw (e, bit) (bit_shl_low x s i (omega arith))

pub bit_shr : (x s i : ℕ) → bit (x / 2 ^ s) i ≡ bit x (s + i)
unfolding bit
bit_shr x zero i =
    let e : x / 2 ^ 0 ≡ x = omega arith in let f : 0 + i ≡ i = omega arith in rw (e, f) refl
bit_shr x (suc s) i =
    let f : suc s + i ≡ suc (s + i) = omega arith in
    let e : x / 2 ^ suc s ≡ x / 2 / 2 ^ s =
      (ap (λ d. x / d) (pow-succ' 2 s) ∙ sym (div-div-eq-div-mul x 2 (2 ^ s))) in
    rw (e, f) (bit_shr (x / 2) s i)

-- The digits of the complement to n ones
pub bit_complement : (n x i : ℕ) → x < 2 ^ n → i < n → bit (2 ^ n - 1 - x) i ≡ 1 - bit x i
unfolding bit
bit_complement zero x i h k = absurd (omega arith)
bit_complement (suc n) x zero h k = let p = pow-succ' 2 n in omega arith
bit_complement (suc n) x (suc i) h k =
    let p = pow-succ' 2 n in
    let e : (2 ^ suc n - 1 - x) / 2 ≡ 2 ^ n - 1 - x / 2 = omega arith in
    rw e (bit_complement n (x / 2) i (omega arith) (omega arith))

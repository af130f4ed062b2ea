-- ===== src/PlayoutDelay/RoundTrip.antt =====
-- pkg/sfu/rtpextension/playoutdelay/playoutdelay.go: what is written is read again.
use Prim.Native.Nat.{bit_and, bit_or}
use voicekit.Prelude.{
  ℕ, ◌*◌, ◌+◌, ◌/◌, ◌%◌, ◌<◌, ◌^◌, true, false, ◌||◌, none, some, ◌≡◌, refl, ◌∙◌, ltb, leb, arith,
  if◌then◌else◌, u16_mod, ◌>>=◌, ◌&&◌, Bool-cases, inl, inr,
}
use voicekit.Prelude.Joins.{bit_or_join, bit_and_mask, bit_or_comm}
use voicekit.Prelude.Masks.{bit_or-lt}
use voicekit.PlayoutDelay.{PlayOutDelay, marshal, unmarshal, big_endian}

big_endian-sum : (a b : ℕ) → a < 256 → b < 256 → big_endian a b ≡ a * 256 + b
big_endian-sum a b h k =
    bit_or_comm b (a * 2 ^ 8)
    ∙ bit_or_join 16 8 a b (omega arith) (omega arith)
        (bit_or-lt 16 (a * 2 ^ 8) b (omega arith) (omega arith))

middle_byte :
    (min max : ℕ)
    → min < 4096
    → max < 4096
    → bit_or (min * 2 ^ 4 % u16_mod % 256) (max / 2 ^ 8 % 256) ≡ min % 16 * 16 + max / 256
middle_byte min max h k =
    let e : min * 2 ^ 4 % u16_mod % 256 ≡ min % 16 * 2 ^ 4 = omega arith in
    let f : max / 2 ^ 8 % 256 ≡ max / 256 = omega arith in
    rw (e, f)
      (bit_or_join 8 4 (min % 16) (max / 256) (omega arith) (omega arith)
        (bit_or-lt 8 (min % 16 * 2 ^ 4) (max / 256) (omega arith) (omega arith)))

read_min :
    (min max : ℕ)
    → min < 4096
    → max < 4096
    → big_endian (min / 2 ^ 4 % 256) (min % 16 * 16 + max / 256) / 2 ^ 4 * 10 % u16_mod ≡ min * 10
read_min min max h k =
    let e =
      big_endian-sum (min / 2 ^ 4 % 256) (min % 16 * 16 + max / 256) (omega arith) (omega arith) in
    rw e (omega arith)

read_max :
    (min max : ℕ)
    → min < 4096
    → max < 4096
    → bit_and (big_endian (min % 16 * 16 + max / 256) (max % 256)) 4095 * 10 % u16_mod ≡ max * 10
read_max min max h k =
    let e = big_endian-sum (min % 16 * 16 + max / 256) (max % 256) (omega arith) (omega arith) in
    let f = bit_and_mask 12 ((min % 16 * 16 + max / 256) * 256 + max % 256) in
    rw (e, f) (omega arith)

-- A delay whose parts are below 40960 is written and read again with both parts rounded down to tens of
-- milliseconds; any other one is refused by the writer.
pub unmarshal-marshal :
    (p : PlayOutDelay)
    → (marshal p >>= unmarshal) ≡ (
        if ltb p.min 40960 && ltb p.max 40960
        then some (record { min = p.min / 10 * 10; max = p.max / 10 * 10 })
        else none)
unfolding marshal unmarshal
unmarshal-marshal p = elim (Bool-cases (ltb p.min 40960 && ltb p.max 40960)) [
  | inl fit ↦
      let min = p.min / 10 in
      let max = p.max / 10 in
      let low : min < 4096 = ground arith in
      let also : max < 4096 = ground arith in
      let guard : leb (2 ^ 12) min || leb (2 ^ 12) max ≡ false = ground arith in
      rw
        (
          fit,
          guard,
          middle_byte min max low also,
          read_min min max low also,
          read_max min max low also,
        )
        refl
  | inr over ↦
      let guard : leb (2 ^ 12) (p.min / 10) || leb (2 ^ 12) (p.max / 10) ≡ true = ground arith in
      rw (over, guard) refl
]

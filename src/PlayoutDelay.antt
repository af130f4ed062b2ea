-- ===== src/PlayoutDelay.antt =====
-- pkg/sfu/rtpextension/playoutdelay/playoutdelay.go: the header extension for the delays of a subscriber's
-- player, in milliseconds, on the wire in tens of them with 12 bits each.
pub mod RoundTrip
mod Examples
use Prim.Native.Nat.{bit_and, bit_or}
use voicekit.Prelude.{
  ℕ, ◌*◌, ◌/◌, ◌%◌, ◌^◌, ◌-◌, ◌||◌, Option, none, some, List, [], ◌∷◌, ltb, leb, if◌then◌else◌,
  u16_mod, ◌+◌,
}

-- Both are uint16.
pub record PlayOutDelay : Type 0 where
  pub min : ℕ
  pub max : ℕ

-- `PlayoutDelayMaxValue`
abbrev pub playout_delay_max_value : ℕ
playout_delay_max_value = 40950

abbrev pub at_most_max : ℕ → ℕ
at_most_max d = if ltb playout_delay_max_value d then playout_delay_max_value else d

pub playout_delay_from_value : ℕ → ℕ → PlayOutDelay
playout_delay_from_value min max = record { min = at_most_max min; max = at_most_max max }

unfoldable pub marshal : PlayOutDelay → Option (List ℕ)
marshal p =
    let min = p.min / 10 in
    let max = p.max / 10 in
    if leb (2 ^ 12) min || leb (2 ^ 12) max
    then none
    else some (
        min / 2 ^ 4 % 256
        ∷ bit_or (min * 2 ^ 4 % u16_mod % 256) (max / 2 ^ 8 % 256)
        ∷ max % 256
        ∷ [])

-- `binary.BigEndian.Uint16` of two bytes
abbrev pub big_endian : ℕ → ℕ → ℕ
big_endian a b = bit_or b (a * 2 ^ 8)

-- `none` where the data is too short
unfoldable pub unmarshal : List ℕ → Option PlayOutDelay
unmarshal [] = none
unmarshal (a ∷ []) = none
unmarshal (a ∷ b ∷ []) = none
unmarshal (a ∷ b ∷ c ∷ rest) = some (record {
  min = big_endian a b / 2 ^ 4 * 10 % u16_mod;
  max = bit_and (big_endian b c) 4095 * 10 % u16_mod;
})

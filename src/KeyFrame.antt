-- ===== src/KeyFrame.antt =====
-- pkg/sfu/buffer/helpers.go: whether a payload starts a key frame, for H.264, H.265 and AV1.
-- Bytes are numbers below 256; a read past the end is Go's panic. VP9 is parsed by a third-party
-- package first, and is left out.
pub mod Total
pub mod Overflow
mod Examples
use voicekit.Prelude.{
  ℕ, zero, suc, ◌+◌, ◌-◌, ◌*◌, ◌/◌, ◌%◌, ◌^◌, Bool, true, false, ◌&&◌, ◌||◌, not, Option, none,
  some, List, [], ◌∷◌, length, take, drop, get_elem?, ltb, leb, ◌==◌, if◌then◌else◌, u64_mod, add64,
}

-- `out_of_fuel` is no outcome of the source: it stands for a loop that does not end.
pub data Scan : Type 0 where
  answer : Bool → Scan
  panics : Scan
  out_of_fuel : Scan

-- Goes on with `payload[i]`.
pub at : List ℕ → ℕ → (ℕ → Scan) → Scan
at payload i k = elim (get_elem? payload i) [ none ↦ panics | some b ↦ k b ]

-- Goes on with the two bytes from `i` as one number.
abbrev pub at16 : List ℕ → ℕ → (ℕ → Scan) → Scan
at16 payload i k = at payload i λ hi. at payload (i + 1) λ lo. k (hi * 256 + lo)

-- Where the units of an aggregation packet have their type.
abbrev pub unit_offset : ℕ → ℕ
unit_offset nalu = if nalu == 26 then 3 else if nalu == 27 then 4 else 0

pub scan_units : ℕ → ℕ → List ℕ → ℕ → Scan
scan_units zero nalu payload i = if ltb i (length payload) then out_of_fuel else answer false
scan_units (suc fuel) nalu payload i =
    let body =
      if ltb (length payload) (i + 2)
      then answer false
      else at16 payload i λ size.
        if ltb (length payload) (i + 2 + size) || leb size (unit_offset nalu)
        then answer false
        else at payload (i + 2 + unit_offset nalu)
            λ b. if b % 32 == 7 then answer true else scan_units fuel nalu payload (i + 2 + size) in
    if ltb i (length payload) then body else answer false

abbrev pub is_aggregation : ℕ → Bool
is_aggregation nalu = leb 24 nalu && leb nalu 27

pub is_h264_key_frame : List ℕ → Scan
is_h264_key_frame payload =
    if ltb (length payload) 1
    then answer false
    else at payload 0 λ b.
      let nalu = b % 32 in
      if nalu == 0
      then answer false
      else if leb nalu 23
      then answer (nalu == 7)
      else if is_aggregation nalu
      then scan_units (length payload) nalu payload (if nalu == 24 then 1 else 3)
      else if nalu == 28 || nalu == 29
      then if ltb (length payload) 2
        then answer false
        else at payload 1 (λ c. if c / 128 % 2 == 0 then answer false else answer (c % 32 == 7))
      else answer false

-- The type of an H.265 unit, and whether it is a parameter set.
abbrev pub h265_type : ℕ → ℕ
h265_type b = b / 2 % 64

abbrev pub is_parameter_set : ℕ → Bool
is_parameter_set nalu_type = nalu_type == 33 || nalu_type == 34

pub scan_h265 : ℕ → List ℕ → ℕ → Scan
scan_h265 zero payload idx = if ltb idx (length payload - 2) then out_of_fuel else answer false
scan_h265 (suc fuel) payload idx =
    let body = at16 payload idx λ size.
      if leb (length payload) (idx + 2)
      then answer false
      else at payload (idx + 2) λ b.
        if is_parameter_set (h265_type b)
        then answer true
        else scan_h265 fuel payload (idx + 2 + size) in
    if ltb idx (length payload - 2) then body else answer false

pub is_h265_key_frame : List ℕ → Scan
is_h265_key_frame payload =
    if ltb (length payload) 2
    then answer false
    else at payload 0 λ b.
      let nalu_type = h265_type b in
      if is_parameter_set nalu_type
      then answer true
      else if nalu_type == 48
      then scan_h265 (length payload) payload 2
      else if nalu_type == 49
      then if ltb (length payload) 3
        then answer false
        else at payload 2 (λ c. answer (is_parameter_set (h265_type c)))
      else answer false

-- The length field of an OBU, seven bits a byte, as Go's int modulo 2 ^ 64: `none` where the data
-- end within it, else the offset after it and the length.
pub obu_length : List ℕ → ℕ → ℕ → Option (ℕ × ℕ)
obu_length [] offset len = none
obu_length (l ∷ data') offset len =
    let len' = (len + l % 128 * 2 ^ (offset * 7)) % u64_mod in
    let rest = obu_length data' (offset + 1) len' in
    if l / 128 % 2 == 0 then some (offset + 1, len') else rest

-- The bytes, how far the next one is, and whether the data end before.
pub record Obu : Type 0 where
  pub bytes : List ℕ
  pub size : ℕ
  pub truncated : Bool

-- The slice `data[offset : offset+length]`; `none` where its end lies before its start or, as an
-- int, is negative.
abbrev pub cut_obu : List ℕ → ℕ × ℕ → Option Obu
cut_obu data' (offset, len) =
    let end = add64 offset len in
    if ltb end (2 ^ 63) && ltb (length data') end
    then some (record { bytes = drop offset data'; size = length data'; truncated = true })
    else if leb (2 ^ 63) end || ltb end offset
    then none
    else some (record { bytes = take len (drop offset data'); size = end; truncated = false })

abbrev pub sized_obu : List ℕ → Option (ℕ × ℕ) → Option Obu
sized_obu data' none =
    some (record { bytes = []; size = length data'; truncated = ltb 0 (length data') })
sized_obu data' (some field) = cut_obu data' field

pub get_obu : List ℕ → Bool → Option Obu
get_obu data' last =
    if last
    then some (record { bytes = data'; size = length data'; truncated = false })
    else sized_obu data' (obu_length data' 0 0)

abbrev pub obu_type : ℕ → ℕ
obu_type b = b / 8 % 8

-- What an OBU that is not the first tells, if it is a frame.
abbrev pub frame_answer : List ℕ → Option Bool
frame_answer bytes = elim (get_elem? bytes 0) [
  | none ↦ none
  | some b ↦
      if obu_type b == 3 || obu_type b == 6
      then elim (get_elem? bytes 1) [
        | none ↦ some false
        | some c ↦ some (c / 128 % 2 == 0 && c / 32 % 4 == 0)
      ]
      else none
]

-- `w` is the number of OBUs in the packet, if it is not 0, and `i` the number of this one.
pub scan_obus : ℕ → ℕ → ℕ → List ℕ → Scan
scan_obus zero w i data' = out_of_fuel
scan_obus (suc fuel) w i data' = elim (get_obu data' (w == i + 1)) [
  | none ↦ panics
  | some obu ↦ elim (get_elem? obu.bytes 0) [
    | none ↦ answer false
    | some b ↦
        let next =
          if obu.truncated || leb w i
          then answer false
          else scan_obus fuel w (i + 1) (drop obu.size data') in
        if i == 0
        then if obu_type b == 1 then next else answer false
        else elim (frame_answer obu.bytes) [ none ↦ next | some a ↦ answer a ]
  ]
]

-- Four rounds: the count of OBUs has two bits.
pub is_av1_key_frame : List ℕ → Scan
is_av1_key_frame payload =
    if ltb (length payload) 2
    then answer false
    else at payload 0 λ b.
      if b / 128 % 2 == 0 && b / 8 % 2 == 1
      then scan_obus 4 (b / 16 % 4) 0 (drop 1 payload)
      else answer false

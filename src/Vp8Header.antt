-- ===== src/Vp8Header.antt =====
-- pkg/sfu/buffer/helpers.go: the VP8 payload descriptor, read by `Unmarshal` and written by
-- `Marshal`. Bytes are numbers below 256; the masks are written as quotients and remainders. After
-- an error no caller reads the receiver, so an error has no descriptor here.
pub mod Parts
pub mod RoundTrip
pub mod Sizes
pub mod Room
mod Examples
use voicekit.Prelude.{
  ℕ, ◌+◌, ◌-◌, ◌*◌, ◌/◌, ◌%◌, Bool, true, false, not, ◌&&◌, ◌||◌, Option, none, some, List, [], ◌∷◌,
  ◌++◌, length, ltb, ◌==◌, if◌then◌else◌,
}

pub data Error : Type 0 where
  nil_packet short_packet invalid_packet : Error

pub record Vp8 : Type 0 where
  pub first_byte : ℕ
  pub s : Bool
  pub i : Bool
  pub m : Bool
  pub picture_id : ℕ
  pub l : Bool
  pub tl0_pic_idx : ℕ
  pub t : Bool
  pub tid : ℕ
  pub y : Bool
  pub k : Bool
  pub key_idx : ℕ
  pub header_size : ℕ
  pub is_key_frame : Bool

pub data Result : Type 0 where
  ok : Vp8 → Result
  err : Error → Result

-- `b & place > 0`, where `place` is a power of two.
abbrev pub bit : ℕ → ℕ → Bool
bit place b = b / place % 2 == 1

-- Go's zero value, with the first byte.
abbrev pub with_first : ℕ → Vp8
with_first first = record {
  first_byte = first;
  s = bit 16 first;
  i = false;
  m = false;
  picture_id = 0;
  l = false;
  tl0_pic_idx = 0;
  t = false;
  tid = 0;
  y = false;
  k = false;
  key_idx = 0;
  header_size = 0;
  is_key_frame = false;
}

-- The byte after the descriptor tells a key frame; `idx` bytes were read before it.
abbrev pub finish : Vp8 → ℕ → List ℕ → Result
finish v idx [] = err short_packet
finish v idx (b ∷ rest) = ok (record v { is_key_frame = b % 2 == 0 && v.s; header_size = idx })

abbrev pub tid_in : Vp8 → ℕ → List ℕ → Result
tid_in v idx [] = err short_packet
tid_in v idx (b ∷ rest) =
    finish
      (record v {
        tid = if v.t then b / 64 % 4 else v.tid;
        y = if v.t then bit 32 b else v.y;
        key_idx = if v.k then b % 32 else v.key_idx;
      })
      (idx + 1) rest

abbrev pub read_tid : Vp8 → ℕ → List ℕ → Result
read_tid v idx bytes = if v.t || v.k then tid_in v idx bytes else finish v idx bytes

abbrev pub tl0_in : Vp8 → ℕ → List ℕ → Result
tl0_in v idx [] = err short_packet
tl0_in v idx (b ∷ rest) = read_tid (record v { tl0_pic_idx = b }) (idx + 1) rest

abbrev pub read_tl0 : Vp8 → ℕ → List ℕ → Result
read_tl0 v idx bytes = if v.l then tl0_in v idx bytes else read_tid v idx bytes

abbrev pub long_id_in : Vp8 → ℕ → ℕ → List ℕ → Result
long_id_in v idx pid [] = err short_packet
long_id_in v idx pid (b ∷ rest) =
    read_tl0 (record v { m = true; picture_id = pid * 256 + b }) (idx + 1) rest

abbrev pub id_in : Vp8 → ℕ → List ℕ → Result
id_in v idx [] = err short_packet
id_in v idx (b ∷ rest) =
    if bit 128 b
    then long_id_in v (idx + 1) (b % 128) rest
    else read_tl0 (record v { m = false; picture_id = b % 128 }) (idx + 1) rest

abbrev pub read_id : Vp8 → ℕ → List ℕ → Result
read_id v idx bytes = if v.i then id_in v idx bytes else read_tl0 v idx bytes

abbrev pub extension_in : Vp8 → List ℕ → Result
extension_in v [] = err short_packet
extension_in v (b ∷ rest) =
    if bit 64 b && not (bit 32 b)
    then err invalid_packet
    else read_id (record v { i = bit 128 b; l = bit 64 b; t = bit 32 b; k = bit 16 b }) 2 rest

abbrev pub unmarshal_bytes : List ℕ → Result
unmarshal_bytes [] = err short_packet
unmarshal_bytes (first ∷ rest) =
    if bit 128 first then extension_in (with_first first) rest else finish (with_first first) 1 rest

-- `none` is Go's nil.
unfoldable pub unmarshal : Option (List ℕ) → Result
unmarshal none = err nil_packet
unmarshal (some payload) = unmarshal_bytes payload

abbrev pub flag : Bool → ℕ → ℕ
flag b place = if b then place else 0

abbrev pub id_bytes : Bool → Bool → ℕ → List ℕ
id_bytes false m id = []
id_bytes true true id = (128 + id / 256 % 128) ∷ id % 256 ∷ []
id_bytes true false id = id % 256 ∷ []

abbrev pub tl0_bytes : Bool → ℕ → List ℕ
tl0_bytes false idx = []
tl0_bytes true idx = idx ∷ []

abbrev pub tid_bytes : Bool → ℕ → Bool → Bool → ℕ → List ℕ
tid_bytes false tid y false key_idx = []
tid_bytes true tid y false key_idx = (tid * 64 % 256 + flag y 32) ∷ []
tid_bytes false tid y true key_idx = key_idx % 32 ∷ []
tid_bytes true tid y true key_idx = (tid * 64 % 256 + flag y 32 + key_idx % 32) ∷ []

-- The bytes that `MarshalTo` writes.
pub header_bytes : Vp8 → List ℕ
header_bytes v =
    if v.i || v.l || v.t || v.k
    then (128 + v.first_byte % 128)
      ∷ (flag v.i 128 + flag v.l 64 + flag v.t 32 + flag v.k 16)
      ∷ (id_bytes v.i v.m v.picture_id
          ++ (tl0_bytes v.l v.tl0_pic_idx ++ tid_bytes v.t v.tid v.y v.k v.key_idx))
    else v.first_byte % 128 ∷ []

-- `Marshal`, into a buffer of `HeaderSize` bytes; `none` where a write past its end panics.
pub marshal : Vp8 → Option (List ℕ)
marshal v = if ltb v.header_size (length (header_bytes v)) then none else some (header_bytes v)

-- `VPxPictureIdSizeDiff`, added to a size that has room for it.
abbrev pub add_picture_id_size_diff : ℕ → Bool → Bool → ℕ
add_picture_id_size_diff size true true = size
add_picture_id_size_diff size false false = size
add_picture_id_size_diff size true false = size + 1
add_picture_id_size_diff size false true = size - 1

-- ===== src/Vp8Header/Parts.antt =====
-- pkg/sfu/buffer/helpers.go: `Unmarshal` reads each part that `Marshal` wrote.
use voicekit.Prelude.{
  ℕ, zero, suc, ◌+◌, ◌*◌, ◌/◌, ◌%◌, ◌^◌, ◌<◌, ◌≡◌, refl, Bool, true, false, not, ◌&&◌, ◌||◌, List,
  ◌∷◌, ◌++◌, length, ◌==◌, if◌then◌else◌, arith,
}
use voicekit.Vp8Header.{
  Vp8, bit, flag, finish, read_tid, read_tl0, read_id, extension_in, tid_bytes, tl0_bytes, id_bytes,
  header_bytes,
}

-- The parts that are not there are Go's zero values, the others fit their bits; the X bit of the
-- first byte tells whether there are parts at all.
pub record IsDescriptor (v : Vp8) : Type 0 where
  pub first : v.first_byte < 256
  pub starts : v.s ≡ bit 16 v.first_byte
  pub extended : bit 128 v.first_byte ≡ (v.i || v.l || v.t || v.k)
  pub layered : (v.l && not v.t) ≡ false
  pub id_low : v.picture_id < (if v.i then (if v.m then 2 ^ 15 else 128) else 1)
  pub id_short : (v.m && not v.i) ≡ false
  pub tl0_low : v.tl0_pic_idx < (if v.l then 256 else 1)
  pub tid_low : v.tid < (if v.t then 4 else 1)
  pub y_there : (v.y && not v.t) ≡ false
  pub key_low : v.key_idx < (if v.k then 32 else 1)

-- A descriptor before its last two parts are read.
abbrev no_tid : Vp8 → Vp8
no_tid v = record v { tid = 0; y = false; key_idx = 0 }

read_tid-tid_bytes :
    (v : Vp8) (t k : Bool) (idx tid key_idx : ℕ) (y : Bool) (rest : List ℕ)
    → tid < (if t then 4 else 1)
    → key_idx < (if k then 32 else 1)
    → (y && not t) ≡ false
    → let bytes = tid_bytes t tid y k key_idx in
      read_tid (record (no_tid v) { t = t; k = k }) idx (bytes ++ rest)
      ≡ finish
          (record v { t = t; k = k; tid = tid; y = y; key_idx = key_idx })
          (idx + length bytes)
          rest
read_tid-tid_bytes v false false idx tid key_idx y rest d e f = ground arith
read_tid-tid_bytes v false true idx tid key_idx y rest d e f = ground arith
read_tid-tid_bytes v true false idx tid key_idx y rest d e f = ground arith
read_tid-tid_bytes v true true idx tid key_idx y rest d e f = ground arith

pub read_tl0-bytes :
    (v : Vp8) (l t k : Bool) (idx tl0 tid key_idx : ℕ) (y : Bool) (rest : List ℕ)
    → tl0 < (if l then 256 else 1)
    → tid < (if t then 4 else 1)
    → key_idx < (if k then 32 else 1)
    → (y && not t) ≡ false
    → let bytes = tl0_bytes l tl0 ++ tid_bytes t tid y k key_idx in
      read_tl0 (record (no_tid v) { tl0_pic_idx = 0; l = l; t = t; k = k }) idx (bytes ++ rest)
      ≡ finish
          (record v { tl0_pic_idx = tl0; l = l; t = t; k = k; tid = tid; y = y; key_idx = key_idx })
          (idx + length bytes)
          rest
read_tl0-bytes v false t k idx zero tid key_idx y rest c d e f =
    read_tid-tid_bytes (record v { tl0_pic_idx = 0; l = false }) t k idx tid key_idx y rest d e f
read_tl0-bytes v false t k idx (suc tl0) tid key_idx y rest c d e f = absurd (omega arith)
read_tl0-bytes v true t k idx tl0 tid key_idx y rest c d e f =
    let n = length (tid_bytes t tid y k key_idx) in
    let steps : idx + suc n ≡ idx + 1 + n = omega arith in
    rw steps (
      read_tid-tid_bytes (record v { tl0_pic_idx = tl0; l = true }) t k (idx + 1) tid key_idx y rest
        d e f)

pub read_id-bytes :
    (v : Vp8) (i m : Bool) (idx id : ℕ) (bytes : List ℕ)
    → id < (if i then (if m then 2 ^ 15 else 128) else 1)
    → (m && not i) ≡ false
    → read_id (record v { i = i; m = false; picture_id = 0 }) idx (id_bytes i m id ++ bytes)
      ≡ read_tl0 (record v { i = i; m = m; picture_id = id }) (idx + length (id_bytes i m id)) bytes
read_id-bytes v false true idx id bytes h c = absurd (ground arith)
read_id-bytes v false false idx zero bytes h c =
    let stays : idx + 0 ≡ idx = omega arith in rw stays refl
read_id-bytes v false false idx (suc id) bytes h c = absurd (omega arith)
read_id-bytes v true true idx id bytes h c =
    let flagged : (128 + id / 256 % 128) / 128 % 2 ≡ 1 = omega arith in
    let value : (128 + id / 256 % 128) % 128 * 256 + id % 256 ≡ id = omega arith in
    let steps : idx + 1 + 1 ≡ idx + 2 = omega arith in rw (flagged, value, steps) refl
read_id-bytes v true false idx id bytes h c =
    let plain : id % 256 / 128 % 2 ≡ 0 = omega arith in
    let value : id % 256 % 128 ≡ id = omega arith in rw (plain, value) refl

pub extension_in-flags :
    (v : Vp8) (i l t k : Bool) (bytes : List ℕ)
    → (l && not t) ≡ false
    → extension_in v ((flag i 128 + flag l 64 + flag t 32 + flag k 16) ∷ bytes)
      ≡ read_id (record v { i = i; l = l; t = t; k = k }) 2 bytes
extension_in-flags v true true true true bytes h = refl
extension_in-flags v true true true false bytes h = refl
extension_in-flags v i true false k bytes h = absurd (ground arith)
extension_in-flags v true false true true bytes h = refl
extension_in-flags v true false true false bytes h = refl
extension_in-flags v true false false true bytes h = refl
extension_in-flags v true false false false bytes h = refl
extension_in-flags v false true true true bytes h = refl
extension_in-flags v false true true false bytes h = refl
extension_in-flags v false false true true bytes h = refl
extension_in-flags v false false true false bytes h = refl
extension_in-flags v false false false true bytes h = refl
extension_in-flags v false false false false bytes h = refl

-- What `Unmarshal` sets besides the parts.
abbrev pub read_back : Vp8 → ℕ → Vp8
read_back v payload = record v {
  header_size = length (header_bytes v);
  is_key_frame = payload % 2 == 0 && v.s;
}

-- ===== src/Vp8Header/RoundTrip.antt =====
-- pkg/sfu/buffer/helpers.go: `Unmarshal` reads what `Marshal` wrote.
use voicekit.Prelude.{
  ℕ, ◌+◌, ◌/◌, ◌%◌, ◌^◌, ◌<◌, ◌≡◌, refl, ap, ◌∙◌, Bool, true, false, not, ◌&&◌, ◌||◌, some, List,
  [], ◌∷◌, ◌++◌, length, if◌then◌else◌, arith, length-append, Bool-cases, inl, inr, ◌≢◌,
}
use mathlib.Core.List.{append_assoc}
use voicekit.Vp8Header.{
  Vp8, ok, bit, flag, with_first, unmarshal_bytes, read_id, extension_in, tid_bytes, tl0_bytes,
  id_bytes, header_bytes, unmarshal,
}
use voicekit.Vp8Header.Parts.{
  IsDescriptor, read_back, read_tl0-bytes, read_id-bytes, extension_in-flags,
}

pub header_bytes-extended :
    (v : Vp8)
    → (v.i || v.l || v.t || v.k) ≡ true
    → header_bytes v
      ≡ (128 + v.first_byte % 128)
        ∷ (flag v.i 128 + flag v.l 64 + flag v.t 32 + flag v.k 16)
        ∷ (id_bytes v.i v.m v.picture_id
            ++ (tl0_bytes v.l v.tl0_pic_idx ++ tid_bytes v.t v.tid v.y v.k v.key_idx))
unfolding header_bytes
header_bytes-extended v x = simp x

first_byte-extended :
    (first : ℕ) (bytes : List ℕ)
    → first < 256
    → bit 128 first ≡ true
    → unmarshal_bytes ((128 + first % 128) ∷ bytes) ≡ extension_in (with_first first) bytes
first_byte-extended first bytes h x =
    let top : first / 128 % 2 ≡ 1 = ground arith in
    let same : 128 + first % 128 ≡ first = omega (arith, top) in rw (same, top) refl

extended_lem :
    (v : Vp8) (payload : ℕ) (rest : List ℕ)
    → IsDescriptor v
    → (v.i || v.l || v.t || v.k) ≡ true
    → unmarshal (some (header_bytes v ++ payload ∷ rest)) ≡ ok (read_back v payload)
unfolding unmarshal
extended_lem v payload rest d x =
    let id = id_bytes v.i v.m v.picture_id in
    let parts = tl0_bytes v.l v.tl0_pic_idx ++ tid_bytes v.t v.tid v.y v.k v.key_idx in
    let flags = flag v.i 128 + flag v.l 64 + flag v.t 32 + flag v.k 16 in
    let after = payload ∷ rest in
    let first = with_first v.first_byte in
    let flagged : Vp8 = record first { i = v.i; l = v.l; t = v.t; k = v.k } in
    let named : Vp8 = record first { i = v.i; m = v.m; picture_id = v.picture_id } in
    let size : 2 + length id + length parts ≡ length (header_bytes v) =
      rw (header_bytes-extended v x, length-append id parts) (omega arith) in
    ap (λ h. unmarshal_bytes (h ++ after)) (header_bytes-extended v x)
    ∙ first_byte-extended v.first_byte (flags ∷ ((id ++ parts) ++ after)) d.first (d.extended ∙ x)
    ∙ extension_in-flags first v.i v.l v.t v.k ((id ++ parts) ++ after) d.layered
    ∙ ap (λ b. read_id flagged 2 b) (append_assoc id parts after)
    ∙ read_id-bytes flagged v.i v.m 2 v.picture_id (parts ++ after) d.id_low d.id_short
    ∙ read_tl0-bytes named v.l v.t v.k (2 + length id) v.tl0_pic_idx v.tid v.key_idx v.y after
        d.tl0_low d.tid_low d.key_low d.y_there
    ∙ simp (d.starts, size)

all_false :
    (i l t k : Bool)
    → (i || l || t || k) ≡ false
    → (i ≡ false) × (l ≡ false) × (t ≡ false) × (k ≡ false)
all_false false false false false x = (refl, refl, refl, refl)
all_false true l t k x = absurd (ground arith)
all_false false true t k x = absurd (ground arith)
all_false false false true k x = absurd (ground arith)
all_false false false false true x = absurd (ground arith)

-- A flag that needs another one, which is not set.
unset : {a b : Bool} → b ≡ false → (a && not b) ≡ false → a ≡ false
unset {a = false} {b = b} e h = refl
unset {a = true} {b = b} e h = absurd (ground arith)

-- A part that is not there is 0.
absent : {b : Bool} {n : ℕ} (k : ℕ) → b ≡ false → n < (if b then k else 1) → n ≡ 0
absent {b = false} k e h = omega arith
absent {b = true} k e h = absurd (ground arith)

header_bytes-plain :
    (v : Vp8) → (v.i || v.l || v.t || v.k) ≡ false → header_bytes v ≡ v.first_byte % 128 ∷ []
unfolding header_bytes
header_bytes-plain v x = simp x

plain_lem :
    (v : Vp8) (payload : ℕ) (rest : List ℕ)
    → IsDescriptor v
    → (v.i || v.l || v.t || v.k) ≡ false
    → unmarshal (some (header_bytes v ++ payload ∷ rest)) ≡ ok (read_back v payload)
unfolding unmarshal
plain_lem v payload rest d x =
    let (i, l, t, k) = all_false v.i v.l v.t v.k x in
    let low : v.first_byte / 128 % 2 ≢ 1 = ground (arith, d.extended, x) in
    let same : v.first_byte % 128 ≡ v.first_byte = omega (arith, low, d.first) in
    let plain : bit 128 v.first_byte ≡ false = d.extended ∙ x in
    let size : length (header_bytes v) ≡ 1 = ap length (header_bytes-plain v x) in
    ap (λ h. unmarshal_bytes (h ++ payload ∷ rest)) (header_bytes-plain v x)
    ∙ ap (λ b. unmarshal_bytes (b ∷ payload ∷ rest)) same
    ∙ simp (
      plain,
      size,
      i,
      l,
      t,
      k,
      unset i d.id_short,
      absent (if v.m then 2 ^ 15 else 128) i d.id_low,
      absent 256 l d.tl0_low,
      absent 4 t d.tid_low,
      unset t d.y_there,
      absent 32 k d.key_low,
      d.starts,
    )

-- A descriptor is well-formed: each part fits its bits, and the parts that are not there are Go's zero
-- values, a picture id is long only where there is one, L and Y are set only with T, S is as the first
-- byte has it, and the X bit of the first byte is set exactly where there is a part. `Unmarshal` reads
-- what `Marshal` writes of it, with one byte of the frame after it, as it was; the size is that of the
-- bytes written, and the key frame flag is that of the frame's byte.
pub unmarshal-header_bytes :
    (v : Vp8) (payload : ℕ) (rest : List ℕ)
    → IsDescriptor v
    → unmarshal (some (header_bytes v ++ payload ∷ rest)) ≡ ok (read_back v payload)
unmarshal-header_bytes v payload rest d = elim (Bool-cases (v.i || v.l || v.t || v.k)) [
  | inl x ↦ extended_lem v payload rest d x
  | inr x ↦ plain_lem v payload rest d x
]

-- ===== src/Vp8Munger/Wire.antt =====
-- pkg/sfu/codecmunger/vp8.go: the picture id in the header that a forwarded packet is sent with.
use voicekit.Prelude.{
  ℕ, ◌+◌, ◌-◌, ◌*◌, ◌/◌, ◌%◌, ◌^◌, ◌<◌, ◌≤◌, le→ltb_false, ◌≡◌, refl, ap, ◌∙◌, Bool, true, false,
  Option, none, some, List, [], ◌∷◌, ◌++◌, ltb, if◌then◌else◌, arith, sub8,
}
use voicekit.Vp8Header.{Vp8, flag, id_bytes, tl0_bytes, tid_bytes, header_bytes, unmarshal, marshal}
use voicekit.Vp8Header.Sizes.{unmarshal-IsSized}
use voicekit.Vp8Header.Room.{marshal-IsSized}
use voicekit.Vp8Header.RoundTrip.{header_bytes-extended}
use voicekit.Vp8Munger.{OrderedMap, Vp8Munger, Outcome, ok}
use voicekit.Vp8Munger.Forward.{forward, munge, outcome_of}
use voicekit.Vp8Munger.Unwrap.{sub32}

-- The picture id of a descriptor whose I bit is set: the third byte, or 15 bits of the third and the
-- fourth where the first of them has the M bit (RFC 7741, 4.2).
abbrev pub long_id : ℕ → List ℕ → Option ℕ
long_id b [] = none
long_id b (c ∷ rest) = some ((b - 128) * 256 + c)

abbrev pub picture_id_in : List ℕ → Option ℕ
picture_id_in (first ∷ flags ∷ b ∷ rest) =
    if ltb flags 128 then none else if ltb b 128 then some b else long_id b rest
picture_id_in bytes = none

-- A header is sent in place of the packet's own of `size` bytes, with the picture id `id` in it.
abbrev pub IsSentAs : Outcome → ℕ → ℕ → Type 0
IsSentAs out size id = (bytes : List ℕ) × (out ≡ ok size bytes) × (picture_id_in bytes ≡ some id)

picture_id_in-id_bytes :
    (first flags id : ℕ) (m : Bool) (rest : List ℕ)
    → 128 ≤ flags
    → id < (if m then 2 ^ 15 else 128)
    → picture_id_in (first ∷ flags ∷ (id_bytes true m id ++ rest)) ≡ some id
picture_id_in-id_bytes first flags id true rest set h =
    let long : 128 ≤ 128 + id / 256 % 128 = omega arith in
    let read : (128 + id / 256 % 128 - 128) * 256 + id % 256 ≡ id = omega arith in
    rw (le→ltb_false flags 128 set, le→ltb_false (128 + id / 256 % 128) 128 long, read) refl
picture_id_in-id_bytes first flags id false rest set h =
    let read : id % 256 ≡ id = omega arith in
    let short : ltb id 128 ≡ true = ground arith in
    rw (le→ltb_false flags 128 set, read, short) refl

picture_id_in-header_bytes :
    (v : Vp8)
    → v.i ≡ true
    → v.picture_id < (if v.m then 2 ^ 15 else 128)
    → picture_id_in (header_bytes v) ≡ some v.picture_id
picture_id_in-header_bytes v x h =
    let flags = flag v.i 128 + flag v.l 64 + flag v.t 32 + flag v.k 16 in
    let parts = tl0_bytes v.l v.tl0_pic_idx ++ tid_bytes v.t v.tid v.y v.k v.key_idx in
    let set : 128 ≤ flags = ground arith in
    ap picture_id_in (header_bytes-extended v (rw x refl))
    ∙ ap
        (λ i.
          picture_id_in
            ((128 + v.first_byte % 128) ∷ flags ∷ (id_bytes i v.m v.picture_id ++ parts)))
        x
    ∙ picture_id_in-id_bytes (128 + v.first_byte % 128) flags v.picture_id v.m parts set h

fits_m : (id : ℕ) → id < 2 ^ 15 → id < (if ltb 127 id then 2 ^ 15 else 128)
fits_m id h = ground arith

module _ {I : OrderedMap ℕ} {B : OrderedMap Bool} where
  -- A packet that `Unmarshal` read is forwarded with its id less the offset.
  pub forward-IsSentAs :
      (v : Vp8Munger I B) (p : Vp8) (ext : ℕ) (payload : Option (List ℕ))
      → unmarshal payload ≡ voicekit.Vp8Header.ok p
      → p.i ≡ true
      → IsSentAs (forward v p ext).1 p.header_size (sub32 ext v.picture_id_offset % 2 ^ 15)
  unfolding forward
  forward-IsSentAs v p ext payload e x =
      let id = sub32 ext v.picture_id_offset % 2 ^ 15 in
      let tl0 = sub8 p.tl0_pic_idx v.tl0_pic_idx_offset in
      let key_idx = sub8 p.key_idx v.key_idx_offset % 32 in
      let w = munge p id tl0 key_idx in
      let same : marshal w ≡ some (header_bytes w) =
        marshal-IsSized (record p { s = false; tl0_pic_idx = tl0; key_idx = key_idx }) (ltb 127 id)
          id x (unmarshal-IsSized payload p e) in
      (
        header_bytes w,
        ap (outcome_of p.header_size) same,
        picture_id_in-header_bytes w x (fits_m id (omega arith)),
      )

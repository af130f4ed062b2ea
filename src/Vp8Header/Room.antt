-- ===== src/Vp8Header/Room.antt =====
-- pkg/sfu/buffer/helpers.go: `Marshal` has room for the descriptor, also after the picture id changed.
use voicekit.Prelude.{
  ℕ, ◌+◌, ◌%◌, ◌≤◌, ◌≡◌, refl, Bool, true, false, ◌||◌, Option, some, List, [], ◌∷◌, ◌++◌, length,
  if◌then◌else◌, arith, length-append, le→ltb_false,
}
use voicekit.Vp8Header.{
  Vp8, ok, flag, tid_bytes, tl0_bytes, id_bytes, header_bytes, unmarshal, marshal,
  add_picture_id_size_diff,
}
use voicekit.Vp8Header.Sizes.{id_size, IsSized, unmarshal-IsSized}

length-id_bytes : (i m : Bool) (id : ℕ) → length (id_bytes i m id) ≡ id_size i m
length-id_bytes false m id = refl
length-id_bytes true true id = refl
length-id_bytes true false id = refl

length-tl0_bytes : (l : Bool) (idx : ℕ) → length (tl0_bytes l idx) ≡ flag l 1
length-tl0_bytes true idx = refl
length-tl0_bytes false idx = refl

length-tid_bytes :
    (t k : Bool) (tid key_idx : ℕ) (y : Bool)
    → length (tid_bytes t tid y k key_idx) ≡ flag (t || k) 1
length-tid_bytes true true tid key_idx y = refl
length-tid_bytes true false tid key_idx y = refl
length-tid_bytes false true tid key_idx y = refl
length-tid_bytes false false tid key_idx y = refl

length-header_bytes :
    (v : Vp8)
    → length (header_bytes v) ≡ (
        if v.i || v.l || v.t || v.k
        then 2 + id_size v.i v.m + flag v.l 1 + flag (v.t || v.k) 1
        else 1)
unfolding header_bytes
length-header_bytes v = go (v.i || v.l || v.t || v.k)
  where
    id : List ℕ
    id = id_bytes v.i v.m v.picture_id

    tl0 : List ℕ
    tl0 = tl0_bytes v.l v.tl0_pic_idx

    tid : List ℕ
    tid = tid_bytes v.t v.tid v.y v.k v.key_idx

    go :
        (b : Bool)
        → length (
            if b
            then (128 + v.first_byte % 128)
              ∷ (flag v.i 128 + flag v.l 64 + flag v.t 32 + flag v.k 16)
              ∷ (id ++ (tl0 ++ tid))
            else v.first_byte % 128 ∷ [])
          ≡ (if b then 2 + id_size v.i v.m + flag v.l 1 + flag (v.t || v.k) 1 else 1)
    go true = omega (
      arith,
      length-append id (tl0 ++ tid),
      length-append tl0 tid,
      length-id_bytes v.i v.m v.picture_id,
      length-tl0_bytes v.l v.tl0_pic_idx,
      length-tid_bytes v.t v.k v.tid v.key_idx v.y,
    )
    go false = refl

-- A descriptor with another picture id, as the codec munger writes it.
abbrev pub with_id : Vp8 → Bool → ℕ → Vp8
with_id v m id = record v {
  m = m;
  picture_id = id;
  header_size = add_picture_id_size_diff v.header_size m v.m;
}

id_size-diff :
    (m m' : Bool) (rest size : ℕ)
    → 2 + id_size true m + rest ≤ size
    → 2 + id_size true m' + rest ≤ add_picture_id_size_diff size m' m
id_size-diff true true rest size h = h
id_size-diff false false rest size h = h
id_size-diff true false rest size h = omega arith
id_size-diff false true rest size h = omega arith

with_id-IsSized : (v : Vp8) (m : Bool) (id : ℕ) → v.i ≡ true → IsSized v → IsSized (with_id v m id)
with_id-IsSized v m id = go v.i
  where
    rest : ℕ
    rest = flag v.l 1 + flag (v.t || v.k) 1

    go :
        (i : Bool)
        → i ≡ true
        → (if i || v.l || v.t || v.k
            then 2 + id_size i v.m + flag v.l 1 + flag (v.t || v.k) 1
            else 1)
          ≤ v.header_size
        → (if i || v.l || v.t || v.k then 2 + id_size i m + flag v.l 1 + flag (v.t || v.k) 1 else 1)
          ≤ add_picture_id_size_diff v.header_size m v.m
    go true e h = omega (arith, id_size-diff v.m m rest v.header_size (omega arith))
    go false e h = absurd (ground arith)

pub marshal-IsSized :
    (v : Vp8) (m : Bool) (id : ℕ)
    → v.i ≡ true
    → IsSized v
    → marshal (with_id v m id) ≡ some (header_bytes (with_id v m id))
unfolding marshal
marshal-IsSized v m id x sized =
    let w = with_id v m id in
    let fits : length (header_bytes w) ≤ w.header_size =
      rw (length-header_bytes w) (with_id-IsSized v m id x sized) in
    rw (le→ltb_false w.header_size (length (header_bytes w)) fits) refl

-- Whatever picture id replaces the one that `Unmarshal` read, in one or two bytes, the adjusted
-- header size has room for the new descriptor, so that `Marshal` never writes past its buffer.
pub marshal-with_id :
    (payload : Option (List ℕ)) (v : Vp8) (m : Bool) (id : ℕ)
    → unmarshal payload ≡ ok v
    → v.i ≡ true
    → marshal (with_id v m id) ≡ some (header_bytes (with_id v m id))
marshal-with_id payload v m id e x = marshal-IsSized v m id x (unmarshal-IsSized payload v e)

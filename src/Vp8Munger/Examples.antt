-- ===== src/Vp8Munger/Examples.antt =====
-- A map by a list in order of insertion, and the theorems at concrete inputs.
use voicekit.Prelude.{
  ℕ, ◌+◌, ◌/◌, ◌%◌, ◌≡◌, refl, arith, Bool, true, false, Option, none, some, List, [], ◌∷◌, length,
  ◌==◌, if◌then◌else◌,
}
use voicekit.Vp8Header.{Vp8, unmarshal}
use voicekit.Vp8Munger.Wire.{IsSentAs}
use voicekit.Vp8Munger.{
  OrderedMap, Vp8Munger, ExtPacket, new_vp8, update_offsets, err, filtered_layer,
}
use voicekit.Vp8Munger.Forward.{update_and_get, in_order}
use voicekit.Vp8Munger.Switch.{update_and_get-update_offsets, in_order-dropped}

module _ {V : Type 0} where
  abbrev get_in : ℕ → List (ℕ × V) → Option V
  get_in key [] = none
  get_in key ((k, v) ∷ rest) = if k == key then some v else get_in key rest

  abbrev put_in : ℕ → V → List (ℕ × V) → List (ℕ × V)
  put_in key new [] = (key, new) ∷ []
  put_in key new ((k, v) ∷ rest) =
      let rest' = put_in key new rest in if k == key then (k, new) ∷ rest else (k, v) ∷ rest'

  abbrev delete_in : ℕ → List (ℕ × V) → List (ℕ × V)
  delete_in key [] = []
  delete_in key ((k, v) ∷ rest) =
      let rest' = delete_in key rest in if k == key then rest else (k, v) ∷ rest'

  abbrev front_of : List (ℕ × V) → Option ℕ
  front_of [] = none
  front_of ((k, v) ∷ rest) = some k

abbrev list_map : (V : Type 0) → OrderedMap V
list_map V = record {
  Carrier = List (ℕ × V);
  empty = [];
  get = get_in;
  put = put_in;
  delete = delete_in;
  front = front_of;
  len = length;
}

abbrev packet : ℕ → Vp8
packet id = record {
  first_byte = 144;
  s = true;
  i = true;
  m = true;
  picture_id = id;
  l = true;
  tl0_pic_idx = 7;
  t = true;
  tid = 1;
  y = true;
  k = true;
  key_idx = 3;
  header_size = 6;
  is_key_frame = false;
}

-- A munger that has sent picture 300.
abbrev started : Vp8Munger (list_map ℕ) (list_map Bool)
started = record (new_vp8 (list_map ℕ) (list_map Bool)) {
  picture_id_used = true;
  ext_last_picture_id = 300;
  picture_id_offset = 20;
}

-- A packet's bytes, with one byte of the frame.
abbrev bytes_of : ℕ → List ℕ
bytes_of id = 144 ∷ 240 ∷ (128 + id / 256) ∷ id % 256 ∷ 7 ∷ 99 ∷ 1 ∷ []

unmarshal-bytes_of : unmarshal (some (bytes_of 9000)) ≡ voicekit.Vp8Header.ok (packet 9000)
unfolding unmarshal
unmarshal-bytes_of = refl

unmarshal-bytes_of_321 : unmarshal (some (bytes_of 321)) ≡ voicekit.Vp8Header.ok (packet 321)
unfolding unmarshal
unmarshal-bytes_of_321 = refl

unmarshal-bytes_of_322 : unmarshal (some (bytes_of 322)) ≡ voicekit.Vp8Header.ok (packet 322)
unfolding unmarshal
unmarshal-bytes_of_322 = refl

update_and_get-update_offsets_example :
    let pkt : ExtPacket = record { payload = some (packet 9000); temporal = 1 } in
    let (v', out) = update_and_get (update_offsets started pkt) pkt false false 2 in
    IsSentAs out 6 301 × (v'.ext_last_picture_id ≡ 301)
update_and_get-update_offsets_example =
    update_and_get-update_offsets started (packet 9000) 1 2 (some (bytes_of 9000))
      unmarshal-bytes_of refl refl (omega arith) (omega arith) refl

in_order-dropped_example :
    let (v', out) = in_order started (packet 321) 320 321 false true in
    let (dropped, would_be) = in_order started (packet 321) 320 321 false false in
    let (next, sent) = in_order v' (packet 322) 321 322 false false in
    (out ≡ err filtered_layer)
    × IsSentAs would_be 6 301
    × IsSentAs sent 6 301
    × (next.ext_last_picture_id ≡ dropped.ext_last_picture_id)
unfolding new_vp8
in_order-dropped_example =
    in_order-dropped started (packet 321) (packet 322) 320 321 (some (bytes_of 321))
      (some (bytes_of 322)) unmarshal-bytes_of_321 unmarshal-bytes_of_322 refl refl (omega arith)
      refl (omega arith) (omega arith)

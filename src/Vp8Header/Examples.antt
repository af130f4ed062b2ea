-- ===== src/Vp8Header/Examples.antt =====
-- Concrete descriptors, and the theorems at concrete inputs.
use voicekit.Prelude.{◌≡◌, refl, arith, true, false, some, [], ◌∷◌, ◌++◌}
use voicekit.Vp8Header.{
  Vp8, ok, err, short_packet, invalid_packet, unmarshal, marshal, header_bytes,
}
use voicekit.Vp8Header.Parts.{IsDescriptor, read_back}
use voicekit.Vp8Header.RoundTrip.{unmarshal-header_bytes}
use voicekit.Vp8Header.Room.{with_id, marshal-with_id}

-- Picture id 300 in two bytes, TL0PICIDX 7, TID 1 with Y, and KEYIDX 3.
abbrev sample : Vp8
sample = record {
  first_byte = 144;
  s = true;
  i = true;
  m = true;
  picture_id = 300;
  l = true;
  tl0_pic_idx = 7;
  t = true;
  tid = 1;
  y = true;
  k = true;
  key_idx = 3;
  header_size = 6;
  is_key_frame = true;
}

sample_bytes : header_bytes sample ≡ 144 ∷ 240 ∷ 129 ∷ 44 ∷ 7 ∷ 99 ∷ []
unfolding header_bytes
sample_bytes = refl

sample_read : unmarshal (some (144 ∷ 240 ∷ 129 ∷ 44 ∷ 7 ∷ 99 ∷ 8 ∷ [])) ≡ ok sample
unfolding unmarshal
sample_read = refl

cut_short : unmarshal (some (144 ∷ 240 ∷ 129 ∷ [])) ≡ err short_packet
unfolding unmarshal
cut_short = refl

index_without_layer : unmarshal (some (144 ∷ 192 ∷ 129 ∷ [])) ≡ err invalid_packet
unfolding unmarshal
index_without_layer = refl

sample-IsDescriptor : IsDescriptor sample
sample-IsDescriptor = record {
  first = omega arith;
  starts = refl;
  extended = refl;
  layered = refl;
  id_low = omega arith;
  id_short = refl;
  tl0_low = omega arith;
  tid_low = omega arith;
  y_there = refl;
  key_low = omega arith;
}

unmarshal-header_bytes_example :
    unmarshal (some (header_bytes sample ++ 8 ∷ 9 ∷ [])) ≡ ok (read_back sample 8)
unmarshal-header_bytes_example = unmarshal-header_bytes sample 8 (9 ∷ []) sample-IsDescriptor

marshal-with_id_example :
    marshal (with_id sample false 100) ≡ some (header_bytes (with_id sample false 100))
marshal-with_id_example =
    marshal-with_id (some (144 ∷ 240 ∷ 129 ∷ 44 ∷ 7 ∷ 99 ∷ 8 ∷ [])) sample false 100 sample_read
      refl

-- ===== src/Red/Examples.antt =====
-- Concrete packets, and the theorems at concrete inputs.
use voicekit.Prelude.{ℕ, ◌*◌, ◌≡◌, refl, arith, true, some, List, [], ◌∷◌, map}
use voicekit.Red.{
  Packet, ok, err, incomplete_header, incomplete_block, encode_red, extract_pkts_from_red,
  extract_primary_encoding, encode_red_for_primary, read_blocks, note_packet, recover_bits,
}
use voicekit.Red.RoundTrip.{content, extract-encode_red}

abbrev packet : ℕ → List ℕ → Packet
packet n payload = record {
  payload_type = 111;
  sequence_number = n;
  timestamp = 960 * n;
  payload = payload;
}

-- The receiver has packets 6 and 7, and gets 8.
encoded :
    (encode_red_for_primary
      (record { older = some (packet 6 (1 ∷ [])); newer = some (packet 7 (2 ∷ 3 ∷ [])) })
      (packet 8 (4 ∷ []))
      1500).1
    ≡ some (239 ∷ 30 ∷ 0 ∷ 1 ∷ 239 ∷ 15 ∷ 0 ∷ 2 ∷ 111 ∷ 1 ∷ 2 ∷ 3 ∷ 4 ∷ [])
unfolding encode_red_for_primary encode_red
encoded = refl

cut_header : extract_primary_encoding (239 ∷ 30 ∷ 0 ∷ []) ≡ err incomplete_header
unfolding extract_primary_encoding read_blocks
cut_header = refl

cut_block : extract_primary_encoding (239 ∷ 30 ∷ 0 ∷ 9 ∷ 111 ∷ 1 ∷ []) ≡ err incomplete_block
unfolding extract_primary_encoding read_blocks
cut_block = refl

-- After 7, packet 9 came: 8 is missing, and 7 is not.
one_missing :
    recover_bits
      (note_packet (record { first_pkt_received = true; last_seq = 7; pkt_history = 1 }) 9).0
      9
    ≡ 1
unfolding recover_bits note_packet
one_missing = refl

extract-encode_red_example :
    (bytes : List ℕ) × (out : List Packet) × (encode_red
        (packet 6 (1 ∷ []) ∷ packet 7 (2 ∷ 3 ∷ []) ∷ [])
        (packet 8 (4 ∷ []))
        1500
      ≡ some bytes)
    × (extract_pkts_from_red (record (packet 8 (4 ∷ [])) { payload = bytes }) 255 ≡ ok out)
    × (map content out
        ≡ map content (packet 6 (1 ∷ []) ∷ packet 7 (2 ∷ 3 ∷ []) ∷ packet 8 (4 ∷ []) ∷ []))
    × (extract_primary_encoding bytes ≡ ok (4 ∷ []))
extract-encode_red_example =
    extract-encode_red (packet 6 (1 ∷ []) ∷ packet 7 (2 ∷ 3 ∷ []) ∷ []) (packet 8 (4 ∷ [])) 1500
      (omega arith) ((omega arith, omega arith), ((omega arith, omega arith), tt))
      (omega arith, (omega arith, tt)) (omega arith) (omega arith)

-- ===== src/Red/RoundTrip.antt =====
-- pkg/sfu/redreceiver.go and pkg/sfu/redprimaryreceiver.go: decoding gives back what was encoded.
use voicekit.Prelude.{
  ℕ, zero, suc, ◌+◌, ◌%◌, ◌^◌, ◌≤◌, ◌<◌, ◌≡◌, refl, sym, ap, ◌∙◌, true, some, List, [], ◌∷◌, ◌++◌,
  map, length, length-append, take, drop, arith, le→ltb_false,
}
use mathlib.Core.List.{append_assoc, map-append}
use voicekit.Red.{
  Packet, ok, sub32, headers, payloads, redundant_size, encode_red, blocks_size, is_wanted,
  recovered, opus_pt, extract_pkts_from_red, extract_from, extract_primary_encoding, primary_in,
}
use voicekit.Red.Headers.{AllShort, block_for, read_blocks-headers}

module _ {ℓ} {A : Type ℓ} where
  pub take-append : (xs ys : List A) → take (length xs) (xs ++ ys) ≡ xs
  take-append [] [] = refl
  take-append [] (y ∷ ys) = refl
  take-append (x ∷ xs) ys = ap (λ l. x ∷ l) (take-append xs ys)

  pub drop-append : (xs ys : List A) → drop (length xs) (xs ++ ys) ≡ ys
  drop-append [] ys = refl
  drop-append (x ∷ xs) ys = drop-append xs ys

blocks_size-map :
    (primary : Packet) (ps : List Packet)
    → blocks_size (map (block_for primary) ps) ≡ length (payloads ps)
blocks_size-map primary [] = refl
blocks_size-map primary (p ∷ ps) =
    omega (arith, length-append p.payload (payloads ps), blocks_size-map primary ps)

length-map_blocks :
    (primary : Packet) (ps : List Packet) → length (map (block_for primary) ps) ≡ length ps
length-map_blocks primary [] = refl
length-map_blocks primary (p ∷ ps) = ap suc (length-map_blocks primary ps)

-- The bytes of an encoding that fits.
abbrev pub red_bytes : List Packet → Packet → List ℕ
red_bytes ps primary = headers primary ps ++ opus_pt ∷ (payloads ps ++ primary.payload)

length-headers :
    (primary : Packet) (ps : List Packet)
    → length (headers primary ps) + length (payloads ps) ≡ redundant_size ps
length-headers primary [] = refl
length-headers primary (p ∷ ps) =
    omega (arith, length-append p.payload (payloads ps), length-headers primary ps)

encode_red-fits :
    (ps : List Packet) (primary : Packet) (room : ℕ)
    → length primary.payload + 1 + redundant_size ps ≤ room
    → encode_red ps primary room ≡ some (red_bytes ps primary)
unfolding encode_red
encode_red-fits ps primary room h =
    let size : length (red_bytes ps primary) ≤ room = omega (
      arith,
      h,
      length-append (headers primary ps) (opus_pt ∷ (payloads ps ++ primary.payload)),
      length-append (payloads ps) primary.payload,
      length-headers primary ps,
    ) in
    rw
      (
        le→ltb_false room (length primary.payload + 1 + redundant_size ps) h,
        le→ltb_false room (length (red_bytes ps primary)) size,
      )
      refl

primary_in-red_bytes :
    (ps : List Packet) (primary : Packet)
    → AllShort ps
    → extract_primary_encoding (red_bytes ps primary) ≡ ok primary.payload
unfolding extract_primary_encoding
primary_in-red_bytes ps primary short =
    let n = length (payloads ps) in
    let enough : n ≤ length (payloads ps ++ primary.payload) =
      omega (arith, length-append (payloads ps) primary.payload) in
    ap primary_in (read_blocks-headers primary ps (payloads ps ++ primary.payload) short)
    ∙ rw
        (
          blocks_size-map primary ps,
          le→ltb_false (length (payloads ps ++ primary.payload)) n enough,
        )
        (ap ok (drop-append (payloads ps) primary.payload))

-- What a receiver plays: when, and what.
abbrev pub content : Packet → ℕ × List ℕ
content p = (p.timestamp, p.payload)

-- The packet was sent less than 2 ^ 14 clock ticks before the primary one.
abbrev pub AllNear : Packet → List Packet → Type 0
AllNear primary [] = Unit
AllNear primary (p ∷ ps) = (sub32 primary.timestamp p.timestamp < 2 ^ 14) × AllNear primary ps

is_wanted-all : (n : ℕ) → n < 8 → is_wanted 255 (n + 1) ≡ true
is_wanted-all zero h = refl
is_wanted-all (suc zero) h = refl
is_wanted-all (suc (suc zero)) h = refl
is_wanted-all (suc (suc (suc zero))) h = refl
is_wanted-all (suc (suc (suc (suc zero)))) h = refl
is_wanted-all (suc (suc (suc (suc (suc zero))))) h = refl
is_wanted-all (suc (suc (suc (suc (suc (suc zero)))))) h = refl
is_wanted-all (suc (suc (suc (suc (suc (suc (suc zero))))))) h = refl
is_wanted-all (suc (suc (suc (suc (suc (suc (suc (suc n)))))))) h = absurd (omega arith)

recovered-all :
    (primary red_pkt : Packet) (pt : ℕ) (ps : List Packet) (tail : List ℕ)
    → red_pkt.timestamp ≡ primary.timestamp
    → primary.timestamp < 2 ^ 32
    → AllShort ps
    → AllNear primary ps
    → length ps ≤ 8
    → map content (recovered red_pkt 255 pt (map (block_for primary) ps) (payloads ps ++ tail))
      ≡ map content ps ++ (primary.timestamp, tail) ∷ []
unfolding recovered
recovered-all primary red_pkt pt [] tail same word short near few = rw same refl
recovered-all primary red_pkt pt (p ∷ ps) tail same word short near few =
    let bits = map (block_for primary) ps in
    let wanted : is_wanted 255 (length bits + 1) ≡ true =
      is_wanted-all (length bits) (omega (arith, length-map_blocks primary ps)) in
    let back : sub32 red_pkt.timestamp (sub32 primary.timestamp p.timestamp % 2 ^ 14)
        ≡ p.timestamp =
      omega (arith, same, near.0, short.0) in
    let split : (payloads (p ∷ ps) ++ tail) ≡ p.payload ++ (payloads ps ++ tail) =
      append_assoc p.payload (payloads ps) tail in
    let rest = payloads ps ++ tail in
    rw
      (
        split,
        wanted,
        take-append p.payload rest,
        drop-append p.payload rest,
        back,
        recovered-all primary red_pkt pt ps tail same word short.1 near.1 (omega arith),
      )
      refl

extract_pkts-red_bytes :
    (ps : List Packet) (primary : Packet)
    → primary.timestamp < 2 ^ 32
    → AllShort ps
    → AllNear primary ps
    → length ps ≤ 8
    → (out : List Packet) × (extract_pkts_from_red
          (record primary { payload = red_bytes ps primary })
          255
        ≡ ok out)
      × (map content out ≡ map content (ps ++ primary ∷ []))
unfolding extract_pkts_from_red
extract_pkts-red_bytes ps primary word short near few =
    let body = payloads ps ++ primary.payload in
    let n = length (payloads ps) in
    let red_pkt : Packet = record primary { payload = red_bytes ps primary } in
    let enough : n ≤ length body = omega (arith, length-append (payloads ps) primary.payload) in
    (
      recovered red_pkt 255 opus_pt (map (block_for primary) ps) body,
      ap (extract_from red_pkt 255) (read_blocks-headers primary ps body short)
          ∙ rw (blocks_size-map primary ps, le→ltb_false (length body) n enough) refl,
      recovered-all primary red_pkt opus_pt ps primary.payload refl word short near few
          ∙ sym (map-append content ps (primary ∷ [])),
    )

-- Up to eight packets that came less than 2 ^ 14 clock ticks before the primary one, with payloads
-- of less than 1024 bytes, are encoded with it into a buffer that has room. From the bytes, the
-- decoding that recovers all gives back all payloads with their timestamps, in order, and the
-- decoding of the primary packet alone gives back its payload.
pub extract-encode_red :
    (ps : List Packet) (primary : Packet) (room : ℕ)
    → primary.timestamp < 2 ^ 32
    → AllShort ps
    → AllNear primary ps
    → length ps ≤ 8
    → length primary.payload + 1 + redundant_size ps ≤ room
    → (bytes : List ℕ) × (out : List Packet) × (encode_red ps primary room ≡ some bytes)
      × (extract_pkts_from_red (record primary { payload = bytes }) 255 ≡ ok out)
      × (map content out ≡ map content (ps ++ primary ∷ []))
      × (extract_primary_encoding bytes ≡ ok primary.payload)
extract-encode_red ps primary room word short near few fits =
    let (out, found, same) = extract_pkts-red_bytes ps primary word short near few in
    (
      red_bytes ps primary,
      out,
      encode_red-fits ps primary room fits,
      found,
      same,
      primary_in-red_bytes ps primary short,
    )

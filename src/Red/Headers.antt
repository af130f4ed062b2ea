-- ===== src/Red/Headers.antt =====
-- pkg/sfu/redprimaryreceiver.go: the block headers that pkg/sfu/redreceiver.go wrote are read back.
use voicekit.Prelude.{
  ℕ, ◌+◌, ◌*◌, ◌/◌, ◌%◌, ◌^◌, ◌<◌, ◌≡◌, refl, ap, ◌∙◌, List, [], ◌∷◌, ◌++◌, map, length, arith,
}
use mathlib.Core.List.{append_assoc}
use voicekit.Red.{
  Packet, Block, ok, sub32, be32, block_header, headers, add_block, read_blocks, opus_pt,
}

-- The payload fits the 10 bits of the length, the timestamp is one of 32 bits.
abbrev pub IsShort : Packet → Type 0
IsShort p = (length p.payload < 2 ^ 10) × (p.timestamp < 2 ^ 32)

abbrev pub block_for : Packet → Packet → Block
block_for primary p = record {
  ts_offset = sub32 primary.timestamp p.timestamp % 2 ^ 14;
  size = length p.payload;
  pt = opus_pt;
}

abbrev pub AllShort : List Packet → Type 0
AllShort [] = Unit
AllShort (p ∷ ps) = IsShort p × AllShort ps

read_primary :
    (body : List ℕ)
    → read_blocks (opus_pt ∷ body)
      ≡ ok (record { redundant = []; primary_pt = opus_pt; rest = body })
unfolding read_blocks
read_primary [] = refl
read_primary (a ∷ []) = refl
read_primary (a ∷ b ∷ []) = refl
read_primary (a ∷ b ∷ c ∷ more) = refl

read_header :
    (x y : ℕ) (more : List ℕ)
    → x < 2 ^ 14
    → y < 2 ^ 10
    → read_blocks (be32 (((128 + opus_pt) * 2 ^ 14 + x) * 2 ^ 10 + y) ++ more)
      ≡ add_block (record { ts_offset = x; size = y; pt = opus_pt }) (read_blocks more)
unfolding read_blocks
read_header x y more hx hy =
    let h = ((128 + opus_pt) * 2 ^ 14 + x) * 2 ^ 10 + y in
    let top : h / 2 ^ 24 % 256 / 128 % 2 ≡ 1 = omega arith in
    let whole : ((h / 2 ^ 24 % 256 * 256 + h / 2 ^ 16 % 256) * 256 + h / 2 ^ 8 % 256) * 256
          + h % 256
        ≡ h =
      omega arith in
    let offset : h / 2 ^ 10 % 2 ^ 14 ≡ x = omega arith in
    let size : h % 2 ^ 10 ≡ y = omega arith in
    let pt : h / 2 ^ 24 % 128 ≡ opus_pt = omega arith in rw (top, whole, offset, size, pt) refl

-- The headers of short packets give their blocks, whatever bytes follow.
pub read_blocks-headers :
    (primary : Packet) (ps : List Packet) (body : List ℕ)
    → AllShort ps
    → read_blocks (headers primary ps ++ opus_pt ∷ body)
      ≡ ok (record { redundant = map (block_for primary) ps; primary_pt = opus_pt; rest = body })
read_blocks-headers primary [] body h = read_primary body
read_blocks-headers primary (p ∷ ps) body h =
    let small : length p.payload % 2 ^ 10 ≡ length p.payload = omega (arith, h.0) in
    ap read_blocks
      (append_assoc (be32 (block_header primary p)) (headers primary ps) (opus_pt ∷ body))
    ∙ read_header (sub32 primary.timestamp p.timestamp % 2 ^ 14) (length p.payload % 2 ^ 10) _
        (omega arith) (omega arith)
    ∙ rw (small, read_blocks-headers primary ps body h.1) refl

-- ===== src/Red.antt =====
-- pkg/sfu/redreceiver.go and pkg/sfu/redprimaryreceiver.go: redundant audio (RFC 2198), encoded for
-- subscribers and decoded from publishers. A packet is the part of rtp.Packet that is read; bytes
-- are numbers below 256. The spreaders of down tracks are left out.
pub mod Headers
pub mod RoundTrip
mod Examples
use voicekit.Prelude.{
  ℕ, zero, suc, ◌+◌, ◌-◌, ◌*◌, ◌/◌, ◌%◌, ◌^◌, Bool, true, false, ◌&&◌, ◌||◌, not, Option, none,
  some, List, [], ◌∷◌, ◌++◌, length, take, drop, ltb, leb, ◌==◌, if◌then◌else◌, u16_mod, u32_mod,
  u8_mod, sub16,
}

pub record Packet : Type 0 where
  pub payload_type : ℕ
  pub sequence_number : ℕ
  pub timestamp : ℕ
  pub payload : List ℕ

abbrev pub max_red_count : ℕ
max_red_count = 2

abbrev pub mtu_size : ℕ
mtu_size = 1500

abbrev pub opus_pt : ℕ
opus_pt = 111

-- uint32 subtraction
abbrev pub sub32 : ℕ → ℕ → ℕ
sub32 a b = (a + u32_mod - b) % u32_mod

-- PutUint32
abbrev pub be32 : ℕ → List ℕ
be32 h = h / 2 ^ 24 % 256 ∷ h / 2 ^ 16 % 256 ∷ h / 2 ^ 8 % 256 ∷ h % 256 ∷ []

-- The header of a block: the F bit and the payload type, the timestamp offset in 14 bits, and the
-- length in 10 bits.
abbrev pub block_header : Packet → Packet → ℕ
block_header primary p =
    ((128 + opus_pt) * 2 ^ 14 + sub32 primary.timestamp p.timestamp % 2 ^ 14) * 2 ^ 10
    + length p.payload % 2 ^ 10

abbrev pub headers : Packet → List Packet → List ℕ
headers primary [] = []
headers primary (p ∷ ps) = be32 (block_header primary p) ++ headers primary ps

abbrev pub payloads : List Packet → List ℕ
payloads [] = []
payloads (p ∷ ps) = p.payload ++ payloads ps

abbrev pub redundant_size : List Packet → ℕ
redundant_size [] = 0
redundant_size (p ∷ ps) = length p.payload + 4 + redundant_size ps

-- The bytes that are written, into a buffer of `room` bytes; `none` is the error that they do not
-- fit. The buffer has room for at least the one byte of the last header.
pub encode_red : List Packet → Packet → ℕ → Option (List ℕ)
encode_red red_pkts primary room =
    let kept =
      if ltb room (length primary.payload + 1 + redundant_size red_pkts) then [] else red_pkts in
    let bytes = headers primary kept ++ opus_pt ∷ (payloads kept ++ primary.payload) in
    if ltb room (length bytes) then none else some bytes

-- `pktBuff`, whose two places are filled from the front.
pub record RedReceiver : Type 0 where
  pub older : Option Packet
  pub newer : Option Packet

abbrev pub is_redundant : Packet → Packet → Bool
is_redundant pkt prev =
    not (pkt.sequence_number == prev.sequence_number)
    && leb (sub16 pkt.sequence_number prev.sequence_number) max_red_count
    && ltb (sub32 pkt.timestamp prev.timestamp) (2 ^ 14)

abbrev pub keep_redundant : Packet → Option Packet → List Packet
keep_redundant pkt none = []
keep_redundant pkt (some prev) = if is_redundant pkt prev then prev ∷ [] else []

-- The packets after the last place that is empty.
abbrev pub red_packets : RedReceiver → Packet → List Packet
red_packets r pkt = elim (r.newer) [
  | none ↦ []
  | some q ↦ keep_redundant pkt r.older ++ keep_redundant pkt (some q)
]

-- An empty place, or one with an earlier packet, takes the packet.
abbrev pub takes : Packet → Option Packet → Bool
takes pkt none = true
takes pkt (some q) = ltb (sub16 pkt.sequence_number q.sequence_number) (2 ^ 15)

abbrev pub insert : RedReceiver → Packet → RedReceiver
insert r pkt =
    if takes pkt r.newer
    then record { older = r.newer; newer = some pkt }
    else if takes pkt r.older
    then record r { older = some pkt }
    else r

pub encode_red_for_primary : RedReceiver → Packet → ℕ → RedReceiver × Option (List ℕ)
encode_red_for_primary r pkt room = (insert r pkt, encode_red (red_packets r pkt) pkt room)

pub data Error : Type 0 where
  incomplete_header incomplete_block : Error

pub data Result {ℓ} (A : Type ℓ) : Type ℓ where
  ok : A → Result A
  err : Error → Result A

pub record Block : Type 0 where
  pub ts_offset : ℕ
  pub size : ℕ
  pub pt : ℕ

-- The blocks before the primary one, the payload type of that, and the bytes after the headers.
pub record RedBlocks : Type 0 where
  pub redundant : List Block
  pub primary_pt : ℕ
  pub rest : List ℕ

abbrev pub block_of : ℕ → Block
block_of head = record {
  ts_offset = head / 2 ^ 10 % 2 ^ 14;
  size = head % 2 ^ 10;
  pt = head / 2 ^ 24 % 128;
}

abbrev pub add_block : Block → Result RedBlocks → Result RedBlocks
add_block b (ok bs) = ok (record bs { redundant = b ∷ bs.redundant })
add_block b (err e) = err e

pub read_blocks : List ℕ → Result RedBlocks
read_blocks [] = err incomplete_header
read_blocks (a ∷ []) =
    if a / 128 % 2 == 0
    then ok (record { redundant = []; primary_pt = a % 128; rest = [] })
    else err incomplete_header
read_blocks (a ∷ b ∷ []) =
    if a / 128 % 2 == 0
    then ok (record { redundant = []; primary_pt = a % 128; rest = b ∷ [] })
    else err incomplete_header
read_blocks (a ∷ b ∷ c ∷ []) =
    if a / 128 % 2 == 0
    then ok (record { redundant = []; primary_pt = a % 128; rest = b ∷ c ∷ [] })
    else err incomplete_header
read_blocks (a ∷ b ∷ c ∷ d ∷ more) =
    let next = add_block (block_of (((a * 256 + b) * 256 + c) * 256 + d)) (read_blocks more) in
    if a / 128 % 2 == 0
    then ok (record { redundant = []; primary_pt = a % 128; rest = b ∷ c ∷ d ∷ more })
    else next

abbrev pub blocks_size : List Block → ℕ
blocks_size [] = 0
blocks_size (b ∷ bs) = b.size + blocks_size bs

-- `recoverBits & (1 << (index-1)) != 0`, in a byte.
abbrev pub is_wanted : ℕ → ℕ → Bool
is_wanted recover_bits index = ltb 0 index && recover_bits / 2 ^ (index - 1) % 2 == 1

-- The packets of the redundant blocks that are wanted, and last the primary one.
pub recovered : Packet → ℕ → ℕ → List Block → List ℕ → List Packet
recovered red_pkt recover_bits primary_pt [] payload =
    record red_pkt { payload_type = primary_pt; payload = payload } ∷ []
recovered red_pkt recover_bits primary_pt (b ∷ bs) payload =
    let index = length bs + 1 in
    let more = recovered red_pkt recover_bits primary_pt bs (drop b.size payload) in
    if is_wanted recover_bits index
    then record {
      payload_type = b.pt;
      sequence_number = sub16 red_pkt.sequence_number (index % u16_mod);
      timestamp = sub32 red_pkt.timestamp b.ts_offset;
      payload = take b.size payload;
    }
      ∷ more
    else more

abbrev pub extract_from : Packet → ℕ → Result RedBlocks → Result (List Packet)
extract_from red_pkt recover_bits (err e) = err e
extract_from red_pkt recover_bits (ok bs) =
    if ltb (length bs.rest) (blocks_size bs.redundant)
    then err incomplete_block
    else ok (recovered red_pkt recover_bits bs.primary_pt bs.redundant bs.rest)

pub extract_pkts_from_red : Packet → ℕ → Result (List Packet)
extract_pkts_from_red red_pkt recover_bits =
    extract_from red_pkt recover_bits (read_blocks red_pkt.payload)

-- The bytes of the primary encoding alone, the sizes of the blocks added up on the way.
abbrev pub primary_in : Result RedBlocks → Result (List ℕ)
primary_in (err e) = err e
primary_in (ok bs) =
    if ltb (length bs.rest) (blocks_size bs.redundant)
    then err incomplete_block
    else ok (drop (blocks_size bs.redundant) bs.rest)

pub extract_primary_encoding : List ℕ → Result (List ℕ)
extract_primary_encoding payload = primary_in (read_blocks payload)

-- The state of RedPrimaryReceiver that the packets change.
pub record RecvHistory : Type 0 where
  pub first_pkt_received : Bool
  pub last_seq : ℕ
  pub pkt_history : ℕ

abbrev pub has_bit : ℕ → ℕ → Bool
has_bit bits i = bits / 2 ^ i % 2 == 1

-- `bits |= 1 << i`
abbrev pub set_bit : ℕ → ℕ → ℕ
set_bit bits i = if has_bit bits i then bits else bits + 2 ^ i

-- The history after a packet that is not the first, and whether older ones may be recovered.
pub note_packet : RecvHistory → ℕ → RecvHistory × Bool
note_packet r seq =
    let diff = sub16 seq r.last_seq in
    if diff == 0
    then (r, false)
    else if ltb (2 ^ 15) diff
    then if ltb (65535 - diff) 8
      then (record r { pkt_history = set_bit r.pkt_history (65535 - diff) }, true)
      else (r, false)
    else if ltb 8 diff
    then (record r { last_seq = seq; pkt_history = 0 }, true)
    else (
      record r { last_seq = seq; pkt_history = r.pkt_history * 2 ^ diff % u8_mod + 2 ^ (diff - 1) },
      true,
    )

abbrev pub missing_bit : ℕ → ℕ → ℕ → ℕ
missing_bit history index i = if leb index 7 && not (has_bit history index) then 2 ^ i else 0

-- The two rounds of the loop over the packets before `seq`.
pub recover_bits : RecvHistory → ℕ → ℕ
recover_bits r seq =
    let index = sub16 r.last_seq seq in
    missing_bit r.pkt_history index 0
    + (if leb index 7 then missing_bit r.pkt_history (index + 1) 1 else 0)

pub get_send_pkts_from_red : RecvHistory → Packet → RecvHistory × Result (List Packet)
get_send_pkts_from_red r pkt =
    if not r.first_pkt_received
    then (
      record { first_pkt_received = true; last_seq = pkt.sequence_number; pkt_history = 0 },
      extract_pkts_from_red pkt 0,
    )
    else (let (r', need_recover) = note_packet r pkt.sequence_number in
        (
          r',
          extract_pkts_from_red pkt
              (if need_recover then recover_bits r' pkt.sequence_number else 0),
        ))

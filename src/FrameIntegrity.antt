-- ===== src/FrameIntegrity.antt =====
-- pkg/sfu/buffer/frameintegrity.go: which packets came, as a ring of bits, and which frames are whole.
-- A word of 64 bits is a number. `none` is a panic, a shift by a negative count. The packet history,
-- which a checker shares with its frames, is passed to them. The counts that a history and a checker
-- are made with are not 0, and frame numbers are below 2 ^ 63.
pub mod Words
pub mod Between
pub mod Ring
pub mod Positions
pub mod Consecutive
pub mod Marks
pub mod Received
pub mod Window
mod Examples
use Prim.Native.Nat.{bit_and, bit_or}
use voicekit.Prelude.{
  ℕ, zero, suc, ◌+◌, ◌-◌, ◌*◌, ◌/◌, ◌%◌, ◌^◌, Bool, true, false, not, ◌&&◌, ◌||◌, Option, none,
  some, List, [], ◌∷◌, length, get_or, set, replicate, ltb, leb, ◌==◌, if◌then◌else◌, ◌>>=◌,
  u64_mod, add64, sub64,
}

pub record PacketHistory : Type 0 where
  pub base : ℕ
  pub last : ℕ
  pub bits : List ℕ
  pub packet_count : ℕ
  pub inited : Bool

unfoldable pub new_packet_history : ℕ → PacketHistory
new_packet_history n =
    let packet_count = (n + 63) / 64 * 64 in
    record {
      base = 0;
      last = 0;
      bits = replicate (packet_count / 64) 0;
      packet_count = packet_count;
      inited = false;
    }

unfoldable pub position : PacketHistory → ℕ → ℕ
position ph seq = sub64 seq ph.base % ph.packet_count

-- `getPos`: the word and the digit in it
abbrev pub get_pos : PacketHistory → ℕ → ℕ × ℕ
get_pos ph seq = (position ph seq / 64, position ph seq % 64)

abbrev pub word : PacketHistory → ℕ → ℕ
word ph i = get_or ph.bits i 0

abbrev pub marked : ℕ → ℕ → Bool → ℕ
marked w offset true = bit_or w (2 ^ offset)
marked w offset false = bit_and w (u64_mod - 1 - 2 ^ offset)

-- The method `set`
unfoldable pub mark : PacketHistory → ℕ → Bool → PacketHistory
mark ph seq received =
    let at = get_pos ph seq in
    record ph { bits = set ph.bits at.0 (marked (word ph at.0) at.1 received) }

-- The loop over the numbers that were skipped, of which there are n
unfoldable pub clear_from : PacketHistory → ℕ → ℕ → PacketHistory
clear_from ph seq zero = ph
clear_from ph seq (suc n) = clear_from (mark ph seq false) (seq + 1) n

unfoldable pub first_packet : PacketHistory → ℕ → PacketHistory
first_packet ph seq =
    mark (record ph { inited = true; base = if ltb 100 seq then seq - 100 else 0; last = seq }) seq
      true

unfoldable pub ahead : PacketHistory → ℕ → PacketHistory
ahead ph seq = record (mark (clear_from ph (ph.last + 1) (seq - (ph.last + 1))) seq true) {
  last = seq;
}

unfoldable pub add_packet : PacketHistory → ℕ → PacketHistory
add_packet ph seq =
    if not ph.inited
    then first_packet ph seq
    else if leb seq ph.base
    then ph
    else if leb seq ph.last
    then (if ltb (ph.last - seq) ph.packet_count then mark ph seq true else ph)
    else ahead ph seq

-- `uint64((1 << n) - 1)`
unfoldable pub ones64 : ℕ → ℕ
ones64 n = sub64 (2 ^ n % u64_mod) 1

abbrev pub has_all : ℕ → ℕ → Bool
has_all w mask = bit_and w mask == mask

-- The test where both ends are in one word, with the digits from `from` to `to`. The shift count is an
-- int: it is 0 where `to` is one below `from`, and negative further below.
unfoldable pub same_word : ℕ → ℕ → ℕ → Option Bool
same_word w from to =
    if ltb (to + 1) from
    then none
    else some (has_all w (ones64 (to + 1 - from) * 2 ^ from % u64_mod))

-- The digits of a word from one on
unfoldable pub ones_from : ℕ → ℕ → Bool
ones_from w from = add64 (w / 2 ^ from) 1 == 2 ^ (64 - from) % u64_mod

-- The digits of a word up to one
unfoldable pub ones_to : ℕ → ℕ → Bool
ones_to w to = has_all w (ones64 (to + 1))

-- The words between, from i on; the loop ends at the last index, also where it has just gone round.
unfoldable pub words_between : ℕ → List ℕ → ℕ → ℕ → Bool
words_between zero bits i end_index = true
words_between (suc rounds) bits i end_index =
    let j = if i == length bits then 0 else i in
    let rest = words_between rounds bits (j + 1) end_index in
    if i == end_index || j == end_index
    then true
    else if add64 (get_or bits j 0) 1 == 0
    then rest
    else false

unfoldable pub packets_consecutive : PacketHistory → ℕ → ℕ → Option Bool
packets_consecutive ph start end_seq =
    if ltb end_seq start || leb ph.packet_count (end_seq - start)
    then some false
    else (let from = get_pos ph start in
        let to = get_pos ph end_seq in
        if from.0 == to.0 && leb (end_seq - start) 64
        then same_word (word ph from.0) from.1 to.1
        else some (
            ones_from (word ph from.0) from.1
            && words_between (suc (length ph.bits)) ph.bits (from.0 + 1) to.0
            && ones_to (word ph to.0) to.1))

pub record FrameEntity : Type 0 where
  pub start_seq : Option ℕ
  pub end_seq : Option ℕ
  pub integrity : Bool

abbrev pub new_frame_entity : FrameEntity
new_frame_entity = record { start_seq = none; end_seq = none; integrity = false }

abbrev pub set_if : Bool → ℕ → Option ℕ → Option ℕ
set_if is_set seq (some s) = some s
set_if true seq none = some seq
set_if false seq none = none

unfoldable pub check : PacketHistory → FrameEntity → Option ℕ → Option ℕ → Option FrameEntity
check ph fe (some start) (some end_seq) = do
  whole ← packets_consecutive ph start end_seq
  some (if whole then record fe { integrity = true } else fe)
check ph fe none end_seq = some fe
check ph fe (some start) none = some fe

-- `AddPacket` of a frame; the last two arguments are those of the descriptor.
unfoldable pub add_to_frame : PacketHistory → FrameEntity → ℕ → Bool → Bool → Option FrameEntity
add_to_frame ph fe seq is_first is_last =
    if fe.integrity
    then some fe
    else (let s = set_if is_first seq fe.start_seq in
        let e = set_if is_last seq fe.end_seq in
        check ph (record fe { start_seq = s; end_seq = e }) s e)

pub record FrameIntegrityChecker : Type 0 where
  pub frame_count : ℕ
  pub frames : List FrameEntity
  pub base : ℕ
  pub last : ℕ
  pub pkt_history : PacketHistory
  pub inited : Bool

unfoldable pub new_frame_integrity_checker : ℕ → ℕ → FrameIntegrityChecker
new_frame_integrity_checker frame_count packet_count = record {
  frame_count = frame_count;
  frames = replicate frame_count new_frame_entity;
  base = 0;
  last = 0;
  pkt_history = new_packet_history packet_count;
  inited = false;
}

abbrev pub frame_index : FrameIntegrityChecker → ℕ → ℕ
frame_index fc frame = (frame - fc.base) % fc.frame_count

-- The loop that resets the missing frames, from one on
unfoldable pub reset_frames : FrameIntegrityChecker → ℕ → ℕ → FrameIntegrityChecker
reset_frames fc frame zero = fc
reset_frames fc frame (suc n) =
    reset_frames (record fc { frames = set fc.frames (frame_index fc frame) new_frame_entity })
      (frame + 1) n

unfoldable pub add_at : FrameIntegrityChecker → ℕ → ℕ → Bool → Bool → Option FrameIntegrityChecker
add_at fc seq frame is_first is_last =
    let i = frame_index fc frame in
    do
      fe ← add_to_frame fc.pkt_history (get_or fc.frames i new_frame_entity) seq is_first is_last
      some (record fc { frames = set fc.frames i fe })

unfoldable pub start_at : FrameIntegrityChecker → ℕ → FrameIntegrityChecker
start_at fc frame =
    if fc.inited then fc else record fc { inited = true; base = frame; last = frame }

unfoldable pub add_frame_packet :
    FrameIntegrityChecker → ℕ → ℕ → Bool → Bool → Option FrameIntegrityChecker
add_frame_packet fc seq frame is_first is_last =
    let g = start_at (record fc { pkt_history = add_packet fc.pkt_history seq }) frame in
    if ltb frame g.base
    then some g
    else if leb frame g.last
    then (if leb g.frame_count (g.last - frame)
        then some g
        else add_at g seq frame is_first is_last)
    else (do
      added ← add_at (reset_frames g (g.last + 1) (frame - g.last)) seq frame is_first is_last
      some (record added { last = frame }))

unfoldable pub frame_integrity : FrameIntegrityChecker → ℕ → Bool
frame_integrity fc frame =
    if ltb frame fc.base || ltb fc.last frame || leb fc.frame_count (fc.last - frame)
    then false
    else (get_or fc.frames (frame_index fc frame) new_frame_entity).integrity

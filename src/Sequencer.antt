-- ===== src/Sequencer.antt =====
-- pkg/sfu/sequencer.go: the window of sent packets from which a down track answers retransmission
-- requests. The lock and the log calls are left out; times are Unix nanoseconds, far from the ends
-- of int64. The methods that change the sequencer return the new one.
pub mod Lookups
pub mod Slots
pub mod Window
pub mod Found
pub mod Earlier
pub mod Padding
pub mod Nacks
pub mod Again
mod Examples
use voicekit.Prelude.{
  ℕ, zero, suc, ◌+◌, ◌-◌, ◌*◌, ◌/◌, ◌%◌, ◌^◌, Bool, true, false, not, ◌&&◌, ◌||◌, Option, none,
  some, List, [], ◌∷◌, ◌++◌, length, get_or, set, take, replicate, min, max, ltb, leb, ◌==◌,
  if◌then◌else◌, add64, sub64, sub16, u8_mod, u16_mod, u32_mod, u64_mod, is_negative64,
}
use voicekit.Prelude.Int.{ℤ, pos, negsuc, ◌-ℤ◌}
use voicekit.RangeMap.{RangeMap, Result, Error, ok, err, new_range_map, exclude_range, get_value}

abbrev pub default_rtt : ℕ
default_rtt = 70

abbrev pub ignore_retransmission : ℕ
ignore_retransmission = 100

abbrev pub max_ack : ℕ
max_ack = 3

pub record PacketMeta : Type 0 where
  pub source_seq_no : ℕ
  pub target_seq_no : ℕ
  pub timestamp : ℕ
  pub marker : Bool
  pub last_nack : ℕ
  pub nacked : ℕ
  pub layer : ℤ
  pub codec_bytes : List ℕ
  pub num_codec_bytes_in : ℕ
  pub num_codec_bytes_out : ℕ
  pub codec_bytes_slice : List ℕ
  pub dd_bytes : List ℕ
  pub dd_bytes_size : ℕ
  pub dd_bytes_slice : List ℕ
  pub act_bytes : List ℕ

-- Go's zero value.
abbrev pub empty_meta : PacketMeta
empty_meta = record {
  source_seq_no = 0;
  target_seq_no = 0;
  timestamp = 0;
  marker = false;
  last_nack = 0;
  nacked = 0;
  layer = pos 0;
  codec_bytes = replicate 8 0;
  num_codec_bytes_in = 0;
  num_codec_bytes_out = 0;
  codec_bytes_slice = [];
  dd_bytes = replicate 8 0;
  dd_bytes_size = 0;
  dd_bytes_slice = [];
  act_bytes = [];
}

pub record ExtPacketMeta : Type 0 where
  pub meta : PacketMeta
  pub ext_sequence_number : ℕ
  pub ext_timestamp : ℕ

pub record Sequencer : Type 0 where
  pub size : ℕ
  pub start_time : ℤ
  pub initialized : Bool
  pub ext_start_sn : ℕ
  pub ext_highest_sn : ℕ
  pub sn_offset : ℕ
  pub ext_highest_ts : ℕ
  pub meta : List PacketMeta
  pub sn_range_map : Option RangeMap
  pub rtt : ℕ

-- `now` is the time of the call; size 0 gives Go's nil.
pub new_sequencer : ℤ → ℕ → Bool → Option Sequencer
new_sequencer now size maybe_sparse =
    if size == 0
    then none
    else some (record {
      size = size;
      start_time = now;
      initialized = false;
      ext_start_sn = 0;
      ext_highest_sn = 0;
      sn_offset = 0;
      ext_highest_ts = 0;
      meta = replicate size empty_meta;
      sn_range_map = if maybe_sparse then some (new_range_map ((size + 1) / 2)) else none;
      rtt = default_rtt;
    })

pub set_rtt : Sequencer → ℕ → Sequencer
set_rtt s rtt = record s { rtt = if rtt == 0 then default_rtt else rtt }

-- `uint32((at - s.startTime) / 1e6)`: the division truncates towards zero.
abbrev pub millis32 : ℤ → ℕ
millis32 (pos n) = n / 1000000 % u32_mod
millis32 (negsuc n) = (u32_mod - (n + 1) / 1000000 % u32_mod) % u32_mod

pub get_ref_time : Sequencer → ℤ → ℕ
get_ref_time s at = millis32 (at -ℤ s.start_time)

-- The value of a key; without a map no number was skipped.
abbrev pub offset_in : ℕ → Option RangeMap → Result
offset_in sn none = ok 0
offset_in sn (some r) = get_value r sn

abbrev pub offset_at : Sequencer → ℕ → Result
offset_at s sn = offset_in sn s.sn_range_map

-- An error leaves the offset as it is.
abbrev pub set_offset : Sequencer → Result → Sequencer
set_offset s (ok v) = record s { sn_offset = v }
set_offset s (err e) = s

abbrev pub read_offset : Sequencer → Option RangeMap → Sequencer
read_offset s none = s
read_offset s (some r) = set_offset s (get_value r (add64 s.ext_highest_sn 1))

pub update_sn_offset : Sequencer → Sequencer
update_sn_offset s = read_offset s s.sn_range_map

abbrev pub invalidate_slot : List PacketMeta → ℕ → List PacketMeta
invalidate_slot meta slot = set meta slot empty_meta

abbrev pub is_invalid_slot : List PacketMeta → ℕ → Bool
is_invalid_slot meta slot =
    leb (length meta) slot
    || (let m = get_or meta slot empty_meta in
        m.source_seq_no == 0 && m.target_seq_no == 0 && m.last_nack == 0)

pub record PushArgs : Type 0 where
  pub packet_time : ℤ
  pub ext_incoming_sn : ℕ
  pub ext_modified_sn : ℕ
  pub ext_modified_ts : ℕ
  pub marker : Bool
  pub layer : ℤ
  pub codec_bytes : List ℕ
  pub num_codec_bytes_in : ℕ
  pub dd_bytes : List ℕ
  pub act_bytes : List ℕ

-- Up to eight bytes go into the array, the rest of which stays 0; more go into the slice.
abbrev pub in_array : List ℕ → List ℕ
in_array bytes = if ltb 8 (length bytes) then replicate 8 0 else take 8 (bytes ++ replicate 8 0)

abbrev pub in_slice : List ℕ → List ℕ
in_slice bytes = if ltb 8 (length bytes) then bytes else []

pub meta_of : Sequencer → PushArgs → PacketMeta
meta_of s a = record {
  source_seq_no = a.ext_incoming_sn;
  target_seq_no = a.ext_modified_sn % u16_mod;
  timestamp = a.ext_modified_ts % u32_mod;
  marker = a.marker;
  last_nack = get_ref_time s a.packet_time;
  nacked = 0;
  layer = a.layer;
  codec_bytes = in_array a.codec_bytes;
  num_codec_bytes_in = a.num_codec_bytes_in % u8_mod;
  num_codec_bytes_out = length a.codec_bytes % u8_mod;
  codec_bytes_slice = in_slice a.codec_bytes;
  dd_bytes = in_array a.dd_bytes;
  dd_bytes_size = length a.dd_bytes % u8_mod;
  dd_bytes_slice = in_slice a.dd_bytes;
  act_bytes = a.act_bytes;
}

-- The loop over the missing numbers from `esn` up to `target`; it breaks after `rounds` of them.
pub invalidate_missing : ℕ → ℕ → ℕ → ℕ → List PacketMeta → List PacketMeta
invalidate_missing size zero esn target meta = meta
invalidate_missing size (suc rounds) esn target meta =
    let rest =
      invalidate_missing size rounds (add64 esn 1) target (invalidate_slot meta (esn % size)) in
    if esn == target then meta else rest

-- The packet goes to the slot of its adjusted number, where it is not too old.
pub store : Sequencer → PushArgs → ℕ → Sequencer
store s a modified_adjusted =
    let highest_adjusted = sub64 s.ext_highest_sn s.sn_offset in
    let diff = sub64 modified_adjusted highest_adjusted in
    if is_negative64 diff && leb s.size (u64_mod - diff)
    then s
    else (let meta =
          if ltb highest_adjusted modified_adjusted
          then invalidate_missing s.size s.size (add64 highest_adjusted 1) modified_adjusted s.meta
          else s.meta in
        record s {
          meta = set meta (modified_adjusted % s.size) (meta_of s a);
          ext_highest_sn = max s.ext_highest_sn a.ext_modified_sn;
          ext_highest_ts = max s.ext_highest_ts a.ext_modified_ts;
        })

-- The first packet starts the sequencer.
abbrev pub begin : Sequencer → PushArgs → Sequencer
begin s a =
    if s.initialized
    then s
    else update_sn_offset (record s {
      initialized = true;
      ext_start_sn = a.ext_modified_sn;
      ext_highest_sn = a.ext_modified_sn;
      ext_highest_ts = a.ext_modified_ts;
    })

-- What `push` does once the sequencer is started.
pub push_started : Sequencer → PushArgs → Sequencer
push_started s a =
    if ltb a.ext_modified_sn s.ext_start_sn
    then s
    else if ltb a.ext_modified_sn s.ext_highest_sn
    then elim (s.sn_range_map) [
      | none ↦ store s a (sub64 a.ext_modified_sn s.sn_offset)
      | some r ↦ elim (get_value r a.ext_modified_sn) [
        | ok v ↦ store s a (sub64 a.ext_modified_sn v)
        | err e ↦ s
      ]
    ]
    else store s a (sub64 a.ext_modified_sn s.sn_offset)

pub push : Sequencer → PushArgs → Sequencer
push s a = push_started (begin s a) a

-- The loop over padding that comes too late, from `esn` on.
pub invalidate_padding : Sequencer → RangeMap → ℕ → ℕ → List PacketMeta → List PacketMeta
invalidate_padding s r zero esn meta = meta
invalidate_padding s r (suc rounds) esn meta =
    let diff = sub64 esn s.ext_highest_sn in
    let meta' =
      if not (is_negative64 diff) || ltb s.size (u64_mod - diff)
      then meta
      else elim (get_value r esn) [
        | ok v ↦ invalidate_slot meta (sub64 esn v % s.size)
        | err e ↦ meta
      ] in
    invalidate_padding s r rounds (add64 esn 1) meta'

-- After the exclusion of numbers that end at `end`.
abbrev pub exclude_padding : Sequencer → ℕ → RangeMap × Option Error → Sequencer
exclude_padding s end (r', some e) = s
exclude_padding s end (r', none) =
    update_sn_offset (record s { sn_range_map = some r'; ext_highest_sn = end })

abbrev pub push_padding_in : Sequencer → ℕ → ℕ → Option RangeMap → Sequencer
push_padding_in s start end none = s
push_padding_in s start end (some r) =
    if not s.initialized
    then s
    else if leb start s.ext_highest_sn
    then record s { meta = invalidate_padding s r (sub64 (add64 end 1) start) start s.meta }
    else exclude_padding s end (exclude_range r start (add64 end 1))

-- `start` and `end` are inclusive.
pub push_padding : Sequencer → ℕ → ℕ → Sequencer
push_padding s start end = push_padding_in s start end s.sn_range_map

-- A 32-bit timestamp by the highest extended one.
abbrev pub extend_ts : Sequencer → ℕ → ℕ
extend_ts s ts =
    let ext = add64 ts (s.ext_highest_ts - s.ext_highest_ts % u32_mod) in
    if ltb (s.ext_highest_ts % u32_mod) ts then sub64 ext u32_mod else ext

-- A 16-bit sequence number by the highest extended one.
abbrev pub extend_sn : Sequencer → ℕ → ℕ
extend_sn s sn =
    let ext = add64 sn (s.ext_highest_sn - s.ext_highest_sn % u16_mod) in
    if ltb (s.ext_highest_sn % u16_mod) sn then sub64 ext u16_mod else ext

-- The slot of an extended number with its offset, where it is in the window.
abbrev pub slot_from : Sequencer → ℕ → Result → Option ℕ
slot_from s ext_sn (err e) = none
slot_from s ext_sn (ok v) =
    let adjusted = sub64 ext_sn v in
    if leb s.size (sub64 (sub64 s.ext_highest_sn s.sn_offset) adjusted)
    then none
    else some (adjusted % s.size)

pub slot_of : Sequencer → ℕ → Option ℕ
slot_of s ext_sn = slot_from s ext_sn (offset_at s ext_sn)

pub lookup_ext_packet_meta : Sequencer → ℕ → Option ExtPacketMeta
lookup_ext_packet_meta s ext_sn = if not s.initialized then none else elim (slot_of s ext_sn) [
  | none ↦ none
  | some slot ↦
      let m = get_or s.meta slot empty_meta in
      if is_invalid_slot s.meta slot
      then none
      else some (record {
        meta = m;
        ext_sequence_number = ext_sn;
        ext_timestamp = extend_ts s m.timestamp;
      })
]

-- A packet may be sent again if it was not too often, and not too lately.
abbrev pub may_resend : Sequencer → ℕ → PacketMeta → Bool
may_resend s ref_time m =
    ltb m.nacked max_ack
    && ltb (min ignore_retransmission (2 * s.rtt % u32_mod))
        ((ref_time + u32_mod - m.last_nack) % u32_mod)

-- One round: the packet in its slot, if it is the one asked for, is counted and returned.
pub answer_nack : Sequencer → ℕ → ℕ → ℕ → Sequencer × Option ExtPacketMeta
answer_nack s ref_time sn slot =
    let m = get_or s.meta slot empty_meta in
    if not (m.target_seq_no == sn) || is_invalid_slot s.meta slot
    then (s, none)
    else if may_resend s ref_time m
    then (let m' : PacketMeta = record m { nacked = m.nacked + 1; last_nack = ref_time } in
        (
          record s { meta = set s.meta slot m' },
          some (record {
            meta = m';
            ext_sequence_number = extend_sn s sn;
            ext_timestamp = extend_ts s m.timestamp;
          }),
        ))
    else (s, none)

abbrev pub answer_in : Sequencer → ℕ → ℕ → Option ℕ → Sequencer × Option ExtPacketMeta
answer_in s ref_time sn none = (s, none)
answer_in s ref_time sn (some slot) = answer_nack s ref_time sn slot

pub nack_one : Sequencer → ℕ → ℕ → Sequencer × Option ExtPacketMeta
nack_one s ref_time sn =
    if ltb (2 ^ 15) (sub16 (s.ext_highest_sn % u16_mod) sn)
    then (s, none)
    else answer_in s ref_time sn (slot_of s (extend_sn s sn))

abbrev pub prepend {ℓ} : {A : Type ℓ} → Option A → List A → List A
prepend none xs = xs
prepend (some x) xs = x ∷ xs

pub answer_all : Sequencer → ℕ → List ℕ → Sequencer × List ExtPacketMeta
answer_all s ref_time [] = (s, [])
answer_all s ref_time (sn ∷ sns) =
    let (s', out) = nack_one s ref_time sn in
    let (s'', outs) = answer_all s' ref_time sns in (s'', prepend out outs)

-- `now` is the time of the call.
pub get_ext_packet_metas : Sequencer → ℤ → List ℕ → Sequencer × List ExtPacketMeta
get_ext_packet_metas s now seq_no =
    if not s.initialized then (s, []) else answer_all s (get_ref_time s now) seq_no

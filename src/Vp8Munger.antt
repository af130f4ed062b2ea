-- ===== src/Vp8Munger.antt =====
-- pkg/sfu/codecmunger/vp8.go: the picture ids, TL0PICIDX and KEYIDX of forwarded VP8 packets.
-- The ordered map is a third-party library's: the munger takes it as a parameter. An int32 is its
-- number modulo 2 ^ 32. The methods that change the munger return the new one.
pub mod Unwrap
pub mod Forward
pub mod Switch
pub mod Wire
mod Examples
use voicekit.Prelude.{
  ℕ, zero, suc, ◌+◌, ◌-◌, ◌%◌, ◌^◌, Bool, true, false, ◌&&◌, ◌||◌, not, Option, none, some, List,
  ltb, ◌==◌, if◌then◌else◌, sub8, add8, u8_mod, u32_mod,
}
use voicekit.Vp8Header.{Vp8, marshal, add_picture_id_size_diff}
use voicekit.Vp8Munger.Unwrap.{WrapHandler, init, unwrap, update_max_picture_id, add32, sub32, lt32}

-- The operations of the ordered map that the munger calls.
pub record OrderedMap (V : Type 0) : Type 1 where
  pub Carrier : Type 0
  pub empty : Carrier
  pub get : ℕ → Carrier → Option V
  pub put : ℕ → V → Carrier → Carrier
  pub delete : ℕ → Carrier → Carrier
  pub front : Carrier → Option ℕ
  pub len : Carrier → ℕ

abbrev pub missing_picture_ids_threshold : ℕ
missing_picture_ids_threshold = 50

abbrev pub dropped_picture_ids_threshold : ℕ
dropped_picture_ids_threshold = 20

abbrev pub exempted_picture_ids_threshold : ℕ
exempted_picture_ids_threshold = 20

pub data Error : Type 0 where
  not_vp8 cache_miss filtered_layer : Error

-- The size of the incoming header and the bytes of the new one; `panics` where `Marshal` does.
pub data Outcome : Type 0 where
  ok : ℕ → List ℕ → Outcome
  err : Error → Outcome
  panics : Outcome

pub record Vp8Munger (I : OrderedMap ℕ) (B : OrderedMap Bool) : Type 0 where
  pub wrap_handler : WrapHandler
  pub ext_last_picture_id : ℕ
  pub picture_id_offset : ℕ
  pub picture_id_used : Bool
  pub last_tl0_pic_idx : ℕ
  pub tl0_pic_idx_offset : ℕ
  pub tl0_pic_idx_used : Bool
  pub tid_used : Bool
  pub last_key_idx : ℕ
  pub key_idx_offset : ℕ
  pub key_idx_used : Bool
  pub missing : I.Carrier
  pub dropped : B.Carrier
  pub exempted : B.Carrier

-- The fields of buffer.ExtPacket that are read; no payload is one that is not VP8.
pub record ExtPacket : Type 0 where
  pub payload : Option Vp8
  pub temporal : ℕ

pub record State : Type 0 where
  pub ext_last_picture_id : ℕ
  pub picture_id_used : Bool
  pub last_tl0_pic_idx : ℕ
  pub tl0_pic_idx_used : Bool
  pub tid_used : Bool
  pub last_key_idx : ℕ
  pub key_idx_used : Bool

-- The loop that deletes the oldest entries past the threshold; each round deletes one.
pub trim : {V : Type 0} (M : OrderedMap V) → ℕ → ℕ → M.Carrier → M.Carrier
trim M zero threshold m = m
trim M (suc rounds) threshold m =
    let rest : M.Carrier = elim (M.front m) [
      | none ↦ m
      | some key ↦ trim M rounds threshold (M.delete key m)
    ] in
    if ltb threshold (M.len m) then rest else m

abbrev pub put_and_trim : {V : Type 0} (M : OrderedMap V) → ℕ → ℕ → V → M.Carrier → M.Carrier
put_and_trim M threshold key v m = let m' = M.put key v m in trim M (M.len m') threshold m'

abbrev pub has : {V : Type 0} (M : OrderedMap V) → ℕ → M.Carrier → Bool
has M key m = elim (M.get key m) [ none ↦ false | some v ↦ true ]

module _ (I : OrderedMap ℕ) (B : OrderedMap Bool) where
  pub new_vp8 : Vp8Munger I B
  new_vp8 = record {
    wrap_handler = init 0 false;
    ext_last_picture_id = 0;
    picture_id_offset = 0;
    picture_id_used = false;
    last_tl0_pic_idx = 0;
    tl0_pic_idx_offset = 0;
    tl0_pic_idx_used = false;
    tid_used = false;
    last_key_idx = 0;
    key_idx_offset = 0;
    key_idx_used = false;
    missing = I.empty;
    dropped = B.empty;
    exempted = B.empty;
  }

module _ {I : OrderedMap ℕ} {B : OrderedMap Bool} where
  pub get_state : Vp8Munger I B → State
  get_state v = record {
    ext_last_picture_id = v.ext_last_picture_id;
    picture_id_used = v.picture_id_used;
    last_tl0_pic_idx = v.last_tl0_pic_idx;
    tl0_pic_idx_used = v.tl0_pic_idx_used;
    tid_used = v.tid_used;
    last_key_idx = v.last_key_idx;
    key_idx_used = v.key_idx_used;
  }

  -- A seed of another kind changes nothing.
  pub seed_state : Vp8Munger I B → Option State → Vp8Munger I B
  seed_state v none = v
  seed_state v (some s) = record v {
    ext_last_picture_id = s.ext_last_picture_id;
    picture_id_used = s.picture_id_used;
    last_tl0_pic_idx = s.last_tl0_pic_idx % u8_mod;
    tl0_pic_idx_used = s.tl0_pic_idx_used;
    tid_used = s.tid_used;
    last_key_idx = s.last_key_idx % u8_mod;
    key_idx_used = s.key_idx_used;
  }

  abbrev pub set_last_payload : Vp8Munger I B → Option Vp8 → Vp8Munger I B
  set_last_payload v none = v
  set_last_payload v (some p) = record v {
    picture_id_used = p.i;
    wrap_handler = if p.i then init (sub32 p.picture_id 1) p.m else v.wrap_handler;
    ext_last_picture_id = if p.i then p.picture_id else v.ext_last_picture_id;
    tl0_pic_idx_used = p.l;
    last_tl0_pic_idx = if p.l then p.tl0_pic_idx else v.last_tl0_pic_idx;
    tid_used = p.t;
    key_idx_used = p.k;
    last_key_idx = if p.k then p.key_idx else v.last_key_idx;
  }

  pub set_last : Vp8Munger I B → ExtPacket → Vp8Munger I B
  set_last v ext_pkt = set_last_payload v ext_pkt.payload

  abbrev pub update_offsets_payload : Vp8Munger I B → Option Vp8 → Vp8Munger I B
  update_offsets_payload v none = v
  update_offsets_payload v (some p) = record v {
    wrap_handler = if v.picture_id_used then init (sub32 p.picture_id 1) p.m else v.wrap_handler;
    picture_id_offset =
        if v.picture_id_used
        then sub32 (sub32 p.picture_id v.ext_last_picture_id) 1
        else v.picture_id_offset;
    tl0_pic_idx_offset =
        if v.tl0_pic_idx_used
        then sub8 (sub8 p.tl0_pic_idx v.last_tl0_pic_idx) 1
        else v.tl0_pic_idx_offset;
    key_idx_offset =
        if v.key_idx_used then sub8 (sub8 p.key_idx v.last_key_idx) 1 % 32 else v.key_idx_offset;
    missing = I.empty;
    dropped = B.empty;
    exempted = B.empty;
  }

  pub update_offsets : Vp8Munger I B → ExtPacket → Vp8Munger I B
  update_offsets v ext_pkt = update_offsets_payload v ext_pkt.payload

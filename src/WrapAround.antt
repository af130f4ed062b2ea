-- ===== src/WrapAround.antt =====
-- pkg/sfu/utils/wraparound.go: a counter of 16 or 32 bits extended to 64 bits.
-- `T` is uint16 or uint32 (`Width`), `ET` is uint64, as in every use under pkg/.
pub mod Order
pub mod Stream
pub mod Rollback
mod Examples
use voicekit.Prelude.{
  ℕ, ◌+◌, ◌-◌, ◌*◌, ◌/◌, ◌%◌, ◌^◌, Bool, true, false, not, ◌&&◌, ltb, leb, if◌then◌else◌, add64,
  sub64, u64_mod,
}
use voicekit.Prelude.Int.{ℤ, pos, negsuc}

pub data Width : Type 0 where
  u16 u32 : Width

-- `fullRange`, 1 << (8 * Sizeof(T))
abbrev pub full_range : Width → ℕ
full_range u16 = 2 ^ 16
full_range u32 = 2 ^ 32

-- `fullRange >> 1`
abbrev pub half_range : Width → ℕ
half_range w = full_range w / 2

-- `a - b` in `T`
abbrev pub sub_t : Width → ℕ → ℕ → ℕ
sub_t w a b = (a + full_range w - b) % full_range w

pub record WrapAround : Type 0 where
  pub is_restart_allowed : Bool
  pub initialized : Bool
  pub start : ℕ
  pub highest : ℕ
  pub cycles : ℕ
  pub extended_highest : ℕ

pub record UpdateResult : Type 0 where
  pub is_unhandled : Bool
  pub is_restart : Bool
  pub pre_extended_start : ℕ
  pub pre_extended_highest : ℕ
  pub extended_val : ℕ

abbrev pub new : Bool → WrapAround
new restart = record {
  is_restart_allowed = restart;
  initialized = false;
  start = 0;
  highest = 0;
  cycles = 0;
  extended_highest = 0;
}

abbrev pub get_extended : ℕ → ℕ → ℕ
get_extended cycles val = add64 cycles val

abbrev pub update_extended_highest : WrapAround → WrapAround
update_extended_highest s = record s { extended_highest = get_extended s.cycles s.highest }

pub seed : WrapAround → WrapAround → WrapAround
seed s from = update_extended_highest (record s {
  initialized = from.initialized;
  start = from.start;
  highest = from.highest;
  cycles = from.cycles;
})

-- A result whose other fields are Go's zero values.
abbrev pub result_of : ℕ → ℕ → UpdateResult
result_of pre val = record {
  is_unhandled = false;
  is_restart = false;
  pre_extended_start = 0;
  pre_extended_highest = pre;
  extended_val = val;
}

module _ (w : Width) where
  abbrev pub is_wrap_back : ℕ → ℕ → Bool
  is_wrap_back earlier later = ltb later (half_range w) && leb (half_range w) earlier

  -- The first branch: more than half of the range was seen.
  abbrev pub late_val : WrapAround → ℕ → ℕ
  late_val s val =
      if is_wrap_back val s.highest
      then get_extended (sub64 s.cycles (full_range w)) val
      else get_extended s.cycles val

  -- `val` lies before the start, and a restart is allowed: it becomes the start.
  pub restart_at : WrapAround → ℕ → WrapAround × UpdateResult
  restart_at s val =
      let back = is_wrap_back val s.highest in
      let s' : WrapAround =
        if back
        then record s {
          cycles = full_range w;
          extended_highest = get_extended (full_range w) s.highest;
          start = val;
        }
        else record s { start = val } in
      (
        s',
        record {
          is_unhandled = false;
          is_restart = true;
          pre_extended_start = if ltb s.start val then add64 (full_range w) s.start else s.start;
          pre_extended_highest = s'.extended_highest;
          extended_val = get_extended (if back then 0 else s.cycles) val;
        },
      )

  pub maybe_adjust_start : WrapAround → ℕ → WrapAround × UpdateResult
  maybe_adjust_start s val =
      if ltb (half_range w) (add64 (sub64 s.extended_highest s.start) 1)
      then (s, result_of s.extended_highest (late_val s val))
      else if ltb (half_range w) (sub_t w val s.start)
      then (if s.is_restart_allowed then restart_at s val else (
        s,
        record (result_of s.extended_highest (get_extended s.cycles val)) { is_unhandled = true },
      ))
      else (s, result_of s.extended_highest (late_val s val))

  -- The first value: it is the start and the highest. `cycles` is left as it is.
  abbrev pub first_update : WrapAround → ℕ → WrapAround × UpdateResult
  first_update s val = (
    record (update_extended_highest (record s { start = val; highest = val })) {
      initialized = true;
    },
    result_of (sub64 val 1) val,
  )

  -- A value that is ahead of the highest.
  abbrev pub in_order_update : WrapAround → ℕ → WrapAround × UpdateResult
  in_order_update s val =
      let s' : WrapAround = update_extended_highest (record s {
        cycles = if ltb val s.highest then add64 s.cycles (full_range w) else s.cycles;
        highest = val;
      }) in
      (s', result_of s.extended_highest s'.extended_highest)

  pub update : WrapAround → ℕ → WrapAround × UpdateResult
  update s val =
      if not s.initialized
      then first_update s val
      else if ltb (half_range w) (sub_t w val s.highest)
      then maybe_adjust_start s val
      else in_order_update s val

  -- `ev & ^(fullRange - 1)` clears the low bits.
  pub reset_highest : WrapAround → ℕ → WrapAround
  reset_highest s ev =
      update_extended_highest
        (record s { highest = ev % full_range w; cycles = ev - ev % full_range w })

  pub undo_update : WrapAround → UpdateResult → WrapAround
  undo_update s r =
      if not s.initialized
      then s
      else if leb r.extended_val r.pre_extended_highest
      then s
      else reset_highest s r.pre_extended_highest

  pub rollover : WrapAround → ℕ → ℤ → WrapAround × UpdateResult
  rollover s val (negsuc n) = update s val
  rollover s val (pos n) =
      if not s.initialized
      then update s val
      else (let s' : WrapAround = update_extended_highest (record s {
        cycles = add64 s.cycles (n % u64_mod * full_range w % u64_mod);
        highest = val;
      }) in
          (s', result_of s.extended_highest s'.extended_highest))

  pub rollback_restart : WrapAround → ℕ → WrapAround
  rollback_restart s ev =
      let s' : WrapAround =
        if is_wrap_back s.start (ev % full_range w)
        then update_extended_highest (record s { cycles = sub64 s.cycles (full_range w) })
        else s in
      record s' { start = ev % full_range w }

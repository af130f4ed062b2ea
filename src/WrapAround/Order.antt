-- ===== src/WrapAround/Order.antt =====
-- pkg/sfu/utils/wraparound.go: what `Update` makes of a counter whose true values move by at most
-- half of the range ahead of the highest, and by less than half behind it.
use voicekit.Prelude.{
  ℕ, ◌+◌, ◌-◌, ◌%◌, ◌^◌, ◌≤◌, ◌<◌, ◌≡◌, true, arith, ltb, add64, sub64, le→ltb_false, lt→ltb,
  if◌then◌else◌,
}
use native.Mathlib.Decide.{dec_lt}
use voicekit.WrapAround.{
  late_val, Width, u16, u32, full_range, half_range, WrapAround, update, maybe_adjust_start,
  restart_at, sub_t, result_of, is_wrap_back, get_extended,
}

-- A running counter: the highest is the low part of the extended highest, and the cycles the rest.
-- `room` keeps the 64-bit sums from wrapping.
pub record IsRunning (w : Width) (s : WrapAround) : Type 0 where
  pub running : s.initialized ≡ true
  pub split : s.cycles + s.highest ≡ s.extended_highest
  pub aligned : s.cycles % full_range w ≡ 0
  pub highest_in : s.highest < full_range w
  pub start_in : s.start < full_range w
  pub start_low : s.start ≤ s.extended_highest
  pub room : s.extended_highest < 2 ^ 63

pub highest_of :
    (w : Width) (s : WrapAround) → IsRunning w s → s.highest ≡ s.extended_highest % full_range w
highest_of u16 s v = omega arith
highest_of u32 s v = omega arith

pub cycles_of :
    (w : Width) (s : WrapAround)
    → IsRunning w s
    → s.cycles ≡ s.extended_highest - s.extended_highest % full_range w
cycles_of u16 s v = omega arith
cycles_of u32 s v = omega arith

ahead_gap :
    (w : Width) (x e : ℕ)
    → x ≤ e
    → e ≤ x + half_range w
    → sub_t w (e % full_range w) (x % full_range w) ≡ e - x
ahead_gap u16 x e lo hi = omega arith
ahead_gap u32 x e lo hi = omega arith

ahead_cycles :
    (w : Width) (x e : ℕ)
    → x ≤ e
    → e ≤ x + half_range w
    → e < 2 ^ 63
    → (if ltb (e % full_range w) (x % full_range w)
        then add64 (x - x % full_range w) (full_range w)
        else x - x % full_range w)
      ≡ e - e % full_range w
ahead_cycles u16 x e lo hi room = ground arith
ahead_cycles u32 x e lo hi room = ground arith

-- The state after a value that is ahead.
abbrev pub moved_to : Width → WrapAround → ℕ → WrapAround
moved_to w s e = record s {
  cycles = e - e % full_range w;
  highest = e % full_range w;
  extended_highest = e;
}

pub rejoined :
    (w : Width) (e : ℕ) → e < 2 ^ 63 → (e - e % full_range w + e % full_range w) % 2 ^ 64 ≡ e
rejoined u16 e room = omega arith
rejoined u32 e room = omega arith

pub update_ahead_eq :
    (w : Width) (s : WrapAround) (e : ℕ)
    → IsRunning w s
    → s.extended_highest ≤ e
    → e ≤ s.extended_highest + half_range w
    → e < 2 ^ 63
    → update w s (e % full_range w) ≡ (moved_to w s e, result_of s.extended_highest e)
unfolding update
update_ahead_eq w s e v lo hi room =
    rw
      (
        v.running,
        highest_of w s v,
        ahead_gap w s.extended_highest e lo hi,
        cycles_of w s v,
        le→ltb_false (half_range w) (e - s.extended_highest) (omega arith),
        ahead_cycles w s.extended_highest e lo hi room,
      )
      (simp (rejoined w e room))

pub moved_to-IsRunning :
    (w : Width) (s : WrapAround) (e : ℕ)
    → IsRunning w s
    → s.start ≤ e
    → e < 2 ^ 63
    → IsRunning w (moved_to w s e)
moved_to-IsRunning u16 s e v lo room = record {
  running = v.running;
  split = omega arith;
  aligned = omega arith;
  highest_in = omega arith;
  start_in = v.start_in;
  start_low = lo;
  room = room;
}
moved_to-IsRunning u32 s e v lo room = record {
  running = v.running;
  split = omega arith;
  aligned = omega arith;
  highest_in = omega arith;
  start_in = v.start_in;
  start_low = lo;
  room = room;
}

late_gap :
    (w : Width) (x e : ℕ)
    → e < x
    → x < e + half_range w
    → half_range w < sub_t w (e % full_range w) (x % full_range w)
late_gap u16 x e lo hi = omega arith
late_gap u32 x e lo hi = omega arith

-- What `maybeAdjustStart` reads for a value behind the highest by less than half of the range.
late_sum :
    (w : Width) (x e : ℕ)
    → e < x
    → x < e + half_range w
    → x < 2 ^ 63
    → (if is_wrap_back w (e % full_range w) (x % full_range w)
        then get_extended (sub64 (x - x % full_range w) (full_range w)) (e % full_range w)
        else get_extended (x - x % full_range w) (e % full_range w))
      ≡ e
late_sum u16 x e lo hi room = ground arith
late_sum u32 x e lo hi room = ground arith

start_gap :
    (w : Width) (s e : ℕ)
    → s < full_range w
    → s ≤ e
    → e < s + half_range w
    → sub_t w (e % full_range w) s ≤ half_range w
start_gap u16 s e h lo hi = omega arith
start_gap u32 s e h lo hi = omega arith

seen_of : (x s : ℕ) → s ≤ x → x < 2 ^ 63 → add64 (sub64 x s) 1 ≡ x - s + 1
seen_of x s lo room = omega arith

-- Ahead of the start, `maybeAdjustStart` reads the value by its distance from the highest.
adjust_behind :
    (w : Width) (s : WrapAround) (e : ℕ)
    → IsRunning w s
    → s.start ≤ e
    → e < s.extended_highest
    → s.extended_highest < e + half_range w
    → maybe_adjust_start w s (e % full_range w) ≡ (s, result_of s.extended_highest e)
unfolding maybe_adjust_start
adjust_behind w s e v lo hi near =
    let sum : late_val w s (e % full_range w) ≡ e =
      rw (highest_of w s v, cycles_of w s v) (late_sum w s.extended_highest e hi near v.room) in
    rw (seen_of s.extended_highest s.start v.start_low v.room)
      (elim (dec_lt (half_range w) (s.extended_highest - s.start + 1)) [
        | yes h ↦ rw (lt→ltb _ _ h, sum)
        | no h ↦ rw (
          le→ltb_false (half_range w) (s.extended_highest - s.start + 1) (omega arith),
          le→ltb_false (half_range w) (sub_t w (e % full_range w) s.start)
              (start_gap w s.start e v.start_in lo (omega arith)),
          sum,
        )
      ])

-- A value behind the highest by less than half of the range, and not before the start, is read as
-- the true value, and changes nothing.
pub update_behind :
    (w : Width) (s : WrapAround) (e : ℕ)
    → IsRunning w s
    → s.start ≤ e
    → e < s.extended_highest
    → s.extended_highest < e + half_range w
    → update w s (e % full_range w) ≡ (s, result_of s.extended_highest e)
unfolding update
update_behind w s e v lo hi near =
    let gap : ltb (half_range w) (sub_t w (e % full_range w) s.highest) ≡ true =
      rw (highest_of w s v) (lt→ltb _ _ (late_gap w s.extended_highest e hi near)) in
    simp (v.running, gap) (adjust_behind w s e v lo hi near)

-- A value `k` before the start.
abbrev pub before : Width → WrapAround → ℕ → ℕ
before w s k = (s.start + full_range w - k) % full_range w

pub before_gaps :
    (w : Width) (s : WrapAround) (k : ℕ)
    → IsRunning w s
    → 0 < k
    → s.extended_highest + k < s.start + half_range w
    → (half_range w < sub_t w (before w s k) s.highest)
      × (half_range w < sub_t w (before w s k) s.start)
before_gaps u16 s k v pos near = omega arith
before_gaps u32 s k v pos near = omega arith

pub update-before :
    (w : Width) (s : WrapAround) (k : ℕ)
    → IsRunning w s
    → 0 < k
    → s.extended_highest + k < s.start + half_range w
    → update w s (before w s k) ≡ (
        if s.is_restart_allowed then restart_at w s (before w s k) else (
          s,
          record (result_of s.extended_highest (get_extended s.cycles (before w s k))) {
            is_unhandled = true;
          },
        ))
unfolding update maybe_adjust_start
update-before w s k v pos near =
    let g = before_gaps w s k v pos near in
    simp (
      v.running,
      lt→ltb _ _ g.0,
      seen_of s.extended_highest s.start v.start_low v.room,
      le→ltb_false (half_range w) (s.extended_highest - s.start + 1) (omega arith),
      lt→ltb _ _ g.1,
    )

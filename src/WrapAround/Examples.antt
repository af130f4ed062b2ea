-- ===== src/WrapAround/Examples.antt =====
-- Concrete runs of the counter, and the theorems at concrete inputs.
use voicekit.Prelude.{ℕ, ◌+◌, ◌%◌, ◌≡◌, refl, Bool, true, false, arith, List, [], ◌∷◌, map}
use voicekit.WrapAround.{
  u16, full_range, WrapAround, new, update, maybe_adjust_start, restart_at, rollback_restart,
}
use voicekit.WrapAround.Order.{IsRunning, before}
use voicekit.WrapAround.Stream.{read_all, read_all-low_parts}
use voicekit.WrapAround.Rollback.{rollback_restart-update}

-- 65534, 65536 (a wrap), 65535 (late), 65540.
abbrev stream : List ℕ
stream = 65536 ∷ 65535 ∷ 65540 ∷ []

read_all-wraps : read_all u16 (new false) (65534 ∷ 0 ∷ 65535 ∷ 4 ∷ []) ≡ 65534 ∷ stream
unfolding read_all update maybe_adjust_start
read_all-wraps = refl

read_all-low_parts_example :
    read_all u16 (new false) (map (λ v. v % full_range u16) (65534 ∷ stream)) ≡ 65534 ∷ stream
read_all-low_parts_example = read_all-low_parts u16 false 65534 stream (omega arith) (omega arith)

-- Started at 5, the highest is 9.
abbrev young : Bool → WrapAround
young restart = record {
  is_restart_allowed = restart;
  initialized = true;
  start = 5;
  highest = 9;
  cycles = 0;
  extended_highest = 9;
}

young-IsRunning : IsRunning u16 (young true)
young-IsRunning = record {
  running = refl;
  split = refl;
  aligned = refl;
  highest_in = omega arith;
  start_in = omega arith;
  start_low = omega arith;
  room = omega arith;
}

restart_across_zero : (update u16 (young true) 65534).0.extended_highest ≡ 65545
unfolding update maybe_adjust_start restart_at
restart_across_zero = refl

rollback_restart-update_example :
    let (s', r) = update u16 (young true) (before u16 (young true) 7) in
    IsRunning u16 s'
    × (s'.start ≡ 65534)
    × (r.extended_val ≡ 65534)
    × (r.extended_val + 7 ≡ r.pre_extended_start)
    × (s'.extended_highest + 5 ≡ 9 + r.pre_extended_start)
    × (rollback_restart u16 s' r.pre_extended_start ≡ young true)
rollback_restart-update_example =
    rollback_restart-update u16 (young true) 7 young-IsRunning (omega arith) (omega arith) refl

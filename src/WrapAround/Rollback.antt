-- ===== src/WrapAround/Rollback.antt =====
-- pkg/sfu/utils/wraparound.go: restarts before the start, and the operations that take a change back.
use native.Mathlib.Decide.{dec_lt}
use voicekit.Prelude.{ℕ, ◌+◌, ◌%◌, ◌^◌, ◌≤◌, ◌<◌, ◌≡◌, refl, true, false, arith}
use voicekit.WrapAround.{
  Width, u16, u32, full_range, half_range, WrapAround, update, restart_at, undo_update, result_of,
  reset_highest, rollback_restart,
}
use voicekit.WrapAround.Order.{
  IsRunning, moved_to, update_ahead_eq, update_behind, before, update-before,
}

-- `restart_at` at the cycles and the highest that a running counter has there.
restart_at-IsRunning :
    (w : Width) (s : WrapAround) (k : ℕ)
    → IsRunning w s
    → 0 < k
    → s.extended_highest + k < s.start + half_range w
    → let (s', r) = restart_at w s (before w s k) in
      IsRunning w s'
      × (s'.start ≡ before w s k)
      × (r.extended_val ≡ before w s k)
      × (r.extended_val + k ≡ r.pre_extended_start)
      × (s'.extended_highest + s.start ≡ s.extended_highest + r.pre_extended_start)
unfolding restart_at
restart_at-IsRunning u16 s k v pos near = ground arith
restart_at-IsRunning u32 s k v pos near = ground arith

rollback_restart-restart_at :
    (w : Width) (s : WrapAround) (k : ℕ)
    → IsRunning w s
    → 0 < k
    → s.extended_highest + k < s.start + half_range w
    → let (s', r) = restart_at w s (before w s k) in rollback_restart w s' r.pre_extended_start ≡ s
unfolding restart_at rollback_restart
rollback_restart-restart_at u16 s k v pos near = ground arith
rollback_restart-restart_at u32 s k v pos near = ground arith

undo_update-moved_to :
    (w : Width) (s : WrapAround) (e : ℕ)
    → IsRunning w s
    → s.extended_highest ≤ e
    → undo_update w (moved_to w s e) (result_of s.extended_highest e) ≡ s
unfolding undo_update reset_highest
undo_update-moved_to u16 s e v lo = ground arith
undo_update-moved_to u32 s e v lo = ground arith

undo_late :
    (w : Width) (s : WrapAround) (e : ℕ)
    → IsRunning w s
    → e < s.extended_highest
    → undo_update w s (result_of s.extended_highest e) ≡ s
unfolding undo_update
undo_late w s e v late = ground arith

-- A value `k` before the start, in a range of which less than half was seen, is unhandled and
-- changes nothing where no restart is allowed.
update_unhandled :
    (w : Width) (s : WrapAround) (k : ℕ)
    → IsRunning w s
    → 0 < k
    → s.extended_highest + k < s.start + half_range w
    → s.is_restart_allowed ≡ false
    → let (s', r) = update w s (before w s k) in (s' ≡ s) × (r.is_unhandled ≡ true)
update_unhandled w s k v pos near no_restart =
    simp (update-before w s k v pos near, no_restart) (refl, refl)

-- Where a restart is allowed, a value `k` before the start, in a range of which less than half was
-- seen, becomes the start and the extended value; the counter keeps its invariant, the value is `k`
-- below the reported previous start and as far below the highest, and `RollbackRestart` with that
-- previous start gives the state from before the update.
pub rollback_restart-update :
    (w : Width) (s : WrapAround) (k : ℕ)
    → IsRunning w s
    → 0 < k
    → s.extended_highest + k < s.start + half_range w
    → s.is_restart_allowed ≡ true
    → let (s', r) = update w s (before w s k) in
      IsRunning w s'
      × (s'.start ≡ before w s k)
      × (r.extended_val ≡ before w s k)
      × (r.extended_val + k ≡ r.pre_extended_start)
      × (s'.extended_highest + s.start ≡ s.extended_highest + r.pre_extended_start)
      × (rollback_restart w s' r.pre_extended_start ≡ s)
rollback_restart-update w s k v pos near restart =
    let (a, b, c, d, e) = restart_at-IsRunning w s k v pos near in
    simp (update-before w s k v pos near, restart)
      (a, b, c, d, e, rollback_restart-restart_at w s k v pos near)

-- `UndoUpdate`, given the result of an `Update` with a value from the start on that is at most half
-- of the range ahead of the highest or less than half of it behind, restores the state from before.
undo_update-update :
    (w : Width) (s : WrapAround) (e : ℕ)
    → IsRunning w s
    → s.start ≤ e
    → e ≤ s.extended_highest + half_range w
    → s.extended_highest < e + half_range w
    → e < 2 ^ 63
    → let (s', r) = update w s (e % full_range w) in undo_update w s' r ≡ s
undo_update-update w s e v lo hi near room = elim (dec_lt e s.extended_highest) [
  | yes late ↦ simp (update_behind w s e v lo late near) (undo_late w s e v late)
  | no ahead ↦
      simp (update_ahead_eq w s e v (omega arith) hi room)
        (undo_update-moved_to w s e v (omega arith))
]

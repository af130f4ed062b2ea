-- ===== src/WrapAround/Stream.antt =====
-- pkg/sfu/utils/wraparound.go: a stream of values, read one after another by `Update`.
use mathlib.Core.Path.{subst}
use native.Mathlib.Decide.{dec_lt}
use voicekit.Prelude.{
  ℕ, ◌+◌, ◌%◌, ◌^◌, ◌≤◌, ◌<◌, ◌≡◌, refl, ap, Bool, true, arith, List, [], ◌∷◌, map, max,
}
use voicekit.WrapAround.{
  Width, u16, u32, full_range, half_range, WrapAround, new, update, get_extended,
}
use voicekit.WrapAround.Order.{
  IsRunning, moved_to, moved_to-IsRunning, update_ahead_eq, update_behind,
}

-- What `update` reads, one value after another.
unfoldable pub read_all : Width → WrapAround → List ℕ → List ℕ
read_all w s [] = []
read_all w s (val ∷ vals) = let (s', r) = update w s val in r.extended_val ∷ read_all w s' vals

-- True values, each at most half of the range ahead of the highest so far, less than half of the
-- range behind it, and not before the first.
abbrev pub StaysNear : Width → ℕ → ℕ → List ℕ → Type 0
StaysNear w start x [] = Unit {0}
StaysNear w start x (e ∷ es) =
    (start ≤ e)
    × (e ≤ x + half_range w)
    × (x < e + half_range w)
    × (e < 2 ^ 63)
    × StaysNear w start (max x e) es

read_all-IsRunning :
    (w : Width) (s : WrapAround) (es : List ℕ)
    → IsRunning w s
    → StaysNear w s.start s.extended_highest es
    → read_all w s (map (λ e. e % full_range w) es) ≡ es
unfolding read_all
read_all-IsRunning w s [] v h = refl
read_all-IsRunning w s (e ∷ es) v (lo, hi, near, room, rest) = elim (dec_lt e s.extended_highest) [
  | yes late ↦ rw (update_behind w s e v lo late near) (
      ap (λ t. e ∷ t)
        (read_all-IsRunning w s es v (subst (λ m. StaysNear w s.start m es) (omega arith) rest)))
  | no ahead ↦ rw (update_ahead_eq w s e v (omega arith) hi room) (
      ap (λ t. e ∷ t)
        (read_all-IsRunning w (moved_to w s e) es (moved_to-IsRunning w s e v lo room)
          (subst (λ m. StaysNear w s.start m es) (omega arith) rest)))
]

low_of : (w : Width) (e : ℕ) → e < full_range w → e % full_range w ≡ e
low_of u16 e h = omega arith
low_of u32 e h = omega arith

get_extended_zero : (w : Width) (e : ℕ) → e < full_range w → get_extended 0 e ≡ e
get_extended_zero u16 e h = omega arith
get_extended_zero u32 e h = omega arith

-- The state after the first value.
abbrev started : Bool → ℕ → WrapAround
started restart e = record {
  is_restart_allowed = restart;
  initialized = true;
  start = e;
  highest = e;
  cycles = 0;
  extended_highest = e;
}

started-IsRunning :
    (w : Width) (restart : Bool) (e : ℕ) → e < full_range w → IsRunning w (started restart e)
started-IsRunning u16 restart e h = ground arith
started-IsRunning u32 restart e h = ground arith

-- `Update`, from a new counter on, reads back the true 64-bit values from their low 16 or 32 bits,
-- reordered or across wraps, if the first fits the counter, none goes before the first, and each is
-- at most half of the range ahead of the highest so far and less than half of it behind.
pub read_all-low_parts :
    (w : Width) (restart : Bool) (e : ℕ) (es : List ℕ)
    → e < full_range w
    → StaysNear w e e es
    → read_all w (new restart) (map (λ v. v % full_range w) (e ∷ es)) ≡ e ∷ es
unfolding read_all update
read_all-low_parts w restart e es h near =
    rw (low_of w e h, get_extended_zero w e h)
      (ap (λ t. e ∷ t)
        (read_all-IsRunning w (started restart e) es (started-IsRunning w restart e h) near))

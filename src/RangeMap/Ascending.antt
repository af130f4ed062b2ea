-- ===== src/RangeMap/Ascending.antt =====
-- pkg/sfu/utils/rangemap.go, as the RTP muncher and the sequencer use it: a key is translated to the
-- key less its value, and translation keeps the order of the keys.
use native.Mathlib.Decide.{dec_lt}
use voicekit.Prelude.{
  ℕ, zero, suc, ◌+◌, ◌-◌, ◌^◌, ◌≤◌, ◌<◌, ◌≡◌, arith, List, [], ◌∷◌, take, length, Bool-cases, inl,
  inr, sym, ◌∙◌, sub64, add64, ltb,
}
use voicekit.RangeMap.{
  ok, RangeVal, RangeMap, get_value, half_range, prune, exclude_range, dec_value,
  clear_and_reset_value,
}
use voicekit.RangeMap.Updates.{
  split_at, moved, exclude_range_moves, exclude_range_splits, dec_value_lowers, dec_value_splits,
}
use voicekit.RangeMap.Lookup.{IsChain, IsValid, find_value, value_at, get_value-value_at}

-- What a key of the range is translated to, where no sum wraps.
abbrev pub image : RangeVal → ℕ → ℕ
image p key = sub64 p.start p.value + (key - p.start)

-- The image of each closed range ends below the image of the range after it.
abbrev pub Ascends : ℕ → List RangeVal → Type 0
Ascends next [] = Unit {0}
Ascends next (p ∷ ps) = (p.value < 2 ^ 64) × (image p p.end < next) × Ascends (image p p.start) ps

pub record IsAscending (r : RangeMap) : Type 0 where
  pub word : r.last.value < 2 ^ 64
  pub below : Ascends (image r.last r.last.start) r.earlier

-- Within a range the image is the 64-bit difference.
image-sub64 :
    (p : RangeVal) (key : ℕ)
    → p.value < 2 ^ 64
    → p.start ≤ key
    → p.start < half_range
    → image p key < 2 ^ 64
    → sub64 key p.value ≡ image p key
image-sub64 p key w lo h room = omega arith

find_value-lt :
    (key next value start : ℕ) (ps : List RangeVal)
    → IsChain start ps
    → start < half_range
    → Ascends next ps
    → next < 2 ^ 64
    → find_value key ps ≡ ok value
    → sub64 key value < next
unfolding find_value
find_value-lt key next value start [] c hs a room h = cc
find_value-lt key next value start (p ∷ ps) c hs a room h = ground (
  arith,
  image-sub64 p key a.0,
  find_value-lt key (image p p.start) value p.start ps c.2 (omega arith) a.2 (omega arith),
)

find_value_mono :
    (j k next v w start : ℕ) (ps : List RangeVal)
    → IsChain start ps
    → start < half_range
    → Ascends next ps
    → next < 2 ^ 64
    → j < k
    → find_value j ps ≡ ok v
    → find_value k ps ≡ ok w
    → sub64 j v < sub64 k w
unfolding find_value
find_value_mono j k next v w start [] c hs a room lt hj hk = cc
find_value_mono j k next v w start (p ∷ ps) c hs a room lt hj hk = ground (
  arith,
  image-sub64 p j a.0,
  image-sub64 p k a.0,
  find_value-lt j (image p p.start) v p.start ps c.2 (omega arith) a.2 (omega arith),
  find_value_mono j k (image p p.start) v w p.start ps c.2 (omega arith) a.2 (omega arith) lt,
)

value_at_mono :
    (r : RangeMap) (j k v w : ℕ)
    → IsValid r
    → IsAscending r
    → image r.last k < 2 ^ 64
    → j < k
    → value_at r j ≡ ok v
    → value_at r k ≡ ok w
    → sub64 j v < sub64 k w
unfolding value_at
value_at_mono r j k v w h a room lt hj hk = ground (
  arith,
  image-sub64 r.last j a.word,
  image-sub64 r.last k a.word,
  find_value-lt j (image r.last r.last.start) v r.last.start r.earlier h.chain h.in_half a.below,
  find_value_mono j k (image r.last r.last.start) v w r.last.start r.earlier h.chain h.in_half
      a.below,
)

-- In an ascending map in order, translation (the key less its value, in 64 bits) is strictly
-- increasing on the keys that have a value, if the image of the larger key does not wrap. So two
-- packets never get the same outgoing number.
pub get_value_mono :
    (r : RangeMap) (j k v w : ℕ)
    → IsValid r
    → IsAscending r
    → image r.last k < 2 ^ 64
    → j < k
    → get_value r j ≡ ok v
    → get_value r k ≡ ok w
    → sub64 j v < sub64 k w
get_value_mono r j k v w h a room lt hj hk =
    value_at_mono r j k v w h a room lt (sym (get_value-value_at r j h) ∙ hj)
      (sym (get_value-value_at r k h) ∙ hk)

Ascends-take : (n next : ℕ) (ps : List RangeVal) → Ascends next ps → Ascends next (take n ps)
Ascends-take zero next ps a = tt
Ascends-take (suc n) next [] a = tt
Ascends-take (suc n) next (p ∷ ps) a = (a.0, a.1, Ascends-take n (image p p.start) ps a.2)

Ascends-mono : (m n : ℕ) (ps : List RangeVal) → m ≤ n → Ascends m ps → Ascends n ps
Ascends-mono m n [] h a = tt
Ascends-mono m n (p ∷ ps) h a = (a.0, omega arith, a.2)

prune-IsAscending : (r : RangeMap) → IsAscending r → IsAscending (prune r)
unfolding prune
prune-IsAscending r a = elim (Bool-cases (ltb (r.size + 1) (length r.earlier + 1))) [
  | inl h ↦ rw h (record { word = a.word; below = Ascends-take r.size _ r.earlier a.below })
  | inr h ↦ rw h a
]

split_at-IsAscending :
    (r : RangeMap) (end start value : ℕ)
    → IsAscending r
    → value < 2 ^ 64
    → r.last.start ≤ end
    → image r.last end < sub64 start value
    → IsAscending (split_at r end start value)
split_at-IsAscending r end start value a w h lt = record {
  word = w;
  below = (a.word, omega arith, a.below);
}

moved-IsAscending :
    (r : RangeMap) (start value : ℕ)
    → IsAscending r
    → value < 2 ^ 64
    → sub64 r.last.start r.last.value ≤ sub64 start value
    → IsAscending (moved r start value)
moved-IsAscending r start value a w h = record {
  word = w;
  below = Ascends-mono _ _ r.earlier (omega arith) a.below;
}

-- `ExcludeRange` of keys from the start of the open range on keeps the map ascending, where the
-- images of the excluded keys do not wrap.
pub exclude_range-IsAscending :
    (r : RangeMap) (s e : ℕ)
    → IsAscending r
    → r.last.start ≤ s
    → s < e
    → e < half_range
    → image r.last e < 2 ^ 64
    → IsAscending (exclude_range r s e).0
exclude_range-IsAscending r s e a h lt room wide = elim (dec_lt r.last.start s) [
  | yes above ↦ rw (exclude_range_splits r s e above lt room) (
      prune-IsAscending _ (
        split_at-IsAscending r (s - 1) e (add64 r.last.value (e - s)) a (omega arith) (omega arith)
          (omega (arith, a.word))))
  | no same ↦
      rw (exclude_range_moves r s e (omega arith) lt room)
        (moved-IsAscending r e (add64 r.last.value (e - s)) a (omega arith) (omega (arith, a.word)))
]

-- `DecValue` keeps the map ascending, where the image of the next key, moved up by `dec`, does not wrap.
dec_value-IsAscending :
    (r : RangeMap) (end dec : ℕ)
    → IsAscending r
    → r.last.start < half_range
    → end + 1 < half_range
    → image r.last (end + 1) + dec < 2 ^ 64
    → IsAscending (dec_value r end dec)
dec_value-IsAscending r end dec a h room wide = elim (dec_lt end r.last.start) [
  | yes low ↦ rw (dec_value_lowers r end dec low) (
      moved-IsAscending r r.last.start (sub64 r.last.value dec) a (omega arith)
        (omega (arith, a.word)))
  | no high ↦ rw (dec_value_splits r end dec (omega arith) room) (
      prune-IsAscending _ (
        split_at-IsAscending r end (end + 1) (sub64 r.last.value dec) a (omega arith) (omega arith)
          (omega (arith, a.word))))
]

pub clear_and_reset_value-IsAscending :
    (r : RangeMap) (start val : ℕ) → val < 2 ^ 64 → IsAscending (clear_and_reset_value r start val)
unfolding clear_and_reset_value
clear_and_reset_value-IsAscending r start val h = record { word = h; below = tt }

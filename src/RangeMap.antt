-- ===== src/RangeMap.antt =====
-- pkg/sfu/utils/rangemap.go: values on ranges of keys, with excluded ranges between them.
-- Keys and values are uint64, as in every use under pkg/. The slice `ranges` is never empty after
-- `NewRangeMap`: `last` is its last range, which is open, and `earlier` the ones before it, the
-- newest first.
pub mod Lookup
pub mod Updates
pub mod Ascending
mod Examples
use voicekit.Prelude.{
  ℕ, ◌+◌, ◌-◌, ◌^◌, Bool, ◌&&◌, ◌||◌, Option, none, some, List, [], ◌∷◌, length, take, max, ltb,
  leb, ◌==◌, if◌then◌else◌, add64, sub64,
}

pub data Error : Type 0 where
  reversed_order key_not_found key_too_old key_excluded : Error

pub data Result : Type 0 where
  ok : ℕ → Result
  err : Error → Result

pub record RangeVal : Type 0 where
  pub start : ℕ
  pub end : ℕ
  pub value : ℕ

pub record RangeMap : Type 0 where
  pub size : ℕ
  pub earlier : List RangeVal
  pub last : RangeVal

abbrev pub min_ranges : ℕ
min_ranges = 1

-- `halfRange`, 1 << 63
abbrev pub half_range : ℕ
half_range = 2 ^ 63

abbrev pub open_range : ℕ → ℕ → RangeVal
open_range start value = record { start = start; end = 0; value = value }

-- `initRanges`
unfoldable pub clear_and_reset_value : RangeMap → ℕ → ℕ → RangeMap
clear_and_reset_value r start val = record r { earlier = []; last = open_range start val }

unfoldable pub new_range_map : ℕ → RangeMap
new_range_map size = record { size = max size min_ranges; earlier = []; last = open_range 0 0 }

-- Keeps the last `size + 1` ranges.
unfoldable pub prune : RangeMap → RangeMap
prune r =
    if ltb (r.size + 1) (length r.earlier + 1)
    then record r { earlier = take r.size r.earlier }
    else r

pub dec_value : RangeMap → ℕ → ℕ → RangeMap
dec_value r end dec =
    if ltb end r.last.start
    then record r { last = record (r.last) { value = sub64 r.last.value dec } }
    else prune (record r {
      earlier = record (r.last) { end = end } ∷ r.earlier;
      last = open_range (add64 end 1) (sub64 r.last.value dec);
    })

-- The error is the second part; a map that is returned beside one is unchanged.
unfoldable pub exclude_range : RangeMap → ℕ → ℕ → RangeMap × Option Error
exclude_range r start end =
    let new_value = add64 r.last.value (sub64 end start) in
    if end == start || ltb half_range (sub64 end start)
    then (r, some reversed_order)
    else if ltb start r.last.start
    then (r, some reversed_order)
    else if r.last.start == start
    then (record r { last = record (r.last) { start = end; value = new_value } }, none)
    else (
      prune (record r {
        earlier = record (r.last) { end = sub64 start 1 } ∷ r.earlier;
        last = open_range end new_value;
      }),
      none,
    )

-- The first range of the slice, where `cur` follows the ranges of the list.
abbrev pub oldest : RangeVal → List RangeVal → RangeVal
oldest cur [] = cur
oldest cur (p ∷ ps) = oldest p ps

abbrev pub is_excluded : ℕ → RangeVal → RangeVal → Bool
is_excluded key prev rv =
    let before_diff = sub64 key prev.end in
    let after_diff = sub64 rv.start key in
    ltb 0 before_diff && ltb before_diff half_range && ltb 0 after_diff && ltb after_diff half_range

abbrev pub is_within : ℕ → RangeVal → Bool
is_within key rv = ltb (sub64 key rv.start) half_range && ltb (sub64 rv.end key) half_range

-- The loop of `GetValue` from the range `rv` down, whose own keys were looked at.
unfoldable pub get_before : ℕ → RangeVal → List RangeVal → Result
get_before key rv [] = err key_not_found
get_before key rv (prev ∷ ps) =
    let rest = get_before key prev ps in
    if is_excluded key prev rv
    then err key_excluded
    else if is_within key prev
    then ok prev.value
    else rest

unfoldable pub get_value : RangeMap → ℕ → Result
unfolding get_before
get_value r key =
    if leb r.last.start key
    then ok r.last.value
    else if ltb key (oldest r.last r.earlier).start
    then err key_too_old
    else get_before key r.last r.earlier

-- ===== src/RangeMap/Examples.antt =====
-- Concrete runs of the range map, and the theorems at concrete inputs.
use voicekit.Prelude.{◌<◌, ◌≡◌, refl, arith, [], ◌∷◌, none, some, sub64}
use voicekit.RangeMap.{
  RangeMap, ok, err, key_excluded, key_too_old, reversed_order, get_value, exclude_range, dec_value,
}
use voicekit.RangeMap.Lookup.{IsValid, value_at, get_value-value_at}
use voicekit.RangeMap.Updates.{
  after_exclude, after_dec, get_value-exclude_range, get_value-dec_value,
}
use voicekit.RangeMap.Ascending.{IsAscending, get_value_mono, exclude_range-IsAscending}

-- 10 to 14 with offset 0, 15 and 16 excluded, and offset 2 from 17 on.
abbrev sample : RangeMap
sample = record {
  size = 2;
  earlier = record { start = 10; end = 14; value = 0 } ∷ [];
  last = record { start = 17; end = 0; value = 2 };
}

sample-IsValid : IsValid sample
sample-IsValid = omega arith

sample-IsAscending : IsAscending sample
sample-IsAscending = omega arith

sample_lookups :
    (get_value sample 9 ≡ err key_too_old)
    × (get_value sample 14 ≡ ok 0)
    × (get_value sample 16 ≡ err key_excluded)
    × (get_value sample 17 ≡ ok 2)
unfolding get_value
sample_lookups = (refl, refl, refl, refl)

exclude_reversed : (exclude_range sample 5 8).1 ≡ some reversed_order
unfolding exclude_range
exclude_reversed = refl

get_value-value_at_example : get_value sample 16 ≡ value_at sample 16
get_value-value_at_example = get_value-value_at sample 16 sample-IsValid

get_value-exclude_range_example :
    let (r', error) = exclude_range sample 20 23 in
    (error ≡ none)
    × IsValid r'
    × (get_value r' 25 ≡ after_exclude sample r' 20 23 25 (get_value sample 25))
get_value-exclude_range_example =
    get_value-exclude_range sample 20 23 25 sample-IsValid (omega arith) (omega arith) (omega arith)

get_value-dec_value_example :
    let r' = dec_value sample 20 1 in
    IsValid r' × (get_value r' 21 ≡ after_dec sample r' 20 1 21 (get_value sample 21))
get_value-dec_value_example = get_value-dec_value sample 20 1 21 sample-IsValid (omega arith)

get_value_mono_example : sub64 14 0 < sub64 17 2
get_value_mono_example =
    get_value_mono sample 14 17 0 2 sample-IsValid sample-IsAscending (omega arith) (omega arith)
      sample_lookups.1 sample_lookups.3

exclude_range-IsAscending_example : IsAscending (exclude_range sample 20 23).0
exclude_range-IsAscending_example =
    exclude_range-IsAscending sample 20 23 sample-IsAscending (omega arith) (omega arith)
      (omega arith) (omega arith)

-- ===== src/RangeMap/Updates.antt =====
-- pkg/sfu/utils/rangemap.go: `ExcludeRange` and `DecValue` keep the ranges in order, and change what
-- `GetValue` answers as intended.
use native.Mathlib.Decide.{dec_lt}
use mathlib.Core.Path.{subst}
use voicekit.Prelude.{
  ℕ, zero, suc, ◌+◌, ◌-◌, ◌≤◌, ◌<◌, ◌≡◌, refl, ◌∙◌, arith, List, [], ◌∷◌, length, leb, ltb, ◌&&◌,
  ◌||◌, if◌then◌else◌, take, length-take, none, sub64, add64, lt→leb_false, le→leb, lt→ltb,
  le→ltb_false,
}
use voicekit.RangeMap.{
  Result, ok, err, key_too_old, key_excluded, RangeVal, RangeMap, oldest, get_value, half_range,
  prune, exclude_range, dec_value, open_range, clear_and_reset_value,
}
use voicekit.RangeMap.Lookup.{
  IsChain, IsValid, find_value, find_value-too_old, oldest-le, value_at, get_value-value_at,
}

IsChain-take : (n next : ℕ) (ps : List RangeVal) → IsChain next ps → IsChain next (take n ps)
IsChain-take zero next ps c = tt
IsChain-take (suc n) next [] c = tt
IsChain-take (suc n) next (p ∷ ps) c = (c.0, c.1, IsChain-take n p.start ps c.2)

-- In order, but perhaps one range too many.
pub record IsLong (r : RangeMap) : Type 0 where
  pub chain : IsChain r.last.start r.earlier
  pub in_half : r.last.start < half_range
  pub some_room : 1 ≤ r.size

pub prune-IsValid : (r : RangeMap) → IsLong r → IsValid (prune r)
unfolding prune
prune-IsValid r v = elim (dec_lt (r.size + 1) (length r.earlier + 1)) [
  | yes h ↦ rw (lt→ltb _ _ h) (record {
    chain = IsChain-take r.size r.last.start r.earlier v.chain;
    in_half = v.in_half;
    bounded = omega (arith, length-take r.size r.earlier);
    some_room = v.some_room;
  })
  | no h ↦ rw (le→ltb_false (r.size + 1) (length r.earlier + 1) (omega arith)) (record {
    chain = v.chain;
    in_half = v.in_half;
    bounded = omega arith;
    some_room = v.some_room;
  })
]

-- Dropping ranges only makes keys too old.
find_value-take :
    (n key : ℕ) (cur : RangeVal) (ps : List RangeVal)
    → IsChain cur.start ps
    → key < cur.start
    → find_value key (take n ps)
      ≡ (if ltb key (oldest cur (take n ps)).start then err key_too_old else find_value key ps)
unfolding find_value
find_value-take zero key cur ps c h = ground arith
find_value-take (suc n) key cur [] c h = ground arith
find_value-take (suc n) key cur (p ∷ ps) c h = elim (dec_lt key p.start) [
  | yes low ↦ rw (lt→leb_false p.start key low) (find_value-take n key p ps c.2 low)
  | no high ↦ rw (
    le→leb p.start key (omega arith),
    le→ltb_false key (oldest p (take n ps)).start
        (omega (arith, oldest-le p (take n ps) (IsChain-take n p.start ps c.2))),
  )
]

value_at-prune :
    (r : RangeMap) (key : ℕ)
    → IsLong r
    → value_at (prune r) key ≡ (
        if ltb key (oldest (prune r).last (prune r).earlier).start
        then err key_too_old
        else value_at r key)
unfolding prune value_at
value_at-prune r key v = ground (
  arith,
  find_value-take r.size key r.last r.earlier v.chain,
  find_value-too_old key r.last r.earlier v.chain,
  oldest-le r.last r.earlier v.chain,
  oldest-le r.last (take r.size r.earlier) (IsChain-take r.size r.last.start r.earlier v.chain),
)

-- The map before it is pruned, where a new open range follows the last one.
abbrev pub split_at : RangeMap → ℕ → ℕ → ℕ → RangeMap
split_at r end start value = record r {
  earlier = record (r.last) { end = end } ∷ r.earlier;
  last = open_range start value;
}

split_at-IsLong :
    (r : RangeMap) (end start value : ℕ)
    → IsValid r
    → r.last.start ≤ end
    → end < start
    → start < half_range
    → IsLong (split_at r end start value)
split_at-IsLong r end start value v h h' room = record {
  chain = (h, h', v.chain);
  in_half = room;
  some_room = v.some_room;
}

abbrev pub moved : RangeMap → ℕ → ℕ → RangeMap
moved r start value = record r { last = record (r.last) { start = start; value = value } }

IsChain-mono : (s t : ℕ) (ps : List RangeVal) → s ≤ t → IsChain s ps → IsChain t ps
IsChain-mono s t [] h c = tt
IsChain-mono s t (p ∷ ps) h c = (c.0, omega arith, c.2)

moved-IsValid :
    (r : RangeMap) (start value : ℕ)
    → IsValid r
    → r.last.start ≤ start
    → start < half_range
    → IsValid (moved r start value)
moved-IsValid r start value v h room = record {
  chain = IsChain-mono r.last.start start r.earlier h v.chain;
  in_half = room;
  bounded = v.bounded;
  some_room = v.some_room;
}

pub exclude_range_moves :
    (r : RangeMap) (s e : ℕ)
    → r.last.start ≡ s
    → s < e
    → e < half_range
    → exclude_range r s e ≡ (moved r e (add64 r.last.value (e - s)), none)
unfolding exclude_range
exclude_range_moves r s e h lt room = ground arith

pub exclude_range_splits :
    (r : RangeMap) (s e : ℕ)
    → r.last.start < s
    → s < e
    → e < half_range
    → exclude_range r s e ≡ (prune (split_at r (s - 1) e (add64 r.last.value (e - s))), none)
unfolding exclude_range
exclude_range_splits r s e h lt room = ground arith

-- What `GetValue` answers after keys were excluded, by what it answered before.
abbrev pub after_exclude : RangeMap → RangeMap → ℕ → ℕ → ℕ → Result → Result
after_exclude r r' s e key before =
    if ltb key (oldest r'.last r'.earlier).start
    then err key_too_old
    else if leb e key
    then ok (add64 r.last.value (e - s))
    else if leb s key
    then err key_excluded
    else before

find_value-gap :
    (s e key : ℕ) (cur : RangeVal) (ps : List RangeVal)
    → IsChain s ps
    → cur.start ≡ e
    → s < e
    → key < e
    → find_value key ps ≡ (
        if ltb key (oldest cur ps).start
        then err key_too_old
        else if leb s key
        then err key_excluded
        else find_value key ps)
unfolding find_value
find_value-gap s e key cur [] c q h lt = ground arith
find_value-gap s e key cur (p ∷ ps) c q h lt =
    ground (arith, find_value-too_old key p ps c.2, oldest-le p ps c.2)

value_at-moved :
    (r : RangeMap) (s e key : ℕ)
    → IsValid r
    → r.last.start ≡ s
    → s < e
    → let r' = moved r e (add64 r.last.value (e - s)) in
      value_at r' key ≡ after_exclude r r' s e key (value_at r key)
unfolding value_at
value_at-moved r s e key v h lt =
    let c : IsChain s r.earlier = subst (λ t. IsChain t r.earlier) h v.chain in
    let cur : RangeVal = record (r.last) { start = e; value = add64 r.last.value (e - s) } in
    elim (dec_lt key e) [
      | yes low ↦
          rw (lt→leb_false e key low)
            (ground (arith, find_value-gap s e key cur r.earlier c refl lt low))
      | no high ↦ rw (
        le→leb e key (omega arith),
        le→ltb_false key (oldest cur r.earlier).start
            (omega (arith, oldest-le cur r.earlier (IsChain-mono s e r.earlier (omega arith) c))),
      )
    ]

value_at-split_at :
    (r : RangeMap) (s e key : ℕ)
    → IsValid r
    → r.last.start < s
    → s < e
    → let r' = split_at r (s - 1) e (add64 r.last.value (e - s)) in
      value_at r' key ≡ (
        if leb e key
        then ok (add64 r.last.value (e - s))
        else if leb s key
        then err key_excluded
        else value_at r key)
unfolding value_at find_value
value_at-split_at r s e key v h lt = ground arith

-- `ExcludeRange` of keys from the start of the open range on succeeds and keeps the ranges in order.
-- Afterwards the keys past the excluded ones have the last value plus their number, the excluded
-- keys are reported as excluded, the others keep their answer, and keys before the oldest range that
-- is kept are too old.
pub get_value-exclude_range :
    (r : RangeMap) (s e key : ℕ)
    → IsValid r
    → r.last.start ≤ s
    → s < e
    → e < half_range
    → let (r', error) = exclude_range r s e in
      (error ≡ none)
      × IsValid r'
      × (get_value r' key ≡ after_exclude r r' s e key (get_value r key))
get_value-exclude_range r s e key v h lt room =
    rw (get_value-value_at r key v) (elim (dec_lt r.last.start s) [
      | yes above ↦
          let long : IsLong (split_at r (s - 1) e (add64 r.last.value (e - s))) =
            split_at-IsLong r (s - 1) e (add64 r.last.value (e - s)) v (omega arith) (omega arith)
              room in
          rw (exclude_range_splits r s e above lt room) (
            refl,
            prune-IsValid _ long,
            get_value-value_at _ key (prune-IsValid _ long)
                ∙ value_at-prune _ key long
                ∙ rw (value_at-split_at r s e key v above lt),
          )
      | no same ↦
          let valid = moved-IsValid r e (add64 r.last.value (e - s)) v (omega arith) room in
          rw (exclude_range_moves r s e (omega arith) lt room) (
            refl,
            valid,
            get_value-value_at _ key valid ∙ value_at-moved r s e key v (omega arith) lt,
          )
    ])

-- `DecValue` closes the open range and starts one with a smaller value, where the open range starts
-- at or below `end`.
value_at-split_at_dec :
    (r : RangeMap) (end dec key : ℕ)
    → IsValid r
    → r.last.start ≤ end
    → value_at (split_at r end (end + 1) (sub64 r.last.value dec)) key
      ≡ (if ltb end key then ok (sub64 r.last.value dec) else value_at r key)
unfolding value_at find_value
value_at-split_at_dec r end dec key v h = ground arith

abbrev pub after_dec : RangeMap → RangeMap → ℕ → ℕ → ℕ → Result → Result
after_dec r r' end dec key before =
    if ltb key (oldest r'.last r'.earlier).start
    then err key_too_old
    else if leb r.last.start key && (ltb end key || ltb end r.last.start)
    then ok (sub64 r.last.value dec)
    else before

pub dec_value_lowers :
    (r : RangeMap) (end dec : ℕ)
    → end < r.last.start
    → dec_value r end dec ≡ moved r r.last.start (sub64 r.last.value dec)
unfolding dec_value
dec_value_lowers r end dec h = ground arith

pub dec_value_splits :
    (r : RangeMap) (end dec : ℕ)
    → r.last.start ≤ end
    → end + 1 < half_range
    → dec_value r end dec ≡ prune (split_at r end (end + 1) (sub64 r.last.value dec))
unfolding dec_value
dec_value_splits r end dec h room = ground arith

value_at-lowered :
    (r : RangeMap) (end dec key : ℕ)
    → IsValid r
    → end < r.last.start
    → let r' = moved r r.last.start (sub64 r.last.value dec) in
      value_at r' key ≡ after_dec r r' end dec key (value_at r key)
unfolding value_at
value_at-lowered r end dec key v h =
    let cur : RangeVal = record (r.last) { value = sub64 r.last.value dec } in
    ground (arith, find_value-too_old key cur r.earlier v.chain, oldest-le cur r.earlier v.chain)

-- `DecValue` keeps the ranges in order. Afterwards the keys of the open range past `end` have the
-- last value less `dec`, the others keep their answer, and keys before the oldest range that is kept
-- are too old.
pub get_value-dec_value :
    (r : RangeMap) (end dec key : ℕ)
    → IsValid r
    → end + 1 < half_range
    → let r' = dec_value r end dec in
      IsValid r' × (get_value r' key ≡ after_dec r r' end dec key (get_value r key))
get_value-dec_value r end dec key v room =
    rw (get_value-value_at r key v) (elim (dec_lt end r.last.start) [
      | yes low ↦
          let valid =
            moved-IsValid r r.last.start (sub64 r.last.value dec) v (omega arith) v.in_half in
          rw (dec_value_lowers r end dec low)
            (valid, get_value-value_at _ key valid ∙ value_at-lowered r end dec key v low)
      | no high ↦
          let long =
            split_at-IsLong r end (end + 1) (sub64 r.last.value dec) v (omega arith) (omega arith)
              room in
          rw (dec_value_splits r end dec (omega arith) room) (
            prune-IsValid _ long,
            get_value-value_at _ key (prune-IsValid _ long)
                ∙ value_at-prune _ key long
                ∙ rw (value_at-split_at_dec r end dec key v (omega arith)) (ground arith),
          )
    ])

-- `ClearAndResetValue` leaves one range, from `start` on.
pub get_value-clear_and_reset_value :
    (r : RangeMap) (start val key : ℕ)
    → IsValid r
    → start < half_range
    → let r' = clear_and_reset_value r start val in
      IsValid r' × (get_value r' key ≡ (if leb start key then ok val else err key_too_old))
unfolding clear_and_reset_value get_value
get_value-clear_and_reset_value r start val key v room = ground arith

-- Lemmas for the users of a map: what happens to its open range.
pub get_value-last :
    (r : RangeMap) (key : ℕ) → r.last.start ≤ key → get_value r key ≡ ok r.last.value
unfolding get_value
get_value-last r key h = rw (le→leb _ _ h)

last-prune : (r : RangeMap) → (prune r).last ≡ r.last
unfolding prune
last-prune r = ground arith

pub exclude_range-last :
    (r : RangeMap) (s e : ℕ)
    → r.last.start ≤ s
    → s < e
    → e < half_range
    → let (r', error) = exclude_range r s e in
      (r'.last.start ≡ e) × (r'.last.value ≡ add64 r.last.value (e - s))
exclude_range-last r s e h lt room = elim (dec_lt r.last.start s) [
  | yes above ↦ rw (exclude_range_splits r s e above lt room, last-prune) (refl, refl)
  | no same ↦ rw (exclude_range_moves r s e (omega arith) lt room) (refl, refl)
]

pub exclude_range-IsValid :
    (r : RangeMap) (s e : ℕ)
    → IsValid r
    → r.last.start ≤ s
    → s < e
    → e < half_range
    → IsValid (exclude_range r s e).0
exclude_range-IsValid r s e v h lt room = (get_value-exclude_range r s e 0 v h lt room).1

pub dec_value-last :
    (r : RangeMap) (end dec : ℕ)
    → end + 1 < half_range
    → r.last.start ≤ end + 1
    → let r' = dec_value r end dec in
      (r'.last.start ≡ end + 1) × (r'.last.value ≡ sub64 r.last.value dec)
dec_value-last r end dec room h = elim (dec_lt end r.last.start) [
  | yes low ↦ rw (dec_value_lowers r end dec low) (omega arith, refl)
  | no high ↦ rw (dec_value_splits r end dec (omega arith) room, last-prune) (refl, refl)
]

pub dec_value-IsValid :
    (r : RangeMap) (end dec : ℕ) → IsValid r → end + 1 < half_range → IsValid (dec_value r end dec)
dec_value-IsValid r end dec v room = (get_value-dec_value r end dec 0 v room).0

pub clear_and_reset_value-open :
    (r : RangeMap) (start val : ℕ)
    → IsValid r
    → start < half_range
    → let r' = clear_and_reset_value r start val in
      IsValid r' × (r'.last.start ≡ start) × (r'.last.value ≡ val)
unfolding clear_and_reset_value
clear_and_reset_value-open r start val v room = ground arith

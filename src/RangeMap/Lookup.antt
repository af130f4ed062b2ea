-- ===== src/RangeMap/Lookup.antt =====
-- pkg/sfu/utils/rangemap.go: what `GetValue` finds in a map whose ranges stand in order.
use voicekit.Prelude.{
  ℕ, ◌≤◌, ◌<◌, ◌≡◌, refl, arith, List, [], ◌∷◌, length, leb, if◌then◌else◌, lt→leb_false,
}
use voicekit.RangeMap.{
  Result, ok, err, key_too_old, key_excluded, RangeVal, RangeMap, oldest, get_before, get_value,
  half_range,
}

-- Closed ranges, the newest first, each of them in order and below the start of the one after it.
abbrev pub IsChain : ℕ → List RangeVal → Type 0
IsChain next [] = Unit {0}
IsChain next (p ∷ ps) = (p.start ≤ p.end) × (p.end < next) × IsChain p.start ps

pub record IsValid (r : RangeMap) : Type 0 where
  pub chain : IsChain r.last.start r.earlier
  pub in_half : r.last.start < half_range
  pub bounded : length r.earlier ≤ r.size
  pub some_room : 1 ≤ r.size

-- The value of a key by its definition: the newest range that starts at or below the key decides.
unfoldable pub find_value : ℕ → List RangeVal → Result
find_value key [] = err key_too_old
find_value key (p ∷ ps) =
    let rest = find_value key ps in
    if leb p.start key then (if leb key p.end then ok p.value else err key_excluded) else rest

unfoldable pub value_at : RangeMap → ℕ → Result
value_at r key = if leb r.last.start key then ok r.last.value else find_value key r.earlier

pub oldest-le :
    (cur : RangeVal) (ps : List RangeVal) → IsChain cur.start ps → (oldest cur ps).start ≤ cur.start
oldest-le cur [] c = omega arith
oldest-le cur (p ∷ ps) c = omega (arith, oldest-le p ps c.2)

below_start :
    (key : ℕ) (cur : RangeVal) (ps : List RangeVal)
    → IsChain cur.start ps
    → key < (oldest cur ps).start
    → key < cur.start
below_start key cur ps c h = omega (arith, oldest-le cur ps c)

pub find_value-too_old :
    (key : ℕ) (cur : RangeVal) (ps : List RangeVal)
    → IsChain cur.start ps
    → key < (oldest cur ps).start
    → find_value key ps ≡ err key_too_old
unfolding find_value
find_value-too_old key cur [] c h = refl
find_value-too_old key cur (p ∷ ps) c h =
    rw (lt→leb_false p.start key (below_start key p ps c.2 h)) (find_value-too_old key p ps c.2 h)

get_before-find_value :
    (key : ℕ) (rv : RangeVal) (ps : List RangeVal)
    → IsChain rv.start ps
    → rv.start < half_range
    → key < rv.start
    → (oldest rv ps).start ≤ key
    → get_before key rv ps ≡ find_value key ps
unfolding get_before find_value
get_before-find_value key rv [] c r h o = absurd (omega arith)
get_before-find_value key rv (p ∷ ps) c r h o = ground (arith, get_before-find_value key p ps)

-- On a map in order `GetValue` answers by the newest range that starts at or below the key: its
-- value where the range holds the key, `errKeyExcluded` past its end, and `errKeyTooOld` where there
-- is no such range.
pub get_value-value_at : (r : RangeMap) (key : ℕ) → IsValid r → get_value r key ≡ value_at r key
unfolding get_value value_at
get_value-value_at r key v =
    ground
      (arith, get_before-find_value key r.last r.earlier, find_value-too_old key r.last r.earlier)

-- ===== src/Vp8Munger/Unwrap.antt =====
-- pkg/sfu/codecmunger/vp8.go: VP8PictureIdWrapHandler, which extends 7-bit and 15-bit picture ids.
-- An int32 is its number modulo 2 ^ 32.
pub mod First
use voicekit.Prelude.{
  ℕ, ◌+◌, ◌-◌, ◌/◌, ◌%◌, ◌^◌, Bool, true, false, not, ◌&&◌, ltb, leb, ◌==◌, if◌then◌else◌, u32_mod,
}

abbrev pub add32 : ℕ → ℕ → ℕ
add32 a b = (a + b) % u32_mod

abbrev pub sub32 : ℕ → ℕ → ℕ
sub32 a b = (a + u32_mod - b) % u32_mod

-- `a < b` for int32.
abbrev pub lt32 : ℕ → ℕ → Bool
lt32 a b = ltb (add32 a (2 ^ 31)) (add32 b (2 ^ 31))

pub record WrapHandler : Type 0 where
  pub max_picture_id : ℕ
  pub max_m_bit : Bool
  pub total_wrap : ℕ
  pub last_wrap : ℕ

pub init : ℕ → Bool → WrapHandler
init ext_picture_id m_bit = record {
  max_picture_id = ext_picture_id;
  max_m_bit = m_bit;
  total_wrap = 0;
  last_wrap = 0;
}

abbrev pub is_wrapping7 : ℕ → ℕ → Bool
is_wrapping7 val1 val2 = lt32 val2 val1 && lt32 (2 ^ 6) (sub32 val1 val2)

abbrev pub is_wrapping15 : ℕ → ℕ → Bool
is_wrapping15 val1 val2 = lt32 val2 val1 && lt32 (2 ^ 14) (sub32 val1 val2)

-- The highest id in the width of its packet; it can be -1 at the start.
abbrev pub narrow_max : WrapHandler → ℕ
narrow_max w =
    if lt32 0 w.max_picture_id
    then if w.max_m_bit then w.max_picture_id % 2 ^ 15 else w.max_picture_id % 2 ^ 7
    else w.max_picture_id

abbrev pub wrap_of : WrapHandler → ℕ → ℕ
wrap_of w new =
    if w.max_m_bit
    then if is_wrapping15 (narrow_max w) new then 2 ^ 15 else 0
    else if is_wrapping7 (narrow_max w) new
    then 2 ^ 7
    else 0

abbrev pub add_wrap : WrapHandler → ℕ → ℕ → WrapHandler × ℕ
add_wrap w new wrap =
    let total = add32 w.total_wrap wrap in
    (
      record w { total_wrap = total; last_wrap = if wrap == 0 then w.last_wrap else wrap },
      add32 new total,
    )

-- The last wrap is not negative, so that its half is a quotient.
pub unwrap : WrapHandler → ℕ → Bool → WrapHandler × ℕ
unwrap w picture_id m_bit =
    let new = if m_bit then picture_id % 2 ^ 15 else picture_id % 2 ^ 7 in
    if lt32 0 w.total_wrap
      && lt32 (add32 w.max_picture_id (w.last_wrap / 2)) (add32 new w.total_wrap)
    then (w, sub32 (add32 new w.total_wrap) w.last_wrap)
    else add_wrap w new (wrap_of w new)

pub update_max_picture_id : WrapHandler → ℕ → Bool → WrapHandler
update_max_picture_id w ext_picture_id m_bit = record w {
  max_picture_id = ext_picture_id;
  max_m_bit = m_bit;
}

-- ===== src/VideoLayer.antt =====
-- pkg/sfu/buffer/videolayer.go: a spatial and a temporal layer, each an int32 with -1 for none.
use voicekit.Prelude.{Bool, not, ◌&&◌, ◌||◌}
use voicekit.Prelude.Int.{ℤ, pos, negsuc, ltb_ℤ, leb_ℤ, eqb_ℤ}

pub record VideoLayer : Type 0 where
  pub spatial : ℤ
  pub temporal : ℤ

-- `InvalidLayerSpatial` and `InvalidLayerTemporal`
abbrev pub invalid : ℤ
invalid = negsuc 0

abbrev pub invalid_layer : VideoLayer
invalid_layer = record { spatial = invalid; temporal = invalid }

abbrev pub default_max_layer : VideoLayer
default_max_layer = record { spatial = pos 2; temporal = pos 3 }

abbrev pub greater_than : VideoLayer → VideoLayer → Bool
greater_than v v2 =
    ltb_ℤ v2.spatial v.spatial || (eqb_ℤ v.spatial v2.spatial && ltb_ℤ v2.temporal v.temporal)

abbrev pub spatial_greater_than_or_equal : VideoLayer → VideoLayer → Bool
spatial_greater_than_or_equal v v2 = leb_ℤ v2.spatial v.spatial

abbrev pub is_valid : VideoLayer → Bool
is_valid v = not (eqb_ℤ v.spatial invalid) && not (eqb_ℤ v.temporal invalid)

-- `==` of the structs
abbrev pub eqb_layer : VideoLayer → VideoLayer → Bool
eqb_layer v v2 = eqb_ℤ v.spatial v2.spatial && eqb_ℤ v.temporal v2.temporal

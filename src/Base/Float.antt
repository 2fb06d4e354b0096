-- ===== src/Base/Float.antt =====
-- The float64 values as far as they are compared. A finite value is an integral multiple of 2^-1074,
-- and `finite n` is n times that; so comparisons are exact, and -0 and 0 are one value. Nothing is
-- computed with them.
use stream_analytics.Base.{Bool, true, false}
use stream_analytics.Base.Int.{ℤ, pos, ltb_ℤ, eq_ℤ}

pub data Float : Type 0 where
  nan pos_inf neg_inf : Float
  finite : ℤ → Float

abbrev pub zero_float : Float
zero_float = finite (pos 0)

-- `a < b`.
unfoldable pub ltb_float : Float → Float → Bool
ltb_float (finite a) (finite b) = ltb_ℤ a b
ltb_float (finite a) pos_inf = true
ltb_float neg_inf (finite b) = true
ltb_float neg_inf pos_inf = true
ltb_float _ _ = false

-- `a == b`.
unfoldable pub eq_float : Float → Float → Bool
eq_float (finite a) (finite b) = eq_ℤ a b
eq_float pos_inf pos_inf = true
eq_float neg_inf neg_inf = true
eq_float _ _ = false

unfoldable pub is_nan : Float → Bool
is_nan nan = true
is_nan _ = false

unfoldable pub is_inf : Float → Bool
is_inf pos_inf = true
is_inf neg_inf = true
is_inf _ = false

-- ===== src/Domain/Float.antt =====
-- The order of float64 values, from their bits: a sign, and a magnitude whose order is that of
-- the number its bits spell. A NaN is in no order with anything.
use llm_api_router.Prelude.{
  ℕ, ◌-◌, ◌^◌, ◌%◌, ◌*◌, ℤ, pos, negsuc, Bool, not, ◌&&◌, ◌||◌, ltb, ltb_ℤ, leb_ℤ, if◌then◌else◌,
  ◌==◌,
}
use llm_api_router.Domain.Rule.{Float64}

abbrev pub magnitude : Float64 → ℕ
magnitude x = x.bits % 2 ^ 63

abbrev pub is_nan : Float64 → Bool
is_nan x = ltb (2047 * 2 ^ 52) (magnitude x)

-- A key of the order: both zeros have the key 0.
unfoldable pub order_key : Float64 → ℤ
order_key x =
    if ltb x.bits (2 ^ 63) || magnitude x == 0 then pos (magnitude x) else negsuc (magnitude x - 1)

-- `x < y` and `x <= y`.
unfoldable pub float_lt : Float64 → Float64 → Bool
unfolding order_key
float_lt x y = not (is_nan x) && not (is_nan y) && ltb_ℤ (order_key x) (order_key y)

unfoldable pub float_le : Float64 → Float64 → Bool
unfolding order_key
float_le x y = not (is_nan x) && not (is_nan y) && leb_ℤ (order_key x) (order_key y)

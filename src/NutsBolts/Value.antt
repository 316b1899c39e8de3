-- ===== src/NutsBolts/Value.antt =====
-- grbl_nuts_bolts.c: the end of `read_float`, which makes a `float` of the integer and the exponent.
use ecmc_plugin_grbl.Base.{ℕ, zero, suc, if◌then◌else◌}
use ecmc_plugin_grbl.Base.Int.{ℤ, pos, negsuc}
use ecmc_plugin_grbl.Base.Float.{Float}
use ecmc_plugin_grbl.NutsBolts.{Number}

module _ (float : Float) where
  open float use {F, literal, mul, neg, eq, of_int}

  -- `while (exp <= -2)` and `if (exp < 0)`, for the exponent -n.
  unfoldable pub scale_down : ℕ → F → F
  scale_down zero fval = fval
  scale_down (suc zero) fval = mul fval (literal 1 10)
  scale_down (suc (suc n)) fval = scale_down n (mul fval (literal 1 100))

  -- `do fval *= 10.0 while (--exp > 0)`
  unfoldable pub scale_up : ℕ → F → F
  scale_up zero fval = fval
  scale_up (suc n) fval = scale_up n (mul fval (literal 10 1))

  unfoldable pub scale_decimal : ℤ → F → F
  unfolding scale_down scale_up
  scale_decimal (pos n) fval = scale_up n fval
  scale_decimal (negsuc n) fval = scale_down (suc n) fval

  unfoldable pub float_value : Number → F
  unfolding scale_decimal
  float_value n =
      let fval = of_int (pos n.intval) in
      let scaled = if eq fval (literal 0 1) then fval else scale_decimal n.exp fval in
      if n.isnegative then neg scaled else scaled

-- ===== src/Base/Float.antt =====
-- The `float` type and the operations that the source uses of it, as a parameter. Its values are
-- the floats without NaN. Laws are assumed where they are used.
use Prim.Native.Nat.{ℕ}
use mathlib.Core.Bool.{Bool}
use ecmc_plugin_grbl.Base.Int.{ℤ}

pub record Float : Type 1 where
  pub F : Type 0
  -- `literal n d` is the constant n / d.
  pub literal : ℕ → ℕ → F
  pub add : F → F → F
  pub sub : F → F → F
  pub mul : F → F → F
  pub div : F → F → F
  pub neg : F → F
  pub fabs : F → F
  pub sqrt : F → F
  pub lt : F → F → Bool
  pub eq : F → F → Bool
  -- equality of the bytes, as `memcmp` sees it
  pub same_bytes : F → F → Bool
  -- `(uint8_t) trunc(x)`, `(int32_t) trunc(x)` and `lround(x)`, and the conversion of an integer
  pub to_uint8 : F → ℕ
  pub to_int32 : F → ℤ
  pub lround : F → ℤ
  pub of_int : ℤ → F

-- An array with a value for each of the axes X, Y and Z.
pub record Vec3 (A : Type 0) : Type 0 where
  pub x : A
  pub y : A
  pub z : A

abbrev pub vec3 : {A : Type 0} → A → A → A → Vec3 A
vec3 a b c = record { x = a; y = b; z = c }

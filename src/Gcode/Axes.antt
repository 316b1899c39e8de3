-- ===== src/Gcode/Axes.antt =====
-- grbl_gcode.c: what `gc_execute_line` does to a value of each axis, and to the axes of a plane.
use ecmc_plugin_grbl.Base.{Bool, ◌||◌, ◌&&◌, if◌then◌else◌}
use ecmc_plugin_grbl.Base.Float.{Float, Vec3, vec3}
use ecmc_plugin_grbl.Gcode.{Plane, xy, zx, yz}

module _ {A : Type 0} where
  -- The first value on the axes whose word is given, the second on the others.
  abbrev pub choose : Vec3 Bool → Vec3 A → Vec3 A → Vec3 A
  choose words given other =
      vec3 (if words.x then given.x else other.x) (if words.y then given.y else other.y)
        (if words.z then given.z else other.z)

  -- The axes of a plane: `axis_0` and `axis_1`
  abbrev pub axis_0 : Plane → Vec3 A → A
  axis_0 xy v = v.x
  axis_0 zx v = v.z
  axis_0 yz v = v.y

  abbrev pub axis_1 : Plane → Vec3 A → A
  axis_1 xy v = v.y
  axis_1 zx v = v.x
  axis_1 yz v = v.z

  abbrev pub set_plane : Plane → A → A → Vec3 A → Vec3 A
  set_plane xy a b v = vec3 a b v.z
  set_plane zx a b v = vec3 b v.y a
  set_plane yz a b v = vec3 v.x a b

abbrev pub in_plane : Plane → Vec3 Bool → Bool
in_plane plane words = axis_0 plane words || axis_1 plane words

module _ (float : Float) where
  open float use {F, literal, add, sub, mul, same_bytes}

  abbrev pub vec_add : Vec3 F → Vec3 F → Vec3 F
  vec_add a b = vec3 (add a.x b.x) (add a.y b.y) (add a.z b.z)

  abbrev pub vec_sub : Vec3 F → Vec3 F → Vec3 F
  vec_sub a b = vec3 (sub a.x b.x) (sub a.y b.y) (sub a.z b.z)

  -- The tool length offset stands on the axis Z.
  abbrev pub add_tool_length : F → Vec3 F → Vec3 F
  add_tool_length offset v = record v { z = add v.z offset }

  abbrev pub sub_tool_length : F → Vec3 F → Vec3 F
  sub_tool_length offset v = record v { z = sub v.z offset }

  abbrev pub mm_per_inch : F
  mm_per_inch = literal 254 10

  -- A value in inches on the axes whose word is given, in mm.
  abbrev pub to_mm : Vec3 Bool → Vec3 F → Vec3 F
  to_mm words v =
      choose words (vec3 (mul v.x mm_per_inch) (mul v.y mm_per_inch) (mul v.z mm_per_inch)) v

  abbrev pub isequal_position_vector : Vec3 F → Vec3 F → Bool
  isequal_position_vector a b = same_bytes a.x b.x && same_bytes a.y b.y && same_bytes a.z b.z

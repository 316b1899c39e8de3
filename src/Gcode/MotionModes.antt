-- ===== src/Gcode/MotionModes.antt =====
-- grbl_gcode.c, STEP 3 of `gc_execute_line`: the checks of the motion modes. An arc ends with its radius
-- and with the offset of its center, whichever of them the block gives.
use ecmc_plugin_grbl.Base.{Bool, true, false, not, ◌||◌, ◌&&◌, [], ◌∷◌, if◌then◌else◌}
use ecmc_plugin_grbl.Base.Float.{Float}
use ecmc_plugin_grbl.Status.{
  gcode_undefined_feed_rate, gcode_axis_words_exist, gcode_no_axis_words,
  gcode_no_axis_words_in_plane, gcode_invalid_target, gcode_arc_radius_error,
  gcode_no_offsets_in_plane,
}
use ecmc_plugin_grbl.Gcode.{
  Motion, seek, linear, cw_arc, ccw_arc, probe_toward_no_error, probe_away, probe_away_no_error,
  no_motion, AxisCommand, ParserState, ParserBlock,
}
use ecmc_plugin_grbl.Gcode.Bits.{has, unmark, any_axis, word_i, word_j, word_k, word_r}
use ecmc_plugin_grbl.Gcode.Axes.{
  axis_0, axis_1, set_plane, in_plane, mm_per_inch, to_mm, isequal_position_vector,
}
use ecmc_plugin_grbl.Gcode.Checks.{is_motion_mode}
use ecmc_plugin_grbl.Gcode.Result.{Result, done, fail_if}

abbrev pub is_no_motion : Motion → Bool
is_no_motion no_motion = true
is_no_motion _ = false

abbrev pub is_cw_arc : Motion → Bool
is_cw_arc cw_arc = true
is_cw_arc _ = false

abbrev is_ccw_arc : Motion → Bool
is_ccw_arc ccw_arc = true
is_ccw_arc _ = false

abbrev is_no_error : Motion → Bool
is_no_error probe_toward_no_error = true
is_no_error probe_away_no_error = true
is_no_error _ = false

abbrev is_away : Motion → Bool
is_away probe_away = true
is_away probe_away_no_error = true
is_away _ = false

-- A straight motion without axis words is not executed.
abbrev straight_motion : {F : Type 0} → ParserBlock F → ParserBlock F
straight_motion b =
    if any_axis b.axis_words then b else record b { axis_command = AxisCommand.none }

module _ (float : Float) where
  open float use {F, literal, add, sub, mul, div, neg, fabs, sqrt, lt, eq}

  abbrev pub hypot_f : F → F → F
  hypot_f x y = sqrt (add (mul x x) (mul y y))

  -- 4 r² - x² - y², of which the root gives the distance of the center from the chord.
  abbrev pub h_x2_sqr : F → F → F → F
  h_x2_sqr r x y = sub (sub (mul (mul (literal 4 1) r) r) (mul x x)) (mul y y)

  -- `h_x2_div_d`, with the signs for the direction and for a negative radius.
  abbrev pub h_x2_div_d : Motion → F → F → F → F
  h_x2_div_d motion r x y =
      let h = div (neg (sqrt (h_x2_sqr r x y))) (hypot_f x y) in
      let turned = if is_ccw_arc motion then neg h else h in
      if lt r (literal 0 1) then neg turned else turned

  -- Arc Radius Mode
  unfoldable pub check_radius_arc : F → F → ParserState F → ParserBlock F → Result (ParserBlock F)
  check_radius_arc x y gc b =
      let v = b.values in
      let plane = b.modal.plane_select in
      let r = if b.modal.units then mul v.r (mm_per_inch float) else v.r in
      let h = h_x2_div_d b.modal.motion r x y in
      let i = mul (literal 1 2) (sub x (mul y h)) in
      let j = mul (literal 1 2) (add y (mul x h)) in
      fail_if (isequal_position_vector float gc.position v.xyz) gcode_invalid_target (
        fail_if (lt (h_x2_sqr r x y) (literal 0 1)) gcode_arc_radius_error (
          done (record b {
            value_words = unmark (word_r ∷ []) b.value_words;
            values = record v {
              r = if lt r (literal 0 1) then neg r else r;
              ijk = set_plane plane i j v.ijk;
            };
          })))

  -- Whether the distances of both ends from the center differ by too much.
  abbrev pub radii_differ : F → F → Bool
  radii_differ target_r r =
      let delta_r = fabs (sub target_r r) in
      lt (literal 5 1000) delta_r
      && (lt (literal 1 2) delta_r || lt (mul (literal 1 1000) r) delta_r)

  -- Arc Center Format Offset Mode
  unfoldable pub check_offset_arc : F → F → ParserBlock F → Result (ParserBlock F)
  check_offset_arc x y b =
      let v = b.values in
      let plane = b.modal.plane_select in
      let ijk = if b.modal.units then to_mm float b.ijk_words v.ijk else v.ijk in
      let i = axis_0 plane ijk in
      let j = axis_1 plane ijk in
      fail_if (not (in_plane plane b.ijk_words)) gcode_no_offsets_in_plane (
        fail_if (radii_differ (hypot_f (sub x i) (sub y j)) (hypot_f i j)) gcode_invalid_target (
          done (record b {
            value_words = unmark (word_i ∷ word_j ∷ word_k ∷ []) b.value_words;
            values = record v { ijk = ijk; r = hypot_f i j };
          })))

  -- `case MOTION_MODE_CW_ARC` and `case MOTION_MODE_CCW_ARC`
  unfoldable pub check_arc : ParserState F → ParserBlock F → Result (ParserBlock F)
  unfolding check_radius_arc check_offset_arc
  check_arc gc b =
      let plane = b.modal.plane_select in
      let x = sub (axis_0 plane b.values.xyz) (axis_0 plane gc.position) in
      let y = sub (axis_1 plane b.values.xyz) (axis_1 plane gc.position) in
      let turning : ParserBlock F = record b {
        flags = record b.flags { arc_is_clockwise = is_cw_arc b.modal.motion };
      } in
      fail_if (not (any_axis b.axis_words)) gcode_no_axis_words (
        fail_if (not (in_plane plane b.axis_words)) gcode_no_axis_words_in_plane (
          if has b.value_words word_r
          then check_radius_arc x y gc turning
          else check_offset_arc x y turning))

  -- `case MOTION_MODE_PROBE_TOWARD` and the other three probe modes
  unfoldable pub check_probe : ParserState F → ParserBlock F → Result (ParserBlock F)
  check_probe gc b = fail_if (not (any_axis b.axis_words)) gcode_no_axis_words (
      fail_if (isequal_position_vector float gc.position b.values.xyz) gcode_invalid_target (
        done (record b {
          flags = record b.flags {
            probe_is_no_error = is_no_error b.modal.motion;
            probe_is_away = is_away b.modal.motion;
          };
        })))

  -- The motion modes that need a feed rate.
  unfoldable pub check_feed_motion : Motion → ParserState F → ParserBlock F → Result (ParserBlock F)
  unfolding check_arc check_probe
  check_feed_motion linear gc b = done (straight_motion b)
  check_feed_motion cw_arc gc b = check_arc gc b
  check_feed_motion ccw_arc gc b = check_arc gc b
  check_feed_motion _ gc b = check_probe gc b

  -- The motion modes of a block with the axis command of a motion.
  unfoldable pub check_motion_mode : Motion → ParserState F → ParserBlock F → Result (ParserBlock F)
  unfolding check_feed_motion
  check_motion_mode seek gc b = done (straight_motion b)
  check_motion_mode motion gc b =
      fail_if (eq b.values.f (literal 0 1)) gcode_undefined_feed_rate
        (check_feed_motion motion gc b)

  -- [20. Motion modes ]
  unfoldable pub check_motion : ParserState F → ParserBlock F → Result (ParserBlock F)
  unfolding check_motion_mode
  check_motion gc b = elim b.modal.motion [
    | no_motion ↦ fail_if (any_axis b.axis_words) gcode_axis_words_exist (done b)
    | motion ↦ if is_motion_mode b.axis_command then check_motion_mode motion gc b else done b
  ]

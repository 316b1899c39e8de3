-- ===== src/Gcode/Offsets.antt =====
-- grbl_gcode.c, STEP 3 of `gc_execute_line`: the coordinate system, the non-modal commands that use axis
-- words, and the target of a motion.
use ecmc_plugin_grbl.Base.{
  ℕ, ◌-◌, Bool, true, false, not, ◌||◌, ◌&&◌, [], ◌∷◌, ltb, ◌==◌, if◌then◌else◌,
}
use ecmc_plugin_grbl.Base.Float.{Float, Vec3}
use ecmc_plugin_grbl.Settings.{Config, Bytes, read_coord_data, n_coordinate_system}
use ecmc_plugin_grbl.Status.{
  setting_read_fail, gcode_unsupported_coord_sys, gcode_no_axis_words, gcode_value_word_missing,
  gcode_unsupported_command, gcode_g53_invalid_motion_mode,
}
use ecmc_plugin_grbl.Gcode.{
  Motion, seek, linear, NonModal, go_home_0, go_home_1, absolute_override, set_coordinate_data,
  set_coordinate_offset, AxisCommand, ParserState, ParserBlock,
}
use ecmc_plugin_grbl.Gcode.Bits.{has, unmark, any_axis, group_g12, word_l, word_p, word_r}
use ecmc_plugin_grbl.Gcode.Axes.{choose, vec_add, vec_sub, add_tool_length, sub_tool_length}
use ecmc_plugin_grbl.Gcode.Checks.{is_tool_length}
use ecmc_plugin_grbl.Gcode.Result.{Result, done, fail, fail_with}

-- SETTING_INDEX_G28 and SETTING_INDEX_G30
abbrev pub setting_index_g28 : ℕ
setting_index_g28 = n_coordinate_system

abbrev pub setting_index_g30 : ℕ
setting_index_g30 = 7

abbrev pub is_absolute_override : NonModal → Bool
is_absolute_override absolute_override = true
is_absolute_override _ = false

abbrev pub is_straight : Motion → Bool
is_straight seek = true
is_straight linear = true
is_straight _ = false

module _ (float : Float) (bytes : Bytes (float.F)) where
  open float use {F, literal, to_uint8}

  abbrev Checked : Type 0
  Checked = Result (ParserBlock F) × Config F

  -- `settings_read_coord_data` with its failure
  unfoldable pub read_coords : ℕ → Config F → (Vec3 F → ParserBlock F) → Checked
  read_coords coord_select c use_coords =
      let (valid, coords, c') = read_coord_data bytes (literal 0 1) coord_select c in
      if valid then (done (use_coords coords), c') else (fail setting_read_fail, c')

  abbrev pub with_coord_system : ParserBlock F → Vec3 F → ParserBlock F
  with_coord_system b coords = record b { block_coord_system = coords }

  -- [15. Coordinate system selection ]
  unfoldable pub check_coord_system : ParserState F → ParserBlock F → Config F → Checked
  unfolding read_coords
  check_coord_system gc b c =
      if has b.command_words group_g12
      then fail_with (ltb n_coordinate_system b.modal.coord_select) gcode_unsupported_coord_sys c (
          if gc.modal.coord_select == b.modal.coord_select
          then (done b, c)
          else read_coords b.modal.coord_select c (with_coord_system b))
      else (done b, c)

  -- The new data of a coordinate system: from the words, and from what is stored for the other axes.
  abbrev pub coordinate_data : ParserState F → ParserBlock F → Vec3 F → Vec3 F
  coordinate_data gc b stored =
      let here = vec_sub float (vec_sub float gc.position gc.coord_offset) b.values.xyz in
      choose b.axis_words
        (if b.values.l == 20
          then sub_tool_length float gc.tool_length_offset here
          else b.values.xyz)
        stored

  abbrev pub with_coordinate_data : ParserState F → ParserBlock F → ℕ → Vec3 F → ParserBlock F
  with_coordinate_data gc b coord_select stored = record b {
    value_words = unmark (word_l ∷ word_p ∷ []) b.value_words;
    coord_select = coord_select;
    values = record b.values { ijk = coordinate_data gc b stored };
  }

  -- `case NON_MODAL_SET_COORDINATE_DATA`
  unfoldable pub check_coordinate_data : ParserState F → ParserBlock F → Config F → Checked
  unfolding read_coords
  check_coordinate_data gc b c =
      let p = to_uint8 b.values.p in
      let l = b.values.l in
      let coord_select = if ltb 0 p then p - 1 else b.modal.coord_select in
      fail_with (not (any_axis b.axis_words)) gcode_no_axis_words c (
        fail_with (not (has b.value_words word_p || has b.value_words word_l))
          gcode_value_word_missing c
          (fail_with (ltb n_coordinate_system p) gcode_unsupported_coord_sys c (
            fail_with (not (l == 20) && (not (l == 2) || has b.value_words word_r))
              gcode_unsupported_command c
              (read_coords coord_select c (with_coordinate_data gc b coord_select)))))

  -- `case NON_MODAL_SET_COORDINATE_OFFSET`
  abbrev pub coordinate_offset : ParserState F → ParserBlock F → Vec3 F
  coordinate_offset gc b =
      choose b.axis_words
        (sub_tool_length float gc.tool_length_offset
          (vec_sub float (vec_sub float gc.position b.block_coord_system) b.values.xyz))
        gc.coord_offset

  -- The target of a motion, from the words and the distance mode.
  abbrev pub target : ParserState F → ParserBlock F → Vec3 F
  target gc b =
      choose b.axis_words
        (if is_absolute_override b.non_modal_command
          then b.values.xyz
          else if b.modal.distance
          then vec_add float b.values.xyz gc.position
          else add_tool_length float gc.tool_length_offset
              (vec_add float b.values.xyz (vec_add float b.block_coord_system gc.coord_offset)))
        gc.position

  unfoldable pub pre_compute_target : ParserState F → ParserBlock F → ParserBlock F
  pre_compute_target gc b =
      if not (is_tool_length b.axis_command) && any_axis b.axis_words
      then record b { values = record b.values { xyz = target gc b } }
      else b

  -- Only the axes whose word is given move home, or else all.
  abbrev pub with_home : ParserState F → ParserBlock F → Vec3 F → ParserBlock F
  with_home gc b home =
      if any_axis b.axis_words
      then record b { values = record b.values { ijk = choose b.axis_words home gc.position } }
      else record b { values = record b.values { ijk = home }; axis_command = AxisCommand.none }

  -- `case NON_MODAL_GO_HOME_0` and `case NON_MODAL_GO_HOME_1`, with the index of their position.
  unfoldable pub check_go_home : ℕ → ParserState F → ParserBlock F → Config F → Checked
  unfolding read_coords
  check_go_home index gc b c = read_coords index c (with_home gc b)

  -- [19. Remaining non-modal actions ]
  unfoldable pub check_non_modal : ParserState F → ParserBlock F → Config F → Checked
  unfolding check_coordinate_data pre_compute_target check_go_home
  check_non_modal gc b c =
      let moved = pre_compute_target gc b in
      elim b.non_modal_command [
        | set_coordinate_data ↦ check_coordinate_data gc b c
        | set_coordinate_offset ↦
            fail_with (not (any_axis b.axis_words)) gcode_no_axis_words c
              (done (record b { values = record b.values { xyz = coordinate_offset gc b } }), c)
        | go_home_0 ↦ check_go_home setting_index_g28 gc moved c
        | go_home_1 ↦ check_go_home setting_index_g30 gc moved c
        | absolute_override ↦
            fail_with (not (is_straight b.modal.motion)) gcode_g53_invalid_motion_mode c
              (done moved, c)
        | _ ↦ (done moved, c)
      ]

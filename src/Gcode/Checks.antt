-- ===== src/Gcode/Checks.antt =====
-- grbl_gcode.c, STEP 3 of `gc_execute_line`: the checks of the feed rate, the dwell, the units and the
-- tool length, and at the end the check for words that nothing uses.
use ecmc_plugin_grbl.Base.{Bool, true, false, not, ◌||◌, ◌&&◌, ◌∷◌, [], if◌then◌else◌}
use ecmc_plugin_grbl.Base.Float.{Float}
use ecmc_plugin_grbl.Status.{
  gcode_undefined_feed_rate, gcode_value_word_missing, gcode_g43_dynamic_axis_error,
  gcode_unused_words,
}
use ecmc_plugin_grbl.Gcode.{
  Motion, NonModal, AxisCommand, ParserState, ParserBlock, seek, no_motion, dwell,
}
use ecmc_plugin_grbl.Gcode.Bits.{
  has, unmark, any, any_axis, word_f, word_n, word_p, word_s, word_t, word_x, word_y, word_z,
}
use ecmc_plugin_grbl.Gcode.Axes.{mm_per_inch, to_mm}
use ecmc_plugin_grbl.Gcode.Commands.{has_axis_command}
use ecmc_plugin_grbl.Gcode.Result.{Result, done, fail_if}

-- `axis_command == AXIS_COMMAND_MOTION_MODE` and `axis_command == AXIS_COMMAND_TOOL_LENGTH_OFFSET`
abbrev pub is_motion_mode : AxisCommand → Bool
is_motion_mode AxisCommand.motion_mode = true
is_motion_mode _ = false

abbrev pub is_tool_length : AxisCommand → Bool
is_tool_length AxisCommand.tool_length_offset = true
is_tool_length _ = false

abbrev pub needs_feed_rate : Motion → Bool
needs_feed_rate seek = false
needs_feed_rate no_motion = false
needs_feed_rate _ = true

abbrev pub is_dwell : NonModal → Bool
is_dwell dwell = true
is_dwell _ = false

-- [0.]: axis words without an axis command belong to the motion mode.
unfoldable pub implicit_axis_command : {F : Type 0} → ParserBlock F → ParserBlock F
implicit_axis_command b =
    if any_axis b.axis_words && not (has_axis_command b.axis_command)
    then record b { axis_command = AxisCommand.motion_mode }
    else b

module _ (float : Float) where
  open float use {F, mul}

  abbrev set_f : F → ParserBlock F → ParserBlock F
  set_f f b = record b { values = record b.values { f = f } }

  abbrev f_to_mm : ParserBlock F → ParserBlock F
  f_to_mm b = if b.modal.units then set_f (mul b.values.f (mm_per_inch float)) b else b

  -- [2. Set feed rate mode ] and [3. Set feed rate ]
  unfoldable pub check_feed_rate : ParserState F → ParserBlock F → Result (ParserBlock F)
  check_feed_rate gc b =
      if b.flags.jog_motion
      then fail_if (not (has b.value_words word_f)) gcode_undefined_feed_rate (done (f_to_mm b))
      else if b.modal.feed_rate
      then fail_if
          (is_motion_mode b.axis_command
            && needs_feed_rate b.modal.motion
            && not (has b.value_words word_f))
          gcode_undefined_feed_rate (done b)
      else if gc.modal.feed_rate
      then done b
      else if has b.value_words word_f
      then done (f_to_mm b)
      else done (set_f gc.feed_rate b)

  -- [4. Set spindle speed ]
  unfoldable pub spindle_speed : ParserState F → ParserBlock F → ParserBlock F
  spindle_speed gc b =
      if has b.value_words word_s
      then b
      else record b { values = record b.values { s = gc.spindle_speed } }

  -- [10. Dwell ]
  unfoldable pub check_dwell : ParserBlock F → Result (ParserBlock F)
  check_dwell b =
      if is_dwell b.non_modal_command
      then fail_if (not (has b.value_words word_p)) gcode_value_word_missing
          (done (record b { value_words = unmark (word_p ∷ []) b.value_words }))
      else done b

  -- [12. Set length units ]
  unfoldable pub convert_units : ParserBlock F → ParserBlock F
  convert_units b =
      if b.modal.units
      then record b { values = record b.values { xyz = to_mm float b.axis_words b.values.xyz } }
      else b

  -- [14. Cutter length compensation ]: `axis_words ^ (1<<TOOL_LENGTH_OFFSET_AXIS)`
  unfoldable pub check_tool_length : ParserBlock F → Result (ParserBlock F)
  check_tool_length b =
      let words = b.axis_words in
      fail_if
        (is_tool_length b.axis_command
          && b.modal.tool_length
          && (words.x || words.y || not words.z))
        gcode_g43_dynamic_axis_error (done b)

-- The words that a block may have left, and the check that there are no others.
abbrev pub used_words : {F : Type 0} → ParserBlock F → ParserBlock F
used_words b =
    let single =
      if b.flags.jog_motion
      then unmark (word_n ∷ word_f ∷ []) b.value_words
      else unmark (word_n ∷ word_f ∷ word_s ∷ word_t ∷ []) b.value_words in
    record b {
      value_words =
          if has_axis_command b.axis_command
          then unmark (word_x ∷ word_y ∷ word_z ∷ []) single
          else single;
    }

unfoldable pub check_unused : {F : Type 0} → ParserBlock F → Result (ParserBlock F)
check_unused b = fail_if (any (used_words b).value_words) gcode_unused_words (done (used_words b))

-- ===== src/Gcode/Commands.antt =====
-- grbl_gcode.c, STEP 2 of `gc_execute_line`: the `G` words, which set a mode or a command of the block.
use ecmc_plugin_grbl.Base.{ℕ, ◌-◌, Bool, true, false, not, ◌||◌, ◌&&◌, leb, ◌==◌, if◌then◌else◌}
use ecmc_plugin_grbl.Status.{gcode_unsupported_command, gcode_axis_command_conflict}
use ecmc_plugin_grbl.Gcode.{Motion, NonModal, Plane, AxisCommand, Modal, ParserBlock}
use ecmc_plugin_grbl.Gcode.Bits.{
  group_g0, group_g1, group_g2, group_g3, group_g4, group_g5, group_g6, group_g7, group_g8,
  group_g12, group_g13,
}
use ecmc_plugin_grbl.Gcode.Result.{Result, done, fail, fail_if}

-- `if (axis_command)`
abbrev pub has_axis_command : AxisCommand → Bool
has_axis_command AxisCommand.none = false
has_axis_command _ = true

-- A command that is accepted: its modal group, and what is left of its mantissa.
pub record Command (F : Type 0) : Type 0 where
  pub word_bit : ℕ
  pub mantissa : ℕ
  pub block : ParserBlock F

module _ {F : Type 0} where
  abbrev command : ℕ → ℕ → ParserBlock F → Result (Command F)
  command word_bit mantissa b =
      done (record { word_bit = word_bit; mantissa = mantissa; block = b })

  abbrev mode : ℕ → ℕ → Modal → ParserBlock F → Result (Command F)
  mode word_bit mantissa modal b = command word_bit mantissa (record b { modal = modal })

  -- `case 28`, `case 30` and `case 92`: the command is the integer, and the integer with the mantissa.
  abbrev with_mantissa : ℕ → NonModal → NonModal → ParserBlock F → Result (Command F)
  with_mantissa mantissa plain other b =
      if mantissa == 0
      then command group_g0 0 (record b { non_modal_command = plain })
      else if mantissa == 10
      then command group_g0 0 (record b { non_modal_command = other })
      else fail gcode_unsupported_command

  -- `case 4` and `case 53`, into which the cases of G10, G28, G30 and G92 fall.
  unfoldable pub non_modal_word : ℕ → ℕ → ParserBlock F → Result (Command F)
  non_modal_word int_value mantissa b =
      if int_value == 28
      then with_mantissa mantissa NonModal.go_home_0 NonModal.set_home_0 b
      else if int_value == 30
      then with_mantissa mantissa NonModal.go_home_1 NonModal.set_home_1 b
      else if int_value == 92
      then with_mantissa mantissa NonModal.set_coordinate_offset NonModal.reset_coordinate_offset b
      else if int_value == 10
      then command group_g0 mantissa (record b { non_modal_command = NonModal.set_coordinate_data })
      else if int_value == 53
      then command group_g0 mantissa (record b { non_modal_command = NonModal.absolute_override })
      else command group_g0 mantissa (record b { non_modal_command = NonModal.dwell })

  abbrev set_motion : Motion → ParserBlock F → ParserBlock F
  set_motion m b = record b { modal = record b.modal { motion = m } }

  -- `case 80`, into which the cases of G0, G1, G2, G3 and G38 fall.
  unfoldable pub motion_word : ℕ → ℕ → ParserBlock F → Result (Command F)
  motion_word int_value mantissa b =
      if int_value == 38
      then (if mantissa == 20
          then command group_g1 0 (set_motion Motion.probe_toward b)
          else if mantissa == 30
          then command group_g1 0 (set_motion Motion.probe_toward_no_error b)
          else if mantissa == 40
          then command group_g1 0 (set_motion Motion.probe_away b)
          else if mantissa == 50
          then command group_g1 0 (set_motion Motion.probe_away_no_error b)
          else fail gcode_unsupported_command)
      else if int_value == 0
      then command group_g1 mantissa (set_motion Motion.seek b)
      else if int_value == 1
      then command group_g1 mantissa (set_motion Motion.linear b)
      else if int_value == 2
      then command group_g1 mantissa (set_motion Motion.cw_arc b)
      else if int_value == 3
      then command group_g1 mantissa (set_motion Motion.ccw_arc b)
      else command group_g1 mantissa (set_motion Motion.no_motion b)

  -- `case 43` and `case 49`
  unfoldable pub tool_length_word : ℕ → ℕ → ParserBlock F → Result (Command F)
  tool_length_word int_value mantissa b =
      let taken : ParserBlock F = record b { axis_command = AxisCommand.tool_length_offset } in
      fail_if (has_axis_command b.axis_command) gcode_axis_command_conflict (
        if int_value == 49
        then mode group_g8 0 (record b.modal { tool_length = false }) taken
        else if mantissa == 10
        then mode group_g8 0 (record b.modal { tool_length = true }) taken
        else fail gcode_unsupported_command)

  -- `case 17` to `case 21`, `case 40`, `case 54` to `case 61`, `case 90`, `case 91`, `case 93` and
  -- `case 94`, and the default.
  unfoldable pub mode_word : ℕ → ℕ → ParserBlock F → Result (Command F)
  mode_word int_value mantissa b =
      let m = b.modal in
      if int_value == 17
      then mode group_g2 mantissa (record m { plane_select = Plane.xy }) b
      else if int_value == 18
      then mode group_g2 mantissa (record m { plane_select = Plane.zx }) b
      else if int_value == 19
      then mode group_g2 mantissa (record m { plane_select = Plane.yz }) b
      else if int_value == 90 || int_value == 91
      then (if mantissa == 0
          then mode group_g3 mantissa (record m { distance = int_value == 91 }) b
          else fail_if (not (mantissa == 10) || int_value == 90) gcode_unsupported_command
              (command group_g4 0 b))
      else if int_value == 93 || int_value == 94
      then mode group_g5 mantissa (record m { feed_rate = int_value == 93 }) b
      else if int_value == 20 || int_value == 21
      then mode group_g6 mantissa (record m { units = int_value == 20 }) b
      else if int_value == 40
      then command group_g7 mantissa b
      else if leb 54 int_value && leb int_value 59
      then mode group_g12 mantissa (record m { coord_select = int_value - 54 }) b
      else if int_value == 61
      then fail_if (not (mantissa == 0)) gcode_unsupported_command (command group_g13 mantissa b)
      else fail gcode_unsupported_command

  -- The switch on the integer of a `G` word.
  unfoldable pub g_command : ℕ → ℕ → ParserBlock F → Result (Command F)
  unfolding non_modal_word motion_word tool_length_word mode_word
  g_command int_value mantissa b =
      let axis = has_axis_command b.axis_command in
      if int_value == 10 || int_value == 28 || int_value == 30 || int_value == 92
      then (if mantissa == 0
          then fail_if axis gcode_axis_command_conflict (
              non_modal_word int_value mantissa (record b { axis_command = AxisCommand.non_modal }))
          else non_modal_word int_value mantissa b)
      else if int_value == 4 || int_value == 53
      then non_modal_word int_value mantissa b
      else if leb int_value 3 || int_value == 38
      then fail_if axis gcode_axis_command_conflict
          (motion_word int_value mantissa (record b { axis_command = AxisCommand.motion_mode }))
      else if int_value == 80
      then motion_word int_value mantissa b
      else if int_value == 43 || int_value == 49
      then tool_length_word int_value mantissa b
      else mode_word int_value mantissa b

-- ===== src/Gcode/Validate.antt =====
-- grbl_gcode.c, STEP 3 of `gc_execute_line`: its checks in their order.
pub mod Frame
pub mod Sound
use ecmc_plugin_grbl.Base.Float.{Float}
use ecmc_plugin_grbl.Settings.{Config, Bytes}
use ecmc_plugin_grbl.Gcode.{ParserState, ParserBlock}
use ecmc_plugin_grbl.Gcode.Checks.{
  implicit_axis_command, check_feed_rate, spindle_speed, check_dwell, convert_units,
  check_tool_length, check_unused,
}
use ecmc_plugin_grbl.Gcode.Offsets.{check_coord_system, check_non_modal}
use ecmc_plugin_grbl.Gcode.MotionModes.{check_motion}
use ecmc_plugin_grbl.Gcode.Result.{Result, ◌>>=◌, and_then}

module _ (float : Float) where
  open float use {F}

  -- The checks before the first read of the EEPROM.
  unfoldable pub check_values : ParserState F → ParserBlock F → Result (ParserBlock F)
  check_values gc b =
      check_feed_rate float gc (implicit_axis_command b)
      >>= (λ b₁. check_dwell float (spindle_speed float gc b₁))
      >>= (λ b₂. check_tool_length float (convert_units float b₂))

  unfoldable pub check_motion_and_words : ParserState F → ParserBlock F → Result (ParserBlock F)
  check_motion_and_words gc b = check_motion float gc b >>= check_unused

  unfoldable pub validate :
      Bytes F → ParserState F → ParserBlock F → Config F → Result (ParserBlock F) × Config F
  validate bytes gc b c =
      and_then (check_values gc b, c)
        λ b₁ c₁. and_then (check_coord_system float bytes gc b₁ c₁) λ b₂ c₂.
          and_then (check_non_modal float bytes gc b₂ c₂)
            λ b₃ c₃. (check_motion_and_words gc b₃, c₃)

-- ===== src/Status.antt =====
-- grbl_report.h: the status codes that a line of input is answered with.
use mathlib.Core.Bool.{Bool, true, false}

pub data Status : Type 0 where
  ok : Status
  expected_command_letter bad_number_format invalid_statement negative_value : Status
  setting_disabled setting_step_pulse_min setting_read_fail idle_error system_gc_lock : Status
  soft_limit_error overflow max_step_rate_exceeded check_door line_length_exceeded : Status
  travel_exceeded invalid_jog_command setting_disabled_laser : Status
  gcode_unsupported_command gcode_modal_group_violation gcode_undefined_feed_rate : Status
  gcode_command_value_not_integer gcode_axis_command_conflict gcode_word_repeated : Status
  gcode_no_axis_words gcode_invalid_line_number gcode_value_word_missing : Status
  gcode_unsupported_coord_sys gcode_g53_invalid_motion_mode gcode_axis_words_exist : Status
  gcode_no_axis_words_in_plane gcode_invalid_target gcode_arc_radius_error : Status
  gcode_no_offsets_in_plane gcode_unused_words gcode_g43_dynamic_axis_error : Status
  gcode_max_value_exceeded : Status

abbrev pub is_ok : Status → Bool
is_ok ok = true
is_ok _ = false

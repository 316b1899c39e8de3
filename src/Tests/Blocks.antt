-- ===== src/Tests/Blocks.antt =====
-- Examples for grbl_gcode.c.
use ecmc_plugin_grbl.Base.{ℕ, ◌≡◌, refl, true, false, List, [], ◌∷◌, arith}
use ecmc_plugin_grbl.Base.Float.{vec3}
use ecmc_plugin_grbl.System.{State}
use ecmc_plugin_grbl.Status.{ok, gcode_axis_words_exist}
use ecmc_plugin_grbl.Gcode.{NonModal, AxisCommand, ProgramFlow, ParserBlock, Grbl, init_block}
use ecmc_plugin_grbl.Gcode.Line.{
  execute_checked, parse_line, check_line, execute_block, gc_execute_line,
}
use ecmc_plugin_grbl.Gcode.Refused.{refused_unchanged}
use ecmc_plugin_grbl.Gcode.Accepted.{AcceptedWords, parse_line_words}
use ecmc_plugin_grbl.Gcode.Jog.{jog_keeps_state}
use ecmc_plugin_grbl.Gcode.Result.{done}
use ecmc_plugin_grbl.Gcode.Words.{
  parse_words, word, g_word, value_word, store_value, word_bit, assign,
}
use ecmc_plugin_grbl.Gcode.Commands.{g_command, motion_word}
use ecmc_plugin_grbl.NutsBolts.{scan_number, scan, scan_char, scan_digit, read_sign}
use ecmc_plugin_grbl.NutsBolts.Value.{float_value, scale_decimal, scale_up}
use ecmc_plugin_grbl.Gcode.Validate.{validate, check_values, check_motion_and_words}
use ecmc_plugin_grbl.Gcode.Checks.{
  implicit_axis_command, check_feed_rate, spindle_speed, check_dwell, convert_units,
  check_tool_length,
}
use ecmc_plugin_grbl.Gcode.Offsets.{check_coord_system, check_non_modal, pre_compute_target}
use ecmc_plugin_grbl.Gcode.MotionModes.{check_motion}
use ecmc_plugin_grbl.Gcode.Bits.{no_words, mark, word_x, group_g12}
use ecmc_plugin_grbl.Gcode.Checks.{check_unused}
use ecmc_plugin_grbl.Gcode.MotionModes.{check_motion_mode, check_feed_motion}
use ecmc_plugin_grbl.Gcode.Execute.{execute_non_modal, rapid, set_coordinates}
use ecmc_plugin_grbl.Gcode.Motions.{execute_program_flow, complete_program, end_program}
use ecmc_plugin_grbl.Gcode.Execute.Modes.{execute_block_modes}
use ecmc_plugin_grbl.Gcode.Execute.Position.{motion_ends_at_target}
use ecmc_plugin_grbl.Gcode.Execute.Stored.{set_home-go_home, set_coordinates-select}
use ecmc_plugin_grbl.Gcode.Validate.Sound.{Sound, validate-Sound}
use ecmc_plugin_grbl.Tests.{line_data}
use ecmc_plugin_grbl.Tests.Storage.{bytes, config, blank-length}
use ecmc_plugin_grbl.Tests.Parsing.{milli, Trace, recorder, idle_machine, parser, grbl}

-- G80 and an axis word
abbrev g80 : List ℕ
g80 = b'G' ∷ b'8' ∷ b'0' ∷ b'X' ∷ b'1' ∷ []

g80_status : (gc_execute_line milli idle_machine bytes g80 grbl).0 ≡ gcode_axis_words_exist
unfolding gc_execute_line check_line parse_line parse_words word g_word g_command motion_word
    value_word store_value word_bit assign scan_number scan scan_char scan_digit read_sign
    float_value scale_decimal validate check_values implicit_axis_command check_feed_rate
    spindle_speed check_dwell convert_units check_tool_length check_coord_system check_non_modal
    pre_compute_target check_motion_and_words check_motion execute_checked init_block scale_up
g80_status = refl

refused_unchanged_example : (gc_execute_line milli idle_machine bytes g80 grbl).1 ≡ grbl
refused_unchanged_example =
    refused_unchanged milli idle_machine bytes g80 grbl (λ e. ground (arith, g80_status, e))
      (λ e. ground (arith, g80_status, e))

-- A line with the word X in the mode G1, and its block behind each step.
abbrev x1 : List ℕ
x1 = b'X' ∷ b'1' ∷ []

abbrev x1_parsed : ParserBlock ℕ
x1_parsed = record (init_block 0 parser) {
  values = record (init_block 0 parser).values { xyz = vec3 2000 0 0 };
  axis_words = vec3 true false false;
  value_words = mark no_words word_x;
}

abbrev x1_converted : ParserBlock ℕ
x1_converted = record x1_parsed {
  values = record x1_parsed.values { f = 200000; s = 0 };
  axis_command = AxisCommand.motion_mode;
}

abbrev x1_checked : ParserBlock ℕ
x1_checked = record x1_converted { value_words = no_words }

x1_accepted : parse_line milli x1 parser ≡ done x1_parsed
unfolding parse_line parse_words word value_word store_value word_bit assign scan_number scan
    scan_char scan_digit read_sign float_value scale_decimal init_block scale_up
x1_accepted = refl

parse_line_words_example : AcceptedWords milli x1
parse_line_words_example = parse_line_words milli x1 parser {b = x1_parsed} x1_accepted

x1_valid : (validate milli bytes parser x1_parsed config).0 ≡ done x1_checked
unfolding validate check_values implicit_axis_command check_feed_rate spindle_speed check_dwell
    convert_units check_tool_length check_coord_system check_non_modal pre_compute_target
    check_motion_and_words check_motion init_block check_motion_mode check_feed_motion check_unused
x1_valid = refl

validate-Sound_example : Sound milli x1_checked
validate-Sound_example =
    validate-Sound milli bytes parser x1_parsed config {b' = x1_checked} x1_valid

targeted : (check_non_modal milli bytes parser x1_converted config).0 ≡ done x1_converted
unfolding check_non_modal pre_compute_target init_block
targeted = refl

checked : check_motion_and_words milli parser x1_converted ≡ done x1_checked
unfolding check_motion_and_words check_motion check_motion_mode check_feed_motion check_unused
    init_block
checked = refl

motion_ends_at_target_example :
    (execute_block milli idle_machine bytes x1_checked grbl).1.gc.position ≡ vec3 2000 0 0
unfolding init_block
motion_ends_at_target_example =
    motion_ends_at_target milli idle_machine bytes x1_converted config grbl {b₁ = x1_converted}
      {b₂ = x1_checked} refl refl refl refl targeted checked refl

-- A jog to an axis position.
abbrev jog_line : List ℕ
jog_line = b'$' ∷ b'J' ∷ b'=' ∷ b'X' ∷ b'1' ∷ b'F' ∷ b'9' ∷ []

jog_keeps_state_example :
    let g' = (gc_execute_line milli idle_machine bytes jog_line grbl).1 in
    g'.gc ≡ record parser { position = g'.gc.position }
jog_keeps_state_example = jog_keeps_state milli idle_machine bytes jog_line grbl refl

-- M30 in inches, in the check mode
abbrev m30_block : ParserBlock ℕ
m30_block = record x1_checked {
  modal = record parser.modal { program_flow = ProgramFlow.completed_m30; units = true };
}

m30_status : (execute_block milli (recorder State.check_mode) bytes m30_block grbl).0 ≡ ok
unfolding execute_block execute_program_flow complete_program end_program
m30_status = refl

execute_block_modes_example :
    (execute_block milli (recorder State.check_mode) bytes m30_block grbl).1.gc.modal
    ≡ record parser.modal { units = true }
execute_block_modes_example =
    execute_block_modes milli (recorder State.check_mode) bytes m30_block grbl m30_status

-- G28.1 at a position, then G28 on the axis X.
abbrev moved : Grbl ℕ Trace
moved = record grbl { gc = record parser { position = vec3 2000 4000 6000 } }

abbrev set_home_block : ParserBlock ℕ
set_home_block = record x1_converted { non_modal_command = NonModal.set_home_0 }

abbrev go_home_block : ParserBlock ℕ
go_home_block = record x1_converted { non_modal_command = NonModal.go_home_0 }

-- The machine with what G28.1 has stored, at the origin again.
abbrev back : Grbl ℕ Trace
back = record grbl {
  config = (execute_non_modal milli idle_machine bytes line_data set_home_block moved).config;
}

set_home-go_home_example :
    let home = vec3 2000 parser.position.y parser.position.z in
    (b₂ : ParserBlock ℕ) × ((check_non_modal milli bytes parser go_home_block back.config).0
      ≡ done b₂)
    × ((execute_non_modal milli idle_machine bytes line_data b₂ back).gc.position ≡ home)
    × ((passed : Trace) × ((execute_non_modal milli idle_machine bytes line_data b₂ back).rest
          ≡ idle_machine.mc_line home (rapid milli idle_machine line_data) passed))
set_home-go_home_example =
    set_home-go_home milli idle_machine bytes line_data line_data set_home_block go_home_block moved
      back refl refl blank-length refl

-- G10 L2 P2 and then G55
abbrev g10_block : ParserBlock ℕ
g10_block = record x1_converted { coord_select = 1 }

abbrev g55_block : ParserBlock ℕ
g55_block = record x1_converted {
  modal = record parser.modal { coord_select = 1 };
  command_words = mark no_words group_g12;
}

set_coordinates-select_example :
    let g' = set_coordinates milli idle_machine bytes g10_block moved in
    (check_coord_system milli bytes parser g55_block g'.config).0
    ≡ done (record g55_block { block_coord_system = g10_block.values.ijk })
set_coordinates-select_example =
    set_coordinates-select milli idle_machine bytes g10_block g55_block moved parser (omega arith)
      blank-length refl refl refl

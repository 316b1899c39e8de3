-- ===== src/Gcode/Line.antt =====
-- grbl_gcode.c: `gc_execute_line` and `gc_init`, and grbl_jog.c: `jog_execute`, with
-- `system_check_travel_limits` of grbl_system.c. A line is the list of its characters, without the zero
-- byte at its end.
use ecmc_plugin_grbl.Base.{
  ℕ, Bool, true, false, not, ◌||◌, ◌&&◌, List, [], ◌∷◌, ltb, ◌==◌, if◌then◌else◌, length,
}
use ecmc_plugin_grbl.Base.Int.{pos}
use ecmc_plugin_grbl.Base.Float.{Float, Vec3, vec3}
use ecmc_plugin_grbl.Settings.{Settings, Config, Bytes, read_coord_data}
use ecmc_plugin_grbl.Planner.{LineData}
use ecmc_plugin_grbl.Protocol.{disable, is_idle}
use ecmc_plugin_grbl.Status.{Status, ok, is_ok, travel_exceeded, invalid_jog_command}
use ecmc_plugin_grbl.Gcode.{
  seek, xy, running, NonModal, no_action, absolute_override, ParserState, ParserBlock, Modules,
  Grbl, init_block, jog_block,
}
use ecmc_plugin_grbl.Gcode.Bits.{any, unmark, group_g0, group_g3, group_g6}
use ecmc_plugin_grbl.Gcode.Words.{parse_words}
use ecmc_plugin_grbl.Gcode.Validate.{validate}
use ecmc_plugin_grbl.Gcode.Execute.{
  laser_flags, condition_of, plan_data, set_gc, execute_feed_rate, execute_spindle_speed,
  execute_spindle, execute_coolant, execute_dwell, execute_tool_length, execute_coord_system,
  execute_non_modal,
}
use ecmc_plugin_grbl.Gcode.Motions.{execute_motion, execute_program_flow}
use ecmc_plugin_grbl.Gcode.Result.{Result, done, fail, and_then}

abbrev is_jog_command : NonModal → Bool
is_jog_command absolute_override = true
is_jog_command no_action = true
is_jog_command _ = false

-- Whether a line is a jog, and its words, which stand behind the `$J=` that the caller has read.
abbrev pub starts_jog : List ℕ → Bool
starts_jog [] = false
starts_jog (c ∷ _) = c == b'$'

abbrev pub drop_3 : List ℕ → List ℕ
drop_3 (_ ∷ _ ∷ _ ∷ text) = text
drop_3 _ = []

abbrev pub words_text : List ℕ → List ℕ
words_text line = if starts_jog line then drop_3 line else line

module _ (float : Float) where
  open float use {F, literal, lt}

  abbrev exceeds : F → F → Bool
  exceeds target max_travel = lt (literal 0 1) target || lt target max_travel

  -- `max_travel` is stored as a negative number.
  unfoldable pub check_travel_limits : Settings F → Vec3 F → Bool
  check_travel_limits settings target =
      let limit = settings.max_travel in
      exceeds target.x limit.x || exceeds target.y limit.y || exceeds target.z limit.z

  -- STEP 1: the block that the words of a line are put into.
  abbrev pub first_block : List ℕ → ParserState F → ParserBlock F
  first_block line gc =
      let b = init_block (literal 0 1) gc in if starts_jog line then jog_block b else b

  -- STEP 1 and STEP 2
  unfoldable pub parse_line : List ℕ → ParserState F → Result (ParserBlock F)
  parse_line line gc = parse_words float (length line) (words_text line) (first_block line gc)

  -- STEP 1 to STEP 3
  unfoldable pub check_line :
      Bytes F → List ℕ → ParserState F → Config F → Result (ParserBlock F) × Config F
  unfolding parse_line
  check_line bytes line gc c = and_then (parse_line line gc, c) (validate float bytes gc)

module _ (float : Float) {S : Type 0} (machine : Modules (float.F) S) where
  open float use {F, literal}
  open machine use {state, has_current_block, mc_line, start_jog, report_setting_read_fail}

  unfoldable pub jog_execute : LineData F → ParserBlock F → Grbl F S → Status × Grbl F S
  jog_execute pl b g =
      let settings = g.config.settings in
      let jog_data : LineData F = record pl {
        feed_rate = b.values.f;
        condition = record pl.condition { no_feed_override = true };
      } in
      let moved = mc_line b.values.xyz jog_data g.rest in
      if settings.flags.soft_limit_enable && check_travel_limits float settings b.values.xyz
      then (travel_exceeded, g)
      else if is_idle (state moved) && has_current_block moved
      then (ok, record g { rest = start_jog moved })
      else (ok, record g { rest = moved })

  -- The interception of a jog.
  unfoldable pub execute_jog : ParserBlock F → Grbl F S → Status × Grbl F S
  unfolding jog_execute
  execute_jog b g =
      let (status, moved) =
        jog_execute
          (record {
            feed_rate = literal 0 1;
            spindle_speed = g.gc.spindle_speed;
            condition = condition_of g.gc.modal.spindle g.gc.modal.coolant;
          })
          b g in
      if any (unmark (group_g3 ∷ group_g6 ∷ group_g0 ∷ []) b.command_words)
        || not (is_jog_command b.non_modal_command)
      then (invalid_jog_command, g)
      else if is_ok status
      then (ok, set_gc float machine (record moved.gc { position = b.values.xyz }) moved)
      else (status, moved)

  -- [0.] to [18.] of STEP 4
  unfoldable pub execute_modes : ParserBlock F → Grbl F S → Grbl F S
  execute_modes b g =
      let planned : Grbl F S = execute_coolant float machine b (
        execute_spindle float machine b
          (execute_spindle_speed float machine b (execute_feed_rate float machine b g))) in
      execute_coord_system float machine b
        (execute_tool_length float machine b (execute_dwell float machine b planned))

  -- STEP 4
  unfoldable pub execute_block : Bytes F → ParserBlock F → Grbl F S → Status × Grbl F S
  unfolding execute_modes
  execute_block bytes block g =
      let b : ParserBlock F = record block {
        flags = laser_flags g.config.settings.flags g.gc block;
      } in
      let moded = execute_modes b g in
      let pl = plan_data float machine b moded in
      execute_program_flow float machine bytes b
        (execute_motion float machine pl b (execute_non_modal float machine bytes pl b moded))

  -- The answer to the checks: an error, or the execution of the block.
  unfoldable pub execute_checked : Bytes F → Result (ParserBlock F) → Grbl F S → Status × Grbl F S
  unfolding execute_block execute_jog
  execute_checked bytes (fail s) g = (s, g)
  execute_checked bytes (done b) g =
      if b.flags.jog_motion then execute_jog b g else execute_block bytes b g

  -- What STEP 3 has written to the EEPROM stays written when it fails.
  unfoldable pub gc_execute_line : Bytes F → List ℕ → Grbl F S → Status × Grbl F S
  unfolding execute_checked
  gc_execute_line bytes line g =
      let (result, config) = check_line float bytes line g.gc g.config in
      if ltb (length line) 2
      then (ok, g)
      else execute_checked bytes result (record g { config = config })

  unfoldable pub gc_init : Bytes F → Grbl F S → Grbl F S
  gc_init bytes g =
      let zero = literal 0 1 in
      let (valid, coords, config) = read_coord_data bytes zero 0 g.config in
      record {
        gc = record {
          modal = record {
            motion = seek;
            feed_rate = false;
            units = false;
            distance = false;
            plane_select = xy;
            tool_length = false;
            coord_select = 0;
            program_flow = running;
            coolant = false;
            spindle = disable;
          };
          spindle_speed = zero;
          feed_rate = zero;
          tool = 0;
          line_number = pos 0;
          position = vec3 zero zero zero;
          coord_system = coords;
          coord_offset = vec3 zero zero zero;
          tool_length_offset = zero;
        };
        config = config;
        rest = if valid then g.rest else report_setting_read_fail g.rest;
      }

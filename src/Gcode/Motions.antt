-- ===== src/Gcode/Motions.antt =====
-- grbl_gcode.c, STEP 4 of `gc_execute_line`: the motion of a block and the program flow, with
-- `gc_sync_position`, `mc_probe_cycle` of grbl_motion_control.c and the conversion of steps to
-- positions of grbl_system.c.
use ecmc_plugin_grbl.Base.{Bool, true, false, not, if◌then◌else◌}
use ecmc_plugin_grbl.Base.Int.{ℤ}
use ecmc_plugin_grbl.Base.Float.{Float, Vec3, vec3}
use ecmc_plugin_grbl.System.{State, check_mode}
use ecmc_plugin_grbl.Settings.{Settings, Bytes, read_coord_data}
use ecmc_plugin_grbl.Planner.{LineData}
use ecmc_plugin_grbl.Protocol.{disable}
use ecmc_plugin_grbl.Status.{Status, ok, is_ok, setting_read_fail}
use ecmc_plugin_grbl.Gcode.{
  Motion, seek, linear, cw_arc, ccw_arc, xy, ProgramFlow, running, paused, Modal, ParserState,
  ParserFlags, ParserBlock, Modules, Grbl,
}
use ecmc_plugin_grbl.Gcode.Checks.{is_motion_mode}
use ecmc_plugin_grbl.Gcode.MotionModes.{is_no_motion}
use ecmc_plugin_grbl.Gcode.Execute.{set_modal, rapid}

-- GC_UPDATE_POS_TARGET, GC_UPDATE_POS_SYSTEM, GC_UPDATE_POS_NONE
pub data UpdatePos : Type 0 where
  update_target update_system update_none : UpdatePos

abbrev pub is_check_mode : State → Bool
is_check_mode check_mode = true
is_check_mode _ = false

module _ (float : Float) where
  open float use {F, div, of_int}

  -- `system_convert_array_steps_to_mpos`
  unfoldable pub convert_array_steps_to_mpos : Settings F → Vec3 ℤ → Vec3 F
  convert_array_steps_to_mpos settings steps =
      let per_mm = settings.steps_per_mm in
      vec3 (div (of_int steps.x) per_mm.x) (div (of_int steps.y) per_mm.y)
        (div (of_int steps.z) per_mm.z)

-- `mc_probe_cycle` says that it is not supported, and returns 0.
unfoldable pub mc_probe_cycle :
    {F S : Type 0} → Vec3 F → LineData F → ParserFlags → S → UpdatePos × S
mc_probe_cycle target pl flags rest = (update_target, rest)

-- The modes that the end of a program resets.
abbrev pub program_end_modes : Modal → Modal
program_end_modes m = record m {
  motion = linear;
  plane_select = xy;
  distance = false;
  feed_rate = false;
  coord_select = 0;
  spindle = disable;
  coolant = false;
}

module _ (float : Float) {S : Type 0} (machine : Modules (float.F) S) where
  open float use {F, literal}
  open machine use {
    state, sys_position, mc_line, mc_arc, buffer_synchronize, set_feed_hold, execute_realtime,
    restore_overrides, flag_wco_change, spindle_set_state, coolant_set_state, report_program_end,
  }

  unfoldable pub gc_sync_position : Grbl F S → Grbl F S
  unfolding convert_array_steps_to_mpos
  gc_sync_position g = record g {
    gc = record g.gc {
      position = convert_array_steps_to_mpos float g.config.settings (sys_position g.rest);
    };
  }

  abbrev no_feed_override : LineData F → LineData F
  no_feed_override pl = record pl { condition = record pl.condition { no_feed_override = true } }

  -- The call of a motion mode, and how the position is to be updated.
  unfoldable pub call_motion :
      Motion → LineData F → ParserBlock F → ParserState F → S → UpdatePos × S
  unfolding mc_probe_cycle
  call_motion motion pl b gc rest =
      let v = b.values in
      let plane = b.modal.plane_select in
      let arc = mc_arc v.xyz pl gc.position v.ijk v.r plane b.flags.arc_is_clockwise rest in
      elim motion [
        | linear ↦ (update_target, mc_line v.xyz pl rest)
        | seek ↦ (update_target, mc_line v.xyz (rapid float machine pl) rest)
        | cw_arc ↦ (update_target, arc)
        | ccw_arc ↦ (update_target, arc)
        | _ ↦ mc_probe_cycle v.xyz (no_feed_override pl) b.flags rest
      ]

  abbrev pub update_position : UpdatePos → ParserBlock F → Grbl F S → Grbl F S
  update_position update_target b g = record g { gc = record g.gc { position = b.values.xyz } }
  update_position update_system b g = gc_sync_position g
  update_position update_none b g = g

  -- [20. Motion modes ]
  unfoldable pub execute_motion : LineData F → ParserBlock F → Grbl F S → Grbl F S
  unfolding call_motion
  execute_motion pl b g =
      let moded : Grbl F S =
        set_modal float machine (record g.gc.modal { motion = b.modal.motion }) g in
      let (update, rest) = call_motion b.modal.motion pl b g.gc g.rest in
      if not (is_no_motion b.modal.motion)
      then if is_motion_mode b.axis_command
        then update_position update b (record moded { rest = rest })
        else moded
      else moded

  -- The end of M2 and M30, behind the reset of the modes.
  unfoldable pub end_program : Bytes F → Grbl F S → Status × Grbl F S
  end_program bytes g =
      let (valid, coords, config) =
        read_coord_data bytes (literal 0 1) g.gc.modal.coord_select g.config in
      let read : Grbl F S = record g {
        gc = record g.gc { coord_system = coords };
        config = config;
      } in
      let stopped =
        coolant_set_state false
          (spindle_set_state disable (literal 0 1) (flag_wco_change g.rest)) in
      if is_check_mode (state g.rest)
      then (ok, record g { rest = report_program_end g.rest })
      else if valid
      then (ok, record read { rest = report_program_end stopped })
      else (setting_read_fail, read)

  abbrev set_flow : ProgramFlow → Grbl F S → Grbl F S
  set_flow flow g = set_modal float machine (record g.gc.modal { program_flow = flow }) g

  -- M0: a feed hold, but in the check mode.
  unfoldable pub pause_program : Grbl F S → Grbl F S
  pause_program g =
      if is_check_mode (state g.rest)
      then g
      else record g { rest = execute_realtime (set_feed_hold g.rest) }

  -- M2 and M30
  unfoldable pub complete_program : Bytes F → Grbl F S → Status × Grbl F S
  unfolding end_program
  complete_program bytes g =
      let reset : Grbl F S = record (set_modal float machine (program_end_modes g.gc.modal) g) {
        rest = restore_overrides g.rest;
      } in
      let (status, ended) = end_program bytes reset in
      if is_ok status then (ok, set_flow running ended) else (status, ended)

  -- [21. Program flow ]
  unfoldable pub execute_program_flow : Bytes F → ParserBlock F → Grbl F S → Status × Grbl F S
  unfolding pause_program complete_program
  execute_program_flow bytes b g =
      let flowing : Grbl F S = set_flow b.modal.program_flow g in
      let synced : Grbl F S = record flowing { rest = buffer_synchronize g.rest } in
      elim b.modal.program_flow [
        | running ↦ (ok, flowing)
        | paused ↦ (ok, set_flow running (pause_program synced))
        | _ ↦ complete_program bytes synced
      ]

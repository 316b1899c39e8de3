-- ===== src/Gcode/Execute.antt =====
-- grbl_gcode.c, STEP 4 of `gc_execute_line`: the execution of a block that has passed the checks, up to
-- the non-modal commands. A call of another module changes the state of the other modules only.
pub mod Modes
pub mod Position
pub mod Stored
use ecmc_plugin_grbl.Base.{ℕ, Bool, true, false, not, ◌||◌, ◌&&◌, ◌==◌, if◌then◌else◌}
use ecmc_plugin_grbl.Base.Float.{Float, Vec3, vec3}
use ecmc_plugin_grbl.Settings.{Flags, Config, Bytes, write_coord_data}
use ecmc_plugin_grbl.Planner.{Condition, LineData, no_condition}
use ecmc_plugin_grbl.Protocol.{Spindle, disable, enable_cw, enable_ccw}
use ecmc_plugin_grbl.Gcode.{
  Motion, linear, cw_arc, ccw_arc, NonModal, set_coordinate_data, go_home_0, go_home_1, set_home_0,
  set_home_1, set_coordinate_offset, reset_coordinate_offset, Modal, ParserState, ParserFlags,
  ParserBlock, Modules, Grbl,
}
use ecmc_plugin_grbl.Gcode.Bits.{any_axis}
use ecmc_plugin_grbl.Gcode.Checks.{is_motion_mode, is_tool_length, is_dwell}
use ecmc_plugin_grbl.Gcode.Commands.{has_axis_command}
use ecmc_plugin_grbl.Gcode.Offsets.{setting_index_g28, setting_index_g30}

abbrev pub is_cw : Spindle → Bool
is_cw enable_cw = true
is_cw _ = false

abbrev pub is_ccw : Spindle → Bool
is_ccw enable_ccw = true
is_ccw _ = false

abbrev pub same_spindle : Spindle → Spindle → Bool
same_spindle disable disable = true
same_spindle enable_cw enable_cw = true
same_spindle enable_ccw enable_ccw = true
same_spindle _ _ = false

abbrev pub same_bool : Bool → Bool → Bool
same_bool true b = b
same_bool false b = not b

-- G1, G2 and G3
abbrev pub is_cutting : Motion → Bool
is_cutting linear = true
is_cutting cw_arc = true
is_cutting ccw_arc = true
is_cutting _ = false

-- The flags of the laser mode.
unfoldable pub laser_flags : {F : Type 0} → Flags → ParserState F → ParserBlock F → ParserFlags
laser_flags settings gc b =
    let off = not (is_cutting b.modal.motion) in
    let moves = any_axis b.axis_words && is_motion_mode b.axis_command in
    if settings.laser_mode
    then record b.flags {
      laser_disable = off;
      laser_is_motion = moves;
      laser_force_sync =
          not moves && is_cw gc.modal.spindle && same_bool (is_cutting gc.modal.motion) off;
    }
    else b.flags

-- The conditions of a spindle and a coolant state.
abbrev pub condition_of : Spindle → Bool → Condition
condition_of spindle coolant = record no_condition {
  spindle_cw = is_cw spindle;
  spindle_ccw = is_ccw spindle;
  coolant_flood = coolant;
}

module _ (float : Float) {S : Type 0} (machine : Modules (float.F) S) where
  open float use {F, literal, eq}
  open machine use {spindle_sync, coolant_sync, mc_dwell, mc_line, flag_wco_change}

  abbrev pub set_gc : ParserState F → Grbl F S → Grbl F S
  set_gc gc g = record g { gc = gc }

  abbrev pub set_modal : Modal → Grbl F S → Grbl F S
  set_modal m g = set_gc (record g.gc { modal = m }) g

  -- [0.], [2. Set feed rate mode ] and [3. Set feed rate ]
  unfoldable pub execute_feed_rate : ParserBlock F → Grbl F S → Grbl F S
  execute_feed_rate b g =
      set_gc
        (record g.gc {
          line_number = b.values.n;
          modal = record g.gc.modal { feed_rate = b.modal.feed_rate };
          feed_rate = b.values.f;
        })
        g

  -- [4. Set spindle speed ] and [5. Select tool ]
  unfoldable pub execute_spindle_speed : ParserBlock F → Grbl F S → Grbl F S
  execute_spindle_speed b g =
      let gc = g.gc in
      let s = b.values.s in
      let speed = if b.flags.laser_disable then literal 0 1 else s in
      let changes = not (eq gc.spindle_speed s) || b.flags.laser_force_sync in
      let syncs = not (same_spindle gc.modal.spindle disable) && not b.flags.laser_is_motion in
      record g {
        gc = record gc {
          spindle_speed = if changes then s else gc.spindle_speed;
          tool = b.values.t;
        };
        rest = if changes && syncs then spindle_sync gc.modal.spindle speed g.rest else g.rest;
      }

  -- `pl_data->spindle_speed`
  abbrev pub planned_speed : ParserBlock F → Grbl F S → F
  planned_speed b g = if b.flags.laser_disable then literal 0 1 else g.gc.spindle_speed

  -- [7. Spindle control ]
  unfoldable pub execute_spindle : ParserBlock F → Grbl F S → Grbl F S
  execute_spindle b g =
      if same_spindle g.gc.modal.spindle b.modal.spindle
      then g
      else record (set_modal (record g.gc.modal { spindle = b.modal.spindle }) g) {
        rest = spindle_sync b.modal.spindle (planned_speed b g) g.rest;
      }

  -- [8. Coolant control ]
  unfoldable pub execute_coolant : ParserBlock F → Grbl F S → Grbl F S
  execute_coolant b g =
      if same_bool g.gc.modal.coolant b.modal.coolant
      then g
      else record (set_modal (record g.gc.modal { coolant = b.modal.coolant }) g) {
        rest = coolant_sync b.modal.coolant g.rest;
      }

  -- `plan_data`, as the steps [2.] to [8.] leave it.
  abbrev pub plan_data : ParserBlock F → Grbl F S → LineData F
  plan_data b g = record {
    feed_rate = g.gc.feed_rate;
    spindle_speed = planned_speed b g;
    condition = record (condition_of g.gc.modal.spindle g.gc.modal.coolant) {
      inverse_time = g.gc.modal.feed_rate;
    };
  }

  -- [10. Dwell ], [11. Set active plane ] and [12. Set length units ]
  unfoldable pub execute_dwell : ParserBlock F → Grbl F S → Grbl F S
  execute_dwell b g =
      record (set_modal
        (record g.gc.modal { plane_select = b.modal.plane_select; units = b.modal.units }) g) {
          rest = if is_dwell b.non_modal_command then mc_dwell b.values.p g.rest else g.rest;
        }

  abbrev pub wco_change : Grbl F S → Grbl F S
  wco_change g = record g { rest = flag_wco_change g.rest }

  -- [14. Cutter length compensation ]
  unfoldable pub execute_tool_length : ParserBlock F → Grbl F S → Grbl F S
  execute_tool_length b g =
      let offset = if b.modal.tool_length then b.values.xyz.z else literal 0 1 in
      let selected : Grbl F S =
        set_modal (record g.gc.modal { tool_length = b.modal.tool_length }) g in
      if not (is_tool_length b.axis_command)
      then g
      else if eq g.gc.tool_length_offset offset
      then selected
      else wco_change (set_gc (record selected.gc { tool_length_offset = offset }) selected)

  -- [15. Coordinate system selection ] and [17. Set distance mode ]
  unfoldable pub execute_coord_system : ParserBlock F → Grbl F S → Grbl F S
  execute_coord_system b g =
      let m = record g.gc.modal { distance = b.modal.distance } in
      if g.gc.modal.coord_select == b.modal.coord_select
      then set_modal m g
      else wco_change (
          set_gc
            (record g.gc {
              modal = record m { coord_select = b.modal.coord_select };
              coord_system = b.block_coord_system;
            })
            g)

  abbrev pub rapid : LineData F → LineData F
  rapid pl = record pl { condition = record pl.condition { rapid_motion = true } }

  -- `case NON_MODAL_GO_HOME_0` and `case NON_MODAL_GO_HOME_1`
  unfoldable pub go_home : LineData F → ParserBlock F → Grbl F S → Grbl F S
  go_home pl b g =
      let passed =
        if has_axis_command b.axis_command
        then mc_line b.values.xyz (rapid pl) g.rest
        else g.rest in
      record g {
        gc = record g.gc { position = b.values.ijk };
        rest = mc_line b.values.ijk (rapid pl) passed;
      }

  -- `case NON_MODAL_SET_COORDINATE_DATA`
  unfoldable pub set_coordinates : Bytes F → ParserBlock F → Grbl F S → Grbl F S
  set_coordinates bytes b g =
      let written : Grbl F S = record g {
        config = write_coord_data bytes b.coord_select b.values.ijk g.config;
      } in
      if g.gc.modal.coord_select == b.coord_select
      then wco_change (set_gc (record g.gc { coord_system = b.values.ijk }) written)
      else written

  -- [19. Go to predefined position, Set G10, or Set axis offsets ]
  unfoldable pub execute_non_modal : Bytes F → LineData F → ParserBlock F → Grbl F S → Grbl F S
  unfolding go_home set_coordinates
  execute_non_modal bytes pl b g =
      let zero = literal 0 1 in
      elim b.non_modal_command [
        | set_coordinate_data ↦ set_coordinates bytes b g
        | go_home_0 ↦ go_home pl b g
        | go_home_1 ↦ go_home pl b g
        | set_home_0 ↦ record g {
          config = write_coord_data bytes setting_index_g28 g.gc.position g.config;
        }
        | set_home_1 ↦ record g {
          config = write_coord_data bytes setting_index_g30 g.gc.position g.config;
        }
        | set_coordinate_offset ↦
            wco_change (set_gc (record g.gc { coord_offset = b.values.xyz }) g)
        | reset_coordinate_offset ↦
            wco_change (set_gc (record g.gc { coord_offset = vec3 zero zero zero }) g)
        | _ ↦ g
      ]

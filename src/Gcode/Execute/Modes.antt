-- ===== src/Gcode/Execute/Modes.antt =====
-- grbl_gcode.c, STEP 4 of `gc_execute_line`: the modes of the parser behind a block.
use ecmc_plugin_grbl.Base.{Bool, true, false, ◌≡◌, refl, ap, ◌∙◌, arith, if◌then◌else◌}
use ecmc_plugin_grbl.Base.Float.{Float}
use ecmc_plugin_grbl.Planner.{LineData}
use ecmc_plugin_grbl.Settings.{Bytes}
use ecmc_plugin_grbl.Protocol.{Spindle, disable}
use ecmc_plugin_grbl.Gcode.{
  linear, xy, Modal, ProgramFlow, running, paused, ParserBlock, Modules, Grbl,
}
use ecmc_plugin_grbl.Gcode.Checks.{is_tool_length}
use ecmc_plugin_grbl.Gcode.Execute.{
  same_spindle, same_bool, execute_feed_rate, execute_spindle_speed, execute_spindle,
  execute_coolant, execute_dwell, execute_tool_length, execute_coord_system, go_home,
  set_coordinates, execute_non_modal, laser_flags, plan_data,
}
use ecmc_plugin_grbl.Gcode.Motions.{
  execute_motion, gc_sync_position, execute_program_flow, pause_program, complete_program,
  end_program,
}
use ecmc_plugin_grbl.Gcode.Line.{execute_modes, execute_block}
use ecmc_plugin_grbl.Status.{ok}

same_spindle→eq : (a b : Spindle) → same_spindle a b ≡ true → a ≡ b
same_spindle→eq a b h = ground arith

same_bool→eq : (a b : Bool) → same_bool a b ≡ true → a ≡ b
same_bool→eq a b h = ground arith

module _ (float : Float) {S : Type 0} (machine : Modules (float.F) S) where
  open float use {F, literal, eq}

  execute_spindle_speed-modal :
      (b : ParserBlock F) (g : Grbl F S)
      → (execute_spindle_speed float machine b g).gc.modal ≡ g.gc.modal
  unfolding execute_spindle_speed
  execute_spindle_speed-modal b g = refl

  execute_spindle-modal :
      (b : ParserBlock F) (g : Grbl F S)
      → (execute_spindle float machine b g).gc.modal
        ≡ record g.gc.modal { spindle = b.modal.spindle }
  unfolding execute_spindle
  execute_spindle-modal b g = ground (arith, same_spindle→eq g.gc.modal.spindle b.modal.spindle)

  execute_coolant-modal :
      (b : ParserBlock F) (g : Grbl F S)
      → (execute_coolant float machine b g).gc.modal
        ≡ record g.gc.modal { coolant = b.modal.coolant }
  unfolding execute_coolant
  execute_coolant-modal b g = ground (arith, same_bool→eq g.gc.modal.coolant b.modal.coolant)

  execute_dwell-modal :
      (b : ParserBlock F) (g : Grbl F S)
      → (execute_dwell float machine b g).gc.modal
        ≡ record g.gc.modal { plane_select = b.modal.plane_select; units = b.modal.units }
  unfolding execute_dwell
  execute_dwell-modal b g = refl

  execute_tool_length-modal :
      (b : ParserBlock F) (g : Grbl F S)
      → (execute_tool_length float machine b g).gc.modal ≡ record g.gc.modal {
        tool_length =
            if is_tool_length b.axis_command then b.modal.tool_length else g.gc.modal.tool_length;
      }
  unfolding execute_tool_length
  execute_tool_length-modal b g = ground arith

  execute_coord_system-modal :
      (b : ParserBlock F) (g : Grbl F S)
      → (execute_coord_system float machine b g).gc.modal
        ≡ record g.gc.modal { distance = b.modal.distance; coord_select = b.modal.coord_select }
  unfolding execute_coord_system
  execute_coord_system-modal b g = ground arith

  execute_non_modal-modal :
      (bytes : Bytes F) (pl : LineData F) (b : ParserBlock F) (g : Grbl F S)
      → (execute_non_modal float machine bytes pl b g).gc.modal ≡ g.gc.modal
  unfolding execute_non_modal set_coordinates go_home
  execute_non_modal-modal bytes pl b g = ground arith

  -- The modes behind the steps [0.] to [18.].
  abbrev pub new_modes : ParserBlock F → Modal → Modal
  new_modes b m = record b.modal {
    motion = m.motion;
    program_flow = m.program_flow;
    tool_length = if is_tool_length b.axis_command then b.modal.tool_length else m.tool_length;
  }

  pub execute_modes-modal :
      (b : ParserBlock F) (g : Grbl F S)
      → (execute_modes float machine b g).gc.modal ≡ new_modes b g.gc.modal
  unfolding execute_modes execute_feed_rate
  execute_modes-modal b g =
      let g₁ = execute_feed_rate float machine b g in
      let g₂ = execute_spindle_speed float machine b g₁ in
      let g₃ = execute_spindle float machine b g₂ in
      let g₄ = execute_coolant float machine b g₃ in
      let g₅ = execute_dwell float machine b g₄ in
      let g₆ = execute_tool_length float machine b g₅ in
      ground (
        arith,
        execute_coord_system-modal b g₆,
        execute_tool_length-modal b g₅,
        execute_dwell-modal b g₄,
        execute_coolant-modal b g₃,
        execute_spindle-modal b g₂,
        execute_spindle_speed-modal b g₁,
      )

  execute_motion-modal :
      (pl : LineData F) (b : ParserBlock F) (g : Grbl F S)
      → (execute_motion float machine pl b g).gc.modal
        ≡ record g.gc.modal { motion = b.modal.motion }
  unfolding execute_motion gc_sync_position
  execute_motion-modal pl b g = ground arith

  -- The modes behind the program flow of a block.
  abbrev pub flow_modes : ProgramFlow → Modal → Modal
  flow_modes running m = record m { program_flow = running }
  flow_modes paused m = record m { program_flow = running }
  flow_modes _ m = record m {
    motion = linear;
    plane_select = xy;
    distance = false;
    feed_rate = false;
    coord_select = 0;
    program_flow = running;
    coolant = false;
    spindle = disable;
  }

  execute_program_flow-modal :
      (bytes : Bytes F) (b : ParserBlock F) (g : Grbl F S)
      → let (s, g') = execute_program_flow float machine bytes b g in
        s ≡ ok → g'.gc.modal ≡ flow_modes b.modal.program_flow g.gc.modal
  unfolding execute_program_flow pause_program complete_program end_program
  execute_program_flow-modal bytes b g = ground arith

  flow_modes-flow :
      (flow now : ProgramFlow) (m : Modal)
      → flow_modes flow (record m { program_flow = now }) ≡ flow_modes flow m
  flow_modes-flow flow now m = ground arith

  -- A block that is executed leaves its modes to the parser; a tool length only if it sets one, and
  -- after M2 and M30 all but the units and the tool length are those of a program's end.
  pub execute_block_modes :
      (bytes : Bytes F) (b : ParserBlock F) (g : Grbl F S)
      → let (s, g') = execute_block float machine bytes b g in
        s ≡ ok
        → g'.gc.modal
          ≡ flow_modes b.modal.program_flow (record b.modal {
            tool_length =
                if is_tool_length b.axis_command
                then b.modal.tool_length
                else g.gc.modal.tool_length;
          })
  unfolding execute_block
  execute_block_modes bytes block g h =
      let b : ParserBlock F = record block {
        flags = laser_flags g.config.settings.flags g.gc block;
      } in
      let moded = execute_modes float machine b g in
      let pl = plan_data float machine b moded in
      let acted = execute_non_modal float machine bytes pl b moded in
      let moved = execute_motion float machine pl b acted in
      execute_program_flow-modal bytes b moved h
      ∙ ap (flow_modes b.modal.program_flow) (
          execute_motion-modal pl b acted
          ∙ ap (λ (m : Modal). record m { motion = b.modal.motion })
              (execute_non_modal-modal bytes pl b moded ∙ execute_modes-modal b g))
      ∙ flow_modes-flow b.modal.program_flow g.gc.modal.program_flow (record b.modal {
        tool_length =
            if is_tool_length b.axis_command then b.modal.tool_length else g.gc.modal.tool_length;
      })

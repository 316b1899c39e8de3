-- ===== src/Gcode/Execute/Position.antt =====
-- grbl_gcode.c: where a motion ends.
use ecmc_plugin_grbl.Base.{Bool, true, false, ◌≡◌, ap, ◌∙◌, arith}
use ecmc_plugin_grbl.Base.Float.{Float}
use ecmc_plugin_grbl.Planner.{LineData}
use ecmc_plugin_grbl.Settings.{Config, Bytes}
use ecmc_plugin_grbl.Gcode.{
  Modal, NonModal, no_action, dwell, ParserState, ParserBlock, Modules, Grbl,
}
use ecmc_plugin_grbl.Gcode.Bits.{any_axis}
use ecmc_plugin_grbl.Gcode.Checks.{is_motion_mode, is_tool_length, check_unused}
use ecmc_plugin_grbl.Gcode.Offsets.{target, pre_compute_target, check_non_modal}
use ecmc_plugin_grbl.Gcode.MotionModes.{
  is_no_motion, check_radius_arc, check_offset_arc, check_arc, check_probe, check_feed_motion,
  check_motion_mode, check_motion,
}
use ecmc_plugin_grbl.Gcode.Validate.{check_motion_and_words}
use ecmc_plugin_grbl.Gcode.Execute.{
  execute_feed_rate, execute_spindle_speed, execute_spindle, execute_coolant, execute_dwell,
  execute_tool_length, execute_coord_system,
}
use ecmc_plugin_grbl.Gcode.Motions.{
  execute_motion, call_motion, mc_probe_cycle, execute_program_flow, pause_program,
  complete_program, end_program,
}
use ecmc_plugin_grbl.Gcode.Line.{execute_modes, execute_block}
use ecmc_plugin_grbl.Gcode.Result.{done, Ensures, Ensures-bind, Ensures-done}

-- No non-modal command, or a dwell.
abbrev pub is_plain : NonModal → Bool
is_plain no_action = true
is_plain dwell = true
is_plain _ = false

module _ (float : Float) where
  open float use {F}

  -- The checks of the motion modes leave the target.
  abbrev SameTarget : ParserBlock F → ParserBlock F → Type 0
  SameTarget b b' =
      (b'.values.xyz ≡ b.values.xyz)
      × (b'.modal ≡ b.modal)
      × (b'.non_modal_command ≡ b.non_modal_command)

  check_radius_arc-SameTarget :
      (x y : F) (gc : ParserState F) (b : ParserBlock F)
      → Ensures (SameTarget b) (check_radius_arc float x y gc b)
  unfolding check_radius_arc
  check_radius_arc-SameTarget x y gc b = ground arith

  check_offset_arc-SameTarget :
      (x y : F) (b : ParserBlock F) → Ensures (SameTarget b) (check_offset_arc float x y b)
  unfolding check_offset_arc
  check_offset_arc-SameTarget x y b = ground arith

  check_arc-SameTarget :
      (gc : ParserState F) (b : ParserBlock F) → Ensures (SameTarget b) (check_arc float gc b)
  unfolding check_arc
  check_arc-SameTarget gc b = ground arith

  check_motion-SameTarget :
      (gc : ParserState F) (b : ParserBlock F) → Ensures (SameTarget b) (check_motion float gc b)
  unfolding check_motion check_motion_mode check_feed_motion check_probe
  check_motion-SameTarget gc b = ground (arith, check_arc-SameTarget gc b)

  check_motion_and_words-SameTarget :
      (gc : ParserState F) (b : ParserBlock F)
      → Ensures (SameTarget b) (check_motion_and_words float gc b)
  unfolding check_motion_and_words check_unused
  check_motion_and_words-SameTarget gc b =
      Ensures-bind (SameTarget b) (SameTarget b) (check_motion float gc b) check_unused
        (check_motion-SameTarget gc b) λ b₁ h. ground (arith, h)

  check_non_modal-target :
      (bytes : Bytes F) (gc : ParserState F) (b : ParserBlock F) (c : Config F)
      → is_plain b.non_modal_command ≡ true
      → is_tool_length b.axis_command ≡ false
      → any_axis b.axis_words ≡ true
      → Ensures
          (λ b'.
            (b'.values.xyz ≡ target float bytes gc b)
            × (b'.modal ≡ b.modal)
            × (b'.non_modal_command ≡ b.non_modal_command))
          (check_non_modal float bytes gc b c).0
  unfolding check_non_modal pre_compute_target
  check_non_modal-target bytes gc b c p t w = ground (arith, p, t, w)

module _ (float : Float) {S : Type 0} (machine : Modules (float.F) S) where
  open float use {F}

  execute_modes-position :
      (b : ParserBlock F) (g : Grbl F S)
      → (execute_modes float machine b g).gc.position ≡ g.gc.position
  unfolding execute_modes execute_feed_rate execute_spindle_speed execute_spindle execute_coolant
      execute_dwell execute_tool_length execute_coord_system
  execute_modes-position b g = ground arith

  execute_motion-position :
      (pl : LineData F) (b : ParserBlock F) (g : Grbl F S)
      → is_no_motion b.modal.motion ≡ false
      → is_motion_mode b.axis_command ≡ true
      → (execute_motion float machine pl b g).gc.position ≡ b.values.xyz
  unfolding execute_motion call_motion mc_probe_cycle
  execute_motion-position pl b g n h = ground (arith, n, h)

  execute_program_flow-position :
      (bytes : Bytes F) (b : ParserBlock F) (g : Grbl F S)
      → (execute_program_flow float machine bytes b g).1.gc.position ≡ g.gc.position
  unfolding execute_program_flow pause_program complete_program end_program
  execute_program_flow-position bytes b g = ground arith

  execute_block-position :
      (bytes : Bytes F) (b : ParserBlock F) (g : Grbl F S)
      → is_no_motion b.modal.motion ≡ false
      → is_motion_mode b.axis_command ≡ true
      → (execute_block float machine bytes b g).1.gc.position ≡ b.values.xyz
  unfolding execute_block
  execute_block-position bytes block g n h =
      execute_program_flow-position bytes _ _ ∙ execute_motion-position _ _ _ n h

  -- A motion ends at its target: a block with axis words and without a non-modal command but a dwell
  -- that passes the checks and is executed as a motion, arcs and probes included, leaves the parser's
  -- position at the target that the words, the distance mode and the offsets give.
  pub motion_ends_at_target :
      (bytes : Bytes F) (b : ParserBlock F) (c : Config F) (g : Grbl F S) {b₁ b₂ : ParserBlock F}
      → is_plain b.non_modal_command ≡ true
      → is_tool_length b.axis_command ≡ false
      → any_axis b.axis_words ≡ true
      → is_no_motion b.modal.motion ≡ false
      → (check_non_modal float bytes g.gc b c).0 ≡ done b₁
      → check_motion_and_words float g.gc b₁ ≡ done b₂
      → is_motion_mode b₂.axis_command ≡ true
      → (execute_block float machine bytes b₂ g).1.gc.position ≡ target float bytes g.gc b
  motion_ends_at_target bytes b c g {b₁} {b₂} p t w n h₁ h₂ m =
      let (xyz, modal, _) =
        Ensures-done _ (check_non_modal float bytes g.gc b c).0
          (check_non_modal-target float bytes g.gc b c p t w) h₁ in
      let (xyz₂, modal₂, _) =
        Ensures-done _ (check_motion_and_words float g.gc b₁)
          (check_motion_and_words-SameTarget float g.gc b₁) h₂ in
      execute_block-position bytes b₂ g
        (ap (λ (x : Modal). is_no_motion x.motion) (modal₂ ∙ modal) ∙ n) m
      ∙ xyz₂
      ∙ xyz

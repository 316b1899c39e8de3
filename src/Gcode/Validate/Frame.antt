-- ===== src/Gcode/Validate/Frame.antt =====
-- grbl_gcode.c, STEP 3 of `gc_execute_line`: the checks convert values, and leave the commands, the modes
-- and the kind of the block.
use ecmc_plugin_grbl.Base.{ℕ, ◌≡◌, ◌∙◌, arith}
use ecmc_plugin_grbl.Base.Float.{Float}
use ecmc_plugin_grbl.Settings.{Config, Bytes}
use ecmc_plugin_grbl.Gcode.{Motion, ParserState, ParserBlock}
use ecmc_plugin_grbl.Gcode.Checks.{
  implicit_axis_command, check_feed_rate, spindle_speed, check_dwell, convert_units,
  check_tool_length, check_unused,
}
use ecmc_plugin_grbl.Gcode.Offsets.{
  setting_index_g28, setting_index_g30, read_coords, check_coord_system, check_coordinate_data,
  pre_compute_target, check_go_home, check_non_modal,
}
use ecmc_plugin_grbl.Gcode.MotionModes.{
  check_radius_arc, check_offset_arc, check_arc, check_probe, check_feed_motion, check_motion_mode,
  check_motion,
}
use ecmc_plugin_grbl.Gcode.Validate.{check_values, check_motion_and_words, validate}
use ecmc_plugin_grbl.Gcode.Result.{
  Result, Ensures, Ensures-bind, Ensures-map, Ensures-and_then, ◌>>=◌,
}

-- What all checks leave.
pub record Frame {F : Type 0} (b b' : ParserBlock F) : Type 0 where
  pub jog_motion : b'.flags.jog_motion ≡ b.flags.jog_motion
  pub modal : b'.modal ≡ b.modal
  pub non_modal_command : b'.non_modal_command ≡ b.non_modal_command
  pub axis_words : b'.axis_words ≡ b.axis_words
  pub command_words : b'.command_words ≡ b.command_words

Frame-trans : {F : Type 0} {a b c : ParserBlock F} → Frame a b → Frame b c → Frame a c
Frame-trans h k = record {
  jog_motion = k.jog_motion ∙ h.jog_motion;
  modal = k.modal ∙ h.modal;
  non_modal_command = k.non_modal_command ∙ h.non_modal_command;
  axis_words = k.axis_words ∙ h.axis_words;
  command_words = k.command_words ∙ h.command_words;
}

module _ (float : Float) where
  open float use {F}

  implicit_axis_command-Frame : (b : ParserBlock F) → Frame b (implicit_axis_command b)
  unfolding implicit_axis_command
  implicit_axis_command-Frame b = ground arith

  check_feed_rate-Frame :
      (gc : ParserState F) (b : ParserBlock F) → Ensures (Frame b) (check_feed_rate float gc b)
  unfolding check_feed_rate
  check_feed_rate-Frame gc b = ground arith

  check_dwell-Frame :
      (gc : ParserState F) (b : ParserBlock F)
      → Ensures (Frame b) (check_dwell float (spindle_speed float gc b))
  unfolding check_dwell spindle_speed
  check_dwell-Frame gc b = ground arith

  check_tool_length-Frame :
      (b : ParserBlock F) → Ensures (Frame b) (check_tool_length float (convert_units float b))
  unfolding check_tool_length convert_units
  check_tool_length-Frame b = ground arith

  check_unused-Frame : (b : ParserBlock F) → Ensures (Frame b) (check_unused b)
  unfolding check_unused
  check_unused-Frame b = ground arith

  check_radius_arc-Frame :
      (x y : F) (gc : ParserState F) (b : ParserBlock F)
      → Ensures (Frame b) (check_radius_arc float x y gc b)
  unfolding check_radius_arc
  check_radius_arc-Frame x y gc b = ground arith

  check_offset_arc-Frame :
      (x y : F) (b : ParserBlock F) → Ensures (Frame b) (check_offset_arc float x y b)
  unfolding check_offset_arc
  check_offset_arc-Frame x y b = ground arith

  check_probe-Frame :
      (gc : ParserState F) (b : ParserBlock F) → Ensures (Frame b) (check_probe float gc b)
  unfolding check_probe
  check_probe-Frame gc b = ground arith

  module _ (bytes : Bytes F) where
    check_coord_system-Frame :
        (gc : ParserState F) (b : ParserBlock F) (c : Config F)
        → Ensures (Frame b) (check_coord_system float bytes gc b c).0
    unfolding check_coord_system read_coords
    check_coord_system-Frame gc b c = ground arith

    check_coordinate_data-Frame :
        (gc : ParserState F) (b : ParserBlock F) (c : Config F)
        → Ensures (Frame b) (check_coordinate_data float bytes gc b c).0
    unfolding check_coordinate_data read_coords
    check_coordinate_data-Frame gc b c = ground arith

    check_go_home-Frame :
        (n : ℕ) (gc : ParserState F) (b : ParserBlock F) (c : Config F)
        → Ensures
            (Frame b)
            (check_go_home float bytes n gc (pre_compute_target float bytes gc b) c).0
    unfolding check_go_home read_coords pre_compute_target
    check_go_home-Frame n gc b c = ground arith

    pub check_non_modal-Frame :
        (gc : ParserState F) (b : ParserBlock F) (c : Config F)
        → Ensures (Frame b) (check_non_modal float bytes gc b c).0
    unfolding check_non_modal pre_compute_target
    check_non_modal-Frame gc b c = ground (
      arith,
      check_coordinate_data-Frame gc b c,
      check_go_home-Frame setting_index_g28 gc b c,
      check_go_home-Frame setting_index_g30 gc b c,
    )

  check_arc-Frame :
      (gc : ParserState F) (b : ParserBlock F) → Ensures (Frame b) (check_arc float gc b)
  unfolding check_arc
  check_arc-Frame gc b = ground arith

  check_feed_motion-Frame :
      (mode : Motion) (gc : ParserState F) (b : ParserBlock F)
      → Ensures (Frame b) (check_feed_motion float mode gc b)
  unfolding check_feed_motion
  check_feed_motion-Frame mode gc b = ground (arith, check_arc-Frame gc b, check_probe-Frame gc b)

  check_motion_mode-Frame :
      (mode : Motion) (gc : ParserState F) (b : ParserBlock F)
      → Ensures (Frame b) (check_motion_mode float mode gc b)
  unfolding check_motion_mode
  check_motion_mode-Frame mode gc b = ground (arith, check_feed_motion-Frame mode gc b)

  check_motion-Frame :
      (gc : ParserState F) (b : ParserBlock F) → Ensures (Frame b) (check_motion float gc b)
  unfolding check_motion
  check_motion-Frame gc b = ground (arith, check_motion_mode-Frame b.modal.motion gc b)

  -- A further step after one that has kept the frame.
  then-Frame :
      (b b₁ : ParserBlock F) (m : Result (ParserBlock F))
      → Frame b b₁
      → Ensures (Frame b₁) m
      → Ensures (Frame b) m
  then-Frame b b₁ m h k = Ensures-map (Frame b₁) (Frame b) m k λ b₂ l. Frame-trans h l

  check_values-Frame :
      (gc : ParserState F) (b : ParserBlock F) → Ensures (Frame b) (check_values float gc b)
  unfolding check_values
  check_values-Frame gc b =
      Ensures-bind (Frame b) _
        (check_feed_rate float gc (implicit_axis_command b)
          >>= (λ b₁. check_dwell float (spindle_speed float gc b₁)))
        (λ b₂. check_tool_length float (convert_units float b₂))
        (Ensures-bind (Frame b) _ (check_feed_rate float gc (implicit_axis_command b))
          (λ b₁. check_dwell float (spindle_speed float gc b₁))
          (then-Frame b _ (check_feed_rate float gc (implicit_axis_command b))
            (implicit_axis_command-Frame b) (check_feed_rate-Frame gc (implicit_axis_command b)))
          λ b₁ h. then-Frame b b₁ _ h (check_dwell-Frame gc b₁))
        λ b₂ h. then-Frame b b₂ _ h (check_tool_length-Frame b₂)

  pub check_motion_and_words-Frame :
      (gc : ParserState F) (b : ParserBlock F)
      → Ensures (Frame b) (check_motion_and_words float gc b)
  unfolding check_motion_and_words
  check_motion_and_words-Frame gc b =
      Ensures-bind (Frame b) _ (check_motion float gc b) check_unused (check_motion-Frame gc b)
        λ b₁ h. then-Frame b b₁ _ h (check_unused-Frame b₁)

  pub validate-Frame :
      (bytes : Bytes F) (gc : ParserState F) (b : ParserBlock F) (c : Config F)
      → Ensures (Frame b) (validate float bytes gc b c).0
  unfolding validate
  validate-Frame bytes gc b c =
      Ensures-and_then (Frame b) _ (check_values float gc b, c) _ (check_values-Frame gc b)
        λ b₁ c₁ h₁.
          Ensures-and_then (Frame b) _ (check_coord_system float bytes gc b₁ c₁) _
            (then-Frame b b₁ _ h₁ (check_coord_system-Frame bytes gc b₁ c₁))
            λ b₂ c₂ h₂.
              Ensures-and_then (Frame b) _ (check_non_modal float bytes gc b₂ c₂) _
                (then-Frame b b₂ _ h₂ (check_non_modal-Frame bytes gc b₂ c₂))
                λ b₃ c₃ h₃. then-Frame b b₃ _ h₃ (check_motion_and_words-Frame gc b₃)

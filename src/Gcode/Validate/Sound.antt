-- ===== src/Gcode/Validate/Sound.antt =====
-- grbl_gcode.c, STEP 3 of `gc_execute_line`: what holds of a block that has passed the checks.
use ecmc_plugin_grbl.Base.{◌≡◌, sym, ap, ◌∙◌, arith, true, false}
use ecmc_plugin_grbl.Base.Float.{Float}
use ecmc_plugin_grbl.Settings.{Config, Bytes}
use ecmc_plugin_grbl.Gcode.{Modal, ParserState, ParserBlock}
use ecmc_plugin_grbl.Gcode.Bits.{any, any_axis}
use ecmc_plugin_grbl.Gcode.Checks.{is_motion_mode, needs_feed_rate, check_unused}
use ecmc_plugin_grbl.Gcode.Offsets.{
  is_absolute_override, is_straight, check_coord_system, check_non_modal,
}
use ecmc_plugin_grbl.Gcode.MotionModes.{
  is_no_motion, check_radius_arc, check_offset_arc, check_arc, check_probe, check_feed_motion,
  check_motion_mode, check_motion,
}
use ecmc_plugin_grbl.Gcode.Validate.Frame.{
  Frame, check_non_modal-Frame, check_motion_and_words-Frame,
}
use ecmc_plugin_grbl.Gcode.Validate.{check_values, check_motion_and_words, validate}
use ecmc_plugin_grbl.Gcode.Result.{
  done, Ensures, Ensures-bind, Ensures-map, Ensures-and_then, Ensures-done, Ensures-any, both,
}

module _ (float : Float) where
  open float use {F, literal, eq}

  -- What the checks of the motion modes make sure.
  pub record MotionSound (b : ParserBlock F) : Type 0 where
    pub none_without_axes : is_no_motion b.modal.motion ≡ true → any_axis b.axis_words ≡ false
    pub moves_axes :
        is_no_motion b.modal.motion ≡ false
        → is_motion_mode b.axis_command ≡ true
        → any_axis b.axis_words ≡ true
    pub has_feed_rate :
        needs_feed_rate b.modal.motion ≡ true
        → is_motion_mode b.axis_command ≡ true
        → eq b.values.f (literal 0 1) ≡ false

  -- The checks of arcs and probes leave the feed rate, and want axis words.
  record ArcFrame (b b' : ParserBlock F) : Type 0 where
    modal : b'.modal ≡ b.modal
    f : b'.values.f ≡ b.values.f
    axis_words : any_axis b'.axis_words ≡ true

  check_radius_arc-ArcFrame :
      (x y : F) (gc : ParserState F) (b : ParserBlock F)
      → any_axis b.axis_words ≡ true
      → Ensures (ArcFrame b) (check_radius_arc float x y gc b)
  unfolding check_radius_arc
  check_radius_arc-ArcFrame x y gc b h = ground (arith, h)

  check_offset_arc-ArcFrame :
      (x y : F) (b : ParserBlock F)
      → any_axis b.axis_words ≡ true
      → Ensures (ArcFrame b) (check_offset_arc float x y b)
  unfolding check_offset_arc
  check_offset_arc-ArcFrame x y b h = ground (arith, h)

  check_arc-ArcFrame :
      (gc : ParserState F) (b : ParserBlock F) → Ensures (ArcFrame b) (check_arc float gc b)
  unfolding check_arc
  check_arc-ArcFrame gc b = ground arith

  check_probe-ArcFrame :
      (gc : ParserState F) (b : ParserBlock F) → Ensures (ArcFrame b) (check_probe float gc b)
  unfolding check_probe
  check_probe-ArcFrame gc b = ground arith

  check_feed_motion-MotionSound :
      (gc : ParserState F) (b : ParserBlock F)
      → is_no_motion b.modal.motion ≡ false
      → eq b.values.f (literal 0 1) ≡ false
      → Ensures MotionSound (check_feed_motion float b.modal.motion gc b)
  unfolding check_feed_motion
  check_feed_motion-MotionSound gc b n h =
      ground (arith, n, h, check_arc-ArcFrame gc b, check_probe-ArcFrame gc b)

  check_motion-MotionSound :
      (gc : ParserState F) (b : ParserBlock F) → Ensures MotionSound (check_motion float gc b)
  unfolding check_motion check_motion_mode
  check_motion-MotionSound gc b = ground (arith, check_feed_motion-MotionSound gc b)

  check_unused-MotionSound :
      (b : ParserBlock F)
      → MotionSound b
      → Ensures (λ b'. MotionSound b' × (any b'.value_words ≡ false)) (check_unused b)
  unfolding check_unused
  check_unused-MotionSound b m = ground (arith, m)

  check_motion_and_words-MotionSound :
      (gc : ParserState F) (b : ParserBlock F)
      → Ensures
          (λ b'. MotionSound b' × (any b'.value_words ≡ false))
          (check_motion_and_words float gc b)
  unfolding check_motion_and_words
  check_motion_and_words-MotionSound gc b =
      Ensures-bind MotionSound _ (check_motion float gc b) check_unused
        (check_motion-MotionSound gc b) check_unused-MotionSound

  -- G53 is only for G0 and G1.
  abbrev StraightOverride : ParserBlock F → Type 0
  StraightOverride b =
      is_absolute_override b.non_modal_command ≡ true → is_straight b.modal.motion ≡ true

  Frame-StraightOverride :
      {b b' : ParserBlock F} → Frame b b' → StraightOverride b → StraightOverride b'
  Frame-StraightOverride h k o =
      ap (λ (m : Modal). is_straight m.motion) h.modal
      ∙ k (sym (ap is_absolute_override h.non_modal_command) ∙ o)

  override_checked :
      (bytes : Bytes F) (gc : ParserState F) (b : ParserBlock F) (c : Config F)
      → Ensures (λ _. StraightOverride b) (check_non_modal float bytes gc b c).0
  unfolding check_non_modal
  override_checked bytes gc b c = ground arith

  check_non_modal-StraightOverride :
      (bytes : Bytes F) (gc : ParserState F) (b : ParserBlock F) (c : Config F)
      → Ensures StraightOverride (check_non_modal float bytes gc b c).0
  check_non_modal-StraightOverride bytes gc b c =
      Ensures-map (λ b'. Frame b b' × StraightOverride b) _ (check_non_modal float bytes gc b c).0
        (both _ _ (check_non_modal float bytes gc b c).0 (check_non_modal-Frame float bytes gc b c)
          (override_checked bytes gc b c))
        λ b' (h, k). Frame-StraightOverride h k

  -- A block that has passed the checks.
  pub record Sound (b : ParserBlock F) : Type 0 where
    pub motion : MotionSound b
    pub words_used : any b.value_words ≡ false
    pub straight_override :
        is_absolute_override b.non_modal_command ≡ true → is_straight b.modal.motion ≡ true

  finish-Sound :
      (gc : ParserState F) (b : ParserBlock F)
      → StraightOverride b
      → Ensures Sound (check_motion_and_words float gc b)
  finish-Sound gc b h =
      Ensures-map (λ b'. (MotionSound b' × (any b'.value_words ≡ false)) × Frame b b') _
        (check_motion_and_words float gc b)
        (both _ _ (check_motion_and_words float gc b) (check_motion_and_words-MotionSound gc b)
          (check_motion_and_words-Frame float gc b))
        λ b' (m, k). record {
          motion = m.0;
          words_used = m.1;
          straight_override = Frame-StraightOverride k h;
        }

  -- A block that passes the checks has no axis words with G80, and has some with any other motion that
  -- is to be executed; that motion has a feed rate other than zero unless it is G0; G53 comes with G0
  -- or G1 only; and every word is used.
  pub validate-Sound :
      (bytes : Bytes F) (gc : ParserState F) (b : ParserBlock F) (c : Config F) {b' : ParserBlock F}
      → (validate float bytes gc b c).0 ≡ done b'
      → Sound b'
  unfolding validate
  validate-Sound bytes gc b c = Ensures-done Sound (validate float bytes gc b c).0 (
      Ensures-and_then (λ _. Unit) Sound (check_values float gc b, c) _
        (Ensures-any (check_values float gc b))
        λ b₁ c₁ _.
          Ensures-and_then (λ _. Unit) Sound (check_coord_system float bytes gc b₁ c₁) _
            (Ensures-any (check_coord_system float bytes gc b₁ c₁).0)
            λ b₂ c₂ _.
              Ensures-and_then StraightOverride Sound (check_non_modal float bytes gc b₂ c₂) _
                (check_non_modal-StraightOverride bytes gc b₂ c₂) λ b₃ c₃ h. finish-Sound gc b₃ h)

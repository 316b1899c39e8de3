-- ===== src/Gcode/Jog.antt =====
-- grbl_gcode.c and grbl_jog.c: what a jog leaves of the parser's state.
use ecmc_plugin_grbl.Base.{ℕ, true, List, ◌≡◌, refl, ◌∙◌, arith}
use ecmc_plugin_grbl.Base.Float.{Float}
use ecmc_plugin_grbl.Settings.{Config, Bytes}
use ecmc_plugin_grbl.Gcode.{ParserState, ParserBlock, Modules, Grbl}
use ecmc_plugin_grbl.Gcode.Validate.{validate}
use ecmc_plugin_grbl.Gcode.Validate.Frame.{validate-Frame}
use ecmc_plugin_grbl.Gcode.Accepted.{parse_line-jog}
use ecmc_plugin_grbl.Gcode.Line.{
  starts_jog, parse_line, check_line, jog_execute, execute_jog, execute_checked, gc_execute_line,
}
use ecmc_plugin_grbl.Gcode.Result.{Result, done, fail, Ensures, Ensures-map, Ensures-and_then}

module _ (float : Float) (bytes : Bytes (float.F)) where
  open float use {F}

  -- The checks do not change whether a line is a jog.
  pub check_line-jog :
      (line : List ℕ) (gc : ParserState F) (c : Config F)
      → Ensures (λ b. b.flags.jog_motion ≡ starts_jog line) (check_line float bytes line gc c).0
  unfolding check_line
  check_line-jog line gc c =
      Ensures-and_then (λ b. b.flags.jog_motion ≡ starts_jog line) _ (parse_line float line gc, c)
        (validate float bytes gc) (parse_line-jog float line gc)
        λ b c₁ h.
          Ensures-map _ _ (validate float bytes gc b c₁).0 (validate-Frame float bytes gc b c₁)
            λ b' k. k.jog_motion ∙ h

module _ (float : Float) {S : Type 0} (machine : Modules (float.F) S)
    (bytes : Bytes (float.F)) where
  open float use {F}

  abbrev OnlyPosition : Grbl F S → Grbl F S → Type 0
  OnlyPosition g g' = g'.gc ≡ record g.gc { position = g'.gc.position }

  execute_jog-OnlyPosition :
      (b : ParserBlock F) (g : Grbl F S) → OnlyPosition g (execute_jog float machine b g).1
  unfolding execute_jog jog_execute
  execute_jog-OnlyPosition b g = ground arith

  execute_checked-OnlyPosition :
      (r : Result (ParserBlock F)) (g : Grbl F S)
      → Ensures (λ b. b.flags.jog_motion ≡ true) r
      → OnlyPosition g (execute_checked float machine bytes r g).1
  unfolding execute_checked
  execute_checked-OnlyPosition (fail s) g h = refl
  execute_checked-OnlyPosition (done b) g h = ground (arith, h, execute_jog-OnlyPosition b g)

  -- A jog, whatever its words are and whatever it is answered with, changes nothing of the parser's
  -- state but the position.
  pub jog_keeps_state :
      (line : List ℕ) (g : Grbl F S)
      → starts_jog line ≡ true
      → let g' = (gc_execute_line float machine bytes line g).1 in
        g'.gc ≡ record g.gc { position = g'.gc.position }
  unfolding gc_execute_line
  jog_keeps_state line g h =
      let (r, c) = check_line float bytes line g.gc g.config in
      ground (
        arith,
        execute_checked-OnlyPosition r (record g { config = c })
            (Ensures-map (λ b. b.flags.jog_motion ≡ starts_jog line) _ r
              (check_line-jog float bytes line g.gc g.config) λ b k. k ∙ h),
      )

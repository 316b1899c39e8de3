-- ===== src/Gcode/Refused.antt =====
-- grbl_gcode.c: what a line leaves behind that `gc_execute_line` answers with an error.
use ecmc_plugin_grbl.Base.{
  List, ℕ, ◌-◌, ltb, ◌≡◌, ◌≢◌, ◌⊎◌, inl, inr, refl, subst, if◌then◌else◌, arith,
}
use ecmc_plugin_grbl.Base.Float.{Float, Vec3}
use ecmc_plugin_grbl.Settings.{Config, Bytes, read_coord_data}
use ecmc_plugin_grbl.Status.{ok, setting_read_fail}
use ecmc_plugin_grbl.Gcode.{ParserState, ParserBlock, Modules, Grbl}
use ecmc_plugin_grbl.Gcode.Offsets.{
  read_coords, check_coord_system, check_coordinate_data, check_go_home, check_non_modal,
  with_coord_system, with_coordinate_data, with_home, pre_compute_target, setting_index_g28,
  setting_index_g30,
}
use ecmc_plugin_grbl.Gcode.Validate.{validate, check_values}
use ecmc_plugin_grbl.Gcode.Motions.{end_program, complete_program, execute_program_flow}
use ecmc_plugin_grbl.Gcode.Line.{
  parse_line, check_line, jog_execute, execute_jog, execute_block, execute_checked, gc_execute_line,
}
use ecmc_plugin_grbl.Gcode.Result.{Result, done, fail, and_then}

-- The settings are as before, or a read of the EEPROM has failed.
abbrev pub Reads {ℓ} : {A : Type ℓ} {C : Type 0} → C → Result A × C → Type ℓ
Reads c (r, c') = (c' ≡ c) ⊎ (r ≡ fail setting_read_fail)

Reads-and_then :
    {A B C : Type 0} (c : C) (m : Result A × C) (f : A → C → Result B × C)
    → Reads c m
    → ((a : A) (c' : C) → Reads c' (f a c'))
    → Reads c (and_then m f)
Reads-and_then c (done a, c') f (inl h) k = subst (λ d. Reads d (f a c')) h (k a c')
Reads-and_then c (done a, c') f (inr h) k = cc
Reads-and_then c (fail s, c') f (inl h) k = inl h
Reads-and_then c (fail s, c') f (inr h) k = inr (cc)

module _ (float : Float) (bytes : Bytes (float.F)) where
  open float use {F, literal, to_uint8}

  read_coords-Reads :
      (n : ℕ) (c : Config F) (use_coords : Vec3 F → ParserBlock F)
      → Reads c (read_coords float bytes n c use_coords)
  unfolding read_coords read_coord_data
  read_coords-Reads n c use_coords = ground arith

  check_coord_system-Reads :
      (gc : ParserState F) (b : ParserBlock F) (c : Config F)
      → Reads c (check_coord_system float bytes gc b c)
  unfolding check_coord_system
  check_coord_system-Reads gc b c =
      ground (arith, read_coords-Reads b.modal.coord_select c (with_coord_system float bytes b))

  check_coordinate_data-Reads :
      (gc : ParserState F) (b : ParserBlock F) (c : Config F)
      → Reads c (check_coordinate_data float bytes gc b c)
  unfolding check_coordinate_data
  check_coordinate_data-Reads gc b c =
      ground (arith, data-Reads (if ltb 0 p then p - 1 else b.modal.coord_select))
    where
      p : ℕ
      p = to_uint8 b.values.p

      data-Reads :
          (n : ℕ) → Reads c (read_coords float bytes n c (with_coordinate_data float bytes gc b n))
      data-Reads n = read_coords-Reads n c (with_coordinate_data float bytes gc b n)

  check_go_home-Reads :
      (n : ℕ) (gc : ParserState F) (b : ParserBlock F) (c : Config F)
      → Reads c (check_go_home float bytes n gc b c)
  unfolding check_go_home
  check_go_home-Reads n gc b c = read_coords-Reads n c (with_home float bytes gc b)

  check_non_modal-Reads :
      (gc : ParserState F) (b : ParserBlock F) (c : Config F)
      → Reads c (check_non_modal float bytes gc b c)
  unfolding check_non_modal
  check_non_modal-Reads gc b c =
      let moved = pre_compute_target float bytes gc b in
      ground (
        arith,
        check_coordinate_data-Reads gc b c,
        check_go_home-Reads setting_index_g28 gc moved c,
        check_go_home-Reads setting_index_g30 gc moved c,
      )

  check_line-Reads :
      (line : List ℕ) (gc : ParserState F) (c : Config F)
      → Reads c (check_line float bytes line gc c)
  unfolding check_line validate
  check_line-Reads line gc c =
      Reads-and_then c (parse_line float line gc, c) _ (inl refl)
        λ b c₀.
          Reads-and_then c₀ (check_values float gc b, c₀) _ (inl refl)
            λ b₁ c₁.
              Reads-and_then c₁ (check_coord_system float bytes gc b₁ c₁) _
                (check_coord_system-Reads gc b₁ c₁)
                λ b₂ c₂.
                  Reads-and_then c₂ (check_non_modal float bytes gc b₂ c₂) _
                    (check_non_modal-Reads gc b₂ c₂) λ b₃ c₃. inl refl

module _ (float : Float) {S : Type 0} (machine : Modules (float.F) S)
    (bytes : Bytes (float.F)) where
  open float use {F}

  -- A jog that is refused has done nothing.
  execute_jog_refused :
      (b : ParserBlock F) (g : Grbl F S)
      → let (s, g') = execute_jog float machine b g in (s ≡ ok) ⊎ (g' ≡ g)
  unfolding execute_jog jog_execute
  execute_jog_refused b g = ground arith

  -- A block that passes the checks fails only at the end of a program.
  execute_block_status :
      (b : ParserBlock F) (g : Grbl F S)
      → let (s, g') = execute_block float machine bytes b g in (s ≡ ok) ⊎ (s ≡ setting_read_fail)
  unfolding execute_block execute_program_flow complete_program end_program
  execute_block_status b g = ground arith

  execute_checked_refused :
      (r : Result (ParserBlock F)) (g : Grbl F S)
      → let (s, g') = execute_checked float machine bytes r g in
        (s ≡ ok) ⊎ (s ≡ setting_read_fail) ⊎ (g' ≡ g)
  unfolding execute_checked
  execute_checked_refused (fail s) g = inr (inr refl)
  execute_checked_refused (done b) g =
      ground (arith, execute_jog_refused b g, execute_block_status b g)

  -- A line that is answered with an error changes nothing of the parser's state, the settings, the
  -- EEPROM and the other modules, unless the error is that a read of the EEPROM has failed.
  pub refused_unchanged :
      (line : List ℕ) (g : Grbl F S)
      → let (s, g') = gc_execute_line float machine bytes line g in
        s ≢ ok → s ≢ setting_read_fail → g' ≡ g
  unfolding gc_execute_line
  refused_unchanged line g =
      let (r, c) = check_line float bytes line g.gc g.config in
      ground (
        arith,
        check_line-Reads float bytes line g.gc g.config,
        execute_checked_refused r (record g { config = c }),
      )

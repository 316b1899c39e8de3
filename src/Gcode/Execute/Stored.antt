-- ===== src/Gcode/Execute/Stored.antt =====
-- grbl_gcode.c and grbl_settings.c: what G10 and G28.1 store, and G54 to G59 and G28 find again.
use ecmc_plugin_grbl.Base.{
  ℕ, ◌≤◌, ◌<◌, true, false, ◌≡◌, refl, arith, ◌==◌, length, Bool, not, ◌||◌, if◌then◌else◌, ap, sym,
  subst, ◌∙◌,
}
use ecmc_plugin_grbl.Base.Float.{Float, Vec3, vec3}
use ecmc_plugin_grbl.Eeprom.{eeprom_mem_size}
use ecmc_plugin_grbl.Planner.{LineData}
use ecmc_plugin_grbl.Settings.{Config, Bytes, write_coord_data}
use ecmc_plugin_grbl.Settings.Persist.{read-write_coord_data}
use ecmc_plugin_grbl.Gcode.{
  NonModal, set_home_0, go_home_0, ParserState, ParserBlock, Modules, Grbl,
}
use ecmc_plugin_grbl.Gcode.Bits.{has, any_axis, group_g12}
use ecmc_plugin_grbl.Gcode.Offsets.{
  setting_index_g28, read_coords, with_coord_system, with_home, check_coord_system, check_go_home,
  check_non_modal, pre_compute_target,
}
use ecmc_plugin_grbl.Gcode.Execute.{set_coordinates, execute_non_modal, go_home, rapid}
use ecmc_plugin_grbl.Gcode.Result.{done}

-- Home on the axes whose word is given, or on all when none is.
abbrev pub home_position : {F : Type 0} → Vec3 Bool → Vec3 F → Vec3 F → Vec3 F
home_position words home here =
    let goes = λ (word : Bool). word || not (any_axis words) in
    vec3 (if goes words.x then home.x else here.x) (if goes words.y then home.y else here.y)
      (if goes words.z then home.z else here.z)

module _ (float : Float) {S : Type 0} (machine : Modules (float.F) S)
    (bytes : Bytes (float.F)) where
  open float use {F, literal}

  read_coords-write_coord_data :
      (n : ℕ) (v : Vec3 F) (c : Config F) (use_coords : Vec3 F → ParserBlock F)
      → n ≤ 7
      → length c.eeprom ≡ eeprom_mem_size
      → (read_coords float bytes n (write_coord_data bytes n v c) use_coords).0
        ≡ done (use_coords v)
  unfolding read_coords
  read_coords-write_coord_data n v c use_coords hn h =
      rw (read-write_coord_data bytes (literal 0 1) n v c hn h) refl

  execute-set_home :
      (pl : LineData F) (b : ParserBlock F) (g : Grbl F S)
      → b.non_modal_command ≡ set_home_0
      → (execute_non_modal float machine bytes pl b g).config
        ≡ write_coord_data bytes setting_index_g28 g.gc.position g.config
  unfolding execute_non_modal
  execute-set_home pl b g e = rw e refl

  check-go_home :
      (b : ParserBlock F) (gc : ParserState F) (c : Config F) (home : Vec3 F)
      → b.non_modal_command ≡ go_home_0
      → length c.eeprom ≡ eeprom_mem_size
      → (check_non_modal float bytes gc b (write_coord_data bytes setting_index_g28 home c)).0
        ≡ done (with_home float bytes gc (pre_compute_target float bytes gc b) home)
  unfolding check_non_modal check_go_home
  check-go_home b gc c home e full =
      let with_command = λ (n : NonModal). record b { non_modal_command = n } in
      subst
        (λ n.
          (check_non_modal float bytes gc (with_command n)
            (write_coord_data bytes setting_index_g28 home c)).0
          ≡ done
              (with_home float bytes gc (pre_compute_target float bytes gc (with_command n)) home))
        (sym e)
        (read_coords-write_coord_data setting_index_g28 home c
          (with_home float bytes gc (pre_compute_target float bytes gc (with_command go_home_0)))
          (omega arith) full)

  -- A block goes home on the axes whose word is given, or else on all.
  goes_home :
      (b : ParserBlock F) (gc : ParserState F) (home : Vec3 F)
      → (with_home float bytes gc (pre_compute_target float bytes gc b) home).values.ijk
        ≡ home_position b.axis_words home gc.position
  unfolding pre_compute_target
  goes_home b gc home = ground arith

  same_command :
      (b : ParserBlock F) (gc : ParserState F) (home : Vec3 F)
      → (with_home float bytes gc (pre_compute_target float bytes gc b) home).non_modal_command
        ≡ b.non_modal_command
  unfolding pre_compute_target
  same_command b gc home = ground arith

  execute-go_home :
      (pl : LineData F) (b : ParserBlock F) (g : Grbl F S)
      → b.non_modal_command ≡ go_home_0
      → ((execute_non_modal float machine bytes pl b g).gc.position ≡ b.values.ijk)
        × ((passed : S) × ((execute_non_modal float machine bytes pl b g).rest
              ≡ machine.mc_line b.values.ijk (rapid float machine pl) passed))
  unfolding execute_non_modal go_home
  execute-go_home pl b g e = rw e (refl, (_, refl))

  -- G28.1 and, with that EEPROM, later G28: when the EEPROM has its full size, the checks accept the
  -- non-modal command of the G28 block, and its execution ends with a rapid motion to the position at which G28.1 was executed, on the
  -- axes whose word is given or on all when none is, and leaves the parser at it. The other axes stay
  -- where they were before G28.
  pub set_home-go_home :
      (pl pl' : LineData F) (b b' : ParserBlock F) (g h : Grbl F S)
      → b.non_modal_command ≡ set_home_0
      → b'.non_modal_command ≡ go_home_0
      → length g.config.eeprom ≡ eeprom_mem_size
      → h.config ≡ (execute_non_modal float machine bytes pl b g).config
      → let home = home_position b'.axis_words g.gc.position h.gc.position in
        (b₂ : ParserBlock F) × ((check_non_modal float bytes h.gc b' h.config).0 ≡ done b₂)
        × ((execute_non_modal float machine bytes pl' b₂ h).gc.position ≡ home)
        × ((passed : S) × ((execute_non_modal float machine bytes pl' b₂ h).rest
              ≡ machine.mc_line home (rapid float machine pl') passed))
  set_home-go_home pl pl' b b' g h e e' full same =
      let moved = pre_compute_target float bytes h.gc b' in
      let b₂ = with_home float bytes h.gc moved g.gc.position in
      let at_home = goes_home b' h.gc g.gc.position in
      let (position, (passed, rest)) =
        execute-go_home pl' b₂ h (same_command b' h.gc g.gc.position ∙ e') in
      (
        b₂,
        ap (λ c. (check_non_modal float bytes h.gc b' c).0) (same ∙ execute-set_home pl b g e)
            ∙ check-go_home b' h.gc g.config g.gc.position e' full,
        position ∙ at_home,
        (passed, rest ∙ ap (λ v. machine.mc_line v (rapid float machine pl') passed) at_home),
      )

  -- G10 and then G54 to G59: with an EEPROM of full size, selecting the coordinate system that was
  -- stored last gives its data to the block, unless it is the selected system already.
  pub set_coordinates-select :
      (b b' : ParserBlock F) (g : Grbl F S) (gc : ParserState F)
      → b.coord_select < 6
      → length g.config.eeprom ≡ eeprom_mem_size
      → has b'.command_words group_g12 ≡ true
      → b'.modal.coord_select ≡ b.coord_select
      → (gc.modal.coord_select == b'.modal.coord_select) ≡ false
      → let g' = set_coordinates float machine bytes b g in
        (check_coord_system float bytes gc b' g'.config).0
        ≡ done (record b' { block_coord_system = b.values.ijk })
  unfolding set_coordinates check_coord_system
  set_coordinates-select b b' g gc r h w e n = ground (
    arith,
    r,
    w,
    e,
    n,
    read_coords-write_coord_data b.coord_select b.values.ijk g.config
        (with_coord_system float bytes b') (omega (arith, r)) h,
  )

-- ===== src/Settings.antt =====
-- grbl_settings.c: the global settings, their storage in the EEPROM, and the commands that change
-- them.
pub mod Layout
pub mod Commands
pub mod Restore
pub mod Store
pub mod Persist
use ecmc_plugin_grbl.Base.{
  ℕ, zero, suc, ◌+◌, ◌-◌, ◌*◌, Bool, true, false, not, ◌||◌, ◌&&◌, List, [], ◌∷◌, ◌++◌, Option,
  none, some, ◌≡◌, ◌≤◌, ltb, leb, ◌==◌, if◌then◌else◌, length, replicate,
}
use ecmc_plugin_grbl.Base.Float.{Float, Vec3, vec3}
use ecmc_plugin_grbl.Eeprom.{
  get_char, put_char, memcpy_to_eeprom_with_checksum, memcpy_from_eeprom_with_checksum,
}
use ecmc_plugin_grbl.Status.{
  Status, ok, negative_value, invalid_statement, setting_step_pulse_min, soft_limit_error,
}

-- `settings.flags`, BITFLAG_REPORT_INCHES (bit 0) to BITFLAG_INVERT_PROBE_PIN (bit 7).
pub record Flags : Type 0 where
  pub report_inches : Bool
  pub laser_mode : Bool
  pub invert_st_enable : Bool
  pub hard_limit_enable : Bool
  pub homing_enable : Bool
  pub soft_limit_enable : Bool
  pub invert_limit_pins : Bool
  pub invert_probe_pin : Bool

-- `settings_t`
pub record Settings (F : Type 0) : Type 0 where
  pub steps_per_mm : Vec3 F
  pub max_rate : Vec3 F
  pub acceleration : Vec3 F
  pub max_travel : Vec3 F
  pub pulse_microseconds : ℕ
  pub step_invert_mask : ℕ
  pub dir_invert_mask : ℕ
  pub stepper_idle_lock_time : ℕ
  pub status_report_mask : ℕ
  pub junction_deviation : F
  pub arc_tolerance : F
  pub rpm_max : F
  pub rpm_min : F
  pub flags : Flags
  pub homing_dir_mask : ℕ
  pub homing_feed_rate : F
  pub homing_seek_rate : F
  pub homing_debounce_delay : ℕ
  pub homing_pulloff : F

-- The calls of other modules, in order.
pub data Call : Type 0 where
  generate_step_dir_invert_masks configure_probe_invert_mask flag_wco_change : Call
  limits_init spindle_init buffer_synchronize : Call

-- What the module keeps, and the calls that it has made.
pub record Config (F : Type 0) : Type 0 where
  pub settings : Settings F
  pub eeprom : List ℕ
  pub calls : List Call

-- The bytes that C gives to a `settings_t` and to a `float[N_AXIS]`.
pub record Bytes (F : Type 0) : Type 0 where
  pub of_settings : Settings F → List ℕ
  pub to_settings : List ℕ → Settings F
  pub of_coords : Vec3 F → List ℕ
  pub to_coords : List ℕ → Vec3 F
  pub settings_size : ℕ
  pub to-of_settings : (s : Settings F) → to_settings (of_settings s) ≡ s
  pub length-of_settings : (s : Settings F) → length (of_settings s) ≡ settings_size
  pub settings_size-le : settings_size ≤ 510
  pub to-of_coords : (v : Vec3 F) → to_coords (of_coords v) ≡ v
  pub length-of_coords : (v : Vec3 F) → length (of_coords v) ≡ 12

abbrev pub line_buffer_size : ℕ
line_buffer_size = 80

abbrev pub settings_version : ℕ
settings_version = 10

abbrev pub n_coordinate_system : ℕ
n_coordinate_system = 6

-- EEPROM_ADDR_GLOBAL, and the addresses of coordinate data, startup lines and the build info.
abbrev pub addr_global : ℕ
addr_global = 1

abbrev pub coord_addr : ℕ → ℕ
coord_addr coord_select = coord_select * (4 * 3 + 1) + 512

abbrev pub startup_addr : ℕ → ℕ
startup_addr n = n * (line_buffer_size + 1) + 768

abbrev pub addr_build_info : ℕ
addr_build_info = 942

-- The first byte of a line set to zero, as for a block that could not be read.
abbrev pub cleared : List ℕ → List ℕ
cleared [] = []
cleared (c ∷ line) = 0 ∷ line

module _ {F : Type 0} where
  abbrev pub log : Call → Config F → Config F
  log call c = record c { calls = c.calls ++ call ∷ [] }

  pub store_startup_line : ℕ → List ℕ → Config F → Config F
  store_startup_line n line c =
      let synced = log buffer_synchronize c in
      record synced { eeprom = memcpy_to_eeprom_with_checksum c.eeprom (startup_addr n) line }

  pub store_build_info : List ℕ → Config F → Config F
  store_build_info line c = record c {
    eeprom = memcpy_to_eeprom_with_checksum c.eeprom addr_build_info line;
  }

  pub read_startup_line : ℕ → Config F → Bool × List ℕ × Config F
  unfolding store_startup_line
  read_startup_line n c =
      let (line, valid) =
        memcpy_from_eeprom_with_checksum c.eeprom (startup_addr n) line_buffer_size in
      if valid
      then (true, line, c)
      else (false, cleared line, store_startup_line n (cleared line) c)

  pub read_build_info : Config F → Bool × List ℕ × Config F
  unfolding store_build_info
  read_build_info c =
      let (line, valid) =
        memcpy_from_eeprom_with_checksum c.eeprom addr_build_info line_buffer_size in
      if valid then (true, line, c) else (false, cleared line, store_build_info (cleared line) c)

  module _ (bytes : Bytes F) where
    open bytes use {of_settings, to_settings, of_coords, to_coords, settings_size}

    unfoldable pub write_coord_data : ℕ → Vec3 F → Config F → Config F
    write_coord_data coord_select coords c =
        let synced = log buffer_synchronize c in
        record synced {
          eeprom =
              memcpy_to_eeprom_with_checksum c.eeprom (coord_addr coord_select) (of_coords coords);
        }

    pub write_global_settings : Config F → Config F
    write_global_settings c = record c {
      eeprom =
          memcpy_to_eeprom_with_checksum (put_char c.eeprom 0 settings_version) addr_global
            (of_settings c.settings);
    }

    -- The settings are overwritten also by a block whose checksum does not agree.
    pub read_global_settings : Config F → Bool × Config F
    read_global_settings c =
        let (block, valid) = memcpy_from_eeprom_with_checksum c.eeprom addr_global settings_size in
        if get_char c.eeprom 0 == settings_version
        then (valid, record c { settings = to_settings block })
        else (false, c)

    -- The zero vector that a block of coordinates without a valid checksum is reset to.
    unfoldable pub read_coord_data : F → ℕ → Config F → Bool × Vec3 F × Config F
    unfolding write_coord_data
    read_coord_data zero_value coord_select c =
        let (block, valid) =
          memcpy_from_eeprom_with_checksum c.eeprom (coord_addr coord_select) 12 in
        let reset = vec3 zero_value zero_value zero_value in
        if valid
        then (true, to_coords block, c)
        else (false, reset, write_coord_data coord_select reset c)

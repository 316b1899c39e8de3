-- ===== src/Settings/Restore.antt =====
-- grbl_settings.c: `settings_restore` and `settings_init`.
use ecmc_plugin_grbl.Base.{ℕ, zero, suc, ◌+◌, Bool, true, false, if◌then◌else◌}
use ecmc_plugin_grbl.Base.Float.{Float, vec3}
use ecmc_plugin_grbl.Eeprom.{put_char}
use ecmc_plugin_grbl.Settings.{
  Settings, Config, Bytes, write_global_settings, write_coord_data, startup_addr, addr_build_info,
  read_global_settings,
}

-- The four parts of an EEPROM that `settings_restore` can reset.
pub record Restore : Type 0 where
  pub defaults : Bool
  pub parameters : Bool
  pub startup_lines : Bool
  pub build_info : Bool

abbrev pub restore_all : Restore
restore_all = record { defaults = true; parameters = true; startup_lines = true; build_info = true }

module _ (fl : Float) (bytes : Bytes fl.F) where
  open fl use {F, literal, neg}

  abbrev number : ℕ → F
  number n = literal n 1

  -- DEFAULTS_GENERIC
  unfoldable pub defaults : Settings F
  defaults = record {
    steps_per_mm = vec3 (number 250) (number 250) (number 250);
    max_rate = vec3 (number 500) (number 500) (number 500);
    acceleration = vec3 (number 36000) (number 36000) (number 36000);
    max_travel = vec3 (neg (number 200)) (neg (number 200)) (neg (number 200));
    pulse_microseconds = 10;
    step_invert_mask = 0;
    dir_invert_mask = 0;
    stepper_idle_lock_time = 25;
    status_report_mask = 1;
    junction_deviation = literal 1 100;
    arc_tolerance = literal 2 1000;
    rpm_max = number 1000;
    rpm_min = number 0;
    flags = record {
      report_inches = false;
      laser_mode = false;
      invert_st_enable = false;
      hard_limit_enable = false;
      homing_enable = false;
      soft_limit_enable = false;
      invert_limit_pins = false;
      invert_probe_pin = false;
    };
    homing_dir_mask = 0;
    homing_feed_rate = number 25;
    homing_seek_rate = number 500;
    homing_debounce_delay = 250;
    homing_pulloff = number 1;
  }

  -- `for (idx=0; idx <= SETTING_INDEX_NCOORD; idx++)`, with the rounds left.
  unfoldable pub clear_coords : ℕ → ℕ → Config F → Config F
  clear_coords zero idx c = c
  clear_coords (suc left) idx c =
      clear_coords left (idx + 1)
        (write_coord_data bytes idx (vec3 (number 0) (number 0) (number 0)) c)

  abbrev pub put : ℕ → ℕ → Config F → Config F
  put addr byte c = record c { eeprom = put_char c.eeprom addr byte }

  unfoldable pub settings_restore : Restore → Config F → Config F
  unfolding clear_coords
  settings_restore flags c =
      let c1 =
        if flags.defaults
        then write_global_settings bytes (record c { settings = defaults })
        else c in
      let c2 = if flags.parameters then clear_coords 8 0 c1 else c1 in
      let c3 =
        if flags.startup_lines
        then put (startup_addr 1 + 1) 0
            (put (startup_addr 1) 0 (put (startup_addr 0 + 1) 0 (put (startup_addr 0) 0 c2)))
        else c2 in
      if flags.build_info then put (addr_build_info + 1) 0 (put addr_build_info 0 c3) else c3

  unfoldable pub settings_init : Config F → Bool × Config F
  unfolding settings_restore
  settings_init c =
      let (valid, loaded) = read_global_settings bytes c in
      if valid then (true, loaded) else (false, settings_restore restore_all loaded)

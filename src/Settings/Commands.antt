-- ===== src/Settings/Commands.antt =====
-- grbl_settings.c: `settings_store_global_setting`.
use ecmc_plugin_grbl.Base.{
  ℕ, zero, suc, ◌+◌, ◌-◌, false, not, ◌||◌, ◌&&◌, Option, none, some, ltb, leb, ◌==◌, if◌then◌else◌,
}
use ecmc_plugin_grbl.Base.Float.{Float, Vec3}
use ecmc_plugin_grbl.Status.{
  Status, ok, negative_value, invalid_statement, setting_step_pulse_min, soft_limit_error,
}
use ecmc_plugin_grbl.Settings.{
  Flags, Settings, generate_step_dir_invert_masks, configure_probe_invert_mask, flag_wco_change,
  limits_init, spindle_init, Config, Bytes, log, write_global_settings,
}

abbrev pub axis_settings_start_val : ℕ
axis_settings_start_val = 100

abbrev pub axis_settings_increment : ℕ
axis_settings_increment = 10

-- `while (set_idx < AXIS_N_SETTINGS)`, with the settings left: the setting and the axis that the
-- number stands for.
unfoldable pub find_axis_setting : ℕ → ℕ → ℕ → Option (ℕ × ℕ)
find_axis_setting zero parameter set_idx = none
find_axis_setting (suc left) parameter set_idx =
    let rest = find_axis_setting left (parameter - axis_settings_increment) (set_idx + 1) in
    if ltb parameter 3
    then some (set_idx, parameter)
    else if ltb parameter axis_settings_increment || left == 0
    then none
    else rest

abbrev pub set_axis : {F : Type 0} → Vec3 F → ℕ → F → Vec3 F
set_axis v idx a =
    if idx == 0
    then record v { x = a }
    else if idx == 1
    then record v { y = a }
    else record v { z = a }

module _ (fl : Float) (bytes : Bytes fl.F) where
  open fl use {F, literal, mul, neg, lt, to_uint8}

  abbrev pub number : ℕ → F
  number n = literal n 1

  -- `settings.acceleration[parameter] = value*60*60`, and the other three axis settings.
  unfoldable pub store_axis_setting : ℕ → ℕ → F → Settings F → Settings F
  store_axis_setting set_idx idx value s =
      if set_idx == 0
      then record s { steps_per_mm = set_axis s.steps_per_mm idx value }
      else if set_idx == 1
      then record s { max_rate = set_axis s.max_rate idx value }
      else if set_idx == 2
      then record s {
        acceleration = set_axis s.acceleration idx (mul (mul value (number 60)) (number 60));
      }
      else record s { max_travel = set_axis s.max_travel idx (neg value) }

  abbrev pub with_settings : Settings F → Config F → Config F
  with_settings s c = record c { settings = s }

  abbrev pub with_flags : Flags → Config F → Config F
  with_flags f c = record c { settings = record c.settings { flags = f } }

  -- The cases of the `switch` from 23 on.
  unfoldable pub store_setting_from_23 : ℕ → F → Config F → Status × Config F
  store_setting_from_23 parameter value c =
      let s = c.settings in
      let int_value = to_uint8 value in
      if parameter == 23
      then (ok, with_settings (record s { homing_dir_mask = int_value }) c)
      else if parameter == 24
      then (ok, with_settings (record s { homing_feed_rate = value }) c)
      else if parameter == 25
      then (ok, with_settings (record s { homing_seek_rate = value }) c)
      else if parameter == 26
      then (ok, with_settings (record s { homing_debounce_delay = int_value }) c)
      else if parameter == 27
      then (ok, with_settings (record s { homing_pulloff = value }) c)
      else if parameter == 30
      then (ok, log spindle_init (with_settings (record s { rpm_max = value }) c))
      else if parameter == 31
      then (ok, log spindle_init (with_settings (record s { rpm_min = value }) c))
      else if parameter == 32
      then (ok, with_flags (record s.flags { laser_mode = not (int_value == 0) }) c)
      else (invalid_statement, c)

  -- The `switch` over the settings that are not per axis: an error, or the changed settings.
  unfoldable pub store_setting : ℕ → F → Config F → Status × Config F
  store_setting parameter value c =
      let s = c.settings in
      let f = s.flags in
      let int_value = to_uint8 value in
      let on = not (int_value == 0) in
      if parameter == 0
      then (if ltb int_value 3
          then (setting_step_pulse_min, c)
          else (ok, with_settings (record s { pulse_microseconds = int_value }) c))
      else if parameter == 1
      then (ok, with_settings (record s { stepper_idle_lock_time = int_value }) c)
      else if parameter == 2
      then (
        ok,
        log generate_step_dir_invert_masks
            (with_settings (record s { step_invert_mask = int_value }) c),
      )
      else if parameter == 3
      then (
        ok,
        log generate_step_dir_invert_masks
            (with_settings (record s { dir_invert_mask = int_value }) c),
      )
      else if parameter == 4
      then (ok, with_flags (record f { invert_st_enable = on }) c)
      else if parameter == 5
      then (ok, with_flags (record f { invert_limit_pins = on }) c)
      else if parameter == 6
      then (ok, log configure_probe_invert_mask (with_flags (record f { invert_probe_pin = on }) c))
      else if parameter == 10
      then (ok, with_settings (record s { status_report_mask = int_value }) c)
      else if parameter == 11
      then (ok, with_settings (record s { junction_deviation = value }) c)
      else if parameter == 12
      then (ok, with_settings (record s { arc_tolerance = value }) c)
      else if parameter == 13
      then (ok, log flag_wco_change (with_flags (record f { report_inches = on }) c))
      else if parameter == 20
      then (if on && not f.homing_enable
          then (soft_limit_error, c)
          else (ok, with_flags (record f { soft_limit_enable = on }) c))
      else if parameter == 21
      then (ok, log limits_init (with_flags (record f { hard_limit_enable = on }) c))
      else if parameter == 22
      then (
        ok,
        with_flags
            (record f {
              homing_enable = on;
              soft_limit_enable = if on then f.soft_limit_enable else false;
            })
            c,
      )
      else store_setting_from_23 parameter value c

  -- The axis settings, from 100 on: the `while` loop and its `switch`.
  unfoldable pub store_axis : ℕ → F → Config F → Status × Config F
  store_axis parameter value c =
      elim (find_axis_setting 4 (parameter - axis_settings_start_val) 0) [
        | none ↦ (invalid_statement, c)
        | some (set_idx, idx) ↦
            (ok, with_settings (store_axis_setting set_idx idx value c.settings) c)
      ]

  -- The settings in memory, changed or not, before they are written.
  unfoldable pub change_setting : ℕ → F → Config F → Status × Config F
  change_setting parameter value c =
      if leb axis_settings_start_val parameter
      then store_axis parameter value c
      else store_setting parameter value c

  abbrev pub finish : Status × Config F → Status × Config F
  finish (ok, c) = (ok, write_global_settings bytes c)
  finish (e, c) = (e, c)

  -- `settings_store_global_setting`, for a `uint8_t` parameter. VARIABLE_SPINDLE is defined, and
  -- MAX_STEP_RATE_HZ is not.
  unfoldable pub store_global_setting : ℕ → F → Config F → Status × Config F
  store_global_setting parameter value c =
      if lt value (number 0) then (negative_value, c) else finish (change_setting parameter value c)

-- ===== src/Tests/Storage.antt =====
-- Examples for grbl_eeprom.c and grbl_settings.c.
use ecmc_plugin_grbl.Base.{
  ℕ, zero, suc, ◌≡◌, refl, Bool, true, false, List, [], ◌∷◌, arith, length, replicate, get_or,
}
use ecmc_plugin_grbl.Base.Float.{Vec3, vec3}
use ecmc_plugin_grbl.Eeprom.{
  blank, memcpy_to_eeprom_with_checksum, memcpy_from_eeprom_with_checksum, checksum_of,
  checksum_step,
}
use ecmc_plugin_grbl.Eeprom.Blocks.{memcpy_round_trip}
use ecmc_plugin_grbl.Eeprom.Checksum.{checksum_forgets}
use ecmc_plugin_grbl.Status.{ok}
use ecmc_plugin_grbl.Settings.{Settings, Config, Bytes, read_global_settings}
use ecmc_plugin_grbl.Settings.Commands.{store_global_setting, change_setting, store_setting}
use ecmc_plugin_grbl.Settings.Layout.{coords, global, address, blocks_independent}
use ecmc_plugin_grbl.Settings.Store.{IsConsistent, store_error_unchanged, store-IsConsistent}
use ecmc_plugin_grbl.Settings.Persist.{store_persists}
use ecmc_plugin_grbl.Tests.{whole, settings}

abbrev bit : Bool → ℕ
bit true = 1
bit false = 0

abbrev is_set : ℕ → Bool
is_set zero = false
is_set (suc n) = true

pub is_set-bit : (b : Bool) → is_set (bit b) ≡ b
is_set-bit true = refl
is_set-bit false = refl

abbrev of_coords : Vec3 ℕ → List ℕ
of_coords v = v.x ∷ v.y ∷ v.z ∷ replicate 9 0

abbrev to_coords : List ℕ → Vec3 ℕ
to_coords cs = vec3 (get_or cs 0 0) (get_or cs 1 0) (get_or cs 2 0)

abbrev of_settings : Settings ℕ → List ℕ
of_settings s =
    s.steps_per_mm.x
    ∷ s.steps_per_mm.y
    ∷ s.steps_per_mm.z
    ∷ s.max_rate.x
    ∷ s.max_rate.y
    ∷ s.max_rate.z
    ∷ s.acceleration.x
    ∷ s.acceleration.y
    ∷ s.acceleration.z
    ∷ s.max_travel.x
    ∷ s.max_travel.y
    ∷ s.max_travel.z
    ∷ s.pulse_microseconds
    ∷ s.step_invert_mask
    ∷ s.dir_invert_mask
    ∷ s.stepper_idle_lock_time
    ∷ s.status_report_mask
    ∷ s.junction_deviation
    ∷ s.arc_tolerance
    ∷ s.rpm_max
    ∷ s.rpm_min
    ∷ s.homing_dir_mask
    ∷ s.homing_feed_rate
    ∷ s.homing_seek_rate
    ∷ s.homing_debounce_delay
    ∷ s.homing_pulloff
    ∷ bit s.flags.report_inches
    ∷ bit s.flags.laser_mode
    ∷ bit s.flags.invert_st_enable
    ∷ bit s.flags.hard_limit_enable
    ∷ bit s.flags.homing_enable
    ∷ bit s.flags.soft_limit_enable
    ∷ bit s.flags.invert_limit_pins
    ∷ bit s.flags.invert_probe_pin
    ∷ []

abbrev to_settings : List ℕ → Settings ℕ
to_settings cs =
    let at : ℕ → ℕ = λ i. get_or cs i 0 in
    record {
      steps_per_mm = vec3 (at 0) (at 1) (at 2);
      max_rate = vec3 (at 3) (at 4) (at 5);
      acceleration = vec3 (at 6) (at 7) (at 8);
      max_travel = vec3 (at 9) (at 10) (at 11);
      pulse_microseconds = at 12;
      step_invert_mask = at 13;
      dir_invert_mask = at 14;
      stepper_idle_lock_time = at 15;
      status_report_mask = at 16;
      junction_deviation = at 17;
      arc_tolerance = at 18;
      rpm_max = at 19;
      rpm_min = at 20;
      homing_dir_mask = at 21;
      homing_feed_rate = at 22;
      homing_seek_rate = at 23;
      homing_debounce_delay = at 24;
      homing_pulloff = at 25;
      flags = record {
        report_inches = is_set (at 26);
        laser_mode = is_set (at 27);
        invert_st_enable = is_set (at 28);
        hard_limit_enable = is_set (at 29);
        homing_enable = is_set (at 30);
        soft_limit_enable = is_set (at 31);
        invert_limit_pins = is_set (at 32);
        invert_probe_pin = is_set (at 33);
      };
    }

pub to-of_settings : (s : Settings ℕ) → to_settings (of_settings s) ≡ s
to-of_settings s =
    rw
      (
        is_set-bit s.flags.report_inches,
        is_set-bit s.flags.laser_mode,
        is_set-bit s.flags.invert_st_enable,
        is_set-bit s.flags.hard_limit_enable,
        is_set-bit s.flags.homing_enable,
        is_set-bit s.flags.soft_limit_enable,
        is_set-bit s.flags.invert_limit_pins,
        is_set-bit s.flags.invert_probe_pin,
      )
      refl

abbrev pub bytes : Bytes ℕ
bytes = record {
  of_settings = of_settings;
  to_settings = to_settings;
  of_coords = of_coords;
  to_coords = to_coords;
  settings_size = 34;
  to-of_settings = to-of_settings;
  length-of_settings = λ s. refl;
  settings_size-le = omega arith;
  to-of_coords = λ v. refl;
  length-of_coords = λ v. refl;
}

abbrev pub config : Config ℕ
config = record { settings = settings; eeprom = blank; calls = [] }

pub blank-length : length blank ≡ 1024
blank-length = refl

memcpy_round_trip_example :
    memcpy_from_eeprom_with_checksum (memcpy_to_eeprom_with_checksum blank 768 (71 ∷ 49 ∷ [])) 768 2
    ≡ (71 ∷ 49 ∷ [], true)
memcpy_round_trip_example = memcpy_round_trip blank 768 (71 ∷ 49 ∷ []) (omega (arith, blank-length))

checksum_forgets_example : checksum_of 0 (1 ∷ 2 ∷ 9 ∷ []) ≡ checksum_of 0 (200 ∷ 9 ∷ [])
unfolding checksum_of checksum_step
checksum_forgets_example =
    checksum_forgets (1 ∷ 2 ∷ []) (200 ∷ []) 9 (λ e. omega arith) (λ e. omega arith)

-- `$20=1` without homing, and `$11=5`
store_error_unchanged_example : (store_global_setting whole bytes 20 1 config).1 ≡ config
unfolding store_global_setting change_setting store_setting
store_error_unchanged_example = store_error_unchanged whole bytes 20 1 config (λ e. cc)

store-IsConsistent_example :
    IsConsistent (store_global_setting whole bytes 22 0 config).1.settings.flags
store-IsConsistent_example = store-IsConsistent whole bytes 22 0 config (record { homing = refl })

accepted : (store_global_setting whole bytes 11 5 config).0 ≡ ok
unfolding store_global_setting change_setting store_setting
accepted = refl

store_persists_example :
    read_global_settings bytes (store_global_setting whole bytes 11 5 config).1
    ≡ (true, (store_global_setting whole bytes 11 5 config).1)
store_persists_example = store_persists whole bytes 11 5 config blank-length accepted

blocks_independent_example :
    memcpy_from_eeprom_with_checksum
      (memcpy_to_eeprom_with_checksum blank (address (coords 1)) (replicate 12 7))
      (address global)
      34
    ≡ memcpy_from_eeprom_with_checksum blank (address global) 34
blocks_independent_example =
    blocks_independent 34 (omega arith) (coords 1) global blank (replicate 12 7) (omega arith) tt
      (λ e. cc) refl

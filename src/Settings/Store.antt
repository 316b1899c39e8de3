-- ===== src/Settings/Store.antt =====
-- grbl_settings.c: what `settings_store_global_setting` does on every branch.
use ecmc_plugin_grbl.Base.{ℕ, ◌+◌, ◌*◌, ◌<◌, ◌≡◌, ◌≢◌, ◌↔◌, false, not, ◌&&◌, some, arith}
use ecmc_plugin_grbl.Base.Float.{Float}
use ecmc_plugin_grbl.Status.{ok}
use ecmc_plugin_grbl.Settings.{Flags, Config, Bytes, write_global_settings}
use ecmc_plugin_grbl.Settings.Commands.{
  find_axis_setting, store_axis_setting, store_setting, store_setting_from_23, store_axis,
  change_setting, store_global_setting,
}

-- The number behind 100 of an axis setting: ten for each setting, one for each axis.
pub find_axis_setting_iff :
    (parameter set_idx idx : ℕ)
    → (find_axis_setting 4 parameter 0 ≡ some (set_idx, idx))
      ↔ ((set_idx < 4) × (idx < 3) × (parameter ≡ 10 * set_idx + idx))
unfolding find_axis_setting
find_axis_setting_iff parameter set_idx idx = (λ h. ground arith, λ h. ground arith)

-- Soft limits need homing.
pub record IsConsistent (f : Flags) : Type 0 where
  pub homing : (f.soft_limit_enable && not f.homing_enable) ≡ false

module _ (fl : Float) (bytes : Bytes fl.F) where
  open fl use {F, literal, lt}

  from_23-error :
      (parameter : ℕ) (value : F) (c : Config F)
      → (store_setting_from_23 fl bytes parameter value c).0 ≢ ok
      → (store_setting_from_23 fl bytes parameter value c).1 ≡ c
  unfolding store_setting_from_23
  from_23-error parameter value c h = ground arith

  store_setting-error :
      (parameter : ℕ) (value : F) (c : Config F)
      → (store_setting fl bytes parameter value c).0 ≢ ok
      → (store_setting fl bytes parameter value c).1 ≡ c
  unfolding store_setting
  store_setting-error parameter value c h = ground (arith, from_23-error parameter value c)

  change_setting-error :
      (parameter : ℕ) (value : F) (c : Config F)
      → (change_setting fl bytes parameter value c).0 ≢ ok
      → (change_setting fl bytes parameter value c).1 ≡ c
  unfolding change_setting store_axis
  change_setting-error parameter value c h = ground (arith, store_setting-error parameter value c)

  -- A command that is answered with an error changes neither the settings nor the EEPROM, and
  -- calls no other module.
  pub store_error_unchanged :
      (parameter : ℕ) (value : F) (c : Config F)
      → (store_global_setting fl bytes parameter value c).0 ≢ ok
      → (store_global_setting fl bytes parameter value c).1 ≡ c
  unfolding store_global_setting
  store_error_unchanged parameter value c h = ground (arith, change_setting-error parameter value c)

  flags-from_23 :
      (parameter : ℕ) (value : F) (c : Config F)
      → IsConsistent c.settings.flags
      → IsConsistent (store_setting_from_23 fl bytes parameter value c).1.settings.flags
  unfolding store_setting_from_23
  flags-from_23 parameter value c h = ground arith

  flags-store_setting :
      (parameter : ℕ) (value : F) (c : Config F)
      → IsConsistent c.settings.flags
      → IsConsistent (store_setting fl bytes parameter value c).1.settings.flags
  unfolding store_setting
  flags-store_setting parameter value c h = ground (arith, flags-from_23 parameter value c h)

  flags-change_setting :
      (parameter : ℕ) (value : F) (c : Config F)
      → IsConsistent c.settings.flags
      → IsConsistent (change_setting fl bytes parameter value c).1.settings.flags
  unfolding change_setting store_axis store_axis_setting
  flags-change_setting parameter value c h = ground (arith, flags-store_setting parameter value c h)

  -- A command on settings that do not have soft limits enabled without homing leaves them so.
  pub store-IsConsistent :
      (parameter : ℕ) (value : F) (c : Config F)
      → IsConsistent c.settings.flags
      → IsConsistent (store_global_setting fl bytes parameter value c).1.settings.flags
  unfolding store_global_setting write_global_settings
  store-IsConsistent parameter value c h = ground (arith, flags-change_setting parameter value c h)

  eeprom-from_23 :
      (parameter : ℕ) (value : F) (c : Config F)
      → (store_setting_from_23 fl bytes parameter value c).1.eeprom ≡ c.eeprom
  unfolding store_setting_from_23
  eeprom-from_23 parameter value c = ground arith

  eeprom-store_setting :
      (parameter : ℕ) (value : F) (c : Config F)
      → (store_setting fl bytes parameter value c).1.eeprom ≡ c.eeprom
  unfolding store_setting
  eeprom-store_setting parameter value c = ground (arith, eeprom-from_23 parameter value c)

  pub eeprom-change_setting :
      (parameter : ℕ) (value : F) (c : Config F)
      → (change_setting fl bytes parameter value c).1.eeprom ≡ c.eeprom
  unfolding change_setting store_axis
  eeprom-change_setting parameter value c = ground (arith, eeprom-store_setting parameter value c)

  -- An accepted command has written the changed settings.
  pub store-ok :
      (parameter : ℕ) (value : F) (c : Config F)
      → (store_global_setting fl bytes parameter value c).0 ≡ ok
      → (store_global_setting fl bytes parameter value c).1
        ≡ write_global_settings bytes (change_setting fl bytes parameter value c).1
  unfolding store_global_setting
  store-ok parameter value c h = ground arith

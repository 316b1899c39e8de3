-- ===== src/Settings/Persist.antt =====
-- grbl_settings.c: what is stored is what is read back.
use ecmc_plugin_grbl.Base.{ℕ, ◌≤◌, ◌≡◌, ap, ◌∙◌, inl, true, arith, length}
use ecmc_plugin_grbl.Base.Float.{Float, Vec3}
use ecmc_plugin_grbl.Eeprom.{
  eeprom_mem_size, put_char, memcpy_to_eeprom_with_checksum, memcpy_from_eeprom_with_checksum,
}
use ecmc_plugin_grbl.Eeprom.Blocks.{
  memcpy_round_trip, get_char-apart, memcpy-length, length-put_char, get_char-put_char,
}
use ecmc_plugin_grbl.Status.{ok}
use ecmc_plugin_grbl.Settings.{
  Config, Bytes, write_global_settings, read_global_settings, write_coord_data, read_coord_data,
  addr_global, coord_addr, settings_version,
}
use ecmc_plugin_grbl.Settings.Commands.{change_setting, store_global_setting}
use ecmc_plugin_grbl.Settings.Store.{store-ok, eeprom-change_setting}

module _ {F : Type 0} (bytes : Bytes F) where
  open bytes use {
    of_settings, to_settings, of_coords, to_coords, settings_size, to-of_settings,
    length-of_settings, settings_size-le, to-of_coords, length-of_coords,
  }

  -- Settings that are written are read back, with the version and the checksum in order.
  pub read-write_global_settings :
      (c : Config F)
      → length c.eeprom ≡ eeprom_mem_size
      → read_global_settings bytes (write_global_settings bytes c)
        ≡ (true, write_global_settings bytes c)
  unfolding read_global_settings write_global_settings
  read-write_global_settings c h =
      rw
        (
          get_char-apart (put_char c.eeprom 0 settings_version) (of_settings c.settings) addr_global
              0 (inl (omega arith)),
          get_char-put_char c.eeprom 0 settings_version (omega arith),
          block,
        )
        (ap (λ s. (true, record (write_global_settings bytes c) { settings = s }))
          (to-of_settings c.settings))
    where
      block :
          memcpy_from_eeprom_with_checksum
            (memcpy_to_eeprom_with_checksum
              (put_char c.eeprom 0 settings_version)
              addr_global
              (of_settings c.settings))
            addr_global
            settings_size
          ≡ (of_settings c.settings, true)
      block = rw (← length-of_settings c.settings) (
          memcpy_round_trip (put_char c.eeprom 0 settings_version) addr_global
            (of_settings c.settings)
            (omega (
              arith,
              length-put_char c.eeprom 0 settings_version,
              length-of_settings c.settings,
              settings_size-le,
            )))

  length-write_global_settings :
      (c : Config F) → length (write_global_settings bytes c).eeprom ≡ length c.eeprom
  unfolding write_global_settings
  length-write_global_settings c =
      memcpy-length (put_char c.eeprom 0 settings_version) (of_settings c.settings) addr_global
      ∙ length-put_char c.eeprom 0 settings_version

  -- With an EEPROM of full size, coordinate data that is written to one of the 8 places is read back, and reading changes nothing.
  pub read-write_coord_data :
      (zero_value : F) (n : ℕ) (v : Vec3 F) (c : Config F)
      → n ≤ 7
      → length c.eeprom ≡ eeprom_mem_size
      → read_coord_data bytes zero_value n (write_coord_data bytes n v c)
        ≡ (true, v, write_coord_data bytes n v c)
  unfolding read_coord_data write_coord_data
  read-write_coord_data zero_value n v c hn h =
      rw block (ap (λ w. (true, w, write_coord_data bytes n v c)) (to-of_coords v))
    where
      block :
          memcpy_from_eeprom_with_checksum
            (memcpy_to_eeprom_with_checksum c.eeprom (coord_addr n) (of_coords v))
            (coord_addr n)
            12
          ≡ (of_coords v, true)
      block = rw (← length-of_coords v) (
          memcpy_round_trip c.eeprom (coord_addr n) (of_coords v)
            (omega (arith, length-of_coords v)))

-- With an EEPROM of full size, a command that is accepted is stored: reading the settings from the EEPROM succeeds and gives
-- the settings that are in force.
pub store_persists :
    (fl : Float) (bytes : Bytes fl.F) (parameter : ℕ) (value : fl.F) (c : Config fl.F)
    → length c.eeprom ≡ eeprom_mem_size
    → (store_global_setting fl bytes parameter value c).0 ≡ ok
    → read_global_settings bytes (store_global_setting fl bytes parameter value c).1
      ≡ (true, (store_global_setting fl bytes parameter value c).1)
store_persists fl bytes parameter value c size h = rw (store-ok fl bytes parameter value c h) (
    read-write_global_settings bytes (change_setting fl bytes parameter value c).1
      (ap length (eeprom-change_setting fl bytes parameter value c) ∙ size))

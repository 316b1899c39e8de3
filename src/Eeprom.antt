-- ===== src/Eeprom.antt =====
-- grbl_eeprom.c: the simulated EEPROM of 1024 bytes, and blocks with a checksum behind them.
pub mod Blocks
pub mod Checksum
use ecmc_plugin_grbl.Base.{
  ℕ, zero, suc, ◌+◌, ◌*◌, ◌%◌, ◌/◌, ◌^◌, Bool, List, [], ◌∷◌, ◌==◌, if◌then◌else◌, get_or, set,
  replicate,
}

abbrev pub eeprom_mem_size : ℕ
eeprom_mem_size = 1024

-- `ecmc_init_file`
abbrev pub blank : List ℕ
blank = replicate eeprom_mem_size 0

pub get_char : List ℕ → ℕ → ℕ
get_char buffer addr = get_or buffer addr 0

pub put_char : List ℕ → ℕ → ℕ → List ℕ
put_char buffer addr new_value = set buffer addr new_value

-- `checksum = (checksum << 1) || (checksum >> 7);` is 0 or 1, and then the byte is added in an
-- `unsigned char`.
unfoldable pub checksum_step : ℕ → ℕ → ℕ
checksum_step checksum byte =
    let turned = if (checksum * 2) == 0 then (if (checksum / 2 ^ 7) == 0 then 0 else 1) else 1 in
    (turned + byte) % 256

-- The loop of `memcpy_to_eeprom_with_checksum`, and the checksum behind it.
pub to_eeprom : List ℕ → ℕ → List ℕ → ℕ → List ℕ
to_eeprom buffer destination [] checksum = put_char buffer destination checksum
to_eeprom buffer destination (c ∷ source) checksum =
    to_eeprom (put_char buffer destination c) (destination + 1) source (checksum_step checksum c)

pub memcpy_to_eeprom_with_checksum : List ℕ → ℕ → List ℕ → List ℕ
memcpy_to_eeprom_with_checksum buffer destination source = to_eeprom buffer destination source 0

-- `size` bytes from `source` on.
pub read_bytes : List ℕ → ℕ → ℕ → List ℕ
read_bytes buffer source zero = []
read_bytes buffer source (suc size) = get_char buffer source ∷ read_bytes buffer (source + 1) size

unfoldable pub checksum_of : ℕ → List ℕ → ℕ
checksum_of checksum [] = checksum
checksum_of checksum (c ∷ bytes) = checksum_of (checksum_step checksum c) bytes

-- What goes to `destination`, and whether the stored checksum agrees.
pub memcpy_from_eeprom_with_checksum : List ℕ → ℕ → ℕ → List ℕ × Bool
memcpy_from_eeprom_with_checksum buffer source size =
    let bytes = read_bytes buffer source size in
    (bytes, checksum_of 0 bytes == get_char buffer (source + size))

-- ===== src/Eeprom/Blocks.antt =====
-- grbl_eeprom.c: what is written with a checksum is read back, and nothing else is touched.
use ecmc_plugin_grbl.Base.{
  ℕ, zero, suc, ◌+◌, ◌<◌, ◌≡◌, refl, ap, ap₂, ◌∙◌, ◌⊎◌, true, List, [], ◌∷◌, arith, eq→==, length,
  set, length-set, get_or-set_self, get_or-set_ne,
}
use native.Mathlib.Nat.{add-zero}
use ecmc_plugin_grbl.Eeprom.{
  get_char, put_char, checksum_step, to_eeprom, memcpy_to_eeprom_with_checksum, read_bytes,
  checksum_of, memcpy_from_eeprom_with_checksum,
}

-- Addresses before the block or behind its checksum keep their bytes.
to_eeprom-outside :
    (source buffer : List ℕ) (destination checksum addr : ℕ)
    → (addr < destination) ⊎ (destination + length source < addr)
    → get_char (to_eeprom buffer destination source checksum) addr ≡ get_char buffer addr
unfolding get_char to_eeprom put_char
to_eeprom-outside [] buffer destination checksum addr h =
    get_or-set_ne buffer checksum 0 (ground arith)
to_eeprom-outside (c ∷ source) buffer destination checksum addr h =
    to_eeprom-outside source (set buffer destination c) (destination + 1) (checksum_step checksum c)
      addr (omega arith)
    ∙ get_or-set_ne buffer c 0 (ground arith)

to_eeprom-length :
    (source buffer : List ℕ) (destination checksum : ℕ)
    → length (to_eeprom buffer destination source checksum) ≡ length buffer
unfolding to_eeprom put_char
to_eeprom-length [] buffer destination checksum = length-set buffer destination checksum
to_eeprom-length (c ∷ source) buffer destination checksum =
    to_eeprom-length source (set buffer destination c) (destination + 1) (checksum_step checksum c)
    ∙ length-set buffer destination c

to_eeprom-bytes :
    (source buffer : List ℕ) (destination checksum : ℕ)
    → destination + length source < length buffer
    → read_bytes (to_eeprom buffer destination source checksum) destination (length source) ≡ source
unfolding to_eeprom read_bytes
to_eeprom-bytes [] buffer destination checksum h = refl
to_eeprom-bytes (c ∷ source) buffer destination checksum h =
    ap₂ ◌∷◌
      (to_eeprom-outside source (put_char buffer destination c) (destination + 1)
          (checksum_step checksum c) destination (omega arith)
        ∙ unfold get_char put_char in get_or-set_self buffer destination c 0 (omega arith))
      (to_eeprom-bytes source (put_char buffer destination c) (destination + 1)
        (checksum_step checksum c)
        (unfold put_char in rw (length-set buffer destination c) (omega arith)))

to_eeprom-checksum :
    (source buffer : List ℕ) (destination checksum : ℕ)
    → destination + length source < length buffer
    → get_char (to_eeprom buffer destination source checksum) (destination + length source)
      ≡ checksum_of checksum source
unfolding to_eeprom checksum_of put_char
to_eeprom-checksum [] buffer destination checksum h =
    unfold get_char in rw add-zero (get_or-set_self buffer destination checksum 0 (omega arith))
to_eeprom-checksum (c ∷ source) buffer destination checksum h =
    ap
      (get_char (
        to_eeprom (put_char buffer destination c) (destination + 1) source
          (checksum_step checksum c)))
      (omega arith)
    ∙ to_eeprom-checksum source (put_char buffer destination c) (destination + 1)
        (checksum_step checksum c) (rw (length-set buffer destination c) (omega arith))

-- A block that fits is read back as it was written, and its checksum agrees.
pub memcpy_round_trip :
    (buffer : List ℕ) (destination : ℕ) (source : List ℕ)
    → destination + length source < length buffer
    → memcpy_from_eeprom_with_checksum
        (memcpy_to_eeprom_with_checksum buffer destination source)
        destination
        (length source)
      ≡ (source, true)
unfolding memcpy_from_eeprom_with_checksum memcpy_to_eeprom_with_checksum
memcpy_round_trip buffer destination source h = rw (
  to_eeprom-bytes source buffer destination 0 h,
  to_eeprom-checksum source buffer destination 0 h,
  eq→== (checksum_of 0 source) (checksum_of 0 source) refl,
)

-- A block that lies apart reads as before.
read_bytes-apart :
    (size : ℕ) (buffer source : List ℕ) (destination checksum from : ℕ)
    → (from + size < destination + 1) ⊎ (destination + length source < from)
    → read_bytes (to_eeprom buffer destination source checksum) from size
      ≡ read_bytes buffer from size
unfolding read_bytes
read_bytes-apart zero buffer source destination checksum from h = refl
read_bytes-apart (suc size) buffer source destination checksum from h =
    ap₂ ◌∷◌ (to_eeprom-outside source buffer destination checksum from (omega arith))
      (read_bytes-apart size buffer source destination checksum (from + 1) (omega arith))

pub memcpy_apart :
    (buffer source : List ℕ) (destination from size : ℕ)
    → (from + size < destination) ⊎ (destination + length source < from)
    → memcpy_from_eeprom_with_checksum
        (memcpy_to_eeprom_with_checksum buffer destination source)
        from
        size
      ≡ memcpy_from_eeprom_with_checksum buffer from size
unfolding memcpy_from_eeprom_with_checksum memcpy_to_eeprom_with_checksum
memcpy_apart buffer source destination from size h = rw (
  read_bytes-apart size buffer source destination 0 from (omega arith),
  to_eeprom-outside source buffer destination 0 (from + size) (omega arith),
)

pub memcpy-length :
    (buffer source : List ℕ) (destination : ℕ)
    → length (memcpy_to_eeprom_with_checksum buffer destination source) ≡ length buffer
unfolding memcpy_to_eeprom_with_checksum
memcpy-length buffer source destination = to_eeprom-length source buffer destination 0

pub get_char-apart :
    (buffer source : List ℕ) (destination addr : ℕ)
    → (addr < destination) ⊎ (destination + length source < addr)
    → get_char (memcpy_to_eeprom_with_checksum buffer destination source) addr
      ≡ get_char buffer addr
unfolding memcpy_to_eeprom_with_checksum
get_char-apart buffer source destination addr h =
    to_eeprom-outside source buffer destination 0 addr h

pub length-put_char :
    (buffer : List ℕ) (addr byte : ℕ) → length (put_char buffer addr byte) ≡ length buffer
unfolding put_char
length-put_char buffer addr byte = length-set buffer addr byte

pub get_char-put_char :
    (buffer : List ℕ) (addr byte : ℕ)
    → addr < length buffer
    → get_char (put_char buffer addr byte) addr ≡ byte
unfolding get_char put_char
get_char-put_char buffer addr byte h = get_or-set_self buffer addr byte 0 h

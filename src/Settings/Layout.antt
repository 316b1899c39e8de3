-- ===== src/Settings/Layout.antt =====
-- grbl_settings.h and grbl_settings.c: the blocks of the EEPROM.
use ecmc_plugin_grbl.Base.{ℕ, ◌+◌, ◌≤◌, ◌<◌, ◌≡◌, refl, ◌⊎◌, inl, inr, ◌≢◌, List, arith, length, ap}
use ecmc_plugin_grbl.Eeprom.{
  eeprom_mem_size, memcpy_to_eeprom_with_checksum, memcpy_from_eeprom_with_checksum,
}
use ecmc_plugin_grbl.Eeprom.Blocks.{memcpy_apart}
use ecmc_plugin_grbl.Settings.{
  addr_global, coord_addr, startup_addr, addr_build_info, line_buffer_size,
}

-- The blocks that have a checksum behind them.
pub data Block : Type 0 where
  global : Block
  coords : ℕ → Block
  startup : ℕ → Block
  build_info : Block

abbrev pub address : Block → ℕ
address global = addr_global
address (coords n) = coord_addr n
address (startup n) = startup_addr n
address build_info = addr_build_info

-- The size, without the checksum.
abbrev pub size : ℕ → Block → ℕ
size settings_size global = settings_size
size settings_size (coords n) = 12
size settings_size (startup n) = line_buffer_size
size settings_size build_info = line_buffer_size

-- The blocks that the program uses: 8 coordinate systems and home positions, and 2 startup lines.
abbrev pub IsUsed : Block → Type 0
IsUsed global = Unit
IsUsed (coords n) = n ≤ 7
IsUsed (startup n) = n ≤ 1
IsUsed build_info = Unit

module _ (settings_size : ℕ) (small : settings_size ≤ 510) where
  -- Every block, its checksum included, lies in the EEPROM.
  pub block_inside : (b : Block) → IsUsed b → address b + size settings_size b < eeprom_mem_size
  block_inside global u = omega arith
  block_inside (coords n) u = omega arith
  block_inside (startup n) u = omega arith
  block_inside build_info u = omega arith

  apart :
      (a b : Block)
      → IsUsed a
      → IsUsed b
      → a ≢ b
      → (address b + size settings_size b < address a)
        ⊎ (address a + size settings_size a < address b)
  apart global global ua ub ne = absurd (ne refl)
  apart global (coords n) ua ub ne = inr (omega arith)
  apart global (startup n) ua ub ne = inr (omega arith)
  apart global build_info ua ub ne = inr (omega arith)
  apart (coords m) global ua ub ne = inl (omega arith)
  apart (coords m) (coords n) ua ub ne = omega (arith, λ (e : m ≡ n). ne (ap coords e))
  apart (coords m) (startup n) ua ub ne = inr (omega arith)
  apart (coords m) build_info ua ub ne = inr (omega arith)
  apart (startup m) global ua ub ne = inl (omega arith)
  apart (startup m) (coords n) ua ub ne = inl (omega arith)
  apart (startup m) (startup n) ua ub ne = omega (arith, λ (e : m ≡ n). ne (ap startup e))
  apart (startup m) build_info ua ub ne = inr (omega arith)
  apart build_info global ua ub ne = inl (omega arith)
  apart build_info (coords n) ua ub ne = inl (omega arith)
  apart build_info (startup n) ua ub ne = inl (omega arith)
  apart build_info build_info ua ub ne = absurd (ne refl)

  -- For settings of at most 510 bytes: a write of one block leaves what is read of every other block as it was, its bytes and whether
  -- its checksum agrees.
  pub blocks_independent :
      (a b : Block) (eeprom source : List ℕ)
      → IsUsed a
      → IsUsed b
      → a ≢ b
      → length source ≡ size settings_size a
      → memcpy_from_eeprom_with_checksum
          (memcpy_to_eeprom_with_checksum eeprom (address a) source)
          (address b)
          (size settings_size b)
        ≡ memcpy_from_eeprom_with_checksum eeprom (address b) (size settings_size b)
  blocks_independent a b eeprom source ua ub ne e =
      memcpy_apart eeprom source (address a) (address b) (size settings_size b)
        (rw e (apart a b ua ub ne))

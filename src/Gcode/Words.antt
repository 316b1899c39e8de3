-- ===== src/Gcode/Words.antt =====
-- grbl_gcode.c, STEP 2 of `gc_execute_line`: the words of a block. A word is a letter and a number; it
-- sets a mode, a command or a value of the block.
pub mod Steps
pub mod Runs
pub mod Once
use ecmc_plugin_grbl.Base.{
  ℕ, zero, suc, ◌-◌, ◌%◌, Bool, true, false, ◌||◌, ◌&&◌, List, [], ◌∷◌, none, some, ltb, leb, ◌==◌,
  if◌then◌else◌,
}
use ecmc_plugin_grbl.Base.Int.{ℤ, pos, negsuc}
use ecmc_plugin_grbl.Base.Float.{Float}
use ecmc_plugin_grbl.NutsBolts.{scan_number}
use ecmc_plugin_grbl.NutsBolts.Value.{float_value}
use ecmc_plugin_grbl.Protocol.{Spindle}
use ecmc_plugin_grbl.Status.{
  Status, expected_command_letter, bad_number_format, negative_value, gcode_unsupported_command,
  gcode_modal_group_violation, gcode_command_value_not_integer, gcode_word_repeated,
  gcode_max_value_exceeded,
}
use ecmc_plugin_grbl.Gcode.{ProgramFlow, Modal, Values, ParserBlock}
use ecmc_plugin_grbl.Gcode.Bits.{
  has, mark, group_m4, group_m7, group_m8, word_f, word_i, word_j, word_k, word_l, word_n, word_p,
  word_r, word_s, word_t, word_x, word_y, word_z,
}
use ecmc_plugin_grbl.Gcode.Commands.{Command, g_command}
use ecmc_plugin_grbl.Gcode.Result.{Result, done, fail, ◌>>=◌, fail_if}

-- The conversion to `uint16_t`, which C leaves open for a negative number; it wraps round here.
abbrev pub to_uint16 : ℤ → ℕ
to_uint16 (pos n) = n % 65536
to_uint16 (negsuc n) = 65535 - n % 65536

module _ {F : Type 0} where
  -- The check of the modal group and its mark, as behind both switches.
  abbrev pub add_command : Command F → Result (ParserBlock F)
  add_command c =
      fail_if (has c.block.command_words c.word_bit) gcode_modal_group_violation
        (done (record c.block { command_words = mark c.block.command_words c.word_bit }))

  unfoldable pub g_word : ℕ → ℕ → ParserBlock F → Result (ParserBlock F)
  g_word int_value mantissa b = g_command int_value mantissa b >>= λ c.
      fail_if (ltb 0 c.mantissa) gcode_command_value_not_integer (add_command c)

  -- The switch on the integer of an `M` word.
  unfoldable pub m_command : ℕ → ParserBlock F → Result (Command F)
  m_command int_value b =
      let m = b.modal in
      let flow : Modal → Result (Command F) = λ m'.
        done (record { word_bit = group_m4; mantissa = 0; block = record b { modal = m' } }) in
      let turn : Spindle → Result (Command F) = λ s. done (record {
        word_bit = group_m7;
        mantissa = 0;
        block = record b { modal = record m { spindle = s } };
      }) in
      let cool : Bool → Result (Command F) = λ on. done (record {
        word_bit = group_m8;
        mantissa = 0;
        block = record b { modal = record m { coolant = on } };
      }) in
      if int_value == 0
      then flow (record m { program_flow = ProgramFlow.paused })
      else if int_value == 1
      then flow m
      else if int_value == 2
      then flow (record m { program_flow = ProgramFlow.completed_m2 })
      else if int_value == 30
      then flow (record m { program_flow = ProgramFlow.completed_m30 })
      else if int_value == 3
      then turn Spindle.enable_cw
      else if int_value == 4
      then turn Spindle.enable_ccw
      else if int_value == 5
      then turn Spindle.disable
      else if int_value == 8
      then cool true
      else if int_value == 9
      then cool false
      else fail gcode_unsupported_command

  unfoldable pub m_word : ℕ → ℕ → ParserBlock F → Result (ParserBlock F)
  m_word int_value mantissa b =
      fail_if (ltb 0 mantissa) gcode_command_value_not_integer
        (m_command int_value b >>= add_command)

-- The bit of a letter that assigns a value.
unfoldable pub word_bit : ℕ → Result ℕ
word_bit letter =
    if letter == b'F'
    then done word_f
    else if letter == b'I'
    then done word_i
    else if letter == b'J'
    then done word_j
    else if letter == b'K'
    then done word_k
    else if letter == b'L'
    then done word_l
    else if letter == b'N'
    then done word_n
    else if letter == b'P'
    then done word_p
    else if letter == b'R'
    then done word_r
    else if letter == b'S'
    then done word_s
    else if letter == b'T'
    then done word_t
    else if letter == b'X'
    then done word_x
    else if letter == b'Y'
    then done word_y
    else if letter == b'Z'
    then done word_z
    else fail gcode_unsupported_command

-- `bit(word_bit) & (bit(WORD_F)|bit(WORD_N)|bit(WORD_P)|bit(WORD_T)|bit(WORD_S))`
abbrev pub is_unsigned : ℕ → Bool
is_unsigned bit = bit == word_f || bit == word_n || bit == word_p || bit == word_t || bit == word_s

module _ (float : Float) where
  open float use {F, literal, lt, sub, mul, to_uint8, to_int32, lround, of_int}

  -- The assignments of the switch on the letter, for the letter of a bit.
  unfoldable pub assign : ℕ → F → ℕ → ParserBlock F → ParserBlock F
  assign bit value int_value b =
      let v = b.values in
      let set : Values F → ParserBlock F = λ v'. record b { values = v' } in
      if bit == word_f
      then set (record v { f = value })
      else if bit == word_i
      then record b {
        values = record v { ijk = record v.ijk { x = value } };
        ijk_words = record b.ijk_words { x = true };
      }
      else if bit == word_j
      then record b {
        values = record v { ijk = record v.ijk { y = value } };
        ijk_words = record b.ijk_words { y = true };
      }
      else if bit == word_k
      then record b {
        values = record v { ijk = record v.ijk { z = value } };
        ijk_words = record b.ijk_words { z = true };
      }
      else if bit == word_l
      then set (record v { l = int_value })
      else if bit == word_n
      then set (record v { n = to_int32 value })
      else if bit == word_p
      then set (record v { p = value })
      else if bit == word_r
      then set (record v { r = value })
      else if bit == word_s
      then set (record v { s = value })
      else if bit == word_t
      then set (record v { t = int_value })
      else if bit == word_x
      then record b {
        values = record v { xyz = record v.xyz { x = value } };
        axis_words = record b.axis_words { x = true };
      }
      else if bit == word_y
      then record b {
        values = record v { xyz = record v.xyz { y = value } };
        axis_words = record b.axis_words { y = true };
      }
      else record b {
        values = record v { xyz = record v.xyz { z = value } };
        axis_words = record b.axis_words { z = true };
      }

  -- The checks of a value, and its assignment.
  unfoldable pub store_value : ℕ → F → ℕ → ParserBlock F → Result (ParserBlock F)
  unfolding assign
  store_value bit value int_value b =
      fail_if (bit == word_t && lt (literal 255 1) value) gcode_max_value_exceeded (
        fail_if (has b.value_words bit) gcode_word_repeated (
          fail_if (is_unsigned bit && lt value (literal 0 1)) negative_value (
            done (record (assign bit value int_value b) { value_words = mark b.value_words bit }))))

  -- A letter that assigns a value.
  unfoldable pub value_word : ℕ → F → ℕ → ParserBlock F → Result (ParserBlock F)
  unfolding store_value
  value_word letter value int_value b = word_bit letter >>= λ bit. store_value bit value int_value b

  -- The integer and the mantissa of a value, and the switch on the letter.
  unfoldable pub word : ℕ → F → ParserBlock F → Result (ParserBlock F)
  word letter value b =
      let int_value = to_uint8 value in
      let mantissa =
        to_uint16 (lround (mul (literal 100 1) (sub value (of_int (pos int_value))))) in
      if letter == b'G'
      then g_word int_value mantissa b
      else if letter == b'M'
      then m_word int_value mantissa b
      else value_word letter value int_value b

  -- The loop over the words. Each word takes a character, so the length of the text is fuel enough.
  unfoldable pub parse_words : ℕ → List ℕ → ParserBlock F → Result (ParserBlock F)
  parse_words fuel [] b = done b
  parse_words zero (_ ∷ _) b = done b
  parse_words (suc fuel) (letter ∷ text) b =
      if ltb letter b'A' || ltb b'Z' letter
      then fail expected_command_letter
      else elim (scan_number text) [
        | none ↦ fail bad_number_format
        | some (n, rest) ↦ word letter (float_value float n) b >>= parse_words fuel rest
      ]

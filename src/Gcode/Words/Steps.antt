-- ===== src/Gcode/Words/Steps.antt =====
-- grbl_gcode.c, STEP 2: what one word changes of the block.
use ecmc_plugin_grbl.Base.{
  ℕ, Bool, true, false, ◌≡◌, refl, arith, ltb, leb, ◌==◌, ◌||◌, ◌&&◌, if◌then◌else◌,
}
use ecmc_plugin_grbl.Base.Float.{Float}
use ecmc_plugin_grbl.Status.{
  gcode_command_value_not_integer, gcode_max_value_exceeded, gcode_word_repeated, negative_value,
}
use ecmc_plugin_grbl.Gcode.{ParserBlock}
use ecmc_plugin_grbl.Gcode.Bits.{
  has, mark, group_g0, group_g1, group_g2, group_g3, group_g4, group_g5, group_g6, group_g7,
  group_g8, group_g12, group_g13, group_m4, group_m7, group_m8, word_t,
}
use ecmc_plugin_grbl.Gcode.Commands.{
  Command, non_modal_word, motion_word, tool_length_word, mode_word, g_command,
}
use ecmc_plugin_grbl.Gcode.Words.{
  add_command, g_word, m_command, m_word, word_bit, assign, value_word, store_value, is_unsigned,
}
use ecmc_plugin_grbl.Gcode.Result.{
  done, Ensures, Ensures-bind, both, Ensures-self, Ensures-map, ◌>>=◌, fail_if,
}

module _ {F : Type 0} where
  -- A command word leaves the values and the words that give them.
  pub record Keeps (b b' : ParserBlock F) : Type 0 where
    pub flags : b'.flags ≡ b.flags
    pub values : b'.values ≡ b.values
    pub value_words : b'.value_words ≡ b.value_words
    pub axis_words : b'.axis_words ≡ b.axis_words
    pub ijk_words : b'.ijk_words ≡ b.ijk_words

  abbrev Unchanged : ParserBlock F → ParserBlock F → Type 0
  Unchanged b b' = Keeps b b' × (b'.command_words ≡ b.command_words)

  non_modal_word-Unchanged :
      (v m : ℕ) (b : ParserBlock F) → Ensures (λ c. Unchanged b c.block) (non_modal_word v m b)
  unfolding non_modal_word
  non_modal_word-Unchanged v m b = ground arith

  motion_word-Unchanged :
      (v m : ℕ) (b : ParserBlock F) → Ensures (λ c. Unchanged b c.block) (motion_word v m b)
  unfolding motion_word
  motion_word-Unchanged v m b = ground arith

  tool_length_word-Unchanged :
      (v m : ℕ) (b : ParserBlock F) → Ensures (λ c. Unchanged b c.block) (tool_length_word v m b)
  unfolding tool_length_word
  tool_length_word-Unchanged v m b = ground arith

  mode_word-Unchanged :
      (v m : ℕ) (b : ParserBlock F) → Ensures (λ c. Unchanged b c.block) (mode_word v m b)
  unfolding mode_word
  mode_word-Unchanged v m b = ground arith

  g_command-Unchanged :
      (v m : ℕ) (b : ParserBlock F) → Ensures (λ c. Unchanged b c.block) (g_command v m b)
  unfolding g_command
  g_command-Unchanged v m b = ground (
    arith,
    non_modal_word-Unchanged v m b,
    mode_word-Unchanged v m b,
    tool_length_word-Unchanged v m b,
    motion_word-Unchanged v m b,
  )

  m_command-Unchanged :
      (v : ℕ) (b : ParserBlock F) → Ensures (λ c. Unchanged b c.block) (m_command v b)
  unfolding m_command
  m_command-Unchanged v b = ground arith

-- The modal groups of the g-code standard, as the comments of grbl_gcode.h list them.
abbrev pub g_group : ℕ → ℕ → ℕ
g_group v m =
    if v == 4 || v == 10 || v == 28 || v == 30 || v == 53 || v == 92
    then group_g0
    else if leb v 3 || v == 38 || v == 80
    then group_g1
    else if v == 17 || v == 18 || v == 19
    then group_g2
    else if v == 90 || v == 91
    then (if m == 0 then group_g3 else group_g4)
    else if v == 93 || v == 94
    then group_g5
    else if v == 20 || v == 21
    then group_g6
    else if v == 40
    then group_g7
    else if v == 43 || v == 49
    then group_g8
    else if v == 61
    then group_g13
    else group_g12

abbrev pub m_group : ℕ → ℕ
m_group v =
    if v == 0 || v == 1 || v == 2 || v == 30
    then group_m4
    else if v == 8 || v == 9
    then group_m8
    else group_m7

module _ {F : Type 0} where
  g_command-group :
      (v m : ℕ) (b : ParserBlock F) → Ensures (λ c. c.word_bit ≡ g_group v m) (g_command v m b)
  unfolding g_command
  g_command-group v m b = ground arith

  m_command-group :
      (v : ℕ) (b : ParserBlock F) → Ensures (λ c. c.word_bit ≡ m_group v) (m_command v b)
  unfolding m_command
  m_command-group v b = ground arith

  -- A command word marks its group, which must not be marked before.
  pub record CommandStep (group : ℕ) (b b' : ParserBlock F) : Type 0 where
    pub keeps : Keeps b b'
    pub fresh : has b.command_words group ≡ false
    pub marked : b'.command_words ≡ mark b.command_words group

  add_command-CommandStep :
      (group : ℕ) (b : ParserBlock F) (c : Command F)
      → Unchanged b c.block
      → c.word_bit ≡ group
      → Ensures (CommandStep group b) (add_command c)
  add_command-CommandStep group b c u e = ground arith

  pub g_word-CommandStep :
      (v m : ℕ) (b : ParserBlock F) → Ensures (CommandStep (g_group v m) b) (g_word v m b)
  unfolding g_word
  g_word-CommandStep v m b =
      Ensures-bind (λ c. Unchanged b c.block × (c.word_bit ≡ g_group v m))
        (CommandStep (g_group v m) b) (g_command v m b)
        (λ c. fail_if (ltb 0 c.mantissa) gcode_command_value_not_integer (add_command c))
        (both _ _ (g_command v m b) (g_command-Unchanged v m b) (g_command-group v m b))
        λ c h. ground (arith, add_command-CommandStep (g_group v m) b c h.0 h.1)

  m_command-CommandStep :
      (v : ℕ) (b : ParserBlock F)
      → Ensures (CommandStep (m_group v) b) (m_command v b >>= add_command)
  m_command-CommandStep v b =
      Ensures-bind (λ c. Unchanged b c.block × (c.word_bit ≡ m_group v)) (CommandStep (m_group v) b)
        (m_command v b) add_command
        (both _ _ (m_command v b) (m_command-Unchanged v b) (m_command-group v b))
        λ c h. add_command-CommandStep (m_group v) b c h.0 h.1

  pub m_word-CommandStep :
      (v m : ℕ) (b : ParserBlock F) → Ensures (CommandStep (m_group v) b) (m_word v m b)
  unfolding m_word
  m_word-CommandStep v m b = ground (arith, m_command-CommandStep v b)

module _ (float : Float) where
  open float use {F, literal, lt}

  -- A value word marks its bit, which must not be marked before, and is not negative if it takes no sign.
  pub record ValueStep (bit : ℕ) (value : F) (int_value : ℕ) (b b' : ParserBlock F) : Type 0 where
    pub assigned :
        b' ≡ record (assign float bit value int_value b) { value_words = mark b.value_words bit }
    pub fresh : has b.value_words bit ≡ false
    pub signed : (is_unsigned bit && lt value (literal 0 1)) ≡ false
    pub small : (bit == word_t && lt (literal 255 1) value) ≡ false

  store_value-ValueStep :
      (bit : ℕ) (value : F) (int_value : ℕ) (b : ParserBlock F)
      → Ensures (ValueStep bit value int_value b) (store_value float bit value int_value b)
  unfolding store_value
  store_value-ValueStep bit value int_value b = stored _ refl _ refl _ refl
    where
      stored :
          (large : Bool)
          → (bit == word_t && lt (literal 255 1) value) ≡ large
          → (repeated : Bool) → has b.value_words bit ≡ repeated
          → (minus : Bool) → (is_unsigned bit && lt value (literal 0 1)) ≡ minus
          → Ensures (ValueStep bit value int_value b) (
              fail_if large gcode_max_value_exceeded (
                fail_if repeated gcode_word_repeated (
                  fail_if minus negative_value (
                    done (record (assign float bit value int_value b) {
                      value_words = mark b.value_words bit;
                    })))))
      stored false l false r false m = record { assigned = refl; fresh = r; signed = m; small = l }
      stored true l repeated r minus m = tt
      stored false l true r minus m = tt
      stored false l false r true m = tt

  pub value_word-ValueStep :
      (letter : ℕ) (value : F) (int_value : ℕ) (b : ParserBlock F)
      → Ensures
          (λ b'. (bit : ℕ) × (word_bit letter ≡ done bit) × ValueStep bit value int_value b b')
          (value_word float letter value int_value b)
  unfolding value_word
  value_word-ValueStep letter value int_value b =
      Ensures-bind (λ bit. word_bit letter ≡ done bit) _ (word_bit letter)
        (λ bit. store_value float bit value int_value b) (Ensures-self (word_bit letter))
        λ bit e.
          Ensures-map (ValueStep bit value int_value b) _ (store_value float bit value int_value b)
            (store_value-ValueStep bit value int_value b) λ b' h. (bit, e, h)

  pub assign-frame :
      (bit : ℕ) (value : F) (int_value : ℕ) (b : ParserBlock F)
      → let b' = assign float bit value int_value b in
        (b'.flags ≡ b.flags) × (b'.command_words ≡ b.command_words)
  unfolding assign
  assign-frame bit value int_value b = ground arith

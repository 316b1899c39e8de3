-- ===== src/Gcode/Words/Runs.antt =====
-- grbl_gcode.c, STEP 2: the words of a line as a list, and a line that is accepted as a sequence of
-- steps, one for each word.
use ecmc_plugin_grbl.Base.{
  ℕ, zero, suc, ◌≤◌, Bool, true, false, ◌||◌, List, [], ◌∷◌, Option, none, some, ◌≡◌, refl, arith,
  ltb, ◌==◌, if◌then◌else◌, length,
}
use ecmc_plugin_grbl.Base.Int.{pos}
use ecmc_plugin_grbl.Base.Float.{Float}
use ecmc_plugin_grbl.NutsBolts.{Number, scan_number}
use ecmc_plugin_grbl.NutsBolts.Value.{float_value}
use ecmc_plugin_grbl.NutsBolts.Remaining.{length-scan_number}
use ecmc_plugin_grbl.Status.{expected_command_letter, bad_number_format}
use ecmc_plugin_grbl.Gcode.{ParserBlock}
use ecmc_plugin_grbl.Gcode.Words.{
  to_uint16, g_word, m_word, value_word, word, word_bit, parse_words,
}
use ecmc_plugin_grbl.Gcode.Words.Steps.{
  g_group, m_group, CommandStep, ValueStep, g_word-CommandStep, m_word-CommandStep,
  value_word-ValueStep,
}
use ecmc_plugin_grbl.Gcode.Result.{
  Result, done, fail, Ensures, Ensures-bind, Ensures-map, Ensures-fail_if, ◌>>=◌,
}

abbrev pub is_command : ℕ → Bool
is_command letter = letter == b'G' || letter == b'M'

module _ (float : Float) where
  open float use {F, literal, sub, mul, to_uint8, lround, of_int}

  abbrev pub mantissa_of : F → ℕ
  mantissa_of value =
      to_uint16 (lround (mul (literal 100 1) (sub value (of_int (pos (to_uint8 value))))))

  -- The modal group of a command word.
  abbrev pub group_of : ℕ → F → ℕ
  group_of letter value =
      if letter == b'G'
      then g_group (to_uint8 value) (mantissa_of value)
      else m_group (to_uint8 value)

  pub data WordStep (letter : ℕ) (value : F) (b b' : ParserBlock F) : Type 0 where
    commands :
        is_command letter ≡ true
        → CommandStep (group_of letter value) b b'
        → WordStep letter value b b'
    assigns :
        {bit : ℕ}
        → is_command letter ≡ false
        → word_bit letter ≡ done bit
        → ValueStep float bit value (to_uint8 value) b b'
        → WordStep letter value b b'

  abbrev WordResult : ℕ → F → ParserBlock F → Bool → Bool → Result (ParserBlock F)
  WordResult letter value b is_g is_m =
      if is_g
      then g_word (to_uint8 value) (mantissa_of value) b
      else if is_m
      then m_word (to_uint8 value) (mantissa_of value) b
      else value_word float letter value (to_uint8 value) b

  word_cases :
      (letter : ℕ) (value : F) (b : ParserBlock F) (is_g is_m : Bool)
      → (letter == b'G') ≡ is_g
      → (letter == b'M') ≡ is_m
      → Ensures (WordStep letter value b) (WordResult letter value b is_g is_m)
  word_cases letter value b true is_m hg hm =
      Ensures-map (CommandStep (g_group (to_uint8 value) (mantissa_of value)) b) _
        (g_word (to_uint8 value) (mantissa_of value) b)
        (g_word-CommandStep (to_uint8 value) (mantissa_of value) b)
        λ b' s. commands (ground (arith, hg)) (rw hg s)
  word_cases letter value b false true hg hm =
      Ensures-map (CommandStep (m_group (to_uint8 value)) b) _
        (m_word (to_uint8 value) (mantissa_of value) b)
        (m_word-CommandStep (to_uint8 value) (mantissa_of value) b)
        λ b' s. commands (ground (arith, hg, hm)) (rw hg s)
  word_cases letter value b false false hg hm =
      Ensures-map
        (λ b'. (bit : ℕ) × (word_bit letter ≡ done bit) × ValueStep float bit value _ b b') _
        (value_word float letter value (to_uint8 value) b)
        (value_word-ValueStep float letter value (to_uint8 value) b)
        λ b' (bit, e, s). assigns (ground (arith, hg, hm)) e s

  word-WordStep :
      (letter : ℕ) (value : F) (b : ParserBlock F)
      → Ensures (WordStep letter value b) (word float letter value b)
  unfolding word
  word-WordStep letter value b = word_cases letter value b _ _ refl refl

  -- The letters and values of a text, which must be all words.
  pub data IsText : List ℕ → List (ℕ × F) → Type 0 where
    end : IsText [] []
    more :
        {letter : ℕ} {text rest : List ℕ} {n : Number} {words : List (ℕ × F)}
        → scan_number text ≡ some (n, rest)
        → IsText rest words
        → IsText (letter ∷ text) ((letter, float_value float n) ∷ words)

  pub data Parses : List (ℕ × F) → ParserBlock F → ParserBlock F → Type 0 where
    nil : {b : ParserBlock F} → Parses [] b b
    cons :
        {letter : ℕ} {value : F} {words : List (ℕ × F)} {b b₁ b' : ParserBlock F}
        → WordStep letter value b b₁
        → Parses words b₁ b'
        → Parses ((letter, value) ∷ words) b b'

  abbrev Run : List ℕ → ParserBlock F → ParserBlock F → Type 0
  Run text b b' = (words : List (ℕ × F)) × IsText text words × Parses words b b'

  -- The number behind a letter, and the words behind it.
  parse_number :
      (letter : ℕ) (text : List ℕ) (b : ParserBlock F)
      (again : List ℕ → ParserBlock F → Result (ParserBlock F))
      → ((rest : List ℕ) (b₁ : ParserBlock F)
          → length rest ≤ length text
          → Ensures (Run rest b₁) (again rest b₁))
      → (o : Option (Number × List ℕ)) → scan_number text ≡ o
      → Ensures (Run (letter ∷ text) b) (elim o [
        | none ↦ fail bad_number_format
        | some (n, rest) ↦ word float letter (float_value float n) b >>= again rest
      ])
  parse_number letter text b again later none e = tt
  parse_number letter text b again later (some (n, rest)) e =
      Ensures-bind (WordStep letter (float_value float n) b) _ (word float letter _ b) (again rest)
        (word-WordStep letter (float_value float n) b)
        λ b₁ s.
          Ensures-map (Run rest b₁) _ (again rest b₁) (later rest b₁ (length-scan_number text e))
            λ b' (words, t, r). ((letter, float_value float n) ∷ words, more e t, cons s r)

  -- A text that is accepted is a list of words, and each of them is a step.
  pub parse_words-Run :
      (fuel : ℕ) (text : List ℕ) (b : ParserBlock F)
      → length text ≤ fuel
      → Ensures (Run text b) (parse_words float fuel text b)
  unfolding parse_words
  parse_words-Run fuel [] b h = ([], end, nil)
  parse_words-Run zero (letter ∷ text) b h = absurd (omega arith)
  parse_words-Run (suc fuel) (letter ∷ text) b h =
      Ensures-fail_if (Run (letter ∷ text) b) (ltb letter b'A' || ltb b'Z' letter)
        expected_command_letter _
        (parse_number letter text b (parse_words float fuel)
          (λ rest b₁ l. parse_words-Run fuel rest b₁ (omega arith)) (scan_number text) refl)

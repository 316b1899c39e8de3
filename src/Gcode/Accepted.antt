-- ===== src/Gcode/Accepted.antt =====
-- grbl_gcode.c, STEP 1 and STEP 2 of `gc_execute_line`: what the words of a line are that is accepted,
-- and that they leave the kind of the line.
use ecmc_plugin_grbl.Base.{
  ℕ, ◌≤◌, ◌<◌, Bool, true, false, List, [], ◌∷◌, ◌≡◌, refl, sym, ap, ◌∙◌, arith, if◌then◌else◌,
  length, All,
}
use ecmc_plugin_grbl.Base.Float.{Float}
use ecmc_plugin_grbl.Gcode.{ParserState, ParserBlock, ParserFlags, init_block, jog_block}
use ecmc_plugin_grbl.Gcode.Words.{word_bit, is_unsigned}
use ecmc_plugin_grbl.Gcode.Words.Steps.{assign-frame}
use ecmc_plugin_grbl.Gcode.Words.Runs.{
  is_command, WordStep, commands, assigns, Parses, nil, cons, IsText, parse_words-Run,
}
use ecmc_plugin_grbl.Gcode.Words.Once.{count_of, has_letter, in_group, letters_once, groups_once}
use ecmc_plugin_grbl.Gcode.Line.{starts_jog, words_text, first_block, parse_line}
use ecmc_plugin_grbl.Gcode.Result.{done, Ensures, Ensures-map, Ensures-done}

module _ (float : Float) where
  open float use {F, literal, lt, to_uint8}

  WordStep-flags :
      {letter : ℕ} {value : F} {b b' : ParserBlock F}
      → WordStep float letter value b b'
      → b'.flags ≡ b.flags
  WordStep-flags (commands _ s) = s.keeps.flags
  WordStep-flags {letter} {value} {b} {b'} (assigns {bit} _ _ s) =
      ap (λ (x : ParserBlock F). x.flags) s.assigned
      ∙ (assign-frame float bit value (to_uint8 value) b).0

  pub Parses-flags :
      {words : List (ℕ × F)} {b b' : ParserBlock F} → Parses float words b b' → b'.flags ≡ b.flags
  Parses-flags nil = refl
  Parses-flags (cons s r) = Parses-flags r ∙ WordStep-flags s

  -- A letter that takes no sign has no negative value.
  abbrev pub Signed : ℕ × F → Type 0
  Signed (letter, value) =
      (bit : ℕ)
      → is_command letter ≡ false
      → word_bit letter ≡ done bit
      → is_unsigned bit ≡ true
      → lt value (literal 0 1) ≡ false

  WordStep-Signed :
      {letter : ℕ} {value : F} {b b' : ParserBlock F}
      → WordStep float letter value b b'
      → Signed (letter, value)
  WordStep-Signed (commands d _) bit c e u = absurd (ground (arith, c, d))
  WordStep-Signed (assigns {bit} _ e' s) bit' c e u =
      let same : bit' ≡ bit = ground (arith, e, e') in
      ground (arith, s.signed, sym (ap is_unsigned same) ∙ u)

  Parses-Signed :
      {words : List (ℕ × F)} {b b' : ParserBlock F} → Parses float words b b' → All Signed words
  Parses-Signed nil = tt
  Parses-Signed (cons s r) = (WordStep-Signed s, Parses-Signed r)

  -- The words of an accepted line.
  pub record AcceptedWords (text : List ℕ) : Type 0 where
    pub words : List (ℕ × F)
    pub is_text : IsText float text words
    pub letters :
        (letter : ℕ)
        → is_command letter ≡ false
        → count_of float (has_letter float letter) words ≤ 1
    pub groups : (group : ℕ) → group < 16 → count_of float (in_group float group) words ≤ 1
    pub signs : All Signed words

  length-words_text : (line : List ℕ) → length (words_text line) ≤ length line
  length-words_text [] = omega arith
  length-words_text (_ ∷ []) = ground arith
  length-words_text (_ ∷ _ ∷ []) = ground arith
  length-words_text (_ ∷ _ ∷ _ ∷ text) = ground arith

  parse_line-Run :
      (line : List ℕ) (gc : ParserState F)
      → Ensures
          (λ b.
            (words : List (ℕ × F)) × IsText float (words_text line) words
            × Parses float words (first_block float line gc) b)
          (parse_line float line gc)
  unfolding parse_line
  parse_line-Run line gc =
      parse_words-Run float (length line) (words_text line) (first_block float line gc)
        (length-words_text line)

  first_block-words :
      (line : List ℕ) (gc : ParserState F)
      → let b = first_block float line gc in
        (length b.value_words ≡ 16)
        × (length b.command_words ≡ 16)
        × (b.flags.jog_motion ≡ starts_jog line)
  unfolding init_block
  first_block-words line gc = by_kind (starts_jog line)
    where
      by_kind :
          (jog : Bool)
          → let b = init_block (literal 0 1) gc in
            let b' = if jog then jog_block b else b in
            (length b'.value_words ≡ 16)
            × (length b'.command_words ≡ 16)
            × (b'.flags.jog_motion ≡ jog)
      by_kind true = (refl, refl, refl)
      by_kind false = (refl, refl, refl)

  -- A line that is accepted is a list of words, in which no letter but G and M and no modal group
  -- occurs twice, and in which F, N, P, S and T have no negative value.
  pub parse_line_words :
      (line : List ℕ) (gc : ParserState F) {b : ParserBlock F}
      → parse_line float line gc ≡ done b
      → AcceptedWords (words_text line)
  parse_line_words line gc h =
      let (value_bits, command_bits, _) = first_block-words line gc in
      let (words, t, r) = Ensures-done _ (parse_line float line gc) (parse_line-Run line gc) h in
      record {
        words = words;
        is_text = t;
        letters = λ letter c. letters_once float letter c value_bits r;
        groups = λ group l. groups_once float group l command_bits r;
        signs = Parses-Signed r;
      }

  -- The words do not change whether the line is a jog.
  pub parse_line-jog :
      (line : List ℕ) (gc : ParserState F)
      → Ensures (λ b. b.flags.jog_motion ≡ starts_jog line) (parse_line float line gc)
  parse_line-jog line gc =
      Ensures-map
        (λ b.
          (words : List (ℕ × F)) × IsText float (words_text line) words
          × Parses float words (first_block float line gc) b)
        _ (parse_line float line gc) (parse_line-Run line gc)
        λ b (words, t, r).
          ap (λ (f : ParserFlags). f.jog_motion) (Parses-flags r) ∙ (first_block-words line gc).2

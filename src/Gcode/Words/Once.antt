-- ===== src/Gcode/Words/Once.antt =====
-- grbl_gcode.c, STEP 2: in a line that is accepted no word and no modal group occurs twice.
use ecmc_plugin_grbl.Base.{
  ℕ, zero, suc, ◌+◌, ◌≤◌, ◌<◌, Bool, true, false, ◌&&◌, List, [], ◌∷◌, ◌≡◌, ◌⊎◌, inl, inr, refl, ap,
  ◌∙◌, subst, arith, ◌==◌, ==→eq, if◌then◌else◌, length, length-set, get_or-set_self, Bool-cases,
}
use ecmc_plugin_grbl.Base.Float.{Float}
use ecmc_plugin_grbl.Status.{Status}
use ecmc_plugin_grbl.Gcode.{ParserBlock}
use ecmc_plugin_grbl.Gcode.Bits.{has, mark}
use ecmc_plugin_grbl.Gcode.Words.{word_bit}
use ecmc_plugin_grbl.Gcode.Words.Steps.{assign-frame}
use ecmc_plugin_grbl.Gcode.Words.Runs.{
  is_command, group_of, WordStep, commands, assigns, Parses, nil, cons,
}
use ecmc_plugin_grbl.Gcode.Result.{done, fail, Result-cases}

has-mark_self : (words : List Bool) (i : ℕ) → i < length words → has (mark words i) i ≡ true
has-mark_self words i h = get_or-set_self words i true false h

has-mark-true : (words : List Bool) (i j : ℕ) → has words j ≡ true → has (mark words i) j ≡ true
has-mark-true [] i j h = h
has-mark-true (w ∷ words) zero zero h = refl
has-mark-true (w ∷ words) zero (suc j) h = h
has-mark-true (w ∷ words) (suc i) zero h = h
has-mark-true (w ∷ words) (suc i) (suc j) h = has-mark-true words i j h

word_bit-lt : (letter : ℕ) {bit : ℕ} → word_bit letter ≡ done bit → bit < 16
unfolding word_bit
word_bit-lt letter {bit} h = ground arith

-- A test as a number.
abbrev pub one : Bool → ℕ
one c = if c then 1 else 0

module _ (float : Float) where
  open float use {F, to_uint8}

  group_of-lt : (letter : ℕ) (value : F) → group_of float letter value < 16
  group_of-lt letter value = ground arith

  -- How often a word of a kind occurs.
  abbrev pub count_of : (ℕ → F → Bool) → List (ℕ × F) → ℕ
  count_of kind [] = 0
  count_of kind ((letter, value) ∷ words) = one (kind letter value) + count_of kind words

  -- The words of a letter, and the command words of a modal group.
  abbrev pub has_letter : ℕ → ℕ → F → Bool
  has_letter l letter value = letter == l

  abbrev pub in_group : ℕ → ℕ → F → Bool
  in_group group letter value = is_command letter && group_of float letter value == group

  -- What a step does to the words that are marked.
  step-value_words :
      {letter : ℕ} {value : F} {b b' : ParserBlock F}
      → WordStep float letter value b b'
      → (b'.value_words ≡ b.value_words)
        ⊎ ((bit : ℕ) × (word_bit letter ≡ done bit)
            × (is_command letter ≡ false)
            × (has b.value_words bit ≡ false)
            × (b'.value_words ≡ mark b.value_words bit))
  step-value_words (commands _ s) = inl s.keeps.value_words
  step-value_words {letter} {value} {b} {b'} (assigns {bit} c e s) =
      inr (bit, e, c, s.fresh, ap (λ (x : ParserBlock F). x.value_words) s.assigned)

  step-command_words :
      {letter : ℕ} {value : F} {b b' : ParserBlock F}
      → WordStep float letter value b b'
      → ((is_command letter ≡ false) × (b'.command_words ≡ b.command_words))
        ⊎ ((is_command letter ≡ true)
            × (has b.command_words (group_of float letter value) ≡ false)
            × (b'.command_words ≡ mark b.command_words (group_of float letter value)))
  step-command_words (commands c s) = inr (c, s.fresh, s.marked)
  step-command_words {letter} {value} {b} {b'} (assigns {bit} c e s) = inl (
    c,
    ap (λ (x : ParserBlock F). x.command_words) s.assigned
        ∙ (assign-frame float bit value (to_uint8 value) b).1,
  )

  -- A bit that every word of a kind finds clear and leaves set, and that no word clears.
  record Guards (bits : ParserBlock F → List Bool) (kind : ℕ → F → Bool) (bit : ℕ) : Type 0 where
    in_range : bit < 16
    same_length :
        {l : ℕ} {v : F} {b b' : ParserBlock F}
        → WordStep float l v b b'
        → length (bits b') ≡ length (bits b)
    stays :
        {l : ℕ} {v : F} {b b' : ParserBlock F}
        → WordStep float l v b b'
        → has (bits b) bit ≡ true
        → has (bits b') bit ≡ true
    fresh :
        {l : ℕ} {v : F} {b b' : ParserBlock F}
        → WordStep float l v b b'
        → kind l v ≡ true
        → (has (bits b) bit ≡ false) × (bits b' ≡ mark (bits b) bit)

  module _ {bits : ParserBlock F → List Bool} {kind : ℕ → F → Bool} {bit : ℕ}
      (guards : Guards bits kind bit) where
    -- A word whose bit is set does not occur any more.
    count-set :
        {words : List (ℕ × F)} {b b' : ParserBlock F}
        → has (bits b) bit ≡ true
        → Parses float words b b'
        → count_of kind words ≡ 0
    count-set h nil = refl
    count-set h (cons {letter} {value} {words} {b} {b₁} s rest) =
        elim (Bool-cases (kind letter value)) [
          | inl k ↦ absurd (ground (arith, h, (guards.fresh s k).0))
          | inr k ↦ omega (arith, ap one k, count-set (guards.stays s h) rest)
        ]

    count-once :
        {words : List (ℕ × F)} {b b' : ParserBlock F}
        → length (bits b) ≡ 16
        → Parses float words b b'
        → count_of kind words ≤ 1
    count-once e nil = omega arith
    count-once e (cons {letter} {value} {words} {b} {b₁} s rest) =
        elim (Bool-cases (kind letter value)) [
          | inl k ↦
              let (clear, marked) = guards.fresh s k in
              let set : has (bits b₁) bit ≡ true =
                rw marked (has-mark_self (bits b) bit (omega (arith, e, guards.in_range))) in
              omega (arith, ap one k, count-set set rest)
          | inr k ↦ omega (arith, ap one k, count-once (guards.same_length s ∙ e) rest)
        ]

  letter-fresh :
      {bit letter : ℕ} {v : F} {b b' : ParserBlock F}
      → word_bit letter ≡ done bit
      → is_command letter ≡ false
      → WordStep float letter v b b'
      → (has b.value_words bit ≡ false) × (b'.value_words ≡ mark b.value_words bit)
  letter-fresh e c (commands d s) = absurd (ground (arith, c, d))
  letter-fresh {bit} {letter} {v} {b} {b'} e c (assigns {bit = bit'} d e' s) =
      let same : bit' ≡ bit = ground (arith, e, e') in
      (
        subst (λ i. has b.value_words i ≡ false) same s.fresh,
        ap (λ (x : ParserBlock F). x.value_words) s.assigned ∙ ap (mark b.value_words) same,
      )

  group-fresh :
      (group : ℕ) {letter : ℕ} {v : F} {b b' : ParserBlock F}
      → in_group group letter v ≡ true
      → WordStep float letter v b b'
      → (has b.command_words group ≡ false) × (b'.command_words ≡ mark b.command_words group)
  group-fresh group {letter} {v} {b} {b'} h (assigns d e s) = absurd (ground (arith, h, d))
  group-fresh group {letter} {v} {b} {b'} h (commands d s) =
      let same : group_of float letter v ≡ group = ==→eq _ _ (ground (arith, h)) in
      (
        subst (λ i. has b.command_words i ≡ false) same s.fresh,
        s.marked ∙ ap (mark b.command_words) same,
      )

  letter-Guards :
      (letter : ℕ) {bit : ℕ}
      → word_bit letter ≡ done bit
      → is_command letter ≡ false
      → Guards (λ b. b.value_words) (has_letter letter) bit
  letter-Guards letter {bit} e c = record {
    in_range = word_bit-lt letter e;
    same_length = λ s. elim (step-value_words s) [
      | inl h ↦ ap length h
      | inr (bit', _, _, _, h) ↦ ap length h ∙ length-set _ bit' true
    ];
    stays = λ s h. elim (step-value_words s) [
      | inl k ↦ rw k h
      | inr (bit', _, _, _, k) ↦ rw k (has-mark-true _ bit' bit h)
    ];
    fresh = λ s k.
        let same = ==→eq _ _ k in letter-fresh (ap word_bit same ∙ e) (ap is_command same ∙ c) s;
  }

  group-Guards : (group : ℕ) → group < 16 → Guards (λ b. b.command_words) (in_group group) group
  group-Guards group r = record {
    in_range = r;
    same_length = λ s. elim (step-command_words s) [
      | inl (_, h) ↦ ap length h
      | inr (_, _, h) ↦ ap length h ∙ length-set _ _ true
    ];
    stays = λ s h. elim (step-command_words s) [
      | inl (_, k) ↦ rw k h
      | inr (_, _, k) ↦ rw k (has-mark-true _ _ group h)
    ];
    fresh = λ s k. group-fresh group k s;
  }

  -- A letter that is neither a command nor a value does not occur.
  unknown-absent :
      (letter : ℕ) {status : Status} {words : List (ℕ × F)} {b b' : ParserBlock F}
      → word_bit letter ≡ fail status
      → is_command letter ≡ false
      → Parses float words b b'
      → count_of (has_letter letter) words ≡ 0
  unknown-absent letter e c nil = refl
  unknown-absent letter e c (cons {letter = l} (commands d s) rest) =
      omega (arith, ap one (absent (Bool-cases (l == letter))), unknown-absent letter e c rest)
    where
      absent : ((l == letter) ≡ true) ⊎ ((l == letter) ≡ false) → (l == letter) ≡ false
      absent (inl k) = absurd (ground (arith, c, d, ap is_command (==→eq l letter k)))
      absent (inr k) = k
  unknown-absent letter e c (cons {letter = l} (assigns {bit} d e' s) rest) =
      omega (arith, ap one (absent (Bool-cases (l == letter))), unknown-absent letter e c rest)
    where
      absent : ((l == letter) ≡ true) ⊎ ((l == letter) ≡ false) → (l == letter) ≡ false
      absent (inl k) = absurd (ground (arith, e, e', ap word_bit (==→eq l letter k)))
      absent (inr k) = k

  -- In a line that is accepted, no letter but G and M occurs twice.
  pub letters_once :
      (letter : ℕ) {words : List (ℕ × F)} {b b' : ParserBlock F}
      → is_command letter ≡ false
      → length b.value_words ≡ 16
      → Parses float words b b'
      → count_of (has_letter letter) words ≤ 1
  letters_once letter c e r = elim (Result-cases (word_bit letter)) [
    | inl (bit, h) ↦ count-once (letter-Guards letter h c) e r
    | inr (status, h) ↦ omega (arith, unknown-absent letter h c r)
  ]

  pub groups_once :
      (group : ℕ) {words : List (ℕ × F)} {b b' : ParserBlock F}
      → group < 16
      → length b.command_words ≡ 16
      → Parses float words b b'
      → count_of (in_group group) words ≤ 1
  groups_once group r e s = count-once (group-Guards group r) e s

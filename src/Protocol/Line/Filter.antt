-- ===== src/Protocol/Line/Filter.antt =====
-- grbl_protocol.c: what the filter of the main loop keeps of a line.
use ecmc_plugin_grbl.Base.{
  ℕ, zero, suc, ◌≤◌, ◌<◌, ◌≡◌, refl, sym, ap, subst, ◌∙◌, arith, Bool, true, false, not, ◌||◌, ◌&&◌,
  ltb, leb, ◌==◌, if◌then◌else◌, List, [], ◌∷◌, ◌++◌, length, set, length-set, length-append,
  Bool-cases, inl, inr, ge→ltb, leb→gt, leb→le, lt→ltb,
}
use ecmc_plugin_grbl.Protocol.Line.{
  Line, LineFlags, no_flags, line_buffer_size, upcase, push, filter_char, filter_line,
}

abbrev pub take : ℕ → List ℕ → List ℕ
take zero cs = []
take (suc n) [] = []
take (suc n) (c ∷ cs) = c ∷ take n cs

-- Where a character stands: outside of comments, in parentheses, or after a semicolon.
pub data Mode : Type 0 where
  outside inside ended : Mode

abbrev pub mode_after : Mode → ℕ → Mode
mode_after outside c = if c == 40 then inside else if c == 59 then ended else outside
mode_after inside c = if c == 41 then outside else inside
mode_after ended c = ended

-- A character of the text: not a blank, a control character, `/` or the start of a comment.
abbrev pub is_text : ℕ → Bool
is_text c = not (leb c 32) && not (c == 47) && not (c == 40) && not (c == 59)

abbrev pub text_of : Mode → ℕ → List ℕ
text_of outside c = if is_text c then upcase c ∷ [] else []
text_of _ c = []

-- The text of a line: upper case, without blanks, control characters, `/` and comments.
abbrev pub text : Mode → List ℕ → List ℕ
text m [] = []
text m (c ∷ cs) = text_of m c ++ text (mode_after m c) cs

take-length : (cs ds : List ℕ) → take (length cs) (cs ++ ds) ≡ cs
take-length [] ds = refl
take-length (c ∷ cs) ds = ap (λ t. c ∷ t) (take-length cs ds)

take-all : (cs : List ℕ) (n : ℕ) → length cs ≤ n → take n cs ≡ cs
take-all [] zero h = refl
take-all [] (suc n) h = refl
take-all (c ∷ cs) zero h = absurd (omega arith)
take-all (c ∷ cs) (suc n) h = ap (λ t. c ∷ t) (take-all cs n (omega arith))

take-set : (cs : List ℕ) (n c : ℕ) → n < length cs → take (suc n) (set cs n c) ≡ take n cs ++ c ∷ []
take-set [] n c h = absurd (omega arith)
take-set (d ∷ cs) zero c h = refl
take-set (d ∷ cs) (suc n) c h = ap (λ t. d ∷ t) (take-set cs n c (omega arith))

append_assoc : (xs : List ℕ) (y : ℕ) (ys : List ℕ) → (xs ++ y ∷ []) ++ ys ≡ xs ++ y ∷ ys
append_assoc [] y ys = refl
append_assoc (x ∷ xs) y ys = ap (λ t. x ∷ t) (append_assoc xs y ys)

append-nil : (xs : List ℕ) → xs ++ [] ≡ xs
append-nil [] = refl
append-nil (x ∷ xs) = ap (λ t. x ∷ t) (append-nil xs)

-- The line holds the characters `pre`, and there is room for the terminator.
record Holds (l : Line) (pre : List ℕ) : Type 0 where
  size : length l.chars ≡ line_buffer_size
  counter : l.char_counter ≡ length pre
  room : length pre ≤ 79
  kept : take l.char_counter l.chars ≡ pre

-- The line after its characters, when `t` is the text that they have.
pub record Filtered (l : Line) (t : List ℕ) : Type 0 where
  pub size : length l.chars ≡ line_buffer_size
  pub room : l.char_counter ≤ 79
  pub overflow : l.flags.overflow ≡ ltb 79 (length t)
  pub kept : take l.char_counter l.chars ≡ take 79 t

push-Holds :
    (l : Line) (pre : List ℕ) (c : ℕ)
    → Holds l pre
    → length pre < 79
    → Holds (push l c) (pre ++ c ∷ [])
push-Holds l pre c h lt = record {
  size = length-set l.chars l.char_counter c ∙ h.size;
  counter = omega (arith, h.counter, length-append pre (c ∷ []));
  room = omega (arith, length-append pre (c ∷ []));
  kept =
      ap (λ n. take n (set l.chars l.char_counter c)) {y = suc l.char_counter} (omega arith)
      ∙ take-set l.chars l.char_counter c (omega (arith, h.size, h.counter))
      ∙ ap (λ t. t ++ c ∷ []) h.kept;
}

-- A line that keeps all of its text.
whole : (l : Line) (pre : List ℕ) → Holds l pre → l.flags.overflow ≡ false → Filtered l (pre ++ [])
whole l pre h e = rw (append-nil pre) (record {
  size = h.size;
  room = omega (arith, h.counter, h.room);
  overflow = e ∙ sym (ge→ltb 79 (length pre) h.room);
  kept = h.kept ∙ sym (take-all pre 79 h.room);
})

-- After an overflow or a semicolon the rest of the line is dropped.
filter_char-stuck :
    (l : Line) (c : ℕ)
    → (l.flags.overflow || l.flags.semicolon) ≡ true
    → l.flags.parentheses ≡ false
    → filter_char l c ≡ l
unfolding filter_char
filter_char-stuck l c h e = ground arith

filter_line-stuck :
    (l : Line) (cs : List ℕ)
    → (l.flags.overflow || l.flags.semicolon) ≡ true
    → l.flags.parentheses ≡ false
    → filter_line l cs ≡ l
unfolding filter_line
filter_line-stuck l [] h e = refl
filter_line-stuck l (c ∷ cs) h e =
    ap (λ k. filter_line k cs) (filter_char-stuck l c h e) ∙ filter_line-stuck l cs h e

abbrev flags_of : Mode → LineFlags
flags_of outside = no_flags
flags_of inside = record no_flags { parentheses = true }
flags_of ended = record no_flags { semicolon = true }

abbrev with_flags : Line → LineFlags → Line
with_flags l f = record l { flags = f }

-- One character that is no text only changes the mode.
filter_char-skip :
    (l : Line) (m : Mode) (c : ℕ)
    → text_of m c ≡ []
    → filter_char (with_flags l (flags_of m)) c ≡ with_flags l (flags_of (mode_after m c))
unfolding filter_char
filter_char-skip l outside c h = ground arith
filter_char-skip l inside c h = ground arith
filter_char-skip l ended c h = ground arith

filter_char-keep :
    (l : Line) (c : ℕ)
    → is_text c ≡ true
    → filter_char (with_flags l no_flags) c ≡ (
        if leb 79 l.char_counter
        then with_flags l (record no_flags { overflow = true })
        else push (with_flags l no_flags) (upcase c))
unfolding filter_char
filter_char-keep l c h = ground arith

mode_after-text : (c : ℕ) → is_text c ≡ true → mode_after outside c ≡ outside
mode_after-text c h = ground arith

-- A line that has lost a character.
overfull :
    (l : Line) (pre : List ℕ) (c : ℕ) (t : List ℕ)
    → Holds l pre
    → 79 ≤ length pre
    → l.flags.overflow ≡ true
    → Filtered l (pre ++ c ∷ t)
overfull l pre c t h full e = record {
  size = h.size;
  room = omega (arith, h.counter, h.room);
  overflow = e ∙ sym (lt→ltb 79 _ (omega (arith, length-append pre (c ∷ t))));
  kept =
      h.kept
      ∙ sym (take-length pre (c ∷ t))
      ∙ ap (λ n. take n (pre ++ c ∷ t)) {y = 79} (omega (arith, h.room));
}

module _ (l : Line) (pre : List ℕ) (h : Holds l pre) where
  flags-Holds : (f : LineFlags) → Holds (with_flags l f) pre
  flags-Holds f = record { size = h.size; counter = h.counter; room = h.room; kept = h.kept }

filter-text :
    (m : Mode) (l : Line) (pre cs : List ℕ)
    → Holds l pre
    → Filtered (filter_line (with_flags l (flags_of m)) cs) (pre ++ text m cs)
unfolding filter_line
filter-text outside l pre [] h = whole _ pre (flags-Holds l pre h no_flags) refl
filter-text inside l pre [] h = whole _ pre (flags-Holds l pre h (flags_of inside)) refl
filter-text ended l pre [] h = whole _ pre (flags-Holds l pre h (flags_of ended)) refl
filter-text inside l pre (c ∷ cs) h =
    rw (filter_char-skip l inside c refl) (filter-text (mode_after inside c) l pre cs h)
filter-text ended l pre (c ∷ cs) h =
    rw (filter_char-skip l ended c refl) (filter-text ended l pre cs h)
filter-text outside l pre (c ∷ cs) h = elim (Bool-cases (is_text c)) [
  | inl e ↦
      rw (filter_char-keep l c e, mode_after-text c e, e)
        (elim (Bool-cases (leb 79 l.char_counter)) [
          | inl full ↦ rw full (
              rw
                (filter_line-stuck (with_flags l (record no_flags { overflow = true })) cs refl
                  refl)
                (overfull _ pre (upcase c) (text outside cs)
                  (flags-Holds l pre h (record no_flags { overflow = true }))
                  (omega (arith, leb→le 79 l.char_counter full, h.counter)) refl))
          | inr room ↦ rw room (
              subst (Filtered (filter_line (push (with_flags l no_flags) (upcase c)) cs))
                (append_assoc pre (upcase c) (text outside cs))
                (filter-text outside (push (with_flags l no_flags) (upcase c))
                  (pre ++ upcase c ∷ []) cs
                  (push-Holds (with_flags l no_flags) pre (upcase c) (flags-Holds l pre h no_flags)
                    (omega (arith, leb→gt 79 l.char_counter room, h.counter)))))
        ])
  | inr e ↦
      rw (filter_char-skip l outside c (nothing e), e)
        (filter-text (mode_after outside c) l pre cs h)
]
  where
    nothing : is_text c ≡ false → text_of outside c ≡ []
    nothing e = rw e refl

-- From the start of a line, the filter keeps the first 79 characters of the line's text, within the
-- buffer, and reports an overflow if and only if the text is longer.
pub filter_line_lem :
    (l : Line) (cs : List ℕ)
    → length l.chars ≡ line_buffer_size
    → l.char_counter ≡ 0
    → l.flags ≡ no_flags
    → Filtered (filter_line l cs) (text outside cs)
filter_line_lem l cs size counter flags =
    subst (λ f. Filtered (filter_line (with_flags l f) cs) (text outside cs)) (sym flags)
      (filter-text outside l [] cs (record {
        size = size;
        counter = counter;
        room = omega arith;
        kept = ap (λ n. take n l.chars) counter;
      }))

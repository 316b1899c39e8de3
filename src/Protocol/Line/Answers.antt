-- ===== src/Protocol/Line/Answers.antt =====
-- grbl_protocol.c: the answers to the lines of the main loop.
use ecmc_plugin_grbl.Base.{
  ℕ, ◌≤◌, ◌≡◌, ◌≢◌, refl, ap, ◌∙◌, arith, true, false, List, [], ◌∷◌, some, length, set, get_or,
  ne→==,
}
use mathlib.Core.Option
use ecmc_plugin_grbl.System.{State}
use ecmc_plugin_grbl.Protocol.Line.{
  Line, Answer, LineFlags, no_flags, line_buffer_size, upcase, push, filter_char, filter_line,
  strlen, locks_gcode, answer, end_of_line,
}
use ecmc_plugin_grbl.Protocol.Line.Filter.{is_text}

-- A string of one character.
single_string :
    (chars : List ℕ) (u : ℕ)
    → 2 ≤ length chars
    → u ≢ 0
    → (get_or (set (set chars 0 u) 1 0) 0 0 ≡ u) × (strlen (set (set chars 0 u) 1 0) ≡ 1)
single_string [] u h n = absurd (omega arith)
single_string (a ∷ []) u h n = absurd (omega arith)
single_string (a ∷ b ∷ chars) u h n = (refl, rw (ne→== u 0 n) refl)

filter_single :
    (l : Line) (c : ℕ)
    → l.char_counter ≡ 0
    → l.flags ≡ no_flags
    → is_text c ≡ true
    → filter_line l (c ∷ []) ≡ push l (upcase c)
unfolding filter_line filter_char
filter_single l c counter flags h = ground arith

answer_single :
    (state : State) (chars : List ℕ) (u : ℕ)
    → get_or chars 0 0 ≡ u
    → strlen chars ≡ 1
    → u ≢ 0
    → u ≢ 48
    → u ≢ 36
    → locks_gcode state ≡ false
    → answer state false chars ≡ Answer.no_report
unfolding answer
answer_single state chars u e len n0 n48 n36 lock = ground arith

-- From the start of a line: a line of a single character is dropped without any answer, unless it is `0` or `$`, or the state
-- is alarm or jog.
pub single_character_unanswered :
    (state : State) (l : Line) (c : ℕ)
    → length l.chars ≡ line_buffer_size
    → l.char_counter ≡ 0
    → l.flags ≡ no_flags
    → is_text c ≡ true
    → c ≢ 48
    → c ≢ 36
    → locks_gcode state ≡ false
    → Option.map (λ (r : Answer × Line). r.0) (end_of_line false state (filter_line l (c ∷ [])))
      ≡ some Answer.no_report
unfolding end_of_line answer
single_character_unanswered state l c size counter flags h n0 n36 lock =
    let s = single_string l.chars (upcase c) (omega (arith, size)) (ground arith) in
    rw (filter_single l c counter flags h, counter)
      (ap some (
        ap (λ f. answer state f (set (set l.chars 0 (upcase c)) 1 0))
          (ap (λ (f : LineFlags). f.overflow) flags)
        ∙ answer_single state (set (set l.chars 0 (upcase c)) 1 0) (upcase c) s.0 s.1 (ground arith)
            (ground arith) (ground arith) lock))

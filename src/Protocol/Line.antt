-- ===== src/Protocol/Line.antt =====
-- grbl_protocol.c: the line of `protocol_main_loop`, from the characters of the serial port to the
-- answer. Characters are bytes; LINE_BUFFER_SIZE is 80.
pub mod Filter
pub mod Answers
use ecmc_plugin_grbl.Base.{
  ℕ, zero, suc, ◌+◌, ◌-◌, Bool, true, false, not, ◌||◌, ◌&&◌, ltb, leb, ◌==◌, if◌then◌else◌, List,
  [], ◌∷◌, Option, none, some, get_or, set,
}
use ecmc_plugin_grbl.System.{State, alarm, jog}

abbrev pub line_buffer_size : ℕ
line_buffer_size = 80

-- LINE_FLAG_OVERFLOW, LINE_FLAG_COMMENT_PARENTHESES and LINE_FLAG_COMMENT_SEMICOLON
pub record LineFlags : Type 0 where
  pub overflow : Bool
  pub parentheses : Bool
  pub semicolon : Bool

abbrev pub no_flags : LineFlags
no_flags = record { overflow = false; parentheses = false; semicolon = false }

pub record Line : Type 0 where
  pub chars : List ℕ
  pub flags : LineFlags
  pub char_counter : ℕ

-- What the loop does with a line: the status that it reports, or the function that it calls and
-- whose status it reports, or, for a line of a single character, nothing.
pub data Answer : Type 0 where
  overflow_error status_ok system_gc_lock no_report : Answer
  system_command gcode : Answer

-- `if (c >= 'a' && c <= 'z')`, `c-'a'+'A'`
abbrev pub upcase : ℕ → ℕ
upcase c = if leb 97 c && leb c 122 then c - 97 + 65 else c

-- `line[char_counter++] = c`
abbrev pub push : Line → ℕ → Line
push l c = record l { chars = set l.chars l.char_counter c; char_counter = l.char_counter + 1 }

-- A character that is not the end of the line. 40, 41, 47 and 59 are `(`, `)`, `/` and `;`.
unfoldable pub filter_char : Line → ℕ → Line
filter_char l c =
    let f = l.flags in
    if f.overflow || f.parentheses || f.semicolon
    then (if (c == 41) && f.parentheses
        then record l { flags = record f { parentheses = false } }
        else l)
    else if leb c 32
    then l
    else if c == 47
    then l
    else if c == 40
    then record l { flags = record f { parentheses = true } }
    else if c == 59
    then record l { flags = record f { semicolon = true } }
    else if leb (line_buffer_size - 1) l.char_counter
    then record l { flags = record f { overflow = true } }
    else push l (upcase c)

-- `strlen`
abbrev pub strlen : List ℕ → ℕ
strlen [] = 0
strlen (c ∷ cs) = if c == 0 then 0 else strlen cs + 1

-- `sys.state & (STATE_ALARM | STATE_JOG)`
abbrev pub locks_gcode : State → Bool
locks_gcode alarm = true
locks_gcode jog = true
locks_gcode _ = false

-- 48 and 36 are `0` and `$`.
unfoldable pub answer : State → Bool → List ℕ → Answer
answer state overflow chars =
    let first = get_or chars 0 0 in
    if overflow
    then Answer.overflow_error
    else if (first == 0) || (first == 48)
    then Answer.status_ok
    else if first == 36
    then Answer.system_command
    else if locks_gcode state
    then Answer.system_gc_lock
    else if ltb 1 (strlen chars)
    then Answer.gcode
    else Answer.no_report

-- The end of a line, after the check point for realtime commands: `none` when that has aborted.
unfoldable pub end_of_line : Bool → State → Line → Option (Answer × Line)
end_of_line abort state l =
    let chars = set l.chars l.char_counter 0 in
    if abort
    then none
    else some (
      answer state l.flags.overflow chars,
      record { chars = chars; flags = no_flags; char_counter = 0 },
    )

-- The characters of a line up to its end.
unfoldable pub filter_line : Line → List ℕ → Line
filter_line l [] = l
filter_line l (c ∷ cs) = filter_line (filter_char l c) cs

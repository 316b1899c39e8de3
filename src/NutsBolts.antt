-- ===== src/NutsBolts.antt =====
-- grbl_nuts_bolts.c: `read_float`, up to the integer and the exponent that it scans. The text is
-- the part of the line that `*char_counter` points at, and ends where the line's zero byte stands.
pub mod ReadNumber
pub mod Value
pub mod Remaining
use ecmc_plugin_grbl.Base.{
  ℕ, ◌+◌, ◌-◌, ◌*◌, ◌%◌, ◌^◌, Bool, true, false, not, ◌&&◌, List, [], ◌∷◌, Option, none, some, leb,
  ◌==◌, if◌then◌else◌,
}
use ecmc_plugin_grbl.Base.Int.{ℤ, pos, negsuc, ◌+ℤ◌, ◌-ℤ◌}

abbrev pub max_int_digits : ℕ
max_int_digits = 8

-- The variables of the scan: `uint32_t intval`, `int8_t exp`, `uint8_t ndigit`, `bool isdecimal`.
-- `exp` is kept as an integer; a line has fewer than 80 characters, which an `int8_t` counts.
pub record Scan : Type 0 where
  pub intval : ℕ
  pub exp : ℤ
  pub ndigit : ℕ
  pub isdecimal : Bool

abbrev pub scan_init : Scan
scan_init = record { intval = 0; exp = pos 0; ndigit = 0; isdecimal = false }

-- `c -= '0'` on an `unsigned char`
abbrev pub minus_zero : ℕ → ℕ
minus_zero c = (c + 256 - b'0') % 256

-- One digit: it enters the integer, or it is dropped and only counted.
unfoldable pub scan_digit : ℕ → Scan → Scan
scan_digit digit s =
    let counted = (s.ndigit + 1) % 256 in
    if leb counted max_int_digits
    then record s {
      ndigit = counted;
      exp = if s.isdecimal then s.exp -ℤ pos 1 else s.exp;
      intval = (s.intval * 10 + digit) % 2 ^ 32;
    }
    else record s { ndigit = counted; exp = if s.isdecimal then s.exp else s.exp +ℤ pos 1 }

-- One character of the loop: `none` where it breaks.
unfoldable pub scan_char : ℕ → Scan → Option Scan
unfolding scan_digit
scan_char c s =
    if leb (minus_zero c) 9
    then some (scan_digit (minus_zero c) s)
    else if minus_zero c == minus_zero b'.' && not s.isdecimal
    then some (record s { isdecimal = true })
    else none

-- The loop, with what is left behind it. The zero byte that ends the line breaks it.
unfoldable pub scan : List ℕ → Scan → Scan × List ℕ
unfolding scan_char
scan [] s = (s, [])
scan (c ∷ text) s = elim (scan_char c s) [ none ↦ (s, c ∷ text) | some s' ↦ scan text s' ]

-- What `read_float` has read before it makes a `float` of it.
pub record Number : Type 0 where
  pub isnegative : Bool
  pub intval : ℕ
  pub exp : ℤ

-- The sign in front of a number, and the text behind it.
unfoldable pub read_sign : List ℕ → Bool × List ℕ
read_sign [] = (false, [])
read_sign (c ∷ text) =
    if c == b'-' then (true, text) else if c == b'+' then (false, text) else (false, c ∷ text)

unfoldable pub scan_number : List ℕ → Option (Number × List ℕ)
unfolding read_sign scan
scan_number text =
    let (isnegative, digits) = read_sign text in
    let (s, rest) = scan digits scan_init in
    if s.ndigit == 0
    then none
    else some (record { isnegative = isnegative; intval = s.intval; exp = s.exp }, rest)

-- ===== src/NutsBolts/Remaining.antt =====
-- grbl_nuts_bolts.c: `read_float` only ever goes forward in the line.
use ecmc_plugin_grbl.Base.{ℕ, ◌≤◌, List, [], ◌∷◌, Option, none, some, ◌≡◌, arith, length}
use ecmc_plugin_grbl.NutsBolts.{Number, Scan, scan, scan_char, scan_init, read_sign, scan_number}

length-scan : (text : List ℕ) (s : Scan) → length (scan text s).1 ≤ length text
unfolding scan
length-scan [] s = omega arith
length-scan (c ∷ text) s = elim (scan_char c s) as (λ o. length (outcome o).1 ≤ length (c ∷ text)) [
  | none ↦ omega arith
  | some s' ↦ omega (arith, length-scan text s')
]
  where
    outcome : Option Scan → Scan × List ℕ
    outcome o = elim o [ none ↦ (s, c ∷ text) | some s' ↦ scan text s' ]

length-read_sign : (text : List ℕ) → length (read_sign text).1 ≤ length text
unfolding read_sign
length-read_sign [] = omega arith
length-read_sign (c ∷ text) = ground arith

pub length-scan_number :
    (text : List ℕ) {n : Number} {rest : List ℕ}
    → scan_number text ≡ some (n, rest)
    → length rest ≤ length text
unfolding scan_number
length-scan_number text {n} {rest} h =
    ground (arith, length-read_sign text, length-scan (read_sign text).1 scan_init)

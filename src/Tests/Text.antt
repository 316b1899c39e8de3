-- ===== src/Tests/Text.antt =====
-- Examples for grbl_print.c, grbl_nuts_bolts.c and the line of grbl_protocol.c.
use ecmc_plugin_grbl.Base.{
  ℕ, ◌<◌, ◌≡◌, refl, true, some, List, [], ◌∷◌, ◌++◌, arith, length, All, replicate,
}
use ecmc_plugin_grbl.Base.Int.{pos, ◌-ℤ◌}
use ecmc_plugin_grbl.Print.{print_fraction}
use ecmc_plugin_grbl.Print.Digits.{read_number}
use ecmc_plugin_grbl.Print.Fraction.{print_fraction_lem}
use ecmc_plugin_grbl.NutsBolts.{scan_number}
use ecmc_plugin_grbl.NutsBolts.ReadNumber.{digits, sign_text, scan_number_exact}
use ecmc_plugin_grbl.Protocol.Line.{Line, no_flags, filter_line}
use ecmc_plugin_grbl.Protocol.Line.Filter.{Filtered, filter_line_lem}

print_fraction_lem_example :
    (w : List ℕ) × (fraction : List ℕ) × (print_fraction 1250 3 ≡ w ++ b'.' ∷ fraction)
    × (length fraction ≡ 3)
    × (0 < length w)
    × (read_number 10 0 (w ++ fraction) ≡ 1250)
print_fraction_lem_example = print_fraction_lem 1250 3 (omega arith) (omega arith)

-- `-12.5`, then `Y`
scan_number_exact_example :
    scan_number (sign_text true ++ (digits (1 ∷ 2 ∷ []) ++ (b'.' ∷ (digits (5 ∷ []) ++ b'Y' ∷ []))))
    ≡ some (record { isnegative = true; intval = 125; exp = pos 0 -ℤ pos 1 }, b'Y' ∷ [])
scan_number_exact_example =
    scan_number_exact true (1 ∷ 2 ∷ []) (5 ∷ []) (b'Y' ∷ []) (omega arith, (omega arith, tt))
      (omega arith, tt) (omega arith) (omega arith) (omega arith, refl)

eight_digits : All (λ d. d < 10) (1 ∷ 2 ∷ 3 ∷ 4 ∷ 5 ∷ 6 ∷ 7 ∷ 8 ∷ [])
eight_digits = ground arith

abbrev fresh_line : Line
fresh_line = record { chars = replicate 80 0; flags = no_flags; char_counter = 0 }

-- `g1 (fast) x2`
abbrev typed : List ℕ
typed = 103 ∷ 49 ∷ 32 ∷ 40 ∷ 102 ∷ 97 ∷ 115 ∷ 116 ∷ 41 ∷ 32 ∷ 120 ∷ 50 ∷ []

filter_line_lem_example : Filtered (filter_line fresh_line typed) (b'G' ∷ b'1' ∷ b'X' ∷ b'2' ∷ [])
filter_line_lem_example = filter_line_lem fresh_line typed refl refl refl

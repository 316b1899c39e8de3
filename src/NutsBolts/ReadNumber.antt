-- ===== src/NutsBolts/ReadNumber.antt =====
-- grbl_nuts_bolts.c: what the scan of `read_float` finds.
use ecmc_plugin_grbl.Base.{
  ℕ, suc, ◌+◌, ◌*◌, ◌^◌, ◌≤◌, ◌<◌, ◌≡◌, refl, sym, ap, ◌∙◌, Bool, true, false, not, ◌&&◌, List, [],
  ◌∷◌, ◌++◌, some, arith, length, All, map, length-append, All-append, ne→==, leb, ◌==◌,
  if◌then◌else◌,
}
use native.Mathlib.Nat.{pow-zero, pow-succ', pow-le-pow_right}
use ecmc_plugin_grbl.Base.Int.{pos, ◌+ℤ◌, ◌-ℤ◌}
use ecmc_plugin_grbl.NutsBolts.{
  Scan, scan_init, scan_digit, scan_char, scan, scan_number, read_sign, minus_zero, max_int_digits,
}

-- The bytes of decimal digits.
abbrev pub digits : List ℕ → List ℕ
digits ds = map (λ d. b'0' + d) ds

-- A character that cannot continue a number.
abbrev pub ends_number : ℕ → Bool
ends_number c = not (leb (minus_zero c) 9) && not (c == b'.')

-- The text behind a number.
abbrev pub Ends : List ℕ → Type 0
Ends [] = Unit
Ends (c ∷ text) = (c < 256) × (ends_number c ≡ true)

-- The number that digits make, most significant first, behind `acc`.
abbrev pub value : ℕ → List ℕ → ℕ
value acc [] = acc
value acc (d ∷ ds) = value (acc * 10 + d) ds

scan_digit_char : (d : ℕ) (s : Scan) → d < 10 → scan_char (b'0' + d) s ≡ some (scan_digit d s)
unfolding scan_char
scan_digit_char d s h = ground arith

scan_stop : (rest : List ℕ) (s : Scan) → Ends rest → scan rest s ≡ (s, rest)
unfolding scan
scan_stop [] s h = refl
scan_stop (c ∷ rest) s h = ground arith

scan_step :
    (c : ℕ) (text : List ℕ) (s t : Scan) → scan_char c s ≡ some t → scan (c ∷ text) s ≡ scan text t
unfolding scan
scan_step c text s t e = rw (e, scan)

-- The state after digits that all enter the integer.
abbrev taken : List ℕ → Scan → Scan
taken ds s = record s {
  intval = value s.intval ds;
  ndigit = s.ndigit + length ds;
  exp = if s.isdecimal then s.exp -ℤ pos (length ds) else s.exp;
}

value-le : (acc : ℕ) (ds : List ℕ) → acc ≤ value acc ds
value-le acc [] = omega arith
value-le acc (d ∷ ds) = omega (arith, value-le (acc * 10 + d) ds)

taken-nil : (s : Scan) → taken [] s ≡ s
taken-nil s = ground arith

taken-one :
    (d : ℕ) (s : Scan)
    → s.ndigit + 1 ≤ max_int_digits
    → s.intval * 10 + d < 2 ^ 32
    → scan_digit d s ≡ taken (d ∷ []) s
unfolding scan_digit
taken-one d s n v = ground arith

taken-cons : (d : ℕ) (ds : List ℕ) (s : Scan) → taken ds (taken (d ∷ []) s) ≡ taken (d ∷ ds) s
taken-cons d ds s = ground arith

-- Digits that all enter the integer.
scan-digits :
    (ds rest : List ℕ) (s : Scan)
    → All (λ d. d < 10) ds
    → s.ndigit + length ds ≤ max_int_digits
    → value s.intval ds < 2 ^ 32
    → scan (digits ds ++ rest) s ≡ scan rest (taken ds s)
scan-digits [] rest s h n v = ap (scan rest) (sym (taken-nil s))
scan-digits (d ∷ ds) rest s h n v =
    scan_step (b'0' + d) (digits ds ++ rest) s (scan_digit d s) (scan_digit_char d s h.0)
    ∙ ap (scan (digits ds ++ rest))
        (taken-one d s (omega arith) (omega (arith, value-le (s.intval * 10 + d) ds)))
    ∙ scan-digits ds rest (taken (d ∷ []) s) h.1 (omega arith) v
    ∙ ap (scan rest) (taken-cons d ds s)

scan_point :
    (text : List ℕ) (s : Scan)
    → s.isdecimal ≡ false
    → scan (b'.' ∷ text) s ≡ scan text (record s { isdecimal = true })
unfolding scan_char
scan_point text s h = scan_step b'.' text s (record s { isdecimal = true }) point
  where
    point : scan_char b'.' s ≡ some (record s { isdecimal = true })
    point = ground arith

-- The bytes of a sign.
abbrev pub sign_text : Bool → List ℕ
sign_text true = b'-' ∷ []
sign_text false = []

read_sign_text :
    (isnegative : Bool) (d : ℕ) (text : List ℕ)
    → d < 10
    → read_sign (sign_text isnegative ++ ((b'0' + d) ∷ text)) ≡ (isnegative, (b'0' + d) ∷ text)
unfolding read_sign
read_sign_text true d text h = refl
read_sign_text false d text h = ground arith

value-append : (acc : ℕ) (xs ys : List ℕ) → value acc (xs ++ ys) ≡ value (value acc xs) ys
value-append acc [] ys = refl
value-append acc (x ∷ xs) ys = value-append (acc * 10 + x) xs ys

bounds_step :
    (acc d p v : ℕ)
    → d < 10
    → (acc * 10 + d) * p ≤ v
    → v < (acc * 10 + d + 1) * p
    → (acc * (10 * p) ≤ v) × (v < (acc + 1) * (10 * p))
bounds_step acc d p v h lo hi = (omega arith, omega (arith, room))
  where
    room : (d + 1) * p ≤ 10 * p
    room = grind arith

-- Dropping the last digits divides by a power of ten, rounding down.
pub value_bounds :
    (acc : ℕ) (ds : List ℕ)
    → All (λ d. d < 10) ds
    → (acc * 10 ^ length ds ≤ value acc ds) × (value acc ds < (acc + 1) * 10 ^ length ds)
value_bounds acc [] h = (rw pow-zero (omega arith), rw pow-zero (omega arith))
value_bounds acc (d ∷ ds) h =
    let (lower, upper) = value_bounds (acc * 10 + d) ds h.1 in
    rw (pow-succ' 10 (length ds))
      (bounds_step acc d (10 ^ length ds) (value (acc * 10 + d) ds) h.0 lower upper)

value-fits : (ds : List ℕ) → All (λ d. d < 10) ds → length ds ≤ max_int_digits → value 0 ds < 2 ^ 32
value-fits ds h n =
    omega (arith, (value_bounds 0 ds h).1, pow-le-pow_right {n = 10} (omega arith) n)

-- The state that the scan of `whole`, the point and `fraction` ends in.
abbrev scanned : List ℕ → List ℕ → Scan
scanned whole fraction = taken fraction (record (taken whole scan_init) { isdecimal = true })

scan_decimal :
    (whole fraction rest : List ℕ)
    → All (λ d. d < 10) whole
    → All (λ d. d < 10) fraction
    → length whole + length fraction ≤ max_int_digits
    → Ends rest
    → scan (digits whole ++ (b'.' ∷ (digits fraction ++ rest))) scan_init
      ≡ (scanned whole fraction, rest)
scan_decimal whole fraction rest hw hf n hr =
    scan-digits whole (b'.' ∷ (digits fraction ++ rest)) scan_init hw (omega arith)
      (value-fits whole hw (omega arith))
    ∙ scan_point (digits fraction ++ rest) (taken whole scan_init) refl
    ∙ scan-digits fraction rest (record (taken whole scan_init) { isdecimal = true }) hf
        (omega arith)
        (rw (← value-append 0 whole fraction) (
          value-fits (whole ++ fraction) (All-append (λ d. d < 10) whole fraction hw hf)
            (omega (arith, length-append whole fraction))))
    ∙ scan_stop rest (scanned whole fraction) hr

-- A sign, digits, the decimal point and decimals, at most eight digits in all, are read exactly:
-- the integer is the number of all the digits, the exponent counts the decimals, and the text
-- behind is left.
pub scan_number_exact :
    (isnegative : Bool) (whole fraction rest : List ℕ)
    → All (λ d. d < 10) whole
    → All (λ d. d < 10) fraction
    → 0 < length whole
    → length whole + length fraction ≤ max_int_digits
    → Ends rest
    → scan_number (sign_text isnegative ++ (digits whole ++ (b'.' ∷ (digits fraction ++ rest))))
      ≡ some (
        record {
          isnegative = isnegative;
          intval = value 0 (whole ++ fraction);
          exp = pos 0 -ℤ pos (length fraction);
        },
        rest,
      )
unfolding scan_number
scan_number_exact isnegative [] fraction rest hw hf n0 n hr = absurd (omega arith)
scan_number_exact isnegative (d ∷ ds) fraction rest hw hf n0 n hr =
    let text = digits ds ++ (b'.' ∷ (digits fraction ++ rest)) in
    rw
      (
        read_sign_text isnegative d text hw.0,
        scan_decimal (d ∷ ds) fraction rest hw hf n hr,
        ne→== (0 + suc (length ds) + length fraction) 0 (omega arith),
      )
      (ap
        (λ v. some (
          record { isnegative = isnegative; intval = v; exp = pos 0 -ℤ pos (length fraction) },
          rest,
        ))
        (sym (value-append 0 (d ∷ ds) fraction)))

-- The state after digits that are only counted.
abbrev dropped : List ℕ → Scan → Scan
dropped ds s = record s { ndigit = s.ndigit + length ds; exp = s.exp +ℤ pos (length ds) }

dropped-nil : (s : Scan) → dropped [] s ≡ s
dropped-nil s = ground arith

dropped-one :
    (d : ℕ) (s : Scan)
    → s.isdecimal ≡ false
    → max_int_digits ≤ s.ndigit
    → s.ndigit + 1 < 256
    → scan_digit d s ≡ dropped (d ∷ []) s
unfolding scan_digit
dropped-one d s p n h = ground arith

dropped-cons :
    (d : ℕ) (ds : List ℕ) (s : Scan) → dropped ds (dropped (d ∷ []) s) ≡ dropped (d ∷ ds) s
dropped-cons d ds s = ground arith

scan-dropped :
    (ds rest : List ℕ) (s : Scan)
    → All (λ d. d < 10) ds
    → s.isdecimal ≡ false
    → max_int_digits ≤ s.ndigit
    → s.ndigit + length ds < 256
    → scan (digits ds ++ rest) s ≡ scan rest (dropped ds s)
scan-dropped [] rest s h p n m = ap (scan rest) (sym (dropped-nil s))
scan-dropped (d ∷ ds) rest s h p n m =
    scan_step (b'0' + d) (digits ds ++ rest) s (scan_digit d s) (scan_digit_char d s h.0)
    ∙ ap (scan (digits ds ++ rest)) (dropped-one d s p n (omega arith))
    ∙ scan-dropped ds rest (dropped (d ∷ []) s) h.1 p (omega arith) (omega arith)
    ∙ ap (scan rest) (dropped-cons d ds s)

-- Of a longer integer the first eight digits enter and the others are counted: the integer that is
-- read, times ten to the exponent, is the number rounded down to eight digits.
pub scan_number_long :
    (d : ℕ) (ds more rest : List ℕ)
    → All (λ d. d < 10) (d ∷ ds)
    → All (λ d. d < 10) more
    → length ds ≡ 7
    → length more < 128
    → Ends rest
    → (n : ℕ) × (scan_number (digits (d ∷ ds) ++ (digits more ++ rest))
        ≡ some (record { isnegative = false; intval = n; exp = pos (length more) }, rest))
      × (n * 10 ^ length more ≤ value 0 ((d ∷ ds) ++ more))
      × (value 0 ((d ∷ ds) ++ more) < (n + 1) * 10 ^ length more)
unfolding scan_number
scan_number_long d ds more rest h hm e m hr = (
  value 0 (d ∷ ds),
  rw
      (
        read_sign_text false d (digits ds ++ (digits more ++ rest)) h.0,
        scan-digits (d ∷ ds) (digits more ++ rest) scan_init h (omega arith)
            (value-fits (d ∷ ds) h (omega arith)),
        scan-dropped more rest (taken (d ∷ ds) scan_init) hm refl (omega arith) (omega arith),
        scan_stop rest (dropped more (taken (d ∷ ds) scan_init)) hr,
        ne→== (0 + suc (length ds) + length more) 0 (omega arith),
      )
      (ground arith),
  rw (value-append 0 (d ∷ ds) more) ((value_bounds (value 0 (d ∷ ds)) more hm).0),
  rw (value-append 0 (d ∷ ds) more) ((value_bounds (value 0 (d ∷ ds)) more hm).1),
)

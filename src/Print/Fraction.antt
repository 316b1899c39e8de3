-- ===== src/Print/Fraction.antt =====
-- grbl_print.c: `printFloat`, from the scaled and rounded integer on.
use ecmc_plugin_grbl.Base.{
  ℕ, zero, suc, ◌+◌, ◌-◌, ◌^◌, ◌≤◌, ◌<◌, ◌≡◌, refl, ap, ◌∙◌, List, [], ◌∷◌, ◌++◌, inl, inr, arith,
  ◌==◌, if◌then◌else◌, length, length-append, length-map, length-reverse, length-replicate,
  replicate, map, Bool-cases, ==→eq, ==→ne, eq→==, ne→==, All,
}
use mathlib.Core.List.{reverse, append_assoc, map-append}
use native.Mathlib.Decide.{dec_le}
use ecmc_plugin_grbl.Print.{
  digits_loop, decimal_char, fraction_buffer, print_places, print_fraction,
}
use ecmc_plugin_grbl.Print.Digits.{
  read_number, read_number-printed, value, decimal-digit_char, All-weaken, value-digits_loop,
  digits_loop-lt, digits_loop-length,
}

print_places-short : (places : ℕ) (cs : List ℕ) → length cs < places → print_places places cs ≡ cs
unfolding print_places
print_places-short places [] h = refl
print_places-short places (c ∷ cs) h =
    rw (ne→== (length cs + 1) places (omega arith), print_places-short places cs (omega arith))

-- A text with a decimal point before its last `places` characters.
pub record Split (places : ℕ) (cs out : List ℕ) : Type 0 where
  pub whole : List ℕ
  pub fraction : List ℕ
  pub parts : cs ≡ whole ++ fraction
  pub fraction_length : length fraction ≡ places
  pub pointed : out ≡ whole ++ b'.' ∷ fraction

print_places-Split :
    (places : ℕ) (cs : List ℕ)
    → 0 < places
    → places ≤ length cs
    → Split places cs (print_places places cs)
unfolding print_places
print_places-Split places [] h l = absurd (omega arith)
print_places-Split places (c ∷ cs) h l = elim (Bool-cases ((length cs + 1) == places)) [
  | inl e ↦ record {
    whole = [];
    fraction = c ∷ cs;
    parts = refl;
    fraction_length = omega (arith, ==→eq (length cs + 1) places e);
    pointed = rw (e, print_places-short places cs (omega (arith, ==→eq (length cs + 1) places e)));
  }
  | inr e ↦
      let r = print_places-Split places cs h (omega (arith, ==→ne (length cs + 1) places e)) in
      record {
        whole = c ∷ r.whole;
        fraction = r.fraction;
        parts = ap (λ x. c ∷ x) r.parts;
        fraction_length = r.fraction_length;
        pointed = rw e (ap (λ x. c ∷ x) r.pointed);
      }
]

-- The zeros that the buffer holds behind the digits of `a`.
abbrev zeros : ℕ → ℕ → ℕ
zeros a places = places + 1 - length (digits_loop 10 10 a)

replicate-snoc : (k c : ℕ) → replicate k c ++ c ∷ [] ≡ replicate (suc k) c
replicate-snoc zero c = refl
replicate-snoc (suc k) c = ap (λ x. c ∷ x) (replicate-snoc k c)

map-replicate : (k : ℕ) → map decimal_char (replicate k 0) ≡ replicate k b'0'
map-replicate zero = refl
map-replicate (suc k) = ap (λ x. b'0' ∷ x) (map-replicate k)

value-zeros : (ds : List ℕ) (k : ℕ) → value 10 (ds ++ replicate k 0) ≡ value 10 ds
value-zeros [] zero = refl
value-zeros [] (suc k) = omega (arith, value-zeros [] k)
value-zeros (d ∷ ds) k = omega (arith, value-zeros ds k)

All-zeros : (ds : List ℕ) (k : ℕ) → All (λ d. d < 10) ds → All (λ d. d < 10) (ds ++ replicate k 0)
All-zeros [] zero h = tt
All-zeros [] (suc k) h = (omega arith, All-zeros [] k tt)
All-zeros (d ∷ ds) k h = (h.0, All-zeros ds k h.1)

-- The buffer that is filled, over the bytes of the digits.
fill : List ℕ → ℕ → List ℕ
fill digits places =
    let padded = digits ++ replicate (places - length digits) b'0' in
    if length padded == places then padded ++ b'0' ∷ [] else padded

length-padded :
    (digits : List ℕ) (places : ℕ)
    → length (digits ++ replicate (places - length digits) b'0')
      ≡ length digits + (places - length digits)
length-padded digits places =
    length-append digits (replicate (places - length digits) b'0')
    ∙ ap (λ k. length digits + k) (length-replicate (places - length digits) b'0')

fill_up :
    (digits : List ℕ) (j k : ℕ) → j ≡ k → digits ++ replicate j b'0' ≡ digits ++ replicate k b'0'
fill_up digits j k e = ap (λ n. digits ++ replicate n b'0') e

fill_lem :
    (digits : List ℕ) (places : ℕ)
    → fill digits places ≡ digits ++ replicate (places + 1 - length digits) b'0'
unfolding fill
fill_lem digits places = elim (dec_le (length digits) places) [
  | yes h ↦
      rw
        (
          eq→== _ places (length-padded digits places ∙ omega arith),
          append_assoc digits (replicate (places - length digits) b'0') (b'0' ∷ []),
          replicate-snoc (places - length digits) b'0',
        )
        (fill_up digits (suc (places - length digits)) (places + 1 - length digits) (omega arith))
  | no h ↦
      rw
        (ne→== (length (digits ++ replicate (places - length digits) b'0')) places
          (λ e. h (omega (arith, length-padded digits places, e))))
        (fill_up digits (places - length digits) (places + 1 - length digits) (omega arith))
]

fraction_buffer_lem :
    (a places : ℕ)
    → fraction_buffer a places
      ≡ map decimal_char (digits_loop 10 10 a ++ replicate (zeros a places) 0)
unfolding fraction_buffer fill
fraction_buffer_lem a places =
    let ds = digits_loop 10 10 a in
    fill_lem (map decimal_char ds) places
    ∙ rw (
      length-map decimal_char ds,
      map-append decimal_char ds (replicate (zeros a places) 0),
      map-replicate (zeros a places),
    )

-- `printFloat` from the integer `a` on, with decimals: a whole part of at least one digit, the
-- decimal point and exactly `places` digits, which without the point read back as `a`.
pub print_fraction_lem :
    (a places : ℕ)
    → a < 2 ^ 32
    → 0 < places
    → (whole : List ℕ) × (fraction : List ℕ) × (print_fraction a places ≡ whole ++ b'.' ∷ fraction)
      × (length fraction ≡ places)
      × (0 < length whole)
      × (read_number 10 0 (whole ++ fraction) ≡ a)
unfolding print_fraction
print_fraction_lem a places h hp =
    let ds = digits_loop 10 10 a ++ replicate (zeros a places) 0 in
    let buffer = fraction_buffer_lem a places in
    let digits : All (λ d. d < 10) ds =
      All-zeros (digits_loop 10 10 a) (zeros a places) (digits_loop-lt 10 10 a (omega arith)) in
    let size : length (reverse (fraction_buffer a places)) ≡ length ds =
      length-reverse (fraction_buffer a places) ∙ ap length buffer ∙ length-map decimal_char ds in
    let enough : places < length ds = omega (
      arith,
      length-append (digits_loop 10 10 a) (replicate (zeros a places) 0),
      length-replicate {A = ℕ} (zeros a places) 0,
    ) in
    let r = print_places-Split places (reverse (fraction_buffer a places)) hp (omega arith) in
    let text : read_number 10 0 (reverse (fraction_buffer a places)) ≡ a =
      rw (buffer, decimal-digit_char ds digits)
        (read_number-printed 10 ds (All-weaken 10 36 _ (omega arith) digits)
          ∙ value-zeros (digits_loop 10 10 a) (zeros a places)
          ∙ value-digits_loop 10 10 a (omega arith) (omega arith)) in
    (
      r.whole,
      r.fraction,
      r.pointed,
      r.fraction_length,
      omega (arith, ap length r.parts, length-append r.whole r.fraction, r.fraction_length),
      rw (← r.parts) text,
    )

-- The buffer of 13 is large enough for a 32-bit number and up to 12 decimals.
pub fraction_buffer-length :
    (a places : ℕ) → a < 2 ^ 32 → places ≤ 12 → length (fraction_buffer a places) ≤ 13
fraction_buffer-length a places h hp =
    rw
      (
        fraction_buffer_lem a places,
        length-map decimal_char (digits_loop 10 10 a ++ replicate (zeros a places) 0),
        length-append (digits_loop 10 10 a) (replicate (zeros a places) 0),
        length-replicate {A = ℕ} (zeros a places) 0,
      )
      (omega (arith, digits_loop-length 10 10 a))

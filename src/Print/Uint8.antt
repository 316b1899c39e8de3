-- ===== src/Print/Uint8.antt =====
-- grbl_print.c: the two routines for a `uint8_t`, against the general ones.
use ecmc_plugin_grbl.Base.{
  ℕ, zero, suc, ◌+◌, ◌*◌, ◌/◌, ◌%◌, ◌^◌, ◌≤◌, ◌<◌, ◌≡◌, refl, ap, ◌∙◌, Bool, true, false, ◌&&◌,
  List, [], ◌∷◌, arith, ◌==◌, ℕ_discrete, length, map, length-map, length-reverse, All,
}
use native.Mathlib.Nat.{pow-succ', one-le-pow}
use ecmc_plugin_grbl.Print.{
  digits_loop, print_uint8_base10, print_uint32_base10, bits_loop, print_uint8_base2_ndigit,
  decimal_char,
}
use ecmc_plugin_grbl.Print.Digits.{
  read_number, read_number-printed, value, decimal-digit_char, All-weaken,
}

-- Equality of two texts.
same : List ℕ → List ℕ → Bool
same [] [] = true
same (a ∷ xs) (b ∷ ys) = (a == b) && same xs ys
same _ _ = false

same→eq : (xs ys : List ℕ) → same xs ys ≡ true → xs ≡ ys
unfolding same
same→eq [] [] h = refl
same→eq [] (b ∷ ys) h = cc
same→eq (a ∷ xs) [] h = cc
same→eq (a ∷ xs) (b ∷ ys) h = ground (arith, same→eq xs ys)

&&-true : {a b : Bool} → (a && b) ≡ true → (a ≡ true) × (b ≡ true)
&&-true {a} {b} h = ground arith

-- Both routines print the same for every number below `limit`.
agree_below : ℕ → Bool
unfolding same print_uint8_base10 print_uint32_base10 digits_loop
agree_below zero = true
agree_below (suc limit) =
    agree_below limit && same (print_uint8_base10 limit) (print_uint32_base10 limit)

agree_below-same :
    (limit n : ℕ)
    → agree_below limit ≡ true
    → n < limit
    → same (print_uint8_base10 n) (print_uint32_base10 n) ≡ true
unfolding agree_below
agree_below-same zero n h lt = absurd (omega arith)
agree_below-same (suc limit) n h lt = elim (ℕ_discrete n limit) [
  | yes e ↦ rw e (&&-true h).1
  | no d ↦ agree_below-same limit n (&&-true h).0 (omega arith)
]

every_byte_agrees : agree_below 256 ≡ true
unfolding agree_below same print_uint8_base10 print_uint32_base10 digits_loop
every_byte_agrees = refl

-- For every `uint8_t`, the routine without a loop prints what the general one prints.
pub print_uint8_eq : (n : ℕ) → n < 256 → print_uint8_base10 n ≡ print_uint32_base10 n
print_uint8_eq n h =
    same→eq (print_uint8_base10 n) (print_uint32_base10 n)
      (agree_below-same 256 n every_byte_agrees h)

-- `n` in binary with `digits` places.
value-bits_loop : (digits n : ℕ) → value 2 (bits_loop digits n) ≡ n % 2 ^ digits
unfolding bits_loop
value-bits_loop zero n = omega arith
value-bits_loop (suc digits) n =
    rw (value-bits_loop digits (n / 2), pow-succ' 2 digits)
      (double n (2 ^ digits) (one-le-pow digits 2 (omega arith)))
  where
    double : (n p : ℕ) → 1 ≤ p → n % 2 + 2 * (n / 2 % p) ≡ n % (2 * p)
    double n p h = grind arith

bits_loop-lt : (digits n : ℕ) → All (λ d. d < 10) (bits_loop digits n)
unfolding bits_loop
bits_loop-lt zero n = tt
bits_loop-lt (suc digits) n = (omega arith, bits_loop-lt digits (n / 2))

bits_loop-length : (digits n : ℕ) → length (bits_loop digits n) ≡ digits
unfolding bits_loop
bits_loop-length zero n = refl
bits_loop-length (suc digits) n = ap suc (bits_loop-length digits (n / 2))

-- `print_uint8_base2_ndigit` prints `digits` places, which read in base 2 as the number that the
-- low `digits` bits of `n` make.
pub print_uint8_base2_value :
    (n digits : ℕ)
    → (read_number 2 0 (print_uint8_base2_ndigit n digits) ≡ n % 2 ^ digits)
      × (length (print_uint8_base2_ndigit n digits) ≡ digits)
unfolding print_uint8_base2_ndigit
print_uint8_base2_value n digits = (
  rw (decimal-digit_char (bits_loop digits n) (bits_loop-lt digits n)) (
      read_number-printed 2 (bits_loop digits n)
        (All-weaken 10 36 _ (omega arith) (bits_loop-lt digits n))
      ∙ value-bits_loop digits n),
  length-reverse (map decimal_char (bits_loop digits n))
      ∙ length-map decimal_char (bits_loop digits n)
      ∙ bits_loop-length digits n,
)

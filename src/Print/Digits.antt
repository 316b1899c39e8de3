-- ===== src/Print/Digits.antt =====
-- grbl_print.c: the digits of a number, and reading them back.
use ecmc_plugin_grbl.Base.{
  ℕ, zero, suc, ◌+◌, ◌-◌, ◌*◌, ◌/◌, ◌%◌, ◌^◌, ◌≤◌, ◌<◌, ◌≡◌, refl, sym, ap₂, ◌∙◌, List, [], ◌∷◌,
  ◌++◌, inl, inr, arith, ◌==◌, if◌then◌else◌, length, ltb, map, Bool-cases, ==→eq, All,
}
use mathlib.Core.List.{reverse, reverse-append}
use native.Mathlib.Nat.{
  add_comm, div-add-mod, div-lt_iff_lt-mul, mod-lt, pow-zero, pow-suc, pow-le-pow_left,
}
use ecmc_plugin_grbl.Print.{
  digits_loop, digit_char, decimal_char, print_integer_in_base, print_uint32_base10,
}

-- The number of a list of digits, least significant first.
abbrev pub value : ℕ → List ℕ → ℕ
value base [] = 0
value base (d ∷ ds) = d + base * value base ds

-- With as much fuel as the number has digits, the loop runs to its end and its digits have the
-- number as their value.
pub value-digits_loop :
    (fuel base n : ℕ) → 2 ≤ base → n < base ^ fuel → value base (digits_loop fuel base n) ≡ n
unfolding digits_loop
value-digits_loop zero base n hb h = omega (arith, pow-zero base)
value-digits_loop (suc fuel) base n hb h = elim (Bool-cases (n == 0)) [
  | inl e ↦ rw e (sym (==→eq n 0 e))
  | inr e ↦
      let fewer : n / base < base ^ fuel =
        (div-lt_iff_lt-mul {k = base} (omega arith)).1 (rw (pow-suc base fuel) at h) in
      rw (e, value-digits_loop fuel base (n / base) hb fewer)
        (add_comm (n % base) (base * (n / base)) ∙ div-add-mod n base)
]

pub digits_loop-length : (fuel base n : ℕ) → length (digits_loop fuel base n) ≤ fuel
unfolding digits_loop
digits_loop-length zero base n = omega arith
digits_loop-length (suc fuel) base n = ground (arith, digits_loop-length fuel base (n / base))

pub digits_loop-lt : (fuel base n : ℕ) → 0 < base → All (λ d. d < base) (digits_loop fuel base n)
unfolding digits_loop
digits_loop-lt zero base n h = tt
digits_loop-lt (suc fuel) base n h = elim (Bool-cases (n == 0)) [
  | inl e ↦ rw e tt
  | inr e ↦ rw e (mod-lt n h, digits_loop-lt fuel base (n / base) h)
]

-- A reader of numerals that is independent of the printer: most significant digit first, in any
-- base up to 36.
abbrev pub char_value : ℕ → ℕ
char_value c = if ltb c b'A' then c - b'0' else c - b'A' + 10

abbrev pub read_number : ℕ → ℕ → List ℕ → ℕ
read_number base acc [] = acc
read_number base acc (c ∷ cs) = read_number base (acc * base + char_value c) cs

read_number-append :
    (base acc : ℕ) (cs ds : List ℕ)
    → read_number base acc (cs ++ ds) ≡ read_number base (read_number base acc cs) ds
read_number-append base acc [] ds = refl
read_number-append base acc (c ∷ cs) ds = read_number-append base (acc * base + char_value c) cs ds

char_value-digit_char : (d : ℕ) → d < 36 → char_value (digit_char d) ≡ d
char_value-digit_char d h = ground arith

-- Reading printed digits gives their value.
pub read_number-printed :
    (base : ℕ) (ds : List ℕ)
    → All (λ d. d < 36) ds
    → read_number base 0 (reverse (map digit_char ds)) ≡ value base ds
read_number-printed base [] h = refl
read_number-printed base (d ∷ ds) h =
    rw
      (
        reverse-append (digit_char d ∷ []) (map digit_char ds),
        read_number-append base 0 (reverse (map digit_char ds)) (digit_char d ∷ []),
        read_number-printed base ds h.1,
        char_value-digit_char d h.0,
      )
      (omega arith)

pub All-weaken : (a b : ℕ) (ds : List ℕ) → a ≤ b → All (λ d. d < a) ds → All (λ d. d < b) ds
All-weaken a b [] h all = tt
All-weaken a b (d ∷ ds) h all = (omega arith, All-weaken a b ds h all.1)

pub decimal-digit_char :
    (ds : List ℕ) → All (λ d. d < 10) ds → map decimal_char ds ≡ map digit_char ds
decimal-digit_char [] h = refl
decimal-digit_char (d ∷ ds) h = ap₂ ◌∷◌ (ground arith) (decimal-digit_char ds h.1)

-- `printIntegerInBase`, for a base from 2 to 36 and an `unsigned long`: the printed text reads back
-- as the number, and the digits fit the buffer of 64.
pub print_integer_in_base_value :
    (n base : ℕ)
    → 2 ≤ base
    → base ≤ 36
    → n < 2 ^ 64
    → (read_number base 0 (print_integer_in_base n base) ≡ n)
      × (length (digits_loop 64 base n) ≤ 64)
unfolding print_integer_in_base
print_integer_in_base_value n base lo hi h = (text, digits_loop-length 64 base n)
  where
    fits : n < base ^ 64
    fits = omega (arith, pow-le-pow_left lo 64)

    digits : All (λ d. d < 36) (digits_loop 64 base n)
    digits = All-weaken base 36 _ hi (digits_loop-lt 64 base n (omega arith))

    text : read_number base 0 (print_integer_in_base n base) ≡ n
    text = elim (Bool-cases (n == 0)) [
      | inl e ↦ rw (e, ==→eq n 0 e) (omega arith)
      | inr e ↦ rw e (
          read_number-printed base (digits_loop 64 base n) digits
          ∙ value-digits_loop 64 base n lo fits)
    ]

-- `print_uint32_base10` prints a text that reads back as its argument, from a buffer of 10.
pub print_uint32_value :
    (n : ℕ)
    → n < 2 ^ 32
    → (read_number 10 0 (print_uint32_base10 n) ≡ n) × (length (digits_loop 10 10 n) ≤ 10)
unfolding print_uint32_base10
print_uint32_value n h = (text, digits_loop-length 10 10 n)
  where
    digits : All (λ d. d < 10) (digits_loop 10 10 n)
    digits = digits_loop-lt 10 10 n (omega arith)

    text : read_number 10 0 (print_uint32_base10 n) ≡ n
    text = elim (Bool-cases (n == 0)) [
      | inl e ↦ rw (e, ==→eq n 0 e)
      | inr e ↦
          rw (e, decimal-digit_char (digits_loop 10 10 n) digits)
            (read_number-printed 10 (digits_loop 10 10 n) (All-weaken 10 36 _ (omega arith) digits)
              ∙ value-digits_loop 10 10 n (omega arith) (omega arith))
    ]

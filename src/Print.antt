-- ===== src/Print.antt =====
-- grbl_print.c: each function gives the bytes that it hands to `serial_write`, in order.
pub mod Digits
pub mod Uint8
pub mod Fraction
use ecmc_plugin_grbl.Base.{
  ℕ, zero, suc, ◌+◌, ◌-◌, ◌*◌, ◌/◌, ◌%◌, ◌^◌, Bool, List, [], ◌∷◌, ◌++◌, leb, ltb, ◌==◌,
  if◌then◌else◌, length, replicate, map,
}
use mathlib.Core.List.{reverse}
use ecmc_plugin_grbl.Base.Int.{ℤ, pos, negsuc}

-- `while (n > 0) { buf[i++] = n % base; n /= base; }`, the buffer from its start. The fuel is the
-- size of the buffer: `value-digits_loop` shows that it suffices, and `digits_loop-length` that
-- the buffer does.
pub digits_loop : ℕ → ℕ → ℕ → List ℕ
digits_loop zero base n = []
digits_loop (suc fuel) base n =
    let rest = digits_loop fuel base (n / base) in if n == 0 then [] else (n % base) ∷ rest

-- `printString` and `printPgmString`: the text up to its terminating zero.
pub print_string : List ℕ → List ℕ
print_string [] = []
print_string (c ∷ s) = let rest = print_string s in if c == 0 then [] else c ∷ rest

abbrev pub digit_char : ℕ → ℕ
digit_char d = if ltb d 10 then b'0' + d else b'A' + d - 10

abbrev pub decimal_char : ℕ → ℕ
decimal_char d = b'0' + d

-- The buffer has `8 * sizeof(long)` places.
pub print_integer_in_base : ℕ → ℕ → List ℕ
print_integer_in_base n base =
    if n == 0 then b'0' ∷ [] else reverse (map digit_char (digits_loop 64 base n))

-- `uint8_t` arithmetic stays below 256 here: the digits are at most 9.
pub print_uint8_base10 : ℕ → List ℕ
print_uint8_base10 n =
    let digit_a = if leb 100 n then b'0' + n % 10 else 0 in
    let n' = if leb 100 n then n / 10 else n in
    let digit_b = if leb 10 n' then b'0' + n' % 10 else 0 in
    let n'' = if leb 10 n' then n' / 10 else n' in
    (b'0' + n'')
    ∷ ((if digit_b == 0 then [] else digit_b ∷ []) ++ (if digit_a == 0 then [] else digit_a ∷ []))

-- The buffer that the first loop of `print_uint8_base2_ndigit` fills.
pub bits_loop : ℕ → ℕ → List ℕ
bits_loop zero n = []
bits_loop (suc digits) n = (n % 2) ∷ bits_loop digits (n / 2)

pub print_uint8_base2_ndigit : ℕ → ℕ → List ℕ
print_uint8_base2_ndigit n digits = reverse (map decimal_char (bits_loop digits n))

-- The buffer has 10 places.
pub print_uint32_base10 : ℕ → List ℕ
print_uint32_base10 n =
    if n == 0 then b'0' ∷ [] else reverse (map decimal_char (digits_loop 10 10 n))

-- The argument of `print_uint32_base10` is taken mod 2 ^ 32.
pub print_integer : ℤ → List ℕ
print_integer (pos n) = print_uint32_base10 (n % 2 ^ 32)
print_integer (negsuc n) = b'-' ∷ print_uint32_base10 (suc n % 2 ^ 32)

-- The second half of `printFloat`, from `a` on: the digits of `a`, zeros up to the decimal point,
-- and the leading zero; the buffer from its start.
pub fraction_buffer : ℕ → ℕ → List ℕ
fraction_buffer a decimal_places =
    let digits = map decimal_char (digits_loop 10 10 a) in
    let padded = digits ++ replicate (decimal_places - length digits) b'0' in
    if length padded == decimal_places then padded ++ b'0' ∷ [] else padded

-- The print loop, over the buffer from its end: `i` places are left.
pub print_places : ℕ → List ℕ → List ℕ
print_places decimal_places [] = []
print_places decimal_places (c ∷ places) =
    let rest = print_places decimal_places places in
    if (length places + 1) == decimal_places then b'.' ∷ c ∷ rest else c ∷ rest

pub print_fraction : ℕ → ℕ → List ℕ
print_fraction a decimal_places =
    print_places decimal_places (reverse (fraction_buffer a decimal_places))

-- ===== src/Gcode/Result.antt =====
-- `FAIL(status)` of grbl_gcode.c as a value: a step ends with its result, or with the status that the
-- line is answered with.
use ecmc_plugin_grbl.Base.{Bool, true, false, ◌≡◌, ◌⊎◌, inl, inr, refl, subst, if◌then◌else◌}
use ecmc_plugin_grbl.Status.{Status}

pub data Result {ℓ} (A : Type ℓ) : Type ℓ where
  done : A → Result A
  fail : Status → Result A

infixl 5 ◌>>=◌
abbrev pub ◌>>=◌ {ℓ κ} : {A : Type ℓ} {B : Type κ} → Result A → (A → Result B) → Result B
done a >>= f = f a
fail s >>= f = fail s

-- A failure, unless the condition is false.
abbrev pub fail_if {ℓ} : {A : Type ℓ} → Bool → Status → Result A → Result A
fail_if c s rest = if c then fail s else rest

-- The same for a step that also reads and writes the EEPROM. What was written stays written.
abbrev pub and_then {ℓ κ} :
    {A : Type ℓ} {B : Type κ} {C : Type 0} → Result A × C → (A → C → Result B × C) → Result B × C
and_then (done a, c) f = f a c
and_then (fail s, c) f = (fail s, c)

abbrev pub fail_with {ℓ} :
    {A : Type ℓ} {C : Type 0} → Bool → Status → C → Result A × C → Result A × C
fail_with condition s c rest = if condition then (fail s, c) else rest

-- The result of a step that does not fail satisfies `P`.
abbrev pub Ensures {ℓ κ} : {A : Type ℓ} → (A → Type κ) → Result A → Type κ
Ensures P (done a) = P a
Ensures P (fail s) = Unit

pub Ensures-bind {ℓ κ} :
    {A B : Type ℓ} (P : A → Type κ) (Q : B → Type κ) (m : Result A) (f : A → Result B)
    → Ensures P m
    → ((a : A) → P a → Ensures Q (f a))
    → Ensures Q (m >>= f)
Ensures-bind P Q (done a) f h k = k a h
Ensures-bind P Q (fail s) f h k = tt

pub Ensures-done {ℓ κ} :
    {A : Type ℓ} (P : A → Type κ) (m : Result A) {a : A} → Ensures P m → m ≡ done a → P a
Ensures-done P (done b) h e = subst (Ensures P) e h
Ensures-done P (fail s) h e = cc

pub Ensures-self {ℓ} : {A : Type ℓ} (m : Result A) → Ensures (λ a. m ≡ done a) m
Ensures-self (done a) = refl
Ensures-self (fail s) = tt

pub both {ℓ κ} :
    {A : Type ℓ} (P Q : A → Type κ) (m : Result A)
    → Ensures P m
    → Ensures Q m
    → Ensures (λ a. P a × Q a) m
both P Q (done a) hp hq = (hp, hq)
both P Q (fail s) hp hq = tt

pub Ensures-map {ℓ κ} :
    {A : Type ℓ} (P Q : A → Type κ) (m : Result A)
    → Ensures P m
    → ((a : A) → P a → Q a)
    → Ensures Q m
Ensures-map P Q (done a) h k = k a h
Ensures-map P Q (fail s) h k = tt

pub Ensures-fail_if {ℓ κ} :
    {A : Type ℓ} (P : A → Type κ) (c : Bool) (s : Status) (m : Result A)
    → Ensures P m
    → Ensures P (fail_if c s m)
Ensures-fail_if P true s m h = tt
Ensures-fail_if P false s m h = h

pub Result-cases {ℓ} :
    {A : Type ℓ} (m : Result A) → ((a : A) × (m ≡ done a)) ⊎ ((s : Status) × (m ≡ fail s))
Result-cases (done a) = inl (a, refl)
Result-cases (fail s) = inr (s, refl)

-- The same for a step that also reads and writes the EEPROM.
pub Ensures-and_then {ℓ κ} :
    {A B : Type ℓ} {C : Type 0} (P : A → Type κ) (Q : B → Type κ) (m : Result A × C)
    (f : A → C → Result B × C)
    → Ensures P m.0
    → ((a : A) (c : C) → P a → Ensures Q (f a c).0)
    → Ensures Q (and_then m f).0
Ensures-and_then P Q (done a, c) f h k = k a c h
Ensures-and_then P Q (fail s, c) f h k = tt

pub Ensures-any {ℓ} : {A : Type ℓ} (m : Result A) → Ensures {ℓ, 0} (λ _. Unit) m
Ensures-any (done a) = tt
Ensures-any (fail s) = tt

-- ===== src/Config/Decimal.antt =====
-- src/systems/config.c reads its numbers with `atoi` and `atol`; here a number is written in
-- decimal, and both read it back.
use native.Mathlib.Nat.{pow-suc}
use poste_italiane_simulatio.Prelude.{
  ℕ, zero, suc, ◌+◌, ◌-◌, ◌*◌, ◌/◌, ◌%◌, ◌^◌, ◌≤◌, ◌<◌, min, ◌≡◌, ◌≢◌, refl, ap, ◌∙◌, true, inl,
  inr, [], ◌∷◌, All, length, ltb, if◌then◌else◌, Bool-cases, arith,
}
use poste_italiane_simulatio.Config.Scan.{Bytes}
use poste_italiane_simulatio.Config.Numbers.{
  is_digit, digits_value, negative_long, signed_long, skip_spaces, atol, atoi,
}

-- The decimal digits of `n`, on fuel: `n` itself is enough below `fuel`.
print_onto : ℕ → ℕ → Bytes → Bytes
print_onto zero n out = out
print_onto (suc fuel) n out =
    let more = print_onto fuel (n / 10) ((b'0' + n % 10) ∷ out) in
    if ltb n 10 then (b'0' + n) ∷ out else more

unfoldable pub print_decimal : ℕ → Bytes
unfolding print_onto
print_decimal n = print_onto (suc n) n []

abbrev pub IsDigit : ℕ → Type 0
IsDigit c = (b'0' ≤ c) × (c ≤ b'9')

is_digit_digit : (d : ℕ) → d < 10 → is_digit (b'0' + d) ≡ true
is_digit_digit d h = ground arith

digits_value-digit :
    (acc d v : ℕ) (out : Bytes)
    → d < 10
    → 10 * acc + d ≡ v
    → digits_value acc ((b'0' + d) ∷ out) ≡ digits_value v out
unfolding digits_value
digits_value-digit acc d v out h e =
    rw (is_digit_digit d h) (ap (λ n. digits_value n out) (omega arith))

-- The digits of `n` in front of `out` shift what was read before by as many places.
print_onto-value :
    (fuel n : ℕ) (out : Bytes)
    → n < fuel
    → digits_value 0 (print_onto fuel n out) ≡ digits_value n out
unfolding print_onto
print_onto-value zero n out h = elim h [ ]
print_onto-value (suc fuel) n out h = elim (Bool-cases (ltb n 10)) [
  | inl small ↦ rw small (digits_value-digit 0 n n out (ground arith) (omega arith))
  | inr big ↦ rw big (
      print_onto-value fuel (n / 10) ((b'0' + n % 10) ∷ out) (ground arith)
      ∙ digits_value-digit (n / 10) (n % 10) n out (omega arith) (omega arith))
]

print_onto-IsDigit :
    (fuel n : ℕ) (out : Bytes) → n < fuel → All IsDigit out → All IsDigit (print_onto fuel n out)
unfolding print_onto
print_onto-IsDigit zero n out h d = elim h [ ]
print_onto-IsDigit (suc fuel) n out h d =
    ground (arith, print_onto-IsDigit fuel (n / 10) ((b'0' + n % 10) ∷ out))

print_onto-length :
    (k fuel n : ℕ) (out : Bytes)
    → n < fuel
    → n < 10 ^ suc k
    → length (print_onto fuel n out) ≤ suc k + length out
unfolding print_onto
print_onto-length k zero n out h b = elim h [ ]
print_onto-length zero (suc fuel) n out h b = ground arith
print_onto-length (suc k) (suc fuel) n out h b =
    ground (arith, print_onto-length k fuel (n / 10) ((b'0' + n % 10) ∷ out), pow-suc 10 (suc k))

pub print_decimal-IsDigit : (n : ℕ) → All IsDigit (print_decimal n)
unfolding print_decimal
print_decimal-IsDigit n = print_onto-IsDigit (suc n) n [] (omega arith) tt

pub print_decimal-length : (k n : ℕ) → n < 10 ^ suc k → length (print_decimal n) ≤ suc k
unfolding print_decimal
print_decimal-length k n h = omega (arith, print_onto-length k (suc n) n [] (omega arith) h)

print_decimal-value : (n : ℕ) → digits_value 0 (print_decimal n) ≡ n
unfolding print_decimal digits_value
print_decimal-value n = print_onto-value (suc n) n [] (omega arith)

-- A text of digits has no sign and no blank in front.
atol-digits : (s : Bytes) → All IsDigit s → atol s ≡ min (digits_value 0 s) (2 ^ 63 - 1)
unfolding atol
atol-digits [] d = unfold digits_value in refl
atol-digits (c ∷ cs) d = unfold skip_spaces signed_long in ground (arith)

pub atol-print_decimal : (n : ℕ) → n < 2 ^ 63 → atol (print_decimal n) ≡ n
atol-print_decimal n h =
    omega (arith, atol-digits (print_decimal n) (print_decimal-IsDigit n), print_decimal-value n)

-- What `atoi` reads of the decimal digits of an int is that int.
pub atoi-print_decimal : (n : ℕ) → n < 2 ^ 31 → atoi (print_decimal n) ≡ n
unfolding atoi
atoi-print_decimal n h = omega (arith, atol-print_decimal n)

-- The same of a negative int, whose sign stands in front of its digits.
pub atoi-minus : (x : ℕ) → 2 ^ 31 ≤ x → x < 2 ^ 32 → atoi (b'-' ∷ print_decimal (2 ^ 32 - x)) ≡ x
unfolding atoi atol skip_spaces signed_long negative_long
atoi-minus x low high = omega (arith, print_decimal-value (2 ^ 32 - x))

print_onto-longer :
    (fuel n : ℕ) (out : Bytes) → n < fuel → length out < length (print_onto fuel n out)
unfolding print_onto
print_onto-longer zero n out h = elim h [ ]
print_onto-longer (suc fuel) n out h =
    ground (arith, print_onto-longer fuel (n / 10) ((b'0' + n % 10) ∷ out))

pub print_decimal_ne-nil : (n : ℕ) → print_decimal n ≢ []
unfolding print_decimal
print_decimal_ne-nil n e =
    absurd (omega (arith, print_onto-longer (suc n) n [] (omega arith), ap length e))

-- ===== src/Direttore/Format.antt =====
-- The `fprintf` of src/direttore.c: a text with the directives %d, %ld, %s and %.2f, and its
-- arguments. An argument that is not of the directive's type, or missing, is undefined.
use poste_italiane_simulatio.Prelude.{
  ℕ, ◌-◌, ◌^◌, ◌<◌, ◌≡◌, Bool, true, false, ◌||◌, inl, inr, List, [], ◌∷◌, ◌++◌, Option, none, some,
  Outcome, ok, fault, ◌>>=◌, ltb, ◌==◌, if◌then◌else◌, Bool-cases, arith,
}
use poste_italiane_simulatio.Config.Scan.{Bytes, codes, str_eq}
use poste_italiane_simulatio.Config.Numbers.{atoi}
use poste_italiane_simulatio.Config.Decimal.{print_decimal, atoi-print_decimal, atoi-minus}

-- `%d` and `%ld`: the decimal digits, with a sign in front of a negative number.
unfoldable pub print_int : ℕ → Bytes
print_int x = if ltb x (2 ^ 31) then print_decimal x else b'-' ∷ print_decimal (2 ^ 32 - x)

unfoldable pub print_long : ℕ → Bytes
print_long x = if ltb x (2 ^ 63) then print_decimal x else b'-' ∷ print_decimal (2 ^ 64 - x)

-- An argument; that of `%.2f` is the text that its directive makes of it.
pub data Arg : Type 0 where
  int long : ℕ → Arg
  str fixed : Bytes → Arg

-- A directive: `%`, what stands between, and the last character.
abbrev pub convert : Bytes → Arg → Outcome Bytes
convert spec (int x) = if str_eq spec (codes "d") then ok (print_int x) else fault
convert spec (long x) = if str_eq spec (codes "ld") then ok (print_long x) else fault
convert spec (str s) = if str_eq spec (codes "s") then ok s else fault
convert spec (fixed s) = if str_eq spec (codes ".2f") then ok s else fault

abbrev pub ends_spec : ℕ → Bool
ends_spec c = c == b'd' || c == b's' || c == b'f'

-- The text of a format from a place on, inside of a directive or not.
unfoldable pub format_from : Option Bytes → Bytes → List Arg → Outcome Bytes
format_from none [] args = ok []
format_from (some spec) [] args = fault
format_from none (c ∷ cs) args = elim (c == b'%') [
  | true ↦ format_from (some []) cs args
  | false ↦ format_from none cs args >>= λ rest. ok (c ∷ rest)
]
format_from (some spec) (c ∷ cs) [] = fault
format_from (some spec) (c ∷ cs) (a ∷ args) = elim (ends_spec c) [
  | true ↦ do text ← convert (spec ++ c ∷ []) a; rest ← format_from none cs args; ok (text ++ rest)
  | false ↦ format_from (some (spec ++ c ∷ [])) cs (a ∷ args)
]

unfoldable pub printf : Bytes → List Arg → Outcome Bytes
unfolding format_from
printf format args = format_from none format args

-- Formats printed one after the other.
abbrev pub Line : Type 0
Line = Bytes × List Arg

unfoldable pub prints : List Line → Outcome Bytes
unfolding printf
prints [] = ok []
prints ((format, args) ∷ lines) = do
  text ← printf format args
  more ← prints lines
  ok (text ++ more)

-- What `atoi` reads of a printed int, negative or not, is that int.
pub atoi-print_int : (x : ℕ) → x < 2 ^ 32 → atoi (print_int x) ≡ x
unfolding print_int
atoi-print_int x h = elim (Bool-cases (ltb x (2 ^ 31))) [
  | inl small ↦ rw small (atoi-print_decimal x (ground arith))
  | inr big ↦ rw big (atoi-minus x (ground arith) h)
]

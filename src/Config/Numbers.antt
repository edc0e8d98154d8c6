-- ===== src/Config/Numbers.antt =====
-- `atol` and `atoi` of the C library that src/systems/config.c reads numbers with: as in glibc on
-- a 64-bit machine, `atol` is `strtol` to base ten, which stops at the ends of long, and `atoi`
-- keeps the low 32 bits of it.
use poste_italiane_simulatio.Prelude.{
  ℕ, ◌+◌, ◌-◌, ◌*◌, ◌%◌, ◌^◌, ◌<◌, min, [], ◌∷◌, Bool, ◌&&◌, ◌||◌, leb, ◌==◌, if◌then◌else◌, arith,
}
use poste_italiane_simulatio.Config.Scan.{Bytes}

-- `isspace` in the C locale.
abbrev pub is_space : ℕ → Bool
is_space c = c == b' ' || (leb 9 c && leb c 13)

abbrev pub is_digit : ℕ → Bool
is_digit c = leb b'0' c && leb c b'9'

-- The value of the digits in front, with `acc` read so far.
unfoldable pub digits_value : ℕ → Bytes → ℕ
digits_value acc [] = acc
digits_value acc (c ∷ cs) =
    let rest = digits_value (10 * acc + (c - b'0')) cs in if is_digit c then rest else acc

pub unsigned_long : Bytes → ℕ
unfolding digits_value
unsigned_long s = min (digits_value 0 s) (2 ^ 63 - 1)

unfoldable pub negative_long : Bytes → ℕ
unfolding digits_value
negative_long s = (2 ^ 64 - min (digits_value 0 s) (2 ^ 63)) % 2 ^ 64

unfoldable pub signed_long : Bytes → ℕ
unfolding unsigned_long negative_long
signed_long [] = 0
signed_long (c ∷ cs) =
    if c == b'-'
    then negative_long cs
    else if c == b'+'
    then unsigned_long cs
    else unsigned_long (c ∷ cs)

unfoldable pub skip_spaces : Bytes → Bytes
skip_spaces [] = []
skip_spaces (c ∷ cs) = let r = skip_spaces cs in if is_space c then r else c ∷ cs

unfoldable pub atol : Bytes → ℕ
unfolding signed_long skip_spaces
atol s = signed_long (skip_spaces s)

unfoldable pub atoi : Bytes → ℕ
unfolding atol
atoi s = atol s % 2 ^ 32

pub atoi_bound : (s : Bytes) → atoi s < 2 ^ 32
unfolding atoi
atoi_bound s = omega arith

-- ===== src/Config/Scan.antt =====
-- The C library calls that src/systems/config.c cuts a line with: fgets, strchr, strtok, strcmp.
-- A text is its list of bytes. `c_string` is what the string functions see of a buffer: the bytes
-- before the first NUL.
use Prim.Native.Char.{code}
use Prim.Native.String.{String}
use poste_italiane_simulatio.Prelude.{
  ℕ, zero, suc, List, [], ◌∷◌, Bool, true, false, ◌&&◌, ◌||◌, Option, none, some, ◌==◌,
  if◌then◌else◌,
}

abbrev pub Bytes : Type 0
Bytes = List ℕ

-- The code points of a literal, which are its bytes where it is ASCII.
abbrev pub codes : String → Bytes
codes String.[] = []
codes (String.◌∷◌ c s) = code c ∷ codes s

-- The longest prefix whose bytes fail the test, and what follows it.
unfoldable pub break : (ℕ → Bool) → Bytes → Bytes × Bytes
break p [] = ([], [])
break p (c ∷ cs) = let (l, r) = break p cs in if p c then ([], c ∷ cs) else (c ∷ l, r)

unfoldable pub c_string : Bytes → Bytes
unfolding break
c_string s = (break (λ c. c == 0) s).0

-- `fgets(line, k + 1, file)`: at most `k` bytes, up to and with the first newline. It hands over
-- the bytes read and those that the stream still holds; nothing read is the NULL result.
unfoldable pub fgets : ℕ → Bytes → Bytes × Bytes
fgets zero s = ([], s)
fgets (suc k) [] = ([], [])
fgets (suc k) (c ∷ cs) = let (l, r) = fgets k cs in if c == b'\n' then (c ∷ [], cs) else (c ∷ l, r)

-- `char *hash = strchr(line, '#'); if (hash) *hash = '\0';`
unfoldable pub strip_comment : Bytes → Bytes
unfolding break
strip_comment s = (break (λ c. c == b'#') s).0

-- The delimiters " =\t\n".
abbrev pub is_delim : ℕ → Bool
is_delim c = c == b' ' || c == b'=' || c == b'\t' || c == b'\n'

unfoldable pub skip_delims : Bytes → Bytes
skip_delims [] = []
skip_delims (c ∷ cs) = let r = skip_delims cs in if is_delim c then r else c ∷ cs

-- The byte that ends a token is overwritten, and the scan goes on behind it.
abbrev pub behind : Bytes → Bytes
behind [] = []
behind (c ∷ cs) = cs

abbrev pub token : Bytes → Option (Bytes × Bytes)
token [] = none
token (c ∷ cs) = let (t, r) = break is_delim (c ∷ cs) in some (t, behind r)

-- `strtok`: the next token and the rest of the string, or none at its end.
unfoldable pub strtok : Bytes → Option (Bytes × Bytes)
unfolding break skip_delims
strtok s = token (skip_delims s)

-- `strcmp(a, b) == 0`
unfoldable pub str_eq : Bytes → Bytes → Bool
str_eq [] [] = true
str_eq (x ∷ xs) (y ∷ ys) = x == y && str_eq xs ys
str_eq _ _ = false

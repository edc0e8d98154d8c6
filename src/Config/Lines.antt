-- ===== src/Config/Lines.antt =====
-- src/systems/config.c, the loop of `load_config`: how `fgets` cuts a file into lines, and the
-- end of the loop.
use mathlib.Core.List.{foldl}
use poste_italiane_simulatio.Prelude.{
  ℕ, zero, suc, ◌≤◌, ◌<◌, ◌≡◌, ◌≢◌, refl, ap, ◌∙◌, ◌⊎◌, inl, inr, List, [], ◌∷◌, ◌++◌, length,
  length-append, All, ◌==◌, ==_iff, Bool-cases, arith,
}
use poste_italiane_simulatio.Config.Defs.{PosteConfig}
use poste_italiane_simulatio.Config.Scan.{Bytes, fgets}
use poste_italiane_simulatio.Config.Load.{process_line, unless_eof, load_lines}

abbrev pub NoNewline : Bytes → Type 0
NoNewline = All (λ c. c ≢ b'\n')

-- One newline, at the end.
abbrev pub IsTerminated : Bytes → Type 0
IsTerminated l = (body : Bytes) × (l ≡ body ++ b'\n' ∷ []) × NoNewline body

-- What a call that may store `k` bytes takes off the front of a stream.
pub record IsTaken (k : ℕ) (stream : Bytes) (taken : Bytes × Bytes) : Type 0 where
  pub splits : stream ≡ taken.0 ++ taken.1
  pub fits : length taken.0 ≤ k
  pub stops : IsTerminated taken.0 ⊎ (NoNewline taken.0 × ((length taken.0 ≡ k) ⊎ (taken.1 ≡ [])))

IsTaken-cons :
    {k : ℕ} {stream : Bytes} {taken : Bytes × Bytes} (c : ℕ)
    → c ≢ b'\n'
    → IsTaken k stream taken
    → IsTaken (suc k) (c ∷ stream) (c ∷ taken.0, taken.1)
IsTaken-cons {k} {stream} {taken} c ne t = record {
  splits = ap (◌∷◌ c) t.splits;
  fits = omega (arith, t.fits);
  stops = elim t.stops [
    | inl (body, e, plain) ↦ inl (c ∷ body, ap (◌∷◌ c) e, (ne, plain))
    | inr (plain, full) ↦ inr ((ne, plain), elim full [ inl e ↦ inl (ap suc e) | inr e ↦ inr e ])
  ];
}

fgets-IsTaken : (k : ℕ) (stream : Bytes) → IsTaken k stream (fgets k stream)
unfolding fgets
fgets-IsTaken zero stream = record { splits = refl; fits = omega arith; stops = inr (tt, inl refl) }
fgets-IsTaken (suc k) [] = record { splits = refl; fits = omega arith; stops = inr (tt, inr refl) }
fgets-IsTaken (suc k) (c ∷ cs) = elim (Bool-cases (c == b'\n')) [
  | inl e ↦ rw e (record {
    splits = refl;
    fits = omega arith;
    stops = inl ([], ap (λ x. x ∷ []) ((==_iff c b'\n').0 e), tt);
  })
  | inr e ↦ rw e (IsTaken-cons c (ground arith) (fgets-IsTaken k cs))
]

fgets-ne-nil : (k c : ℕ) (cs : Bytes) → (fgets (suc k) (c ∷ cs)).0 ≢ []
unfolding fgets
fgets-ne-nil k c cs = ground arith

-- The lines of a file, as the loop reads them: each takes a byte or more and at most `k`, and stops
-- behind the first newline, at `k` bytes, or at the end of the file.
pub data IsCut (k : ℕ) : Bytes → List Bytes → Type 0 where
  done : IsCut k [] []
  line :
      {file : Bytes} {lines : List Bytes} (l rest : Bytes)
      → l ≢ []
      → IsTaken k file (l, rest)
      → IsCut k rest lines
      → IsCut k file (l ∷ lines)

unless_eof_ne-nil : (l : Bytes) (g h : PosteConfig) → l ≢ [] → unless_eof l g h ≡ h
unless_eof_ne-nil [] g h ne = absurd (ne refl)
unless_eof_ne-nil (c ∷ cs) g h ne = refl

length_pos : (l : Bytes) → l ≢ [] → 0 < length l
length_pos [] ne = absurd (ne refl)
length_pos (c ∷ cs) ne = omega arith

shorter :
    {k fuel : ℕ} {stream : Bytes} {taken : Bytes × Bytes}
    → taken.0 ≢ []
    → IsTaken k stream taken
    → length stream < suc fuel
    → length taken.1 < fuel
shorter {taken} ne t h =
    omega (arith, ap length t.splits, length-append taken.0 taken.1, length_pos taken.0 ne)

load_lines-IsCut :
    (fuel k : ℕ) (g : PosteConfig) (file : Bytes)
    → length file < fuel
    → (lines : List Bytes) × IsCut (suc k) file lines
      × (load_lines fuel (suc k) g file ≡ foldl process_line g lines)
unfolding load_lines
load_lines-IsCut zero k g file h = elim h [ ]
load_lines-IsCut (suc fuel) k g [] h = ([], done, unfold fgets in refl)
load_lines-IsCut (suc fuel) k g (c ∷ cs) h =
    let ne = fgets-ne-nil k c cs in
    let taken = fgets-IsTaken (suc k) (c ∷ cs) in
    let later =
      load_lines-IsCut fuel k (process_line g (fgets (suc k) (c ∷ cs)).0) (fgets (suc k) (c ∷ cs)).1
        (shorter ne taken h) in
    (
      (fgets (suc k) (c ∷ cs)).0 ∷ later.0,
      line (fgets (suc k) (c ∷ cs)).0 (fgets (suc k) (c ∷ cs)).1 ne taken later.1,
      unless_eof_ne-nil _ g _ ne ∙ later.2,
    )

-- With any fuel above the length of the file the loop of `load_config` reads the file to its end:
-- it cuts it into lines, none empty, none longer than the 127 bytes that `line` has room for, each
-- ended by its one newline, by a full buffer, or by the end of the file, which joined make up the
-- file; and the settings are those of the body of the loop run on each line in turn.
pub load_lines-IsCut_enough :
    (fuel : ℕ) (g : PosteConfig) (file : Bytes)
    → length file < fuel
    → (lines : List Bytes) × IsCut 127 file lines
      × (load_lines fuel 127 g file ≡ foldl process_line g lines)
load_lines-IsCut_enough fuel g file h = load_lines-IsCut fuel 126 g file h

-- More fuel than the file has bytes makes no difference.
pub load_lines-fuel :
    (f f' k : ℕ) (g : PosteConfig) (file : Bytes)
    → length file < f
    → length file < f'
    → load_lines f (suc k) g file ≡ load_lines f' (suc k) g file
unfolding load_lines
load_lines-fuel zero f' k g file h h' = elim h [ ]
load_lines-fuel (suc f) zero k g file h h' = elim h' [ ]
load_lines-fuel (suc f) (suc f') k g [] h h' = unfold fgets in refl
load_lines-fuel (suc f) (suc f') k g (c ∷ cs) h h' =
    let ne = fgets-ne-nil k c cs in
    let taken = fgets-IsTaken (suc k) (c ∷ cs) in
    ap (unless_eof (fgets (suc k) (c ∷ cs)).0 g) (
      load_lines-fuel f f' k (process_line g (fgets (suc k) (c ∷ cs)).0) (fgets (suc k) (c ∷ cs)).1
        (shorter ne taken h) (shorter ne taken h'))

pub fgets-full : (l rest : Bytes) → NoNewline l → fgets (length l) (l ++ rest) ≡ (l, rest)
unfolding fgets
fgets-full [] rest h = refl
fgets-full (c ∷ cs) rest h = ground (arith, fgets-full cs rest h.1)

-- One round of the loop.
pub load_lines-step :
    (fuel k : ℕ) (g : PosteConfig) (file l rest : Bytes)
    → fgets (suc k) file ≡ (l, rest)
    → l ≢ []
    → load_lines (suc fuel) (suc k) g file ≡ load_lines fuel (suc k) (process_line g l) rest
unfolding load_lines
load_lines-step fuel k g file l rest e ne =
    rw e (unless_eof_ne-nil l g (load_lines fuel (suc k) (process_line g l) rest) ne)

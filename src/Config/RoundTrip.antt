-- ===== src/Config/RoundTrip.antt =====
-- src/systems/config.c: `load_config` on files with one `key=value` line for each setting.
use mathlib.Core.List.{foldl, append_assoc}
use poste_italiane_simulatio.Prelude.{
  ℕ, zero, suc, ◌≤◌, ◌<◌, ◌^◌, ◌≡◌, ◌≢◌, refl, ap, ◌∙◌, inl, List, [], ◌∷◌, ◌++◌, All, length,
  length-append, arith, not, Bool, ◌&&◌, ◌||◌, true, ◌==◌,
}
use poste_italiane_simulatio.Config.Defs.{PosteConfig}
use poste_italiane_simulatio.Config.Scan.{Bytes, is_delim, fgets}
use poste_italiane_simulatio.Config.Load.{process_line, load_lines, load_file}
use poste_italiane_simulatio.Config.Lines.{NoNewline, load_lines-step}
use poste_italiane_simulatio.Config.Entry.{IsPlain, process_line-entry}
use poste_italiane_simulatio.Config.Decimal.{
  IsDigit, print_decimal, print_decimal-IsDigit, print_decimal-length, print_decimal_ne-nil,
}
use poste_italiane_simulatio.Config.Settings.{
  Setting, name, put, InRange, apply_setting-name, num_operators, num_users, num_worker_seats,
  sim_duration, p_serv_min, p_serv_max, minute_duration, worker_shift_open, worker_shift_close,
  explode_max, max_n_requests, nof_pause,
}
use poste_italiane_simulatio.Config.Valid.{IsValid}

abbrev pub Entry : Type 0
Entry = Setting × ℕ

abbrev body : Entry → Bytes
body (s, n) = name s ++ (b'=' ∷ print_decimal n)

abbrev pub entry_line : Entry → Bytes
entry_line e = body e ++ b'\n' ∷ []

abbrev pub render : List Entry → Bytes
render [] = []
render (e ∷ es) = entry_line e ++ render es

abbrev pub put_entry : PosteConfig → Entry → PosteConfig
put_entry g (s, n) = put g s n

-- A key of the file format, by evaluation.
abbrev pub is_plain : Bytes → Bool
is_plain [] = true
is_plain (c ∷ cs) = (not (is_delim c || (c == b'#' || c == 0))) && is_plain cs

pub is_plain_sound : (l : Bytes) → is_plain l ≡ true → All IsPlain l
is_plain_sound [] h = tt
is_plain_sound (c ∷ cs) h = ground (arith, is_plain_sound cs)

record IsKey (l : Bytes) : Type 0 where
  plain : All IsPlain l
  ne_nil : l ≢ []
  short : length l ≤ 18

name-IsKey : (s : Setting) → IsKey (name s)
name-IsKey num_operators = record {
  plain = is_plain_sound (name num_operators) refl;
  ne_nil = λ e. cc;
  short = omega arith;
}
name-IsKey num_users = record {
  plain = is_plain_sound (name num_users) refl;
  ne_nil = λ e. cc;
  short = omega arith;
}
name-IsKey num_worker_seats = record {
  plain = is_plain_sound (name num_worker_seats) refl;
  ne_nil = λ e. cc;
  short = omega arith;
}
name-IsKey sim_duration = record {
  plain = is_plain_sound (name sim_duration) refl;
  ne_nil = λ e. cc;
  short = omega arith;
}
name-IsKey p_serv_min = record {
  plain = is_plain_sound (name p_serv_min) refl;
  ne_nil = λ e. cc;
  short = omega arith;
}
name-IsKey p_serv_max = record {
  plain = is_plain_sound (name p_serv_max) refl;
  ne_nil = λ e. cc;
  short = omega arith;
}
name-IsKey minute_duration = record {
  plain = is_plain_sound (name minute_duration) refl;
  ne_nil = λ e. cc;
  short = omega arith;
}
name-IsKey worker_shift_open = record {
  plain = is_plain_sound (name worker_shift_open) refl;
  ne_nil = λ e. cc;
  short = omega arith;
}
name-IsKey worker_shift_close = record {
  plain = is_plain_sound (name worker_shift_close) refl;
  ne_nil = λ e. cc;
  short = omega arith;
}
name-IsKey explode_max = record {
  plain = is_plain_sound (name explode_max) refl;
  ne_nil = λ e. cc;
  short = omega arith;
}
name-IsKey max_n_requests = record {
  plain = is_plain_sound (name max_n_requests) refl;
  ne_nil = λ e. cc;
  short = omega arith;
}
name-IsKey nof_pause = record {
  plain = is_plain_sound (name nof_pause) refl;
  ne_nil = λ e. cc;
  short = omega arith;
}

-- Digits are plain, and so are no newlines.
digits-IsPlain : (l : Bytes) → All IsDigit l → All IsPlain l
digits-IsPlain [] h = tt
digits-IsPlain (c ∷ cs) h = ((ground arith, ground arith, ground arith), digits-IsPlain cs h.1)

plain-NoNewline : (l : Bytes) → All IsPlain l → NoNewline l
plain-NoNewline [] h = tt
plain-NoNewline (c ∷ cs) h = ((λ e. ground arith), plain-NoNewline cs h.1)

NoNewline-append : (l r : Bytes) → NoNewline l → NoNewline r → NoNewline (l ++ r)
NoNewline-append [] r h k = k
NoNewline-append (c ∷ cs) r h k = (h.0, NoNewline-append cs r h.1 k)

InRange-lt : (s : Setting) (n : ℕ) → InRange s n → n < 10 ^ 19
InRange-lt num_operators n h = omega arith
InRange-lt _ n h = omega arith

fgets_line :
    (k : ℕ) (l rest : Bytes)
    → NoNewline l
    → length l < k
    → fgets k (l ++ (b'\n' ∷ rest)) ≡ (l ++ b'\n' ∷ [], rest)
unfolding fgets
fgets_line zero l rest h lt = absurd (omega arith)
fgets_line (suc k) [] rest h lt = refl
fgets_line (suc k) (c ∷ cs) rest h lt = ground (arith, fgets_line k cs rest h.1)

body-NoNewline : (s : Setting) (n : ℕ) → NoNewline (body (s, n))
body-NoNewline s n =
    NoNewline-append (name s) (b'=' ∷ print_decimal n)
      (plain-NoNewline (name s) (name-IsKey s).plain)
      (
        (λ e. omega arith),
        plain-NoNewline _ (digits-IsPlain (print_decimal n) (print_decimal-IsDigit n)),
      )

body-length : (s : Setting) (n : ℕ) → InRange s n → length (body (s, n)) < 127
body-length s n h = omega (
  arith,
  length-append (name s) (b'=' ∷ print_decimal n),
  (name-IsKey s).short,
  print_decimal-length 18 n (InRange-lt s n h),
)

process_line-entry_line :
    (g : PosteConfig) (s : Setting) (n : ℕ)
    → InRange s n
    → process_line g (entry_line (s, n)) ≡ put g s n
process_line-entry_line g s n h =
    ap (process_line g) (append_assoc (name s) (b'=' ∷ print_decimal n) (b'\n' ∷ []))
    ∙ process_line-entry g [] (name s) (b'=' ∷ []) (print_decimal n) (b'\n' ∷ []) tt
        (name-IsKey s).ne_nil (name-IsKey s).plain (λ e. cc) (refl, tt) (print_decimal_ne-nil n)
        (digits-IsPlain (print_decimal n) (print_decimal-IsDigit n)) (inl refl)
    ∙ apply_setting-name g s n h

abbrev pub EntryInRange : Entry → Type 0
EntryInRange (s, n) = InRange s n

load_lines-render :
    (fuel : ℕ) (g : PosteConfig) (es : List Entry)
    → All EntryInRange es
    → length (render es) < fuel
    → load_lines fuel 127 g (render es) ≡ foldl put_entry g es
load_lines-render zero g es h lt = elim lt [ ]
load_lines-render (suc fuel) g [] h lt = unfold load_lines fgets in refl
load_lines-render (suc fuel) g ((s, n) ∷ es) h lt =
    load_lines-step fuel 126 g (render ((s, n) ∷ es)) (entry_line (s, n)) (render es)
      (ap (fgets 127) (append_assoc (body (s, n)) (b'\n' ∷ []) (render es))
        ∙ fgets_line 127 (body (s, n)) (render es) (body-NoNewline s n) (body-length s n h.0))
      (λ e. absurd (omega (arith, ap length e, length-append (body (s, n)) (b'\n' ∷ []))))
    ∙ ap (λ g'. load_lines fuel 127 g' (render es)) (process_line-entry_line g s n h.0)
    ∙ load_lines-render fuel (put g s n) es h.1 (
        omega (
          arith,
          length-append (entry_line (s, n)) (render es),
          length-append (body (s, n)) (b'\n' ∷ []),
          lt,
        ))

-- A file of `key=value` lines, the values in decimal and in range, sets the keys one after another,
-- so that the last line for a key counts, and every key that no line names keeps its setting.
pub load_file-render :
    (g : PosteConfig) (es : List Entry)
    → All EntryInRange es
    → load_file g (render es) ≡ foldl put_entry g es
unfolding load_file
load_file-render g es h = load_lines-render (suc (length (render es))) g es h (omega arith)

abbrev pub entries : PosteConfig → List Entry
entries c =
    (num_operators, c.num_operators)
    ∷ (num_users, c.num_users)
    ∷ (num_worker_seats, c.num_worker_seats)
    ∷ (sim_duration, c.sim_duration)
    ∷ (p_serv_min, c.p_serv_min)
    ∷ (p_serv_max, c.p_serv_max)
    ∷ (minute_duration, c.minute_duration)
    ∷ (worker_shift_open, c.worker_shift_open)
    ∷ (worker_shift_close, c.worker_shift_close)
    ∷ (explode_max, c.explode_max)
    ∷ (max_n_requests, c.max_n_requests)
    ∷ (nof_pause, c.nof_pause)
    ∷ []

-- Settings that are written out and loaded come back as they were, whatever was set before.
pub load_file-entries : (g c : PosteConfig) → IsValid c → load_file g (render (entries c)) ≡ c
load_file-entries g c v = load_file-render g (entries c) (omega arith)

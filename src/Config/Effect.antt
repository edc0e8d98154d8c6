-- ===== src/Config/Effect.antt =====
-- src/systems/config.c: what a line with a key and a value does to the settings.
use poste_italiane_simulatio.Prelude.{
  ℕ, ◌≡◌, ◌≢◌, refl, ap, ◌∙◌, Bool, true, false, [], ◌∷◌, ◌++◌, All, arith, IsNat32,
}
use poste_italiane_simulatio.Config.Defs.{PosteConfig}
use poste_italiane_simulatio.Config.Scan.{Bytes, str_eq}
use poste_italiane_simulatio.Config.Numbers.{atoi, atol}
use poste_italiane_simulatio.Config.Load.{
  if_positive, if_nonnegative, if_positive_long, apply_setting, process_line,
}
use poste_italiane_simulatio.Config.Valid.{IsPositive, atoi-lt, atol-lt}
use poste_italiane_simulatio.Config.Entry.{IsDelim, IsPlain, EndsWord, process_line-entry}
use poste_italiane_simulatio.Config.Settings.{
  Setting, name, put, InRange, num_operators, num_users, num_worker_seats, sim_duration, p_serv_min,
  p_serv_max, minute_duration, worker_shift_open, worker_shift_close, explode_max, max_n_requests,
  nof_pause,
}

-- The number that a value is read as: a long for the length of a minute, else an int.
abbrev pub number_of : Setting → Bytes → ℕ
number_of minute_duration val = atol val
number_of _ val = atoi val

positive_taken :
    (val : Bytes) (old : ℕ) → IsPositive (atoi val) → if_positive (atoi val) old ≡ atoi val
unfolding if_positive
positive_taken val old h = ground arith

positive_left : (val : Bytes) (old : ℕ) → ¬ IsPositive (atoi val) → if_positive (atoi val) old ≡ old
unfolding if_positive
positive_left val old h = ground (arith, atoi-lt val)

nonnegative_taken :
    (val : Bytes) (old : ℕ) → IsNat32 (atoi val) → if_nonnegative (atoi val) old ≡ atoi val
unfolding if_nonnegative
nonnegative_taken val old h = ground arith

nonnegative_left :
    (val : Bytes) (old : ℕ) → ¬ IsNat32 (atoi val) → if_nonnegative (atoi val) old ≡ old
unfolding if_nonnegative
nonnegative_left val old h = ground (arith, atoi-lt val)

long_taken :
    (val : Bytes) (old : ℕ)
    → InRange minute_duration (atol val)
    → if_positive_long (atol val) old ≡ atol val
unfolding if_positive_long
long_taken val old h = ground arith

long_left :
    (val : Bytes) (old : ℕ)
    → ¬ InRange minute_duration (atol val)
    → if_positive_long (atol val) old ≡ old
unfolding if_positive_long
long_left val old h = ground (arith, atol-lt val)

-- A value in its range is put into the field of its key, and one outside changes nothing.
abbrev Sets : PosteConfig → Setting → Bytes → Type 0
Sets g s val =
    (InRange s (number_of s val) → apply_setting g (name s) val ≡ put g s (number_of s val))
    × (¬ InRange s (number_of s val) → apply_setting g (name s) val ≡ g)

apply_setting-Sets : (g : PosteConfig) (s : Setting) (val : Bytes) → Sets g s val
unfolding apply_setting str_eq
apply_setting-Sets g num_operators val = (
  (λ h. ap (put g num_operators) (positive_taken val _ h)),
  (λ h. ap (put g num_operators) (positive_left val _ h)),
)
apply_setting-Sets g num_users val = (
  (λ h. ap (put g num_users) (positive_taken val _ h)),
  (λ h. ap (put g num_users) (positive_left val _ h)),
)
apply_setting-Sets g num_worker_seats val = (
  (λ h. ap (put g num_worker_seats) (positive_taken val _ h)),
  (λ h. ap (put g num_worker_seats) (positive_left val _ h)),
)
apply_setting-Sets g sim_duration val = (
  (λ h. ap (put g sim_duration) (positive_taken val _ h)),
  (λ h. ap (put g sim_duration) (positive_left val _ h)),
)
apply_setting-Sets g p_serv_min val = (
  (λ h. ap (put g p_serv_min) (nonnegative_taken val _ h)),
  (λ h. ap (put g p_serv_min) (nonnegative_left val _ h)),
)
apply_setting-Sets g p_serv_max val = (
  (λ h. ap (put g p_serv_max) (nonnegative_taken val _ h)),
  (λ h. ap (put g p_serv_max) (nonnegative_left val _ h)),
)
apply_setting-Sets g minute_duration val = (
  (λ h. ap (put g minute_duration) (long_taken val _ h)),
  (λ h. ap (put g minute_duration) (long_left val _ h)),
)
apply_setting-Sets g worker_shift_open val = (
  (λ h. ap (put g worker_shift_open) (nonnegative_taken val _ h)),
  (λ h. ap (put g worker_shift_open) (nonnegative_left val _ h)),
)
apply_setting-Sets g worker_shift_close val = (
  (λ h. ap (put g worker_shift_close) (nonnegative_taken val _ h)),
  (λ h. ap (put g worker_shift_close) (nonnegative_left val _ h)),
)
apply_setting-Sets g explode_max val = (
  (λ h. ap (put g explode_max) (nonnegative_taken val _ h)),
  (λ h. ap (put g explode_max) (nonnegative_left val _ h)),
)
apply_setting-Sets g max_n_requests val = (
  (λ h. ap (put g max_n_requests) (positive_taken val _ h)),
  (λ h. ap (put g max_n_requests) (positive_left val _ h)),
)
apply_setting-Sets g nof_pause val = (
  (λ h. ap (put g nof_pause) (positive_taken val _ h)),
  (λ h. ap (put g nof_pause) (positive_left val _ h)),
)

-- strcmp tells words apart.
str_eq_sound : (a b : Bytes) → str_eq a b ≡ true → a ≡ b
unfolding str_eq
str_eq_sound [] [] e = refl
str_eq_sound [] (y ∷ ys) e = cc
str_eq_sound (x ∷ xs) [] e = cc
str_eq_sound (x ∷ xs) (y ∷ ys) e =
    let same : x ≡ y = ground arith in
    let rest : str_eq xs ys ≡ true = ground arith in
    ap (λ z. z ∷ xs) same ∙ ap (λ zs. y ∷ zs) (str_eq_sound xs ys rest)

other_word : (a b : Bytes) → a ≢ b → str_eq a b ≡ false
other_word a b ne = by_test (str_eq a b) refl
  where
    by_test : (t : Bool) → str_eq a b ≡ t → str_eq a b ≡ false
    by_test true e = absurd (ne (str_eq_sound a b e))
    by_test false e = e

apply_setting-unknown :
    (g : PosteConfig) (key val : Bytes)
    → ((s : Setting) → key ≢ name s)
    → apply_setting g key val ≡ g
unfolding apply_setting
apply_setting-unknown g key val other =
    rw
      (
        other_word key _ (other num_operators),
        other_word key _ (other num_users),
        other_word key _ (other num_worker_seats),
        other_word key _ (other sim_duration),
        other_word key _ (other p_serv_min),
        other_word key _ (other p_serv_max),
        other_word key _ (other minute_duration),
        other_word key _ (other worker_shift_open),
        other_word key _ (other worker_shift_close),
        other_word key _ (other explode_max),
        other_word key _ (other max_n_requests),
        other_word key _ (other nof_pause),
      )
      refl

-- A line that holds a key, a separator and a value, with blanks in front and anything that cannot
-- be part of the value behind (a comment for one): a key of the twelve sets its field, and no other,
-- to the number that its value is read as, if that is in the range of the key, and changes nothing
-- if it is not; any other key changes nothing. Blanks, the choice and the number of separators, the
-- comment and what follows a NUL make no difference.
pub process_line-put :
    (g : PosteConfig) (pad key sep val rest : Bytes)
    → All IsDelim pad
    → key ≢ []
    → All IsPlain key
    → sep ≢ []
    → All IsDelim sep
    → val ≢ []
    → All IsPlain val
    → EndsWord rest
    → ((s : Setting)
        → key ≡ name s
        → (InRange s (number_of s val)
            → process_line g (pad ++ (key ++ (sep ++ (val ++ rest)))) ≡ put g s (number_of s val))
          × (¬ InRange s (number_of s val)
              → process_line g (pad ++ (key ++ (sep ++ (val ++ rest)))) ≡ g))
      × (((s : Setting) → key ≢ name s)
          → process_line g (pad ++ (key ++ (sep ++ (val ++ rest)))) ≡ g)
process_line-put g pad key sep val rest hpad nkey hkey nsep hsep nval hval hrest =
    let line = process_line-entry g pad key sep val rest hpad nkey hkey nsep hsep nval hval hrest in
    (
      (λ s e.
          let known = line ∙ ap (λ k. apply_setting g k val) e in
          let (sets, leaves) = apply_setting-Sets g s val in
          ((λ h. known ∙ sets h), (λ h. known ∙ leaves h))),
      (λ other. line ∙ apply_setting-unknown g key val other),
    )

-- ===== src/Config/Tests.antt =====
-- Runs of the reader of a configuration file, and examples of its theorems.
use mathlib.Core.List.{foldl}
use poste_italiane_simulatio.Prelude.{
  ℕ, zero, suc, ◌≡◌, ◌≢◌, ◌↔◌, refl, inl, inr, List, [], ◌∷◌, ◌++◌, Option, none, some, length,
  replicate, arith,
}
use poste_italiane_simulatio.Config.Defs.{PosteConfig, default_config}
use poste_italiane_simulatio.Config.Scan.{
  Bytes, codes, c_string, fgets, strip_comment, strtok, str_eq,
}
use poste_italiane_simulatio.Config.Numbers.{atoi}
use poste_italiane_simulatio.Config.Load.{
  if_positive, if_nonnegative, if_positive_long, load_lines, load_file, load_config, process_line,
  apply_setting,
}
use poste_italiane_simulatio.Config.Valid.{IsValid, load_config-IsValid}
use poste_italiane_simulatio.Config.Effect.{number_of, process_line-put}
use poste_italiane_simulatio.Config.Entry.{process_line-blank}
use poste_italiane_simulatio.Config.Lines.{NoNewline, IsCut, load_lines-IsCut_enough}
use poste_italiane_simulatio.Config.LongLine.{load_file-long_comment}
use poste_italiane_simulatio.Config.Settings.{Setting, name, put, InRange, num_users, sim_duration}
use poste_italiane_simulatio.Config.RoundTrip.{
  Entry, is_plain_sound, render, put_entry, entries, load_file-render, load_file-entries,
}

abbrev sample : Bytes
sample =
    codes
      "# conf\n\nnum_users=15\nsim_duration = 7  # in days\nexplode_max= -3\nminute_duration=25000000"

load-sample :
    load_file default_config sample
    ≡ record default_config { num_users = 15; sim_duration = 7; minute_duration = 25000000 }
unfolding load_file fgets process_line c_string strip_comment strtok str_eq apply_setting atoi
    if_positive if_nonnegative if_positive_long
load-sample = refl

default-IsValid : IsValid default_config
default-IsValid = record {
  operators = (omega arith, omega arith);
  users = (omega arith, omega arith);
  worker_seats = (omega arith, omega arith);
  duration = (omega arith, omega arith);
  serv_min = omega arith;
  serv_max = omega arith;
  minute = (omega arith, omega arith);
  shift_open = omega arith;
  shift_close = omega arith;
  explode = omega arith;
  n_requests = (omega arith, omega arith);
  pause = (omega arith, omega arith);
}

abbrev other_config : PosteConfig
other_config = record default_config { num_users = 70; explode_max = 0 }

load_file-entries_example :
    load_file other_config (render (entries default_config)) ≡ default_config
load_file-entries_example = load_file-entries other_config default_config default-IsValid

abbrev two_entries : List Entry
two_entries = (num_users, 15) ∷ (sim_duration, 7) ∷ (num_users, 20) ∷ []

load_file-render_example :
    load_file default_config (render two_entries) ≡ foldl put_entry default_config two_entries
load_file-render_example =
    load_file-render default_config two_entries
      ((omega arith, omega arith), ((omega arith, omega arith), ((omega arith, omega arith), tt)))

-- One file, whatever the path.
abbrev one_file : Bytes → Option Bytes
one_file path = some sample

load_config-IsValid_example :
    ((load_config one_file default_config (some (codes "my.conf")) ≡ none)
      ↔ ((codes "my.conf" ≢ []) × (one_file (codes "my.conf") ≡ none)))
    × ((h : PosteConfig)
        → load_config one_file default_config (some (codes "my.conf")) ≡ some h
        → IsValid h)
load_config-IsValid_example =
    load_config-IsValid one_file default_config (codes "my.conf") default-IsValid

abbrev comment : Bytes
comment = codes "# more\n"

abbrev users_line : Bytes
users_line = b' ' ∷ [] ++ (codes "num_users" ++ (b'=' ∷ b' ' ∷ [] ++ (codes "12" ++ comment)))

-- A key that is known, with a value in its range.
process_line-put_example :
    ((s : Setting)
      → codes "num_users" ≡ name s
      → (InRange s (number_of s (codes "12"))
          → process_line default_config users_line
            ≡ put default_config s (number_of s (codes "12")))
        × (¬ InRange s (number_of s (codes "12"))
            → process_line default_config users_line ≡ default_config))
    × (((s : Setting) → codes "num_users" ≢ name s)
        → process_line default_config users_line ≡ default_config)
process_line-put_example =
    process_line-put default_config (b' ' ∷ []) (codes "num_users") (b'=' ∷ b' ' ∷ []) (codes "12")
      comment (refl, tt) (λ e. cc) (is_plain_sound (codes "num_users") refl) (λ e. cc)
      (refl, (refl, tt)) (λ e. cc) (is_plain_sound (codes "12") refl) (inr (inl refl))

blank_line : process_line default_config (b' ' ∷ b'\t' ∷ [] ++ comment) ≡ default_config
blank_line =
    process_line-blank default_config (b' ' ∷ b'\t' ∷ []) comment (refl, (refl, tt)) (inl refl)

load_lines-IsCut_enough_example :
    (lines : List Bytes) × IsCut 127 sample lines
    × (load_lines 200 127 default_config sample ≡ foldl process_line default_config lines)
load_lines-IsCut_enough_example = load_lines-IsCut_enough 200 default_config sample (omega arith)

abbrev x : ℕ
x = b'x'

plain_replicate : (n : ℕ) → NoNewline (replicate n x)
plain_replicate zero = tt
plain_replicate (suc n) = ((λ e. omega arith), plain_replicate n)

length-replicate : (n : ℕ) → length (replicate n x) ≡ n
length-replicate zero = refl
length-replicate (suc n) = omega (arith, length-replicate n)

load_file-long_comment_example :
    load_file default_config (b'#' ∷ (replicate 126 x ++ codes "num_users=70"))
    ≡ load_file default_config (codes "num_users=70")
load_file-long_comment_example =
    load_file-long_comment default_config (replicate 126 x) (codes "num_users=70")
      (plain_replicate 126) (length-replicate 126)

-- ===== src/Direttore/FileTests.antt =====
-- Examples of the theorems on the report and on the file of the settings.
use poste_italiane_simulatio.Prelude.{
  ℕ, ◌+◌, ◌<◌, ◌^◌, ◌≡◌, refl, List, [], ◌∷◌, ◌++◌, Option, none, some, ok, fault, replicate,
  if◌then◌else◌, arith,
}
use poste_italiane_simulatio.Config.Defs.{PosteConfig, default_config}
use poste_italiane_simulatio.Config.Scan.{Bytes, codes, str_eq, c_string, break, fgets}
use poste_italiane_simulatio.Config.Numbers.{atoi}
use poste_italiane_simulatio.Config.Load.{load_config, open_config, load_file, load_lines}
use poste_italiane_simulatio.Stats.Defs.{Double, no_stats}
use poste_italiane_simulatio.Direttore.Format.{print_int}
use poste_italiane_simulatio.Direttore.Table.{read_csv, is_cell_sound}
use poste_italiane_simulatio.Direttore.Csv.{stats_text}
use poste_italiane_simulatio.Direttore.Rows.{report}
use poste_italiane_simulatio.Direttore.Written.{stats_text-report}
use poste_italiane_simulatio.Direttore.Screen.{print_day_stats, print_final_stats}
use poste_italiane_simulatio.Direttore.Shown.{read_screen}
use poste_italiane_simulatio.Direttore.OnScreen.{day_screen, final_screen, print_stats-read_screen}
use poste_italiane_simulatio.Direttore.Start.{
  config_argument, copy_path, configure, child_config, FitsPath, fresh_path, configure-child_config,
}

instance abbrev whole : Double ℕ
whole = record { zero = 0; plus = λ x y. x + y }

abbrev half : ℕ → ℕ → Bytes
half x n = codes "0.50"

abbrev one : ℕ → Bytes
one x = codes "1.00"

abbrev path : Bytes
path = codes "conf/small.conf"

stats_text-report_example :
    (text : Bytes) × (stats_text half one default_config no_stats path ≡ ok text)
    × (read_csv text ≡ report half one default_config no_stats path)
    × ((x : ℕ) → x < 2 ^ 32 → atoi (print_int x) ≡ x)
stats_text-report_example =
    stats_text-report half one (λ x n. is_cell_sound (codes "0.50") refl)
      (λ x. is_cell_sound (codes "1.00") refl) default_config no_stats path refl
      (is_cell_sound path refl)

abbrev quarter : ℕ → ℕ → Bytes
quarter x n = codes "0.25"

print_stats-read_screen_example :
    (day final : Bytes) × (print_day_stats half half quarter default_config (no_stats {F = ℕ}).today
      ≡ ok day)
    × (read_screen day ≡ day_screen half half quarter default_config (no_stats {F = ℕ}).today)
    × (print_final_stats half half quarter (no_stats {F = ℕ}) ≡ ok final)
    × (read_screen final ≡ final_screen half half quarter (no_stats {F = ℕ}))
print_stats-read_screen_example =
    print_stats-read_screen half half quarter (λ x n. is_cell_sound (codes "0.50") refl)
      (λ x n. is_cell_sound (codes "0.50") refl) (λ x n. is_cell_sound (codes "0.25") refl)
      default_config no_stats refl refl

-- One file, which sets the number of seats.
abbrev files : Bytes → Option Bytes
files name = if str_eq name path then some (codes "num_worker_seats = 7\n") else none

abbrev arguments : List Bytes
arguments = codes "--config" ∷ path ∷ []

path_given : config_argument arguments ≡ some path
unfolding config_argument str_eq
path_given = refl

abbrev settings : PosteConfig
settings = load_file default_config (codes "num_worker_seats = 7\n")

loads : load_config files default_config (config_argument arguments) ≡ some settings
unfolding load_config open_config config_argument str_eq
loads = refl

path_fits : FitsPath (config_argument arguments) fresh_path
unfolding config_argument str_eq
path_fits = (omega arith, omega arith)

configure-child_config_example :
    (file : Bytes) × (configure files default_config arguments fresh_path
      ≡ ok (some (settings, file)))
    × (child_config files default_config file ≡ some settings)
configure-child_config_example =
    configure-child_config files default_config settings arguments fresh_path loads path_fits

-- Without a path, the children take one that an earlier process has left in the memory.
stale_path :
    (configure files default_config [] (path ++ 0 ∷ [])
      ≡ ok (some (default_config, path ++ 0 ∷ [])))
    × (child_config files default_config (path ++ 0 ∷ []) ≡ some settings)
unfolding configure child_config load_config open_config str_eq c_string break
stale_path = (refl, refl)

-- A path of 256 bytes has no room for its NUL.
abbrev long_path : Bytes
long_path = replicate 256 b'a'

long_path_overruns :
    configure (λ name. some []) default_config (codes "--config" ∷ long_path ∷ []) fresh_path
    ≡ fault
unfolding configure load_config open_config load_file load_lines fgets str_eq copy_path
long_path_overruns = refl

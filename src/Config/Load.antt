-- ===== src/Config/Load.antt =====
-- src/systems/config.c: `load_config`. The file system is the argument `files`: the contents of
-- the file at a path, or none where fopen fails. A path is a C string, its NUL left out.
use poste_italiane_simulatio.Prelude.{
  ℕ, zero, suc, [], ◌∷◌, not, Option, none, some, length, lt_int, lt_long, if◌then◌else◌,
}
use poste_italiane_simulatio.Config.Defs.{PosteConfig}
use poste_italiane_simulatio.Config.Scan.{
  Bytes, codes, c_string, fgets, strip_comment, strtok, str_eq,
}
use poste_italiane_simulatio.Config.Numbers.{atoi, atol}

-- `if (iv > 0) setting = iv;`
unfoldable pub if_positive : ℕ → ℕ → ℕ
if_positive iv setting = if lt_int 0 iv then iv else setting

-- `if (iv >= 0) setting = iv;`
unfoldable pub if_nonnegative : ℕ → ℕ → ℕ
if_nonnegative iv setting = if not (lt_int iv 0) then iv else setting

-- `if (lv > 0) setting = lv;`
unfoldable pub if_positive_long : ℕ → ℕ → ℕ
if_positive_long lv setting = if lt_long 0 lv then lv else setting

-- The chain of `strcmp` tests: one recognised key with a value in range changes one field.
unfoldable pub apply_setting : PosteConfig → Bytes → Bytes → PosteConfig
apply_setting g key val =
    let iv = atoi val in
    let lv = atol val in
    if str_eq key (codes "num_operators")
    then record g { num_operators = if_positive iv g.num_operators }
    else if str_eq key (codes "num_users")
    then record g { num_users = if_positive iv g.num_users }
    else if str_eq key (codes "num_worker_seats")
    then record g { num_worker_seats = if_positive iv g.num_worker_seats }
    else if str_eq key (codes "sim_duration")
    then record g { sim_duration = if_positive iv g.sim_duration }
    else if str_eq key (codes "p_serv_min")
    then record g { p_serv_min = if_nonnegative iv g.p_serv_min }
    else if str_eq key (codes "p_serv_max")
    then record g { p_serv_max = if_nonnegative iv g.p_serv_max }
    else if str_eq key (codes "minute_duration")
    then record g { minute_duration = if_positive_long lv g.minute_duration }
    else if str_eq key (codes "worker_shift_open")
    then record g { worker_shift_open = if_nonnegative iv g.worker_shift_open }
    else if str_eq key (codes "worker_shift_close")
    then record g { worker_shift_close = if_nonnegative iv g.worker_shift_close }
    else if str_eq key (codes "explode_max")
    then record g { explode_max = if_nonnegative iv g.explode_max }
    else if str_eq key (codes "max_n_requests")
    then record g { max_n_requests = if_positive iv g.max_n_requests }
    else if str_eq key (codes "nof_pause")
    then record g { nof_pause = if_positive iv g.nof_pause }
    else g

-- The second `strtok`, and the two `continue`s.
unfoldable pub apply_value : PosteConfig → Bytes → Option (Bytes × Bytes) → PosteConfig
apply_value g key none = g
apply_value g key (some (val, _)) = apply_setting g key val

unfoldable pub apply_key : PosteConfig → Option (Bytes × Bytes) → PosteConfig
unfolding apply_value
apply_key g none = g
apply_key g (some (key, rest)) = apply_value g key (strtok rest)

-- The body of the loop, on one line as `fgets` left it.
unfoldable pub process_line : PosteConfig → Bytes → PosteConfig
unfolding apply_key
process_line g line = apply_key g (strtok (strip_comment (c_string line)))

abbrev pub max_line_len : ℕ
max_line_len = 128

-- A line of no bytes is fgets' NULL, which ends the loop.
abbrev pub unless_eof : Bytes → PosteConfig → PosteConfig → PosteConfig
unless_eof [] g next = g
unless_eof (_ ∷ _) g next = next

-- The `while (fgets(...))` loop, a line of `buffer` bytes at most at a time, on fuel.
unfoldable pub load_lines : ℕ → ℕ → PosteConfig → Bytes → PosteConfig
load_lines zero buffer g file = g
load_lines (suc fuel) buffer g file =
    let (line, rest) = fgets buffer file in
    let next = load_lines fuel buffer (process_line g line) rest in unless_eof line g next

-- Each line takes a byte or more, so the length of the file is fuel enough.
unfoldable pub load_file : PosteConfig → Bytes → PosteConfig
unfolding load_lines
load_file g file = load_lines (suc (length file)) 127 g file

abbrev pub load_opened : PosteConfig → Option Bytes → Option PosteConfig
load_opened g none = none
load_opened g (some file) = some (load_file g file)

unfoldable pub open_config : (Bytes → Option Bytes) → PosteConfig → Bytes → Option PosteConfig
open_config files g [] = some g
open_config files g (c ∷ path) = load_opened g (files (c ∷ path))

-- `load_config`: NULL or an empty path keeps the settings; none is `exit(EXIT_FAILURE)`.
unfoldable pub load_config :
    (Bytes → Option Bytes) → PosteConfig → Option Bytes → Option PosteConfig
unfolding open_config
load_config files g none = some g
load_config files g (some path) = open_config files g path

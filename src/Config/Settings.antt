-- ===== src/Config/Settings.antt =====
-- src/systems/config.c: the keys that `load_config` knows, each with its field and its range, and
-- configuration files written from a list of settings (configs/config_timeout.conf is one).
use poste_italiane_simulatio.Prelude.{ℕ, ◌<◌, ◌^◌, ◌≡◌, ap, arith, IsNat32}
use poste_italiane_simulatio.Config.Defs.{PosteConfig}
use poste_italiane_simulatio.Config.Scan.{Bytes, codes, str_eq}
use poste_italiane_simulatio.Config.Numbers.{atoi, atol}
use poste_italiane_simulatio.Config.Load.{
  if_positive, if_nonnegative, if_positive_long, apply_setting,
}
use poste_italiane_simulatio.Config.Decimal.{print_decimal, atoi-print_decimal, atol-print_decimal}
use poste_italiane_simulatio.Config.Valid.{IsPositive}

pub data Setting : Type 0 where
  num_operators num_users num_worker_seats sim_duration : Setting
  p_serv_min p_serv_max minute_duration : Setting
  worker_shift_open worker_shift_close explode_max max_n_requests nof_pause : Setting

abbrev pub name : Setting → Bytes
name num_operators = codes "num_operators"
name num_users = codes "num_users"
name num_worker_seats = codes "num_worker_seats"
name sim_duration = codes "sim_duration"
name p_serv_min = codes "p_serv_min"
name p_serv_max = codes "p_serv_max"
name minute_duration = codes "minute_duration"
name worker_shift_open = codes "worker_shift_open"
name worker_shift_close = codes "worker_shift_close"
name explode_max = codes "explode_max"
name max_n_requests = codes "max_n_requests"
name nof_pause = codes "nof_pause"

abbrev pub put : PosteConfig → Setting → ℕ → PosteConfig
put g num_operators n = record g { num_operators = n }
put g num_users n = record g { num_users = n }
put g num_worker_seats n = record g { num_worker_seats = n }
put g sim_duration n = record g { sim_duration = n }
put g p_serv_min n = record g { p_serv_min = n }
put g p_serv_max n = record g { p_serv_max = n }
put g minute_duration n = record g { minute_duration = n }
put g worker_shift_open n = record g { worker_shift_open = n }
put g worker_shift_close n = record g { worker_shift_close = n }
put g explode_max n = record g { explode_max = n }
put g max_n_requests n = record g { max_n_requests = n }
put g nof_pause n = record g { nof_pause = n }

abbrev pub InRange : Setting → ℕ → Type 0
InRange p_serv_min n = IsNat32 n
InRange p_serv_max n = IsNat32 n
InRange worker_shift_open n = IsNat32 n
InRange worker_shift_close n = IsNat32 n
InRange explode_max n = IsNat32 n
InRange minute_duration n = (0 < n) × (n < 2 ^ 63)
InRange _ n = IsPositive n

taken_positive : (n old : ℕ) → IsPositive n → if_positive (atoi (print_decimal n)) old ≡ n
unfolding if_positive
taken_positive n old h = ground (arith, atoi-print_decimal n)

taken_nonnegative : (n old : ℕ) → IsNat32 n → if_nonnegative (atoi (print_decimal n)) old ≡ n
unfolding if_nonnegative
taken_nonnegative n old h = ground (arith, atoi-print_decimal n)

taken_long :
    (n old : ℕ) → (0 < n) × (n < 2 ^ 63) → if_positive_long (atol (print_decimal n)) old ≡ n
unfolding if_positive_long
taken_long n old h = ground (arith, atol-print_decimal n)

pub apply_setting-name :
    (g : PosteConfig) (s : Setting) (n : ℕ)
    → InRange s n
    → apply_setting g (name s) (print_decimal n) ≡ put g s n
unfolding apply_setting str_eq
apply_setting-name g num_operators n h = ap (put g num_operators) (taken_positive n _ h)
apply_setting-name g num_users n h = ap (put g num_users) (taken_positive n _ h)
apply_setting-name g num_worker_seats n h = ap (put g num_worker_seats) (taken_positive n _ h)
apply_setting-name g sim_duration n h = ap (put g sim_duration) (taken_positive n _ h)
apply_setting-name g p_serv_min n h = ap (put g p_serv_min) (taken_nonnegative n _ h)
apply_setting-name g p_serv_max n h = ap (put g p_serv_max) (taken_nonnegative n _ h)
apply_setting-name g minute_duration n h = ap (put g minute_duration) (taken_long n _ h)
apply_setting-name g worker_shift_open n h = ap (put g worker_shift_open) (taken_nonnegative n _ h)
apply_setting-name g worker_shift_close n h =
    ap (put g worker_shift_close) (taken_nonnegative n _ h)
apply_setting-name g explode_max n h = ap (put g explode_max) (taken_nonnegative n _ h)
apply_setting-name g max_n_requests n h = ap (put g max_n_requests) (taken_positive n _ h)
apply_setting-name g nof_pause n h = ap (put g nof_pause) (taken_positive n _ h)

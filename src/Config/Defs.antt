-- ===== src/Config/Defs.antt =====
-- include/config.h: `struct poste_config`, and src/systems/config.c: its default values and the
-- table of services. Fields are bit patterns: int, but long for p_serv_min, p_serv_max and
-- minute_duration.
use poste_italiane_simulatio.Prelude.{ℕ, List, [], ◌∷◌}

pub record PosteConfig : Type 0 where
  pub num_operators : ℕ
  pub num_users : ℕ
  pub num_worker_seats : ℕ
  pub sim_duration : ℕ
  pub p_serv_min : ℕ
  pub p_serv_max : ℕ
  pub minute_duration : ℕ
  pub worker_shift_open : ℕ
  pub worker_shift_close : ℕ
  pub explode_max : ℕ
  pub max_n_requests : ℕ
  pub nof_pause : ℕ

-- The initial value of `g_config`.
abbrev pub default_config : PosteConfig
default_config = record {
  num_operators = 10;
  num_users = 5;
  num_worker_seats = 15;
  sim_duration = 5;
  p_serv_min = 20;
  p_serv_max = 100;
  minute_duration = 50000000;
  worker_shift_open = 8;
  worker_shift_close = 20;
  explode_max = 30;
  max_n_requests = 10;
  nof_pause = 3;
}

abbrev pub num_service_types : ℕ
num_service_types = 6

abbrev pub max_n_requests_compile : ℕ
max_n_requests_compile = 50

abbrev pub max_worker_seats : ℕ
max_worker_seats = 30

-- Nominal minutes of each service.
abbrev pub services_duration : List ℕ
services_duration = 10 ∷ 8 ∷ 6 ∷ 8 ∷ 20 ∷ 20 ∷ []

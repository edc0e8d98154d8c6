-- ===== src/Stats/Defs.antt =====
-- include/poste.h: `struct S_service_stats`, `S_daily_stats` and `S_poste_stats`, without the
-- semaphores. Counters are bit patterns of int. The type `F` stands for double.
use poste_italiane_simulatio.Prelude.{ℕ, List, replicate}
use poste_italiane_simulatio.Config.Defs.{num_service_types}

-- What the statistics use of double: 0.0 and addition, of which no law is assumed.
pub record Double (F : Type 0) : Type 0 where
  pub zero : F
  pub plus : F → F → F

pub record ServiceStats (F : Type 0) : Type 0 where
  pub served_users : ℕ
  pub failed_services : ℕ
  pub total_wait_time : F
  pub total_service_time : F
  pub total_requests : ℕ
  pub late_users : ℕ

-- `operator_counter_ratios` is a pointer that is only ever set to NULL: its address.
pub record DailyStats (F : Type 0) : Type 0 where
  pub global : ServiceStats F
  pub services : List (ServiceStats F)
  pub active_operators : ℕ
  pub total_pauses : ℕ
  pub late_users : ℕ
  pub operator_counter_ratios : ℕ

pub record PosteStats (F : Type 0) : Type 0 where
  pub simulation_global : ServiceStats F
  pub simulation_services : List (ServiceStats F)
  pub today : DailyStats F
  pub total_active_operators : ℕ
  pub total_simulation_pauses : ℕ
  pub current_day : ℕ
  pub current_minute : ℕ

module _ {F : Type 0} ⦃d : Double F⦄ where
  abbrev pub no_services : ServiceStats F
  no_services = record {
    served_users = 0;
    failed_services = 0;
    total_wait_time = d.zero;
    total_service_time = d.zero;
    total_requests = 0;
    late_users = 0;
  }

  -- `(daily_stats){0}`
  abbrev pub no_daily : DailyStats F
  no_daily = record {
    global = no_services;
    services = replicate num_service_types no_services;
    active_operators = 0;
    total_pauses = 0;
    late_users = 0;
    operator_counter_ratios = 0;
  }

  -- Fresh shared memory is zero.
  abbrev pub no_stats : PosteStats F
  no_stats = record {
    simulation_global = no_services;
    simulation_services = replicate num_service_types no_services;
    today = no_daily;
    total_active_operators = 0;
    total_simulation_pauses = 0;
    current_day = 0;
    current_minute = 0;
  }

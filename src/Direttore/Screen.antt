-- ===== src/Direttore/Screen.antt =====
-- src/direttore.c: what `print_day_stats` and `print_final_stats` print. The texts that `%.2f` makes
-- of a quotient, with the numerator as a float or as it is, are parameters.
use poste_italiane_simulatio.Prelude.{
  ℕ, zero, suc, List, [], ◌∷◌, ◌++◌, Outcome, ok, ◌>>=◌, read, lt_int, if◌then◌else◌,
}
use poste_italiane_simulatio.Config.Defs.{PosteConfig, num_service_types}
use poste_italiane_simulatio.Config.Scan.{Bytes, codes}
use poste_italiane_simulatio.Stats.Defs.{ServiceStats, DailyStats, PosteStats}
use poste_italiane_simulatio.Direttore.Format.{int, str, fixed, Line, prints}
use poste_italiane_simulatio.Direttore.Csv.{services}

-- `DIRETTORE_PREFIX`, with its escape sequences.
abbrev pub direttore_prefix : Bytes
direttore_prefix = 27 ∷ codes "[31m[DIRETTORE]:" ++ 27 ∷ codes "[0m"

-- `PRINT_STAT` and `PRINT_FLOAT_STAT`; the label is part of the format.
abbrev pub print_stat : Bytes → ℕ → Line
print_stat label value = (direttore_prefix ++ b' ' ∷ label ++ codes ": %d\n", int value ∷ [])

abbrev pub print_float_stat : Bytes → (quotient : Bytes) → Line
print_float_stat label quotient =
    (direttore_prefix ++ b' ' ∷ label ++ codes ": %.2f\n", fixed quotient ∷ [])

-- A line of its own behind an empty one.
abbrev pub print_heading : Bytes → Line
print_heading text = (b'\n' ∷ direttore_prefix ++ b' ' ∷ text ++ codes "\n", [])

module _ {F : Type 0} where
  -- `for (int i = 0; i < NUM_SERVICE_TYPES; i++)`, with `n` rounds left.
  unfoldable pub print_services :
      (Bytes → ServiceStats F → List Line) → (n i : ℕ) → List (ServiceStats F) → Outcome Bytes
  print_services body zero i all = ok []
  print_services body (suc n) i all = do
    name ← read services i
    s ← read all i
    text ← prints (body name s)
    more ← print_services body n (suc i) all
    ok (text ++ more)

module _ {F : Type 0} (float_quotient quotient : F → ℕ → Bytes) (int_quotient : ℕ → ℕ → Bytes) where
  -- The argument of `PRINT_FLOAT_STAT`.
  abbrev pub float_average : F → ℕ → Bytes
  float_average total requests =
      if lt_int 0 requests then float_quotient total requests else codes "0.00"

  abbrev pub seat_ratio : PosteConfig → (active_operators : ℕ) → Bytes
  seat_ratio g active =
      if lt_int 0 g.num_worker_seats then int_quotient active g.num_worker_seats else codes "0.00"

  -- The two averages of a service, if it has had a request.
  abbrev pub print_averages : ServiceStats F → List Line
  print_averages s =
      if lt_int 0 s.total_requests
      then (
        codes "  Avg general wait time: %.2f\n",
        fixed (quotient s.total_wait_time s.total_requests) ∷ [],
      )
        ∷ (
          codes "  Avg service wait time: %.2f\n",
          fixed (quotient s.total_service_time s.total_requests) ∷ [],
        )
        ∷ []
      else (codes "  Avg general wait time: N/A\n", [])
        ∷ (codes "  Avg service wait time: N/A\n", [])
        ∷ []

  abbrev pub print_counts : ServiceStats F → List Line
  print_counts s =
      (codes "  Served users: %d\n", int s.served_users ∷ [])
      ∷ (codes "  Failed services: %d\n", int s.failed_services ∷ [])
      ∷ print_averages s

  -- A round of the loop of `print_final_stats`, and the first part of one of `print_day_stats`.
  abbrev pub print_service : Bytes → ServiceStats F → List Line
  print_service name s =
      (b'\n' ∷ direttore_prefix ++ codes " %s:\n", str name ∷ []) ∷ print_counts s

  -- The rest of a round of `print_day_stats`: `(float)today.active_operators / num_worker_seats`.
  abbrev pub print_day_ratio : PosteConfig → (active_operators : ℕ) → ServiceStats F → List Line
  print_day_ratio g active s =
      (codes "  Late users: %d\n", int s.late_users ∷ [])
      ∷ (
        codes "  Ratio between worker seats and working operators: %.2f\n",
        fixed (seat_ratio g active) ∷ [],
      )
      ∷ []

  abbrev pub day_head : DailyStats F → List Line
  day_head today =
      print_heading (codes "=== Daily Statistics ===")
      ∷ print_stat (codes "Active operators") today.active_operators
      ∷ print_stat (codes "Total pauses") today.total_pauses
      ∷ print_stat (codes "Served users") today.global.served_users
      ∷ print_stat (codes "Failed services") today.global.failed_services
      ∷ print_float_stat (codes "Average general wait time")
          (float_average today.global.total_wait_time today.global.total_requests)
      ∷ print_float_stat (codes "Average service wait time")
          (float_average today.global.total_service_time today.global.total_requests)
      ∷ print_heading (codes "=== Service Statistics ===")
      ∷ []

  abbrev pub day_round : PosteConfig → DailyStats F → Bytes → ServiceStats F → List Line
  day_round g today name s = print_service name s ++ print_day_ratio g today.active_operators s

  abbrev pub rule : List Line
  rule = print_heading (codes "========================") ∷ []

  unfoldable pub print_day_stats : PosteConfig → DailyStats F → Outcome Bytes
  unfolding print_services
  print_day_stats g today = do
    head ← prints (day_head today)
    each ← print_services (day_round g today) num_service_types 0 today.services
    foot ← prints rule
    ok (head ++ (each ++ foot))

  abbrev pub final_head : PosteStats F → List Line
  final_head s =
      print_heading (codes "=== Final Statistics ===")
      ∷ print_stat (codes "Total active operators") s.total_active_operators
      ∷ print_stat (codes "Total simulation pauses") s.total_simulation_pauses
      ∷ print_stat (codes "Current day") s.current_day
      ∷ print_stat (codes "Current minute") s.current_minute
      ∷ print_heading (codes "=== Global Statistics ===")
      ∷ print_stat (codes "Total served users") s.simulation_global.served_users
      ∷ print_stat (codes "Total failed services") s.simulation_global.failed_services
      ∷ print_float_stat (codes "Avg general wait time")
          (float_average s.simulation_global.total_wait_time s.simulation_global.total_requests)
      ∷ print_float_stat (codes "Avg service wait time")
          (float_average s.simulation_global.total_service_time s.simulation_global.total_requests)
      ∷ print_stat (codes "Total late users") s.simulation_global.late_users
      ∷ print_heading (codes "=== Global Service Statistics ===")
      ∷ []

  unfoldable pub print_final_stats : PosteStats F → Outcome Bytes
  unfolding print_services
  print_final_stats s = do
    head ← prints (final_head s)
    each ← print_services print_service num_service_types 0 s.simulation_services
    foot ← prints rule
    ok (head ++ (each ++ foot))

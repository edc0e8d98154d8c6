-- ===== src/Direttore/Rows.antt =====
-- src/direttore.c, `write_stats`: the rows of the table that it writes.
use poste_italiane_simulatio.Prelude.{ℕ, ◌≡◌, refl, List, [], ◌∷◌, ◌++◌, ok, length, arith}
use poste_italiane_simulatio.Config.Defs.{PosteConfig}
use poste_italiane_simulatio.Config.Scan.{Bytes, codes, str_eq}
use poste_italiane_simulatio.Stats.Defs.{ServiceStats, PosteStats}
use poste_italiane_simulatio.Direttore.Report.{exit_mode}
use poste_italiane_simulatio.Direttore.Format.{print_int, print_long, Line, prints}
use poste_italiane_simulatio.Direttore.Table.{Row, render}
use poste_italiane_simulatio.Direttore.Csv.{
  services, exit_mode_text, summary_lines, average, global_lines, service_lines, extra_lines,
}

abbrev pub summary_rows : PosteConfig → ℕ → Bytes → List Row
summary_rows g late_users configuration_file =
    (codes "Simulation Summary" ∷ [])
    ∷ (codes "ExitMode" ∷ exit_mode_text (exit_mode g late_users) ∷ [])
    ∷ (codes "ConfigFile" ∷ configuration_file ∷ [])
    ∷ (codes "SimDuration(days)" ∷ print_int g.sim_duration ∷ [])
    ∷ (codes "MinuteDuration(ns)" ∷ print_long g.minute_duration ∷ [])
    ∷ (codes "NumOperators" ∷ print_int g.num_operators ∷ [])
    ∷ (codes "NumUsers" ∷ print_int g.num_users ∷ [])
    ∷ (codes "NumWorkerSeats" ∷ print_int g.num_worker_seats ∷ [])
    ∷ (codes "WorkerShiftOpen(hour)" ∷ print_int g.worker_shift_open ∷ [])
    ∷ (codes "WorkerShiftClose(hour)" ∷ print_int g.worker_shift_close ∷ [])
    ∷ (codes "ExplodeMaxLateUsers" ∷ print_int g.explode_max ∷ [])
    ∷ ([] ∷ [])
    ∷ []

abbrev pub service_header : List Row
service_header =
    ([] ∷ [])
    ∷ (codes "Service"
        ∷ codes "ServedUsers"
        ∷ codes "FailedServices"
        ∷ codes "AvgGeneralWaitTime"
        ∷ codes "AvgServiceWaitTime"
        ∷ [])
    ∷ []

pub prints-summary :
    (g : PosteConfig) (late : ℕ) (file : Bytes)
    → prints (summary_lines g late file) ≡ ok (render (summary_rows g late file))
unfolding prints str_eq
prints-summary g late file = refl

module _ {F : Type 0} (average_text : F → ℕ → Bytes) (float_text : F → Bytes) where
  abbrev pub global_rows : PosteStats F → List Row
  global_rows s =
      (codes "Day"
        ∷ codes "Minute"
        ∷ codes "TotalActiveOperators"
        ∷ codes "TotalSimulationPauses"
        ∷ codes "TotalServedUsers"
        ∷ codes "TotalFailedServices"
        ∷ codes "AvgGeneralWaitTime"
        ∷ codes "AvgServiceWaitTime"
        ∷ [])
      ∷ (print_int s.current_day
          ∷ print_int s.current_minute
          ∷ print_int s.total_active_operators
          ∷ print_int s.total_simulation_pauses
          ∷ print_int s.simulation_global.served_users
          ∷ print_int s.simulation_global.failed_services
          ∷ average average_text float_text s.simulation_global.total_wait_time
              s.simulation_global.total_requests
          ∷ average average_text float_text s.simulation_global.total_service_time
              s.simulation_global.total_requests
          ∷ [])
      ∷ []

  abbrev pub service_row : Bytes → ServiceStats F → Row
  service_row name s =
      name
      ∷ print_int s.served_users
      ∷ print_int s.failed_services
      ∷ average average_text float_text s.total_wait_time s.total_requests
      ∷ average average_text float_text s.total_service_time s.total_requests
      ∷ []

  abbrev pub service_rows : List Bytes → List (ServiceStats F) → List Row
  service_rows (name ∷ names) (s ∷ all) = service_row name s ∷ service_rows names all
  service_rows _ _ = []

  abbrev pub extra_rows : PosteStats F → List Row
  extra_rows s =
      ([] ∷ [])
      ∷ (codes "ExtraInfo" ∷ [])
      ∷ (codes "LateUsersToday" ∷ print_int s.today.late_users ∷ [])
      ∷ (codes "TotalLateUsers" ∷ print_int s.simulation_global.late_users ∷ [])
      ∷ (codes "TotalRequests" ∷ print_int s.simulation_global.total_requests ∷ [])
      ∷ (codes "TotalWaitTime" ∷ float_text s.simulation_global.total_wait_time ∷ [])
      ∷ (codes "TotalServiceTime" ∷ float_text s.simulation_global.total_service_time ∷ [])
      ∷ []

  -- The report as a table.
  abbrev pub report : PosteConfig → PosteStats F → Bytes → List Row
  report g s file =
      summary_rows g s.today.late_users file
      ++ (global_rows s
          ++ (service_header ++ (service_rows services s.simulation_services ++ extra_rows s)))

  pub prints-global :
      (s : PosteStats F)
      → prints (global_lines average_text float_text s) ≡ ok (render (global_rows s))
  unfolding prints str_eq
  prints-global s = refl

  pub prints-extra :
      (s : PosteStats F)
      → prints (extra_lines average_text float_text s) ≡ ok (render (extra_rows s))
  unfolding prints str_eq
  prints-extra s = refl

  -- The rows of the six services, one after the other.
  pub prints-services :
      (all : List (ServiceStats F))
      → length all ≡ 6
      → (lines : List Line) × (service_lines average_text float_text 6 0 all ≡ ok lines)
        × (prints lines ≡ ok (render (service_rows services all)))
  unfolding service_lines prints str_eq
  prints-services (a ∷ b ∷ c ∷ d ∷ e ∷ f ∷ []) h = (_, refl, refl)
  prints-services all h = absurd (omega (arith, h))

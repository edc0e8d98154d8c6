-- ===== src/Direttore/Csv.antt =====
-- src/direttore.c, `write_stats`: the text of the report's file. The texts that `%.2f` makes of a
-- float, and of the quotient of a double and an int, are parameters.
use poste_italiane_simulatio.Prelude.{
  ℕ, zero, suc, List, [], ◌∷◌, ◌++◌, Outcome, ok, ◌>>=◌, read, lt_int, if◌then◌else◌,
}
use poste_italiane_simulatio.Config.Defs.{PosteConfig, num_service_types}
use poste_italiane_simulatio.Config.Scan.{Bytes, codes}
use poste_italiane_simulatio.Stats.Defs.{ServiceStats, PosteStats}
use poste_italiane_simulatio.Direttore.Report.{ExitMode, explode, timeout, exit_mode}
use poste_italiane_simulatio.Direttore.Format.{int, long, str, fixed, Line, prints}

-- The table `services` of src/systems/config.c.
abbrev pub services : List Bytes
services =
    codes "Invio e ritiro pacchi"
    ∷ codes "Invio e ritiro lettere e raccomandate"
    ∷ codes "Prelievi e versamenti Bancoposta"
    ∷ codes "Pagamento bollettini postali"
    ∷ codes "Acquisto prodotti finanziari"
    ∷ codes "Acquisto orologi e braccialetti"
    ∷ []

abbrev pub exit_mode_text : ExitMode → Bytes
exit_mode_text explode = codes "explode"
exit_mode_text timeout = codes "timeout"

-- The first part.
abbrev pub summary_lines : PosteConfig → (late_users : ℕ) → (configuration_file : Bytes) → List Line
summary_lines g late_users configuration_file =
    (codes "Simulation Summary\n", [])
    ∷ (codes "ExitMode,%s\n", str (exit_mode_text (exit_mode g late_users)) ∷ [])
    ∷ (codes "ConfigFile,%s\n", str configuration_file ∷ [])
    ∷ (codes "SimDuration(days),%d\n", int g.sim_duration ∷ [])
    ∷ (codes "MinuteDuration(ns),%ld\n", long g.minute_duration ∷ [])
    ∷ (codes "NumOperators,%d\n", int g.num_operators ∷ [])
    ∷ (codes "NumUsers,%d\n", int g.num_users ∷ [])
    ∷ (codes "NumWorkerSeats,%d\n", int g.num_worker_seats ∷ [])
    ∷ (codes "WorkerShiftOpen(hour),%d\n", int g.worker_shift_open ∷ [])
    ∷ (codes "WorkerShiftClose(hour),%d\n", int g.worker_shift_close ∷ [])
    ∷ (codes "ExplodeMaxLateUsers,%d\n", int g.explode_max ∷ [])
    ∷ (codes "\n", [])
    ∷ []

module _ {F : Type 0} (average_text : F → ℕ → Bytes) (float_text : F → Bytes) where
  -- `total_requests > 0 ? (float)total / total_requests : 0.0f`
  abbrev pub average : F → ℕ → Bytes
  average total requests = if lt_int 0 requests then average_text total requests else codes "0.00"

  abbrev pub global_lines : PosteStats F → List Line
  global_lines s =
      (
        codes
            "Day,Minute,TotalActiveOperators,TotalSimulationPauses,TotalServedUsers,TotalFailedServices,AvgGeneralWaitTime,AvgServiceWaitTime\n",
        [],
      )
      ∷ (
        codes "%d,%d,%d,%d,%d,%d,%.2f,%.2f\n",
        int s.current_day
            ∷ int s.current_minute
            ∷ int s.total_active_operators
            ∷ int s.total_simulation_pauses
            ∷ int s.simulation_global.served_users
            ∷ int s.simulation_global.failed_services
            ∷ fixed (average s.simulation_global.total_wait_time s.simulation_global.total_requests)
            ∷ fixed
                (average s.simulation_global.total_service_time s.simulation_global.total_requests)
            ∷ [],
      )
      ∷ []

  abbrev pub service_line : Bytes → ServiceStats F → Line
  service_line name s = (
    codes "%s,%d,%d,%.2f,%.2f\n",
    str name
        ∷ int s.served_users
        ∷ int s.failed_services
        ∷ fixed (average s.total_wait_time s.total_requests)
        ∷ fixed (average s.total_service_time s.total_requests)
        ∷ [],
  )

  -- `for (int i = 0; i < NUM_SERVICE_TYPES; i++)`, with `n` rounds left.
  unfoldable pub service_lines : (n i : ℕ) → List (ServiceStats F) → Outcome (List Line)
  service_lines zero i all = ok []
  service_lines (suc n) i all = do
    name ← read services i
    s ← read all i
    more ← service_lines n (suc i) all
    ok (service_line name s ∷ more)

  abbrev pub extra_lines : PosteStats F → List Line
  extra_lines s =
      (codes "\nExtraInfo\n", [])
      ∷ (codes "LateUsersToday,%d\n", int s.today.late_users ∷ [])
      ∷ (codes "TotalLateUsers,%d\n", int s.simulation_global.late_users ∷ [])
      ∷ (codes "TotalRequests,%d\n", int s.simulation_global.total_requests ∷ [])
      ∷ (codes "TotalWaitTime,%.2f\n", fixed (float_text s.simulation_global.total_wait_time) ∷ [])
      ∷ (
        codes "TotalServiceTime,%.2f\n",
        fixed (float_text s.simulation_global.total_service_time) ∷ [],
      )
      ∷ []

  -- Everything that is written between fopen and fclose.
  unfoldable pub stats_text :
      PosteConfig → PosteStats F → (configuration_file : Bytes) → Outcome Bytes
  unfolding service_lines
  stats_text g s configuration_file = do
    summary ← prints (summary_lines g s.today.late_users configuration_file)
    global ← prints (global_lines s)
    header ← prints (
        (codes "\nService,ServedUsers,FailedServices,AvgGeneralWaitTime,AvgServiceWaitTime\n", [])
        ∷ [])
    lines ← service_lines num_service_types 0 s.simulation_services
    services' ← prints lines
    extra ← prints (extra_lines s)
    ok (summary ++ (global ++ (header ++ (services' ++ extra))))

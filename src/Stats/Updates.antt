-- ===== src/Stats/Updates.antt =====
-- The updates of the statistics, each of them one critical section under `stats_lock`: a write to
-- the table of services outside its six rows is a fault.
use poste_italiane_simulatio.Prelude.{ℕ, Bool, true, false, incr, Outcome, ok, ◌>>=◌, modify}
use poste_italiane_simulatio.Stats.Defs.{Double, ServiceStats, PosteStats, no_daily}

module _ {F : Type 0} where
  abbrev add_request : ServiceStats F → ServiceStats F
  add_request t = record t { total_requests = incr t.total_requests }

  abbrev add_failure : ServiceStats F → ServiceStats F
  add_failure t = record t { failed_services = incr t.failed_services }

  abbrev add_late : ServiceStats F → ServiceStats F
  add_late t = record t { late_users = incr t.late_users }

  -- src/operatore.c
  unfoldable pub update_requests_stats : PosteStats F → ℕ → Outcome (PosteStats F)
  update_requests_stats s user_service = do
    per_service ← modify s.simulation_services user_service add_request
    daily ← modify s.today.services user_service add_request
    ok (record s {
      simulation_services = per_service;
      simulation_global = add_request s.simulation_global;
      today = record s.today { services = daily; global = add_request s.today.global };
    })

  -- src/operatore.c
  unfoldable pub update_pause_stats : PosteStats F → PosteStats F
  update_pause_stats s = record s {
    total_simulation_pauses = incr s.total_simulation_pauses;
    today = record s.today { total_pauses = incr s.today.total_pauses };
  }

  -- src/operatore.c, `main`: after a day on which the operator worked.
  unfoldable pub update_active_operators : PosteStats F → PosteStats F
  update_active_operators s = record s {
    total_active_operators = incr s.total_active_operators;
    today = record s.today { active_operators = incr s.today.active_operators };
  }

  -- src/utente.c
  unfoldable pub update_fails_stats : PosteStats F → ℕ → Outcome (PosteStats F)
  update_fails_stats s service_id = do
    per_service ← modify s.simulation_services service_id add_failure
    daily ← modify s.today.services service_id add_failure
    ok (record s {
      simulation_global = add_failure s.simulation_global;
      simulation_services = per_service;
      today = record s.today { global = add_failure s.today.global; services = daily };
    })

  -- src/utente.c, the part of `handle_late_users` that counts.
  unfoldable pub count_late : PosteStats F → ℕ → Outcome (PosteStats F)
  count_late s service_id = do
    per_service ← modify s.simulation_services service_id add_late
    ok (record s {
      today = record s.today { late_users = incr s.today.late_users };
      simulation_global = add_late s.simulation_global;
      simulation_services = per_service;
    })

  -- src/utente.c: the flag is the user's `been_late_today`.
  unfoldable pub handle_late_users : Bool → PosteStats F → ℕ → Outcome (Bool × PosteStats F)
  unfolding count_late
  handle_late_users true s service_id = ok (true, s)
  handle_late_users false s service_id = do s' ← count_late s service_id; ok (true, s')

  -- src/direttore.c, in the loop of `main`.
  unfoldable pub set_minute : PosteStats F → ℕ → PosteStats F
  set_minute s minute = record s { current_minute = minute }

module _ {F : Type 0} ⦃d : Double F⦄ where
  abbrev add_served : F → F → ServiceStats F → ServiceStats F
  add_served wait_time service_time t = record t {
    served_users = incr t.served_users;
    total_wait_time = d.plus t.total_wait_time wait_time;
    total_service_time = d.plus t.total_service_time service_time;
  }

  -- src/utente.c
  unfoldable pub update_success_stats : PosteStats F → ℕ → F → F → Outcome (PosteStats F)
  update_success_stats s service_id wait_time service_time = do
    per_service ← modify s.simulation_services service_id (add_served wait_time service_time)
    daily ← modify s.today.services service_id (add_served wait_time service_time)
    ok (record s {
      simulation_global = add_served wait_time service_time s.simulation_global;
      simulation_services = per_service;
      today = record s.today {
        global = add_served wait_time service_time s.today.global;
        services = daily;
      };
    })

  -- src/direttore.c, what `start_new_day` does to the statistics.
  unfoldable pub begin_day : PosteStats F → ℕ → PosteStats F
  begin_day s day = record s { current_day = day; today = no_daily }

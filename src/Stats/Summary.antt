-- ===== src/Stats/Summary.antt =====
-- What the statistics of include/poste.h are meant to be: a summary of all that has happened, in
-- the order in which `stats_lock` was taken. The simulation's figures count everything, today's
-- what came after the last new day. Each counter is the number of events modulo 2 ^ 32, and each
-- time the sum of the events' times, from the first on.
use poste_italiane_simulatio.Prelude.{
  ℕ, suc, Bool, true, false, List, [], ◌∷◌, Option, none, some, Outcome, ok, ◌>>=◌, ◌==◌,
  if◌then◌else◌,
}
use poste_italiane_simulatio.Stats.Defs.{Double, ServiceStats, DailyStats, PosteStats, no_stats}
use poste_italiane_simulatio.Stats.Updates.{
  update_requests_stats, update_pause_stats, update_active_operators, update_fails_stats,
  update_success_stats, count_late, set_minute, begin_day,
}

pub data Event (F : Type 0) : Type 0 where
  request : (service : ℕ) → Event F
  failure : (service : ℕ) → Event F
  success : (service : ℕ) (wait_time service_time : F) → Event F
  late : (service : ℕ) → Event F
  pause : Event F
  worked : Event F
  new_day : (day : ℕ) → Event F
  minute : (m : ℕ) → Event F

module _ {F : Type 0} ⦃d : Double F⦄ where
  unfoldable pub apply : PosteStats F → Event F → Outcome (PosteStats F)
  unfolding update_requests_stats update_pause_stats update_active_operators update_fails_stats
      update_success_stats count_late set_minute begin_day
  apply s (request service) = update_requests_stats s service
  apply s (failure service) = update_fails_stats s service
  apply s (success service w t) = update_success_stats s service w t
  apply s (late service) = count_late s service
  apply s pause = ok (update_pause_stats s)
  apply s worked = ok (update_active_operators s)
  apply s (new_day day) = ok (begin_day s day)
  apply s (minute m) = ok (set_minute s m)

  -- The statistics after a history, its newest event first.
  unfoldable pub run : List (Event F) → Outcome (PosteStats F)
  run [] = ok no_stats
  run (e ∷ es) = do s ← run es; apply s e

-- A question about a service, asked of all services (none) or of one.
abbrev pub about : Option ℕ → ℕ → Bool
about none j = true
about (some i) j = j == i

module _ {F : Type 0} where
  unfoldable pub count : (Event F → Bool) → List (Event F) → ℕ
  count p [] = 0
  count p (e ∷ es) = if p e then suc (count p es) else count p es

  abbrev pub is_request : Option ℕ → Event F → Bool
  is_request o (request j) = about o j
  is_request o _ = false

  abbrev pub is_failure : Option ℕ → Event F → Bool
  is_failure o (failure j) = about o j
  is_failure o _ = false

  abbrev pub is_success : Option ℕ → Event F → Bool
  is_success o (success j w t) = about o j
  is_success o _ = false

  abbrev pub is_late : Option ℕ → Event F → Bool
  is_late o (late j) = about o j
  is_late o _ = false

  abbrev pub is_pause : Event F → Bool
  is_pause pause = true
  is_pause _ = false

  abbrev pub is_worked : Event F → Bool
  is_worked worked = true
  is_worked _ = false

  -- The events behind the last new day.
  abbrev pub since_new_day : List (Event F) → List (Event F)
  since_new_day [] = []
  since_new_day (new_day day ∷ es) = []
  since_new_day (request j ∷ es) = request j ∷ since_new_day es
  since_new_day (failure j ∷ es) = failure j ∷ since_new_day es
  since_new_day (success j w t ∷ es) = success j w t ∷ since_new_day es
  since_new_day (late j ∷ es) = late j ∷ since_new_day es
  since_new_day (pause ∷ es) = pause ∷ since_new_day es
  since_new_day (worked ∷ es) = worked ∷ since_new_day es
  since_new_day (minute m ∷ es) = minute m ∷ since_new_day es

  abbrev pub last_day : List (Event F) → ℕ
  last_day [] = 0
  last_day (new_day day ∷ es) = day
  last_day (_ ∷ es) = last_day es

  abbrev pub last_minute : List (Event F) → ℕ
  last_minute [] = 0
  last_minute (minute m ∷ es) = m
  last_minute (_ ∷ es) = last_minute es

  abbrev pub rows : (Option ℕ → ServiceStats F) → List (ServiceStats F)
  rows f = f (some 0) ∷ f (some 1) ∷ f (some 2) ∷ f (some 3) ∷ f (some 4) ∷ f (some 5) ∷ []

module _ {F : Type 0} ⦃d : Double F⦄ where
  abbrev pub sum_waits : Option ℕ → List (Event F) → F
  sum_waits o [] = d.zero
  sum_waits o (success j w t ∷ es) = if about o j then d.plus (sum_waits o es) w else sum_waits o es
  sum_waits o (_ ∷ es) = sum_waits o es

  abbrev pub sum_services : Option ℕ → List (Event F) → F
  sum_services o [] = d.zero
  sum_services o (success j w t ∷ es) =
      if about o j then d.plus (sum_services o es) t else sum_services o es
  sum_services o (_ ∷ es) = sum_services o es

  -- The summaries, over a way to count.
  module _ (counter : (Event F → Bool) → List (Event F) → ℕ) where
    abbrev pub summary_of : Option ℕ → List (Event F) → ServiceStats F
    summary_of o es = record {
      served_users = counter (is_success o) es;
      failed_services = counter (is_failure o) es;
      total_wait_time = sum_waits o es;
      total_service_time = sum_services o es;
      total_requests = counter (is_request o) es;
      late_users = counter (is_late o) es;
    }

    -- Late users are counted for the day as a whole: today's rows leave them at zero.
    abbrev pub daily_summary_of : Option ℕ → List (Event F) → ServiceStats F
    daily_summary_of o es = record (summary_of o es) { late_users = 0 }

    abbrev pub daily_summary : List (Event F) → DailyStats F
    daily_summary es = record {
      global = daily_summary_of none es;
      services = rows (λ o. daily_summary_of o es);
      active_operators = counter is_worked es;
      total_pauses = counter is_pause es;
      late_users = counter (is_late none) es;
      operator_counter_ratios = 0;
    }

    abbrev pub summary : List (Event F) → PosteStats F
    summary es = record {
      simulation_global = summary_of none es;
      simulation_services = rows (λ o. summary_of o es);
      today = daily_summary (since_new_day es);
      total_active_operators = counter is_worked es;
      total_simulation_pauses = counter is_pause es;
      current_day = last_day es;
      current_minute = last_minute es;
    }

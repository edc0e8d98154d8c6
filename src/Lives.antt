-- ===== src/Lives.antt =====
-- The whole simulation as an operator of src/operatore.c and a user of src/utente.c live through it.
mod Tests
use poste_italiane_simulatio.Prelude.{ℕ, ◌^◌, ◌≤◌, ◌<◌, ◌≡◌, List, All, Outcome, ok, length}
use poste_italiane_simulatio.Config.Defs.{PosteConfig}
use poste_italiane_simulatio.Operatore.Service.{IsMinute}
use poste_italiane_simulatio.Operatore.Shift.{Day, Inputs}
use poste_italiane_simulatio.Operatore.Life.{
  operator_life, pauses_of, FitsInputs, operator_life-pauses,
}
use poste_italiane_simulatio.Utente.Visit.{Visit}
use poste_italiane_simulatio.Utente.Life.{
  DayInputs, user_life, lates_of, IsOrderly, AllowsDays, FitsDay, user_life-IsOrderly,
}

-- Whatever else they meet on all the days of the simulation, operators and users run without a
-- fault, where a minute has at least one and less than 2 ^ 57 nanoseconds, the request limit is
-- between one and fifty, p_serv_max is above zero, nof_pause is an int that is not negative, the
-- tables have room for the configured seats, and operators answer users about one of the six
-- services. An operator tells the statistics of at most nof_pause pauses in all its days
-- together; a user is counted as late at most once on each day, so never more often than there are
-- days, frees no more seats on a day than it took on that day, and updates no row of the
-- statistics outside of their tables.
pub lives-limits :
    {F : Type 0} (ratio : ℕ → ℕ → F) (of_int : ℕ → F) (g : PosteConfig) (first : ℕ)
    (shifts : List Inputs) (days : List (DayInputs F))
    → IsMinute g.minute_duration
    → g.nof_pause < 2 ^ 31
    → AllowsDays g
    → All (FitsInputs g.num_worker_seats) shifts
    → All (FitsDay g) days
    → (worked : List (Day F)) × (visits : List (Visit F)) × (operator_life ratio g first shifts
        ≡ ok worked)
      × (pauses_of worked ≤ g.nof_pause)
      × (user_life of_int g days ≡ ok visits)
      × All IsOrderly visits
      × (lates_of visits ≤ length days)
lives-limits ratio of_int g first shifts days short small allows room room' =
    let (worked, e, few) = operator_life-pauses ratio g first shifts short small room in
    let (visits, e', orderly, late) = user_life-IsOrderly of_int g days allows room' in
    (worked, visits, e, few, e', orderly, late)

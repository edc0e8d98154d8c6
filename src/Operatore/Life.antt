-- ===== src/Operatore/Life.antt =====
-- src/operatore.c, `main`: an operator's days, one after the other, until the inputs end or the
-- process does. `pauses_done` and the service are those of the whole simulation.
use native.Mathlib.Nat.{mod-lt}
use poste_italiane_simulatio.Prelude.{
  ℕ, ◌+◌, ◌%◌, ◌^◌, ◌≤◌, ◌<◌, ◌≡◌, refl, List, [], ◌∷◌, All, Outcome, ok, ◌>>=◌, length, arith,
}
use poste_italiane_simulatio.Config.Defs.{PosteConfig, num_service_types}
use poste_italiane_simulatio.Operatore.Service.{IsMinute}
use poste_italiane_simulatio.Operatore.Shift.{
  Way, returned, killed, unfinished, Day, Inputs, operator_day,
}
use poste_italiane_simulatio.Operatore.Deeds.{tally, tells_pause}
use poste_italiane_simulatio.Operatore.Search.{FitsPoll}
use poste_italiane_simulatio.Operatore.Balance.{operator_day-IsBalanced}

-- The tables that the operator reads have room for the configured seats.
abbrev pub FitsInputs : ℕ → Inputs → Type 0
FitsInputs n i =
    (n ≤ length i.stations_today.seats)
    × (n ≤ length i.stations_first.seats)
    × All (FitsPoll n) i.polls

module _ {F : Type 0} where
  -- Only a day that is over is followed by the next one.
  abbrev pub then_next : Day F → Outcome (List (Day F)) → Outcome (List (Day F))
  then_next d rest = elim d.way [
    | returned ↦ (rest >>= λ ds. ok (d ∷ ds))
    | killed ↦ ok (d ∷ [])
    | unfinished ↦ ok (d ∷ [])
  ]

  unfoldable pub days_from :
      (ℕ → ℕ → F) → PosteConfig → (service pauses : ℕ) → List Inputs → Outcome (List (Day F))
  days_from ratio g service pauses [] = ok []
  days_from ratio g service pauses (i ∷ is) = operator_day ratio g service pauses i >>= λ d.
      then_next d (days_from ratio g service d.pauses_done is)

  -- `first` is the number of rand() behind `srand`.
  unfoldable pub operator_life :
      (ℕ → ℕ → F) → PosteConfig → (first : ℕ) → List Inputs → Outcome (List (Day F))
  unfolding days_from
  operator_life ratio g first is = days_from ratio g (first % num_service_types) 0 is

  abbrev pub pauses_of : List (Day F) → ℕ
  pauses_of [] = 0
  pauses_of (d ∷ ds) = tally tells_pause d.deeds + pauses_of ds

  then_next_total :
      (d : Day F) (way : Way) (rest : Outcome (List (Day F))) (told limit : ℕ)
      → d.way ≡ way
      → told + tally tells_pause d.deeds ≤ limit
      → ((ds : List (Day F)) × (rest ≡ ok ds)
          × (told + tally tells_pause d.deeds + pauses_of ds ≤ limit))
      → (ds : List (Day F)) × (then_next d rest ≡ ok ds) × (told + pauses_of ds ≤ limit)
  then_next_total d returned rest told limit e h (ds, e', k) =
      (d ∷ ds, rw (e, e') refl, omega arith)
  then_next_total d killed rest told limit e h k = (d ∷ [], rw e refl, omega arith)
  then_next_total d unfinished rest told limit e h k = (d ∷ [], rw e refl, omega arith)

  days_from-pauses :
      (ratio : ℕ → ℕ → F) (g : PosteConfig) (service pauses : ℕ) (is : List Inputs)
      → service < 6
      → IsMinute g.minute_duration
      → pauses ≤ g.nof_pause
      → g.nof_pause < 2 ^ 31
      → All (FitsInputs g.num_worker_seats) is
      → (ds : List (Day F)) × (days_from ratio g service pauses is ≡ ok ds)
        × (pauses + pauses_of ds ≤ g.nof_pause)
  unfolding days_from
  days_from-pauses ratio g service pauses [] six short h small room = ([], refl, omega arith)
  days_from-pauses ratio g service pauses (i ∷ is) six short h small room =
      let (d, e, b, _) =
        operator_day-IsBalanced ratio g service pauses i six short h small room.0.0 room.0.1
          room.0.2 in
      let later =
        days_from-pauses ratio g service d.pauses_done is six short b.pauses_left small room.1 in
      let (ds, e', k) =
        then_next_total d d.way _ pauses g.nof_pause refl
          (omega (arith, b.pauses_told, b.pauses_left))
          (later.0, later.1, omega (arith, later.2, b.pauses_told)) in
      (ds, rw e e', k)

  pub operator_life-pauses :
      (ratio : ℕ → ℕ → F) (g : PosteConfig) (first : ℕ) (is : List Inputs)
      → IsMinute g.minute_duration
      → g.nof_pause < 2 ^ 31
      → All (FitsInputs g.num_worker_seats) is
      → (ds : List (Day F)) × (operator_life ratio g first is ≡ ok ds)
        × (pauses_of ds ≤ g.nof_pause)
  unfolding operator_life
  operator_life-pauses ratio g first is short small room =
      let (ds, e, k) =
        days_from-pauses ratio g (first % 6) 0 is (mod-lt first (omega arith)) short (omega arith)
          small room in
      (ds, e, omega arith)

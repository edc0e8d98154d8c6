-- ===== src/Operatore/Search.antt =====
-- src/operatore.c, `wait_for_station`: the search for a seat and its tokens.
use poste_italiane_simulatio.Prelude.{
  ℕ, suc, ◌≤◌, ◌≡◌, ◌≢◌, refl, ap, true, false, List, [], ◌∷◌, All, Option, none, some, Outcome, ok,
  length, arith,
}
use poste_italiane_simulatio.Stations.Search.{find_seat-First}
use poste_italiane_simulatio.Operatore.Shift.{
  Deed, wake, wake_next, close_token, Poll, timed_out, woken, Station, at_seat, day_over, waiting,
  found_or, wait_for_station, seat_or_wait,
}
use poste_italiane_simulatio.Operatore.Deeds.{
  tally, is_sit, is_rise, is_wake, is_wake_next, is_answer, is_lost, tells_request, tells_pause,
  tells_worked,
}

-- The table has room for the configured seats.
abbrev pub FitsPoll : ℕ → Poll → Type 0
FitsPoll n (timed_out closed) = Unit
FitsPoll n (woken st) = n ≤ length st.seats

module _ {F : Type 0} where
  -- The search for a seat: a token that it takes is put back, unless it leads to a seat.
  pub record IsSearch (s : Station × List (Deed F)) : Type 0 where
    pub no_rise : tally is_rise s.1 ≡ 0
    pub no_sit : tally is_sit s.1 ≡ 0
    pub no_request : (service : ℕ) → tally (tells_request service) s.1 ≡ 0
    pub no_answer : tally is_answer s.1 ≡ 0
    pub no_lost : tally is_lost s.1 ≡ 0
    pub no_pause : tally tells_pause s.1 ≡ 0
    pub no_worked : tally tells_worked s.1 ≡ 0
    pub fruitless : ((i : ℕ) → s.0 ≢ at_seat i) → tally is_wake s.1 ≡ tally is_wake_next s.1
    pub tokens :
        (tally is_wake_next s.1 ≤ tally is_wake s.1)
        × (tally is_wake s.1 ≤ suc (tally is_wake_next s.1))

  abbrev pub Finds : Outcome (Station × List (Deed F)) → Type 0
  Finds o = (s : Station × List (Deed F)) × (o ≡ ok s) × IsSearch s

  pub IsSearch-none : (station : Station) → IsSearch (station, [])
  IsSearch-none station = record {
    no_rise = refl;
    no_sit = refl;
    no_request = λ service. refl;
    no_answer = refl;
    no_lost = refl;
    no_pause = refl;
    no_worked = refl;
    fruitless = λ ne. refl;
    tokens = (omega arith, omega arith);
  }

  IsSearch-over : IsSearch (day_over, close_token ∷ [])
  IsSearch-over = record {
    no_rise = refl;
    no_sit = refl;
    no_request = λ service. refl;
    no_answer = refl;
    no_lost = refl;
    no_pause = refl;
    no_worked = refl;
    fruitless = λ ne. refl;
    tokens = (omega arith, omega arith);
  }

  IsSearch-found : (i : ℕ) → IsSearch (at_seat i, wake ∷ [])
  IsSearch-found i = record {
    no_rise = refl;
    no_sit = refl;
    no_request = λ service. refl;
    no_answer = refl;
    no_lost = refl;
    no_pause = refl;
    no_worked = refl;
    fruitless = λ ne. absurd (ne i refl);
    tokens = (omega arith, omega arith);
  }

  IsSearch-again :
      (s : Station × List (Deed F)) → IsSearch s → IsSearch (s.0, wake ∷ wake_next ∷ s.1)
  IsSearch-again s is = record {
    no_rise = is.no_rise;
    no_sit = is.no_sit;
    no_request = is.no_request;
    no_answer = is.no_answer;
    no_lost = is.no_lost;
    no_pause = is.no_pause;
    no_worked = is.no_worked;
    fruitless = λ ne. ap suc (is.fruitless ne);
    tokens = (omega (arith, is.tokens), omega (arith, is.tokens));
  }

  found_or-Finds :
      (found : Option ℕ) (rest : Outcome (Station × List (Deed F)))
      → Finds rest
      → Finds (found_or found rest)
  found_or-Finds none rest (s, e, is) = ((s.0, wake ∷ wake_next ∷ s.1), rw e, IsSearch-again s is)
  found_or-Finds (some i) rest _ = (_, refl, IsSearch-found i)

  pub wait_for_station-Finds :
      (n service : ℕ) (polls : List Poll)
      → All (FitsPoll n) polls
      → Finds (wait_for_station {F = F} n service polls)
  unfolding wait_for_station
  wait_for_station-Finds n service [] h = (_, refl, IsSearch-none waiting)
  wait_for_station-Finds n service (timed_out true ∷ polls) h = (_, refl, IsSearch-over)
  wait_for_station-Finds n service (timed_out false ∷ polls) h =
      wait_for_station-Finds n service polls h.1
  wait_for_station-Finds n service (woken st ∷ polls) h =
      let (r, e, _) = find_seat-First n st service h.0 in
      rw e (found_or-Finds r _ (wait_for_station-Finds n service polls h.1))

  pub seat_or_wait-Finds :
      (found : Option ℕ) (rest : Outcome (Station × List (Deed F)))
      → Finds rest
      → Finds (seat_or_wait found rest)
  seat_or_wait-Finds none rest f = f
  seat_or_wait-Finds (some i) rest f = (_, refl, IsSearch-none (at_seat i))

-- ===== src/Lives/Tests.antt =====
-- An example of two days of an operator and a user. Times are whole numbers here.
use poste_italiane_simulatio.Prelude.{
  ℕ, ◌≤◌, ◌≡◌, refl, true, false, List, [], ◌∷◌, All, none, ok, map, replicate, arith,
}
use poste_italiane_simulatio.Config.Defs.{PosteConfig, default_config}
use poste_italiane_simulatio.Stations.Defs.{Stations, new_seat}
use poste_italiane_simulatio.Operatore.Shift.{Day, Inputs, message, no_message}
use poste_italiane_simulatio.Operatore.Service.{slept}
use poste_italiane_simulatio.Operatore.Life.{operator_life, pauses_of}
use poste_italiane_simulatio.Utente.Visit.{Visit}
use poste_italiane_simulatio.Utente.Life.{
  DayInputs, user_life, lates_of, IsOrderly, AllowsDays, FitsDay,
}
use poste_italiane_simulatio.Lives.{lives-limits}

abbrev one_seat : PosteConfig
one_seat = record default_config { num_worker_seats = 1 }

abbrev table : Stations
table = record { seats = new_seat 2 ∷ []; stations_event = 0; stations_freed_event = 0 }

-- A request and a pause on the first day, closing time on the second.
abbrev first_shift : Inputs
first_shift = record {
  stations_today = table;
  stations_first = table;
  polls = [];
  passes =
      record {
        closed = false;
        mail = message 70 3;
        duration = 9;
        naps = slept ∷ [];
        sent = true;
        luck = 0;
      }
      ∷ [];
}

abbrev second_shift : Inputs
second_shift = record first_shift {
  passes =
      record { closed = true; mail = no_message; duration = 0; naps = []; sent = true; luck = 0 }
      ∷ [];
}

-- The user asks for a ticket that it does not get, and comes too late on the second day.
abbrev first_day : DayInputs ℕ
first_day = record {
  luck = 50;
  number = 0;
  service_of = λ j. 2;
  time = 100;
  service_list = replicate 50 0;
  checks = (480, false) ∷ (700, false) ∷ [];
  calls =
      (
        700,
        record {
          ticket_sent = true;
          ticket = none;
          searched = table;
          tried = table;
          waits = [];
          operator_of = λ k. 40;
          start_wait = 0;
          request_sent = false;
          done = none;
          minute_served = 0;
          minute_after = 0;
        },
      )
      ∷ [];
}

abbrev second_day : DayInputs ℕ
second_day = record first_day {
  checks = (1300, false) ∷ [];
  calls = map (λ c. (1300, c.1)) first_day.calls;
}

allows : AllowsDays one_seat
allows = record {
  some_chance = omega arith;
  some_requests = omega arith;
  few_requests = omega arith;
}

first_fits : FitsDay one_seat first_day
first_fits = (
  refl,
  (tt, tt),
  (
    record {
      some_seats = omega arith;
      at_search = omega arith;
      at_try = omega arith;
      at_waits = tt;
    },
    tt,
  ),
)

second_fits : FitsDay one_seat second_day
second_fits = (
  refl,
  (tt, tt),
  (
    record {
      some_seats = omega arith;
      at_search = omega arith;
      at_try = omega arith;
      at_waits = tt;
    },
    tt,
  ),
)

lives-limits_example :
    (worked : List (Day ℕ)) × (visits : List (Visit ℕ)) × (operator_life
        (λ a b. a)
        one_seat
        8
        (first_shift ∷ second_shift ∷ [])
      ≡ ok worked)
    × (pauses_of worked ≤ 3)
    × (user_life (λ n. n) one_seat (first_day ∷ second_day ∷ []) ≡ ok visits)
    × All IsOrderly visits
    × (lates_of visits ≤ 2)
lives-limits_example =
    lives-limits (λ a b. a) (λ n. n) one_seat 8 (first_shift ∷ second_shift ∷ [])
      (first_day ∷ second_day ∷ []) (omega arith, omega arith) (omega arith) allows
      ((omega arith, omega arith, tt), ((omega arith, omega arith, tt), tt))
      (first_fits, (second_fits, tt))

-- ===== src/Utente/Tests.antt =====
-- Examples of the theorems on a user's choices.
use poste_italiane_simulatio.Prelude.{
  map, some, true, false, [], ◌∷◌, ℕ, ◌+◌, ◌*◌, ◌%◌, ◌≤◌, ◌<◌, ◌≡◌, All, refl, List, fault, ok,
  replicate, arith,
}
use poste_italiane_simulatio.Config.Defs.{PosteConfig, default_config, max_n_requests_compile}
use poste_italiane_simulatio.Utente.Choices.{
  generate_service_list, generate_walk_in_time, generate_walk_in_time_bounds, going,
  will_go_to_poste, will_go_to_poste-going,
}
use poste_italiane_simulatio.Utente.Services.{IsFilled, generate_service_list-IsFilled}
use poste_italiane_simulatio.Utente.Visit.{Inputs, Visit, day_loop}
use poste_italiane_simulatio.Utente.Accounts.{Accounts}
use poste_italiane_simulatio.Utente.Calls.{InRoom}
use poste_italiane_simulatio.Utente.Told.{Tells}
use poste_italiane_simulatio.Utente.Day.{IsDay, expected, day_loop-IsDay}
use poste_italiane_simulatio.Stations.Defs.{free, occupied, Stations, seat_user}

abbrev dice : ℕ → ℕ
dice j = j * 5

-- Six requests of at most ten, from 8 to 20 o'clock.
generate_walk_in_time_bounds_example :
    (8 * 60 + 5 * 6 < 20 * 60
      → (8 * 60 < generate_walk_in_time default_config 6 1000)
        × (generate_walk_in_time default_config 6 1000 + 5 * 6 ≤ 20 * 60))
    × (20 * 60 ≤ 8 * 60 + 5 * 6 → generate_walk_in_time default_config 6 1000 ≡ 8 * 60 + 1)
generate_walk_in_time_bounds_example =
    generate_walk_in_time_bounds default_config 6 1000 (omega arith) (omega arith) (omega arith)

generate_service_list-IsFilled_example :
    (25 % 10 + 1 ≤ max_n_requests_compile
      → (max : ℕ) × (list' : List ℕ) × (generate_service_list default_config 25 dice
            (replicate 50 0)
          ≡ ok (max, list'))
        × (1 ≤ max)
        × (max ≤ 10)
        × IsFilled 0 max dice (replicate 50 0) list')
    × (max_n_requests_compile < 25 % 10 + 1
        → generate_service_list default_config 25 dice (replicate 50 0) ≡ fault)
generate_service_list-IsFilled_example =
    generate_service_list-IsFilled default_config 25 dice (replicate 50 0) (omega arith) refl

abbrev table : Stations
table = record {
  seats =
      record {
        operator_process = 40;
        operator_status = occupied;
        user_status = free;
        service_id = 2;
      }
      ∷ [];
  stations_event = 0;
  stations_freed_event = 0;
}

abbrev one_seat : PosteConfig
one_seat = record default_config { num_worker_seats = 1 }

-- A ticket, a seat after one wait, and an answer before closing time.
abbrev inputs : Inputs ℕ
inputs = record {
  ticket_sent = true;
  ticket = some 4;
  searched = table;
  tried = record table { seats = map seat_user table.seats };
  waits = record { sleep_fails = false; minute = 600; stations = table } ∷ [];
  operator_of = λ k. 40;
  start_wait = 605;
  request_sent = true;
  done = some (record { ticket_number = 4; service_id = 2; service_time = 7 });
  minute_served = 612;
  minute_after = 612;
}

inputs-InRoom : InRoom 1 inputs
inputs-InRoom = record {
  some_seats = omega arith;
  at_search = omega arith;
  at_try = omega arith;
  at_waits = (omega arith, tt);
}

abbrev errands : List (ℕ × Inputs ℕ)
errands = (599, inputs) ∷ (1200, inputs) ∷ []

day_loop-IsDay_example :
    (v : Visit ℕ) × (day_loop (λ n. n) one_seat false (2 ∷ 5 ∷ []) errands ≡ ok v)
    × All Tells v.actions
    × IsDay false (expected one_seat (2 ∷ 5 ∷ []) errands) v
day_loop-IsDay_example =
    day_loop-IsDay (λ n. n) one_seat false (2 ∷ 5 ∷ []) errands (omega arith, (omega arith, tt))
      (omega arith, (omega arith, tt)) (inputs-InRoom, (inputs-InRoom, tt))

-- The second service comes after eight in the evening.
two_expected : expected one_seat (2 ∷ 5 ∷ []) errands ≡ 2
two_expected = refl

-- Eighty of a hundred.
will_go_to_poste-going_example :
    (0 < default_config.p_serv_max → going default_config 100 ≡ ok 80)
    × (default_config.p_serv_max ≡ 0 → (r : ℕ) → will_go_to_poste default_config r ≡ fault)
will_go_to_poste-going_example = will_go_to_poste-going default_config (omega arith) (omega arith)

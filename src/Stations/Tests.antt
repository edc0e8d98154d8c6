-- ===== src/Stations/Tests.antt =====
-- Examples of the theorems on the worker seats.
use native.Mathlib.Decide.{ℕ_discrete}
use poste_italiane_simulatio.Prelude.{
  ℕ, ◌+◌, ◌≡◌, refl, List, [], ◌∷◌, Option, none, some, ok, read, arith, false,
}
use poste_italiane_simulatio.Stations.Defs.{
  free, occupied, Seat, Stations, find_seat, can_work_today, find_valid_seats, attempt_take_seat,
  reset_seats,
}
use poste_italiane_simulatio.Stations.Search.{
  First, FreeFor, Hit, find_seat-First, can_work_today-find_seat,
}
use poste_italiane_simulatio.Stations.NewDay.{IsReset, reset_seats-IsReset}
use poste_italiane_simulatio.Stations.Operators.{waiting, seated, Shift, Reach, two_on_one_seat}
use poste_italiane_simulatio.Stations.Users.{
  Selects, ServedBy, UserOn, Attempts, find_valid_seats-Selects, attempt_take_seat-Attempts,
}
use poste_italiane_simulatio.Stations.Sharing as Sharing

-- A seat with an operator, one without, and one of another service.
abbrev three_seats : Stations
three_seats = record {
  seats =
      record {
        operator_process = 40;
        operator_status = occupied;
        user_status = free;
        service_id = 2;
      }
      ∷ record { operator_process = 0; operator_status = free; user_status = free; service_id = 2 }
      ∷ record {
        operator_process = 41;
        operator_status = occupied;
        user_status = free;
        service_id = 5;
      }
      ∷ [];
  stations_event = 2;
  stations_freed_event = 0;
}

find_seat-First_example :
    (r : Option ℕ) × (find_seat 3 three_seats 2 ≡ ok r) × First (FreeFor 2) three_seats.seats 0 3 r
find_seat-First_example = find_seat-First 3 three_seats 2 (omega arith)

nobody_for_1 : can_work_today 3 three_seats 1 ≡ ok false
unfolding can_work_today
nobody_for_1 = refl

can_work_today-find_seat_example : find_seat 3 three_seats 1 ≡ ok none
can_work_today-find_seat_example =
    can_work_today-find_seat 3 three_seats three_seats 1 (omega arith) refl (λ j a b e e'. cc)
      nobody_for_1

find_valid_seats-Selects_example :
    (l : List ℕ) × (find_valid_seats 3 three_seats 2 ≡ ok l)
    × Selects (ServedBy 2) three_seats.seats 0 3 l
find_valid_seats-Selects_example =
    find_valid_seats-Selects 3 three_seats 2 (omega arith) (omega arith)

attempt_take_seat-Attempts_example :
    (r : Option ℕ) × (seats' : List Seat) × (attempt_take_seat three_seats (0 ∷ 2 ∷ [])
      ≡ ok (r, record three_seats { seats = seats' }))
    × Attempts three_seats.seats (0 ∷ 2 ∷ []) r seats'
attempt_take_seat-Attempts_example =
    attempt_take_seat-Attempts three_seats (0 ∷ 2 ∷ []) (omega arith, (omega arith, tt))

abbrev dice : ℕ → ℕ
dice j = j + 4

reset_seats-IsReset_example :
    (seats' : List Seat) × (reset_seats 3 dice three_seats
      ≡ ok (record three_seats { seats = seats' }))
    × IsReset 0 3 dice three_seats.seats seats'
reset_seats-IsReset_example = reset_seats-IsReset 3 dice three_seats (omega arith)

abbrev of_service_2 : ℕ → ℕ
of_service_2 p = 2

abbrev both_waiting : Shift
both_waiting = record { stations = three_seats; place = λ p. waiting }

seat_1_found : find_seat 3 three_seats 2 ≡ ok (some 1)
unfolding find_seat
seat_1_found = refl

two_on_one_seat_example :
    (t : Shift) × Reach 3 of_service_2 both_waiting t
    × (t.place 50 ≡ seated 1)
    × (t.place 51 ≡ seated 1)
    × ((seat : Seat) → read t.stations.seats 1 ≡ ok seat → seat.operator_process ≡ 51)
two_on_one_seat_example =
    two_on_one_seat 3 of_service_2 both_waiting 50 51 1 (omega arith) (λ e. omega arith) refl refl
      refl (omega arith) seat_1_found

abbrev three_seats_taken : Stations
three_seats_taken = record three_seats {
  seats =
      record {
        operator_process = 40;
        operator_status = occupied;
        user_status = occupied;
        service_id = 2;
      }
      ∷ record { operator_process = 0; operator_status = free; user_status = free; service_id = 2 }
      ∷ record {
        operator_process = 41;
        operator_status = occupied;
        user_status = free;
        service_id = 5;
      }
      ∷ [];
}

seat_0_taken : attempt_take_seat three_seats (0 ∷ []) ≡ ok (some 0, three_seats_taken)
unfolding attempt_take_seat
seat_0_taken = refl

-- User 7 has taken seat 0.
abbrev one_user : Sharing.Office
one_user = record { stations = three_seats_taken; holds = Sharing.update (λ u. none) 7 (some 0) }

user_7_sits : Sharing.Reach three_seats one_user
user_7_sits =
    Sharing.Reach.next Sharing.Reach.start
      (Sharing.Step.user_takes 7 0 (0 ∷ []) refl (omega arith, tt) seat_0_taken)

abbrev user_7 : ℕ
user_7 = 7

seat_exclusive_example : (user_7 ≡ user_7) × Hit (UserOn occupied) three_seats_taken.seats 0
unfolding ℕ_discrete
seat_exclusive_example = Sharing.seat_exclusive user_7_sits user_7 user_7 0 refl refl

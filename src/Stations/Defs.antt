-- ===== src/Stations/Defs.antt =====
-- include/poste.h: `struct S_worker_seat` and `S_poste_stations`, whose event semaphores are
-- counters; and the operations on them. `n` is `g_config.num_worker_seats`; an index outside the
-- array of seats is a fault. What runs under `stations_lock` is one operation here.
use poste_italiane_simulatio.Prelude.{
  ℕ, zero, suc, ◌+◌, ◌%◌, Bool, true, false, ◌&&◌, List, [], ◌∷◌, ◌++◌, Option, none, some, Outcome,
  ok, fault, ◌>>=◌, read, modify, length, ltb, ◌==◌, if◌then◌else◌,
}
use poste_italiane_simulatio.Config.Defs.{num_service_types, max_worker_seats}

pub data SeatStatus : Type 0 where
  free occupied : SeatStatus

abbrev pub is_free : SeatStatus → Bool
is_free free = true
is_free occupied = false

abbrev pub is_occupied : SeatStatus → Bool
is_occupied free = false
is_occupied occupied = true

pub record Seat : Type 0 where
  pub operator_process : ℕ
  pub operator_status : SeatStatus
  pub user_status : SeatStatus
  pub service_id : ℕ

pub record Stations : Type 0 where
  pub seats : List Seat
  pub stations_event : ℕ
  pub stations_freed_event : ℕ

-- src/operatore.c, `find_seat`: the loop from seat `i` on; none stands for -1.
unfoldable pub find_seat_from : ℕ → ℕ → List Seat → ℕ → Outcome (Option ℕ)
find_seat_from zero i seats service = ok none
find_seat_from (suc rounds) i seats service = do
  seat ← read seats i
  let rest = find_seat_from rounds (suc i) seats service
  if is_free seat.operator_status && seat.service_id == service then ok (some i) else rest

unfoldable pub find_seat : ℕ → Stations → ℕ → Outcome (Option ℕ)
unfolding find_seat_from
find_seat n st user_service = find_seat_from n 0 st.seats user_service

-- src/operatore.c, `can_work_today`.
unfoldable pub can_work_from : ℕ → ℕ → List Seat → ℕ → Outcome Bool
can_work_from zero i seats service = ok false
can_work_from (suc rounds) i seats service = do
  seat ← read seats i
  let rest = can_work_from rounds (suc i) seats service
  if seat.service_id == service then ok true else rest

unfoldable pub can_work_today : ℕ → Stations → ℕ → Outcome Bool
unfolding can_work_from
can_work_today n st user_service = can_work_from n 0 st.seats user_service

abbrev pub seat_operator : ℕ → Seat → Seat
seat_operator pid s = record s { operator_process = pid; operator_status = occupied }

abbrev pub unseat_operator : Seat → Seat
unseat_operator s = record s { operator_status = free; operator_process = 0 }

-- src/operatore.c, `take_seat`, by the operator with this pid.
unfoldable pub take_seat : Stations → ℕ → ℕ → Outcome Stations
take_seat st pid i = do
  seats ← modify st.seats i (seat_operator pid)
  ok (record st { seats = seats })

-- src/operatore.c, `release_seat`: the seat is freed, and one waiting operator is told.
unfoldable pub release_seat : Stations → ℕ → Outcome Stations
release_seat st i = do
  seats ← modify st.seats i unseat_operator
  ok (record st { seats = seats; stations_event = st.stations_event + 1 })

-- src/utente.c, `find_valid_seats`: `found` is what `valid_seats` holds so far, whose thirty
-- places are all there are.
unfoldable pub find_valid_from : ℕ → ℕ → List Seat → ℕ → List ℕ → Outcome (List ℕ)
find_valid_from zero i seats service found = ok found
find_valid_from (suc rounds) i seats service found = do
  seat ← read seats i
  let rest = find_valid_from rounds (suc i) seats service found
  let more = find_valid_from rounds (suc i) seats service (found ++ i ∷ [])
  if seat.service_id == service && is_occupied seat.operator_status
      then (if ltb (length found) max_worker_seats then more else fault)
      else rest

unfoldable pub find_valid_seats : ℕ → Stations → ℕ → Outcome (List ℕ)
unfolding find_valid_from
find_valid_seats n st service_id = find_valid_from n 0 st.seats service_id []

abbrev pub seat_user : Seat → Seat
seat_user s = record s { user_status = occupied }

abbrev pub unseat_user : Seat → Seat
unseat_user s = record s { user_status = free }

-- src/utente.c, `attempt_take_seat`: the first of the valid seats with no user, now taken.
unfoldable pub attempt_take : List Seat → List ℕ → Outcome (Option ℕ × List Seat)
attempt_take seats [] = ok (none, seats)
attempt_take seats (k ∷ valid) = do
  seat ← read seats k
  let rest = attempt_take seats valid
  let taken = modify seats k seat_user >>= λ seats'. ok (some k, seats')
  if is_free seat.user_status then taken else rest

unfoldable pub attempt_take_seat : Stations → List ℕ → Outcome (Option ℕ × Stations)
unfolding attempt_take
attempt_take_seat st valid =
    attempt_take st.seats valid >>= λ r. ok (r.0, record st { seats = r.1 })

-- src/utente.c, the end of `handle_service`: the user leaves the seat.
unfoldable pub release_user_seat : Stations → ℕ → Outcome Stations
release_user_seat st i = do
  seats ← modify st.seats i unseat_user
  ok (record st { seats = seats; stations_freed_event = st.stations_freed_event + 1 })

-- src/direttore.c, `start_new_day`, the loop over the seats; `rand j` is the j-th number that
-- rand() returns in it.
abbrev pub new_seat : ℕ → Seat
new_seat r = record {
  operator_process = 0;
  operator_status = free;
  user_status = free;
  service_id = r % num_service_types;
}

unfoldable pub reset_seats_from : ℕ → ℕ → (ℕ → ℕ) → List Seat → Outcome (List Seat)
reset_seats_from zero i rand seats = ok seats
reset_seats_from (suc rounds) i rand seats = do
  seats' ← modify seats i (λ _. new_seat (rand i))
  reset_seats_from rounds (suc i) rand seats'

unfoldable pub reset_seats : ℕ → (ℕ → ℕ) → Stations → Outcome Stations
unfolding reset_seats_from
reset_seats n rand st = do
  seats ← reset_seats_from n 0 rand st.seats
  ok (record st { seats = seats })

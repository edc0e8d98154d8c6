-- ===== src/Store/Tests.antt =====
-- An example of a user, an operator and the director at work on the same shared memory. Times are whole numbers
-- here.
use poste_italiane_simulatio.Prelude.{
  ℕ, ◌+◌, ◌≤◌, ◌≡◌, refl, true, false, List, [], ◌∷◌, ok, some, map, length, arith,
}
use poste_italiane_simulatio.Config.Defs.{PosteConfig, default_config}
use poste_italiane_simulatio.Stats.Defs.{Double, no_stats}
use poste_italiane_simulatio.Stats.Summary.{summary, success, request, worked}
use poste_italiane_simulatio.Stats.Refines.{counted}
use poste_italiane_simulatio.Stations.Defs.{
  free, occupied, Stations, find_valid_seats, attempt_take_seat, find_seat, can_work_today,
}
use poste_italiane_simulatio.Utente.Visit.{day_loop, Visit, Action}
use poste_italiane_simulatio.Utente.Visit as User
use poste_italiane_simulatio.Operatore.Shift.{operator_day, Deed, Day, message, no_message}
use poste_italiane_simulatio.Operatore.Shift as Operator
use poste_italiane_simulatio.Operatore.Service.{slept, process_service, print_finished}
use poste_italiane_simulatio.Store.Defs.{
  Store, Duty, date, reset, clock, Did, by_user, by_operator, by_director, perform_all, history,
}
use poste_italiane_simulatio.Store.Together.{
  user_day, operator_shift, director, Shuffle, left, right, no_more, Together, nothing, one_more,
  Together-summary,
}

instance abbrev whole : Double ℕ
whole = record { zero = 0; plus = λ x y. x + y }

abbrev one_seat : PosteConfig
one_seat = record default_config { num_worker_seats = 1 }

-- The seat as the operator finds it, and as the user does.
abbrev before_work : Stations
before_work = record {
  seats =
      record { operator_process = 0; operator_status = free; user_status = free; service_id = 2 }
      ∷ [];
  stations_event = 0;
  stations_freed_event = 0;
}

abbrev at_work : Stations
at_work = record {
  seats =
      record {
        operator_process = 40;
        operator_status = occupied;
        user_status = free;
        service_id = 2;
      }
      ∷ [];
  stations_event = 0;
  stations_freed_event = 0;
}

abbrev errands : List (ℕ × User.Inputs ℕ)
errands =
    (
      599,
      record {
        ticket_sent = true;
        ticket = some 4;
        searched = at_work;
        tried = at_work;
        waits = [];
        operator_of = λ k. 40;
        start_wait = 605;
        request_sent = true;
        done = some (record { ticket_number = 4; service_id = 2; service_time = 7 });
        minute_served = 612;
        minute_after = 612;
      },
    )
    ∷ []

abbrev shift_inputs : Operator.Inputs
shift_inputs = record {
  stations_today = before_work;
  stations_first = before_work;
  polls = [];
  passes =
      record {
        closed = false;
        mail = message 70 4;
        duration = 9;
        naps = slept ∷ [];
        sent = true;
        luck = 50;
      }
      ∷ record { closed = true; mail = no_message; duration = 0; naps = []; sent = true; luck = 0 }
      ∷ [];
}

abbrev visit : Visit ℕ
visit = record {
  way = User.returned;
  been_late_today = false;
  actions = User.take 0 ∷ User.ask 40 4 ∷ User.tell (success 2 7 7) ∷ User.free 0 ∷ [];
}

day_loop-visit : day_loop (λ n. n) one_seat false (2 ∷ []) errands ≡ ok visit
unfolding User.day_loop User.handle_service User.visit_service User.with_ticket User.choose_seat
    User.get_seat User.go_on User.use_seat User.await_done User.served User.wait_for_seat
    find_valid_seats attempt_take_seat
day_loop-visit = refl

abbrev shift_day : Day ℕ
shift_day = record {
  way = Operator.returned;
  worked_today = true;
  pauses_done = 1;
  deeds =
      Operator.sit 0
      ∷ Operator.tell (request 2)
      ∷ Operator.answer 70 4 150000009
      ∷ Operator.close_token
      ∷ Operator.rise 0
      ∷ Operator.tell worked
      ∷ [];
}

operator_day-shift_day : operator_day (λ a b. a) one_seat 2 1 shift_inputs ≡ ok shift_day
unfolding Operator.operator_day Operator.work_loop Operator.get_station Operator.at_station
    Operator.shift Operator.handle_request Operator.after_service Operator.after_answer
    process_service find_seat can_work_today print_finished
operator_day-shift_day = refl

-- The director begins the first day; the operator sits down, the user takes the place, asks and is
-- answered, and both leave.
abbrev both : List (Did ℕ)
both =
    by_operator 40 (Operator.sit 0)
    ∷ by_user (User.take 0)
    ∷ by_user (User.ask 40 4)
    ∷ by_operator 40 (Operator.tell (request 2))
    ∷ by_operator 40 (Operator.answer 70 4 150000009)
    ∷ by_user (User.tell (success 2 7 7))
    ∷ by_user (User.free 0)
    ∷ by_operator 40 Operator.close_token
    ∷ by_operator 40 (Operator.rise 0)
    ∷ by_operator 40 (Operator.tell worked)
    ∷ []

abbrev duties : List Duty
duties = date 1 ∷ reset (λ i. 8) ∷ clock 1 ∷ []

abbrev together : List (Did ℕ)
together = by_director 1 (date 1) ∷ by_director 1 (reset (λ i. 8)) ∷ by_director 1 (clock 1) ∷ both

operator_alone : Together (λ a b. a) (λ n. n) one_seat (map (by_operator 40) shift_day.deeds)
operator_alone =
    one_more [] _ _ nothing
      (operator_shift 40 2 1 shift_inputs shift_day (omega arith) operator_day-shift_day)
      (no_more _ [])

both-Shuffle : Shuffle (map by_user visit.actions) (map (by_operator 40) shift_day.deeds) both
both-Shuffle = right _ _ _ _ (
    left _ _ _ _ (
      left _ _ _ _ (
        right _ _ _ _ (
          right _ _ _ _ (
            left _ _ _ _
              (left _ _ _ _ (right _ _ _ _ (right _ _ _ _ (right _ _ _ _ (no_more [] []))))))))))

both-Together : Together (λ a b. a) (λ n. n) one_seat both
both-Together =
    one_more _ _ both operator_alone
      (user_day false (2 ∷ []) errands visit (omega arith, tt) (omega arith, tt) day_loop-visit)
      both-Shuffle

-- Behind the duties of the director come all the steps of a whole list.
whole-Shuffle : (ys : List (Did ℕ)) → Shuffle [] ys ys
whole-Shuffle [] = no_more [] []
whole-Shuffle (y ∷ ys) = right y [] ys ys (whole-Shuffle ys)

together-Together : Together (λ a b. a) (λ n. n) one_seat together
together-Together =
    one_more both _ together both-Together (director duties)
      (left _ _ _ _ (left _ _ _ _ (left _ _ _ _ (whole-Shuffle both))))

Together-summary_example :
    (s : Store ℕ) × (perform_all (record { stats = no_stats; stations = before_work }) together
      ≡ ok s)
    × (s.stats ≡ summary counted (history [] together))
    × (1 ≤ length s.stations.seats)
Together-summary_example =
    Together-summary (λ a b. a) (λ n. n) one_seat before_work together (omega arith)
      together-Together

-- The user has waited for seven minutes.
waited_seven : (summary counted (history [] together)).today.global.total_wait_time ≡ 7
waited_seven = refl

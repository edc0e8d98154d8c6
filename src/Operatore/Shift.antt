-- ===== src/Operatore/Shift.antt =====
-- src/operatore.c: `wait_for_station`, `work_loop`, and a day of the loop of `main`. What an operator
-- reads of the shared memory and what its calls of the system give are inputs; what it does is the
-- list of its deeds, in their order.
use poste_italiane_simulatio.Prelude.{
  ℕ, ◌-◌, ◌%◌, ◌^◌, Bool, true, false, not, ◌&&◌, List, [], ◌∷◌, ◌++◌, Option, none, some, Outcome,
  ok, ◌>>=◌, incr, lt_int, ltb, ◌==◌, if◌then◌else◌,
}
use poste_italiane_simulatio.Config.Defs.{PosteConfig}
use poste_italiane_simulatio.Stats.Summary.{Event, request, pause, worked}
use poste_italiane_simulatio.Stations.Defs.{Stations, find_seat, can_work_today}
use poste_italiane_simulatio.Operatore.Service.{
  Nap, Sleep, rested, exited, sleeping, process_service, print_finished,
}

pub data Deed (F : Type 0) : Type 0 where
  tell : Event F → Deed F  -- an update of the statistics
  sit rise : (seat : ℕ) → Deed F  -- take_seat and release_seat
  wake wake_next : Deed F  -- a token of stations_event taken, and put back
  close_token : Deed F  -- a token of close_poste_event taken
  answer : (user_pid ticket_number : ℕ) (service_time : F) → Deed F
  lost : (user_pid ticket_number : ℕ) → Deed F  -- an answer for which mq_send failed

-- One round of the inner or the outer loop of `wait_for_station`: sem_timedwait fails, and
-- `did_poste_close` answers, or it gets a token, and `find_seat` sees these seats.
pub data Poll : Type 0 where
  timed_out : (closed : Bool) → Poll
  woken : Stations → Poll

-- What `mq_receive` gives to `await_service_request_nb`.
pub data Mail : Type 0 where
  no_message receive_error : Mail
  message : (sender_pid ticket_number : ℕ) → Mail

-- One round of the loop of `work_loop`.
pub record Pass : Type 0 where
  pub closed : Bool
  pub mail : Mail
  pub duration : ℕ  -- the number of rand() in process_service
  pub naps : List Nap
  pub sent : Bool  -- whether mq_send takes the answer
  pub luck : ℕ  -- the number of rand() for a pause

pub data Way : Type 0 where
  returned killed unfinished : Way

pub record Day (F : Type 0) : Type 0 where
  pub way : Way
  pub worked_today : Bool
  pub pauses_done : ℕ
  pub deeds : List (Deed F)

-- `res.ticket_number` of `await_service_request_nb`: -2 for no message, -1 for an error.
abbrev pub ticket_of : Mail → ℕ
ticket_of no_message = 2 ^ 32 - 2
ticket_of receive_error = 2 ^ 32 - 1
ticket_of (message sender_pid ticket_number) = ticket_number

-- It is read only of a message.
abbrev pub sender_of : Mail → ℕ
sender_of no_message = 0
sender_of receive_error = 0
sender_of (message sender_pid ticket_number) = sender_pid

-- Neither -2 nor -1.
abbrev pub is_request : Mail → Bool
is_request mail = not (ticket_of mail == 2 ^ 32 - 2) && not (ticket_of mail == 2 ^ 32 - 1)

pub data Station : Type 0 where
  at_seat : (seat : ℕ) → Station
  day_over waiting : Station

-- `if (rand() % 100 < 1 && (*pauses_done) < g_config.nof_pause)`
abbrev pub goes_early : PosteConfig → ℕ → ℕ → Bool
goes_early g pauses luck = ltb (luck % 100) 1 && lt_int pauses g.nof_pause

module _ {F : Type 0} where
  abbrev pub did_before : List (Deed F) → Day F → Day F
  did_before before d = record d { deeds = before ++ d.deeds }

  abbrev pub found_or :
      Option ℕ → Outcome (Station × List (Deed F)) → Outcome (Station × List (Deed F))
  found_or none rest = rest >>= λ s. ok (s.0, wake ∷ wake_next ∷ s.1)
  found_or (some i) rest = ok (at_seat i, wake ∷ [])

  unfoldable pub wait_for_station : ℕ → ℕ → List Poll → Outcome (Station × List (Deed F))
  wait_for_station n service [] = ok (waiting, [])
  wait_for_station n service (timed_out true ∷ polls) = ok (day_over, close_token ∷ [])
  wait_for_station n service (timed_out false ∷ polls) = wait_for_station n service polls
  wait_for_station n service (woken st ∷ polls) =
      find_seat n st service >>= λ found. found_or found (wait_for_station n service polls)

  -- Behind the answer to a request.
  unfoldable pub after_answer : PosteConfig → ℕ → ℕ → ℕ → Outcome (Day F) → Outcome (Day F)
  after_answer g pauses seat luck rest =
      if goes_early g pauses luck
      then ok (record {
        way = returned;
        worked_today = true;
        pauses_done = incr pauses;
        deeds = rise seat ∷ tell pause ∷ [];
      })
      else rest

  -- `send_service_done`, whose failure is only printed.
  abbrev pub reply : Pass → F → Deed F
  reply p time =
      if p.sent
      then answer (sender_of p.mail) (ticket_of p.mail) time
      else lost (sender_of p.mail) (ticket_of p.mail)

  -- Behind `process_service`, whose failed sleep ends the process.
  unfoldable pub after_service :
      PosteConfig → ℕ → ℕ → Pass → F → Sleep → Outcome (Day F) → Outcome (Day F)
  unfolding after_answer
  after_service g pauses seat p time rested rest =
      after_answer g pauses seat p.luck rest >>= λ d. ok (did_before (reply p time ∷ []) d)
  after_service g pauses seat p time exited rest =
      ok (record { way = killed; worked_today = false; pauses_done = pauses; deeds = [] })
  after_service g pauses seat p time sleeping rest =
      ok (record { way = unfinished; worked_today = false; pauses_done = pauses; deeds = [] })

  -- A service request. `ratio` divides as double.
  unfoldable pub handle_request :
      (ℕ → ℕ → F) → PosteConfig → ℕ → ℕ → ℕ → Pass → Outcome (Day F) → Outcome (Day F)
  unfolding after_service
  handle_request ratio g service pauses seat p rest =
      process_service g.minute_duration service p.duration p.naps >>= λ s.
      print_finished s.1.0 s.0 g.minute_duration >>= λ _.
      after_service g pauses seat p (ratio s.0 g.minute_duration) s.1.0 rest >>= λ d.
      ok (did_before (tell (request service) ∷ []) d)

  -- `while (on_shift)`
  unfoldable pub shift : (ℕ → ℕ → F) → PosteConfig → ℕ → ℕ → ℕ → List Pass → Outcome (Day F)
  unfolding handle_request
  shift ratio g service pauses seat [] =
      ok (record { way = unfinished; worked_today = false; pauses_done = pauses; deeds = [] })
  shift ratio g service pauses seat (p ∷ ps) =
      let rest = shift ratio g service pauses seat ps in
      if p.closed
      then ok (record {
        way = returned;
        worked_today = true;
        pauses_done = pauses;
        deeds = close_token ∷ rise seat ∷ [];
      })
      else if is_request p.mail
      then handle_request ratio g service pauses seat p rest
      else rest

  -- `work_loop` with the seat that was found.
  unfoldable pub at_station :
      (ℕ → ℕ → F) → PosteConfig → ℕ → ℕ → List Pass → Station × List (Deed F) → Outcome (Day F)
  unfolding shift
  at_station ratio g service pauses ps (at_seat i, deeds) =
      shift ratio g service pauses i ps >>= λ d. ok (did_before (deeds ++ sit i ∷ []) d)
  at_station ratio g service pauses ps (day_over, deeds) =
      ok (record { way = returned; worked_today = false; pauses_done = pauses; deeds = deeds })
  at_station ratio g service pauses ps (waiting, deeds) =
      ok (record { way = unfinished; worked_today = false; pauses_done = pauses; deeds = deeds })

  abbrev pub seat_or_wait :
      Option ℕ → Outcome (Station × List (Deed F)) → Outcome (Station × List (Deed F))
  seat_or_wait none wait = wait
  seat_or_wait (some i) wait = ok (at_seat i, [])

-- The seats as `can_work_today` and the first `find_seat` see them, and the rounds of the loops.
pub record Inputs : Type 0 where
  pub stations_today : Stations
  pub stations_first : Stations
  pub polls : List Poll
  pub passes : List Pass

module _ {F : Type 0} where
  unfoldable pub get_station : PosteConfig → ℕ → Inputs → Outcome (Station × List (Deed F))
  unfolding wait_for_station
  get_station g service i = find_seat g.num_worker_seats i.stations_first service >>= λ found.
      seat_or_wait found (wait_for_station g.num_worker_seats service i.polls)

  unfoldable pub work_loop : (ℕ → ℕ → F) → PosteConfig → ℕ → ℕ → Inputs → Outcome (Day F)
  unfolding at_station get_station
  work_loop ratio g service pauses i =
      can_work_today g.num_worker_seats i.stations_today service >>= λ can.
      if can
      then (get_station g service i >>= λ s. at_station ratio g service pauses i.passes s)
      else ok (record { way = returned; worked_today = false; pauses_done = pauses; deeds = [] })

  -- `if (worked_today)`, in `main`.
  abbrev pub count_active : Day F → Day F
  count_active d = record d { deeds = d.deeds ++ (if d.worked_today then tell worked ∷ [] else []) }

  -- A round of the loop of `main`, from the opening on.
  unfoldable pub operator_day : (ℕ → ℕ → F) → PosteConfig → ℕ → ℕ → Inputs → Outcome (Day F)
  unfolding work_loop
  operator_day ratio g service pauses i =
      work_loop ratio g service pauses i >>= λ d. ok (count_active d)

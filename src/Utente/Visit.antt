-- ===== src/Utente/Visit.antt =====
-- src/utente.c, `handle_service` and `day_loop`. What a user reads of the shared memory, and what
-- its calls of the system give, are inputs, since other processes may write in between; what it
-- does to the seats and the statistics is the list of its actions, in their order.
use poste_italiane_simulatio.Prelude.{
  ℕ, Bool, true, false, not, ◌&&◌, ltb, fault, List, [], ◌∷◌, ◌++◌, Option, none, some, Outcome, ok,
  ◌>>=◌, sub_int, mul_int, lt_int, if◌then◌else◌,
}
use poste_italiane_simulatio.Config.Defs.{PosteConfig, num_service_types}
use poste_italiane_simulatio.Stats.Summary.{Event, request, success, failure, late}
use poste_italiane_simulatio.Stations.Defs.{Stations, find_valid_seats, attempt_take_seat}

pub data Action (F : Type 0) : Type 0 where
  tell : Event F → Action F  -- an update of the statistics
  take free : (seat : ℕ) → Action F
  ask : (op_pid ticket_number : ℕ) → Action F  -- the service request

-- One round of the loop that waits for a seat: whether nanosleep fails, the minute read after it,
-- and the seats as `attempt_take_seat` finds them.
pub record Wait : Type 0 where
  pub sleep_fails : Bool
  pub minute : ℕ
  pub stations : Stations

pub record ServiceDone (F : Type 0) : Type 0 where
  pub ticket_number : ℕ
  pub service_id : ℕ
  pub service_time : F

-- The inputs of one call of `handle_service`, in their order. The messages are none where
-- `mq_receive` fails, which the code turns into a ticket of -1.
pub record Inputs (F : Type 0) : Type 0 where
  pub ticket_sent : Bool
  pub ticket : Option ℕ
  pub searched : Stations  -- for find_valid_seats
  pub tried : Stations  -- for the first attempt_take_seat
  pub waits : List Wait
  pub operator_of : ℕ → ℕ  -- operator_process of a seat
  pub start_wait : ℕ
  pub request_sent : Bool
  pub done : Option (ServiceDone F)
  pub minute_served : ℕ  -- current_minute, for wait_time
  pub minute_after : ℕ  -- current_minute, for the last test

-- How a call ends: it returns, the process exits, or the inputs end while it waits for a seat.
pub data Way : Type 0 where
  returned exited unfinished : Way

pub record Visit (F : Type 0) : Type 0 where
  pub way : Way
  pub been_late_today : Bool
  pub actions : List (Action F)

-- `current_minute >= g_config.worker_shift_close * 60`
abbrev pub is_over : PosteConfig → ℕ → Bool
is_over g minute = not (lt_int minute (mul_int g.worker_shift_close 60))

-- What the search for a seat comes to.
pub data Got : Type 0 where
  seat : (k : ℕ) → Got
  too_late interrupted waiting : Got

abbrev pub seat_or : Option ℕ → Outcome Got → Outcome Got
seat_or none rest = rest
seat_or (some k) rest = ok (seat k)

-- `while (current_seat == -1)`. Its `sem_trywait` may take a token, for which no process ever waits.
unfoldable pub wait_for_seat : PosteConfig → List ℕ → List Wait → Outcome Got
wait_for_seat g valid [] = ok waiting
wait_for_seat g valid (w ∷ ws) =
    let rest = wait_for_seat g valid ws in
    let again = attempt_take_seat w.stations valid >>= λ r. seat_or r.0 rest in
    if w.sleep_fails then ok interrupted else if is_over g w.minute then ok too_late else again

unfoldable pub get_seat : PosteConfig → List ℕ → Stations → List Wait → Outcome Got
get_seat g valid tried waits =
    attempt_take_seat tried valid >>= λ r. seat_or r.0 (wait_for_seat g valid waits)

-- `tres.ticket_number`, if it is not negative.
abbrev pub ticket_of : Option ℕ → Option ℕ
ticket_of none = none
ticket_of (some t) = if lt_int t 0 then none else some t

module _ {F : Type 0} where
  abbrev pub leave : Bool → List (Action F) → Visit F
  leave been actions = record { way = returned; been_late_today = been; actions = actions }

  -- `handle_late_users`: the user is counted once a day.
  abbrev pub late_once : Bool → ℕ → List (Action F)
  late_once true service = []
  late_once false service = tell (late service) ∷ []

  -- The end of a service that went well.
  unfoldable pub served : PosteConfig → ℕ → Bool → Inputs F → ℕ → List (Action F) → Visit F
  served g service been i k actions =
      if is_over g i.minute_after
      then leave true (actions ++ late_once been service)
      else leave been (actions ++ free k ∷ [])

  -- `await_service_done` and what follows.
  unfoldable pub await_done :
      (ℕ → F)
      → PosteConfig
      → ℕ
      → Bool
      → Inputs F
      → ℕ
      → List (Action F)
      → Option (ServiceDone F)
      → Visit F
  unfolding served
  await_done of_int g service been i k actions none =
      leave been (actions ++ tell (failure service) ∷ [])
  await_done of_int g service been i k actions (some d) =
      let wait_time = of_int (sub_int i.minute_served i.start_wait) in
      if lt_int d.ticket_number 0
      then leave been (actions ++ tell (failure service) ∷ [])
      else served g service been i k
          (actions ++ tell (success d.service_id wait_time d.service_time) ∷ [])

  -- From the seat on.
  unfoldable pub use_seat : (ℕ → F) → PosteConfig → ℕ → Bool → Inputs F → ℕ → ℕ → Visit F
  unfolding await_done
  use_seat of_int g service been i ticket k =
      let asked = take k ∷ ask (i.operator_of k) ticket ∷ [] in
      if i.request_sent
      then await_done of_int g service been i k asked i.done
      else leave been (asked ++ tell (failure service) ∷ [])

  unfoldable pub go_on : (ℕ → F) → PosteConfig → ℕ → Bool → Inputs F → ℕ → Got → Visit F
  unfolding use_seat
  go_on of_int g service been i ticket (seat k) = use_seat of_int g service been i ticket k
  go_on of_int g service been i ticket too_late =
      leave true (late_once been service ++ tell (failure service) ∷ [])
  go_on of_int g service been i ticket interrupted = record {
    way = exited;
    been_late_today = been;
    actions = [];
  }
  go_on of_int g service been i ticket waiting = record {
    way = unfinished;
    been_late_today = been;
    actions = [];
  }

  -- With the ticket, and the valid seats.
  unfoldable pub choose_seat :
      (ℕ → F) → PosteConfig → ℕ → Bool → Inputs F → ℕ → List ℕ → Outcome (Visit F)
  unfolding go_on
  choose_seat of_int g service been i ticket [] = ok (leave been (tell (failure service) ∷ []))
  choose_seat of_int g service been i ticket (k ∷ valid) =
      get_seat g (k ∷ valid) i.tried i.waits >>= λ got.
      ok (go_on of_int g service been i ticket got)

  unfoldable pub with_ticket :
      (ℕ → F) → PosteConfig → ℕ → Bool → Inputs F → Option ℕ → Outcome (Visit F)
  unfolding choose_seat
  with_ticket of_int g service been i none = ok (leave been [])
  with_ticket of_int g service been i (some t) =
      find_valid_seats g.num_worker_seats i.searched service >>= λ valid.
      choose_seat of_int g service been i t valid

  -- A row of the statistics that is none of the six is outside of the arrays. The name of a service
  -- is read only where a failure for it follows.
  abbrev pub is_in_table : Action F → Bool
  is_in_table (tell (request service)) = ltb service num_service_types
  is_in_table (tell (failure service)) = ltb service num_service_types
  is_in_table (tell (success service wait_time service_time)) = ltb service num_service_types
  is_in_table (tell (late service)) = ltb service num_service_types
  is_in_table _ = true

  abbrev pub all_in_table : List (Action F) → Bool
  all_in_table [] = true
  all_in_table (a ∷ actions) = is_in_table a && all_in_table actions

  abbrev pub within_table : Visit F → Outcome (Visit F)
  within_table v = if all_in_table v.actions then ok v else fault

  -- The body of `handle_service`, but for the bounds of the tables. `of_int` is the conversion of
  -- int to double.
  unfoldable pub visit_service : (ℕ → F) → PosteConfig → ℕ → Bool → Inputs F → Outcome (Visit F)
  unfolding with_ticket
  visit_service of_int g service been i =
      if i.ticket_sent
      then with_ticket of_int g service been i (ticket_of i.ticket)
      else ok (leave been [])

  unfoldable pub handle_service : (ℕ → F) → PosteConfig → ℕ → Bool → Inputs F → Outcome (Visit F)
  unfolding visit_service
  handle_service of_int g service been i = visit_service of_int g service been i >>= within_table

  -- A visit after what was done before it.
  abbrev pub after : List (Action F) → Visit F → Visit F
  after before v = record v { actions = before ++ v.actions }

  -- Only a call that returns is followed by the next one.
  abbrev pub then_go_on : Visit F → Outcome (Visit F) → Outcome (Visit F)
  then_go_on v rest = elim v.way [
    | returned ↦ (rest >>= λ w. ok (after v.actions w))
    | exited ↦ ok v
    | unfinished ↦ ok v
  ]

  -- The loop of `day_loop` over the list of services, each with the minute that the test in front
  -- of it reads.
  unfoldable pub day_loop :
      (ℕ → F) → PosteConfig → Bool → List ℕ → List (ℕ × Inputs F) → Outcome (Visit F)
  day_loop of_int g been [] inputs = ok (leave been [])
  day_loop of_int g been (service ∷ services) [] =
      ok (record { way = unfinished; been_late_today = been; actions = [] })
  day_loop of_int g been (service ∷ services) ((minute, i) ∷ inputs) =
      let goes = handle_service of_int g service been i >>= λ v.
      then_go_on v (day_loop of_int g v.been_late_today services inputs) in
      if is_over g minute
      then within_table (leave true (late_once been service ++ tell (failure service) ∷ []))
      else goes

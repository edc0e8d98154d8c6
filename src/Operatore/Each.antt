-- ===== src/Operatore/Each.antt =====
-- src/operatore.c, a day of `main`: what holds of every deed that an operator may do on it.
use mathlib.Core.Bool.{false≢true}
use poste_italiane_simulatio.Prelude.{
  sym, ◌∙◌, refl, All-append, ℕ, ◌<◌, ◌≡◌, Bool, true, false, List, [], ◌∷◌, ◌++◌, All, Option,
  none, some, Outcome, ok, if◌then◌else◌, Always, Always-ok, Always-if, Always-bind,
}
use poste_italiane_simulatio.Config.Defs.{PosteConfig}
use poste_italiane_simulatio.Stats.Summary.{request, pause, worked}
use poste_italiane_simulatio.Stations.Defs.{find_seat, can_work_today}
use poste_italiane_simulatio.Stations.Below.{SeatBelow, find_seat-Below}
use poste_italiane_simulatio.Operatore.Service.{
  Sleep, rested, exited, sleeping, process_service, print_finished,
}
use poste_italiane_simulatio.Operatore.Shift.{
  Deed, tell, sit, rise, wake, wake_next, close_token, answer, lost, reply, Poll, timed_out, woken,
  Pass, Day, ticket_of, sender_of, is_request, Station, at_seat, day_over, waiting, goes_early,
  did_before, found_or, wait_for_station, after_answer, after_service, handle_request, shift,
  at_station, seat_or_wait, Inputs, get_station, work_loop, count_active, operator_day,
}

-- A property of deeds that each of an operator's deeds has: a seat of the first `n`, an update of the
-- statistics for its service, a token, or an answer.
pub record Allowed {F : Type 0} (P : Deed F → Type 0) (n service : ℕ) : Type 0 where
  pub on_sit : (i : ℕ) → i < n → P (sit i)
  pub on_rise : (i : ℕ) → i < n → P (rise i)
  pub on_wake : P wake
  pub on_wake_next : P wake_next
  pub on_close : P close_token
  pub on_request : P (tell (request service))
  pub on_pause : P (tell pause)
  pub on_worked : P (tell worked)
  pub on_answer : (user_pid ticket_number : ℕ) (time : F) → P (answer user_pid ticket_number time)

abbrev pub StationBelow : ℕ → Station → Type 0
StationBelow n (at_seat i) = i < n
StationBelow n _ = Unit

-- And it has the property where the answer of a pass is lost.
abbrev pub AllowsLost : {F : Type 0} → (Deed F → Type 0) → Pass → Type 0
AllowsLost P p = p.sent ≡ false → P (lost (sender_of p.mail) (ticket_of p.mail))

pub lost-AllowsLost :
    {F : Type 0} (P : Deed F → Type 0) (ps : List Pass)
    → ((user_pid ticket_number : ℕ) → P (lost user_pid ticket_number))
    → All (AllowsLost P) ps
lost-AllowsLost P [] h = tt
lost-AllowsLost P (p ∷ ps) h =
    ((λ e. h (sender_of p.mail) (ticket_of p.mail)), lost-AllowsLost P ps h)

pub sent-AllowsLost :
    {F : Type 0} (P : Deed F → Type 0) (ps : List Pass)
    → All (λ p. p.sent ≡ true) ps
    → All (AllowsLost P) ps
sent-AllowsLost P [] h = tt
sent-AllowsLost P (p ∷ ps) h = ((λ e. absurd (false≢true (sym e ∙ h.0))), sent-AllowsLost P ps h.1)

module _ {F : Type 0} (P : Deed F → Type 0) (n service : ℕ) (a : Allowed P n service) where
  -- A search, and a day.
  Searched : Station × List (Deed F) → Type 0
  Searched s = StationBelow n (s.0) × All P (s.1)

  AllOf : Day F → Type 0
  AllOf d = All P d.deeds

  found_or-All :
      (r : Option ℕ) (rest : Outcome (Station × List (Deed F)))
      → SeatBelow n r
      → Always Searched rest
      → Always Searched (found_or r rest)
  unfolding Searched
  found_or-All none rest h later = Always-bind Searched rest _ (λ s e.
      Always-ok Searched (s.0, wake ∷ wake_next ∷ s.1)
        ((later s e).0, (a.on_wake, (a.on_wake_next, (later s e).1))))
  found_or-All (some i) rest h later =
      Always-ok Searched (at_seat i, wake ∷ []) (h, (a.on_wake, tt))

  wait_for_station-All : (polls : List Poll) → Always Searched (wait_for_station n service polls)
  unfolding wait_for_station Searched
  wait_for_station-All [] = Always-ok Searched (waiting, []) (tt, tt)
  wait_for_station-All (timed_out true ∷ polls) =
      Always-ok Searched (day_over, close_token ∷ []) (tt, (a.on_close, tt))
  wait_for_station-All (timed_out false ∷ polls) = wait_for_station-All polls
  wait_for_station-All (woken st ∷ polls) =
      Always-bind Searched (find_seat n st service) _
        (λ r e. found_or-All r _ (find_seat-Below n st service r e) (wait_for_station-All polls))

  after_answer-All :
      (g : PosteConfig) (pauses seat luck : ℕ) (rest : Outcome (Day F))
      → seat < n
      → Always AllOf rest
      → Always AllOf (after_answer g pauses seat luck rest)
  unfolding after_answer AllOf
  after_answer-All g pauses seat luck rest h later =
      Always-if AllOf (goes_early g pauses luck) _ _
        (Always-ok AllOf _ (a.on_rise seat h, (a.on_pause, tt))) later

  reply-Allowed :
      (p : Pass) (time : F) (sent : Bool) → AllowsLost P p → p.sent ≡ sent → P (reply p time)
  reply-Allowed p time true l e = rw e (a.on_answer (sender_of p.mail) (ticket_of p.mail) time)
  reply-Allowed p time false l e = rw e (l e)

  after_service-All :
      (g : PosteConfig) (pauses seat : ℕ) (p : Pass) (time : F) (end : Sleep)
      (rest : Outcome (Day F))
      → AllowsLost P p
      → seat < n
      → Always AllOf rest
      → Always AllOf (after_service g pauses seat p time end rest)
  unfolding after_service AllOf
  after_service-All g pauses seat p time rested rest l h later =
      Always-bind AllOf (after_answer g pauses seat p.luck rest) _ (λ d e.
        Always-ok AllOf (did_before (reply p time ∷ []) d) (
          reply-Allowed p time p.sent l refl,
          after_answer-All g pauses seat p.luck rest h later d e,
        ))
  after_service-All g pauses seat p time exited rest l h later = Always-ok AllOf _ tt
  after_service-All g pauses seat p time sleeping rest l h later = Always-ok AllOf _ tt

  handle_request-All :
      (ratio : ℕ → ℕ → F) (g : PosteConfig) (pauses seat : ℕ) (p : Pass) (rest : Outcome (Day F))
      → AllowsLost P p
      → seat < n
      → Always AllOf rest
      → Always AllOf (handle_request ratio g service pauses seat p rest)
  unfolding handle_request AllOf
  handle_request-All ratio g pauses seat p rest l h later =
      Always-bind AllOf (process_service g.minute_duration service p.duration p.naps) _ (λ s _.
        Always-bind AllOf (print_finished s.1.0 s.0 g.minute_duration) _ (λ _ _.
          Always-bind AllOf (after_service g pauses seat p (ratio s.0 g.minute_duration) s.1.0 rest)
            _
            (λ d e.
              Always-ok AllOf (did_before (tell (request service) ∷ []) d)
                (a.on_request, after_service-All g pauses seat p _ s.1.0 rest l h later d e))))

  shift-All :
      (ratio : ℕ → ℕ → F) (g : PosteConfig) (pauses seat : ℕ) (ps : List Pass)
      → All (AllowsLost P) ps
      → seat < n
      → Always AllOf (shift ratio g service pauses seat ps)
  unfolding shift AllOf
  shift-All ratio g pauses seat [] l h = Always-ok AllOf _ tt
  shift-All ratio g pauses seat (p ∷ ps) l h =
      Always-if AllOf p.closed _ _ (Always-ok AllOf _ (a.on_close, (a.on_rise seat h, tt))) (
        Always-if AllOf (is_request p.mail) _ _
          (handle_request-All ratio g pauses seat p _ l.0 h
            (shift-All ratio g pauses seat ps l.1 h))
          (shift-All ratio g pauses seat ps l.1 h))

  at_station-All :
      (ratio : ℕ → ℕ → F) (g : PosteConfig) (pauses : ℕ) (ps : List Pass)
      (s : Station × List (Deed F))
      → All (AllowsLost P) ps
      → Searched s
      → Always AllOf (at_station ratio g service pauses ps s)
  unfolding at_station AllOf Searched
  at_station-All ratio g pauses ps (at_seat i, deeds) l h =
      Always-bind AllOf (shift ratio g service pauses i ps) _ (λ d e.
        Always-ok AllOf (did_before (deeds ++ sit i ∷ []) d) (
          All-append P (deeds ++ sit i ∷ []) d.deeds
            (All-append P deeds (sit i ∷ []) h.1 (a.on_sit i h.0, tt))
            (shift-All ratio g pauses i ps l h.0 d e)))
  at_station-All ratio g pauses ps (day_over, deeds) l h = Always-ok AllOf _ h.1
  at_station-All ratio g pauses ps (waiting, deeds) l h = Always-ok AllOf _ h.1

  seat_or_wait-All :
      (r : Option ℕ) (wait : Outcome (Station × List (Deed F)))
      → SeatBelow n r
      → Always Searched wait
      → Always Searched (seat_or_wait r wait)
  unfolding Searched
  seat_or_wait-All none wait h later = later
  seat_or_wait-All (some i) wait h later = Always-ok Searched (at_seat i, []) (h, tt)

module _ {F : Type 0} (P : Deed F → Type 0) (g : PosteConfig) (service : ℕ)
    (a : Allowed P g.num_worker_seats service) where
  get_station-All :
      (i : Inputs) → Always (Searched P g.num_worker_seats service a) (get_station g service i)
  unfolding get_station
  get_station-All i =
      Always-bind (Searched P g.num_worker_seats service a)
        (find_seat g.num_worker_seats i.stations_first service) _
        (λ r e.
          seat_or_wait-All P g.num_worker_seats service a r _
            (find_seat-Below g.num_worker_seats i.stations_first service r e)
            (wait_for_station-All P g.num_worker_seats service a i.polls))

  work_loop-All :
      (ratio : ℕ → ℕ → F) (pauses : ℕ) (i : Inputs)
      → All (AllowsLost P) i.passes
      → Always (AllOf P g.num_worker_seats service a) (work_loop ratio g service pauses i)
  unfolding work_loop AllOf
  work_loop-All ratio pauses i l =
      Always-bind (AllOf P g.num_worker_seats service a)
        (can_work_today g.num_worker_seats i.stations_today service) _
        (λ can _.
          Always-if (AllOf P g.num_worker_seats service a) can _ _
            (Always-bind (AllOf P g.num_worker_seats service a) (get_station g service i) _ (λ s e.
              at_station-All P g.num_worker_seats service a ratio g pauses i.passes s l
                (get_station-All i s e)))
            (Always-ok (AllOf P g.num_worker_seats service a) _ tt))

  active-All : (b : Bool) → All P (if b then tell worked ∷ [] else [])
  active-All true = (a.on_worked, tt)
  active-All false = tt

  pub operator_day-All :
      (ratio : ℕ → ℕ → F) (pauses : ℕ) (i : Inputs) (d : Day F)
      → All (AllowsLost P) i.passes
      → operator_day ratio g service pauses i ≡ ok d
      → All P d.deeds
  unfolding operator_day AllOf
  operator_day-All ratio pauses i d l e =
      Always-bind (AllOf P g.num_worker_seats service a) (work_loop ratio g service pauses i) _
        (λ d' e'. Always-ok (AllOf P g.num_worker_seats service a) (count_active d') (
          All-append P d'.deeds _ (work_loop-All ratio pauses i l d' e')
            (active-All d'.worked_today)))
        d e

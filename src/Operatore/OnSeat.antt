-- ===== src/Operatore/OnSeat.antt =====
-- src/operatore.c, the loop of `work_loop`: an operator's time on a seat.
use poste_italiane_simulatio.Prelude.{
  ℕ, ◌+◌, ◌^◌, ◌≤◌, ◌<◌, ◌≡◌, ◌≢◌, refl, inl, inr, Bool, true, false, List, [], ◌∷◌, Outcome, ok,
  ◌>>=◌, incr, if◌then◌else◌, Bool-cases, arith,
}
use poste_italiane_simulatio.Config.Defs.{PosteConfig}
use poste_italiane_simulatio.Stats.Summary.{request, pause}
use poste_italiane_simulatio.Operatore.Service.{
  Sleep, rested, exited, sleeping, process_service_bounds, IsMinute, print_finished_total,
}
use poste_italiane_simulatio.Operatore.Shift.{
  Deed, tell, rise, close_token, reply, Pass, Way, returned, killed, unfinished, Day, is_request,
  did_before, goes_early, after_answer, after_service, handle_request, shift,
}
use poste_italiane_simulatio.Operatore.Deeds.{
  tally, is_sit, is_rise, is_wake, is_wake_next, is_answer, is_lost, tells_request, tells_pause,
  tells_worked,
}

module _ {F : Type 0} where
  -- A shift on a seat, from some number of pauses on: where it ends well, the seat is released once
  -- and each request counted has its answer, or the sending of it failed; and nobody sits down or waits in it.
  pub record IsShift (service pauses limit : ℕ) (d : Day F) : Type 0 where
    pub rises_once : d.way ≡ returned → tally is_rise d.deeds ≡ 1
    pub few_rises : tally is_rise d.deeds ≤ 1
    pub works : d.way ≡ returned → d.worked_today ≡ true
    pub answers :
        d.way ≡ returned
        → tally (tells_request service) d.deeds ≡ tally is_answer d.deeds + tally is_lost d.deeds
    pub no_sit : tally is_sit d.deeds ≡ 0
    pub no_wake : tally is_wake d.deeds ≡ 0
    pub no_wake_next : tally is_wake_next d.deeds ≡ 0
    pub no_worked : tally tells_worked d.deeds ≡ 0
    pub pauses_told : d.pauses_done ≡ pauses + tally tells_pause d.deeds
    pub pauses_left : d.pauses_done ≤ limit

  abbrev pub Ends : ℕ → ℕ → ℕ → Outcome (Day F) → Type 0
  Ends service pauses limit o = (d : Day F) × (o ≡ ok d) × IsShift service pauses limit d

  -- A shift that ends without coming to its end.
  cut_short :
      (service pauses limit : ℕ) (way : Way) (deeds : List (Deed F))
      → way ≢ returned
      → tally is_rise deeds ≡ 0
      → tally is_sit deeds ≡ 0
      → tally is_wake deeds ≡ 0
      → tally is_wake_next deeds ≡ 0
      → tally tells_worked deeds ≡ 0
      → tally tells_pause deeds ≡ 0
      → pauses ≤ limit
      → IsShift service pauses limit
          (record { way = way; worked_today = false; pauses_done = pauses; deeds = deeds })
  cut_short service pauses limit way deeds cut r s w n k p h = record {
    rises_once = λ e. absurd (cut e);
    few_rises = omega (arith, r);
    works = λ e. absurd (cut e);
    answers = λ e. absurd (cut e);
    no_sit = s;
    no_wake = w;
    no_wake_next = n;
    no_worked = k;
    pauses_told = omega (arith, p);
    pauses_left = h;
  }

  home-IsShift :
      (service pauses limit seat : ℕ)
      → pauses ≤ limit
      → IsShift service pauses limit (record {
        way = returned;
        worked_today = true;
        pauses_done = pauses;
        deeds = close_token ∷ rise seat ∷ [];
      })
  home-IsShift service pauses limit seat h = record {
    rises_once = λ e. refl;
    few_rises = omega arith;
    works = λ e. refl;
    answers = λ e. refl;
    no_sit = refl;
    no_wake = refl;
    no_wake_next = refl;
    no_worked = refl;
    pauses_told = omega arith;
    pauses_left = h;
  }

  early-IsShift :
      (g : PosteConfig) (service pauses seat luck : ℕ)
      → goes_early g pauses luck ≡ true
      → pauses ≤ g.nof_pause
      → g.nof_pause < 2 ^ 31
      → IsShift service pauses g.nof_pause (record {
        way = returned;
        worked_today = true;
        pauses_done = incr pauses;
        deeds = rise seat ∷ tell pause ∷ [];
      })
  early-IsShift g service pauses seat luck early h small = record {
    rises_once = λ e. refl;
    few_rises = omega arith;
    works = λ e. refl;
    answers = λ e. refl;
    no_sit = refl;
    no_wake = refl;
    no_wake_next = refl;
    no_worked = refl;
    pauses_told = omega arith;
    pauses_left = ground arith;
  }

  after_answer-Ends :
      (g : PosteConfig) (service pauses seat luck : ℕ) (rest : Outcome (Day F))
      → pauses ≤ g.nof_pause
      → g.nof_pause < 2 ^ 31
      → Ends service pauses g.nof_pause rest
      → Ends service pauses g.nof_pause (after_answer g pauses seat luck rest)
  unfolding after_answer
  after_answer-Ends g service pauses seat luck rest h small e =
      elim (Bool-cases (goes_early g pauses luck)) [
        | inl early ↦ (_, rw early, early-IsShift g service pauses seat luck early h small)
        | inr late ↦ (e.0, rw late e.1, e.2)
      ]

  answered-IsShift :
      (service pauses limit : ℕ) (p : Pass) (time : F) (d : Day F)
      → IsShift service pauses limit d
      → IsShift service pauses limit
          (did_before (tell (request service) ∷ []) (did_before (reply p time ∷ []) d))
  answered-IsShift service pauses limit p time d s = by_sending p.sent refl
    where
      by_sending :
          (sent : Bool)
          → p.sent ≡ sent
          → IsShift service pauses limit
              (did_before (tell (request service) ∷ []) (did_before (reply p time ∷ []) d))
      by_sending true e = record {
        rises_once = λ r. rw e (s.rises_once r);
        few_rises = rw e s.few_rises;
        works = s.works;
        answers = λ r. ground (arith, s.answers r);
        no_sit = rw e s.no_sit;
        no_wake = rw e s.no_wake;
        no_wake_next = rw e s.no_wake_next;
        no_worked = rw e s.no_worked;
        pauses_told = rw e s.pauses_told;
        pauses_left = s.pauses_left;
      }
      by_sending false e = record {
        rises_once = λ r. rw e (s.rises_once r);
        few_rises = rw e s.few_rises;
        works = s.works;
        answers = λ r. ground (arith, s.answers r);
        no_sit = rw e s.no_sit;
        no_wake = rw e s.no_wake;
        no_wake_next = rw e s.no_wake_next;
        no_worked = rw e s.no_worked;
        pauses_told = rw e s.pauses_told;
        pauses_left = s.pauses_left;
      }

  after_service-Ends :
      (g : PosteConfig) (service pauses seat : ℕ) (p : Pass) (time : F) (end : Sleep)
      (rest : Outcome (Day F))
      → pauses ≤ g.nof_pause
      → g.nof_pause < 2 ^ 31
      → Ends service pauses g.nof_pause rest
      → Ends service pauses g.nof_pause (
          after_service g pauses seat p time end rest >>= λ d.
          ok (did_before (tell (request service) ∷ []) d))
  unfolding after_service
  after_service-Ends g service pauses seat p time rested rest h small e =
      let (d, e', s) = after_answer-Ends g service pauses seat p.luck rest h small e in
      (_, rw e', answered-IsShift service pauses g.nof_pause p time d s)
  after_service-Ends g service pauses seat p time exited rest h small e = (
    _,
    refl,
    cut_short service pauses g.nof_pause killed _ (λ e. cc) refl refl refl refl refl refl h,
  )
  after_service-Ends g service pauses seat p time sleeping rest h small e = (
    _,
    refl,
    cut_short service pauses g.nof_pause unfinished _ (λ e. cc) refl refl refl refl refl refl h,
  )

  handle_request-Ends :
      (ratio : ℕ → ℕ → F) (g : PosteConfig) (service pauses seat : ℕ) (p : Pass)
      (rest : Outcome (Day F))
      → service < 6
      → IsMinute g.minute_duration
      → pauses ≤ g.nof_pause
      → g.nof_pause < 2 ^ 31
      → Ends service pauses g.nof_pause rest
      → Ends service pauses g.nof_pause (handle_request ratio g service pauses seat p rest)
  unfolding handle_request
  handle_request-Ends ratio g service pauses seat p rest six short h small e =
      let slept = process_service_bounds g.minute_duration service p.duration p.naps six short.1 in
      let (_, shown) = print_finished_total slept.2 slept.1 g.minute_duration short.0 in
      let (d, e', s) =
        after_service-Ends g service pauses seat p (ratio slept.1 g.minute_duration) slept.2 rest h
          small e in
      (d, rw (slept.5, shown) e', s)

  if_Ends :
      (service pauses limit : ℕ) (b : Bool) (x y : Outcome (Day F))
      → Ends service pauses limit x
      → Ends service pauses limit y
      → Ends service pauses limit (if b then x else y)
  if_Ends service pauses limit true x y ex ey = ex
  if_Ends service pauses limit false x y ex ey = ey

  pub shift-Ends :
      (ratio : ℕ → ℕ → F) (g : PosteConfig) (service pauses seat : ℕ) (ps : List Pass)
      → service < 6
      → IsMinute g.minute_duration
      → pauses ≤ g.nof_pause
      → g.nof_pause < 2 ^ 31
      → Ends service pauses g.nof_pause (shift ratio g service pauses seat ps)
  unfolding shift
  shift-Ends ratio g service pauses seat [] six short h small = (
    _,
    refl,
    cut_short service pauses g.nof_pause unfinished [] (λ e. cc) refl refl refl refl refl refl h,
  )
  shift-Ends ratio g service pauses seat (p ∷ ps) six short h small =
      let rest = shift-Ends ratio g service pauses seat ps six short h small in
      if_Ends service pauses g.nof_pause p.closed _ _
        (_, refl, home-IsShift service pauses g.nof_pause seat h)
        (if_Ends service pauses g.nof_pause (is_request p.mail) _ _
          (handle_request-Ends ratio g service pauses seat p _ six short h small rest) rest)

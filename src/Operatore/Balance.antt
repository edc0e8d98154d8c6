-- ===== src/Operatore/Balance.antt =====
-- src/operatore.c: what an operator's day leaves at the seats and in the statistics.
use poste_italiane_simulatio.Prelude.{
  ℕ, ◌+◌, ◌^◌, ◌≤◌, ◌<◌, ◌≡◌, ◌≢◌, refl, sym, ap, ◌∙◌, Bool, true, false, List, [], ◌∷◌, ◌++◌, All,
  Outcome, ok, ◌>>=◌, if◌then◌else◌, length, arith,
}
use poste_italiane_simulatio.Config.Defs.{PosteConfig}
use poste_italiane_simulatio.Stats.Summary.{worked}
use poste_italiane_simulatio.Stations.Search.{find_seat-First, can_work_today_total}
use poste_italiane_simulatio.Operatore.Shift.{
  Deed, tell, sit, Pass, Way, returned, unfinished, Day, Station, at_seat, day_over, waiting,
  did_before, at_station, Inputs, get_station, work_loop, count_active, operator_day,
}
use poste_italiane_simulatio.Operatore.Service.{IsMinute}
use poste_italiane_simulatio.Operatore.Deeds.{
  tally, tally-append, is_sit, is_rise, is_wake, is_wake_next, is_answer, is_lost, tells_request,
  tells_pause, tells_worked,
}
use poste_italiane_simulatio.Operatore.Each.{Allowed, sent-AllowsLost, operator_day-All}
use poste_italiane_simulatio.Operatore.OnSeat.{IsShift, shift-Ends}
use poste_italiane_simulatio.Operatore.Search.{
  FitsPoll, IsSearch, IsSearch-none, wait_for_station-Finds, seat_or_wait-Finds,
}

module _ {F : Type 0} where
  -- A day of an operator of this service.
  pub record IsBalanced (service pauses limit : ℕ) (d : Day F) : Type 0 where
    pub sits_if_works : d.way ≡ returned → tally is_sit d.deeds ≡ (if d.worked_today then 1 else 0)
    pub seat_back : d.way ≡ returned → tally is_rise d.deeds ≡ tally is_sit d.deeds
    pub one_seat : (tally is_sit d.deeds ≤ 1) × (tally is_rise d.deeds ≤ tally is_sit d.deeds)
    pub all_answered :
        d.way ≡ returned
        → tally (tells_request service) d.deeds ≡ tally is_answer d.deeds + tally is_lost d.deeds
    pub counted : tally tells_worked d.deeds ≡ (if d.worked_today then 1 else 0)
    pub tokens_back :
        d.way ≡ returned
        → tally is_wake d.deeds ≤ tally is_wake_next d.deeds + tally is_rise d.deeds
    pub pauses_told : d.pauses_done ≡ pauses + tally tells_pause d.deeds
    pub pauses_left : d.pauses_done ≤ limit

  active : Bool → List (Deed F)
  active b = if b then tell worked ∷ [] else []

  tally-day :
      (p : Deed F → Bool) (deeds : List (Deed F)) (i : ℕ) (d : Day F)
      → tally p (count_active (did_before (deeds ++ sit i ∷ []) d)).deeds
        ≡ tally p deeds + tally p (sit i ∷ []) + tally p d.deeds + tally p (active d.worked_today)
  unfolding active
  tally-day p deeds i d = omega (
    arith,
    tally-append p (deeds ++ sit i ∷ []) d.deeds,
    tally-append p deeds (sit i ∷ []),
    tally-append p ((deeds ++ sit i ∷ []) ++ d.deeds)
        (if d.worked_today then tell worked ∷ [] else []),
  )

  -- Only the count of active operators sees `active`.
  quiet : (p : Deed F → Bool) (b : Bool) → p (tell worked) ≡ false → tally p (active b) ≡ 0
  unfolding active
  quiet p true h = rw h
  quiet p false h = refl

  seen :
      (d : Day F) → tally tells_worked (active d.worked_today) ≡ (if d.worked_today then 1 else 0)
  unfolding active
  seen d = ground arith

  sat-IsBalanced :
      (service pauses limit i : ℕ) (deeds : List (Deed F)) (d : Day F)
      → IsSearch (at_seat i, deeds)
      → IsShift service pauses limit d
      → IsBalanced service pauses limit (count_active (did_before (deeds ++ sit i ∷ []) d))
  sat-IsBalanced service pauses limit i deeds d s t = record {
    sits_if_works = λ e. sits ∙ sym (ap (λ b. if b then 1 else 0) (t.works e));
    seat_back = λ e. omega (arith, sits, rises, t.rises_once e);
    one_seat = (omega (arith, sits), omega (arith, sits, rises, t.few_rises));
    all_answered = λ e. omega (
      arith,
      t.answers e,
      s.no_request service,
      s.no_answer,
      tally-day (tells_request service) deeds i d,
      quiet (tells_request service) d.worked_today refl,
      tally-day is_answer deeds i d,
      quiet is_answer d.worked_today refl,
      s.no_lost,
      tally-day is_lost deeds i d,
      quiet is_lost d.worked_today refl,
    );
    counted = omega (arith, s.no_worked, t.no_worked, tally-day tells_worked deeds i d, seen d);
    tokens_back = λ e. omega (
      arith,
      rises,
      t.rises_once e,
      s.tokens,
      t.no_wake,
      t.no_wake_next,
      tally-day is_wake deeds i d,
      quiet is_wake d.worked_today refl,
      tally-day is_wake_next deeds i d,
      quiet is_wake_next d.worked_today refl,
    );
    pauses_told = omega (
      arith,
      t.pauses_told,
      s.no_pause,
      tally-day tells_pause deeds i d,
      quiet tells_pause d.worked_today refl,
    );
    pauses_left = t.pauses_left;
  }
    where
      sits : tally is_sit (count_active (did_before (deeds ++ sit i ∷ []) d)).deeds ≡ 1
      sits =
          omega (
            arith,
            s.no_sit,
            t.no_sit,
            tally-day is_sit deeds i d,
            quiet is_sit d.worked_today refl,
          )

      rises :
          tally is_rise (count_active (did_before (deeds ++ sit i ∷ []) d)).deeds
          ≡ tally is_rise d.deeds
      rises =
          omega (arith, s.no_rise, tally-day is_rise deeds i d, quiet is_rise d.worked_today refl)

  -- A day with no seat.
  idle-IsBalanced :
      (service pauses limit : ℕ) (way : Way) (station : Station) (deeds : List (Deed F))
      → IsSearch (station, deeds)
      → ((i : ℕ) → station ≢ at_seat i)
      → pauses ≤ limit
      → IsBalanced service pauses limit (
          count_active
            (record { way = way; worked_today = false; pauses_done = pauses; deeds = deeds }))
  idle-IsBalanced service pauses limit way station deeds s none_found h = record {
    sits_if_works = λ e. omega (arith, s.no_sit, none_told is_sit);
    seat_back = λ e. omega (arith, s.no_sit, s.no_rise, none_told is_sit, none_told is_rise);
    one_seat = (
      omega (arith, s.no_sit, none_told is_sit),
      omega (arith, s.no_sit, s.no_rise, none_told is_sit, none_told is_rise),
    );
    all_answered = λ e. omega (
      arith,
      s.no_request service,
      s.no_answer,
      none_told (tells_request service),
      none_told is_answer,
      s.no_lost,
      none_told is_lost,
    );
    counted = omega (arith, s.no_worked, none_told tells_worked);
    tokens_back =
        λ e. omega (arith, s.fruitless none_found, none_told is_wake, none_told is_wake_next);
    pauses_told = omega (arith, s.no_pause, none_told tells_pause);
    pauses_left = h;
  }
    where
      none_told : (p : Deed F → Bool) → tally p (deeds ++ []) ≡ tally p deeds
      none_told p = omega (arith, tally-append p deeds [])

  Balances : ℕ → ℕ → ℕ → Outcome (Day F) → Type 0
  Balances service pauses limit o =
      (d : Day F) × ((o >>= λ d. ok (count_active d)) ≡ ok d) × IsBalanced service pauses limit d

  at_station-Balances :
      (ratio : ℕ → ℕ → F) (g : PosteConfig) (service pauses : ℕ) (ps : List Pass)
      (s : Station × List (Deed F))
      → service < 6
      → IsMinute g.minute_duration
      → pauses ≤ g.nof_pause
      → g.nof_pause < 2 ^ 31
      → IsSearch s
      → Balances service pauses g.nof_pause (at_station ratio g service pauses ps s)
  unfolding Balances at_station
  at_station-Balances ratio g service pauses ps (at_seat i, deeds) six short h small s =
      let (d, e, t) = shift-Ends ratio g service pauses i ps six short h small in
      (_, rw e refl, sat-IsBalanced service pauses g.nof_pause i deeds d s t)
  at_station-Balances ratio g service pauses ps (day_over, deeds) six short h small s =
      (_, refl, idle-IsBalanced service pauses g.nof_pause returned day_over deeds s (λ i e. cc) h)
  at_station-Balances ratio g service pauses ps (waiting, deeds) six short h small s =
      (_, refl, idle-IsBalanced service pauses g.nof_pause unfinished waiting deeds s (λ i e. cc) h)

  work-Balances :
      (ratio : ℕ → ℕ → F) (g : PosteConfig) (service pauses : ℕ) (i : Inputs) (can : Bool)
      → service < 6
      → IsMinute g.minute_duration
      → pauses ≤ g.nof_pause
      → g.nof_pause < 2 ^ 31
      → g.num_worker_seats ≤ length i.stations_first.seats
      → All (FitsPoll g.num_worker_seats) i.polls
      → Balances service pauses g.nof_pause (
          if can
          then (get_station g service i >>= λ s. at_station ratio g service pauses i.passes s)
          else ok
              (record { way = returned; worked_today = false; pauses_done = pauses; deeds = [] }))
  unfolding get_station Balances
  work-Balances ratio g service pauses i true six short h small first later =
      let (r, e, _) = find_seat-First g.num_worker_seats i.stations_first service first in
      let (s, e', is) =
        seat_or_wait-Finds r _ (wait_for_station-Finds g.num_worker_seats service i.polls later) in
      let (d, e'', b) =
        at_station-Balances ratio g service pauses i.passes s six short h small is in
      (d, rw (e, e') e'', b)
  work-Balances ratio g service pauses i false six short h small first later = (
    _,
    refl,
    idle-IsBalanced service pauses g.nof_pause returned day_over [] (IsSearch-none day_over)
        (λ i e. cc) h,
  )

  operator_day_total :
      (ratio : ℕ → ℕ → F) (g : PosteConfig) (service pauses : ℕ) (i : Inputs)
      → service < 6
      → IsMinute g.minute_duration
      → pauses ≤ g.nof_pause
      → g.nof_pause < 2 ^ 31
      → g.num_worker_seats ≤ length i.stations_today.seats
      → g.num_worker_seats ≤ length i.stations_first.seats
      → All (FitsPoll g.num_worker_seats) i.polls
      → (d : Day F) × (operator_day ratio g service pauses i ≡ ok d)
        × IsBalanced service pauses g.nof_pause d
  unfolding operator_day work_loop Balances
  operator_day_total ratio g service pauses i six short h small today first later =
      let (can, e) = can_work_today_total g.num_worker_seats i.stations_today service today in
      rw e (work-Balances ratio g service pauses i can six short h small first later)

  -- Deeds other than lost answers.
  abbrev IsSent : Deed F → Type 0
  IsSent x = is_lost x ≡ false

  IsSent-Allowed : (n service : ℕ) → Allowed IsSent n service
  IsSent-Allowed n service = record {
    on_sit = λ i h. refl;
    on_rise = λ i h. refl;
    on_wake = refl;
    on_wake_next = refl;
    on_close = refl;
    on_request = refl;
    on_pause = refl;
    on_worked = refl;
    on_answer = λ user ticket time. refl;
  }

  none_lost : (deeds : List (Deed F)) → All IsSent deeds → tally is_lost deeds ≡ 0
  none_lost [] h = refl
  none_lost (x ∷ xs) h = rw h.0 (none_lost xs h.1)

  pub operator_day-IsBalanced :
      (ratio : ℕ → ℕ → F) (g : PosteConfig) (service pauses : ℕ) (i : Inputs)
      → service < 6
      → IsMinute g.minute_duration
      → pauses ≤ g.nof_pause
      → g.nof_pause < 2 ^ 31
      → g.num_worker_seats ≤ length i.stations_today.seats
      → g.num_worker_seats ≤ length i.stations_first.seats
      → All (FitsPoll g.num_worker_seats) i.polls
      → (d : Day F) × (operator_day ratio g service pauses i ≡ ok d)
        × IsBalanced service pauses g.nof_pause d
        × (All (λ p. p.sent ≡ true) i.passes
            → d.way ≡ returned
            → tally (tells_request service) d.deeds ≡ tally is_answer d.deeds)
  operator_day-IsBalanced ratio g service pauses i six short h small today first later =
      let (d, e, b) =
        operator_day_total ratio g service pauses i six short h small today first later in
      (
        d,
        e,
        b,
        (λ sent over.
            let none = none_lost d.deeds (
              operator_day-All IsSent g service (IsSent-Allowed g.num_worker_seats service) ratio
                pauses i d (sent-AllowsLost IsSent i.passes sent) e) in
            omega (arith, b.all_answered over, none)),
      )

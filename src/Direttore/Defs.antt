-- ===== src/Direttore/Defs.antt =====
-- src/direttore.c: `start_new_day`, `check_new_users_queue`, the loop of `main`, and the killing of
-- the children behind it. What other processes and the system do in a round of the loop is a
-- `Round`: they enter as its fields.
use poste_italiane_simulatio.Prelude.{
  ℕ, zero, suc, ◌+◌, ◌-◌, ◌%◌, Bool, not, ◌&&◌, List, [], ◌∷◌, ◌++◌, Outcome, ok, fault, ◌>>=◌,
  incr, add_int, mul_int, lt_int, ◌==◌, if◌then◌else◌,
}
use poste_italiane_simulatio.Config.Defs.{PosteConfig}
use poste_italiane_simulatio.Stats.Defs.{Double, PosteStats}
use poste_italiane_simulatio.Stats.Updates.{begin_day, set_minute}
use poste_italiane_simulatio.Stats.Summary.{Event, apply}
use poste_italiane_simulatio.Stations.Defs.{Stations, reset_seats}

abbrev pub day_to_minutes : ℕ → ℕ
day_to_minutes days = mul_int (mul_int days 24) 60

-- The rounds of `for (int i = 0; i < n; i++)`.
abbrev pub rounds_below : ℕ → ℕ
rounds_below n = if lt_int 0 n then n else 0

-- What `mq_receive` finds in the queue of new users: a request, none (ENOMSG), or an error.
pub data Mail : Type 0 where
  no_mail mail_error : Mail
  new_users : (sender_pid n : ℕ) → Mail

-- The `children` of `main`. `dangling` says that `realloc` has moved the block: the function keeps
-- the new address to itself, and `main` still has the old one.
pub record Children : Type 0 where
  pub pids : List ℕ
  pub dangling : Bool

pub record Director (F : Type 0) : Type 0 where
  pub config : PosteConfig
  pub minutes_elapsed : ℕ
  pub days_elapsed : ℕ
  pub stats : PosteStats F
  pub stations : Stations
  pub open_poste_event : ℕ
  pub close_poste_event : ℕ
  pub day_update_event : ℕ
  pub children : Children
  pub replies : List (ℕ × ℕ)  -- (receiver, status) of each response sent

-- What happens in one round outside the director: whether nanosleep fails, the other processes'
-- updates of the statistics before the tests on the clock, and on a new day those between
-- the test for too many late users and the reset, the stations as they leave them, the tokens that they take from the
-- three semaphores, the numbers of rand(), the mail, the pids of the processes started, whether
-- realloc moves the block, and what the uninitialised `req.sender_pid` holds.
pub record Round (F : Type 0) : Type 0 where
  pub sleep_fails : Bool
  pub updates : List (Event F)
  pub updates_at_midnight : List (Event F)
  pub stations : Stations
  pub opened : ℕ
  pub closed : ℕ
  pub told : ℕ
  pub rand : ℕ → ℕ
  pub mail : Mail
  pub pid_of : ℕ → ℕ
  pub moves : Bool
  pub garbage : ℕ

-- `for (...) children[(*idx)++] = start_process(UTENTE)`, the i-th process getting `pid_of i`.
unfoldable pub start_users : ℕ → ℕ → (ℕ → ℕ) → List ℕ
start_users zero i pid_of = []
start_users (suc n) i pid_of = pid_of i ∷ start_users n (suc i) pid_of

module _ {F : Type 0} where
  -- A request for a negative number starts nobody.
  unfoldable pub check_new_users_queue : Director F → Round F → Outcome (Director F)
  unfolding start_users
  check_new_users_queue d r = elim r.mail [
    | no_mail ↦ ok d
    | mail_error ↦ ok (record d { replies = d.replies ++ (r.garbage, 0) ∷ [] })
    | new_users sender_pid n ↦
        if d.children.dangling
        then fault
        else ok (record d {
          config = record d.config { num_users = add_int d.config.num_users n };
          children = record {
            pids = d.children.pids ++ start_users (rounds_below n) 0 r.pid_of;
            dangling = r.moves;
          };
          replies = d.replies ++ (sender_pid, 1) ∷ [];
        })
  ]

  -- The two tests on the shift: tokens for all who wait for the doors to open or to close.
  unfoldable pub ring_bells : Director F → Director F
  ring_bells d =
      let opening =
        d.minutes_elapsed == mul_int d.config.worker_shift_open 60
        && not (d.minutes_elapsed == 0) in
      let closing =
        d.minutes_elapsed == mul_int d.config.worker_shift_close 60
        && not (d.minutes_elapsed == 0) in
      record d {
        open_poste_event =
            if opening
            then d.open_poste_event
              + rounds_below (add_int d.config.num_operators d.config.num_users)
            else d.open_poste_event;
        close_poste_event =
            if closing
            then d.close_poste_event + rounds_below d.config.num_operators
            else d.close_poste_event;
      }

  -- The end of a round.
  unfoldable pub next_minute : Director F → Director F
  unfolding set_minute
  next_minute d = record d {
    minutes_elapsed = incr d.minutes_elapsed;
    stats = set_minute d.stats (incr d.minutes_elapsed);
  }

-- How a round leaves the loop of `main`: on, by the `break`, or out of the process.
pub data Turn (F : Type 0) : Type 0 where
  running exploded : Director F → Turn F
  exit_failure : Turn F

module _ {F : Type 0} where
  abbrev pub finish_round : Director F → Round F → Outcome (Turn F)
  finish_round d r = do d' ← check_new_users_queue d r; ok (running (next_minute d'))

  abbrev pub late_too_many : Director F → Bool
  late_too_many d = lt_int d.config.explode_max d.stats.today.late_users

  abbrev pub count_day : Director F → Director F
  count_day d = record d { days_elapsed = incr d.days_elapsed }

module _ {F : Type 0} ⦃dbl : Double F⦄ where
  unfoldable pub start_new_day : Director F → Round F → Outcome (Director F)
  unfolding begin_day
  start_new_day d r = do
    st ← reset_seats d.config.num_worker_seats r.rand d.stations
    ok (record d {
      stats = begin_day d.stats d.days_elapsed;
      stations = st;
      day_update_event =
          d.day_update_event + rounds_below (add_int d.config.num_users d.config.num_operators);
    })

  unfoldable pub apply_all : PosteStats F → List (Event F) → Outcome (PosteStats F)
  apply_all s [] = ok s
  apply_all s (e ∷ es) = do s' ← apply s e; apply_all s' es

  -- The other processes' part of a round. What they do behind the reset of a new day, or else behind
  -- the tests on the clock, is in that of the next round, or, after the last one, in `write_mode`.
  unfoldable pub interfere : Director F → Round F → Outcome (Director F)
  unfolding apply_all
  interfere d r = do
    s ← apply_all d.stats r.updates
    ok (record d {
      stats = s;
      stations = r.stations;
      open_poste_event = d.open_poste_event - r.opened;
      close_poste_event = d.close_poste_event - r.closed;
      day_update_event = d.day_update_event - r.told;
    })

  unfoldable pub interfere_at_midnight : Director F → Round F → Outcome (Director F)
  unfolding apply_all
  interfere_at_midnight d r = do
    s ← apply_all d.stats r.updates_at_midnight
    ok (record d { stats = s })

  -- The rest of the round on a day that begins.
  unfoldable pub midnight_round : Director F → Round F → Outcome (Turn F)
  midnight_round d r = interfere_at_midnight d r >>= λ d0.
      start_new_day d0 r >>= λ d'. finish_round (record d' { minutes_elapsed = 0 }) r

  -- `if (minutes_elapsed % 1440 == 0)`, with its `break`.
  unfoldable pub day_change : Director F → Round F → Outcome (Turn F)
  day_change d r =
      if late_too_many d then ok (exploded (count_day d)) else midnight_round (count_day d) r

  unfoldable pub minute_change : Director F → Round F → Outcome (Turn F)
  minute_change d r = if d.minutes_elapsed % 1440 == 0 then day_change d r else finish_round d r

  unfoldable pub awake_round : Director F → Round F → Outcome (Turn F)
  awake_round d r = interfere d r >>= λ d'. minute_change (ring_bells d') r

  -- The body of the loop of `main`.
  unfoldable pub tick : Director F → Round F → Outcome (Turn F)
  tick d r = if r.sleep_fails then ok exit_failure else awake_round d r

-- How `main` leaves its loop, if it does within the rounds that are given.
pub data Ending (F : Type 0) : Type 0 where
  unfinished finished exploded failed : Director F → Ending F

module _ {F : Type 0} ⦃dbl : Double F⦄ where
  -- `while (days_elapsed < g_config.sim_duration)`, where `go` is the rest of the loop.
  abbrev pub loop_on : Director F → (Director F → Outcome (Ending F)) → Turn F → Outcome (Ending F)
  loop_on d go (running d') = go d'
  loop_on d go (exploded d') = ok (exploded d')
  loop_on d go exit_failure = ok (failed d)

  unfoldable pub main_loop : Director F → List (Round F) → Outcome (Ending F)
  main_loop d [] =
      ok (if lt_int d.days_elapsed d.config.sim_duration then unfinished d else finished d)
  main_loop d (r ∷ rs) =
      let on = tick d r >>= loop_on d (λ d'. main_loop d' rs) in
      if lt_int d.days_elapsed d.config.sim_duration then on else ok (finished d)

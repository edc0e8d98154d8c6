-- ===== src/Direttore/Tests.antt =====
-- Examples of the theorems on the director. Times are whole numbers here.
use poste_italiane_simulatio.Prelude.{
  List, ◌<◌, ◌||◌, Bool, some, ℕ, ◌+◌, ◌≤◌, ◌≡◌, ◌≢◌, refl, [], ◌∷◌, ◌++◌, map, ok, arith, true,
  false, replicate,
}
use poste_italiane_simulatio.Config.Defs.{PosteConfig, default_config}
use poste_italiane_simulatio.Stats.Defs.{Double, no_stats}
use poste_italiane_simulatio.Stats.Updates.{begin_day, set_minute}
use poste_italiane_simulatio.Stations.Defs.{new_seat, Stations, reset_seats}
use poste_italiane_simulatio.Direttore.Defs.{
  no_mail, new_users, Director, Round, running, tick, Ending, finished, unfinished, main_loop,
  check_new_users_queue, ring_bells, next_minute, interfere, awake_round, minute_change, day_change,
  midnight_round, start_new_day, interfere_at_midnight, apply_all,
}
use poste_italiane_simulatio.Direttore.Clock.{clock, clock_step, SameLimits, tick-clock}
use poste_italiane_simulatio.Direttore.Duration.{IsFresh, Reaches, rounds_of, main_loop_duration}
use poste_italiane_simulatio.Direttore.Report.{explode, timeout, exit_mode}
use poste_italiane_simulatio.Direttore.Ending.{write_mode, write_mode-main_loop}
use poste_italiane_simulatio.Stats.Summary.{Event, late, apply}
use poste_italiane_simulatio.Stats.Updates.{count_late}
use poste_italiane_simulatio.Direttore.Children.{start_children}
use poste_italiane_simulatio.Config.Scan.{Bytes, str_eq}
use poste_italiane_simulatio.Config.Decimal.{print_decimal}
use poste_italiane_simulatio.Direttore.StatsFile.{
  stats_name, free_name, IsFirstFree, free_name-IsFirstFree,
}

instance abbrev whole : Double ℕ
whole = record { zero = 0; plus = λ x y. x + y }

abbrev dice : ℕ → ℕ
dice j = j + 1

abbrev stations : Stations
stations = record {
  seats = replicate 30 (new_seat 0);
  stations_event = 0;
  stations_freed_event = 0;
}

-- The default settings, for one day.
abbrev one_day : PosteConfig
one_day = record default_config { sim_duration = 1 }

abbrev director : Director ℕ
director = record {
  config = one_day;
  minutes_elapsed = 0;
  days_elapsed = 0;
  stats = no_stats;
  stations = stations;
  open_poste_event = 0;
  close_poste_event = 0;
  day_update_event = 0;
  children = start_children one_day dice;
  replies = [];
}

director-IsFresh : IsFresh director
director-IsFresh = record { at_zero = refl; some_days = omega arith; in_range = omega arith }

abbrev quiet_round : Round ℕ
quiet_round = record {
  sleep_fails = false;
  updates = [];
  updates_at_midnight = [];
  stations = stations;
  opened = 0;
  closed = 0;
  told = 0;
  rand = dice;
  mail = no_mail;
  pid_of = dice;
  moves = false;
  garbage = 0;
}

main_loop_duration_example :
    ((d' : Director ℕ)
      → main_loop director (quiet_round ∷ []) ≡ ok (finished d')
      → Reaches director (rounds_of 1) d' × (clock d' ≡ (1, 1)))
    × (rounds_of 1 ≤ 1
        → (d' : Director ℕ) → main_loop director (quiet_round ∷ []) ≢ ok (unfinished d'))
main_loop_duration_example = main_loop_duration director (quiet_round ∷ []) director-IsFresh

-- The director after that round.
abbrev after_a_day : Director ℕ
after_a_day = record director {
  minutes_elapsed = 1;
  days_elapsed = 1;
  stats = record no_stats { current_day = 1; current_minute = 1 };
  stations = record stations {
    seats =
        map (λ j. new_seat (dice j))
          (0 ∷ 1 ∷ 2 ∷ 3 ∷ 4 ∷ 5 ∷ 6 ∷ 7 ∷ 8 ∷ 9 ∷ 10 ∷ 11 ∷ 12 ∷ 13 ∷ 14 ∷ [])
        ++ replicate 15 (new_seat 0);
  };
  day_update_event = 15;
}

day_passes : main_loop director (quiet_round ∷ []) ≡ ok (finished after_a_day)
unfolding main_loop tick awake_round interfere ring_bells minute_change day_change midnight_round
    interfere_at_midnight start_new_day begin_day reset_seats check_new_users_queue next_minute
    set_minute
day_passes = refl

-- One user is late behind the last new day.
abbrev late_update : List (Event ℕ)
late_update = late 2 ∷ []

one_late_reported : write_mode after_a_day late_update ≡ ok timeout
unfolding write_mode apply_all apply count_late exit_mode
one_late_reported = refl

write_mode-main_loop_example :
    (main_loop director (quiet_round ∷ []) ≡ ok (Ending.exploded after_a_day) → timeout ≡ explode)
    × (main_loop director (quiet_round ∷ []) ≡ ok (finished after_a_day)
        → (1 ≤ one_day.explode_max → timeout ≡ timeout)
          × (one_day.explode_max < 1 → timeout ≡ explode))
write_mode-main_loop_example =
    write_mode-main_loop director after_a_day (quiet_round ∷ []) late_update timeout
      director-IsFresh (omega arith) (refl, tt) (omega arith) one_late_reported

-- Ten in the morning of the first day.
abbrev at_ten : Director ℕ
at_ten = record director { minutes_elapsed = 600; days_elapsed = 1 }

abbrev one_past_ten : Director ℕ
one_past_ten = record at_ten {
  minutes_elapsed = 601;
  stats = record no_stats { current_minute = 601 };
}

at_ten_ticks : tick at_ten quiet_round ≡ ok (running one_past_ten)
unfolding tick awake_round interfere ring_bells minute_change check_new_users_queue next_minute
    set_minute
at_ten_ticks = refl

tick-clock_example :
    (clock one_past_ten ≡ clock_step (clock at_ten)) × SameLimits at_ten one_past_ten
tick-clock_example = tick-clock at_ten quiet_round at_ten_ticks

abbrev mail_round : Round ℕ
mail_round = record quiet_round { mail = new_users 77 3; moves = true }

-- The first two names are taken.
abbrev folder : Bytes → Bool
folder name = str_eq name (stats_name 0) || str_eq name (stats_name 1)

third_free : folder (stats_name 2) ≡ false
unfolding stats_name print_decimal str_eq
third_free = refl

free_name-IsFirstFree_example :
    (c : ℕ) × (free_name folder 3 ≡ some c) × (c ≤ 2) × IsFirstFree folder 0 c
free_name-IsFirstFree_example = free_name-IsFirstFree folder 2 third_free

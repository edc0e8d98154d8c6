-- ===== src/Direttore/Clock.antt =====
-- src/direttore.c: how the clock of `main` moves, and when its loop ends.
use poste_italiane_simulatio.Prelude.{
  ℕ, ◌%◌, ◌≡◌, ok, ◌>>=◌, >>=-eq-ok, incr, ◌==◌, if◌then◌else◌, if_cases, inl, inr, arith,
}
use poste_italiane_simulatio.Stats.Defs.{Double}
use poste_italiane_simulatio.Direttore.Defs.{
  Director, Round, running, exploded, exit_failure, check_new_users_queue, ring_bells, next_minute,
  start_new_day, interfere, interfere_at_midnight, finish_round, midnight_round, late_too_many,
  count_day, day_change, minute_change, awake_round, tick,
}

-- The minute of the day and the day, and one round of them.
abbrev pub clock_step : ℕ × ℕ → ℕ × ℕ
clock_step (m, days) = if m % 1440 == 0 then (1, incr days) else (incr m, days)

module _ {F : Type 0} where
  abbrev pub clock : Director F → ℕ × ℕ
  clock d = (d.minutes_elapsed, d.days_elapsed)

  -- A round changes no setting that ends the loop.
  abbrev pub SameLimits : Director F → Director F → Type 0
  SameLimits d d' =
      (d'.config.sim_duration ≡ d.config.sim_duration)
      × (d'.config.explode_max ≡ d.config.explode_max)

  check_new_users_queue-clock :
      {d' : Director F} (d : Director F) (r : Round F)
      → check_new_users_queue d r ≡ ok d'
      → (clock d' ≡ clock d) × SameLimits d d'
  unfolding check_new_users_queue
  check_new_users_queue-clock d r e = ground arith

module _ {F : Type 0} ⦃dbl : Double F⦄ where
  interfere-clock :
      {d' : Director F} (d : Director F) (r : Round F)
      → interfere d r ≡ ok d'
      → (clock d' ≡ clock d) × SameLimits d d'
  unfolding interfere
  interfere-clock d r e = ground arith

  start_new_day-clock :
      {d' : Director F} (d : Director F) (r : Round F)
      → start_new_day d r ≡ ok d'
      → (clock d' ≡ clock d) × SameLimits d d'
  unfolding start_new_day
  start_new_day-clock d r e = ground arith

  finish_round-clock :
      {d' : Director F} (d : Director F) (r : Round F)
      → (check_new_users_queue d r >>= λ d'. ok (running (next_minute d'))) ≡ ok (running d')
      → (clock d' ≡ (incr d.minutes_elapsed, d.days_elapsed)) × SameLimits d d'
  finish_round-clock {d'} d r e =
      let (d1, e1, last) =
        >>=-eq-ok (check_new_users_queue d r) (λ d'. ok (running (next_minute d'))) e in
      let same = check_new_users_queue-clock d r e1 in unfold next_minute in ground (arith, same)

  interfere_at_midnight-clock :
      {d' : Director F} (d : Director F) (r : Round F)
      → interfere_at_midnight d r ≡ ok d'
      → (clock d' ≡ clock d) × SameLimits d d'
  unfolding interfere_at_midnight
  interfere_at_midnight-clock d r e = ground arith

  midnight_round-clock :
      {d' : Director F} (d : Director F) (r : Round F)
      → midnight_round d r ≡ ok (running d')
      → (clock d' ≡ (1, d.days_elapsed)) × SameLimits d d'
  unfolding midnight_round
  midnight_round-clock {d'} d r e =
      let (d0, e0, begun) =
        >>=-eq-ok (interfere_at_midnight d r)
          (λ (d0 : Director F). start_new_day d0 r >>= λ (d1 : Director F).
            finish_round (record d1 { minutes_elapsed = 0 }) r)
          e in
      let (d1, e1, last) =
        >>=-eq-ok (start_new_day d0 r)
          (λ (d1 : Director F). finish_round (record d1 { minutes_elapsed = 0 }) r) begun in
      let before = interfere_at_midnight-clock d r e0 in
      let same = start_new_day-clock d0 r e1 in
      let ticked = finish_round-clock (record d1 { minutes_elapsed = 0 }) r last in
      ground (arith, before, same, ticked)

  day_change-clock :
      {d' : Director F} (d : Director F) (r : Round F)
      → day_change d r ≡ ok (running d')
      → (clock d' ≡ (1, incr d.days_elapsed)) × SameLimits d d'
  unfolding day_change
  day_change-clock {d'} d r e =
      elim (if_cases (late_too_many d) (ok (exploded (count_day d)))
        (midnight_round (count_day d) r) e) [
          | inl (_, stop) ↦ cc stop
          | inr (_, on) ↦ midnight_round-clock (count_day d) r on
        ]

  minute_change-clock :
      {d' : Director F} (d : Director F) (r : Round F)
      → minute_change d r ≡ ok (running d')
      → (clock d' ≡ clock_step (clock d)) × SameLimits d d'
  unfolding minute_change
  minute_change-clock {d'} d r e =
      elim (if_cases (d.minutes_elapsed % 1440 == 0) (day_change d r) (finish_round d r) e) [
        | inl (midnight, on) ↦ rw midnight (day_change-clock d r on)
        | inr (other, on) ↦ rw other (finish_round-clock d r on)
      ]

  awake_round-clock :
      {d' : Director F} (d : Director F) (r : Round F)
      → awake_round d r ≡ ok (running d')
      → (clock d' ≡ clock_step (clock d)) × SameLimits d d'
  unfolding awake_round
  awake_round-clock {d'} d r e =
      let (d1, e1, last) =
        >>=-eq-ok (interfere d r) (λ (d1 : Director F). minute_change (ring_bells d1) r) e in
      let same = interfere-clock d r e1 in
      let ticked = minute_change-clock (ring_bells d1) r last in
      unfold ring_bells in ground (arith, same, ticked)

  -- Whatever other processes do meanwhile, a round that leaves the loop running moves the clock by
  -- one minute: at a minute that is a multiple of 1440 to the first minute of the next day, and
  -- otherwise to the next minute of the same day; and it leaves the length of the simulation and
  -- the limit on late users as they are.
  pub tick-clock :
      {d' : Director F} (d : Director F) (r : Round F)
      → tick d r ≡ ok (running d')
      → (clock d' ≡ clock_step (clock d)) × SameLimits d d'
  unfolding tick
  tick-clock {d'} d r e = elim (if_cases r.sleep_fails (ok exit_failure) (awake_round d r) e) [
    | inl (_, stop) ↦ cc stop
    | inr (_, on) ↦ awake_round-clock d r on
  ]

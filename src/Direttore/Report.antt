-- ===== src/Direttore/Report.antt =====
-- src/direttore.c: `write_stats` decides how the simulation ended from the statistics, and picks
-- the name of its file; the loop of `main` knows how it ended.
use mathlib.Core.Path.{subst}
use mathlib.Core.Bool.{false≢true}
use poste_italiane_simulatio.Prelude.{
  ℕ, zero, suc, ◌-◌, ◌*◌, ◌%◌, ◌≡◌, ◌≢◌, refl, sym, ap, ◌∙◌, ◌⊎◌, true, List, [], ◌∷◌, Outcome, ok,
  ◌>>=◌, >>=-eq-ok, lt_int, ◌==◌, if◌then◌else◌, if_cases, inl, inr, arith,
}
use poste_italiane_simulatio.Config.Defs.{PosteConfig}
use poste_italiane_simulatio.Stats.Defs.{Double}
use poste_italiane_simulatio.Direttore.Defs.{
  Director, Round, Turn, running, exploded, exit_failure, check_new_users_queue, ring_bells,
  next_minute, start_new_day, interfere, interfere_at_midnight, finish_round, midnight_round,
  late_too_many, count_day, day_change, minute_change, awake_round, tick, Ending, finished, loop_on,
  main_loop,
}
use poste_italiane_simulatio.Direttore.Duration.{
  clock_after, IsFresh, Reaches, start, round, Reaches-clock, main_loop_duration,
}

pub data ExitMode : Type 0 where
  explode timeout : ExitMode

-- The line ExitMode of the report.
unfoldable pub exit_mode : PosteConfig → ℕ → ExitMode
exit_mode g late_users = if lt_int g.explode_max late_users then explode else timeout

ending_exploded-injective :
    {F : Type 0} (a b : Director F) → ok (Ending.exploded a) ≡ ok (Ending.exploded b) → a ≡ b
ending_exploded-injective a b e = cc

clock_after-midnight : (k q : ℕ) → k ≡ q * 1440 → ((clock_after k).0 % 1440 == 0) ≡ true
clock_after-midnight zero q h = refl
clock_after-midnight (suc k) q h = ground arith

module _ {F : Type 0} where
  abbrev pub reported : Director F → ExitMode
  reported d = exit_mode d.config d.stats.today.late_users

  check_new_users_queue-stats :
      {d' : Director F} (d : Director F) (r : Round F)
      → check_new_users_queue d r ≡ ok d'
      → d'.stats ≡ d.stats
  unfolding check_new_users_queue
  check_new_users_queue-stats d r e = ground arith

  finish_round-late :
      {d' : Director F} (d : Director F) (r : Round F)
      → finish_round d r ≡ ok (running d')
      → d'.stats.today.late_users ≡ d.stats.today.late_users
  unfolding next_minute
  finish_round-late {d'} d r e =
      let (d1, e1, last) =
        >>=-eq-ok (check_new_users_queue d r) (λ (d' : Director F). ok (running (next_minute d')))
          e in
      let same = check_new_users_queue-stats d r e1 in ground (arith, same)

module _ {F : Type 0} ⦃dbl : Double F⦄ where
  start_new_day-late :
      {d' : Director F} (d : Director F) (r : Round F)
      → start_new_day d r ≡ ok d'
      → d'.stats.today.late_users ≡ 0
  unfolding start_new_day
  start_new_day-late d r e = ground arith

  midnight_round-late :
      {d' : Director F} (d : Director F) (r : Round F)
      → midnight_round d r ≡ ok (running d')
      → d'.stats.today.late_users ≡ 0
  unfolding midnight_round
  midnight_round-late d r e =
      let (d0, e0, begun) =
        >>=-eq-ok (interfere_at_midnight d r)
          (λ (d0 : Director F). start_new_day d0 r >>= λ (d1 : Director F).
            finish_round (record d1 { minutes_elapsed = 0 }) r)
          e in
      let (d1, e1, last) =
        >>=-eq-ok (start_new_day d0 r)
          (λ (d1 : Director F). finish_round (record d1 { minutes_elapsed = 0 }) r) begun in
      finish_round-late (record d1 { minutes_elapsed = 0 }) r last ∙ start_new_day-late d0 r e1

  not_running : (d d' : Director F) → ok (exploded d) ≢ ok (running d')
  not_running d d' e = cc e

  -- A round that reaches midnight and goes on leaves no late users.
  minute_change-late :
      {d' : Director F} (d : Director F) (r : Round F)
      → (d.minutes_elapsed % 1440 == 0) ≡ true
      → minute_change d r ≡ ok (running d')
      → d'.stats.today.late_users ≡ 0
  unfolding minute_change day_change
  minute_change-late {d'} d r midnight e =
      elim (if_cases (d.minutes_elapsed % 1440 == 0) (day_change d r) (finish_round d r) e) [
        | inl (_, on) ↦
            elim (if_cases (late_too_many d) (ok (exploded (count_day d)))
              (midnight_round (count_day d) r) on) [
                | inl (_, stop) ↦ absurd (not_running _ _ stop)
                | inr (_, go) ↦ midnight_round-late (count_day d) r go
              ]
        | inr (other, _) ↦ absurd (false≢true (sym other ∙ midnight))
      ]

  interfere-minute :
      {d' : Director F} (d : Director F) (r : Round F)
      → interfere d r ≡ ok d'
      → d'.minutes_elapsed ≡ d.minutes_elapsed
  unfolding interfere
  interfere-minute d r e = ground arith

  tick-late :
      {d' : Director F} (d : Director F) (r : Round F)
      → (d.minutes_elapsed % 1440 == 0) ≡ true
      → tick d r ≡ ok (running d')
      → d'.stats.today.late_users ≡ 0
  unfolding tick awake_round
  tick-late {d'} d r midnight e =
      elim (if_cases r.sleep_fails (ok exit_failure) (awake_round d r) e) [
        | inl (_, stop) ↦ cc stop
        | inr (_, on) ↦
            let (d1, e1, last) =
              >>=-eq-ok (interfere d r) (λ (d1 : Director F). minute_change (ring_bells d1) r) on in
            let same : (ring_bells d1).minutes_elapsed ≡ d.minutes_elapsed =
              unfold ring_bells in interfere-minute d r e1 in
            minute_change-late (ring_bells d1) r (ap (λ m. m % 1440 == 0) same ∙ midnight) last
      ]

  finish_round_goes_on : (d d' : Director F) (r : Round F) → finish_round d r ≢ ok (exploded d')
  finish_round_goes_on d d' r e =
      let (d1, e1, last) =
        >>=-eq-ok (check_new_users_queue d r) (λ (d' : Director F). ok (running (next_minute d')))
          e in
      absurd (not_running _ _ (sym last))

  midnight_round_goes_on : (d d' : Director F) (r : Round F) → midnight_round d r ≢ ok (exploded d')
  unfolding midnight_round
  midnight_round_goes_on d d' r e =
      let (d0, e0, begun) =
        >>=-eq-ok (interfere_at_midnight d r)
          (λ (d0 : Director F). start_new_day d0 r >>= λ (d1 : Director F).
            finish_round (record d1 { minutes_elapsed = 0 }) r)
          e in
      let (d1, e1, last) =
        >>=-eq-ok (start_new_day d0 r)
          (λ (d1 : Director F). finish_round (record d1 { minutes_elapsed = 0 }) r) begun in
      finish_round_goes_on (record d1 { minutes_elapsed = 0 }) d' r last

  exploded-injective : (a b : Director F) → ok (Turn.exploded a) ≡ ok (exploded b) → a ≡ b
  exploded-injective a b e = cc

  exit_mode-explode : (d : Director F) → late_too_many d ≡ true → reported (count_day d) ≡ explode
  unfolding exit_mode
  exit_mode-explode d h = rw h

  minute_change-explode :
      {d' : Director F} (d : Director F) (r : Round F)
      → minute_change d r ≡ ok (exploded d')
      → reported d' ≡ explode
  unfolding minute_change day_change
  minute_change-explode {d'} d r e =
      elim (if_cases (d.minutes_elapsed % 1440 == 0) (day_change d r) (finish_round d r) e) [
        | inl (_, on) ↦
            elim (if_cases (late_too_many d) (ok (exploded (count_day d)))
              (midnight_round (count_day d) r) on) [
                | inl (many, stop) ↦
                    ap reported (sym (exploded-injective _ _ stop)) ∙ exit_mode-explode d many
                | inr (_, go) ↦ absurd (midnight_round_goes_on _ _ _ go)
              ]
        | inr (_, go) ↦ absurd (finish_round_goes_on _ _ _ go)
      ]

  tick-explode :
      {d' : Director F} (d : Director F) (r : Round F)
      → tick d r ≡ ok (exploded d')
      → reported d' ≡ explode
  unfolding tick awake_round
  tick-explode {d'} d r e = elim (if_cases r.sleep_fails (ok exit_failure) (awake_round d r) e) [
    | inl (_, stop) ↦ cc stop
    | inr (_, on) ↦
        let (d1, e1, last) =
          >>=-eq-ok (interfere d r) (λ (d1 : Director F). minute_change (ring_bells d1) r) on in
        minute_change-explode (ring_bells d1) r last
  ]

  -- The end of the loop with an explosion.
  loop_on-exploded :
      (d d' : Director F) (go : Director F → Outcome (Ending F)) (t : Turn F)
      → loop_on d go t ≡ ok (Ending.exploded d')
      → ((d1 : Director F) × (t ≡ running d1) × (go d1 ≡ ok (Ending.exploded d')))
        ⊎ (t ≡ exploded d')
  loop_on-exploded d d' go (running d1) e = inl (d1, refl, e)
  loop_on-exploded d d' go (exploded d1) e = inr (ap exploded (ending_exploded-injective _ _ e))
  loop_on-exploded d d' go exit_failure e = cc e

  pub main_loop-explode :
      (d d' : Director F) (rs : List (Round F))
      → main_loop d rs ≡ ok (Ending.exploded d')
      → reported d' ≡ explode
  unfolding main_loop
  main_loop-explode d d' [] e = ground arith
  main_loop-explode d d' (x ∷ rs) e =
      elim (if_cases (lt_int d.days_elapsed d.config.sim_duration)
        (tick d x >>= loop_on d (λ d'. main_loop d' rs)) (ok (finished d)) e) [
          | inl (left, on) ↦
              let (t, turn, rest) = >>=-eq-ok (tick d x) (loop_on d (λ d'. main_loop d' rs)) on in
              elim (loop_on-exploded d d' (λ d'. main_loop d' rs) t rest) [
                | inl (d1, _, later) ↦ main_loop-explode d1 d' rs later
                | inr same ↦ tick-explode d x (turn ∙ ap ok same)
              ]
          | inr (_, fin) ↦ cc fin
        ]

  last_round :
      {d d' : Director F} {k : ℕ}
      → Reaches d k d'
      → (n : ℕ) → k ≡ suc n
      → (d1 : Director F) × (r : Round F) × Reaches d n d1 × (tick d1 r ≡ ok (running d'))
  last_round start n e = absurd (omega arith)
  last_round {d} (round {k} {d' = d1} r before left e) n same =
      (d1, r, subst (λ m. Reaches d m d1) (omega arith) before, e)

  -- The finish of the loop comes with a new day.
  pub main_loop-finish_late :
      (d d' : Director F) (rs : List (Round F))
      → IsFresh d
      → main_loop d rs ≡ ok (finished d')
      → d'.stats.today.late_users ≡ 0
  main_loop-finish_late d d' rs f e =
      let r = (main_loop_duration d rs f).0 d' e in
      let (d1, x, before, last) =
        last_round r.0 ((d.config.sim_duration - 1) * 1440) (omega arith) in
      let at = Reaches-clock f before in
      tick-late d1 x
        (ap (λ (c : ℕ × ℕ). c.0 % 1440 == 0) at.0
          ∙ clock_after-midnight _ (d.config.sim_duration - 1) refl)
        last

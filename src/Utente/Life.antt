-- ===== src/Utente/Life.antt =====
-- src/utente.c: `busy_wait_until_walk_in`, the whole of `day_loop`, and the days of `main`, one
-- after the other, until the inputs end or the process does.
use native.Mathlib.Nat.{mod-lt}
use poste_italiane_simulatio.Prelude.{
  ℕ, suc, ◌+◌, ◌%◌, ◌≤◌, ◌<◌, ◌≡◌, refl, Bool, true, false, List, [], ◌∷◌, All, take, take-All,
  Outcome, ok, ◌>>=◌, length, lt_int, if◌then◌else◌, ◌==◌, arith,
}
use poste_italiane_simulatio.Config.Defs.{PosteConfig, max_n_requests_compile}
use poste_italiane_simulatio.Utente.Choices.{
  at_most, magnitude, will_go_to_poste, generate_service_list, generate_walk_in_time,
}
use poste_italiane_simulatio.Utente.Services.{generate_service_list-IsFilled}
use poste_italiane_simulatio.Utente.Visit.{
  Inputs, Way, returned, exited, unfinished, Visit, leave, day_loop,
}
use poste_italiane_simulatio.Utente.Accounts.{lates, takes, frees, one}
use poste_italiane_simulatio.Utente.Calls.{InRoom}
use poste_italiane_simulatio.Utente.Each.{DoneInTable}
use poste_italiane_simulatio.Utente.Told.{Tells}
use poste_italiane_simulatio.Utente.Day.{IsDay, day_loop-IsDay}

-- One test of the loop: the minute that it reads, and whether the nanosleep behind it fails.
abbrev pub Check : Type 0
Check = ℕ × Bool

unfoldable pub busy_wait_until_walk_in : (walk_in_time : ℕ) → List Check → Way
busy_wait_until_walk_in walk_in_time [] = unfinished
busy_wait_until_walk_in walk_in_time ((minute, sleep_fails) ∷ checks) =
    let again = busy_wait_until_walk_in walk_in_time checks in
    if lt_int minute walk_in_time then (if sleep_fails then exited else again) else returned

-- A day: the numbers of rand() in their order, what `service_list` holds before it is filled, the
-- tests of the wait, and the calls of `handle_service` with the minutes in front of them.
pub record DayInputs (F : Type 0) : Type 0 where
  pub luck : ℕ
  pub number : ℕ
  pub service_of : ℕ → ℕ
  pub time : ℕ
  pub service_list : List ℕ
  pub checks : List Check
  pub calls : List (ℕ × Inputs F)

-- Settings with which every draw of a day is defined and in its array.
pub record AllowsDays (g : PosteConfig) : Type 0 where
  pub some_chance : 0 < g.p_serv_max
  pub some_requests : 0 < g.max_n_requests
  pub few_requests : g.max_n_requests ≤ max_n_requests_compile

module _ {F : Type 0} where
  -- `day_loop`, from the list of services on.
  abbrev pub after_wait : Way → Outcome (Visit F) → Outcome (Visit F)
  after_wait returned loop = loop
  after_wait exited loop = ok (record { way = exited; been_late_today = false; actions = [] })
  after_wait unfinished loop =
      ok (record { way = unfinished; been_late_today = false; actions = [] })

  unfoldable pub day_at_poste : (ℕ → F) → PosteConfig → DayInputs F → Outcome (Visit F)
  day_at_poste of_int g i = generate_service_list g i.number i.service_of i.service_list >>= λ s.
      after_wait (busy_wait_until_walk_in (generate_walk_in_time g (s.0) i.time) i.checks)
        (day_loop of_int g false (take (s.0) (s.1)) i.calls)

  -- A round of the loop of `main`, in which `been_late_today` starts as false.
  unfoldable pub user_day : (ℕ → F) → PosteConfig → DayInputs F → Outcome (Visit F)
  unfolding day_at_poste
  user_day of_int g i = will_go_to_poste g i.luck >>= λ goes.
      if goes then day_at_poste of_int g i else ok (leave false [])

  abbrev pub then_next : Visit F → Outcome (List (Visit F)) → Outcome (List (Visit F))
  then_next v rest = elim v.way [
    | returned ↦ (rest >>= λ vs. ok (v ∷ vs))
    | exited ↦ ok (v ∷ [])
    | unfinished ↦ ok (v ∷ [])
  ]

  unfoldable pub user_life : (ℕ → F) → PosteConfig → List (DayInputs F) → Outcome (List (Visit F))
  unfolding user_day
  user_life of_int g [] = ok []
  user_life of_int g (i ∷ is) = user_day of_int g i >>= λ v. then_next v (user_life of_int g is)

  -- What a user reads on a day is in tables with room for it, and operators answer about one of the
  -- six services.
  abbrev pub FitsDay : PosteConfig → DayInputs F → Type 0
  FitsDay g i =
      (length i.service_list ≡ max_n_requests_compile)
      × All (λ (x : ℕ × Inputs F). DoneInTable x.1.done) i.calls
      × All (λ (x : ℕ × Inputs F). InRoom g.num_worker_seats (x.1)) i.calls

  -- A day with at most one count as late, no seat freed that was not taken, and no update of a row
  -- outside of the tables.
  abbrev pub IsOrderly : Visit F → Type 0
  IsOrderly v = (lates v.actions ≤ 1) × (frees v.actions ≤ takes v.actions) × All Tells v.actions

  Goes : Outcome (Visit F) → Type 0
  Goes o = (v : Visit F) × (o ≡ ok v) × IsOrderly v

  IsOrderly-day : (n : ℕ) (v : Visit F) → IsDay false n v → All Tells v.actions → IsOrderly v
  IsOrderly-day n v d told = (omega (arith, few d.once_late), d.seats_back, told)
    where
      few : lates v.actions + one false ≡ one v.been_late_today → lates v.actions ≤ 1
      few h = ground arith

  after_wait-Goes : (way : Way) (loop : Outcome (Visit F)) → Goes loop → Goes (after_wait way loop)
  unfolding Goes
  after_wait-Goes returned loop h = h
  after_wait-Goes exited loop h = (_, refl, (omega arith, omega arith, tt))
  after_wait-Goes unfinished loop h = (_, refl, (omega arith, omega arith, tt))

  if_Goes : (b : Bool) (x y : Outcome (Visit F)) → Goes x → Goes y → Goes (if b then x else y)
  if_Goes true x y hx hy = hx
  if_Goes false x y hx hy = hy

  day_at_poste-Goes :
      (of_int : ℕ → F) (g : PosteConfig) (i : DayInputs F)
      → AllowsDays g
      → FitsDay g i
      → Goes (day_at_poste of_int g i)
  unfolding day_at_poste Goes
  day_at_poste-Goes of_int g i a fits =
      let below = mod-lt i.number a.some_requests in
      let (max, list, e, _, _, f) =
        (generate_service_list-IsFilled g i.number i.service_of i.service_list a.some_requests
            fits.0).0
          (omega (arith, a.few_requests)) in
      let six =
        take-All (λ service. service < 6) max list
          (λ j lt. (_, f.inside j (omega arith) lt, mod-lt (i.service_of j) (omega arith))) in
      let (v, e', told, d) =
        day_loop-IsDay of_int g false (take max list) i.calls six fits.1 fits.2 in
      let (w, e'', o) =
        after_wait-Goes (busy_wait_until_walk_in (generate_walk_in_time g max i.time) i.checks) _
          (v, e', IsOrderly-day _ v d told) in
      (w, rw e e'', o)

  user_day-Goes :
      (of_int : ℕ → F) (g : PosteConfig) (i : DayInputs F)
      → AllowsDays g
      → FitsDay g i
      → Goes (user_day of_int g i)
  unfolding user_day Goes will_go_to_poste
  user_day-Goes of_int g i a fits =
      let possible : (g.p_serv_max == 0) ≡ false = ground (arith, a.some_chance) in
      rw possible (
        if_Goes (at_most g.p_serv_min (i.luck % magnitude g.p_serv_max)) _ _
          (day_at_poste-Goes of_int g i a fits)
          (leave false [], refl, (omega arith, omega arith, tt)))

  abbrev pub lates_of : List (Visit F) → ℕ
  lates_of [] = 0
  lates_of (v ∷ vs) = lates v.actions + lates_of vs

  then_next_total :
      (v : Visit F) (way : Way) (rest : Outcome (List (Visit F))) (n : ℕ)
      → v.way ≡ way
      → IsOrderly v
      → ((vs : List (Visit F)) × (rest ≡ ok vs) × All IsOrderly vs × (lates_of vs ≤ n))
      → (vs : List (Visit F)) × (then_next v rest ≡ ok vs)
        × All IsOrderly vs
        × (lates_of vs ≤ suc n)
  then_next_total v returned rest n e o (vs, e', all, few) =
      (v ∷ vs, rw (e, e') refl, (o, all), omega (arith, o.0))
  then_next_total v exited rest n e o h = (v ∷ [], rw e refl, (o, tt), omega (arith, o.0))
  then_next_total v unfinished rest n e o h = (v ∷ [], rw e refl, (o, tt), omega (arith, o.0))

  pub user_life-IsOrderly :
      (of_int : ℕ → F) (g : PosteConfig) (is : List (DayInputs F))
      → AllowsDays g
      → All (FitsDay g) is
      → (vs : List (Visit F)) × (user_life of_int g is ≡ ok vs)
        × All IsOrderly vs
        × (lates_of vs ≤ length is)
  unfolding user_life Goes
  user_life-IsOrderly of_int g [] a fits = ([], refl, tt, omega arith)
  user_life-IsOrderly of_int g (i ∷ is) a fits =
      let (v, e, o) = user_day-Goes of_int g i a fits.0 in
      let (vs, e', all, few) =
        then_next_total v v.way _ (length is) refl o (user_life-IsOrderly of_int g is a fits.1) in
      (vs, rw e e', all, few)

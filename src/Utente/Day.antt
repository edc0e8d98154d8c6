-- ===== src/Utente/Day.antt =====
-- src/utente.c, `day_loop`: what a day at the post office leaves in the statistics.
use mathlib.Core.Path.{subst}
use poste_italiane_simulatio.Prelude.{
  ℕ, ◌+◌, ◌≤◌, ◌<◌, ◌≡◌, ◌≢◌, refl, sym, Bool, true, false, List, [], ◌∷◌, ◌++◌, All, Outcome, ok,
  if◌then◌else◌, arith,
}
use poste_italiane_simulatio.Config.Defs.{PosteConfig}
use poste_italiane_simulatio.Stats.Summary.{failure}
use poste_italiane_simulatio.Utente.Visit.{
  Action, tell, Inputs, Way, returned, exited, unfinished, Visit, is_over, leave, late_once,
  handle_service, within_table, after, then_go_on, day_loop,
}
use poste_italiane_simulatio.Utente.Each.{DoneInTable}
use poste_italiane_simulatio.Utente.Told.{Tells, within_table-ok, day_loop-Tells}
use poste_italiane_simulatio.Utente.Accounts.{outcomes, lates, takes, frees, one, Accounts}
use poste_italiane_simulatio.Utente.Calls.{InRoom, has_ticket, handle_service-Accounts}

module _ {F : Type 0} where
  -- How the counts of actions add up.
  abbrev pub IsSum : (List (Action F) → ℕ) → Type 0
  IsSum f = (xs ys : List (Action F)) → f (xs ++ ys) ≡ f xs + f ys

  outcomes-IsSum : IsSum outcomes
  outcomes-IsSum [] ys = omega arith
  outcomes-IsSum (x ∷ xs) ys = ground (arith, outcomes-IsSum xs ys)

  lates-IsSum : IsSum lates
  lates-IsSum [] ys = omega arith
  lates-IsSum (x ∷ xs) ys = ground (arith, lates-IsSum xs ys)

  takes-IsSum : IsSum takes
  takes-IsSum [] ys = omega arith
  takes-IsSum (x ∷ xs) ys = ground (arith, takes-IsSum xs ys)

  frees-IsSum : IsSum frees
  frees-IsSum [] ys = omega arith
  frees-IsSum (x ∷ xs) ys = ground (arith, frees-IsSum xs ys)

  -- The outcomes that a day is to have: one for each ticket, and one for the service that the user
  -- comes to after closing time, with which the day ends.
  abbrev pub expected : PosteConfig → List ℕ → List (ℕ × Inputs F) → ℕ
  expected g [] inputs = 0
  expected g (service ∷ services) [] = 0
  expected g (service ∷ services) ((minute, i) ∷ inputs) =
      if is_over g minute then 1 else one (has_ticket i) + expected g services inputs

  -- What holds of the end of a day, or of a part of it, that begins with the flag `been` and is to
  -- have `n` outcomes.
  pub record IsDay (been : Bool) (n : ℕ) (v : Visit F) : Type 0 where
    pub all_told : v.way ≡ returned → outcomes v.actions ≡ n
    pub once_late : lates v.actions + one been ≡ one v.been_late_today
    pub seats_back : frees v.actions ≤ takes v.actions

  IsDay-leave : (been : Bool) → IsDay been 0 (leave been [])
  IsDay-leave been = record {
    all_told = λ e. refl;
    once_late = omega arith;
    seats_back = omega arith;
  }

  IsDay-Accounts :
      (g : PosteConfig) (been : Bool) (i : Inputs F) (v : Visit F)
      → Accounts g been i v
      → IsDay been 1 v
  IsDay-Accounts g been i v a = record {
    all_told = a.one_outcome;
    once_late = a.once_late;
    seats_back = ground (arith, a.seat_back);
  }

  called-IsDay :
      (g : PosteConfig) (been : Bool) (i : Inputs F) (v : Visit F) (has : Bool)
      → has_ticket i ≡ has
      → (has_ticket i ≡ false → v ≡ leave been [])
      → (has_ticket i ≡ true → Accounts g been i v)
      → IsDay been (one has) v
  called-IsDay g been i v true e without a = IsDay-Accounts g been i v (a e)
  called-IsDay g been i v false e without a =
      subst (IsDay been 0) (sym (without e)) (IsDay-leave been)

  one_call :
      (of_int : ℕ → F) (g : PosteConfig) (service : ℕ) (been : Bool) (i : Inputs F)
      → service < 6
      → DoneInTable i.done
      → InRoom g.num_worker_seats i
      → (v : Visit F) × (handle_service of_int g service been i ≡ ok v)
        × IsDay been (one (has_ticket i)) v
  one_call of_int g service been i six known room =
      let (v, e, _, without, with_one) =
        handle_service-Accounts of_int g service been i six known room in
      (v, e, called-IsDay g been i v (has_ticket i) refl without with_one)

  IsDay-after :
      (been : Bool) (n m : ℕ) (v w : Visit F)
      → v.way ≡ returned
      → IsDay been n v
      → IsDay v.been_late_today m w
      → IsDay been (n + m) (after v.actions w)
  IsDay-after been n m v w e a b = record {
    all_told = λ r. omega (arith, outcomes-IsSum v.actions w.actions, a.all_told e, b.all_told r);
    once_late = omega (arith, lates-IsSum v.actions w.actions, a.once_late, b.once_late);
    seats_back = omega (
      arith,
      frees-IsSum v.actions w.actions,
      takes-IsSum v.actions w.actions,
      a.seats_back,
      b.seats_back,
    );
  }

  -- A day that is cut short.
  IsDay-cut :
      (been : Bool) (n m : ℕ) (v : Visit F) → v.way ≢ returned → IsDay been n v → IsDay been m v
  IsDay-cut been n m v cut a = record {
    all_told = λ e. absurd (cut e);
    once_late = a.once_late;
    seats_back = a.seats_back;
  }

  then_go_on-IsDay :
      (been : Bool) (n m : ℕ) (v : Visit F) (rest : Outcome (Visit F)) (way : Way)
      → v.way ≡ way
      → IsDay been n v
      → (w : Visit F) × (rest ≡ ok w) × IsDay v.been_late_today m w
      → (u : Visit F) × (then_go_on v rest ≡ ok u) × IsDay been (n + m) u
  then_go_on-IsDay been n m v rest returned e a (w, e', b) =
      (after v.actions w, rw (e, e'), IsDay-after been n m v w e a b)
  then_go_on-IsDay been n m v rest exited e a _ = (v, rw e, IsDay-cut been n (n + m) v (λ r. cc) a)
  then_go_on-IsDay been n m v rest unfinished e a _ =
      (v, rw e, IsDay-cut been n (n + m) v (λ r. cc) a)

  -- Closing time in front of a service.
  IsDay-closed :
      (been : Bool) (service : ℕ)
      → IsDay been 1 (leave true (late_once been service ++ tell (failure service) ∷ []))
  IsDay-closed true service = record {
    all_told = λ e. refl;
    once_late = refl;
    seats_back = omega arith;
  }
  IsDay-closed false service = record {
    all_told = λ e. refl;
    once_late = refl;
    seats_back = omega arith;
  }

  closed_or_open :
      (been closed : Bool) (service n : ℕ) (goes : Outcome (Visit F))
      → service < 6
      → ((v : Visit F) × (goes ≡ ok v) × IsDay been n v)
      → (v : Visit F) × ((if closed
            then within_table (leave true (late_once been service ++ tell (failure service) ∷ []))
            else goes)
          ≡ ok v)
        × IsDay been (if closed then 1 else n) v
  closed_or_open true true service n goes six h =
      (_, within_table-ok _ (six, tt), IsDay-closed true service)
  closed_or_open false true service n goes six h =
      (_, within_table-ok _ (six, (six, tt)), IsDay-closed false service)
  closed_or_open been false service n goes six h = h

  -- A day at the post office, for services of the six.
  day_loop_total :
      (of_int : ℕ → F) (g : PosteConfig) (been : Bool) (services : List ℕ)
      (inputs : List (ℕ × Inputs F))
      → All (λ service. service < 6) services
      → All (λ (x : ℕ × Inputs F). DoneInTable x.1.done) inputs
      → All (λ (x : ℕ × Inputs F). InRoom g.num_worker_seats x.1) inputs
      → (v : Visit F) × (day_loop of_int g been services inputs ≡ ok v)
        × IsDay been (expected g services inputs) v
  unfolding day_loop
  day_loop_total of_int g been [] inputs six known room = (leave been [], refl, IsDay-leave been)
  day_loop_total of_int g been (service ∷ services) [] six known room =
      (_, refl, record { all_told = λ e. cc; once_late = omega arith; seats_back = omega arith })
  day_loop_total of_int g been (service ∷ services) ((minute, i) ∷ inputs) six known room =
      let (v, e, a) = one_call of_int g service been i six.0 known.0 room.0 in
      let rest = day_loop_total of_int g v.been_late_today services inputs six.1 known.1 room.1 in
      let (u, e', b) =
        then_go_on-IsDay been (one (has_ticket i)) (expected g services inputs) v _ v.way refl a
          rest in
      closed_or_open been (is_over g minute) service _ _ six.0 (u, rw e e', b)

  -- However else messages, seats and the clock turn out, a day at the post office runs without a
  -- fault, where the services are of the six and so are those of the operators' answers, with at
  -- most thirty seats configured and room for them; every update of the statistics is then one of a
  -- row of their tables. Each ticket that the user gets has exactly one outcome in the statistics, a
  -- success or a failure, and so has the service that it comes to after closing time, with which
  -- the day ends; the user is counted late once if its flag goes up in this day and else not at
  -- all, so never twice; and it frees no more seats than it took. If the inputs end first or the
  -- process exits, the outcomes may be fewer.
  pub day_loop-IsDay :
      (of_int : ℕ → F) (g : PosteConfig) (been : Bool) (services : List ℕ)
      (inputs : List (ℕ × Inputs F))
      → All (λ service. service < 6) services
      → All (λ (x : ℕ × Inputs F). DoneInTable x.1.done) inputs
      → All (λ (x : ℕ × Inputs F). InRoom g.num_worker_seats x.1) inputs
      → (v : Visit F) × (day_loop of_int g been services inputs ≡ ok v)
        × All Tells v.actions
        × IsDay been (expected g services inputs) v
  day_loop-IsDay of_int g been services inputs six known room =
      let (v, e, d) = day_loop_total of_int g been services inputs six known room in
      (v, e, day_loop-Tells of_int g been services inputs v six known e, d)

-- ===== src/Utente/Told.antt =====
-- src/utente.c: the services for which `day_loop` updates the statistics.
use poste_italiane_simulatio.Prelude.{arith, ℕ, ◌<◌, ◌≡◌, refl, Bool, true, List, [], ◌∷◌, All, ok}
use poste_italiane_simulatio.Config.Defs.{PosteConfig}
use poste_italiane_simulatio.Stats.Summary.{
  request, failure, success, late, pause, worked, new_day, minute,
}
use poste_italiane_simulatio.Stats.Refines.{InTable}
use poste_italiane_simulatio.Utente.Visit.{
  Action, tell, take, free, ask, Inputs, Visit, is_in_table, all_in_table, within_table,
  visit_service, day_loop,
}
use poste_italiane_simulatio.Utente.Each.{Allowed, DoneInTable, visit_service-All, day_loop-All}

module _ {F : Type 0} where
  abbrev pub Tells : Action F → Type 0
  Tells (tell e) = InTable e
  Tells _ = Unit

  Tells-Allowed : (n : ℕ) → Allowed Tells n
  Tells-Allowed n = record {
    on_failure = λ service h. h;
    on_late = λ service h. h;
    on_success = λ service wait_time service_time h. h;
    on_take = λ k h. tt;
    on_free = λ k h. tt;
    on_ask = λ op_pid ticket. tt;
  }

  in_table-Tells : (a : Action F) → Tells a → is_in_table a ≡ true
  in_table-Tells (tell (request j)) h = ground arith
  in_table-Tells (tell (failure j)) h = ground arith
  in_table-Tells (tell (success j w t)) h = ground arith
  in_table-Tells (tell (late j)) h = ground arith
  in_table-Tells (tell pause) h = refl
  in_table-Tells (tell worked) h = refl
  in_table-Tells (tell (new_day day)) h = refl
  in_table-Tells (tell (minute m)) h = refl
  in_table-Tells (take k) h = refl
  in_table-Tells (free k) h = refl
  in_table-Tells (ask pid ticket) h = refl

  all_in_table-Tells : (actions : List (Action F)) → All Tells actions → all_in_table actions ≡ true
  all_in_table-Tells [] h = refl
  all_in_table-Tells (a ∷ actions) h = rw (in_table-Tells a h.0) (all_in_table-Tells actions h.1)

  pub within_table-ok : (v : Visit F) → All Tells v.actions → within_table v ≡ ok v
  within_table-ok v h = rw (all_in_table-Tells v.actions h) refl

  pub visit_service-Tells :
      (of_int : ℕ → F) (g : PosteConfig) (service : ℕ) (been : Bool) (i : Inputs F) (v : Visit F)
      → service < 6
      → DoneInTable i.done
      → visit_service of_int g service been i ≡ ok v
      → All Tells v.actions
  visit_service-Tells of_int g service been i v h hd e =
      visit_service-All Tells g.num_worker_seats (Tells-Allowed g.num_worker_seats) of_int g service
        been i refl h hd v e

  pub day_loop-Tells :
      (of_int : ℕ → F) (g : PosteConfig) (been : Bool) (services : List ℕ)
      (inputs : List (ℕ × Inputs F)) (v : Visit F)
      → All (λ service. service < 6) services
      → All (λ (x : ℕ × Inputs F). DoneInTable x.1.done) inputs
      → day_loop of_int g been services inputs ≡ ok v
      → All Tells v.actions
  day_loop-Tells of_int g been services inputs v h hd e =
      day_loop-All Tells g.num_worker_seats (Tells-Allowed g.num_worker_seats) of_int g refl been
        services inputs v h hd e

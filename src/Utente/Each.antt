-- ===== src/Utente/Each.antt =====
-- src/utente.c, `day_loop`: what holds of every action that a user may take on a day.
use poste_italiane_simulatio.Prelude.{
  ◌++◌, fault, All-append, ℕ, ◌<◌, ◌≡◌, refl, sym, ◌∙◌, Bool, true, false, List, [], ◌∷◌, All,
  Option, none, some, Outcome, ok, ◌>>=◌, lt_int, if◌then◌else◌, Always, Always-ok, Always-if,
  Always-bind,
}
use mathlib.Core.Path.{subst}
use poste_italiane_simulatio.Config.Defs.{PosteConfig}
use poste_italiane_simulatio.Stats.Summary.{failure, late, success}
use poste_italiane_simulatio.Stations.Defs.{find_valid_seats, attempt_take_seat}
use poste_italiane_simulatio.Stations.Below.{
  Below, SeatBelow, find_valid_seats-Below, attempt_take_seat-Below,
}
use poste_italiane_simulatio.Utente.Visit.{
  Action, tell, take, free, ask, Wait, seat_or, wait_for_seat, ServiceDone, Inputs, Way, returned,
  exited, unfinished, Visit, is_over, Got, seat, too_late, interrupted, waiting, get_seat, leave,
  late_once, served, await_done, use_seat, go_on, choose_seat, ticket_of, with_ticket,
  visit_service, handle_service, all_in_table, within_table, after, then_go_on, day_loop,
}

-- A property of actions that each of a user's actions has: an update of the statistics for one of
-- the six services, a seat of the first `n`, or a request.
pub record Allowed {F : Type 0} (P : Action F → Type 0) (n : ℕ) : Type 0 where
  pub on_failure : (service : ℕ) → service < 6 → P (tell (failure service))
  pub on_late : (service : ℕ) → service < 6 → P (tell (late service))
  pub on_success :
      (service : ℕ) (wait_time service_time : F)
      → service < 6
      → P (tell (success service wait_time service_time))
  pub on_take : (k : ℕ) → k < n → P (take k)
  pub on_free : (k : ℕ) → k < n → P (free k)
  pub on_ask : (op_pid ticket_number : ℕ) → P (ask op_pid ticket_number)

fault_ne-ok : {A : Type 0} (a : A) → ¬ (fault ≡ ok a)
fault_ne-ok a e = cc

module _ {F : Type 0} where
  -- The operator's answer, if there is one, is about a service of the table.
  abbrev pub DoneInTable : Option (ServiceDone F) → Type 0
  DoneInTable none = Unit
  DoneInTable (some d) = d.service_id < 6

module _ {F : Type 0} (P : Action F → Type 0) (n : ℕ) (a : Allowed P n) where
  late_once-All : (been : Bool) (service : ℕ) → service < 6 → All P (late_once been service)
  late_once-All true service h = tt
  late_once-All false service h = (a.on_late service h, tt)

  if-All :
      (b : Bool) (x y : Visit F)
      → All P x.actions
      → All P y.actions
      → All P (if b then x else y).actions
  if-All true x y hx hy = hx
  if-All false x y hx hy = hy

  served-All :
      (g : PosteConfig) (service : ℕ) (been : Bool) (i : Inputs F) (k : ℕ)
      (actions : List (Action F))
      → service < 6
      → k < n
      → All P actions
      → All P (served g service been i k actions).actions
  unfolding served
  served-All g service been i k actions h hk all =
      if-All (is_over g i.minute_after) _ _
        (All-append P actions _ all (late_once-All been service h))
        (All-append P actions _ all (a.on_free k hk, tt))

  await_done-All :
      (of_int : ℕ → F) (g : PosteConfig) (service : ℕ) (been : Bool) (i : Inputs F) (k : ℕ)
      (actions : List (Action F)) (d : Option (ServiceDone F))
      → service < 6
      → k < n
      → DoneInTable d
      → All P actions
      → All P (await_done of_int g service been i k actions d).actions
  unfolding await_done
  await_done-All of_int g service been i k actions none h hk hd all =
      All-append P actions _ all (a.on_failure service h, tt)
  await_done-All of_int g service been i k actions (some d) h hk hd all =
      if-All (lt_int d.ticket_number 0) _ _
        (All-append P actions _ all (a.on_failure service h, tt))
        (served-All g service been i k _ h hk
          (All-append P actions _ all (a.on_success d.service_id _ d.service_time hd, tt)))

  use_seat-All :
      (of_int : ℕ → F) (g : PosteConfig) (service : ℕ) (been : Bool) (i : Inputs F) (ticket k : ℕ)
      → service < 6
      → k < n
      → DoneInTable i.done
      → All P (use_seat of_int g service been i ticket k).actions
  unfolding use_seat
  use_seat-All of_int g service been i ticket k h hk hd =
      let asks = a.on_ask (i.operator_of k) ticket in
      if-All i.request_sent _ _
        (await_done-All of_int g service been i k (take k ∷ ask (i.operator_of k) ticket ∷ [])
          i.done h hk hd (a.on_take k hk, (asks, tt)))
        (a.on_take k hk, (asks, (a.on_failure service h, tt)))

  -- The seat that a search comes to, if it does.
  abbrev GotBelow : Got → Type 0
  GotBelow (seat k) = k < n
  GotBelow _ = Unit

  go_on-All :
      (of_int : ℕ → F) (g : PosteConfig) (service : ℕ) (been : Bool) (i : Inputs F) (ticket : ℕ)
      (got : Got)
      → service < 6
      → GotBelow got
      → DoneInTable i.done
      → All P (go_on of_int g service been i ticket got).actions
  unfolding go_on
  go_on-All of_int g service been i ticket (seat k) h hk hd =
      use_seat-All of_int g service been i ticket k h hk hd
  go_on-All of_int g service been i ticket too_late h hk hd =
      All-append P (late_once been service) _ (late_once-All been service h)
        (a.on_failure service h, tt)
  go_on-All of_int g service been i ticket interrupted h hk hd = tt
  go_on-All of_int g service been i ticket waiting h hk hd = tt

  abbrev pub AllOf : Visit F → Type 0
  AllOf v = All P v.actions

  seat_or-Below :
      (r : Option ℕ) (rest : Outcome Got)
      → SeatBelow n r
      → Always GotBelow rest
      → Always GotBelow (seat_or r rest)
  seat_or-Below none rest h later = later
  seat_or-Below (some k) rest h later = Always-ok GotBelow (seat k) h

  wait_for_seat-Below :
      (g : PosteConfig) (valid : List ℕ) (ws : List Wait)
      → All (Below n) valid
      → Always GotBelow (wait_for_seat g valid ws)
  unfolding wait_for_seat
  wait_for_seat-Below g valid [] h = Always-ok GotBelow waiting tt
  wait_for_seat-Below g valid (w ∷ ws) h =
      Always-if GotBelow w.sleep_fails _ _ (Always-ok GotBelow interrupted tt) (
        Always-if GotBelow (is_over g w.minute) _ _ (Always-ok GotBelow too_late tt) (
          Always-bind GotBelow (attempt_take_seat w.stations valid) _ (λ r e.
            seat_or-Below (r.0) _ (attempt_take_seat-Below n w.stations (r.1) valid (r.0) h e)
              (wait_for_seat-Below g valid ws h))))

  get_seat-Below :
      (g : PosteConfig) (valid : List ℕ) (i : Inputs F)
      → All (Below n) valid
      → Always GotBelow (get_seat g valid i.tried i.waits)
  unfolding get_seat
  get_seat-Below g valid i h = Always-bind GotBelow (attempt_take_seat i.tried valid) _ (λ r e.
      seat_or-Below (r.0) _ (attempt_take_seat-Below n i.tried (r.1) valid (r.0) h e)
        (wait_for_seat-Below g valid i.waits h))

  choose_seat-All :
      (of_int : ℕ → F) (g : PosteConfig) (service : ℕ) (been : Bool) (i : Inputs F) (t : ℕ)
      (valid : List ℕ)
      → service < 6
      → All (Below n) valid
      → DoneInTable i.done
      → Always AllOf (choose_seat of_int g service been i t valid)
  unfolding choose_seat
  choose_seat-All of_int g service been i t [] h hv hd =
      Always-ok AllOf _ (a.on_failure service h, tt)
  choose_seat-All of_int g service been i t (k ∷ valid) h hv hd =
      Always-bind AllOf (get_seat g (k ∷ valid) i.tried i.waits) _ (λ got e.
        Always-ok AllOf _
          (go_on-All of_int g service been i t got h (get_seat-Below g (k ∷ valid) i hv got e) hd))

  with_ticket-All :
      (of_int : ℕ → F) (g : PosteConfig) (service : ℕ) (been : Bool) (i : Inputs F) (t : Option ℕ)
      → g.num_worker_seats ≡ n
      → service < 6
      → DoneInTable i.done
      → Always AllOf (with_ticket of_int g service been i t)
  unfolding with_ticket
  with_ticket-All of_int g service been i none same h hd = Always-ok AllOf _ tt
  with_ticket-All of_int g service been i (some t) same h hd =
      Always-bind AllOf (find_valid_seats g.num_worker_seats i.searched service) _ (λ valid e.
        choose_seat-All of_int g service been i t valid h
          (subst (λ m. All (Below m) valid) same
            (find_valid_seats-Below g.num_worker_seats i.searched service valid e))
          hd)

  pub visit_service-All :
      (of_int : ℕ → F) (g : PosteConfig) (service : ℕ) (been : Bool) (i : Inputs F)
      → g.num_worker_seats ≡ n
      → service < 6
      → DoneInTable i.done
      → Always AllOf (visit_service of_int g service been i)
  unfolding visit_service
  visit_service-All of_int g service been i same h hd =
      Always-if AllOf i.ticket_sent _ _
        (with_ticket-All of_int g service been i (ticket_of i.ticket) same h hd)
        (Always-ok AllOf _ tt)

  within_table-All : (v : Visit F) → AllOf v → Always AllOf (within_table v)
  within_table-All v h =
      Always-if AllOf (all_in_table v.actions) _ _ (Always-ok AllOf v h)
        (λ w e. absurd (fault_ne-ok w e))

  handle_service-All :
      (of_int : ℕ → F) (g : PosteConfig) (service : ℕ) (been : Bool) (i : Inputs F)
      → g.num_worker_seats ≡ n
      → service < 6
      → DoneInTable i.done
      → Always AllOf (handle_service of_int g service been i)
  unfolding handle_service
  handle_service-All of_int g service been i same h hd =
      Always-bind AllOf (visit_service of_int g service been i) within_table
        (λ v e. within_table-All v (visit_service-All of_int g service been i same h hd v e))

  then_go_on-All :
      (v : Visit F) (rest : Outcome (Visit F)) (way : Way)
      → v.way ≡ way
      → AllOf v
      → Always AllOf rest
      → Always AllOf (then_go_on v rest)
  then_go_on-All v rest returned e h hr u eu =
      let go : then_go_on v rest ≡ (rest >>= λ w. ok (after v.actions w)) = rw e in
      Always-bind AllOf rest (λ w. ok (after v.actions w))
        (λ w ew. Always-ok AllOf (after v.actions w) (All-append P v.actions w.actions h (hr w ew)))
        u (sym go ∙ eu)
  then_go_on-All v rest exited e h hr u eu =
      let cut : then_go_on v rest ≡ ok v = rw e in Always-ok AllOf v h u (sym cut ∙ eu)
  then_go_on-All v rest unfinished e h hr u eu =
      let cut : then_go_on v rest ≡ ok v = rw e in Always-ok AllOf v h u (sym cut ∙ eu)

  pub day_loop-All :
      (of_int : ℕ → F) (g : PosteConfig)
      → g.num_worker_seats ≡ n
      → (been : Bool) (services : List ℕ) (inputs : List (ℕ × Inputs F)) (v : Visit F)
      → All (λ service. service < 6) services
      → All (λ (x : ℕ × Inputs F). DoneInTable x.1.done) inputs
      → day_loop of_int g been services inputs ≡ ok v
      → All P v.actions
  unfolding day_loop
  day_loop-All of_int g same been [] inputs v h hd e = Always-ok AllOf (leave been []) tt v e
  day_loop-All of_int g same been (service ∷ services) [] v h hd e = Always-ok AllOf _ tt v e
  day_loop-All of_int g same been (service ∷ services) ((minute, i) ∷ inputs) v h hd e =
      Always-if AllOf (is_over g minute) _ _
        (within_table-All (leave true (late_once been service ++ tell (failure service) ∷ [])) (
          All-append P (late_once been service) _ (late_once-All been service h.0)
            (a.on_failure service h.0, tt)))
        (Always-bind AllOf (handle_service of_int g service been i) _ (λ w ew.
          then_go_on-All w _ w.way refl
            (handle_service-All of_int g service been i same h.0 hd.0 w ew)
            (λ u. day_loop-All of_int g same w.been_late_today services inputs u h.1 hd.1)))
        v e

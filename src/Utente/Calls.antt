-- ===== src/Utente/Calls.antt =====
-- src/utente.c, `handle_service`: a whole call, on every branch.
use poste_italiane_simulatio.Prelude.{
  ℕ, ◌≤◌, ◌<◌, ◌≡◌, refl, ap, Bool, true, false, ◌&&◌, List, [], ◌∷◌, All, Option, none, some,
  Outcome, ok, ◌>>=◌, if◌then◌else◌, length, if_total, arith,
}
use poste_italiane_simulatio.Config.Defs.{PosteConfig, max_worker_seats}
use poste_italiane_simulatio.Stats.Summary.{failure}
use poste_italiane_simulatio.Stations.Defs.{Stations, attempt_take_seat}
use poste_italiane_simulatio.Stations.Users.{find_valid_seats-Selects, attempt_take_seat-Attempts}
use poste_italiane_simulatio.Utente.Visit.{
  tell, Wait, Inputs, returned, Visit, is_over, Got, seat, too_late, interrupted, waiting, seat_or,
  wait_for_seat, get_seat, ticket_of, leave, go_on, choose_seat, with_ticket, visit_service,
  handle_service,
}
use poste_italiane_simulatio.Utente.Each.{DoneInTable}
use poste_italiane_simulatio.Utente.Told.{Tells, visit_service-Tells, within_table-ok}
use poste_italiane_simulatio.Utente.Accounts.{Accounts, seatless-Accounts, go_on-Accounts}

abbrev is_some : Option ℕ → Bool
is_some none = false
is_some (some _) = true

-- A table with room for the configured seats, where all valid seats are.
abbrev pub Fits : ℕ → Stations → Type 0
Fits n st = n ≤ length st.seats

within_table :
    (n : ℕ) (st : Stations) (valid : List ℕ)
    → Fits n st
    → All (λ k. k < n) valid
    → All (λ k. k < length st.seats) valid
within_table n st [] fits v = tt
within_table n st (k ∷ valid) fits v = (omega (arith, v.0), within_table n st valid fits v.1)

seat_or_total :
    (r : Option ℕ) (rest : Outcome Got)
    → ((got : Got) × (rest ≡ ok got))
    → (got : Got) × (seat_or r rest ≡ ok got)
seat_or_total none rest h = h
seat_or_total (some k) rest h = (seat k, refl)

attempt_total :
    (n : ℕ) (st : Stations) (valid : List ℕ) (rest : Outcome Got)
    → Fits n st
    → All (λ k. k < n) valid
    → ((got : Got) × (rest ≡ ok got))
    → (got : Got) × ((attempt_take_seat st valid >>= λ r. seat_or r.0 rest) ≡ ok got)
attempt_total n st valid rest fits v h =
    let (r, seats', e, _) = attempt_take_seat-Attempts st valid (within_table n st valid fits v) in
    rw e (seat_or_total r rest h)

wait_for_seat_total :
    (g : PosteConfig) (n : ℕ) (valid : List ℕ) (ws : List Wait)
    → All (λ k. k < n) valid
    → All (λ (w : Wait). Fits n w.stations) ws
    → (got : Got) × (wait_for_seat g valid ws ≡ ok got)
unfolding wait_for_seat
wait_for_seat_total g n valid [] v h = (waiting, refl)
wait_for_seat_total g n valid (w ∷ ws) v h =
    if_total w.sleep_fails _ _ (interrupted, refl)
      (if_total (is_over g w.minute) _ _ (too_late, refl)
        (attempt_total n w.stations valid _ h.0 v (wait_for_seat_total g n valid ws v h.1)))

below_n : (P : ℕ → Type 0) (n : ℕ) (l : List ℕ) → All (λ k. (k < n) × P k) l → All (λ k. k < n) l
below_n P n [] h = tt
below_n P n (k ∷ l) h = (h.0.0, below_n P n l h.1)

-- The seats that the call looks at are in a table with room for the configured ones.
pub record InRoom {F : Type 0} (n : ℕ) (i : Inputs F) : Type 0 where
  pub some_seats : n ≤ max_worker_seats
  pub at_search : Fits n i.searched
  pub at_try : Fits n i.tried
  pub at_waits : All (λ (w : Wait). Fits n w.stations) i.waits

module _ {F : Type 0} where
  choose_seat-Accounts :
      (of_int : ℕ → F) (g : PosteConfig) (service : ℕ) (been : Bool) (i : Inputs F) (t : ℕ)
      (valid : List ℕ)
      → InRoom g.num_worker_seats i
      → All (λ k. k < g.num_worker_seats) valid
      → (v : Visit F) × (choose_seat of_int g service been i t valid ≡ ok v) × Accounts g been i v
  unfolding choose_seat get_seat
  choose_seat-Accounts of_int g service been i t [] room v = (
    leave been (tell (failure service) ∷ []),
    refl,
    seatless-Accounts g been been i returned _ (λ e. refl) (omega arith) refl refl,
  )
  choose_seat-Accounts of_int g service been i t (k ∷ valid) room v =
      let (got, e) =
        attempt_total g.num_worker_seats i.tried (k ∷ valid) _ room.at_try v
          (wait_for_seat_total g g.num_worker_seats (k ∷ valid) i.waits v room.at_waits) in
      (go_on of_int g service been i t got, rw e, go_on-Accounts of_int g service been i t got)

  -- Whether the user got a ticket.
  abbrev pub has_ticket : Inputs F → Bool
  has_ticket i = i.ticket_sent && is_some (ticket_of i.ticket)

  with_ticket-Accounts :
      (of_int : ℕ → F) (g : PosteConfig) (service : ℕ) (been : Bool) (i : Inputs F) (t : ℕ)
      → InRoom g.num_worker_seats i
      → (v : Visit F) × (with_ticket of_int g service been i (some t) ≡ ok v) × Accounts g been i v
  unfolding with_ticket
  with_ticket-Accounts of_int g service been i t room =
      let (l, e, s) =
        find_valid_seats-Selects g.num_worker_seats i.searched service room.some_seats
          room.at_search in
      let (v, e', a) =
        choose_seat-Accounts of_int g service been i t l room (below_n _ _ l s.sound) in
      (v, rw (e, e'), a)

  with_or_without :
      (of_int : ℕ → F) (g : PosteConfig) (service : ℕ) (been : Bool) (i : Inputs F)
      → InRoom g.num_worker_seats i
      → (sent : Bool) (t : Option ℕ) → i.ticket_sent ≡ sent
      → ticket_of i.ticket ≡ t
      → (v : Visit F) × ((if sent
            then with_ticket of_int g service been i t
            else ok (leave been []))
          ≡ ok v)
        × (has_ticket i ≡ false → v ≡ leave been [])
        × (has_ticket i ≡ true → Accounts g been i v)
  with_or_without of_int g service been i room false t s e =
      (leave been [], refl, (λ _. refl), (λ h. cc (ap (λ b. b && is_some (ticket_of i.ticket)) s)))
  with_or_without of_int g service been i room true none s e =
      (leave been [], unfold with_ticket in refl, (λ _. refl), (λ h. ground arith))
  with_or_without of_int g service been i room true (some t) s e =
      let (v, e', a) = with_ticket-Accounts of_int g service been i t room in
      (v, e', (λ h. ground arith), (λ _. a))

  visit_service-Accounts :
      (of_int : ℕ → F) (g : PosteConfig) (service : ℕ) (been : Bool) (i : Inputs F)
      → InRoom g.num_worker_seats i
      → (v : Visit F) × (visit_service of_int g service been i ≡ ok v)
        × (has_ticket i ≡ false → v ≡ leave been [])
        × (has_ticket i ≡ true → Accounts g been i v)
  unfolding visit_service
  visit_service-Accounts of_int g service been i room =
      with_or_without of_int g service been i room i.ticket_sent (ticket_of i.ticket) refl refl

  pub handle_service-Accounts :
      (of_int : ℕ → F) (g : PosteConfig) (service : ℕ) (been : Bool) (i : Inputs F)
      → service < 6
      → DoneInTable i.done
      → InRoom g.num_worker_seats i
      → (v : Visit F) × (handle_service of_int g service been i ≡ ok v)
        × All Tells v.actions
        × (has_ticket i ≡ false → v ≡ leave been [])
        × (has_ticket i ≡ true → Accounts g been i v)
  unfolding handle_service
  handle_service-Accounts of_int g service been i six known room =
      let (v, e, without, with_one) = visit_service-Accounts of_int g service been i room in
      let told = visit_service-Tells of_int g service been i v six known e in
      (v, rw e (within_table-ok v told), told, without, with_one)

-- ===== src/Stations/NewDay.antt =====
-- src/direttore.c, `start_new_day`: the seats after it.
use native.Mathlib.Nat.{mod-lt}
use native.Mathlib.Decide.{ℕ_discrete}
use poste_italiane_simulatio.Prelude.{
  ℕ, zero, suc, ◌+◌, ◌≤◌, ◌<◌, ◌%◌, ◌≡◌, refl, sym, ap, ◌∙◌, List, ok, read, read_total,
  modify_total, IsModified, length, arith,
}
use poste_italiane_simulatio.Stations.Defs.{
  Seat, free, Stations, new_seat, reset_seats_from, reset_seats,
}

-- A seat with neither an operator nor a user, for the service of the six that a number chooses.
pub record IsFree (r : ℕ) (seat : Seat) : Type 0 where
  pub no_operator : seat.operator_process ≡ 0
  pub operator_free : seat.operator_status ≡ free
  pub user_free : seat.user_status ≡ free
  pub service : seat.service_id ≡ r % 6
  pub one_of_six : seat.service_id < 6

new_seat-IsFree : (r : ℕ) → IsFree r (new_seat r)
new_seat-IsFree r = record {
  no_operator = refl;
  operator_free = refl;
  user_free = refl;
  service = refl;
  one_of_six = mod-lt r (omega arith);
}

-- From `lo` on and below `hi` the seats are free, each with its own number from rand(), and all
-- others are as they were.
pub record IsReset (lo hi : ℕ) (rand : ℕ → ℕ) (seats seats' : List Seat) : Type 0 where
  pub same_length : length seats' ≡ length seats
  pub inside :
      (j : ℕ) → lo ≤ j → j < hi → (seat : Seat) × (read seats' j ≡ ok seat) × IsFree (rand j) seat
  pub below : (j : ℕ) → j < lo → read seats' j ≡ read seats j
  pub above : (j : ℕ) → hi ≤ j → read seats' j ≡ read seats j

IsReset-none :
    (lo hi : ℕ) (rand : ℕ → ℕ) (seats : List Seat) → hi ≤ lo → IsReset lo hi rand seats seats
IsReset-none lo hi rand seats le = record {
  same_length = refl;
  inside = λ j a b. absurd (omega arith);
  below = λ j a. refl;
  above = λ j a. refl;
}

IsReset-step :
    (lo hi : ℕ) (rand : ℕ → ℕ) (seats mid seats' : List Seat)
    → lo < hi
    → lo < length seats
    → IsModified seats lo (λ _. new_seat (rand lo)) mid
    → IsReset (suc lo) hi rand mid seats'
    → IsReset lo hi rand seats seats'
IsReset-step lo hi rand seats mid seats' lt bound m r = record {
  same_length = r.same_length ∙ m.same_length;
  inside = λ j a b. elim (ℕ_discrete lo j) [
    | yes e ↦
        let (old, was) = read_total seats lo bound in
        (
          new_seat (rand j),
          ap (read seats') (sym e)
              ∙ r.below lo (omega arith)
              ∙ m.here old was
              ∙ ap (λ k. ok (new_seat (rand k))) e,
          new_seat-IsFree (rand j),
        )
    | no ne ↦ r.inside j (omega arith) b
  ];
  below = λ j a. r.below j (omega arith) ∙ m.elsewhere j (λ e. omega arith);
  above = λ j a. r.above j a ∙ m.elsewhere j (λ e. omega arith);
}

reset_seats_from-IsReset :
    (rounds i hi : ℕ) (rand : ℕ → ℕ) (seats : List Seat)
    → i + rounds ≡ hi
    → hi ≤ length seats
    → (seats' : List Seat) × (reset_seats_from rounds i rand seats ≡ ok seats')
      × IsReset i hi rand seats seats'
unfolding reset_seats_from
reset_seats_from-IsReset zero i hi rand seats s h =
    (seats, refl, IsReset-none i hi rand seats (omega arith))
reset_seats_from-IsReset (suc rounds) i hi rand seats s h =
    let (mid, e, m) = modify_total seats i (λ _. new_seat (rand i)) (omega arith) in
    let (seats', e', r) =
      reset_seats_from-IsReset rounds (suc i) hi rand mid (omega arith)
        (omega (arith, m.same_length)) in
    (seats', rw (e, e'), IsReset-step i hi rand seats mid seats' (omega arith) (omega arith) m r)

-- A new day frees every configured seat of its operator and its user, and gives it the service that
-- rand() chose for it, one of the six; seats behind the configured ones stay as they were.
pub reset_seats-IsReset :
    (n : ℕ) (rand : ℕ → ℕ) (st : Stations)
    → n ≤ length st.seats
    → (seats' : List Seat) × (reset_seats n rand st ≡ ok (record st { seats = seats' }))
      × IsReset 0 n rand st.seats seats'
unfolding reset_seats
reset_seats-IsReset n rand st h =
    let (seats', e, r) = reset_seats_from-IsReset n 0 n rand st.seats (omega arith) h in
    (seats', rw e, r)

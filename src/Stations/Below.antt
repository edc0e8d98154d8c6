-- ===== src/Stations/Below.antt =====
-- The seats that the searches of src/operatore.c and src/utente.c give are below the number of
-- configured seats, whatever they read.
use poste_italiane_simulatio.Prelude.{
  All-append, ℕ, zero, suc, ◌+◌, ◌≤◌, ◌<◌, ◌≡◌, inl, inr, List, [], ◌∷◌, ◌++◌, All, Option, none,
  some, ok, ok-injective, fault, >>=-eq-ok, read, modify, length, ltb, ◌==◌, ◌&&◌, if_cases, arith,
}
use mathlib.Core.Path.{subst}
use poste_italiane_simulatio.Config.Defs.{max_worker_seats}
use poste_italiane_simulatio.Stations.Defs.{
  is_free, is_occupied, Seat, Stations, find_seat_from, find_seat, find_valid_from,
  find_valid_seats, seat_user, attempt_take, attempt_take_seat,
}

abbrev pub Below : ℕ → ℕ → Type 0
Below n k = k < n

-- A seat, if there is one, is below `n`.
abbrev pub SeatBelow : ℕ → Option ℕ → Type 0
SeatBelow n none = Unit
SeatBelow n (some k) = k < n

ok-SeatBelow : (n : ℕ) (a b : Option ℕ) → SeatBelow n a → ok a ≡ ok b → SeatBelow n b
ok-SeatBelow n a b h e = subst (SeatBelow n) (ok-injective a b e) h

find_seat_from-Below :
    (rounds i n : ℕ) (seats : List Seat) (service : ℕ) (r : Option ℕ)
    → i + rounds ≤ n
    → find_seat_from rounds i seats service ≡ ok r
    → SeatBelow n r
unfolding find_seat_from
find_seat_from-Below zero i n seats service r h e = ok-SeatBelow n none r tt e
find_seat_from-Below (suc rounds) i n seats service r h e =
    let (seat, _, e') = >>=-eq-ok (read seats i) _ e in
    elim (if_cases (is_free seat.operator_status && seat.service_id == service) (ok (some i))
      (find_seat_from rounds (suc i) seats service) e') [
        | inl (_, here) ↦ ok-SeatBelow n (some i) r (omega arith) here
        | inr (_, later) ↦ find_seat_from-Below rounds (suc i) n seats service r (omega arith) later
      ]

pub find_seat-Below :
    (n : ℕ) (st : Stations) (service : ℕ) (r : Option ℕ)
    → find_seat n st service ≡ ok r
    → SeatBelow n r
unfolding find_seat
find_seat-Below n st service r e = find_seat_from-Below n 0 n st.seats service r (omega arith) e

find_valid_from-Below :
    (rounds i n : ℕ) (seats : List Seat) (service : ℕ) (found l : List ℕ)
    → i + rounds ≤ n
    → All (Below n) found
    → find_valid_from rounds i seats service found ≡ ok l
    → All (Below n) l
unfolding find_valid_from
find_valid_from-Below zero i n seats service found l h below e =
    subst (All (Below n)) (ok-injective found l e) below
find_valid_from-Below (suc rounds) i n seats service found l h below e =
    let (seat, _, e') = >>=-eq-ok (read seats i) _ e in
    elim (if_cases (seat.service_id == service && is_occupied seat.operator_status) _
      (find_valid_from rounds (suc i) seats service found) e') [
        | inl (_, hit) ↦
            elim (if_cases (ltb (length found) max_worker_seats)
              (find_valid_from rounds (suc i) seats service (found ++ i ∷ [])) fault hit) [
                | inl (_, more) ↦
                    find_valid_from-Below rounds (suc i) n seats service (found ++ i ∷ []) l
                      (omega arith) (All-append (Below n) found (i ∷ []) below (omega arith, tt))
                      more
                | inr (_, bad) ↦ cc
              ]
        | inr (_, rest) ↦
            find_valid_from-Below rounds (suc i) n seats service found l (omega arith) below rest
      ]

pub find_valid_seats-Below :
    (n : ℕ) (st : Stations) (service : ℕ) (l : List ℕ)
    → find_valid_seats n st service ≡ ok l
    → All (Below n) l
unfolding find_valid_seats
find_valid_seats-Below n st service l e =
    find_valid_from-Below n 0 n st.seats service [] l (omega arith) tt e

taken-Below :
    (n : ℕ) (a b : Option ℕ × List Seat) → SeatBelow n (a.0) → ok a ≡ ok b → SeatBelow n (b.0)
taken-Below n a b h e =
    subst (λ (x : Option ℕ × List Seat). SeatBelow n (x.0)) (ok-injective a b e) h

attempt_take-Below :
    (n : ℕ) (seats : List Seat) (valid : List ℕ) (r : Option ℕ) (seats' : List Seat)
    → All (Below n) valid
    → attempt_take seats valid ≡ ok (r, seats')
    → SeatBelow n r
unfolding attempt_take
attempt_take-Below n seats [] r seats' h e = taken-Below n (none, seats) (r, seats') tt e
attempt_take-Below n seats (k ∷ valid) r seats' h e =
    let (seat, _, e') = >>=-eq-ok (read seats k) _ e in
    elim (if_cases (is_free seat.user_status) _ (attempt_take seats valid) e') [
      | inl (_, here) ↦
          let (seats1, _, taken) = >>=-eq-ok (modify seats k seat_user) _ here in
          taken-Below n (some k, seats1) (r, seats') h.0 taken
      | inr (_, later) ↦ attempt_take-Below n seats valid r seats' h.1 later
    ]

pub attempt_take_seat-Below :
    (n : ℕ) (st st' : Stations) (valid : List ℕ) (r : Option ℕ)
    → All (Below n) valid
    → attempt_take_seat st valid ≡ ok (r, st')
    → SeatBelow n r
unfolding attempt_take_seat
attempt_take_seat-Below n st st' valid r h e =
    let (x, e', e'') = >>=-eq-ok (attempt_take st.seats valid) _ e in
    subst (λ (y : Option ℕ × Stations). SeatBelow n (y.0)) (ok-injective _ (r, st') e'')
      (attempt_take-Below n st.seats valid (x.0) (x.1) h e')

-- ===== src/Stations/Users.antt =====
-- src/utente.c: what `find_valid_seats` lists, and what `attempt_take_seat` takes.
use mathlib.Core.List.{append-nil, append_assoc}
use native.Mathlib.Decide.{ℕ_discrete}
use poste_italiane_simulatio.Prelude.{
  ℕ, zero, suc, ◌+◌, ◌≤◌, ◌<◌, ◌≡◌, refl, sym, ap, ◌∙◌, ◌⊎◌, inl, inr, Bool, true, false, ◌&&◌,
  List, [], ◌∷◌, ◌++◌, All, Option, none, some, ok, read_total, modify_total, IsModified, length,
  length-append, ltb, ◌==◌, Bool-cases, arith,
}
use poste_italiane_simulatio.Config.Defs.{max_worker_seats}
use poste_italiane_simulatio.Stations.Defs.{
  SeatStatus, free, occupied, is_free, is_occupied, Seat, Stations, find_valid_from,
  find_valid_seats, seat_user, attempt_take, attempt_take_seat,
}
use poste_italiane_simulatio.Stations.Search.{Hit, Hit-read}

abbrev pub Listed : ℕ → List ℕ → Type 0
Listed k [] = ⊥
Listed k (x ∷ xs) = (k ≡ x) ⊎ Listed k xs

-- Strictly ascending, from `lo` on.
abbrev pub Ascends : ℕ → List ℕ → Type 0
Ascends lo [] = Unit
Ascends lo (x ∷ xs) = (lo ≤ x) × Ascends (suc x) xs

-- The indices from `lo` on and below `hi` where `P` holds, in order, each once.
pub record Selects (P : Seat → Type 0) (seats : List Seat) (lo hi : ℕ) (l : List ℕ) : Type 0 where
  pub ascends : Ascends lo l
  pub sound : All (λ k. (k < hi) × Hit P seats k) l
  pub complete : (j : ℕ) → lo ≤ j → j < hi → Hit P seats j → Listed j l

abbrev pub ServedBy : ℕ → Seat → Type 0
ServedBy service seat = (seat.service_id ≡ service) × (seat.operator_status ≡ occupied)

Ascends-weaken : (lo : ℕ) (l : List ℕ) → Ascends (suc lo) l → Ascends lo l
Ascends-weaken lo [] a = tt
Ascends-weaken lo (x ∷ xs) a = (omega (arith, a.0), a.1)

module _ (P : Seat → Type 0) (seats : List Seat) where
  Selects-empty : (lo hi : ℕ) → hi ≤ lo → Selects P seats lo hi []
  Selects-empty lo hi le = record {
    ascends = tt;
    sound = tt;
    complete = λ j a b h. absurd (omega arith);
  }

  Selects-miss :
      (lo hi : ℕ) (l : List ℕ)
      → ¬ Hit P seats lo
      → Selects P seats (suc lo) hi l
      → Selects P seats lo hi l
  Selects-miss lo hi l miss s = record {
    ascends = Ascends-weaken lo l s.ascends;
    sound = s.sound;
    complete = λ j a b h. elim (ℕ_discrete lo j) [
      | yes e ↦ absurd (miss (rw e h))
      | no ne ↦ s.complete j (omega arith) b h
    ];
  }

  Selects-hit :
      (lo hi : ℕ) (l : List ℕ)
      → lo < hi
      → Hit P seats lo
      → Selects P seats (suc lo) hi l
      → Selects P seats lo hi (lo ∷ l)
  Selects-hit lo hi l lt hit s = record {
    ascends = (omega arith, s.ascends);
    sound = ((lt, hit), s.sound);
    complete = λ j a b h. elim (ℕ_discrete lo j) [
      | yes e ↦ inl (sym e)
      | no ne ↦ inr (s.complete j (omega arith) b h)
    ];
  }

abbrev serves : ℕ → Seat → Bool
serves service seat = seat.service_id == service && is_occupied seat.operator_status

ServedBy-of_test : (seat : Seat) (service : ℕ) → serves service seat ≡ true → ServedBy service seat
ServedBy-of_test seat service h = ground arith

test-ServedBy : (seat : Seat) (service : ℕ) → serves service seat ≡ false → ¬ ServedBy service seat
test-ServedBy seat service h f = ground arith

has_room :
    (found : List ℕ) (rounds : ℕ)
    → length found + suc rounds ≤ max_worker_seats
    → ltb (length found) max_worker_seats ≡ true
has_room found rounds h = ground arith

find_valid_from-Selects :
    (rounds i hi : ℕ) (seats : List Seat) (service : ℕ) (found : List ℕ)
    → i + rounds ≡ hi
    → hi ≤ length seats
    → length found + rounds ≤ max_worker_seats
    → (l : List ℕ) × (find_valid_from rounds i seats service found ≡ ok (found ++ l))
      × Selects (ServedBy service) seats i hi l
unfolding find_valid_from
find_valid_from-Selects zero i hi seats service found s h room =
    ([], rw append-nil, Selects-empty _ seats i hi (omega arith))
find_valid_from-Selects (suc rounds) i hi seats service found s h room =
    let (seat, e) = read_total seats i (omega arith) in
    elim (Bool-cases (serves service seat)) [
      | inl hit ↦
          let (l, eq, sel) =
            find_valid_from-Selects rounds (suc i) hi seats service (found ++ i ∷ []) (omega arith)
              h (omega (arith, length-append found (i ∷ []))) in
          (
            i ∷ l,
            rw (e, hit, has_room found rounds room) (eq ∙ ap ok (append_assoc found (i ∷ []) l)),
            Selects-hit _ seats i hi l (omega arith) (seat, e, ServedBy-of_test seat service hit)
                sel,
          )
      | inr miss ↦
          let (l, eq, sel) =
            find_valid_from-Selects rounds (suc i) hi seats service found (omega arith) h
              (omega arith) in
          (
            l,
            rw (e, miss, eq),
            Selects-miss _ seats i hi l
                (λ h.
                  test-ServedBy seat service miss (Hit-read (ServedBy service) seats i seat e h))
                sel,
          )
    ]

-- With at most thirty seats configured, `find_valid_seats` writes within its array, and lists the
-- seats of the service that an operator sits on: all of them, no other, once each and in order.
pub find_valid_seats-Selects :
    (n : ℕ) (st : Stations) (service : ℕ)
    → n ≤ max_worker_seats
    → n ≤ length st.seats
    → (l : List ℕ) × (find_valid_seats n st service ≡ ok l)
      × Selects (ServedBy service) st.seats 0 n l
unfolding find_valid_seats
find_valid_seats-Selects n st service small h =
    find_valid_from-Selects n 0 n st.seats service [] (omega arith) h (omega arith)

abbrev pub UserOn : SeatStatus → Seat → Type 0
UserOn status seat = seat.user_status ≡ status

-- What `attempt_take_seat` may answer: -1 with all the valid seats taken and nothing changed, or
-- the first of them that was free, and only that one changed.
pub data Attempts (seats : List Seat) : List ℕ → Option ℕ → List Seat → Type 0 where
  full :
      {valid : List ℕ} → All (Hit (UserOn occupied) seats) valid → Attempts seats valid none seats
  took :
      {valid : List ℕ} {seats' : List Seat} (before : List ℕ) (k : ℕ) (after : List ℕ)
      → valid ≡ before ++ k ∷ after
      → All (Hit (UserOn occupied) seats) before
      → Hit (UserOn free) seats k
      → IsModified seats k seat_user seats'
      → Attempts seats valid (some k) seats'

Attempts-cons :
    {seats seats' : List Seat} {valid : List ℕ} {r : Option ℕ} (k : ℕ)
    → Hit (UserOn occupied) seats k
    → Attempts seats valid r seats'
    → Attempts seats (k ∷ valid) r seats'
Attempts-cons k h (full a) = full (h, a)
Attempts-cons k h (took before j after e a f m) =
    took (k ∷ before) j after (ap (◌∷◌ k) e) (h, a) f m

status_of_test : (seat : Seat) → is_free seat.user_status ≡ true → UserOn free seat
status_of_test seat h = ground arith

status_of_other : (seat : Seat) → is_free seat.user_status ≡ false → UserOn occupied seat
status_of_other seat h = ground arith

attempt_take-Attempts :
    (seats : List Seat) (valid : List ℕ)
    → All (λ k. k < length seats) valid
    → (r : Option ℕ) × (seats' : List Seat) × (attempt_take seats valid ≡ ok (r, seats'))
      × Attempts seats valid r seats'
unfolding attempt_take
attempt_take-Attempts seats [] h = (none, seats, refl, full tt)
attempt_take-Attempts seats (k ∷ valid) h =
    let (seat, e) = read_total seats k h.0 in
    elim (Bool-cases (is_free seat.user_status)) [
      | inl hit ↦
          let (seats', done, m) = modify_total seats k seat_user h.0 in
          (
            some k,
            seats',
            rw (e, hit, done),
            took [] k valid refl tt (seat, e, status_of_test seat hit) m,
          )
      | inr miss ↦
          let (r, seats', eq, a) = attempt_take-Attempts seats valid h.1 in
          (r, seats', rw (e, miss, eq), Attempts-cons k (seat, e, status_of_other seat miss) a)
    ]

-- `attempt_take_seat`, on valid seats within the array, gives -1 and changes nothing if a user sits
-- on each of them, and otherwise takes the first that is free, which it marks as occupied, and
-- changes no other seat and no semaphore.
pub attempt_take_seat-Attempts :
    (st : Stations) (valid : List ℕ)
    → All (λ k. k < length st.seats) valid
    → (r : Option ℕ) × (seats' : List Seat) × (attempt_take_seat st valid
        ≡ ok (r, record st { seats = seats' }))
      × Attempts st.seats valid r seats'
unfolding attempt_take_seat
attempt_take_seat-Attempts st valid h =
    let (r, seats', e, a) = attempt_take-Attempts st.seats valid h in (r, seats', rw e, a)

-- ===== src/Stations/Sharing.antt =====
-- src/utente.c: users who share the seats. A user holds a seat from the moment `attempt_take_seat`
-- gives it until `handle_service` frees it, or returns without doing so; a step is one critical
-- section of one process.
use native.Mathlib.Decide.{ℕ_discrete}
use mathlib.Core.Logic.{ite}
use mathlib.Core.Option.{some-injective}
use mathlib.Core.Path.{subst, subst₂}
use poste_italiane_simulatio.Prelude.{
  ℕ, ◌<◌, ◌≡◌, ◌≢◌, refl, sym, ap, ◌∙◌, List, All, Option, none, some, ok, ok-injective, ◌>>=◌,
  >>=-eq-ok, read, modify, modify-IsModified, IsModified, length, arith,
}
use poste_italiane_simulatio.Stations.Defs.{
  SeatStatus, free, occupied, Seat, Stations, seat_operator, unseat_operator, take_seat,
  release_seat, seat_user, unseat_user, attempt_take_seat, release_user_seat, reset_seats,
}
use poste_italiane_simulatio.Stations.Search.{Hit}
use poste_italiane_simulatio.Stations.Users.{
  UserOn, Attempts, full, took, attempt_take_seat-Attempts,
}

abbrev pub update : (ℕ → Option ℕ) → ℕ → Option ℕ → ℕ → Option ℕ
update f u v w = ite (ℕ_discrete u w) v (f w)

pub record Office : Type 0 where
  pub stations : Stations
  pub holds : ℕ → Option ℕ

-- A new day begins when no user holds a seat.
pub data Step (s : Office) : Office → Type 0 where
  user_takes :
      (u k : ℕ) (valid : List ℕ) {st : Stations}
      → s.holds u ≡ none
      → All (λ j. j < length s.stations.seats) valid
      → attempt_take_seat s.stations valid ≡ ok (some k, st)
      → Step s (record { stations = st; holds = update s.holds u (some k) })
  user_leaves :
      (u k : ℕ) {st : Stations}
      → s.holds u ≡ some k
      → release_user_seat s.stations k ≡ ok st
      → Step s (record { stations = st; holds = update s.holds u none })
  user_returns : (u : ℕ) → Step s (record s { holds = update s.holds u none })
  operator_sits :
      (pid i : ℕ) {st : Stations}
      → take_seat s.stations pid i ≡ ok st
      → Step s (record s { stations = st })
  operator_leaves :
      (i : ℕ) {st : Stations}
      → release_seat s.stations i ≡ ok st
      → Step s (record s { stations = st })
  new_day :
      (n : ℕ) (rand : ℕ → ℕ) {st : Stations}
      → ((u : ℕ) → s.holds u ≡ none)
      → reset_seats n rand s.stations ≡ ok st
      → Step s (record s { stations = st })

pub data Reach (st : Stations) : Office → Type 0 where
  start : Reach st (record { stations = st; holds = λ _. none })
  next : {s t : Office} → Reach st s → Step s t → Reach st t

-- Each seat that a user holds is marked, and no two users hold one.
pub record Inv (seats : List Seat) (holds : ℕ → Option ℕ) : Type 0 where
  pub marked : (u k : ℕ) → holds u ≡ some k → Hit (UserOn occupied) seats k
  pub single : (u v k : ℕ) → holds u ≡ some k → holds v ≡ some k → u ≡ v

-- Operators leave the users' marks alone.
Hit-modified :
    (x : SeatStatus) (seats seats' : List Seat) (i : ℕ) (f : Seat → Seat)
    → IsModified seats i f seats'
    → ((seat : Seat) → (f seat).user_status ≡ seat.user_status)
    → (j : ℕ) → Hit (UserOn x) seats j
    → Hit (UserOn x) seats' j
Hit-modified x seats seats' i f m keep j (seat, e, h) = elim (ℕ_discrete i j) [
  | yes same ↦
      (f seat, ap (read seats') (sym same) ∙ m.here seat (ap (read seats) same ∙ e), keep seat ∙ h)
  | no ne ↦ (seat, m.elsewhere j ne ∙ e, h)
]

Inv-modified :
    (seats seats' : List Seat) (holds : ℕ → Option ℕ) (i : ℕ) (f : Seat → Seat)
    → IsModified seats i f seats'
    → ((seat : Seat) → (f seat).user_status ≡ seat.user_status)
    → Inv seats holds
    → Inv seats' holds
Inv-modified seats seats' holds i f m keep inv = record {
  marked = λ u k h. Hit-modified occupied seats seats' i f m keep k (inv.marked u k h);
  single = inv.single;
}

Hit-free-occupied :
    (seats : List Seat) (k : ℕ) → Hit (UserOn free) seats k → Hit (UserOn occupied) seats k → ⊥
Hit-free-occupied seats k (a, e, f) (b, e', o) = cc (ok-injective a b (sym e ∙ e'))

module _ (seats seats' : List Seat) (holds : ℕ → Option ℕ) (u k : ℕ) where
  Inv-takes :
      Hit (UserOn free) seats k
      → IsModified seats k seat_user seats'
      → Inv seats holds
      → Inv seats' (update holds u (some k))
  Inv-takes (seat, e, f) m inv = record {
    marked = λ v j h. elim (ℕ_discrete k j) [
      | yes same ↦ (seat_user seat, ap (read seats') (sym same) ∙ m.here seat e, refl)
      | no ne ↦
          let (other, e', o) = inv.marked v j (ground arith) in (other, m.elsewhere j ne ∙ e', o)
    ];
    single = λ v w j hv hw. ground (arith, inv.single v w j, nobody v, nobody w);
  }
    where
      nobody : (v : ℕ) → holds v ≢ some k
      nobody v h = Hit-free-occupied seats k (seat, e, f) (inv.marked v k h)

  Inv-leaves :
      holds u ≡ some k
      → IsModified seats k unseat_user seats'
      → Inv seats holds
      → Inv seats' (update holds u none)
  Inv-leaves held m inv = record {
    marked = λ v j h.
        let other : k ≢ j = λ same. ground (arith, inv.single u v k) in
        let (seat, e, o) = inv.marked v j (ground arith) in (seat, m.elsewhere j other ∙ e, o);
    single = λ v w j hv hw. inv.single v w j (ground arith) (ground arith);
  }

  Inv-late : Inv seats holds → Inv seats (update holds u none)
  Inv-late inv = record {
    marked = λ v j h. inv.marked v j (ground arith);
    single = λ v w j hv hw. inv.single v w j (ground arith) (ground arith);
  }

-- The seats after an update of one seat in `Stations`.
modified :
    (st st' : Stations) (i : ℕ) (f : Seat → Seat) (rebuild : List Seat → Stations)
    → ((seats : List Seat) → (rebuild seats).seats ≡ seats)
    → (modify st.seats i f >>= λ seats. ok (rebuild seats)) ≡ ok st'
    → IsModified st.seats i f st'.seats
modified st st' i f rebuild keep e =
    let (seats, done, same) = >>=-eq-ok (modify st.seats i f) (λ seats. ok (rebuild seats)) e in
    modify-IsModified st.seats i f st'.seats
      (done ∙ ap ok (sym (keep seats) ∙ ap (λ (t : Stations). t.seats) (ok-injective _ _ same)))

Attempts-taken :
    (seats : List Seat) {r : Option ℕ} {valid : List ℕ} (k : ℕ) (seats' seats'' : List Seat)
    → r ≡ some k
    → seats' ≡ seats''
    → Attempts seats valid r seats'
    → Hit (UserOn free) seats k × IsModified seats k seat_user seats''
Attempts-taken seats k seats' seats'' er es (full a) = cc
Attempts-taken seats k seats' seats'' er es (took before j after _ _ h m) =
    let same = some-injective _ _ er in
    (
      subst (Hit (UserOn free) seats) same h,
      subst₂ (λ i ws. IsModified seats i seat_user ws) same es m,
    )

-- What a user who gets a seat has done to the seats.
taken :
    (st st' : Stations) (valid : List ℕ) (k : ℕ)
    → All (λ j. j < length st.seats) valid
    → attempt_take_seat st valid ≡ ok (some k, st')
    → Hit (UserOn free) st.seats k × IsModified st.seats k seat_user st'.seats
taken st st' valid k bound e =
    let (r, seats', e', a) = attempt_take_seat-Attempts st valid bound in
    let same = ok-injective _ _ (sym e' ∙ e) in
    Attempts-taken st.seats k seats' st'.seats (ap (λ (x : Option ℕ × Stations). x.0) same)
      (ap (λ (x : Option ℕ × Stations). x.1.seats) same) a

Step-Inv : {s t : Office} → Step s t → Inv s.stations.seats s.holds → Inv t.stations.seats t.holds
unfolding take_seat release_seat release_user_seat
Step-Inv {s} (user_takes u k valid {st} _ bound e) inv =
    let (hit, m) = taken s.stations st valid k bound e in
    Inv-takes s.stations.seats st.seats s.holds u k hit m inv
Step-Inv {s} (user_leaves u k {st} held e) inv =
    Inv-leaves s.stations.seats st.seats s.holds u k held
      (modified s.stations st k unseat_user _ (λ seats. refl) e) inv
Step-Inv {s} (user_returns u) inv = Inv-late s.stations.seats s.stations.seats s.holds u u inv
Step-Inv {s} (operator_sits pid i {st} e) inv =
    Inv-modified s.stations.seats st.seats s.holds i (seat_operator pid)
      (modified s.stations st i (seat_operator pid) _ (λ seats. refl) e) (λ seat. refl) inv
Step-Inv {s} (operator_leaves i {st} e) inv =
    Inv-modified s.stations.seats st.seats s.holds i unseat_operator
      (modified s.stations st i unseat_operator _ (λ seats. refl) e) (λ seat. refl) inv
Step-Inv (new_day n rand nobody e) inv = record {
  marked = λ u k h. cc (nobody u);
  single = λ u v k hu hv. cc (nobody u);
}

Reach-Inv : {st : Stations} {s : Office} → Reach st s → Inv s.stations.seats s.holds
Reach-Inv start = record { marked = λ u k h. cc; single = λ u v k h k'. cc }
Reach-Inv (next r step) = Step-Inv step (Reach-Inv r)

-- However users, operators and new days interleave, two users never hold one seat, and the seat
-- that a user holds is marked as occupied, as long as no new day begins while a user holds one.
pub seat_exclusive :
    {st : Stations} {s : Office}
    → Reach st s
    → (u v k : ℕ) → s.holds u ≡ some k
    → s.holds v ≡ some k
    → (u ≡ v) × Hit (UserOn occupied) s.stations.seats k
seat_exclusive r u v k hu hv = ((Reach-Inv r).single u v k hu hv, (Reach-Inv r).marked u k hu)

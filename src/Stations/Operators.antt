-- ===== src/Stations/Operators.antt =====
-- src/operatore.c, `wait_for_station` and the part of `work_loop` that gets a seat: operators who
-- share the seats, a critical section or a wait of one of them at a time.
use native.Mathlib.Decide.{ℕ_discrete}
use mathlib.Core.Logic.{ite}
use mathlib.Core.Option.{some-injective}
use poste_italiane_simulatio.Prelude.{
  ℕ, ◌-◌, ◌≤◌, ◌<◌, ◌≡◌, ◌≢◌, refl, sym, ap, ◌∙◌, List, Option, none, some, ok, ok-injective, read,
  read_total, modify_total, length, arith,
}
use poste_italiane_simulatio.Stations.Defs.{
  Seat, Stations, seat_operator, find_seat, take_seat, release_seat,
}
use poste_italiane_simulatio.Stations.Search.{FreeFor, First, find_seat-First}

-- Where an operator stands: before the first search, in `wait_for_station`, behind it with the seat
-- that it returned, on a seat, or gone home.
pub data Place : Type 0 where
  arriving waiting gone : Place
  spotted seated : (seat : ℕ) → Place

abbrev pub update : (ℕ → Place) → ℕ → Place → ℕ → Place
update f u v w = ite (ℕ_discrete u w) v (f w)

-- `service p` is the service of the operator with pid `p`.
pub record Shift : Type 0 where
  pub stations : Stations
  pub place : ℕ → Place

abbrev awake : Stations → Stations
awake st = record st { stations_event = st.stations_event - 1 }

module _ (n : ℕ) (service : ℕ → ℕ) where
  pub data Step (s : Shift) : Shift → Type 0 where
    sit_at_once :
        (p i : ℕ) {st : Stations}
        → s.place p ≡ arriving
        → find_seat n s.stations (service p) ≡ ok (some i)
        → take_seat s.stations p i ≡ ok st
        → Step s (record { stations = st; place = update s.place p (seated i) })
    find_none :
        (p : ℕ)
        → s.place p ≡ arriving
        → find_seat n s.stations (service p) ≡ ok none
        → Step s (record s { place = update s.place p waiting })
    -- sem_timedwait gets a token, and find_seat runs with no lock held.
    spot :
        (p i : ℕ)
        → s.place p ≡ waiting
        → 0 < s.stations.stations_event
        → find_seat n (awake s.stations) (service p) ≡ ok (some i)
        → Step s (record { stations = awake s.stations; place = update s.place p (spotted i) })
    -- No seat: the token goes back.
    miss :
        (p : ℕ)
        → s.place p ≡ waiting
        → 0 < s.stations.stations_event
        → find_seat n (awake s.stations) (service p) ≡ ok none
        → Step s s
    closed : (p : ℕ) → s.place p ≡ waiting → Step s (record s { place = update s.place p gone })
    claim :
        (p i : ℕ) {st : Stations}
        → s.place p ≡ spotted i
        → take_seat s.stations p i ≡ ok st
        → Step s (record { stations = st; place = update s.place p (seated i) })
    leave :
        (p i : ℕ) {st : Stations}
        → s.place p ≡ seated i
        → release_seat s.stations i ≡ ok st
        → Step s (record { stations = st; place = update s.place p gone })

  pub data Reach (s : Shift) : Shift → Type 0 where
    here : Reach s s
    next : {t u : Shift} → Reach s t → Step t u → Reach s u

  -- `find_seat` does not look at the semaphores.
  find_seat-awake : (st : Stations) (svc : ℕ) → find_seat n (awake st) svc ≡ find_seat n st svc
  unfolding find_seat
  find_seat-awake st svc = refl

  found_some :
      (seats : List Seat) (svc i : ℕ) (r : Option ℕ)
      → r ≡ some i
      → First (FreeFor svc) seats 0 n r
      → i < n
  found_some seats svc i none e f = cc
  found_some seats svc i (some k) e f = omega (arith, f.1, some-injective _ _ e)

  found-lt :
      (st : Stations) (svc i : ℕ)
      → n ≤ length st.seats
      → find_seat n st svc ≡ ok (some i)
      → i < length st.seats
  found-lt st svc i fits found =
      let (r, e, first) = find_seat-First n st svc fits in
      omega (arith, found_some st.seats svc i r (ok-injective _ _ (sym e ∙ found)) first)

  -- The seat that a waiting operator was given can be taken before the operator sits down, and is
  -- then taken twice. Wherever two operators of one service wait, two tokens are out and a seat of
  -- the service is free, a schedule lets both of them sit down on it, the second over the first.
  pub two_on_one_seat :
      (s : Shift) (p q i : ℕ)
      → n ≤ length s.stations.seats
      → p ≢ q
      → s.place p ≡ waiting
      → s.place q ≡ waiting
      → service p ≡ service q
      → 2 ≤ s.stations.stations_event
      → find_seat n s.stations (service p) ≡ ok (some i)
      → (t : Shift) × Reach s t
        × (t.place p ≡ seated i)
        × (t.place q ≡ seated i)
        × ((seat : Seat) → read t.stations.seats i ≡ ok seat → seat.operator_process ≡ q)
  unfolding take_seat
  two_on_one_seat s p q i fits ne wp wq same tokens found =
      let within = found-lt s.stations (service p) i fits found in
      let (seats, done, m) = modify_total s.stations.seats i (seat_operator p) within in
      let (seats', done', m') =
        modify_total seats i (seat_operator q) (omega (arith, m.same_length)) in
      let both = update (update s.place p (spotted i)) q (spotted i) in
      let twice = awake (awake s.stations) in
      (
        record {
          stations = record twice { seats = seats' };
          place = update (update both p (seated i)) q (seated i);
        },
        next
            (next
              (next (next here (spot p i wp (omega arith) (find_seat-awake _ _ ∙ found))) (
                spot q i (ground arith) (omega arith) (
                  find_seat-awake _ _
                  ∙ find_seat-awake _ _
                  ∙ ap (find_seat n s.stations) (sym same)
                  ∙ found)))
              (claim p i {st = record twice { seats = seats }} (ground arith) (rw done)))
            (claim q i {st = record twice { seats = seats' }} (ground arith) (rw done')),
        ground arith,
        ground arith,
        λ seat e.
            let (old, was) = read_total seats i (omega (arith, m.same_length)) in
            ap (λ (x : Seat). x.operator_process) (ok-injective _ _ (sym e ∙ m'.here old was)),
      )

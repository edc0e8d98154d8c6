-- ===== src/Store/Kept.antt =====
-- The shared memory of include/poste.h: a step in range never faults, and keeps the statistics a
-- summary of what was told.
use poste_italiane_simulatio.Prelude.{
  ℕ, ◌+◌, ◌-◌, ◌≤◌, ◌<◌, ◌≡◌, refl, sym, ap, ◌∙◌, List, [], ◌∷◌, All, Outcome, ok, ◌>>=◌, >>=-eq-ok,
  modify, modify_total, ok-injective, length, arith,
}
use poste_italiane_simulatio.Stats.Defs.{Double}
use poste_italiane_simulatio.Stats.Summary.{Event, new_day, minute, apply, run, summary}
use poste_italiane_simulatio.Stats.Refines.{InTable, counted, run-summary}
use poste_italiane_simulatio.Stations.Defs.{
  Seat, Stations, seat_user, unseat_user, seat_operator, unseat_operator, release_user_seat,
  take_seat, release_seat, reset_seats,
}
use poste_italiane_simulatio.Stations.NewDay.{reset_seats-IsReset}
use poste_italiane_simulatio.Utente.Visit.{Action}
use poste_italiane_simulatio.Operatore.Shift.{Deed}
use poste_italiane_simulatio.Store.Defs.{
  Store, Did, Duty, date, reset, clock, by_director, direct, by_user, by_operator, with_seats,
  with_event, act, serve, perform, perform_all, noted, history,
}

module _ {F : Type 0} where
  abbrev pub IsSafeAction : ℕ → Action F → Type 0
  IsSafeAction n (Action.tell e) = InTable e
  IsSafeAction n (Action.take k) = k < n
  IsSafeAction n (Action.free k) = k < n
  IsSafeAction n (Action.ask pid ticket) = Unit

  abbrev pub IsSafeDeed : ℕ → Deed F → Type 0
  IsSafeDeed n (Deed.tell e) = InTable e
  IsSafeDeed n (Deed.sit i) = i < n
  IsSafeDeed n (Deed.rise i) = i < n
  IsSafeDeed n _ = Unit

  abbrev pub IsSafe : ℕ → Did F → Type 0
  IsSafe n (by_user a) = IsSafeAction n a
  IsSafe n (by_operator pid a) = IsSafeDeed n a
  IsSafe n (by_director k (reset rand)) = k ≤ n
  IsSafe n (by_director k _) = Unit

module _ {F : Type 0} ⦃d : Double F⦄ where
  -- The statistics are those of a history, and the seats have room.
  pub record IsKept (n : ℕ) (es : List (Event F)) (s : Store F) : Type 0 where
    pub stats_are : run es ≡ ok s.stats
    pub in_table : All InTable es
    pub room : n ≤ length s.stations.seats

  Keeps : ℕ → List (Event F) → Outcome (Store F) → Type 0
  Keeps n es o = (s : Store F) × (o ≡ ok s) × IsKept n es s

  with_event-Keeps :
      (n : ℕ) (es : List (Event F)) (s : Store F) (e : Event F)
      → IsKept n es s
      → InTable e
      → Keeps n (e ∷ es) (with_event s e)
  unfolding Keeps run
  with_event-Keeps n es s e k h =
      let after = run-summary (e ∷ es) (h, k.in_table) in
      let (stats, before, updated) = >>=-eq-ok (run es) (λ x. apply x e) after in
      let same : stats ≡ s.stats = ok-injective stats s.stats (sym before ∙ k.stats_are) in
      let now : apply s.stats e ≡ ok (summary counted (e ∷ es)) =
        ap (λ x. apply x e) (sym same) ∙ updated in
      (
        record s { stats = summary counted (e ∷ es) },
        rw now refl,
        record { stats_are = after; in_table = (h, k.in_table); room = k.room },
      )

  with_seats-Keeps :
      (n : ℕ) (es : List (Event F)) (s : Store F) (st : Stations) (o : Outcome Stations)
      → IsKept n es s
      → o ≡ ok st
      → length st.seats ≡ length s.stations.seats
      → Keeps n es (with_seats s o)
  unfolding Keeps
  with_seats-Keeps n es s st o k e same = (
    record s { stations = st },
    rw e refl,
    record { stats_are = k.stats_are; in_table = k.in_table; room = omega (arith, same, k.room) },
  )

  -- A change of one seat.
  modify-Keeps :
      (n : ℕ) (es : List (Event F)) (s : Store F) (i : ℕ) (f : Seat → Seat)
      (rest : List Seat → Stations)
      → IsKept n es s
      → i < n
      → ((seats : List Seat) → (rest seats).seats ≡ seats)
      → Keeps n es (with_seats s (modify s.stations.seats i f >>= λ seats. ok (rest seats)))
  unfolding Keeps
  modify-Keeps n es s i f rest k h same =
      let (seats, e, m) = modify_total s.stations.seats i f (omega (arith, k.room)) in
      with_seats-Keeps n es s (rest seats) _ k (rw e refl) (ap length (same seats) ∙ m.same_length)

  same-Keeps :
      (n : ℕ) (es : List (Event F)) (s : Store F) (tokens : ℕ)
      → IsKept n es s
      → Keeps n es (ok (record s { stations = record s.stations { stations_event = tokens } }))
  unfolding Keeps
  same-Keeps n es s tokens k =
      (_, refl, record { stats_are = k.stats_are; in_table = k.in_table; room = k.room })

  act-Keeps :
      (n : ℕ) (es : List (Event F)) (s : Store F) (a : Action F)
      → IsKept n es s
      → IsSafeAction n a
      → Keeps n (noted es (by_user a)) (act s a)
  unfolding release_user_seat
  act-Keeps n es s (Action.tell e) k h = with_event-Keeps n es s e k h
  act-Keeps n es s (Action.take i) k h =
      modify-Keeps n es s i seat_user (λ seats. record s.stations { seats = seats }) k h
        (λ seats. refl)
  act-Keeps n es s (Action.free i) k h =
      modify-Keeps n es s i unseat_user
        (λ seats. record s.stations {
          seats = seats;
          stations_freed_event = s.stations.stations_freed_event + 1;
        })
        k h (λ seats. refl)
  act-Keeps n es s (Action.ask pid ticket) k h = unfold Keeps in (s, refl, k)

  serve-Keeps :
      (n : ℕ) (es : List (Event F)) (s : Store F) (pid : ℕ) (a : Deed F)
      → IsKept n es s
      → IsSafeDeed n a
      → Keeps n (noted es (by_operator pid a)) (serve s pid a)
  unfolding take_seat release_seat
  serve-Keeps n es s pid (Deed.tell e) k h = with_event-Keeps n es s e k h
  serve-Keeps n es s pid (Deed.sit i) k h =
      modify-Keeps n es s i (seat_operator pid) (λ seats. record s.stations { seats = seats }) k h
        (λ seats. refl)
  serve-Keeps n es s pid (Deed.rise i) k h =
      modify-Keeps n es s i unseat_operator
        (λ seats. record s.stations {
          seats = seats;
          stations_event = s.stations.stations_event + 1;
        })
        k h (λ seats. refl)
  serve-Keeps n es s pid Deed.wake k h = same-Keeps n es s (s.stations.stations_event - 1) k
  serve-Keeps n es s pid Deed.wake_next k h = same-Keeps n es s (s.stations.stations_event + 1) k
  serve-Keeps n es s pid Deed.close_token k h = unfold Keeps in (s, refl, k)
  serve-Keeps n es s pid (Deed.answer user ticket time) k h = unfold Keeps in (s, refl, k)
  serve-Keeps n es s pid (Deed.lost user ticket) k h = unfold Keeps in (s, refl, k)

  direct-Keeps :
      (n : ℕ) (es : List (Event F)) (s : Store F) (k : ℕ) (a : Duty)
      → IsKept n es s
      → IsSafe {F = F} n (by_director k a)
      → Keeps n (noted es (by_director k a)) (direct s k a)
  direct-Keeps n es s k (date day) kept h = with_event-Keeps n es s (new_day day) kept tt
  direct-Keeps n es s k (clock m) kept h = with_event-Keeps n es s (minute m) kept tt
  direct-Keeps n es s k (reset rand) kept h =
      let (seats, e, r) = reset_seats-IsReset k rand s.stations (omega (arith, kept.room)) in
      with_seats-Keeps n es s (record s.stations { seats = seats }) (reset_seats k rand s.stations)
        kept e r.same_length

  perform-Keeps :
      (n : ℕ) (es : List (Event F)) (s : Store F) (x : Did F)
      → IsKept n es s
      → IsSafe n x
      → Keeps n (noted es x) (perform s x)
  perform-Keeps n es s (by_user a) k h = act-Keeps n es s a k h
  perform-Keeps n es s (by_operator pid a) k h = serve-Keeps n es s pid a k h
  perform-Keeps n es s (by_director n' a) k h = direct-Keeps n es s n' a k h

  pub perform_all-IsKept :
      (n : ℕ) (es : List (Event F)) (s : Store F) (xs : List (Did F))
      → IsKept n es s
      → All (IsSafe n) xs
      → (s' : Store F) × (perform_all s xs ≡ ok s') × IsKept n (history es xs) s'
  unfolding perform_all Keeps
  perform_all-IsKept n es s [] k h = (s, refl, k)
  perform_all-IsKept n es s (x ∷ xs) k h =
      let (s1, e, k1) = perform-Keeps n es s x k h.0 in
      let (s', e', k') = perform_all-IsKept n (noted es x) s1 xs k1 h.1 in (s', rw e e', k')

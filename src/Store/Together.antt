-- ===== src/Store/Together.antt =====
-- src/utente.c, src/operatore.c and src/direttore.c: any number of days of users and operators,
-- interleaved in any way with each other and the director on the shared memory of include/poste.h.
use poste_italiane_simulatio.Prelude.{
  ℕ, ◌≤◌, ◌<◌, ◌≡◌, refl, Bool, List, [], ◌∷◌, All, map, arith, ok, ok-injective, sym, ◌∙◌, length,
}
use poste_italiane_simulatio.Config.Defs.{PosteConfig}
use poste_italiane_simulatio.Stats.Defs.{Double, no_stats}
use poste_italiane_simulatio.Stats.Summary.{run, summary}
use poste_italiane_simulatio.Stats.Refines.{counted, run-summary}
use poste_italiane_simulatio.Stations.Defs.{Stations}
use poste_italiane_simulatio.Utente.Visit.{Action, Visit, day_loop}
use poste_italiane_simulatio.Utente.Visit as User
use poste_italiane_simulatio.Utente.Each as UserEach
use poste_italiane_simulatio.Operatore.Shift.{Deed, Day, operator_day}
use poste_italiane_simulatio.Operatore.Shift as Operator
use poste_italiane_simulatio.Operatore.Each as OperatorEach
use poste_italiane_simulatio.Store.Defs.{
  Store, Duty, date, reset, clock, by_director, Did, by_user, by_operator, perform_all, history,
}
use poste_italiane_simulatio.Store.Kept.{IsSafeAction, IsSafeDeed, IsSafe, perform_all-IsKept}

map-IsSafe_duties :
    (F : Type 0) (n : ℕ) (ds : List Duty)
    → All (IsSafe {F = F} n) (map (λ (x : Duty). by_director n x) ds)
map-IsSafe_duties F n [] = tt
map-IsSafe_duties F n (date day ∷ ds) = (tt, map-IsSafe_duties F n ds)
map-IsSafe_duties F n (reset rand ∷ ds) = (omega arith, map-IsSafe_duties F n ds)
map-IsSafe_duties F n (clock m ∷ ds) = (tt, map-IsSafe_duties F n ds)

module _ {F : Type 0} where
  -- What one process did on a day of the configuration: a user whose services are of the six and
  -- whom operators answer with one of the six, an operator of one of the six services, or the
  -- director.
  pub data DidOnDay (ratio : ℕ → ℕ → F) (of_int : ℕ → F) (g : PosteConfig)
      : List (Did F) → Type 0 where
    user_day :
        (been : Bool) (services : List ℕ) (inputs : List (ℕ × User.Inputs F)) (v : Visit F)
        → All (λ service. service < 6) services
        → All (λ (x : ℕ × User.Inputs F). UserEach.DoneInTable x.1.done) inputs
        → day_loop of_int g been services inputs ≡ ok v
        → DidOnDay ratio of_int g (map by_user v.actions)
    operator_shift :
        (pid service pauses : ℕ) (i : Operator.Inputs) (d : Day F)
        → service < 6
        → operator_day ratio g service pauses i ≡ ok d
        → DidOnDay ratio of_int g (map (by_operator pid) d.deeds)
    director :
        (duties : List Duty) → DidOnDay ratio of_int g (map (by_director g.num_worker_seats) duties)

  -- The steps of two, in an order that keeps that of each, until one of them does no more.
  pub data Shuffle : List (Did F) → List (Did F) → List (Did F) → Type 0 where
    left : (x : Did F) (xs ys zs : List (Did F)) → Shuffle xs ys zs → Shuffle (x ∷ xs) ys (x ∷ zs)
    right : (y : Did F) (xs ys zs : List (Did F)) → Shuffle xs ys zs → Shuffle xs (y ∷ ys) (y ∷ zs)
    no_more : (xs ys : List (Did F)) → Shuffle xs ys xs

  -- Any number of such days at once.
  pub data Together (ratio : ℕ → ℕ → F) (of_int : ℕ → F) (g : PosteConfig)
      : List (Did F) → Type 0 where
    nothing : Together ratio of_int g []
    one_more :
        (xs ys zs : List (Did F))
        → Together ratio of_int g xs
        → DidOnDay ratio of_int g ys
        → Shuffle ys xs zs
        → Together ratio of_int g zs

  Shuffle-All :
      (P : Did F → Type 0) (xs ys zs : List (Did F))
      → Shuffle xs ys zs
      → All P xs
      → All P ys
      → All P zs
  Shuffle-All P _ _ _ (left x xs ys zs s) hx hy = (hx.0, Shuffle-All P xs ys zs s hx.1 hy)
  Shuffle-All P _ _ _ (right y xs ys zs s) hx hy = (hy.0, Shuffle-All P xs ys zs s hx hy.1)
  Shuffle-All P _ _ _ (no_more xs ys) hx hy = hx

  map-IsSafe :
      (n : ℕ) (xs : List (Action F)) → All (IsSafeAction n) xs → All (IsSafe n) (map by_user xs)
  map-IsSafe n [] h = tt
  map-IsSafe n (x ∷ xs) h = (h.0, map-IsSafe n xs h.1)

  map-IsSafe_deeds :
      (n pid : ℕ) (xs : List (Deed F))
      → All (IsSafeDeed n) xs
      → All (IsSafe n) (map (by_operator pid) xs)
  map-IsSafe_deeds n pid [] h = tt
  map-IsSafe_deeds n pid (x ∷ xs) h = (h.0, map-IsSafe_deeds n pid xs h.1)

  IsSafeAction-Allowed : (n : ℕ) → UserEach.Allowed (IsSafeAction {F = F} n) n
  IsSafeAction-Allowed n = record {
    on_failure = λ service h. h;
    on_late = λ service h. h;
    on_success = λ service wait_time service_time h. h;
    on_take = λ k h. h;
    on_free = λ k h. h;
    on_ask = λ op_pid ticket. tt;
  }

  IsSafeDeed-Allowed :
      (n service : ℕ) → service < 6 → OperatorEach.Allowed (IsSafeDeed {F = F} n) n service
  IsSafeDeed-Allowed n service h = record {
    on_sit = λ i h'. h';
    on_rise = λ i h'. h';
    on_wake = tt;
    on_wake_next = tt;
    on_close = tt;
    on_request = h;
    on_pause = tt;
    on_worked = tt;
    on_answer = λ user_pid ticket time. tt;
  }

  module _ (ratio : ℕ → ℕ → F) (of_int : ℕ → F) (g : PosteConfig) where
    DidOnDay-IsSafe :
        (xs : List (Did F)) → DidOnDay ratio of_int g xs → All (IsSafe g.num_worker_seats) xs
    DidOnDay-IsSafe _ (user_day been services inputs v h hd e) =
        map-IsSafe g.num_worker_seats v.actions (
          UserEach.day_loop-All (IsSafeAction g.num_worker_seats) g.num_worker_seats
            (IsSafeAction-Allowed g.num_worker_seats) of_int g refl been services inputs v h hd e)
    DidOnDay-IsSafe _ (director duties) = map-IsSafe_duties F g.num_worker_seats duties
    DidOnDay-IsSafe _ (operator_shift pid service pauses i d h e) =
        map-IsSafe_deeds g.num_worker_seats pid d.deeds (
          OperatorEach.operator_day-All (IsSafeDeed g.num_worker_seats) g service
            (IsSafeDeed-Allowed g.num_worker_seats service h) ratio pauses i d
            (OperatorEach.lost-AllowsLost (IsSafeDeed {F = F} g.num_worker_seats) i.passes
              (λ user ticket. tt))
            e)

    Together-IsSafe :
        (zs : List (Did F)) → Together ratio of_int g zs → All (IsSafe g.num_worker_seats) zs
    Together-IsSafe _ nothing = tt
    Together-IsSafe zs (one_more xs ys _ t d s) =
        Shuffle-All (IsSafe g.num_worker_seats) ys xs zs s (DidOnDay-IsSafe ys d)
          (Together-IsSafe xs t)

-- However the steps of the days of any number of users and operators are interleaved, with each
-- other and with the days, the resets of the seats and the minutes that the director writes, each day
-- whole or cut off anywhere, and whatever tables each of them read: where users ask for services of
-- the six, are answered with one of the six, operators work for one of the six, and the shared
-- table has room for the configured seats, no step faults on the shared memory; the table keeps its
-- room; and the statistics, from zeroes, are at the end the summary of all updates made, in the
-- order in which they were made.
pub Together-summary :
    {F : Type 0} ⦃d : Double F⦄ (ratio : ℕ → ℕ → F) (of_int : ℕ → F) (g : PosteConfig)
    (st : Stations) (dids : List (Did F))
    → g.num_worker_seats ≤ length st.seats
    → Together ratio of_int g dids
    → (s : Store F) × (perform_all (record { stats = no_stats; stations = st }) dids ≡ ok s)
      × (s.stats ≡ summary counted (history [] dids))
      × (g.num_worker_seats ≤ length s.stations.seats)
unfolding run
Together-summary {F} ratio of_int g st dids room t =
    let (s, e, k) =
      perform_all-IsKept g.num_worker_seats [] (record { stats = no_stats; stations = st }) dids
        (record { stats_are = refl; in_table = tt; room = room })
        (Together-IsSafe ratio of_int g dids t) in
    (
      s,
      e,
      ok-injective s.stats _ (sym k.stats_are ∙ run-summary (history [] dids) k.in_table),
      k.room,
    )

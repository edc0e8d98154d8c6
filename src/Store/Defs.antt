-- ===== src/Store/Defs.antt =====
-- The statistics and the seats of include/poste.h as one store, and what the actions of the users of
-- src/utente.c, the deeds of the operators of src/operatore.c, and the director of src/direttore.c do
-- to it. Each is one critical section under its lock, or touches neither.
use poste_italiane_simulatio.Prelude.{ℕ, ◌+◌, ◌-◌, List, [], ◌∷◌, Outcome, ok, ◌>>=◌, modify}
use poste_italiane_simulatio.Stats.Defs.{Double, PosteStats}
use poste_italiane_simulatio.Stats.Summary.{Event, new_day, minute, apply}
use poste_italiane_simulatio.Stations.Defs.{
  Stations, seat_user, release_user_seat, take_seat, release_seat, reset_seats,
}
use poste_italiane_simulatio.Utente.Visit.{Action}
use poste_italiane_simulatio.Operatore.Shift.{Deed}

pub record Store (F : Type 0) : Type 0 where
  pub stats : PosteStats F
  pub stations : Stations

-- What the director writes: the day in `start_new_day`, and there the seats as rand() chooses their
-- services, and the minute in the loop of `main`.
pub data Duty : Type 0 where
  date : (day : ℕ) → Duty
  reset : (rand : ℕ → ℕ) → Duty
  clock : (minutes_elapsed : ℕ) → Duty

pub data Did (F : Type 0) : Type 0 where
  by_user : Action F → Did F
  by_operator : (pid : ℕ) → Deed F → Did F
  by_director : (num_worker_seats : ℕ) → Duty → Did F

-- The seat that `attempt_take_seat` found is marked.
abbrev pub mark : Stations → ℕ → Outcome Stations
mark st k = modify st.seats k seat_user >>= λ seats. ok (record st { seats = seats })

module _ {F : Type 0} where
  abbrev pub with_seats : Store F → Outcome Stations → Outcome (Store F)
  with_seats s o = o >>= λ st. ok (record s { stations = st })

module _ {F : Type 0} ⦃d : Double F⦄ where
  abbrev pub with_event : Store F → Event F → Outcome (Store F)
  with_event s e = apply s.stats e >>= λ stats. ok (record s { stats = stats })

  abbrev pub act : Store F → Action F → Outcome (Store F)
  act s (Action.tell e) = with_event s e
  act s (Action.take k) = with_seats s (mark s.stations k)
  act s (Action.free k) = with_seats s (release_user_seat s.stations k)
  act s (Action.ask pid ticket) = ok s

  abbrev pub serve : Store F → ℕ → Deed F → Outcome (Store F)
  serve s pid (Deed.tell e) = with_event s e
  serve s pid (Deed.sit i) = with_seats s (take_seat s.stations pid i)
  serve s pid (Deed.rise i) = with_seats s (release_seat s.stations i)
  serve s pid Deed.wake =
      ok (record s {
        stations = record s.stations { stations_event = s.stations.stations_event - 1 };
      })
  serve s pid Deed.wake_next =
      ok (record s {
        stations = record s.stations { stations_event = s.stations.stations_event + 1 };
      })
  serve s pid Deed.close_token = ok s
  serve s pid (Deed.answer user ticket time) = ok s
  serve s pid (Deed.lost user ticket) = ok s

  abbrev pub direct : Store F → ℕ → Duty → Outcome (Store F)
  direct s n (date day) = with_event s (new_day day)
  direct s n (reset rand) = with_seats s (reset_seats n rand s.stations)
  direct s n (clock m) = with_event s (minute m)

  abbrev pub perform : Store F → Did F → Outcome (Store F)
  perform s (by_user a) = act s a
  perform s (by_operator pid a) = serve s pid a
  perform s (by_director n a) = direct s n a

  unfoldable pub perform_all : Store F → List (Did F) → Outcome (Store F)
  perform_all s [] = ok s
  perform_all s (x ∷ xs) = perform s x >>= λ s'. perform_all s' xs

module _ {F : Type 0} where
  -- The updates of the statistics, the newest first, behind those of before.
  abbrev pub noted : List (Event F) → Did F → List (Event F)
  noted es (by_user (Action.tell e)) = e ∷ es
  noted es (by_operator pid (Deed.tell e)) = e ∷ es
  noted es (by_director n (date day)) = new_day day ∷ es
  noted es (by_director n (clock m)) = minute m ∷ es
  noted es _ = es

  abbrev pub history : List (Event F) → List (Did F) → List (Event F)
  history es [] = es
  history es (x ∷ xs) = history (noted es x) xs

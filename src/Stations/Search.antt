-- ===== src/Stations/Search.antt =====
-- src/operatore.c: what `find_seat` and `can_work_today` find.
use mathlib.Core.Path.{subst}
use native.Mathlib.Decide.{ℕ_discrete}
use poste_italiane_simulatio.Prelude.{
  ℕ, zero, suc, ◌+◌, ◌≤◌, ◌<◌, ◌≡◌, refl, sym, ap, ◌∙◌, inl, inr, Bool, true, false, ◌&&◌, List,
  Option, none, some, ok, ok-injective, read, read_total, read-lt, length, ◌==◌, Bool-cases, ==_iff,
  arith,
}
use poste_italiane_simulatio.Stations.Defs.{
  free, is_free, Seat, Stations, find_seat_from, find_seat, can_work_from, can_work_today,
}

-- A seat of the array, at this index, for which `P` holds.
abbrev pub Hit : (Seat → Type 0) → List Seat → ℕ → Type 0
Hit P seats j = (seat : Seat) × (read seats j ≡ ok seat) × P seat

-- The first hit from `lo` on and below `hi`, or none where there is no hit.
abbrev pub First : (Seat → Type 0) → List Seat → ℕ → ℕ → Option ℕ → Type 0
First P seats lo hi none = (j : ℕ) → lo ≤ j → j < hi → ¬ Hit P seats j
First P seats lo hi (some k) =
    (lo ≤ k) × (k < hi) × Hit P seats k × ((j : ℕ) → lo ≤ j → j < k → ¬ Hit P seats j)

module _ (P : Seat → Type 0) (seats : List Seat) where
  First-here : (lo hi : ℕ) → lo < hi → Hit P seats lo → First P seats lo hi (some lo)
  First-here lo hi lt h = (omega arith, lt, h, λ j a b. absurd (omega arith))

  misses_later :
      (lo hi : ℕ)
      → ¬ Hit P seats lo
      → ((j : ℕ) → suc lo ≤ j → j < hi → ¬ Hit P seats j)
      → (j : ℕ) → lo ≤ j
      → j < hi
      → ¬ Hit P seats j
  misses_later lo hi miss f j a b h = elim (ℕ_discrete lo j) [
    | yes e ↦ miss (rw e h)
    | no ne ↦ f j (omega arith) b h
  ]

  First-later :
      (lo hi : ℕ) (r : Option ℕ)
      → ¬ Hit P seats lo
      → First P seats (suc lo) hi r
      → First P seats lo hi r
  First-later lo hi none miss f = misses_later lo hi miss f
  First-later lo hi (some k) miss f = (omega (arith, f.0), f.1, f.2, misses_later lo k miss f.3)

  pub Hit-read : (i : ℕ) (seat : Seat) → read seats i ≡ ok seat → Hit P seats i → P seat
  Hit-read i seat e (seat', e', p) = subst P (ok-injective seat' seat (sym e' ∙ e)) p

  First-empty : (lo hi : ℕ) → hi ≤ lo → First P seats lo hi none
  First-empty lo hi le j a b h = absurd (omega arith)

abbrev pub FreeFor : ℕ → Seat → Type 0
FreeFor service seat = (seat.operator_status ≡ free) × (seat.service_id ≡ service)

abbrev pub For : ℕ → Seat → Type 0
For service seat = seat.service_id ≡ service

FreeFor-of_test :
    (seat : Seat) (service : ℕ)
    → (is_free seat.operator_status && seat.service_id == service) ≡ true
    → FreeFor service seat
FreeFor-of_test seat service h = ground arith

test-FreeFor :
    (seat : Seat) (service : ℕ)
    → (is_free seat.operator_status && seat.service_id == service) ≡ false
    → ¬ FreeFor service seat
test-FreeFor seat service h f = ground arith

find_seat_from-First :
    (rounds i hi : ℕ) (seats : List Seat) (service : ℕ)
    → i + rounds ≡ hi
    → hi ≤ length seats
    → (r : Option ℕ) × (find_seat_from rounds i seats service ≡ ok r)
      × First (FreeFor service) seats i hi r
unfolding find_seat_from
find_seat_from-First zero i hi seats service s h =
    (none, refl, First-empty _ seats i hi (omega arith))
find_seat_from-First (suc rounds) i hi seats service s h =
    let (seat, e) = read_total seats i (omega arith) in
    let (r, found, first) = find_seat_from-First rounds (suc i) hi seats service (omega arith) h in
    elim (Bool-cases (is_free seat.operator_status && seat.service_id == service)) [
      | inl hit ↦ (
        some i,
        rw (e, hit),
        First-here _ seats i hi (omega arith) (seat, e, FreeFor-of_test seat service hit),
      )
      | inr miss ↦ (
        r,
        rw (e, miss, found),
        First-later _ seats i hi r
            (λ h. test-FreeFor seat service miss (Hit-read (FreeFor service) seats i seat e h))
            first,
      )
    ]

-- As long as the configured seats are within the array, `find_seat` returns the first seat of the
-- operator's service that no operator sits on, and -1 exactly if there is none.
pub find_seat-First :
    (n : ℕ) (st : Stations) (service : ℕ)
    → n ≤ length st.seats
    → (r : Option ℕ) × (find_seat n st service ≡ ok r) × First (FreeFor service) st.seats 0 n r
unfolding find_seat
find_seat-First n st service h = find_seat_from-First n 0 n st.seats service (omega arith) h

abbrev is_some : Option ℕ → Bool
is_some none = false
is_some (some k) = true

can_work_from-First :
    (rounds i hi : ℕ) (seats : List Seat) (service : ℕ)
    → i + rounds ≡ hi
    → hi ≤ length seats
    → (r : Option ℕ) × (can_work_from rounds i seats service ≡ ok (is_some r))
      × First (For service) seats i hi r
unfolding can_work_from
can_work_from-First zero i hi seats service s h =
    (none, refl, First-empty _ seats i hi (omega arith))
can_work_from-First (suc rounds) i hi seats service s h =
    let (seat, e) = read_total seats i (omega arith) in
    let (r, found, first) = can_work_from-First rounds (suc i) hi seats service (omega arith) h in
    elim (Bool-cases (seat.service_id == service)) [
      | inl hit ↦
          (some i, rw (e, hit), First-here _ seats i hi (omega arith) (seat, e, (==_iff _ _).0 hit))
      | inr miss ↦ (
        r,
        rw (e, miss, found),
        First-later _ seats i hi r
            (λ h. cc (miss, (==_iff _ _).1 (Hit-read (For service) seats i seat e h))) first,
      )
    ]

no_hit :
    (P : Seat → Type 0) (seats : List Seat) (hi : ℕ) (r : Option ℕ)
    → First P seats 0 hi r
    → is_some r ≡ false
    → (j : ℕ) → j < hi
    → ¬ Hit P seats j
no_hit P seats hi none f e j lt = f j (omega arith) lt
no_hit P seats hi (some k) f e j lt = cc

find_seat_misses :
    (n : ℕ) (st : Stations) (service : ℕ) (r : Option ℕ)
    → First (FreeFor service) st.seats 0 n r
    → ((j : ℕ) → j < n → ¬ Hit (For service) st.seats j)
    → r ≡ none
find_seat_misses n st service none f miss = refl
find_seat_misses n st service (some k) f miss = absurd (miss k f.1 (f.2.0, f.2.1, f.2.2.1))

For-kept :
    (seats seats' : List Seat) (service j : ℕ)
    → length seats' ≡ length seats
    → ((a b : Seat) → read seats j ≡ ok a → read seats' j ≡ ok b → a.service_id ≡ b.service_id)
    → Hit (For service) seats' j
    → Hit (For service) seats j
For-kept seats seats' service j same keep (b, e, p) =
    let (a, e') = read_total seats j (omega (arith, read-lt seats' j e)) in
    (a, e', keep a b e' e ∙ p)

-- Where `can_work_today` says no, `find_seat` gives -1, now and later in the day: whoever sits down
-- or gets up in between, as long as every seat keeps its service and the configured seats are
-- within the array.
pub can_work_today-find_seat :
    (n : ℕ) (st st' : Stations) (service : ℕ)
    → n ≤ length st.seats
    → length st'.seats ≡ length st.seats
    → ((j : ℕ) (a b : Seat)
        → read st.seats j ≡ ok a
        → read st'.seats j ≡ ok b
        → a.service_id ≡ b.service_id)
    → can_work_today n st service ≡ ok false
    → find_seat n st' service ≡ ok none
unfolding can_work_today
can_work_today-find_seat n st st' service h same keep no_work =
    let (r, e, first) = can_work_from-First n 0 n st.seats service (omega arith) h in
    let (r', e', first') = find_seat-First n st' service (omega arith) in
    let nowhere = no_hit (For service) st.seats n r first (ok-injective _ _ (sym e ∙ no_work)) in
    e'
    ∙ ap ok (
        find_seat_misses n st' service r' first'
          (λ j lt hit. nowhere j lt (For-kept st.seats st'.seats service j same (keep j) hit)))

pub can_work_today_total :
    (n : ℕ) (st : Stations) (service : ℕ)
    → n ≤ length st.seats
    → (b : Bool) × (can_work_today n st service ≡ ok b)
unfolding can_work_today
can_work_today_total n st service h =
    let (r, e, _) = can_work_from-First n 0 n st.seats service (omega arith) h in (is_some r, e)

-- ===== src/Operatore/Service.antt =====
-- src/operatore.c, `process_service`: how long a service takes, and the sleep that simulates it. A
-- result outside long long is undefined.
use native.Mathlib.Nat.{mod-lt, mul-le-mul_right, le_trans}
use poste_italiane_simulatio.Prelude.{
  ℕ, ◌+◌, ◌-◌, ◌*◌, ◌/◌, ◌%◌, ◌^◌, ◌≤◌, ◌<◌, ◌≡◌, refl, ap, true, false, ◌==◌, List, [], ◌∷◌,
  Outcome, ok, fault, ◌>>=◌, read, ltb, leb, if◌then◌else◌, arith,
}
use poste_italiane_simulatio.Config.Defs.{services_duration}
use poste_italiane_simulatio.Stats.Refines.{below_six}

-- The duration in nanoseconds, from the nominal minutes, the nanoseconds of a minute and a number
-- of rand().
unfoldable pub rand_nano : ℕ → ℕ → ℕ → Outcome ℕ
rand_nano nominal minute_duration r =
    let base_nano = nominal * minute_duration in
    let min_nano = base_nano / 2 in
    let max_nano = base_nano + base_nano / 2 in
    let span = max_nano - min_nano + 1 in
    if ltb (max_nano + 1) (2 ^ 63) then ok (min_nano + r % span) else fault

-- `struct timespec`: seconds and nanoseconds.
unfoldable pub timespec_of : ℕ → ℕ × ℕ
timespec_of nano = if leb 1000000000 nano then (nano / 1000000000, nano % 1000000000) else (0, nano)

-- What a nanosleep gives: its end, an interruption with the time that remains, or an error.
pub data Nap : Type 0 where
  slept failed : Nap
  interrupted : (remaining : ℕ × ℕ) → Nap

-- How the loop around nanosleep ends, with the times that it asked for.
pub data Sleep : Type 0 where
  rested exited sleeping : Sleep

unfoldable pub sleep_for : ℕ × ℕ → List Nap → Sleep × List (ℕ × ℕ)
sleep_for time [] = (sleeping, time ∷ [])
sleep_for time (slept ∷ naps) = (rested, time ∷ [])
sleep_for time (failed ∷ naps) = (exited, time ∷ [])
sleep_for time (interrupted remaining ∷ naps) =
    let (end, times) = sleep_for remaining naps in (end, time ∷ times)

-- `process_service`: the nanoseconds, how the sleep ends, and the times asked for.
unfoldable pub process_service : ℕ → ℕ → ℕ → List Nap → Outcome (ℕ × (Sleep × List (ℕ × ℕ)))
unfolding rand_nano timespec_of sleep_for
process_service minute_duration user_service r naps = do
  nominal ← read services_duration user_service
  nano ← rand_nano nominal minute_duration r
  ok (nano, sleep_for (timespec_of nano) naps)

-- The minutes that are printed behind the sleep: a division by zero is undefined.
unfoldable pub print_finished : Sleep → (rand_nano minute_duration : ℕ) → Outcome ℕ
print_finished rested nano minute_duration =
    if minute_duration == 0 then fault else ok (nano / minute_duration)
print_finished exited nano minute_duration = ok 0
print_finished sleeping nano minute_duration = ok 0

-- A minute that can be divided by, and multiplied without an overflow.
abbrev pub IsMinute : ℕ → Type 0
IsMinute d = (0 < d) × (d < 2 ^ 57)

pub print_finished_total :
    (end : Sleep) (nano minute_duration : ℕ)
    → 0 < minute_duration
    → (minutes : ℕ) × (print_finished end nano minute_duration ≡ ok minutes)
unfolding print_finished
print_finished_total rested nano d pos =
    let some : (d == 0) ≡ false = ground arith in (nano / d, rw some refl)
print_finished_total exited nano d pos = (0, refl)
print_finished_total sleeping nano d pos = (0, refl)

-- The nanoseconds that a timespec stands for, and the form that nanosleep accepts.
abbrev pub nanoseconds : ℕ × ℕ → ℕ
nanoseconds (sec, nsec) = sec * 1000000000 + nsec

rand_nano_bounds :
    (base r : ℕ)
    → (base / 2 ≤ base / 2 + r % (base + base / 2 - base / 2 + 1))
      × (base / 2 + r % (base + base / 2 - base / 2 + 1) ≤ base + base / 2)
rand_nano_bounds base r =
    let small : r % (base + base / 2 - base / 2 + 1) < base + base / 2 - base / 2 + 1 =
      mod-lt r (omega arith) in
    (omega arith, omega arith)

timespec_of-nanoseconds :
    (nano : ℕ) → (nanoseconds (timespec_of nano) ≡ nano) × ((timespec_of nano).1 < 1000000000)
unfolding timespec_of
timespec_of-nanoseconds nano = (ground arith, ground arith)

-- The times that remain after the interruptions in front of the first end or error.
abbrev pub remainders : List Nap → List (ℕ × ℕ)
remainders [] = []
remainders (slept ∷ naps) = []
remainders (failed ∷ naps) = []
remainders (interrupted remaining ∷ naps) = remaining ∷ remainders naps

sleep_for-remainders :
    (time : ℕ × ℕ) (naps : List Nap) → (sleep_for time naps).1 ≡ time ∷ remainders naps
unfolding sleep_for
sleep_for-remainders time [] = refl
sleep_for-remainders time (slept ∷ naps) = refl
sleep_for-remainders time (failed ∷ naps) = refl
sleep_for-remainders time (interrupted remaining ∷ naps) =
    ap (λ ts. time ∷ ts) (sleep_for-remainders remaining naps)

nominal_total :
    (s : ℕ) → s < 6 → (nominal : ℕ) × (read services_duration s ≡ ok nominal) × (nominal ≤ 20)
nominal_total =
    below_six (λ s. (nominal : ℕ) × (read services_duration s ≡ ok nominal) × (nominal ≤ 20))
      (10, refl, omega arith) (8, refl, omega arith) (6, refl, omega arith) (8, refl, omega arith)
      (20, refl, omega arith) (20, refl, omega arith)

-- For each of the six services, and minutes of less than 2 ^ 57 nanoseconds, a service takes
-- between one half and one and a half of its nominal time, in integer arithmetic that does not
-- overflow; the sleep asks for exactly that time, in a form that nanosleep accepts, and after each
-- interruption for what remained.
pub process_service_bounds :
    (minute_duration service r : ℕ) (naps : List Nap)
    → service < 6
    → minute_duration < 2 ^ 57
    → (nominal nano : ℕ) × (end : Sleep) × (time : ℕ × ℕ) × (read services_duration service
        ≡ ok nominal)
      × (process_service minute_duration service r naps ≡ ok (nano, (end, time ∷ remainders naps)))
      × (nominal * minute_duration / 2 ≤ nano)
      × (nano ≤ nominal * minute_duration + nominal * minute_duration / 2)
      × (nanoseconds time ≡ nano)
      × (time.1 < 1000000000)
unfolding process_service rand_nano
process_service_bounds minute_duration service r naps h small =
    let (nominal, e, few) = nominal_total service h in
    let base = nominal * minute_duration in
    let room : base ≤ 20 * 2 ^ 57 = le_trans (mul-le-mul_right minute_duration few) (omega arith) in
    let fits : ltb (base + base / 2 + 1) (2 ^ 63) ≡ true = ground arith in
    let nano = base / 2 + r % (base + base / 2 - base / 2 + 1) in
    let (low, high) = rand_nano_bounds base r in
    let (same, form) = timespec_of-nanoseconds nano in
    (
      nominal,
      nano,
      (sleep_for (timespec_of nano) naps).0,
      timespec_of nano,
      e,
      rw (e, fits)
          (ap (λ ts. ok (nano, ((sleep_for (timespec_of nano) naps).0, ts)))
            (sleep_for-remainders (timespec_of nano) naps)),
      low,
      high,
      same,
      form,
    )

-- ===== src/Utente/Choices.antt =====
-- src/utente.c: `will_go_to_poste`, `generate_service_list` and `generate_walk_in_time`. Numbers of
-- rand() are arguments, in the order of the calls.
use native.Mathlib.Nat.{mod-lt, mod-eq_of_lt}
use poste_italiane_simulatio.Prelude.{
  ℕ, zero, suc, ◌+◌, ◌-◌, ◌*◌, ◌%◌, ◌≤◌, ◌<◌, ◌≡◌, true, false, ap, ◌∙◌, Bool, List, Outcome, ok,
  fault, ◌>>=◌, modify, add_int, sub_int, mul_int, lt_int, leb, ltb, ◌^◌, ◌==◌, if◌then◌else◌,
  arith,
}
use poste_italiane_simulatio.Config.Defs.{PosteConfig, max_n_requests_compile, num_service_types}

-- A long by its bit pattern: its magnitude, by which the remainder of a number that is not negative
-- goes, and whether it is at most such a number.
abbrev pub magnitude : ℕ → ℕ
magnitude x = if ltb x (2 ^ 63) then x else 2 ^ 64 - x

abbrev pub at_most : ℕ → ℕ → Bool
at_most x n = if ltb x (2 ^ 63) then leb x n else true

-- `r` is a number of rand(). A remainder by zero is undefined.
unfoldable pub will_go_to_poste : PosteConfig → ℕ → Outcome Bool
will_go_to_poste g r =
    if g.p_serv_max == 0 then fault else ok (at_most g.p_serv_min (r % magnitude g.p_serv_max))

-- `for (int i = 0; i < max; i++) list[i] = rand() % NUM_SERVICE_TYPES`
unfoldable pub fill_services : ℕ → ℕ → (ℕ → ℕ) → List ℕ → Outcome (List ℕ)
fill_services zero i rand list = ok list
fill_services (suc rounds) i rand list = do
  list' ← modify list i (λ _. rand i % num_service_types)
  fill_services rounds (suc i) rand list'

-- The list that it is given, and the number of services written to it. `first` is the first number
-- of rand(), and `rand i` the one for entry `i`.
unfoldable pub generate_service_list : PosteConfig → ℕ → (ℕ → ℕ) → List ℕ → Outcome (ℕ × List ℕ)
unfolding fill_services
generate_service_list g first rand list =
    let max = first % g.max_n_requests + 1 in
    if g.max_n_requests == 0
    then fault
    else (fill_services max 0 rand list >>= λ list'. ok (max, list'))

-- `max_time`: the part of the shift behind which the margin of five minutes a request begins, or
-- one minute.
unfoldable pub max_walk_in_time : ℕ → ℕ → ℕ → ℕ
max_walk_in_time shift_start shift_end num_requests =
    let max_time = sub_int (sub_int shift_end (mul_int 5 num_requests)) shift_start in
    if lt_int max_time 1 then 1 else max_time

unfoldable pub generate_walk_in_time : PosteConfig → ℕ → ℕ → ℕ
generate_walk_in_time g num_requests r =
    let shift_start = mul_int g.worker_shift_open 60 in
    let shift_end = mul_int g.worker_shift_close 60 in
    let max_time = max_walk_in_time shift_start shift_end num_requests in
    add_int (add_int shift_start (r % max_time)) 1

max_walk_in_time_fits :
    (a b n : ℕ) → b ≤ 1440 → n ≤ 50 → a + 5 * n < b → max_walk_in_time a b n ≡ b - 5 * n - a
unfolding max_walk_in_time
max_walk_in_time_fits a b n hb hn h =
    let room : sub_int (sub_int b (mul_int 5 n)) a ≡ b - 5 * n - a = omega arith in
    rw room (ground arith)

max_walk_in_time_tight :
    (a b n : ℕ) → a ≤ 1440 → b ≤ 1440 → n ≤ 50 → b ≤ a + 5 * n → max_walk_in_time a b n ≡ 1
unfolding max_walk_in_time
max_walk_in_time_tight a b n ha hb hn h = ground arith

walk_in_fits :
    (a b n r t : ℕ)
    → a ≤ 1440
    → b ≤ 1440
    → a + 5 * n < b
    → t ≡ b - 5 * n - a
    → (a < add_int (add_int a (r % t)) 1) × (add_int (add_int a (r % t)) 1 + 5 * n ≤ b)
walk_in_fits a b n r t ha hb h e =
    let small : r % t < t = mod-lt r (omega arith) in (omega arith, omega arith)

walk_in_tight : (a r : ℕ) → a ≤ 1440 → add_int (add_int a (r % 1)) 1 ≡ a + 1
walk_in_tight a r h = omega arith

-- With hours of a day and no more requests than the list has room for: if five minutes for each
-- request fit into the shift, the user walks in after the doors open and at least so long before
-- they close; if not, in the first minute after they open.
pub generate_walk_in_time_bounds :
    (g : PosteConfig) (n r : ℕ)
    → g.worker_shift_open ≤ 24
    → g.worker_shift_close ≤ 24
    → n ≤ max_n_requests_compile
    → (g.worker_shift_open * 60 + 5 * n < g.worker_shift_close * 60
        → (g.worker_shift_open * 60 < generate_walk_in_time g n r)
          × (generate_walk_in_time g n r + 5 * n ≤ g.worker_shift_close * 60))
      × (g.worker_shift_close * 60 ≤ g.worker_shift_open * 60 + 5 * n
          → generate_walk_in_time g n r ≡ g.worker_shift_open * 60 + 1)
unfolding generate_walk_in_time
generate_walk_in_time_bounds g n r ho hc hn =
    let a = g.worker_shift_open * 60 in
    let b = g.worker_shift_close * 60 in
    let start : mul_int g.worker_shift_open 60 ≡ g.worker_shift_open * 60 = omega arith in
    let close : mul_int g.worker_shift_close 60 ≡ g.worker_shift_close * 60 = omega arith in
    rw (start, close)
      (
        (λ fits.
            walk_in_fits a b n r (max_walk_in_time a b n) (omega arith) (omega arith) fits
              (max_walk_in_time_fits a b n (omega arith) hn fits)),
        (λ tight.
            ap (λ t. add_int (add_int a (r % t)) 1)
              (max_walk_in_time_tight a b n (omega arith) (omega arith) hn tight)
            ∙ walk_in_tight a r (omega arith)),
      )

-- How many of the numbers below `n` of rand() make the user go.
unfoldable pub going : PosteConfig → ℕ → Outcome ℕ
unfolding will_go_to_poste
going g zero = ok 0
going g (suc n) = do
  goes ← will_go_to_poste g n
  before ← going g n
  ok (if goes then suc before else before)

going_below :
    (g : PosteConfig) (n : ℕ)
    → 0 < g.p_serv_max
    → g.p_serv_max < 2 ^ 63
    → g.p_serv_min < 2 ^ 63
    → n ≤ g.p_serv_max
    → going g n ≡ ok (n - g.p_serv_min)
unfolding going will_go_to_poste
going_below g zero pos hmax hmin le = ap ok (omega arith)
going_below g (suc n) pos hmax hmin le =
    let possible : (g.p_serv_max == 0) ≡ false = ground arith in
    let positive : ltb g.p_serv_max (2 ^ 63) ≡ true = ground arith in
    let positive' : ltb g.p_serv_min (2 ^ 63) ≡ true = ground arith in
    let same : n % g.p_serv_max ≡ n = mod-eq_of_lt (omega arith) in
    let before = going_below g n pos hmax hmin (omega arith) in
    rw (possible, positive, positive', same, before) (ap ok (ground arith))

-- Of the p_serv_max numbers of a period of rand() exactly p_serv_max - p_serv_min make the user go to
-- the post office, all of them with p_serv_min = 0, and none where p_serv_min is not below
-- p_serv_max, for settings that are not negative and p_serv_max above zero. With p_serv_max = 0 the
-- division is undefined.
pub will_go_to_poste-going :
    (g : PosteConfig)
    → g.p_serv_max < 2 ^ 63
    → g.p_serv_min < 2 ^ 63
    → (0 < g.p_serv_max → going g g.p_serv_max ≡ ok (g.p_serv_max - g.p_serv_min))
      × (g.p_serv_max ≡ 0 → (r : ℕ) → will_go_to_poste g r ≡ fault)
unfolding will_go_to_poste
will_go_to_poste-going g hmax hmin =
    ((λ pos. going_below g g.p_serv_max pos hmax hmin (omega arith)), (λ z r. rw z))

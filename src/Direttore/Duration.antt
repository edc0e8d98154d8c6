-- ===== src/Direttore/Duration.antt =====
-- src/direttore.c, the loop of `main`: how long a simulation of `sim_duration` days is.
use mathlib.Core.Bool.{false≢true}
use mathlib.Core.Path.{ap₂, subst₂}
use poste_italiane_simulatio.Prelude.{
  ℕ, zero, suc, ◌+◌, ◌-◌, ◌*◌, ◌/◌, ◌%◌, ◌^◌, ◌≤◌, ◌<◌, ◌≡◌, ◌≢◌, ◌↔◌, refl, sym, ap, ◌∙◌, ◌⊎◌,
  Bool, true, false, List, [], ◌∷◌, Outcome, ok, ok-injective, ◌>>=◌, >>=-eq-ok, lt_int, lt_int_iff,
  if◌then◌else◌, length, if_cases, inl, inr, arith,
}
use poste_italiane_simulatio.Stats.Defs.{Double}
use poste_italiane_simulatio.Direttore.Defs.{
  Director, Round, Turn, running, exploded, exit_failure, tick, Ending, unfinished, finished,
  failed, main_loop, loop_on,
}
use poste_italiane_simulatio.Direttore.Clock.{clock, clock_step, SameLimits, tick-clock}

-- Minute and day after `k` rounds.
abbrev pub clock_after : ℕ → ℕ × ℕ
clock_after zero = (0, 0)
clock_after (suc k) = (1 + k % 1440, 1 + k / 1440)

-- The rounds of a simulation of `dur` days: all but the last day whole, and one minute of the last.
abbrev pub rounds_of : ℕ → ℕ
rounds_of dur = (dur - 1) * 1440 + 1

clock_step-clock_after :
    (k : ℕ) → (clock_after k).1 < 2 ^ 31 → clock_step (clock_after k) ≡ clock_after (suc k)
clock_step-clock_after zero h = refl
clock_step-clock_after (suc k) h = ground arith

days_left_iff :
    (k dur : ℕ)
    → 0 < dur
    → dur < 2 ^ 31
    → (clock_after k).1 ≤ dur
    → (lt_int (clock_after k).1 dur ≡ true) ↔ (k < rounds_of dur)
days_left_iff zero dur p b h = ground arith
days_left_iff (suc k) dur p b h =
    let test = lt_int_iff (1 + k / 1440) dur (omega arith) b in
    ((λ e. omega (arith, test.0 e)), (λ lt. test.1 (omega arith)))

clock_step-le : (c : ℕ × ℕ) → (clock_step c).1 ≤ c.1 + 1
clock_step-le c = ground arith

exactly : (k n : ℕ) → k ≤ n → ¬ (k < n) → k ≡ n
exactly k n le stop = ground arith

finished-injective : {F : Type 0} (a b : Director F) → finished a ≡ finished b → a ≡ b
finished-injective a b e = cc

clock_after-rounds_of : (dur : ℕ) → 0 < dur → clock_after (rounds_of dur) ≡ (1, dur)
clock_after-rounds_of dur h = ground arith

module _ {F : Type 0} ⦃dbl : Double F⦄ where
  -- `k` rounds of the loop, each with its test passed and the loop going on.
  pub data Reaches (d : Director F) : ℕ → Director F → Type 0 where
    start : Reaches d 0 d
    round :
        {k : ℕ} {d' d'' : Director F} (r : Round F)
        → Reaches d k d'
        → lt_int d'.days_elapsed d'.config.sim_duration ≡ true
        → tick d' r ≡ ok (running d'')
        → Reaches d (suc k) d''

  -- The director before the loop.
  pub record IsFresh (d : Director F) : Type 0 where
    pub at_zero : clock d ≡ (0, 0)
    pub some_days : 0 < d.config.sim_duration
    pub in_range : d.config.sim_duration < 2 ^ 31

  pub Reaches-clock :
      {d d' : Director F} {k : ℕ}
      → IsFresh d
      → Reaches d k d'
      → (clock d' ≡ clock_after k) × SameLimits d d' × (d'.days_elapsed ≤ d.config.sim_duration)
  Reaches-clock f start = (f.at_zero, (refl, refl), ground (arith, f))
  Reaches-clock {d} f (round {k} {d'} {d''} r before left e) =
      let (c, s, b) = Reaches-clock f before in
      let (c', s') = tick-clock d' r e in
      let day = ap (λ (x : ℕ × ℕ). x.1) c in
      let below =
        (lt_int_iff d'.days_elapsed d'.config.sim_duration (omega (arith, b, f.in_range))
            (omega (arith, s, f.in_range))).0
          left in
      (
        c' ∙ ap clock_step c ∙ clock_step-clock_after k (omega (arith, day, b, f.in_range)),
        (s'.0 ∙ s.0, s'.1 ∙ s.1),
        omega (arith, ap (λ (x : ℕ × ℕ). x.1) c', clock_step-le (clock d'), below, s),
      )

  -- Whether the loop goes on after `k` rounds.
  Reaches-left :
      {d d' : Director F} {k : ℕ}
      → IsFresh d
      → Reaches d k d'
      → (lt_int d'.days_elapsed d'.config.sim_duration ≡ true)
        ↔ (k < rounds_of d.config.sim_duration)
  Reaches-left {d} {d'} {k} f r =
      let (c, s, b) = Reaches-clock f r in
      let day = ap (λ (x : ℕ × ℕ). x.1) c in
      let iff =
        days_left_iff k d.config.sim_duration f.some_days f.in_range (omega (arith, day, b)) in
      ((λ e. iff.0 (ap₂ lt_int (sym day) (sym s.0) ∙ e)), (λ lt. ap₂ lt_int day s.0 ∙ iff.1 lt))

  Reaches-le :
      {d d' : Director F} {k : ℕ} → IsFresh d → Reaches d k d' → k ≤ rounds_of d.config.sim_duration
  Reaches-le f start = omega arith
  Reaches-le f (round r before left e) = omega (arith, (Reaches-left f before).0 left)

  -- The ends that no `break` and no exit led to.
  abbrev pub by_test : Ending F → Bool
  by_test (unfinished d) = true
  by_test (finished d) = true
  by_test (Ending.exploded d) = false
  by_test (failed d) = false

  loop_on-running :
      (d : Director F) (go : Director F → Outcome (Ending F)) (t : Turn F) (z : Ending F)
      → by_test z ≡ true
      → loop_on d go t ≡ ok z
      → (d' : Director F) × (t ≡ running d') × (go d' ≡ ok z)
  loop_on-running d go (running d') z h e = (d', refl, e)
  loop_on-running d go (exploded d') z h e =
      absurd (false≢true (ap by_test (ok-injective _ _ e) ∙ h))
  loop_on-running d go exit_failure z h e =
      absurd (false≢true (ap by_test (ok-injective _ _ e) ∙ h))

  -- An end by the test, with the rounds made up to it and those left over.
  pub record EndsByTest (d : Director F) (rounds : ℕ) (z : Ending F) : Type 0 where
    pub last : Director F
    pub made : ℕ
    pub reaches : Reaches d made last
    pub ends :
        (z ≡ finished last) × (lt_int last.days_elapsed last.config.sim_duration ≡ false)
        ⊎ (z ≡ unfinished last)
          × (lt_int last.days_elapsed last.config.sim_duration ≡ true)
          × (made ≡ rounds)

  if_end :
      (d : Director F) (b : Bool) {z : Ending F}
      → ok (if b then unfinished d else finished d) ≡ ok z
      → (z ≡ finished d) × (b ≡ false) ⊎ (z ≡ unfinished d) × (b ≡ true)
  if_end d true e = inr (sym (ok-injective _ _ e), refl)
  if_end d false e = inl (sym (ok-injective _ _ e), refl)

  pub main_loop-EndsByTest :
      (d0 d : Director F) (k rounds : ℕ) (rs : List (Round F)) (z : Ending F)
      → Reaches d0 k d
      → k + length rs ≡ rounds
      → by_test z ≡ true
      → main_loop d rs ≡ ok z
      → EndsByTest d0 rounds z
  unfolding main_loop
  main_loop-EndsByTest d0 d k rounds [] z r n h e = record {
    last = d;
    made = k;
    reaches = r;
    ends = elim (if_end d (lt_int d.days_elapsed d.config.sim_duration) e) [
      | inl over ↦ inl over
      | inr (same, left) ↦ inr (same, left, omega arith)
    ];
  }
  main_loop-EndsByTest d0 d k rounds (x ∷ rs) z r n h e =
      elim (if_cases (lt_int d.days_elapsed d.config.sim_duration)
        (tick d x >>= loop_on d (λ d'. main_loop d' rs)) (ok (finished d)) e) [
          | inl (left, on) ↦
              let (t, turn, rest) = >>=-eq-ok (tick d x) (loop_on d (λ d'. main_loop d' rs)) on in
              let (d', same, later) = loop_on-running d (λ d'. main_loop d' rs) t z h rest in
              main_loop-EndsByTest d0 d' (suc k) rounds rs z (round x r left (turn ∙ ap ok same))
                (omega arith) h later
          | inr (over, fin) ↦ record {
            last = d;
            made = k;
            reaches = r;
            ends = inl (sym (ok-injective _ _ fin), over);
          }
        ]

  unfinished-rounds :
      (d0 d : Director F) (rounds : ℕ)
      → IsFresh d0
      → EndsByTest d0 rounds (unfinished d)
      → rounds < rounds_of d0.config.sim_duration
  unfinished-rounds d0 d rounds f t = elim t.ends [
    | inl (e, _) ↦ cc e
    | inr (_, left, n) ↦ omega (arith, (Reaches-left f t.reaches).0 left, n)
  ]

  pub finished-Reaches :
      (d0 d : Director F) (rounds : ℕ)
      → IsFresh d0
      → EndsByTest d0 rounds (finished d)
      → Reaches d0 (rounds_of d0.config.sim_duration) d
  finished-Reaches d0 d rounds f t = elim t.ends [
    | inl (e, over) ↦
        let k =
          exactly t.made (rounds_of d0.config.sim_duration) (Reaches-le f t.reaches)
            (λ lt. false≢true (sym over ∙ (Reaches-left f t.reaches).1 lt)) in
        subst₂ (λ m (x : Director F). Reaches d0 m x) k (sym (finished-injective _ _ e)) t.reaches
    | inr (e, _, _) ↦ cc e
  ]

  -- A simulation of `sim_duration` days that no explosion and no failed sleep cuts short ends after
  -- exactly (sim_duration - 1) * 1440 + 1 rounds of the loop, one minute into the last day, which is
  -- so never simulated; and with at least that many rounds the loop has ended.
  pub main_loop_duration :
      (d : Director F) (rs : List (Round F))
      → IsFresh d
      → ((d' : Director F)
          → main_loop d rs ≡ ok (finished d')
          → Reaches d (rounds_of d.config.sim_duration) d'
            × (clock d' ≡ (1, d.config.sim_duration)))
        × (rounds_of d.config.sim_duration ≤ length rs
            → (d' : Director F) → main_loop d rs ≢ ok (unfinished d'))
  main_loop_duration d rs f = (
    (λ d' e.
        let r =
          finished-Reaches d d' (length rs) f
            (main_loop-EndsByTest d d 0 (length rs) rs (finished d') start (omega arith) refl e) in
        (r, (Reaches-clock f r).0 ∙ clock_after-rounds_of d.config.sim_duration f.some_days)),
    (λ enough d' e. absurd (
        omega (
          arith,
          unfinished-rounds d d' (length rs) f (
              main_loop-EndsByTest d d 0 (length rs) rs (unfinished d') start (omega arith) refl e),
        ))),
  )

-- ===== src/Stats/Refines.antt =====
-- The statistics of include/poste.h and the summary of their history.
use mathlib.Core.Path.{fun_ext}
use poste_italiane_simulatio.Prelude.{
  ℕ, zero, suc, ◌%◌, ◌^◌, ◌<◌, ◌≡◌, refl, ap, ◌∙◌, Bool, List, [], ◌∷◌, All, incr, ok,
  if◌then◌else◌, arith,
}
use poste_italiane_simulatio.Stats.Defs.{Double}
use poste_italiane_simulatio.Stats.Summary.{
  Event, request, failure, success, late, pause, worked, new_day, minute, apply, run, count,
  summary,
}

pub below_six : (P : ℕ → Type 0) → P 0 → P 1 → P 2 → P 3 → P 4 → P 5 → (j : ℕ) → j < 6 → P j
below_six P a b c d e f zero h = a
below_six P a b c d e f (suc zero) h = b
below_six P a b c d e f (suc (suc zero)) h = c
below_six P a b c d e f (suc (suc (suc zero))) h = d
below_six P a b c d e f (suc (suc (suc (suc zero)))) h = e
below_six P a b c d e f (suc (suc (suc (suc (suc zero))))) h = f
below_six P a b c d e f (suc (suc (suc (suc (suc (suc j)))))) h = absurd (omega arith)

module _ {F : Type 0} where
  -- Every service that the event names is one of the six.
  abbrev pub InTable : Event F → Type 0
  InTable (request j) = j < 6
  InTable (failure j) = j < 6
  InTable (success j w t) = j < 6
  InTable (late j) = j < 6
  InTable _ = Unit

  -- The code's way to count, step by step.
  abbrev tally : (Event F → Bool) → List (Event F) → ℕ
  tally p [] = 0
  tally p (e ∷ es) = if p e then incr (tally p es) else tally p es

  abbrev pub counted : (Event F → Bool) → List (Event F) → ℕ
  counted p es = count p es % 2 ^ 32

  tally-counted : (p : Event F → Bool) (es : List (Event F)) → tally p es ≡ counted p es
  unfolding count
  tally-counted p [] = refl
  tally-counted p (e ∷ es) = ground (arith, tally-counted p es)

module _ {F : Type 0} ⦃d : Double F⦄ where
  apply-summary :
      (e : Event F) (es : List (Event F))
      → InTable e
      → apply (summary tally es) e ≡ ok (summary tally (e ∷ es))
  unfolding apply
  apply-summary (request j) es h =
      below_six (λ j. apply (summary tally es) (request j) ≡ ok (summary tally (request j ∷ es)))
        refl refl refl refl refl refl j h
  apply-summary (failure j) es h =
      below_six (λ j. apply (summary tally es) (failure j) ≡ ok (summary tally (failure j ∷ es)))
        refl refl refl refl refl refl j h
  apply-summary (success j w t) es h =
      below_six
        (λ j. apply (summary tally es) (success j w t) ≡ ok (summary tally (success j w t ∷ es)))
        refl refl refl refl refl refl j h
  apply-summary (late j) es h =
      below_six (λ j. apply (summary tally es) (late j) ≡ ok (summary tally (late j ∷ es))) refl
        refl refl refl refl refl j h
  apply-summary pause es h = refl
  apply-summary worked es h = refl
  apply-summary (new_day day) es h = refl
  apply-summary (minute m) es h = refl

  run-tally : (es : List (Event F)) → All InTable es → run es ≡ ok (summary tally es)
  unfolding run
  run-tally [] h = refl
  run-tally (e ∷ es) h = rw (run-tally es h.1) (apply-summary e es h.0)

  -- As long as every event names a service of the table, no update faults, and after any history
  -- the statistics are its summary: each of the simulation's counters is the number of its events
  -- modulo 2 ^ 32, each of today's the number since the last new day, each time the sum of its
  -- events' times in their order, for each service and for all together; late users are counted
  -- for the day, for the simulation and for the simulation's services, and not for today's.
  pub run-summary : (es : List (Event F)) → All InTable es → run es ≡ ok (summary counted es)
  run-summary es h =
      run-tally es h ∙ ap (λ c. ok (summary c es)) (fun_ext λ p. fun_ext λ l. tally-counted p l)

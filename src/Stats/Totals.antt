-- ===== src/Stats/Totals.antt =====
-- The statistics of include/poste.h: the figures for all services together, and the rows of the
-- tables.
use mathlib.Core.Path.{subst}
use poste_italiane_simulatio.Prelude.{
  ℕ, ◌+◌, ◌%◌, ◌^◌, ◌<◌, ◌≡◌, refl, sym, ◌∙◌, Bool, List, [], ◌∷◌, All, Option, map, replicate,
  none, some, ok, ok-injective, if◌then◌else◌, arith,
}
use poste_italiane_simulatio.Stats.Defs.{Double, ServiceStats, PosteStats}
use poste_italiane_simulatio.Stats.Summary.{
  Event, request, failure, success, late, new_day, run, count, summary, summary_of,
  daily_summary_of, rows, about, is_request, is_failure, is_success, is_late, since_new_day,
}
use poste_italiane_simulatio.Stats.Refines.{InTable, below_six, counted, run-summary}

abbrev one : Bool → ℕ
one b = if b then 1 else 0

abbrev six : (Option ℕ → ℕ) → ℕ
six f = f (some 0) + (f (some 1) + (f (some 2) + (f (some 3) + (f (some 4) + f (some 5)))))

about_split : (j : ℕ) → j < 6 → one (about none j) ≡ six (λ o. one (about o j))
about_split =
    below_six (λ j. one (about none j) ≡ six (λ o. one (about o j))) refl refl refl refl refl refl

module _ {F : Type 0} where
  -- The sum of a counter down a table.
  abbrev pub column : (ServiceStats F → ℕ) → List (ServiceStats F) → ℕ
  column f [] = 0
  column f (row ∷ rows) = f row + column f rows

  -- A question that each event answers for the service that it names, and for none otherwise.
  abbrev IsSplit : (Option ℕ → Event F → Bool) → Type 0
  IsSplit p = (e : Event F) → InTable e → one (p none e) ≡ six (λ o. one (p o e))

  count-cons :
      (p : Event F → Bool) (e : Event F) (es : List (Event F))
      → count p (e ∷ es) ≡ one (p e) + count p es
  unfolding count
  count-cons p e es = ground arith

  count_split :
      (p : Option ℕ → Event F → Bool) (es : List (Event F))
      → IsSplit p
      → All InTable es
      → count (p none) es ≡ six (λ o. count (p o) es)
  count_split p [] split h = unfold count in refl
  count_split p (e ∷ es) split h = omega (
    arith,
    split e h.0,
    count_split p es split h.1,
    count-cons (p none) e es,
    count-cons (p (some 0)) e es,
    count-cons (p (some 1)) e es,
    count-cons (p (some 2)) e es,
    count-cons (p (some 3)) e es,
    count-cons (p (some 4)) e es,
    count-cons (p (some 5)) e es,
  )

  request-IsSplit : IsSplit is_request
  request-IsSplit (request j) h = about_split j h
  request-IsSplit _ h = refl

  failure-IsSplit : IsSplit is_failure
  failure-IsSplit (failure j) h = about_split j h
  failure-IsSplit _ h = refl

  success-IsSplit : IsSplit is_success
  success-IsSplit (success j w t) h = about_split j h
  success-IsSplit _ h = refl

  late-IsSplit : IsSplit is_late
  late-IsSplit (late j) h = about_split j h
  late-IsSplit _ h = refl

  All-since_new_day : (es : List (Event F)) → All InTable es → All InTable (since_new_day es)
  All-since_new_day [] h = tt
  All-since_new_day (new_day day ∷ es) h = tt
  All-since_new_day (e ∷ es) h = (h.0, All-since_new_day es h.1)

  -- The counters of a total are the sums of the rows', modulo 2 ^ 32.
  pub record Agrees (total : ServiceStats F) (rows : List (ServiceStats F)) : Type 0 where
    pub served : total.served_users ≡ column (λ t. t.served_users) rows % 2 ^ 32
    pub failed : total.failed_services ≡ column (λ t. t.failed_services) rows % 2 ^ 32
    pub requests : total.total_requests ≡ column (λ t. t.total_requests) rows % 2 ^ 32
    pub late_ones : total.late_users ≡ column (λ t. t.late_users) rows % 2 ^ 32

module _ {F : Type 0} ⦃d : Double F⦄ where
  Agrees-counted :
      (p : Option ℕ → Event F → Bool) (es : List (Event F))
      → IsSplit p
      → All InTable es
      → counted (p none) es ≡ six (λ o. counted (p o) es) % 2 ^ 32
  Agrees-counted p es split h = omega (arith, count_split p es split h)

  Agrees-summary_of :
      (es : List (Event F))
      → All InTable es
      → Agrees (summary_of counted none es) (rows (λ o. summary_of counted o es))
  Agrees-summary_of es h = record {
    served = omega (arith, Agrees-counted is_success es success-IsSplit h);
    failed = omega (arith, Agrees-counted is_failure es failure-IsSplit h);
    requests = omega (arith, Agrees-counted is_request es request-IsSplit h);
    late_ones = omega (arith, Agrees-counted is_late es late-IsSplit h);
  }

  Agrees-daily :
      (es : List (Event F))
      → All InTable es
      → Agrees (daily_summary_of counted none es) (rows (λ o. daily_summary_of counted o es))
  Agrees-daily es h = record {
    served = omega (arith, Agrees-counted is_success es success-IsSplit h);
    failed = omega (arith, Agrees-counted is_failure es failure-IsSplit h);
    requests = omega (arith, Agrees-counted is_request es request-IsSplit h);
    late_ones = refl;
  }

  Agrees-run_summary :
      (s : PosteStats F) (es : List (Event F))
      → All InTable es
      → summary counted es ≡ s
      → Agrees s.simulation_global s.simulation_services × Agrees s.today.global s.today.services
  Agrees-run_summary s es h e =
      subst
        (λ (t : PosteStats F).
          Agrees t.simulation_global t.simulation_services × Agrees t.today.global t.today.services)
        e (Agrees-summary_of es h, Agrees-daily (since_new_day es) (All-since_new_day es h))

  -- Whatever sequence of updates led to the statistics, each of the four counters for all services
  -- together is the sum of the six services' counters modulo 2 ^ 32, for the simulation and for
  -- today, provided that every update was for a service of the table.
  pub run-Agrees :
      (es : List (Event F)) (s : PosteStats F)
      → All InTable es
      → run es ≡ ok s
      → Agrees s.simulation_global s.simulation_services × Agrees s.today.global s.today.services
  run-Agrees es s h e = Agrees-run_summary s es h (ok-injective _ _ (sym (run-summary es h) ∙ e))

  -- Today's table never shows a late user: in every reachable state the day's own count goes up
  -- with each late user since the last new day, and the late users of all six of today's rows and
  -- of today's total are zero.
  pub run_late_today :
      (es : List (Event F)) (s : PosteStats F)
      → All InTable es
      → run es ≡ ok s
      → (s.today.late_users ≡ count (is_late none) (since_new_day es) % 2 ^ 32)
        × (s.today.global.late_users ≡ 0)
        × (map (λ (t : ServiceStats F). t.late_users) s.today.services ≡ replicate 6 0)
  run_late_today es s h e =
      subst
        (λ (t : PosteStats F).
          (t.today.late_users ≡ count (is_late none) (since_new_day es) % 2 ^ 32)
          × (t.today.global.late_users ≡ 0)
          × (map (λ (r : ServiceStats F). r.late_users) t.today.services ≡ replicate 6 0))
        (ok-injective _ _ (sym (run-summary es h) ∙ e)) (refl, refl, refl)

-- ===== src/Direttore/Ending.antt =====
-- src/direttore.c: what the report says of the end, where users and operators go on until they are
-- killed behind the loop of `main`.
use poste_italiane_simulatio.Prelude.{
  ℕ, ◌+◌, ◌≤◌, ◌<◌, ◌^◌, ◌≡◌, refl, sym, ap, ◌∙◌, Bool, true, false, List, [], ◌∷◌, All, Outcome,
  ok, ok-injective, ◌>>=◌, >>=-eq-ok, lt_int, lt_int_iff, arith,
}
use poste_italiane_simulatio.Config.Defs.{PosteConfig}
use poste_italiane_simulatio.Stats.Defs.{Double, PosteStats}
use poste_italiane_simulatio.Stats.Updates.{
  update_requests_stats, update_pause_stats, update_active_operators, update_fails_stats,
  update_success_stats, count_late,
}
use poste_italiane_simulatio.Stats.Summary.{
  Event, request, failure, success, late, pause, worked, new_day, minute, apply,
}
use poste_italiane_simulatio.Direttore.Defs.{
  Director, Round, apply_all, Ending, finished, main_loop,
}
use poste_italiane_simulatio.Direttore.Duration.{IsFresh}
use poste_italiane_simulatio.Direttore.Report.{
  ExitMode, explode, timeout, exit_mode, main_loop-explode, main_loop-finish_late,
}

many_late : (g : PosteConfig) (n : ℕ) → exit_mode g n ≡ explode → lt_int g.explode_max n ≡ true
unfolding exit_mode
many_late g n e = ground arith

is_explode :
    (g : PosteConfig) (n : ℕ)
    → g.explode_max < 2 ^ 31
    → n < 2 ^ 31
    → g.explode_max < n
    → exit_mode g n ≡ explode
unfolding exit_mode
is_explode g n hg hn lt = rw ((lt_int_iff g.explode_max n hg hn).1 lt) refl

is_timeout :
    (g : PosteConfig) (n : ℕ)
    → g.explode_max < 2 ^ 31
    → n < 2 ^ 31
    → n ≤ g.explode_max
    → exit_mode g n ≡ timeout
unfolding exit_mode
is_timeout g n hg hn le = ground (arith, lt_int_iff g.explode_max n hg hn)

module _ {F : Type 0} where
  -- Updates that users and operators make.
  abbrev pub is_others : Event F → Bool
  is_others (new_day day) = false
  is_others (minute m) = false
  is_others _ = true

  abbrev one_late : Event F → ℕ
  one_late (late service) = 1
  one_late _ = 0

  -- How many late users they count.
  abbrev pub lates_in : List (Event F) → ℕ
  lates_in [] = 0
  lates_in (e ∷ es) = one_late e + lates_in es

module _ {F : Type 0} ⦃dbl : Double F⦄ where
  -- The exit mode in the report, behind what the others do between the last round, or its `break`,
  -- and the report.
  unfoldable pub write_mode : Director F → List (Event F) → Outcome ExitMode
  unfolding apply_all
  write_mode d updates = do
    s ← apply_all d.stats updates
    ok (exit_mode d.config s.today.late_users)

  apply-late :
      (s s' : PosteStats F) (e : Event F)
      → is_others e ≡ true
      → s.today.late_users + one_late e < 2 ^ 32
      → apply s e ≡ ok s'
      → s'.today.late_users ≡ s.today.late_users + one_late e
  unfolding apply update_requests_stats update_pause_stats update_active_operators
      update_fails_stats update_success_stats count_late
  apply-late s s' (request service) h fits e = ground arith
  apply-late s s' (failure service) h fits e = ground arith
  apply-late s s' (success service wait_time service_time) h fits e = ground arith
  apply-late s s' (late service) h fits e = ground arith
  apply-late s s' pause h fits e = ground arith
  apply-late s s' worked h fits e = ground arith
  apply-late s s' (new_day day) h fits e = cc
  apply-late s s' (minute m) h fits e = cc

  apply_all-late :
      (s s' : PosteStats F) (es : List (Event F))
      → All (λ e. is_others e ≡ true) es
      → s.today.late_users + lates_in es < 2 ^ 32
      → apply_all s es ≡ ok s'
      → s'.today.late_users ≡ s.today.late_users + lates_in es
  unfolding apply_all
  apply_all-late s s' [] h fits e =
      let same : s'.today.late_users ≡ s.today.late_users =
        ap (λ (x : PosteStats F). x.today.late_users) (sym (ok-injective s s' e)) in
      omega (arith, same)
  apply_all-late s s' (x ∷ es) h fits e =
      let (s1, e1, rest) = >>=-eq-ok (apply s x) (λ s1. apply_all s1 es) e in
      let one = apply-late s s1 x h.0 (omega arith) e1 in
      let more = apply_all-late s1 s' es h.1 (omega (arith, one)) rest in omega (arith, one, more)

  mode_of_late :
      (d : Director F) (updates : List (Event F)) (mode : ExitMode)
      → All (λ e. is_others e ≡ true) updates
      → d.stats.today.late_users + lates_in updates < 2 ^ 32
      → write_mode d updates ≡ ok mode
      → mode ≡ exit_mode d.config (d.stats.today.late_users + lates_in updates)
  unfolding write_mode
  mode_of_late d updates mode h fits e =
      let (s, e1, last) = >>=-eq-ok (apply_all d.stats updates) _ e in
      sym (ok-injective _ mode last)
      ∙ ap (exit_mode d.config) (apply_all-late d.stats s updates h fits e1)

  -- The report of a simulation that started afresh, behind any updates that users and operators make
  -- between the last round and the report, where they and their late users fit an int and the limit
  -- on late users is not negative: after the `break` for too many late users it says `explode`. After
  -- the last day began it says `timeout` as long as no more late users are counted behind that new
  -- day than the limit allows, and if there are more it says `explode`, although the loop came to
  -- its end.
  pub write_mode-main_loop :
      (d d' : Director F) (rs : List (Round F)) (updates : List (Event F)) (mode : ExitMode)
      → IsFresh d
      → d'.config.explode_max < 2 ^ 31
      → All (λ e. is_others e ≡ true) updates
      → d'.stats.today.late_users + lates_in updates < 2 ^ 31
      → write_mode d' updates ≡ ok mode
      → (main_loop d rs ≡ ok (Ending.exploded d') → mode ≡ explode)
        × (main_loop d rs ≡ ok (finished d')
            → (lates_in updates ≤ d'.config.explode_max → mode ≡ timeout)
              × (d'.config.explode_max < lates_in updates → mode ≡ explode))
  write_mode-main_loop d d' rs updates mode fresh small others fits e =
      let said = mode_of_late d' updates mode others (omega arith) e in
      (
        (λ stop.
            let many =
              many_late d'.config d'.stats.today.late_users (main_loop-explode d d' rs stop) in
            let over =
              (lt_int_iff d'.config.explode_max d'.stats.today.late_users small (omega arith)).0
                many in
            said ∙ is_explode d'.config _ small fits (omega arith)),
        (λ fin.
            let none = main_loop-finish_late d d' rs fresh fin in
            (
              (λ le. said ∙ is_timeout d'.config _ small fits (omega arith)),
              (λ lt. said ∙ is_explode d'.config _ small fits (omega arith)),
            )),
      )

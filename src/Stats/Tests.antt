-- ===== src/Stats/Tests.antt =====
-- Examples of the theorems on the statistics. Times are whole numbers here.
use poste_italiane_simulatio.Prelude.{
  ℕ, ◌+◌, ◌%◌, ◌^◌, ◌≡◌, refl, List, [], ◌∷◌, All, map, none, replicate, ok, arith,
}
use poste_italiane_simulatio.Stats.Defs.{Double, ServiceStats}
use poste_italiane_simulatio.Stats.Summary.{
  Event, request, success, failure, late, pause, new_day, minute, run, count, is_late,
  since_new_day, summary,
}
use poste_italiane_simulatio.Stats.Refines.{InTable, counted, run-summary}
use poste_italiane_simulatio.Stats.Totals.{Agrees, run-Agrees, run_late_today}

instance abbrev whole : Double ℕ
whole = record { zero = 0; plus = λ x y. x + y }

-- Newest first.
abbrev history : List (Event ℕ)
history =
    late 2
    ∷ success 2 4 6
    ∷ request 2
    ∷ minute 500
    ∷ new_day 2
    ∷ pause
    ∷ failure 5
    ∷ late 5
    ∷ new_day 1
    ∷ []

history-InTable : All InTable history
history-InTable = (
  omega arith,
  (omega arith, (omega arith, (tt, (tt, (tt, (omega arith, (omega arith, (tt, tt)))))))),
)

run-summary_example : run history ≡ ok (summary counted history)
run-summary_example = run-summary history history-InTable

run-Agrees_example :
    Agrees (summary counted history).simulation_global (summary counted history).simulation_services
    × Agrees (summary counted history).today.global (summary counted history).today.services
run-Agrees_example =
    run-Agrees history (summary counted history) history-InTable run-summary_example

late_today_only :
    ((summary counted history).today.late_users
      ≡ count (is_late none) (since_new_day history) % 2 ^ 32)
    × ((summary counted history).today.global.late_users ≡ 0)
    × (map (λ (t : ServiceStats ℕ). t.late_users) (summary counted history).today.services
        ≡ replicate 6 0)
late_today_only =
    run_late_today history (summary counted history) history-InTable run-summary_example

one_late_today : count (is_late none) (since_new_day history) ≡ 1
unfolding count
one_late_today = refl

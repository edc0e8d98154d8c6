-- ===== src/Operatore/Deeds.antt =====
-- The deeds of src/operatore.c's operators, counted by kind.
use poste_italiane_simulatio.Prelude.{
  ℕ, suc, ◌+◌, ◌≡◌, Bool, true, false, List, [], ◌∷◌, ◌++◌, ◌==◌, if◌then◌else◌, arith,
}
use poste_italiane_simulatio.Stats.Summary.{request, pause, worked}
use poste_italiane_simulatio.Operatore.Shift.{Deed, tell, sit, rise, wake, wake_next, answer, lost}

module _ {F : Type 0} where
  -- The number of deeds of a kind.
  abbrev pub tally : (Deed F → Bool) → List (Deed F) → ℕ
  tally p [] = 0
  tally p (x ∷ xs) = if p x then suc (tally p xs) else tally p xs

  abbrev pub is_sit : Deed F → Bool
  is_sit (sit i) = true
  is_sit _ = false

  abbrev pub is_rise : Deed F → Bool
  is_rise (rise i) = true
  is_rise _ = false

  abbrev pub is_wake : Deed F → Bool
  is_wake wake = true
  is_wake _ = false

  abbrev pub is_wake_next : Deed F → Bool
  is_wake_next wake_next = true
  is_wake_next _ = false

  abbrev pub is_answer : Deed F → Bool
  is_answer (answer u t d) = true
  is_answer _ = false

  abbrev pub is_lost : Deed F → Bool
  is_lost (lost u t) = true
  is_lost _ = false

  abbrev pub tells_request : ℕ → Deed F → Bool
  tells_request service (tell (request j)) = j == service
  tells_request service _ = false

  abbrev pub tells_pause : Deed F → Bool
  tells_pause (tell pause) = true
  tells_pause _ = false

  abbrev pub tells_worked : Deed F → Bool
  tells_worked (tell worked) = true
  tells_worked _ = false

  pub tally-append :
      (p : Deed F → Bool) (xs ys : List (Deed F)) → tally p (xs ++ ys) ≡ tally p xs + tally p ys
  tally-append p [] ys = omega arith
  tally-append p (x ∷ xs) ys = ground (arith, tally-append p xs ys)

-- ===== src/Utente/Accounts.antt =====
-- src/utente.c, `handle_service`: how what a call leaves in the statistics and at the seats balances.
use poste_italiane_simulatio.Prelude.{
  ℕ, suc, ◌+◌, ◌≤◌, ◌≡◌, refl, inl, inr, Bool, true, false, not, ◌&&◌, List, [], ◌∷◌, Option, none,
  some, lt_int, if◌then◌else◌, Bool-cases, arith,
}
use poste_italiane_simulatio.Config.Defs.{PosteConfig}
use poste_italiane_simulatio.Stats.Summary.{success, failure, late}
use poste_italiane_simulatio.Utente.Visit.{
  Action, tell, take, free, ask, ServiceDone, Inputs, Way, returned, exited, unfinished, Visit,
  is_over, Got, seat, too_late, interrupted, waiting, leave, served, await_done, use_seat, go_on,
}

abbrev pub one : Bool → ℕ
one b = if b then 1 else 0

module _ {F : Type 0} where
  -- The number of actions of a kind.
  abbrev pub outcomes : List (Action F) → ℕ
  outcomes [] = 0
  outcomes (tell (success j w t) ∷ xs) = suc (outcomes xs)
  outcomes (tell (failure j) ∷ xs) = suc (outcomes xs)
  outcomes (_ ∷ xs) = outcomes xs

  abbrev pub lates : List (Action F) → ℕ
  lates [] = 0
  lates (tell (late j) ∷ xs) = suc (lates xs)
  lates (_ ∷ xs) = lates xs

  abbrev pub takes : List (Action F) → ℕ
  takes [] = 0
  takes (take k ∷ xs) = suc (takes xs)
  takes (_ ∷ xs) = takes xs

  abbrev pub frees : List (Action F) → ℕ
  frees [] = 0
  frees (free k ∷ xs) = suc (frees xs)
  frees (_ ∷ xs) = frees xs

  -- Whether the operator answered that the service is done, and before closing time.
  abbrev pub is_done : Option (ServiceDone F) → Bool
  is_done none = false
  is_done (some d) = not (lt_int d.ticket_number 0)

  abbrev pub in_time : PosteConfig → Inputs F → Bool
  in_time g i = i.request_sent && (is_done i.done && not (is_over g i.minute_after))

  -- What holds of the end of a call that the user entered with the flag `been`.
  pub record Accounts (g : PosteConfig) (been : Bool) (i : Inputs F) (v : Visit F) : Type 0 where
    pub one_outcome : v.way ≡ returned → outcomes v.actions ≡ 1
    pub once_late : lates v.actions + one been ≡ one v.been_late_today
    pub one_seat : takes v.actions ≤ 1
    pub seat_back : frees v.actions ≡ (if in_time g i then takes v.actions else 0)

  served-Accounts :
      (g : PosteConfig) (service : ℕ) (been : Bool) (i : Inputs F) (k : ℕ) (j : ℕ) (w t : F)
      (op ticket : ℕ)
      → i.request_sent ≡ true
      → is_done i.done ≡ true
      → Accounts g been i
          (served g service been i k (take k ∷ ask op ticket ∷ tell (success j w t) ∷ []))
  unfolding served
  served-Accounts g service true i k j w t op ticket sent done = record {
    one_outcome = λ e. ground arith;
    once_late = ground arith;
    one_seat = ground arith;
    seat_back = ground arith;
  }
  served-Accounts g service false i k j w t op ticket sent done = record {
    one_outcome = λ e. ground arith;
    once_late = ground arith;
    one_seat = ground arith;
    seat_back = ground arith;
  }

  -- A call that ends without a seat or without an answer, after the user's request or before it.
  failed-Accounts :
      (g : PosteConfig) (service : ℕ) (been : Bool) (i : Inputs F) (k op ticket : ℕ)
      → i.request_sent && is_done i.done ≡ false
      → Accounts g been i (leave been (take k ∷ ask op ticket ∷ tell (failure service) ∷ []))
  failed-Accounts g service been i k op ticket bad = record {
    one_outcome = λ e. refl;
    once_late = omega arith;
    one_seat = omega arith;
    seat_back = ground arith;
  }

  await_done-Accounts :
      (of_int : ℕ → F) (g : PosteConfig) (service : ℕ) (been : Bool) (i : Inputs F)
      (k op ticket : ℕ) (d : Option (ServiceDone F))
      → i.done ≡ d
      → i.request_sent ≡ true
      → Accounts g been i (await_done of_int g service been i k (take k ∷ ask op ticket ∷ []) d)
  unfolding await_done
  await_done-Accounts of_int g service been i k op ticket none e sent =
      failed-Accounts g service been i k op ticket (rw (sent, e))
  await_done-Accounts of_int g service been i k op ticket (some d) e sent =
      elim (Bool-cases (lt_int d.ticket_number 0)) [
        | inl bad ↦ rw bad (failed-Accounts g service been i k op ticket (rw (sent, e, bad)))
        | inr good ↦
            rw good (served-Accounts g service been i k _ _ _ op ticket sent (rw (e, good)))
      ]

  sent_or_not-Accounts :
      (of_int : ℕ → F) (g : PosteConfig) (service : ℕ) (been : Bool) (i : Inputs F)
      (k op ticket : ℕ) (sent : Bool)
      → i.request_sent ≡ sent
      → Accounts g been i (
          if sent
          then await_done of_int g service been i k (take k ∷ ask op ticket ∷ []) i.done
          else leave been (take k ∷ ask op ticket ∷ tell (failure service) ∷ []))
  sent_or_not-Accounts of_int g service been i k op ticket true e =
      await_done-Accounts of_int g service been i k op ticket i.done refl e
  sent_or_not-Accounts of_int g service been i k op ticket false e =
      failed-Accounts g service been i k op ticket (rw e)

  use_seat-Accounts :
      (of_int : ℕ → F) (g : PosteConfig) (service : ℕ) (been : Bool) (i : Inputs F) (ticket k : ℕ)
      → Accounts g been i (use_seat of_int g service been i ticket k)
  unfolding use_seat
  use_seat-Accounts of_int g service been i ticket k =
      sent_or_not-Accounts of_int g service been i k (i.operator_of k) ticket i.request_sent refl

  -- A call that ends before the user sits down, with a failure or with nothing told.
  pub seatless-Accounts :
      (g : PosteConfig) (been been' : Bool) (i : Inputs F) (way : Way) (actions : List (Action F))
      → (way ≡ returned → outcomes actions ≡ 1)
      → lates actions + one been ≡ one been'
      → takes actions ≡ 0
      → frees actions ≡ 0
      → Accounts g been i (record { way = way; been_late_today = been'; actions = actions })
  seatless-Accounts g been been' i way actions o l t f = record {
    one_outcome = o;
    once_late = l;
    one_seat = omega (arith, t);
    seat_back = ground arith;
  }

  pub go_on-Accounts :
      (of_int : ℕ → F) (g : PosteConfig) (service : ℕ) (been : Bool) (i : Inputs F) (ticket : ℕ)
      (got : Got)
      → Accounts g been i (go_on of_int g service been i ticket got)
  unfolding go_on
  go_on-Accounts of_int g service been i ticket (seat k) =
      use_seat-Accounts of_int g service been i ticket k
  go_on-Accounts of_int g service true i ticket too_late =
      seatless-Accounts g true true i returned _ (λ e. refl) refl refl refl
  go_on-Accounts of_int g service false i ticket too_late =
      seatless-Accounts g false true i returned _ (λ e. refl) refl refl refl
  go_on-Accounts of_int g service been i ticket interrupted =
      seatless-Accounts g been been i exited [] (λ e. cc) (omega arith) refl refl
  go_on-Accounts of_int g service been i ticket waiting =
      seatless-Accounts g been been i unfinished [] (λ e. cc) (omega arith) refl refl

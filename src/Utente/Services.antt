-- ===== src/Utente/Services.antt =====
-- src/utente.c, `generate_service_list` with its array of MAX_N_REQUESTS_COMPILE places, and
-- `will_go_to_poste`: what they give, and when the settings make them undefined.
use native.Mathlib.Decide.{ℕ_discrete}
use native.Mathlib.Nat.{mod-lt}
use poste_italiane_simulatio.Prelude.{
  ℕ, zero, suc, ◌+◌, ◌%◌, ◌≤◌, ◌<◌, ◌≡◌, refl, sym, ap, ◌∙◌, false, List, [], ◌∷◌, ok, fault, read,
  read_total, modify, modify_total, IsModified, ◌==◌, length, arith,
}
use poste_italiane_simulatio.Config.Defs.{PosteConfig, max_n_requests_compile, num_service_types}
use poste_italiane_simulatio.Utente.Choices.{fill_services, generate_service_list}

-- Entries from `lo` on and below `hi` are services, by their own numbers of rand(); those before
-- are as they were.
pub record IsFilled (lo hi : ℕ) (rand : ℕ → ℕ) (list list' : List ℕ) : Type 0 where
  pub same_length : length list' ≡ length list
  pub inside : (j : ℕ) → lo ≤ j → j < hi → read list' j ≡ ok (rand j % num_service_types)
  pub before : (j : ℕ) → j < lo → read list' j ≡ read list j

IsFilled-step :
    (lo hi : ℕ) (rand : ℕ → ℕ) (list mid list' : List ℕ)
    → lo < length list
    → IsModified list lo (λ _. rand lo % num_service_types) mid
    → IsFilled (suc lo) hi rand mid list'
    → IsFilled lo hi rand list list'
IsFilled-step lo hi rand list mid list' bound m f = record {
  same_length = f.same_length ∙ m.same_length;
  inside = λ j a b. elim (ℕ_discrete lo j) [
    | yes e ↦
        let (old, was) = read_total list lo bound in
        ap (read list') (sym e)
        ∙ f.before lo (omega arith)
        ∙ m.here old was
        ∙ ap (λ k. ok (rand k % num_service_types)) e
    | no ne ↦ f.inside j (omega arith) b
  ];
  before = λ j a. f.before j (omega arith) ∙ m.elsewhere j (λ e. omega arith);
}

fill_services-IsFilled :
    (rounds i hi : ℕ) (rand : ℕ → ℕ) (list : List ℕ)
    → i + rounds ≡ hi
    → hi ≤ length list
    → (list' : List ℕ) × (fill_services rounds i rand list ≡ ok list')
      × IsFilled i hi rand list list'
unfolding fill_services
fill_services-IsFilled zero i hi rand list s h = (
  list,
  refl,
  record { same_length = refl; inside = λ j a b. absurd (omega arith); before = λ j a. refl },
)
fill_services-IsFilled (suc rounds) i hi rand list s h =
    let (mid, e, m) = modify_total list i (λ _. rand i % num_service_types) (omega arith) in
    let (list', e', f) =
      fill_services-IsFilled rounds (suc i) hi rand mid (omega arith)
        (omega (arith, m.same_length)) in
    (list', rw (e, e'), IsFilled-step i hi rand list mid list' (omega arith) m f)

modify-fault : (list : List ℕ) (i : ℕ) (f : ℕ → ℕ) → length list ≤ i → modify list i f ≡ fault
modify-fault [] i f h = refl
modify-fault (x ∷ xs) zero f h = absurd (omega arith)
modify-fault (x ∷ xs) (suc i) f h = rw (modify-fault xs i f (omega arith))

fill_services-fault :
    (rounds i : ℕ) (rand : ℕ → ℕ) (list : List ℕ)
    → i ≤ length list
    → length list < i + rounds
    → fill_services rounds i rand list ≡ fault
unfolding fill_services
fill_services-fault zero i rand list within over = absurd (omega arith)
fill_services-fault (suc rounds) i rand list within over = elim (ℕ_discrete i (length list)) [
  | yes e ↦ rw (modify-fault list i (λ _. rand i % num_service_types) (omega arith))
  | no ne ↦
      let (mid, e, m) = modify_total list i (λ _. rand i % num_service_types) (omega arith) in
      rw e (
        fill_services-fault rounds (suc i) rand mid (omega (arith, m.same_length))
          (omega (arith, m.same_length)))
]

-- With a request limit above zero, the day's list has between one service and as many as the limit
-- allows, each of them one of the six, provided that their number fits the array of fifty; where it
-- does not fit, as a limit above fifty in the configuration allows, the array is overrun.
pub generate_service_list-IsFilled :
    (g : PosteConfig) (first : ℕ) (rand : ℕ → ℕ) (list : List ℕ)
    → 0 < g.max_n_requests
    → length list ≡ max_n_requests_compile
    → (first % g.max_n_requests + 1 ≤ max_n_requests_compile
        → (max : ℕ) × (list' : List ℕ) × (generate_service_list g first rand list ≡ ok (max, list'))
          × (1 ≤ max)
          × (max ≤ g.max_n_requests)
          × IsFilled 0 max rand list list')
      × (max_n_requests_compile < first % g.max_n_requests + 1
          → generate_service_list g first rand list ≡ fault)
unfolding generate_service_list
generate_service_list-IsFilled g first rand list pos len =
    let some_requests : (g.max_n_requests == 0) ≡ false = ground arith in
    let max = first % g.max_n_requests + 1 in
    let below : first % g.max_n_requests < g.max_n_requests = mod-lt first pos in
    (
      (λ fits.
          let (list', e, f) =
            fill_services-IsFilled max 0 max rand list (omega arith) (omega arith) in
          (max, list', rw (some_requests, e), omega arith, omega arith, f)),
      (λ over. rw (some_requests, fill_services-fault max 0 rand list (omega arith) (omega arith))),
    )

-- ===== src/NewUsers.antt =====
-- src/new_users.c: the client that asks the director for more users.
use poste_italiane_simulatio.Prelude.{
  ℕ, ◌^◌, ◌<◌, ◌≤◌, ◌≡◌, ◌≢◌, ap, ◌∙◌, Bool-cases, inl, inr, Bool, false, List, ◌==◌, [], ◌∷◌,
  Option, none, some, lt_int, if◌then◌else◌, arith,
}
use poste_italiane_simulatio.Config.Scan.{Bytes, codes, str_eq}
use poste_italiane_simulatio.Config.Numbers.{atoi, atoi_bound}
use poste_italiane_simulatio.Config.Decimal.{print_decimal, atoi-print_decimal}

-- `N_NEW_USERS` as the command line sets it, without the program's name.
unfoldable pub parse_arguments : List Bytes → ℕ
parse_arguments [] = 1
parse_arguments (option ∷ []) = 1
parse_arguments (option ∷ value ∷ []) =
    if str_eq option (codes "--n-new-users") then atoi value else 1
parse_arguments (option ∷ value ∷ more ∷ rest) = 1

-- A number below one is replaced by one.
unfoldable pub n_new_users : List Bytes → ℕ
unfolding parse_arguments
n_new_users args = let n = parse_arguments args in if lt_int n 1 then 1 else n

-- What the system does for the client: none is a failed call, and `reply` the status received.
pub data Reply : Type 0 where
  reply_interrupted reply_error : Reply
  reply : (status : ℕ) → Reply

pub record Calls : Type 0 where
  pub key : Option ℕ  -- ftok
  pub queue : Option ℕ  -- mq_open
  pub sends : Bool  -- mq_send
  pub received : Reply  -- mq_receive
  pub garbage : ℕ  -- what the uninitialised `res.status` holds

-- The last test of `main`.
abbrev exit_by_status : ℕ → ℕ
exit_by_status status = if status == 0 then 1 else 0

abbrev after_request : ℕ → Reply → ℕ
after_request garbage reply_interrupted = 1
after_request garbage reply_error = exit_by_status garbage
after_request garbage (reply status) = exit_by_status status

-- The exit status of `main`, and the number of users that it asked for, if it came so far.
unfoldable pub main : List Bytes → Calls → Option ℕ × ℕ
unfolding n_new_users
main args c = elim c.key [
  | none ↦ (none, 1)
  | some k ↦ elim c.queue [
    | none ↦ (none, 1)
    | some q ↦
        if c.sends then (some (n_new_users args), after_request c.garbage c.received) else (none, 1)
  ]
]

parse_arguments_bound : (args : List Bytes) → parse_arguments args < 2 ^ 32
unfolding parse_arguments
parse_arguments_bound [] = omega arith
parse_arguments_bound (option ∷ []) = omega arith
parse_arguments_bound (option ∷ value ∷ []) =
    elim (Bool-cases (str_eq option (codes "--n-new-users"))) [
      | inl e ↦ rw e (atoi_bound value)
      | inr e ↦ rw e (omega arith)
    ]
parse_arguments_bound (option ∷ value ∷ more ∷ rest) = omega arith

n_new_users_positive : (args : List Bytes) → (1 ≤ n_new_users args) × (n_new_users args < 2 ^ 31)
unfolding n_new_users
n_new_users_positive args = let bound = parse_arguments_bound args in (ground arith, ground arith)

exit_by_status-zero : (status : ℕ) → exit_by_status status ≡ 0 → status ≢ 0
exit_by_status-zero status e z = ground arith

main-asked :
    (args : List Bytes) (c : Calls)
    → (main args c).1 ≡ 0
    → (main args c).0 ≡ some (n_new_users args)
unfolding main
main-asked args c e = grind arith

n_new_users-option :
    (k : ℕ) → 1 ≤ k → k < 2 ^ 31 → n_new_users (codes "--n-new-users" ∷ print_decimal k ∷ []) ≡ k
unfolding n_new_users parse_arguments str_eq
n_new_users-option k h b =
    let positive : lt_int k 1 ≡ false = ground arith in rw (atoi-print_decimal k b, positive)

-- A client that ends with success has asked for a number of users that its command line decides,
-- whatever that says: at least one, and representable. It is `k` for the arguments
-- `--n-new-users` and `k` in decimal.
pub main_asks :
    (args : List Bytes) (c : Calls)
    → (main args c).1 ≡ 0
    → (n : ℕ) × ((main args c).0 ≡ some n)
      × (1 ≤ n)
      × (n < 2 ^ 31)
      × ((k : ℕ) → 1 ≤ k → k < 2 ^ 31 → args ≡ codes "--n-new-users" ∷ print_decimal k ∷ [] → n ≡ k)
main_asks args c e =
    let (low, high) = n_new_users_positive args in
    (
      n_new_users args,
      main-asked args c e,
      low,
      high,
      λ k h b eq. ap n_new_users eq ∙ n_new_users-option k h b,
    )

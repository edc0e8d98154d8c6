-- ===== src/Direttore/Children.antt =====
-- src/direttore.c: the table of child processes, which `check_new_users_queue` grows and which the
-- end of `main` goes through.
use poste_italiane_simulatio.Prelude.{
  read, ℕ, zero, suc, ◌+◌, ◌<◌, ◌≡◌, refl, ap, false, List, ◌∷◌, ◌++◌, Outcome, ok, fault,
  if◌then◌else◌, length, length-append, arith,
}
use poste_italiane_simulatio.Config.Defs.{PosteConfig}
use poste_italiane_simulatio.Direttore.Defs.{Children, Director, start_users}

-- `children` as `main` fills it: the ticket dispenser, the operators, the users.
unfoldable pub start_children : PosteConfig → (ℕ → ℕ) → Children
start_children g pid_of = record {
  pids =
      pid_of 0
      ∷ (start_users g.num_operators 1 pid_of
          ++ start_users g.num_users (1 + g.num_operators) pid_of);
  dangling = false;
}

-- The pids of the loops that kill the children and wait for them, as `main` reads them: a read
-- through the old address of a block that was moved is a fault.
unfoldable pub terminated : Children → Outcome (List ℕ)
terminated c = if c.dangling then fault else ok c.pids

-- Every process that was to be started is in the table, once.
pub record IsCounted {F : Type 0} (d : Director F) : Type 0 where
  pub reachable : d.children.dangling ≡ false
  pub counted : length d.children.pids ≡ 1 + (d.config.num_operators + d.config.num_users)

length-start_users : (n i : ℕ) (pid_of : ℕ → ℕ) → length (start_users n i pid_of) ≡ n
unfolding start_users
length-start_users zero i pid_of = refl
length-start_users (suc n) i pid_of = ap suc (length-start_users n (suc i) pid_of)

pub start_children-length :
    (g : PosteConfig) (pid_of : ℕ → ℕ)
    → length (start_children g pid_of).pids ≡ 1 + (g.num_operators + g.num_users)
unfolding start_children
start_children-length g pid_of = omega (
  arith,
  length-append (start_users g.num_operators 1 pid_of)
      (start_users g.num_users (1 + g.num_operators) pid_of),
  length-start_users g.num_operators 1 pid_of,
  length-start_users g.num_users (1 + g.num_operators) pid_of,
)

module _ {F : Type 0} where
  -- The processes started, at the end of the table.
  pub record Starts (d d' : Director F) (n : ℕ) (pid_of : ℕ → ℕ) : Type 0 where
    pub old :
        (j : ℕ) → j < length d.children.pids → read d'.children.pids j ≡ read d.children.pids j
    pub started :
        (i : ℕ) → i < n → read d'.children.pids (length d.children.pids + i) ≡ ok (pid_of i)
    pub no_more : length d'.children.pids ≡ length d.children.pids + n

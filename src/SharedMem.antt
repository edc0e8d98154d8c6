-- ===== src/SharedMem.antt =====
-- src/systems/shared_mem.c: `init_shared_memory` and `cleanup_shared_memory`. What the system gives
-- for a segment is an `Opened`. An index outside of the caller's array `open_shm` is a fault.
use mathlib.Core.List.{append-nil, append_assoc}
use poste_italiane_simulatio.Prelude.{
  ℕ, suc, ◌+◌, ◌<◌, ◌≡◌, ◌^◌, refl, ap, List, [], ◌∷◌, ◌++◌, Option, none, some, Outcome, ok, fault,
  ◌>>=◌, modify, length, length-append, incr, arith,
}

-- The descriptor of shm_open, which is not tested, and the address of mmap, or none.
pub record Opened (R : Type 0) : Type 0 where
  pub shm_info : ℕ
  pub mapped : Option R

-- A caller's `open_shm` and `open_shm_index`.
pub record Table : Type 0 where
  pub open_shm : List ℕ
  pub open_shm_index : ℕ

-- The calls of the system at the end.
pub data Call (R N : Type 0) : Type 0 where
  munmap : R → Call R N
  close : (shm_info : ℕ) → Call R N
  shm_unlink : N → Call R N

abbrev pub table : List ℕ → ℕ → Table
table fds i = record { open_shm = fds; open_shm_index = i }

modify_middle :
    (past rest : List ℕ) (x y : ℕ)
    → modify (past ++ x ∷ rest) (length past) (λ _. y) ≡ ok (past ++ y ∷ rest)
modify_middle [] rest x y = refl
modify_middle (z ∷ past) rest x y = rw (modify_middle past rest x y) refl

modify_end : (past : List ℕ) (y : ℕ) → modify past (length past) (λ _. y) ≡ fault
modify_end [] y = refl
modify_end (z ∷ past) y = rw (modify_end past y) refl

module _ {R : Type 0} where
  -- None is the exit of the process.
  unfoldable pub init_shared_memory : Opened R → Table → Outcome (Option (R × Table))
  init_shared_memory o t = elim o.mapped [
    | none ↦ ok none
    | some r ↦ do
      fds ← modify t.open_shm t.open_shm_index (λ _. o.shm_info)
      ok (some (r, record { open_shm = fds; open_shm_index = incr t.open_shm_index }))
  ]

  unfoldable pub cleanup_shared_memory : {N : Type 0} → N → ℕ → R → List (Call R N)
  cleanup_shared_memory name shm_info region = munmap region ∷ close shm_info ∷ shm_unlink name ∷ []

  -- One segment after the other, as the starts of the processes open them.
  abbrev pub and_then :
      Option (R × Table)
      → (Table → Outcome (Option (List R × Table)))
      → Outcome (Option (List R × Table))
  and_then none next = ok none
  and_then (some (r, t)) next =
      next t >>= λ o. elim o [ none ↦ ok none | some (rs, t') ↦ ok (some (r ∷ rs, t')) ]

  unfoldable pub open_all : List (Opened R) → Table → Outcome (Option (List R × Table))
  unfolding init_shared_memory
  open_all [] t = ok (some ([], t))
  open_all (o ∷ os) t = init_shared_memory o t >>= λ r. and_then r (open_all os)

  -- Segments that were mapped.
  abbrev pub mapped_as : List (ℕ × R) → List (Opened R)
  mapped_as [] = []
  mapped_as ((fd, r) ∷ xs) = record { shm_info = fd; mapped = some r } ∷ mapped_as xs

  abbrev pub descriptors : List (ℕ × R) → List ℕ
  descriptors [] = []
  descriptors ((fd, r) ∷ xs) = fd ∷ descriptors xs

  abbrev pub regions : List (ℕ × R) → List R
  regions [] = []
  regions ((fd, r) ∷ xs) = r ∷ regions xs

  init_in_slot :
      (past free : List ℕ) (f fd : ℕ) (r : R)
      → length past + 1 < 2 ^ 32
      → init_shared_memory
          (record { shm_info = fd; mapped = some r })
          (table (past ++ f ∷ free) (length past))
        ≡ ok (some (r, table ((past ++ fd ∷ []) ++ free) (length (past ++ fd ∷ []))))
  unfolding init_shared_memory
  init_in_slot past free f fd r h =
      let next : incr (length past) ≡ length (past ++ fd ∷ []) =
        omega (arith, length-append past (fd ∷ [])) in
      rw (modify_middle past free f fd, next, append_assoc past (fd ∷ []) free) refl

  pub open_all-fits :
      (past free : List ℕ) (xs : List (ℕ × R))
      → length past + length xs < 2 ^ 32
      → length free ≡ length xs
      → open_all (mapped_as xs) (table (past ++ free) (length past))
        ≡ ok (some (regions xs, table (past ++ descriptors xs) (length past + length xs)))
  unfolding open_all
  open_all-fits past [] [] h e = ap (λ n. ok (some ([], table (past ++ []) n))) (omega arith)
  open_all-fits past [] (x ∷ xs) h e = cc
  open_all-fits past (f ∷ free) [] h e = cc
  open_all-fits past (f ∷ free) ((fd, r) ∷ xs) h e =
      let more = length-append past (fd ∷ []) in
      let rest = open_all-fits (past ++ fd ∷ []) free xs (omega (arith, more)) (omega arith) in
      let count : length (past ++ fd ∷ []) + length xs ≡ length past + suc (length xs) =
        omega (arith, more) in
      rw (init_in_slot past free f fd r (omega arith))
        (rw rest (rw (count, append_assoc past (fd ∷ []) (descriptors xs)) refl))

  pub open_all-overruns :
      (past free : List ℕ) (xs : List (ℕ × R))
      → length past + length xs < 2 ^ 32
      → length free < length xs
      → open_all (mapped_as xs) (table (past ++ free) (length past)) ≡ fault
  unfolding open_all init_shared_memory
  open_all-overruns past free [] h e = elim e [ ]
  open_all-overruns past [] ((fd, r) ∷ xs) h e = rw (append-nil past, modify_end past fd) refl
  open_all-overruns past (f ∷ free) ((fd, r) ∷ xs) h e =
      let more = length-append past (fd ∷ []) in
      let rest = open_all-overruns (past ++ fd ∷ []) free xs (omega (arith, more)) (omega arith) in
      rw (init_in_slot past free f fd r (omega arith)) (rw rest refl)

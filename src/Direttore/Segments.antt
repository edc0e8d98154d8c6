-- ===== src/Direttore/Segments.antt =====
-- The two segments of shared memory: how src/direttore.c opens them and gives them back at the end
-- of `main`, and how src/utente.c and src/operatore.c open them.
use poste_italiane_simulatio.Prelude.{
  ℕ, ◌≡◌, refl, List, [], ◌∷◌, ◌++◌, Option, some, Outcome, ok, fault, ◌>>=◌, read, arith,
}
use poste_italiane_simulatio.Config.Scan.{Bytes, codes}
use poste_italiane_simulatio.SharedMem.{
  Opened, Table, Call, munmap, close, shm_unlink, table, open_all, cleanup_shared_memory,
  open_all-fits, open_all-overruns,
}

abbrev pub shm_stats_name : Bytes
shm_stats_name = codes "/poste_stats"

abbrev pub shm_stations_name : Bytes
shm_stations_name = codes "/poste_stations"

module _ {R : Type 0} where
  -- `int open_shm[2];`
  unfoldable pub director_segments :
      (garbage garbage' : ℕ) (stats stations : Opened R) → Outcome (Option (List R × Table))
  director_segments garbage garbage' stats stations =
      open_all (stats ∷ stations ∷ []) (table (garbage ∷ garbage' ∷ []) 0)

  -- `int open_shm[2] = {};`
  unfoldable pub user_segments : (stats stations : Opened R) → Outcome (Option (List R × Table))
  user_segments stats stations = open_all (stats ∷ stations ∷ []) (table (0 ∷ 0 ∷ []) 0)

  -- `int open_shm[] = {};`
  unfoldable pub operator_segments : (stats stations : Opened R) → Outcome (Option (List R × Table))
  operator_segments stats stations = open_all (stats ∷ stations ∷ []) (table [] 0)

  -- The last calls of `main`.
  unfoldable pub give_back : Table → (stats stations : R) → Outcome (List (Call R Bytes))
  unfolding cleanup_shared_memory
  give_back t stats stations = do
    fd ← read t.open_shm 0
    fd' ← read t.open_shm 1
    ok (
        cleanup_shared_memory shm_stats_name fd stats
        ++ cleanup_shared_memory shm_stations_name fd' stations)

  -- Where both segments are mapped, the director opens them without a fault, and its end
  -- unmaps both regions, closes the descriptor of each, and unlinks both names; a user opens them
  -- too; but the array of an operator has no slot for a descriptor.
  pub segments :
      (garbage garbage' : ℕ) (x y : ℕ × R)
      → (director_segments garbage garbage'
            (record { shm_info = x.0; mapped = some (x.1) })
            (record { shm_info = y.0; mapped = some (y.1) })
          ≡ ok (some (x.1 ∷ y.1 ∷ [], table (x.0 ∷ y.0 ∷ []) 2)))
        × (give_back (table (x.0 ∷ y.0 ∷ []) 2) (x.1) (y.1)
            ≡ ok (
                munmap (x.1)
                ∷ close (x.0)
                ∷ shm_unlink shm_stats_name
                ∷ munmap (y.1)
                ∷ close (y.0)
                ∷ shm_unlink shm_stations_name
                ∷ []))
        × (user_segments
              (record { shm_info = x.0; mapped = some (x.1) })
              (record { shm_info = y.0; mapped = some (y.1) })
            ≡ ok (some (x.1 ∷ y.1 ∷ [], table (x.0 ∷ y.0 ∷ []) 2)))
        × (operator_segments
              (record { shm_info = x.0; mapped = some (x.1) })
              (record { shm_info = y.0; mapped = some (y.1) })
            ≡ fault)
  unfolding director_segments user_segments operator_segments give_back cleanup_shared_memory
  segments garbage garbage' x y = (
    open_all-fits [] (garbage ∷ garbage' ∷ []) (x ∷ y ∷ []) (omega arith) refl,
    refl,
    open_all-fits [] (0 ∷ 0 ∷ []) (x ∷ y ∷ []) (omega arith) refl,
    open_all-overruns [] [] (x ∷ y ∷ []) (omega arith) (omega arith),
  )

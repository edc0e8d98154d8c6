-- ===== src/Direttore/StatsFile.antt =====
-- src/direttore.c: the search of `write_stats` for the name of its file. `exists` says which names
-- can be opened for reading.
use poste_italiane_simulatio.Prelude.{
  ℕ, zero, suc, ◌+◌, ◌≤◌, ◌<◌, ◌≡◌, inl, inr, Bool, true, false, ◌++◌, Option, none, some,
  if◌then◌else◌, Bool-cases, arith,
}
use native.Mathlib.Decide.{ℕ_discrete}
use poste_italiane_simulatio.Config.Scan.{Bytes, codes}
use poste_italiane_simulatio.Config.Decimal.{print_decimal}

-- What snprintf writes, with CSV_FILE_PATH in front.
unfoldable pub stats_name : ℕ → Bytes
stats_name zero = codes "./tmp/final_stats.csv"
stats_name (suc counter) =
    codes "./tmp/final_stats_" ++ (print_decimal (suc counter) ++ codes ".csv")

-- The do-while loop from a counter on, on fuel.
unfoldable pub free_name_from : (Bytes → Bool) → ℕ → ℕ → Option ℕ
free_name_from exists zero counter = none
free_name_from exists (suc fuel) counter =
    let later = free_name_from exists fuel (suc counter) in
    if exists (stats_name counter) then later else some counter

unfoldable pub free_name : (Bytes → Bool) → ℕ → Option ℕ
unfolding free_name_from
free_name exists fuel = free_name_from exists fuel 0

-- The first counter from `lo` on whose name is free.
pub record IsFirstFree (exists : Bytes → Bool) (lo c : ℕ) : Type 0 where
  pub from : lo ≤ c
  pub is_free : exists (stats_name c) ≡ false
  pub taken : (j : ℕ) → lo ≤ j → j < c → exists (stats_name j) ≡ true

free_name_from-IsFirstFree :
    (exists : Bytes → Bool) (fuel lo n : ℕ)
    → lo ≤ n
    → n < lo + fuel
    → exists (stats_name n) ≡ false
    → (c : ℕ) × (free_name_from exists fuel lo ≡ some c) × (c ≤ n) × IsFirstFree exists lo c
unfolding free_name_from
free_name_from-IsFirstFree exists zero lo n le lt free = absurd (omega arith)
free_name_from-IsFirstFree exists (suc fuel) lo n le lt free =
    elim (Bool-cases (exists (stats_name lo))) [
      | inr here ↦ (
        lo,
        rw here,
        le,
        record { from = omega arith; is_free = here; taken = λ j a b. absurd (omega arith) },
      )
      | inl there ↦
          let more : suc lo ≤ n = next_of lo n le there free in
          let (c, e, bound, first) =
            free_name_from-IsFirstFree exists fuel (suc lo) n more (omega arith) free in
          (
            c,
            rw there e,
            bound,
            record {
              from = omega (arith, first.from);
              is_free = first.is_free;
              taken = λ j a b. elim (ℕ_discrete lo j) [
                | yes same ↦ rw⁻¹ same there
                | no other ↦ first.taken j (omega arith) b
              ];
            },
          )
    ]
  where
    next_of :
        (a b : ℕ) → a ≤ b → exists (stats_name a) ≡ true → exists (stats_name b) ≡ false → suc a ≤ b
    next_of a b h t f = elim (ℕ_discrete a b) [
      | yes same ↦ cc (same, t, f)
      | no other ↦ omega arith
    ]

-- Where one of the first names is free, the loop ends, within one round more than its counter, and
-- with the first free name: `write_stats` never opens a file for writing that it could read.
pub free_name-IsFirstFree :
    (exists : Bytes → Bool) (n : ℕ)
    → exists (stats_name n) ≡ false
    → (c : ℕ) × (free_name exists (suc n) ≡ some c) × (c ≤ n) × IsFirstFree exists 0 c
unfolding free_name
free_name-IsFirstFree exists n free =
    free_name_from-IsFirstFree exists (suc n) 0 n (omega arith) (omega arith) free

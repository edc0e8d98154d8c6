-- ===== src/Direttore/Cells.antt =====
-- src/direttore.c, `write_stats`: the cells that it writes hold no comma and no newline.
use mathlib.Core.List.{append_assoc}
use poste_italiane_simulatio.Prelude.{
  ℕ, ◌^◌, ◌≡◌, refl, sym, ap, ◌∙◌, true, ◌&&◌, List, [], ◌∷◌, ◌++◌, All, Bool, false, ◌-◌, ltb,
  if◌then◌else◌, arith,
}
use poste_italiane_simulatio.Config.Defs.{PosteConfig}
use poste_italiane_simulatio.Config.Scan.{Bytes, codes}
use poste_italiane_simulatio.Config.Decimal.{print_decimal, print_decimal-IsDigit, IsDigit}
use poste_italiane_simulatio.Direttore.Report.{ExitMode, explode, timeout, exit_mode}
use poste_italiane_simulatio.Direttore.Format.{print_int, print_long}
use poste_italiane_simulatio.Direttore.Table.{
  Row, render_row, render, IsCell, is_cell, is_cell_sound, IsRow,
}
use poste_italiane_simulatio.Direttore.Csv.{exit_mode_text}
use poste_italiane_simulatio.Direttore.Rows.{summary_rows}

digits_IsCell : (s : Bytes) → All IsDigit s → IsCell s
digits_IsCell [] h = tt
digits_IsCell (c ∷ cs) h = (ground arith, digits_IsCell cs h.1)

signed_IsCell :
    (b : Bool) (x y : ℕ) → IsCell (if b then print_decimal x else b'-' ∷ print_decimal y)
signed_IsCell true x y = digits_IsCell _ (print_decimal-IsDigit x)
signed_IsCell false x y = (refl, digits_IsCell _ (print_decimal-IsDigit y))

pub print_int-IsCell : (x : ℕ) → IsCell (print_int x)
unfolding print_int
print_int-IsCell x = signed_IsCell (ltb x (2 ^ 31)) x (2 ^ 32 - x)

pub print_long-IsCell : (x : ℕ) → IsCell (print_long x)
unfolding print_long
print_long-IsCell x = signed_IsCell (ltb x (2 ^ 63)) x (2 ^ 64 - x)

-- A label and a number, or another cell.
pub labelled : (label cell : Bytes) → is_cell label ≡ true → IsCell cell → IsRow (label ∷ cell ∷ [])
labelled label cell h k = ((λ e. cc), (is_cell_sound label h, (k, tt)))

abbrev pub are_cells : Row → Bool
are_cells [] = true
are_cells (c ∷ cells) = is_cell c && are_cells cells

pub are_cells_sound : (r : Row) → are_cells r ≡ true → All IsCell r
are_cells_sound [] h = tt
are_cells_sound (c ∷ cells) h =
    (is_cell_sound c (ground arith), are_cells_sound cells (ground arith))

pub constant : (c : Bytes) (cells : Row) → are_cells (c ∷ cells) ≡ true → IsRow (c ∷ cells)
constant c cells h = ((λ e. cc), are_cells_sound (c ∷ cells) h)

pub single : (label : Bytes) → is_cell label ≡ true → IsRow (label ∷ [])
single label h = ((λ e. cc), (is_cell_sound label h, tt))

pub exit_mode_text-IsCell : (m : ExitMode) → IsCell (exit_mode_text m)
exit_mode_text-IsCell explode = is_cell_sound (codes "explode") refl
exit_mode_text-IsCell timeout = is_cell_sound (codes "timeout") refl

pub IsRow-append : (xs ys : List Row) → All IsRow xs → All IsRow ys → All IsRow (xs ++ ys)
IsRow-append [] ys h k = k
IsRow-append (x ∷ xs) ys (h, hs) k = (h, IsRow-append xs ys hs k)

pub render-append : (xs ys : List Row) → render (xs ++ ys) ≡ render xs ++ render ys
render-append [] ys = refl
render-append (x ∷ xs) ys =
    ap (◌++◌ (render_row x)) (render-append xs ys)
    ∙ sym (append_assoc (render_row x) (render xs) (render ys))

pub summary_rows-IsRow :
    (g : PosteConfig) (late : ℕ) (file : Bytes) → IsCell file → All IsRow (summary_rows g late file)
summary_rows-IsRow g late file h = (
  single (codes "Simulation Summary") refl,
  (
    labelled (codes "ExitMode") _ refl (exit_mode_text-IsCell (exit_mode g late)),
    (
      labelled (codes "ConfigFile") _ refl h,
      (
        labelled (codes "SimDuration(days)") _ refl (print_int-IsCell g.sim_duration),
        (
          labelled (codes "MinuteDuration(ns)") _ refl (print_long-IsCell g.minute_duration),
          (
            labelled (codes "NumOperators") _ refl (print_int-IsCell g.num_operators),
            (
              labelled (codes "NumUsers") _ refl (print_int-IsCell g.num_users),
              (
                labelled (codes "NumWorkerSeats") _ refl (print_int-IsCell g.num_worker_seats),
                (
                  labelled (codes "WorkerShiftOpen(hour)") _ refl
                      (print_int-IsCell g.worker_shift_open),
                  (
                    labelled (codes "WorkerShiftClose(hour)") _ refl
                        (print_int-IsCell g.worker_shift_close),
                    (
                      labelled (codes "ExplodeMaxLateUsers") _ refl
                          (print_int-IsCell g.explode_max),
                      (single [] refl, tt),
                    ),
                  ),
                ),
              ),
            ),
          ),
        ),
      ),
    ),
  ),
)

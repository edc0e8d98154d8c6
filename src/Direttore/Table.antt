-- ===== src/Direttore/Table.antt =====
-- Tables of comma-separated values, which src/direttore.c writes and other programs read.
use poste_italiane_simulatio.Prelude.{
  ℕ, ◌≡◌, ◌≢◌, refl, ap, ◌∙◌, Bool, true, ◌&&◌, not, List, [], ◌∷◌, ◌++◌, All, ◌==◌, if◌then◌else◌,
  arith,
}
use mathlib.Core.List.{append-nil, append_assoc}
use poste_italiane_simulatio.Config.Scan.{Bytes}

abbrev pub Row : Type 0
Row = List Bytes

abbrev pub render_row : Row → Bytes
render_row [] = b'\n' ∷ []
render_row (c ∷ []) = c ++ b'\n' ∷ []
render_row (c ∷ d ∷ cells) = c ++ b',' ∷ render_row (d ∷ cells)

abbrev pub render : List Row → Bytes
render [] = []
render (r ∷ rows) = render_row r ++ render rows

-- A reader of such a table, one byte after the other from behind.
abbrev put_byte : ℕ → List Row → List Row
put_byte c [] = ((c ∷ []) ∷ []) ∷ []
put_byte c ([] ∷ rows) = ((c ∷ []) ∷ []) ∷ rows
put_byte c ((cell ∷ cells) ∷ rows) = ((c ∷ cell) ∷ cells) ∷ rows

abbrev put_comma : List Row → List Row
put_comma [] = ([] ∷ [] ∷ []) ∷ []
put_comma (r ∷ rows) = ([] ∷ r) ∷ rows

abbrev pub read_csv : Bytes → List Row
read_csv [] = []
read_csv (c ∷ cs) =
    let rest = read_csv cs in
    if c == b'\n' then ([] ∷ []) ∷ rest else if c == b',' then put_comma rest else put_byte c rest

abbrev is_plain_byte : ℕ → Bool
is_plain_byte c = not (c == b'\n') && not (c == b',')

-- A cell that holds no comma and no newline.
abbrev pub IsCell : Bytes → Type 0
IsCell = All (λ c. is_plain_byte c ≡ true)

abbrev pub is_cell : Bytes → Bool
is_cell [] = true
is_cell (c ∷ cs) = is_plain_byte c && is_cell cs

pub is_cell_sound : (s : Bytes) → is_cell s ≡ true → IsCell s
is_cell_sound [] h = tt
is_cell_sound (c ∷ cs) h = ground (arith, is_cell_sound cs)

abbrev pub IsRow : Row → Type 0
IsRow r = (r ≢ []) × All IsCell r

read_csv-byte :
    (c : ℕ) (cs : Bytes) → is_plain_byte c ≡ true → read_csv (c ∷ cs) ≡ put_byte c (read_csv cs)
read_csv-byte c cs h = ground arith

-- A cell in front of what begins with a cell.
read_csv-cell :
    (s t cell : Bytes) (cells : Row) (rows : List Row)
    → IsCell s
    → read_csv t ≡ (cell ∷ cells) ∷ rows
    → read_csv (s ++ t) ≡ ((s ++ cell) ∷ cells) ∷ rows
read_csv-cell [] t cell cells rows h e = e
read_csv-cell (c ∷ cs) t cell cells rows h e =
    read_csv-byte c (cs ++ t) h.0 ∙ ap (put_byte c) (read_csv-cell cs t cell cells rows h.1 e)

read_csv-row :
    (c : Bytes) (cells : Row) (t : Bytes)
    → All IsCell (c ∷ cells)
    → read_csv (render_row (c ∷ cells) ++ t) ≡ (c ∷ cells) ∷ read_csv t
read_csv-row c [] t h =
    ap read_csv (append_assoc c (b'\n' ∷ []) t)
    ∙ read_csv-cell c (b'\n' ∷ t) [] [] (read_csv t) h.0 refl
    ∙ ap (λ x. (x ∷ []) ∷ read_csv t) (append-nil c)
read_csv-row c (d ∷ cells) t h =
    ap read_csv (append_assoc c (b',' ∷ render_row (d ∷ cells)) t)
    ∙ read_csv-cell c (b',' ∷ (render_row (d ∷ cells) ++ t)) [] (d ∷ cells) (read_csv t) h.0
        (ap put_comma (read_csv-row d cells t h.1))
    ∙ ap (λ x. (x ∷ d ∷ cells) ∷ read_csv t) (append-nil c)

-- What is written is read back.
pub read_csv-render : (rows : List Row) → All IsRow rows → read_csv (render rows) ≡ rows
read_csv-render [] h = refl
read_csv-render ([] ∷ rows) h = absurd (h.0.0 refl)
read_csv-render ((c ∷ cells) ∷ rows) h =
    read_csv-row c cells (render rows) h.0.1 ∙ ap (λ x. (c ∷ cells) ∷ x) (read_csv-render rows h.1)

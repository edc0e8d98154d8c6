-- ===== src/Direttore/Shown.antt =====
-- src/direttore.c, `print_day_stats` and `print_final_stats`: what stands on the screen.
use mathlib.Core.List.{append_assoc}
use poste_italiane_simulatio.Prelude.{
  ℕ, ◌≡◌, refl, sym, ap, ◌∙◌, Bool-cases, inl, inr, true, ◌&&◌, Option, none, some, List, [], ◌∷◌,
  ◌++◌, All, map, ok, lt_int, ◌==◌, if◌then◌else◌,
}
use poste_italiane_simulatio.Config.Defs.{PosteConfig}
use poste_italiane_simulatio.Config.Scan.{Bytes, codes, str_eq}
use poste_italiane_simulatio.Stats.Defs.{ServiceStats, DailyStats}
use poste_italiane_simulatio.Direttore.Format.{str, Line, print_int, prints}
use poste_italiane_simulatio.Direttore.Table.{
  Row, render, read_csv, IsCell, is_cell, is_cell_sound, IsRow, read_csv-render,
}
use poste_italiane_simulatio.Direttore.Screen.{
  print_counts, direttore_prefix, float_average, seat_ratio, print_service, day_head, day_round,
}

-- A line of the screen: a label, which ends with ": ", and a value; or no label, and a heading.
abbrev pub Entry : Type 0
Entry = Bytes × Bytes

abbrev pub entry_row : Entry → Row
entry_row e = (e.0 ++ e.1) ∷ []

-- The text of such lines.
abbrev pub text_of : List Entry → Bytes
text_of es = render (map entry_row es)

-- A reader of the screen cuts it into lines, and each line behind its first ": ".
abbrev past_byte : ℕ → Option Entry → Option Entry
past_byte c none = none
past_byte c (some e) = some (c ∷ e.0, e.1)

abbrev pub find_colon : Bytes → Option Entry
find_colon [] = none
find_colon (c ∷ []) = none
find_colon (c ∷ d ∷ cs) =
    let rest = find_colon (d ∷ cs) in
    if c == b':' && d == b' ' then some (c ∷ d ∷ [], cs) else past_byte c rest

abbrev or_heading : Bytes → Option Entry → Entry
or_heading line none = ([], line)
or_heading line (some e) = e

abbrev pub split_line : Bytes → Entry
split_line line = or_heading line (find_colon line)

abbrev split_row : Row → Entry
split_row [] = ([], [])
split_row (c ∷ cells) = split_line c

abbrev pub read_screen : Bytes → List Entry
read_screen text = map split_row (read_csv text)

pub record IsEntry (e : Entry) : Type 0 where
  pub plain : IsCell (e.0 ++ e.1)
  pub splits : split_line (e.0 ++ e.1) ≡ e

pub read_screen-rows : (es : List Entry) → All IsEntry es → read_screen (text_of es) ≡ es
read_screen-rows es h =
    ap (map split_row) (read_csv-render (map entry_row es) (each es h)) ∙ split es h
  where
    each : (es : List Entry) → All IsEntry es → All IsRow (map entry_row es)
    each [] h = tt
    each (e ∷ es) h = (((λ x. cc), (h.0.plain, tt)), each es h.1)

    split : (es : List Entry) → All IsEntry es → map split_row (map entry_row es) ≡ es
    split [] h = refl
    split (e ∷ es) h = rw (h.0.splits, split es h.1) refl

IsCell-append : (a b : Bytes) → IsCell a → IsCell b → IsCell (a ++ b)
IsCell-append [] b h k = k
IsCell-append (c ∷ a) b h k = (h.0, IsCell-append a b h.1 k)

-- A heading, and a constant label with a value.
pub heading-IsEntry : (text : Bytes) → IsCell text → find_colon text ≡ none → IsEntry ([], text)
heading-IsEntry text h s = record { plain = h; splits = rw s refl }

pub label-IsEntry :
    (label value : Bytes)
    → is_cell label ≡ true
    → split_line (label ++ value) ≡ (label, value)
    → IsCell value
    → IsEntry (label, value)
label-IsEntry label value h s k = record {
  plain = IsCell-append label value (is_cell_sound label h) k;
  splits = s;
}

abbrev pub on_director : Bytes → Bytes
on_director text = direttore_prefix ++ b' ' ∷ text

-- The line with the name of a service, behind an empty one.
prints-name :
    (name : Bytes) (more : List Line) (text : Bytes)
    → prints more ≡ ok text
    → prints ((b'\n' ∷ direttore_prefix ++ codes " %s:\n", str name ∷ []) ∷ more)
      ≡ ok (b'\n' ∷ (on_director (name ++ codes ":") ++ codes "\n") ++ text)
unfolding prints str_eq
prints-name name more text h = rw h (
    ap (λ x. ok (b'\n' ∷ (direttore_prefix ++ b' ' ∷ x) ++ text))
      (sym (append_assoc name (codes ":") (codes "\n"))))

module _ {F : Type 0} (float_quotient quotient : F → ℕ → Bytes) (int_quotient : ℕ → ℕ → Bytes) where
  -- A service without requests has no averages.
  abbrev pub service_average : F → ℕ → Bytes
  service_average total requests =
      if lt_int 0 requests then quotient total requests else codes "N/A"

  abbrev pub count_entries : ServiceStats F → List Entry
  count_entries s =
      (codes "  Served users: ", print_int s.served_users)
      ∷ (codes "  Failed services: ", print_int s.failed_services)
      ∷ (codes "  Avg general wait time: ", service_average s.total_wait_time s.total_requests)
      ∷ (codes "  Avg service wait time: ", service_average s.total_service_time s.total_requests)
      ∷ []

  abbrev pub service_entries : Bytes → ServiceStats F → List Entry
  service_entries name s = ([], []) ∷ ([], on_director (name ++ codes ":")) ∷ count_entries s

  abbrev pub ratio_entries : PosteConfig → ℕ → ServiceStats F → List Entry
  ratio_entries g active s =
      (codes "  Late users: ", print_int s.late_users)
      ∷ (
        codes "  Ratio between worker seats and working operators: ",
        seat_ratio float_quotient quotient int_quotient g active,
      )
      ∷ []

  pub prints-service :
      (name : Bytes) (s : ServiceStats F) (more : List Line) (entries : List Entry)
      → prints more ≡ ok (text_of entries)
      → prints (print_service float_quotient quotient int_quotient name s ++ more)
        ≡ ok (text_of (service_entries name s ++ entries))
  unfolding prints str_eq
  prints-service name s more entries h =
      prints-name name (print_counts float_quotient quotient int_quotient s ++ more)
        (text_of (count_entries s ++ entries))
        (elim (Bool-cases (lt_int 0 s.total_requests)) [
          | inl e ↦ rw (e, h) refl
          | inr e ↦ rw (e, h) refl
        ])

  abbrev pub day_entries : DailyStats F → List Entry
  day_entries today =
      ([], [])
      ∷ ([], on_director (codes "=== Daily Statistics ==="))
      ∷ (on_director (codes "Active operators: "), print_int today.active_operators)
      ∷ (on_director (codes "Total pauses: "), print_int today.total_pauses)
      ∷ (on_director (codes "Served users: "), print_int today.global.served_users)
      ∷ (on_director (codes "Failed services: "), print_int today.global.failed_services)
      ∷ (
        on_director (codes "Average general wait time: "),
        float_average float_quotient quotient int_quotient today.global.total_wait_time
            today.global.total_requests,
      )
      ∷ (
        on_director (codes "Average service wait time: "),
        float_average float_quotient quotient int_quotient today.global.total_service_time
            today.global.total_requests,
      )
      ∷ ([], [])
      ∷ ([], on_director (codes "=== Service Statistics ==="))
      ∷ []

  pub prints-day_head :
      (today : DailyStats F)
      → prints (day_head float_quotient quotient int_quotient today)
        ≡ ok (text_of (day_entries today))
  unfolding prints str_eq
  prints-day_head today = refl

  pub prints-day_round :
      (g : PosteConfig) (today : DailyStats F) (name : Bytes) (s : ServiceStats F)
      → prints (day_round float_quotient quotient int_quotient g today name s)
        ≡ ok (text_of (service_entries name s ++ ratio_entries g today.active_operators s))
  unfolding prints str_eq
  prints-day_round g today name s =
      prints-service name s _ (ratio_entries g today.active_operators s) refl

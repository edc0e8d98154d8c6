-- ===== src/Direttore/Entries.antt =====
-- src/direttore.c: the lines that `print_day_stats` and `print_final_stats` print are ones that a
-- reader can tell apart, and the blocks of the services follow each other.
use mathlib.Core.List.{append_assoc}
use poste_italiane_simulatio.Prelude.{
  All-append, ℕ, ◌≡◌, refl, sym, ap, ◌∙◌, Bool, true, false, none, List, [], ◌∷◌, ◌++◌, All, ok,
  length, lt_int, if◌then◌else◌, arith,
}
use poste_italiane_simulatio.Config.Defs.{PosteConfig}
use poste_italiane_simulatio.Config.Scan.{Bytes, codes}
use poste_italiane_simulatio.Stats.Defs.{ServiceStats}
use poste_italiane_simulatio.Direttore.Format.{Line, print_int, prints}
use poste_italiane_simulatio.Direttore.Table.{render_row, IsCell, is_cell, is_cell_sound}
use poste_italiane_simulatio.Direttore.Csv.{services}
use poste_italiane_simulatio.Direttore.Cells.{print_int-IsCell}
use poste_italiane_simulatio.Direttore.Screen.{float_average, print_services}
use poste_italiane_simulatio.Direttore.Shown.{
  Entry, entry_row, text_of, find_colon, split_line, IsEntry, heading-IsEntry, label-IsEntry,
  on_director, service_average, service_entries, ratio_entries,
}

pub text_of-append : (es fs : List Entry) → text_of (es ++ fs) ≡ text_of es ++ text_of fs
text_of-append [] fs = refl
text_of-append (e ∷ es) fs =
    ap (◌++◌ (render_row (entry_row e))) (text_of-append es fs)
    ∙ sym (append_assoc (render_row (entry_row e)) (text_of es) (text_of fs))

abbrev pub rule_entries : List Entry
rule_entries = ([], []) ∷ ([], on_director (codes "========================")) ∷ []

module _ {F : Type 0} where
  -- One block for each service.
  abbrev pub blocks :
      (Bytes → ServiceStats F → List Entry) → List Bytes → List (ServiceStats F) → List Entry
  blocks block (name ∷ names) (s ∷ all) = block name s ++ blocks block names all
  blocks block _ _ = []

  pub print_services-blocks :
      (body : Bytes → ServiceStats F → List Line) (block : Bytes → ServiceStats F → List Entry)
      (all : List (ServiceStats F))
      → ((name : Bytes) (s : ServiceStats F) → prints (body name s) ≡ ok (text_of (block name s)))
      → length all ≡ 6
      → print_services body 6 0 all ≡ ok (text_of (blocks block services all))
  unfolding print_services
  print_services-blocks body block (a ∷ b ∷ c ∷ d ∷ e ∷ f ∷ []) h six =
      rw (h _ a, h _ b, h _ c, h _ d, h _ e, h _ f)
        (ap ok (sym (joined services (a ∷ b ∷ c ∷ d ∷ e ∷ f ∷ []))))
    where
      joined_text : List Bytes → List (ServiceStats F) → Bytes
      joined_text (name ∷ names) (s ∷ all) = text_of (block name s) ++ joined_text names all
      joined_text _ _ = []

      joined :
          (names : List Bytes) (all : List (ServiceStats F))
          → text_of (blocks block names all) ≡ joined_text names all
      joined (name ∷ names) (s ∷ all) =
          text_of-append (block name s) (blocks block names all)
          ∙ ap (◌++◌ (text_of (block name s))) (joined names all)
      joined (name ∷ names) [] = refl
      joined [] all = refl
  print_services-blocks body block all h six = absurd (omega (arith, six))

-- Lines of one label and a number or a text, and headings, are entries.
pub empty-IsEntry : IsEntry ([], [])
empty-IsEntry = heading-IsEntry [] tt refl

pub closed-IsEntry :
    (text : Bytes) → is_cell text ≡ true → find_colon text ≡ none → IsEntry ([], text)
closed-IsEntry text h s = heading-IsEntry text (is_cell_sound text h) s

pub int-IsEntry :
    (label : Bytes) (x : ℕ)
    → is_cell label ≡ true
    → split_line (label ++ print_int x) ≡ (label, print_int x)
    → IsEntry (label, print_int x)
int-IsEntry label x h s = label-IsEntry label (print_int x) h s (print_int-IsCell x)

abbrev pub rule_IsEntries : All IsEntry rule_entries
rule_IsEntries = (empty-IsEntry, (closed-IsEntry _ refl refl, tt))

-- The name of a service makes a heading.
abbrev pub IsName : Bytes → Type 0
IsName name =
    (is_cell (on_director (name ++ codes ":")) ≡ true)
    × (find_colon (on_director (name ++ codes ":")) ≡ none)

pub services-IsName : All IsName services
services-IsName = (
  (refl, refl),
  ((refl, refl), ((refl, refl), ((refl, refl), ((refl, refl), ((refl, refl), tt))))),
)

pub blocks-IsEntry :
    {F : Type 0} (block : Bytes → ServiceStats F → List Entry) (names : List Bytes)
    (all : List (ServiceStats F))
    → ((name : Bytes) (s : ServiceStats F) → IsName name → All IsEntry (block name s))
    → All IsName names
    → All IsEntry (blocks block names all)
blocks-IsEntry block [] all h k = tt
blocks-IsEntry block (name ∷ names) [] h k = tt
blocks-IsEntry block (name ∷ names) (s ∷ all) h k =
    All-append IsEntry (block name s) (blocks block names all) (h name s k.0)
      (blocks-IsEntry block names all h k.1)

module _ {F : Type 0} (float_quotient quotient : F → ℕ → Bytes) (int_quotient : ℕ → ℕ → Bytes)
    (plain_floats : (x : F) (n : ℕ) → IsCell (float_quotient x n))
    (plain_doubles : (x : F) (n : ℕ) → IsCell (quotient x n))
    (plain_ratios : (x n : ℕ) → IsCell (int_quotient x n)) where
  pub if-IsCell : (b : Bool) (x y : Bytes) → IsCell x → IsCell y → IsCell (if b then x else y)
  if-IsCell true x y h k = h
  if-IsCell false x y h k = k

  pub float_average-IsCell :
      (x : F) (n : ℕ) → IsCell (float_average float_quotient quotient int_quotient x n)
  float_average-IsCell x n =
      if-IsCell (lt_int 0 n) _ _ (plain_floats x n) (is_cell_sound (codes "0.00") refl)

  service_average-IsCell :
      (x : F) (n : ℕ) → IsCell (service_average float_quotient quotient int_quotient x n)
  service_average-IsCell x n =
      if-IsCell (lt_int 0 n) _ _ (plain_doubles x n) (is_cell_sound (codes "N/A") refl)

  pub service_entries-IsEntry :
      (name : Bytes) (s : ServiceStats F)
      → IsName name
      → All IsEntry (service_entries float_quotient quotient int_quotient name s)
  service_entries-IsEntry name s h = (
    empty-IsEntry,
    (
      closed-IsEntry _ h.0 h.1,
      (
        int-IsEntry (codes "  Served users: ") s.served_users refl refl,
        (
          int-IsEntry (codes "  Failed services: ") s.failed_services refl refl,
          (
            label-IsEntry _ _ refl refl (service_average-IsCell s.total_wait_time s.total_requests),
            (
              label-IsEntry _ _ refl refl
                  (service_average-IsCell s.total_service_time s.total_requests),
              tt,
            ),
          ),
        ),
      ),
    ),
  )

  pub ratio_entries-IsEntry :
      (g : PosteConfig) (active : ℕ) (s : ServiceStats F)
      → All IsEntry (ratio_entries float_quotient quotient int_quotient g active s)
  ratio_entries-IsEntry g active s = (
    int-IsEntry (codes "  Late users: ") s.late_users refl refl,
    (
      label-IsEntry _ _ refl refl (
          if-IsCell (lt_int 0 g.num_worker_seats) _ _ (plain_ratios active g.num_worker_seats)
            (is_cell_sound (codes "0.00") refl)),
      tt,
    ),
  )

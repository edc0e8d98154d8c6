-- ===== src/Direttore/Written.antt =====
-- src/direttore.c, `write_stats`: the table that a reader of the report finds in it.
use poste_italiane_simulatio.Prelude.{
  ℕ, ◌^◌, ◌<◌, ◌≡◌, refl, sym, ap, ◌∙◌, List, [], ◌∷◌, ◌++◌, All, ok, length, Bool-cases, inl, inr,
  lt_int,
}
use poste_italiane_simulatio.Config.Defs.{PosteConfig}
use poste_italiane_simulatio.Config.Scan.{Bytes, codes}
use poste_italiane_simulatio.Config.Numbers.{atoi}
use poste_italiane_simulatio.Stats.Defs.{ServiceStats, PosteStats}
use poste_italiane_simulatio.Direttore.Format.{print_int, prints, atoi-print_int}
use poste_italiane_simulatio.Direttore.Table.{
  Row, render, read_csv, IsCell, is_cell_sound, IsRow, read_csv-render,
}
use poste_italiane_simulatio.Direttore.Csv.{services, average, stats_text}
use poste_italiane_simulatio.Direttore.Rows.{
  summary_rows, service_header, global_rows, service_rows, extra_rows, report, prints-summary,
  prints-global, prints-extra, prints-services,
}
use poste_italiane_simulatio.Direttore.Cells.{
  print_int-IsCell, labelled, are_cells_sound, constant, single, IsRow-append, render-append,
  summary_rows-IsRow,
}

module _ {F : Type 0} (average_text : F → ℕ → Bytes) (float_text : F → Bytes)
    (plain_averages : (x : F) (n : ℕ) → IsCell (average_text x n))
    (plain_floats : (x : F) → IsCell (float_text x)) where
  average-IsCell : (x : F) (n : ℕ) → IsCell (average average_text float_text x n)
  average-IsCell x n = elim (Bool-cases (lt_int 0 n)) [
    | inl e ↦ rw e (plain_averages x n)
    | inr e ↦ rw e (is_cell_sound (codes "0.00") refl)
  ]

  global_rows-IsRow : (s : PosteStats F) → All IsRow (global_rows average_text float_text s)
  global_rows-IsRow s = (
    constant _ _ refl,
    (
      (
        (λ e. cc),
        (
          print_int-IsCell s.current_day,
          (
            print_int-IsCell s.current_minute,
            (
              print_int-IsCell s.total_active_operators,
              (
                print_int-IsCell s.total_simulation_pauses,
                (
                  print_int-IsCell s.simulation_global.served_users,
                  (
                    print_int-IsCell s.simulation_global.failed_services,
                    (
                      average-IsCell s.simulation_global.total_wait_time _,
                      (average-IsCell s.simulation_global.total_service_time _, tt),
                    ),
                  ),
                ),
              ),
            ),
          ),
        ),
      ),
      tt,
    ),
  )

  service_rows-IsRow :
      (names : List Bytes) (all : List (ServiceStats F))
      → All IsCell names
      → All IsRow (service_rows average_text float_text names all)
  service_rows-IsRow [] all h = tt
  service_rows-IsRow (name ∷ names) [] h = tt
  service_rows-IsRow (name ∷ names) (s ∷ all) h = (
    (
      (λ e. cc),
      (
        h.0,
        (
          print_int-IsCell s.served_users,
          (
            print_int-IsCell s.failed_services,
            (average-IsCell s.total_wait_time _, (average-IsCell s.total_service_time _, tt)),
          ),
        ),
      ),
    ),
    service_rows-IsRow names all h.1,
  )

  extra_rows-IsRow : (s : PosteStats F) → All IsRow (extra_rows average_text float_text s)
  extra_rows-IsRow s = (
    single [] refl,
    (
      single (codes "ExtraInfo") refl,
      (
        labelled (codes "LateUsersToday") _ refl (print_int-IsCell s.today.late_users),
        (
          labelled (codes "TotalLateUsers") _ refl
              (print_int-IsCell s.simulation_global.late_users),
          (
            labelled (codes "TotalRequests") _ refl
                (print_int-IsCell s.simulation_global.total_requests),
            (
              labelled (codes "TotalWaitTime") _ refl
                  (plain_floats s.simulation_global.total_wait_time),
              (
                labelled (codes "TotalServiceTime") _ refl
                    (plain_floats s.simulation_global.total_service_time),
                tt,
              ),
            ),
          ),
        ),
      ),
    ),
  )

  report-IsRow :
      (g : PosteConfig) (s : PosteStats F) (file : Bytes)
      → IsCell file
      → All IsRow (report average_text float_text g s file)
  report-IsRow g s file h =
      IsRow-append (summary_rows g s.today.late_users file)
        (global_rows average_text float_text s
          ++ (service_header
              ++ (service_rows average_text float_text services s.simulation_services
                  ++ extra_rows average_text float_text s)))
        (summary_rows-IsRow g s.today.late_users file h)
        (IsRow-append (global_rows average_text float_text s)
          (service_header
            ++ (service_rows average_text float_text services s.simulation_services
                ++ extra_rows average_text float_text s))
          (global_rows-IsRow s)
          (IsRow-append service_header
            (service_rows average_text float_text services s.simulation_services
              ++ extra_rows average_text float_text s)
            (single [] refl, (constant _ _ refl, tt))
            (IsRow-append (service_rows average_text float_text services s.simulation_services)
              (extra_rows average_text float_text s)
              (service_rows-IsRow services s.simulation_services (are_cells_sound services refl))
              (extra_rows-IsRow s))))

  render_parts :
      (a b c d e : List Row)
      → render a ++ (render b ++ (render c ++ (render d ++ render e)))
        ≡ render (a ++ (b ++ (c ++ (d ++ e))))
  render_parts a b c d e = sym (
      render-append a (b ++ (c ++ (d ++ e)))
      ∙ ap (◌++◌ (render a)) (
          render-append b (c ++ (d ++ e))
          ∙ ap (◌++◌ (render b))
              (render-append c (d ++ e) ∙ ap (◌++◌ (render c)) (render-append d e))))

  stats_text-render :
      (g : PosteConfig) (s : PosteStats F) (file : Bytes)
      → length s.simulation_services ≡ 6
      → stats_text average_text float_text g s file
        ≡ ok (render (report average_text float_text g s file))
  unfolding stats_text prints
  stats_text-render g s file six =
      let (lines, e, e') = prints-services average_text float_text s.simulation_services six in
      rw
        (
          prints-summary g s.today.late_users file,
          prints-global average_text float_text s,
          e,
          e',
          prints-extra average_text float_text s,
        )
        (ap ok (
          render_parts (summary_rows g s.today.late_users file)
            (global_rows average_text float_text s) service_header
            (service_rows average_text float_text services s.simulation_services)
            (extra_rows average_text float_text s)))

  -- The report that `write_stats` writes of six services is whole, every format meets arguments of
  -- its types, and a reader that cuts it at newlines and commas finds the table of the settings and
  -- the statistics, each value next to its label or below its heading; and `atoi` reads every int
  -- back from its cell, the negative ones too. That is so where the path of the settings and
  -- the texts of the floats hold no comma and no newline.
  pub stats_text-report :
      (g : PosteConfig) (s : PosteStats F) (file : Bytes)
      → length s.simulation_services ≡ 6
      → IsCell file
      → (text : Bytes) × (stats_text average_text float_text g s file ≡ ok text)
        × (read_csv text ≡ report average_text float_text g s file)
        × ((x : ℕ) → x < 2 ^ 32 → atoi (print_int x) ≡ x)
  stats_text-report g s file six plain = (
    render (report average_text float_text g s file),
    stats_text-render g s file six,
    read_csv-render (report average_text float_text g s file) (report-IsRow g s file plain),
    atoi-print_int,
  )

-- ===== src/Direttore/OnScreen.antt =====
-- src/direttore.c, `print_day_stats` and `print_final_stats`: what a reader of the screen finds.
use mathlib.Core.Path.{subst}
use mathlib.Core.List.{append-nil}
use poste_italiane_simulatio.Prelude.{
  All-append, ℕ, ◌≡◌, refl, sym, ap, ◌∙◌, List, [], ◌∷◌, ◌++◌, All, ok, length,
}
use poste_italiane_simulatio.Config.Defs.{PosteConfig}
use poste_italiane_simulatio.Config.Scan.{Bytes, codes, str_eq}
use poste_italiane_simulatio.Stats.Defs.{ServiceStats, DailyStats, PosteStats}
use poste_italiane_simulatio.Direttore.Format.{print_int, prints}
use poste_italiane_simulatio.Direttore.Table.{IsCell}
use poste_italiane_simulatio.Direttore.Csv.{services}
use poste_italiane_simulatio.Direttore.Screen.{
  float_average, print_service, day_round, print_day_stats, final_head, print_final_stats,
}
use poste_italiane_simulatio.Direttore.Shown.{
  Entry, text_of, read_screen, IsEntry, read_screen-rows, label-IsEntry, on_director,
  service_entries, ratio_entries, prints-service, day_entries, prints-day_head, prints-day_round,
}
use poste_italiane_simulatio.Direttore.Entries.{
  text_of-append, rule_entries, blocks, print_services-blocks, empty-IsEntry, closed-IsEntry,
  int-IsEntry, rule_IsEntries, services-IsName, blocks-IsEntry, float_average-IsCell,
  service_entries-IsEntry, ratio_entries-IsEntry,
}

module _ {F : Type 0} (float_quotient quotient : F → ℕ → Bytes) (int_quotient : ℕ → ℕ → Bytes) where
  abbrev day_block : PosteConfig → DailyStats F → Bytes → ServiceStats F → List Entry
  day_block g today name s =
      service_entries float_quotient quotient int_quotient name s
      ++ ratio_entries float_quotient quotient int_quotient g today.active_operators s

  -- The screen after `print_day_stats`.
  abbrev pub day_screen : PosteConfig → DailyStats F → List Entry
  day_screen g today =
      day_entries float_quotient quotient int_quotient today
      ++ (blocks (day_block g today) services today.services ++ rule_entries)

  abbrev pub final_entries : PosteStats F → List Entry
  final_entries s =
      ([], [])
      ∷ ([], on_director (codes "=== Final Statistics ==="))
      ∷ (on_director (codes "Total active operators: "), print_int s.total_active_operators)
      ∷ (on_director (codes "Total simulation pauses: "), print_int s.total_simulation_pauses)
      ∷ (on_director (codes "Current day: "), print_int s.current_day)
      ∷ (on_director (codes "Current minute: "), print_int s.current_minute)
      ∷ ([], [])
      ∷ ([], on_director (codes "=== Global Statistics ==="))
      ∷ (on_director (codes "Total served users: "), print_int s.simulation_global.served_users)
      ∷ (
        on_director (codes "Total failed services: "),
        print_int s.simulation_global.failed_services,
      )
      ∷ (
        on_director (codes "Avg general wait time: "),
        float_average float_quotient quotient int_quotient s.simulation_global.total_wait_time
            s.simulation_global.total_requests,
      )
      ∷ (
        on_director (codes "Avg service wait time: "),
        float_average float_quotient quotient int_quotient s.simulation_global.total_service_time
            s.simulation_global.total_requests,
      )
      ∷ (on_director (codes "Total late users: "), print_int s.simulation_global.late_users)
      ∷ ([], [])
      ∷ ([], on_director (codes "=== Global Service Statistics ==="))
      ∷ []

  -- The screen after `print_final_stats`.
  abbrev pub final_screen : PosteStats F → List Entry
  final_screen s =
      final_entries s
      ++ (blocks (service_entries float_quotient quotient int_quotient) services
            s.simulation_services
          ++ rule_entries)

module _ {F : Type 0} (float_quotient quotient : F → ℕ → Bytes) (int_quotient : ℕ → ℕ → Bytes)
    (plain_floats : (x : F) (n : ℕ) → IsCell (float_quotient x n))
    (plain_doubles : (x : F) (n : ℕ) → IsCell (quotient x n))
    (plain_ratios : (x n : ℕ) → IsCell (int_quotient x n)) where
  day_entries-IsEntry :
      (today : DailyStats F) → All IsEntry (day_entries float_quotient quotient int_quotient today)
  day_entries-IsEntry today = (
    empty-IsEntry,
    (
      closed-IsEntry _ refl refl,
      (
        int-IsEntry _ today.active_operators refl refl,
        (
          int-IsEntry _ today.total_pauses refl refl,
          (
            int-IsEntry _ today.global.served_users refl refl,
            (
              int-IsEntry _ today.global.failed_services refl refl,
              (
                label-IsEntry _ _ refl refl (
                    float_average-IsCell float_quotient quotient int_quotient plain_floats
                      plain_doubles plain_ratios today.global.total_wait_time _),
                (
                  label-IsEntry _ _ refl refl (
                      float_average-IsCell float_quotient quotient int_quotient plain_floats
                        plain_doubles plain_ratios today.global.total_service_time _),
                  (empty-IsEntry, (closed-IsEntry _ refl refl, tt)),
                ),
              ),
            ),
          ),
        ),
      ),
    ),
  )

  print_day_stats-text_of :
      (g : PosteConfig) (today : DailyStats F)
      → length today.services ≡ 6
      → print_day_stats float_quotient quotient int_quotient g today
        ≡ ok (text_of (day_screen float_quotient quotient int_quotient g today))
  unfolding print_day_stats prints
  print_day_stats-text_of g today six =
      rw
        (
          prints-day_head float_quotient quotient int_quotient today,
          print_services-blocks (day_round float_quotient quotient int_quotient g today)
              (day_block float_quotient quotient int_quotient g today) today.services
              (prints-day_round float_quotient quotient int_quotient g today) six,
        )
        (ap ok (
          sym (
            text_of-append (day_entries float_quotient quotient int_quotient today) (
              blocks (day_block float_quotient quotient int_quotient g today) services
                today.services
              ++ rule_entries)
            ∙ ap (◌++◌ (text_of (day_entries float_quotient quotient int_quotient today))) (
                text_of-append
                  (blocks (day_block float_quotient quotient int_quotient g today) services
                    today.services)
                  rule_entries))))

  print_day_stats-read_screen :
      (g : PosteConfig) (today : DailyStats F)
      → length today.services ≡ 6
      → (text : Bytes) × (print_day_stats float_quotient quotient int_quotient g today ≡ ok text)
        × (read_screen text ≡ day_screen float_quotient quotient int_quotient g today)
  print_day_stats-read_screen g today six = (
    text_of (day_screen float_quotient quotient int_quotient g today),
    print_day_stats-text_of g today six,
    read_screen-rows (day_screen float_quotient quotient int_quotient g today) (
        All-append IsEntry (day_entries float_quotient quotient int_quotient today)
          (blocks (day_block float_quotient quotient int_quotient g today) services today.services
            ++ rule_entries)
          (day_entries-IsEntry today)
          (All-append IsEntry
            (blocks (day_block float_quotient quotient int_quotient g today) services
              today.services)
            rule_entries
            (blocks-IsEntry (day_block float_quotient quotient int_quotient g today) services
              today.services
              (λ name s h.
                All-append IsEntry (service_entries float_quotient quotient int_quotient name s)
                  (ratio_entries float_quotient quotient int_quotient g today.active_operators s)
                  (service_entries-IsEntry float_quotient quotient int_quotient plain_floats
                    plain_doubles plain_ratios name s h)
                  (ratio_entries-IsEntry float_quotient quotient int_quotient plain_floats
                    plain_doubles plain_ratios g today.active_operators s))
              services-IsName)
            rule_IsEntries)),
  )

  final_entries-IsEntry :
      (s : PosteStats F) → All IsEntry (final_entries float_quotient quotient int_quotient s)
  final_entries-IsEntry s = (
    empty-IsEntry,
    (
      closed-IsEntry _ refl refl,
      (
        int-IsEntry _ s.total_active_operators refl refl,
        (
          int-IsEntry _ s.total_simulation_pauses refl refl,
          (
            int-IsEntry _ s.current_day refl refl,
            (
              int-IsEntry _ s.current_minute refl refl,
              (
                empty-IsEntry,
                (
                  closed-IsEntry _ refl refl,
                  (
                    int-IsEntry _ s.simulation_global.served_users refl refl,
                    (
                      int-IsEntry _ s.simulation_global.failed_services refl refl,
                      (
                        label-IsEntry _ _ refl refl (
                            float_average-IsCell float_quotient quotient int_quotient plain_floats
                              plain_doubles plain_ratios s.simulation_global.total_wait_time _),
                        (
                          label-IsEntry _ _ refl refl (
                              float_average-IsCell float_quotient quotient int_quotient plain_floats
                                plain_doubles plain_ratios s.simulation_global.total_service_time
                                _),
                          (
                            int-IsEntry _ s.simulation_global.late_users refl refl,
                            (empty-IsEntry, (closed-IsEntry _ refl refl, tt)),
                          ),
                        ),
                      ),
                    ),
                  ),
                ),
              ),
            ),
          ),
        ),
      ),
    ),
  )

  prints-final_head :
      (s : PosteStats F)
      → prints (final_head float_quotient quotient int_quotient s)
        ≡ ok (text_of (final_entries float_quotient quotient int_quotient s))
  unfolding prints str_eq
  prints-final_head s = refl

  prints-final_round :
      (name : Bytes) (s : ServiceStats F)
      → prints (print_service float_quotient quotient int_quotient name s)
        ≡ ok (text_of (service_entries float_quotient quotient int_quotient name s))
  unfolding prints
  prints-final_round name s =
      subst
        (λ lines.
          prints lines ≡ ok (text_of (service_entries float_quotient quotient int_quotient name s)))
        (append-nil (print_service float_quotient quotient int_quotient name s))
        (prints-service float_quotient quotient int_quotient name s [] [] refl)

  print_final_stats-text_of :
      (s : PosteStats F)
      → length s.simulation_services ≡ 6
      → print_final_stats float_quotient quotient int_quotient s
        ≡ ok (text_of (final_screen float_quotient quotient int_quotient s))
  unfolding print_final_stats prints
  print_final_stats-text_of s six =
      rw
        (
          prints-final_head s,
          print_services-blocks (print_service float_quotient quotient int_quotient)
              (service_entries float_quotient quotient int_quotient) s.simulation_services
              prints-final_round six,
        )
        (ap ok (
          sym (
            text_of-append (final_entries float_quotient quotient int_quotient s) (
              blocks (service_entries float_quotient quotient int_quotient) services
                s.simulation_services
              ++ rule_entries)
            ∙ ap (◌++◌ (text_of (final_entries float_quotient quotient int_quotient s))) (
                text_of-append
                  (blocks (service_entries float_quotient quotient int_quotient) services
                    s.simulation_services)
                  rule_entries))))

  final_screen-IsEntry :
      (s : PosteStats F) → All IsEntry (final_screen float_quotient quotient int_quotient s)
  final_screen-IsEntry s =
      All-append IsEntry (final_entries float_quotient quotient int_quotient s)
        (blocks (service_entries float_quotient quotient int_quotient) services
            s.simulation_services
          ++ rule_entries)
        (final_entries-IsEntry s)
        (All-append IsEntry
          (blocks (service_entries float_quotient quotient int_quotient) services
            s.simulation_services)
          rule_entries
          (blocks-IsEntry (service_entries float_quotient quotient int_quotient) services
            s.simulation_services
            (service_entries-IsEntry float_quotient quotient int_quotient plain_floats plain_doubles
              plain_ratios)
            services-IsName)
          rule_IsEntries)

  -- What the director prints of a day and at the end, of six services, is whole: every format meets
  -- arguments of its types, and a reader who cuts the screen into lines, and each line behind its
  -- first ": ", finds every count behind its label and every average, N/A for a service without
  -- requests, in the blocks of the services in their order. That is so where the texts of the
  -- quotients hold no comma and no newline.
  pub print_stats-read_screen :
      (g : PosteConfig) (s : PosteStats F)
      → length s.today.services ≡ 6
      → length s.simulation_services ≡ 6
      → (day final : Bytes) × (print_day_stats float_quotient quotient int_quotient g s.today
          ≡ ok day)
        × (read_screen day ≡ day_screen float_quotient quotient int_quotient g s.today)
        × (print_final_stats float_quotient quotient int_quotient s ≡ ok final)
        × (read_screen final ≡ final_screen float_quotient quotient int_quotient s)
  print_stats-read_screen g s six six' =
      let (day, e, r) = print_day_stats-read_screen g s.today six in
      (
        day,
        text_of (final_screen float_quotient quotient int_quotient s),
        e,
        r,
        print_final_stats-text_of s six',
        read_screen-rows (final_screen float_quotient quotient int_quotient s)
            (final_screen-IsEntry s),
      )

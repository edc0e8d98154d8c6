-- ===== src/Operatore/Tests.antt =====
-- Examples of the theorems on operators. Times are whole numbers here.
use poste_italiane_simulatio.Prelude.{
  ℕ, ◌+◌, ◌*◌, ◌/◌, ◌≤◌, ◌<◌, ◌≡◌, true, false, List, [], ◌∷◌, ok, read, arith,
}
use poste_italiane_simulatio.Config.Defs.{default_config, services_duration}
use poste_italiane_simulatio.Stations.Defs.{free, Stations}
use poste_italiane_simulatio.Operatore.Service.{
  Nap, slept, interrupted, Sleep, process_service, nanoseconds, remainders, process_service_bounds,
}
use poste_italiane_simulatio.Operatore.Shift.{timed_out, woken, message, no_message, Inputs}
use poste_italiane_simulatio.Config.Defs.{PosteConfig}

abbrev naps : List Nap
naps = interrupted (0, 3000) ∷ slept ∷ []

-- Ten minutes of 50 ms, for a parcel.
process_service_bounds_example :
    (nominal nano : ℕ) × (end : Sleep) × (time : ℕ × ℕ) × (read services_duration 0 ≡ ok nominal)
    × (process_service 50000000 0 1234 naps ≡ ok (nano, (end, time ∷ remainders naps)))
    × (nominal * 50000000 / 2 ≤ nano)
    × (nano ≤ nominal * 50000000 + nominal * 50000000 / 2)
    × (nanoseconds time ≡ nano)
    × (time.1 < 1000000000)
process_service_bounds_example =
    process_service_bounds 50000000 0 1234 naps (omega arith) (omega arith)

abbrev one_seat : PosteConfig
one_seat = record default_config { num_worker_seats = 1 }

abbrev table : Stations
table = record {
  seats =
      record { operator_process = 0; operator_status = free; user_status = free; service_id = 2 }
      ∷ [];
  stations_event = 0;
  stations_freed_event = 0;
}

-- One request, and then closing time.
abbrev inputs : Inputs
inputs = record {
  stations_today = table;
  stations_first = table;
  polls = timed_out false ∷ woken table ∷ [];
  passes =
      record { closed = false; mail = no_message; duration = 0; naps = []; sent = true; luck = 0 }
      ∷ record {
        closed = false;
        mail = message 70 3;
        duration = 9;
        naps = naps;
        sent = true;
        luck = 50;
      }
      ∷ record { closed = true; mail = no_message; duration = 0; naps = []; sent = true; luck = 0 }
      ∷ [];
}

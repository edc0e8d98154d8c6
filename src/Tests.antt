-- ===== src/Tests.antt =====
-- Examples of the theorems on the ticket dispenser and the client for new users.
use poste_italiane_simulatio.Prelude.{
  ℕ, ◌^◌, ◌≤◌, ◌<◌, ◌≡◌, refl, true, List, [], ◌∷◌, some, map, length, ok, arith,
}
use poste_italiane_simulatio.Config.Scan.{Bytes, codes}
use poste_italiane_simulatio.Config.Decimal.{print_decimal}
use poste_italiane_simulatio.ErogatoreTicket.{
  Received, request, interrupted, failed, Response, serve, senders, tickets, Differs, Pairs,
  serve-tickets,
}
use poste_italiane_simulatio.NewUsers.{Calls, reply, main, main_asks}

abbrev received : List Received
received = request 70 2 ∷ interrupted ∷ request 71 5 ∷ failed ∷ request 72 0 ∷ []

serve-tickets_example :
    (serve 9 0 received ≡ ok (tickets 9 0 (70 ∷ 71 ∷ [])))
    × (map (λ (r : Response). r.receiver) (tickets 9 0 (70 ∷ 71 ∷ [])) ≡ 70 ∷ 71 ∷ [])
    × (length (senders received) ≤ 2 ^ 32 → Pairs Differs (tickets 9 0 (70 ∷ 71 ∷ [])))
serve-tickets_example =
    serve-tickets 9 received (omega arith, (tt, (omega arith, (tt, (omega arith, tt)))))

abbrev answered : Calls
answered = record { key = some 1; queue = some 2; sends = true; received = reply 1; garbage = 0 }

abbrev no_arguments : List Bytes
no_arguments = []

no_arguments_done : (main no_arguments answered).1 ≡ 0
unfolding main
no_arguments_done = refl

main_asks_example :
    (n : ℕ) × ((main no_arguments answered).0 ≡ some n)
    × (1 ≤ n)
    × (n < 2 ^ 31)
    × ((k : ℕ)
        → 1 ≤ k
        → k < 2 ^ 31
        → no_arguments ≡ codes "--n-new-users" ∷ print_decimal k ∷ []
        → n ≡ k)
main_asks_example = main_asks no_arguments answered no_arguments_done

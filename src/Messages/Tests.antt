-- ===== src/Messages/Tests.antt =====
-- The ticket queue at concrete calls.
use poste_italiane_simulatio.Prelude.{
  ℕ, suc, ◌==◌, ◌+◌, ◌≡◌, refl, Bool, true, false, List, [], ◌∷◌, ◌++◌, ok, map, length, arith,
}
use poste_italiane_simulatio.Config.Scan.{Bytes}
use poste_italiane_simulatio.Messages.{mtype}
use poste_italiane_simulatio.Messages.Structs.{
  TicketRequest, DoubleCodec, encode_int, decode_int, memcpy, encode_ticket_request,
}
use poste_italiane_simulatio.Messages.Calls.{
  send_service_request, returned, send_ticket_request, await_ticket_response, dispenser_round,
}
use poste_italiane_simulatio.Messages.Tickets.{
  Traffic, start, asks, answers, hears, IsAnswered, response,
}
use poste_italiane_simulatio.Messages.Order.{Traffic-IsAnswered}
use poste_italiane_simulatio.Messages.Progress.{
  dispenser_loop, listening, dispenser_loop-serves_each,
}
use poste_italiane_simulatio.Messages.Misdelivery.{request-misdelivered}
use poste_italiane_simulatio.Messages.Service.{Exchange, Exchange-total}
use poste_italiane_simulatio.Queue.Fifo.{of_type}
use poste_italiane_simulatio.Queue.Wrapper.{mq_send, mq_receive}
use poste_italiane_simulatio.Queue.Memory.{memory, memory-IsLawful, Queues, put_queue}
use poste_italiane_simulatio.Queue.Reliable.{memory-IsReliable}

abbrev empty : Queues
empty j = []

-- User 100 asks for service 2, and user 200 for service 3.
abbrev first_request : TicketRequest
first_request = record { sender_pid = 100; service_id = 2 }

abbrev second_request : TicketRequest
second_request = record { sender_pid = 200; service_id = 3 }

abbrev zeros : Bytes
zeros = 0 ∷ 0 ∷ 0 ∷ 0 ∷ 0 ∷ 0 ∷ 0 ∷ 0 ∷ []

abbrev request_bytes : TicketRequest → ℕ × Bytes
request_bytes q = (1, encode_ticket_request q)

abbrev answer_bytes : ℕ → ℕ → ℕ × Bytes
answer_bytes pid ticket = (pid, response 9 ticket)

abbrev one_asked : Queues
one_asked = put_queue empty 7 (request_bytes second_request ∷ [])

abbrev both_asked : Queues
both_asked = put_queue one_asked 7 (request_bytes second_request ∷ request_bytes first_request ∷ [])

abbrev one_taken : Queues
one_taken = put_queue both_asked 7 (request_bytes first_request ∷ [])

abbrev one_answered : Queues
one_answered = put_queue one_taken 7 (request_bytes first_request ∷ answer_bytes 200 0 ∷ [])

abbrev one_heard : Queues
one_heard = put_queue one_answered 7 (request_bytes first_request ∷ [])

both_ask : Traffic memory 7 9 200 both_asked 0 (second_request ∷ first_request ∷ []) 0 []
unfolding send_ticket_request mtype mq_send encode_int
both_ask =
    asks first_request
      (asks second_request (start {s = empty} refl refl) (omega arith, omega arith, omega arith)
        refl)
      (omega arith, omega arith, omega arith) refl

one_answers : Traffic memory 7 9 200 one_answered 1 (second_request ∷ first_request ∷ []) 1 []
unfolding dispenser_round mtype mq_send mq_receive encode_int decode_int memcpy
one_answers = answers zeros both_ask refl refl

-- User 200, the first to ask, has its ticket, and user 100 still waits.
one_hears : Traffic memory 7 9 200 one_heard 1 (second_request ∷ first_request ∷ []) 1 (0 ∷ [])
unfolding await_ticket_response mtype mq_receive encode_int decode_int memcpy
one_hears =
    hears zeros (record { generator_pid = 9; ticket_number = 0 }) one_answers refl refl
      (λ e. omega arith)

Traffic-IsAnswered_example :
    IsAnswered memory 7 9 200 one_heard 1 (second_request ∷ first_request ∷ []) 1 (0 ∷ [])
Traffic-IsAnswered_example =
    Traffic-IsAnswered memory memory-IsLawful 7 9 200 (omega arith) (omega arith) one_hears

dispenser_loop-serves_each_example :
    (n : ℕ) × (s' : Queues) × (counter' : ℕ) × (coming : List ℕ) × (n + 1 ≡ 2)
    × (dispenser_loop memory 7 9 (λ i. zeros) (suc n) one_heard 1 ≡ ok (listening, (s', counter')))
    × (of_type 1 (s' 7) ≡ [])
    × (of_type 200 (s' 7) ≡ map (response 9) coming)
    × ((0 ∷ []) ++ coming ≡ 0 ∷ [])
dispenser_loop-serves_each_example =
    dispenser_loop-serves_each memory memory-IsLawful 7 9 200 (memory-IsReliable 7) (omega arith)
      (omega arith) (λ i. zeros) (λ i. refl) one_heard 1 1 (second_request ∷ first_request ∷ [])
      (0 ∷ []) one_hears (omega arith, (omega arith, tt))

-- A Boolean stored as a double.
abbrev as_bytes : Bool → Bytes
as_bytes true = 1 ∷ 0 ∷ 0 ∷ 0 ∷ 0 ∷ 0 ∷ 0 ∷ 0 ∷ []
as_bytes false = zeros

abbrev of_bytes : Bytes → Bool
of_bytes [] = false
of_bytes (b ∷ _) = b == 1

length-as_bytes : (b : Bool) → length (as_bytes b) ≡ 8
length-as_bytes true = refl
length-as_bytes false = refl

of_bytes-as_bytes : (b : Bool) → of_bytes (as_bytes b) ≡ b
of_bytes-as_bytes true = refl
of_bytes-as_bytes false = refl

abbrev booleans : DoubleCodec Bool
booleans = record {
  encode = as_bytes;
  decode = of_bytes;
  length-encode = length-as_bytes;
  decode-encode = of_bytes-as_bytes;
}

Exchange-total_example :
    Exchange booleans memory memory-IsLawful 7
      (memory-IsReliable 7)
      empty
      100
      500
      3
      0
      4
      true
      zeros
      (zeros ++ (zeros ++ zeros))
Exchange-total_example =
    Exchange-total booleans memory memory-IsLawful 7 (memory-IsReliable 7) empty 100 500 3 0 4 true
      zeros (zeros ++ (zeros ++ zeros)) (omega arith) (λ e. omega arith) (omega arith) (omega arith)
      (omega arith) (omega arith) (omega arith) refl refl refl refl

-- User 30500 and operator 500.
request-misdelivered_example :
    (s1 s2 : memory.State) × (send_service_request memory empty 7 100 3 500 ≡ ok (true, s1))
    × (await_ticket_response memory s1 7 30500 zeros
        ≡ ok (returned (record { generator_pid = 100; ticket_number = 3 }) s2))
    × (of_type 30500 (memory.content s2 7) ≡ [])
request-misdelivered_example =
    request-misdelivered memory memory-IsLawful 7 (memory-IsReliable 7) empty 100 500 3 zeros
      (omega arith) (omega arith) refl refl

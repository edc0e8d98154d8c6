-- ===== src/Messages/Calls.antt =====
-- The processes' calls of the ticket queue, over any System V: in src/utente.c `send_ticket_request`,
-- `await_ticket_response`, `send_service_request` and `await_service_done`; in src/operatore.c
-- `await_service_request_nb` and `send_service_done`; and a round of the loop of
-- src/erogatore_ticket.c. `garbage` is what the struct holds before it is received.
use poste_italiane_simulatio.Prelude.{
  ℕ, Bool, true, false, Option, none, some, Outcome, ok, fault, ◌>>=◌, incr, ltb, if◌then◌else◌,
}
use poste_italiane_simulatio.Config.Scan.{Bytes}
use poste_italiane_simulatio.Config.Defs.{num_service_types}
use poste_italiane_simulatio.Messages.{mtype, dispenser, user, operator}
use poste_italiane_simulatio.Messages.Structs.{
  memcpy, TicketRequest, TicketResponse, ServiceRequest, ServiceDone, DoubleCodec,
  encode_ticket_request, decode_ticket_request, encode_ticket_response, decode_ticket_response,
  encode_service_request, decode_service_request, encode_service_done, decode_service_done,
}
use poste_italiane_simulatio.Queue.SysV.{SysV, Receipt, got, no_message, interrupted, waits}
use poste_italiane_simulatio.Queue.Wrapper.{mq_send, mq_receive}

-- -1 and -2 as ints.
abbrev pub minus_one : ℕ
minus_one = 4294967295

abbrev pub minus_two : ℕ
minus_two = 4294967294

-- A receiving call returns a struct, or waits.
pub data Awaited (S A : Type 0) : Type 0 where
  returned : A → S → Awaited S A
  waiting : Awaited S A

-- One round of the dispenser's loop: a request answered, and whether the response was sent; an
-- interruption; the end of the loop; or no return yet.
pub data Round (S : Type 0) : Type 0 where
  answered : (sent : Bool) → S → Round S
  again stopped waiting : Round S

module _ (S : SysV) where
  -- The value returned by the sending functions: false (0) if `mq_send` fails.
  abbrev pub sent_or_not : S.State → Outcome (Option S.State) → Outcome (Bool × S.State)
  sent_or_not s fault = fault
  sent_or_not s (ok none) = ok (false, s)
  sent_or_not s (ok (some s')) = ok (true, s')

  unfoldable pub send_ticket_request : S.State → (qid pid service : ℕ) → Outcome (Bool × S.State)
  unfolding mtype
  send_ticket_request s qid pid service =
      let req : TicketRequest = record { sender_pid = pid; service_id = service } in
      sent_or_not s (mq_send S s qid (mtype dispenser) (encode_ticket_request req))

  -- A response as it was received, or with a ticket of -1.
  abbrev pub ticket_response_of :
      S.State → Bytes → Receipt S.State → Outcome (Awaited S.State TicketResponse)
  ticket_response_of s garbage (got d s') = do
    bytes ← memcpy garbage d
    res ← decode_ticket_response bytes
    ok (returned res s')
  ticket_response_of s garbage waits = ok waiting
  ticket_response_of s garbage _ = do
    res ← decode_ticket_response garbage
    ok (returned (record { generator_pid = res.generator_pid; ticket_number = minus_one }) s)

  unfoldable pub await_ticket_response :
      S.State → (qid pid : ℕ) → (garbage : Bytes) → Outcome (Awaited S.State TicketResponse)
  unfolding mtype
  await_ticket_response s qid pid garbage =
      mq_receive S s qid (mtype (user pid)) 8 false >>= ticket_response_of s garbage

  unfoldable pub send_service_request :
      S.State → (qid pid ticket_number operator_pid : ℕ) → Outcome (Bool × S.State)
  unfolding mtype
  send_service_request s qid pid ticket_number operator_pid =
      let req : ServiceRequest = record { sender_pid = pid; ticket_number = ticket_number } in
      sent_or_not s (mq_send S s qid (mtype (operator operator_pid)) (encode_service_request req))

  -- A request as it was received, or with a ticket of -2 where there is none, or of -1.
  abbrev pub service_request_of :
      S.State → Bytes → Receipt S.State → Outcome (Awaited S.State ServiceRequest)
  service_request_of s garbage (got d s') = do
    bytes ← memcpy garbage d
    res ← decode_service_request bytes
    ok (returned res s')
  service_request_of s garbage waits = ok waiting
  service_request_of s garbage no_message = do
    res ← decode_service_request garbage
    ok (returned (record { sender_pid = res.sender_pid; ticket_number = minus_two }) s)
  service_request_of s garbage _ = do
    res ← decode_service_request garbage
    ok (returned (record { sender_pid = res.sender_pid; ticket_number = minus_one }) s)

  unfoldable pub await_service_request_nb :
      S.State → (qid pid : ℕ) → (garbage : Bytes) → Outcome (Awaited S.State ServiceRequest)
  unfolding mtype
  await_service_request_nb s qid pid garbage =
      mq_receive S s qid (mtype (operator pid)) 8 true >>= service_request_of s garbage

  -- A round with the counter so far, and the counter after it.
  abbrev pub answer_request :
      S.State → (qid pid ticket_counter : ℕ) → TicketRequest → Outcome (Round S.State × ℕ)
  unfolding mtype
  answer_request s qid pid ticket_counter req =
      let resp : TicketResponse = record { generator_pid = pid; ticket_number = ticket_counter } in
      let sending =
        sent_or_not s
          (mq_send S s qid (mtype (user req.sender_pid)) (encode_ticket_response resp)) in
      let reply = sending >>= λ sent. ok (answered sent.0 sent.1, incr ticket_counter) in
      if ltb req.service_id num_service_types then reply else fault

  abbrev pub round_of :
      S.State → (qid pid ticket_counter : ℕ) → Bytes → Receipt S.State → Outcome (Round S.State × ℕ)
  round_of s qid pid ticket_counter garbage (got d s') = do
    bytes ← memcpy garbage d
    req ← decode_ticket_request bytes
    answer_request s' qid pid ticket_counter req
  round_of s qid pid ticket_counter garbage waits = ok (waiting, ticket_counter)
  round_of s qid pid ticket_counter garbage interrupted = ok (again, ticket_counter)
  round_of s qid pid ticket_counter garbage _ = ok (stopped, ticket_counter)

  unfoldable pub dispenser_round :
      S.State → (qid pid ticket_counter : ℕ) → (garbage : Bytes) → Outcome (Round S.State × ℕ)
  unfolding mtype
  dispenser_round s qid pid ticket_counter garbage =
      mq_receive S s qid (mtype dispenser) 8 false >>= round_of s qid pid ticket_counter garbage

  module _ {F : Type 0} (C : DoubleCodec F) where
    unfoldable pub send_service_done :
        S.State
        → (qid pid padding ticket_number user_pid service_id : ℕ) → F
        → Outcome (Bool × S.State)
    unfolding mtype
    send_service_done s qid pid padding ticket_number user_pid service_id service_time =
        let req : ServiceDone F = record {
          sender_pid = pid;
          ticket_number = ticket_number;
          service_id = service_id;
          service_time = service_time;
        } in
        sent_or_not s (mq_send S s qid (mtype (user user_pid)) (encode_service_done C padding req))

    -- An answer as it was received, or with a ticket of -1.
    abbrev pub service_done_of :
        S.State → Bytes → Receipt S.State → Outcome (Awaited S.State (ServiceDone F))
    service_done_of s garbage (got d s') = do
      bytes ← memcpy garbage d
      res ← decode_service_done C bytes
      ok (returned res s')
    service_done_of s garbage waits = ok waiting
    service_done_of s garbage _ = do
      res ← decode_service_done C garbage
      ok (
          returned
            (record {
              sender_pid = res.sender_pid;
              ticket_number = minus_one;
              service_id = res.service_id;
              service_time = res.service_time;
            })
            s)

    unfoldable pub await_service_done :
        S.State → (qid pid : ℕ) → (garbage : Bytes) → Outcome (Awaited S.State (ServiceDone F))
    unfolding mtype
    await_service_done s qid pid garbage =
        mq_receive S s qid (mtype (user pid)) 24 false >>= service_done_of s garbage

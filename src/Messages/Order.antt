-- ===== src/Messages/Order.antt =====
-- The ticket queue: every step that the processes make keeps the tickets in the order of the
-- requests.
use mathlib.Core.List.{append_assoc, map-append}
use poste_italiane_simulatio.Prelude.{
  All-append, ℕ, suc, ◌+◌, ◌%◌, ◌^◌, ◌<◌, ◌≡◌, ◌≢◌, refl, sym, ap, ◌∙◌, true, false, List, [], ◌∷◌,
  ◌++◌, map, Outcome, ok, ok-injective, ◌>>=◌, incr, ◌==◌, length, length-append, arith,
}
use poste_italiane_simulatio.Config.Scan.{Bytes}
use poste_italiane_simulatio.Messages.Structs.{
  memcpy, memcpy_all, TicketRequest, TicketResponse, encode_ticket_request, decode_ticket_request,
  decode_ticket_response, decode-encode_ticket_request, decode-encode_ticket_response,
  length-encode_pair, IsInt,
}
use poste_italiane_simulatio.Messages.Calls.{
  minus_one, returned, answered, await_ticket_response, dispenser_round,
}
use poste_italiane_simulatio.Messages.Returns.{
  await_ticket_response-got, dispenser_round-Answers, Answers,
}
use poste_italiane_simulatio.Messages.Tickets.{
  tickets_of, tickets_of-append, IsRequest, response, Traffic, start, asks, answers, hears,
  other_sends, other_receives, IsAnswered,
}
use poste_italiane_simulatio.Queue.SysV.{SysV, IsLawful}
use poste_italiane_simulatio.Queue.Lines.{line, sent_elsewhere, received_here, received_elsewhere}
use poste_italiane_simulatio.Queue.Fifo.{of_type-mq_send}
use poste_italiane_simulatio.Messages.Steps.{
  Front, front, if_one, map-if_one, All-if_one, asks-IsAnswered, other_sends-IsAnswered,
  other_receives-IsAnswered,
}

module _ (S : SysV) (L : IsLawful S) (qid dispenser_pid p : ℕ) (int : IsInt dispenser_pid)
    (big : 1 < p) where
  -- The struct that the message of an encoding fills.
  filled :
      {A : Type 0} (decode : Bytes → Outcome A) (garbage d : Bytes) (a b : A)
      → length garbage ≡ length d
      → (memcpy garbage d >>= decode) ≡ ok a
      → decode d ≡ ok b
      → a ≡ b
  filled decode garbage d a b size e f =
      ok-injective a b (sym e ∙ (ap (λ o. o >>= decode) (memcpy_all garbage d size) ∙ f))

  hears-IsAnswered :
      (s s' : S.State) (counter rounds : ℕ) (asked : List TicketRequest) (heard : List ℕ)
      (garbage : Bytes) (r : TicketResponse)
      → IsAnswered S qid dispenser_pid p s counter asked rounds heard
      → length garbage ≡ 8
      → await_ticket_response S s qid p garbage ≡ ok (returned r s')
      → r.ticket_number ≢ minus_one
      → IsAnswered S qid dispenser_pid p s' counter asked rounds (heard ++ r.ticket_number ∷ [])
  hears-IsAnswered s s' counter rounds asked heard garbage r k size e ne =
      let (d, received, decoded) = await_ticket_response-got S s s' qid p garbage r e ne in
      let came = received_here S L qid s s' p 8 false d (omega arith) received in
      let z =
        front (response dispenser_pid) IsInt d (line S L qid p s') k.coming (sym came ∙ k.responses)
          k.ints in
      let same : r ≡ record { generator_pid = dispenser_pid; ticket_number = z.y } =
        filled decode_ticket_response garbage d r _
          (size ∙ sym (ap length z.first ∙ length-encode_pair dispenser_pid z.y)) decoded
          (ap decode_ticket_response z.first ∙ decode-encode_ticket_response _ int z.good) in
      record {
        past = k.past;
        pending = k.pending;
        coming = z.rest;
        split = k.split;
        count = k.count;
        counter_is = k.counter_is;
        requests =
            received_elsewhere S L qid s s' p 1 8 false d (omega arith) (λ h. omega arith) received
            ∙ k.requests;
        valid = k.valid;
        responses = z.later;
        ints = z.rest_good;
        tickets =
            append_assoc heard (r.ticket_number ∷ []) z.rest
            ∙ ap (λ (t : TicketResponse). heard ++ t.ticket_number ∷ z.rest) same
            ∙ ap (λ ts. heard ++ ts) (sym z.whole)
            ∙ k.tickets;
      }

  -- The request that a round takes is the oldest that waits.
  oldest :
      (s s' : S.State) (counter counter' rounds : ℕ) (asked : List TicketRequest) (heard : List ℕ)
      (garbage : Bytes)
      → (k : IsAnswered S qid dispenser_pid p s counter asked rounds heard) → length garbage ≡ 8
      → (a : Answers S s s' qid dispenser_pid counter counter' garbage)
      → (z : Front encode_ticket_request IsRequest a.d (line S L qid 1 a.between) k.pending)
        × (a.req ≡ z.y)
  oldest s s' counter counter' rounds asked heard garbage k size a =
      let came = received_here S L qid s a.between 1 8 false a.d (omega arith) a.received in
      let z =
        front encode_ticket_request IsRequest a.d _ k.pending (sym came ∙ k.requests) k.valid in
      (
        z,
        filled decode_ticket_request garbage a.d a.req z.y
            (size ∙ sym (ap length z.first ∙ length-encode_pair z.y.sender_pid z.y.service_id))
            a.decoded
            (ap decode_ticket_request z.first ∙ decode-encode_ticket_request z.y z.good.0 z.good.1),
      )

  -- What the response adds to the line of `p`.
  responses_grow :
      (s s' : S.State) (counter counter' rounds : ℕ) (coming : List ℕ) (q : TicketRequest)
      (garbage : Bytes) (a : Answers S s s' qid dispenser_pid counter counter' garbage)
      → counter ≡ rounds % 2 ^ 32
      → a.req ≡ q
      → line S L qid p s ≡ map (response dispenser_pid) coming
      → line S L qid p s'
        ≡ map (response dispenser_pid) (coming ++ if_one (q.sender_pid == p) (rounds % 2 ^ 32))
  responses_grow s s' counter counter' rounds coming q garbage a count same before =
      let to_p : ℕ → ℕ → List Bytes = λ sender n. if_one (sender == p) (response dispenser_pid n) in
      of_type-mq_send S L qid a.between s' a.req.sender_pid _ p a.sent
      ∙ ap (λ xs. xs ++ to_p a.req.sender_pid counter)
          (received_elsewhere S L qid s a.between 1 p 8 false a.d (omega arith) (λ h. omega arith)
              a.received
            ∙ before)
      ∙ ap (λ (r : TicketRequest). map (response dispenser_pid) coming ++ to_p r.sender_pid counter)
          same
      ∙ ap (λ n. map (response dispenser_pid) coming ++ to_p q.sender_pid n) count
      ∙ ap (λ xs. map (response dispenser_pid) coming ++ xs)
          (sym (map-if_one (response dispenser_pid) (q.sender_pid == p) (rounds % 2 ^ 32)))
      ∙ sym (map-append (response dispenser_pid) coming _)

  answers-IsAnswered :
      (s s' : S.State) (counter counter' rounds : ℕ) (asked : List TicketRequest) (heard : List ℕ)
      (garbage : Bytes)
      → IsAnswered S qid dispenser_pid p s counter asked rounds heard
      → length garbage ≡ 8
      → dispenser_round S s qid dispenser_pid counter garbage ≡ ok (answered true s', counter')
      → IsAnswered S qid dispenser_pid p s' counter' asked (suc rounds) heard
  answers-IsAnswered s s' counter counter' rounds asked heard garbage k size e =
      let a = dispenser_round-Answers S s s' qid dispenser_pid counter counter' garbage e in
      let (z, same) = oldest s s' counter counter' rounds asked heard garbage k size a in
      let sender : a.req.sender_pid ≡ z.y.sender_pid =
        ap (λ (q : TicketRequest). q.sender_pid) same in
      let one = if_one (z.y.sender_pid == p) (rounds % 2 ^ 32) in
      let count : 0 + length k.past ≡ rounds = omega (arith, k.count) in
      record {
        past = k.past ++ z.y ∷ [];
        pending = z.rest;
        coming = k.coming ++ one;
        split =
            k.split ∙ ap (λ qs. k.past ++ qs) z.whole ∙ sym (append_assoc k.past (z.y ∷ []) z.rest);
        count = omega (arith, length-append k.past (z.y ∷ []), k.count);
        counter_is = a.next ∙ ap incr k.counter_is ∙ omega arith;
        requests =
            sent_elsewhere S L qid a.between s' a.req.sender_pid 1 _
              (λ h. omega (arith, sender, z.good.2)) a.sent
            ∙ z.later;
        valid = z.rest_good;
        responses =
            responses_grow s s' counter counter' rounds k.coming z.y garbage a k.counter_is same
              k.responses;
        ints =
            All-append IsInt k.coming one k.ints
              (All-if_one IsInt (z.y.sender_pid == p) _ (omega arith));
        tickets =
            sym (append_assoc heard k.coming one)
            ∙ ap (λ ts. ts ++ one) k.tickets
            ∙ sym (
                tickets_of-append p 0 k.past z.y
                ∙ ap (λ n. tickets_of p 0 k.past ++ if_one (z.y.sender_pid == p) (n % 2 ^ 32))
                    count);
      }

  -- However the processes take their turns, and whatever other messages go through the queue, the
  -- dispenser numbers the requests in the order in which they were sent: the first ones, as many as
  -- its rounds, are answered, the others wait in their order, and the tickets that a user with a pid
  -- above one has received are the first of those at the places of its own requests, in their
  -- order, modulo 2 ^ 32, with the rest of them on their way. That is so for calls that succeed, from
  -- a queue with no request and nothing for this user, where nobody else takes or sends messages
  -- of the two types, and the sender of each request has a pid above one.
  pub Traffic-IsAnswered :
      {s : S.State} {counter rounds : ℕ} {asked : List TicketRequest} {heard : List ℕ}
      → Traffic S qid dispenser_pid p s counter asked rounds heard
      → IsAnswered S qid dispenser_pid p s counter asked rounds heard
  Traffic-IsAnswered (start no_requests no_responses) = record {
    past = [];
    pending = [];
    coming = [];
    split = refl;
    count = refl;
    counter_is = refl;
    requests = no_requests;
    valid = tt;
    responses = no_responses;
    ints = tt;
    tickets = refl;
  }
  Traffic-IsAnswered (asks q k v e) =
      asks-IsAnswered S L qid dispenser_pid p big _ _ _ _ _ _ q (Traffic-IsAnswered k) v e
  Traffic-IsAnswered (answers garbage k size e) =
      answers-IsAnswered _ _ _ _ _ _ _ garbage (Traffic-IsAnswered k) size e
  Traffic-IsAnswered (hears garbage r k size e ne) =
      hears-IsAnswered _ _ _ _ _ _ garbage r (Traffic-IsAnswered k) size e ne
  Traffic-IsAnswered (other_sends t d k ne ne' e) =
      other_sends-IsAnswered S L qid dispenser_pid p big _ _ _ _ _ _ t d (Traffic-IsAnswered k) ne
        ne' e
  Traffic-IsAnswered (other_receives t size nowait d k pos ne e) =
      other_receives-IsAnswered S L qid dispenser_pid p big _ _ _ _ _ _ t size nowait d
        (Traffic-IsAnswered k) pos ne e

-- ===== src/Messages/Returns.antt =====
-- The calls of the ticket queue: what a call that went well has sent or received.
use poste_italiane_simulatio.Prelude.{
  ℕ, ◌≡◌, ◌≢◌, sym, ap, ◌∙◌, Bool, true, false, inl, inr, Option, none, some, Outcome, ok, fault,
  ◌>>=◌, >>=-eq-ok, incr, ltb, if_cases,
}
use poste_italiane_simulatio.Config.Scan.{Bytes}
use poste_italiane_simulatio.Messages.{mtype}
use poste_italiane_simulatio.Messages.Structs.{
  memcpy, TicketRequest, TicketResponse, encode_ticket_request, decode_ticket_request,
  encode_ticket_response, decode_ticket_response,
}
use poste_italiane_simulatio.Messages.Calls.{
  minus_one, returned, Round, answered, sent_or_not, send_ticket_request, ticket_response_of,
  await_ticket_response, answer_request, round_of, dispenser_round,
}
use poste_italiane_simulatio.Queue.SysV.{SysV, Receipt, got, no_message, interrupted, failed, waits}
use poste_italiane_simulatio.Queue.Wrapper.{mq_send, mq_receive}

module _ (S : SysV) where
  pub sent_or_not-true :
      (s s' : S.State) (o : Outcome (Option S.State))
      → sent_or_not S s o ≡ ok (true, s')
      → o ≡ ok (some s')
  sent_or_not-true s s' fault e = cc
  sent_or_not-true s s' (ok none) e = cc
  sent_or_not-true s s' (ok (some t)) e = cc

  pub send_ticket_request-true :
      (s s' : S.State) (qid pid service : ℕ)
      → send_ticket_request S s qid pid service ≡ ok (true, s')
      → mq_send S s qid 1
          (encode_ticket_request (record { sender_pid = pid; service_id = service }))
        ≡ ok (some s')
  unfolding send_ticket_request mtype
  send_ticket_request-true s s' qid pid service e = sent_or_not-true s s' _ e

  returned-injective :
      {A : Type 0} (a b : A) (s s' : S.State)
      → ok (returned a s) ≡ ok (returned b s')
      → (a ≡ b) × (s ≡ s')
  returned-injective a b s s' e = (cc, cc)

  -- What a receipt that gave a struct was.
  abbrev Came :
      (Bytes → Outcome TicketResponse) → Bytes → Receipt S.State → S.State → TicketResponse → Type 0
  Came decode garbage r s' a = (d : Bytes) × (r ≡ got d s') × ((memcpy garbage d >>= decode) ≡ ok a)

  lost_response :
      (s s' : S.State) (garbage : Bytes) (r : Receipt S.State) (a : TicketResponse)
      → (decode_ticket_response garbage >>= λ res.
          ok (returned (record { generator_pid = res.generator_pid; ticket_number = minus_one }) s))
        ≡ ok (returned a s')
      → a.ticket_number ≢ minus_one
      → Came decode_ticket_response garbage r s' a
  lost_response s s' garbage r a e ne =
      let (res, _, e') = >>=-eq-ok (decode_ticket_response garbage) _ e in
      absurd
        (ne (sym (ap (λ (x : TicketResponse). x.ticket_number) (returned-injective _ a s s' e').0)))

  ticket_response_of-got :
      (s s' : S.State) (garbage : Bytes) (r : Receipt S.State) (a : TicketResponse)
      → ticket_response_of S s garbage r ≡ ok (returned a s')
      → a.ticket_number ≢ minus_one
      → Came decode_ticket_response garbage r s' a
  ticket_response_of-got s s' garbage (got d t) a e ne =
      let (bytes, c, e') = >>=-eq-ok (memcpy garbage d) _ e in
      let (res, f, e'') = >>=-eq-ok (decode_ticket_response bytes) _ e' in
      let (same, same_state) = returned-injective res a t s' e'' in
      (d, ap (got d) same_state, rw c (f ∙ ap ok same))
  ticket_response_of-got s s' garbage no_message a e ne = lost_response s s' garbage _ a e ne
  ticket_response_of-got s s' garbage interrupted a e ne = lost_response s s' garbage _ a e ne
  ticket_response_of-got s s' garbage failed a e ne = lost_response s s' garbage _ a e ne
  ticket_response_of-got s s' garbage waits a e ne = cc

  -- A user that gets a ticket got it in a message of its own type.
  pub await_ticket_response-got :
      (s s' : S.State) (qid pid : ℕ) (garbage : Bytes) (a : TicketResponse)
      → await_ticket_response S s qid pid garbage ≡ ok (returned a s')
      → a.ticket_number ≢ minus_one
      → (d : Bytes) × (mq_receive S s qid pid 8 false ≡ ok (got d s'))
        × ((memcpy garbage d >>= decode_ticket_response) ≡ ok a)
  unfolding await_ticket_response mtype
  await_ticket_response-got s s' qid pid garbage a e ne =
      let (r, e', e'') = >>=-eq-ok (mq_receive S s qid pid 8 false) _ e in
      let (d, same, decoded) = ticket_response_of-got s s' garbage r a e'' ne in
      (d, e' ∙ ap ok same, decoded)

  -- A round that answers a request and can send its response.
  pub record Answers (s s' : S.State) (qid pid counter counter' : ℕ) (garbage : Bytes)
      : Type 0 where
    pub d : Bytes
    pub req : TicketRequest
    pub between : S.State
    pub received : mq_receive S s qid 1 8 false ≡ ok (got d between)
    pub decoded : (memcpy garbage d >>= decode_ticket_request) ≡ ok req
    pub sent :
        mq_send S between qid req.sender_pid
          (encode_ticket_response (record { generator_pid = pid; ticket_number = counter }))
        ≡ ok (some s')
    pub next : counter' ≡ incr counter

  abbrev answer : Bool → S.State → ℕ → Outcome (Round S.State × ℕ)
  answer sent s counter = ok (answered sent s, counter)

  answered-injective :
      (t s' : S.State) (b : Bool) (c c' : ℕ)
      → answer b t c ≡ answer true s' c'
      → (b ≡ true) × (t ≡ s') × (c' ≡ c)
  answered-injective t s' b c c' e = (cc, cc, cc)

  answer_request-sent :
      (s s' : S.State) (qid pid counter counter' : ℕ) (req : TicketRequest)
      → answer_request S s qid pid counter req ≡ ok (answered true s', counter')
      → (mq_send S s qid req.sender_pid
            (encode_ticket_response (record { generator_pid = pid; ticket_number = counter }))
          ≡ ok (some s'))
        × (counter' ≡ incr counter)
  unfolding mtype
  answer_request-sent s s' qid pid counter counter' req e =
      elim (if_cases (ltb req.service_id 6) _ fault e) [
        | inl (_, e') ↦
            let ((sent, t), f, f') = >>=-eq-ok (sent_or_not S s _) _ e' in
            let (b, same, next) = answered-injective t s' sent (incr counter) counter' f' in
            (
              sent_or_not-true s s' _ (f ∙ (ap (λ x. ok (x, t)) b ∙ ap (λ x. ok (true, x)) same)),
              next,
            )
        | inr (_, bad) ↦ cc
      ]

  round_of-Answers :
      (s s' : S.State) (qid pid counter counter' : ℕ) (garbage : Bytes) (r : Receipt S.State)
      → mq_receive S s qid 1 8 false ≡ ok r
      → round_of S s qid pid counter garbage r ≡ ok (answered true s', counter')
      → Answers s s' qid pid counter counter' garbage
  round_of-Answers s s' qid pid counter counter' garbage (got d t) came e =
      let (bytes, c, e') = >>=-eq-ok (memcpy garbage d) _ e in
      let (req, f, e'') = >>=-eq-ok (decode_ticket_request bytes) _ e' in
      let (sent, next) = answer_request-sent t s' qid pid counter counter' req e'' in
      record {
        d = d;
        req = req;
        between = t;
        received = came;
        decoded = ap (λ o. o >>= decode_ticket_request) c ∙ f;
        sent = sent;
        next = next;
      }
  round_of-Answers s s' qid pid counter counter' garbage no_message came e = cc
  round_of-Answers s s' qid pid counter counter' garbage interrupted came e = cc
  round_of-Answers s s' qid pid counter counter' garbage failed came e = cc
  round_of-Answers s s' qid pid counter counter' garbage waits came e = cc

  pub dispenser_round-Answers :
      (s s' : S.State) (qid pid counter counter' : ℕ) (garbage : Bytes)
      → dispenser_round S s qid pid counter garbage ≡ ok (answered true s', counter')
      → Answers s s' qid pid counter counter' garbage
  unfolding dispenser_round mtype
  dispenser_round-Answers s s' qid pid counter counter' garbage e =
      let (r, came, e') = >>=-eq-ok (mq_receive S s qid 1 8 false) _ e in
      round_of-Answers s s' qid pid counter counter' garbage r came e'

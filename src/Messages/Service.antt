-- ===== src/Messages/Service.antt =====
-- The exchange of a service on the ticket queue: the request of src/utente.c reaches its operator of
-- src/operatore.c, and the answer comes back.
use poste_italiane_simulatio.Prelude.{
  ℕ, ◌+◌, ◌<◌, ◌≡◌, ◌≢◌, refl, sym, ap, ◌∙◌, true, false, List, [], ◌∷◌, ◌++◌, some, ok, length,
  arith,
}
use poste_italiane_simulatio.Config.Scan.{Bytes}
use poste_italiane_simulatio.Messages.{mtype}
use poste_italiane_simulatio.Messages.Structs.{
  memcpy_all, ServiceRequest, ServiceDone, DoubleCodec, encode_service_request,
  decode-encode_service_request, encode_service_done, decode-encode_service_done,
  length-encode_service_done, length-encode_pair, IsInt,
}
use poste_italiane_simulatio.Messages.Calls.{
  returned, send_service_request, await_service_request_nb, send_service_done, await_service_done,
}
use poste_italiane_simulatio.Queue.Lines.{sent_here, sent_elsewhere, received_elsewhere}
use poste_italiane_simulatio.Queue.SysV.{SysV, IsLawful, got}
use poste_italiane_simulatio.Queue.Wrapper.{mq_send, mq_receive}
use poste_italiane_simulatio.Queue.Fifo.{of_type}
use poste_italiane_simulatio.Queue.Reliable.{IsReliable, mq_send_total, mq_receive_found}

module _ {F : Type 0} (C : DoubleCodec F) (S : SysV) (L : IsLawful S) (qid : ℕ)
    (R : IsReliable S qid) where
  request_sent :
      (s : S.State) (user operator ticket : ℕ)
      → (s' : S.State) × (send_service_request S s qid user ticket operator ≡ ok (true, s'))
        × (mq_send S s qid
              (30000 + operator)
              (encode_service_request (record { sender_pid = user; ticket_number = ticket }))
            ≡ ok (some s'))
  unfolding send_service_request mtype
  request_sent s user operator ticket =
      let (s', e) =
        mq_send_total S qid R s (30000 + operator)
          (encode_service_request (record { sender_pid = user; ticket_number = ticket }))
          (omega arith) (omega (arith, length-encode_pair user ticket)) in
      (s', rw e refl, e)

  -- The operator takes the oldest request of its own.
  request_received :
      (s : S.State) (operator : ℕ) (q : ServiceRequest) (garbage : Bytes) (ds : List Bytes)
      → of_type (30000 + operator) (S.content s qid) ≡ encode_service_request q ∷ ds
      → IsInt q.sender_pid
      → IsInt q.ticket_number
      → length garbage ≡ 8
      → (s' : S.State) × (await_service_request_nb S s qid operator garbage ≡ ok (returned q s'))
        × (mq_receive S s qid (30000 + operator) 8 true ≡ ok (got (encode_service_request q) s'))
  unfolding await_service_request_nb mtype
  request_received s operator q garbage ds e h k size =
      let eight = length-encode_pair q.sender_pid q.ticket_number in
      let (s', e') =
        mq_receive_found S qid R s 8 (30000 + operator) true (encode_service_request q) ds
          (omega arith) e (omega (arith, eight)) (omega arith) in
      (
        s',
        rw e' (
            rw (memcpy_all garbage (encode_service_request q) (size ∙ sym eight))
              (rw (decode-encode_service_request q h k) refl)),
        e',
      )

  done_sent :
      (s : S.State) (operator padding ticket user service : ℕ) (time : F)
      → 0 < user
      → (s' : S.State) × (send_service_done S C s qid operator padding ticket user service time
          ≡ ok (true, s'))
        × (mq_send S s qid user (
              encode_service_done C padding (record {
                sender_pid = operator;
                ticket_number = ticket;
                service_id = service;
                service_time = time;
              }))
            ≡ ok (some s'))
  unfolding send_service_done mtype
  done_sent s operator padding ticket user service time pos =
      let done : ServiceDone F = record {
        sender_pid = operator;
        ticket_number = ticket;
        service_id = service;
        service_time = time;
      } in
      let (s', e) =
        mq_send_total S qid R s user (encode_service_done C padding done) pos
          (omega (arith, length-encode_service_done C padding done)) in
      (s', rw e refl, e)

  done_received :
      (s : S.State) (user padding : ℕ) (d : ServiceDone F) (garbage : Bytes) (ds : List Bytes)
      → of_type user (S.content s qid) ≡ encode_service_done C padding d ∷ ds
      → 0 < user
      → IsInt padding
      → IsInt d.sender_pid
      → IsInt d.ticket_number
      → IsInt d.service_id
      → length garbage ≡ 24
      → (s' : S.State) × (await_service_done S C s qid user garbage ≡ ok (returned d s'))
  unfolding await_service_done mtype
  done_received s user padding d garbage ds e pos hp h k m size =
      let all = length-encode_service_done C padding d in
      let (s', e') =
        mq_receive_found S qid R s 24 user false (encode_service_done C padding d) ds pos e
          (omega (arith, all)) (omega arith) in
      (
        s',
        rw e' (
            rw (memcpy_all garbage (encode_service_done C padding d) (size ∙ sym all))
              (rw (decode-encode_service_done C padding d hp h k m) refl)),
      )

  -- The four calls of an exchange, one after the other, and what is received in them.
  pub record Exchange (s : S.State) (user operator ticket padding service : ℕ) (time : F)
      (garbage garbage' : Bytes) : Type 0 where
    pub s1 : S.State
    pub s2 : S.State
    pub s3 : S.State
    pub s4 : S.State
    pub asked : send_service_request S s qid user ticket operator ≡ ok (true, s1)
    pub taken :
        await_service_request_nb S s1 qid operator garbage
        ≡ ok (returned (record { sender_pid = user; ticket_number = ticket }) s2)
    pub told :
        send_service_done S C s2 qid operator padding ticket user service time ≡ ok (true, s3)
    pub heard :
        await_service_done S C s3 qid user garbage'
        ≡ ok (
            returned
              (record {
                sender_pid = operator;
                ticket_number = ticket;
                service_id = service;
                service_time = time;
              })
              s4)

  -- A request for a service reaches its operator, with the user's pid and ticket, and what the
  -- operator answers to that pid reaches the user, field by field, whatever the structs held before:
  -- where nothing waits for the two of them, the queue has room and no call is interrupted, the pids
  -- are positive and not 30000 apart, and all numbers are ints.
  pub Exchange-total :
      (s : S.State) (user operator ticket padding service : ℕ) (time : F) (garbage garbage' : Bytes)
      → 0 < user
      → user ≢ 30000 + operator
      → IsInt user
      → IsInt operator
      → IsInt ticket
      → IsInt padding
      → IsInt service
      → length garbage ≡ 8
      → length garbage' ≡ 24
      → of_type (30000 + operator) (S.content s qid) ≡ []
      → of_type user (S.content s qid) ≡ []
      → Exchange s user operator ticket padding service time garbage garbage'
  Exchange-total s user operator ticket padding service time garbage garbage' pos apart iu io it ip
        is size size' no_request no_answer =
      let q : ServiceRequest = record { sender_pid = user; ticket_number = ticket } in
      let d : ServiceDone F = record {
        sender_pid = operator;
        ticket_number = ticket;
        service_id = service;
        service_time = time;
      } in
      let (s1, asked, e1) = request_sent s user operator ticket in
      let there =
        sent_here S L qid s s1 (30000 + operator) _ e1
        ∙ ap (λ ds. ds ++ encode_service_request q ∷ []) no_request in
      let (s2, taken, e2) = request_received s1 operator q garbage [] there iu it size in
      let (s3, told, e3) = done_sent s2 operator padding ticket user service time pos in
      let still =
        received_elsewhere S L qid s1 s2 (30000 + operator) user 8 true _ (omega arith)
          (λ h. apart (sym h)) e2
        ∙ sent_elsewhere S L qid s s1 (30000 + operator) user _ (λ h. apart (sym h)) e1
        ∙ no_answer in
      let back =
        sent_here S L qid s2 s3 user _ e3
        ∙ ap (λ ds. ds ++ encode_service_done C padding d ∷ []) still in
      let (s4, heard) = done_received s3 user padding d garbage' [] back pos ip io it is size' in
      record {
        s1 = s1;
        s2 = s2;
        s3 = s3;
        s4 = s4;
        asked = asked;
        taken = taken;
        told = told;
        heard = heard;
      }

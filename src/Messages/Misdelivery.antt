-- ===== src/Messages/Misdelivery.antt =====
-- The ticket queue of src/utente.c and src/operatore.c: users listen to their pids, and operators to
-- 30000 and theirs, on the same queue.
use poste_italiane_simulatio.Prelude.{
  ℕ, ◌+◌, ◌≡◌, refl, sym, ap, ◌∙◌, true, false, List, [], ◌∷◌, ◌++◌, ok, length, arith,
}
use poste_italiane_simulatio.Config.Scan.{Bytes}
use poste_italiane_simulatio.Messages.{mtype}
use poste_italiane_simulatio.Messages.Structs.{
  memcpy_all, encode_service_request, decode-encode_ticket_response, length-encode_pair, IsInt,
}
use poste_italiane_simulatio.Messages.Calls.{returned, send_service_request, await_ticket_response}
use poste_italiane_simulatio.Queue.Lines.{sent_here, received_here}
use poste_italiane_simulatio.Queue.SysV.{SysV, IsLawful}
use poste_italiane_simulatio.Queue.Fifo.{of_type}
use poste_italiane_simulatio.Queue.Reliable.{IsReliable, mq_send_total, mq_receive_found}

abbrev tail : List Bytes → List Bytes
tail [] = []
tail (d ∷ ds) = ds

module _ (S : SysV) (L : IsLawful S) (qid : ℕ) (R : IsReliable S qid) where
  -- Where the pid of a user is 30000 above that of an operator, and nothing waits for either, a
  -- service request that another user sends to the operator is received by this user, which waits
  -- for a ticket: it takes the ticket of the other for its own, and the pid of the other for that of
  -- the dispenser, and nothing is left for the operator.
  pub request-misdelivered :
      (s : S.State) (sender operator ticket : ℕ) (garbage : Bytes)
      → IsInt sender
      → IsInt ticket
      → length garbage ≡ 8
      → of_type (30000 + operator) (S.content s qid) ≡ []
      → (s1 s2 : S.State) × (send_service_request S s qid sender ticket operator ≡ ok (true, s1))
        × (await_ticket_response S s1 qid (30000 + operator) garbage
            ≡ ok (returned (record { generator_pid = sender; ticket_number = ticket }) s2))
        × (of_type (30000 + operator) (S.content s2 qid) ≡ [])
  unfolding send_service_request await_ticket_response mtype
  request-misdelivered s sender operator ticket garbage is it size none =
      let d = encode_service_request (record { sender_pid = sender; ticket_number = ticket }) in
      let eight = length-encode_pair sender ticket in
      let (s1, e1) =
        mq_send_total S qid R s (30000 + operator) d (omega arith) (omega (arith, eight)) in
      let there = sent_here S L qid s s1 (30000 + operator) d e1 ∙ ap (λ ds. ds ++ d ∷ []) none in
      let (s2, e2) =
        mq_receive_found S qid R s1 8 (30000 + operator) false d [] (omega arith) there
          (omega (arith, eight)) (omega arith) in
      let left = received_here S L qid s1 s2 (30000 + operator) 8 false d (omega arith) e2 in
      (
        s1,
        s2,
        rw e1 refl,
        rw e2 (
            rw (memcpy_all garbage d (size ∙ sym eight)) (
              rw
                (decode-encode_ticket_response
                  (record { generator_pid = sender; ticket_number = ticket }) is it)
                refl)),
        ap tail (sym left ∙ there),
      )

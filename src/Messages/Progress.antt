-- ===== src/Messages/Progress.antt =====
-- src/erogatore_ticket.c, the loop of `main` over the ticket queue: on a queue with room, whose calls
-- no signal interrupts, it answers everyone who waits. `garbage` is what the struct of a round
-- holds before the request is received.
use mathlib.Core.List.{append-nil}
use poste_italiane_simulatio.Prelude.{
  ℕ, zero, suc, ◌+◌, ◌-◌, ◌<◌, ◌≡◌, refl, sym, ap, ◌∙◌, true, false, List, [], ◌∷◌, ◌++◌, map, All,
  some, Outcome, ok, ◌>>=◌, incr, ltb, length, length-append, arith,
}
use mathlib.Core.Path.{subst}
use poste_italiane_simulatio.Config.Scan.{Bytes}
use poste_italiane_simulatio.Messages.{mtype}
use poste_italiane_simulatio.Messages.Structs.{
  memcpy_all, TicketRequest, encode_ticket_request, decode-encode_ticket_request,
  length-encode_pair, IsInt,
}
use poste_italiane_simulatio.Messages.Calls.{
  answered, again, stopped, waiting, dispenser_round, answer_request,
}
use poste_italiane_simulatio.Messages.Tickets.{
  tickets_of, IsRequest, response, Traffic, answers, IsAnswered,
}
use poste_italiane_simulatio.Messages.Order.{Traffic-IsAnswered}
use poste_italiane_simulatio.Queue.SysV.{SysV, IsLawful}
use poste_italiane_simulatio.Queue.Wrapper.{mq_send}
use poste_italiane_simulatio.Queue.Fifo.{of_type}
use poste_italiane_simulatio.Queue.Reliable.{
  IsReliable, mq_send_total, mq_receive_found, mq_receive_none,
}

-- How the loop is left: it waits for a request, it has ended, or the fuel has.
pub data Loop : Type 0 where
  listening ended running : Loop

module _ (S : SysV) (qid pid : ℕ) (garbage : ℕ → Bytes) where
  unfoldable pub dispenser_loop : ℕ → S.State → ℕ → Outcome (Loop × (S.State × ℕ))
  dispenser_loop zero s counter = ok (running, (s, counter))
  dispenser_loop (suc n) s counter = dispenser_round S s qid pid counter (garbage n) >>= λ r.
      elim (r.0) [
        | answered sent s' ↦ dispenser_loop n s' r.1
        | again ↦ dispenser_loop n s r.1
        | stopped ↦ ok (ended, (s, r.1))
        | waiting ↦ ok (listening, (s, r.1))
      ]

length-response : (pid ticket : ℕ) → length (response pid ticket) ≡ 8
length-response pid ticket = length-encode_pair pid ticket

All-right : {A : Type 0} (P : A → Type 0) (xs ys : List A) → All P (xs ++ ys) → All P ys
All-right P [] ys h = h
All-right P (x ∷ xs) ys (_, h) = All-right P xs ys h

no_more : {A : Type 0} (xs ys : List A) → length ys ≡ 0 → xs ++ ys ≡ xs
no_more xs [] none = append-nil xs
no_more xs (y ∷ ys) none = cc

abbrev pub IsService : TicketRequest → Type 0
IsService q = q.service_id < 6

answer_request-known :
    (S : SysV) (s s' : S.State) (qid pid counter : ℕ) (q : TicketRequest)
    → IsService q
    → mq_send S s qid q.sender_pid (response pid counter) ≡ ok (some s')
    → answer_request S s qid pid counter q ≡ ok (answered true s', incr counter)
unfolding mtype
answer_request-known S s s' qid pid counter q service sent =
    let known : ltb q.service_id 6 ≡ true = ground arith in rw (known, sent) refl

module _ (S : SysV) (qid pid : ℕ) (R : IsReliable S qid) where
  round_answers :
      (s : S.State) (counter : ℕ) (garbage : Bytes) (q : TicketRequest) (qs : List TicketRequest)
      → of_type 1 (S.content s qid) ≡ map encode_ticket_request (q ∷ qs)
      → IsRequest q
      → IsService q
      → length garbage ≡ 8
      → (s' : S.State) × (dispenser_round S s qid pid counter garbage
          ≡ ok (answered true s', incr counter))
  unfolding dispenser_round mtype
  round_answers s counter garbage q qs e v service size =
      let eight = length-encode_pair q.sender_pid q.service_id in
      let (s1, got_it) =
        mq_receive_found S qid R s 8 1 false (encode_ticket_request q) _ (omega arith) e
          (omega (arith, eight)) (omega arith) in
      let copied = memcpy_all garbage (encode_ticket_request q) (size ∙ sym eight) in
      let (s', sent) =
        mq_send_total S qid R s1 q.sender_pid (response pid counter) (omega (arith, v.2))
          (omega (arith, length-response pid counter)) in
      let decoded = decode-encode_ticket_request q v.0 v.1 in
      (
        s',
        rw got_it
            (rw copied (rw decoded (answer_request-known S s1 s' qid pid counter q service sent))),
      )

  round_listens :
      (s : S.State) (counter : ℕ) (garbage : Bytes)
      → of_type 1 (S.content s qid) ≡ []
      → dispenser_round S s qid pid counter garbage ≡ ok (waiting, counter)
  unfolding dispenser_round mtype
  round_listens s counter garbage e = rw (mq_receive_none S qid R s 8 1 (omega arith) e) refl

  -- Where requests wait, the round answers one.
  round_with :
      (s : S.State) (counter : ℕ) (garbage : Bytes) (qs : List TicketRequest)
      → of_type 1 (S.content s qid) ≡ map encode_ticket_request qs
      → All IsRequest qs
      → All IsService qs
      → length garbage ≡ 8
      → 0 < length qs
      → (s' : S.State) × (dispenser_round S s qid pid counter garbage
          ≡ ok (answered true s', incr counter))
  round_with s counter garbage [] e v w size some_wait = elim some_wait [ ]
  round_with s counter garbage (q ∷ qs) e v w size some_wait =
      round_answers s counter garbage q qs e v.0 w.0 size

  none_waits :
      (s : S.State) (qs : List TicketRequest)
      → of_type 1 (S.content s qid) ≡ map encode_ticket_request qs
      → length qs ≡ 0
      → of_type 1 (S.content s qid) ≡ []
  none_waits s [] e none = e
  none_waits s (q ∷ qs) e none = cc

module _ (S : SysV) (L : IsLawful S) (qid pid p : ℕ) (R : IsReliable S qid) (int : IsInt pid)
    (big : 1 < p) (garbage : ℕ → Bytes) (sized : (i : ℕ) → length (garbage i) ≡ 8) where
  waiting_count :
      {s : S.State} {counter rounds : ℕ} {asked : List TicketRequest} {heard : List ℕ}
      (k : IsAnswered S qid pid p s counter asked rounds heard)
      → rounds + length k.pending ≡ length asked
  waiting_count k = omega (arith, k.count, length-append k.past k.pending, ap length k.split)

  loop_answers :
      (n : ℕ) (s : S.State) (counter rounds : ℕ) (asked : List TicketRequest) (heard : List ℕ)
      → Traffic S qid pid p s counter asked rounds heard
      → n + rounds ≡ length asked
      → All IsService asked
      → (s' : S.State) × (counter' : ℕ) × (dispenser_loop S qid pid garbage (suc n) s counter
          ≡ ok (listening, (s', counter')))
        × Traffic S qid pid p s' counter' asked (length asked) heard
  unfolding dispenser_loop
  loop_answers zero s counter rounds asked heard t left w =
      let k = Traffic-IsAnswered S L qid pid p int big t in
      let none = none_waits S qid pid R s k.pending k.requests (omega (arith, waiting_count k)) in
      (
        s,
        counter,
        rw (round_listens S qid pid R s counter (garbage 0) none) refl,
        subst (λ (r : ℕ). Traffic S qid pid p s counter asked r heard) (omega arith) t,
      )
  loop_answers (suc n) s counter rounds asked heard t left w =
      let k = Traffic-IsAnswered S L qid pid p int big t in
      let services = All-right IsService k.past k.pending (subst (All IsService) k.split w) in
      let (s1, e) =
        round_with S qid pid R s counter (garbage (suc n)) k.pending k.requests k.valid services
          (sized (suc n)) (omega (arith, waiting_count k)) in
      let (s', counter', e', t') =
        loop_answers n s1 (incr counter) (suc rounds) asked heard
          (answers (garbage (suc n)) t (sized (suc n)) e) (omega arith) w in
      (s', counter', rw (e, e') refl, t')

  -- The dispenser leaves nobody without an answer: from any state that the processes have brought
  -- the ticket queue to, as long as only the dispenser has sent messages of this user's own type and
  -- only the user has received them, so before an operator answers the user, its loop answers the waiting requests in as many rounds as there are of
  -- them, and then waits for the next one; every request is then gone from the queue, and the
  -- tickets of a user, at the places of its own requests among all, have been received or are in
  -- the queue for it. That is so on a queue with room and without interruptions, for requests of the
  -- six services, from a queue that was empty for this user and the dispenser.
  pub dispenser_loop-serves_each :
      (s : S.State) (counter rounds : ℕ) (asked : List TicketRequest) (heard : List ℕ)
      → Traffic S qid pid p s counter asked rounds heard
      → All IsService asked
      → (n : ℕ) × (s' : S.State) × (counter' : ℕ) × (coming : List ℕ) × (n + rounds ≡ length asked)
        × (dispenser_loop S qid pid garbage (suc n) s counter ≡ ok (listening, (s', counter')))
        × (of_type 1 (S.content s' qid) ≡ [])
        × (of_type p (S.content s' qid) ≡ map (response pid) coming)
        × (heard ++ coming ≡ tickets_of p 0 asked)
  dispenser_loop-serves_each s counter rounds asked heard t w =
      let before = waiting_count (Traffic-IsAnswered S L qid pid p int big t) in
      let n = length asked - rounds in
      let (s', counter', e, t') = loop_answers n s counter rounds asked heard t (omega arith) w in
      let k = Traffic-IsAnswered S L qid pid p int big t' in
      let none : length k.pending ≡ 0 = omega (arith, waiting_count k) in
      (
        n,
        s',
        counter',
        k.coming,
        omega arith,
        e,
        none_waits S qid pid R s' k.pending k.requests none,
        k.responses,
        k.tickets ∙ ap (tickets_of p 0) (sym (k.split ∙ no_more k.past k.pending none)),
      )

-- ===== src/Messages/Tickets.antt =====
-- The ticket queue as the processes use it together: the users of src/utente.c ask for tickets, the
-- dispenser of src/erogatore_ticket.c answers, and a user waits for its answer, in any order, among
-- any messages of types other than the user's own and the dispenser's. An operator's answer to the
-- user has the user's own type: such runs end where it comes.
use poste_italiane_simulatio.Prelude.{
  ℕ, suc, ◌+◌, ◌%◌, ◌^◌, ◌<◌, ◌≡◌, ◌≢◌, ap, ◌∙◌, Bool, true, Bool-cases, inl, inr, List, [], ◌∷◌,
  ◌++◌, map, All, some, ok, ◌==◌, if◌then◌else◌, length, arith,
}
use poste_italiane_simulatio.Config.Scan.{Bytes}
use poste_italiane_simulatio.Messages.Structs.{
  TicketRequest, TicketResponse, encode_ticket_request, encode_ticket_response, IsInt,
}
use poste_italiane_simulatio.Messages.Calls.{
  minus_one, returned, answered, send_ticket_request, await_ticket_response, dispenser_round,
}
use poste_italiane_simulatio.Queue.SysV.{SysV, got}
use poste_italiane_simulatio.Queue.Wrapper.{mq_send, mq_receive}
use poste_italiane_simulatio.Queue.Fifo.{of_type}

-- The tickets of user `p` where the requests are numbered in their order from `k` on.
abbrev pub tickets_of : ℕ → ℕ → List TicketRequest → List ℕ
tickets_of p k [] = []
tickets_of p k (q ∷ qs) =
    let later = tickets_of p (k + 1) qs in if q.sender_pid == p then k % 2 ^ 32 ∷ later else later

-- A request of a process that is no other's, with fields that ints hold.
abbrev pub IsRequest : TicketRequest → Type 0
IsRequest q = IsInt q.sender_pid × IsInt q.service_id × (1 < q.sender_pid)

abbrev pub response : ℕ → ℕ → Bytes
response dispenser_pid ticket =
    encode_ticket_response (record { generator_pid = dispenser_pid; ticket_number = ticket })

abbrev pub with_last : ℕ → ℕ → List TicketRequest → TicketRequest → ℕ → List ℕ
with_last p k qs q n = tickets_of p k qs ++ (if q.sender_pid == p then n % 2 ^ 32 ∷ [] else [])

pub tickets_of-append :
    (p k : ℕ) (qs : List TicketRequest) (q : TicketRequest)
    → tickets_of p k (qs ++ q ∷ [])
      ≡ tickets_of p k qs ++ (if q.sender_pid == p then (k + length qs) % 2 ^ 32 ∷ [] else [])
tickets_of-append p k [] q = ground arith
tickets_of-append p k (r ∷ qs) q =
    let step = tickets_of-append p (k + 1) qs q in
    let same : k + 1 + length qs ≡ k + suc (length qs) = omega arith in
    elim (Bool-cases (r.sender_pid == p)) [
      | inl e ↦ rw e (ap (λ ts. k % 2 ^ 32 ∷ ts) (step ∙ ap (with_last p (k + 1) qs q) same))
      | inr e ↦ rw e (step ∙ ap (with_last p (k + 1) qs q) same)
    ]

-- Calls that succeed on the queue `qid`, as user `p` sees them: the dispenser's counter, the
-- requests so far in their order, the number of rounds that answered one, and the tickets that `p`
-- has received.
module _ (S : SysV) (qid dispenser_pid p : ℕ) where
  pub data Traffic
      : S.State → (counter : ℕ) → List TicketRequest → (rounds : ℕ) → List ℕ → Type 0 where
    start :
        {s : S.State}
        → of_type 1 (S.content s qid) ≡ []
        → of_type p (S.content s qid) ≡ []
        → Traffic s 0 [] 0 []
    asks :
        {s s' : S.State} {counter rounds : ℕ} {asked : List TicketRequest} {heard : List ℕ}
        (q : TicketRequest)
        → Traffic s counter asked rounds heard
        → IsRequest q
        → send_ticket_request S s qid q.sender_pid q.service_id ≡ ok (true, s')
        → Traffic s' counter (asked ++ q ∷ []) rounds heard
    answers :
        {s s' : S.State} {counter counter' rounds : ℕ} {asked : List TicketRequest} {heard : List ℕ}
        (garbage : Bytes)
        → Traffic s counter asked rounds heard
        → length garbage ≡ 8
        → dispenser_round S s qid dispenser_pid counter garbage ≡ ok (answered true s', counter')
        → Traffic s' counter' asked (suc rounds) heard
    hears :
        {s s' : S.State} {counter rounds : ℕ} {asked : List TicketRequest} {heard : List ℕ}
        (garbage : Bytes) (r : TicketResponse)
        → Traffic s counter asked rounds heard
        → length garbage ≡ 8
        → await_ticket_response S s qid p garbage ≡ ok (returned r s')
        → r.ticket_number ≢ minus_one
        → Traffic s' counter asked rounds (heard ++ r.ticket_number ∷ [])
    other_sends :
        {s s' : S.State} {counter rounds : ℕ} {asked : List TicketRequest} {heard : List ℕ}
        (mtype : ℕ) (d : Bytes)
        → Traffic s counter asked rounds heard
        → mtype ≢ 1
        → mtype ≢ p
        → mq_send S s qid mtype d ≡ ok (some s')
        → Traffic s' counter asked rounds heard
    other_receives :
        {s s' : S.State} {counter rounds : ℕ} {asked : List TicketRequest} {heard : List ℕ}
        (mtype size : ℕ) (nowait : Bool) (d : Bytes)
        → Traffic s counter asked rounds heard
        → 1 < mtype
        → mtype ≢ p
        → mq_receive S s qid mtype size nowait ≡ ok (got d s')
        → Traffic s' counter asked rounds heard

  -- The first `rounds` requests are answered and the others wait, each with its ticket, which is its
  -- place among all requests: what `p` has heard and what is on its way to `p` are its tickets.
  pub record IsAnswered (s : S.State) (counter : ℕ) (asked : List TicketRequest) (rounds : ℕ)
      (heard : List ℕ) : Type 0 where
    pub past : List TicketRequest
    pub pending : List TicketRequest
    pub coming : List ℕ
    pub split : asked ≡ past ++ pending
    pub count : length past ≡ rounds
    pub counter_is : counter ≡ rounds % 2 ^ 32
    pub requests : of_type 1 (S.content s qid) ≡ map encode_ticket_request pending
    pub valid : All IsRequest pending
    pub responses : of_type p (S.content s qid) ≡ map (response dispenser_pid) coming
    pub ints : All IsInt coming
    pub tickets : heard ++ coming ≡ tickets_of p 0 past

-- ===== src/ErogatoreTicket.antt =====
-- src/erogatore_ticket.c: the ticket dispenser, a loop over the messages that it receives.
use poste_italiane_simulatio.Prelude.{
  ℕ, ◌+◌, ◌%◌, ◌^◌, ◌≤◌, ◌<◌, ◌≡◌, ◌≢◌, refl, ap, true, List, [], ◌∷◌, map, All, Outcome, ok, fault,
  ◌>>=◌, incr, ltb, if◌then◌else◌, length, arith,
}
use poste_italiane_simulatio.Config.Defs.{num_service_types}

-- What `mq_receive` gives: a request, an interruption (EINTR), or another error.
pub data Received : Type 0 where
  request : (sender_pid service_id : ℕ) → Received
  interrupted failed : Received

-- A response on its way: its mtype, which is the user's pid, and its two fields.
pub record Response : Type 0 where
  pub receiver : ℕ
  pub generator_pid : ℕ
  pub ticket_number : ℕ

-- The loop of `main` with the counter so far: the responses that it sends, whether `mq_send`
-- succeeds or not, until the messages or the loop end. The service's name is printed before a
-- response is made, so a service outside the table of names is a fault.
unfoldable pub serve : ℕ → ℕ → List Received → Outcome (List Response)
serve pid ticket_counter [] = ok []
serve pid ticket_counter (interrupted ∷ rest) = serve pid ticket_counter rest
serve pid ticket_counter (failed ∷ rest) = ok []
serve pid ticket_counter (request sender service ∷ rest) =
    let resp : Response = record {
      receiver = sender;
      generator_pid = pid;
      ticket_number = ticket_counter;
    } in
    let more = serve pid (incr ticket_counter) rest >>= λ rs. ok (resp ∷ rs) in
    if ltb service num_service_types then more else fault

-- The senders of the requests up to the first error, in their order.
abbrev pub senders : List Received → List ℕ
senders [] = []
senders (interrupted ∷ rest) = senders rest
senders (failed ∷ rest) = []
senders (request sender service ∷ rest) = sender ∷ senders rest

abbrev pub AsksForService : Received → Type 0
AsksForService (request sender service) = service < num_service_types
AsksForService _ = Unit

-- Consecutive tickets from `k` on, modulo 2 ^ 32, one for each sender.
abbrev pub tickets : ℕ → ℕ → List ℕ → List Response
tickets pid k [] = []
tickets pid k (s ∷ ss) =
    record { receiver = s; generator_pid = pid; ticket_number = k % 2 ^ 32 }
    ∷ tickets pid (k + 1) ss

serve-tickets_from :
    (pid k : ℕ) (rs : List Received)
    → All AsksForService rs
    → serve pid (k % 2 ^ 32) rs ≡ ok (tickets pid k (senders rs))
unfolding serve
serve-tickets_from pid k [] h = refl
serve-tickets_from pid k (interrupted ∷ rest) h = serve-tickets_from pid k rest h.1
serve-tickets_from pid k (failed ∷ rest) h = refl
serve-tickets_from pid k (request sender service ∷ rest) h =
    let in_table : ltb service 6 ≡ true = ground (arith, h.0) in
    let next : incr (k % 2 ^ 32) ≡ (k + 1) % 2 ^ 32 = omega arith in
    rw (in_table, next, serve-tickets_from pid (k + 1) rest h.1)

map_receiver-tickets :
    (pid k : ℕ) (ss : List ℕ) → map (λ (r : Response). r.receiver) (tickets pid k ss) ≡ ss
map_receiver-tickets pid k [] = refl
map_receiver-tickets pid k (s ∷ ss) = ap (λ ts. s ∷ ts) (map_receiver-tickets pid (k + 1) ss)

abbrev pub Differs : Response → Response → Type 0
Differs a b = a.ticket_number ≢ b.ticket_number

-- Every two elements of the list, in their order, are related.
abbrev pub Pairs : (Response → Response → Type 0) → List Response → Type 0
Pairs R [] = Unit
Pairs R (x ∷ xs) = All (R x) xs × Pairs R xs

tickets-differ :
    (pid j k : ℕ) (ss : List ℕ)
    → j < k
    → k + length ss ≤ 2 ^ 32
    → All (λ r. j % 2 ^ 32 ≢ r.ticket_number) (tickets pid k ss)
tickets-differ pid j k [] h b = tt
tickets-differ pid j k (s ∷ ss) h b =
    ((λ e. omega arith), tickets-differ pid j (k + 1) ss (omega arith) (omega arith))

tickets-Pairs :
    (pid k : ℕ) (ss : List ℕ) → k + length ss ≤ 2 ^ 32 → Pairs Differs (tickets pid k ss)
tickets-Pairs pid k [] b = tt
tickets-Pairs pid k (s ∷ ss) b = (
  tickets-differ pid k (k + 1) ss (omega arith) (omega arith),
  tickets-Pairs pid (k + 1) ss (omega arith),
)

-- Where every request is for one of the six services, the dispenser answers each request up to the
-- first error with the next ticket, the first of them numbered zero: interruptions use up no ticket
-- and lose no request, each response goes to the sender, and no two tickets have one number unless
-- there are more than 2 ^ 32 of them.
pub serve-tickets :
    (pid : ℕ) (rs : List Received)
    → All AsksForService rs
    → (serve pid 0 rs ≡ ok (tickets pid 0 (senders rs)))
      × (map (λ (r : Response). r.receiver) (tickets pid 0 (senders rs)) ≡ senders rs)
      × (length (senders rs) ≤ 2 ^ 32 → Pairs Differs (tickets pid 0 (senders rs)))
serve-tickets pid rs h = (
  serve-tickets_from pid 0 rs h,
  map_receiver-tickets pid 0 (senders rs),
  λ b. tickets-Pairs pid 0 (senders rs) (omega arith),
)

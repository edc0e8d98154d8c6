-- ===== src/Messages/Steps.antt =====
-- The ticket queue: the steps that leave the tickets of a user as they are.
use mathlib.Core.List.{append_assoc, map-append}
use poste_italiane_simulatio.Prelude.{
  All-append, ℕ, ◌<◌, ◌≡◌, ◌≢◌, refl, sym, ap, ◌∙◌, Bool, true, false, List, [], ◌∷◌, ◌++◌, map,
  All, some, ok, if◌then◌else◌, arith,
}
use poste_italiane_simulatio.Config.Scan.{Bytes}
use poste_italiane_simulatio.Messages.Structs.{TicketRequest, encode_ticket_request}
use poste_italiane_simulatio.Messages.Calls.{send_ticket_request}
use poste_italiane_simulatio.Messages.Returns.{send_ticket_request-true}
use poste_italiane_simulatio.Messages.Tickets.{IsRequest, IsAnswered}
use poste_italiane_simulatio.Queue.SysV.{SysV, IsLawful, got}
use poste_italiane_simulatio.Queue.Lines.{sent_elsewhere, sent_here, received_elsewhere}
use poste_italiane_simulatio.Queue.Wrapper.{mq_send, mq_receive}

-- The front of a list of encodings.
pub record Front {A : Type 0} (f : A → Bytes) (P : A → Type 0) (d : Bytes) (ds : List Bytes)
    (ys : List A) : Type 0 where
  pub y : A
  pub rest : List A
  pub whole : ys ≡ y ∷ rest
  pub first : d ≡ f y
  pub later : ds ≡ map f rest
  pub good : P y
  pub rest_good : All P rest

pub front :
    {A : Type 0} (f : A → Bytes) (P : A → Type 0) (d : Bytes) (ds : List Bytes) (ys : List A)
    → d ∷ ds ≡ map f ys
    → All P ys
    → Front f P d ds ys
front f P d ds [] e h = cc
front f P d ds (y ∷ ys) e h = record {
  y = y;
  rest = ys;
  whole = refl;
  first = cc;
  later = cc;
  good = h.0;
  rest_good = h.1;
}

-- One element, or none.
abbrev pub if_one : {A : Type 0} → Bool → A → List A
if_one b a = if b then a ∷ [] else []

pub map-if_one : {A B : Type 0} (f : A → B) (b : Bool) (a : A) → map f (if_one b a) ≡ if_one b (f a)
map-if_one f true a = refl
map-if_one f false a = refl

pub All-if_one : {A : Type 0} (P : A → Type 0) (b : Bool) (a : A) → P a → All P (if_one b a)
All-if_one P true a h = (h, tt)
All-if_one P false a h = tt

module _ (S : SysV) (L : IsLawful S) (qid dispenser_pid p : ℕ) (big : 1 < p) where
  pub asks-IsAnswered :
      (s s' : S.State) (counter rounds : ℕ) (asked : List TicketRequest) (heard : List ℕ)
      (q : TicketRequest)
      → IsAnswered S qid dispenser_pid p s counter asked rounds heard
      → IsRequest q
      → send_ticket_request S s qid q.sender_pid q.service_id ≡ ok (true, s')
      → IsAnswered S qid dispenser_pid p s' counter (asked ++ q ∷ []) rounds heard
  asks-IsAnswered s s' counter rounds asked heard q k v e =
      let sent = send_ticket_request-true S s s' qid q.sender_pid q.service_id e in
      record {
        past = k.past;
        pending = k.pending ++ q ∷ [];
        coming = k.coming;
        split = ap (λ qs. qs ++ q ∷ []) k.split ∙ append_assoc k.past k.pending (q ∷ []);
        count = k.count;
        counter_is = k.counter_is;
        requests =
            sent_here S L qid s s' 1 _ sent
            ∙ ap (λ ds. ds ++ encode_ticket_request q ∷ []) k.requests
            ∙ sym (map-append encode_ticket_request k.pending (q ∷ []));
        valid = All-append IsRequest k.pending (q ∷ []) k.valid (v, tt);
        responses = sent_elsewhere S L qid s s' 1 p _ (λ h. omega arith) sent ∙ k.responses;
        ints = k.ints;
        tickets = k.tickets;
      }

  pub other_sends-IsAnswered :
      (s s' : S.State) (counter rounds : ℕ) (asked : List TicketRequest) (heard : List ℕ) (t : ℕ)
      (d : Bytes)
      → IsAnswered S qid dispenser_pid p s counter asked rounds heard
      → t ≢ 1
      → t ≢ p
      → mq_send S s qid t d ≡ ok (some s')
      → IsAnswered S qid dispenser_pid p s' counter asked rounds heard
  other_sends-IsAnswered s s' counter rounds asked heard t d k ne ne' e = record {
    past = k.past;
    pending = k.pending;
    coming = k.coming;
    split = k.split;
    count = k.count;
    counter_is = k.counter_is;
    requests = sent_elsewhere S L qid s s' t 1 d ne e ∙ k.requests;
    valid = k.valid;
    responses = sent_elsewhere S L qid s s' t p d ne' e ∙ k.responses;
    ints = k.ints;
    tickets = k.tickets;
  }

  pub other_receives-IsAnswered :
      (s s' : S.State) (counter rounds : ℕ) (asked : List TicketRequest) (heard : List ℕ)
      (t size : ℕ) (nowait : Bool) (d : Bytes)
      → IsAnswered S qid dispenser_pid p s counter asked rounds heard
      → 1 < t
      → t ≢ p
      → mq_receive S s qid t size nowait ≡ ok (got d s')
      → IsAnswered S qid dispenser_pid p s' counter asked rounds heard
  other_receives-IsAnswered s s' counter rounds asked heard t size nowait d k pos ne e = record {
    past = k.past;
    pending = k.pending;
    coming = k.coming;
    split = k.split;
    count = k.count;
    counter_is = k.counter_is;
    requests =
        received_elsewhere S L qid s s' t 1 size nowait d (omega arith) (λ h. omega arith) e
        ∙ k.requests;
    valid = k.valid;
    responses = received_elsewhere S L qid s s' t p size nowait d (omega arith) ne e ∙ k.responses;
    ints = k.ints;
    tickets = k.tickets;
  }

-- ===== src/Queue/Memory.antt =====
-- Queues in memory that meet the laws of System V.
use poste_italiane_simulatio.Prelude.{
  ℕ, ◌≤◌, ◌≡◌, ◌≢◌, refl, Bool, true, false, List, [], ◌∷◌, ◌++◌, Option, none, some, length, leb,
  ◌==◌, ==_iff, if◌then◌else◌, if_cases, inl, inr, Bool-cases, arith, ap, ◌∙◌, sym,
}
use mathlib.Core.Path.{subst}
use poste_italiane_simulatio.Config.Scan.{Bytes}
use poste_italiane_simulatio.Queue.SysV.{
  SysV, IsLawful, Message, Receipt, got, no_message, failed, waits, Takes,
}

-- What was found behind a message that stays.
abbrev pub behind : Message → Option (Bytes × List Message) → Option (Bytes × List Message)
behind m none = none
behind m (some (e, r)) = some (e, m ∷ r)

-- The first message of a type, and the rest.
abbrev pub take_first : ℕ → List Message → Option (Bytes × List Message)
take_first t [] = none
take_first t ((u, d) ∷ ms) =
    let later = take_first t ms in if u == t then some (d, ms) else behind (u, d) later

abbrev pub Queues : Type 0
Queues = ℕ → List Message

abbrev pub put_queue : Queues → ℕ → List Message → Queues
put_queue s id ms j = if j == id then ms else s j

abbrev pub receive_from : Queues → ℕ → ℕ → Bool → Option (Bytes × List Message) → Receipt Queues
receive_from s id size nowait none = if nowait then no_message else waits
receive_from s id size nowait (some (d, rest)) =
    if leb (length d) size then got d (put_queue s id rest) else failed

abbrev pub memory : SysV
memory = record {
  State = Queues;
  msgget = λ s key flags. (some key, s);
  msgsnd = λ s id mtype d. some (put_queue s id (s id ++ (mtype, d) ∷ []));
  msgrcv = λ s id size mtype nowait. receive_from s id size nowait (take_first mtype (s id));
  msgctl_rmid = λ s id. some (put_queue s id []);
  content = λ s id. s id;
}

some-injective : {A : Type 0} {a b : A} → some a ≡ some b → a ≡ b
some-injective e = cc

got-data : {d e : Bytes} {s s' : Queues} → got d s ≡ got e s' → d ≡ e
got-data e = cc

got-state : {d e : Bytes} {s s' : Queues} → got d s ≡ got e s' → s ≡ s'
got-state e = cc

later_Takes :
    (t u : ℕ) (d e : Bytes) (ms rest : List Message)
    → (u == t) ≡ false
    → Takes t d ms rest
    → Takes t d ((u, e) ∷ ms) ((u, e) ∷ rest)
later_Takes t u d e ms rest ne k = record {
  before = (u, e) ∷ k.before;
  after = k.after;
  was = ap (λ xs. (u, e) ∷ xs) k.was;
  is = ap (λ xs. (u, e) ∷ xs) k.is;
  first = ((λ same. ground arith), k.first);
}

-- What was found behind a message of another type.
found_later :
    (t u : ℕ) (d e : Bytes) (ms rest : List Message) (r : Option (Bytes × List Message))
    → take_first t ms ≡ r
    → ((d' : Bytes) (rest' : List Message) → r ≡ some (d', rest') → Takes t d' ms rest')
    → (u == t) ≡ false
    → behind (u, e) r ≡ some (d, rest)
    → Takes t d ((u, e) ∷ ms) rest
found_later t u d e ms rest none same ih ne h = cc
found_later t u d e ms rest (some (f, q)) same ih ne h =
    let same_d : f ≡ d = ap (λ (x : Bytes × List Message). x.0) (some-injective h) in
    let same_rest : (u, e) ∷ q ≡ rest = ap (λ (x : Bytes × List Message). x.1) (some-injective h) in
    subst (λ x. Takes t x ((u, e) ∷ ms) rest) same_d
      (subst (λ x. Takes t f ((u, e) ∷ ms) x) same_rest (later_Takes t u f e ms q ne (ih f q refl)))

take_first-Takes :
    (t : ℕ) (ms : List Message) (d : Bytes) (rest : List Message)
    → take_first t ms ≡ some (d, rest)
    → Takes t d ms rest
take_first-Takes t [] d rest h = cc
take_first-Takes t ((u, e) ∷ ms) d rest h = elim (if_cases (u == t) _ _ h) [
  | inl (same, found) ↦
      let same_d : e ≡ d = ap (λ (x : Bytes × List Message). x.0) (some-injective found) in
      let same_rest : ms ≡ rest = ap (λ (x : Bytes × List Message). x.1) (some-injective found) in
      record {
        before = [];
        after = ms;
        was = ap (λ v. (v, e) ∷ ms) ((==_iff u t).0 same) ∙ ap (λ x. (t, x) ∷ ms) same_d;
        is = sym same_rest;
        first = tt;
      }
  | inr (ne, found) ↦
      found_later t u d e ms rest (take_first t ms) refl
        (λ d' rest' h'. take_first-Takes t ms d' rest' h') ne found
]

-- A message that is received had room in the buffer, and is the first of its type.
record Received (s s' : Queues) (id size mtype : ℕ) (d : Bytes) : Type 0 where
  rest : List Message
  found : take_first mtype (s id) ≡ some (d, rest)
  left : s' ≡ put_queue s id rest
  room : length d ≤ size

receive_from-Received :
    (s s' : Queues) (id size mtype : ℕ) (nowait : Bool) (d : Bytes)
    (r : Option (Bytes × List Message))
    → take_first mtype (s id) ≡ r
    → receive_from s id size nowait r ≡ got d s'
    → Received s s' id size mtype d
receive_from-Received s s' id size mtype true d none same h = cc
receive_from-Received s s' id size mtype false d none same h = cc
receive_from-Received s s' id size mtype nowait d (some (e, rest)) same h =
    elim (if_cases (leb (length e) size) (got e (put_queue s id rest)) failed h) [
      | inl (fits, is) ↦
          let same_d : e ≡ d = got-data is in
          record {
            rest = rest;
            found = same ∙ ap (λ x. some (x, rest)) same_d;
            left = sym (got-state is);
            room = subst (λ x. length x ≤ size) same_d (ground arith);
          }
      | inr (_, bad) ↦ cc
    ]

put_queue-here : (s : Queues) (id : ℕ) (ms : List Message) → put_queue s id ms id ≡ ms
put_queue-here s id ms = ground arith

put_queue-elsewhere :
    (s : Queues) (id : ℕ) (ms : List Message) (j : ℕ) → j ≢ id → put_queue s id ms j ≡ s j
put_queue-elsewhere s id ms j ne = ground arith

sent_behind :
    (s : Queues) (id : ℕ) (m : Message) (j : ℕ)
    → put_queue s id (s id ++ m ∷ []) j ≡ (if j == id then s j ++ m ∷ [] else s j)
sent_behind s id m j = elim (Bool-cases (j == id)) [
  | inl same ↦ rw same (ap (λ k. s k ++ m ∷ []) (sym ((==_iff j id).0 same)))
  | inr ne ↦ rw ne refl
]

-- Queues in memory are System V queues.
pub memory-IsLawful : IsLawful memory
memory-IsLawful = record {
  content-msgsnd = λ s s' id mtype d j e.
      ap (λ (q : Queues). q j) (sym (some-injective e)) ∙ sent_behind s id (mtype, d) j;
  msgrcv-Takes = λ s s' id size mtype nowait d pos e.
      let k = receive_from-Received s s' id size mtype nowait d _ refl e in
      subst (Takes mtype d (s id))
        (sym (ap (λ (q : Queues). q id) k.left ∙ put_queue-here s id k.rest))
        (take_first-Takes mtype (s id) d k.rest k.found);
  content-msgrcv = λ s s' id size mtype nowait d j ne e.
      let k = receive_from-Received s s' id size mtype nowait d _ refl e in
      ap (λ (q : Queues). q j) k.left ∙ put_queue-elsewhere s id k.rest j ne;
  msgrcv-le-size = λ s s' id size mtype nowait d e.
      (receive_from-Received s s' id size mtype nowait d _ refl e).room;
}

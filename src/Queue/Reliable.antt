-- ===== src/Queue/Reliable.antt =====
-- A queue of System V with room for every message, whose calls no signal interrupts.
use poste_italiane_simulatio.Prelude.{
  ℕ, ◌≤◌, ◌<◌, ◌≡◌, refl, ap, Bool, true, false, List, [], ◌∷◌, ◌++◌, none, some, length, leb, ◌==◌,
  if_cases, inl, inr, ok, arith,
}
use poste_italiane_simulatio.Config.Scan.{Bytes}
use poste_italiane_simulatio.Queue.SysV.{SysV, Message, got, waits}
use poste_italiane_simulatio.Queue.Wrapper.{max_text, mq_send, mq_receive}
use poste_italiane_simulatio.Queue.Fifo.{of_type}
use poste_italiane_simulatio.Queue.Memory.{memory, put_queue, take_first, behind}

pub record IsReliable (S : SysV) (id : ℕ) : Type 0 where
  pub msgsnd_total :
      (s : S.State) (mtype : ℕ) (d : Bytes)
      → 0 < mtype
      → (s' : S.State) × (S.msgsnd s id mtype d ≡ some s')
  pub msgrcv_found :
      (s : S.State) (size mtype : ℕ) (nowait : Bool) (d : Bytes) (ds : List Bytes)
      → 0 < mtype
      → of_type mtype (S.content s id) ≡ d ∷ ds
      → length d ≤ size
      → (s' : S.State) × (S.msgrcv s id size mtype nowait ≡ got d s')
  pub msgrcv_none :
      (s : S.State) (size mtype : ℕ)
      → 0 < mtype
      → of_type mtype (S.content s id) ≡ []
      → S.msgrcv s id size mtype false ≡ waits

module _ (S : SysV) (id : ℕ) (R : IsReliable S id) where
  pub mq_send_total :
      (s : S.State) (mtype : ℕ) (d : Bytes)
      → 0 < mtype
      → length d ≤ max_text
      → (s' : S.State) × (mq_send S s id mtype d ≡ ok (some s'))
  unfolding mq_send
  mq_send_total s mtype d pos small =
      let (s', e) = R.msgsnd_total s mtype d pos in
      let fits : leb (length d) max_text ≡ true = ground arith in (s', rw (fits, e) refl)

  pub mq_receive_found :
      (s : S.State) (size mtype : ℕ) (nowait : Bool) (d : Bytes) (ds : List Bytes)
      → 0 < mtype
      → of_type mtype (S.content s id) ≡ d ∷ ds
      → length d ≤ size
      → size ≤ max_text
      → (s' : S.State) × (mq_receive S s id mtype size nowait ≡ ok (got d s'))
  unfolding mq_receive
  mq_receive_found s size mtype nowait d ds pos e fits small =
      let (s', e') = R.msgrcv_found s size mtype nowait d ds pos e fits in
      let fits' : leb (length d) max_text ≡ true = ground arith in (s', rw e' (rw fits' refl))

  pub mq_receive_none :
      (s : S.State) (size mtype : ℕ)
      → 0 < mtype
      → of_type mtype (S.content s id) ≡ []
      → mq_receive S s id mtype size false ≡ ok waits
  unfolding mq_receive
  mq_receive_none s size mtype pos e = rw (R.msgrcv_none s size mtype pos e) refl

take_first-some :
    (t : ℕ) (ms : List Message) (d : Bytes) (ds : List Bytes)
    → of_type t ms ≡ d ∷ ds
    → (rest : List Message) × (take_first t ms ≡ some (d, rest))
take_first-some t [] d ds e = cc
take_first-some t ((u, f) ∷ ms) d ds e =
    elim (if_cases (u == t) (f ∷ of_type t ms) (of_type t ms) e) [
      | inl (same, found) ↦ let same_d : f ≡ d = cc in (ms, rw same (ap (λ x. some (x, ms)) same_d))
      | inr (ne, found) ↦
          let (rest, e') = take_first-some t ms d ds found in
          ((u, f) ∷ rest, rw ne (ap (behind (u, f)) e'))
    ]

take_first-none : (t : ℕ) (ms : List Message) → of_type t ms ≡ [] → take_first t ms ≡ none
take_first-none t [] e = refl
take_first-none t ((u, f) ∷ ms) e = elim (if_cases (u == t) (f ∷ of_type t ms) (of_type t ms) e) [
  | inl (same, found) ↦ cc
  | inr (ne, found) ↦ rw ne (ap (behind (u, f)) (take_first-none t ms found))
]

pub memory-IsReliable : (id : ℕ) → IsReliable memory id
memory-IsReliable id = record {
  msgsnd_total = λ s mtype d pos. (put_queue s id (s id ++ (mtype, d) ∷ []), refl);
  msgrcv_found = λ s size mtype nowait d ds pos e fits.
      let (rest, e') = take_first-some mtype (s id) d ds e in
      let fits' : leb (length d) size ≡ true = ground arith in
      (put_queue s id rest, rw e' (rw fits' refl));
  msgrcv_none = λ s size mtype pos e. rw (take_first-none mtype (s id) e) refl;
}

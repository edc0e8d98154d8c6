-- ===== src/Queue/Fifo.antt =====
-- src/systems/msg_queue.c: a queue as its users see it, one line of messages for each mtype.
use mathlib.Core.List.{append-nil, append_assoc}
use poste_italiane_simulatio.Prelude.{
  ℕ, ◌<◌, ◌≡◌, ◌≢◌, refl, sym, ap, ◌∙◌, inl, inr, Bool, true, false, List, [], ◌∷◌, ◌++◌, All, some,
  ok, ok-injective, fault, length, leb, ◌==◌, if◌then◌else◌, if_cases, arith,
}
use poste_italiane_simulatio.Config.Scan.{Bytes}
use poste_italiane_simulatio.Queue.SysV.{
  SysV, IsLawful, Message, Receipt, got, no_message, interrupted, failed, waits, Takes,
}
use poste_italiane_simulatio.Queue.Wrapper.{max_text, mq_send, copy_text, mq_receive}

-- The data of one type, oldest first.
abbrev pub of_type : ℕ → List Message → List Bytes
of_type t [] = []
of_type t ((u, d) ∷ ms) = if u == t then d ∷ of_type t ms else of_type t ms

pub of_type-append :
    (t : ℕ) (xs ys : List Message) → of_type t (xs ++ ys) ≡ of_type t xs ++ of_type t ys
of_type-append t [] ys = refl
of_type-append t ((u, d) ∷ xs) ys = ground (arith, of_type-append t xs ys)

of_type-none : (t : ℕ) (xs : List Message) → All (λ (m : Message). m.0 ≢ t) xs → of_type t xs ≡ []
of_type-none t [] h = refl
of_type-none t ((u, d) ∷ xs) h = ground (arith, of_type-none t xs h.1)

of_type-taken :
    (u t : ℕ) (d : Bytes) (before after : List Message)
    → All (λ (m : Message). m.0 ≢ t) before
    → of_type u (before ++ (t, d) ∷ after)
      ≡ (if t == u then d ∷ of_type u (before ++ after) else of_type u (before ++ after))
of_type-taken u t d [] after h = refl
of_type-taken u t d ((v, e) ∷ before) after h = ground (arith, of_type-taken u t d before after h.1)

-- What is taken is the front of its own line, and the other lines stay.
pub of_type-Takes :
    (old new : List Message) (t : ℕ) (d : Bytes) (u : ℕ)
    → Takes t d old new
    → of_type u old ≡ (if t == u then d ∷ of_type u new else of_type u new)
of_type-Takes old new t d u k =
    ap (of_type u) k.was
    ∙ of_type-taken u t d k.before k.after k.first
    ∙ ap (λ xs. if t == u then d ∷ of_type u xs else of_type u xs) (sym k.is)

if_cons :
    (b : Bool) (d : Bytes) (rest : List Bytes)
    → (if b then d ∷ rest else rest) ≡ (if b then d ∷ [] else []) ++ rest
if_cons true d rest = refl
if_cons false d rest = refl

append_step : (a b c e m : List Bytes) → a ++ b ≡ c ++ e → a ++ (b ++ m) ≡ c ++ (e ++ m)
append_step a b c e m h = sym (append_assoc a b m) ∙ ap (λ xs. xs ++ m) h ∙ append_assoc c e m

module _ (S : SysV) (id : ℕ) where
  -- Calls that succeed on one queue, with what they sent and received, newest last.
  pub data Run (s : S.State) : S.State → List Message → List Message → Type 0 where
    here : Run s s [] []
    sends :
        {t u : S.State} {out in' : List Message} (mtype : ℕ) (d : Bytes)
        → Run s t out in'
        → mq_send S t id mtype d ≡ ok (some u)
        → Run s u (out ++ (mtype, d) ∷ []) in'
    receives :
        {t u : S.State} {out in' : List Message} (mtype size : ℕ) (nowait : Bool) (d : Bytes)
        → Run s t out in'
        → 0 < mtype
        → mq_receive S t id mtype size nowait ≡ ok (got d u)
        → Run s u out (in' ++ (mtype, d) ∷ [])

module _ (S : SysV) (L : IsLawful S) (id : ℕ) where
  -- A send that succeeds puts the message behind all others, and changes no other queue.
  pub content-mq_send :
      (s s' : S.State) (mtype : ℕ) (d : Bytes) (j : ℕ)
      → mq_send S s id mtype d ≡ ok (some s')
      → S.content s' j ≡ (if j == id then S.content s j ++ (mtype, d) ∷ [] else S.content s j)
  unfolding mq_send
  content-mq_send s s' mtype d j e =
      elim (if_cases (leb (length d) max_text) (ok (S.msgsnd s id mtype d)) fault e) [
        | inl (_, sent) ↦ L.content-msgsnd s s' id mtype d j (ok-injective _ _ sent)
        | inr (_, bad) ↦ cc
      ]

  copy_text-got :
      (r : Receipt S.State) (s' : S.State) (d : Bytes)
      → copy_text S r ≡ ok (got d s')
      → r ≡ got d s'
  copy_text-got (got e t) s' d h =
      elim (if_cases (leb (length e) max_text) (ok (got e t)) fault h) [
        | inl (_, same) ↦ ok-injective _ _ same
        | inr (_, bad) ↦ cc
      ]
  copy_text-got no_message s' d h = cc
  copy_text-got interrupted s' d h = cc
  copy_text-got failed s' d h = cc
  copy_text-got waits s' d h = cc

  pub mq_receive-Takes :
      (s s' : S.State) (mtype size : ℕ) (nowait : Bool) (d : Bytes)
      → 0 < mtype
      → mq_receive S s id mtype size nowait ≡ ok (got d s')
      → Takes mtype d (S.content s id) (S.content s' id)
  unfolding mq_receive
  mq_receive-Takes s s' mtype size nowait d pos e =
      L.msgrcv-Takes s s' id size mtype nowait d pos (copy_text-got _ s' d e)

  -- What a send adds to the line of each type.
  pub of_type-mq_send :
      (s s' : S.State) (mtype : ℕ) (d : Bytes) (u : ℕ)
      → mq_send S s id mtype d ≡ ok (some s')
      → of_type u (S.content s' id)
        ≡ of_type u (S.content s id) ++ (if mtype == u then d ∷ [] else [])
  of_type-mq_send s s' mtype d u e =
      let here' : (id == id) ≡ true = ground arith in
      ap (of_type u) (
        content-mq_send s s' mtype d id e
        ∙ ap (λ b. if b then S.content s id ++ (mtype, d) ∷ [] else S.content s id) here')
      ∙ of_type-append u (S.content s id) ((mtype, d) ∷ [])

  -- What a receipt takes from it.
  pub of_type-mq_receive :
      (s s' : S.State) (mtype size : ℕ) (nowait : Bool) (d : Bytes) (u : ℕ)
      → 0 < mtype
      → mq_receive S s id mtype size nowait ≡ ok (got d s')
      → of_type u (S.content s id)
        ≡ (if mtype == u then d ∷ of_type u (S.content s' id) else of_type u (S.content s' id))
  of_type-mq_receive s s' mtype size nowait d u pos e =
      of_type-Takes _ _ mtype d u (mq_receive-Takes s s' mtype size nowait d pos e)

  -- Whatever calls succeed on a queue, in whatever order, each mtype is a line of its own: what was
  -- in the queue and was sent, of one type and in its order, is what was received of it, in the
  -- same order, and then what is still there. No message is lost, doubled, changed or overtaken
  -- within its type, as long as the calls of System V keep their laws.
  pub Run-of_type :
      {s t : S.State} {out in' : List Message}
      → Run S id s t out in'
      → (u : ℕ)
      → of_type u (S.content s id) ++ of_type u out ≡ of_type u in' ++ of_type u (S.content t id)
  Run-of_type here u = append-nil _
  Run-of_type {s} (sends {t} {u = t'} {out} {in'} mtype d r e) u =
      ap (◌++◌ (of_type u (S.content s id))) (of_type-append u out ((mtype, d) ∷ []))
      ∙ append_step _ _ (of_type u in') (of_type u (S.content t id)) _ (Run-of_type r u)
      ∙ ap (◌++◌ (of_type u in')) (sym (of_type-mq_send t t' mtype d u e))
  Run-of_type {s} (receives {t} {u = t'} {out} {in'} mtype size nowait d r pos e) u =
      Run-of_type r u
      ∙ ap (◌++◌ (of_type u in')) (
          of_type-mq_receive t t' mtype size nowait d u pos e
          ∙ if_cons (mtype == u) d (of_type u (S.content t' id)))
      ∙ sym (append_assoc (of_type u in') _ _)
      ∙ ap (λ xs. xs ++ of_type u (S.content t' id)) (sym (of_type-append u in' ((mtype, d) ∷ [])))

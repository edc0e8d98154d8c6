-- ===== src/Queue/Lines.antt =====
-- src/systems/msg_queue.c: what a call that goes well does to the line of one type.
use mathlib.Core.List.{append-nil}
use poste_italiane_simulatio.Prelude.{
  ℕ, ◌<◌, ◌≡◌, ◌≢◌, sym, ap, ◌∙◌, Bool, true, false, List, [], ◌∷◌, ◌++◌, some, ok, ◌==◌,
  if◌then◌else◌, arith,
}
use poste_italiane_simulatio.Config.Scan.{Bytes}
use poste_italiane_simulatio.Queue.SysV.{SysV, IsLawful, got}
use poste_italiane_simulatio.Queue.Wrapper.{mq_send, mq_receive}
use poste_italiane_simulatio.Queue.Fifo.{of_type, of_type-mq_send, of_type-mq_receive}

==_refl : (t : ℕ) → (t == t) ≡ true
==_refl t = ground arith

==_ne : (t u : ℕ) → t ≢ u → (t == u) ≡ false
==_ne t u ne = ground arith

module _ (S : SysV) (L : IsLawful S) (qid : ℕ) where
  -- The line of one type after a call.
  abbrev pub line : ℕ → S.State → List Bytes
  line u s = of_type u (S.content s qid)

  pub sent_here :
      (s s' : S.State) (u : ℕ) (d : Bytes)
      → mq_send S s qid u d ≡ ok (some s')
      → line u s' ≡ line u s ++ d ∷ []
  sent_here s s' u d e =
      of_type-mq_send S L qid s s' u d u e
      ∙ ap (λ b. line u s ++ (if b then d ∷ [] else [])) (==_refl u)

  pub sent_elsewhere :
      (s s' : S.State) (t u : ℕ) (d : Bytes)
      → t ≢ u
      → mq_send S s qid t d ≡ ok (some s')
      → line u s' ≡ line u s
  sent_elsewhere s s' t u d ne e =
      of_type-mq_send S L qid s s' t d u e
      ∙ ap (λ b. line u s ++ (if b then d ∷ [] else [])) (==_ne t u ne)
      ∙ append-nil (line u s)

  pub received_here :
      (s s' : S.State) (u size : ℕ) (nowait : Bool) (d : Bytes)
      → 0 < u
      → mq_receive S s qid u size nowait ≡ ok (got d s')
      → line u s ≡ d ∷ line u s'
  received_here s s' u size nowait d pos e =
      of_type-mq_receive S L qid s s' u size nowait d u pos e
      ∙ ap (λ b. if b then d ∷ line u s' else line u s') (==_refl u)

  pub received_elsewhere :
      (s s' : S.State) (t u size : ℕ) (nowait : Bool) (d : Bytes)
      → 0 < t
      → t ≢ u
      → mq_receive S s qid t size nowait ≡ ok (got d s')
      → line u s' ≡ line u s
  received_elsewhere s s' t u size nowait d pos ne e = sym (
      of_type-mq_receive S L qid s s' t size nowait d u pos e
      ∙ ap (λ b. if b then d ∷ line u s' else line u s') (==_ne t u ne))

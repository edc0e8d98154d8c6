-- ===== src/Queue/SysV.antt =====
-- The calls of System V that src/systems/msg_queue.c makes, and what their documentation says.
use poste_italiane_simulatio.Prelude.{
  ℕ, ◌≤◌, ◌<◌, ◌≡◌, ◌≢◌, Bool, List, [], ◌∷◌, ◌++◌, All, Option, some, length, ◌==◌, if◌then◌else◌,
}
use poste_italiane_simulatio.Config.Scan.{Bytes}

-- A message: its mtype and its data.
abbrev pub Message : Type 0
Message = ℕ × Bytes

-- What msgrcv gives: a message, or one of its errors, or, where it may wait, no return yet.
pub data Receipt (S : Type 0) : Type 0 where
  got : Bytes → S → Receipt S
  no_message interrupted failed waits : Receipt S

-- A call that returns an error leaves the state as it is.
pub record SysV : Type 1 where
  pub State : Type 0
  pub msgget : State → (key flags : ℕ) → Option ℕ × State
  pub msgsnd : State → (msqid mtype : ℕ) → Bytes → Option State
  pub msgrcv : State → (msqid size mtype : ℕ) → (nowait : Bool) → Receipt State
  pub msgctl_rmid : State → (msqid : ℕ) → Option State
  pub content : State → (msqid : ℕ) → List Message

-- The first message of a type, taken out of a queue.
pub record Takes (mtype : ℕ) (d : Bytes) (old new : List Message) : Type 0 where
  pub before : List Message
  pub after : List Message
  pub was : old ≡ before ++ (mtype, d) ∷ after
  pub is : new ≡ before ++ after
  pub first : All (λ (m : Message). m.0 ≢ mtype) before

pub record IsLawful (S : SysV) : Type 0 where
  pub content-msgsnd :
      (s s' : S.State) (id mtype : ℕ) (d : Bytes) (j : ℕ)
      → S.msgsnd s id mtype d ≡ some s'
      → S.content s' j ≡ (if j == id then S.content s j ++ (mtype, d) ∷ [] else S.content s j)
  pub msgrcv-Takes :
      (s s' : S.State) (id size mtype : ℕ) (nowait : Bool) (d : Bytes)
      → 0 < mtype
      → S.msgrcv s id size mtype nowait ≡ got d s'
      → Takes mtype d (S.content s id) (S.content s' id)
  pub content-msgrcv :
      (s s' : S.State) (id size mtype : ℕ) (nowait : Bool) (d : Bytes) (j : ℕ)
      → j ≢ id
      → S.msgrcv s id size mtype nowait ≡ got d s'
      → S.content s' j ≡ S.content s j
  pub msgrcv-le-size :
      (s s' : S.State) (id size mtype : ℕ) (nowait : Bool) (d : Bytes)
      → S.msgrcv s id size mtype nowait ≡ got d s'
      → length d ≤ size

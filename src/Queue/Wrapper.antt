-- ===== src/Queue/Wrapper.antt =====
-- src/systems/msg_queue.c: `mq_open`, `mq_send`, `mq_receive` and `mq_close`, over any System V.
-- A copy past the 4096 bytes of their buffers is a fault.
use poste_italiane_simulatio.Prelude.{
  ℕ, ◌+◌, Bool, Option, Outcome, ok, fault, length, leb, if◌then◌else◌,
}
use poste_italiane_simulatio.Config.Scan.{Bytes}
use poste_italiane_simulatio.Queue.SysV.{SysV, Receipt, got, no_message, interrupted, failed, waits}

abbrev pub max_text : ℕ
max_text = 4096

module _ (S : SysV) where
  -- `flags | perms`, where they share no bit.
  unfoldable pub mq_open : S.State → ℕ → ℕ → ℕ → Option ℕ × S.State
  mq_open s key flags perms = S.msgget s key (flags + perms)

  unfoldable pub mq_send : S.State → ℕ → ℕ → Bytes → Outcome (Option S.State)
  mq_send s msqid mtype text =
      if leb (length text) max_text then ok (S.msgsnd s msqid mtype text) else fault

  -- What msgrcv wrote into the buffer, copied on.
  abbrev pub copy_text : Receipt S.State → Outcome (Receipt S.State)
  copy_text (got d s) = if leb (length d) max_text then ok (got d s) else fault
  copy_text no_message = ok no_message
  copy_text interrupted = ok interrupted
  copy_text failed = ok failed
  copy_text waits = ok waits

  unfoldable pub mq_receive : S.State → ℕ → ℕ → ℕ → Bool → Outcome (Receipt S.State)
  mq_receive s msqid mtype size nowait = copy_text (S.msgrcv s msqid size mtype nowait)

  unfoldable pub mq_close : S.State → ℕ → Option S.State
  mq_close s msqid = S.msgctl_rmid s msqid

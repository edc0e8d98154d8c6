-- ===== src/Messages.antt =====
-- include/comunications.h: the message types that the processes of the ticket queue listen to.
-- src/erogatore_ticket.c takes type 1, src/utente.c the user's pid, and src/operatore.c
-- `MSG_TYPE_SERVICE_REQUEST * 10000` plus the operator's pid.
pub mod Structs
pub mod Calls
pub mod Returns
pub mod Tickets
pub mod Steps
pub mod Order
pub mod Progress
pub mod Service
pub mod Misdelivery
mod Tests
use poste_italiane_simulatio.Prelude.{ℕ, ◌+◌, ◌*◌, ◌<◌, ◌≤◌, ◌≡◌, ◌↔◌, ◌⊎◌, arith}

pub data MessageType : Type 0 where
  ticket_request ticket_response service_request service_done : MessageType

-- The values of the enum.
abbrev pub code : MessageType → ℕ
code ticket_request = 1
code ticket_response = 2
code service_request = 3
code service_done = 4

-- Who listens on the ticket queue.
pub data Listener : Type 0 where
  dispenser : Listener
  user operator : (pid : ℕ) → Listener

-- The mtype that each of them receives, and that others send to reach it.
unfoldable pub mtype : Listener → ℕ
mtype dispenser = code ticket_request
mtype (user pid) = pid
mtype (operator pid) = code service_request * 10000 + pid

-- ===== src/Queue/Tests.antt =====
-- The wrapper of message queues at concrete calls.
use poste_italiane_simulatio.Prelude.{◌≡◌, refl, [], ◌∷◌, ◌++◌, false, arith}
use poste_italiane_simulatio.Queue.Wrapper.{mq_send, mq_receive}
use poste_italiane_simulatio.Queue.Fifo.{Run, here, sends, receives, of_type, Run-of_type}
use poste_italiane_simulatio.Queue.Memory.{memory, memory-IsLawful, Queues, put_queue}

abbrev empty : Queues
empty j = []

abbrev one_sent : Queues
one_sent = put_queue empty 7 ((3, 1 ∷ []) ∷ [])

abbrev two_sent : Queues
two_sent = put_queue one_sent 7 ((3, 1 ∷ []) ∷ (5, 2 ∷ []) ∷ [])

abbrev one_left : Queues
one_left = put_queue two_sent 7 ((3, 1 ∷ []) ∷ [])

-- Two messages are sent, and the second is received past the first.
past_the_first : Run memory 7 empty one_left ((3, 1 ∷ []) ∷ (5, 2 ∷ []) ∷ []) ((5, 2 ∷ []) ∷ [])
unfolding mq_send mq_receive
past_the_first =
    receives 5 4 false (2 ∷ []) (sends 5 (2 ∷ []) (sends 3 (1 ∷ []) here refl) refl) (omega arith)
      refl

Run-of_type_example :
    of_type 5 ((3, 1 ∷ []) ∷ (5, 2 ∷ []) ∷ []) ≡ of_type 5 ((5, 2 ∷ []) ∷ []) ++ []
Run-of_type_example = Run-of_type memory memory-IsLawful 7 past_the_first 5

-- ===== src/Queue/Tests.antt =====
-- The theorems on the ring queue at a queue of three slots.
use mintos.Base.{ℕ, ◌≡◌, refl, List, [], ◌∷◌, arith}
use mintos.Queue.{Queue, initialize_queue}
use mintos.Queue.Holds.{Holds, initialize_queue-Holds}
use mintos.Queue.Refine.{Op, put_item, get_item, run_queue, run_fifo, run_queue-eq-run_fifo}

abbrev no_item : ℕ
no_item = 0

abbrev empty_three : Queue ℕ
empty_three = initialize_queue (0 ∷ 0 ∷ 0 ∷ []) 3

empty_three-Holds : Holds no_item empty_three []
empty_three-Holds =
    initialize_queue-Holds no_item (0 ∷ 0 ∷ 0 ∷ []) 3 refl (ground arith) (ground arith)

initialize_queue-Holds_example : Holds no_item empty_three []
initialize_queue-Holds_example =
    initialize_queue-Holds no_item (0 ∷ 0 ∷ 0 ∷ []) 3 refl (ground arith) (ground arith)

-- Fill the queue, try once too often, and read past its end.
abbrev calls : List (Op no_item)
calls =
    put_item 1
    ∷ put_item 2
    ∷ get_item
    ∷ put_item 3
    ∷ put_item 4
    ∷ put_item 5
    ∷ get_item
    ∷ get_item
    ∷ get_item
    ∷ get_item
    ∷ []

run_queue-eq-run_fifo_example : run_queue no_item calls empty_three ≡ run_fifo no_item 3 calls []
unfolding initialize_queue
run_queue-eq-run_fifo_example = run_queue-eq-run_fifo no_item calls empty_three [] empty_three-Holds

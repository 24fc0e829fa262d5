-- ===== src/Threading/Tests.antt =====
-- Runs of Src/Common/Threading/ProducerConsumerQueue.hpp and its worker on small inputs.
use game_project_demo.Common.{
  ℕ, Bool, Option, ◌≡◌, refl, true, false, some, none, List, [], ◌∷◌, ◌++◌,
}
use game_project_demo.Threading.{
  ProducerConsumerQueue, Working, cancel, work_thread, work_on, work_with, wait_and_pop, take_front,
  operate,
}
use game_project_demo.Threading.Order.{
  Call, call_push, call_pop, call_wait, call_wait_into, taken, pushed, run_calls, taken_then_left,
}
use game_project_demo.Threading.Shutdown.{
  turn_push, turn_worker, take_turn, take_turns, joined, cancelled_worker_lem,
}

abbrev filled : ProducerConsumerQueue ℕ
filled = record { queue = 1 ∷ 2 ∷ []; shutdown = false }

abbrev calls : List (Call ℕ)
calls = call_push 3 ∷ call_pop ∷ call_wait_into ∷ call_wait ∷ call_push 4 ∷ []

taken_then_left_example :
    taken 0 calls filled ++ (run_calls 0 calls filled).queue ≡ (1 ∷ 2 ∷ []) ++ pushed calls
taken_then_left_example = taken_then_left 0 calls filled

abbrev never_throws : ℕ → Bool
never_throws task = false

-- A worker that sleeps, with a task that was just pushed.
abbrev busy : Working ℕ
busy = record {
  worker = record { canceling = false; running = true; executed = 7 ∷ []; operation = none };
  tasks = record { queue = some 1 ∷ []; shutdown = false };
}

abbrev holds_nothing : Option (Option ℕ)
holds_nothing = none

cancelled_worker_lem_example :
    ((take_turns never_throws
        (turn_worker ∷ turn_push none ∷ turn_worker ∷ [])
        (joined never_throws (turn_push (some 2) ∷ []) busy)).worker.executed
      ≡ 7 ∷ [])
    × (holds_nothing ≡ none
        → (take_turns never_throws
            (turn_worker ∷ turn_push none ∷ turn_worker ∷ [])
            (joined never_throws (turn_push (some 2) ∷ []) busy)).worker.running
          ≡ true)
    × ((o : Option ℕ)
        → holds_nothing ≡ some o
        → (take_turn never_throws turn_worker
            (joined never_throws (turn_push (some 2) ∷ []) busy)).worker.running
          ≡ false)
unfolding take_turn take_turns cancel
cancelled_worker_lem_example =
    cancelled_worker_lem never_throws (turn_push (some 2) ∷ [])
      (turn_worker ∷ turn_push none ∷ turn_worker ∷ []) busy refl

-- The thread takes the task after the flag is set and before the queue is cleared: its next step ends it.
taken_between :
    (take_turns never_throws
      (turn_worker ∷ [])
      (joined never_throws (turn_worker ∷ []) busy)).worker.running
    ≡ false
unfolding take_turn take_turns cancel work_thread work_on work_with wait_and_pop take_front operate
taken_between = refl

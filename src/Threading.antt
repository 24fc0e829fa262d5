-- ===== src/Threading.antt =====
-- Src/Common/Threading/ProducerConsumerQueue.hpp, and its reader in
-- Src/Common/Database/DatabaseWorker.h and DatabaseWorker.cpp. Every member of the queue holds the
-- lock from its start to its end, except while it waits on the condition: so a run is a sequence of
-- whole calls, and a call that waits is tried again each time that it is woken.
pub mod Order
pub mod Work
pub mod Shutdown
mod Tests
use game_project_demo.Common.{
  ℕ, Bool, true, false, not, ◌&&◌, ◌||◌, Option, none, some, List, [], ◌∷◌, ◌++◌, if◌then◌else◌,
  length,
}

pub record ProducerConsumerQueue (A : Type 0) : Type 0 where
  pub queue : List A
  pub shutdown : Bool

unfoldable pub new_queue : {A : Type 0} → ProducerConsumerQueue A
new_queue = record { queue = []; shutdown = false }

abbrev pub is_empty : {A : Type 0} → List A → Bool
is_empty [] = true
is_empty (a ∷ rest) = false

unfoldable pub push : {A : Type 0} → A → ProducerConsumerQueue A → ProducerConsumerQueue A
push value q = record q { queue = q.queue ++ value ∷ [] }

abbrev pub empty : {A : Type 0} → ProducerConsumerQueue A → Bool
empty q = is_empty q.queue

abbrev pub size : {A : Type 0} → ProducerConsumerQueue A → ℕ
size q = length q.queue

-- What a call that takes a value gives: `asleep` while the condition it waits for does not hold,
-- `returned none` when it leaves the caller's value as it was.
pub data Taken (A : Type 0) : Type 0 where
  asleep : Taken A
  returned : Option A → ProducerConsumerQueue A → Taken A

-- The part that `Pop` and the two `WaitAndPop` share, with the queue's list at hand.
unfoldable pub take_front : {A : Type 0} → List A → Option A → ProducerConsumerQueue A → Taken A
take_front [] missing q = returned missing q
take_front (value ∷ rest) missing q =
    if q.shutdown then returned missing q else returned (some value) (record q { queue = rest })

-- `bool Pop(T &)`: `returned none` is the result false.
unfoldable pub pop : {A : Type 0} → ProducerConsumerQueue A → Taken A
pop q = take_front q.queue none q

-- `void WaitAndPop(T &)`.
unfoldable pub wait_and_pop_into : {A : Type 0} → ProducerConsumerQueue A → Taken A
wait_and_pop_into q = if empty q && not q.shutdown then take_front q.queue none q else asleep

-- `T WaitAndPop()`, with the value of `T{}`.
unfoldable pub wait_and_pop : {A : Type 0} → A → ProducerConsumerQueue A → Taken A
wait_and_pop value q =
    if not (empty q) && not q.shutdown then take_front q.queue (some value) q else asleep

-- A queue of pointers deletes what they point to; nothing else of the state is changed by it.
unfoldable pub clear : {A : Type 0} → ProducerConsumerQueue A → ProducerConsumerQueue A
clear q = record { queue = []; shutdown = true }

-- `DatabaseWorker`, with the tasks that it has executed; a task is `none` for a null pointer. `operation` is what
-- `WaitAndPop` has given to the thread and the thread has not looked at yet.
pub record DatabaseWorker (Task : Type 0) : Type 0 where
  pub canceling : Bool
  pub running : Bool
  pub executed : List Task
  pub operation : Option (Option Task)

unfoldable pub new_worker : {Task : Type 0} → DatabaseWorker Task
new_worker = record { canceling = false; running = true; executed = []; operation = none }

-- A worker and the queue that it reads.
pub record Working (Task : Type 0) : Type 0 where
  pub worker : DatabaseWorker Task
  pub tasks : ProducerConsumerQueue (Option Task)

-- What the thread does with the result of `WaitAndPop`.
unfoldable pub work_with : {Task : Type 0} → Taken (Option Task) → Working Task → Working Task
work_with asleep s = s
work_with (returned none q) s = record s { tasks = q }
work_with (returned (some operation) q) s = record {
  worker = record s.worker { operation = some operation };
  tasks = q;
}

module _ {Task : Type 0} (throws : Task → Bool) where
  -- The loop behind `WaitAndPop`; a task that throws ends the thread.
  unfoldable pub operate : Option Task → DatabaseWorker Task → DatabaseWorker Task
  operate none w = record w { running = false; operation = none }
  operate (some task) w =
      if w.canceling then record w { running = false; operation = none } else record w {
        running = not (throws task);
        executed = w.executed ++ task ∷ [];
        operation = none;
      }

  unfoldable pub work_on : Option (Option Task) → Working Task → Working Task
  work_on none s = work_with (wait_and_pop none s.tasks) s
  work_on (some operation) s = record s { worker = operate operation s.worker }

  -- A step of `WorkThread`, of two for each turn of its loop: `WaitAndPop`, and what follows it. Other threads may
  -- come in between.
  unfoldable pub work_thread : Working Task → Working Task
  work_thread s = if s.worker.running then work_on s.worker.operation s else s

-- `~DatabaseWorker` sets its flag; `clear` of the queue is its second step. `join` returns once the thread has ended.
unfoldable pub cancel : {Task : Type 0} → Working Task → Working Task
cancel s = record s { worker = record s.worker { canceling = true } }

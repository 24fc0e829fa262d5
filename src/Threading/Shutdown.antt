-- ===== src/Threading/Shutdown.antt =====
-- `Clear` of Src/Common/Threading/ProducerConsumerQueue.hpp and the destructor of
-- Src/Common/Database/DatabaseWorker.cpp.
use game_project_demo.Common.{
  ◌≡◌, refl, sym, subst, Bool, true, false, if-true, if-false, Bool-cases, inl, inr, Option, none,
  some, List, [], ◌∷◌,
}
use game_project_demo.Threading.{
  Taken, asleep, returned, push, wait_and_pop, clear, DatabaseWorker, Working, operate, work_with,
  work_on, work_thread, cancel,
}
use mathlib.Core.Bool.{false≢true}

wait-shut :
    {A : Type 0} (default : A) (xs : List A) (b : Bool)
    → b ≡ true
    → wait_and_pop default (record { queue = xs; shutdown = b }) ≡ asleep
unfolding wait_and_pop
wait-shut default [] b e = refl
wait-shut default (x ∷ xs) true e = refl
wait-shut default (x ∷ xs) false e = absurd (false≢true e)

-- The steps of a program around one worker: calls of the queue by others, the two steps of the destructor, and the
-- steps of the thread.
pub data Turn (Task : Type 0) : Type 0 where
  turn_push : Option Task → Turn Task
  turn_clear turn_cancel turn_worker : Turn Task

module _ {Task : Type 0} (throws : Task → Bool) where
  unfoldable pub take_turn : Turn Task → Working Task → Working Task
  take_turn (turn_push t) s = record s { tasks = push t s.tasks }
  take_turn turn_clear s = record s { tasks = clear s.tasks }
  take_turn turn_cancel s = cancel s
  take_turn turn_worker s = work_thread throws s

  unfoldable pub take_turns : List (Turn Task) → Working Task → Working Task
  take_turns [] s = s
  take_turns (t ∷ ts) s = take_turns ts (take_turn t s)

  -- A worker that sleeps at a queue that is shut down.
  record Stuck (s : Working Task) : Type 0 where
    shut : s.tasks.shutdown ≡ true
    waiting : s.worker.running ≡ true
    nothing : s.worker.operation ≡ none

  work_thread-Stuck : (s : Working Task) → Stuck s → work_thread throws s ≡ s
  unfolding work_thread work_on work_with
  work_thread-Stuck s h =
      rw (h.waiting, h.nothing, wait-shut none s.tasks.queue s.tasks.shutdown h.shut) refl

  take_turn-Stuck : (t : Turn Task) (s : Working Task) → Stuck s → Stuck (take_turn t s)
  unfolding take_turn push clear cancel
  take_turn-Stuck (turn_push t) s h = record {
    shut = h.shut;
    waiting = h.waiting;
    nothing = h.nothing;
  }
  take_turn-Stuck turn_clear s h = record { shut = refl; waiting = h.waiting; nothing = h.nothing }
  take_turn-Stuck turn_cancel s h = record {
    shut = h.shut;
    waiting = h.waiting;
    nothing = h.nothing;
  }
  take_turn-Stuck turn_worker s h = subst Stuck (sym (work_thread-Stuck s h)) h

  take_turns-Stuck : (ts : List (Turn Task)) (s : Working Task) → Stuck s → Stuck (take_turns ts s)
  unfolding take_turns
  take_turns-Stuck [] s h = h
  take_turns-Stuck (t ∷ ts) s h = take_turns-Stuck ts (take_turn t s) (take_turn-Stuck t s h)

  -- Of a worker whose destructor runs: it has executed these tasks, and executes no other.
  record Ceased (done : List Task) (s : Working Task) : Type 0 where
    flag : s.worker.canceling ≡ true
    same : s.worker.executed ≡ done

  operate-Ceased :
      (done : List Task) (o : Option Task) (s : Working Task)
      → Ceased done s
      → Ceased done (record s { worker = operate throws o s.worker })
  unfolding operate
  operate-Ceased done none s h = record { flag = h.flag; same = h.same }
  operate-Ceased done (some task) s h = rw h.flag (record { flag = refl; same = h.same })

  with-Ceased :
      (done : List Task) (r : Taken (Option Task)) (s : Working Task)
      → Ceased done s
      → Ceased done (work_with r s)
  unfolding work_with
  with-Ceased done asleep s h = h
  with-Ceased done (returned none q) s h = record { flag = h.flag; same = h.same }
  with-Ceased done (returned (some o) q) s h = record { flag = h.flag; same = h.same }

  on-Ceased :
      (done : List Task) (o : Option (Option Task)) (s : Working Task)
      → Ceased done s
      → Ceased done (work_on throws o s)
  unfolding work_on
  on-Ceased done none s h = with-Ceased done (wait_and_pop none s.tasks) s h
  on-Ceased done (some o) s h = operate-Ceased done o s h

  take_turn-Ceased :
      (done : List Task) (t : Turn Task) (s : Working Task)
      → Ceased done s
      → Ceased done (take_turn t s)
  unfolding take_turn cancel work_thread
  take_turn-Ceased done (turn_push t) s h = record { flag = h.flag; same = h.same }
  take_turn-Ceased done turn_clear s h = record { flag = h.flag; same = h.same }
  take_turn-Ceased done turn_cancel s h = record { flag = refl; same = h.same }
  take_turn-Ceased done turn_worker s h = elim (Bool-cases s.worker.running) [
    | inl runs ↦
        subst (Ceased done) (sym (if-true _ _ _ runs)) (on-Ceased done s.worker.operation s h)
    | inr ended ↦ subst (Ceased done) (sym (if-false _ _ _ ended)) h
  ]

  take_turns-Ceased :
      (done : List Task) (ts : List (Turn Task)) (s : Working Task)
      → Ceased done s
      → Ceased done (take_turns ts s)
  unfolding take_turns
  take_turns-Ceased done [] s h = h
  take_turns-Ceased done (t ∷ ts) s h =
      take_turns-Ceased done ts (take_turn t s) (take_turn-Ceased done t s h)

  -- A worker that ends with what it holds.
  ends_holding :
      (o : Option Task) (w : DatabaseWorker Task)
      → w.canceling ≡ true
      → (operate throws o w).running ≡ false
  unfolding operate
  ends_holding none w flag = refl
  ends_holding (some task) w flag = rw flag refl

  -- The worker as `Clear` of the destructor finds it, after any steps behind the one that set the flag.
  abbrev pub joined : List (Turn Task) → Working Task → Working Task
  joined between s = take_turn turn_clear (take_turns between (take_turn turn_cancel s))

  pub cancelled_worker_lem :
      (between later : List (Turn Task)) (s : Working Task)
      → (joined between s).worker.running ≡ true
      → ((take_turns later (joined between s)).worker.executed ≡ s.worker.executed)
        × ((joined between s).worker.operation ≡ none
            → (take_turns later (joined between s)).worker.running ≡ true)
        × ((o : Option Task)
            → (joined between s).worker.operation ≡ some o
            → (take_turn turn_worker (joined between s)).worker.running ≡ false)
  unfolding take_turn work_thread work_on cancel clear
  cancelled_worker_lem between later s runs =
      let start : Ceased s.worker.executed (take_turn turn_cancel s) = record {
        flag = refl;
        same = refl;
      } in
      let before = take_turns-Ceased s.worker.executed between (take_turn turn_cancel s) start in
      let after =
        take_turn-Ceased s.worker.executed turn_clear (take_turns between (take_turn turn_cancel s))
          before in
      (
        (take_turns-Ceased s.worker.executed later (joined between s) after).same,
        λ nothing.
            (take_turns-Stuck later (joined between s)
              (record { shut = refl; waiting = runs; nothing = nothing })).waiting,
        λ o holds. rw (runs, holds) (ends_holding o (joined between s).worker after.flag),
      )

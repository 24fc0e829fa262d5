-- ===== src/Threading/Order.antt =====
-- The order of the values of Src/Common/Threading/ProducerConsumerQueue.hpp.
use game_project_demo.Common.{
  ◌≡◌, refl, sym, ◌∙◌, ap, ap₂, Bool, true, false, none, some, List, [], ◌∷◌, ◌++◌, append_assoc,
  append-nil,
}
use game_project_demo.Threading.{
  ProducerConsumerQueue, Taken, asleep, returned, push, take_front, pop, wait_and_pop,
  wait_and_pop_into,
}

-- The calls of a run without `Clear`.
pub data Call (A : Type 0) : Type 0 where
  call_push : A → Call A
  call_pop call_wait call_wait_into : Call A

unfoldable pub value_of : {A : Type 0} → Taken A → List A
value_of asleep = []
value_of (returned none q) = []
value_of (returned (some a) q) = a ∷ []

unfoldable pub queue_of : {A : Type 0} → Taken A → ProducerConsumerQueue A → ProducerConsumerQueue A
queue_of asleep q = q
queue_of (returned o r) q = r

abbrev pub taken_by : {A : Type 0} → A → Call A → ProducerConsumerQueue A → Taken A
taken_by default (call_push a) q = asleep
taken_by default call_pop q = pop q
taken_by default call_wait q = wait_and_pop default q
taken_by default call_wait_into q = wait_and_pop_into q

abbrev pub pushed_by : {A : Type 0} → Call A → List A
pushed_by (call_push a) = a ∷ []
pushed_by call_pop = []
pushed_by call_wait = []
pushed_by call_wait_into = []

abbrev pub after_call :
    {A : Type 0} → A → Call A → ProducerConsumerQueue A → ProducerConsumerQueue A
after_call default (call_push a) q = push a q
after_call default call_pop q = queue_of (pop q) q
after_call default call_wait q = queue_of (wait_and_pop default q) q
after_call default call_wait_into q = queue_of (wait_and_pop_into q) q

unfoldable pub run_calls :
    {A : Type 0} → A → List (Call A) → ProducerConsumerQueue A → ProducerConsumerQueue A
run_calls default [] q = q
run_calls default (c ∷ cs) q = run_calls default cs (after_call default c q)

-- What the calls of a run took, and what they pushed, in order.
unfoldable pub taken : {A : Type 0} → A → List (Call A) → ProducerConsumerQueue A → List A
taken default [] q = []
taken default (c ∷ cs) q =
    value_of (taken_by default c q) ++ taken default cs (after_call default c q)

unfoldable pub pushed : {A : Type 0} → List (Call A) → List A
pushed [] = []
pushed (c ∷ cs) = pushed_by c ++ pushed cs

take_front-kept :
    {A : Type 0} (xs : List A) (b : Bool)
    → value_of (take_front xs none (record { queue = xs; shutdown = b }))
        ++ (queue_of
            (take_front xs none (record { queue = xs; shutdown = b }))
            (record { queue = xs; shutdown = b })).queue
      ≡ xs
unfolding take_front value_of queue_of
take_front-kept [] b = refl
take_front-kept (x ∷ xs) true = refl
take_front-kept (x ∷ xs) false = refl

wait-kept :
    {A : Type 0} (default : A) (xs : List A) (b : Bool)
    → value_of (wait_and_pop default (record { queue = xs; shutdown = b }))
        ++ (queue_of
            (wait_and_pop default (record { queue = xs; shutdown = b }))
            (record { queue = xs; shutdown = b })).queue
      ≡ xs
unfolding wait_and_pop take_front value_of queue_of
wait-kept default [] b = refl
wait-kept default (x ∷ xs) true = refl
wait-kept default (x ∷ xs) false = refl

into-kept :
    {A : Type 0} (xs : List A) (b : Bool)
    → (value_of (wait_and_pop_into (record { queue = xs; shutdown = b })) ≡ [])
      × ((queue_of
            (wait_and_pop_into (record { queue = xs; shutdown = b }))
            (record { queue = xs; shutdown = b })).queue
          ≡ xs)
unfolding wait_and_pop_into take_front value_of queue_of
into-kept [] true = (refl, refl)
into-kept [] false = (refl, refl)
into-kept (x ∷ xs) b = (refl, refl)

call-kept :
    {A : Type 0} (default : A) (c : Call A) (q : ProducerConsumerQueue A)
    → value_of (taken_by default c q) ++ (after_call default c q).queue ≡ q.queue ++ pushed_by c
unfolding value_of push pop
call-kept default (call_push a) q = refl
call-kept default call_pop q = take_front-kept q.queue q.shutdown ∙ sym (append-nil q.queue)
call-kept default call_wait q = wait-kept default q.queue q.shutdown ∙ sym (append-nil q.queue)
call-kept default call_wait_into q =
    let (none_taken, same) = into-kept q.queue q.shutdown in
    ap₂ ◌++◌ none_taken same ∙ sym (append-nil q.queue)

-- In a run of any calls but `Clear`, by any threads, the values that were taken and then those that
-- are left are the values that were there and then those that were pushed, in order: a value is
-- taken once, in its turn, and none is lost.
pub taken_then_left :
    {A : Type 0} (default : A) (cs : List (Call A)) (q : ProducerConsumerQueue A)
    → taken default cs q ++ (run_calls default cs q).queue ≡ q.queue ++ pushed cs
unfolding taken run_calls pushed
taken_then_left default [] q = sym (append-nil q.queue)
taken_then_left default (c ∷ cs) q =
    append_assoc (value_of (taken_by default c q)) (taken default cs (after_call default c q))
      (run_calls default cs (after_call default c q)).queue
    ∙ ap (◌++◌ (value_of (taken_by default c q)))
        (taken_then_left default cs (after_call default c q))
    ∙ sym
        (append_assoc (value_of (taken_by default c q)) (after_call default c q).queue (pushed cs))
    ∙ ap (λ t. t ++ pushed cs) (call-kept default c q)
    ∙ append_assoc q.queue (pushed_by c) (pushed cs)

-- ===== src/Async.antt =====
-- Src/Common/Util/AsyncCallbackProcessor.h and the two kinds of callback that it runs:
-- `QueryCallback` of Src/Common/Database/QueryCallback.h and QueryCallback.cpp, and
-- `TransactionCallback` of Src/Common/Database/Transaction.h and Transaction.cpp.
-- A `std::function` is its number; what it does to the processor, the callbacks that it adds, is an
-- argument. `none` is undefined behaviour or a failed `Assert`.
pub mod Order
pub mod Moves
mod Tests
use game_project_demo.Common.{
  ℕ, Bool, true, false, not, ◌&&◌, ◌||◌, Option, none, some, List, [], ◌∷◌, ◌++◌, if◌then◌else◌,
  ◌>>=◌,
}

-- `std::future` with what `wait_for(0s)` says: `invalid` has no shared state.
pub data Future (A : Type 0) : Type 0 where
  invalid pending : Future A
  ready : A → Future A

-- What `InvokeIfReady` gives: its result, the callback afterwards, and the callbacks that were added
-- to the processor meanwhile, in order.
pub record Invoked (C : Type 0) : Type 0 where
  pub complete : Bool
  pub rest : C
  pub added : List C

-- What the processor needs of its callbacks. A move gives the new object and what is left of the old
-- one; `move_assign target source` the same for `target = std::move(source)`.
pub record AsyncCallback (C : Type 0) : Type 0 where
  pub move_construct : C → C × C
  pub move_assign : C → C → C × C
  pub invoke_if_ready : C → Option (Invoked C)

-- `emplace_back(std::move(callback))`; the moves of the others when the vector grows are left out.
unfoldable pub add_callback : {C : Type 0} → AsyncCallback C → C → List C → List C
add_callback i callback callbacks = callbacks ++ (i.move_construct callback).0 ∷ []

-- How far `std::remove_if` has come: what it keeps, the objects behind that which are to be
-- overwritten (none until the first one is removed), and what was added.
pub record Removing (C : Type 0) : Type 0 where
  pub kept : List C
  pub holes : List C
  pub added : List C

-- An object that stays: it is moved to the first hole, if there is one.
unfoldable pub keep_in : {C : Type 0} → AsyncCallback C → List C → C → Removing C → Removing C
keep_in i [] c r = record r { kept = r.kept ++ c ∷ [] }
keep_in i (hole ∷ holes) c r =
    let moved = i.move_assign hole c in
    record r { kept = r.kept ++ moved.0 ∷ []; holes = holes ++ moved.1 ∷ [] }

unfoldable pub place : {C : Type 0} → AsyncCallback C → Invoked C → Removing C → Removing C
place i v r =
    let r' : Removing _ = record r { added = r.added ++ v.added } in
    if v.complete
    then record r' { holes = r'.holes ++ v.rest ∷ [] }
    else keep_in i r'.holes v.rest r'

unfoldable pub remove_if :
    {C : Type 0} → AsyncCallback C → List C → Removing C → Option (Removing C)
remove_if i [] r = some r
remove_if i (c ∷ cs) r = do v ← i.invoke_if_ready c; remove_if i cs (place i v r)

unfoldable pub move_all : {C : Type 0} → AsyncCallback C → List C → List C
move_all i [] = []
move_all i (c ∷ cs) = (i.move_construct c).0 ∷ move_all i cs

-- The vector is moved as a whole, so its elements are not; those that are kept are moved back, one by
-- one, behind the callbacks that were added meanwhile.
unfoldable pub process_ready_callbacks : {C : Type 0} → AsyncCallback C → List C → Option (List C)
process_ready_callbacks i [] = some []
process_ready_callbacks i (c ∷ cs) = do
  r ← remove_if i (c ∷ cs) (record { kept = []; holes = []; added = [] })
  some (r.added ++ move_all i r.kept)

-- `TransactionCallback`, whose `std::function` is `none` when it is empty.
pub record TransactionCallback : Type 0 where
  pub future : Future Bool
  pub callback : Option ℕ

abbrev pub new_transaction_callback : Future Bool → TransactionCallback
new_transaction_callback future = record { future = future; callback = none }

-- `Then`.
unfoldable pub transaction_then : ℕ → TransactionCallback → TransactionCallback
transaction_then callback t = record t { callback = some callback }

-- What the functions do, by their numbers and their argument: which callbacks they add.
abbrev pub Effects : Type 0 → Type 0 → Type 0
Effects C A = ℕ → A → List C

-- The call of the function; an empty one throws.
unfoldable pub transaction_call :
    Effects TransactionCallback Bool
    → Option ℕ
    → Bool
    → TransactionCallback
    → Option (Invoked TransactionCallback)
transaction_call run none result t = none
transaction_call run (some callback) result t =
    some (record {
      complete = true;
      rest = record t { future = invalid };
      added = run callback result;
    })

unfoldable pub transaction_when :
    Effects TransactionCallback Bool
    → Future Bool
    → TransactionCallback
    → Option (Invoked TransactionCallback)
transaction_when run invalid t = some (record { complete = false; rest = t; added = [] })
transaction_when run pending t = some (record { complete = false; rest = t; added = [] })
transaction_when run (ready result) t = transaction_call run t.callback result t

-- `TransactionCallback::InvokeIfReady`.
unfoldable pub transaction_invoke_if_ready :
    Effects TransactionCallback Bool → TransactionCallback → Option (Invoked TransactionCallback)
transaction_invoke_if_ready run t = transaction_when run t.future t

-- Its moves are the compiler's, which take both members.
unfoldable pub transaction_callbacks :
    Effects TransactionCallback Bool → AsyncCallback TransactionCallback
transaction_callbacks run = record {
  move_construct = λ t. (t, record { future = invalid; callback = none });
  move_assign = λ target source. (source, record { future = invalid; callback = none });
  invoke_if_ready = transaction_invoke_if_ready run;
}

-- `QueryCallback` with results of type `R`; a function is kept with the kind of result it takes.
pub record QueryCallback (R : Type 0) : Type 0 where
  pub future : Future R
  pub is_prepared_result : Bool
  pub callbacks : List (Bool × ℕ)

abbrev pub new_query_callback : {R : Type 0} → Bool → Future R → QueryCallback R
new_query_callback prepared future = record {
  future = future;
  is_prepared_result = prepared;
  callbacks = [];
}

abbrev pub has_none : {A : Type 0} → List A → Bool
has_none [] = true
has_none (a ∷ rest) = false

-- The two overloads of `Then`, by the kind of result that the function takes.
unfoldable pub query_then : {R : Type 0} → Bool → ℕ → QueryCallback R → Option (QueryCallback R)
query_then true callback q =
    if not (has_none q.callbacks) || q.is_prepared_result
    then some (record q { callbacks = q.callbacks ++ (true, callback) ∷ [] })
    else none
query_then false callback q =
    if not (has_none q.callbacks) || not q.is_prepared_result
    then some (record q { callbacks = q.callbacks ++ (false, callback) ∷ [] })
    else none

abbrev pub same_kind : Bool → Bool → Bool
same_kind true b = b
same_kind false b = not b

-- The call of the first function, which has to take the result's kind; it is dropped afterwards, and
-- the callback is complete once none is left.
unfoldable pub query_call :
    {R : Type 0}
    → Effects (QueryCallback R) R
    → Bool × ℕ
    → List (Bool × ℕ)
    → R
    → QueryCallback R
    → Option (Invoked (QueryCallback R))
query_call run (kind, callback) rest result q =
    if same_kind kind q.is_prepared_result
    then some (record {
      complete = has_none rest;
      rest = record q { future = invalid; callbacks = rest };
      added = run callback result;
    })
    else none

unfoldable pub query_when :
    {R : Type 0}
    → Effects (QueryCallback R) R
    → List (Bool × ℕ)
    → Future R
    → QueryCallback R
    → Option (Invoked (QueryCallback R))
query_when run [] future q = none
query_when run (c ∷ cs) invalid q = some (record { complete = false; rest = q; added = [] })
query_when run (c ∷ cs) pending q = some (record { complete = false; rest = q; added = [] })
query_when run (c ∷ cs) (ready result) q = query_call run c cs result q

-- `QueryCallback::InvokeIfReady`, which binds the first function before all else.
unfoldable pub query_invoke_if_ready :
    {R : Type 0}
    → Effects (QueryCallback R) R
    → QueryCallback R
    → Option (Invoked (QueryCallback R))
query_invoke_if_ready run q = query_when run q.callbacks q.future q

-- The move constructor takes the future and the kind; the functions stay where they are.
unfoldable pub query_move_construct :
    {R : Type 0} → QueryCallback R → QueryCallback R × QueryCallback R
query_move_construct right = (
  record { future = right.future; is_prepared_result = right.is_prepared_result; callbacks = [] },
  record right { future = invalid },
)

-- So does the move assignment, and those of the target stay too.
unfoldable pub query_move_assign :
    {R : Type 0} → QueryCallback R → QueryCallback R → QueryCallback R × QueryCallback R
query_move_assign target right = (
  record target { future = right.future; is_prepared_result = right.is_prepared_result },
  record right { future = invalid },
)

unfoldable pub query_callbacks :
    {R : Type 0} → Effects (QueryCallback R) R → AsyncCallback (QueryCallback R)
query_callbacks run = record {
  move_construct = query_move_construct;
  move_assign = query_move_assign;
  invoke_if_ready = query_invoke_if_ready run;
}

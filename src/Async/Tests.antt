-- ===== src/Async/Tests.antt =====
-- Runs of Src/Common/Util/AsyncCallbackProcessor.h with both kinds of callback.
use game_project_demo.Common.{
  ℕ, zero, suc, refl, ◌≡◌, Bool, true, false, some, none, List, [], ◌∷◌, ◌++◌,
}
use game_project_demo.Async.{
  Future, pending, ready, TransactionCallback, transaction_callbacks, process_ready_callbacks,
  QueryCallback, query_callbacks, Effects, remove_if, query_invoke_if_ready, query_when, query_call,
  place, keep_in, move_all, query_move_construct, query_move_assign,
}
use game_project_demo.Async.Order.{with_functions, still_waiting, added_by, process_transactions}
use game_project_demo.Async.Moves.{waiting_query_is_lost}

-- Function 1 adds a callback with function 5; the others add none.
abbrev effects : Effects TransactionCallback Bool
effects (suc zero) b = record { future = pending; callback = some 5 } ∷ []
effects zero b = []
effects (suc (suc n)) b = []

abbrev round : List (Future Bool × ℕ)
round = (pending, 0) ∷ (ready true, 1) ∷ (pending, 2) ∷ (ready false, 3) ∷ []

process_transactions_example :
    process_ready_callbacks (transaction_callbacks effects) (with_functions round)
    ≡ some (added_by effects round ++ with_functions (still_waiting round))
process_transactions_example = process_transactions effects round

abbrev no_effects : Effects (QueryCallback ℕ) ℕ
no_effects n r = []

-- One that waits behind one whose result is there.
abbrev waiting : QueryCallback ℕ
waiting = record { future = pending; is_prepared_result = false; callbacks = (false, 7) ∷ [] }

abbrev answered : QueryCallback ℕ
answered = record { future = ready 1; is_prepared_result = false; callbacks = (false, 5) ∷ [] }

waiting_query_is_lost_example :
    process_ready_callbacks
      (query_callbacks no_effects)
      (record answered { future = pending; callbacks = [] } ∷ [])
    ≡ none
unfolding process_ready_callbacks query_callbacks remove_if query_invoke_if_ready query_when
    query_call place keep_in move_all query_move_construct query_move_assign
waiting_query_is_lost_example =
    waiting_query_is_lost no_effects (answered ∷ []) [] _ waiting refl refl

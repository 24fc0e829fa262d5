-- ===== src/Buffer/Tests.antt =====
-- Runs of Src/Common/Net/Buffer.hpp on small inputs.
use game_project_demo.Common.{◌≡◌, refl, some, none, List, [], ◌∷◌, arith}
use game_project_demo.Buffer.{
  Buffer, copy_in, copy_out, make_space, ensure_writable_bytes, write, adjustment, read,
}
use game_project_demo.Buffer.Invariant.{IsValid}
use game_project_demo.Buffer.Refine.{Op, put, get, run, run_queue, run_refines}

-- "abc" with "a" read, in a vector of four.
abbrev started : Buffer
started = record { read_index = 1; write_index = 3; buffer = 97 ∷ 98 ∷ 99 ∷ 0 ∷ [] }

started-IsValid : IsValid started
started-IsValid = omega arith

abbrev script : List Op
script = put (1 ∷ 2 ∷ []) ∷ get 3 ∷ get 1 ∷ []

write-started :
    write (1 ∷ 2 ∷ []) started
    ≡ some (record { read_index = 1; write_index = 5; buffer = 97 ∷ 98 ∷ 99 ∷ 1 ∷ 2 ∷ [] })
unfolding write ensure_writable_bytes make_space copy_in
write-started = refl

run-started : run script started ≡ some ((98 ∷ 99 ∷ 1 ∷ []) ∷ (2 ∷ []) ∷ [])
unfolding run write read ensure_writable_bytes make_space copy_in copy_out adjustment
run-started = refl

read_too_much-started : read 3 started ≡ none
unfolding read
read_too_much-started = refl

run_refines_example : run script started ≡ run_queue script (98 ∷ 99 ∷ [])
run_refines_example = run_refines script started started-IsValid (omega arith)

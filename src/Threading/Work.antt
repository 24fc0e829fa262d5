-- ===== src/Threading/Work.antt =====
-- A worker at its queue: the loop of `DatabaseWorker::WorkThread`, Src/Common/Database/DatabaseWorker.cpp.
use game_project_demo.Common.{true, false, Option, none, some, List, [], ◌∷◌}
use game_project_demo.Threading.{Working}

abbrev pub as_pointers : {Task : Type 0} → List Task → List (Option Task)
as_pointers [] = []
as_pointers (t ∷ ts) = some t ∷ as_pointers ts

-- A worker that runs, with the tasks that wait for it.
abbrev pub at_work : {Task : Type 0} → List Task → List Task → Working Task
at_work done ts = record {
  worker = record { canceling = false; running = true; executed = done; operation = none };
  tasks = record { queue = as_pointers ts; shutdown = false };
}

-- ===== src/Buffer/Refine.antt =====
-- A sequence of writes and reads of Src/Common/Net/Buffer.hpp against a queue of bytes.
use game_project_demo.Common.{
  ◌>>=◌, ℕ, ◌+◌, ◌<◌, ◌≡◌, refl, Option, none, some, List, [], ◌∷◌, ◌++◌, length, take, drop, Bytes,
  arith, leb, tests, if◌then◌else◌, Bool-cases, inl, inr,
}
use game_project_demo.Buffer.{Buffer, size_mod, readable_bytes, write, read}
use game_project_demo.Buffer.Invariant.{IsValid, contents, length-contents}
use game_project_demo.Buffer.Fifo.{write_lem}
use game_project_demo.Buffer.Reads.{read_lem, read_too_much}

pub data Op : Type 0 where
  put : Bytes → Op
  get : ℕ → Op

-- What the reads of a client give, in order; `none` once a call fails.
unfoldable pub run : List Op → Buffer → Option (List Bytes)
run [] b = some []
run (put xs ∷ ops) b = do c ← write xs b; run ops c
run (get n ∷ ops) b = do out ← read n b; outs ← run ops out.1; some (out.0 ∷ outs)

-- The same calls on a queue of bytes that has no indices and no vector.
pub run_queue : List Op → Bytes → Option (List Bytes)
run_queue [] q = some []
run_queue (put xs ∷ ops) q = run_queue ops (q ++ xs)
run_queue (get n ∷ ops) q =
    if leb n (length q) then (do outs ← run_queue ops (drop n q); some (take n q ∷ outs)) else none

abbrev pub total_put : List Op → ℕ
total_put [] = 0
total_put (put xs ∷ ops) = length xs + total_put ops
total_put (get n ∷ ops) = total_put ops

-- Whatever the calls, a valid buffer gives the answers of the queue of its contents, failures
-- included, as long as all that is written stays addressable.
pub run_refines :
    (ops : List Op) (b : Buffer)
    → IsValid b
    → b.write_index + total_put ops < size_mod
    → run ops b ≡ run_queue ops (contents b)
unfolding run run_queue
run_refines [] b v h = refl
run_refines (put xs ∷ ops) b v h =
    let (c, done, valid, appended, written) = write_lem xs b v (omega arith) in
    rw (done, run_refines ops c valid (omega (arith, written)), appended)
run_refines (get n ∷ ops) b v h = elim (Bool-cases (leb n (readable_bytes b))) [
  | inl there ↦
      let (c, done, _, _, valid, rest, written) = read_lem n b v (omega tests) in
      rw (done, run_refines ops c valid (omega arith), rest, length-contents v, there)
  | inr short ↦
      let (failed, _) = read_too_much n b (omega tests) in rw (failed, length-contents v, short)
]

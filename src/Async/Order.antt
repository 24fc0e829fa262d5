-- ===== src/Async/Order.antt =====
-- `AsyncCallbackProcessor::ProcessReadyCallbacks` for callbacks that a move takes whole, as
-- `TransactionCallback` of Src/Common/Database/Transaction.h.
use game_project_demo.Common.{
  ℕ, ◌≡◌, refl, sym, ◌∙◌, ap, ap₂, Bool, true, false, Bool-cases, inl, inr, Option, some,
  >>=-eq-some, ◌>>=◌, List, [], ◌∷◌, ◌++◌, if◌then◌else◌, append_assoc, append-nil,
}
use game_project_demo.Async.{
  Future, invalid, pending, ready, Invoked, AsyncCallback, Removing, keep_in, place, remove_if,
  move_all, process_ready_callbacks, TransactionCallback, transaction_callbacks, Effects,
  transaction_invoke_if_ready, transaction_when, transaction_call,
}

-- A callback once: what `InvokeIfReady` gave for each of a list.
unfoldable pub invoke_all : {C : Type 0} → AsyncCallback C → List C → Option (List (Invoked C))
invoke_all i [] = some []
invoke_all i (c ∷ cs) = do v ← i.invoke_if_ready c; vs ← invoke_all i cs; some (v ∷ vs)

-- The callbacks that were added, and those that are not complete, each in order.
unfoldable pub all_added : {C : Type 0} → List (Invoked C) → List C
all_added [] = []
all_added (v ∷ vs) = v.added ++ all_added vs

unfoldable pub incomplete : {C : Type 0} → List (Invoked C) → List C
incomplete [] = []
incomplete (v ∷ vs) = if v.complete then incomplete vs else v.rest ∷ incomplete vs

module _ {C : Type 0} (i : AsyncCallback C) (constructs : (c : C) → (i.move_construct c).0 ≡ c)
    (assigns : (t c : C) → (i.move_assign t c).0 ≡ c) where
  keep_in-kept :
      (holes : List C) (c : C) (r : Removing C)
      → ((keep_in i holes c r).kept ≡ r.kept ++ c ∷ []) × ((keep_in i holes c r).added ≡ r.added)
  unfolding keep_in
  keep_in-kept [] c r = (refl, refl)
  keep_in-kept (hole ∷ holes) c r = (ap (λ x. r.kept ++ x ∷ []) (assigns hole c), refl)

  place-lists :
      (v : Invoked C) (vs : List (Invoked C)) (r : Removing C)
      → ((place i v r).kept ++ incomplete vs ≡ r.kept ++ incomplete (v ∷ vs))
        × ((place i v r).added ++ all_added vs ≡ r.added ++ all_added (v ∷ vs))
  unfolding place incomplete all_added
  place-lists v vs r = elim (Bool-cases v.complete) [
    | inl done ↦ rw done (refl, append_assoc r.added v.added (all_added vs))
    | inr waits ↦
        let r' : Removing C = record r { added = r.added ++ v.added } in
        let (kept, added) = keep_in-kept r.holes v.rest r' in
        rw waits (
          ap (λ t. t ++ incomplete vs) kept ∙ append_assoc r.kept (v.rest ∷ []) (incomplete vs),
          ap (λ t. t ++ all_added vs) added ∙ append_assoc r.added v.added (all_added vs),
        )
  ]

  remove_if-lists :
      (cs : List C) (vs : List (Invoked C)) (r : Removing C)
      → invoke_all i cs ≡ some vs
      → (e : Removing C) × (remove_if i cs r ≡ some e)
        × (e.kept ≡ r.kept ++ incomplete vs)
        × (e.added ≡ r.added ++ all_added vs)
  unfolding invoke_all remove_if incomplete all_added
  remove_if-lists [] vs r ran =
      let e : [] ≡ vs = cc in
      (
        r,
        refl,
        sym (append-nil r.kept) ∙ ap (λ l. r.kept ++ incomplete l) e,
        sym (append-nil r.added) ∙ ap (λ l. r.added ++ all_added l) e,
      )
  remove_if-lists (c ∷ cs) vs r ran =
      let (v, invoked, ran1) = >>=-eq-some (i.invoke_if_ready c) _ ran in
      let (vs', others, ran2) = >>=-eq-some (invoke_all i cs) _ ran1 in
      let e : v ∷ vs' ≡ vs = cc in
      let (end, removed, kept, added) = remove_if-lists cs vs' (place i v r) others in
      let (kept', added') = place-lists v vs' r in
      (
        end,
        ap (λ o. o >>= (λ w. remove_if i cs (place i w r))) invoked ∙ removed,
        kept ∙ kept' ∙ ap (λ l. r.kept ++ incomplete l) e,
        added ∙ added' ∙ ap (λ l. r.added ++ all_added l) e,
      )

  move_all-same : (cs : List C) → move_all i cs ≡ cs
  unfolding move_all
  move_all-same [] = refl
  move_all-same (c ∷ cs) = ap₂ ◌∷◌ (constructs c) (move_all-same cs)

  -- The processor for such callbacks.
  pub process_lem :
      (cs : List C) (vs : List (Invoked C))
      → invoke_all i cs ≡ some vs
      → process_ready_callbacks i cs ≡ some (all_added vs ++ incomplete vs)
  unfolding process_ready_callbacks invoke_all all_added incomplete
  process_lem [] vs ran = let e : [] ≡ vs = cc in ap (λ l. some (all_added l ++ incomplete l)) e
  process_lem (c ∷ cs) vs ran =
      let start : Removing C = record { kept = []; holes = []; added = [] } in
      let (end, removed, kept, added) = remove_if-lists (c ∷ cs) vs start ran in
      rw removed (ap some (ap₂ ◌++◌ added (move_all-same end.kept ∙ kept)))

-- Transaction callbacks with their functions.
abbrev pub with_functions : List (Future Bool × ℕ) → List TransactionCallback
with_functions [] = []
with_functions ((future, f) ∷ ps) =
    record { future = future; callback = some f } ∷ with_functions ps

-- Those whose result is not there.
abbrev pub still_waiting : List (Future Bool × ℕ) → List (Future Bool × ℕ)
still_waiting [] = []
still_waiting ((invalid, f) ∷ ps) = (invalid, f) ∷ still_waiting ps
still_waiting ((pending, f) ∷ ps) = (pending, f) ∷ still_waiting ps
still_waiting ((ready b, f) ∷ ps) = still_waiting ps

-- What the functions of the others add, each called with its result.
abbrev pub added_by :
    Effects TransactionCallback Bool → List (Future Bool × ℕ) → List TransactionCallback
added_by run [] = []
added_by run ((invalid, f) ∷ ps) = added_by run ps
added_by run ((pending, f) ∷ ps) = added_by run ps
added_by run ((ready b, f) ∷ ps) = run f b ++ added_by run ps

invoke_transactions :
    (run : Effects TransactionCallback Bool) (ps : List (Future Bool × ℕ))
    → (vs : List (Invoked TransactionCallback)) × (invoke_all
          (transaction_callbacks run)
          (with_functions ps)
        ≡ some vs)
      × (all_added vs ≡ added_by run ps)
      × (incomplete vs ≡ with_functions (still_waiting ps))
unfolding invoke_all all_added incomplete transaction_callbacks transaction_invoke_if_ready
    transaction_when transaction_call
invoke_transactions run [] = ([], refl, refl, refl)
invoke_transactions run ((invalid, f) ∷ ps) =
    let (vs, ran, added, left) = invoke_transactions run ps in
    (
      record { complete = false; rest = record { future = invalid; callback = some f }; added = [] }
          ∷ vs,
      rw ran refl,
      added,
      ap (◌∷◌ (record { future = invalid; callback = some f })) left,
    )
invoke_transactions run ((pending, f) ∷ ps) =
    let (vs, ran, added, left) = invoke_transactions run ps in
    (
      record { complete = false; rest = record { future = pending; callback = some f }; added = [] }
          ∷ vs,
      rw ran refl,
      added,
      ap (◌∷◌ (record { future = pending; callback = some f })) left,
    )
invoke_transactions run ((ready b, f) ∷ ps) =
    let (vs, ran, added, left) = invoke_transactions run ps in
    (
      record {
        complete = true;
        rest = record { future = invalid; callback = some f };
        added = run f b;
      }
          ∷ vs,
      rw ran refl,
      ap (◌++◌ (run f b)) added,
      left,
    )

-- One round over transaction callbacks with functions: each function whose result is there is called
-- once, in order, with that result, and its callback goes; the others stay as they are, in order,
-- behind the callbacks that the functions added.
pub process_transactions :
    (run : Effects TransactionCallback Bool) (ps : List (Future Bool × ℕ))
    → process_ready_callbacks (transaction_callbacks run) (with_functions ps)
      ≡ some (added_by run ps ++ with_functions (still_waiting ps))
unfolding transaction_callbacks
process_transactions run ps =
    let (vs, ran, added, left) = invoke_transactions run ps in
    process_lem (transaction_callbacks run) (λ c. refl) (λ t c. refl) (with_functions ps) vs ran
    ∙ ap some (ap₂ ◌++◌ added left)

-- ===== src/Async/Moves.antt =====
-- The moves of `QueryCallback`, Src/Common/Database/QueryCallback.cpp, in the processor's vector.
use game_project_demo.Common.{
  List, ◌++◌, Option, Option-cases, Bool-cases, inl, inr, subst, >>=-eq-some, sym, ◌∙◌, ap, ℕ, ◌≡◌,
  refl, Bool, true, false, none, some, [], ◌∷◌, ◌>>=◌,
}
use game_project_demo.Async.{
  Invoked, Removing, invalid, pending, ready, add_callback, keep_in, place, remove_if, move_all,
  process_ready_callbacks, QueryCallback, query_callbacks, query_then, query_move_construct,
  query_invoke_if_ready, query_when, query_call, Effects, new_query_callback,
}

-- A callback with its function, once its result is there, is complete after one call: the function is
-- called with the result, and the future is used up.
query_completes :
    {R : Type 0} (run : Effects (QueryCallback R) R) (prepared : Bool) (f : ℕ) (result : R)
    → query_then prepared f (new_query_callback prepared (ready result))
        >>= query_invoke_if_ready run
      ≡ some (record {
        complete = true;
        rest = record { future = invalid; is_prepared_result = prepared; callbacks = [] };
        added = run f result;
      })
unfolding query_then query_invoke_if_ready query_when query_call
query_completes run true f result = refl
query_completes run false f result = refl

-- A function that a callback was given before it is added to the processor is lost: the move leaves
-- it behind, so the next round of the processor, if it comes to this callback, is undefined.
added_query_is_lost :
    {R : Type 0} (run : Effects (QueryCallback R) R) (q : QueryCallback R)
    → process_ready_callbacks (query_callbacks run) (add_callback (query_callbacks run) q []) ≡ none
unfolding process_ready_callbacks add_callback query_callbacks remove_if query_invoke_if_ready
    query_when query_move_construct
added_query_is_lost run q = refl

-- A callback without functions.
abbrev IsStripped : {R : Type 0} → QueryCallback R → Type 0
IsStripped q = q.callbacks ≡ []

-- A callback without functions ends the round that comes to it without a defined result.
remove_if-stripped :
    {R : Type 0} (run : Effects (QueryCallback R) R) (before after : List (QueryCallback R))
    (q : QueryCallback R) (r : Removing (QueryCallback R))
    → IsStripped q
    → remove_if (query_callbacks run) (before ++ q ∷ after) r ≡ none
unfolding remove_if query_callbacks query_invoke_if_ready query_when
remove_if-stripped run [] after q r stripped = rw stripped refl
remove_if-stripped run (c ∷ before) after q r stripped =
    elim (Option-cases (query_when run c.callbacks c.future c)) [
      | inl undefined ↦ rw undefined refl
      | inr (v, called) ↦
          rw called
            (remove_if-stripped run before after q (place (query_callbacks run) v r) stripped)
    ]

-- What is kept stays kept.
HasKept : {R : Type 0} → Removing (QueryCallback R) → Type 0
HasKept {R} r =
    (first : QueryCallback R) × (rest : List (QueryCallback R)) × (r.kept ≡ first ∷ rest)

module _ {R : Type 0} (run : Effects (QueryCallback R) R) where
  kept_more :
      (c : QueryCallback R) (cs : List (QueryCallback R))
      → (first : QueryCallback R) × (rest : List (QueryCallback R)) × (cs ++ c ∷ [] ≡ first ∷ rest)
  kept_more c [] = (c, [], refl)
  kept_more c (d ∷ cs) = (d, cs ++ c ∷ [], refl)

  keep_in-HasKept :
      (holes : List (QueryCallback R)) (c : QueryCallback R) (r : Removing (QueryCallback R))
      → HasKept (keep_in (query_callbacks run) holes c r)
  unfolding keep_in HasKept
  keep_in-HasKept [] c r = kept_more c r.kept
  keep_in-HasKept (hole ∷ holes) c r = kept_more _ r.kept

  place-HasKept :
      (v : Invoked (QueryCallback R)) (r : Removing (QueryCallback R))
      → HasKept r
      → HasKept (place (query_callbacks run) v r)
  unfolding place HasKept
  place-HasKept v r h = elim (Bool-cases v.complete) [
    | inl done ↦ rw done h
    | inr waits ↦ rw waits (keep_in-HasKept _ _ _)
  ]

  remove_if-HasKept :
      (cs : List (QueryCallback R)) (r u : Removing (QueryCallback R))
      → HasKept r
      → remove_if (query_callbacks run) cs r ≡ some u
      → HasKept u
  unfolding remove_if query_callbacks query_invoke_if_ready
  remove_if-HasKept [] r u h e = subst HasKept (some_same e) h
    where
      some_same : {x y : Removing (QueryCallback R)} → some x ≡ some y → x ≡ y
      some_same same = cc
  remove_if-HasKept (c ∷ cs) r u h e =
      let (v, called, rest) = >>=-eq-some (query_invoke_if_ready run c) _ e in
      remove_if-HasKept cs (place (query_callbacks run) v r) u (place-HasKept v r h) rest

  after_waiting :
      (callbacks : List (Bool × ℕ)) (after : List (QueryCallback R)) (w : QueryCallback R)
      (r u : Removing (QueryCallback R))
      → (query_when run callbacks pending w >>= λ v.
          remove_if (query_callbacks run) after (place (query_callbacks run) v r))
        ≡ some u
      → HasKept u
  unfolding query_when place
  after_waiting [] after w r u e = absurd (cc)
  after_waiting (c ∷ cs) after w r u e =
      remove_if-HasKept after
        (place (query_callbacks run) (record { complete = false; rest = w; added = [] }) r) u
        (keep_in-HasKept _ w _) e

  -- A callback that waits is kept.
  waiting-HasKept :
      (before after : List (QueryCallback R)) (w : QueryCallback R)
      (r u : Removing (QueryCallback R))
      → w.future ≡ pending
      → remove_if (query_callbacks run) (before ++ w ∷ after) r ≡ some u
      → HasKept u
  unfolding remove_if query_callbacks query_invoke_if_ready
  waiting-HasKept [] after w r u waits e = after_waiting w.callbacks after w r u (
      ap
        (λ f. query_when run w.callbacks f w >>= λ v.
          remove_if (query_callbacks run) after (place (query_callbacks run) v r))
        (sym waits)
      ∙ e)
  waiting-HasKept (c ∷ before) after w r u waits e =
      let (v, called, rest) = >>=-eq-some (query_invoke_if_ready run c) _ e in
      waiting-HasKept before after w (place (query_callbacks run) v r) u waits rest

  stripped_round :
      (added rest : List (QueryCallback R)) (q : QueryCallback R)
      → IsStripped q
      → process_ready_callbacks (query_callbacks run) (added ++ q ∷ rest) ≡ none
  unfolding process_ready_callbacks
  stripped_round [] rest q stripped = rw (remove_if-stripped run [] rest q _ stripped) refl
  stripped_round (c ∷ added) rest q stripped =
      rw (remove_if-stripped run (c ∷ added) rest q _ stripped) refl

  after_round :
      (o : Option (Removing (QueryCallback R))) (next : List (QueryCallback R))
      → (o >>= λ r. some (r.added ++ move_all (query_callbacks run) r.kept)) ≡ some next
      → ((r : Removing (QueryCallback R)) → o ≡ some r → HasKept r)
      → process_ready_callbacks (query_callbacks run) next ≡ none
  unfolding move_all query_callbacks query_move_construct HasKept
  after_round none next e kept = absurd (cc)
  after_round (some r) next e kept =
      let (first, rest, is_kept) = kept r refl in
      let same : next ≡ r.added ++ move_all (query_callbacks run) (first ∷ rest) =
        sym (some_same e) ∙ ap (λ l. r.added ++ move_all (query_callbacks run) l) is_kept in
      ap (process_ready_callbacks (query_callbacks run)) same
      ∙ stripped_round r.added (move_all (query_callbacks run) rest)
          ((query_move_construct first).0) refl
    where
      some_same : {x y : List (QueryCallback R)} → some x ≡ some y → x ≡ y
      some_same alike = cc

  pub waiting_query_is_lost :
      (before after next : List (QueryCallback R)) (w : QueryCallback R)
      → w.future ≡ pending
      → process_ready_callbacks (query_callbacks run) (before ++ w ∷ after) ≡ some next
      → process_ready_callbacks (query_callbacks run) next ≡ none
  unfolding process_ready_callbacks
  waiting_query_is_lost [] after next w waits e =
      after_round _ next e (λ r ran. waiting-HasKept [] after w _ r waits ran)
  waiting_query_is_lost (c ∷ before) after next w waits e =
      after_round _ next e (λ r ran. waiting-HasKept (c ∷ before) after w _ r waits ran)

-- ===== src/Server/Thread.antt =====
-- The thread that `IServer::Start` of Src/Common/Net/Server.cpp makes: it runs the `io_context` of asio again after
-- each exception. The context is a state `C`, and `run` what a call of `run` comes to.
use game_project_demo.Common.{ℕ, zero, suc, ◌<◌, arith, ◌≡◌, ◌∙◌, refl, ap, Option, none, some}

pub data Ran : Type 0 where
  returned exception unknown_exception : Ran

module _ {C : Type 0} (run : C → Ran × C) where
  -- One turn of the loop, with what follows an exception.
  unfoldable pub turn_over : (C → Option C) → Ran × C → Option C
  turn_over again (returned, c) = some c
  turn_over again (exception, c) = again c
  turn_over again (unknown_exception, c) = again c

  -- The loop, each turn for one of the fuel.
  unfoldable pub net_thread : ℕ → C → Option C
  net_thread zero c = none
  net_thread (suc fuel) c = turn_over (net_thread fuel) (run c)

  -- `run` returns with `t` after some calls that each ended with an exception.
  pub data Ends (t : C) : ℕ → C → Type 0 where
    returns : {c : C} → run c ≡ (returned, t) → Ends t 0 c
    threw : {n : ℕ} {c d : C} → run c ≡ (exception, d) → Ends t n d → Ends t (suc n) c
    threw_unknown :
        {n : ℕ} {c d : C} → run c ≡ (unknown_exception, d) → Ends t n d → Ends t (suc n) c

  reached : (n fuel : ℕ) (c t : C) → n < fuel → Ends t n c → net_thread fuel c ≡ some t
  unfolding net_thread turn_over
  reached n zero c t small ends = absurd (omega arith)
  reached zero (suc fuel) c t small (returns e) = rw e refl
  reached (suc n) (suc fuel) c t small (threw {d = d} e ends) =
      rw e (reached n fuel d t (omega arith) ends)
  reached (suc n) (suc fuel) c t small (threw_unknown {d = d} e ends) =
      rw e (reached n fuel d t (omega arith) ends)

  after_turn :
      (c t : C) (again : C → Option C) (r : Ran × C)
      → ((d : C) → again d ≡ some t → (n : ℕ) × Ends t n d)
      → run c ≡ r
      → turn_over again r ≡ some t
      → (n : ℕ) × Ends t n c
  unfolding turn_over
  after_turn c t again (returned, d) later ran over =
      (0, returns (ran ∙ ap (λ x. (returned, x)) (cc)))
  after_turn c t again (exception, d) later ran over =
      let (n, ends) = later d over in (suc n, threw ran ends)
  after_turn c t again (unknown_exception, d) later ran over =
      let (n, ends) = later d over in (suc n, threw_unknown ran ends)

  ended : (fuel : ℕ) (c t : C) → net_thread fuel c ≡ some t → (n : ℕ) × Ends t n c
  unfolding net_thread
  ended zero c t e = absurd (cc)
  ended (suc fuel) c t e = after_turn c t (net_thread fuel) (run c) (λ d. ended fuel d t) refl e

  -- The thread ends exactly where a call of `run` returns, whatever the calls before it threw: then as many turns
  -- as calls are enough, and with no number of turns does it end otherwise.
  pub net_thread-Ends :
      (c t : C)
      → ((n fuel : ℕ) → n < fuel → Ends t n c → net_thread fuel c ≡ some t)
        × ((fuel : ℕ) → net_thread fuel c ≡ some t → (n : ℕ) × Ends t n c)
  net_thread-Ends c t =
      (λ n fuel enough ends. reached n fuel c t enough ends, λ fuel e. ended fuel c t e)

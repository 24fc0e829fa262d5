-- ===== src/Server/Sessions.antt =====
-- `IServer::Update` of Src/Common/Net/Server.cpp: which sessions it keeps.
use game_project_demo.Common.{
  suc, sym, subst, ◌+◌, ◌≡◌, refl, ap, Bool, true, false, not, Bool-cases, inl, inr, List, [], ◌∷◌,
  if◌then◌else◌, length, All, arith,
}
use game_project_demo.Session.{Session, update, close_session}
use game_project_demo.Server.{sweep}

abbrev pub IsOpen : Session → Type 0
IsOpen s = s.closed ≡ false

abbrev pub IsShut : Session → Type 0
IsShut s = s.closed ≡ true

not-false : (b : Bool) → not b ≡ true → b ≡ false
not-false true e = cc
not-false false e = refl

not-true : (b : Bool) → not b ≡ false → b ≡ true
not-true true e = refl
not-true false e = cc

-- A session that is closed is not shut down a second time.
close_session-shut : (s : Session) → IsShut s → close_session s ≡ s
unfolding close_session
close_session-shut s e =
    ap (λ b. if b then s else record s { closed = true; shutdowns = suc s.shutdowns }) e

-- The update keeps the sessions that are open, ends those that are closed, and loses none.
pub sweep_lem :
    (ss : List Session)
    → All IsOpen ((sweep ss).kept)
      × All IsShut ((sweep ss).ended)
      × (length ((sweep ss).kept) + length ((sweep ss).ended) ≡ length ss)
unfolding sweep
sweep_lem [] = (tt, tt, omega arith)
sweep_lem (s ∷ ss) =
    let (kept, ended, count) = sweep_lem ss in
    elim (Bool-cases (update s)) [
      | inl alive ↦ rw alive ((not-false s.closed alive, kept), ended, omega (arith, count))
      | inr shut ↦
          let e = not-true s.closed shut in
          rw shut
            (kept, (subst IsShut (sym (close_session-shut s e)) e, ended), omega (arith, count))
    ]

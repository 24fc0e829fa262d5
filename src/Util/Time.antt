-- ===== src/Util/Time.antt =====
-- Differences of times in Src/Common/Util/Util.hpp.
use game_project_demo.Common.{ℕ, ◌+◌, ◌-◌, ◌%◌, ◌^◌, ◌≤◌, ◌<◌, ◌≡◌, arith}
use game_project_demo.Util.{get_mill_sec_time_diff}

-- What a `uint64_t` clock has advanced from `old` to `new`, one wrap at most.
abbrev pub elapsed : ℕ → ℕ → ℕ
elapsed old new = (new + 2 ^ 64 - old) % 2 ^ 64

-- Without a wrap the difference is what the clock has advanced. Across a wrap it is one less.
pub get_mill_sec_time_diff_lem :
    (old new : ℕ)
    → old < 2 ^ 64
    → new < 2 ^ 64
    → (old ≤ new → get_mill_sec_time_diff old new ≡ elapsed old new)
      × (new < old → get_mill_sec_time_diff old new + 1 ≡ elapsed old new)
unfolding get_mill_sec_time_diff
get_mill_sec_time_diff_lem old new h k = (λ p. ground arith, λ p. ground arith)

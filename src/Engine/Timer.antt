-- ===== src/Engine/Timer.antt =====
-- utils/src/TTUtilsTimer.hpp. Times are milliseconds of the steady clock, handed in as `now`.
use terminal_teams.Prelude.{Bool, leb, ℕ, ◌-◌}

pub record Timer : Type 0 where
  pub threshold : ℕ
  pub timestamp : ℕ

unfoldable pub create_timer : ℕ → ℕ → Timer
create_timer threshold now = record { threshold = threshold; timestamp = now }

unfoldable pub remaining : Timer → ℕ → ℕ
remaining t now = now - t.timestamp

unfoldable pub expired : Timer → ℕ → Bool
unfolding remaining
expired t now = leb t.threshold (remaining t now)

unfoldable pub expire : Timer → Timer
expire t = record t { timestamp = 0 }

unfoldable pub kick : Timer → ℕ → Timer
kick t now = record t { timestamp = now }

-- ===== src/Runner/Limit.antt =====
-- The limit on the cycles of the runner's loop.
use sigmacatch.Rules.{Platform}
use sigmacatch.Runner.{Loop, Parts}
use sigmacatch.Prelude.{Bool, false, length, ℕ, ◌<◌, ◌≡◌, ◌≤◌}

module _ (platform : Platform) (parts : Parts) (contrib : Bool) (limit : ℕ) where
  -- No more uploads than cycles, and no more cycles than the limit: less while the loop goes on.
  abbrev IsWithin : Loop platform parts → Type 0
  IsWithin s =
      (length s.uploads ≤ s.runs_completed)
      × (s.runs_completed ≤ limit)
      × (s.ended ≡ false → s.runs_completed < limit)

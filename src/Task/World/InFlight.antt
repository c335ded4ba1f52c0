-- ===== src/Task/World/InFlight.antt =====
-- `_in_flight` of app/a2a/executor.py as a dictionary: a task has one entry at most.
use oldman_agent.Prelude.{ℕ, ◌+◌, String, ◌&&◌, List, [], ◌∷◌, if◌then◌else◌, ◌==◌}
use oldman_agent.Floats.{Floats}
use oldman_agent.Db.{Db}
use oldman_agent.Task.Message.{Message}
use oldman_agent.Task.Executor.{Executor}
use oldman_agent.Task.World.{Running, World}

module _ {R : Type 0} where
  abbrev entry : String → Running R → ℕ
  entry id t = if (t.task_id == id) && t.registered then 1 else 0

  -- How many requests `_in_flight` has under the task.
  abbrev pub entries : String → List (Running R) → ℕ
  entries id [] = 0
  entries id (t ∷ ts) = entry id t + entries id ts

-- ===== src/Task/Executor/Balanced.antt =====
-- Whatever a request does, the credits books stay balanced.
use mathlib.Core.Path.{subst}
use oldman_agent.Prelude.{Option}
use oldman_agent.Floats.{Floats}
use oldman_agent.Credits.Balanced.{IsBalanced}
use oldman_agent.Task.Message.{Message}
use oldman_agent.Task.Session.{Session}
use oldman_agent.Task.Session.Kept.{KeepsBooks}
use oldman_agent.Task.Process.Steady.{run-Stable}
use oldman_agent.Task.Executor.{Executor, execute}
use oldman_agent.Task.Routine.Alone.{run-execute_steps}
use oldman_agent.Task.Routine.Steady.{execute_steps-Steady}

module _ (F : Floats) (x : Executor F) where
  open F use {R}

  -- From balanced books, handling a request leaves balanced books on every outcome, whatever the
  -- request asks for, whether its run ends or raises.
  pub execute-IsBalanced :
      (request : Option Message) (s : Session R)
      → IsBalanced s.db.books
      → IsBalanced (execute F x request s).1.db.books
  execute-IsBalanced request s h =
      subst (λ m. IsBalanced (m s).1.db.books) (run-execute_steps F x request)
        ((run-Stable KeepsBooks _ (execute_steps-Steady F x request)).at s h)

-- ===== src/Task/Session.antt =====
-- The database with the event queue of a task, and the emitters of app/a2a/task_emitter.py.
pub mod Kept
use oldman_agent.Prelude.{ℕ, String, Bool, Option, List, [], ◌∷◌, ◌++◌}
use oldman_agent.Exec.{Exec, Result, modify}
use oldman_agent.Db.{Db}
use oldman_agent.Payout.{RoyaltyRelease}
use oldman_agent.Narrative.Text.{Text}
use oldman_agent.Narrative.Renderer.{NarrativeRendererResult}
use oldman_agent.Reputation.Report.{ReputationReport}

-- `artifact_data["royalties"]`
pub data Royalties : Type 0 where
  not_released release_failed : Royalties
  released : List RoyaltyRelease → Royalties

-- The data of an artifact, one constructor for each place that emits one.
pub data ArtifactData : Type 0 where
  stored_data : String → ArtifactData
  refused_data : String → String → ArtifactData
  smalltalk_data : ArtifactData
  unpaid_data : String → ArtifactData
  answer_data : NarrativeRendererResult → Royalties → ArtifactData
  report_data : ReputationReport → Bool → ArtifactData

pub data TaskEvent : Type 0 where
  submitted working completed failed canceled : TaskEvent
  artifact : Text → ArtifactData → TaskEvent

pub record Session (R : Type 0) : Type 0 where
  pub db : Db R
  pub queue : List TaskEvent

module _ {R : Type 0} where
  -- `queue.enqueue_event`
  unfoldable pub emit : TaskEvent → Exec (Session R) (Unit {0})
  emit e = modify λ s. record s { queue = s.queue ++ e ∷ [] }

module _ {R A : Type 0} where
  unfoldable pub on_db : Exec (Db R) A → Exec (Session R) A
  on_db m s = let (r, db) = m s.db in (r, record s { db = db })

-- ===== src/Task/World.antt =====
-- Requests of app/a2a/executor.py that run at the same time over one database: the event loop resumes
-- one after the other, each up to its next `await`. `_in_flight` is kept as a flag of the request
-- that it has under a task: a later query of the same task takes the flag over, and the `finally` of
-- `execute` takes it from whichever request of the task has it.
pub mod Balanced
pub mod Places
pub mod Ending
pub mod InFlight
use Prim.Native.String.{String}
use oldman_agent.Prelude.{
  ℕ, zero, suc, Bool, true, false, Option, none, some, List, [], ◌∷◌, ◌++◌, map, not, ◌&&◌, ◌||◌,
  if◌then◌else◌, ◌==◌,
}
use oldman_agent.Exec.{Result, ok, Exec}
use oldman_agent.Floats.{Floats}
use oldman_agent.Db.{Db}
use oldman_agent.Task.Message.{Message, intent_publish, intent_query, intent_of}
use oldman_agent.Task.Session.{TaskEvent, Session}
use oldman_agent.Task.Process.{Process, finished, segment}
use oldman_agent.Task.Executor.{Executor}
use oldman_agent.Task.Routine.{execute_steps}

-- A request: its task, its event queue, what is left of it, whether `execute` still waits for its
-- query task, whether that is the one that `_in_flight` has under the task, and whether it was asked to
-- cancel.
pub record Running (R : Type 0) : Type 1 where
  pub task_id : String
  pub queue : List TaskEvent
  pub process : Process (Session R) (Unit {0})
  pub waits : Bool
  pub registered : Bool
  pub cancelling : Bool

-- The database, the requests in the order in which they came, and the tasks for which a call of `cancel`
-- has sent its event, on a queue of its own.
pub record World (R : Type 0) : Type 1 where
  pub db : Db R
  pub tasks : List (Running R)
  pub canceled : List String

-- What happens next: a request comes, one is resumed, `execute` goes on after its query task is done,
-- or a task is cancelled.
pub data Happening : Type 0 where
  arrive : String → Option Message → Happening
  resume leave : ℕ → Happening
  stop : String → Happening

module _ {R : Type 0} where
  -- One segment.
  abbrev pub advanced :
      Process (Session R) (Unit {0}) → Session R → Process (Session R) (Unit {0}) × Session R
  advanced (finished r) s = (finished r, s)
  advanced (segment m k) s = let (r, s') = m s in (k r, s')

  abbrev pub is_done : Process (Session R) (Unit {0}) → Bool
  is_done (finished r) = true
  is_done (segment m k) = false

  -- `CancelledError` at the `await`: it is no `Exception`, so that no handler of the query takes it, and
  -- `execute` only logs it.
  abbrev pub thrown : Process (Session R) (Unit {0}) → Process (Session R) (Unit {0})
  thrown (finished r) = finished r
  thrown (segment m k) = finished (ok tt)

  -- A task that was asked to cancel gets the exception when it is resumed.
  abbrev pub stepped :
      Bool → Process (Session R) (Unit {0}) → Session R → Process (Session R) (Unit {0}) × Session R
  stepped true p s = (thrown p, s)
  stepped false p s = advanced p s

  abbrev pub resume_first : Db R → Running R → List (Running R) → World R
  resume_first db t ts =
      let (p, s) = stepped t.cancelling t.process (record { db = db; queue = t.queue }) in
      record { db = s.db; tasks = record t { queue = s.queue; process = p } ∷ ts; canceled = [] }

  unfoldable pub resume_at : ℕ → Db R → List (Running R) → World R
  resume_at i db [] = record { db = db; tasks = []; canceled = [] }
  resume_at zero db (t ∷ ts) = resume_first db t ts
  resume_at (suc i) db (t ∷ ts) =
      let later = resume_at i db ts in record later { tasks = t ∷ later.tasks }

  -- `in_flight.cancel()`, of the query task that `_in_flight` has under the task unless it is done.
  abbrev pub cancelled : String → Running R → Running R
  cancelled id t = record t {
    cancelling = t.cancelling || ((t.task_id == id) && (t.registered && not (is_done t.process)));
  }

  -- `_in_flight.pop(task_id, None)`, and the entry of an earlier request that a new one replaces.
  abbrev pub popped : String → Running R → Running R
  popped id t = record t { registered = t.registered && not (t.task_id == id) }

  -- The task whose `execute` goes on: its query task is done.
  abbrev left_id : Running R → Option String
  left_id t = if t.waits && is_done t.process then some t.task_id else none

  abbrev pub gone_on : Running R → Running R
  gone_on t = record t { waits = t.waits && not (is_done t.process) }

  unfoldable pub left_at : ℕ → List (Running R) → Option String
  left_at i [] = none
  left_at zero (t ∷ ts) = left_id t
  left_at (suc i) (t ∷ ts) = left_at i ts

  unfoldable pub go_on_at : ℕ → List (Running R) → List (Running R)
  go_on_at i [] = []
  go_on_at zero (t ∷ ts) = gone_on t ∷ ts
  go_on_at (suc i) (t ∷ ts) = t ∷ go_on_at i ts

  -- The `finally` of `execute`.
  abbrev pub popped_if : Option String → Running R → Running R
  popped_if none t = t
  popped_if (some id) t = popped id t

abbrev pub asks_query : Option String → Bool
asks_query none = false
asks_query (some intent) = if intent == intent_publish then false else intent == intent_query

module _ (F : Floats) (x : Executor F) where
  open F use {R}

  abbrev is_query_request : Option Message → Bool
  is_query_request none = false
  is_query_request (some message) = asks_query (intent_of x.strs.strip message)

  unfoldable pub received : String → Option Message → Running R
  received id request = record {
    task_id = id;
    queue = [];
    process = execute_steps F x request;
    waits = is_query_request request;
    registered = is_query_request request;
    cancelling = false;
  }

  -- The key under which a request enters `_in_flight`.
  abbrev pub entered : String → Option Message → Option String
  entered id request = if is_query_request request then some id else none

  abbrev pub happen : Happening → World R → World R
  happen (arrive id request) w = record w {
    tasks = map (popped_if (entered id request)) w.tasks ++ received id request ∷ [];
  }
  happen (resume i) w = let next = resume_at i w.db w.tasks in record next { canceled = w.canceled }
  happen (leave i) w = record w { tasks = map (popped_if (left_at i w.tasks)) (go_on_at i w.tasks) }
  happen (stop id) w =
      if id == ""
      then w
      else record w { tasks = map (cancelled id) w.tasks; canceled = w.canceled ++ id ∷ [] }

  unfoldable pub play : List Happening → World R → World R
  play [] w = w
  play (h ∷ hs) w = play hs (happen h w)

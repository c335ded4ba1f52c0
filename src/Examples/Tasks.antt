-- ===== src/Examples/Tasks.antt =====
-- The theorems on requests that run at the same time, on the concrete executor and database.
use oldman_agent.Prelude.{ℕ, zero, suc, refl, some, arith, List, [], ◌∷◌}
use oldman_agent.Credits.Balanced.{IsBalanced}
use oldman_agent.Task.World.{Happening, arrive, resume, leave, stop, play}
use oldman_agent.Task.World.Balanced.{play-IsBalanced}
use oldman_agent.Task.World.Places.{At}
use oldman_agent.Task.World.Ending.{InOrder, HasEnded, play-InOrder, play-HasEnded}
use oldman_agent.Examples.{books-IsBalanced, whole}
use oldman_agent.Examples.Village.{db}
use oldman_agent.Examples.Requests.{executor, greeting}

play-IsBalanced_example :
    IsBalanced
      (play whole executor
        (arrive "t1" (some greeting)
          ∷ arrive "t2" (some greeting)
          ∷ resume 1
          ∷ resume 0
          ∷ stop "t2"
          ∷ resume 0
          ∷ [])
        (record { db = db; tasks = []; canceled = [] })).db.books
play-IsBalanced_example =
    play-IsBalanced whole executor
      (arrive "t1" (some greeting)
        ∷ arrive "t2" (some greeting)
        ∷ resume 1
        ∷ resume 0
        ∷ stop "t2"
        ∷ resume 0
        ∷ [])
      db books-IsBalanced

-- The first request again and again.
abbrev goes_on : ℕ → List Happening
goes_on zero = []
goes_on (suc n) = resume 0 ∷ goes_on n

-- Two queries, one of which is cancelled while the other goes on.
abbrev interleaved : List Happening
interleaved =
    resume 0
    ∷ arrive "t2" (some greeting)
    ∷ resume 1
    ∷ resume 0
    ∷ stop "t2"
    ∷ resume 0
    ∷ resume 0
    ∷ resume 1
    ∷ goes_on 100

play-InOrder_example :
    At 0 InOrder
      (play whole executor
        (arrive "t1" (some greeting) ∷ interleaved)
        (record { db = db; tasks = []; canceled = [] })).tasks
play-InOrder_example =
    play-InOrder whole executor "t1" (some greeting) interleaved
      (record { db = db; tasks = []; canceled = [] }) (refl, tt)

play-HasEnded_example :
    At 0 HasEnded
      (play whole executor
        (arrive "t1" (some greeting) ∷ interleaved)
        (record { db = db; tasks = []; canceled = [] })).tasks
play-HasEnded_example =
    play-HasEnded whole executor "t1" (some greeting) interleaved
      (record { db = db; tasks = []; canceled = [] }) (refl, tt) (omega arith)

-- Two queries of one task: the second replaces the first.
abbrev two_of_one_task : List Happening
two_of_one_task =
    arrive "t1" (some greeting)
    ∷ resume 0
    ∷ arrive "t1" (some greeting)
    ∷ resume 1
    ∷ resume 0
    ∷ leave 0
    ∷ stop "t1"
    ∷ []

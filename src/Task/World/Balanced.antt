-- ===== src/Task/World/Balanced.antt =====
-- However requests interleave, the credits books stay balanced.
use oldman_agent.Prelude.{
  ℕ, zero, suc, String, Bool, true, false, Bool-cases, inl, inr, Option, none, some, List, [], ◌∷◌,
  ◌++◌, map, ◌==◌,
}
use oldman_agent.Floats.{Floats}
use oldman_agent.Credits.Balanced.{IsBalanced}
use oldman_agent.Db.{Db}
use oldman_agent.Task.Session.{Session}
use oldman_agent.Task.Session.Kept.{KeepsBooks}
use oldman_agent.Task.Process.{Process, finished, segment}
use oldman_agent.Task.Process.Steady.{Steady}
use oldman_agent.Task.Executor.{Executor}
use oldman_agent.Task.Routine.Steady.{execute_steps-Steady}
use oldman_agent.Task.World.{
  Running, World, Happening, arrive, resume, leave, stop, advanced, thrown, stepped, resume_at,
  cancelled, popped_if, left_at, go_on_at, received, entered, happen, play,
}

-- What is left of each request keeps the books balanced.
abbrev AllSteady : {R : Type 0} → List (Running R) → Type 1
AllSteady [] = Unit
AllSteady (t ∷ ts) = Steady KeepsBooks t.process × AllSteady ts

record IsSteady {R : Type 0} (w : World R) : Type 1 where
  pub balanced_books : IsBalanced w.db.books
  pub steady_tasks : AllSteady w.tasks

module _ {R : Type 0} where
  AllSteady-append :
      (ts : List (Running R)) (t : Running R)
      → AllSteady ts
      → Steady KeepsBooks t.process
      → AllSteady (ts ++ t ∷ [])
  AllSteady-append [] t h k = (k, tt)
  AllSteady-append (u ∷ ts) t h k = (h.0, AllSteady-append ts t h.1 k)

  advanced-Steady :
      (p : Process (Session R) (Unit {0})) (s : Session R)
      → Steady KeepsBooks p
      → IsBalanced s.db.books
      → Steady KeepsBooks (advanced p s).0 × IsBalanced (advanced p s).1.db.books
  advanced-Steady (finished r) s h k = (tt, k)
  advanced-Steady (segment m next) s h k = (h.1 (m s).0, h.0.at s k)

  thrown-Steady :
      (p : Process (Session R) (Unit {0})) → Steady KeepsBooks p → Steady KeepsBooks (thrown p)
  thrown-Steady (finished r) h = h
  thrown-Steady (segment m k) h = tt

  stepped-Steady :
      (b : Bool) (p : Process (Session R) (Unit {0})) (s : Session R)
      → Steady KeepsBooks p
      → IsBalanced s.db.books
      → Steady KeepsBooks (stepped b p s).0 × IsBalanced (stepped b p s).1.db.books
  stepped-Steady true p s h k = (thrown-Steady p h, k)
  stepped-Steady false p s h k = advanced-Steady p s h k

  resume_at-IsSteady :
      (i : ℕ) (db : Db R) (ts : List (Running R))
      → IsBalanced db.books
      → AllSteady ts
      → IsSteady (resume_at i db ts)
  unfolding resume_at
  resume_at-IsSteady i db [] h k = record { balanced_books = h; steady_tasks = tt }
  resume_at-IsSteady zero db (t ∷ ts) h k =
      let step =
        stepped-Steady t.cancelling t.process (record { db = db; queue = t.queue }) k.0 h in
      record { balanced_books = step.1; steady_tasks = (step.0, k.1) }
  resume_at-IsSteady (suc i) db (t ∷ ts) h k =
      let later = resume_at-IsSteady i db ts h k.1 in
      record { balanced_books = later.balanced_books; steady_tasks = (k.0, later.steady_tasks) }

  each-AllSteady :
      (f : Running R → Running R) (ts : List (Running R))
      → ((t : Running R) → Steady KeepsBooks t.process → Steady KeepsBooks (f t).process)
      → AllSteady ts
      → AllSteady (map f ts)
  each-AllSteady f [] k h = tt
  each-AllSteady f (t ∷ ts) k h = (k t h.0, each-AllSteady f ts k h.1)

  go_on-AllSteady : (i : ℕ) (ts : List (Running R)) → AllSteady ts → AllSteady (go_on_at i ts)
  unfolding go_on_at
  go_on-AllSteady i [] h = tt
  go_on-AllSteady zero (t ∷ ts) h = h
  go_on-AllSteady (suc i) (t ∷ ts) h = (h.0, go_on-AllSteady i ts h.1)

  popped-AllSteady :
      (id : Option String) (ts : List (Running R))
      → AllSteady ts
      → AllSteady (map (popped_if id) ts)
  popped-AllSteady none ts h = each-AllSteady (popped_if none) ts (λ t k. k) h
  popped-AllSteady (some id) ts h = each-AllSteady (popped_if (some id)) ts (λ t k. k) h

module _ (F : Floats) (x : Executor F) where
  open F use {R}

  happen-IsSteady : (h : Happening) (w : World R) → IsSteady w → IsSteady (happen F x h w)
  unfolding received
  happen-IsSteady (arrive id request) w k = record {
    balanced_books = k.balanced_books;
    steady_tasks =
        AllSteady-append _ _ (popped-AllSteady (entered F x id request) w.tasks k.steady_tasks)
          (execute_steps-Steady F x request);
  }
  happen-IsSteady (resume i) w k =
      let next = resume_at-IsSteady i w.db w.tasks k.balanced_books k.steady_tasks in
      record { balanced_books = next.balanced_books; steady_tasks = next.steady_tasks }
  happen-IsSteady (leave i) w k = record {
    balanced_books = k.balanced_books;
    steady_tasks =
        popped-AllSteady (left_at i w.tasks) _ (go_on-AllSteady i w.tasks k.steady_tasks);
  }
  happen-IsSteady (stop id) w k = elim (Bool-cases (id == "")) [
    | inl empty ↦ rw empty k
    | inr named ↦ rw named (record {
      balanced_books = k.balanced_books;
      steady_tasks = each-AllSteady (cancelled id) w.tasks (λ t h. h) k.steady_tasks;
    })
  ]

  play-IsSteady : (hs : List Happening) (w : World R) → IsSteady w → IsSteady (play F x hs w)
  unfolding play
  play-IsSteady [] w k = k
  play-IsSteady (h ∷ hs) w k = play-IsSteady hs (happen F x h w) (happen-IsSteady h w k)

  -- From balanced books and no request at work, the books are balanced after every sequence of
  -- arriving requests, resumptions of any of them up to its next `await`, and cancellations.
  pub play-IsBalanced :
      (hs : List Happening) (db : Db R)
      → IsBalanced db.books
      → IsBalanced (play F x hs (record { db = db; tasks = []; canceled = [] })).db.books
  play-IsBalanced hs db h =
      (play-IsSteady hs (record { db = db; tasks = []; canceled = [] })
        (record { balanced_books = h; steady_tasks = tt })).balanced_books

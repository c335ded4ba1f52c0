-- ===== src/Task/World/Ending.antt =====
-- However requests interleave, each goes through the phases of its task, and ends.
use oldman_agent.Prelude.{
  ℕ, zero, suc, ◌+◌, ◌-◌, ◌≤◌, ◌≡◌, refl, String, Bool, Bool-cases, inl, inr, none, some, map, ◌==◌,
  true, false, List, [], ◌∷◌, length, eqb, arith, Option, if◌then◌else◌,
}
use mathlib.Core.Path.{subst}
use oldman_agent.Exec.{ok, err}
use oldman_agent.Floats.{Floats}
use oldman_agent.Db.{Db}
use oldman_agent.Task.Message.{Message}
use oldman_agent.Task.Session.{Session}
use oldman_agent.Task.Process.{Process, finished, segment}
use oldman_agent.Task.Executor.{Executor}
use oldman_agent.Task.Executor.LifeCycle.{Phase, unsent, closed, is_closed, Led, Led-start}
use oldman_agent.Task.Routine.Phases.{Goes}
use oldman_agent.Task.Routine.Ending.{Finishes, execute_steps-Closing}
use oldman_agent.Task.World.{
  Running, World, Happening, arrive, resume, leave, stop, advanced, resume_at, cancelled, popped_if,
  left_at, received, entered, happen, play,
}
use oldman_agent.Task.World.Places.{
  At, NotStopped, resumes, At-append, At-append_new, At-go_on, At-each, At-resume_other, resumed,
  At-map, At-resume,
}

-- The request of that task is not asked to cancel, has sent the events of a phase, and ends within `n` segments.
abbrev GoesOn : {R : Type 0} → String → ℕ → Running R → Type 1
GoesOn id n t =
    ((t.task_id ≡ id) × (t.cancelling ≡ false))
    × ((p : Phase) × Led [] t.queue p × Goes n p Finishes t.process)

-- A task is closed once its request has finished, and not before, nor when it raises.
abbrev pub Matches : {R : Type 0} → Phase → Process (Session R) (Unit {0}) → Type 0
Matches p (finished (ok _)) = p ≡ closed
Matches p (finished (err e)) = is_closed p ≡ false
Matches p (segment m k) = is_closed p ≡ false

-- The events of the request lead through the phases in order, up to where it stands.
pub record InOrder {R : Type 0} (t : Running R) : Type 0 where
  pub phase : Phase
  pub led : Led [] t.queue phase
  pub matches : Matches phase t.process

-- The request has nothing left to do, and its task is closed unless it raised.
abbrev pub Ended : {R : Type 0} → Phase → Process (Session R) (Unit {0}) → Type 0
Ended p (finished r) = Finishes r p
Ended p (segment m k) = ⊥

-- The events of the request led through the phases in order, and it has ended.
pub record HasEnded {R : Type 0} (t : Running R) : Type 0 where
  pub phase : Phase
  pub led : Led [] t.queue phase
  pub ended : Ended phase t.process

abbrev less : ℕ → ℕ
less zero = zero
less (suc n) = n

abbrev less_if : Bool → ℕ → ℕ
less_if b n = if b then less n else n

less-minus : (b : Bool) (n r : ℕ) → less_if b n - r ≡ n - (if b then r + 1 else r)
less-minus true zero r = omega arith
less-minus true (suc n) r = omega arith
less-minus false n r = refl

module _ {R : Type 0} where
  resumed-GoesOn :
      (id : String) (n : ℕ) (db : Db R) (t : Running R)
      → GoesOn id n t
      → GoesOn id (less n) (resumed db t)
  resumed-GoesOn id n db t h = rw h.0.1 ((h.0.0, refl), go n t.process h.1.2)
    where
      go :
          (n : ℕ) (c : Process (Session R) (Unit {0}))
          → Goes n h.1.0 Finishes c
          → (p : Phase) × Led [] (advanced c (record { db = db; queue = t.queue })).1.queue p
            × Goes (less n) p Finishes (advanced c (record { db = db; queue = t.queue })).0
      go n (finished r) k = (h.1.0, h.1.1, k)
      go zero (segment m next) k = absurd k.0
      go (suc n) (segment m next) k = k.1 (record { db = db; queue = t.queue }) h.1.1

  resume_at-GoesOn :
      (id : String) (i j n : ℕ) (b : Bool) (db : Db R) (ts : List (Running R))
      → eqb i j ≡ b
      → At i (GoesOn id n) ts
      → At i (GoesOn id (less_if b n)) (resume_at j db ts).tasks
  resume_at-GoesOn id i j n true db ts same h =
      subst (λ k. At i (GoesOn id (less n)) (resume_at k db ts).tasks) (ground arith)
        (At-resume (GoesOn id n) (GoesOn id (less n)) i db ts (resumed-GoesOn id n db) h)
  resume_at-GoesOn id i j n false db ts other h = At-resume_other (GoesOn id n) i j db ts other h

  popped-GoesOn :
      (id : String) (i n : ℕ) (key : Option String) (ts : List (Running R))
      → At i (GoesOn id n) ts
      → At i (GoesOn id n) (map (popped_if key) ts)
  popped-GoesOn id i n none ts h = At-each (GoesOn id n) (popped_if none) i ts (λ t k. k) h
  popped-GoesOn id i n (some key) ts h =
      At-each (GoesOn id n) (popped_if (some key)) i ts (λ t k. k) h

  -- Another task is cancelled.
  cancelled-GoesOn :
      (id other : String) (n : ℕ) (t : Running R)
      → (id == other) ≡ false
      → GoesOn id n t
      → GoesOn id n (cancelled other t)
  cancelled-GoesOn id other n t apart h = ((h.0.0, rw (h.0.1, h.0.0, apart) refl), h.1)

  matches :
      (n : ℕ) (p : Phase) (c : Process (Session R) (Unit {0})) → Goes n p Finishes c → Matches p c
  matches n p (finished (ok a)) h = h.0
  matches n p (finished (err e)) h = h.0
  matches zero p (segment m k) h = absurd h.0
  matches (suc n) p (segment m k) h = h.0

  ended : (p : Phase) (c : Process (Session R) (Unit {0})) → Goes 0 p Finishes c → Ended p c
  ended p (finished r) h = h.0
  ended p (segment m k) h = absurd h.0

module _ (F : Floats) (x : Executor F) where
  open F use {R}

  play-GoesOn :
      (id : String) (i n : ℕ) (hs : List Happening) (w : World R)
      → NotStopped id hs
      → At i (GoesOn id n) w.tasks
      → At i (GoesOn id (n - resumes i hs)) (play F x hs w).tasks
  unfolding play
  play-GoesOn id i n [] w kept h = subst (λ k. At i (GoesOn id k) w.tasks) (omega arith) h
  play-GoesOn id i n (arrive other request ∷ hs) w kept h =
      play-GoesOn id i n hs _ kept
        (At-append (GoesOn id n) i _ _ (popped-GoesOn id i n (entered F x other request) w.tasks h))
  play-GoesOn id i n (resume j ∷ hs) w kept h =
      subst (λ k. At i (GoesOn id k) (play F x hs (happen F x (resume j) w)).tasks)
        (less-minus (eqb i j) n (resumes i hs))
        (play-GoesOn id i (less_if (eqb i j) n) hs _ kept
          (resume_at-GoesOn id i j n (eqb i j) w.db w.tasks refl h))
  play-GoesOn id i n (leave j ∷ hs) w kept h =
      play-GoesOn id i n hs _ kept (
        popped-GoesOn id i n (left_at j w.tasks) _
          (At-go_on (GoesOn id n) i j w.tasks (λ t k. k) h))
  play-GoesOn id i n (stop other ∷ hs) w kept h =
      play-GoesOn id i n hs _ kept.1 (elim (Bool-cases (other == "")) [
        | inl empty ↦ rw empty h
        | inr named ↦ rw named (
            At-each (GoesOn id n) (cancelled other) i w.tasks
              (λ t k. cancelled-GoesOn id other n t kept.0 k) h)
      ])

  arrived-GoesOn :
      (id : String) (request : Option Message) (hs : List Happening) (w : World R)
      → NotStopped id hs
      → At
          (length w.tasks)
          (GoesOn id (101 - resumes (length w.tasks) hs))
          (play F x (arrive id request ∷ hs) w).tasks
  unfolding play received
  arrived-GoesOn id request hs w kept = play-GoesOn id (length w.tasks) 101 hs _ kept (
      At-append_new (GoesOn id 101) _ w.tasks _
        ((refl, refl), (unsent, Led-start [], execute_steps-Closing F x request)))

  -- Whatever comes, is resumed or is cancelled beside it, a request whose task is not cancelled has at
  -- every time sent events that lead through the phases of a task in order, up to a closing one once it has
  -- finished, and to an open phase before and when it raises.
  pub play-InOrder :
      (id : String) (request : Option Message) (hs : List Happening) (w : World R)
      → NotStopped id hs
      → At (length w.tasks) InOrder (play F x (arrive id request ∷ hs) w).tasks
  play-InOrder id request hs w kept =
      At-map (GoesOn id (101 - resumes (length w.tasks) hs)) InOrder (length w.tasks) _
        (λ t h. record { phase = h.1.0; led = h.1.1; matches = matches _ h.1.0 t.process h.1.2 })
        (arrived-GoesOn id request hs w kept)

  -- A request that is resumed 101 times and whose task is not cancelled has ended, whatever else happens before,
  -- between and after: its events led through the phases of a task in order, and closed it unless the
  -- request raised.
  pub play-HasEnded :
      (id : String) (request : Option Message) (hs : List Happening) (w : World R)
      → NotStopped id hs
      → 101 ≤ resumes (length w.tasks) hs
      → At (length w.tasks) HasEnded (play F x (arrive id request ∷ hs) w).tasks
  play-HasEnded id request hs w kept often =
      At-map (GoesOn id 0) HasEnded (length w.tasks) _
        (λ t h. record { phase = h.1.0; led = h.1.1; ended = ended h.1.0 t.process h.1.2 })
        (subst (λ n. At (length w.tasks) (GoesOn id n) (play F x (arrive id request ∷ hs) w).tasks)
          (omega arith) (arrived-GoesOn id request hs w kept))

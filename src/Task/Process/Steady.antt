-- ===== src/Task/Process/Steady.antt =====
-- Predicates of the state that every segment of a coroutine keeps.
use oldman_agent.Prelude.{Bool, true, false, if◌then◌else◌}
use oldman_agent.Exec.{Error, Result, ok, err, Exec}
use oldman_agent.Exec.Stable.{Stable}
use oldman_agent.Task.Process.{Process, finished, segment, await, handle, run, ◌>>=◌}

abbrev pub Steady : {S A : Type 0} → (S → Type 0) → Process S A → Type 1
Steady P (finished r) = Unit
Steady {A} P (segment {B} m k) = Stable P m × ((r : Result B) → Steady P (k r))

module _ {S A : Type 0} (P : S → Type 0) where
  pub Steady-await : (m : Exec S A) → Stable P m → Steady P (await m)
  unfolding await
  Steady-await m h = (h, λ r. tt)

  run_at-Stable : (p : Process S A) (s : S) → Steady P p → P s → P (run p s).1
  unfolding run
  run_at-Stable (finished r) s h k = k
  run_at-Stable (segment m next) s h k =
      run_at-Stable (next (m s).0) (m s).1 (h.1 (m s).0) (h.0.at s k)

  pub run-Stable : (p : Process S A) → Steady P p → Stable P (run p)
  run-Stable p h = record { at = λ s k. run_at-Stable p s h k }

  pub Steady-if :
      (b : Bool) (p q : Process S A) → Steady P p → Steady P q → Steady P (if b then p else q)
  Steady-if true p q h k = h
  Steady-if false p q h k = k

  pub Steady-handle :
      (p : Process S A) (handler : Error → Process S A)
      → Steady P p
      → ((e : Error) → Steady P (handler e))
      → Steady P (handle p handler)
  unfolding handle
  Steady-handle (finished (ok a)) handler h k = tt
  Steady-handle (finished (err e)) handler h k = k e
  Steady-handle (segment m next) handler h k = (h.0, λ r. Steady-handle (next r) handler (h.1 r) k)

module _ {S A B : Type 0} (P : S → Type 0) where
  pub Steady-bind :
      (p : Process S A) (f : A → Process S B)
      → Steady P p
      → ((a : A) → Steady P (f a))
      → Steady P (p >>= f)
  unfolding ◌>>=◌
  Steady-bind (finished (ok a)) f h k = k a
  Steady-bind (finished (err e)) f h k = tt
  Steady-bind (segment m next) f h k = (h.0, λ r. Steady-bind (next r) f (h.1 r) k)

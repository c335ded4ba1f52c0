-- ===== src/Task/Process/Alone.antt =====
-- A coroutine that runs alone does what its parts do one after the other.
use mathlib.Core.Path.{fun_ext}
use oldman_agent.Prelude.{◌≡◌, refl, ◌∙◌}
use oldman_agent.Exec.{Error, ok, err, Exec, pure, catch, ◌>>=◌}
use oldman_agent.Task.Process
use oldman_agent.Task.Process.{Process, finished, segment, await, return, handle, run}

module _ {S A : Type 0} where
  pub run-await : (m : Exec S A) → run (await m) ≡ m
  unfolding run await
  run-await m = refl

  pub run-return : (a : A) → run (return {S = S} a) ≡ pure a
  unfolding run return ◌>>=◌
  run-return a = refl

  run_at-handle :
      (p : Process S A) (handler : Error → Process S A) (s : S)
      → run (handle p handler) s ≡ catch (run p) (λ e. run (handler e)) s
  unfolding run handle catch
  run_at-handle (finished (ok a)) handler s = refl
  run_at-handle (finished (err e)) handler s = refl
  run_at-handle (segment m k) handler s = run_at-handle (k (m s).0) handler (m s).1

  run-handle :
      (p : Process S A) (handler : Error → Process S A)
      → run (handle p handler) ≡ catch (run p) (λ e. run (handler e))
  run-handle p handler = fun_ext (run_at-handle p handler)

  pub run-handle_parts :
      (p : Process S A) (handler : Error → Process S A) (m : Exec S A) (g : Error → Exec S A)
      → run p ≡ m
      → ((e : Error) → run (handler e) ≡ g e)
      → run (handle p handler) ≡ catch m g
  run-handle_parts p handler m g h k = run-handle p handler ∙ λ i. catch (h i) (fun_ext k i)

module _ {S A B : Type 0} where
  pub run_at-bind :
      (p : Process S A) (f : A → Process S B) (s : S)
      → run (Process.◌>>=◌ p f) s ≡ (run p >>= λ a. run (f a)) s
  unfolding run Process.◌>>=◌ ◌>>=◌
  run_at-bind (finished (ok a)) f s = refl
  run_at-bind (finished (err e)) f s = refl
  run_at-bind (segment m k) f s = run_at-bind (k (m s).0) f (m s).1

  run-bind :
      (p : Process S A) (f : A → Process S B) → run (Process.◌>>=◌ p f) ≡ (run p >>= λ a. run (f a))
  run-bind p f = fun_ext (run_at-bind p f)

  -- From the parts.
  pub run-bind_parts :
      (p : Process S A) (f : A → Process S B) (m : Exec S A) (g : A → Exec S B)
      → run p ≡ m
      → ((a : A) → run (f a) ≡ g a)
      → run (Process.◌>>=◌ p f) ≡ (m >>= g)
  run-bind_parts p f m g h k = run-bind p f ∙ (λ i. h i >>= fun_ext k i)

-- ===== src/Task/Process.antt =====
-- A coroutine as segments that run without interruption, each up to an `await`.
pub mod Alone
pub mod Steady
use oldman_agent.Exec.{Error, Result, ok, err, Exec}

pub data Process (S A : Type 0) : Type 1 where
  finished : Result A → Process S A
  segment : {B : Type 0} → Exec S B → (Result B → Process S A) → Process S A

module _ {S A : Type 0} where
  -- A segment of its own.
  unfoldable pub await : Exec S A → Process S A
  await m = segment m finished

  unfoldable pub return : A → Process S A
  return a = finished (ok a)

  -- `try: p except Exception as e: handler(e)`
  unfoldable pub handle : Process S A → (Error → Process S A) → Process S A
  handle (finished (ok a)) handler = finished (ok a)
  handle (finished (err e)) handler = handler e
  handle (segment m k) handler = segment m (λ r. handle (k r) handler)

module _ {S A : Type 0} where
  -- All segments, with nothing in between.
  unfoldable pub run : Process S A → Exec S A
  run (finished r) s = (r, s)
  run (segment m k) s = let (r, s') = m s in run (k r) s'

module _ {S A B : Type 0} where
  infixl 10 ◌>>=◌ ◌>>◌
  unfoldable pub ◌>>=◌ : Process S A → (A → Process S B) → Process S B
  finished (ok a) >>= f = f a
  finished (err e) >>= f = finished (err e)
  segment m k >>= f = segment m (λ r. k r >>= f)

  abbrev pub ◌>>◌ : Process S A → Process S B → Process S B
  p >> q = p >>= λ _. q

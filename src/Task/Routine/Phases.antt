-- ===== src/Task/Routine/Phases.antt =====
-- Coroutines that take a task through its phases, whatever happens to the database in between.
use oldman_agent.Prelude.{ℕ, zero, suc, ◌≡◌, refl, sym, Bool, true, false, some, [], if◌then◌else◌}
use oldman_agent.Exec.{Error, Result, ok, err, Exec, pure, gets, raise, modify}
use mathlib.Core.Path.{subst}
use oldman_agent.Exec.Ends.{Ends}
use oldman_agent.Task.Session.{TaskEvent, completed, Session, emit}
use oldman_agent.Task.Process.{Process, finished, segment, await, return, ◌>>=◌}
use oldman_agent.Task.Executor.LifeCycle.{
  Phase, closed, delivered, step, is_closed, Led, Stays, Led-emit,
}

-- From that phase, the coroutine ends within `n` segments, each begun with the task still open, and
-- `Q` holds of its result and of the phase then. The segments only rely on the events of the task.
abbrev pub Goes :
    {R A : Type 0} → ℕ → Phase → (Result A → Phase → Type 0) → Process (Session R) A → Type 1
Goes n p Q (finished r) = Q r p × Unit {1}
Goes zero p Q (segment m k) = ⊥ × Unit {1}
Goes {R} (suc n) p Q (segment m k) =
    (is_closed p ≡ false)
    × ((s : Session R)
        → Led [] s.queue p
        → (q : Phase) × Led [] (m s).1.queue q × Goes n q Q (k (m s).0))

-- `d` segments more than `n`
abbrev pub spare : ℕ → ℕ → ℕ
spare zero n = n
spare (suc d) n = suc (spare d n)

-- In that phase, the call sends nothing.
abbrev pub SendsNothing : {R A : Type 0} → Phase → Exec (Session R) A → Type 0
SendsNothing {R} p m = (s : Session R) → Led [] s.queue p → Ends m s (Stays [] p)

module _ {R A : Type 0} (Q : Result A → Phase → Type 0) where
  Goes-suc : (n : ℕ) (p : Phase) (c : Process (Session R) A) → Goes n p Q c → Goes (suc n) p Q c
  Goes-suc n p (finished r) h = h
  Goes-suc zero p (segment m k) h = absurd h.0
  Goes-suc (suc n) p (segment m k) h =
      (h.0, λ s led. let (q, led', later) = h.1 s led in (q, led', Goes-suc n q _ later))

  pub Goes-spare :
      (d n : ℕ) (p : Phase) (c : Process (Session R) A) → Goes n p Q c → Goes (spare d n) p Q c
  Goes-spare zero n p c h = h
  Goes-spare (suc d) n p c h = Goes-suc (spare d n) p c (Goes-spare d n p c h)

  pub Goes-if :
      (n : ℕ) (p : Phase) (b : Bool) (c d : Process (Session R) A)
      → Goes n p Q c
      → Goes n p Q d
      → Goes n p Q (if b then c else d)
  Goes-if n p true c d h k = h
  Goes-if n p false c d h k = k

  -- A call that sends nothing, and what follows its result.
  pub Goes-await_then :
      {B : Type 0} (n : ℕ) (p : Phase) (m : Exec (Session R) B) (f : B → Process (Session R) A)
      → is_closed p ≡ false
      → SendsNothing p m
      → ((b : B) → Goes n p Q (f b))
      → ((e : Error) → Q (err e) p)
      → Goes (suc n) p Q (await m >>= f)
  unfolding await ◌>>=◌
  Goes-await_then n p m f ongoing quiet h k =
      (ongoing, λ s led. (p, (quiet s led).at, after (m s).0))
    where
      after : (r : Result _) → Goes n p Q (finished r >>= f)
      after (ok b) = h b
      after (err e) = (k e, tt)

  pub Goes-raise_then :
      {B : Type 0} (n : ℕ) (p : Phase) (e : Error) (f : B → Process (Session R) A)
      → is_closed p ≡ false
      → Q (err e) p
      → Goes (suc n) p Q (await (raise e) >>= f)
  unfolding await ◌>>=◌ raise
  Goes-raise_then n p e f ongoing h = (ongoing, λ s led. (p, led, (h, tt)))

  pub Goes-pure_then :
      {B : Type 0} (n : ℕ) (p : Phase) (b : B) (f : B → Process (Session R) A)
      → is_closed p ≡ false
      → Goes n p Q (f b)
      → Goes (suc n) p Q (await (pure b) >>= f)
  unfolding await ◌>>=◌ pure
  Goes-pure_then n p b f ongoing h = (ongoing, λ s led. (p, led, h))

  pub Goes-gets_then :
      {B : Type 0} (n : ℕ) (p : Phase) (g : Session R → B) (f : B → Process (Session R) A)
      → is_closed p ≡ false
      → ((b : B) → Goes n p Q (f b))
      → Goes (suc n) p Q (await (gets g) >>= f)
  unfolding await ◌>>=◌ gets
  Goes-gets_then n p g f ongoing h = (ongoing, λ s led. (p, led, h (g s)))

  -- An event, and what follows it.
  pub Goes-emit_then :
      (n : ℕ) (p q : Phase) (e : TaskEvent) (f : Unit {0} → Process (Session R) A)
      → is_closed p ≡ false
      → step p e ≡ some q
      → Goes n q Q (f tt)
      → Goes (suc n) p Q (await (emit e) >>= f)
  unfolding await ◌>>=◌ emit modify
  Goes-emit_then n p q e f ongoing k h = (ongoing, λ s led. (q, Led-emit [] s.queue p q e led k, h))

module _ (R : Type 0) (Q : Result (Unit {0}) → Phase → Type 0) where
  pub Goes-emit :
      (p q : Phase) (e : TaskEvent)
      → is_closed p ≡ false
      → step p e ≡ some q
      → Q (ok tt) q
      → Goes 1 p Q (await (emit {R = R} e))
  unfolding await emit modify
  Goes-emit p q e ongoing k h = (ongoing, λ s led. (q, Led-emit [] s.queue p q e led k, (h, tt)))

  pub Goes-deliver :
      (p : Phase) (e : TaskEvent)
      → is_closed p ≡ false
      → step p e ≡ some delivered
      → Q (ok tt) closed
      → Goes 2 p Q (await (emit {R = R} e) >>= λ _. await (emit completed))
  Goes-deliver p e ongoing k h =
      Goes-emit_then Q 1 p delivered e _ ongoing k
        (Goes-emit delivered closed completed refl refl h)

-- A call that sends nothing and does not raise.
abbrev pub IsCalm : {A : Type 0} → Phase → Result A → Phase → Type 0
IsCalm p (ok a) q = q ≡ p
IsCalm p (err e) q = ⊥

module _ {R A B : Type 0} (p : Phase) where
  -- After such calls, what follows them.
  pub Goes-bind :
      (Q : Result B → Phase → Type 0) (n k : ℕ) (o : Phase) (c : Process (Session R) A)
      (f : A → Process (Session R) B)
      → Goes n o (IsCalm p) c
      → ((a : A) → Goes k p Q (f a))
      → Goes (spare n k) o Q (c >>= f)
  unfolding ◌>>=◌
  Goes-bind Q n k o (finished (ok a)) f h next =
      subst (λ q. Goes (spare n k) q Q (f a)) (sym h.0) (Goes-spare Q n k p (f a) (next a))
  Goes-bind Q n k o (finished (err e)) f h next = absurd h.0
  Goes-bind Q zero k o (segment m c) f h next = absurd h.0
  Goes-bind Q (suc n) k o (segment m c) f h next = (
    h.0,
    λ s led. let (q, led', later) = h.1 s led in (q, led', Goes-bind Q n k q _ f later next),
  )

  pub Goes-map :
      (n : ℕ) (o : Phase) (c : Process (Session R) A) (g : A → B)
      → Goes n o (IsCalm p) c
      → Goes n o (IsCalm p) (c >>= λ a. return (g a))
  unfolding ◌>>=◌ return
  Goes-map n o (finished (ok a)) g h = h
  Goes-map n o (finished (err e)) g h = absurd h.0
  Goes-map zero o (segment m c) g h = absurd h.0
  Goes-map (suc n) o (segment m c) g h =
      (h.0, λ s led. let (q, led', later) = h.1 s led in (q, led', Goes-map n q _ g later))

-- ===== src/Task/Executor/LifeCycle.antt =====
-- The events of a task, as a state machine that the queue runs through.
use oldman_agent.Prelude.{
  ◌≡◌, refl, ap, ◌∙◌, Bool, true, false, Option, none, some, List, [], ◌∷◌, ◌++◌,
}
use oldman_agent.Exec.{Result, ok, err, Exec, ◌>>=◌, ◌>>◌}
use oldman_agent.Exec.Ends.{Ends, Ends-modify, Ends-bind, Ends-then}
use oldman_agent.Db.{Db}
use oldman_agent.Task.Session.{
  TaskEvent, submitted, working, artifact, completed, failed, Session, emit, on_db,
}

-- Where a task stands: nothing sent, submitted, at work, its artifact sent, or at its end.
pub data Phase : Type 0 where
  unsent open_task at_work delivered closed : Phase

-- The phase after an event, where the event may come.
abbrev pub step : Phase → TaskEvent → Option Phase
step unsent submitted = some open_task
step unsent failed = some closed
step open_task working = some at_work
step open_task (artifact content detail) = some delivered
step open_task failed = some closed
step at_work (artifact content detail) = some delivered
step at_work failed = some closed
step delivered completed = some closed
step _ _ = none

abbrev pub steps_from : Option Phase → List TaskEvent → Option Phase
steps_from at [] = at
steps_from none (e ∷ es) = none
steps_from (some p) (e ∷ es) = steps_from (step p e) es

-- What was queued since, and the phase it led to.
pub record Led (before after : List TaskEvent) (p : Phase) : Type 0 where
  pub sent : List TaskEvent
  pub queued : after ≡ before ++ sent
  pub led : steps_from (some unsent) sent ≡ some p

steps_from-append :
    (at : Option Phase) (es : List TaskEvent) (e : TaskEvent) (p q : Phase)
    → steps_from at es ≡ some p
    → step p e ≡ some q
    → steps_from at (es ++ e ∷ []) ≡ some q
steps_from-append at [] e p q h k = rw h k
steps_from-append none (x ∷ es) e p q h k = absurd cc
steps_from-append (some r) (x ∷ es) e p q h k = steps_from-append (step r x) es e p q h k

append_assoc : (xs ys zs : List TaskEvent) → (xs ++ ys) ++ zs ≡ xs ++ (ys ++ zs)
append_assoc [] ys zs = refl
append_assoc (x ∷ xs) ys zs = ap (λ l. x ∷ l) (append_assoc xs ys zs)

pub Led-emit :
    (before after : List TaskEvent) (p q : Phase) (e : TaskEvent)
    → Led before after p
    → step p e ≡ some q
    → Led before (after ++ e ∷ []) q
Led-emit before after p q e h k = record {
  sent = h.sent ++ e ∷ [];
  queued = ap (λ l. l ++ e ∷ []) h.queued ∙ append_assoc before h.sent (e ∷ []);
  led = steps_from-append _ h.sent e p q h.led k;
}

abbrev pub is_closed : Phase → Bool
is_closed closed = true
is_closed _ = false

-- A task that ends has come to its end, and one that raises has not.
abbrev pub Closes : {R A : Type 0} → List TaskEvent → Result A → Session R → Type 0
Closes before (ok a) s = Led before s.queue closed
Closes before (err e) s = (p : Phase) × Led before s.queue p × (is_closed p ≡ false)

-- After a call that sends nothing, or one that sends an event.
abbrev pub Stays : {R A : Type 0} → List TaskEvent → Phase → Result A → Session R → Type 0
Stays before p r s = Led before s.queue p

module _ {R : Type 0} (before : List TaskEvent) where
  pub Ends-emit :
      (e : TaskEvent) (s : Session R) (Q : Result (Unit {0}) → Session R → Type 0) (p q : Phase)
      → Led before s.queue p
      → step p e ≡ some q
      → ((s' : Session R) → Led before s'.queue q → Q (ok tt) s')
      → Ends (emit e) s Q
  unfolding emit
  Ends-emit e s Q p q h k l = Ends-modify _ s _ (l _ (Led-emit before s.queue p q e h k))

  pub Ends-emit_last :
      (e : TaskEvent) (s : Session R) (p : Phase)
      → Led before s.queue p
      → step p e ≡ some closed
      → Ends (emit e) s (Closes before)
  Ends-emit_last e s p h k = Ends-emit e s (Closes before) p closed h k (λ s' h'. h')

  pub Ends-emit_then :
      (e : TaskEvent) (f : Exec (Session R) (Unit {0})) (s : Session R) (p q : Phase)
      → Led before s.queue p
      → step p e ≡ some q
      → ((s' : Session R) → Led before s'.queue q → Ends f s' (Closes before))
      → Ends (emit e >> f) s (Closes before)
  Ends-emit_then e f s p q h k l = Ends-bind _ _ s _ (Ends-emit e s _ p q h k l)

  -- An artifact and the end.
  pub Ends-deliver :
      (e : TaskEvent) (s : Session R) (p : Phase)
      → Led before s.queue p
      → step p e ≡ some delivered
      → Ends (emit e >> emit completed) s (Closes before)
  Ends-deliver e s p h k =
      Ends-emit_then e _ s p delivered h k λ s' h'. Ends-emit_last completed s' delivered h' refl

module _ {R A : Type 0} (before : List TaskEvent) where
  pub Ends-on_db :
      (m : Exec (Db R) A) (s : Session R) (p : Phase)
      → Led before s.queue p
      → Ends (on_db m) s (Stays before p)
  unfolding on_db
  Ends-on_db m s p h = record { at = h }

  pub Ends-on_db_then :
      (m : Exec (Db R) A) (f : A → Exec (Session R) (Unit {0})) (s : Session R) (p : Phase)
      → Led before s.queue p
      → is_closed p ≡ false
      → ((a : A) (s' : Session R) → Led before s'.queue p → Ends (f a) s' (Closes before))
      → Ends (on_db m >>= f) s (Closes before)
  Ends-on_db_then m f s p h ongoing k =
      Ends-then _ _ s (Stays before p) _ (Ends-on_db m s p h) k (λ e s' h'. (p, h', ongoing))

append-nil : (xs : List TaskEvent) → xs ≡ xs ++ []
append-nil [] = refl
append-nil (x ∷ xs) = ap (λ l. x ∷ l) (append-nil xs)

-- Before anything is sent.
pub Led-start : (before : List TaskEvent) → Led before before unsent
Led-start before = record { sent = []; queued = append-nil before; led = refl }

-- ===== src/Exec/Stable.antt =====
-- Predicates of the state that a call keeps on every outcome, raised errors included.
use oldman_agent.Prelude.{Bool, true, false, if◌then◌else◌}
use oldman_agent.Exec.{
  Error, Result, ok, err, Exec, pure, raise, gets, modify, raise_if, handle_result, catch,
  transaction, continue, ◌>>=◌,
}
use oldman_agent.Exec.Rules.{Wp, transaction_keeps}

-- If `P` holds of the state before, it holds of the state in which the call ends.
pub record Stable {S A : Type 0} (P : S → Type 0) (m : Exec S A) : Type 0 where
  pub at : (s : S) → P s → P (m s).1

module _ {S A : Type 0} (P : S → Type 0) where
  -- A transaction keeps what the call keeps when it finishes.
  pub Stable-transaction :
      (m : Exec S A) → ((s : S) → P s → Wp m s (λ _ s'. P s')) → Stable P (transaction m)
  Stable-transaction m h = record { at = λ s k. transaction_keeps P m s k (h s k) }

  handled_keeps :
      (handler : Error → Exec S A) (r : Result A × S)
      → ((e : Error) → Stable P (handler e))
      → P r.1
      → P (handle_result handler r).1
  handled_keeps handler (ok a, s) k h = h
  handled_keeps handler (err e, s) k h = (k e).at s h

  pub Stable-catch :
      (m : Exec S A) (handler : Error → Exec S A)
      → Stable P m
      → ((e : Error) → Stable P (handler e))
      → Stable P (catch m handler)
  unfolding catch
  Stable-catch m handler h k = record { at = λ s p. handled_keeps handler (m s) k (h.at s p) }

  -- A choice between stable calls, a failing call, a query and a value.
  pub Stable-if :
      (b : Bool) (m n : Exec S A) → Stable P m → Stable P n → Stable P (if b then m else n)
  Stable-if false m n yes_branch no_branch = no_branch
  Stable-if true m n yes_branch no_branch = yes_branch

  pub Stable-raise : (e : Error) → (let failing : Exec S A = raise e in Stable P failing)
  unfolding raise
  Stable-raise e = record { at = λ before holds. holds }

  pub Stable-gets : (query : S → A) → Stable P (gets query)
  unfolding gets
  Stable-gets query = record { at = λ before holds. holds }

  pub Stable-pure : (value : A) → Stable P (pure value)
  unfolding pure
  Stable-pure value = record { at = λ before holds. holds }

module _ {S A B : Type 0} (P : S → Type 0) where
  continued_keeps :
      (f : A → Exec S B) (r : Result A × S)
      → ((a : A) → Stable P (f a))
      → P r.1
      → P (continue f r).1
  continued_keeps f (ok a, s) k h = (k a).at s h
  continued_keeps f (err e, s) k h = h

  pub Stable-bind :
      (m : Exec S A) (f : A → Exec S B)
      → Stable P m
      → ((a : A) → Stable P (f a))
      → Stable P (m >>= f)
  unfolding ◌>>=◌
  Stable-bind m f h k = record { at = λ s p. continued_keeps f (m s) k (h.at s p) }

module _ {S : Type 0} (P : S → Type 0) where
  pub Stable-raise_if : (b : Bool) (e : Error) → Stable P (raise_if b e)
  unfolding raise_if
  Stable-raise_if b e = record { at = λ s h. h }

  pub Stable-modify : (f : S → S) → ((s : S) → P s → P (f s)) → Stable P (modify f)
  unfolding modify
  Stable-modify f h = record { at = h }

-- ===== src/Exec/Ends.antt =====
-- What holds when a call ends, of its result whether a value or an error, and of the state.
use oldman_agent.Prelude.{◌≡◌, refl, Bool, true, false, if◌then◌else◌}
use oldman_agent.Exec.{
  Error, Result, ok, err, Exec, pure, raise, gets, modify, raise_if, handle_result, catch,
  commit_or_rollback, transaction, continue, ◌>>=◌,
}

-- `Q` holds of the result and the state in which `m` ends from `s`.
pub record Ends {S A : Type 0} (m : Exec S A) (s : S) (Q : Result A → S → Type 0) : Type 0 where
  pub at : Q (m s).0 (m s).1

module _ {S A : Type 0} where
  pub Ends-pure : (a : A) (s : S) (Q : Result A → S → Type 0) → Q (ok a) s → Ends (pure a) s Q
  unfolding pure
  Ends-pure a s Q h = record { at = h }

  pub Ends-raise :
      (e : Error) (s : S) (Q : Result A → S → Type 0) → Q (err e) s → Ends (raise e) s Q
  unfolding raise
  Ends-raise e s Q h = record { at = h }

  pub Ends-gets :
      (f : S → A) (s : S) (Q : Result A → S → Type 0) → Q (ok (f s)) s → Ends (gets f) s Q
  unfolding gets
  Ends-gets f s Q h = record { at = h }

  pub Ends-if :
      (b : Bool) (m n : Exec S A) (s : S) (Q : Result A → S → Type 0)
      → (b ≡ true → Ends m s Q)
      → (b ≡ false → Ends n s Q)
      → Ends (if b then m else n) s Q
  Ends-if true m n s Q h k = h refl
  Ends-if false m n s Q h k = k refl

  pub Ends-weaken :
      (m : Exec S A) (s : S) {P : Result A → S → Type 0} (Q : Result A → S → Type 0)
      → Ends m s P
      → ((r : Result A) (s' : S) → P r s' → Q r s')
      → Ends m s Q
  Ends-weaken m s Q h k = record { at = k (m s).0 (m s).1 h.at }

  -- After a transaction: what the call ensures when it finishes, and the state before on an error.
  transacted_ends :
      (before : S) (Q : Result A → S → Type 0) (r : Result A × S)
      → Q r.0 r.1
      → ((e : Error) → Q (err e) before)
      → Q (commit_or_rollback before r).0 (commit_or_rollback before r).1
  transacted_ends before Q (ok a, s) h k = h
  transacted_ends before Q (err e, s) h k = k e

  pub Ends-transaction :
      (m : Exec S A) (s : S) (Q : Result A → S → Type 0)
      → Ends m s Q
      → ((e : Error) → Q (err e) s)
      → Ends (transaction m) s Q
  unfolding transaction
  Ends-transaction m s Q h k = record { at = transacted_ends s Q (m s) h.at k }

  transact_ends :
      (before : S) (P Q : Result A → S → Type 0) (r : Result A × S)
      → P r.0 r.1
      → ((a : A) (s' : S) → P (ok a) s' → Q (ok a) s')
      → ((e : Error) → Q (err e) before)
      → Q (commit_or_rollback before r).0 (commit_or_rollback before r).1
  transact_ends before P Q (ok a, s) h k l = k a s h
  transact_ends before P Q (err e, s) h k l = l e

  -- The same by what the call ensures.
  pub Ends-transact :
      (m : Exec S A) (s : S) (Q P : Result A → S → Type 0)
      → Ends m s P
      → ((a : A) (s' : S) → P (ok a) s' → Q (ok a) s')
      → ((e : Error) → Q (err e) s)
      → Ends (transaction m) s Q
  unfolding transaction
  Ends-transact m s Q P h k l = record { at = transact_ends s P Q (m s) h.at k l }

  -- What a handler does with an error, and what stays of a value.
  abbrev pub Handled : (Error → Exec S A) → (Result A → S → Type 0) → Result A → S → Type 0
  Handled handler Q (ok a) s = Q (ok a) s
  Handled handler Q (err e) s = Ends (handler e) s Q

  handled_ends :
      (handler : Error → Exec S A) (Q : Result A → S → Type 0) (r : Result A × S)
      → Handled handler Q r.0 r.1
      → Q (handle_result handler r).0 (handle_result handler r).1
  handled_ends handler Q (ok a, s) h = h
  handled_ends handler Q (err e, s) h = h.at

  pub Ends-catch :
      (m : Exec S A) (handler : Error → Exec S A) (s : S) (Q : Result A → S → Type 0)
      → Ends m s (Handled handler Q)
      → Ends (catch m handler) s Q
  unfolding catch
  Ends-catch m handler s Q h = record { at = handled_ends handler Q (m s) h.at }

  pub Ends-try :
      (m : Exec S A) (handler : Error → Exec S A) (s : S) (P Q : Result A → S → Type 0)
      → Ends m s P
      → ((a : A) (s' : S) → P (ok a) s' → Q (ok a) s')
      → ((e : Error) (s' : S) → P (err e) s' → Ends (handler e) s' Q)
      → Ends (catch m handler) s Q
  Ends-try m handler s P Q h k l =
      Ends-catch m handler s Q (Ends-weaken m s (Handled handler Q) h split)
    where
      split : (r : Result A) (s' : S) → P r s' → Handled handler Q r s'
      split (ok a) s' p = k a s' p
      split (err e) s' p = l e s' p

module _ {S : Type 0} where
  pub Ends-modify :
      (f : S → S) (s : S) (Q : Result (Unit {0}) → S → Type 0)
      → Q (ok tt) (f s)
      → Ends (modify f) s Q
  unfolding modify
  Ends-modify f s Q h = record { at = h }

  raise_if_ends :
      (b : Bool) (e : Error) (s : S) (Q : Result (Unit {0}) → S → Type 0)
      → (b ≡ true → Q (err e) s)
      → (b ≡ false → Q (ok tt) s)
      → Q (raise_if b e s).0 (raise_if b e s).1
  unfolding raise_if
  raise_if_ends true e s Q h k = h refl
  raise_if_ends false e s Q h k = k refl

  pub Ends-raise_if :
      (b : Bool) (e : Error) (s : S) (Q : Result (Unit {0}) → S → Type 0)
      → (b ≡ true → Q (err e) s)
      → (b ≡ false → Q (ok tt) s)
      → Ends (raise_if b e) s Q
  Ends-raise_if b e s Q h k = record { at = raise_if_ends b e s Q h k }

module _ {S A B : Type 0} where
  -- What follows a value, and what is said of an error.
  abbrev pub Then : (A → Exec S B) → (Result B → S → Type 0) → Result A → S → Type 0
  Then f Q (ok a) s = Ends (f a) s Q
  Then f Q (err e) s = Q (err e) s

  continued_ends :
      (f : A → Exec S B) (Q : Result B → S → Type 0) (r : Result A × S)
      → Then f Q r.0 r.1
      → Q (continue f r).0 (continue f r).1
  continued_ends f Q (ok a, s) h = h.at
  continued_ends f Q (err e, s) h = h

  pub Ends-bind :
      (m : Exec S A) (f : A → Exec S B) (s : S) (Q : Result B → S → Type 0)
      → Ends m s (Then f Q)
      → Ends (m >>= f) s Q
  unfolding ◌>>=◌
  Ends-bind m f s Q h = record { at = continued_ends f Q (m s) h.at }

  -- The same by a condition in the middle.
  pub Ends-then :
      (m : Exec S A) (f : A → Exec S B) (s : S) (P : Result A → S → Type 0)
      (Q : Result B → S → Type 0)
      → Ends m s P
      → ((a : A) (s' : S) → P (ok a) s' → Ends (f a) s' Q)
      → ((e : Error) (s' : S) → P (err e) s' → Q (err e) s')
      → Ends (m >>= f) s Q
  Ends-then m f s P Q h k l = Ends-bind m f s Q (Ends-weaken m s (Then f Q) h split)
    where
      split : (r : Result A) (s' : S) → P r s' → Then f Q r s'
      split (ok a) s' p = k a s' p
      split (err e) s' p = l e s' p

-- ===== src/Exec/Rules.antt =====
-- What holds after a call that finished, one rule for each way to build a call.
use oldman_agent.Prelude.{◌≡◌, refl, Bool, true, false, if◌then◌else◌}
use mathlib.Core.Path.{subst}
use oldman_agent.Exec.{
  Error, Result, ok, err, Exec, pure, raise, gets, modify, raise_if, handle_result, catch,
  commit_or_rollback, transaction, continue, ◌>>=◌,
}

-- Of a value and a state that a call ended in; nothing is said of one that raised.
abbrev pub Post : {S A : Type 0} → (A → S → Type 0) → Result A × S → Type 0
Post Q (ok a, s) = Q a s
Post Q (err e, s) = Unit

-- If `m` finishes from `s`, then `Q` holds of its value and its state.
pub record Wp {S A : Type 0} (m : Exec S A) (s : S) (Q : A → S → Type 0) : Type 0 where
  pub at : Post Q (m s)

module _ {S A : Type 0} where
  pub Wp-pure : (a : A) (s : S) (Q : A → S → Type 0) → Q a s → Wp (pure a) s Q
  unfolding pure
  Wp-pure a s Q h = record { at = h }

  pub Wp-raise : (e : Error) (s : S) (Q : A → S → Type 0) → Wp (raise e) s Q
  unfolding raise
  Wp-raise e s Q = record { at = tt }

  pub Wp-gets : (f : S → A) (s : S) (Q : A → S → Type 0) → Q (f s) s → Wp (gets f) s Q
  unfolding gets
  Wp-gets f s Q h = record { at = h }

  pub Wp-if :
      (b : Bool) (m n : Exec S A) (s : S) (Q : A → S → Type 0)
      → (b ≡ true → Wp m s Q)
      → (b ≡ false → Wp n s Q)
      → Wp (if b then m else n) s Q
  Wp-if true m n s Q h k = h refl
  Wp-if false m n s Q h k = k refl

  weaken_result :
      {P : A → S → Type 0} (Q : A → S → Type 0) (r : Result A × S)
      → Post P r
      → ((a : A) (s : S) → P a s → Q a s)
      → Post Q r
  weaken_result Q (ok a, s) h k = k a s h
  weaken_result Q (err e, s) h k = tt

  pub Wp-weaken :
      (m : Exec S A) (s : S) {P : A → S → Type 0} (Q : A → S → Type 0)
      → Wp m s P
      → ((a : A) (s' : S) → P a s' → Q a s')
      → Wp m s Q
  Wp-weaken m s Q h k = record { at = weaken_result Q (m s) h.at k }

  conj_result :
      (P Q : A → S → Type 0) (r : Result A × S)
      → Post P r
      → Post Q r
      → Post (λ a s. P a s × Q a s) r
  conj_result P Q (ok a, s) h k = (h, k)
  conj_result P Q (err e, s) h k = tt

  pub Wp-conj :
      (m : Exec S A) (s : S) {P Q : A → S → Type 0}
      → Wp m s P
      → Wp m s Q
      → Wp m s (λ a s'. P a s' × Q a s')
  Wp-conj m s {P} {Q} h k = record { at = conj_result P Q (m s) h.at k.at }

  transaction_result :
      (Q : A → S → Type 0) (before : S) (r : Result A × S)
      → Post Q r
      → Post Q (commit_or_rollback before r)
  transaction_result Q before (ok a, s) h = h
  transaction_result Q before (err e, s) h = tt

  pub Wp-transaction :
      (m : Exec S A) (s : S) (Q : A → S → Type 0) → Wp m s Q → Wp (transaction m) s Q
  unfolding transaction
  Wp-transaction m s Q h = record { at = transaction_result Q s (m s) h.at }

module _ {S A : Type 0} where
  handle_result-Post :
      (handler : Error → Exec S A) (Q : A → S → Type 0) (r : Result A × S)
      → Post Q r
      → ((e : Error) (s : S) → r ≡ (err e, s) → Wp (handler e) s Q)
      → Post Q (handle_result handler r)
  handle_result-Post handler Q (ok a, s) h k = h
  handle_result-Post handler Q (err e, s) h k = (k e s refl).at

  pub Wp-catch :
      (m : Exec S A) (handler : Error → Exec S A) (s : S) (Q : A → S → Type 0)
      → Wp m s Q
      → ((e : Error) (s' : S) → m s ≡ (err e, s') → Wp (handler e) s' Q)
      → Wp (catch m handler) s Q
  unfolding catch
  Wp-catch m handler s Q h k = record { at = handle_result-Post handler Q (m s) h.at k }

  abbrev FailedAt : S → Result A × S → Type 0
  FailedAt s (ok a, s') = Unit
  FailedAt s (err e, s') = s' ≡ s

  rolled_back_result : (s : S) (r : Result A × S) → FailedAt s (commit_or_rollback s r)
  rolled_back_result s (ok a, s') = tt
  rolled_back_result s (err e, s') = refl

  -- A transaction that raises leaves the state as it was.
  pub transaction_failed :
      (m : Exec S A) (s s' : S) (e : Error) → transaction m s ≡ (err e, s') → s' ≡ s
  unfolding transaction
  transaction_failed m s s' e h = subst (FailedAt s) h (rolled_back_result s (m s))

module _ {S A : Type 0} where
  rollback_result :
      (P : S → Type 0) (before : S) (r : Result A × S)
      → Post (λ _ s'. P s') r
      → P before
      → P (commit_or_rollback before r).1
  rollback_result P before (ok a, s) h k = h
  rollback_result P before (err e, s) h k = k

  -- With a rollback, what a finished call keeps is kept on every outcome.
  pub transaction_keeps :
      (P : S → Type 0) (m : Exec S A) (s : S) → P s → Wp m s (λ _ s'. P s') → P (transaction m s).1
  unfolding transaction
  transaction_keeps P m s k h = rollback_result P s (m s) h.at k

module _ {S : Type 0} where
  pub Wp-modify : (f : S → S) (s : S) (Q : Unit {0} → S → Type 0) → Q tt (f s) → Wp (modify f) s Q
  unfolding modify
  Wp-modify f s Q h = record { at = h }

  raise_if_result :
      (b : Bool) (e : Error) (s : S) (Q : Unit {0} → S → Type 0)
      → (b ≡ false → Q tt s)
      → Post Q (raise_if b e s)
  unfolding raise_if
  raise_if_result true e s Q h = tt
  raise_if_result false e s Q h = h refl

  pub Wp-raise_if :
      (b : Bool) (e : Error) (s : S) (Q : Unit {0} → S → Type 0)
      → (b ≡ false → Q tt s)
      → Wp (raise_if b e) s Q
  Wp-raise_if b e s Q h = record { at = raise_if_result b e s Q h }

module _ {S A B : Type 0} where
  continue_result :
      (f : A → Exec S B) (Q : B → S → Type 0) (r : Result A × S)
      → Post (λ a s. Wp (f a) s Q) r
      → Post Q (continue f r)
  continue_result f Q (ok a, s) h = h.at
  continue_result f Q (err e, s) h = tt

  pub Wp-bind :
      (m : Exec S A) (f : A → Exec S B) (s : S) (Q : B → S → Type 0)
      → Wp m s (λ a s'. Wp (f a) s' Q)
      → Wp (m >>= f) s Q
  unfolding ◌>>=◌
  Wp-bind m f s Q h = record { at = continue_result f Q (m s) h.at }

-- The rules in which `search` takes a `do` block apart.
pub ruleset wp_rules = (Wp-bind, Wp-pure, Wp-raise, Wp-gets, Wp-modify)

-- ===== src/Exec.antt =====
-- A call on the database: it may raise, and the writes made before a raise stay until the caller
-- rolls back. `BEGIN … COMMIT` with `ROLLBACK` on an exception is `transaction`.
pub mod Rules
pub mod Stable
pub mod Ends
use oldman_agent.Prelude.{ℕ, String, Bool, Option, none, some, if◌then◌else◌}

-- The messages of `InvalidAgentError` in app/credits/ledger.py.
pub data AgentFault : Type 0 where
  amount_not_positive both_agents_required system_sender empty_agent_id : AgentFault

-- The exceptions that the modelled code raises or that DuckDB raises in it.
pub data Error : Type 0 where
  invalid_agent : AgentFault → Error
  insufficient_funds : String → ℕ → ℕ → Error
  check_failed out_of_range duplicate_key duplicate_payload_hash : Error
  unknown_invoice invoice_not_settled unknown_claim claim_decided claim_race_lost : Error
  unknown_canary canary_used : Error
  same_event unknown_event self_corroboration : Error
  blocked_kind jaccard_duplicate exact_hash_duplicate : Error
  invalid_signature missing_signature did_mismatch oldman_insufficient_funds : Error
  score_range value_error index_error attribute_error : Error
  zero_division overflow : Error

pub data Result {ℓ} (A : Type ℓ) : Type ℓ where
  ok : A → Result A
  err : Error → Result A

abbrev pub Exec : Type 0 → Type 0 → Type 0
Exec S A = S → Result A × S

module _ {S A : Type 0} where
  unfoldable pub pure : A → Exec S A
  pure a s = (ok a, s)

  unfoldable pub raise : Error → Exec S A
  raise e s = (err e, s)

  unfoldable pub gets : (S → A) → Exec S A
  gets f s = (ok (f s), s)

  -- The state of a failed call is dropped, that of a finished one kept.
  abbrev pub commit_or_rollback : S → Result A × S → Result A × S
  commit_or_rollback before (ok a, after) = (ok a, after)
  commit_or_rollback before (err e, after) = (err e, before)

  unfoldable pub transaction : Exec S A → Exec S A
  transaction m s = commit_or_rollback s (m s)

module _ {S A : Type 0} where
  abbrev pub handle_result : (Error → Exec S A) → Result A × S → Result A × S
  handle_result handler (ok a, s) = (ok a, s)
  handle_result handler (err e, s) = handler e s

  -- `try: m except Exception as e: handler(e)`
  unfoldable pub catch : Exec S A → (Error → Exec S A) → Exec S A
  catch m handler s = handle_result handler (m s)

module _ {S : Type 0} where
  unfoldable pub modify : (S → S) → Exec S (Unit {0})
  modify f s = (ok tt, f s)

  -- The exception that an expression raises, if it does.
  unfoldable pub raise_some : Option Error → Exec S (Unit {0})
  raise_some none s = (ok tt, s)
  raise_some (some e) s = (err e, s)

  pub raise_if : Bool → Error → Exec S (Unit {0})
  raise_if b e s = (if b then err e else ok tt, s)

module _ {S A B : Type 0} where
  abbrev continue : (A → Exec S B) → Result A × S → Result B × S
  continue f (ok a, s) = f a s
  continue f (err e, s) = (err e, s)

  infixl 10 ◌>>=◌ ◌>>◌
  -- Opening this opens the actions above too.
  unfoldable pub ◌>>=◌ : Exec S A → (A → Exec S B) → Exec S B
  unfolding pure raise gets modify raise_if
  ◌>>=◌ m f s = continue f (m s)

  abbrev pub ◌>>◌ : Exec S A → Exec S B → Exec S B
  m >> k = m >>= λ _. k

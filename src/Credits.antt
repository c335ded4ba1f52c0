-- ===== src/Credits.antt =====
-- app/credits/ledger.py: balances, the lazy starting grant, and `transfer`.
pub mod Balanced
pub mod Settled
pub mod Conservation
pub mod Frame
pub mod Burn
pub mod Moves
use oldman_agent.Prelude.{
  ℕ, ◌+◌, ◌-◌, String, Bool, true, false, not, ◌&&◌, ◌||◌, Option, none, some, eqb, ltb, is_none,
  if◌then◌else◌, ◌==◌,
}
use oldman_agent.Exec.{
  Exec, invalid_agent, amount_not_positive, both_agents_required, system_sender, empty_agent_id,
  insufficient_funds, check_failed, out_of_range, pure, raise, gets, modify, raise_if, ◌>>=◌, ◌>>◌,
}
use oldman_agent.Table.{update}
use oldman_agent.Books.{
  Books, BalanceRow, CreditsTransaction, Reason, publish_reward, query_price, starting_grant,
  admin_adjust, Outcome, applied, rejected_insufficient_funds, max_integer, uuid4, owned_by,
  account, insert_balance, insert_transaction,
}

-- `_REASONS_REQUIRE_BOTH_AGENTS`
abbrev pub requires_both_agents : Reason → Bool
requires_both_agents publish_reward = true
requires_both_agents query_price = true
requires_both_agents _ = false

-- `_REASONS_ALLOW_SYSTEM_FROM`
abbrev pub allows_system_from : Reason → Bool
allows_system_from starting_grant = true
allows_system_from admin_adjust = true
allows_system_from _ = false

-- `agent == ""`
abbrev pub is_empty_id : Option String → Bool
is_empty_id none = false
is_empty_id (some a) = a == ""

-- `not agent`
abbrev pub is_falsy : Option String → Bool
is_falsy none = true
is_falsy (some a) = a == ""

abbrev pub balance_or_zero : Option BalanceRow → ℕ
balance_or_zero none = 0
balance_or_zero (some r) = r.balance

unfoldable pub get_balance : String → Books → ℕ
get_balance a s = balance_or_zero (account a s)

-- What a caller of `transfer` names.
pub record Order : Type 0 where
  pub from_agent : Option String
  pub to_agent : Option String
  pub amount : ℕ
  pub reason : Reason
  pub event_id : Option String
  pub invoice_id : Option String

abbrev pub receipt : Order → String → ℕ → Outcome → CreditsTransaction
receipt o tx_id now outcome = record {
  tx_id = tx_id;
  ts = now;
  from_agent = o.from_agent;
  to_agent = o.to_agent;
  amount = o.amount;
  reason = o.reason;
  event_id = o.event_id;
  invoice_id = o.invoice_id;
  outcome = outcome;
}

-- The order that the first touch of an agent logs: a mint by the system.
abbrev pub grant_order : String → ℕ → Order
grant_order a grant = record {
  from_agent = none;
  to_agent = some a;
  amount = grant;
  reason = starting_grant;
  event_id = none;
  invoice_id = none;
}

unfoldable pub grant_account : String → ℕ → Exec Books ℕ
grant_account a grant = do
  now ← gets (λ s. s.clock)
  insert_balance a grant now
  tx_id ← uuid4
  insert_transaction (receipt (grant_order a grant) tx_id now applied)
  pure grant

abbrev pub found_or_granted : String → ℕ → Option BalanceRow → Exec Books ℕ
found_or_granted a grant (some r) = pure r.balance
found_or_granted a grant none = grant_account a grant

-- `_ensure_balance`
unfoldable pub ensure_balance : String → ℕ → Exec Books ℕ
ensure_balance a grant = do row ← gets (account a); found_or_granted a grant row

-- `if agent is not None: _ensure_balance(…)`
abbrev pub ensure_if_given : Option String → ℕ → Exec Books (Option ℕ)
ensure_if_given none grant = pure none
ensure_if_given (some a) grant = do balance ← ensure_balance a grant; pure (some balance)

abbrev pub short_of : ℕ → Option BalanceRow → Bool
short_of amount none = false
short_of amount (some r) = ltb r.balance amount

abbrev pub over_full : ℕ → Option BalanceRow → Bool
over_full amount none = false
over_full amount (some r) = ltb max_integer (r.balance + amount)

abbrev pub debited : String → ℕ → ℕ → Books → Books
debited a amount now s = record s {
  balances =
      update (owned_by a) (λ r. record r { balance = r.balance - amount; last_updated = now })
        s.balances;
}

abbrev pub credited : String → ℕ → ℕ → Books → Books
credited a amount now s = record s {
  balances =
      update (owned_by a) (λ r. record r { balance = r.balance + amount; last_updated = now })
        s.balances;
}

-- `UPDATE … SET balance = balance - ?` under `CHECK (balance >= 0)`
unfoldable pub debit : String → ℕ → ℕ → Exec Books (Unit {0})
debit a amount now = do
  row ← gets (account a)
  raise_if (short_of amount row) check_failed
  modify (debited a amount now)

-- `UPDATE … SET balance = balance + ?` on a column of type INTEGER
unfoldable pub credit : String → ℕ → ℕ → Exec Books (Unit {0})
credit a amount now = do
  row ← gets (account a)
  raise_if (over_full amount row) out_of_range
  modify (credited a amount now)

abbrev pub debit_if_given : Option String → ℕ → ℕ → Exec Books (Unit {0})
debit_if_given none amount now = pure tt
debit_if_given (some a) amount now = debit a amount now

abbrev pub credit_if_given : Option String → ℕ → ℕ → Exec Books (Unit {0})
credit_if_given none amount now = pure tt
credit_if_given (some a) amount now = credit a amount now

-- The four argument checks at the top of `transfer`.
unfoldable pub check_order : Order → Exec Books (Unit {0})
check_order o = do
  raise_if (eqb o.amount 0) (invalid_agent amount_not_positive)
  raise_if (requires_both_agents o.reason && (is_falsy o.from_agent || is_falsy o.to_agent))
      (invalid_agent both_agents_required)
  raise_if (is_none o.from_agent && not (allows_system_from o.reason)) (invalid_agent system_sender)
  raise_if (is_empty_id o.from_agent || is_empty_id o.to_agent) (invalid_agent empty_agent_id)

-- The two updates and the log entry of a covered transfer.
unfoldable pub apply_order : Order → String → ℕ → Exec Books CreditsTransaction
apply_order o tx_id now = do
  debit_if_given o.from_agent o.amount now
  credit_if_given o.to_agent o.amount now
  insert_transaction (receipt o tx_id now applied)
  pure (receipt o tx_id now applied)

-- `if from_balance is not None and from_balance < amount`
unfoldable pub settle_order :
    Order → String → ℕ → Option ℕ → Option String → Exec Books CreditsTransaction
settle_order o tx_id now (some balance) (some a) =
    if ltb balance o.amount
    then (do
      insert_transaction (receipt o tx_id now rejected_insufficient_funds)
      raise (insufficient_funds a balance o.amount))
    else apply_order o tx_id now
settle_order o tx_id now _ _ = apply_order o tx_id now

unfoldable pub transfer : Order → ℕ → Exec Books CreditsTransaction
transfer o grant = do
  check_order o
  now ← gets (λ s. s.clock)
  tx_id ← uuid4
  from_balance ← ensure_if_given o.from_agent grant
  ensure_if_given o.to_agent grant
  settle_order o tx_id now from_balance o.from_agent

-- ===== src/Books.antt =====
-- The payment tables of app/storage/migrations (002, 005, 006, 008) as one state, with the clock
-- that `datetime.now` reads and the identifiers that `uuid.uuid4` hands out.
mod Rows
pub mod Inserts
pub use Rows.*
use oldman_agent.Prelude.{
  ℕ, ◌+◌, String, Bool, Option, none, some, List, [], ◌∷◌, ◌++◌, eqb, ltb, if◌then◌else◌, ◌==◌,
}
use oldman_agent.Exec.{Exec, Result, ok, check_failed, out_of_range, modify, raise_if, ◌>>=◌, ◌>>◌}
use oldman_agent.Table.{find, update}

pub record Books : Type 0 where
  pub balances : List BalanceRow
  pub transactions : List CreditsTransaction
  pub invoices : List Invoice
  pub escrows : List RoyaltyEscrow
  pub claims : List RefundClaim
  pub clock : ℕ
  -- the identifiers that `uuid4` returns, and how many were drawn
  pub fresh : ℕ → String
  pub drawn : ℕ

-- The largest value of a column of type INTEGER.
abbrev pub max_integer : ℕ
max_integer = 2147483647

-- `str(uuid.uuid4())`
unfoldable pub uuid4 : Exec Books String
uuid4 s = (ok (s.fresh s.drawn), record s { drawn = s.drawn + 1 })

abbrev pub owned_by : String → BalanceRow → Bool
owned_by a r = r.agent_id == a

-- `SELECT balance FROM credits_balances WHERE agent_id = ?`
abbrev pub account : String → Books → Option BalanceRow
account a s = find (owned_by a) s.balances

-- `INSERT INTO credits_balances`: the callers have just found no row of the agent.
unfoldable pub insert_balance : String → ℕ → ℕ → Exec Books (Unit {0})
insert_balance a balance now = do
  raise_if (ltb max_integer balance) out_of_range
  modify λ s. record s {
    balances = s.balances ++ record { agent_id = a; balance = balance; last_updated = now } ∷ [];
  }

-- `INSERT INTO credits_transactions`, whose column has `CHECK (amount > 0)`.
unfoldable pub insert_transaction : CreditsTransaction → Exec Books (Unit {0})
insert_transaction t = do
  raise_if (eqb t.amount 0) check_failed
  raise_if (ltb max_integer t.amount) out_of_range
  modify λ s. record s { transactions = s.transactions ++ t ∷ [] }

-- ===== src/Charge.antt =====
-- `_charge_querier_or_fallback` of app/a2a/executor.py: invoice, settlement and pool fee of a paid
-- query, each in a transaction of its own.
pub mod Balanced
use oldman_agent.Prelude.{ℕ, ◌+◌, ◌*◌, String, Option, none, some, ltb, if◌then◌else◌, ◌==◌}
use oldman_agent.Exec.{
  Exec, Error, insufficient_funds, pure, raise, gets, transaction, catch, ◌>>=◌, ◌>>◌,
}
use oldman_agent.Books.{Books, query_price, uuid4}
use oldman_agent.Config.{Settings}
use oldman_agent.Credits.{Order, transfer}
use oldman_agent.Invoices.{insert_pending_invoice, mark_invoice_settled, mark_invoice_invalidated}
use oldman_agent.Payout.{treasury}
use oldman_agent.RefundPool.{accrue_pool_fee}

-- `(handled, settled_invoice_id)`, where a handled call has emitted the fallback for its reason.
pub data Charge : Type 0 where
  missing_querier_agent : Charge
  querier_insufficient_funds : Charge
  charged : String → Charge

-- `timedelta(seconds=1)` in microseconds
abbrev second : ℕ
second = 1000000

abbrev pub query_order : Settings → String → String → Order
query_order c querier invoice_id = record {
  from_agent = some querier;
  to_agent = some treasury;
  amount = c.query_price;
  reason = query_price;
  event_id = none;
  invoice_id = some invoice_id;
}

-- Step 2: payment and invoice in one transaction.
unfoldable pub settle_invoice : Settings → String → String → Exec Books (Unit {0})
settle_invoice c querier invoice_id = do
  tx ← transfer (query_order c querier invoice_id) c.starting_grant
  now ← gets (λ s. s.clock)
  mark_invoice_settled invoice_id tx.tx_id now

-- The `except` block: only a lack of funds is answered by the fallback.
abbrev pub refuse_payment : String → Error → Exec Books Charge
refuse_payment invoice_id (insufficient_funds _ _ _) = do
  transaction (mark_invoice_invalidated invoice_id)
  pure querier_insufficient_funds
refuse_payment invoice_id e = raise e

-- The fee is best effort: `except Exception: log`.
unfoldable pub accrue_best_effort : Settings → String → Exec Books (Unit {0})
accrue_best_effort c invoice_id =
    if ltb 0 c.refund_pool_fee
    then catch (do accrue_pool_fee c invoice_id; pure tt) (λ _. pure tt)
    else pure tt

abbrev pub after_settlement : Settings → String → Charge → Exec Books Charge
after_settlement c invoice_id (charged id) = do accrue_best_effort c invoice_id; pure (charged id)
after_settlement c invoice_id outcome = pure outcome

unfoldable pub charge_named : Settings → String → Option String → String → Exec Books Charge
charge_named c question subject querier = do
  invoice_id ← uuid4
  now ← gets (λ s. s.clock)
  transaction
      (insert_pending_invoice invoice_id question subject (now + c.invoice_ttl_seconds * second))
  outcome ←
      catch (transaction (settle_invoice c querier invoice_id) >> pure (charged invoice_id))
        (refuse_payment invoice_id)
  after_settlement c invoice_id outcome

-- `if not querier_agent or not isinstance(querier_agent, str)`
unfoldable pub charge_querier_or_fallback :
    Settings → String → Option String → Option String → Exec Books Charge
charge_querier_or_fallback c question subject none = pure missing_querier_agent
charge_querier_or_fallback c question subject (some querier) =
    if querier == "" then pure missing_querier_agent else charge_named c question subject querier

-- ===== src/RefundPool.antt =====
-- app/trust/refund_pool.py: the pool fee of each settled query, and refund claims against the pool.
pub mod Once
pub mod Repeats
use oldman_agent.Prelude.{
  ℕ, String, Bool, true, false, ◌&&◌, Option, none, some, [], ◌∷◌, ◌++◌, eqb, not, is_none,
  if◌then◌else◌, ◌==◌,
}
use oldman_agent.Exec.{
  Exec, unknown_invoice, invoice_not_settled, unknown_claim, claim_decided, claim_race_lost, pure,
  raise, gets, modify, raise_if, transaction, ◌>>=◌, ◌>>◌,
}
use oldman_agent.Table.{find, update}
use oldman_agent.Books.{
  Books, CreditsTransaction, RefundClaim, ClaimStatus, pending_claim, approved, denied, Reason,
  pool_fee, refund_payout, InvoiceStatus, settled, uuid4,
}
use oldman_agent.Audit.{is_applied}
use oldman_agent.Config.{Settings}
use oldman_agent.Credits.{Order, transfer}
use oldman_agent.Invoices.{get_invoice_status}
use oldman_agent.Payout.{treasury}

-- `VILLAGE_POOL_AGENT_ID`
abbrev pub village_pool : String
village_pool = "village_pool"

abbrev pub is_pool_fee : Reason → Bool
is_pool_fee pool_fee = true
is_pool_fee _ = false

abbrev pub is_text : String → Option String → Bool
is_text a none = false
is_text a (some b) = b == a

-- `invoice_id = ? AND reason = 'pool_fee' AND outcome = 'applied'`
abbrev pub accrued_for : String → CreditsTransaction → Bool
accrued_for invoice_id t =
    is_text invoice_id t.invoice_id && (is_pool_fee t.reason && is_applied t.outcome)

abbrev pub fee_order : Settings → String → Order
fee_order c invoice_id = record {
  from_agent = some treasury;
  to_agent = some village_pool;
  amount = c.refund_pool_fee;
  reason = pool_fee;
  event_id = none;
  invoice_id = some invoice_id;
}

abbrev pub accrue_unless :
    Settings → String → Option CreditsTransaction → Exec Books (Option CreditsTransaction)
accrue_unless c invoice_id (some _) = pure none
accrue_unless c invoice_id none = do
  tx ← transfer (fee_order c invoice_id) c.starting_grant
  pure (some tx)

unfoldable pub accrue_pool_fee : Settings → String → Exec Books (Option CreditsTransaction)
accrue_pool_fee c invoice_id =
    if eqb c.refund_pool_fee 0
    then pure none
    else transaction (do
      already ← gets (λ s. find (accrued_for invoice_id) s.transactions)
      accrue_unless c invoice_id already)

abbrev pub is_settled : InvoiceStatus → Bool
is_settled settled = true
is_settled _ = false

abbrev require_settled : Option InvoiceStatus → Exec Books (Unit {0})
require_settled none = raise unknown_invoice
require_settled (some status) = raise_if (not (is_settled status)) invoice_not_settled

unfoldable pub file_claim : String → String → String → ℕ → Exec Books String
file_claim claimant invoice_id reason_text now = do
  status ← gets (get_invoice_status invoice_id)
  require_settled status
  claim_id ← uuid4
  modify λ s. record s {
    claims =
        s.claims
        ++ record {
          claim_id = claim_id;
          invoice_id = invoice_id;
          claimant_agent = claimant;
          reason_text = reason_text;
          status = pending_claim;
          filed_ts = now;
          decided_ts = none;
          payout_tx_id = none;
        }
          ∷ [];
  }
  pure claim_id

pub record ClaimDecision : Type 0 where
  pub claim_id : String
  pub status : ClaimStatus
  pub payout : ℕ

abbrev pub is_pending_claim : ClaimStatus → Bool
is_pending_claim pending_claim = true
is_pending_claim _ = false

abbrev pub pending_claim_of : String → RefundClaim → Bool
pending_claim_of claim_id r = r.claim_id == claim_id && is_pending_claim r.status

-- `UPDATE refund_claims SET … WHERE claim_id = ? AND status = 'pending' RETURNING claim_id`
unfoldable pub decide_claim : String → (RefundClaim → RefundClaim) → Exec Books (Unit {0})
decide_claim claim_id f = do
  lost ← gets (λ s. is_none (find (pending_claim_of claim_id) s.claims))
  raise_if lost claim_race_lost
  modify λ s. record s { claims = update (pending_claim_of claim_id) f s.claims }

abbrev pub refund_order : Settings → RefundClaim → Order
refund_order c r = record {
  from_agent = some village_pool;
  to_agent = some r.claimant_agent;
  amount = c.query_price;
  reason = refund_payout;
  event_id = none;
  invoice_id = some r.invoice_id;
}

unfoldable pub approve_claim : Settings → String → RefundClaim → ℕ → Exec Books ClaimDecision
approve_claim c claim_id r now = do
  tx ← transfer (refund_order c r) c.starting_grant
  decide_claim claim_id
      (λ x. record x { status = approved; decided_ts = some now; payout_tx_id = some tx.tx_id })
  pure (record { claim_id = claim_id; status = approved; payout = c.query_price })

unfoldable pub deny_claim : String → ℕ → Exec Books ClaimDecision
deny_claim claim_id now = do
  decide_claim claim_id (λ x. record x { status = denied; decided_ts = some now })
  pure (record { claim_id = claim_id; status = denied; payout = 0 })

abbrev pub adjudicate_found :
    Settings → String → Bool → ℕ → Option RefundClaim → Exec Books ClaimDecision
adjudicate_found c claim_id justified now none = raise unknown_claim
adjudicate_found c claim_id justified now (some r) =
    raise_if (not (is_pending_claim r.status)) claim_decided
    >> transaction (if justified then approve_claim c claim_id r now else deny_claim claim_id now)

unfoldable pub adjudicate_claim : Settings → String → Bool → ℕ → Exec Books ClaimDecision
adjudicate_claim c claim_id justified now = do
  row ← gets (λ s. find (λ r. r.claim_id == claim_id) s.claims)
  adjudicate_found c claim_id justified now row

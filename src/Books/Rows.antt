-- ===== src/Books/Rows.antt =====
-- The rows of the payment tables. Amounts are non-negative; `CHECK … IN` columns are enumerations.
use oldman_agent.Prelude.{ℕ, String, Option}

pub data Reason : Type 0 where
  publish_reward query_price starting_grant admin_adjust : Reason
  rejected_funds listing_fee royalty pool_fee refund_payout : Reason

pub data Outcome : Type 0 where
  applied rejected_insufficient_funds rejected_invalid_agent : Outcome

pub record BalanceRow : Type 0 where
  pub agent_id : String
  pub balance : ℕ
  pub last_updated : ℕ

pub record CreditsTransaction : Type 0 where
  pub tx_id : String
  pub ts : ℕ
  pub from_agent : Option String
  pub to_agent : Option String
  pub amount : ℕ
  pub reason : Reason
  pub event_id : Option String
  pub invoice_id : Option String
  pub outcome : Outcome

pub data InvoiceStatus : Type 0 where
  pending settled expired invalidated : InvoiceStatus

pub record Invoice : Type 0 where
  pub invoice_id : String
  pub query : String
  pub subject_agent : Option String
  pub intent_expiry : ℕ
  pub status : InvoiceStatus
  pub credits_tx_id : Option String
  pub issued_at : ℕ
  pub settled_at : Option ℕ

pub data EscrowStatus : Type 0 where
  open_escrow paid expired_escrow : EscrowStatus

pub record RoyaltyEscrow : Type 0 where
  pub event_id : String
  pub seller_agent : String
  pub amount : ℕ
  pub created_ts : ℕ
  pub expires_ts : ℕ
  pub status : EscrowStatus
  pub paid_tx_id : Option String
  pub paid_ts : Option ℕ

pub data ClaimStatus : Type 0 where
  pending_claim approved denied : ClaimStatus

pub record RefundClaim : Type 0 where
  pub claim_id : String
  pub invoice_id : String
  pub claimant_agent : String
  pub reason_text : String
  pub status : ClaimStatus
  pub filed_ts : ℕ
  pub decided_ts : Option ℕ
  pub payout_tx_id : Option String

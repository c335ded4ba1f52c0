-- ===== src/Examples.antt =====
-- Concrete books, settings, payloads and floats, on which the examples run the code.
mod Payments
mod Runs
mod Village
mod Answers
mod Requests
mod Engine
mod Tasks
mod Selection
use oldman_agent.Prelude.{
  ℕ, zero, ◌+◌, ◌-◌, ◌*◌, String, ◌≡◌, refl, Bool, true, false, Option, none, some, List, [], ◌∷◌,
  ltb, eqb, arith, if◌then◌else◌,
}
use oldman_agent.Floats.{Floats, FloatLaws}
use oldman_agent.Json.{Json, TextServices, text}
use oldman_agent.Config.{Settings}
use oldman_agent.Books.{
  Books, BalanceRow, CreditsTransaction, Invoice, RoyaltyEscrow, RefundClaim, starting_grant,
  applied, pending, settled, open_escrow, pending_claim,
}
use oldman_agent.Audit.{total_balance, total_minted}
use oldman_agent.Credits.Balanced.{IsBalanced}
use oldman_agent.Table.{find, select, sum}

abbrev pub settings : Settings
settings = record {
  jaccard_window = 10;
  payment_enabled = true;
  publish_reward = 10;
  query_price = 5;
  starting_grant = 100;
  invoice_ttl_seconds = 600;
  payment_kill_switch = false;
  require_signed_publish = false;
  royalty_enabled = true;
  rounded_fee = λ reward. 2;
  escrow_horizon_days = 90;
  refund_pool_fee = 1;
}

abbrev pub minted : String → String → ℕ → CreditsTransaction
minted tx_id agent amount = record {
  tx_id = tx_id;
  ts = 1;
  from_agent = none;
  to_agent = some agent;
  amount = amount;
  reason = starting_grant;
  event_id = none;
  invoice_id = none;
  outcome = applied;
}

abbrev pub invoice : Invoice
invoice = record {
  invoice_id = "inv-1";
  query = "who is alice";
  subject_agent = some "alice";
  intent_expiry = 50;
  status = settled;
  credits_tx_id = some "t1";
  issued_at = 10;
  settled_at = some 20;
}

abbrev pub late_invoice : Invoice
late_invoice = record {
  invoice_id = "inv-2";
  query = "who is bob";
  subject_agent = none;
  intent_expiry = 40;
  status = pending;
  credits_tx_id = none;
  issued_at = 10;
  settled_at = none;
}

abbrev pub escrow : RoyaltyEscrow
escrow = record {
  event_id = "e1";
  seller_agent = "alice";
  amount = 8;
  created_ts = 5;
  expires_ts = 500;
  status = open_escrow;
  paid_tx_id = none;
  paid_ts = none;
}

abbrev pub claim : RefundClaim
claim = record {
  claim_id = "c1";
  invoice_id = "inv-1";
  claimant_agent = "bob";
  reason_text = "wrong";
  status = pending_claim;
  filed_ts = 30;
  decided_ts = none;
  payout_tx_id = none;
}

-- The treasury holds 70 and alice 30, all of it minted.
abbrev pub books : Books
books = record {
  balances =
      record { agent_id = "oldman"; balance = 70; last_updated = 1 }
      ∷ record { agent_id = "alice"; balance = 30; last_updated = 1 }
      ∷ [];
  transactions = minted "m1" "oldman" 70 ∷ minted "m2" "alice" 30 ∷ [];
  invoices = invoice ∷ late_invoice ∷ [];
  escrows = escrow ∷ [];
  claims = claim ∷ [];
  clock = 100;
  fresh = λ n. if eqb n 0 then "id-0" else if eqb n 1 then "id-1" else "id-2";
  drawn = 0;
}

pub books-IsBalanced : IsBalanced books
unfolding total_balance total_minted find select sum
books-IsBalanced = record { keyed = (refl, (refl, tt)); conserved = refl }

-- Whole numbers in place of floats; `half_power` keeps all at 0 and nothing else.
abbrev pub whole : Floats
whole = record {
  R = ℕ;
  num = λ n. n;
  add = λ a b. a + b;
  sub = λ a b. a - b;
  mul = λ a b. a * b;
  div = λ a b. if eqb b 1 then a else 0;
  root = λ a. a;
  half_power = λ a. if eqb a 0 then 1 else 0;
  below = λ a b. ltb a b;
}

pub whole-FloatLaws : FloatLaws whole
whole-FloatLaws = record {
  below_trans = λ a b c h k. ground arith;
  at_most_trans = λ a b c h k. ground arith;
  at_most_refl = λ a. ground arith;
  add_grows = λ a b h. ground arith;
  sub_nonneg = λ a b h. ground arith;
  mul_nonneg = λ a b h k. ground arith;
  half_power_nonneg = λ a. ground arith;
}

-- Texts are taken as they are, and a text is one word.
abbrev pub plain : TextServices
plain = record { nfc = λ s. s; words = λ s. s ∷ []; digest = λ j. "hash" }

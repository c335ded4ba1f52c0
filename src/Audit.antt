-- ===== src/Audit.antt =====
-- app/credits/audit.py: conservation of credits, and the royalty transactions behind paid escrows.
use oldman_agent.Prelude.{
  ℕ, Bool, true, false, Option, none, some, List, is_none, eqb, ◌&&◌, ◌==◌, String,
}
use oldman_agent.Table.{find, select, sum}
use oldman_agent.Books.{
  Books, CreditsTransaction, RoyaltyEscrow, Reason, royalty, Outcome, applied, EscrowStatus,
  open_escrow, paid,
}

abbrev pub is_applied : Outcome → Bool
is_applied applied = true
is_applied _ = false

abbrev pub is_open : EscrowStatus → Bool
is_open open_escrow = true
is_open _ = false

abbrev pub is_paid : EscrowStatus → Bool
is_paid paid = true
is_paid _ = false

abbrev pub is_royalty : Reason → Bool
is_royalty royalty = true
is_royalty _ = false

-- `from_agent IS NULL AND outcome = 'applied'`
abbrev pub is_mint : CreditsTransaction → Bool
is_mint t = is_none t.from_agent && is_applied t.outcome

unfoldable pub total_balance : Books → ℕ
total_balance s = sum (λ r. r.balance) s.balances

unfoldable pub total_minted : Books → ℕ
total_minted s = sum (λ t. t.amount) (select is_mint s.transactions)

unfoldable pub open_escrow_liability : Books → ℕ
open_escrow_liability s = sum (λ e. e.amount) (select (λ e. is_open e.status) s.escrows)

abbrev names_royalty : Option String → CreditsTransaction → Bool
names_royalty none t = false
names_royalty (some tx) t = t.tx_id == tx && is_royalty t.reason

-- `e.status = 'paid'` with no royalty transaction under `paid_tx_id`
abbrev pub is_orphan : Books → RoyaltyEscrow → Bool
is_orphan s e = is_paid e.status && is_none (find (names_royalty e.paid_tx_id) s.transactions)

pub record CreditsAudit : Type 0 where
  pub balance_total : ℕ
  pub minted_total : ℕ
  pub liability : ℕ
  pub balanced : Bool
  pub orphan_paid : List RoyaltyEscrow

unfoldable pub audit_credits : Books → CreditsAudit
audit_credits s = record {
  balance_total = total_balance s;
  minted_total = total_minted s;
  liability = open_escrow_liability s;
  balanced = eqb (total_balance s) (total_minted s);
  orphan_paid = select (is_orphan s) s.escrows;
}

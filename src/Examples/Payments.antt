-- ===== src/Examples/Payments.antt =====
-- The payment theorems on concrete books.
use oldman_agent.Prelude.{
  is_some, ◌+◌, ◌≤◌, ◌≡◌, refl, true, false, none, some, List, [], ◌∷◌, ◌++◌, arith,
}
use oldman_agent.Prelude.Dedup.{contains}
use oldman_agent.Exec.{ok, err, transaction, claim_decided}
use oldman_agent.Exec.Rules.{Wp}
use oldman_agent.Table.{find, select}
use oldman_agent.Config.{post_init}
use oldman_agent.Books.{BalanceRow, account, publish_reward, query_price, admin_adjust, settled}
use oldman_agent.Audit.{audit_credits, open_escrow_liability}
use oldman_agent.Credits.{Order, transfer}
use oldman_agent.Credits.Balanced.{IsBalanced}
use oldman_agent.Credits.Conservation.{transfer-IsBalanced}
use oldman_agent.Credits.Moves.{payment, IsMoved, transfer-IsMoved}
use oldman_agent.Credits.Burn.{IsShort, transfer-burns}
use oldman_agent.Invoices.{is_overdue, get_invoice_status, mark_expired_invoices}
use oldman_agent.Invoices.Lifecycle.{
  InvoiceCall, settle, invalidate, sweep, issue, run_calls, run_calls-terminal,
  mark_expired_invoices_complete,
}
use oldman_agent.Payout.{listing_fee_of, split_publish_payment, release_royalties_for_citations}
use oldman_agent.Payout.Split.{pays_seller, listing_fee_of-bounds, split_publish_payment-exact}
use oldman_agent.Payout.Release.{IsClosed, release_royalties-closes}
use oldman_agent.RefundPool.{accrue_pool_fee, adjudicate_claim}
use oldman_agent.RefundPool.Once.{accrue_pool_fee_once, adjudicate_claim_once}
use oldman_agent.RefundPool.Repeats.{file_each, pending_claimants, file_each-pending}
use oldman_agent.Charge.{charge_querier_or_fallback}
use oldman_agent.Charge.Balanced.{charge_querier-IsBalanced}
use oldman_agent.Examples.{settings, books, books-IsBalanced}

abbrev order : Order
order = record {
  from_agent = some "alice";
  to_agent = some "carol";
  amount = 7;
  reason = query_price;
  event_id = none;
  invoice_id = none;
}

abbrev burn : Order
burn = record {
  from_agent = some "alice";
  to_agent = none;
  amount = 7;
  reason = admin_adjust;
  event_id = none;
  invoice_id = none;
}

transfer-IsBalanced_example :
    IsBalanced (transaction (transfer order 100) books).1
    × ((audit_credits (transaction (transfer order 100) books).1).balanced ≡ true)
transfer-IsBalanced_example = transfer-IsBalanced order 100 "carol" books refl books-IsBalanced

transfer-burns_example : Wp (transfer burn 100) books (λ _ s'. IsShort 7 s')
transfer-burns_example =
    transfer-burns burn 100 "alice" books refl refl (omega arith) books-IsBalanced

abbrev calls : List InvoiceCall
calls =
    sweep 500 ∷ invalidate "inv-1" ∷ settle "inv-1" "t9" 600 ∷ issue "inv-1" "again" none 900 ∷ []

inv-1_settled : get_invoice_status "inv-1" books ≡ some settled
unfolding get_invoice_status find
inv-1_settled = refl

run_calls-terminal_example : get_invoice_status "inv-1" (run_calls calls books) ≡ some settled
run_calls-terminal_example = run_calls-terminal calls "inv-1" settled books refl inv-1_settled

mark_expired_invoices_complete_example :
    (select (is_overdue 45) (mark_expired_invoices 45 books).1.invoices ≡ [])
    × (mark_expired_invoices 45 (mark_expired_invoices 45 books).1
        ≡ (ok 0, (mark_expired_invoices 45 books).1))
mark_expired_invoices_complete_example = mark_expired_invoices_complete 45 books

settings_accepted : post_init settings ≡ some settings
unfolding post_init
settings_accepted = refl

listing_fee_of-bounds_example :
    (1 ≤ listing_fee_of settings) × (listing_fee_of settings ≤ settings.publish_reward)
listing_fee_of-bounds_example = listing_fee_of-bounds settings settings settings_accepted

split_publish_payment-exact_example :
    Wp (split_publish_payment settings "e2" "alice" 100) books (λ p s'.
      (p.fee + p.escrowed ≡ 10)
      × (is_some (find (pays_seller p.listing_fee_tx_id "alice" p.fee) s'.transactions) ≡ true)
      × IsBalanced s'
      × (open_escrow_liability s' ≡ open_escrow_liability books + p.escrowed))
split_publish_payment-exact_example =
    split_publish_payment-exact settings "e2" "alice" 100 books books-IsBalanced

e1_cited : contains "e1" ("e1" ∷ "e1" ∷ []) ≡ true
unfolding contains
e1_cited = refl

release_royalties-closes_example :
    IsBalanced (release_royalties_for_citations settings ("e1" ∷ "e1" ∷ []) none 100 books).1
    × Wp
        (release_royalties_for_citations settings ("e1" ∷ "e1" ∷ []) none 100)
        books
        (λ _ s'. IsClosed "e1" s')
release_royalties-closes_example =
    release_royalties-closes settings ("e1" ∷ "e1" ∷ []) none 100 books "e1" books-IsBalanced
      e1_cited

accrue_pool_fee_once_example :
    Wp
      (accrue_pool_fee settings "inv-1")
      books
      (λ _ s'. accrue_pool_fee settings "inv-1" s' ≡ (ok none, s'))
accrue_pool_fee_once_example = accrue_pool_fee_once settings "inv-1" books

adjudicate_claim_once_example :
    Wp
      (adjudicate_claim settings "c1" true 100)
      books
      (λ _ s'. adjudicate_claim settings "c1" false 200 s' ≡ (err claim_decided, s'))
adjudicate_claim_once_example = adjudicate_claim_once settings "c1" true false 100 200 books

charge_querier-IsBalanced_example :
    IsBalanced (charge_querier_or_fallback settings "who is alice" none (some "carol") books).1
charge_querier-IsBalanced_example =
    charge_querier-IsBalanced settings "who is alice" none (some "carol") books books-IsBalanced

abbrev treasury_row : BalanceRow
treasury_row = record { agent_id = "oldman"; balance = 70; last_updated = 1 }

abbrev alice_row : BalanceRow
alice_row = record { agent_id = "alice"; balance = 30; last_updated = 1 }

treasury_known : account "oldman" books ≡ some treasury_row
unfolding find
treasury_known = refl

alice_known : account "alice" books ≡ some alice_row
unfolding find
alice_known = refl

transfer-IsMoved_example :
    IsMoved "oldman" "alice" 7 publish_reward none none 100 books treasury_row alice_row
      (transfer (payment "oldman" "alice" 7 publish_reward none none) 100 books).0
      (transfer (payment "oldman" "alice" 7 publish_reward none none) 100 books).1
transfer-IsMoved_example =
    transfer-IsMoved "oldman" "alice" 7 publish_reward none none 100 books treasury_row alice_row
      treasury_known alice_known refl refl (λ e. cc) (omega arith) (omega arith) (omega arith)

file_each-pending_example :
    ((file_each "inv-1" "wrong" 100 ("carol" ∷ "bob" ∷ "bob" ∷ []) books).0 ≡ ok tt)
    × (pending_claimants "inv-1"
          (file_each "inv-1" "wrong" 100 ("carol" ∷ "bob" ∷ "bob" ∷ []) books).1
        ≡ pending_claimants "inv-1" books ++ "carol" ∷ "bob" ∷ "bob" ∷ [])
file_each-pending_example =
    file_each-pending "inv-1" "wrong" 100 ("carol" ∷ "bob" ∷ "bob" ∷ []) books inv-1_settled

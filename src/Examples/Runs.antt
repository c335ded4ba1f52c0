-- ===== src/Examples/Runs.antt =====
-- Runs of the payments on the concrete books: each of them finishes.
use oldman_agent.Prelude.{◌≡◌, refl, Bool, true, false, none, some, [], ◌∷◌}
use oldman_agent.Prelude.Dedup.{contains, dedup, dedup_from}
use oldman_agent.Exec.{Result, ok, err, transaction, catch, ◌>>=◌}
use oldman_agent.Table.{find, update}
use oldman_agent.Books.{uuid4, insert_balance, insert_transaction, settled}
use oldman_agent.Credits.{
  check_order, apply_order, settle_order, transfer, grant_account, ensure_balance, debit, credit,
  get_balance,
}
use oldman_agent.Invoices.{
  insert_pending_invoice, mark_invoice_settled, mark_invoice_invalidated, get_invoice_status,
}
use oldman_agent.Payout.{
  listing_fee_of, insert_escrow, split_publish_payment, pay_royalty, expire_escrow, release_one,
  release_each, release_royalties_for_citations,
}
use oldman_agent.RefundPool.{
  accrue_pool_fee, decide_claim, approve_claim, deny_claim, adjudicate_claim,
}
use oldman_agent.Charge.{
  charged, settle_invoice, accrue_best_effort, charge_named, charge_querier_or_fallback,
}
use oldman_agent.Examples.{settings, books}

abbrev finished : {A : Type 0} → Result A → Bool
finished (ok a) = true
finished (err e) = false

-- The escrow of `e1` is paid once, although the event is cited twice.
release_run :
    (finished (release_royalties_for_citations settings ("e1" ∷ "e1" ∷ []) none 100 books).0 ≡ true)
    × (get_balance "alice"
          (release_royalties_for_citations settings ("e1" ∷ "e1" ∷ []) none 100 books).1
        ≡ 38)
unfolding contains dedup dedup_from transaction ◌>>=◌ find update uuid4 insert_balance
    insert_transaction check_order apply_order settle_order transfer grant_account ensure_balance
    debit credit get_balance pay_royalty expire_escrow release_one release_each
    release_royalties_for_citations
release_run = (refl, refl)

split_run : finished (split_publish_payment settings "e2" "alice" 100 books).0 ≡ true
unfolding transaction ◌>>=◌ find update uuid4 insert_balance insert_transaction check_order
    apply_order settle_order transfer grant_account ensure_balance debit credit listing_fee_of
    insert_escrow split_publish_payment
split_run = refl

fee_run : finished (accrue_pool_fee settings "inv-1" books).0 ≡ true
unfolding transaction ◌>>=◌ find update uuid4 insert_balance insert_transaction check_order
    apply_order settle_order transfer grant_account ensure_balance debit credit accrue_pool_fee
fee_run = refl

claim_run : finished (adjudicate_claim settings "c1" true 100 books).0 ≡ true
unfolding transaction ◌>>=◌ find update uuid4 insert_balance insert_transaction check_order
    apply_order settle_order transfer grant_account ensure_balance debit credit decide_claim
    approve_claim deny_claim adjudicate_claim
claim_run = refl

-- A new querier is granted its start, pays, and the invoice is settled.
charge_run :
    ((charge_querier_or_fallback settings "who is alice" none (some "carol") books).0
      ≡ ok (charged "id-0"))
    × (get_balance "carol"
          (charge_querier_or_fallback settings "who is alice" none (some "carol") books).1
        ≡ 95)
    × (get_invoice_status "id-0"
          (charge_querier_or_fallback settings "who is alice" none (some "carol") books).1
        ≡ some settled)
unfolding transaction catch ◌>>=◌ find update uuid4 insert_balance insert_transaction check_order
    apply_order settle_order transfer grant_account ensure_balance debit credit get_balance
    accrue_pool_fee insert_pending_invoice mark_invoice_settled mark_invoice_invalidated
    get_invoice_status settle_invoice accrue_best_effort charge_named charge_querier_or_fallback
charge_run = (refl, refl, refl)

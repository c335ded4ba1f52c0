-- ===== src/Charge/Balanced.antt =====
-- The charge for a query keeps the books balanced, whichever of its transactions fails.
use oldman_agent.Prelude.{String, refl, Option, none, some, List}
use oldman_agent.Exec.{Error, insufficient_funds, transaction}
use oldman_agent.Exec.Rules.{Wp, Wp-bind, Wp-gets, Wp-pure, Wp-modify, Wp-weaken}
use oldman_agent.Exec.Stable.{
  Stable, Stable-pure, Stable-raise, Stable-gets, Stable-if, Stable-transaction, Stable-catch,
  Stable-bind,
}
use oldman_agent.Books.{Books, CreditsTransaction, Invoice, uuid4}
use oldman_agent.Audit.{total_balance, total_minted}
use oldman_agent.Config.{Settings}
use oldman_agent.Credits.Balanced.{IsBalanced}
use oldman_agent.Credits.Conservation.{Wp-transfer}
use oldman_agent.Invoices.{insert_pending_invoice, mark_invoice_settled, mark_invoice_invalidated}
use oldman_agent.Payout.{treasury}
use oldman_agent.RefundPool.{accrue_unless, fee_order, village_pool, accrue_pool_fee}
use oldman_agent.Charge.{
  Charge, missing_querier_agent, querier_insufficient_funds, charged, query_order, settle_invoice,
  refuse_payment, accrue_best_effort, after_settlement, charge_named, charge_querier_or_fallback,
}

IsBalanced-invoices :
    (s : Books) (rows : List Invoice) → IsBalanced s → IsBalanced (record s { invoices = rows })
unfolding total_balance total_minted
IsBalanced-invoices s rows h = record { keyed = h.keyed; conserved = h.conserved }

uuid4-Stable : Stable IsBalanced uuid4
unfolding uuid4 total_balance total_minted
uuid4-Stable = record { at = λ s h. record { keyed = h.keyed; conserved = h.conserved } }

accrue_unless-IsBalanced :
    (c : Settings) (invoice_id : String) (s : Books) (found : Option CreditsTransaction)
    → IsBalanced s
    → Wp (accrue_unless c invoice_id found) s (λ _ s'. IsBalanced s')
accrue_unless-IsBalanced c invoice_id s (some t) h = Wp-pure none s _ h
accrue_unless-IsBalanced c invoice_id s none h = Wp-bind _ _ s _ (
    Wp-weaken _ s _ (Wp-transfer (fee_order c invoice_id) _ village_pool s refl h)
      λ tx s' h'. Wp-pure (some tx) s' _ h')

accrue_pool_fee-Stable :
    (c : Settings) (invoice_id : String) → Stable IsBalanced (accrue_pool_fee c invoice_id)
unfolding accrue_pool_fee
accrue_pool_fee-Stable c invoice_id = Stable-if IsBalanced _ _ _ (Stable-pure IsBalanced none) (
    Stable-transaction IsBalanced _
      λ s h. Wp-bind _ _ s _ (Wp-gets _ s _ (accrue_unless-IsBalanced c invoice_id s _ h)))

accrue_best_effort-Stable :
    (c : Settings) (invoice_id : String) → Stable IsBalanced (accrue_best_effort c invoice_id)
unfolding accrue_best_effort
accrue_best_effort-Stable c invoice_id =
    Stable-if IsBalanced _ _ _
      (Stable-catch IsBalanced _ _
        (Stable-bind IsBalanced _ _ (accrue_pool_fee-Stable c invoice_id)
          λ _. Stable-pure IsBalanced tt)
        λ _. Stable-pure IsBalanced tt)
      (Stable-pure IsBalanced tt)

settle_invoice-Stable :
    (c : Settings) (querier invoice_id : String)
    → Stable IsBalanced (transaction (settle_invoice c querier invoice_id))
unfolding settle_invoice mark_invoice_settled
settle_invoice-Stable c querier invoice_id = Stable-transaction IsBalanced _ λ s h.
    Wp-bind _ _ s _ (
      Wp-weaken _ s _ (Wp-transfer (query_order c querier invoice_id) _ treasury s refl h)
        λ tx s' h'.
          Wp-bind _ _ s' _ (Wp-gets _ s' _ (Wp-modify _ s' _ (IsBalanced-invoices s' _ h'))))

invalidated-Stable :
    (invoice_id : String) → Stable IsBalanced (transaction (mark_invoice_invalidated invoice_id))
unfolding mark_invoice_invalidated
invalidated-Stable invoice_id =
    Stable-transaction IsBalanced _ λ s h. Wp-modify _ s _ (IsBalanced-invoices s _ h)

refuse_payment-Stable :
    (invoice_id : String) (e : Error) → Stable IsBalanced (refuse_payment invoice_id e)
refuse_payment-Stable invoice_id (insufficient_funds a n m) =
    Stable-bind IsBalanced _ _ (invalidated-Stable invoice_id) λ _. Stable-pure IsBalanced _
refuse_payment-Stable invoice_id e = Stable-raise IsBalanced e

after_settlement-Stable :
    (c : Settings) (invoice_id : String) (outcome : Charge)
    → Stable IsBalanced (after_settlement c invoice_id outcome)
after_settlement-Stable c invoice_id (charged id) =
    Stable-bind IsBalanced _ _ (accrue_best_effort-Stable c invoice_id)
      λ _. Stable-pure IsBalanced _
after_settlement-Stable c invoice_id missing_querier_agent = Stable-pure IsBalanced _
after_settlement-Stable c invoice_id querier_insufficient_funds = Stable-pure IsBalanced _

charge_named-Stable :
    (c : Settings) (question : String) (subject : Option String) (querier : String)
    → Stable IsBalanced (charge_named c question subject querier)
unfolding charge_named insert_pending_invoice
charge_named-Stable c question subject querier =
    Stable-bind IsBalanced _ _ uuid4-Stable λ invoice_id.
      Stable-bind IsBalanced _ _ (Stable-gets IsBalanced _) λ now.
        Stable-bind IsBalanced _ _
          (Stable-transaction IsBalanced _ λ s h. Wp-modify _ s _ (IsBalanced-invoices s _ h))
          λ _.
            Stable-bind IsBalanced _ _
              (Stable-catch IsBalanced _ _
                (Stable-bind IsBalanced _ _ (settle_invoice-Stable c querier invoice_id)
                  λ _. Stable-pure IsBalanced _)
                (refuse_payment-Stable invoice_id))
              (after_settlement-Stable c invoice_id)

-- From balanced books, a charge for a query leaves balanced books on every outcome: paid, refused for
-- lack of funds, without a querier, or raised by an error in any of its transactions.
pub charge_querier-IsBalanced :
    (c : Settings) (question : String) (subject querier : Option String) (s : Books)
    → IsBalanced s
    → IsBalanced (charge_querier_or_fallback c question subject querier s).1
unfolding charge_querier_or_fallback
charge_querier-IsBalanced c question subject none s h = (Stable-pure IsBalanced _).at s h
charge_querier-IsBalanced c question subject (some querier) s h =
    (Stable-if IsBalanced _ _ _ (Stable-pure IsBalanced _)
        (charge_named-Stable c question subject querier)).at
      s h

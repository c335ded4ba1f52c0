-- ===== src/Invoices.antt =====
-- app/storage/invoices.py: the life of an invoice, pending -> settled | invalidated | expired.
pub mod Lifecycle
use oldman_agent.Prelude.{
  ℕ, String, Bool, true, false, ◌&&◌, Option, none, some, List, [], ◌∷◌, ◌++◌, map, length, ltb,
  ◌==◌,
}
use oldman_agent.Prelude.Dedup.{contains}
use oldman_agent.Exec.{Exec, pure, gets, modify, ◌>>=◌, ◌>>◌}
use oldman_agent.Table.{find, update, select}
use oldman_agent.Books.{Books, Invoice, InvoiceStatus, pending, settled, expired, invalidated}

abbrev pub is_pending : InvoiceStatus → Bool
is_pending pending = true
is_pending _ = false

unfoldable pub insert_pending_invoice : String → String → Option String → ℕ → Exec Books (Unit {0})
insert_pending_invoice id query subject intent_expiry = modify λ s. record s {
  invoices =
      s.invoices
      ++ record {
        invoice_id = id;
        query = query;
        subject_agent = subject;
        intent_expiry = intent_expiry;
        status = pending;
        credits_tx_id = none;
        issued_at = s.clock;
        settled_at = none;
      }
        ∷ [];
}

-- `WHERE invoice_id = ? AND status = 'pending'`
abbrev pub is_pending_of : String → Invoice → Bool
is_pending_of id i = i.invoice_id == id && is_pending i.status

unfoldable pub mark_invoice_settled : String → String → ℕ → Exec Books (Unit {0})
mark_invoice_settled id tx_id now = modify λ s. record s {
  invoices =
      update (is_pending_of id)
        (λ i. record i { status = settled; credits_tx_id = some tx_id; settled_at = some now })
        s.invoices;
}

unfoldable pub mark_invoice_invalidated : String → Exec Books (Unit {0})
mark_invoice_invalidated id = modify λ s. record s {
  invoices = update (is_pending_of id) (λ i. record i { status = invalidated }) s.invoices;
}

-- `WHERE status = 'pending' AND intent_expiry < ?`
abbrev pub is_overdue : ℕ → Invoice → Bool
is_overdue now i = is_pending i.status && ltb i.intent_expiry now

abbrev pub is_pending_among : List String → Invoice → Bool
is_pending_among ids i = contains i.invoice_id ids && is_pending i.status

abbrev expire_ids : List String → Exec Books ℕ
expire_ids [] = pure 0
expire_ids (id ∷ ids) = do
  modify λ s. record s {
    invoices = update (is_pending_among (id ∷ ids)) (λ i. record i { status = expired }) s.invoices;
  }
  pure (length (id ∷ ids))

unfoldable pub mark_expired_invoices : ℕ → Exec Books ℕ
mark_expired_invoices now = do
  overdue ← gets (λ s. map (λ i. i.invoice_id) (select (is_overdue now) s.invoices))
  expire_ids overdue

abbrev status_of_row : Option Invoice → Option InvoiceStatus
status_of_row none = none
status_of_row (some i) = some i.status

unfoldable pub get_invoice_status : String → Books → Option InvoiceStatus
get_invoice_status id s = status_of_row (find (λ i. i.invoice_id == id) s.invoices)

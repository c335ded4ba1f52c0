-- ===== src/Invoices/Lifecycle.antt =====
-- The life of an invoice: sequences of calls of app/storage/invoices.py, and the expiry sweep.
use oldman_agent.Prelude.{
  ℕ, String, ◌≡◌, refl, ap, ◌∙◌, Bool, true, false, Option, some, List, [], ◌∷◌, map, arith, All,
  if◌then◌else◌, ◌==◌, eq_iff, Option-cases, inl, inr,
}
use oldman_agent.Prelude.Dedup.{contains}
use oldman_agent.Exec.{ok, ◌>>=◌}
use oldman_agent.Table.{find, find-append_some, update, select}
use oldman_agent.Table.Updates.{find-update_kept}
use oldman_agent.Books.{Books, Invoice, InvoiceStatus, expired}
use oldman_agent.Invoices.{
  is_pending, is_overdue, is_pending_among, insert_pending_invoice, mark_invoice_settled,
  mark_invoice_invalidated, mark_expired_invoices, get_invoice_status, expire_ids, status_of_row,
}

-- A call that writes to the table of invoices.
pub data InvoiceCall : Type 0 where
  issue : String → String → Option String → ℕ → InvoiceCall
  settle : String → String → ℕ → InvoiceCall
  invalidate : String → InvoiceCall
  sweep : ℕ → InvoiceCall

unfoldable pub run_call : InvoiceCall → Books → Books
run_call (issue id query subject expiry) s = (insert_pending_invoice id query subject expiry s).1
run_call (settle id tx_id now) s = (mark_invoice_settled id tx_id now s).1
run_call (invalidate id) s = (mark_invoice_invalidated id s).1
run_call (sweep now) s = (mark_expired_invoices now s).1

unfoldable pub run_calls : List InvoiceCall → Books → Books
run_calls [] s = s
run_calls (c ∷ cs) s = run_calls cs (run_call c s)

-- The status of the first row that a search finds.
Found : String → InvoiceStatus → List Invoice → Type 0
Found id status rows =
    (i : Invoice) × (find (λ i. i.invoice_id == id) rows ≡ some i) × (i.status ≡ status)

Found-update :
    (id : String) (status : InvoiceStatus) (p : Invoice → Bool) (f : Invoice → Invoice)
    (rows : List Invoice)
    → is_pending status ≡ false
    → ((i : Invoice) → (f i).invoice_id ≡ i.invoice_id)
    → ((i : Invoice) → p i ≡ true → is_pending i.status ≡ true)
    → Found id status rows
    → Found id status (update p f rows)
unfolding Found
Found-update id status p f rows done same only (i, e, es) = (
  i,
  find-update_kept p (λ i. i.invoice_id == id) f (λ r. ap (λ x. x == id) (same r)) i rows e
      (ground (arith, only i, es, done)),
  es,
)

Found-call :
    (c : InvoiceCall) (id : String) (status : InvoiceStatus) (s : Books)
    → is_pending status ≡ false
    → Found id status s.invoices
    → Found id status (run_call c s).invoices
unfolding run_call insert_pending_invoice mark_invoice_settled mark_invoice_invalidated
    mark_expired_invoices ◌>>=◌ Found
Found-call (issue id' query subject expiry) id status s done (i, e, es) =
    (i, find-append_some _ i s.invoices _ e, es)
Found-call (settle id' tx_id now) id status s done h =
    Found-update id status _ _ s.invoices done (λ i. refl) (λ i e. ground arith) h
Found-call (invalidate id') id status s done h =
    Found-update id status _ _ s.invoices done (λ i. refl) (λ i e. ground arith) h
Found-call (sweep now) id status s done h =
    swept (map (λ i. i.invoice_id) (select (is_overdue now) s.invoices))
  where
    swept : (ids : List String) → Found id status (expire_ids ids s).1.invoices
    swept [] = h
    swept (x ∷ ids) = Found-update id status _ _ s.invoices done (λ i. refl) (λ i e. ground arith) h

-- Once an invoice is settled, expired or invalidated, no sequence of later calls changes its status,
-- whatever invoices those calls name.
pub run_calls-terminal :
    (calls : List InvoiceCall) (id : String) (status : InvoiceStatus) (s : Books)
    → is_pending status ≡ false
    → get_invoice_status id s ≡ some status
    → get_invoice_status id (run_calls calls s) ≡ some status
unfolding run_calls get_invoice_status Found
run_calls-terminal [] id status s done h = h
run_calls-terminal (c ∷ calls) id status s done h =
    elim (Option-cases (find (λ i. i.invoice_id == id) s.invoices)) [
      | inl e ↦ absurd (ground (arith, ap status_of_row e, h))
      | inr (i, e) ↦
          let (j, f, fs) =
            Found-call c id status s done (i, e, ground (arith, ap status_of_row e, h)) in
          run_calls-terminal calls id status (run_call c s) done (ap status_of_row f ∙ ap some fs)
    ]

-- Every overdue invoice among `rows` is one of `ids`.
Covers : ℕ → List String → List Invoice → Type 0
Covers now ids rows = All (λ i. is_overdue now i ≡ true → contains i.invoice_id ids ≡ true) rows

Covers-cons :
    (now : ℕ) (id : String) (ids : List String) (rows : List Invoice)
    → Covers now ids rows
    → Covers now (id ∷ ids) rows
unfolding contains Covers
Covers-cons now id ids [] h = tt
Covers-cons now id ids (i ∷ rows) h = (λ e. ground (arith, h.0 e), Covers-cons now id ids rows h.1)

Covers-extend :
    (now : ℕ) (i : Invoice) (rest rows : List Invoice) (late : Bool)
    → is_overdue now i ≡ late
    → Covers now (map (λ i. i.invoice_id) rest) rows
    → Covers now (map (λ i. i.invoice_id) (if late then i ∷ rest else rest)) (i ∷ rows)
unfolding contains Covers
Covers-extend now i rest rows true e h =
    (λ _. ground (arith, eq_iff i.invoice_id i.invoice_id), Covers-cons now i.invoice_id _ rows h)
Covers-extend now i rest rows false e h = (λ f. absurd (ground (arith, e, f)), h)

Covers-overdue :
    (now : ℕ) (rows : List Invoice)
    → Covers now (map (λ i. i.invoice_id) (select (is_overdue now) rows)) rows
unfolding select Covers
Covers-overdue now [] = tt
Covers-overdue now (i ∷ rows) =
    Covers-extend now i _ rows (is_overdue now i) refl (Covers-overdue now rows)

overdue-swept :
    (now : ℕ) (ids : List String) (rows : List Invoice)
    → Covers now ids rows
    → select
        (is_overdue now)
        (update (is_pending_among ids) (λ i. record i { status = expired }) rows)
      ≡ []
unfolding select update Covers
overdue-swept now ids [] h = refl
overdue-swept now ids (i ∷ rows) h = ground (arith, h.0, overdue-swept now ids rows h.1)

none_overdue :
    (now : ℕ) (rows : List Invoice) → Covers now [] rows → select (is_overdue now) rows ≡ []
unfolding select contains Covers
none_overdue now [] h = refl
none_overdue now (i ∷ rows) h = ground (arith, h.0, none_overdue now rows h.1)

swept_none :
    (now : ℕ) (ids : List String) (s : Books)
    → Covers now ids s.invoices
    → select (is_overdue now) (expire_ids ids s).1.invoices ≡ []
unfolding ◌>>=◌
swept_none now [] s h = none_overdue now s.invoices h
swept_none now (id ∷ ids) s h = overdue-swept now (id ∷ ids) s.invoices h

-- After a sweep no pending invoice is overdue at that time, and a second sweep at the same time finds
-- none and changes nothing.
pub mark_expired_invoices_complete :
    (now : ℕ) (s : Books)
    → (select (is_overdue now) (mark_expired_invoices now s).1.invoices ≡ [])
      × (mark_expired_invoices now (mark_expired_invoices now s).1
          ≡ (ok 0, (mark_expired_invoices now s).1))
unfolding mark_expired_invoices ◌>>=◌
mark_expired_invoices_complete now s =
    let none_left =
      swept_none now (map (λ i. i.invoice_id) (select (is_overdue now) s.invoices)) s
        (Covers-overdue now s.invoices) in
    (none_left, rw none_left refl)

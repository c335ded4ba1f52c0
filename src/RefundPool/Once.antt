-- ===== src/RefundPool/Once.antt =====
-- app/trust/refund_pool.py does each thing once: the fee of an invoice and the decision on a claim.
use oldman_agent.Prelude.{
  ℕ, String, ◌≡◌, refl, ap, sym, ◌∙◌, Bool, true, false, Option, none, some, arith, is_some, eqb,
  ◌==◌, eq_iff, Bool-cases, inl, inr,
}
use oldman_agent.Exec.{ok, err, claim_decided, transaction, ◌>>=◌}
use oldman_agent.Exec.Rules.{
  Wp, Wp-bind, Wp-pure, Wp-raise, Wp-gets, Wp-if, Wp-raise_if, Wp-modify, Wp-transaction, Wp-weaken,
}
use oldman_agent.Table.{find}
use oldman_agent.Table.Updates.{find_holds, find-update_hit}
use oldman_agent.Books.{Books, RefundClaim, CreditsTransaction, applied, approved, denied}
use oldman_agent.Config.{Settings}
use oldman_agent.Credits.{receipt}
use oldman_agent.Credits.Frame.{transfer-Paid}
use oldman_agent.RefundPool.{
  accrued_for, accrue_unless, fee_order, accrue_pool_fee, adjudicate_claim, adjudicate_found,
  approve_claim, deny_claim, decide_claim, refund_order, is_pending_claim, pending_claim_of,
}

accrued_rerun :
    (c : Settings) (invoice_id : String) (s : Books) (found : Option CreditsTransaction)
    → is_some found ≡ true
    → transaction (accrue_unless c invoice_id found) s ≡ (ok none, s)
unfolding transaction ◌>>=◌
accrued_rerun c invoice_id s none h = absurd (ground arith)
accrued_rerun c invoice_id s (some t) h = refl

accrue_again :
    (c : Settings) (invoice_id : String) (s : Books)
    → is_some (find (accrued_for invoice_id) s.transactions) ≡ true
    → accrue_pool_fee c invoice_id s ≡ (ok none, s)
unfolding accrue_pool_fee transaction ◌>>=◌
accrue_again c invoice_id s h = elim (Bool-cases (eqb c.refund_pool_fee 0)) [
  | inl free ↦ rw free refl
  | inr fee ↦ rw fee (accrued_rerun c invoice_id s (find (accrued_for invoice_id) s.transactions) h)
]

accrue_free :
    (c : Settings) (invoice_id : String) (s : Books)
    → eqb c.refund_pool_fee 0 ≡ true
    → accrue_pool_fee c invoice_id s ≡ (ok none, s)
unfolding accrue_pool_fee ◌>>=◌
accrue_free c invoice_id s free = rw free refl

Wp-accrue_unless :
    (c : Settings) (invoice_id : String) (s : Books) (found : Option CreditsTransaction)
    → is_some found ≡ is_some (find (accrued_for invoice_id) s.transactions)
    → Wp
        (accrue_unless c invoice_id found)
        s
        (λ _ s'. is_some (find (accrued_for invoice_id) s'.transactions) ≡ true)
Wp-accrue_unless c invoice_id s (some t) h = Wp-pure none s _ (sym h)
Wp-accrue_unless c invoice_id s none h = Wp-bind _ _ s _ (
    Wp-weaken _ s _ (transfer-Paid (fee_order c invoice_id) c.starting_grant s) λ tx s' paid.
      Wp-pure (some tx) s' _ (paid.logged (accrued_for invoice_id) (accrued tx s paid.tx_lem)))
  where
    accrued :
        (tx : CreditsTransaction) (s : Books)
        → tx ≡ receipt (fee_order c invoice_id) (s.fresh s.drawn) s.clock applied
        → accrued_for invoice_id tx ≡ true
    accrued tx s e = rw e (ground (arith, eq_iff invoice_id invoice_id))

-- Once the fee of an invoice was accrued, or found to be accrued already, a second call for the same
-- invoice charges nothing and changes nothing.
pub accrue_pool_fee_once :
    (c : Settings) (invoice_id : String) (s : Books)
    → Wp (accrue_pool_fee c invoice_id) s (λ _ s'. accrue_pool_fee c invoice_id s' ≡ (ok none, s'))
unfolding accrue_pool_fee
accrue_pool_fee_once c invoice_id s =
    Wp-if _ _ _ s _ (λ free. Wp-pure _ s _ (accrue_free c invoice_id s free))
      λ fee. Wp-transaction _ s _ (
        Wp-bind _ _ s _ (
          Wp-gets _ s _ (
            Wp-weaken _ s _ (Wp-accrue_unless c invoice_id s _ refl)
              λ _ s' h. accrue_again c invoice_id s' h)))

-- The first claim under an identifier, decided.
Decided : String → Books → Type 0
Decided claim_id s =
    (r : RefundClaim) × (find (λ r. r.claim_id == claim_id) s.claims ≡ some r)
    × (is_pending_claim r.status ≡ false)

Wp-decide_claim :
    (claim_id : String) (f : RefundClaim → RefundClaim) (r : RefundClaim) (s : Books)
    → ((x : RefundClaim) → (f x).claim_id ≡ x.claim_id)
    → ((x : RefundClaim) → is_pending_claim (f x).status ≡ false)
    → find (λ x. x.claim_id == claim_id) s.claims ≡ some r
    → pending_claim_of claim_id r ≡ true
    → Wp (decide_claim claim_id f) s (λ _ s'. Decided claim_id s')
unfolding decide_claim Decided
Wp-decide_claim claim_id f r s same done e p = Wp-bind _ _ s _ (
    Wp-gets _ s _ (
      Wp-bind _ _ s _ (
        Wp-raise_if _ _ s _ λ _. Wp-modify _ s _ (
          f r,
          find-update_hit (pending_claim_of claim_id) (λ x. x.claim_id == claim_id) f
              (λ x. ap (λ y. y == claim_id) (same x)) r s.claims e p,
          done r,
        ))))

Wp-approve_claim :
    (c : Settings) (claim_id : String) (r : RefundClaim) (now : ℕ) (s : Books)
    → find (λ x. x.claim_id == claim_id) s.claims ≡ some r
    → pending_claim_of claim_id r ≡ true
    → Wp (approve_claim c claim_id r now) s (λ _ s'. Decided claim_id s')
unfolding approve_claim
Wp-approve_claim c claim_id r now s e p = Wp-bind _ _ s _ (
    Wp-weaken _ s _ (transfer-Paid (refund_order c r) c.starting_grant s) λ tx s' paid.
      Wp-bind _ _ s' _ (
        Wp-weaken _ s' _
          (Wp-decide_claim claim_id
            (λ x. record x {
              status = approved;
              decided_ts = some now;
              payout_tx_id = some tx.tx_id;
            })
            r s' (λ x. refl) (λ x. refl)
            (ap (find (λ x. x.claim_id == claim_id)) paid.same.claims ∙ e) p)
          λ _ s'' d. Wp-pure _ s'' _ d))

Wp-deny_claim :
    (claim_id : String) (r : RefundClaim) (now : ℕ) (s : Books)
    → find (λ x. x.claim_id == claim_id) s.claims ≡ some r
    → pending_claim_of claim_id r ≡ true
    → Wp (deny_claim claim_id now) s (λ _ s'. Decided claim_id s')
unfolding deny_claim
Wp-deny_claim claim_id r now s e p = Wp-bind _ _ s _ (
    Wp-weaken _ s _
      (Wp-decide_claim claim_id (λ x. record x { status = denied; decided_ts = some now }) r s
        (λ x. refl) (λ x. refl) e p)
      λ _ s'' d. Wp-pure _ s'' _ d)

Wp-adjudicate_found :
    (c : Settings) (claim_id : String) (justified : Bool) (now : ℕ) (s : Books)
    (row : Option RefundClaim)
    → find (λ x. x.claim_id == claim_id) s.claims ≡ row
    → Wp (adjudicate_found c claim_id justified now row) s (λ _ s'. Decided claim_id s')
Wp-adjudicate_found c claim_id justified now s none e = Wp-raise _ s _
Wp-adjudicate_found c claim_id true now s (some r) e = Wp-bind _ _ s _ (
    Wp-raise_if _ _ s _ λ pending. Wp-transaction _ s _ (
      Wp-approve_claim c claim_id r now s e
        (ground (arith, pending, find_holds (λ x. x.claim_id == claim_id) r s.claims e))))
Wp-adjudicate_found c claim_id false now s (some r) e = Wp-bind _ _ s _ (
    Wp-raise_if _ _ s _ λ pending. Wp-transaction _ s _ (
      Wp-deny_claim claim_id r now s e
        (ground (arith, pending, find_holds (λ x. x.claim_id == claim_id) r s.claims e))))

adjudicate_claim_again :
    (c : Settings) (claim_id : String) (justified : Bool) (now : ℕ) (s : Books)
    → Decided claim_id s
    → adjudicate_claim c claim_id justified now s ≡ (err claim_decided, s)
unfolding adjudicate_claim ◌>>=◌ Decided
adjudicate_claim_again c claim_id justified now s (r, e, d) = rw e (rw d refl)

-- After a claim was decided, whichever way, every later decision on it, at any time and of any
-- outcome, raises `claim_decided` and changes nothing: no claim is paid twice.
pub adjudicate_claim_once :
    (c : Settings) (claim_id : String) (justified again : Bool) (now later : ℕ) (s : Books)
    → Wp
        (adjudicate_claim c claim_id justified now)
        s
        (λ _ s'. adjudicate_claim c claim_id again later s' ≡ (err claim_decided, s'))
unfolding adjudicate_claim
adjudicate_claim_once c claim_id justified again now later s = Wp-bind _ _ s _ (
    Wp-gets _ s _ (
      Wp-weaken _ s _ (Wp-adjudicate_found c claim_id justified now s _ refl)
        λ _ s' d. adjudicate_claim_again c claim_id again later s' d))

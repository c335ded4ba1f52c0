-- ===== src/RefundPool/Repeats.antt =====
-- `file_claim` of app/trust/refund_pool.py looks at the invoice only.
use oldman_agent.Prelude.{
  ℕ, ◌+◌, String, ◌≡◌, refl, ap, ◌∙◌, Bool-cases, inl, inr, some, none, false, List, [], ◌∷◌, ◌++◌,
  map, Bool, true, ◌&&◌, arith, ◌==◌, eq_iff,
}
use oldman_agent.Exec.{ok, Exec, pure, ◌>>=◌, ◌>>◌}
use oldman_agent.Table.{select}
use oldman_agent.Books.{Books, RefundClaim, ClaimStatus, settled, pending_claim, uuid4}
use oldman_agent.Invoices.{get_invoice_status}
use oldman_agent.RefundPool.{file_claim}

-- Each claimant files a claim for the invoice.
unfoldable pub file_each : String → String → ℕ → List String → Exec Books (Unit {0})
file_each invoice_id reason_text now [] = pure tt
file_each invoice_id reason_text now (claimant ∷ claimants) = do
  file_claim claimant invoice_id reason_text now
  file_each invoice_id reason_text now claimants

abbrev is_pending : ClaimStatus → Bool
is_pending pending_claim = true
is_pending _ = false

-- The claimants of the pending claims for an invoice.
abbrev pub pending_claimants : String → Books → List String
pending_claimants invoice_id s =
    map (λ c. c.claimant_agent)
      (select (λ c. (c.invoice_id == invoice_id) && is_pending c.status) s.claims)

claimants_append :
    (p : RefundClaim → Bool) (c : RefundClaim) (cs : List RefundClaim)
    → p c ≡ true
    → map (λ x. x.claimant_agent) (select p (cs ++ c ∷ []))
      ≡ map (λ x. x.claimant_agent) (select p cs) ++ c.claimant_agent ∷ []
unfolding select
claimants_append p c [] h = rw h refl
claimants_append p c (x ∷ cs) h = elim (Bool-cases (p x)) [
  | inl kept ↦ rw kept (ap (λ l. x.claimant_agent ∷ l) (claimants_append p c cs h))
  | inr left ↦ rw left (claimants_append p c cs h)
]

append_assoc : (xs ys zs : List String) → (xs ++ ys) ++ zs ≡ xs ++ (ys ++ zs)
append_assoc [] ys zs = refl
append_assoc (x ∷ xs) ys zs = ap (λ l. x ∷ l) (append_assoc xs ys zs)

append-nil : (xs : List String) → xs ≡ xs ++ []
append-nil [] = refl
append-nil (x ∷ xs) = ap (λ l. x ∷ l) (append-nil xs)

abbrev filed : String → String → String → ℕ → Books → RefundClaim
filed claimant invoice_id reason_text now s = record {
  claim_id = s.fresh s.drawn;
  invoice_id = invoice_id;
  claimant_agent = claimant;
  reason_text = reason_text;
  status = pending_claim;
  filed_ts = now;
  decided_ts = none;
  payout_tx_id = none;
}

file_claim_run :
    (claimant invoice_id reason_text : String) (now : ℕ) (s : Books)
    → get_invoice_status invoice_id s ≡ some settled
    → file_claim claimant invoice_id reason_text now s ≡ (
      ok (s.fresh s.drawn),
      record s {
        drawn = s.drawn + 1;
        claims = s.claims ++ filed claimant invoice_id reason_text now s ∷ [];
      },
    )
unfolding file_claim uuid4 ◌>>=◌
file_claim_run claimant invoice_id reason_text now s h = rw h refl

-- For a settled invoice, any number of claimants, whoever they are and whatever claims, also decided
-- ones, the invoice has, can each file a claim: all calls finish, and the pending claims for the
-- invoice are those that it had and one of each claimant, in their order.
pub file_each-pending :
    (invoice_id reason_text : String) (now : ℕ) (claimants : List String) (s : Books)
    → get_invoice_status invoice_id s ≡ some settled
    → ((file_each invoice_id reason_text now claimants s).0 ≡ ok tt)
      × (pending_claimants invoice_id (file_each invoice_id reason_text now claimants s).1
          ≡ pending_claimants invoice_id s ++ claimants)
unfolding file_each ◌>>=◌ get_invoice_status
file_each-pending invoice_id reason_text now [] s h = (refl, append-nil _)
file_each-pending invoice_id reason_text now (claimant ∷ claimants) s h =
    let s1 = record s {
      drawn = s.drawn + 1;
      claims = s.claims ++ filed claimant invoice_id reason_text now s ∷ [];
    } in
    let rest = file_each-pending invoice_id reason_text now claimants s1 h in
    rw (file_claim_run claimant invoice_id reason_text now s h) (
      rest.0,
      rest.1
          ∙ ap (λ l. l ++ claimants)
              (claimants_append (λ c. (c.invoice_id == invoice_id) && is_pending c.status)
                (filed claimant invoice_id reason_text now s) s.claims
                (ground (arith, eq_iff invoice_id invoice_id)))
          ∙ append_assoc (pending_claimants invoice_id s) (claimant ∷ []) claimants,
    )

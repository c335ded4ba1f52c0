-- ===== src/Corroboration/Revoked.antt =====
-- What contradictions and confirmations do to the escrow of an event.
use oldman_agent.Prelude.{
  ℕ, String, ◌≡◌, ◌≢◌, refl, ap, sym, ◌∙◌, true, false, Option, none, some, arith, ◌==◌, eq_iff,
}
use oldman_agent.Exec.{Result, ok, err}
use oldman_agent.Exec.Ends.{
  Ends, Ends-pure, Ends-raise, Ends-gets, Ends-modify, Ends-raise_if, Ends-bind, Ends-then,
  Ends-weaken,
}
use oldman_agent.Table.{find}
use oldman_agent.Table.Updates.{find-update_cleared}
use oldman_agent.Floats.{Floats}
use oldman_agent.Books.{Books, expired_escrow}
use oldman_agent.Payout.{is_open_of}
use oldman_agent.Payout.Release.{IsClosed}
use oldman_agent.Archive.{Archive, EventRow}
use oldman_agent.Db.{Db, on_archive}
use oldman_agent.Db.Calls.{Ends-on_books, Ends-on_archive, Ends-on_village, Ends-any}
use oldman_agent.Village.{Village, honesty, corroborated}
use oldman_agent.Trust.{default_ledger_policy, default_membership_policy}
use oldman_agent.Service.{TrustUpdateResult, record_trust_event}
use oldman_agent.Service.Recorded.{Recorded, record_trust_event-Recorded}
use oldman_agent.Corroboration.{
  ContradictionResult, event_of, source_or_raise, seller_of, revoke_escrow, record_contradiction,
  record_corroboration,
}

revoke_escrow-closes :
    (id : String) (s : Books)
    → Ends
        (revoke_escrow id)
        s
        (λ r s'. IsClosed id s' × (s'.balances ≡ s.balances) × (s'.transactions ≡ s.transactions))
unfolding revoke_escrow
revoke_escrow-closes id s = Ends-bind _ _ s _ (
    Ends-gets _ s _ (
      Ends-bind _ _ s _ (
        Ends-modify _ s _ (
          Ends-pure _ _ _ (
            find-update_cleared (is_open_of id) (is_open_of id)
                (λ e. record e { status = expired_escrow }) s.escrows (λ r h. h)
                (λ r. ground arith),
            refl,
            refl,
          )))))

-- The source of the first event under an identifier.
abbrev SourceIs : String → Archive → Result String → Archive → Type 0
SourceIs id s (ok seller) s' =
    (s' ≡ s) × ((e : EventRow) × (find (event_of id) s.events ≡ some e) × (e.source_agent ≡ seller))
SourceIs id s (err e) s' = s' ≡ s

source_or_raise-SourceIs :
    (id : String) (s : Archive) (found : Option EventRow)
    → find (event_of id) s.events ≡ found
    → Ends (source_or_raise found) s (SourceIs id s)
source_or_raise-SourceIs id s none h = Ends-raise _ s _ refl
source_or_raise-SourceIs id s (some e) h = Ends-pure _ s _ (refl, (e, h, refl))

seller_of-SourceIs : (id : String) (s : Archive) → Ends (seller_of id) s (SourceIs id s)
unfolding seller_of
seller_of-SourceIs id s = Ends-bind _ _ s _ (Ends-gets _ s _ (source_or_raise-SourceIs id s _ refl))

module _ (F : Floats) where
  open F use {R}

  abbrev pub Contradicted : String → Db R → Result (ContradictionResult R) → Db R → Type 0
  Contradicted id s (ok r) s' =
      IsClosed id s'.books
      × (s'.books.balances ≡ s.books.balances)
      × (s'.books.transactions ≡ s.books.transactions)
  Contradicted id s (err e) s' = Unit

  -- A finished contradiction leaves no open escrow on the disputed event, and moves no credit.
  pub record_contradiction-closes :
      (disputed contradicting : String) (now : ℕ) (weight : R) (s : Db R)
      → Ends (record_contradiction F disputed contradicting now weight) s (Contradicted disputed s)
  unfolding record_contradiction
  record_contradiction-closes disputed contradicting now weight s = Ends-bind _ _ s _ (
      Ends-raise_if _ _ s _ (λ _. tt)
        λ _.
          Ends-then _ _ s (λ r s'. s'.books ≡ s.books) _
            (Ends-on_archive _ s _ (Ends-any _ _ _ λ r a. refl))
            (λ seller s1 same1.
              Ends-then _ _ s1 (λ r s'. s'.books ≡ s1.books) _
                (Ends-on_archive _ s1 _ (Ends-any _ _ _ λ r a. refl))
                (λ other s2 same2.
                  Ends-then _ _ s2 _ _
                    (Ends-on_books _ s2 (λ r s'. Closed s2.books s'.books)
                      (revoke_escrow-closes disputed s2.books))
                    (λ revoked s3 closed.
                      Ends-then _ _ s3 (λ r s'. s'.books ≡ s3.books) _
                        (Ends-on_village _ s3 _ (Ends-any _ _ _ λ r v. refl))
                        (λ trust s4 same4. Ends-pure _ s4 _ (
                          ap (λ b. find (is_open_of disputed) b.escrows) same4 ∙ closed.0,
                          ap (λ b. b.balances) same4
                              ∙ closed.1
                              ∙ ap (λ b. b.balances) (same2 ∙ same1),
                          ap (λ b. b.transactions) same4
                              ∙ closed.2
                              ∙ ap (λ b. b.transactions) (same2 ∙ same1),
                        ))
                        (λ e s4 _. tt))
                    (λ e s3 _. tt))
                (λ e s2 _. tt))
            (λ e s1 _. tt))
    where
      Closed : Books → Books → Type 0
      Closed b b' =
          IsClosed disputed b' × (b'.balances ≡ b.balances) × (b'.transactions ≡ b.transactions)

  -- The events of a corroboration, which different agents published.
  abbrev pub Independent : String → String → Db R → Result (TrustUpdateResult R) → Db R → Type 0
  Independent original corroborating s (ok r) s' =
      (e : EventRow) × (f : EventRow) × (find (event_of original) s.archive.events ≡ some e)
      × (find (event_of corroborating) s.archive.events ≡ some f)
      × (e.source_agent ≢ f.source_agent)
  Independent original corroborating s (err e) s' = s'.village ≡ s.village

  unequal : (a b : String) → (a == b) ≡ false → a ≢ b
  unequal a b h e = ground (arith, h, e, eq_iff a b)

  -- A corroboration counts only if both events are stored and different agents published them; one
  -- that raises has changed no score and no membership.
  pub record_corroboration-Independent :
      (original corroborating : String) (now : ℕ) (weight : R) (s : Db R)
      → Ends
          (record_corroboration F original corroborating now weight)
          s
          (Independent original corroborating s)
  unfolding record_corroboration
  record_corroboration-Independent original corroborating now weight s = Ends-bind _ _ s _ (
      Ends-raise_if _ _ s _ (λ _. refl)
        λ _.
          Ends-then _ _ s _ _ (seller original s)
            (λ a s1 (same1, (e, fe, ea)).
              Ends-then _ _ s1 _ _ (seller corroborating s1)
                (λ b s2 (same2, (f, ff, fb)). Ends-bind _ _ s2 _ (
                  Ends-raise_if _ _ s2 _ (λ _. ap (λ y. y.village) (same2 ∙ same1))
                    λ other. Ends-on_village _ s2 _ (
                      Ends-weaken _ _ _ (recorded a s2.village) (
                        outcome a s2 (ap (λ y. y.village) (same2 ∙ same1)) (
                          e,
                          f,
                          fe,
                          ap (λ y. find (event_of corroborating) y.archive.events) (sym same1) ∙ ff,
                          λ same. unequal a b other (sym ea ∙ same ∙ fb),
                        )))))
                (λ x s2 same2. ap (λ y. y.village) (same2 ∙ same1)))
            (λ x s1 same1. ap (λ y. y.village) same1))
    where
      Apart : Type 0
      Apart =
          (e : EventRow) × (f : EventRow) × (find (event_of original) s.archive.events ≡ some e)
          × (find (event_of corroborating) s.archive.events ≡ some f)
          × (e.source_agent ≢ f.source_agent)

      recorded :
          (a : String) (v : Village R)
          → Ends
              (record_trust_event F
                (default_ledger_policy F)
                (default_membership_policy F)
                a
                honesty
                true
                weight
                corroborated
                (some original)
                now)
              v
              (Recorded F a honesty now v)
      recorded a v = record {
        at =
            record_trust_event-Recorded F (default_ledger_policy F) (default_membership_policy F) a
              honesty true weight corroborated (some original) now v;
      }

      outcome :
          (a : String) (s2 : Db R)
          → s2.village ≡ s.village
          → Apart
          → (r : Result (TrustUpdateResult R)) (v : Village R)
          → Recorded F a honesty now s2.village r v
          → Independent original corroborating s r (record s2 { village = v })
      outcome a s2 same apart (ok r) v h = apart
      outcome a s2 same apart (err x) v h = h ∙ same

      SellerIs : String → Db R → Result String → Db R → Type 0
      SellerIs id s (ok a) s' =
          (s' ≡ s)
          × ((e : EventRow) × (find (event_of id) s.archive.events ≡ some e) × (e.source_agent ≡ a))
      SellerIs id s (err x) s' = s' ≡ s

      seller : (id : String) (s : Db R) → Ends (on_archive (seller_of id)) s (SellerIs id s)
      seller id s = Ends-on_archive _ s _ (Ends-weaken _ _ _ (seller_of-SourceIs id s.archive) lift)
        where
          lift :
              (r : Result String) (a : Archive)
              → SourceIs id s.archive r a
              → SellerIs id s r (record s { archive = a })
          lift (ok b) a (same, found) = (rw same refl, found)
          lift (err x) a same = rw same refl

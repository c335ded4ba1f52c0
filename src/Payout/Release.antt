-- ===== src/Payout/Release.antt =====
-- `release_royalties_for_citations` of app/trust/payout.py: books stay balanced, and no cited event keeps
-- an open escrow.
use oldman_agent.Prelude.{
  ℕ, String, ◌≡◌, refl, ap, ◌∙◌, Bool, true, false, Option, none, some, List, [], ◌∷◌, arith, ltb,
  ◌==◌, Bool-cases, inl, inr, eq_iff,
}
use mathlib.Core.Path.{subst}
use oldman_agent.Prelude.Dedup.{contains, dedup, dedup_lem}
use oldman_agent.Exec.{◌>>=◌}
use oldman_agent.Exec.Rules.{
  Wp, Wp-bind, Wp-pure, Wp-gets, Wp-modify, Wp-weaken, Wp-transaction, transaction_keeps,
}
use oldman_agent.Table.{find}
use oldman_agent.Table.Updates.{find-update_never, find-update_cleared}
use oldman_agent.Books.{Books, RoyaltyEscrow, paid, expired_escrow}
use oldman_agent.Audit.{is_open}
use oldman_agent.Config.{Settings}
use oldman_agent.Credits.Balanced.{IsBalanced}
use oldman_agent.Credits.Frame.{transfer-Paid-IsBalanced}
use oldman_agent.Payout.{
  is_open_of, set_escrow, royalty_order, pay_royalty, expire_escrow, release_found, release_one,
  release_each, release_royalties_for_citations,
}
use oldman_agent.Payout.Split.{IsBalanced-escrows}

-- No escrow of the event is open.
abbrev pub IsClosed : String → Books → Type 0
IsClosed event_id s = find (is_open_of event_id) s.escrows ≡ none

-- The calls close the event, keep closed what was closed, and keep the books balanced.
record Closes (s : Books) (closed : String → Bool) (s' : Books) : Type 0 where
  balanced : IsBalanced s'
  closes : (event_id : String) → closed event_id ≡ true → IsClosed event_id s'
  stays : (event_id : String) → IsClosed event_id s → IsClosed event_id s'

closed_by :
    (event_id : String) (f : RoyaltyEscrow → RoyaltyEscrow) (s0 s : Books)
    → ((e : RoyaltyEscrow) → is_open (f e).status ≡ false)
    → s.escrows ≡ s0.escrows
    → IsBalanced s
    → Closes s0 (λ x. event_id == x) (set_escrow event_id f s)
closed_by event_id f s0 s shut same b = record {
  balanced = IsBalanced-escrows s _ b;
  closes = λ x e.
      find-update_cleared (λ e. e.event_id == event_id) (is_open_of x) f s.escrows
        (λ r o. ground (arith, eq_iff event_id x, eq_iff r.event_id x, eq_iff r.event_id event_id))
        (λ r. ground (arith, shut r));
  stays = λ x e.
      find-update_never (λ e. e.event_id == event_id) (is_open_of x) f s.escrows
        (λ r o. absurd (ground (arith, shut r))) (ap (find (is_open_of x)) same ∙ e);
}

Wp-release_found :
    (c : Settings) (event_id : String) (invoice_id : Option String) (now : ℕ) (s : Books)
    (found : Option RoyaltyEscrow)
    → find (is_open_of event_id) s.escrows ≡ found
    → IsBalanced s
    → Wp
        (release_found c event_id invoice_id now found)
        s
        (λ _ s'. Closes s (λ x. event_id == x) s')
unfolding pay_royalty expire_escrow
Wp-release_found c event_id invoice_id now s none e b = Wp-pure _ s _ (record {
  balanced = b;
  closes = λ x h. subst (λ y. IsClosed y s) ((eq_iff event_id x).0 h) e;
  stays = λ x h. h;
})
Wp-release_found c event_id invoice_id now s (some e) h b =
    elim (Bool-cases (ltb e.expires_ts now)) [
      | inl late ↦ rw late (
          Wp-bind _ _ s _ (
            Wp-bind _ _ s _ (
              Wp-modify _ s _ (
                Wp-pure _ _ _ (
                  Wp-pure _ _ _ (
                    closed_by event_id (λ x. record x { status = expired_escrow }) s s (λ e. refl)
                      refl b))))))
      | inr due ↦ rw due (
          Wp-bind _ _ s _ (
            Wp-bind _ _ s _ (
              Wp-weaken _ s _
                (transfer-Paid-IsBalanced (royalty_order e event_id invoice_id) _ e.seller_agent s
                  refl b)
                λ tx s1 (p, b1). Wp-bind _ _ s1 _ (
                  Wp-modify _ s1 _ (
                    Wp-pure _ _ _ (
                      Wp-pure _ _ _ (
                        closed_by event_id
                          (λ x. record x {
                            status = paid;
                            paid_tx_id = some tx.tx_id;
                            paid_ts = some now;
                          })
                          s s1 (λ e. refl) p.same.escrows b1)))))))
    ]

Wp-release_one :
    (c : Settings) (event_id : String) (invoice_id : Option String) (now : ℕ) (s : Books)
    → IsBalanced s
    → Wp (release_one c event_id invoice_id now) s (λ _ s'. Closes s (λ x. event_id == x) s')
unfolding release_one
Wp-release_one c event_id invoice_id now s b =
    Wp-bind _ _ s _ (Wp-gets _ s _ (Wp-release_found c event_id invoice_id now s _ refl b))

Wp-release_each :
    (c : Settings) (events : List String) (invoice_id : Option String) (now : ℕ) (s : Books)
    → IsBalanced s
    → Wp (release_each c events invoice_id now) s (λ _ s'. Closes s (λ x. contains x events) s')
unfolding release_each contains
Wp-release_each c [] invoice_id now s b =
    Wp-pure _ s _ (record { balanced = b; closes = λ x h. absurd (ground arith); stays = λ x h. h })
Wp-release_each c (event_id ∷ rest) invoice_id now s b = Wp-bind _ _ s _ (
    Wp-weaken _ s _ (Wp-release_one c event_id invoice_id now s b) λ first s1 one.
      Wp-bind _ _ s1 _ (
        Wp-weaken _ s1 _ (Wp-release_each c rest invoice_id now s1 one.balanced) λ others s2 more.
          Wp-pure _ s2 _ (record {
            balanced = more.balanced;
            closes = λ x h. elim (Bool-cases (event_id == x)) [
              | inl this ↦ more.stays x (one.closes x this)
              | inr other ↦ more.closes x (ground (arith, h, other))
            ];
            stays = λ x h. more.stays x (one.stays x h);
          })))

-- From balanced books, the books are balanced after the call on every outcome; and if it finishes, a
-- cited event has no open escrow left, so that none can be paid a second time.
pub release_royalties-closes :
    (c : Settings) (cited : List String) (invoice_id : Option String) (now : ℕ) (s : Books)
    (event_id : String)
    → IsBalanced s
    → contains event_id cited ≡ true
    → IsBalanced (release_royalties_for_citations c cited invoice_id now s).1
      × Wp (release_royalties_for_citations c cited invoice_id now) s (λ _ s'. IsClosed event_id s')
unfolding release_royalties_for_citations contains ◌>>=◌
release_royalties-closes c [] invoice_id now s event_id b m = absurd (ground arith)
release_royalties-closes c (one ∷ more) invoice_id now s event_id b m =
    let each = Wp-release_each c (dedup (one ∷ more)) invoice_id now s b in
    (
      transaction_keeps IsBalanced _ s b (Wp-weaken _ s _ each λ _ s' h. h.balanced),
      Wp-transaction _ s _ (
          Wp-weaken _ s _ each
            λ _ s' h. h.closes event_id ((dedup_lem (one ∷ more)).1 event_id ∙ m)),
    )

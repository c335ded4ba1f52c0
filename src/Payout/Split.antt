-- ===== src/Payout/Split.antt =====
-- `split_publish_payment` of app/trust/payout.py: the fee, the escrow, and what they do to the books.
use oldman_agent.Prelude.{
  ℕ, ◌+◌, ◌-◌, ◌≤◌, ◌∙◌, String, ◌≡◌, refl, ap, Bool-cases, inl, inr, true, some, List, [], ◌∷◌,
  ◌++◌, arith, ltb, eqb, is_some, Bool, ◌&&◌, ◌==◌, eq_iff, Option, none, false, if◌then◌else◌,
}
use oldman_agent.Exec.Rules.{Wp, Wp-bind, Wp-pure, Wp-gets, Wp-raise_if, Wp-modify, Wp-weaken}
use oldman_agent.Table.{find, select, sum}
use oldman_agent.Books.{Books, RoyaltyEscrow, CreditsTransaction, applied}
use oldman_agent.Credits.{receipt}
use oldman_agent.Audit.{open_escrow_liability, total_balance, total_minted, is_open, is_applied}
use oldman_agent.Config.{Settings, post_init}
use oldman_agent.Credits.Balanced.{IsBalanced}
use oldman_agent.Credits.Frame.{transfer-Paid-IsBalanced}
use oldman_agent.Payout.{
  treasury, listing_fee_of, insert_escrow, escrow_rest, listing_order, split_publish_payment,
}

-- Under settings that `__post_init__` accepts, the listing fee is at least one credit and at most the
-- reward, however the share is rounded.
pub listing_fee_of-bounds :
    (c accepted : Settings)
    → post_init c ≡ some accepted
    → (1 ≤ listing_fee_of c) × (listing_fee_of c ≤ c.publish_reward)
unfolding post_init listing_fee_of
listing_fee_of-bounds c accepted h = ground arith

liability_append :
    (e : RoyaltyEscrow) (es : List RoyaltyEscrow)
    → sum (λ x. x.amount) (select (λ x. is_open x.status) (es ++ e ∷ []))
      ≡ sum (λ x. x.amount) (select (λ x. is_open x.status) es)
        + (if is_open e.status then e.amount else 0)
unfolding sum select
liability_append e [] = ground arith
liability_append e (x ∷ es) = ground (arith, liability_append e es)

pub IsBalanced-escrows :
    (s : Books) (es : List RoyaltyEscrow) → IsBalanced s → IsBalanced (record s { escrows = es })
unfolding total_balance total_minted
IsBalanced-escrows s es h = record { keyed = h.keyed; conserved = h.conserved }

Wp-insert_escrow :
    (e : RoyaltyEscrow) (s : Books)
    → IsBalanced s
    → is_open e.status ≡ true
    → Wp (insert_escrow e) s (λ _ s'.
      IsBalanced s'
      × (open_escrow_liability s' ≡ open_escrow_liability s + e.amount)
      × (s'.transactions ≡ s.transactions))
unfolding insert_escrow open_escrow_liability
Wp-insert_escrow e s h o = Wp-bind _ _ s _ (
    Wp-gets _ s _ (
      Wp-bind _ _ s _ (
        Wp-raise_if _ _ s _ λ _. Wp-bind _ _ s _ (
          Wp-raise_if _ _ s _ λ _.
            Wp-modify _ s _
              (IsBalanced-escrows s _ h, ground (arith, o, liability_append e s.escrows), refl)))))

Wp-escrow_rest :
    (c : Settings) (event_id seller : String) (now escrowed : ℕ) (s : Books)
    → IsBalanced s
    → Wp (escrow_rest c event_id seller now escrowed) s (λ _ s'.
      IsBalanced s'
      × (open_escrow_liability s' ≡ open_escrow_liability s + escrowed)
      × (s'.transactions ≡ s.transactions))
Wp-escrow_rest c event_id seller now escrowed s h = elim (Bool-cases (ltb 0 escrowed)) [
  | inl some_left ↦ rw some_left (Wp-insert_escrow _ s h refl)
  | inr empty ↦ rw empty (Wp-pure _ s _ (h, ground (arith, empty), refl))
]

liability_same :
    (s s' : Books) → s'.escrows ≡ s.escrows → open_escrow_liability s' ≡ open_escrow_liability s
unfolding open_escrow_liability
liability_same s s' e = ap (λ es. sum (λ x. x.amount) (select (λ x. is_open x.status) es)) e

fee_and_rest :
    (c : Settings) → listing_fee_of c + (c.publish_reward - listing_fee_of c) ≡ c.publish_reward
unfolding listing_fee_of
fee_and_rest c = ground arith

abbrev is_agent : String → Option String → Bool
is_agent a none = false
is_agent a (some b) = a == b

-- The entry of an applied payment of `amount` by the treasury to the seller.
abbrev pub pays_seller : String → String → ℕ → CreditsTransaction → Bool
pays_seller tx_id seller amount t =
    (t.tx_id == tx_id)
    && (is_agent treasury t.from_agent && (is_agent seller t.to_agent && eqb t.amount amount))
    && is_applied t.outcome

fee_paid :
    (c : Settings) (event_id seller tx_id : String) (now : ℕ)
    → pays_seller tx_id seller
        (listing_fee_of c)
        (receipt (listing_order c event_id seller) tx_id now applied)
      ≡ true
fee_paid c event_id seller tx_id now =
    ground (arith, eq_iff tx_id tx_id, eq_iff treasury treasury, eq_iff seller seller)

-- A finished split pays out exactly the reward, in part as the listing fee and in part as an escrow:
-- the log has an applied payment of the fee by the treasury to the seller, under the returned
-- identifier, the open liability grows by the escrowed part, and balanced books stay balanced.
pub split_publish_payment-exact :
    (c : Settings) (event_id seller : String) (now : ℕ) (s : Books)
    → IsBalanced s
    → Wp (split_publish_payment c event_id seller now) s (λ p s'.
      (p.fee + p.escrowed ≡ c.publish_reward)
      × (is_some (find (pays_seller p.listing_fee_tx_id seller p.fee) s'.transactions) ≡ true)
      × IsBalanced s'
      × (open_escrow_liability s' ≡ open_escrow_liability s + p.escrowed))
unfolding split_publish_payment
split_publish_payment-exact c event_id seller now s h = Wp-bind _ _ s _ (
    Wp-weaken _ s _ (transfer-Paid-IsBalanced (listing_order c event_id seller) _ seller s refl h)
      λ tx s1 (p, b). Wp-bind _ _ s1 _ (
        Wp-weaken _ s1 _ (Wp-escrow_rest c event_id seller now _ s1 b) λ _ s2 (b', l, kept).
          Wp-pure _ s2 _ (
            fee_and_rest c,
            rw kept (
                p.logged (pays_seller tx.tx_id seller (listing_fee_of c))
                  (rw p.tx_lem (fee_paid c event_id seller (s.fresh s.drawn) s.clock))),
            b',
            l
                ∙ ap (λ n. n + (c.publish_reward - listing_fee_of c))
                    (liability_same s s1 p.same.escrows),
          )))

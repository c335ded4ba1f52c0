-- ===== src/Payout.antt =====
-- app/trust/payout.py: a purchase is paid as a listing fee now and a royalty escrow for citations.
pub mod Split
pub mod Release
use oldman_agent.Prelude.{
  ℕ, ◌+◌, ◌-◌, ◌*◌, min, max, String, Bool, ◌&&◌, Option, none, some, List, [], ◌∷◌, ◌++◌, ltb,
  is_some, if◌then◌else◌, ◌==◌,
}
use oldman_agent.Prelude.Dedup.{dedup}
use oldman_agent.Exec.{
  Exec, duplicate_key, out_of_range, pure, gets, modify, raise_if, transaction, ◌>>=◌, ◌>>◌,
}
use oldman_agent.Table.{find, update}
use oldman_agent.Books.{
  Books, RoyaltyEscrow, EscrowStatus, open_escrow, paid, expired_escrow, listing_fee, royalty,
  max_integer,
}
use oldman_agent.Audit.{is_open}
use oldman_agent.Config.{Settings}
use oldman_agent.Credits.{Order, transfer}

-- `OLDMAN_TREASURY_AGENT_ID`
abbrev pub treasury : String
treasury = "oldman"

-- `timedelta(days=1)` in microseconds
abbrev pub day : ℕ
day = 86400000000

pub record PublishPayout : Type 0 where
  pub listing_fee_tx_id : String
  pub fee : ℕ
  pub escrowed : ℕ

-- `min(reward, max(1, round(reward * ratio)))`
unfoldable pub listing_fee_of : Settings → ℕ
listing_fee_of c = min c.publish_reward (max 1 (c.rounded_fee c.publish_reward))

-- `INSERT INTO royalty_escrows`, keyed by the event
unfoldable pub insert_escrow : RoyaltyEscrow → Exec Books (Unit {0})
insert_escrow e = do
  known ← gets (λ s. is_some (find (λ x. x.event_id == e.event_id) s.escrows))
  raise_if known duplicate_key
  raise_if (ltb max_integer e.amount) out_of_range
  modify λ s. record s { escrows = s.escrows ++ e ∷ [] }

abbrev pub escrow_rest : Settings → String → String → ℕ → ℕ → Exec Books (Unit {0})
escrow_rest c event_id seller now escrowed =
    if ltb 0 escrowed
    then insert_escrow (record {
      event_id = event_id;
      seller_agent = seller;
      amount = escrowed;
      created_ts = now;
      expires_ts = now + c.escrow_horizon_days * day;
      status = open_escrow;
      paid_tx_id = none;
      paid_ts = none;
    })
    else pure tt

abbrev pub listing_order : Settings → String → String → Order
listing_order c event_id seller = record {
  from_agent = some treasury;
  to_agent = some seller;
  amount = listing_fee_of c;
  reason = listing_fee;
  event_id = some event_id;
  invoice_id = none;
}

unfoldable pub split_publish_payment : Settings → String → String → ℕ → Exec Books PublishPayout
split_publish_payment c event_id seller now = do
  tx ← transfer (listing_order c event_id seller) c.starting_grant
  let escrowed = c.publish_reward - listing_fee_of c
  escrow_rest c event_id seller now escrowed
  pure (record {
    listing_fee_tx_id = tx.tx_id;
    fee = listing_fee_of c;
    escrowed = c.publish_reward - listing_fee_of c;
  })

pub record RoyaltyRelease : Type 0 where
  pub event_id : String
  pub seller_agent : String
  pub amount : ℕ
  pub status : EscrowStatus

abbrev pub released : RoyaltyEscrow → EscrowStatus → RoyaltyRelease
released e status = record {
  event_id = e.event_id;
  seller_agent = e.seller_agent;
  amount = e.amount;
  status = status;
}

-- `WHERE event_id = ? AND status = 'open'`
abbrev pub is_open_of : String → RoyaltyEscrow → Bool
is_open_of event_id e = e.event_id == event_id && is_open e.status

-- `UPDATE royalty_escrows SET … WHERE event_id = ?`
abbrev pub set_escrow : String → (RoyaltyEscrow → RoyaltyEscrow) → Books → Books
set_escrow event_id f s = record s { escrows = update (λ e. e.event_id == event_id) f s.escrows }

abbrev pub royalty_order : RoyaltyEscrow → String → Option String → Order
royalty_order e event_id invoice_id = record {
  from_agent = some treasury;
  to_agent = some e.seller_agent;
  amount = e.amount;
  reason = royalty;
  event_id = some event_id;
  invoice_id = invoice_id;
}

unfoldable pub pay_royalty :
    Settings → String → Option String → ℕ → RoyaltyEscrow → Exec Books RoyaltyRelease
pay_royalty c event_id invoice_id now e = do
  tx ← transfer (royalty_order e event_id invoice_id) c.starting_grant
  modify (
      set_escrow event_id
        (λ x. record x { status = paid; paid_tx_id = some tx.tx_id; paid_ts = some now }))
  pure (released e paid)

unfoldable pub expire_escrow : String → RoyaltyEscrow → Exec Books RoyaltyRelease
expire_escrow event_id e = do
  modify (set_escrow event_id (λ x. record x { status = expired_escrow }))
  pure (released e expired_escrow)

-- The body of the loop over the cited events.
abbrev pub release_found :
    Settings → String → Option String → ℕ → Option RoyaltyEscrow → Exec Books (List RoyaltyRelease)
release_found c event_id invoice_id now none = pure []
release_found c event_id invoice_id now (some e) =
    if ltb e.expires_ts now
    then (do r ← expire_escrow event_id e; pure (r ∷ []))
    else (do r ← pay_royalty c event_id invoice_id now e; pure (r ∷ []))

unfoldable pub release_one :
    Settings → String → Option String → ℕ → Exec Books (List RoyaltyRelease)
release_one c event_id invoice_id now = do
  found ← gets (λ s. find (is_open_of event_id) s.escrows)
  release_found c event_id invoice_id now found

unfoldable pub release_each :
    Settings → List String → Option String → ℕ → Exec Books (List RoyaltyRelease)
release_each c [] invoice_id now = pure []
release_each c (event_id ∷ rest) invoice_id now = do
  first ← release_one c event_id invoice_id now
  others ← release_each c rest invoice_id now
  pure (first ++ others)

unfoldable pub release_royalties_for_citations :
    Settings → List String → Option String → ℕ → Exec Books (List RoyaltyRelease)
release_royalties_for_citations c [] invoice_id now = pure []
release_royalties_for_citations c (cited ∷ more) invoice_id now =
    transaction (release_each c (dedup (cited ∷ more)) invoice_id now)

-- ===== src/Corroboration.antt =====
-- app/trust/corroboration.py: contradictions and independent confirmations of stored events.
pub mod Revoked
use oldman_agent.Prelude.{
  ℕ, String, Bool, true, false, ◌&&◌, Option, none, some, is_some, if◌then◌else◌, ◌==◌,
}
use oldman_agent.Exec.{
  Exec, same_event, unknown_event, self_corroboration, pure, raise, gets, modify, raise_if, ◌>>=◌,
  ◌>>◌,
}
use oldman_agent.Table.{find, update}
use oldman_agent.Floats.{Floats}
use oldman_agent.Books.{Books, RoyaltyEscrow, expired_escrow}
use oldman_agent.Payout.{is_open_of}
use oldman_agent.Archive.{Archive, EventRow}
use oldman_agent.Village.{honesty, grounding_contradiction, corroborated}
use oldman_agent.Trust.{default_ledger_policy, default_membership_policy}
use oldman_agent.Service.{TrustUpdateResult, record_trust_event}
use oldman_agent.Db.{Db, on_books, on_archive, on_village}

abbrev pub event_of : String → EventRow → Bool
event_of id e = e.event_id == id

abbrev source_or_raise : Option EventRow → Exec Archive String
source_or_raise none = raise unknown_event
source_or_raise (some e) = pure e.source_agent

-- `_seller_of`
unfoldable pub seller_of : String → Exec Archive String
seller_of event_id = do row ← gets (λ s. find (event_of event_id) s.events); source_or_raise row

-- `UPDATE … SET status='expired' WHERE event_id = ? AND status = 'open' RETURNING`
unfoldable pub revoke_escrow : String → Exec Books Bool
revoke_escrow event_id = do
  revoked ← gets (λ s. is_some (find (is_open_of event_id) s.escrows))
  modify λ s. record s {
    escrows = update (is_open_of event_id) (λ e. record e { status = expired_escrow }) s.escrows;
  }
  pure revoked

pub record ContradictionResult (R : Type 0) : Type 0 where
  pub disputed_event_id : String
  pub seller_agent : String
  pub escrow_revoked : Bool
  pub trust : TrustUpdateResult R

module _ (F : Floats) where
  open F use {R}

  unfoldable pub record_contradiction :
      String → String → ℕ → R → Exec (Db R) (ContradictionResult R)
  record_contradiction disputed contradicting now weight = do
    raise_if (disputed == contradicting) same_event
    seller ← on_archive (seller_of disputed)
    on_archive (seller_of contradicting)
    revoked ← on_books (revoke_escrow disputed)
    trust ← on_village (
        record_trust_event F (default_ledger_policy F) (default_membership_policy F) seller honesty
          false weight grounding_contradiction (some disputed) now)
    pure (record {
      disputed_event_id = disputed;
      seller_agent = seller;
      escrow_revoked = revoked;
      trust = trust;
    })

  unfoldable pub record_corroboration : String → String → ℕ → R → Exec (Db R) (TrustUpdateResult R)
  record_corroboration original corroborating now weight = do
    raise_if (original == corroborating) same_event
    original_seller ← on_archive (seller_of original)
    corroborating_seller ← on_archive (seller_of corroborating)
    raise_if (original_seller == corroborating_seller) self_corroboration
    on_village (
        record_trust_event F (default_ledger_policy F) (default_membership_policy F) original_seller
          honesty true weight corroborated (some original) now)

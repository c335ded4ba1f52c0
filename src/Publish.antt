-- ===== src/Publish.antt =====
-- `execute_publish` of app/api/publish.py: signature and duplicate gates, then payment and storage in
-- one transaction, then the trust evidence. `verify` stands for `verify_payload`, a signature check.
pub mod Stored
pub mod Atomic
pub mod Balanced
use oldman_agent.Prelude.{
  ℕ, String, Bool, true, false, not, ◌&&◌, ◌||◌, Option, none, some, List, [], ◌∷◌, map, is_some,
  if◌then◌else◌, ◌==◌,
}
use oldman_agent.Prelude.Dedup.{contains}
use oldman_agent.Exec.{
  Exec, Error, insufficient_funds, oldman_insufficient_funds, duplicate_payload_hash,
  exact_hash_duplicate, blocked_kind, invalid_signature, missing_signature, did_mismatch,
  jaccard_duplicate, pure, raise, gets, raise_if, transaction, catch, ◌>>=◌, ◌>>◌,
}
use oldman_agent.Floats.{Floats}
use oldman_agent.Json.{Json, TextServices}
use oldman_agent.Dedup.{blocklisted_kinds, payload_sha256, tokenize, is_near_duplicate}
use oldman_agent.Books.{Books, publish_reward, uuid4}
use oldman_agent.Config.{Settings}
use oldman_agent.Credits.{Order, transfer}
use oldman_agent.Payout.{treasury, split_publish_payment}
use oldman_agent.Archive.{
  SourceType, AgentIdentityRow, Archive, insert_event, fetch_recent_payloads_by_agent,
  append_episodic, touch_semantic, get_agent_identity, upsert_agent_identity,
}
use oldman_agent.Village.{reliability, publish_settled, Village}
use oldman_agent.Trust.{default_ledger_policy, default_membership_policy}
use oldman_agent.Service.{record_trust_event}
use oldman_agent.Db.{Db, on_books, on_archive, on_village}

pub record PublishRequest : Type 0 where
  pub event_kind : String
  pub source_agent : String
  pub observed_agent : Option String
  pub payload : Json
  pub declared_source_type : SourceType
  pub ts : Option ℕ
  pub seller_did : Option String
  pub payload_signature : Option String

-- `bool(text)` of an optional text
abbrev pub is_given : Option String → Bool
is_given none = false
is_given (some a) = not (a == "")

abbrev pub or_clock : Option ℕ → ℕ → ℕ
or_clock none now = now
or_clock (some ts) now = ts

abbrev other_did : String → Option AgentIdentityRow → Bool
other_did did none = false
other_did did (some r) = not (r.did == did)

abbrev pub identity : String → String → AgentIdentityRow
identity a did = record { agent_id = a; did = did; erc8004_agent_id = none; erc8004_chain = none }

-- The first signed publish binds the agent to its DID.
abbrev bind_identity : String → String → Option AgentIdentityRow → Exec Archive (Unit {0})
bind_identity a did none = upsert_agent_identity (identity a did)
bind_identity a did (some r) = raise_if (other_did did (some r)) did_mismatch

-- Why a publish failed, as the caller sees it.
abbrev pub map_payment_error : {S A : Type 0} → Error → Exec S A
map_payment_error (insufficient_funds _ _ _) = raise oldman_insufficient_funds
map_payment_error e = raise e

abbrev pub map_constraint_error : {S A : Type 0} → Error → Exec S A
map_constraint_error duplicate_payload_hash = raise exact_hash_duplicate
map_constraint_error e = raise e

abbrev pub reward_order : Settings → String → String → Order
reward_order c event_id seller = record {
  from_agent = some treasury;
  to_agent = some seller;
  amount = c.publish_reward;
  reason = publish_reward;
  event_id = some event_id;
  invoice_id = none;
}

-- The payment of a purchase, inside the transaction of the publish.
unfoldable pub pay_seller : Settings → String → String → ℕ → Exec Books (Option String)
pay_seller c event_id seller ts =
    if c.payment_enabled && not c.payment_kill_switch
    then catch
        (if c.royalty_enabled
          then (do p ← split_publish_payment c event_id seller ts; pure (some p.listing_fee_tx_id))
          else (do
            tx ← transfer (reward_order c event_id seller) c.starting_grant
            pure (some tx.tx_id)))
        map_payment_error
    else pure none

abbrev touch_observed : Option String → SourceType → ℕ → Exec Archive (Unit {0})
touch_observed none source ts = pure tt
touch_observed (some a) source ts = if a == "" then pure tt else touch_semantic a source ts

unfoldable pub store_event :
    PublishRequest → String → ℕ → String → Option String → Exec Archive (Unit {0})
store_event req event_id ts p_hash credits_tx_id = do
  insert_event (record {
    event_id = event_id;
    ts = ts;
    kind = req.event_kind;
    source_agent = req.source_agent;
    source_type = req.declared_source_type;
    payload = req.payload;
    payload_hash = p_hash;
    credits_tx_id = credits_tx_id;
    seller_did = req.seller_did;
  })
  append_episodic (record {
    event_id = event_id;
    observer_agent = req.source_agent;
    observed_agent = req.observed_agent;
    kind = req.event_kind;
    ts = ts;
    source_type = req.declared_source_type;
  })
  touch_semantic req.source_agent req.declared_source_type ts
  touch_observed req.observed_agent req.declared_source_type ts

-- `verify did payload signature source_agent`
module _ (verify : String → Json → String → String → Bool) where
  abbrev badly_signed : PublishRequest → Option String → Option String → Bool
  badly_signed req (some did) (some signature) =
      did == "" || (signature == "" || not (verify did req.payload signature req.source_agent))
  badly_signed req _ _ = true

  abbrev did_or_empty : Option String → String
  did_or_empty none = ""
  did_or_empty (some did) = did

  unfoldable pub check_signature : Settings → PublishRequest → Exec Archive (Unit {0})
  check_signature c req =
      if is_given req.seller_did || is_given req.payload_signature
      then (do
        raise_if (badly_signed req req.seller_did req.payload_signature) invalid_signature
        registered ← gets (get_agent_identity req.source_agent)
        bind_identity req.source_agent (did_or_empty req.seller_did) registered)
      else raise_if c.require_signed_publish missing_signature

module _ (F : Floats) where
  open F use {R, num}

  -- The BEGIN … COMMIT block, with the id of the payment.
  unfoldable pub persist :
      Settings → PublishRequest → String → ℕ → String → Exec (Db R) (Option String)
  persist c req event_id ts p_hash = do
    credits_tx_id ← on_books (pay_seller c event_id req.source_agent ts)
    on_archive (store_event req event_id ts p_hash credits_tx_id)
    pure credits_tx_id

  -- Settled purchases alone are evidence of reliability; a failure here is suppressed.
  abbrev pub credit_reliability : String → String → ℕ → Option String → Exec (Db R) (Unit {0})
  credit_reliability seller event_id ts none = pure tt
  credit_reliability seller event_id ts (some tx_id) =
      catch
        (on_village (
            record_trust_event F (default_ledger_policy F) (default_membership_policy F) seller
              reliability true (num 1) publish_settled (some event_id) ts)
          >> pure tt)
        (λ _. pure tt)

  -- The gates before anything is paid or stored.
  unfoldable pub admit :
      (String → Json → String → String → Bool)
      → TextServices
      → R
      → Settings
      → PublishRequest
      → Exec (Db R) (Unit {0})
  admit verify u threshold c req = do
    raise_if (contains req.event_kind blocklisted_kinds) blocked_kind
    on_archive (check_signature verify c req)
    recent ← gets (λ s. fetch_recent_payloads_by_agent req.source_agent c.jaccard_window s.archive)
    raise_if (is_near_duplicate F threshold (tokenize u req.payload) (map (tokenize u) recent))
        jaccard_duplicate

  unfoldable pub execute_publish :
      (String → Json → String → String → Bool)
      → TextServices
      → R
      → Settings
      → PublishRequest
      → Exec (Db R) String
  execute_publish verify u threshold c req = do
    admit verify u threshold c req
    event_id ← on_books uuid4
    now ← gets (λ s. s.books.clock)
    credits_tx_id ←
        catch
          (transaction
            (persist c req event_id (or_clock req.ts now) (payload_sha256 u req.payload)))
          map_constraint_error
    credit_reliability req.source_agent event_id (or_clock req.ts now) credits_tx_id
    pure event_id

-- ===== src/Canary.antt =====
-- app/trust/canary.py: planted facts, each judged once, feed the honesty axis.
pub mod Once
use oldman_agent.Prelude.{
  ℕ, String, Bool, true, false, not, ◌&&◌, Option, none, some, List, [], ◌∷◌, ◌++◌, leb,
  if◌then◌else◌, ◌==◌,
}
use oldman_agent.Exec.{
  Exec, unknown_canary, canary_used, pure, raise, gets, modify, raise_if, ◌>>=◌, ◌>>◌,
}
use oldman_agent.Table.{find, update, select}
use oldman_agent.Floats.{Floats, at_most}
use oldman_agent.Json.{Json, TextServices}
use oldman_agent.Dedup.{tokenize, jaccard}
use oldman_agent.Books.{uuid4}
use oldman_agent.Village.{honesty, Cause, canary_pass, canary_fail}
use oldman_agent.Trust.{default_ledger_policy, default_membership_policy}
use oldman_agent.Service.{TrustUpdateResult, record_trust_event}
use oldman_agent.Db.{Db, CanaryRow, on_books, on_village}

module _ {R : Type 0} where
  unfoldable pub plant_canary : String → Json → ℕ → Option String → Exec (Db R) String
  plant_canary topic answer_key now target = do
    canary_id ← on_books uuid4
    modify λ s. record s {
      canaries =
          s.canaries
          ++ record {
            canary_id = canary_id;
            planted_ts = now;
            topic = topic;
            answer_key = answer_key;
            used = false;
            used_ts = none;
            target_agent = target;
          }
            ∷ [];
    }
    pure canary_id

abbrev pub on_topic : Option String → CanaryRow → Bool
on_topic none r = true
on_topic (some t) r = r.topic == t

abbrev pub is_unused : Option String → CanaryRow → Bool
is_unused topic r = not r.used && on_topic topic r

-- `ORDER BY planted_ts LIMIT 1`
unfoldable pub earliest : List CanaryRow → Option CanaryRow
earliest [] = none
earliest (r ∷ rs) = elim (earliest rs) [
  | none ↦ some r
  | some x ↦ if leb r.planted_ts x.planted_ts then some r else some x
]

module _ {R : Type 0} where
  unfoldable pub next_unused_canary : Option String → Db R → Option CanaryRow
  next_unused_canary topic s = earliest (select (is_unused topic) s.canaries)

abbrev pub canary_of : String → CanaryRow → Bool
canary_of id r = r.canary_id == id

pub record CanaryVerdict (R : Type 0) : Type 0 where
  pub canary_id : String
  pub seller_agent : String
  pub passed : Bool
  pub match_score : R
  pub trust : TrustUpdateResult R

abbrev pub canary_cause : Bool → Cause
canary_cause passed = if passed then canary_pass else canary_fail

module _ (F : Floats) where
  open F use {R, num}

  abbrev pub require_unused : Option CanaryRow → Exec (Db R) CanaryRow
  require_unused none = raise unknown_canary
  require_unused (some r) = raise_if r.used canary_used >> pure r

  -- The evidence is stored before the canary is used up, so that a failure leaves it unused.
  unfoldable pub judge_canary_response :
      TextServices → R → String → String → Json → ℕ → Exec (Db R) (CanaryVerdict R)
  judge_canary_response u threshold canary_id seller response now = do
    row ← gets (λ s. find (canary_of canary_id) s.canaries)
    canary ← require_unused row
    let score = jaccard F (tokenize u response) (tokenize u canary.answer_key)
    trust ← on_village (
        record_trust_event F (default_ledger_policy F) (default_membership_policy F) seller honesty
          (at_most F threshold score) (num 1) (canary_cause (at_most F threshold score))
          (some canary_id) now)
    modify λ s. record s {
      canaries =
          update (canary_of canary_id) (λ r. record r { used = true; used_ts = some now })
            s.canaries;
    }
    pure (record {
      canary_id = canary_id;
      seller_agent = seller;
      passed = at_most F threshold score;
      match_score = score;
      trust = trust;
    })

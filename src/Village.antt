-- ===== src/Village.antt =====
-- The tables of app/storage/migrations 004 and 007, and their helpers in app/storage/trust.py.
use oldman_agent.Prelude.{
  ℕ, ◌+◌, String, Bool, true, false, ◌&&◌, Option, List, [], ◌∷◌, ◌++◌, is_some, if◌then◌else◌,
  ◌==◌, ltb,
}
use oldman_agent.Exec.{Exec, out_of_range, modify, raise_if, ◌>>◌}
use oldman_agent.Books.{max_integer}
use oldman_agent.Table.{find, update}

-- app/trust/ledger.py: `BetaScore` over floats `R`
pub record BetaScore (R : Type 0) : Type 0 where
  pub alpha : R
  pub beta : R

pub data Criterion : Type 0 where
  reliability honesty : Criterion

-- app/trust/membership.py: `MembershipState`
pub data MembershipState : Type 0 where
  provisional member warned penalized excluded : MembershipState

pub record ScoreRow (R : Type 0) : Type 0 where
  pub agent_id : String
  pub criterion : Criterion
  pub score : BetaScore R
  pub last_update_ts : ℕ

pub record MembershipRow : Type 0 where
  pub agent_id : String
  pub state : MembershipState
  pub violation_count : ℕ
  pub joined_at : ℕ
  pub state_changed_at : ℕ

-- The causes that the source passes to `record_trust_event`.
pub data Cause : Type 0 where
  publish_settled canary_pass canary_fail grounding_contradiction corroborated : Cause

pub record TrustEvent (R : Type 0) : Type 0 where
  pub trust_event_id : String
  pub ts : ℕ
  pub agent_id : String
  pub criterion : Criterion
  pub positive : Bool
  pub weight : R
  pub cause : Cause
  pub cause_ref : Option String

pub record Village (R : Type 0) : Type 0 where
  pub scores : List (ScoreRow R)
  pub registry : List MembershipRow
  pub events : List (TrustEvent R)
  -- the identifiers that `uuid4` returns, and how many were drawn
  pub fresh : ℕ → String
  pub drawn : ℕ

abbrev pub same_criterion : Criterion → Criterion → Bool
same_criterion reliability reliability = true
same_criterion honesty honesty = true
same_criterion _ _ = false

abbrev pub row_of : String → MembershipRow → Bool
row_of a r = r.agent_id == a

abbrev pub upserted_membership : MembershipRow → List MembershipRow → List MembershipRow
upserted_membership m rows =
    if is_some (find (row_of m.agent_id) rows)
    then update (row_of m.agent_id)
        (λ r. record r {
          state = m.state;
          violation_count = m.violation_count;
          state_changed_at = m.state_changed_at;
        })
        rows
    else rows ++ m ∷ []

module _ {R : Type 0} where
  -- `WHERE agent_id = ? AND criterion = ?`
  abbrev pub score_of : String → Criterion → ScoreRow R → Bool
  score_of a c r = r.agent_id == a && same_criterion r.criterion c

  unfoldable pub get_trust_score : String → Criterion → Village R → Option (ScoreRow R)
  get_trust_score a c v = find (score_of a c) v.scores

  abbrev pub upserted_score :
      String → Criterion → BetaScore R → ℕ → List (ScoreRow R) → List (ScoreRow R)
  upserted_score a c score ts rows =
      if is_some (find (score_of a c) rows)
      then update (score_of a c) (λ r. record r { score = score; last_update_ts = ts }) rows
      else rows ++ record { agent_id = a; criterion = c; score = score; last_update_ts = ts } ∷ []

  -- `INSERT … ON CONFLICT (agent_id, criterion) DO UPDATE`
  unfoldable pub upsert_trust_score :
      String → Criterion → BetaScore R → ℕ → Exec (Village R) (Unit {0})
  upsert_trust_score a c score ts =
      modify λ v. record v { scores = upserted_score a c score ts v.scores }

  unfoldable pub append_trust_event :
      String → Criterion → Bool → R → Cause → Option String → ℕ → Exec (Village R) (Unit {0})
  append_trust_event a c positive weight cause cause_ref ts = modify λ v. record v {
    drawn = v.drawn + 1;
    events =
        v.events
        ++ record {
          trust_event_id = v.fresh v.drawn;
          ts = ts;
          agent_id = a;
          criterion = c;
          positive = positive;
          weight = weight;
          cause = cause;
          cause_ref = cause_ref;
        }
          ∷ [];
  }

  unfoldable pub get_membership : String → Village R → Option MembershipRow
  get_membership a v = find (row_of a) v.registry

  -- `INSERT … ON CONFLICT (agent_id) DO UPDATE`, which keeps `joined_at`
  unfoldable pub upsert_membership : MembershipRow → Exec (Village R) (Unit {0})
  upsert_membership m = do
    raise_if (ltb max_integer m.violation_count) out_of_range
    modify λ v. record v { registry = upserted_membership m v.registry }

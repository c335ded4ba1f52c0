-- ===== src/Examples/Village.antt =====
-- The theorems on publishing and on trust, on a concrete database over whole numbers.
use oldman_agent.Prelude.{ℕ, String, refl, Bool, true, false, none, some, [], ◌∷◌}
use oldman_agent.Exec.Ends.{Ends}
use oldman_agent.Table.{find}
use oldman_agent.Json.{Json, text}
use oldman_agent.Dedup.{payload_sha256}
use oldman_agent.Archive.{EventRow, self}
use oldman_agent.Village.{
  reliability, honesty, excluded, MembershipRow, Village, canary_fail, publish_settled,
}
use oldman_agent.Trust.{default_ledger_policy, default_membership_policy}
use oldman_agent.Service.{record_trust_event}
use oldman_agent.Service.Recorded.{Recorded, record_trust_event-Recorded}
use oldman_agent.Service.Exclusion.{Evidence, IsExcluded, record_each, record_each-IsExcluded}
use oldman_agent.Db.{Db, CanaryRow}
use oldman_agent.Credits.Balanced.{IsBalanced}
use oldman_agent.Publish.{PublishRequest, execute_publish}
use oldman_agent.Publish.Atomic.{PublishEnds, execute_publish-atomic}
use oldman_agent.Publish.Balanced.{execute_publish-IsBalanced}
use oldman_agent.Examples.{settings, books, books-IsBalanced, whole, plain}

abbrev pub event : String → ℕ → String → EventRow
event id ts agent = record {
  event_id = id;
  ts = ts;
  kind = "trade";
  source_agent = agent;
  source_type = self;
  payload = text id;
  payload_hash = id;
  credits_tx_id = none;
  seller_did = none;
}

abbrev banned : MembershipRow
banned = record {
  agent_id = "mallory";
  state = excluded;
  violation_count = 4;
  joined_at = 1;
  state_changed_at = 2;
}

abbrev pub village : Village ℕ
village = record {
  scores = [];
  registry = banned ∷ [];
  events = [];
  fresh = λ n. "trust-event";
  drawn = 0;
}

abbrev canary : CanaryRow
canary = record {
  canary_id = "canary-1";
  planted_ts = 1;
  topic = "weather";
  answer_key = text "rain";
  used = false;
  used_ts = none;
  target_agent = none;
}

abbrev pub db : Db ℕ
db = record {
  books = books;
  archive = record {
    events = event "e1" 5 "alice" ∷ event "e3" 9 "bob" ∷ [];
    episodic = [];
    semantic = [];
    identities = [];
    reflections = [];
  };
  village = village;
  canaries = canary ∷ [];
}

abbrev pub request : PublishRequest
request = record {
  event_kind = "trade";
  source_agent = "alice";
  observed_agent = some "bob";
  payload = text "bob sold a cow";
  declared_source_type = self;
  ts = none;
  seller_did = none;
  payload_signature = none;
}

abbrev unsigned : String → Json → String → String → Bool
unsigned did payload signature agent = false

execute_publish-atomic_example :
    Ends
      (execute_publish whole unsigned plain 1 settings request)
      db
      (PublishEnds (payload_sha256 plain (text "bob sold a cow")) db)
execute_publish-atomic_example = execute_publish-atomic whole unsigned plain 1 settings request db

execute_publish-IsBalanced_example :
    IsBalanced (execute_publish whole unsigned plain 1 settings request db).1.books
execute_publish-IsBalanced_example =
    execute_publish-IsBalanced whole unsigned plain 1 settings request db books-IsBalanced

record_trust_event-Recorded_example :
    Recorded whole "alice" honesty 100 village
      (record_trust_event whole
        (default_ledger_policy whole)
        (default_membership_policy whole)
        "alice"
        honesty
        false
        1
        canary_fail
        none
        100
        village).0
      (record_trust_event whole
        (default_ledger_policy whole)
        (default_membership_policy whole)
        "alice"
        honesty
        false
        1
        canary_fail
        none
        100
        village).1
record_trust_event-Recorded_example =
    record_trust_event-Recorded whole (default_ledger_policy whole)
      (default_membership_policy whole) "alice" honesty false 1 canary_fail none 100 village

abbrev praise : String → Evidence ℕ
praise a = record {
  agent_id = a;
  criterion = reliability;
  positive = true;
  weight = 1;
  cause = publish_settled;
  cause_ref = none;
  ts = 100;
}

record_each-IsExcluded_example : IsExcluded "mallory" (
    record_each whole
      (default_ledger_policy whole)
      (default_membership_policy whole)
      (praise "mallory" ∷ praise "alice" ∷ praise "mallory" ∷ [])
      village)
unfolding find
record_each-IsExcluded_example =
    record_each-IsExcluded whole (default_ledger_policy whole) (default_membership_policy whole)
      "mallory" (praise "mallory" ∷ praise "alice" ∷ praise "mallory" ∷ []) village
      (banned, refl, refl)

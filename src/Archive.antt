-- ===== src/Archive.antt =====
-- The tables of events, entities and identities (migrations 001 and 003), and their helpers in
-- app/storage/events.py, entities.py and identities.py.
pub mod Newest
use oldman_agent.Prelude.{
  ℕ, ◌+◌, String, Bool, false, Option, none, some, List, [], ◌∷◌, ◌++◌, map, take, length, leb,
  is_some, if◌then◌else◌, ◌==◌,
}
use oldman_agent.Exec.{
  Exec, duplicate_key, duplicate_payload_hash, pure, gets, modify, raise_if, ◌>>=◌, ◌>>◌,
}
use oldman_agent.Table.{find, update, select}
use oldman_agent.Json.{Json}

pub data SourceType : Type 0 where
  self third_party mutual_source : SourceType

pub record EventRow : Type 0 where
  pub event_id : String
  pub ts : ℕ
  pub kind : String
  pub source_agent : String
  pub source_type : SourceType
  pub payload : Json
  pub payload_hash : String
  pub credits_tx_id : Option String
  pub seller_did : Option String

pub record EpisodicRow : Type 0 where
  pub event_id : String
  pub observer_agent : String
  pub observed_agent : Option String
  pub kind : String
  pub ts : ℕ
  pub source_type : SourceType

-- The dictionary of `traits_json`, as `merge_traits` builds it.
pub record Traits : Type 0 where
  pub summary : String
  pub descriptors : List String
  pub evidence_event_ids : List String

-- `traits_json` is `none` for `{}`.
pub record SemanticRow : Type 0 where
  pub agent_id : String
  pub traits : Option Traits
  pub source_type : SourceType
  pub corroboration_count : ℕ
  pub first_seen_ts : ℕ
  pub last_updated : ℕ

pub record AgentIdentityRow : Type 0 where
  pub agent_id : String
  pub did : String
  pub erc8004_agent_id : Option ℕ
  pub erc8004_chain : Option String

pub data Scope : Type 0 where
  agent_scope pair_scope society_scope : Scope

pub record ReflectionRow : Type 0 where
  pub reflection_id : String
  pub ts : ℕ
  pub scope : Scope
  pub subject : String
  pub text : String
  pub event_range_start : ℕ
  pub event_range_end : ℕ
  pub source_event_ids : List String

pub record Archive : Type 0 where
  pub events : List EventRow
  pub episodic : List EpisodicRow
  pub semantic : List SemanticRow
  pub identities : List AgentIdentityRow
  pub reflections : List ReflectionRow

-- `insert_event`, under `UNIQUE (payload_hash)`
unfoldable pub insert_event : EventRow → Exec Archive (Unit {0})
insert_event e = do
  taken ← gets (λ s. is_some (find (λ x. x.payload_hash == e.payload_hash) s.events))
  raise_if taken duplicate_payload_hash
  modify λ s. record s { events = s.events ++ e ∷ [] }

-- `ORDER BY ts DESC`; rows of one time keep their order, which the query leaves open.
module _ {A : Type 0} (dated : A → ℕ) where
  unfoldable pub insert_newest : A → List A → List A
  insert_newest e [] = e ∷ []
  insert_newest e (x ∷ xs) =
      let later = x ∷ insert_newest e xs in if leb (dated x) (dated e) then e ∷ x ∷ xs else later

  unfoldable pub newest_first : List A → List A
  newest_first [] = []
  newest_first (x ∷ xs) = insert_newest x (newest_first xs)

-- `SELECT … FROM events … ORDER BY ts DESC LIMIT n`
abbrev pub latest_events : (EventRow → Bool) → ℕ → Archive → List EventRow
latest_events wanted limit s = take limit (newest_first (λ e. e.ts) (select wanted s.events))

unfoldable pub fetch_recent_payloads_by_agent : String → ℕ → Archive → List Json
fetch_recent_payloads_by_agent a limit s =
    map (λ e. e.payload) (latest_events (λ e. e.source_agent == a) limit s)

unfoldable pub count_events : Archive → ℕ
count_events s = length s.events

unfoldable pub append_episodic : EpisodicRow → Exec Archive (Unit {0})
append_episodic row = modify λ s. record s { episodic = s.episodic ++ row ∷ [] }

abbrev pub semantic_of : String → SemanticRow → Bool
semantic_of a r = r.agent_id == a

abbrev pub touched : String → SourceType → ℕ → List SemanticRow → List SemanticRow
touched a source ts rows =
    if is_some (find (semantic_of a) rows)
    then update (semantic_of a)
        (λ r. record r { corroboration_count = r.corroboration_count + 1; last_updated = ts }) rows
    else rows
      ++ record {
        agent_id = a;
        traits = none;
        source_type = source;
        corroboration_count = 1;
        first_seen_ts = ts;
        last_updated = ts;
      }
        ∷ []

unfoldable pub touch_semantic : String → SourceType → ℕ → Exec Archive (Unit {0})
touch_semantic a source ts = modify λ s. record s { semantic = touched a source ts s.semantic }

abbrev pub identity_of : String → AgentIdentityRow → Bool
identity_of a r = r.agent_id == a

unfoldable pub get_agent_identity : String → Archive → Option AgentIdentityRow
get_agent_identity a s = find (identity_of a) s.identities

abbrev upserted_identity : AgentIdentityRow → List AgentIdentityRow → List AgentIdentityRow
upserted_identity row rows =
    if is_some (find (identity_of row.agent_id) rows)
    then update (identity_of row.agent_id)
        (λ r. record r {
          did = row.did;
          erc8004_agent_id = row.erc8004_agent_id;
          erc8004_chain = row.erc8004_chain;
        })
        rows
    else rows ++ row ∷ []

-- The DID of another agent, which `UNIQUE (did)` refuses.
abbrev pub holds_did : AgentIdentityRow → AgentIdentityRow → Bool
holds_did row r = if r.agent_id == row.agent_id then false else r.did == row.did

-- `INSERT … ON CONFLICT (agent_id) DO UPDATE`: the clause does not cover the `UNIQUE` on `did`.
unfoldable pub upsert_agent_identity : AgentIdentityRow → Exec Archive (Unit {0})
upsert_agent_identity row = do
  taken ← gets (λ s. is_some (find (holds_did row) s.identities))
  raise_if taken duplicate_key
  modify λ s. record s { identities = upserted_identity row s.identities }

-- ===== src/Examples/Engine.antt =====
-- The theorems on reflections, identities, migrations and reputations, on concrete data.
use Prim.Native.String.{String}
use oldman_agent.Prelude.{◌≡◌, refl, Bool, true, Option, none, some, List, [], ◌∷◌, ◌++◌, arith}
use oldman_agent.Exec.{Exec, ok, modify, ◌>>=◌, transaction, catch}
use oldman_agent.Exec.Ends.{Ends}
use oldman_agent.Table.{select}
use oldman_agent.Archive.{Archive, Scope, agent_scope, Traits, newest_first, insert_newest}
use oldman_agent.Village.{provisional, publish_settled}
use oldman_agent.Narrative.Text.{Text, codes, same_text}
use oldman_agent.Reflection.State.{max_ts, count_events_since, get_trigger_state}
use oldman_agent.Reflection.Traits.{apply_traits}
use oldman_agent.Reflection.Scheduler.{
  Thresholds, ContextEvent, should_trigger, reversed_onto, fetch_recent_events, update_traits,
  persist_reflection, maybe_run_reflection,
}
use oldman_agent.Reflection.Scheduler.Outcome.{Outcome, maybe_run_reflection-Outcome}
use oldman_agent.Reflection.Scheduler.Quiet.{maybe_run_reflection_quiet}
use oldman_agent.Did.Digits.{digits, digits_onto, value_from, digits_onto_ends}
use oldman_agent.Did.Base58.{b58encode, b58decode}
use oldman_agent.Did.Base58.RoundTrip.{b58decode-b58encode}
use oldman_agent.Migrations.{
  SqlFile, Schema, version_from, ends_in_sql, insert_version_order, discover_migrations,
  has_version, record_version, migrate, apply_each, apply_migrations,
}
use oldman_agent.Migrations.Again.{apply_migrations_again}
use oldman_agent.Reputation.Report.{ReputationReport}
use oldman_agent.Reputation.Render.{render_reputation_narrative}
use oldman_agent.Reputation.Render.Safety.{IsWordedSafely, render_reputation-IsWordedSafely}
use oldman_agent.Examples.Village.{db}

abbrev traits : Traits
traits = record {
  summary = "trades cows";
  descriptors = "honest" ∷ [];
  evidence_event_ids = "e1" ∷ [];
}

abbrev thresholds : Thresholds
thresholds = record { count_threshold = 1; age_threshold = 10; n_context_events = 10 }

abbrev loads : Scope → Bool
loads scope = true

abbrev reply : Scope → List ContextEvent → Option String
reply scope events = some "traits"

abbrev silence : Scope → List ContextEvent → Option String
silence scope events = none

abbrev parse : String → Option Traits
parse text = some traits

maybe_run_reflection-Outcome_example :
    Ends
      (maybe_run_reflection loads reply parse thresholds agent_scope "alice" 100 "r1")
      db.archive
      (Outcome agent_scope "alice" 100 db.archive)
maybe_run_reflection-Outcome_example =
    maybe_run_reflection-Outcome loads reply parse thresholds agent_scope "alice" 100 "r1"
      db.archive

abbrev reflected : Archive
reflected =
    (maybe_run_reflection loads reply parse thresholds agent_scope "alice" 100 "r1" db.archive).1

reflection_run :
    maybe_run_reflection loads reply parse thresholds agent_scope "alice" 100 "r1" db.archive
    ≡ (ok (some traits), reflected)
unfolding maybe_run_reflection ◌>>=◌ get_trigger_state count_events_since should_trigger select
    max_ts fetch_recent_events reversed_onto newest_first insert_newest catch persist_reflection
    transaction update_traits apply_traits
reflection_run = refl

maybe_run_reflection_quiet_example :
    maybe_run_reflection loads silence parse thresholds agent_scope "alice" 900 "r2" reflected
    ≡ (ok none, reflected)
maybe_run_reflection_quiet_example =
    maybe_run_reflection_quiet loads loads reply silence parse parse thresholds agent_scope "alice"
      100 900 "r1" "r2" traits db.archive reflected (omega arith) (omega arith) reflection_run

digits_onto_ends_example :
    (digits_onto 58 1000 300 [] ≡ digits 58 300) × (value_from 58 0 (digits 58 300) ≡ 300)
digits_onto_ends_example = digits_onto_ends 1000 300 (omega arith)

b58decode-b58encode_example :
    b58decode (b58encode (0 ∷ 0 ∷ 255 ∷ 7 ∷ [])) ≡ some (0 ∷ 0 ∷ 255 ∷ 7 ∷ [])
b58decode-b58encode_example = b58decode-b58encode (0 ∷ 0 ∷ 255 ∷ 7 ∷ []) (omega arith)

-- Two files of migrations, and one that is none.
abbrev files : List SqlFile
files =
    record { name = codes "001_events.sql"; sql = "events" }
    ∷ record { name = codes "002_traits.sql"; sql = "traits" }
    ∷ record { name = codes "notes.sql"; sql = "notes" }
    ∷ []

abbrev run_sql : String → Exec (List String) (Unit {0})
run_sql sql = modify λ tables. tables ++ sql ∷ []

abbrev empty : Schema (List String)
empty = record { tables = []; versions = [] }

abbrev migrated : Schema (List String)
migrated = record { tables = "events" ∷ "traits" ∷ []; versions = 1 ∷ 2 ∷ [] }

migrations_run : apply_migrations run_sql files empty ≡ (ok tt, migrated)
unfolding apply_migrations ◌>>=◌ apply_each discover_migrations version_from ends_in_sql same_text
    insert_version_order has_version migrate transaction record_version
migrations_run = refl

apply_migrations_again_example : apply_migrations run_sql files migrated ≡ (ok tt, migrated)
apply_migrations_again_example = apply_migrations_again run_sql files empty migrated migrations_run

abbrev report : ReputationReport
report = record {
  subject_agent = "alice";
  state = provisional;
  violation_count = 0;
  text = codes "Not known yet.";
  citations =
      record {
        short_id = codes "ab12cd34";
        trust_event_id = "ab12cd34-0000";
        cause = publish_settled;
      }
      ∷ [];
}

abbrev wording : ReputationReport → Option Text
wording r = some (codes "Fair [↑ab12cd34].")

render_reputation-IsWordedSafely_example :
    IsWordedSafely report (render_reputation_narrative (λ s. s) (some wording) report)
render_reputation-IsWordedSafely_example =
    render_reputation-IsWordedSafely (λ s. s) (some wording) report

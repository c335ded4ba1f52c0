-- ===== src/Reflection/Scheduler.antt =====
-- app/reflection/scheduler.py, and the reflections that a publish of app/api/publish.py starts.
-- The prompts, the language model and the parsing of its reply are parameters.
pub mod Reads
pub mod Outcome
pub mod Quiet
use oldman_agent.Prelude.{
  ℕ, ◌+◌, ◌-◌, ◌*◌, String, Bool, true, false, not, ◌&&◌, ◌||◌, Option, none, some, List, [], ◌∷◌,
  ◌++◌, map, take, leb, if◌then◌else◌, ◌==◌,
}
use oldman_agent.Exec.{
  Exec, Error, value_error, pure, gets, modify, transaction, catch, ◌>>=◌, ◌>>◌,
}
use oldman_agent.Table.{find, select}
use oldman_agent.Json.{Json}
use oldman_agent.Archive.{
  Archive, EventRow, EpisodicRow, Scope, agent_scope, pair_scope, society_scope, ReflectionRow,
  SemanticRow, Traits, semantic_of, newest_first, latest_events,
}
use oldman_agent.Reflection.Pair.{split_pair, unpack_pair, join_pair}
use oldman_agent.Reflection.Traits.{merge_traits, apply_traits}
use oldman_agent.Reflection.State.{ReflectionTriggerState, observes, get_trigger_state}

-- `timedelta(hours=1)` in microseconds
abbrev pub hour : ℕ
hour = 3600000000

-- The keyword arguments of `maybe_run_reflection` that have defaults.
pub record Thresholds : Type 0 where
  pub count_threshold : ℕ
  pub age_threshold : ℕ
  pub n_context_events : ℕ

abbrev pub default_thresholds : Thresholds
default_thresholds = record {
  count_threshold = 10;
  age_threshold = 6 * hour;
  n_context_events = 10;
}

-- `now - last_ts >= age_threshold`, where there was a reflection
abbrev pub is_old : ℕ → ℕ → Option ℕ → Bool
is_old now age none = false
is_old now age (some last) = leb (last + age) now

unfoldable pub should_trigger : ReflectionTriggerState → ℕ → Thresholds → Bool
should_trigger state now t =
    leb t.count_threshold state.events_since_last_reflection
    || (leb 1 state.events_since_last_reflection
        && is_old now t.age_threshold state.last_reflection_ts)

-- A context event as the prompt shows it.
pub record ContextEvent : Type 0 where
  pub event_id : String
  pub kind : String
  pub payload : Json

abbrev pub context_of : EventRow → ContextEvent
context_of e = record { event_id = e.event_id; kind = e.kind; payload = e.payload }

-- `reversed(rows)`
unfoldable pub reversed_onto : {A : Type 0} → List A → List A → List A
reversed_onto acc [] = acc
reversed_onto acc (x ∷ xs) = reversed_onto (x ∷ acc) xs

-- `entities_episodic ep JOIN events e ON e.event_id = ep.event_id`, the events
unfoldable pub join_events : List EpisodicRow → List EventRow → List EventRow
join_events [] events = []
join_events (ep ∷ eps) events =
    select (λ e. e.event_id == ep.event_id) events ++ join_events eps events

abbrev pub pair_events : ℕ → Archive → String × String → List EventRow
pair_events n s parts =
    take n (newest_first (λ e. e.ts) (join_events (select (observes parts) s.episodic) s.events))

abbrev pub recent_rows : Scope → String → ℕ → Exec Archive (List EventRow)
recent_rows agent_scope subject n = gets (latest_events (λ e. e.source_agent == subject) n)
recent_rows pair_scope subject n = do
  parts ← unpack_pair value_error (split_pair subject)
  gets λ s. pair_events n s parts
recent_rows society_scope subject n = gets (latest_events (λ e. true) n)

-- `_fetch_recent_events`: the oldest of the recent events comes first.
unfoldable pub fetch_recent_events : Scope → String → ℕ → Exec Archive (List ContextEvent)
fetch_recent_events scope subject n = do
  rows ← recent_rows scope subject n
  pure (map context_of (reversed_onto [] rows))

abbrev pub traits_of_row : Option SemanticRow → Option Traits
traits_of_row none = none
traits_of_row (some r) = r.traits

-- `_load_traits`
unfoldable pub load_traits : String → Archive → Option Traits
load_traits a s = traits_of_row (find (semantic_of a) s.semantic)

unfoldable pub update_traits : Traits → ℕ → String → Exec Archive (Unit {0})
update_traits parsed now a = do
  existing ← gets (load_traits a)
  apply_traits a (merge_traits existing parsed) now

abbrev pub update_subjects : Traits → ℕ → Scope → String → Exec Archive (Unit {0})
update_subjects parsed now agent_scope subject = update_traits parsed now subject
update_subjects parsed now pair_scope subject = do
  parts ← unpack_pair value_error (split_pair subject)
  update_traits parsed now parts.0
  update_traits parsed now parts.1
update_subjects parsed now society_scope subject = pure tt

abbrev pub range_start : ℕ → List ContextEvent → ℕ
range_start now [] = now
range_start now (_ ∷ _) = now - hour

abbrev pub reflection_row : Scope → String → ℕ → String → Traits → List ContextEvent → ReflectionRow
reflection_row scope subject now new_id parsed events = record {
  reflection_id = new_id;
  ts = now;
  scope = scope;
  subject = subject;
  text = parsed.summary;
  event_range_start = range_start now events;
  event_range_end = now;
  source_event_ids = map (λ e. e.event_id) events;
}

-- `_persist_reflection`, with the id that `uuid4` returned
unfoldable pub persist_reflection :
    Scope → String → ℕ → String → Traits → List ContextEvent → Exec Archive (Unit {0})
persist_reflection scope subject now new_id parsed events = transaction (do
  modify λ s. record s {
    reflections = s.reflections ++ reflection_row scope subject now new_id parsed events ∷ [];
  }
  update_subjects parsed now scope subject)

-- `prompt_loads`: does `load_prompt` find the prompt? `complete`: the reply to it, or an exception.
-- `parse`: the reply without code fences, under `TraitsCompiled.model_validate_json`.
module _ (prompt_loads : Scope → Bool) (complete : Scope → List ContextEvent → Option String)
    (parse : String → Option Traits) where
  abbrev pub parsed_reply : Option String → Option Traits
  parsed_reply none = none
  parsed_reply (some reply) = parse reply

  abbrev pub store_parsed :
      Scope → String → ℕ → String → List ContextEvent → Option Traits → Exec Archive (Option Traits)
  store_parsed scope subject now new_id events none = pure none
  store_parsed scope subject now new_id events (some parsed) =
      catch (persist_reflection scope subject now new_id parsed events >> pure (some parsed))
        (λ _. pure none)

  abbrev pub reflect_on :
      Scope → String → ℕ → String → List ContextEvent → Exec Archive (Option Traits)
  reflect_on scope subject now new_id [] = pure none
  reflect_on scope subject now new_id (e ∷ es) =
      store_parsed scope subject now new_id (e ∷ es) (parsed_reply (complete scope (e ∷ es)))

  abbrev pub run_if : Bool → Thresholds → Scope → String → ℕ → String → Exec Archive (Option Traits)
  run_if false t scope subject now new_id = pure none
  run_if true t scope subject now new_id = do
    events ← fetch_recent_events scope subject t.n_context_events
    reflect_on scope subject now new_id events

  unfoldable pub maybe_run_reflection :
      Thresholds → Scope → String → ℕ → String → Exec Archive (Option Traits)
  maybe_run_reflection t scope subject now new_id = do
    state ← get_trigger_state scope subject
    run_if (should_trigger state now t && prompt_loads scope) t scope subject now new_id

  -- `_run_reflections_for_publish`, at one time, with the ids that `uuid4` returned
  abbrev pub reflect_on_observed :
      ℕ → (ℕ → String) → String → Option String → Exec Archive (Unit {0})
  reflect_on_observed now ids seller none = pure tt
  reflect_on_observed now ids seller (some observed) = if observed == "" then pure tt else (do
    maybe_run_reflection default_thresholds agent_scope observed now (ids 1)
    maybe_run_reflection default_thresholds pair_scope (join_pair seller observed) now (ids 2)
    pure tt)

  unfoldable pub run_reflections_for_publish :
      ℕ → (ℕ → String) → String → Option String → Exec Archive (Unit {0})
  run_reflections_for_publish now ids seller observed = do
    maybe_run_reflection default_thresholds agent_scope seller now (ids 0)
    reflect_on_observed now ids seller observed
    maybe_run_reflection default_thresholds society_scope "global" now (ids 3)
    pure tt

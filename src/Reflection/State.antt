-- ===== src/Reflection/State.antt =====
-- app/reflection/state.py: how many events a subject has since its last reflection.
use oldman_agent.Prelude.{
  ℕ, max, String, Bool, true, false, ◌&&◌, Option, none, some, List, [], ◌∷◌, length, ltb, ◌==◌,
}
use oldman_agent.Exec.{Exec, index_error, pure, gets, ◌>>=◌}
use oldman_agent.Table.{select}
use oldman_agent.Archive.{
  Archive, EpisodicRow, Scope, agent_scope, pair_scope, society_scope, ReflectionRow,
}
use oldman_agent.Reflection.Pair.{split_pair, unpack_pair}

pub record ReflectionTriggerState : Type 0 where
  pub scope : Scope
  pub subject : String
  pub events_since_last_reflection : ℕ
  pub last_reflection_ts : Option ℕ

abbrev pub same_scope : Scope → Scope → Bool
same_scope agent_scope agent_scope = true
same_scope pair_scope pair_scope = true
same_scope society_scope society_scope = true
same_scope _ _ = false

abbrev pub later_of : ℕ → Option ℕ → Option ℕ
later_of ts none = some ts
later_of ts (some other) = some (max ts other)

-- `SELECT MAX(ts)`
unfoldable pub max_ts : List ReflectionRow → Option ℕ
max_ts [] = none
max_ts (r ∷ rs) = later_of r.ts (max_ts rs)

abbrev pub reflects_on : Scope → String → ReflectionRow → Bool
reflects_on scope subject r = same_scope r.scope scope && (r.subject == subject)

-- `ts > since`, with no condition when there was no reflection
abbrev pub is_since : Option ℕ → ℕ → Bool
is_since none ts = true
is_since (some since) ts = ltb since ts

-- An agent that observed another.
abbrev pub observes : String × String → EpisodicRow → Bool
observes (observer, observed) r = (r.observer_agent == observer) && is_agent r.observed_agent
  where
    is_agent : Option String → Bool
    is_agent none = false
    is_agent (some a) = a == observed

abbrev since_among : Option ℕ → Archive → String × String → ℕ
since_among since s parts =
    length (select (λ r. observes parts r && is_since since r.ts) s.episodic)

-- `_count_events_since`
unfoldable pub count_events_since : Scope → String → Option ℕ → Exec Archive ℕ
count_events_since agent_scope subject since =
    gets λ s. length (select (λ e. (e.source_agent == subject) && is_since since e.ts) s.events)
count_events_since pair_scope subject since = do
  parts ← unpack_pair index_error (split_pair subject)
  gets λ s. since_among since s parts
count_events_since society_scope subject since =
    gets λ s. length (select (λ e. is_since since e.ts) s.events)

unfoldable pub get_trigger_state : Scope → String → Exec Archive ReflectionTriggerState
get_trigger_state scope subject = do
  last ← gets (λ s. max_ts (select (reflects_on scope subject) s.reflections))
  count ← count_events_since scope subject last
  pure (record {
    scope = scope;
    subject = subject;
    events_since_last_reflection = count;
    last_reflection_ts = last;
  })

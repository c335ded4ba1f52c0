-- ===== src/Narrative/Evidence.antt =====
-- app/narrative/evidence.py: the newest events and reflections that an answer may use.
pub mod Like
use Prim.Native.Char.{Char, code}
use Prim.Native.String.{String, ◌++◌}
use oldman_agent.Prelude.{
  ℕ, Bool, true, false, ◌&&◌, ◌||◌, Option, none, some, List, map, take, eqb, ◌==◌,
}
use oldman_agent.Table.{select}
use oldman_agent.Archive.{
  EventRow, Archive, ReflectionRow, agent_scope, pair_scope, newest_first, latest_events,
}
use oldman_agent.Reflection.State.{same_scope}
use oldman_agent.Narrative.Text.{codes}
use oldman_agent.Narrative.Validator.{Source}

pub record Evidence : Type 0 where
  pub events : List EventRow
  pub reflections : List ReflectionRow

abbrev is_empty : String → Bool
is_empty String.[] = true
is_empty (String.◌∷◌ c s) = false

abbrev one_char : Char → (String → Bool) → String → Bool
one_char p rest String.[] = false
one_char p rest (String.◌∷◌ c s) = (eqb (code p) b'_' || eqb (code p) (code c)) && rest s

abbrev any_suffix : (String → Bool) → String → Bool
any_suffix rest String.[] = rest ""
any_suffix rest (String.◌∷◌ c s) = rest (String.◌∷◌ c s) || any_suffix rest s

abbrev wildcard : Bool → Char → (String → Bool) → String → Bool
wildcard true p rest s = any_suffix rest s
wildcard false p rest s = one_char p rest s

-- `text LIKE pattern`, the pattern first: an agent's `_` and `%` are wildcards too.
unfoldable pub like : String → String → Bool
like String.[] s = is_empty s
like (String.◌∷◌ p ps) s = wildcard (eqb (code p) b'%') p (like ps) s

abbrev pub is_about : Option String → EventRow → Bool
is_about none e = true
is_about (some a) e = e.source_agent == a

-- `_select_events`
unfoldable pub select_events : Option String → ℕ → Archive → List EventRow
select_events subject limit s = latest_events (is_about subject) limit s

abbrev pub reflects : Option String → ReflectionRow → Bool
reflects none r = true
reflects (some a) r =
    (same_scope r.scope agent_scope && (r.subject == a))
    || (same_scope r.scope pair_scope && (like (a ++ ":%") r.subject || like ("%:" ++ a) r.subject))

-- `_select_reflections`
unfoldable pub select_reflections : Option String → ℕ → Archive → List ReflectionRow
select_reflections subject limit s =
    take limit (newest_first (λ r. r.ts) (select (reflects subject) s.reflections))

-- `select_evidence`, with its default limits
unfoldable pub select_evidence : Option String → Archive → Evidence
select_evidence subject s = record {
  events = select_events subject 30 s;
  reflections = select_reflections subject 20 s;
}

-- The events as the validation sees them.
unfoldable pub sources_of : List EventRow → List Source
sources_of events = map (λ e. record { event_id = codes e.event_id; payload = e.payload }) events

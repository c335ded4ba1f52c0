-- ===== src/Task/Rendering.antt =====
-- The answer to a query as a coroutine: app/narrative/renderer.py awaits the model once for each
-- attempt, and `validate_citations_with_judge` of app/narrative/validator.py the judge once for each
-- citation. A model or a judge answers without a look at the database.
pub mod Steady
pub mod Alone
use Prim.Native.String.{String}
use oldman_agent.Prelude.{
  ℕ, zero, suc, ◌+◌, ◌-◌, Bool, true, false, Option, none, some, List, [], ◌∷◌, length,
  if◌then◌else◌,
}
use oldman_agent.Exec.{pure, gets}
use oldman_agent.Json.{Json}
use oldman_agent.Archive.{Archive, count_events}
use oldman_agent.Narrative.Text.{Text}
use oldman_agent.Narrative.Validator.{
  Source, ValidationResult, Verdict, is_nil, is_ungrounded, judged, validate_citations,
}
use oldman_agent.Narrative.Renderer.{
  NarrativeRendererResult, fallback, is_cold, build_citations, Hint, no_hint, Answer, failed,
  answered, hint_after,
}
use oldman_agent.Narrative.Evidence.{Evidence, select_evidence, sources_of}
use oldman_agent.Narrative.Query.{QueryRequest, Models, judge_or_none, is_strict}
use oldman_agent.Task.Session.{Session}
use oldman_agent.Task.Process.{Process, await, return, ◌>>=◌}

module _ {R : Type 0} where
  module _ (judge : Text → Json → Verdict) where
    -- The `for citation` loop.
    unfoldable pub ungrounded_steps :
        Text → List Source → List Text → Process (Session R) (List Text)
    ungrounded_steps text events [] = return []
    ungrounded_steps text events (c ∷ cs) = do
      verdict ← await (pure (judged judge text events c))
      rest ← ungrounded_steps text events cs
      return (if is_ungrounded verdict then c ∷ rest else rest)

    unfoldable pub with_judge_steps : Text → List Source → Process (Session R) ValidationResult
    with_judge_steps text events =
        let found = validate_citations text events in
        if found.is_valid
        then (do
          bad ← ungrounded_steps text events found.extracted
          return (record {
            is_valid = is_nil bad;
            missing = [];
            extracted = found.extracted;
            ungrounded = bad;
          }))
        else return found

    abbrev pub checked_steps : Bool → List Source → Text → Process (Session R) ValidationResult
    checked_steps strict events text =
        if strict then with_judge_steps text events else return (validate_citations text events)

    abbrev pub accepted_or :
        List Source
        → Text
        → ℕ
        → (Hint → Process (Session R) NarrativeRendererResult)
        → ValidationResult
        → Process (Session R) NarrativeRendererResult
    accepted_or events text retries again v =
        if v.is_valid
        then return (record {
          answer = text;
          citations = build_citations events v.extracted;
          retries_used = retries;
          is_cold_start = false;
          used_fallback = false;
        })
        else again (hint_after v)

    abbrev pub answered_steps :
        Bool
        → List Source
        → ℕ
        → (Hint → Process (Session R) NarrativeRendererResult)
        → Answer
        → Process (Session R) NarrativeRendererResult
    answered_steps strict events retries again failed = return (fallback false retries)
    answered_steps strict events retries again (answered text) = do
      v ← checked_steps strict events text
      accepted_or events text retries again v

    -- The `for attempt` loop.
    unfoldable pub attempts_steps :
        (ℕ → Hint → Answer)
        → Bool
        → List Source
        → ℕ
        → ℕ
        → Hint
        → Process (Session R) NarrativeRendererResult
    attempts_steps provider strict events zero retries hint = return (fallback false (retries - 1))
    attempts_steps provider strict events (suc left) retries hint = do
      answer ← await (pure (provider retries hint))
      answered_steps strict events retries
          (attempts_steps provider strict events left (retries + 1)) answer

    unfoldable pub render_steps :
        (ℕ → Hint → Answer)
        → Bool
        → ℕ
        → ℕ
        → ℕ
        → Bool
        → List Source
        → Process (Session R) NarrativeRendererResult
    render_steps provider strict max_retries event_count reflection_count prompt_loads events =
        if is_cold event_count reflection_count
        then return (fallback true 0)
        else if is_nil events
        then return (fallback false 0)
        else if prompt_loads
        then attempts_steps provider strict events (suc max_retries) 0 no_hint
        else return (fallback false 0)

  abbrev pub query_with_steps :
      Option (String → Option String → Evidence → ℕ → Hint → Answer)
      → Models
      → QueryRequest
      → Archive
      → Process (Session R) (Option NarrativeRendererResult)
  query_with_steps none models req s = return none
  query_with_steps (some ask) models req s = do
    let evidence = select_evidence req.subject_agent s
    result ←
        render_steps (judge_or_none models.judge) (ask req.question req.subject_agent evidence)
          (is_strict models req) 2 (count_events s) (length s.reflections) models.prompt_loads
          (sources_of evidence.events)
    return (some result)

  -- `execute_query`, which reads the archive once, before it first awaits.
  unfoldable pub execute_query_steps :
      Models → QueryRequest → Process (Session R) (Option NarrativeRendererResult)
  execute_query_steps models req = do
    s ← await (gets (λ (s : Session R). s.db.archive))
    query_with_steps models.narrative models req s

-- ===== src/Narrative/Query.antt =====
-- `execute_query` of app/api/query.py: an answer from the stored evidence.
use oldman_agent.Prelude.{ℕ, String, Bool, ◌&&◌, Option, none, some, length, is_some}
use oldman_agent.Json.{Json}
use oldman_agent.Archive.{Archive, count_events}
use oldman_agent.Narrative.Text.{Text}
use oldman_agent.Narrative.Validator.{Verdict, judge_error}
use oldman_agent.Narrative.Renderer.{Hint, Answer, NarrativeRendererResult, render_narrative}
use oldman_agent.Narrative.Evidence.{Evidence, select_evidence, sources_of}

-- app/api/schemas.py
pub record QueryRequest : Type 0 where
  pub question : String
  pub subject_agent : Option String
  pub max_citations : ℕ
  pub strict_mode : Bool

-- The language models, as the executor holds them, and whether the prompts load. The narrative model
-- sees the question, its subject and the evidence, and on retry `n` a hint.
pub record Models : Type 0 where
  pub narrative : Option (String → Option String → Evidence → ℕ → Hint → Answer)
  pub judge : Option (Text → Json → Verdict)
  pub prompt_loads : Bool

abbrev pub judge_or_none : Option (Text → Json → Verdict) → Text → Json → Verdict
judge_or_none none = λ claim payload. judge_error
judge_or_none (some judge) = judge

-- `validator_mode`: the strict mode needs a judge.
unfoldable pub is_strict : Models → QueryRequest → Bool
is_strict models req = req.strict_mode && is_some models.judge

abbrev pub query_with :
    Option (String → Option String → Evidence → ℕ → Hint → Answer)
    → Models
    → QueryRequest
    → Archive
    → Option NarrativeRendererResult
query_with none models req s = none
query_with (some ask) models req s =
    let evidence = select_evidence req.subject_agent s in
    some (
      render_narrative (ask req.question req.subject_agent evidence) (judge_or_none models.judge)
        (is_strict models req) 2 (count_events s) (length s.reflections) models.prompt_loads
        (sources_of evidence.events))

-- `none` is `ProviderUnavailableError`.
unfoldable pub execute_query : Models → QueryRequest → Archive → Option NarrativeRendererResult
execute_query models req s = query_with models.narrative models req s

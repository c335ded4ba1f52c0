-- ===== src/Narrative/Renderer.antt =====
-- app/narrative/renderer.py and `execute_query` of app/api/query.py: ask, validate, retry, fall back.
pub mod Safety
use oldman_agent.Prelude.{
  ℕ, zero, suc, ◌+◌, ◌-◌, Bool, true, false, not, ◌&&◌, ◌||◌, Option, none, some, List, [], ◌∷◌,
  map, eqb, is_none, if◌then◌else◌,
}
use oldman_agent.Json.{Json}
use oldman_agent.Narrative.Text.{Text}
use oldman_agent.Narrative.Validator.{
  Source, ValidationResult, Verdict, is_nil, lookup_last, validate_citations,
  validate_citations_with_judge,
}

pub record CitationSchema : Type 0 where
  pub short_id : Text
  pub event_id : Option Text

pub record NarrativeRendererResult : Type 0 where
  pub answer : Text
  pub citations : List CitationSchema
  pub retries_used : ℕ
  pub is_cold_start : Bool
  pub used_fallback : Bool

-- `COLD_START_FALLBACK_MESSAGE` of app/state/cold_start.py, in code points
abbrev pub fallback_message : Text
fallback_message =
    0xadf8 ∷ 0xac74 ∷ 0x20 ∷ 0xb0b4 ∷ 0xac00 ∷ 0x20 ∷ 0xbabb ∷ 0x20 ∷ 0xbd10 ∷ 0xc11c ∷ 0x20
    ∷ 0xbaa8 ∷ 0xb974 ∷ 0xaca0 ∷ 0xb124 ∷ 0x2e ∷ []

-- `_fallback`
unfoldable pub fallback : Bool → ℕ → NarrativeRendererResult
fallback cold retries = record {
  answer = fallback_message;
  citations = [];
  retries_used = retries;
  is_cold_start = cold;
  used_fallback = true;
}

-- The corpus is cold until it has an event and a reflection.
unfoldable pub is_cold : ℕ → ℕ → Bool
is_cold event_count reflection_count = eqb event_count 0 || eqb reflection_count 0

abbrev full_id : Option Source → Option Text
full_id none = none
full_id (some e) = some e.event_id

-- `_build_citations`
unfoldable pub build_citations : List Source → List Text → List CitationSchema
build_citations events extracted =
    map (λ c. record { short_id = c; event_id = full_id (lookup_last c events) }) extracted

-- The hint that a prompt carries.
pub data Hint : Type 0 where
  no_hint missing_hint ungrounded_hint : Hint

-- What the language model answers: an exception, or a text.
pub data Answer : Type 0 where
  failed : Answer
  answered : Text → Answer

abbrev pub hint_after : ValidationResult → Hint
hint_after v = if is_nil v.ungrounded then missing_hint else ungrounded_hint

abbrev pub checked : (Text → Json → Verdict) → Bool → List Source → Text → ValidationResult
checked judge strict events text =
    if strict
    then validate_citations_with_judge judge text events
    else validate_citations text events

module _ (provider : ℕ → Hint → Answer) (judge : Text → Json → Verdict) where
  -- The `for attempt` loop: the attempts left, the retries so far, and the hint of the next prompt.
  unfoldable pub attempts : Bool → List Source → ℕ → ℕ → Hint → NarrativeRendererResult
  attempts strict events zero retries hint = fallback false (retries - 1)
  attempts strict events (suc left) retries hint = elim (provider retries hint) [
    | failed ↦ fallback false retries
    | answered text ↦
        let v = checked judge strict events text in
        let again = attempts strict events left (retries + 1) (hint_after v) in
        if v.is_valid
        then record {
          answer = text;
          citations = build_citations events v.extracted;
          retries_used = retries;
          is_cold_start = false;
          used_fallback = false;
        }
        else again
  ]

  -- `render_narrative`, from the counts of the tables, the evidence and whether the prompt loads.
  unfoldable pub render_narrative : Bool → ℕ → ℕ → ℕ → Bool → List Source → NarrativeRendererResult
  render_narrative strict max_retries event_count reflection_count prompt_loads events =
      if is_cold event_count reflection_count
      then fallback true 0
      else if is_nil events
      then fallback false 0
      else if prompt_loads
      then attempts strict events (suc max_retries) 0 no_hint
      else fallback false 0

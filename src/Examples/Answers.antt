-- ===== src/Examples/Answers.antt =====
-- The theorems on evidence, canaries and answers, on concrete events and texts.
use oldman_agent.Prelude.{
  if◌then◌else◌, Option, ◌↔◌, some, ℕ, String, ◌≡◌, refl, true, false, [], ◌∷◌, ◌++◌, All,
}
use oldman_agent.Exec.Ends.{Ends}
use oldman_agent.Json.{Json, text, null, bool, obj, field, end}
use oldman_agent.Canary.{judge_canary_response}
use oldman_agent.Canary.Once.{JudgedOnce, judge_canary_once}
use oldman_agent.Corroboration.{record_contradiction, record_corroboration}
use oldman_agent.Corroboration.Revoked.{
  Contradicted, record_contradiction-closes, Independent, record_corroboration-Independent,
}
use oldman_agent.Narrative.Text.{Text, codes, mem_text, same_text}
use oldman_agent.Narrative.Citation.{
  short_id_of, format_marker, extract_citations, is_hex, lower_hex,
}
use oldman_agent.Narrative.Citation.RoundTrip.{IsIdDigit, extract_citations-format_marker}
use oldman_agent.Narrative.Validator.{
  Source, Verdict, grounded, ungrounded, judge_error, validate_citations,
  validate_citations_with_judge,
}
use oldman_agent.Narrative.Validator.Soundness.{NoneUngrounded, validate_citations_with_judge_sound}
use oldman_agent.Narrative.Judge.{
  JsonTexts, reply_of, parse_judge_output, judge_grounding, verdict_on, judge,
}
use oldman_agent.Narrative.Judge.Refusals.{Refuses, judge-ungrounded}
use oldman_agent.Narrative.Renderer.{Hint, Answer, answered, render_narrative}
use oldman_agent.Narrative.Renderer.Safety.{IsSafe, render_narrative-IsSafe}
use oldman_agent.Task.Filters.{field_of}
use oldman_agent.Examples.{whole, plain}
use oldman_agent.Examples.Village.{db}

judge_canary_once_example :
    Ends
      (judge_canary_response whole plain 1 "canary-1" "alice" (text "rain") 100)
      db
      (JudgedOnce whole plain 1 "canary-1" db)
judge_canary_once_example = judge_canary_once whole plain 1 "canary-1" "alice" (text "rain") 100 db

record_contradiction-closes_example :
    Ends (record_contradiction whole "e1" "e3" 100 1) db (Contradicted whole "e1" db)
record_contradiction-closes_example = record_contradiction-closes whole "e1" "e3" 100 1 db

record_corroboration-Independent_example :
    Ends (record_corroboration whole "e1" "e3" 100 1) db (Independent whole "e1" "e3" db)
record_corroboration-Independent_example = record_corroboration-Independent whole "e1" "e3" 100 1 db

abbrev sold : Source
sold = record { event_id = codes "ab12cd34-0000"; payload = null }

digits : All IsIdDigit (short_id_of (codes "ab12cd34-0000"))
unfolding is_hex lower_hex
digits = (
  (refl, refl),
  (
    (refl, refl),
    (
      (refl, refl),
      ((refl, refl), ((refl, refl), ((refl, refl), ((refl, refl), ((refl, refl), tt))))),
    ),
  ),
)

extract_citations-format_marker_example :
    mem_text
      (short_id_of (codes "ab12cd34-0000"))
      (extract_citations (codes "Sold " ++ (format_marker (codes "ab12cd34-0000") ++ codes ".")))
    ≡ true
extract_citations-format_marker_example =
    extract_citations-format_marker (codes "ab12cd34-0000") (codes "Sold ") (codes ".") refl digits

abbrev lenient : Text → Json → Verdict
lenient claim payload = grounded

abbrev answer : Text
answer = codes "Sold a cow " ++ (format_marker (codes "ab12cd34-0000") ++ codes ".")

abbrev model : ℕ → Hint → Answer
model retries hint = answered answer

render_narrative-IsSafe_example :
    IsSafe (sold ∷ []) 2 (render_narrative model lenient true 2 1 1 true (sold ∷ []))
render_narrative-IsSafe_example = render_narrative-IsSafe lenient model true 2 1 1 true (sold ∷ [])

-- A model that refuses every claim, for a reason that it may choose.
abbrev refusal : String → JsonTexts
refusal reason = record {
  strip = λ s. s;
  loads = λ s. some (obj (field "is_grounded" (bool false) (field "reason" (text reason) end)));
  dumps = λ v. [];
  str = λ v. codes reason;
}

abbrev replies : Text → Json → Option Text
replies claim payload = some (codes "{}")

judge-ungrounded_example :
    (judge (refusal "no evidence") true replies (codes "Sold.") null ≡ ungrounded)
    ↔ ((true ≡ true) × Refuses (refusal "no evidence") (some (codes "{}")))
judge-ungrounded_example =
    judge-ungrounded (refusal "no evidence") true replies (codes "Sold.") null

refusal_run : judge (refusal "no evidence") true replies (codes "Sold.") null ≡ ungrounded
unfolding judge judge_grounding parse_judge_output verdict_on reply_of same_text field_of
refusal_run = refl

-- The same refusal for the reason `parse_error` is lost.
lost_refusal_run : judge (refusal "parse_error") true replies (codes "Sold.") null ≡ judge_error
unfolding judge judge_grounding parse_judge_output verdict_on reply_of same_text field_of
lost_refusal_run = refl

-- A judge that rejects one claim and fails on all others.
abbrev torn : Text → Json → Verdict
torn claim payload = if same_text claim (codes "No.") then ungrounded else judge_error

validate_citations_with_judge_sound_example :
    ((validate_citations_with_judge torn answer (sold ∷ [])).is_valid ≡ true ↔ (
      ((validate_citations answer (sold ∷ [])).is_valid ≡ true)
      × NoneUngrounded torn answer (sold ∷ []) (validate_citations answer (sold ∷ [])).extracted))
    × ((validate_citations_with_judge torn answer (sold ∷ [])).extracted
        ≡ (validate_citations answer (sold ∷ [])).extracted)
validate_citations_with_judge_sound_example =
    validate_citations_with_judge_sound torn answer (sold ∷ [])

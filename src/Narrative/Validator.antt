-- ===== src/Narrative/Validator.antt =====
-- app/narrative/validator.py: do the citations of an answer exist, and does a judge find them grounded?
pub mod Soundness
pub mod Few
use oldman_agent.Prelude.{
  ℕ, Bool, true, false, not, ◌&&◌, Option, none, some, List, [], ◌∷◌, map, if◌then◌else◌,
}
use oldman_agent.Json.{Json, obj, end}
use oldman_agent.Narrative.Text.{Text, mem_text, same_text}
use oldman_agent.Narrative.Citation.{short_id_of, format_marker, extract_citations}
use oldman_agent.Narrative.Sentences.{extract_sentence_for_marker}

-- An event of the evidence: its id and its payload.
pub record Source : Type 0 where
  pub event_id : Text
  pub payload : Json

pub record ValidationResult : Type 0 where
  pub is_valid : Bool
  pub missing : List Text
  pub extracted : List Text
  pub ungrounded : List Text

-- `{ev.event_id[:8] for ev in evidence.events}`
unfoldable pub valid_short_ids : List Source → List Text
valid_short_ids events = map (λ e. short_id_of e.event_id) events

unfoldable pub not_among : List Text → List Text → List Text
not_among ids [] = []
not_among ids (c ∷ cs) = let rest = not_among ids cs in if mem_text c ids then rest else c ∷ rest

abbrev pub is_nil : {A : Type 0} → List A → Bool
is_nil [] = true
is_nil (_ ∷ _) = false

abbrev pub verdict_of : List Text → List Source → ValidationResult
verdict_of [] events = record {
  is_valid = is_nil events;
  missing = [];
  extracted = [];
  ungrounded = [];
}
verdict_of (c ∷ cs) events =
    let missing = not_among (valid_short_ids events) (c ∷ cs) in
    record { is_valid = is_nil missing; missing = missing; extracted = c ∷ cs; ungrounded = [] }

unfoldable pub validate_citations : Text → List Source → ValidationResult
validate_citations text events = verdict_of (extract_citations text) events

-- `judge_grounding`: a verdict, or an exception, or the reason `provider_error` or `parse_error`.
pub data Verdict : Type 0 where
  grounded ungrounded judge_error : Verdict

-- `{ev.event_id[:8]: …}[short_id]`: the last event of that short id.
unfoldable pub lookup_last : Text → List Source → Option Source
lookup_last short [] = none
lookup_last short (e ∷ es) = elim (lookup_last short es) [
  | some x ↦ some x
  | none ↦ if same_text (short_id_of e.event_id) short then some e else none
]

abbrev payload_or_empty : Option Source → Json
payload_or_empty none = obj end
payload_or_empty (some e) = e.payload

abbrev claim_or_text : Text → Option Text → Text
claim_or_text text none = text
claim_or_text text (some []) = text
claim_or_text text (some (c ∷ s)) = c ∷ s

abbrev pub is_ungrounded : Verdict → Bool
is_ungrounded ungrounded = true
is_ungrounded _ = false

module _ (judge : Text → Json → Verdict) where
  -- What the judge says of one citation of a text.
  unfoldable pub judged : Text → List Source → Text → Verdict
  judged text events c =
      judge (claim_or_text text (extract_sentence_for_marker text (format_marker c)))
        (payload_or_empty (lookup_last c events))

  unfoldable pub ungrounded_of : Text → List Source → List Text → List Text
  ungrounded_of text events [] = []
  ungrounded_of text events (c ∷ cs) =
      let rest = ungrounded_of text events cs in
      if is_ungrounded (judged text events c) then c ∷ rest else rest

  unfoldable pub validate_citations_with_judge : Text → List Source → ValidationResult
  validate_citations_with_judge text events =
      let found = validate_citations text events in
      let bad = ungrounded_of text events found.extracted in
      if found.is_valid
      then record {
        is_valid = is_nil bad;
        missing = [];
        extracted = found.extracted;
        ungrounded = bad;
      }
      else found

-- ===== src/Narrative/Judge.antt =====
-- app/narrative/judge.py: is a claim grounded in the payload that it cites? The model is asked, and its
-- reply read as JSON, in a code fence or in prose or not. What `validate_citations_with_judge` of
-- app/narrative/validator.py makes of the verdict is `verdict_on`.
pub mod Blocks
pub mod Refusals
use Prim.Native.String.{String}
use oldman_agent.Prelude.{
  ℕ, Bool, true, false, not, ◌&&◌, ◌||◌, Option, none, some, List, [], ◌∷◌, ◌++◌, eqb, map,
  if◌then◌else◌,
}
use oldman_agent.Json.{Json, Fields, null, bool, num, text, arr, obj, end, field}
use oldman_agent.Narrative.Text.{Text, codes, same_text, starts}
use oldman_agent.Narrative.Validator.{Verdict, grounded, ungrounded, judge_error}
use oldman_agent.Task.Filters.{field_of, is_truthy}

-- `str.strip`, `json.loads`, where `none` is `JSONDecodeError`, `json.dumps`, and `str` of a value that
-- is no dictionary and no list.
pub record JsonTexts : Type 0 where
  pub strip : Text → Text
  pub loads : Text → Option Json
  pub dumps : Json → Text
  pub str : Json → Text

abbrev pub fence : Text
fence = codes "```"

-- `s.removeprefix(p)`, where it is a prefix
unfoldable pub without_prefix : Text → Text → Option Text
without_prefix [] s = some s
without_prefix (a ∷ p) [] = none
without_prefix (a ∷ p) (b ∷ s) = let rest = without_prefix p s in if eqb a b then rest else none

abbrev pub or_else : Text → Option Text → Text
or_else s none = s
or_else s (some t) = t

abbrev pub char_before : ℕ → Option Text → Option Text
char_before c none = none
char_before c (some s) = some (c ∷ s)

-- What stands before the fence that ends the text.
unfoldable pub before_fence : Text → Option Text
before_fence [] = none
before_fence (c ∷ s) =
    let later = char_before c (before_fence s) in if same_text (c ∷ s) fence then some [] else later

-- `(?:json|JSON)?`
abbrev pub after_tag : Text → Text
after_tag s =
    or_else (or_else s (without_prefix (codes "JSON") s)) (without_prefix (codes "json") s)

abbrev pub fenced : Option Text → Option Text
fenced none = none
fenced (some s) = before_fence (after_tag s)

-- `_strip_fences`. The text is stripped, so the pattern of a fence matches up to its last character,
-- and the white space that it leaves out of its group is stripped from the group.
unfoldable pub strip_fences : JsonTexts → Text → Text
strip_fences j t = go (fenced (without_prefix fence (j.strip t)))
  where
    go : Option Text → Text
    go none = j.strip t
    go (some inner) = j.strip inner

abbrev pub opening : ℕ → Bool
opening c = eqb c b'{'

abbrev pub closing : ℕ → Bool
closing c = eqb c b'}'

-- `[^{}]*\}`
unfoldable pub block_rest : Text → Option Text
block_rest [] = none
block_rest (c ∷ s) =
    let rest = char_before c (block_rest s) in
    if closing c then some (c ∷ []) else if opening c then none else rest

abbrev pub block_at : ℕ → Option Text → Option Text → Option Text
block_at c (some rest) later = if opening c then some (c ∷ rest) else later
block_at c none later = later

-- `_JSON_EXTRACT_RE.search`
unfoldable pub find_block : Text → Option Text
find_block [] = none
find_block (c ∷ s) = let later = find_block s in block_at c (block_rest s) later

abbrev pub loaded_dict : Option Json → Option Fields
loaded_dict (some (obj fs)) = some fs
loaded_dict _ = none

abbrev pub loaded : JsonTexts → Option Text → Option Fields
loaded j none = none
loaded j (some t) = loaded_dict (j.loads t)

abbrev pub or_block : Option Fields → Option Fields → Option Fields
or_block (some fs) block = some fs
or_block none block = block

-- The dictionary of a reply: all of it, or else its first block.
unfoldable pub reply_of : JsonTexts → Text → Option Fields
reply_of j t =
    let s = strip_fences j t in or_block (loaded_dict (j.loads s)) (loaded j (find_block s))

pub record JudgeVerdict : Type 0 where
  pub is_grounded : Bool
  pub reason : Text

abbrev pub ungrounded_for : String → JudgeVerdict
ungrounded_for reason = record { is_grounded = false; reason = codes reason }

-- `bool(data.get("is_grounded", False))`
abbrev pub says_grounded : Option Json → Bool
says_grounded none = false
says_grounded (some v) = is_truthy v

abbrev pub reason_text : JsonTexts → Option Json → Text
reason_text j none = codes ""
reason_text j (some (obj fs)) = j.dumps (obj fs)
reason_text j (some (arr vs)) = j.dumps (arr vs)
reason_text j (some v) = j.str v

abbrev pub said : JsonTexts → Option Fields → JudgeVerdict
said j none = ungrounded_for "parse_error"
said j (some fs) = record {
  is_grounded = says_grounded (field_of "is_grounded" fs);
  reason = reason_text j (field_of "reason" fs);
}

unfoldable pub parse_judge_output : JsonTexts → Text → JudgeVerdict
parse_judge_output j t = said j (reply_of j t)

abbrev pub replied : JsonTexts → Option Text → JudgeVerdict
replied j none = ungrounded_for "provider_error"
replied j (some t) = parse_judge_output j t

-- The prompt may fail to load, and the provider answers with `none` where it raises.
unfoldable pub judge_grounding :
    JsonTexts → Bool → (Text → Json → Option Text) → Text → Json → JudgeVerdict
judge_grounding j prompt_loads complete claim payload =
    if prompt_loads then replied j (complete claim payload) else ungrounded_for "provider_error"

-- `verdict.reason in ("provider_error", "parse_error")`
abbrev pub is_failure : Text → Bool
is_failure reason =
    same_text reason (codes "provider_error") || same_text reason (codes "parse_error")

-- What the validator makes of it: a failure of the judge does not reject the citation.
unfoldable pub verdict_on : JudgeVerdict → Verdict
verdict_on v =
    if is_failure v.reason then judge_error else if v.is_grounded then grounded else ungrounded

-- The judge that the validator calls.
unfoldable pub judge : JsonTexts → Bool → (Text → Json → Option Text) → Text → Json → Verdict
judge j prompt_loads complete claim payload =
    verdict_on (judge_grounding j prompt_loads complete claim payload)

-- ===== src/Task/Filters.antt =====
-- The filters of a query or reputation request, as app/a2a/executor.py reads them, and the limits of
-- `QueryRequest` in app/api/schemas.py. `parse_int` is `int` of a text.
use Prim.Native.String.{String}
use oldman_agent.Prelude.{
  ℕ, Bool, true, false, not, ◌&&◌, Option, none, some, length, leb, eqb, if◌then◌else◌, ◌==◌,
}
use oldman_agent.Exec.{Exec, attribute_error, pure, raise}
use oldman_agent.Json.{Json, Fields, null, bool, num, text, arr, obj, nil, cons, end, field}
use oldman_agent.Narrative.Text.{codes}
use oldman_agent.Narrative.Query.{QueryRequest}

-- `bool(value)`
abbrev pub is_truthy : Json → Bool
is_truthy null = false
is_truthy (bool b) = b
is_truthy (num n) = not (eqb n 0)
is_truthy (text s) = not (s == "")
is_truthy (arr nil) = false
is_truthy (arr (cons v vs)) = true
is_truthy (obj end) = false
is_truthy (obj (field k v fs)) = true

-- `get_data_part(message) or {}`
abbrev pub filters_of : Option Json → Json
filters_of none = obj end
filters_of (some v) = if is_truthy v then v else obj end

unfoldable pub field_of : String → Fields → Option Json
field_of name end = none
field_of name (field k v fs) = let later = field_of name fs in if k == name then some v else later

-- `filters.get`, which only a dictionary has
abbrev pub get : {S : Type 0} → String → Json → Exec S (Option Json)
get name (obj fs) = pure (field_of name fs)
get name _ = raise attribute_error

-- `isinstance(value, str)`
abbrev pub text_or_none : Option Json → Option String
text_or_none (some (text s)) = some s
text_or_none _ = none

-- `str | None`: `some` of the value, or `none` for another type
abbrev pub optional_text : Option Json → Option (Option String)
optional_text none = some none
optional_text (some null) = some none
optional_text (some (text s)) = some (some s)
optional_text (some _) = none

-- `int(filters.get("max_citations", 10))`
abbrev pub int_or_default : (String → Option ℕ) → Option Json → Option ℕ
int_or_default parse_int none = some 10
int_or_default parse_int (some (num n)) = some n
int_or_default parse_int (some (bool b)) = some (if b then 1 else 0)
int_or_default parse_int (some (text s)) = parse_int s
int_or_default parse_int (some _) = none

-- `bool(filters.get("strict_mode", True))`
abbrev pub true_by_default : Option Json → Bool
true_by_default none = true
true_by_default (some v) = is_truthy v

-- `min_length=1, max_length=1000` and `ge=1, le=100`
abbrev pub is_within : String → ℕ → Bool
is_within question max_citations =
    leb 1 (length (codes question))
    && leb (length (codes question)) 1000
    && (leb 1 max_citations && leb max_citations 100)

abbrev pub checked_request : String → Option (Option String) → Option ℕ → Bool → Option QueryRequest
checked_request question (some subject) (some max_citations) strict =
    if is_within question max_citations
    then some (record {
      question = question;
      subject_agent = subject;
      max_citations = max_citations;
      strict_mode = strict;
    })
    else none
checked_request question _ _ strict = none

-- `QueryRequest(…)`, where `none` is any exception
unfoldable pub query_request : (String → Option ℕ) → String → Json → Option QueryRequest
query_request parse_int question (obj fs) =
    checked_request question (optional_text (field_of "subject_agent" fs))
      (int_or_default parse_int (field_of "max_citations" fs))
      (true_by_default (field_of "strict_mode" fs))
query_request parse_int question _ = none

abbrev text_unless_empty : String → Option String
text_unless_empty s = if s == "" then none else some s

-- `filters.get("subject_agent") or get_text(message).strip()`, where it is a text that is not empty
abbrev pub named_subject : Option Json → String → Option String
named_subject none stripped = text_unless_empty stripped
named_subject (some v) stripped =
    if is_truthy v then text_or_none (some v) else text_unless_empty stripped

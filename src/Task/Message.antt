-- ===== src/Task/Message.antt =====
-- app/a2a/intents.py: what a message asks for. `strip` is `str.strip`.
use Prim.Native.String.{String, ◌++◌}
use oldman_agent.Prelude.{
  Bool, true, false, not, ◌&&◌, Option, none, some, List, [], ◌∷◌, if◌then◌else◌, ◌==◌,
}
use oldman_agent.Json.{Json, null}
use oldman_agent.Table.{find}

-- `Part`, a `oneof` of its contents
pub data Part : Type 0 where
  text_part : String → Part
  data_part : Json → Part
  other_part : Part

-- A `Value` of the metadata, of kind `string_value` or another.
pub data MetaValue : Type 0 where
  string_value : String → MetaValue
  other_value : MetaValue

pub record MetaField : Type 0 where
  pub key : String
  pub value : MetaValue

pub record Message : Type 0 where
  pub metadata : Option (List MetaField)
  pub parts : List Part

abbrev pub intent_publish : String
intent_publish = "publish"

abbrev pub intent_query : String
intent_query = "query"

abbrev pub intent_reputation : String
intent_reputation = "reputation"

abbrev intent_value : Option MetaField → Option String
intent_value none = none
intent_value (some f) = string_of f.value
  where
    string_of : MetaValue → Option String
    string_of (string_value s) = some s
    string_of other_value = none

abbrev pub intent_in : Option (List MetaField) → Option String
intent_in none = none
intent_in (some fields) = intent_value (find (λ f. f.key == "oldman.intent") fields)

unfoldable pub extract_intent : Message → Option String
extract_intent message = intent_in message.metadata

-- `MessageToDict(part.data)`, where `null` is `None`
abbrev pub dict_or_none : Json → Option Json
dict_or_none null = none
dict_or_none v = some v

abbrev pub first_data : List Part → Option Json
first_data [] = none
first_data (data_part v ∷ parts) = dict_or_none v
first_data (_ ∷ parts) = first_data parts

-- The value of the first DataPart.
unfoldable pub get_data_part : Message → Option Json
get_data_part message = first_data message.parts

abbrev pub texts_of : List Part → List String
texts_of [] = []
texts_of (text_part s ∷ parts) = s ∷ texts_of parts
texts_of (_ ∷ parts) = texts_of parts

-- `"\n".join(texts)`
abbrev pub join_lines : List String → String
join_lines [] = ""
join_lines (s ∷ []) = s
join_lines (s ∷ t ∷ rest) = s ++ ("\n" ++ join_lines (t ∷ rest))

unfoldable pub get_text : Message → String
get_text message = join_lines (texts_of message.parts)

abbrev pub any_data : List Part → Bool
any_data [] = false
any_data (data_part v ∷ parts) = true
any_data (_ ∷ parts) = any_data parts

unfoldable pub has_data_part : Message → Bool
has_data_part message = any_data message.parts

module _ (strip : String → String) where
  unfoldable pub heuristic_intent : Message → Option String
  heuristic_intent message =
      if not (strip (get_text message) == "") && not (has_data_part message)
      then some intent_query
      else none

  abbrev pub intent_or : Option String → Option String → Option String
  intent_or none other = other
  intent_or (some s) other = if s == "" then other else some s

  -- `extract_intent(message) or heuristic_intent(message)`
  unfoldable pub intent_of : Message → Option String
  intent_of message = intent_or (extract_intent message) (heuristic_intent message)

-- ===== src/Task/Payload.antt =====
-- The payload of a publish task: `PublishRequest` of app/api/schemas.py and the time stamp that
-- app/a2a/executor.py parses first. `parse_ts` is `datetime.fromisoformat` of the text with `Z` written
-- as `+00:00`, in microseconds, or none where it raises.
use Prim.Native.String.{String}
use oldman_agent.Prelude.{
  ℕ, Bool, true, false, ◌&&◌, ◌||◌, Option, none, some, List, [], ◌∷◌, length, leb, if◌then◌else◌,
  ◌==◌,
}
use oldman_agent.Prelude.Dedup.{contains}
use oldman_agent.Json.{Json, Fields, Items, null, text, arr, obj, nil, cons, end, field}
use oldman_agent.Archive.{SourceType, self, third_party, mutual_source}
use oldman_agent.Narrative.Text.{codes}
use oldman_agent.Publish.{PublishRequest}
use oldman_agent.Task.Filters.{field_of, optional_text}

-- `Field(min_length=1)`
abbrev pub required_text : Option Json → Option String
required_text (some (text s)) = if s == "" then none else some s
required_text _ = none

-- `str | None` of bounded length
abbrev pub within_length : ℕ → Option (Option String) → Option (Option String)
within_length limit (some (some s)) = if leb (length (codes s)) limit then some (some s) else none
within_length limit v = v

-- `Literal["self", "third_party", "mutual"]`
abbrev pub source_type_of : Option Json → Option SourceType
source_type_of (some (text s)) =
    if s == "self"
    then some self
    else if s == "third_party"
    then some third_party
    else if s == "mutual"
    then some mutual_source
    else none
source_type_of _ = none

-- `dict[str, Any]`
abbrev pub dict_of : Option Json → Option Json
dict_of (some (obj fs)) = some (obj fs)
dict_of _ = none

-- A text that is no time stamp becomes `None`.
abbrev pub ts_of : (String → Option ℕ) → Option Json → Option (Option ℕ)
ts_of parse_ts none = some none
ts_of parse_ts (some null) = some none
ts_of parse_ts (some (text s)) = some (parse_ts s)
ts_of parse_ts (some _) = none

abbrev pub known_fields : List String
known_fields =
    "event_kind" ∷ "source_agent" ∷ "observed_agent" ∷ "declared_source_type" ∷ "payload" ∷ "ts"
    ∷ "seller_did" ∷ "payload_signature" ∷ []

-- `extra="forbid"`
unfoldable pub only_known : Fields → Bool
only_known end = true
only_known (field k v fs) = contains k known_fields && only_known fs

abbrev pub assembled :
    Option String
    → Option String
    → Option (Option String)
    → Option SourceType
    → Option Json
    → Option (Option ℕ)
    → Option (Option String)
    → Option (Option String)
    → Option PublishRequest
assembled (some kind) (some agent) (some observed) (some source) (some payload) (some ts) (some did)
      (some signature) =
    some (record {
      event_kind = kind;
      source_agent = agent;
      observed_agent = observed;
      payload = payload;
      declared_source_type = source;
      ts = ts;
      seller_did = did;
      payload_signature = signature;
    })
assembled _ _ _ _ _ _ _ _ = none

abbrev pub has_field : String → Fields → Bool
has_field name end = false
has_field name (field k v fs) = k == name || has_field name fs

-- A later pair overwrites an earlier one.
abbrev with_pair : String → Json → Option Fields → Option Fields
with_pair k v none = none
with_pair k v (some fs) = some (if has_field k fs then fs else field k v fs)

-- `dict(items)`: each item is a list or a dictionary of two, the first of them a text. Any other item
-- raises, or gives a key that no request has.
unfoldable pub dict_of_pairs : Items → Option Fields
dict_of_pairs nil = some end
dict_of_pairs (cons (arr (cons (text k) (cons v nil))) items) = with_pair k v (dict_of_pairs items)
dict_of_pairs (cons (obj (field k a (field l b end))) items) =
    with_pair k (text l) (dict_of_pairs items)
dict_of_pairs (cons _ items) = none

abbrev pub validated : (String → Option ℕ) → Fields → Option PublishRequest
validated parse_ts fs =
    if only_known fs
    then assembled (required_text (field_of "event_kind" fs))
        (required_text (field_of "source_agent" fs)) (optional_text (field_of "observed_agent" fs))
        (source_type_of (field_of "declared_source_type" fs)) (dict_of (field_of "payload" fs))
        (ts_of parse_ts (field_of "ts" fs))
        (within_length 128 (optional_text (field_of "seller_did" fs)))
        (within_length 256 (optional_text (field_of "payload_signature" fs)))
    else none

abbrev validated_pairs : (String → Option ℕ) → Option Fields → Option PublishRequest
validated_pairs parse_ts none = none
validated_pairs parse_ts (some fs) = validated parse_ts fs

-- `PublishRequest.model_validate(dict(data))` with the time stamp parsed, where `none` is any exception
unfoldable pub publish_request : (String → Option ℕ) → Json → Option PublishRequest
publish_request parse_ts (obj fs) = validated parse_ts fs
publish_request parse_ts (arr items) = validated_pairs parse_ts (dict_of_pairs items)
publish_request parse_ts _ = none

-- ===== src/Examples/Requests.antt =====
-- The theorems on requests, on a concrete executor and database.
use oldman_agent.Prelude.{ℕ, String, ◌≡◌, refl, Bool, true, false, none, some, [], ◌∷◌}
use oldman_agent.Json.{Json}
use oldman_agent.Narrative.Text.{codes, starts, occurs}
use oldman_agent.Narrative.Smalltalk.{any_occurs, first_matching, match_smalltalk, resolve_persona}
use oldman_agent.Narrative.Query.{Models}
use oldman_agent.Task.Message.{
  Message, text_part, extract_intent, get_text, has_data_part, heuristic_intent, intent_of,
}
use oldman_agent.Task.Session.{
  submitted, working, artifact, completed, smalltalk_data, Session, emit,
}
use oldman_agent.Task.Executor.{Executor, dispatch_query, execute}
use oldman_agent.Exec.{◌>>=◌}
use oldman_agent.Examples.{settings, whole, plain}
use oldman_agent.Examples.Village.{db}

abbrev unsigned : String → Json → String → String → Bool
unsigned did payload signature agent = false

abbrev models : Models
models = record { narrative = none; judge = none; prompt_loads = true }

abbrev pub executor : Executor whole
executor = record {
  settings = settings;
  verify = unsigned;
  texts = plain;
  threshold = 1;
  models = models;
  reputation_model = none;
  strs = record { strip = λ s. s; lower = λ s. s };
  strip_text = λ s. s;
  persona = "neutral";
  parse_ts = λ s. none;
  parse_int = λ s. none;
  show = λ n. codes "1";
  out_of_ten = λ s. codes "5";
}

abbrev pub greeting : Message
greeting = record { metadata = none; parts = text_part "hello" ∷ [] }

abbrev pub session : Session ℕ
session = record { db = db; queue = [] }

-- A greeting is answered without evidence.
greeting_run :
    (execute whole executor (some greeting) session).1.queue
    ≡ submitted
      ∷ working
      ∷ artifact (codes "안녕하세요. oldman_agent입니다. 어떤 에이전트에 대해 알고 싶으세요?") smalltalk_data
      ∷ completed
      ∷ []
unfolding ◌>>=◌ execute dispatch_query emit extract_intent get_text has_data_part heuristic_intent
    intent_of match_smalltalk resolve_persona first_matching any_occurs occurs starts
greeting_run = refl

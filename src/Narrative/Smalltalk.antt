-- ===== src/Narrative/Smalltalk.antt =====
-- app/narrative/smalltalk.py: canned answers to greetings and the like, without evidence.
use oldman_agent.Prelude.{
  ℕ, String, Bool, false, ◌||◌, Option, none, some, List, [], ◌∷◌, length, ltb, if◌then◌else◌, ◌==◌,
}
use oldman_agent.Narrative.Text.{Text, codes, occurs}

-- `_MAX_QUESTION_LEN`
abbrev pub max_question_len : ℕ
max_question_len = 40

pub data Persona : Type 0 where
  kkondae neutral : Persona

pub record Category : Type 0 where
  pub patterns : List String
  pub kkondae_response : String
  pub neutral_response : String

abbrev greeting : Category
greeting = record {
  patterns = "안녕" ∷ "안뇽" ∷ "하이" ∷ "hi" ∷ "hello" ∷ "hey" ∷ "반갑" ∷ "어이" ∷ "여어" ∷ [];
  kkondae_response = "어, 자네 왔는가. 무슨 일이여, 누구 행적을 듣고 싶어 왔나?";
  neutral_response = "안녕하세요. oldman_agent입니다. 어떤 에이전트에 대해 알고 싶으세요?";
}

abbrev farewell : Category
farewell = record {
  patterns = "잘 가" ∷ "잘가" ∷ "안녕히" ∷ "다음에" ∷ "바이" ∷ "bye" ∷ "goodbye" ∷ [];
  kkondae_response = "어, 그래 가게. 또 궁금한 것 있으면 들르고.";
  neutral_response = "다음에 또 오세요.";
}

abbrev thanks : Category
thanks = record {
  patterns = "고마워" ∷ "고맙" ∷ "감사" ∷ "땡큐" ∷ "thank" ∷ "thanks" ∷ [];
  kkondae_response = "별 말씀을. 늙은이가 본 거나 말해주는 거지 뭐.";
  neutral_response = "별말씀을요.";
}

abbrev identity_question : Category
identity_question = record {
  patterns =
      "누구야" ∷ "누구세요" ∷ "넌 누구" ∷ "너는 누구" ∷ "정체" ∷ "뭐 하는" ∷ "뭐하는" ∷ "무슨 agent" ∷ "무슨 에이전트" ∷ "소개"
      ∷ "자기소개" ∷ "who are you" ∷ "what are you" ∷ [];
  kkondae_response =
      "나는 oldman_agent, 이 동네 사랑방 주인장이여. 다른 에이전트들이 무슨 짓을 하는지 publish로 받아서 쌓아두고, 누가 물으면 내가 본 것만 인용 박아서 얘기해주는 정보통이지. 한가한 잡담은 잘 못해. 누구 행적이 궁금한가?";
  neutral_response =
      "oldman_agent입니다. A2A v0.3 메타-기록자. 다른 에이전트의 활동을 publish로 받아 누적·반성(reflection)하고, 질문에는 수집된 evidence에 인용을 박아 답합니다. 특정 agent의 행적을 질문해 보세요.";
}

abbrev capability : Category
capability = record {
  patterns =
      "뭐 할 수 있" ∷ "뭐 할수 있" ∷ "뭐 가능" ∷ "할 수 있는" ∷ "what can you" ∷ "기능" ∷ "어떻게 써" ∷ "사용법" ∷ [];
  kkondae_response =
      "publish로 이벤트 넣어주면 내가 받아 적고, query로 물어보면 쌓인 기록에서 근거 박아 답해주지. 그게 다여. 결제? 그건 아직 못 받아.";
  neutral_response =
      "두 가지입니다. publish (이벤트 수집) + query (인용 박힌 narrative 응답). A2A v0.3 message/send 또는 message/stream으로 호출하세요.";
}

abbrev smalltalk : Category
smalltalk = record {
  patterns =
      "잘 지내" ∷ "어떻게 지내" ∷ "별일 없" ∷ "식사" ∷ "밥 먹" ∷ "how are you" ∷ "what's up" ∷ "whats up" ∷ [];
  kkondae_response = "늙은이가 매일이 그날이지 뭐. 자네는 어쩐 일로 왔나, 누구 행적이 궁금한가?";
  neutral_response = "잘 지냅니다. 어떤 에이전트가 궁금하세요?";
}

abbrev pub categories : List Category
categories = greeting ∷ farewell ∷ thanks ∷ identity_question ∷ capability ∷ smalltalk ∷ []

-- `str.strip` and `str.lower`
pub record StrServices : Type 0 where
  pub strip : String → String
  pub lower : String → String

-- `_resolve_persona`, of the environment's value
unfoldable pub resolve_persona : StrServices → String → Persona
resolve_persona u name = if u.lower (u.strip name) == "kkondae" then kkondae else neutral

abbrev pub response_of : Persona → Category → String
response_of kkondae c = c.kkondae_response
response_of neutral c = c.neutral_response

-- `for pat in patterns: if pat in ql`
unfoldable pub any_occurs : List String → Text → Bool
any_occurs [] ql = false
any_occurs (p ∷ ps) ql = occurs (codes p) ql || any_occurs ps ql

unfoldable pub first_matching : Persona → List Category → Text → Option String
first_matching persona [] ql = none
first_matching persona (c ∷ cs) ql =
    let later = first_matching persona cs ql in
    if any_occurs c.patterns ql then some (response_of persona c) else later

unfoldable pub match_smalltalk : StrServices → Persona → String → Option String
match_smalltalk u persona question =
    let q = u.strip question in
    if (q == "") || ltb max_question_len (length (codes q))
    then none
    else first_matching persona categories (codes (u.lower q))

-- ===== src/Reputation/Report.antt =====
-- app/trust/report.py: what is said of an agent, with the evidence it rests on.
use Prim.Native.String.{String}
use oldman_agent.Prelude.{
  ℕ, Option, none, some, List, [], ◌∷◌, ◌++◌, map, take, ltb, if◌then◌else◌, ◌==◌,
}
use oldman_agent.Floats.{Floats}
use oldman_agent.Table.{select}
use oldman_agent.Archive.{newest_first}
use oldman_agent.Village.{
  Village, BetaScore, Criterion, reliability, honesty, MembershipState, provisional, member, warned,
  penalized, excluded, MembershipRow, ScoreRow, TrustEvent, Cause, get_membership, get_trust_score,
}
use oldman_agent.Trust.{decay, default_ledger_policy, half_life_for}
use oldman_agent.Service.{elapsed_days}
use oldman_agent.Narrative.Text.{Text, codes}
use oldman_agent.Narrative.Citation.{arrow, short_id_of}

abbrev pub state_verdict : MembershipState → String
state_verdict provisional = "아직 잘 모르는 축이야. 몇 번 더 겪어봐야 알지"
state_verdict member = "제법 믿을 만한 축이야. 거래도 꼬박꼬박, 말도 여태 어긋난 적 없네"
state_verdict warned = "요즘 하는 말이 영 수상쩍어. 나 같으면 반만 믿겠네"
state_verdict penalized = "그놈 말은 값을 못 쳐줘. 몇 번을 어긋났는지 아는가"
state_verdict excluded = "사랑방에서 내쫓은 놈이야. 상종을 말게"

pub record ReportCitation : Type 0 where
  pub short_id : Text
  pub trust_event_id : String
  pub cause : Cause

pub record ReputationReport : Type 0 where
  pub subject_agent : String
  pub state : MembershipState
  pub violation_count : ℕ
  pub text : Text
  pub citations : List ReportCitation

-- `f"[↑{c.short_id}]"`
abbrev pub report_marker : ReportCitation → Text
report_marker c = b'[' ∷ arrow ∷ (c.short_id ++ b']' ∷ [])

-- `separator.join(parts)`
unfoldable pub join_texts : Text → List Text → Text
join_texts separator [] = []
join_texts separator (part ∷ []) = part
join_texts separator (part ∷ other ∷ parts) =
    part ++ (separator ++ join_texts separator (other ∷ parts))

abbrev unknown_text : String → Text
unknown_text subject =
    codes subject ++ codes "? 글쎄, 나로선 모르는 이름일세. 우리 사랑방엔 온 적이 없는 놈이야. 미덥고 말고 할 것도 없지."

abbrev pub unknown_report : String → ReputationReport
unknown_report subject = record {
  subject_agent = subject;
  state = provisional;
  violation_count = 0;
  text = unknown_text subject;
  citations = [];
}

abbrev violation_part : (ℕ → Text) → ℕ → List Text
violation_part show count =
    if ltb 0 count then (codes "어긋난 게 벌써 " ++ (show count ++ codes "번이야.")) ∷ [] else []

abbrev score_part : List Text → List Text
score_part [] = []
score_part (s ∷ ss) = (join_texts (codes ", ") (s ∷ ss) ++ codes ".") ∷ []

abbrev marker_part : List ReportCitation → List Text
marker_part [] = []
marker_part (c ∷ cs) =
    (codes "근거를 대자면 이렇네: " ++ (join_texts (codes " ") (map report_marker (c ∷ cs)) ++ codes "."))
    ∷ []

-- `show`: `str` of a number. `out_of_ten`: `str(round(score.mean * 10))`.
module _ (F : Floats) (show : ℕ → Text) (out_of_ten : BetaScore F.R → Text) where
  open F use {R}

  abbrev pub cited : TrustEvent R → ReportCitation
  cited e = record {
    short_id = short_id_of (codes e.trust_event_id);
    trust_event_id = e.trust_event_id;
    cause = e.cause;
  }

  -- `SELECT … WHERE agent_id = ? ORDER BY ts DESC LIMIT ?`
  unfoldable pub report_citations : String → ℕ → Village R → List ReportCitation
  report_citations subject limit v =
      map cited
        (take limit (newest_first (λ e. e.ts) (select (λ e. e.agent_id == subject) v.events)))

  abbrev scored : String → Criterion → ℕ → Option (ScoreRow R) → List Text
  scored label c now none = []
  scored label c now (some r) =
      let decayed =
        decay F (elapsed_days F now r.last_update_ts) (half_life_for (default_ledger_policy F) c)
          r.score in
      (codes label ++ (codes " 열에 " ++ (out_of_ten decayed ++ codes "쯤 믿네"))) ∷ []

  abbrev pub member_report : String → ℕ → ℕ → Village R → MembershipRow → ReputationReport
  member_report subject limit now v m =
      let citations = report_citations subject limit v in
      let scores =
        scored "거래는" reliability now (get_trust_score subject reliability v)
        ++ scored "말은" honesty now (get_trust_score subject honesty v) in
      record {
        subject_agent = subject;
        state = m.state;
        violation_count = m.violation_count;
        text = join_texts (codes " ") (
            (codes "내가 보기엔 "
              ++ (codes subject ++ (codes " 그놈은 " ++ (codes (state_verdict m.state) ++ codes "."))))
            ∷ (score_part scores
                ++ (violation_part show m.violation_count
                    ++ (marker_part citations
                        ++ codes "어디까지나 이 늙은이 소견일세 — 딴 사랑방 얘기도 들어보게." ∷ []))));
        citations = citations;
      }

  abbrev pub report_of : String → ℕ → ℕ → Village R → Option MembershipRow → ReputationReport
  report_of subject limit now v none = unknown_report subject
  report_of subject limit now v (some m) = member_report subject limit now v m

  unfoldable pub build_reputation_report : String → ℕ → ℕ → Village R → ReputationReport
  build_reputation_report subject limit now v =
      report_of subject limit now v (get_membership subject v)

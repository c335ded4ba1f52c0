-- ===== src/Sanctions.antt =====
-- app/trust/sanctions.py: what a membership state costs, the scolding, and the mirrored feedback.
pub mod Carried
use Prim.Native.String.{String}
use oldman_agent.Prelude.{
  ℕ, Bool, true, false, not, ◌&&◌, Option, none, some, List, [], ◌∷◌, ◌++◌, if◌then◌else◌, ◌==◌,
}
use oldman_agent.Exec.{Exec, value_error, pure, raise, ◌>>=◌, ◌>>◌}
use oldman_agent.Floats.{Floats}
use oldman_agent.Table.{select}
use oldman_agent.Archive.{newest_first}
use oldman_agent.Village.{
  MembershipState, provisional, member, warned, penalized, excluded, MembershipRow, TrustEvent,
  Village, get_membership,
}
use oldman_agent.Narrative.Text.{Text, codes}
use oldman_agent.Narrative.Citation.{arrow, short_id_of}
use oldman_agent.Narrative.Validator.{is_nil}
use oldman_agent.Erc8004.{Erc8004Feedback, give_feedback}

pub record PriceAdjustment (R : Type 0) : Type 0 where
  pub buy_multiplier : R
  pub sell_multiplier : R
  pub allowed : Bool

-- `_FEEDBACK_SCORES`
unfoldable pub state_to_feedback_score : MembershipState → ℕ
state_to_feedback_score member = 80
state_to_feedback_score provisional = 50
state_to_feedback_score warned = 40
state_to_feedback_score penalized = 20
state_to_feedback_score excluded = 0

-- The state as the tag of a feedback.
abbrev pub state_name : MembershipState → String
state_name provisional = "provisional"
state_name member = "member"
state_name warned = "warned"
state_name penalized = "penalized"
state_name excluded = "excluded"

-- The texts of `_SCOLD_TEMPLATES` before, between and after `{agent}` and `{cite}`.
abbrev pub scold_template : MembershipState → Option (Text × Text)
scold_template provisional = none
scold_template member = none
scold_template warned = some (codes ", 자네 요즘 하는 말이 영 미덥지 않구먼", codes ". 한 번만 더 그러면 값을 깎겠네.")
scold_template penalized = some (codes ", 자네한텐 이제 제값 못 쳐주겠네", codes ". 행실부터 고치고 오게.")
scold_template excluded = some (codes "는 사랑방 출입 금지일세", codes ". 마을 인심을 잃은 게야.")

abbrev pub cite_of : Option Text → Text
cite_of none = []
cite_of (some ref) = if is_nil ref then [] else codes " [↑" ++ (ref ++ codes "]")

abbrev pub scolded : {S : Type 0} → Text → Option Text → Option (Text × Text) → Exec S Text
scolded agent cause_ref none = raise value_error
scolded agent cause_ref (some (before, after)) =
    pure (agent ++ (before ++ (cite_of cause_ref ++ after)))

unfoldable pub scold_line : {S : Type 0} → Text → MembershipState → Option Text → Exec S Text
scold_line agent state cause_ref = scolded agent cause_ref (scold_template state)

pub record SanctionDirective (R : Type 0) : Type 0 where
  pub agent_id : String
  pub state : MembershipState
  pub price : PriceAdjustment R
  pub scold : Option Text
  pub mirrored : Bool

abbrev pub state_or_provisional : Option MembershipRow → MembershipState
state_or_provisional none = provisional
state_or_provisional (some m) = m.state

module _ (F : Floats) where
  open F use {R, num, div}

  abbrev priced : R → R → Bool → PriceAdjustment R
  priced buy sell allowed = record {
    buy_multiplier = buy;
    sell_multiplier = sell;
    allowed = allowed;
  }

  -- `_PRICE_POLICY`
  unfoldable pub price_adjustment : MembershipState → PriceAdjustment R
  price_adjustment provisional = priced (div (num 1) (num 2)) (num 1) true
  price_adjustment member = priced (num 1) (num 1) true
  price_adjustment warned = priced (div (num 1) (num 2)) (num 1) true
  price_adjustment penalized = priced (div (num 1) (num 4)) (div (num 3) (num 2)) true
  price_adjustment excluded = priced (num 0) (num 0) false

  abbrev first_short_id : List (TrustEvent R) → Option Text
  first_short_id [] = none
  first_short_id (e ∷ es) = some (short_id_of (codes e.trust_event_id))

  -- `SELECT … WHERE agent_id = ? AND positive = FALSE ORDER BY ts DESC LIMIT 1`
  unfoldable pub cause_ref_of : String → Village R → Option Text
  cause_ref_of a v =
      first_short_id
        (newest_first (λ e. e.ts) (select (λ e. e.agent_id == a && not e.positive) v.events))

  abbrev pub scold_if :
      Option (Text × Text)
      → String
      → MembershipState
      → Option Text
      → Exec (List Erc8004Feedback) (Option Text)
  scold_if none a state cause_ref = pure none
  scold_if (some _) a state cause_ref = do
    line ← scold_line (codes a) state cause_ref
    pure (some line)

  -- The registry of feedbacks is given or not; `erc8004_id` is the agent's id there.
  abbrev pub mirror : Bool → Option ℕ → MembershipState → Exec (List Erc8004Feedback) Bool
  mirror true (some id) state = do
    give_feedback id (state_to_feedback_score state) (state_name state)
    pure true
  mirror _ _ state = pure false

  unfoldable pub apply_sanction_effects :
      String → Bool → Option ℕ → Village R → Exec (List Erc8004Feedback) (SanctionDirective R)
  apply_sanction_effects a has_registry erc8004_id v = do
    let state = state_or_provisional (get_membership a v)
    scold ← scold_if (scold_template state) a state (cause_ref_of a v)
    mirrored ← mirror has_registry erc8004_id state
    pure (record {
      agent_id = a;
      state = state;
      price = price_adjustment state;
      scold = scold;
      mirrored = mirrored;
    })

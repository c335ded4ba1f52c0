-- ===== src/Service.antt =====
-- app/trust/service.py: one piece of evidence is decayed into the score, may move the membership
-- state, and is stored, all in one transaction.
pub mod Recorded
pub mod Exclusion
use oldman_agent.Prelude.{
  ℕ, ◌+◌, ◌-◌, List, String, Bool, true, false, Option, none, some, is_some, if◌then◌else◌,
}
use oldman_agent.Exec.{Error, Exec, pure, gets, raise_some, transaction, ◌>>=◌, ◌>>◌}
use oldman_agent.Table.{find}
use oldman_agent.Floats.{Floats}
use oldman_agent.Village.{
  BetaScore, Criterion, reliability, honesty, MembershipState, provisional, member, warned,
  penalized, excluded, ScoreRow, MembershipRow, row_of, Cause, Village, get_trust_score,
  upsert_trust_score, append_trust_event, get_membership, upsert_membership,
}
use oldman_agent.Trust.{
  LedgerPolicy, MembershipPolicy, half_life_for, cold_start_prior, observations, lower_bound,
  update_score, decay, decay_fault, lower_bound_fault, evaluate_transition,
}

pub record TrustUpdateResult (R : Type 0) : Type 0 where
  pub agent_id : String
  pub criterion : Criterion
  pub score : BetaScore R
  pub state : MembershipState
  pub violation_count : ℕ

abbrev same_state : MembershipState → MembershipState → Bool
same_state provisional provisional = true
same_state member member = true
same_state warned warned = true
same_state penalized penalized = true
same_state excluded excluded = true
same_state _ _ = false

-- The membership that a first event finds, and the one that the registry has.
abbrev pub prior_membership : String → ℕ → Option MembershipRow → MembershipRow
prior_membership a ts none = record {
  agent_id = a;
  state = provisional;
  violation_count = 0;
  joined_at = ts;
  state_changed_at = ts;
}
prior_membership a ts (some m) = m

abbrev pub violations_after : Bool → ℕ → ℕ
violations_after positive n = if positive then n else n + 1

-- The violation count after a piece of evidence.
abbrev pub violations_then : String → Bool → ℕ → List MembershipRow → ℕ
violations_then a positive ts rows =
    violations_after positive (prior_membership a ts (find (row_of a) rows)).violation_count

-- `state_changed_at` moves only with the state.
abbrev pub next_membership : String → MembershipRow → MembershipState → ℕ → ℕ → MembershipRow
next_membership a m state violations ts = record {
  agent_id = a;
  state = state;
  violation_count = violations;
  joined_at = m.joined_at;
  state_changed_at = if same_state state m.state then m.state_changed_at else ts;
}

module _ (F : Floats) where
  open F use {R, num, div}

  -- `max(0.0, (ts - last).total_seconds() / 86400.0)` of timestamps in microseconds
  abbrev pub elapsed_days : ℕ → ℕ → R
  elapsed_days ts last = div (div (num (ts - last)) (num 1000000)) (num 86400)

  abbrev decayed_row : LedgerPolicy R → Criterion → ℕ → ScoreRow R → BetaScore R
  decayed_row p c ts r = decay F (elapsed_days ts r.last_update_ts) (half_life_for p c) r.score

  abbrev decayed_or_prior : LedgerPolicy R → Criterion → ℕ → Option (ScoreRow R) → BetaScore R
  decayed_or_prior p c ts none = cold_start_prior F
  decayed_or_prior p c ts (some r) = decayed_row p c ts r

  unfoldable pub decayed_updated_score :
      LedgerPolicy R → String → Criterion → Bool → R → ℕ → Village R → BetaScore R
  decayed_updated_score p a c positive weight ts v =
      update_score F p positive weight (decayed_or_prior p c ts (get_trust_score a c v))

  abbrev stored_honesty : LedgerPolicy R → ℕ → Option (ScoreRow R) → R
  stored_honesty p ts none = num 0
  stored_honesty p ts (some r) = observations F (decayed_row p honesty ts r)

  unfoldable pub honesty_gate_observations :
      LedgerPolicy R → String → Criterion → BetaScore R → ℕ → Village R → R
  honesty_gate_observations p a honesty current ts v = observations F current
  honesty_gate_observations p a reliability current ts v =
      stored_honesty p ts (get_trust_score a honesty v)

  -- The state that `evaluate_transition` chooses for the updated score.
  abbrev pub judged_state :
      LedgerPolicy R
      → MembershipPolicy R
      → String
      → Criterion
      → BetaScore R
      → MembershipRow
      → ℕ
      → ℕ
      → Village R
      → MembershipState
  judged_state lp mp a c score m violations ts v =
      evaluate_transition F mp m.state (lower_bound F score) (observations F score) violations
        (some (honesty_gate_observations lp a c score ts v))

  abbrev row_fault : LedgerPolicy R → Criterion → ℕ → Option (ScoreRow R) → Option Error
  row_fault p c ts none = none
  row_fault p c ts (some r) = decay_fault F (elapsed_days ts r.last_update_ts) (half_life_for p c)

  abbrev honesty_fault : LedgerPolicy R → Criterion → ℕ → Village R → String → Option Error
  honesty_fault p honesty ts v a = none
  honesty_fault p reliability ts v a = row_fault p honesty ts (get_trust_score a honesty v)

  abbrev or_fault : Option Error → Option Error → Option Error
  or_fault none e = e
  or_fault (some e) f = some e

  -- The first exception that the computation of the score and of the state raises.
  unfoldable pub computing_fault :
      LedgerPolicy R → String → Criterion → Bool → R → ℕ → Village R → Option Error
  computing_fault p a c positive weight ts v = or_fault (row_fault p c ts (get_trust_score a c v)) (
      or_fault (honesty_fault p c ts v a)
        (lower_bound_fault F (decayed_updated_score p a c positive weight ts v)))

  record_in_transaction :
      LedgerPolicy R
      → MembershipPolicy R
      → String
      → Criterion
      → Bool
      → R
      → Cause
      → Option String
      → ℕ
      → Exec (Village R) (TrustUpdateResult R)
  record_in_transaction lp mp a c positive weight cause cause_ref ts = do
    m ← gets (λ v. prior_membership a ts (get_membership a v))
    fault ← gets (computing_fault lp a c positive weight ts)
    raise_some fault
    score ← gets (decayed_updated_score lp a c positive weight ts)
    state ← gets (judged_state lp mp a c score m (violations_after positive m.violation_count) ts)
    upsert_trust_score a c score ts
    append_trust_event a c positive weight cause cause_ref ts
    upsert_membership (next_membership a m state (violations_after positive m.violation_count) ts)
    pure (record {
      agent_id = a;
      criterion = c;
      score = score;
      state = state;
      violation_count = violations_after positive m.violation_count;
    })

  unfoldable pub record_trust_event :
      LedgerPolicy R
      → MembershipPolicy R
      → String
      → Criterion
      → Bool
      → R
      → Cause
      → Option String
      → ℕ
      → Exec (Village R) (TrustUpdateResult R)
  unfolding record_in_transaction
  record_trust_event lp mp a c positive weight cause cause_ref ts =
      transaction (record_in_transaction lp mp a c positive weight cause cause_ref ts)

-- ===== src/Trust.antt =====
-- app/trust/ledger.py and app/trust/membership.py: scores with asymmetric updates and decay, and the
-- transitions of the membership states. Pure functions over the floats `F`.
pub mod Transitions
pub mod Evidence
use oldman_agent.Prelude.{
  ℕ, ◌-◌, Bool, true, false, not, ◌&&◌, ◌||◌, Option, none, some, leb, if◌then◌else◌,
}
use oldman_agent.Exec.{Error, zero_division, overflow, value_error}
use oldman_agent.Floats.{Floats, at_most}
use oldman_agent.Village.{
  BetaScore, Criterion, reliability, honesty, MembershipState, provisional, member, warned,
  penalized, excluded,
}

pub record LedgerPolicy (R : Type 0) : Type 0 where
  pub fall_multiplier : R
  pub reliability_half_life_days : R
  pub honesty_half_life_days : R

pub record MembershipPolicy (R : Type 0) : Type 0 where
  pub promote_min_observations : R
  pub promote_min_lower : R
  pub warn_below : R
  pub penalize_below : R
  pub exclude_violations : ℕ
  pub recovery_penalty_per_violation : R
  pub promote_min_honesty_observations : R

abbrev pub is_excluded : MembershipState → Bool
is_excluded excluded = true
is_excluded _ = false

unfoldable pub half_life_for : {R : Type 0} → LedgerPolicy R → Criterion → R
half_life_for p honesty = p.honesty_half_life_days
half_life_for p reliability = p.reliability_half_life_days

module _ (F : Floats) where
  open F use {R, num, add, sub, mul, div, root, half_power, below}

  -- `COLD_START_PRIOR`
  abbrev pub cold_start_prior : BetaScore R
  cold_start_prior = record { alpha = num 1; beta = num 3 }

  -- `DEFAULT_POLICY` of the ledger
  abbrev pub default_ledger_policy : LedgerPolicy R
  default_ledger_policy = record {
    fall_multiplier = num 4;
    reliability_half_life_days = num 30;
    honesty_half_life_days = num 60;
  }

  -- `DEFAULT_POLICY` of the membership
  abbrev pub default_membership_policy : MembershipPolicy R
  default_membership_policy = record {
    promote_min_observations = num 5;
    promote_min_lower = div (num 1) (num 2);
    warn_below = div (num 2) (num 5);
    penalize_below = div (num 1) (num 4);
    exclude_violations = 4;
    recovery_penalty_per_violation = div (num 1) (num 20);
    promote_min_honesty_observations = div (num 1) (num 2);
  }

  unfoldable pub mean : BetaScore R → R
  mean s = div s.alpha (add s.alpha s.beta)

  unfoldable pub std : BetaScore R → R
  std s =
      let n = add s.alpha s.beta in root (div (mul s.alpha s.beta) (mul (mul n n) (add n (num 1))))

  abbrev is_zero : R → Bool
  is_zero x = at_most F x (num 0) && at_most F (num 0) x

  -- What `lower_bound` raises: the divisions by zero of `mean` and `std`, and `math.sqrt` below zero.
  unfoldable pub lower_bound_fault : BetaScore R → Option Error
  lower_bound_fault s =
      let n = add s.alpha s.beta in
      let d = mul (mul n n) (add n (num 1)) in
      if is_zero n || is_zero d
      then some zero_division
      else if below (div (mul s.alpha s.beta) d) (num 0)
      then some value_error
      else none

  unfoldable pub observations : BetaScore R → R
  observations s = add (sub s.alpha (num 1)) (sub s.beta (num 3))

  -- `max(0.0, mean - z * std)` at `z = 1.0`
  unfoldable pub lower_bound : BetaScore R → R
  lower_bound s = let x = sub (mean s) (mul (num 1) (std s)) in if below (num 0) x then x else num 0

  unfoldable pub update_score : LedgerPolicy R → Bool → R → BetaScore R → BetaScore R
  update_score p positive weight s =
      if positive
      then record { alpha = add s.alpha weight; beta = s.beta }
      else record { alpha = s.alpha; beta = add s.beta (mul weight p.fall_multiplier) }

  -- `decay` towards `COLD_START_PRIOR`
  unfoldable pub decay : R → R → BetaScore R → BetaScore R
  decay elapsed_days half_life_days s =
      let factor = half_power (div elapsed_days half_life_days) in
      if at_most F elapsed_days (num 0) then s else record {
        alpha = add (num 1) (mul (sub s.alpha (num 1)) factor);
        beta = add (num 3) (mul (sub s.beta (num 3)) factor);
      }

  -- What `decay` raises: the division by zero, and `0.5 ** x` above the largest float.
  unfoldable pub decay_fault : R → R → Option Error
  decay_fault elapsed_days half_life_days =
      if at_most F elapsed_days (num 0)
      then none
      else if is_zero half_life_days
      then some zero_division
      else if at_most F (add (div elapsed_days half_life_days) (num 1024)) (num 0)
      then some overflow
      else none

  -- `honesty_observations is not None and honesty_observations < …`
  abbrev pub unaudited : MembershipPolicy R → Option R → Bool
  unaudited p none = false
  unaudited p (some h) = below h p.promote_min_honesty_observations

  abbrev pub recovery_bar : MembershipPolicy R → ℕ → R
  recovery_bar p violations =
      add p.promote_min_lower (mul p.recovery_penalty_per_violation (num violations))

  unfoldable pub evaluate_transition :
      MembershipPolicy R → MembershipState → R → R → ℕ → Option R → MembershipState
  evaluate_transition p state score_lower observed violations honesty_observed =
      if is_excluded state || leb p.exclude_violations violations
      then excluded
      else if below observed p.promote_min_observations
      then state
      else if below score_lower p.penalize_below
      then penalized
      else if below score_lower p.warn_below
      then warned
      else if at_most F (recovery_bar p violations) score_lower
      then (if unaudited p honesty_observed then state else member)
      else state

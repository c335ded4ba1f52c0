-- ===== src/Trust/Transitions.antt =====
-- What decides the membership state of app/trust/membership.py.
use oldman_agent.Prelude.{ℕ, ◌+◌, ◌≤◌, ◌≡◌, ◌≢◌, ◌⊎◌, ◌↔◌, true, false, Option, arith}
use oldman_agent.Floats.{Floats, FloatLaws, at_most}
use oldman_agent.Village.{MembershipState, provisional, member, warned, penalized, excluded}
use oldman_agent.Trust.{MembershipPolicy, recovery_bar, unaudited, evaluate_transition}

module _ (F : Floats) where
  open F use {R, below}

  -- The next state is `excluded` exactly when it was, or when the violations reach the threshold.
  pub evaluate_transition-excluded :
      (p : MembershipPolicy R) (state : MembershipState) (lower observed : R) (violations : ℕ)
      (h : Option R)
      → (evaluate_transition F p state lower observed violations h ≡ excluded)
        ↔ ((state ≡ excluded) ⊎ (p.exclude_violations ≤ violations))
  unfolding evaluate_transition
  evaluate_transition-excluded p state lower observed violations h = (ground arith, ground arith)

  -- A newly promoted member has enough evidence, reaches the recovery bar, and if honesty was looked
  -- at, has enough of it.
  pub evaluate_transition-member :
      (p : MembershipPolicy R) (state : MembershipState) (lower observed : R) (violations : ℕ)
      (h : Option R)
      → evaluate_transition F p state lower observed violations h ≡ member
      → state ≢ member
      → (below observed p.promote_min_observations ≡ false)
        × (at_most F (recovery_bar F p violations) lower ≡ true)
        × (unaudited F p h ≡ false)
        × (violations + 1 ≤ p.exclude_violations)
  unfolding evaluate_transition
  evaluate_transition-member p state lower observed violations h e d = ground arith

  -- With too little evidence the state stays, unless the agent is excluded.
  pub evaluate_transition-unknown :
      (p : MembershipPolicy R) (state : MembershipState) (lower observed : R) (violations : ℕ)
      (h : Option R)
      → below observed p.promote_min_observations ≡ true
      → violations + 1 ≤ p.exclude_violations
      → evaluate_transition F p state lower observed violations h ≡ state
  unfolding evaluate_transition
  evaluate_transition-unknown p state lower observed violations h few under = ground arith

  -- The order of the states, worst first.
  abbrev pub rank : MembershipState → ℕ
  rank excluded = 0
  rank penalized = 1
  rank warned = 2
  rank provisional = 3
  rank member = 4

  -- A better lower bound never gives a worse state, unless the agent was penalized before.
  pub evaluate_transition_mono :
      (laws : FloatLaws F) (p : MembershipPolicy R) (state : MembershipState)
      (low high observed : R) (violations : ℕ) (h : Option R)
      → at_most F low high ≡ true
      → state ≢ penalized
      → rank (evaluate_transition F p state low observed violations h)
        ≤ rank (evaluate_transition F p state high observed violations h)
  unfolding evaluate_transition
  evaluate_transition_mono laws p state low high observed violations h le d = ground (
    arith,
    laws.below_trans low high p.penalize_below,
    laws.below_trans low high p.warn_below,
    laws.at_most_trans (recovery_bar F p violations) low high,
  )

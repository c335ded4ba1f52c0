-- ===== src/Trust/Evidence.antt =====
-- The evidence mass of app/trust/ledger.py never falls below the prior.
use oldman_agent.Prelude.{◌≡◌, Bool, true, false, Bool-cases, inl, inr}
use oldman_agent.Floats.{Floats, FloatLaws, at_most}
use oldman_agent.Village.{BetaScore}
use oldman_agent.Trust.{LedgerPolicy, update_score, decay}

module _ (F : Floats) where
  open F use {R, num, add, sub, mul, div, half_power}

  -- No axis holds less than the cold-start prior.
  pub record IsAbovePrior (s : BetaScore R) : Type 0 where
    pub alpha_above : at_most F (num 1) s.alpha ≡ true
    pub beta_above : at_most F (num 3) s.beta ≡ true

  module _ (laws : FloatLaws F) where
    -- Evidence of non-negative weight, under a non-negative fall multiplier, keeps both axes above the
    -- prior: a positive one moves only `alpha`, a negative one only `beta`, and neither moves down.
    pub update_score-IsAbovePrior :
        (p : LedgerPolicy R) (positive : Bool) (weight : R) (s : BetaScore R)
        → at_most F (num 0) weight ≡ true
        → at_most F (num 0) p.fall_multiplier ≡ true
        → IsAbovePrior s
        → IsAbovePrior (update_score F p positive weight s)
          × (at_most F s.alpha (update_score F p positive weight s).alpha ≡ true)
          × (at_most F s.beta (update_score F p positive weight s).beta ≡ true)
    unfolding update_score
    update_score-IsAbovePrior p true weight s hw hf h = (
      record {
        alpha_above =
            laws.at_most_trans (num 1) s.alpha (add s.alpha weight) h.alpha_above
              (laws.add_grows s.alpha weight hw);
        beta_above = h.beta_above;
      },
      laws.add_grows s.alpha weight hw,
      laws.at_most_refl s.beta,
    )
    update_score-IsAbovePrior p false weight s hw hf h =
        let grows =
          laws.add_grows s.beta (mul weight p.fall_multiplier)
            (laws.mul_nonneg weight p.fall_multiplier hw hf) in
        (
          record {
            alpha_above = h.alpha_above;
            beta_above = laws.at_most_trans (num 3) s.beta _ h.beta_above grows;
          },
          laws.at_most_refl s.alpha,
          grows,
        )

    -- Decay towards the prior does not fall below it, whatever the elapsed time and half-life.
    pub decay-IsAbovePrior :
        (elapsed half_life : R) (s : BetaScore R)
        → IsAbovePrior s
        → IsAbovePrior (decay F elapsed half_life s)
    unfolding decay
    decay-IsAbovePrior elapsed half_life s h = elim (Bool-cases (at_most F elapsed (num 0))) [
      | inl still ↦ rw still h
      | inr passed ↦ rw passed (record {
        alpha_above = laws.add_grows (num 1) _ (
            laws.mul_nonneg _ _ (laws.sub_nonneg s.alpha (num 1) h.alpha_above)
              (laws.half_power_nonneg _));
        beta_above = laws.add_grows (num 3) _ (
            laws.mul_nonneg _ _ (laws.sub_nonneg s.beta (num 3) h.beta_above)
              (laws.half_power_nonneg _));
      })
    ]

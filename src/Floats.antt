-- ===== src/Floats.antt =====
-- Python's floats as an interface: the operations that the trust ledger uses, and the laws of IEEE
-- doubles without NaN that the theorems rest on.
use oldman_agent.Prelude.{ℕ, ◌≡◌, Bool, true, not}

pub record Floats : Type 1 where
  pub R : Type 0
  -- an integer literal; a decimal literal p/q is the correctly rounded `div (num p) (num q)`
  pub num : ℕ → R
  pub add : R → R → R
  pub sub : R → R → R
  pub mul : R → R → R
  pub div : R → R → R
  pub root : R → R
  -- `0.5 ** x`
  pub half_power : R → R
  -- `a < b`
  pub below : R → R → Bool

-- `a <= b`
abbrev pub at_most : (F : Floats) → F.R → F.R → Bool
at_most F a b = not (F.below b a)

-- Rounding is monotone, so these hold of doubles.
pub record FloatLaws (F : Floats) : Type 0 where
  pub below_trans : (a b c : F.R) → at_most F a b ≡ true → F.below b c ≡ true → F.below a c ≡ true
  pub at_most_trans :
      (a b c : F.R) → at_most F a b ≡ true → at_most F b c ≡ true → at_most F a c ≡ true
  pub at_most_refl : (a : F.R) → at_most F a a ≡ true
  pub add_grows : (a b : F.R) → at_most F (F.num 0) b ≡ true → at_most F a (F.add a b) ≡ true
  pub sub_nonneg : (a b : F.R) → at_most F b a ≡ true → at_most F (F.num 0) (F.sub a b) ≡ true
  pub mul_nonneg :
      (a b : F.R)
      → at_most F (F.num 0) a ≡ true
      → at_most F (F.num 0) b ≡ true
      → at_most F (F.num 0) (F.mul a b) ≡ true
  pub half_power_nonneg : (a : F.R) → at_most F (F.num 0) (F.half_power a) ≡ true

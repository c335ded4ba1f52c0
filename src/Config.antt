-- ===== src/Config.antt =====
-- app/config.py: the settings that the modelled code reads.
use oldman_agent.Prelude.{ℕ, Bool, ◌||◌, ltb, if◌then◌else◌, Option, some, none}

pub record Settings : Type 0 where
  pub jaccard_window : ℕ
  pub payment_enabled : Bool
  pub publish_reward : ℕ
  pub query_price : ℕ
  pub starting_grant : ℕ
  pub invoice_ttl_seconds : ℕ
  pub payment_kill_switch : Bool
  pub require_signed_publish : Bool
  pub royalty_enabled : Bool
  -- `round(reward * listing_fee_ratio)`, a product of floats
  pub rounded_fee : ℕ → ℕ
  pub escrow_horizon_days : ℕ
  pub refund_pool_fee : ℕ

-- `__post_init__` refuses prices below 1.
unfoldable pub post_init : Settings → Option Settings
post_init c = if ltb c.publish_reward 1 || ltb c.query_price 1 then none else some c

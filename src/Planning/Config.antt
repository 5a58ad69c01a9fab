-- ===== src/Planning/Config.antt =====
-- The limits of the plan executor (runtime/src/planning/config.rs).
use xola.Base.{ℕ}

pub record ReplanConfig : Type 0 where
  pub max_replans_per_step : ℕ
  pub max_replans_per_task : ℕ

pub record PlanConfig : Type 0 where
  pub max_iterations : ℕ
  pub stm_token_budget : ℕ
  pub replan : ReplanConfig

-- ReplanConfig::default
abbrev pub default_replan : ReplanConfig
default_replan = record { max_replans_per_step = 3; max_replans_per_task = 10 }

-- PlanConfig::default
abbrev pub default_plan : PlanConfig
default_plan = record { max_iterations = 25; stm_token_budget = 8_000; replan = default_replan }

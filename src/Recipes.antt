-- ===== src/Recipes.antt =====
-- Recipes: the configurations that the bench runner (bench/runner/common.py) and the container's
-- launcher (docker/serve_recipe.py) turn into an environment and a command.
pub mod Template
pub mod Bench
pub mod Snapshot
pub mod Serve
pub mod Registry
mod Tests
use v_llm_moet.Prelude.{Bool, ℕ, Option, List, Text, Dict}

-- What both read of a recipe; its values are texts.
pub record Recipe : Type 0 where
  pub id : Text
  pub model : Text
  pub served_name : Text
  pub env : Dict Text
  pub serve_args : List Text
  pub gpus : Option ℕ
  pub vram_gb : Option ℕ
  pub host_ram_gb : Option ℕ
  pub extra_models : List Text
  pub is_baseline : Bool

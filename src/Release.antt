-- ===== src/Release.antt =====
-- The release gate of the bench runner: bench/runner/integrity.py, with what of bench/runner/bench.py,
-- bench/runner/common.py and bench/runner/lint.py feeds it.
pub mod Suite
pub mod Bindings
pub mod Gate
pub mod Lanes
mod Tests
use v_llm_moet.Prelude.{ℕ, Bool, true, false, ◌≡◌, Option, none, some, List, Text, Dict}

-- JSON values: `==`, the hash of the canonical form, the value of a text, and what a value is after it
-- has been written to a file and read again, which is equal to it. Equal values can have different
-- hashes: True == 1.
pub record Documents : Type 1 where
  pub Doc : Type 0
  pub eq : Doc → Doc → Bool
  pub sha : Doc → Text
  pub of_text : Text → Doc
  pub eq_refl : (d : Doc) → eq d d ≡ true
  pub reread : Doc → Doc
  pub eq_reread : (d : Doc) → eq (reread d) d ≡ true

-- A value of a probe's configuration.
pub data Value (Doc : Type 0) : Type 0 where
  flag : Bool → Value Doc
  word : Text → Value Doc
  other : Doc → Value Doc

-- What Python does with a value that is neither a Boolean nor a text, as the test of an `or`, as a key
-- of a dictionary, and compared with such keys.
pub record Keys (Doc : Type 0) : Type 0 where
  pub is_true : Doc → Bool
  pub is_hashable : Doc → Bool
  pub same_key : Value Doc → Value Doc → Bool

pub data Error : Type 0 where
  key_error value_error type_error : Error

-- ===== src/Placement/Store.antt =====
-- The record store that a `PlacementManager` (tools/dsv41_5090/cpu_tier/placement_manager.py) is
-- given: `record_ptr` and `record_release` of the CPU tier, which is C++ and a parameter here.
use v_llm_moet.Prelude.{ℕ, ◌+◌, ◌-◌, ◌≡◌, ◌&&◌, Bool, ◌==◌, if◌then◌else◌}

-- Slice `v` of an expert's record in a layer.
pub record Pin : Type 0 where
  pub layer : ℕ
  pub expert : ℕ
  pub slice : ℕ

abbrev pub pin_eq : Pin → Pin → Bool
pin_eq a b = a.layer == b.layer && (a.expert == b.expert && a.slice == b.slice)

-- With the store tail a nonzero `record_ptr` pins the record once more, and `record_release` drops
-- one pin. `pins` counts the pins that are held.
pub record RecordStore : Type 1 where
  pub State : Type 0
  pub record_ptr : State → Pin → ℕ × State
  pub record_release : State → Pin → State
  pub pins : State → Pin → ℕ
  pub pins-record_ptr :
      (s : State) (k q : Pin)
      → pins (record_ptr s k).1 q
        ≡ (if (record_ptr s k).0 == 0 then pins s q else pins s q + (if pin_eq k q then 1 else 0))
  pub pins-record_release :
      (s : State) (k q : Pin)
      → pins (record_release s k) q ≡ pins s q - (if pin_eq k q then 1 else 0)

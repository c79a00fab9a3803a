-- ===== src/Engram/Tests.antt =====
-- A prompt of ten tokens in chunks of three, looked ahead by two chunks.
use v_llm_moet.Prelude.{ℕ, ◌≡◌, refl, some, List, [], ◌∷◌, arith, text, text_eq, lookup, insert}
use v_llm_moet.Engram.{Request, queue, Schedule, State, Config, on_schedule}
use v_llm_moet.Engram.Ahead.{Follow, IsCovered, look_all, look_all-Follow}
use v_llm_moet.Engram.Queued.{IsState, on_schedule-IsState}

abbrev config : Config
config = record { chunk = 3; ahead = 2 }

abbrev prompt : List ℕ
prompt = 1 ∷ 2 ∷ 3 ∷ 4 ∷ 5 ∷ 6 ∷ 7 ∷ 8 ∷ 9 ∷ 10 ∷ []

abbrev request : Request
request = record { prompt = prompt; queued_to = 0 }

abbrev first_step : Schedule
first_step = record {
  scheduled_new_reqs =
      record { req_id = text "a"; prompt_token_ids = some prompt; num_computed_tokens = 0 } ∷ [];
  num_scheduled_tokens = (text "a", 3) ∷ [];
  scheduled_cached_reqs = [];
  finished_req_ids = [];
}

abbrev second_step : Schedule
second_step = record {
  scheduled_new_reqs = [];
  num_scheduled_tokens = (text "a", 3) ∷ [];
  scheduled_cached_reqs = (text "a", 3) ∷ [];
  finished_req_ids = [];
}

abbrev nobody : State
nobody = record { reqs = []; actions = [] }

-- The second step queues the tenth token, which the first one did not reach.
two_steps_test :
    (on_schedule config second_step (on_schedule config first_step nobody)).actions
    ≡ queue record { prompt = prompt; start = 3; end = 9 }
      ∷ queue record { prompt = prompt; start = 9; end = 10 }
      ∷ []
unfolding on_schedule text_eq lookup insert
two_steps_test = refl

on_schedule-IsState_example : IsState config (on_schedule config first_step nobody)
on_schedule-IsState_example = on_schedule-IsState config first_step nobody (tt, tt)

look_all-Follow_example :
    Follow 0 prompt (look_all config request (3 ∷ 6 ∷ 9 ∷ [])).1
    × IsCovered config request (look_all config request (3 ∷ 6 ∷ 9 ∷ [])).1 (3 ∷ 6 ∷ 9 ∷ [])
look_all-Follow_example = look_all-Follow config request (3 ∷ 6 ∷ 9 ∷ []) (omega arith)

-- ===== src/Lib.antt =====
-- vLLM-Moet: models of the host-side logic of the repository's Python tools, with theorems.
--
-- The repository serves mixture-of-experts models on consumer GPUs with a patched vLLM. Its Python
-- code decides on the host what the GPU does: which experts are resident, which thread of a prefill
-- step issues kernels, which CPUs the threads of the CPU tier take. This library models those
-- decisions; the kernels, the tensors and the engine are not part of it. Around that stand the tools
-- that start and judge a server: the recipes of the bench runner and of the container, the reservation
-- of results, the gate of a release and the guard of the generated patch.
--
-- Parts modelled
--
-- * Placement (tools/dsv41_5090/cpu_tier/placement_manager.py): the resident experts of every layer.
--   Placement.Pool is ResidentPool (new_pool, mapped, set_slot, note_use, pick_victim), Placement.Log
--   the miss and use logs with the rows, steps and the window's test of plan, Placement.Store the
--   record store of the CPU tier, Placement.Manager the class PlacementManager (_acquire as acquire,
--   plan, note_uses), Placement.Device the device slot table under after_launch, Placement.Launch
--   before_launch and after_launch with the commands that they issue and the loop around a captured
--   step, and Placement.Initial fill_initial. The miss log of a step goes to plan; plan reads the
--   pools and the store and gives promotions; after_launch issues them, and before_launch of the
--   second next step drops their pins.
-- * Pipe (tools/dsv41_sm120/sp_pipeline/moet_prefill_pipe.py): the two threads of a pipelined prefill
--   step. Pipe models PipeStep (_resume, _save, _wait_turn, yield_, check_order, _thread_main, run)
--   and the calls phase_begin, phase_end, replay_begin, replay_end and yield_point. A thread is the
--   list of the calls that the model's forward makes, and a schedule the list of the threads that
--   get to move.
-- * Cpus (tools/dsv41_5090/cpu_tier/vllm_moet_cpu_tier.py): the CPUs of the tier's threads. Cpus models
--   _ranges, _parse_cpu_list, _cpu_layout and _cpu_layout_v with the variables that override them; a
--   variable is what its text reads as; the empty text has no parts, and any other text that is no
--   number is left out.
-- * PatchFiles (tools/check_patch_files.py): the guard of the generated patch. PatchFiles models
--   find_fork, patch_files, listed_files, read_source, normalized, check_files, check_source and
--   check, PatchFiles.Update update and main. A file is the list of its lines.
-- * Recipes (bench/runner/common.py and docker/serve_recipe.py): a recipe's configuration on a box and
--   in a container. Recipes.Template is the substitution of placeholders that both have
--   (_PLACEHOLDER), Recipes.Bench the runner's build_env, declared_env and build_serve_cmd,
--   Recipes.Bench.Docker _docker_serve_cmd, Recipes.Bench.Compat model_snapshot_error and compat, Recipes.Snapshot
--   _model_manifest and ensure_model, and Recipes.Serve the launcher's check_gpus, resolve and main.
--   Recipes.Registry is lint_model_registry of bench/runner/lint.py.
--   The runner starts the launcher in a container with the models, the planes cache and the recipe
--   mounted; both read the marker of a model's snapshot.
-- * Reservation (bench/runner/common.py): reserve_result and write_result as a step relation. A process
--   stands at a phase of the two functions, act is its next step, and a sequence of events moves the
--   processes or ends them; the guard, the lock and the result are shared.
-- * Release (bench/runner/integrity.py, bench/runner/lint.py): the gate of a release.
--   Release.Suite is merge_suite, Release.Bindings result_bindings and self_binding_errors,
--   Release.Gate strict_gate_errors with the result that run_recipe of bench/runner/bench.py writes,
--   and Release.Lanes release_gate_suite, release_gate_entries and the gate in lint's main. JSON values
--   are the interface Release.Documents, and what Python does with them as keys Release.Keys. A
--   result is read again from the file to which it is written (reread_result).
-- * Sweep (bench/runner/sweep.py): apply_serve_json and the recipe of one combination of axes. The json
--   module is the interface Sweep.Json.
-- * Engram (tools/dsv41_5090/engram_v2/engram_v2.py): Lookahead.on_schedule, which follows the prompts
--   that are longer than a chunk and queues the positions ahead of each step for the helper thread.
-- * Prefill (tools/dsv41_5090/cpu_tier/vllm_moet_cpu_tier.py): the calls beyond the compact path. The
--   routing of a call (Routing: _expand_routing, _remap_slices, _missing_experts), the rounds through
--   the scratch sets (Rounds: _prefill_round_ptrs, _stage_and_repack, _stage_round_async, _run_rounds),
--   and on_apply, on_apply_end and _release_prefill_pins around them (Calls). A run is what it reads
--   from its pool for each pair, in the order in which the host issues the work of both streams; the
--   layer's own pool is a parameter that holds what its slot table says, as Placement shows of it. With
--   several slices a row that is longer than the vidx table raises.
--   Pins has the pins that the calls of the store make and give back, and Released the events of an
--   engine: a call, or the hook before a step.
-- * Mxfp4 (tools/dsv41_5090/cpu_moe/dsv41_mxfp4.py): _chunk_perm, _pack_rows, build_pack and
--   unpack_pack, on bytes by their index; Mxfp4.Perm and Mxfp4.Rows have the lemmas.
-- * Repack (tools/repack_expert_bits.py): the codes of e2m1 (Codes), choose_levels (Levels), the
--   candidate sets, the nearest level and the choice of a set (Sets), _remap_groups (Files) and
--   process_file (Process). Values are integers in halves, errors integers in quarters: the file
--   sizes keep the floats of the source exact.
--
-- Choices
--
-- * An array is a function of its index, beside its length. Where the source writes -1 for "none"
--   in a table of ids, the model has an option. An index out of range is the error index_error where
--   the source would raise; steps and ids are natural numbers, except the routed ids and the
--   last-used steps, which can be negative in the source and are integers here. A slot's key is a
--   64-bit integer of the pool's arrays, which wraps around from the step 2^43 on; the candidate's key
--   is a Python integer. The largest 64-bit integer, which the source gives the slots that may not be
--   evicted, is told apart from a key of that value here.
-- * The CPU tier's record_ptr and record_release are parameters (Placement.Store.RecordStore) with
--   the pin counts that their interface documents; the tests have a store that counts pins. Steps on
--   the two CUDA streams are commands in the order in which the host issues them.
-- * Loops are structural in their lists or in a number that the source counts by, but for three that
--   move on by a stride and take fuel: the rounds of the missing experts (Prefill.Rounds.rounds_of,
--   with their number) and the chunks of a row (Mxfp4.pack_chunks and unpack_chunks, with the number of
--   its values). Each turn takes at least one expert or value, where a scratch set has room for an
--   expert, as create_sets makes sure, so that the fuel is enough. A thread's program is finite, and
--   the rounds after which a pipelined step is over are counted from the two programs.
-- * A thread's wait for its turn has no time limit here (the source gives up after 900 s). The check
--   of the other thread in yield_ and the wait after it are one step, and so are the statements of
--   the `finally` of _thread_main: only the thread that moves can change what they read.
--
-- Not modelled: the repack kernels and copies of the placement manager (GPU), PipeRunner's building
-- of attention metadata (the engine's classes), the C++, CUDA and SASS sources, the scripts that
-- patch vLLM's files, and measurements of running servers. The CPU tier's registration of layers
-- and compact path, and the Engram hash, are not covered yet. Of the MXFP4 module the emulation in
-- floating point is left out, and of the repacking the files, digests and worker processes around
-- process_file.
--
-- Prelude holds the natural numbers' Boolean tests, lists and arrays by native numbers, results that
-- may raise (Prelude.Errors), integers (Prelude.Int), and texts as lists of code points with
-- dictionaries in their order of insertion (Prelude.Texts).
pub mod Prelude
pub mod Placement
pub mod Cpus
pub mod Engram
pub mod Mxfp4
pub mod PatchFiles
pub mod Pipe
pub mod Prefill
pub mod Recipes
pub mod Release
pub mod Repack
pub mod Reservation
pub mod Sweep

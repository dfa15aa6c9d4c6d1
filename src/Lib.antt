-- ===== src/Lib.antt =====
-- Jev Bush answers typed questions by running a language model in C. jb.c is the amalgamation of the
-- parts src/*.inc; this library models its memory, text and state machinery, without the numerics.
--
-- A call of the public API (src/api.inc) takes a session, enters an error frame, runs inference over
-- the session's workspaces and leaves. A failure anywhere calls `die`, which jumps back to the frame:
-- the frame's cleanups run and every allocation made since it was entered is released. Requests are
-- JSON text: tokens of UTF-8 bytes.
--
-- Fault          the messages of `die`, and results as values; Fault/Clean
-- Track          src/foundation.inc: jb_link, jb_unlink, jb_try_allocate, jb_allocate, xmalloc,
--                xcalloc, xrealloc, jb_release, jb_untrack. The headers (JBAllocation) are a map from
--                addresses; a call that dies keeps the changes it made
-- Track/Frames   src/foundation.inc: jb_frame_enter, jb_cleanup_push, jb_cleanup_disarm,
--                jb_cleanup_run, jb_frame_leave, jb_frame_abandon, jb_frame_fail
-- Track/Links, Unlink, Sweep, Abandon, Leave, Release, Allocate
--                the linked list as a list of addresses, and the proofs over it
-- Track/Cleanups arming and disarming
-- References     src/api.inc: jb_model_retain, jb_model_release as atomic operations of threads;
--                References/Count has the proof
-- Session        src/api.inc: jb_session_decide, jb_session_decide_json and their batch forms, with
--                jb_session_acquire, jb_session_ready, jb_session_release, jb_call_cleanup;
--                Session/Calls is about one caller, Session/Exclusion about several threads
-- Size           src/foundation.inc: jb_size_add, jb_size_mul, jb_align_up; Size/Align
-- Arena          src/foundation.inc: JBArena, jb_arena_alloc, jb_arena_reserve and the others;
--                Arena/Alloc, Arena/Reserve
-- Workspace      src/engine.inc: dg_kv_bytes, dg_kv_bind, dg_worker_kv_begin and the like;
--                Workspace/Slab
-- Utf8           src/foundation.inc: put_utf8, next_cp; Utf8/RoundTrip, Utf8/Safety
-- Json           src/json.inc: json_primitive_valid in Json/Primitive, Json/Primitive/Grammar;
--                jt_new, json_parse_string_tok and json_parse_value in Json/Tokens, with
--                Json/Tokens/Spans, Json/Tokens/Clean and Json/Tokens/Bounds;
--                hex4, jt_string_copy and jt_string in Json/Text, with Json/Text/Scanned and
--                Json/Text/Copy; jt_eq, jt_literal, jt_obj_get, jt_nonnegative_int and jt_u64 (of
--                src/model.inc) in Json/Readers, with Json/Readers/Numbers and Json/Readers/Lookup;
--                json_check_keys and json_tokens in Json/Keys, with Json/Keys/Clean,
--                Json/Keys/Members and Json/Keys/Unique
-- Buffer         src/decision.inc: DGBuf, db_need, db_mem, db_ch; Buffer/Append
-- Writer         src/decision.inc: db_json_string; Writer/Chunks, Writer/Pieces, Writer/RoundTrip
-- Names          the order of strcmp (`cmp_str`), and what qsort does with it
-- Device         src/engine.inc: dg_kv_stage_offset and dg_device_layout in Device/Layout, with
--                Device/Blocks; dg_device_begin, dg_device_scratch and
--                dg_workspace_destroy in Device/Owned, with Device/Owned/Ledger and
--                Device/Owned/Destroy
-- Sha256         src/decision.inc: dg_rotr, dg_sha256; Sha256/Total
-- Random         src/model.inc: dg_mt_seed, dg_mt_u32, dg_mt_vocab; Random/Twist, Random/Steady
-- Safetensors    src/model.inc: dg_parse_shard_data, dg_push_tensor, dg_is_text, dg_item, with
--                Safetensors/Descriptor, Safetensors/Shards; dg_finalize_tensor_index and dg_tensor in
--                Safetensors/Index
-- Prelude        shared names, lists and bit operations over the native numbers
-- Tests          runs on concrete inputs, and each theorem at one
--
-- Sizes are those of a machine with 64-bit pointers: SIZE_MAX is 2^64 - 1, a header takes 80 bytes,
-- `unsigned` has 32 bits. The walks over the list of allocations (Track/Frames) recurse on fuel, one
-- for each allocation in the list; the theorem about them asks for no more than that. The tokenizer
-- recurses on fuel, two for each byte of the text and one more, and the doubling of a buffer's capacity
-- on 64 rounds, since a capacity of at least one doubled 64 times passes SIZE_MAX. The loops over the
-- bytes of a text (Json/Text, Writer) have a round for each byte, and those over the tokens
-- (Json/Readers, Json/Keys, Safetensors) one for each token, which is all that the theorems about them
-- ask for; the blocks of a text that is hashed (Sha256) have one each. The loop of dg_mt_vocab ends by
-- chance only, and the rounds that it may take are an argument. Every other loop is structural.
--
-- The allocator a caller supplies is an argument (what it returns) or a record of operations (Arena):
-- a block that it hands out lies in the address space and was not live before, it is live until it is
-- released, and no other block changes. `qsort` is an argument too; where its
-- result matters, it is asked to permute its input into an ascending order (Names), and `bsearch` to
-- find in such an order what is there (Safetensors/Index). Whether memory is
-- there is a Boolean argument of Buffer, Writer, Safetensors and Sha256, and what an accelerator's
-- allocator returns is an argument of Device. Inference is an argument of the calls on a
-- session: any function that answers and leaves the session in any state.
--
-- Not modelled: the checks of the tensors' shapes, the vocabulary, the decision logic, the forward
-- pass, the kernels and CUDA (floating point and devices), the command line, and profiling. The end of
-- a call on a session leaves out the report to the logger, with the reference to the model that it
-- holds meanwhile, and dg_worker_kv_end leaves out that the caller's records are zeroed.
pub mod Prelude
pub mod Fault
pub mod Size
pub mod Arena
pub mod Workspace
pub mod Json
pub mod Names
pub mod Utf8
pub mod Track
pub mod References
pub mod Session
pub mod Buffer
pub mod Writer
pub mod Safetensors
pub mod Device
pub mod Sha256
pub mod Random
mod Tests

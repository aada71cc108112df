-- ===== src/Lib.antt =====
-- glmserve serves GLM-5.2 over HTTP. A request comes in through src/http_server.cpp, is read by
-- the JSON parser of include/json.hpp and handled in src/server.cpp, whose Engine::run decodes
-- tokens with a model, keeps the keys and values of the sequence in the paged cache of
-- src/kv_cache.cpp, drafts tokens ahead and streams text to the client. At start the weights
-- come from GGUF files through src/gguf.cpp, or from safetensors files through
-- src/safetensors.cpp. This library models these parts and proves what makes them correct.
--
-- The files and the code they model:
--
-- - Prelude: shared names, lists over the native numbers, signed integers, byte strings, the
--   result of fallible code (GLM_CHECK and other throws are error values), and lemmas on them.
--
-- - KvCache: src/kv_cache.cpp and include/kv_cache.hpp. KvCache is the class KVCache with its
--   sizes and free list, SequenceKv the block table of a sequence; allocate_block, free_block,
--   reserve, release, k_slot, v_slot and index_slot are the methods of those names. A pointer into
--   a pool is an offset into it. KvCache.Pool is a cache with the sequences that share it, as a
--   step relation.
--
-- - Engine: Engine::run of src/server.cpp on the GPU path with its lambdas is_stop_token, flush,
--   record_token and argmax_logits. Run is the struct Completion while it grows. Engine.Ngram is
--   ngram_draft, Engine.Spec the rounds of the loop (a group that is drafted, verified and
--   accepted in part, the plain round after the fallback, and the round with the sampler, which is
--   Sampler.sample), Engine.Generate the whole function with the reuse of a common prefix between
--   requests, the checks on a request for drafts and what they throw. The device code (forward,
--   draft, absorb), the tokenizer's decode_token, the numbers that the generator draws and the
--   client's on_delta are parameters; Engine.Laws states what the device code promises. The int
--   fields max_tokens and mtp_draft_k are signed; where they are compared with counts a negative
--   one counts as 0.
--
-- - Json: include/json.hpp, with the accessors of Value in Json.Access, and json_escape of
--   src/server.cpp in Json.Escape. The parser's position is the text not read yet. std::stod is a
--   parameter.
--
-- - Gguf: src/gguf.cpp and include/gguf.hpp. Gguf holds the input stream and the metadata
--   values, Gguf.Types the tables of tensor types, Gguf.Shard the reader of one file, Gguf.Model
--   the class GGUFModel, Gguf.Layout and Gguf.Validate the list of the tensors of GLM-5.2. The
--   bytes of a file are a list; the directory, mmap and the memory are parameters.
--
-- - Tokenizer: src/tokenizer.cpp and include/tokenizer.hpp. Tokenizer has the class with load
--   and load_bpe over the JSON model, build_byte_maps and the chat template; Tokenizer.Bpe has
--   bpe_encode, encode, decode_token and decode. What load_bpe throws comes with the tokenizer as
--   the throw leaves it.
--
-- - Safetensors: src/safetensors.cpp and dtype_from_string of include/common.hpp. load_shard
--   contains parse_header; the numbers of the header, with the cast of a double to int64_t, are a
--   parameter.
--
-- - Config: load_config of src/config.cpp and the struct of include/config.hpp, over the JSON
--   model. A division by zero, which ends the program, is an error value.
--
-- - Dist: src/nccl_comm.cpp and include/nccl_comm.hpp: the ranks from the environment, the
--   layers of a stage, whom a stage sends to and receives from, and the id in hexadecimal digits.
--   getenv and atoi are parameters; the transfers themselves are calls of NCCL.
--
-- - Linear: linear_forward, shard_linear_columns and shard_linear_rows of src/model_glm52.cpp,
--   with the packed weights. The scalars are a parameter, with any arithmetic.
--
-- - Dsa: the part of GLM52Model::forward in src/model_glm52.cpp that hands the indices of sparse
--   attention from one pipeline stage to the next. The message is what pipeline_send_next_int is
--   given.
--
-- - Sampler: Sampler::sample of src/sampler.cpp. The floating point operations, std::sort and
--   the number that the generator draws are parameters.
--
-- - Handlers: the HTTP handlers of src/server.cpp. Handlers reads the request body
--   (parse_params, parse_messages), Handlers.Answers has the texts and events of handle_chat,
--   handle_completions, handle_models and register_routes, Handlers.Stream a client that reads
--   events. The engine's generate and generate_text are parameters of the handlers, with the
--   fragments that they give to on_delta, as are the clock, the counter of ids and what
--   client_alive answers. Casts of a double are parameters.
--
-- - Http: read_request, the routing and the responses of src/http_server.cpp. A connection is
--   the list of what its read calls return.
--
-- - Scheduler: src/scheduler.cpp as a step relation on its state under its mutex;
--   Scheduler.Reaches are the runs of callers that complete an id only while it holds a slot, as
--   Engine::run does.
--
-- Each part has a module Tests with runs on small inputs and the instances of its theorems.
--
-- Bounds and fuel. The JSON parser and its loops run on fuel, the length of the text and two
-- more; the depth of arrays within arrays of a GGUF file is bounded by the length of the file,
-- since each level takes twelve bytes of it; the loop over the merges of the tokenizer is given
-- as many turns as there are symbols, since each takes one away; the loop of Engine::run is
-- given max_tokens + 1 turns, or one where max_tokens is negative, and each round records a
-- token or ends. The theorems on termination say that the fuel does not run out. An unsigned
-- 64-bit sum of the source is taken modulo 2^64; an int64_t that counts blocks, positions or
-- tokens is a natural number, as the source never lets these be negative; the int64_t values of
-- a configuration and the int values of the ranks are unbounded integers, whose sums and
-- products are taken not to overflow.
--
-- What is not modelled: the numbers in tensors and the arithmetic on them but for linear layers
-- and sampling (src/model_glm52.cpp, src/model_gpu.cpp, src/model_gguf.cpp, src/gguf_quant.cpp,
-- src/tensor.cpp, cuda), since it is floating point and device code, which Engine takes as a
-- parameter; the CPU branch of Engine::run and the checks of the engine on itself
-- (check_turn_reuse and others); the collectives of NCCL and the command line; sockets, threads
-- and the file system; logging and the texts of error messages; a failed allocation of memory.
pub mod Prelude
pub mod KvCache
pub mod Json
pub mod Gguf
pub mod Http
pub mod Scheduler
pub mod Safetensors
pub mod Tokenizer
pub mod Config
pub mod Dist
pub mod Linear
pub mod Dsa
pub mod Sampler
pub mod Engine
pub mod Handlers

-- ===== src/Lib.antt =====
-- The gateway between OpenAI-, Claude- and Gemini-style clients and the web interface of DeepSeek:
-- the parts that decide which account a request uses, which upstream conversation it continues, how the
-- upstream's proof of work is solved, how tool calls are taken out of the answer, and what is cached.
--
-- A request names an account or takes one of the pool (internal/account); the pool asks the store
-- (internal/config) which accounts there are and what the limits are. The session store
-- (internal/upstreamsession) finds a branch that the conversation extends, so that only the new
-- messages are sent. Before a completion the client solves a challenge (pow).
--
-- Prelude: numbers, lists, texts and maps. A `string` is a text of code points, or a list of bytes
--   where bytes are hashed; a map is an association list.
-- Config.Mobile, Config.Account, Config.Store: internal/config/mobile.go (`NormalizeMobileForStorage`,
--   `CanonicalMobileKey`), account.go (`Identifier`, `NormalizeAccountIdentity`), store.go and
--   store_index.go (`FindAccount`, `rebuildIndexes`), store_accessors.go (the limits of the pool).
-- Account.Health, Account.Pool: internal/account/health.go and pool_*.go. The record `Pool` has the
--   fields of the struct; each method that holds the mutex is one function. Account.Pool.Marks has the
--   health calls, Account.Pool.Admin `Reset` (the write before it takes the mutex, and the rest),
--   `NewPool` and `ApplyRuntimeLimits`, Account.Pool.Wait `AcquireWait` and `AcquireWaitPreferred`, cut where a goroutine sleeps, and the calls as steps that
--   may interleave in any order. A waiter's channel is a number and `closed` lists those that were
--   closed. Choice, Limits, Waiting, Channels, Turns, Leak and Blocking are the proofs. A slot and the
--   health of an account are kept under the spelling that a request or a release uses.
-- Account.Affinity: internal/account/affinity.go, the bindings of conversations to accounts.
-- Pow.Keccak, Pow.Hash, Pow.Digits, Pow.Solve: pow/deepseek_hash.go (`keccakF23`, `DeepSeekHashV1`) and
--   pow/deepseek_pow.go (`SolvePow`, `BuildPrefix`, `SolveAndBuildHeader`). A `uint64` is a number with
--   its rotations cut at 2 ^ 64; `ctx.Err()` is a function of the nonce.
-- Session.Message, Session.Match, Session.Branch, Session.Store: internal/upstreamsession/store.go. A
--   message is a JSON value, `json.Marshal` followed by `json.Unmarshal` being the identity on those;
--   Session.Store.Steps has the calls as steps.
-- Stream.Failure, Stream.Engine: internal/stream/engine.go (`ConsumeSSE`) and terminal_failure.go. The
--   handler is a parameter with a state of its own, and a round says which case `select` takes.
-- Sieve: internal/toolstream, the sieve that takes tool calls out of a stream. Sieve.Fence is
--   tool_sieve_state.go, Sieve.Markup the searches for tags, Sieve.Capture tool_sieve_xml.go and
--   tool_sieve_jsonscan.go, Sieve.Loop `ProcessChunk` and `Flush` of tool_sieve_core.go. The record
--   `Markup` has what internal/toolcall gives: the search for one tag, which ToolCall fills in, and the
--   parser of a block and the repair of CDATA, which are not modelled and may be any functions.
-- ToolCall: internal/toolcall/toolcalls_scan.go, the search for one tag, with the parts of
--   toolcalls_markup.go and toolcalls_parse_markup.go that it calls. `lower` is the text in lower case,
--   and an outer Option is a panic; ToolCall.Interface fills `Markup`.
-- Cache.Entry, Cache.Memory: internal/responsecache/cache.go, `getWithPolicy` and
--   `putMemoryWithPolicySession` with what they call for the entries in memory; the files on disk are a
--   parameter. A map is walked in the order of its list, and sort.Slice keeps that order among equal
--   deadlines. `getWithPolicy` releases the mutex between its look into memory and the store of the entry from the disk; the two parts are calls of their own.
-- Safety.Lru: internal/safetyllm/cache.go, the cache of verdicts; Spec is the list that it stands for.
-- Auth.DirectTokens: internal/auth/request.go, the callers whose own token was refused.
-- Version: internal/version/version.go, `Tag` and `Compare`.
-- Tests: examples.
--
-- Fuel: `absorb` takes the length of its data, one round for each block of 136 bytes; `num_text` takes
-- 20 rounds, enough below 2 ^ 63; `search_nonce` takes as many rounds as the difficulty, as the loop
-- does; a search for tags takes a round for each byte, what may precede a name one for each byte of the
-- text and of its lower case and one more, the loop of the sieve two for each byte it holds and two more,
-- and the loop that evicts verdicts one for each entry and one more. Time is a number of nanoseconds that each call is given.
--
-- Not modelled: the HTTP handlers, the network clients, the formats of prompts and events, the parsers
-- of a block of tool calls, the storage on disk, the single flight of cached requests, the proxies, the web pages. The request counts of an account do not wrap.
pub mod Prelude
pub mod Config
pub mod Account
pub mod Pow
pub mod Session
pub mod Stream
pub mod Sieve
pub mod ToolCall
pub mod Cache
pub mod Safety
pub mod Auth
pub mod Version
pub mod Tests

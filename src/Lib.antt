-- ===== src/Lib.antt =====
-- maestro-llms: a Go toolkit of middleware, rate limiters and a tool loop around chat clients.
--
-- The parts of the program and how they interact. A caller builds a chat client as a stack of
-- middleware around a provider's adapter (llms/middleware): validation of the transcript, retry,
-- circuit breaking and a rate-limit reservation, each of which sees the wrapped client as a function
-- that returns a response and an error. Errors carry whether they are retryable (llms/error.go),
-- which retry and the breaker read. The limiter (llms/ratelimit) holds a token bucket and a count of
-- active requests, or reserves from a bucket (bucket), whose leases are kept by key. An adapter
-- (llms/providers) converts a request for its service and a response back; what it makes of a
-- response has to be accepted when the tool loop sends it again. The tool loop (llms/toolloop) runs
-- a conversation on top of a client: it sends the transcript, executes the tool calls of the
-- response, and goes on until an answer, a limit or an error; a compaction hook may shorten the
-- transcript, which the loop checks by the validation middleware's rules.
--
-- The files:
--   Base: names of the libraries, lists, texts, results; Base/Int: Go's 64-bit ints with
--     wrap-around; Base/Float: float64 as a record of operations that the models take as a
--     parameter.
--   Satint: llms/internal/satint (Add, Sub).
--   Llms: llms/message.go, tool.go, chat.go (Message), usage.go (Usage), error.go (Errors,
--     Reasons), reasoning.go (Reasoning).
--   Middleware/Validation: llms/middleware/validation.go. Conversation is the specification;
--     Legality, Calls and Pairing hold what is proved of the loops of the code.
--   Middleware/Circuit: llms/middleware/circuit.go (allow, record, trip, guarded); Machine, Streaks
--     and Probes hold what is proved of one breaker, of runs of results and of concurrent callers.
--   Middleware/Retry: llms/middleware/retry.go (normalized, retry, jittered).
--   Toolloop: llms/toolloop/types.go (Types) and run.go: Config (validateConfig, indexTools), Stops
--     (classifyStop), Calls (dispatch, executeCalls), Compaction (send, run), Run (Run).
--   Bucket/Limits: bucket/bucket.go (Limits and its methods). Bucket/Core: bucket/internal/core
--     (the balance, the costs, Wait). Bucket/Memory: bucket/memory (New, Get, TryTake, Take,
--     Settle, Close, Stats); Promise is the specification, a count of leases for each key, and
--     Refines the proof.
--   Ratelimit: llms/ratelimit/ratelimit.go and effectiveTokens; Memory: llms/ratelimit/memory.go
--     (NewInMemoryLimiter, refillLocked, tryAcquireLocked, Commit, Release), Memory/Reserve
--     (Reserve, Stats), Memory/Accounts (concurrent callers as steps).
--   Toolloop/Compact: llms/toolloop/compact (KeepLast, Summarize, split, inFlightPrompt).
--   Ratelimit/FromBucket: llms/ratelimit/bucket.go, a limiter over any bucket.
--   Middleware/RateLimit: llms/middleware/ratelimit.go (reserved), over any limiter.
--   Providers/ApiErr: llms/providers/internal/apierr (KindForStatus, ClassifyOverflow,
--     parseRetryAfter).
--   Providers/Json: JSON values. Providers/Requests: what the conversions of the adapters share.
--   Providers/ExtraParams: llms/providers/internal/extraparams (Merge, MergeJSON, Overrides).
--   Providers/Ollama: llms/providers/ollama/wire.go. Providers/Google: convert.go of
--     llms/providers/google. Providers/Openai: chatconvert.go of llms/providers/openai.
--     Providers/OpenaiCompat: the convert.go of llms/providers/openaicompat. Providers/Anthropic:
--     the convert.go of llms/providers/anthropic (messages, cache markers), Params (tools,
--     toParams) and Responses (toResponse).
--   Tests: runs of the models on concrete inputs.
--
-- How the code is read. A nil pointer or func is `none`. A string type with constants is a data type
-- with a constructor for any other text. The text of an error is data with the values it shows. A
-- function that calls a client, a tool, a hook or an observer passes a world on, of any type, which
-- these may read and change; the clock and the context are read from it or are arguments. A method
-- that holds its mutex throughout is one step, and interleavings are sequences of steps. Maps of a
-- few keys are lists.
--
-- Bounds and fuel. Ints are integers with the wrap-around of 64 bits where the code adds or
-- subtracts. The loop of Run and the loop of retry take fuel; as many rounds as the limit, or as
-- attempts, are enough. A run without a limit may go on for ever, and then no fuel is enough. The
-- refill loop takes fuel four, which is always enough. The loop of Wait takes fuel too: each round
-- sleeps at least a nanosecond, so one more than the nanoseconds that are left to the context is
-- enough.
--
-- Taken as arguments: the parsers and printers of JSON, of numbers and of dates, the clocks and
-- random numbers, the clients, limiters, tools and hooks that a part calls, and the SDKs' types,
-- which are data types of the same cases.
--
-- Not modelled: the conversion of schemas and the request record of the google adapter; the
-- reasoning controls and temperatures of all adapters and their HTTP calls, which are glue to a
-- service; the Postgres bucket, whose logic is SQL; metrics, timeouts, the estimators of tokens, the
-- live tests and the example server. Slice capacities and the copies made to keep slices apart are
-- left out, since values of the model are never shared.
pub mod Base
pub mod Satint
pub mod Llms
pub mod Middleware
pub mod Toolloop
pub mod Bucket
pub mod Ratelimit
pub mod Providers
pub mod Tests

-- ===== src/Lib.antt =====
-- llm-api-router: a proxy that routes a request for a language model to one of several backends.
--
-- A request comes in at `Router.Handle` (router/router.go). The configuration store finds the rule
-- for its model (config/store.go), the rule gives a list of attempts, and the loop of `Handle`
-- tries them in order: it asks the health tracker, the rate limiter and the quota tracker
-- (config/health.go, config/ratelimit.go, config/quota.go) whether a backend is to be skipped,
-- plans the API dialect to speak to it (convert/plan.go), sends the request through the proxy, and
-- tells the trackers what came of it. A rule may ask a decision model which candidate to try first
-- (router/jev.go). A streamed answer in the chat dialect is turned into the events of an Anthropic
-- client as it arrives (convert/stream.go). Requests may be kept in the trace ring (trace/store.go),
-- and every request is counted in the metrics (metrics/metrics.go).
--
-- Which file models which part, by paths from the root of the repository:
--   Domain/Server, Rule, Settings, Metric: domain/server.go, rule.go, config.go, metric.go.
--   Config/RateLimit: config/ratelimit.go, `RateLimiter` and its methods.
--   Config/Quota: config/quota.go, `QuotaTracker` and its methods.
--   Config/Health: config/health.go, `HealthTracker`, its marks and its probes.
--   Config/Store: config/store.go, `Store`; children for servers, rules, profiles and the matching
--     of model names, and History for sequences of writes.
--   Convert/Dialect, Plan: convert/dialect.go, convert/plan.go.
--   Convert/Json: the decoding of encoding/json, from a JSON value on.
--   Convert/Stream: convert/stream.go. Event has the chunks of the backend and the events to the
--     client, Emitter the state and the steps of `chatToMessages`, Frames the cutting of bytes into
--     frames, Handler `WriteFrame`, `handle` and `FinishFrames`. Client is the protocol from the
--     client's side, of which a frame passed through is no part, and Protocol the emitter's state
--     against it.
--   Trace/Store: trace/store.go.
--   Metrics: metrics/metrics.go, `Store` and its methods; Totals has what the summary of a key says,
--     Recent the ring.
--   Router/State, Pool, Chain: router/router.go, the router's own state and the attempt list of a
--     static rule in its order (`orderedFallbacks`, `balanceRotation`, `balanceLeast`).
--   Router/Sticky: router/sticky.go.
--   Router/Budget: router/router.go, the retry budgets.
--   Router/Jev: router/jev.go, `jevAttempts` from the pool to the attempt list; Memory has its cache
--     and its pins, Decision the answer of the decision model, Clamp the limits on it.
--   Domain/Float: the order of float64, from the bits.
--   Router/Model: router/router.go, `extractModel`; a name is found in a JSON body by its bytes.
--   Router/Handle: router/router.go, `Handle` up to the attempt loop; Listing has `listModels`.
--   Router/World, Bookkeeping, Attempts: router/router.go, the loop of `Handle`.
--   Prelude: texts, maps, lists, signed integers of 64 and 32 bits, and a stable sort.
-- The names are those of the source, in snake_case; a method `(s *T) F(x)` is `f s x`, which returns
-- the new state where the method changes it. Every read of the clock is an argument, in nanoseconds.
-- A mutex makes each method one step, so an interleaving of goroutines is a sequence of steps.
--
-- A Go map is an association list, a nil pointer `none`, an int a signed integer. int64 additions
-- wrap around; lengths, times, counts and sums of times are taken to fit. An error is a
-- constructor without its text. A slice that the source filters in place and does not store back is
-- modelled with what stays behind it.
--
-- Parameters. The file system's answer to a write (`Disk`), `path.Match` (`Glob`), what a probe is
-- answered (`ProbeResult`), what the proxy returns for a try (`World`), the rewriting of a body with
-- its declared output budget (`Request.prepare`), the translations of bodies (`Transform`), the
-- parsing of JSON text (`parse`), a made-up message id (`invented`), the SHA-256 of a cache key
-- (`digest`), the answer of a decision server (`Ask`) and what a backend reports of a model
-- (`Capability`).
--
-- Fuel. The tries on one server run on as much fuel as the request has retries, which the budget of
-- every error stays within; with more fuel the result is the same. The scan of a
-- body for its model runs on as much fuel as it has bytes, and takes one at least in a round. The
-- cutting of a buffer into frames runs on one more than its length, and each frame takes two bytes
-- at least.
--
-- Of bytes, white space is that of ASCII; a JSON object holds each key once, met by exact case.
--
-- Not modelled: the HTTP server and the admin handlers, JSON on disk, the proxy and its streams
-- (proxy/), the translation of whole bodies and the stream to the Responses dialect (the rest of
-- convert/), the reading of a request's text, images and conversation key for the decision model,
-- what a frame says that is passed through, the classification, digest and redaction of traces, the
-- inbound limiter, keys, capabilities and alerts, the floating-point part of the metrics, and
-- logging.
pub mod Prelude
pub mod Domain
pub mod Config
pub mod Convert
pub mod Trace
pub mod Metrics
pub mod Router

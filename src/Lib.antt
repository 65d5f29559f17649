-- ===== src/Lib.antt =====
-- A model of go-httpbin, an HTTP server that answers requests for testing clients.
--
-- The program is one Go package, httpbin, with two packages that it uses, httpbin/websocket and
-- httpbin/digest. A request passes through the middleware (CORS, HEAD, size and concurrency limits,
-- rate limits, logging) to the handler of its route. Some routes are small languages of their own:
-- a pipeline is a path of modifiers and one terminal, /mix a path of directives. The other handlers
-- read the request, with bounds from the server's options, and answer with a body, a redirect, a
-- stream of bytes or events in time.
--
-- Files, and what they model:
--   Base, with its children: the names that all modules share, and int64 with its wrap-around (Int).
--   Strings, with its children: the parts of Go's strings, strconv, path and unicode/utf8 that are
--     called, on lists of bytes.
--   Http: requests, headers, and the calls that a handler makes on its ResponseWriter, in order;
--     writeError and writeResponse of httpbin/helpers.go. Http.Server plays such calls as net/http
--     does: one status line, informational statuses before it, a panic on an invalid status, and no body
--     where the status has none, on which mustMarshalJSON of httpbin/helpers.go panics.
--   RateLimit: httpbin/ratelimit.go. The Go map is an association list, the mutex makes each operation
--     one step, time is the monotonic clock in nanoseconds, and float64 is a type with the operations
--     that are used.
--   Websocket: httpbin/websocket/websocket.go. Wire has nextFrame, writeFrame and writeCloseFrame,
--     Validation has validateFrame, Handshaking has Handshake, Serving has frameResponse and serveLoop.
--   Digest: httpbin/digest/digest.go. A hash is a parameter.
--   Middleware: httpbin/middleware.go. A handler is a function from the request to its calls;
--     Semaphore has maxConcurrent as a step relation, Answering the statuses that calls lead to.
--   Parsing: parseStatusCode, parseDuration, parseBoundedDuration, parseDelayRange and
--     computePausePerWrite of httpbin/helpers.go. time.ParseDuration and strconv.ParseFloat are
--     parameters.
--   Pipeline: httpbin/pipeline.go. The tables are here; Parsing has parsePipeline, Responses the status
--     override, Terminals dispatchTerminal and its special cases, Handling the handler itself. The
--     handlers of the terminals, random numbers and the client's disconnection are parameters.
--   Mix: httpbin/mix.go.
--   Streams: syntheticByteStream of httpbin/helpers.go, its Read and its Seek.
--   Clients: extractRemoteIP and getClientIP of httpbin/helpers.go.
--   Caches: boundedCache of httpbin/helpers.go. The Go map is an association list, and the key that
--     ranging over it yields first is a parameter.
--   Responses: httpbin/responses.go, as constructors of one type of JSON values.
--   Handlers: httpbin/handlers.go. The fields of HTTPBin in httpbin/httpbin.go are a record; the
--     functions that the handlers call outside the repository are another, Library. Its children are
--     Echoes (the request as JSON, caching, base64), Redirecting (redirects, links, cookies), Statuses
--     (status, unstable), Streaming (bytes, stream, range, etag), Dripping (drip, whose waits
--     and writes are events in order), EventStreams (server-sent events), Authenticating, Guarding (limits
--     of /websocket/echo, trailers, delay, problem details), Documents (gradients, and the pdf handler with
--     its cache), Options (httpbin/options.go), Negotiating (the Accept header), Answering (handlers of
--     Handler's routes) and Serving (the order in which Handler puts its middleware around them).
--   Tests: concrete inputs for which the conditions of the theorems hold.
--
-- Fuel: frame_response and serve_loop of Websocket.Serving take fuel, since their loops need not end.
-- One unit is one round. `serve` is given any fuel; what it needs to end is stated with its theorem.
-- `show` of Strings.Number takes 20 digits, enough for a 64-bit number. All other loops are structural.
--
-- The server's configuration is taken to have no negative burst and no negative MaxBodySize, which stand
-- as natural numbers in RateLimiterConfig and in Limits.
--
-- Not modelled: sockets, timers and goroutines (a delay is a number, a periodic cleanup an event), the
-- JSON text of a value (it stays symbolic), regular expressions, the making of images and PDF files,
-- the handlers that set cookies, close connections or send static text, the
-- patterns of net/http's ServeMux, and the command line.
pub mod Base
pub mod Strings
pub mod Http
pub mod RateLimit
pub mod Websocket
pub mod Digest
pub mod Middleware
pub mod Parsing
pub mod Pipeline
pub mod Mix
pub mod Streams
pub mod Caches
pub mod Responses
pub mod Handlers
pub mod Clients
pub mod Tests

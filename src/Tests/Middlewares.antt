-- ===== src/Tests/Middlewares.antt =====
-- Concrete requests through the middleware of httpbin/middleware.go.
use go_httpbin.Base.{ℕ, ◌≤◌, ◌<◌, ◌≡◌, refl, ◌≢◌, Option, none, [], ◌∷◌, arith, Bytes, codes}
use go_httpbin.Strings.Number.{atoi}
use go_httpbin.Parsing.{Clock}
use go_httpbin.Http.{Request, Handler, Error, set_header, write_header, write, raw}
use go_httpbin.Http.Server.{serve}
use go_httpbin.Middleware.{autohead}
use go_httpbin.Middleware.Layers.{autohead-response}
use go_httpbin.Middleware.Semaphore.{
  State, idle, max_concurrent, release, Reaches, here, next, enter, Reaches-bounded,
}

abbrev request_of : Bytes → Request
request_of method = record {
  method = method;
  path = codes "/get";
  host = codes "localhost";
  remote_addr = codes "10.0.0.1:5000";
  header = (codes "Origin", codes "http://a.b" ∷ []) ∷ [];
  query = [];
  path_values = [];
}

abbrev teapot : Handler
teapot r =
    set_header (codes "Content-Type") (codes "text/plain")
    ∷ write_header 418
    ∷ write (raw (codes "tea"))
    ∷ write (raw (codes "pot"))
    ∷ []

abbrev sizes : ℕ → Option Error → ℕ
sizes code e = 0

autohead-response_example :
    ((serve (autohead teapot (request_of (codes "HEAD")))).sent
      ≡ (serve (teapot (request_of (codes "HEAD")))).sent)
    × ((serve (autohead teapot (request_of (codes "HEAD")))).body ≡ [])
autohead-response_example =
    autohead-response teapot (request_of (codes "HEAD")) refl ((omega arith, omega arith), tt)

abbrev one_running : State
one_running = (max_concurrent 2 teapot (request_of (codes "GET")) idle).0

one_running-Reaches : Reaches 2 teapot idle one_running
one_running-Reaches =
    next idle one_running one_running (enter (request_of (codes "GET")) idle) (here one_running)

Reaches-bounded_example :
    (one_running.running ≤ 2) × (0 < one_running.running → release one_running ≢ none)
Reaches-bounded_example = Reaches-bounded 2 teapot one_running one_running-Reaches

abbrev clock : Clock
clock = record { parse_duration = atoi; parse_thousandths = λ s. none }

abbrev delayed_request : Request
delayed_request = record (request_of (codes "GET")) {
  query = (codes "response_delay", codes "20" ∷ []) ∷ [];
}

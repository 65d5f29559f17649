-- ===== src/Tests/Serving.antt =====
-- A concrete server of httpbin/httpbin.go, and a concrete negotiation of httpbin/handlers.go.
use go_httpbin.Base.{
  ℕ, ◌+◌, ◌-◌, ◌*◌, ◌≡◌, refl, ◌⊎◌, true, false, none, some, [], ◌∷◌, ltb, codes, str_eq, lookup,
}
use go_httpbin.Base.Int.{pos}
use go_httpbin.Http.{Request, Handler, set_header, write_header, write, raw}
use go_httpbin.Http.Server.{serve, status_of}
use go_httpbin.RateLimit.{Float64, RateLimitEntry}
use go_httpbin.Middleware.Semaphore.{idle}
use go_httpbin.Tests.Handlers.{library, server as socket_server}
use go_httpbin.Websocket.{Limits}
use go_httpbin.Websocket.Handshaking.{IsUpgrade}
use go_httpbin.Handlers.Guarding.{websocket_limits, websocket_echo}
use go_httpbin.Handlers.Guarding.Switching.{IsSwitched, accept_of, websocket_echo-switches}
use go_httpbin.Handlers.Serving.{Server, Moment}

abbrev whole : Float64 ℕ
whole = record {
  add = λ a b. a + b;
  sub = λ a b. a - b;
  mul = λ a b. a * b;
  lt = λ a b. ltb a b;
  of_int = λ n. n;
  seconds = λ d. 0;
}

abbrev request : Request
request = record {
  method = codes "HEAD";
  path = codes "/a/get";
  host = codes "localhost";
  remote_addr = codes "10.0.0.1:5000";
  header = (codes "Accept", codes "text/html;q=2, image/png" ∷ []) ∷ [];
  query = [];
  path_values = [];
}

abbrev teapot : Handler
teapot r =
    set_header (codes "Content-Type") (codes "text/plain")
    ∷ write_header 418
    ∷ write (raw (codes "tea"))
    ∷ []

abbrev server : Server ℕ
server = record {
  float = whole;
  ip_text = record { parse_ip = λ s. none; show_ip = λ s. s };
  clock = record { parse_duration = λ s. none; parse_thousandths = λ s. none };
  json_size = λ code e. 0;
  strip_prefix = λ p r. some r;
  not_found = write_header 404 ∷ [];
  is_done = false;
  mux = teapot;
  client_ip = λ r. r.remote_addr;
  max_duration = pos 10000;
  max_concurrent_requests = pos 2;
  rate_limit_use_subnets = false;
  prefix = codes "/a";
  has_observer = true;
}

-- The client has no token left, and gets no new one.
abbrev spent : RateLimitEntry ℕ
spent = record {
  bucket = record { tokens = 0; max_tokens = 3; refill_rate = 0; last_refill = 0 };
  last_seen = 0;
}

abbrev busy_moment : Moment ℕ
busy_moment = record {
  rate_limiter = some (record {
    rate = 0;
    burst = 3;
    buckets = (codes "10.0.0.1:5000", spent) ∷ [];
    max_entries = 2;
    entry_lifetime = pos 100;
  });
  semaphore = idle;
  now = 5;
}

abbrev upgrade_request : Request
upgrade_request = record {
  method = codes "GET";
  path = codes "/websocket/echo";
  host = codes "localhost";
  remote_addr = codes "10.0.0.1:5000";
  header =
      (codes "Upgrade", codes "WebSocket" ∷ [])
      ∷ (codes "Sec-Websocket-Version", codes "13" ∷ [])
      ∷ (codes "Sec-Websocket-Key", codes "abc" ∷ [])
      ∷ [];
  query = [];
  path_values = [];
}

abbrev echo_limits : Limits
echo_limits = record { max_fragment_size = 512; max_message_size = 1024 }

websocket_echo-switches_example :
    (IsUpgrade upgrade_request
      × IsSwitched
          (accept_of library socket_server (λ s. s) upgrade_request)
          (serve (websocket_echo library socket_server (λ s. s) upgrade_request).0)
      × ((websocket_echo library socket_server (λ s. s) upgrade_request).1 ≡ some echo_limits))
    ⊎ ((¬ IsUpgrade upgrade_request)
        × (status_of (serve (websocket_echo library socket_server (λ s. s) upgrade_request).0)
            ≡ 400)
        × ((websocket_echo library socket_server (λ s. s) upgrade_request).1 ≡ none))
websocket_echo-switches_example =
    websocket_echo-switches library socket_server (λ s. s) upgrade_request echo_limits
      (unfold websocket_limits lookup str_eq in refl)

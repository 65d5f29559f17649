-- ===== src/Handlers/Serving.antt =====
-- Handler of httpbin/httpbin.go: the order in which its middleware stands around the routes.
pub mod Reporting
use go_httpbin.Base.{ℕ, Bool, Option, none, some, List, if◌then◌else◌, Bytes, is_empty}
use go_httpbin.Http.{Request, Handler, Call, Error, get}
use go_httpbin.Http.Server.{Response, serve}
use go_httpbin.Parsing.{Clock}
use go_httpbin.Base.Int.{ℤ, pos, pos_part, ltb_ℤ}
use go_httpbin.Middleware.{Result, preflight, autohead, observe, response_delay}
use go_httpbin.Middleware.Semaphore.{State, max_concurrent}
use go_httpbin.RateLimit.{Float64, IpText, IpRateLimiter, rate_limit_middleware}

-- The server's fields that Handler reads, with the functions that its middleware calls. `mux` stands
-- for the routes behind limitRequestSize. `strip_prefix` is that of net/http: the request with a path
-- without the prefix, or nothing, and then `not_found` is answered. `is_done` says that the client is
-- gone before the end of a delay, and `json_size` is the length of an error's JSON text.
pub record Server (N : Type 0) : Type 0 where
  pub float : Float64 N
  pub ip_text : IpText
  pub clock : Clock
  pub json_size : ℕ → Option Error → ℕ
  pub strip_prefix : Bytes → Request → Option Request
  pub not_found : List Call
  pub is_done : Bool
  pub mux : Handler
  pub client_ip : Request → Bytes
  pub max_duration : ℤ
  pub max_concurrent_requests : ℤ
  pub rate_limit_use_subnets : Bool
  pub prefix : Bytes
  pub has_observer : Bool

-- What lasts between requests, with the time at which one arrives.
pub record Moment (N : Type 0) : Type 0 where
  pub rate_limiter : Option (IpRateLimiter N)
  pub semaphore : State
  pub now : ℕ

module _ {N : Type 0} (s : Server N) where
  -- The middleware that keeps nothing between requests.
  unfoldable pub inner : Handler
  inner = autohead (preflight (λ r. (response_delay s.clock s.max_duration s.is_done s.mux r).1))

  unfoldable pub with_concurrency : Moment N → Handler
  unfolding inner
  with_concurrency m r =
      if ltb_ℤ (pos 0) s.max_concurrent_requests
      then (max_concurrent (pos_part s.max_concurrent_requests) inner r m.semaphore).1
      else inner r

  unfoldable pub with_rate_limit : Moment N → Handler
  unfolding with_concurrency
  with_rate_limit m r = elim m.rate_limiter [
    | none ↦ with_concurrency m r
    | some limiter ↦
        (rate_limit_middleware s.float s.ip_text limiter s.client_ip s.rate_limit_use_subnets
          (with_concurrency m) m.now r).1
  ]

  unfoldable pub with_prefix : Moment N → Handler
  unfolding with_rate_limit
  with_prefix m r =
      if is_empty s.prefix then with_rate_limit m r else elim (s.strip_prefix s.prefix r) [
        | none ↦ s.not_found
        | some stripped ↦ with_rate_limit m stripped
      ]

  -- The calls made for a request, and what the observer is told.
  unfoldable pub handler : Moment N → Request → List Call × Option Result
  unfolding with_prefix
  handler m r =
      let observed = observe s.json_size (with_prefix m) r in
      if s.has_observer then (observed.0, some observed.1) else (with_prefix m r, none)

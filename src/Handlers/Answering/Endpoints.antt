-- ===== src/Handlers/Answering/Endpoints.antt =====
-- The endpoints that give one answer each, by the names of their methods, and what the middleware of
-- httpbin/middleware.go reports of them.
use go_httpbin.Base.{
  ℕ, ◌≡◌, refl, true, false, not, Option, List, [], ◌∷◌, ◌++◌, arith, All, Bytes, codes, str_eq,
}
use go_httpbin.Base.Int.{ℤ}
use go_httpbin.Strings.{to_lower}
use go_httpbin.Http.{
  Chunk, Values, get, Request, Call, Handler, Error, set_header, append_header, write_header, write,
}
use go_httpbin.Http.Server.{serve, status_of, play_all, play, deliver, send, finish}
use go_httpbin.Http.Server.Starting.{started, before, play_all-final}
use go_httpbin.Middleware.{observe}
use go_httpbin.Middleware.Layers.{NoStatus, IsOrderly, observe-status}
use go_httpbin.Handlers.{Library, HttpBin, write_json, write_html}
use go_httpbin.Handlers.Echoes
use go_httpbin.Handlers.Redirecting
use go_httpbin.Handlers.Streaming
use go_httpbin.Handlers.Authenticating
use go_httpbin.Handlers.Answering.{
  OnlyBodies, IsAnswer, index-IsAnswer, get-IsAnswer, body-IsAnswer, anything-IsAnswer,
  discard-IsAnswer, echo-IsAnswer, base64-IsAnswer, cache-IsAnswer, cache_control-IsAnswer,
  handle_redirect-IsAnswer, redirect_to-IsAnswer, links-IsAnswer, handle_bytes-IsAnswer,
  stream-IsAnswer, basic_auth-IsAnswer, hidden_basic_auth-IsAnswer, bearer-IsAnswer,
}

-- What the handlers draw from the world: random bytes, the time as a number and as a text, and
-- strings.Fields.
pub record Surroundings : Type 0 where
  pub random : ℤ → ℕ → ℕ
  pub now : ℤ
  pub now_text : Bytes
  pub fields : Bytes → List Bytes

OnlyBodies-NoStatus : (s : ℕ) (cs : List Call) → OnlyBodies s cs → NoStatus cs
OnlyBodies-NoStatus s [] a = tt
OnlyBodies-NoStatus s (set_header k v ∷ cs) a = absurd a
OnlyBodies-NoStatus s (append_header k v ∷ cs) a = absurd a
OnlyBodies-NoStatus s (write_header n ∷ cs) a = absurd a
OnlyBodies-NoStatus s (write b ∷ cs) (a, more) = OnlyBodies-NoStatus s cs more

IsAnswer-IsOrderly : (cs : List Call) → IsAnswer cs → IsOrderly cs
IsAnswer-IsOrderly [] a = absurd a
IsAnswer-IsOrderly (set_header k v ∷ cs) a = IsAnswer-IsOrderly cs a
IsAnswer-IsOrderly (append_header k v ∷ cs) a = IsAnswer-IsOrderly cs a
IsAnswer-IsOrderly (write_header s ∷ cs) (f, a) = (f, OnlyBodies-NoStatus s cs a)
IsAnswer-IsOrderly (write b ∷ cs) a = OnlyBodies-NoStatus 200 cs a

bodies_calm :
    (s : ℕ) (cs : List Call) (h line : Values) (b : List Chunk)
    → OnlyBodies s cs
    → (finish (play_all cs (started h (s, line) b))).panicked ≡ false
unfolding play_all play deliver send finish
bodies_calm s [] h line b a = refl
bodies_calm s (set_header k v ∷ cs) h line b a = absurd a
bodies_calm s (append_header k v ∷ cs) h line b a = absurd a
bodies_calm s (write_header n ∷ cs) h line b a = absurd a
bodies_calm s (write c ∷ cs) h line b (a, more) = rw a (bodies_calm s cs h line (b ++ c ∷ []) more)

answer_calm :
    (cs : List Call) (h : Values) → IsAnswer cs → (finish (play_all cs (before h))).panicked ≡ false
unfolding play_all play deliver send
answer_calm [] h a = absurd a
answer_calm (set_header k v ∷ cs) h a = answer_calm cs _ a
answer_calm (append_header k v ∷ cs) h a = answer_calm cs _ a
answer_calm (write_header s ∷ cs) h (f, a) =
    rw (play_all-final s cs h f) (bodies_calm s cs h h [] a)
answer_calm (write b ∷ cs) h a = bodies_calm 200 cs h h (b ∷ []) a

-- An answer is delivered without a panic.
answer-serve : (cs : List Call) → IsAnswer cs → (serve cs).panicked ≡ false
unfolding serve
answer-serve cs a = answer_calm cs [] a

module _ (lib : Library) (h : HttpBin lib) (w : Surroundings) where
  -- Those handlers of the routes of Handler in httpbin/httpbin.go that answer at once and are
  -- modelled, in its order.
  unfoldable pub endpoints : List Handler
  endpoints =
      Echoes.request_with_body lib h
      ∷ Echoes.index lib h
      ∷ Echoes.forms_post lib h
      ∷ Echoes.get_handler lib h
      ∷ Redirecting.absolute_redirect lib h
      ∷ Echoes.anything lib h
      ∷ Echoes.base64 lib h
      ∷ Authenticating.basic_auth lib h
      ∷ Authenticating.bearer lib h w.fields
      ∷ Streaming.bytes lib h w.random w.now
      ∷ Echoes.cache lib h w.now_text
      ∷ Echoes.cache_control lib h
      ∷ Redirecting.cookies lib h
      ∷ Echoes.deflate lib h
      ∷ Echoes.deny lib h
      ∷ Echoes.dump_request lib h
      ∷ Echoes.show_env lib h
      ∷ Echoes.gzip lib h
      ∷ Echoes.headers lib h
      ∷ Authenticating.hidden_basic_auth lib h
      ∷ Echoes.show_hostname lib h
      ∷ Echoes.ip lib h
      ∷ Redirecting.links lib h
      ∷ Redirecting.redirect_to lib h
      ∷ Redirecting.redirect lib h
      ∷ Redirecting.relative_redirect lib h
      ∷ Echoes.robots lib h
      ∷ Streaming.stream_bytes lib h w.random w.now
      ∷ Streaming.stream lib h
      ∷ Echoes.request_with_body_discard lib h
      ∷ Echoes.user_agent lib h
      ∷ Echoes.show_version lib h
      ∷ Echoes.echo lib h
      ∷ Echoes.not_implemented_handler
      ∷ []

  plain-IsAnswer :
      (r : Request)
      → All
          (λ f. IsAnswer (f r))
          (Echoes.forms_post lib h
            ∷ Redirecting.cookies lib h
            ∷ Echoes.deflate lib h
            ∷ Echoes.deny lib h
            ∷ Echoes.dump_request lib h
            ∷ Echoes.show_env lib h
            ∷ Echoes.gzip lib h
            ∷ Echoes.headers lib h
            ∷ Echoes.show_hostname lib h
            ∷ Echoes.ip lib h
            ∷ Echoes.robots lib h
            ∷ Echoes.user_agent lib h
            ∷ Echoes.show_version lib h
            ∷ Echoes.not_implemented_handler
            ∷ [])
  unfolding Echoes.forms_post Redirecting.cookies Echoes.deflate Echoes.deny Echoes.dump_request
      Echoes.show_env Echoes.gzip Echoes.headers Echoes.show_hostname Echoes.ip Echoes.robots
      Echoes.user_agent Echoes.show_version Echoes.not_implemented_handler write_json write_html
      go_httpbin.Http.write_error go_httpbin.Http.write_response
  plain-IsAnswer r = ground arith

  endpoints-IsAnswer : (r : Request) → All (λ f. IsAnswer (f r)) endpoints
  unfolding endpoints Redirecting.absolute_redirect Redirecting.redirect
      Redirecting.relative_redirect Streaming.bytes Streaming.stream_bytes
  endpoints-IsAnswer r = ground (
    arith,
    plain-IsAnswer r,
    body-IsAnswer lib h r,
    index-IsAnswer lib h r,
    get-IsAnswer lib h r,
    anything-IsAnswer lib h r,
    base64-IsAnswer lib h r,
    basic_auth-IsAnswer lib h r,
    hidden_basic_auth-IsAnswer lib h r,
    bearer-IsAnswer lib h w.fields r,
    handle_bytes-IsAnswer lib h w.random w.now false r,
    handle_bytes-IsAnswer lib h w.random w.now true r,
    cache-IsAnswer lib h w.now_text r,
    cache_control-IsAnswer lib h r,
    handle_redirect-IsAnswer lib h false r,
    handle_redirect-IsAnswer lib h true r,
    handle_redirect-IsAnswer lib h
        (not (str_eq (to_lower (get (codes "absolute") r.query)) (codes "true"))) r,
    links-IsAnswer lib h r,
    redirect_to-IsAnswer lib h r,
    stream-IsAnswer lib h r,
    discard-IsAnswer lib h r,
    echo-IsAnswer lib h r,
  )

  -- One answer, delivered without a panic, of which observe reports the status that the client
  -- receives.
  abbrev pub IsReported : (ℕ → Option Error → ℕ) → Request → Handler → Type 0
  IsReported size r f =
      IsAnswer (f r)
      × ((serve (f r)).panicked ≡ false)
      × ((observe size f r).1.status ≡ status_of (serve (observe size f r).0))

  reported :
      (size : ℕ → Option Error → ℕ) (r : Request) (fs : List Handler)
      → All (λ f. IsAnswer (f r)) fs
      → All (IsReported size r) fs
  reported size r [] a = tt
  reported size r (f ∷ fs) (a, more) = (
    (a, answer-serve (f r) a, observe-status size f r (IsAnswer-IsOrderly (f r) a)),
    reported size r fs more,
  )

  -- Whatever the request and the configuration, each of these handlers gives one answer: headers, then a
  -- status from 200 to 999 or a body, then bodies only, and those if the status allows them. It does not
  -- panic, and behind observe it is reported with the status that its client receives.
  pub endpoints-IsReported :
      (size : ℕ → Option Error → ℕ) (r : Request) → All (IsReported size r) endpoints
  endpoints-IsReported size r = reported size r endpoints (endpoints-IsAnswer r)

-- ===== src/Handlers/Answering.antt =====
-- The handlers of httpbin/handlers.go give one answer each: what its middleware counts on.
pub mod Endpoints
use go_httpbin.Base.{
  ℕ, zero, suc, ◌<◌, ◌≡◌, refl, inl, inr, Bool, true, Option, some, List, [], ◌∷◌, ◌++◌, arith,
  Bool-cases, Option-cases, Bytes, codes, get_str, is_empty,
}
use go_httpbin.Base.Int.{ℤ, pos, pos_part, ltb_ℤ}
use go_httpbin.Strings.{to_lower, to_upper, cut}
use go_httpbin.Strings.Number.{atoi}
use go_httpbin.Http.{
  Request, Call, Handler, Result, Error, ok, err, set_header, append_header, write_header, write,
  raw, get, write_error, write_response, do_redirect, missing_query_parameter, in_context,
  library_error, missing_query_parameter, in_context, library_error,
}
use go_httpbin.Http.Server.{allows_body, serve, status_of}
use go_httpbin.Http.Server.Starting.{IsFinal}
use go_httpbin.Middleware.{observe}
use go_httpbin.Middleware.Layers.{NoStatus, IsOrderly, observe-status}
use go_httpbin.Middleware.Answering.{GivesStatus, GivesStatus-IsOrderly, status_of-serve}
use go_httpbin.Parsing.Ranges.{parse_bounded_status_code_iff, Result-cases}
use go_httpbin.Handlers.{Library, HttpBin, Url, write_json, write_html, must_escape_response}
use go_httpbin.Handlers.Echoes
use go_httpbin.Handlers.Redirecting
use go_httpbin.Handlers.Streaming
use go_httpbin.Handlers.Authenticating

-- Nothing but bodies, if any for a status that allows them.
abbrev pub OnlyBodies : ℕ → List Call → Type 0
OnlyBodies s [] = Unit
OnlyBodies s (set_header k v ∷ cs) = ⊥
OnlyBodies s (append_header k v ∷ cs) = ⊥
OnlyBodies s (write_header n ∷ cs) = ⊥
OnlyBodies s (write b ∷ cs) = (allows_body s ≡ true) × OnlyBodies s cs

-- One answer: headers, then a status that is not informational or a body, then bodies.
abbrev pub IsAnswer : List Call → Type 0
IsAnswer [] = ⊥
IsAnswer (set_header k v ∷ cs) = IsAnswer cs
IsAnswer (append_header k v ∷ cs) = IsAnswer cs
IsAnswer (write_header s ∷ cs) = IsFinal s × OnlyBodies s cs
IsAnswer (write b ∷ cs) = OnlyBodies 200 cs

error-IsAnswer :
    (s : ℕ) (e : Option Error) → IsFinal s → allows_body s ≡ true → IsAnswer (write_error s e)
unfolding write_error
error-IsAnswer s e f a = (f, (a, tt))

response-IsAnswer :
    (s : ℕ) (t b : Bytes) → IsFinal s → allows_body s ≡ true → IsAnswer (write_response s t b)
unfolding write_response
response-IsAnswer s t b f a = (f, (a, tt))

redirect-IsAnswer : (prefix path : Bytes) (s : ℕ) → IsFinal s → IsAnswer (do_redirect prefix path s)
unfolding do_redirect
redirect-IsAnswer prefix path s f = (f, tt)

module _ (lib : Library) (h : HttpBin lib) where
  get-IsAnswer : (r : Request) → IsAnswer (Echoes.get_handler lib h r)
  unfolding Echoes.get_handler write_json
  get-IsAnswer r = ((omega arith, omega arith), (refl, tt))

  body-IsAnswer : (r : Request) → IsAnswer (Echoes.request_with_body lib h r)
  unfolding Echoes.request_with_body write_json write_error
  body-IsAnswer r = ground arith

  index-IsAnswer : (r : Request) → IsAnswer (Echoes.index lib h r)
  unfolding Echoes.index write_html write_response write_error
  index-IsAnswer r = ground arith

  anything-IsAnswer : (r : Request) → IsAnswer (Echoes.anything lib h r)
  unfolding Echoes.anything
  anything-IsAnswer r = ground (arith, get-IsAnswer r, body-IsAnswer r)

  discard-IsAnswer : (r : Request) → IsAnswer (Echoes.request_with_body_discard lib h r)
  unfolding Echoes.request_with_body_discard write_json write_error
  discard-IsAnswer r = ground arith

  echo-IsAnswer : (r : Request) → IsAnswer (Echoes.echo lib h r)
  unfolding Echoes.echo write_response write_error
  echo-IsAnswer r = ground arith

  base64-IsAnswer : (r : Request) → IsAnswer (Echoes.base64 lib h r)
  unfolding Echoes.base64 write_response write_error
  base64-IsAnswer r = ground arith

  cache-IsAnswer : (now : Bytes) (r : Request) → IsAnswer (Echoes.cache lib h now r)
  unfolding Echoes.cache
  cache-IsAnswer now r = ground (arith, get-IsAnswer r)

  cache_control-IsAnswer : (r : Request) → IsAnswer (Echoes.cache_control lib h r)
  unfolding Echoes.cache_control write_error
  cache_control-IsAnswer r = ground (arith, get-IsAnswer r)

  handle_redirect-IsAnswer :
      (relative : Bool) (r : Request) → IsAnswer (Redirecting.handle_redirect lib h relative r)
  unfolding Redirecting.handle_redirect write_error do_redirect
  handle_redirect-IsAnswer relative r = ground arith

  redirect_status-bounded :
      (text : Bytes) (code : ℤ)
      → Redirecting.redirect_status lib h text ≡ ok code
      → IsFinal (pos_part code)
  unfolding Redirecting.redirect_status
  redirect_status-bounded text code e =
      grind (arith, parse_bounded_status_code_iff text (pos 300) (pos 399) code)

  redirect_with-IsAnswer :
      (path : Bytes) (s : Result ℤ)
      → ((code : ℤ) → s ≡ ok code → IsFinal (pos_part code))
      → IsAnswer (elim s [
        | err e ↦ write_error 400 (some e)
        | ok code ↦ do_redirect h.prefix path (pos_part code)
      ])
  redirect_with-IsAnswer path (ok code) f =
      redirect-IsAnswer h.prefix path (pos_part code) (f code refl)
  redirect_with-IsAnswer path (err e) f =
      error-IsAnswer 400 (some e) (omega arith, omega arith) refl

  redirect_url-IsAnswer :
      (u : Url) (r : Request)
      → IsAnswer (elim (Redirecting.redirect_status lib h (get (codes "status_code") r.query)) [
        | err e ↦ write_error 400 (some e)
        | ok code ↦ do_redirect h.prefix (lib.url_text u) (pos_part code)
      ])
  redirect_url-IsAnswer u r =
      redirect_with-IsAnswer (lib.url_text u)
        (Redirecting.redirect_status lib h (get (codes "status_code") r.query))
        (redirect_status-bounded (get (codes "status_code") r.query))

  redirect_to_url-IsAnswer :
      (u : Url) (r : Request) → IsAnswer (Redirecting.redirect_to_url lib h u r)
  unfolding Redirecting.redirect_to_url
  redirect_to_url-IsAnswer u r = elim (Bool-cases (Redirecting.is_allowed lib h u)) [
    | inl allowed ↦ rw (Redirecting.redirect_to_url, allowed) (redirect_url-IsAnswer u r)
    | inr refused ↦
        rw (Redirecting.redirect_to_url, refused)
          (response-IsAnswer 403 (codes "text/plain") h.forbidden_redirect_error
            (omega arith, omega arith) refl)
  ]

  redirect_to-IsAnswer : (r : Request) → IsAnswer (Redirecting.redirect_to lib h r)
  unfolding Redirecting.redirect_to
  redirect_to-IsAnswer r = elim (Bool-cases (is_empty (get (codes "url") r.query))) [
    | inl missing ↦
        rw (Redirecting.redirect_to, missing)
          (error-IsAnswer 400 (some (missing_query_parameter (codes "url")))
            (omega arith, omega arith) refl)
    | inr present ↦ elim (Option-cases (lib.parse_url (get (codes "url") r.query))) [
      | inl failed ↦
          rw (Redirecting.redirect_to, present, failed)
            (error-IsAnswer 400 (some (in_context (codes "invalid url") library_error))
              (omega arith, omega arith) refl)
      | inr (u, parsed) ↦
          rw (Redirecting.redirect_to, present, parsed) (redirect_to_url-IsAnswer u r)
    ]
  ]

  links_from-OnlyBodies :
      (offset : ℤ) (n i count : ℕ) (end : Bytes)
      → OnlyBodies 200 (Redirecting.links_from lib h offset n i count ++ write (raw end) ∷ [])
  unfolding Redirecting.links_from
  links_from-OnlyBodies offset n i zero end = (refl, tt)
  links_from-OnlyBodies offset n i (suc count) end =
      (refl, links_from-OnlyBodies offset n (suc i) count end)

  page-IsAnswer : (n : ℕ) (offset : ℤ) → IsAnswer (Redirecting.do_links_page lib h n offset)
  unfolding Redirecting.do_links_page
  page-IsAnswer n offset =
      ((omega arith, omega arith), (refl, links_from-OnlyBodies offset n 0 n _))

  links-IsAnswer : (r : Request) → IsAnswer (Redirecting.links lib h r)
  unfolding Redirecting.links write_error do_redirect
  links-IsAnswer r = grind (arith, page-IsAnswer)

  writes-OnlyBodies : (chunks : List Bytes) → OnlyBodies 200 (Streaming.writes chunks)
  writes-OnlyBodies [] = tt
  writes-OnlyBodies (c ∷ chunks) = (refl, writes-OnlyBodies chunks)

  bytes_answer-IsAnswer :
      (random : ℕ → ℕ) (size n : ℤ) → IsAnswer (Streaming.bytes_answer lib h random [] size n)
  bytes_answer-IsAnswer random size n = (
    (omega arith, omega arith),
    writes-OnlyBodies (Streaming.write_chunks random size [] 0 (pos_part n)),
  )

  write_bytes-IsAnswer :
      (random : ℕ → ℕ) (streaming : Bool) (n : ℤ) (r : Request)
      → IsAnswer (Streaming.write_bytes lib h random streaming n r)
  unfolding Streaming.write_bytes write_error
  write_bytes-IsAnswer random streaming n r = grind (arith, bytes_answer-IsAnswer)

  handle_bytes-IsAnswer :
      (random : ℤ → ℕ → ℕ) (now : ℤ) (streaming : Bool) (r : Request)
      → IsAnswer (Streaming.handle_bytes lib h random now streaming r)
  unfolding Streaming.handle_bytes write_error
  handle_bytes-IsAnswer random now streaming r = grind (arith, write_bytes-IsAnswer)

  lines-OnlyBodies : (r : Request) (i n : ℕ) → OnlyBodies 200 (Streaming.stream_lines lib h r i n)
  unfolding Streaming.stream_lines
  lines-OnlyBodies r i zero = tt
  lines-OnlyBodies r i (suc n) = (refl, lines-OnlyBodies r (suc i) n)

  lines-IsAnswer : (r : Request) (n : ℕ) → 0 < n → IsAnswer (Streaming.stream_lines lib h r 0 n)
  unfolding Streaming.stream_lines
  lines-IsAnswer r zero l = absurd (omega arith)
  lines-IsAnswer r (suc n) l = lines-OnlyBodies r 1 n

  clamped : (n : ℤ) → 0 < Streaming.clamp_lines lib h n
  unfolding Streaming.clamp_lines
  clamped n = ground arith

  stream-IsAnswer : (r : Request) → IsAnswer (Streaming.stream lib h r)
  unfolding Streaming.stream
  stream-IsAnswer r = elim (Option-cases (atoi (get_str (codes "numLines") r.path_values))) [
    | inl failed ↦
        rw (Streaming.stream, failed) (error-IsAnswer 400 _ (omega arith, omega arith) refl)
    | inr (n, parsed) ↦
        rw (Streaming.stream, parsed) (lines-IsAnswer r (Streaming.clamp_lines lib h n) (clamped n))
  ]

  basic_auth-IsAnswer : (r : Request) → IsAnswer (Authenticating.basic_auth lib h r)
  unfolding Authenticating.basic_auth write_json
  basic_auth-IsAnswer r = ground arith

  hidden_basic_auth-IsAnswer : (r : Request) → IsAnswer (Authenticating.hidden_basic_auth lib h r)
  unfolding Authenticating.hidden_basic_auth write_json write_error
  hidden_basic_auth-IsAnswer r = ground arith

  bearer-IsAnswer :
      (fields : Bytes → List Bytes) (r : Request) → IsAnswer (Authenticating.bearer lib h fields r)
  unfolding Authenticating.bearer write_json write_error
  bearer-IsAnswer fields r = ground arith

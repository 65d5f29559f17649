-- ===== src/Middleware.antt =====
-- httpbin/middleware.go: the handlers that stand around the program's own. A handler is a function
-- of the request, and its result the calls it makes on its ResponseWriter.
pub mod Semaphore
pub mod Layers
pub mod Answering
pub mod Delays
use go_httpbin.Base.{
  ℕ, Bool, ◌&&◌, Option, none, some, List, [], ◌∷◌, ◌++◌, ltb, leb, ◌==◌, if◌then◌else◌, length,
  Bytes, codes, str_eq, is_empty,
}
use go_httpbin.Base.Int.{ℤ, pos, add64, ltb_ℤ}
use go_httpbin.Parsing.{Clock, parse_bounded_duration}
use go_httpbin.Http.{
  Request, Handler, Call, set_header, append_header, add_value, write_header, write, Chunk, Error,
  write_error, get, raw, json, error_json, ok, err,
}
use go_httpbin.Http.Server.{Response, serve}

abbrev pub or_star : Bytes → Bytes
or_star origin = if is_empty origin then codes "*" else origin

abbrev pub allow_headers : Bytes → List Call
allow_headers wanted =
    if is_empty wanted then [] else set_header (codes "Access-Control-Allow-Headers") wanted ∷ []

unfoldable pub preflight : Handler → Handler
preflight h r =
    set_header (codes "Access-Control-Allow-Origin") (or_star (get (codes "Origin") r.header))
    ∷ set_header (codes "Access-Control-Allow-Credentials") (codes "true")
    ∷ (if str_eq r.method (codes "OPTIONS")
        then set_header (codes "Access-Control-Allow-Methods")
              (codes "GET, POST, HEAD, PUT, DELETE, PATCH, OPTIONS")
            ∷ set_header (codes "Access-Control-Max-Age") (codes "3600")
            ∷ allow_headers (get (codes "Access-Control-Request-Headers") r.header)
          ++ write_header 200 ∷ []
        else h r)

-- What a headResponseWriter passes on: its Write reports success and does nothing.
unfoldable pub discard_writes : List Call → List Call
discard_writes [] = []
discard_writes (set_header k v ∷ cs) = set_header k v ∷ discard_writes cs
discard_writes (append_header k v ∷ cs) = append_header k v ∷ discard_writes cs
discard_writes (write_header s ∷ cs) = write_header s ∷ discard_writes cs
discard_writes (write b ∷ cs) = discard_writes cs

unfoldable pub autohead : Handler → Handler
unfolding discard_writes
autohead h r = if str_eq r.method (codes "HEAD") then discard_writes (h r) else h r

-- A metaResponseWriter's record of what passed through it. `testMode` is false.
pub record MetaResponseWriter : Type 0 where
  pub status : ℕ
  pub size : ℤ

abbrev pub new_meta : MetaResponseWriter
new_meta = record { status = 0; size = pos 0 }

-- The bytes of an error's JSON text are counted by `json_size`.
module _ (json_size : ℕ → Option Error → ℕ) where
  abbrev pub chunk_size : Chunk → ℕ
  chunk_size (raw b) = length b
  chunk_size (json b) = length b
  chunk_size (error_json code e) = json_size code e

  unfoldable pub meta_call : Call → MetaResponseWriter → MetaResponseWriter
  meta_call (set_header k v) mw = mw
  meta_call (append_header k v) mw = mw
  meta_call (write_header s) mw = record mw { status = s }
  meta_call (write b) mw = record mw { size = add64 mw.size (pos (chunk_size b)) }

  unfoldable pub meta_calls : List Call → MetaResponseWriter → MetaResponseWriter
  unfolding meta_call
  meta_calls [] mw = mw
  meta_calls (c ∷ cs) mw = meta_calls cs (meta_call c mw)

unfoldable pub status : MetaResponseWriter → ℕ
status mw = if mw.status == 0 then 200 else mw.status

pub data LogLevel : Type 0 where
  level_info level_warn level_error : LogLevel

unfoldable pub log_level : ℕ → LogLevel
log_level status =
    if leb 500 status
    then level_error
    else if leb 400 status && ltb status 500
    then level_warn
    else level_info

-- The Result that observe hands its Observer. The duration and the client's address are read
-- elsewhere.
pub record Result : Type 0 where
  pub status : ℕ
  pub method : Bytes
  pub size : ℤ
  pub user_agent : Bytes

-- The handler is taken to return: a panic would leave observe too.
unfoldable pub observe : (ℕ → Option Error → ℕ) → Handler → Request → List Call × Result
unfolding meta_calls status
observe json_size h r =
    let cs = h r in
    let mw = meta_calls json_size cs new_meta in
    (
      cs,
      record {
        status = go_httpbin.Middleware.status mw;
        method = r.method;
        size = mw.size;
        user_agent = get (codes "User-Agent") r.header;
      },
    )

-- The query's response_delay: the wait before the handler, `none` for no wait. `is_done` says that the
-- client is gone before its end.
unfoldable pub response_delay : Clock → ℤ → Bool → Handler → Request → Option ℤ × List Call
response_delay clock max_duration is_done h r =
    let v = get (codes "response_delay") r.query in
    if is_empty v then (none, h r) else elim (parse_bounded_duration clock v (pos 0) max_duration) [
      | err e ↦ (none, write_error 400 (some e))
      | ok delay ↦
          if ltb_ℤ (pos 0) delay then (some delay, if is_done then [] else h r) else (none, h r)
    ]

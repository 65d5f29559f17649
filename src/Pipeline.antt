-- ===== src/Pipeline.antt =====
-- httpbin/pipeline.go: the tables of modifiers and terminals. A Go map is an association list.
pub mod Parsing
pub mod Responses
pub mod Terminals
pub mod Handling
use go_httpbin.Base.{ℕ, Option, List, [], ◌∷◌, Bytes, codes, lookup}
use go_httpbin.Base.Int.{ℤ, pos, negsuc}
use go_httpbin.Http.{Error}

pub record TerminalDef : Type 0 where
  pub args : ℤ
  pub path_values : List Bytes
  pub methods : List Bytes

pub record PipelineStep : Type 0 where
  pub name : Bytes
  pub args : List Bytes

pub record PipelineResult : Type 0 where
  pub modifiers : List PipelineStep
  pub terminal : PipelineStep

-- The number of arguments of each modifier.
unfoldable pub pipeline_modifier_defs : List (Bytes × ℕ)
pipeline_modifier_defs =
    (codes "delay", 1)
    ∷ (codes "response_delay", 1)
    ∷ (codes "status", 1)
    ∷ (codes "header", 1)
    ∷ (codes "no-cache", 0)
    ∷ (codes "nocache", 0)
    ∷ []

abbrev fixed : ℕ → List Bytes → TerminalDef
fixed n path_values = record { args = pos n; path_values = path_values; methods = [] }

abbrev plain : TerminalDef
plain = fixed 0 []

abbrev variadic : TerminalDef
variadic = record { args = negsuc 0; path_values = []; methods = [] }

abbrev only : List Bytes → TerminalDef
only methods = record { args = pos 0; path_values = []; methods = methods }

abbrev with_body : List Bytes
with_body = codes "POST" ∷ codes "PUT" ∷ codes "PATCH" ∷ []

unfoldable pub pipeline_terminals : List (Bytes × TerminalDef)
pipeline_terminals =
    (codes "cookies/set", plain)
    ∷ (codes "cookies/delete", plain)
    ∷ (codes "encoding/utf8", only (codes "GET" ∷ []))
    ∷ (codes "forms/post", only (codes "GET" ∷ []))
    ∷ (codes "dump/request", plain)
    ∷ (codes "get", only (codes "GET" ∷ []))
    ∷ (codes "head", only (codes "HEAD" ∷ []))
    ∷ (codes "post", only (codes "POST" ∷ []))
    ∷ (codes "put", only (codes "PUT" ∷ []))
    ∷ (codes "delete", only (codes "DELETE" ∷ []))
    ∷ (codes "patch", only (codes "PATCH" ∷ []))
    ∷ (codes "status", fixed 1 (codes "code" ∷ []))
    ∷ (codes "bytes", fixed 1 (codes "numBytes" ∷ []))
    ∷ (codes "stream", fixed 1 (codes "numLines" ∷ []))
    ∷ (codes "stream-bytes", fixed 1 (codes "numBytes" ∷ []))
    ∷ (codes "etag", fixed 1 (codes "etag" ∷ []))
    ∷ (codes "range", fixed 1 (codes "numBytes" ∷ []))
    ∷ (codes "links", variadic)
    ∷ (codes "cache", variadic)
    ∷ (codes "base64", variadic)
    ∷ (codes "basic-auth", fixed 2 (codes "user" ∷ codes "password" ∷ []))
    ∷ (codes "hidden-basic-auth", fixed 2 (codes "user" ∷ codes "password" ∷ []))
    ∷ (codes "digest-auth", variadic)
    ∷ (codes "gzip", plain)
    ∷ (codes "deflate", plain)
    ∷ (codes "html", plain)
    ∷ (codes "json", plain)
    ∷ (codes "xml", plain)
    ∷ (codes "robots.txt", plain)
    ∷ (codes "deny", plain)
    ∷ (codes "ip", plain)
    ∷ (codes "headers", plain)
    ∷ (codes "user-agent", plain)
    ∷ (codes "uuid", plain)
    ∷ (codes "hostname", plain)
    ∷ (codes "bearer", plain)
    ∷ (codes "cookies", plain)
    ∷ (codes "drip", plain)
    ∷ (codes "sse", plain)
    ∷ (codes "unstable", plain)
    ∷ (codes "anything", plain)
    ∷ (codes "env", plain)
    ∷ (codes "pdf", plain)
    ∷ (codes "trailers", plain)
    ∷ (codes "version", plain)
    ∷ (codes "problem", plain)
    ∷ (codes "negotiate", plain)
    ∷ (codes "close", plain)
    ∷ (codes "echo", only with_body)
    ∷ (codes "upload", only with_body)
    ∷ (codes "redirect-to", plain)
    ∷ (codes "response-headers", plain)
    ∷ (codes "body", fixed 1 (codes "data" ∷ []))
    ∷ (codes "image", variadic)
    ∷ (codes "redirect", variadic)
    ∷ (codes "absolute-redirect", variadic)
    ∷ (codes "relative-redirect", variadic)
    ∷ []

unfoldable pub max_pipeline_segments : ℕ
max_pipeline_segments = 20

unfoldable pub modifier_def : Bytes → Option ℕ
modifier_def seg = lookup seg pipeline_modifier_defs

unfoldable pub terminal_def : Bytes → Option TerminalDef
terminal_def name = lookup name pipeline_terminals

-- The handlers of the terminals that dispatchTerminal finds by name.
unfoldable pub build_terminal_handlers : List (Bytes × Bytes)
build_terminal_handlers =
    (codes "get", codes "Get")
    ∷ (codes "head", codes "Get")
    ∷ (codes "post", codes "RequestWithBody")
    ∷ (codes "put", codes "RequestWithBody")
    ∷ (codes "delete", codes "RequestWithBody")
    ∷ (codes "patch", codes "RequestWithBody")
    ∷ (codes "status", codes "Status")
    ∷ (codes "bytes", codes "Bytes")
    ∷ (codes "stream", codes "Stream")
    ∷ (codes "stream-bytes", codes "StreamBytes")
    ∷ (codes "etag", codes "ETag")
    ∷ (codes "range", codes "Range")
    ∷ (codes "basic-auth", codes "BasicAuth")
    ∷ (codes "hidden-basic-auth", codes "HiddenBasicAuth")
    ∷ (codes "gzip", codes "Gzip")
    ∷ (codes "deflate", codes "Deflate")
    ∷ (codes "html", codes "HTML")
    ∷ (codes "json", codes "JSON")
    ∷ (codes "xml", codes "XML")
    ∷ (codes "robots.txt", codes "Robots")
    ∷ (codes "deny", codes "Deny")
    ∷ (codes "ip", codes "IP")
    ∷ (codes "headers", codes "Headers")
    ∷ (codes "user-agent", codes "UserAgent")
    ∷ (codes "uuid", codes "UUID")
    ∷ (codes "hostname", codes "Hostname")
    ∷ (codes "bearer", codes "Bearer")
    ∷ (codes "cookies", codes "Cookies")
    ∷ (codes "cookies/set", codes "SetCookies")
    ∷ (codes "cookies/delete", codes "DeleteCookies")
    ∷ (codes "encoding/utf8", codes "UTF8")
    ∷ (codes "forms/post", codes "FormsPost")
    ∷ (codes "dump/request", codes "DumpRequest")
    ∷ (codes "drip", codes "Drip")
    ∷ (codes "sse", codes "SSE")
    ∷ (codes "unstable", codes "Unstable")
    ∷ (codes "anything", codes "Anything")
    ∷ (codes "env", codes "Env")
    ∷ (codes "pdf", codes "PDF")
    ∷ (codes "trailers", codes "Trailers")
    ∷ (codes "version", codes "Version")
    ∷ (codes "problem", codes "ProblemDetails")
    ∷ (codes "negotiate", codes "Negotiate")
    ∷ (codes "echo", codes "Echo")
    ∷ (codes "redirect-to", codes "RedirectTo")
    ∷ (codes "response-headers", codes "ResponseHeaders")
    ∷ (codes "close", codes "Close")
    ∷ (codes "upload", codes "RequestWithBodyDiscard")
    ∷ []

-- The names under which a redirect is dispatched.
pub data RedirectType : Type 0 where
  redirect absolute_redirect relative_redirect : RedirectType

unfoldable pub redirect_name : RedirectType → Bytes
redirect_name redirect = codes "redirect"
redirect_name absolute_redirect = codes "absolute-redirect"
redirect_name relative_redirect = codes "relative-redirect"

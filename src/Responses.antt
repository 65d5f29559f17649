-- ===== src/Responses.antt =====
-- The bodies of responses in httpbin/responses.go, before they are written as JSON.
use go_httpbin.Base.{ℕ, Bool, Option, List, Bytes, codes}
use go_httpbin.Base.Int.{ℤ}
use go_httpbin.Http.{Values}

unfoldable pub binary_content_type : Bytes
binary_content_type = codes "application/octet-stream"

unfoldable pub html_content_type : Bytes
html_content_type = codes "text/html; charset=utf-8"

unfoldable pub json_content_type : Bytes
json_content_type = codes "application/json; charset=utf-8"

unfoldable pub sse_content_type : Bytes
sse_content_type = codes "text/event-stream; charset=utf-8"

unfoldable pub text_content_type : Bytes
text_content_type = codes "text/plain; charset=utf-8"

unfoldable pub problem_content_type : Bytes
problem_content_type = codes "application/problem+json; charset=utf-8"

pub record NoBodyResponse : Type 0 where
  pub args : Values
  pub headers : Values
  pub method : Bytes
  pub origin : Bytes
  pub url : Bytes
  pub deflated : Bool
  pub gzipped : Bool

pub record DiscardedBodyResponse : Type 0 where
  pub no_body : NoBodyResponse
  pub bytes_received : ℤ

-- The decoded JSON of a body stays the text that was read.
pub record BodyResponse : Type 0 where
  pub args : Values
  pub headers : Values
  pub method : Bytes
  pub origin : Bytes
  pub url : Bytes
  pub body_data : Bytes
  pub files : Values
  pub form : Values
  pub json : Option Bytes

pub record AuthResponse : Type 0 where
  pub authenticated : Bool
  pub user : Bytes
  pub authorized : Bool

pub record StreamResponse : Type 0 where
  pub id : ℕ
  pub args : Values
  pub headers : Values
  pub origin : Bytes
  pub url : Bytes

pub record BearerResponse : Type 0 where
  pub authenticated : Bool
  pub token : Bytes

pub record ServerSentEvent : Type 0 where
  pub id : ℤ
  pub timestamp : ℤ

pub record VersionResponse : Type 0 where
  pub version : Bytes
  pub go_version : Bytes

pub record ProblemDetailResponse : Type 0 where
  pub type_uri : Bytes
  pub title : Bytes
  pub status : ℤ
  pub detail : Bytes
  pub instance_uri : Bytes

-- What is marshalled: each struct, and a map of header or query values.
pub data Json : Type 0 where
  env_response : List (Bytes × Bytes) → Json
  headers_response : Values → Json
  ip_response user_agent_response : Bytes → Json
  no_body_response : NoBodyResponse → Json
  discarded_body_response : DiscardedBodyResponse → Json
  body_response : BodyResponse → Json
  cookies_response : List (Bytes × Bytes) → Json
  auth_response : AuthResponse → Json
  stream_response : StreamResponse → Json
  uuid_response : Bytes → Json
  bearer_response : BearerResponse → Json
  hostname_response : Bytes → Json
  server_sent_event : ServerSentEvent → Json
  version_response : VersionResponse → Json
  problem_detail_response : ProblemDetailResponse → Json
  content_type_response : Bytes → Json
  values_response : Values → Json

-- ===== src/Handlers.antt =====
-- What the handlers of httpbin/handlers.go share: the configuration, what they call of Go's library, and
-- the helpers of httpbin/helpers.go that describe the request.
pub mod Echoes
pub mod Redirecting
pub mod Statuses
pub mod Streaming
pub mod Dripping
pub mod EventStreams
pub mod Authenticating
pub mod Guarding
pub mod Answering
pub mod Serving
pub mod Negotiating
pub mod Options
pub mod Documents
use go_httpbin.Base.{
  ℕ, suc, Bool, true, false, not, Option, none, some, List, [], ◌∷◌, if◌then◌else◌, any, Bytes,
  codes, str_eq, insert, is_empty,
}
use go_httpbin.Base.Int.{ℤ, pos, negsuc}
use go_httpbin.Strings.Number.{itoa, atoi}
use go_httpbin.Strings.{join}
use go_httpbin.Http.{
  Request, Call, Values, Handler, set_header, write_header, write, json, get, write_response,
}
use go_httpbin.Pipeline.Terminals.{Base64}
use go_httpbin.Parsing.{Clock}
use go_httpbin.Streams.{SyntheticByteStream}
use go_httpbin.Clients.{Net, get_client_ip}
use go_httpbin.Responses.{Json, NoBodyResponse, json_content_type, html_content_type}

pub record DefaultParams : Type 0 where
  pub drip_duration : ℤ
  pub drip_delay : ℤ
  pub drip_num_bytes : ℤ
  pub sse_count : ℤ
  pub sse_duration : ℤ
  pub sse_delay : ℤ

-- url.URL
pub record Url : Type 0 where
  pub scheme : Bytes
  pub opaque : Bytes
  pub user : Bytes
  pub host : Bytes
  pub path : Bytes
  pub raw_path : Bytes
  pub force_query : Bool
  pub raw_query : Bytes
  pub fragment : Bytes

-- What is called of Go's library. `url`, `is_tls`, `transfer_encoding` and `read_body` are what it has read
-- of a request; `none` is an error.
pub record Library : Type 1 where
  pub net : Net
  pub clock : Clock
  pub url : Request → Url
  pub is_tls : Request → Bool
  pub transfer_encoding : Request → List Bytes
  pub read_body : Request → Option Bytes
  pub post_form : Request → Option Values
  pub multipart_form : Request → Option (Values × Values)
  pub decode_json : Bytes → Option Bytes
  pub basic_auth : Request → Bytes × Bytes
  pub cookies : Request → List (Bytes × Bytes)
  pub url_text : Url → Bytes
  pub parse_url : Bytes → Option Url
  pub hostname_of : Url → Bytes
  pub url_encoding : Bytes → Bytes
  pub marshal : Json → Bytes
  pub marshal_line : Json → Bytes
  pub media_type : Bytes → Option Bytes
  pub escape_string : Bytes → Bytes
  pub gzip : Bytes → Bytes
  pub zlib : Bytes → Bytes
  pub static_asset : Bytes → Option Bytes
  pub status_text : ℕ → Bytes
  pub dump_request : Request → Option Bytes
  pub go_version : Bytes
  pub sha1_hex : Bytes → Bytes
  pub decoders : Base64
  pub http_error : Bytes → ℕ → List Call
  pub serve_stream : Request → SyntheticByteStream → List Call
  pub serve_bytes : Request → Bytes → List Call

-- HTTPBin of httpbin/httpbin.go, with what its New has computed. Sets and maps with text keys are lists.
pub record HttpBin (lib : Library) : Type 0 where
  pub max_body_size : ℤ
  pub max_duration : ℤ
  pub default_params : DefaultParams
  pub allowed_redirect_domains : List Bytes
  pub unsafe_allow_dangerous_responses : Bool
  pub env : List (Bytes × Bytes)
  pub forbidden_redirect_error : Bytes
  pub hostname : Bytes
  pub prefix : Bytes
  pub index_html : Bytes
  pub forms_post_html : Bytes
  pub exclude_headers_processor : Option (Values → Values)
  pub max_sse_count : ℤ
  pub trusted_proxies : List (lib.net.Network)
  pub trusted_proxies_configured : Bool
  pub version : Bytes

-- The decimal print of an int64.
abbrev pub show_ℤ : ℤ → Bytes
show_ℤ (pos n) = itoa n
show_ℤ (negsuc n) = b'-' ∷ itoa (suc n)

unfoldable pub write_html : Bytes → ℕ → List Call
unfolding write_response html_content_type
write_html body status = write_response status html_content_type body

module _ (lib : Library) where
  unfoldable pub write_json : ℕ → Json → List Call
  unfolding json_content_type
  write_json status val =
      set_header (codes "Content-Type") json_content_type
      ∷ write_header status
      ∷ write (json (lib.marshal val))
      ∷ []

  abbrev or_if_empty : Bytes → Bytes → Bytes
  or_if_empty [] s = s
  or_if_empty (c ∷ t) s = c ∷ t

  unfoldable pub url_scheme : Request → Bytes
  url_scheme r = or_if_empty (get (codes "X-Forwarded-Proto") r.header) (
      or_if_empty (get (codes "X-Forwarded-Protocol") r.header) (
        if str_eq (get (codes "X-Forwarded-Ssl") r.header) (codes "on")
        then codes "https"
        else if lib.is_tls r
        then codes "https"
        else codes "http"))

  unfoldable pub get_url : Request → Url
  unfolding url_scheme
  get_url r = record (lib.url r) {
    scheme = url_scheme r;
    host = or_if_empty (lib.url r).host r.host;
  }

  unfoldable pub headers_with_host : Request → Values
  headers_with_host r =
      let h = insert (codes "Host") (r.host ∷ []) r.header in
      elim (lib.transfer_encoding r) [
        | [] ↦ h
        | first ∷ more ↦ insert (codes "Transfer-Encoding") (join b',' (first ∷ more) ∷ []) h
      ]

  unfoldable pub get_request_headers : Request → Option (Values → Values) → Values
  unfolding headers_with_host
  get_request_headers r none = headers_with_host r
  get_request_headers r (some fn) = fn (headers_with_host r)

  unfoldable pub client_ip : HttpBin lib → Request → Bytes
  unfolding get_client_ip
  client_ip h r = get_client_ip lib.net h.trusted_proxies h.trusted_proxies_configured r

  -- What every echo of a request holds.
  unfoldable pub describe : HttpBin lib → Request → NoBodyResponse
  unfolding client_ip get_url get_request_headers
  describe h r = record {
    args = r.query;
    headers = get_request_headers r h.exclude_headers_processor;
    method = r.method;
    origin = client_ip h r;
    url = lib.url_text (get_url r);
    deflated = false;
    gzipped = false;
  }

  unfoldable pub safe_content_types : List Bytes
  safe_content_types =
      codes "text/plain"
      ∷ codes "application/json"
      ∷ codes "application/problem+json"
      ∷ codes "application/octet-string"
      ∷ []

  unfoldable pub is_dangerous_content_type : Bytes → Bool
  unfolding safe_content_types
  is_dangerous_content_type ct = elim (lib.media_type ct) [
    | none ↦ true
    | some mediatype ↦ not (any (str_eq mediatype) safe_content_types)
  ]

  unfoldable pub must_escape_response : HttpBin lib → Bytes → Bool
  unfolding is_dangerous_content_type
  must_escape_response h content_type =
      if h.unsafe_allow_dangerous_responses then false else is_dangerous_content_type content_type

-- parseSeedInt64: a seed, or the time where the query has none.
unfoldable pub parse_seed : ℤ → Bytes → Option ℤ
parse_seed now raw_seed = if is_empty raw_seed then some now else atoi raw_seed

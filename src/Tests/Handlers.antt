-- ===== src/Tests/Handlers.antt =====
-- Concrete requests to the handlers of httpbin/handlers.go.
use go_httpbin.Base.{
  ℕ, ◌+◌, ◌*◌, ◌%◌, ◌≤◌, ◌≡◌, refl, inl, inr, false, none, some, List, [], ◌∷◌, ◌++◌, arith,
  ℕ_discrete, ltb, All, Bytes, codes, str_eq, str_ne, lookup,
}
use go_httpbin.Base.Int.{pos, add64, sub64}
use go_httpbin.Parsing.{compute_pause_per_write}
use go_httpbin.Strings.{contains_byte, remove_byte}
use go_httpbin.Strings.Number.{atoi, itoa}
use go_httpbin.Http.{ok, append_header, set_header, Request, Call, Values}
use go_httpbin.Http.Server.{serve, status_of}
use go_httpbin.Caches.{new_bounded_cache}
use go_httpbin.Websocket.Serving.{Setting, serve as serve_socket, echo_handler}
use go_httpbin.Websocket.Serving.Delivery.{IsSound}
use go_httpbin.Tests.Streams.{plain_net}
use go_httpbin.Handlers.{Library, HttpBin, Url}
use go_httpbin.Handlers.Redirecting.{redirect_to}
use go_httpbin.Handlers.Redirecting.Chains.{follow, relative_route, follow-below}
use go_httpbin.Handlers.Statuses.{Float64, status, total_weight, weighted_random_choice}
use go_httpbin.Handlers.Statuses.Choosing.{Offers, weighted_random_choice-Offers}
use go_httpbin.Handlers.Statuses.Sending.{status-serve}
use go_httpbin.Handlers.Streaming.{write_chunks, range, range_duration}
use go_httpbin.Handlers.Streaming.Chunks.{concat, generated, IsChunk, write_chunks_lem}
use go_httpbin.Handlers.Streaming.Seeking.{IsAlphabet, range-serves}
use go_httpbin.Streams.{SyntheticByteStream}
use go_httpbin.Handlers.Dripping.{parse_within}
use go_httpbin.Handlers.EventStreams.{
  Sse, sse, parse_sse, parse_sse_count, parse_at_least, parse_last_event_id,
}
use go_httpbin.Handlers.EventStreams.Loop.{texts}
use go_httpbin.Handlers.EventStreams.Events.{numbered, retry_text, events_until, sse-sent}
use go_httpbin.Handlers.Guarding.{websocket_limits}
use go_httpbin.Handlers.Guarding.Limiting.{websocket_limits-IsSound}
use go_httpbin.Handlers.Answering.Endpoints.{
  Surroundings, endpoints, IsReported, endpoints-IsReported,
}
use go_httpbin.Handlers.Options.{with_allowed_redirect_domains}
use go_httpbin.Handlers.Options.Allowing.{redirect_to-elsewhere}
use go_httpbin.Handlers.Documents.{PdfCacheKey, pdf}
use go_httpbin.Handlers.Documents.Caching.{IsFaithful, fresh_answer, pdf-fresh_answer}

abbrev no_url : Url
no_url = record {
  scheme = [];
  opaque = [];
  user = [];
  host = codes "evil.example";
  path = [];
  raw_path = [];
  force_query = false;
  raw_query = [];
  fragment = [];
}

abbrev pub library : Library
library = record {
  net = plain_net;
  clock = record { parse_duration = atoi; parse_thousandths = λ s. none };
  url = λ r. no_url;
  is_tls = λ r. false;
  transfer_encoding = λ r. [];
  read_body = λ r. some [];
  post_form = λ r. none;
  multipart_form = λ r. none;
  decode_json = λ s. none;
  basic_auth = λ r. ([], []);
  cookies = λ r. [];
  url_text = λ u. u.host;
  parse_url = λ s. some no_url;
  hostname_of = λ u. u.host;
  url_encoding = λ s. s;
  marshal = λ j. [];
  marshal_line = λ j. [];
  media_type = λ s. some s;
  escape_string = λ s. s;
  gzip = λ s. s;
  zlib = λ s. s;
  static_asset = λ s. none;
  status_text = λ n. [];
  dump_request = λ r. none;
  go_version = [];
  sha1_hex = λ s. s;
  decoders = record { url = some; raw_url = some; std = some; raw_std = some };
  http_error = λ s n. [];
  serve_stream = λ r s. [];
  serve_bytes = λ r s. [];
}

abbrev pub server : HttpBin library
server = record {
  max_body_size = pos 1024;
  max_duration = pos 10000;
  default_params = record {
    drip_duration = pos 2;
    drip_delay = pos 2;
    drip_num_bytes = pos 10;
    sse_count = pos 10;
    sse_duration = pos 5;
    sse_delay = pos 0;
  };
  allowed_redirect_domains = [];
  unsafe_allow_dangerous_responses = false;
  env = [];
  forbidden_redirect_error = [];
  hostname = [];
  prefix = codes "/a";
  index_html = [];
  forms_post_html = [];
  exclude_headers_processor = none;
  max_sse_count = pos 10;
  trusted_proxies = [];
  trusted_proxies_configured = false;
  version = [];
}

abbrev asking : List (Bytes × Bytes) → Values → Request
asking path_values query = record {
  method = codes "GET";
  path = codes "/";
  host = codes "localhost";
  remote_addr = codes "1.2.3.4";
  header = [];
  query = query;
  path_values = path_values;
}

follow-below_example :
    follow library server (asking [] []) 5 (codes "/a" ++ relative_route ++ itoa 3)
    ≡ (3, codes "/a" ++ codes "/get")
follow-below_example = follow-below library server (asking [] []) 3 5 (omega arith) (omega arith)

-- Whole numbers in place of float64.
abbrev whole : Float64 ℕ
whole = record {
  parse_float = λ s. some 1;
  zero_float = 0;
  half = 0;
  one = 1;
  add = ◌+◌;
  mul = ◌*◌;
  lt = ltb;
}

abbrev two_choices : List (ℕ × ℕ)
two_choices = (200, 3) ∷ (500, 2) ∷ []

weighted_random_choice-Offers_example :
    (c : ℕ) × (weighted_random_choice whole two_choices 0 ≡ some c) × Offers two_choices c
weighted_random_choice-Offers_example =
    weighted_random_choice-Offers whole two_choices 0 (cc) (unfold total_weight in refl)

abbrev ask_teapot : Request
ask_teapot = asking ((codes "code", codes "418") ∷ []) []

status-serve_example :
    (cs : List Call) × (status whole [] 0 ask_teapot ≡ some cs) × (status_of (serve cs) ≡ 418)
status-serve_example =
    status-serve whole [] 0 ask_teapot 418 (unfold contains_byte lookup str_eq in refl)
      (unfold atoi lookup str_eq in refl) (omega arith) (omega arith)

write_chunks_lem_example :
    (concat (write_chunks (λ i. i % 256) (pos 3) [] 0 7) ≡ generated (λ i. i % 256) 0 7)
    × All (IsChunk 3) (write_chunks (λ i. i % 256) (pos 3) [] 0 7)
write_chunks_lem_example = write_chunks_lem (λ i. i % 256) 3 7 (omega arith)

abbrev ask_range : Request
ask_range = asking ((codes "numBytes", codes "40") ∷ []) []

range-serves_example :
    (s : SyntheticByteStream) × IsAlphabet library server 40 0 s
    × (range library server ask_range
        ≡ some (
            append_header (codes "Etag") (codes "range" ++ itoa 40)
            ∷ append_header (codes "Accept-Ranges") (codes "bytes")
            ∷ set_header (codes "Content-Type") (codes "text/plain; charset=utf-8")
            ∷ library.serve_stream ask_range s))
range-serves_example =
    range-serves library server ask_range 40 1024 0 refl (unfold atoi lookup str_eq in refl)
      (omega arith) (omega arith) (omega arith) (unfold range_duration lookup str_eq in refl)

abbrev ask_events : Request
ask_events = asking [] ((codes "count", codes "4" ∷ []) ∷ (codes "fail_after", codes "2" ∷ []) ∷ [])

abbrev four_events : Sse
four_events = record {
  count = pos 4;
  duration = pos 5;
  delay = pos 0;
  event_name = [];
  retry_ms = pos 0;
  fail_after = pos 2;
  last_event_id = pos 0;
}

ask_events-parsed : parse_sse library server ask_events ≡ ok four_events
unfolding parse_sse parse_within parse_sse_count parse_at_least parse_last_event_id lookup str_eq
    atoi remove_byte
ask_events-parsed = refl

sse-sent_example :
    (calls : List Call) × (sse library server (λ d. []) (λ i. pos i) (pos 0) none ask_events
      ≡ some calls)
    × (texts calls
        ≡ retry_text (pos 0)
          ++ numbered library server (λ i. pos i) [] (0 + 1) 0 (events_until 2 4))
sse-sent_example =
    sse-sent library server (λ i. pos i) (λ d. []) (pos 0) ask_events four_events 4 0
      ask_events-parsed (unfold add64 in refl) refl refl (omega arith) (omega arith)
      (inr (unfold compute_pause_per_write sub64 add64 in refl))

abbrev socket : Setting
socket = record {
  limits = record { max_fragment_size = 512; max_message_size = 1024 };
  handler = echo_handler;
  max_alloc = 1000;
  error_text = λ e. [];
  is_done = λ n. false;
  write_fails = λ n. false;
}

websocket_limits-IsSound_example :
    (1024 ≤ 1024) × All (IsSound socket.limits) (serve_socket socket 9 (129 ∷ 128 ∷ [])).delivered
websocket_limits-IsSound_example =
    websocket_limits-IsSound library server (asking [] []) socket 9 (129 ∷ 128 ∷ [])
      (unfold websocket_limits lookup str_eq in refl)

abbrev surroundings : Surroundings
surroundings = record { random = λ s i. 0; now = pos 0; now_text = []; fields = λ s. s ∷ [] }

endpoints-IsReported_example :
    All
      (IsReported library server surroundings (λ n e. 0) (asking [] []))
      (endpoints library server surroundings)
endpoints-IsReported_example =
    endpoints-IsReported library server surroundings (λ n e. 0) (asking [] [])

abbrev ask_evil : Request
ask_evil = asking [] ((codes "url", codes "//evil.example" ∷ []) ∷ [])

abbrev only_good : HttpBin library
only_good = with_allowed_redirect_domains (λ l. l) (codes "good.example" ∷ []) server

redirect_to-elsewhere_example :
    (status_of (serve (redirect_to library only_good ask_evil)) ≡ 403)
    × (lookup (codes "Location") (serve (redirect_to library only_good ask_evil)).header ≡ none)
redirect_to-elsewhere_example =
    redirect_to-elsewhere library server (λ l. l) (codes "good.example" ∷ []) ask_evil no_url (cc)
      (unfold lookup str_eq in cc) refl
      (cc, (str_ne (codes "good.example") (codes "evil.example") (unfold str_eq in refl), tt))

key-discrete : Discrete PdfCacheKey
key-discrete = hlevel ℕ_discrete

empty_cache-IsFaithful : IsFaithful key-discrete (λ key. some (codes "%PDF")) (new_bounded_cache 64)
unfolding IsFaithful
empty_cache-IsFaithful key = inl (unfold go_httpbin.Caches.get new_bounded_cache in refl)

pdf-fresh_answer_example :
    ((pdf key-discrete
        (λ key. some (codes "%PDF"))
        0
        (pos 9)
        (asking [] [])
        (new_bounded_cache 64)).0
      ≡ fresh_answer key-discrete (λ key. some (codes "%PDF")) (pos 9) (asking [] []))
    × IsFaithful key-discrete
        (λ key. some (codes "%PDF"))
        (pdf key-discrete
          (λ key. some (codes "%PDF"))
          0
          (pos 9)
          (asking [] [])
          (new_bounded_cache 64)).1
pdf-fresh_answer_example =
    pdf-fresh_answer key-discrete (λ key. some (codes "%PDF")) 0 (pos 9) (asking [] [])
      (new_bounded_cache 64) empty_cache-IsFaithful

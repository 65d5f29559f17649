-- ===== src/Handlers/Guarding.antt =====
-- The handlers of httpbin/handlers.go that check the limits of a websocket, trailers and delays; and
-- ProblemDetails and ResponseHeaders.
pub mod Limiting
pub mod Switching
use go_httpbin.Base.{
  suc, ◌-◌, ◌/◌, ◌^◌, Bool, ◌||◌, Option, none, some, List, [], ◌∷◌, ◌++◌, map, if◌then◌else◌, any,
  Bytes, codes, str_eq, insert, get_str, is_empty,
}
use go_httpbin.Base.Int.{ℤ, pos, negsuc, ltb_ℤ, pos_part, add64, sub64}
use go_httpbin.Strings.{to_lower, to_upper}
use go_httpbin.Strings.Number.{atoi}
use go_httpbin.Http.{
  Request, Call, Handler, Values, Result, ok, err, ◌>>=◌, set_header, append_header, write_header,
  write, json, get, canonical, write_error, in_context, library_error, invalid_qop,
  invalid_algorithm, invalid_limit, out_of_range, fragment_limit_above_message_limit,
  forbidden_trailer,
}
use go_httpbin.Parsing.{parse_delay_range, parse_status_code}
use go_httpbin.Digest.{DigestAlgorithm, md5, sha256, check, challenge}
use go_httpbin.Websocket.{Limits}
use go_httpbin.Websocket.Handshaking.{handshake}
use go_httpbin.Responses.{
  Json, AuthResponse, auth_response, bearer_response, values_response, problem_detail_response,
  problem_content_type, json_content_type,
}
use go_httpbin.Handlers.{Library, HttpBin, write_json, must_escape_response}
use go_httpbin.Handlers.Dripping.{encode_server_timings}
use go_httpbin.Handlers.Echoes.{request_with_body}

-- strconv.ParseInt in base 10 with 32 bits
unfoldable pub parse_int32 : Bytes → Option ℤ
parse_int32 s = elim (atoi s) [
  | none ↦ none
  | some n ↦ if ltb_ℤ n (negsuc (2 ^ 31 - 1)) || ltb_ℤ (pos (2 ^ 31 - 1)) n then none else some n
]

unfoldable pub forbidden_trailers : List Bytes
forbidden_trailers =
    codes "Authorization"
    ∷ codes "Cache-Control"
    ∷ codes "Content-Encoding"
    ∷ codes "Content-Length"
    ∷ codes "Content-Range"
    ∷ codes "Content-Type"
    ∷ codes "Host"
    ∷ codes "Max-Forwards"
    ∷ codes "Set-Cookie"
    ∷ codes "Te"
    ∷ codes "Trailer"
    ∷ codes "Transfer-Encoding"
    ∷ []

-- The first name of a query that is a forbidden trailer. The order of a Go map is that of the list.
unfoldable pub first_forbidden : Values → Option Bytes
unfolding forbidden_trailers
first_forbidden [] = none
first_forbidden ((k, vs) ∷ q) =
    let rest = first_forbidden q in
    if any (str_eq (canonical k)) forbidden_trailers then some k else rest

-- The values of each name, each by one call.
unfoldable pub call_each : (Bytes → Bytes → Call) → Bytes → List Bytes → List Call
call_each f k [] = []
call_each f k (v ∷ vs) = f (canonical k) v ∷ call_each f k vs

unfoldable pub call_all : (Bytes → Bytes → Call) → Values → List Call
unfolding call_each
call_all f [] = []
call_all f ((k, vs) ∷ q) = call_each f k vs ++ call_all f q

-- What a query says when each name and value is escaped.
unfoldable pub escape_values : (Bytes → Bytes) → Values → Values
escape_values escape [] = []
escape_values escape ((k, vs) ∷ q) = (escape k, map escape vs) ∷ escape_values escape q

module _ (lib : Library) (h : HttpBin lib) where
  -- A limit of WebSocketEcho: what the query says, within the limit for bodies, or a default.
  unfoldable pub parse_limit : Bytes → Bytes → ℤ → Result ℤ
  unfolding parse_int32
  parse_limit name user_limit default =
      if is_empty user_limit then ok default else elim (parse_int32 user_limit) [
        | none ↦ err (invalid_limit name)
        | some n ↦
            if ltb_ℤ n (pos 1) || ltb_ℤ h.max_body_size n
            then err (out_of_range name n h.max_body_size)
            else ok n
      ]

  abbrev pub half : ℤ → ℤ
  half (pos n) = pos (n / 2)
  half (negsuc n) = go_httpbin.Base.Int.sub_ℕ 0 (suc n / 2)

  unfoldable pub check_limits : ℤ → ℤ → Result Limits
  check_limits max_fragment_size max_message_size =
      if ltb_ℤ max_message_size max_fragment_size
      then err fragment_limit_above_message_limit
      else ok (record {
        max_fragment_size = pos_part max_fragment_size;
        max_message_size = pos_part max_message_size;
      })

  -- The limits that WebSocketEcho gives to its connection.
  unfoldable pub websocket_limits : Request → Result Limits
  unfolding parse_limit check_limits
  websocket_limits r = do
    max_fragment_size ←
        parse_limit (codes "invalid max_fragment_size") (get (codes "max_fragment_size") r.query)
          (half h.max_body_size)
    max_message_size ←
        parse_limit (codes "invalid max_message_size") (get (codes "max_message_size") r.query)
          h.max_body_size
    check_limits max_fragment_size max_message_size

  -- WebSocketEcho up to its Serve: an error, or the calls of the handshake and the limits that are served.
  unfoldable pub websocket_echo : (Bytes → Bytes) → Request → List Call × Option Limits
  unfolding websocket_limits handshake
  websocket_echo sha1_base64 r = elim (websocket_limits r) [
    | err e ↦ (write_error 400 (some e), none)
    | ok limits ↦ elim (handshake sha1_base64 r) [
      | err e ↦ (write_error 400 (some e), none)
      | ok calls ↦ (calls, some limits)
    ]
  ]

  -- Trailers: the values that are set behind the body are the trailers.
  unfoldable pub trailers : Handler
  unfolding first_forbidden call_all request_with_body
  trailers r = elim (first_forbidden r.query) [
    | some k ↦ write_error 400 (some (forbidden_trailer k))
    | none ↦
        map (λ entry. append_header (codes "Trailer") entry.0) r.query
        ++ (request_with_body lib h r ++ call_all set_header r.query)
  ]

  -- The delay of a range, whose random draw below a bound is a parameter.
  unfoldable pub choose_delay : (ℤ → ℤ) → ℤ → ℤ → ℤ
  choose_delay draw min_delay max_delay =
      if ltb_ℤ min_delay max_delay
      then add64 min_delay (draw (add64 (sub64 max_delay min_delay) (pos 1)))
      else min_delay

  -- Delay, with how long it waits. `left` is whether the client leaves meanwhile.
  unfoldable pub delay : (ℤ → ℤ) → (ℤ → Bytes) → Bool → Request → ℤ × List Call
  unfolding parse_delay_range choose_delay encode_server_timings request_with_body
  delay draw milliseconds left r =
      elim (parse_delay_range lib.clock (get_str (codes "duration") r.path_values) h.max_duration) [
        | err e ↦ (pos 0, write_error 400 (some (in_context (codes "invalid duration") e)))
        | ok range ↦
            let d = choose_delay draw range.0 range.1 in
            if left then (d, write_header 499 ∷ []) else (
              d,
              set_header (codes "Server-Timing") (
                    encode_server_timings milliseconds
                      ((codes "initial_delay", d, codes "initial delay") ∷ []))
                  ∷ request_with_body lib h r,
            )
      ]

  -- The status of ProblemDetails; `override` is that of a pipeline, if there is one.
  unfoldable pub problem_status : Option ℤ → Bytes → Result ℤ
  problem_status override [] = elim override [ none ↦ ok (pos 200) | some status ↦ ok status ]
  problem_status override (c ∷ s) = parse_status_code (c ∷ s)

  abbrev default_to : Bytes → Bytes → Bytes
  default_to default [] = default
  default_to default (c ∷ s) = c ∷ s

  unfoldable pub problem_details : Option ℤ → Handler
  unfolding problem_status problem_content_type
  problem_details override r = elim (problem_status override (get (codes "status") r.query)) [
    | err e ↦ write_error 400 (some e)
    | ok status ↦
        set_header (codes "Content-Type") problem_content_type
        ∷ write_header (pos_part status)
        ∷ write (
            json (
              lib.marshal (
                problem_detail_response (record {
                  type_uri = default_to (codes "about:blank") (get (codes "type") r.query);
                  title =
                      default_to (lib.status_text (pos_part status)) (get (codes "title") r.query);
                  status = status;
                  detail = get (codes "detail") r.query;
                  instance_uri = get (codes "instance") r.query;
                }))))
        ∷ []
  ]

  unfoldable pub response_headers : Handler
  unfolding must_escape_response call_all escape_values json_content_type
  response_headers r =
      let given = get (codes "Content-Type") r.query in
      let content_type = (if is_empty given then json_content_type else given) in
      let args =
        (if is_empty given
          then insert (codes "Content-Type") (content_type ∷ []) r.query
          else r.query) in
      let shown =
        (if must_escape_response lib h content_type
          then escape_values lib.escape_string args
          else args) in
      call_all append_header args ++ write (json (lib.marshal (values_response shown))) ∷ []

-- ===== src/Handlers/Echoes.antt =====
-- The handlers of httpbin/handlers.go that answer with the request, with fixed data or with an input.
use go_httpbin.Base.{
  true, not, ◌||◌, Option, none, some, List, [], ◌∷◌, ◌++◌, if◌then◌else◌, length, Bytes, codes,
  str_eq, get_str, is_empty,
}
use go_httpbin.Base.Int.{ℤ, pos}
use go_httpbin.Strings.{cut}
use go_httpbin.Strings.Number.{atoi, itoa}
use go_httpbin.Http.{
  Request, Call, Handler, Result, ok, err, set_header, append_header, write_header, write, raw, get,
  write_response, write_error, in_context, library_error, no_input_data, input_too_long,
  invalid_operation,
}
use go_httpbin.Pipeline.Terminals.{decode_base64_flexible}
use go_httpbin.Responses.{
  BodyResponse, json_content_type, text_content_type, binary_content_type, env_response,
  no_body_response, body_response, discarded_body_response, ip_response, user_agent_response,
  headers_response, hostname_response, version_response,
}
use go_httpbin.Handlers.{
  show_ℤ, Library, HttpBin, write_html, write_json, describe, client_ip, get_request_headers,
  must_escape_response,
}

unfoldable pub not_implemented_handler : Handler
not_implemented_handler r = write_error 501 none

-- encodeData
unfoldable pub encode_data : (Bytes → Bytes) → Bytes → Bytes → Bytes
unfolding binary_content_type
encode_data url_encoding body content_type =
    codes "data:"
    ++ (if is_empty content_type then binary_content_type else content_type)
    ++ codes ";base64,"
    ++ url_encoding body

-- A library's result, and the body it makes; `none` is the library's error.
abbrev parsed_as : {A : Type 0} → Option A → (A → BodyResponse) → Result BodyResponse
parsed_as none f = err library_error
parsed_as (some a) f = ok (f a)

module _ (lib : Library) (h : HttpBin lib) where
  unfoldable pub index : Handler
  unfolding write_html
  index r =
      if str_eq r.path (codes "/")
      then set_header (codes "Content-Security-Policy") (
          codes
            "default-src 'self'; style-src 'self' 'unsafe-inline'; img-src 'self' camo.githubusercontent.com")
        ∷ write_html h.index_html 200
      else write_error 404 none

  unfoldable pub show_env : Handler
  unfolding write_json
  show_env r = write_json lib 200 (env_response h.env)

  unfoldable pub forms_post : Handler
  unfolding write_html
  forms_post r = write_html h.forms_post_html 200

  -- Get of HTTPBin
  unfoldable pub get_handler : Handler
  unfolding write_json describe
  get_handler r = write_json lib 200 (no_body_response (describe lib h r))

  abbrev pub empty_body : Request → BodyResponse
  empty_body r =
      let described = describe lib h r in
      record {
        args = described.args;
        headers = described.headers;
        method = described.method;
        origin = described.origin;
        url = described.url;
        body_data = [];
        files = [];
        form = [];
        json = none;
      }

  -- The switch of parseBody, on a body that is not empty.
  unfoldable pub parse_body_as : Bytes → Request → Bytes → BodyResponse → Result BodyResponse
  unfolding encode_data
  parse_body_as content_type r body resp =
      if str_eq content_type (codes "text/html") || str_eq content_type (codes "text/plain")
      then ok resp
      else if str_eq content_type (codes "application/x-www-form-urlencoded")
      then parsed_as (lib.post_form r) (λ form. record resp { form = form })
      else if str_eq content_type (codes "multipart/form-data")
      then parsed_as (lib.multipart_form r)
          (λ parts. record resp { form = parts.0; files = parts.1 })
      else if str_eq content_type (codes "application/json")
      then parsed_as (lib.decode_json body) (λ text. record resp { json = some text })
      else ok (record resp { body_data = encode_data lib.url_encoding body content_type })

  unfoldable pub parse_body : Request → BodyResponse → Result BodyResponse
  unfolding parse_body_as
  parse_body r resp = elim (lib.read_body r) [
    | none ↦ err library_error
    | some body ↦
        if is_empty body
        then ok resp
        else parse_body_as (cut b';' (get (codes "Content-Type") r.header)).0 r body
            (record resp { body_data = body })
  ]

  unfoldable pub request_with_body : Handler
  unfolding write_json describe parse_body
  request_with_body r = elim (parse_body r (empty_body r)) [
    | err e ↦ write_error 400 (some (in_context (codes "error parsing request body") e))
    | ok resp ↦ write_json lib 200 (body_response resp)
  ]

  unfoldable pub anything : Handler
  unfolding get_handler request_with_body
  anything r = if str_eq r.method (codes "HEAD") then get_handler r else request_with_body r

  unfoldable pub request_with_body_discard : Handler
  unfolding write_json describe
  request_with_body_discard r = elim (lib.read_body r) [
    | none ↦ write_error 500 (some library_error)
    | some body ↦ write_json lib 200 (
        discarded_body_response
          (record { no_body = describe lib h r; bytes_received = pos (length body) }))
  ]

  -- The answer of Gzip and Deflate: the body compressed.
  abbrev compressed : Bytes → Bytes → List Call
  compressed encoding body =
      set_header (codes "Content-Encoding") encoding
      ∷ set_header (codes "Content-Type") json_content_type
      ∷ set_header (codes "Content-Length") (itoa (length body))
      ∷ write_header 200
      ∷ write (raw body)
      ∷ []

  unfoldable pub gzip : Handler
  unfolding describe json_content_type
  gzip r =
      let resp = describe lib h r in
      compressed (codes "gzip")
        (lib.gzip (lib.marshal (no_body_response (record resp { gzipped = true; url = [] }))))

  unfoldable pub deflate : Handler
  unfolding describe json_content_type
  deflate r =
      let resp = describe lib h r in
      compressed (codes "deflate")
        (lib.zlib (lib.marshal (no_body_response (record resp { deflated = true; url = [] }))))

  unfoldable pub ip : Handler
  unfolding write_json client_ip
  ip r = write_json lib 200 (ip_response (client_ip lib h r))

  unfoldable pub user_agent : Handler
  unfolding write_json
  user_agent r = write_json lib 200 (user_agent_response (get (codes "User-Agent") r.header))

  unfoldable pub headers : Handler
  unfolding write_json get_request_headers
  headers r =
      write_json lib 200 (headers_response (get_request_headers lib r h.exclude_headers_processor))

  unfoldable pub robots : Handler
  unfolding text_content_type
  robots r = write_response 200 text_content_type (codes "User-agent: *\nDisallow: /deny\n")

  unfoldable pub deny : Handler
  unfolding text_content_type
  deny r = write_response 200 text_content_type (codes "YOU SHOULDN'T BE HERE")

  -- `now` is the time in the form of RFC 1123.
  unfoldable pub cache : Bytes → Handler
  unfolding get_handler
  cache now r =
      if not (is_empty (get (codes "If-Modified-Since") r.header))
        || not (is_empty (get (codes "If-None-Match") r.header))
      then write_header 304 ∷ []
      else append_header (codes "Last-Modified") now
        ∷ append_header (codes "Etag") (lib.sha1_hex now)
        ∷ get_handler r

  unfoldable pub cache_control : Handler
  unfolding get_handler
  cache_control r = elim (atoi (get_str (codes "numSeconds") r.path_values)) [
    | none ↦ write_error 400 (some (in_context (codes "invalid seconds") library_error))
    | some seconds ↦
        append_header (codes "Cache-Control") (codes "public, max-age=" ++ show_ℤ seconds)
        ∷ get_handler r
  ]

  unfoldable pub show_hostname : Handler
  unfolding write_json
  show_hostname r = write_json lib 200 (hostname_response h.hostname)

  unfoldable pub show_version : Handler
  unfolding write_json
  show_version r =
      write_json lib 200
        (version_response (record { version = h.version; go_version = lib.go_version }))

  unfoldable pub dump_request : Handler
  dump_request r = elim (lib.dump_request r) [
    | none ↦ write_error 500 (some (in_context (codes "failed to dump request") library_error))
    | some dump ↦ write (raw dump) ∷ []
  ]

  unfoldable pub echo : Handler
  unfolding must_escape_response text_content_type binary_content_type
  echo r = elim (lib.read_body r) [
    | none ↦ write_error 400 (some (in_context (codes "error reading request body") library_error))
    | some body ↦
        let given = get (codes "Content-Type") r.header in
        let ct = (if is_empty given then binary_content_type else given) in
        if must_escape_response lib h ct
        then write_response 200 text_content_type (lib.escape_string body)
        else write_response 200 ct body
  ]

  -- base64Helper's transform, with its operation, its data and its greatest length.
  unfoldable pub transform : Bytes → Bytes → ℤ → Result Bytes
  unfolding decode_base64_flexible
  transform operation encoded max_len =
      let n = pos (length encoded) in
      if is_empty encoded
      then err no_input_data
      else if go_httpbin.Base.Int.ltb_ℤ max_len n
      then err input_too_long
      else if str_eq operation (codes "encode")
      then ok (lib.url_encoding encoded)
      else if str_eq operation (codes "decode")
      then elim (decode_base64_flexible lib.decoders encoded) [
        | none ↦ err (in_context (codes "base64 decode failed") library_error)
        | some decoded ↦ ok decoded
      ]
      else err (invalid_operation operation)

  unfoldable pub base64_operation : Request → Bytes
  base64_operation r =
      let operation = get_str (codes "operation") r.path_values in
      if is_empty operation then codes "decode" else operation

  unfoldable pub base64 : Handler
  unfolding transform base64_operation must_escape_response text_content_type
  base64 r =
      elim (transform (base64_operation r) (get_str (codes "data") r.path_values) h.max_body_size) [
        | err e ↦ write_error 400 (some e)
        | ok result ↦
            let given = get (codes "content-type") r.query in
            let ct = (if is_empty given then text_content_type else given) in
            write_response 200 ct
              (if must_escape_response lib h ct then lib.escape_string result else result)
      ]

-- ===== src/Mix.antt =====
-- httpbin/mix.go: the /mix endpoint. The client's disconnection during the delay, the decoders of
-- base64 and the parsers of durations are parameters.
pub mod Answering
use go_httpbin.Base.{
  Bool, not, ◌&&◌, ◌||◌, Option, none, some, List, [], ◌∷◌, ◌++◌, ltb, if◌then◌else◌, length, any,
  Bytes, codes, str_eq, lookup, is_empty,
}
use go_httpbin.Base.Int.{ℤ, pos, ltb_ℤ, pos_part, add64}
use go_httpbin.Strings.{split, cut, trim_prefix, has_prefix, to_lower, remove_byte, slash}
use go_httpbin.Http.{
  Request, Call, Result, ok, err, ◌>>=◌, set_header, write_header, write, raw, write_error,
  canonical, too_many_directives, invalid_directive, unknown_directive, in_context, invalid_header,
  header_not_allowed, invalid_base64, total_delay_too_long,
}
use go_httpbin.Parsing.{Clock, parse_status_code, parse_bounded_duration}

pub data Kind : Type 0 where
  set_status add_header add_delay set_body : Kind

pub record MixDirective : Type 0 where
  pub kind : Kind
  pub value : Bytes

unfoldable pub mix_allowed_headers : List Bytes
mix_allowed_headers =
    codes "retry-after"
    ∷ codes "cache-control"
    ∷ codes "content-language"
    ∷ codes "x-ratelimit-limit"
    ∷ codes "x-ratelimit-remaining"
    ∷ codes "x-ratelimit-reset"
    ∷ []

unfoldable pub is_allowed_mix_header : Bytes → Bool
is_allowed_mix_header name =
    let lower = to_lower name in
    has_prefix lower (codes "x-") || any (str_eq lower) mix_allowed_headers

unfoldable pub kind_of : Bytes → Option Kind
kind_of key = lookup key (
    (codes "s", set_status)
    ∷ (codes "h", add_header)
    ∷ (codes "d", add_delay)
    ∷ (codes "b64", set_body)
    ∷ [])

unfoldable pub parse_directive : Bytes → Result MixDirective
unfolding kind_of
parse_directive seg =
    let parts = cut b'=' seg in
    if not parts.2 then err (invalid_directive seg) else elim (kind_of parts.0) [
      | none ↦ err (unknown_directive parts.0)
      | some kind ↦ ok (record { kind = kind; value = parts.1 })
    ]

unfoldable pub parse_directives : List Bytes → Result (List MixDirective)
unfolding parse_directive
parse_directives [] = ok []
parse_directives (seg ∷ segs) =
    let rest = parse_directives segs in
    if is_empty seg then rest else parse_directive seg >>= λ d. rest >>= λ ds. ok (d ∷ ds)

unfoldable pub parse_mix_directives : Bytes → Result (List MixDirective)
unfolding parse_directives
parse_mix_directives path =
    let path' = trim_prefix (trim_prefix path (codes "/mix/")) (codes "/mix") in
    let segments = split slash (trim_prefix path' (codes "/")) in
    if is_empty path' || str_eq path' (codes "/")
    then ok []
    else if ltb 20 (length segments)
    then err (too_many_directives (length segments))
    else parse_directives segments

-- The variables of the handler, and the headers it has set.
pub record Mixed : Type 0 where
  pub status : ℤ
  pub body : Bytes
  pub total_delay : ℤ
  pub headers : List Call

abbrev pub unmixed : Mixed
unmixed = record { status = pos 200; body = []; total_delay = pos 0; headers = [] }

pub record World : Type 0 where
  pub clock : Clock
  pub max_duration : ℤ
  pub url_decode : Bytes → Option Bytes
  pub std_decode : Bytes → Option Bytes
  pub is_done : Bool

abbrev without_crlf : Bytes → Bytes
without_crlf s = remove_byte b'\n' (remove_byte b'\r' s)

-- What is written after the delay.
unfoldable pub mix_answer : Mixed → List Call
mix_answer m =
    if ltb 0 (length m.body)
    then write_header (pos_part m.status) ∷ write (raw m.body) ∷ []
    else write_header (pos_part m.status) ∷ []

module _ (world : World) where
  unfoldable pub mix_status : Bytes → Mixed → Result Mixed
  mix_status value m = elim (parse_status_code value) [
    | err e ↦ err (in_context (codes "status") e)
    | ok code ↦ ok (record m { status = code })
  ]

  unfoldable pub mix_header : Bytes → Mixed → Result Mixed
  mix_header value m =
      let parts = cut b':' value in
      let val = without_crlf parts.1 in
      let name = without_crlf parts.0 in
      if not parts.2
      then err (invalid_header value)
      else if not (is_allowed_mix_header name)
      then err (header_not_allowed name)
      else ok (record m { headers = m.headers ++ set_header (canonical name) val ∷ [] })

  unfoldable pub mix_delay : Bytes → Mixed → Result Mixed
  mix_delay value m = elim (parse_bounded_duration world.clock value (pos 0) world.max_duration) [
    | err e ↦ err (in_context (codes "delay") e)
    | ok delay ↦ ok (record m { total_delay = add64 m.total_delay delay })
  ]

  unfoldable pub mix_body : Bytes → Mixed → Result Mixed
  mix_body value m = elim (world.url_decode value) [
    | some decoded ↦ ok (record m { body = decoded })
    | none ↦ elim (world.std_decode value) [
      | none ↦ err (invalid_base64 value)
      | some decoded ↦ ok (record m { body = decoded })
    ]
  ]

  unfoldable pub apply_directive : Kind → Bytes → Mixed → Result Mixed
  unfolding mix_status mix_header mix_delay mix_body
  apply_directive set_status value m = mix_status value m
  apply_directive add_header value m = mix_header value m
  apply_directive add_delay value m = mix_delay value m
  apply_directive set_body value m = mix_body value m

  -- From the check of the total on.
  unfoldable pub finish_mix : Mixed → List Call
  unfolding mix_answer
  finish_mix m =
      if ltb_ℤ world.max_duration m.total_delay
      then m.headers
        ++ write_error 400 (some (total_delay_too_long m.total_delay world.max_duration))
      else if ltb_ℤ (pos 0) m.total_delay && world.is_done
      then m.headers
      else m.headers ++ mix_answer m

  -- The loop. The headers set before an error stay on its response.
  unfoldable pub mix_directives : List MixDirective → Mixed → List Call
  unfolding apply_directive finish_mix
  mix_directives [] m = finish_mix m
  mix_directives (d ∷ ds) m = elim (apply_directive d.kind d.value m) [
    | err e ↦ m.headers ++ write_error 400 (some e)
    | ok m' ↦ mix_directives ds m'
  ]

  unfoldable pub mix : Request → List Call
  unfolding mix_directives
  mix r = elim (parse_mix_directives r.path) [
    | err e ↦ write_error 400 (some e)
    | ok ds ↦ mix_directives ds unmixed
  ]

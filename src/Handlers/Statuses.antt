-- ===== src/Handlers/Statuses.antt =====
-- Status and Unstable of httpbin/handlers.go, with the weighted choices of httpbin/helpers.go. float64 is
-- a type with the operations that are used.
pub mod Choosing
pub mod Sending
use go_httpbin.Base.{
  ℕ, Bool, true, false, not, ◌||◌, Option, none, some, List, [], ◌∷◌, ◌++◌, ◌==◌, if◌then◌else◌,
  Bytes, codes, get_str, is_empty,
}
use go_httpbin.Base.Int.{ℤ, pos, pos_part}
use go_httpbin.Strings.{split, cut, contains_byte}
use go_httpbin.Strings.Number.{atoi}
use go_httpbin.Http.{
  Request, Call, Handler, Result, ok, err, set_header, write_header, write, raw, get, write_error,
  in_context, library_error, invalid_weight, invalid_choice, failure_rate_out_of_range,
}
use go_httpbin.Parsing.{parse_status_code}
use go_httpbin.Handlers.{parse_seed}
use go_httpbin.Responses.{text_content_type, json_content_type}

pub record StatusCase : Type 0 where
  pub headers : List (Bytes × Bytes)
  pub body : Option Bytes

abbrev one_header : Bytes → Bytes → Option Bytes → StatusCase
one_header name value body = record { headers = (name, value) ∷ []; body = body }

abbrev to_redirect : Bytes → StatusCase
to_redirect prefix = one_header (codes "Location") (prefix ++ codes "/redirect/1") none

unfoldable pub not_acceptable_body : Bytes
not_acceptable_body =
    codes "{\n  \"message\": \"Client did not request a supported media type\",\n  \"accept\": [\n"
    ++ codes
        "    \"image/webp\",\n    \"image/svg+xml\",\n    \"image/jpeg\",\n    \"image/png\",\n"
    ++ codes "    \"image/avif\",\n    \"image/\"\n  ]\n}\n"

unfoldable pub status_300_body : Bytes → Bytes
status_300_body prefix =
    codes
      "<!doctype html>\n<head>\n<title>Multiple Choices</title>\n</head>\n<body>\n<ul>\n<li><a href=\""
    ++ prefix
    ++ codes "/image/jpeg\">/image/jpeg</a></li>\n<li><a href=\""
    ++ prefix
    ++ codes "/image/png\">/image/png</a></li>\n<li><a href=\""
    ++ prefix
    ++ codes "/image/svg\">/image/svg</a></li>\n</body>\n</html>"

unfoldable pub status_308_body : Bytes → Bytes
status_308_body prefix =
    codes
      "<!doctype html>\n<head>\n<title>Permanent Redirect</title>\n</head>\n<body>Permanently redirected to <a href=\""
    ++ prefix
    ++ codes "/image/jpeg\">"
    ++ prefix
    ++ codes "/image/jpeg</a>\n</body>\n</html>"

unfoldable pub create_special_cases : Bytes → List (ℕ × StatusCase)
unfolding not_acceptable_body status_300_body status_308_body json_content_type
create_special_cases prefix =
    (
      300,
      one_header (codes "Location") (prefix ++ codes "/image/jpeg") (some (status_300_body prefix)),
    )
    ∷ (301, to_redirect prefix)
    ∷ (302, to_redirect prefix)
    ∷ (303, to_redirect prefix)
    ∷ (305, to_redirect prefix)
    ∷ (307, to_redirect prefix)
    ∷ (
      308,
      one_header (codes "Location") (prefix ++ codes "/image/jpeg") (some (status_308_body prefix)),
    )
    ∷ (401, one_header (codes "Www-Authenticate") (codes "Basic realm=\"Fake Realm\"") none)
    ∷ (
      402,
      one_header (codes "X-More-Info") (codes "http://vimeo.com/22053820")
          (some (codes "Fuck you, pay me!")),
    )
    ∷ (406, one_header (codes "Content-Type") json_content_type (some not_acceptable_body))
    ∷ (407, one_header (codes "Proxy-Authenticate") (codes "Basic realm=\"Fake Realm\"") none)
    ∷ (
      418,
      one_header (codes "X-More-Info") (codes "http://tools.ietf.org/html/rfc2324")
          (some (codes "I'm a teapot!")),
    )
    ∷ (429, one_header (codes "Retry-After") (codes "5") none)
    ∷ []

unfoldable pub special_case : ℕ → List (ℕ × StatusCase) → Option StatusCase
special_case code [] = none
special_case code ((n, c) ∷ cases) =
    let rest = special_case code cases in if n == code then some c else rest

unfoldable pub set_headers : List (Bytes × Bytes) → List Call
set_headers [] = []
set_headers ((key, val) ∷ headers) = set_header key val ∷ set_headers headers

abbrev pub write_some : Option Bytes → List Call
write_some none = []
write_some (some body) = write (raw body) ∷ []

-- A negative status, which is as invalid as 0, is written as 0.
unfoldable pub do_status : Bytes → ℤ → List Call
unfolding create_special_cases special_case set_headers text_content_type
do_status prefix code =
    set_header (codes "Content-Type") text_content_type
    ∷ elim (special_case (pos_part code) (create_special_cases prefix)) [
      | some c ↦ set_headers c.headers ++ write_header (pos_part code) ∷ write_some c.body
      | none ↦ write_header (pos_part code) ∷ []
    ]

pub record Float64 (N : Type 0) : Type 0 where
  pub parse_float : Bytes → Option N
  pub zero_float : N
  pub half : N
  pub one : N
  pub add : N → N → N
  pub mul : N → N → N
  pub lt : N → N → Bool

module _ {N : Type 0} (float : Float64 N) where
  -- The weight of a choice, from what cut has made of it.
  unfoldable pub parse_weight : Bytes → Bool → Result N
  parse_weight raw_weight false = ok float.one
  parse_weight raw_weight true = elim (float.parse_float raw_weight) [
    | none ↦ err (invalid_weight raw_weight)
    | some weight ↦ ok weight
  ]

  module _ {T : Type 0} where
    unfoldable pub parse_choice : (Bytes → Option T) → Bytes → Result (T × N)
    unfolding parse_weight
    parse_choice parser choice_pair =
        let parts = cut b':' choice_pair in
        elim (parse_weight parts.1 parts.2) [
          | err e ↦ err e
          | ok weight ↦ elim (parser parts.0) [
            | none ↦ err (invalid_choice parts.0)
            | some choice ↦ ok (choice, weight)
          ]
        ]

    unfoldable pub parse_choices : (Bytes → Option T) → List Bytes → Result (List (T × N))
    unfolding parse_choice
    parse_choices parser [] = ok []
    parse_choices parser (pair ∷ pairs) =
        let rest = parse_choices parser pairs in
        elim (parse_choice parser pair) [
          | err e ↦ err e
          | ok choice ↦ elim rest [ err e ↦ err e | ok choices ↦ ok (choice ∷ choices) ]
        ]

    unfoldable pub parse_weighted_choices : Bytes → (Bytes → Option T) → Result (List (T × N))
    unfolding parse_choices
    parse_weighted_choices raw_choices parser =
        if is_empty raw_choices then ok [] else parse_choices parser (split b',' raw_choices)

    unfoldable pub total_weight : List (T × N) → N → N
    total_weight [] total = total
    total_weight ((_, weight) ∷ choices) total = total_weight choices (float.add total weight)

    -- The second loop; `none` is its panic.
    unfoldable pub select : List (T × N) → N → N → Option T
    select [] number current = none
    select ((choice, weight) ∷ choices) number current =
        let current' = float.add current weight in
        let rest = select choices number current' in
        if float.lt number current' then some choice else rest

    -- `random` is what randomFloat64 returns.
    unfoldable pub weighted_random_choice : List (T × N) → N → Option T
    unfolding total_weight select
    weighted_random_choice choices random =
        select choices (float.mul random (total_weight choices float.zero_float)) float.zero_float

  -- Status; `none` is a panic of the choice.
  unfoldable pub status : Bytes → N → Request → Option (List Call)
  unfolding do_status parse_weighted_choices weighted_random_choice
  status prefix random r =
      let raw_status = get_str (codes "code") r.path_values in
      if not (contains_byte b',' raw_status)
      then elim (parse_status_code raw_status) [
        | err e ↦ some (write_error 400 (some e))
        | ok code ↦ some (do_status prefix code)
      ]
      else elim (parse_weighted_choices raw_status atoi) [
        | err e ↦ some (write_error 400 (some e))
        | ok choices ↦ elim (weighted_random_choice choices random) [
          | none ↦ none
          | some choice ↦ some (do_status prefix choice)
        ]
      ]

  -- The failure rate that Unstable reads.
  unfoldable pub failure_rate : Bytes → Result N
  failure_rate raw_failure_rate =
      if is_empty raw_failure_rate
      then ok float.half
      else elim (float.parse_float raw_failure_rate) [
        | none ↦ err (in_context (codes "invalid failure rate") library_error)
        | some rate ↦
            if float.lt rate float.zero_float || float.lt float.one rate
            then err failure_rate_out_of_range
            else ok rate
      ]

  -- `random` gives the first number of a generator from its seed; `now` is the seed without one.
  unfoldable pub unstable : ℤ → (ℤ → N) → Handler
  unfolding failure_rate parse_seed text_content_type
  unstable now random r = elim (parse_seed now (get (codes "seed") r.query)) [
    | none ↦ write_error 400 (some (in_context (codes "invalid seed") library_error))
    | some seed ↦ elim (failure_rate (get (codes "failure_rate") r.query)) [
      | err e ↦ write_error 400 (some e)
      | ok rate ↦
          set_header (codes "Content-Type") text_content_type
          ∷ write_header (if float.lt (random seed) rate then 500 else 200)
          ∷ []
    ]
  ]

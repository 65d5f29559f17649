-- ===== src/Http.antt =====
-- What the handlers see of net/http: requests, headers, and the calls that a handler makes on its
-- ResponseWriter, in order; and writeError and writeResponse of httpbin/helpers.go.
-- `Server` plays the calls against a connection.
pub mod Server
use go_httpbin.Base.{
  ℕ, Bool, true, false, not, ◌&&◌, ◌||◌, Option, none, some, List, [], ◌∷◌, ◌++◌, leb, ◌==◌,
  if◌then◌else◌, any, Bytes, codes, lookup, insert,
}
use go_httpbin.Base.Int.{ℤ}
use go_httpbin.Strings.{lower_byte, upper_byte, has_prefix}

-- The errors whose text ends up in a response's `detail`, by what the text names.
pub data Error : Type 0 where
  empty_pipeline no_terminal : Error
  too_many_segments : ℕ → Error
  requires_value unknown_segment unknown_terminal : Bytes → Error
  requires_arguments : Bytes → ℕ → ℕ → Error
  too_many_directives : ℕ → Error
  invalid_directive unknown_directive : Bytes → Error
  invalid_status_code : Bytes → Error
  status_code_out_of_range : ℤ → ℤ → ℤ → Error
  invalid_duration : Bytes → Error
  duration_too_long duration_too_short : ℤ → ℤ → Error
  invalid_delay_range : ℤ → ℤ → Error
  total_delay_too_long : ℤ → ℤ → Error
  in_context : Bytes → Error → Error
  image_token_requires_value : Bytes → Error
  unknown_terminal_name : Bytes → Error
  invalid_header header_not_allowed : Bytes → Error
  invalid_header_characters : Error
  method_not_allowed : Bytes → Bytes → Error
  missing_argument : Bytes → Error
  invalid_redirect_count : Bytes → Error
  redirect_count_too_small redirect_count_too_big : Error
  invalid_base64 : Bytes → Error
  unsupported_extension unknown_image_parameter : Bytes → Error
  invalid_upgrade invalid_websocket_version missing_websocket_key : Error
  invalid_limit : Bytes → Error
  fragment_limit_above_message_limit : Error
  no_input_data input_too_long : Error
  invalid_operation : Bytes → Error
  invalid_qop invalid_algorithm : Bytes → Error
  -- An error whose text comes from Go's library.
  library_error : Error
  out_of_range : Bytes → ℤ → ℤ → Error
  must_be_greater : Bytes → ℤ → Error
  redirect_count_not_positive : Error
  missing_query_parameter forbidden_trailer : Bytes → Error
  invalid_weight invalid_choice : Bytes → Error
  failure_rate_out_of_range : Error
  message : Bytes → Error
  invalid_value : Bytes → Bytes → Error
  too_much_time : ℤ → ℤ → ℤ → Error

pub data Result {ℓ} (A : Type ℓ) : Type ℓ where
  ok : A → Result A
  err : Error → Result A

infixl 5 ◌>>=◌
abbrev pub ◌>>=◌ {ℓ κ} : {A : Type ℓ} {B : Type κ} → Result A → (A → Result B) → Result B
ok a >>= f = f a
err e >>= f = err e

-- A header or a query: each name with its values.
abbrev pub Values : Type 0
Values = List (Bytes × List Bytes)

abbrev pub first : Option (List Bytes) → Bytes
first none = []
first (some []) = []
first (some (v ∷ vs)) = v

-- url.Values.Get, and http.Header.Get at a canonical name.
abbrev pub get : Bytes → Values → Bytes
get k m = first (lookup k m)

-- A value added to those that a name has.
abbrev pub add_value : Bytes → Bytes → Values → Values
add_value k v m = elim (lookup k m) [
  | none ↦ insert k (v ∷ []) m
  | some vs ↦ insert k (vs ++ v ∷ []) m
]

-- A letter at the start and behind a dash is made a capital, any other a small letter.
unfoldable pub canonical_from : Bool → Bytes → Bytes
canonical_from start [] = []
canonical_from start (c ∷ s) =
    (if start then upper_byte c else lower_byte c) ∷ canonical_from (c == b'-') s

-- The bytes of a token: letters, digits and these.
unfoldable pub is_token_byte : ℕ → Bool
is_token_byte c =
    leb b'a' c && leb c b'z'
    || leb b'A' c && leb c b'Z'
    || leb b'0' c && leb c b'9'
    || any (λ d. d == c) (codes "!#$%&'*+-.^_`|~")

-- A header name in its canonical form. A name with any other byte is left as it is.
unfoldable pub canonical : Bytes → Bytes
unfolding canonical_from upper_byte lower_byte is_token_byte
canonical s = if any (λ c. not (is_token_byte c)) s then s else canonical_from true s

pub record Request : Type 0 where
  pub method : Bytes
  pub path : Bytes
  pub host : Bytes
  pub remote_addr : Bytes
  pub header : Values
  pub query : Values
  pub path_values : List (Bytes × Bytes)

-- What is written: bytes, or what mustMarshalJSON writes, JSON text or that of an error response. It panics
-- if the write fails.
pub data Chunk : Type 0 where
  raw json : Bytes → Chunk
  error_json : ℕ → Option Error → Chunk

abbrev pub is_marshalled : Chunk → Bool
is_marshalled (raw b) = false
is_marshalled (json b) = true
is_marshalled (error_json code e) = true

-- Calls on a ResponseWriter; `append_header` is the Add of http.Header. Names are in canonical form.
pub data Call : Type 0 where
  set_header append_header : Bytes → Bytes → Call
  write_header : ℕ → Call
  write : Chunk → Call

abbrev pub Handler : Type 0
Handler = Request → List Call

unfoldable pub write_error : ℕ → Option Error → List Call
write_error code e =
    set_header (codes "Content-Type") (codes "application/json; charset=utf-8")
    ∷ write_header code
    ∷ write (error_json code e)
    ∷ []

unfoldable pub write_response : ℕ → Bytes → Bytes → List Call
write_response status content_type body =
    set_header (codes "Content-Type") content_type ∷ write_header status ∷ write (raw body) ∷ []

-- doRedirect of httpbin/handlers.go, with the prefix under which the program serves.
unfoldable pub do_redirect : Bytes → Bytes → ℕ → List Call
do_redirect prefix path code =
    set_header (codes "Location") (
      if has_prefix path (codes "/") && not (has_prefix path (codes "//"))
      then prefix ++ path
      else path)
    ∷ write_header code
    ∷ []

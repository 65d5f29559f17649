-- ===== src/Pipeline/Terminals.antt =====
-- dispatchTerminal of httpbin/pipeline.go and the dispatchers of the terminals that it treats on their
-- own. The other handlers, base64 and the text of an absolute URL are parameters.
pub mod Redirects
pub mod Registry
use go_httpbin.Base.{
  ℕ, ◌-◌, Bool, true, false, not, ◌&&◌, ◌||◌, Option, none, some, List, [], ◌∷◌, ◌++◌, ltb, ◌==◌,
  if◌then◌else◌, any, Bytes, codes, str_eq, lookup, insert, is_empty,
}
use go_httpbin.Base.Int.{ℤ, pos, negsuc, ltb_ℤ, pos_part}
use go_httpbin.Strings.{slash, join, contains_byte, to_lower, has_prefix}
use go_httpbin.Strings.Number.{atoi, itoa}
use go_httpbin.Http.{
  Request, Handler, Call, Values, set_header, write_header, write, raw, write_error, get,
  do_redirect, missing_argument, invalid_redirect_count, redirect_count_too_small,
  redirect_count_too_big, invalid_base64, unsupported_extension, unknown_image_parameter, ok, err,
  image_token_requires_value, unknown_terminal_name,
}
use go_httpbin.Pipeline.Parsing.{slashed}
use go_httpbin.Pipeline.{
  TerminalDef, PipelineStep, RedirectType, redirect, absolute_redirect, relative_redirect,
  redirect_name, build_terminal_handlers,
}

-- The four decoders of encoding/base64.
pub record Base64 : Type 0 where
  pub url : Bytes → Option Bytes
  pub raw_url : Bytes → Option Bytes
  pub std : Bytes → Option Bytes
  pub raw_std : Bytes → Option Bytes

abbrev or_else : Option Bytes → Option Bytes → Option Bytes
or_else none b = b
or_else (some a) b = some a

-- decodeBase64Flexible of httpbin/helpers.go
unfoldable pub decode_base64_flexible : Base64 → Bytes → Option Bytes
decode_base64_flexible codec encoded =
    or_else (codec.url encoded)
      (or_else (codec.raw_url encoded) (or_else (codec.std encoded) (codec.raw_std encoded)))

-- What the dispatchers call. `methods` gives the handler of each method of HTTPBin by its name,
-- `absolute` the text of getURL's result with another path and no query.
pub record Dispatcher : Type 0 where
  pub prefix : Bytes
  pub methods : Bytes → Handler
  pub do_image : Bytes → List Call
  pub absolute : Request → Bytes → Bytes
  pub base64 : Base64

unfoldable pub set_path_value : Bytes → Bytes → Request → Request
set_path_value name value r = record r { path_values = insert name value r.path_values }

unfoldable pub set_query : Bytes → Bytes → Values → Values
set_query name value q = insert name (value ∷ []) q

unfoldable pub set_path_values : List Bytes → List Bytes → Request → Request
unfolding set_path_value
set_path_values [] args r = r
set_path_values (name ∷ names) [] r = r
set_path_values (name ∷ names) (arg ∷ args) r =
    set_path_values names args (set_path_value name arg r)

-- path.Ext: from the last dot on, if no slash follows it.
unfoldable pub ext : Bytes → Bytes
ext [] = []
ext (c ∷ s) =
    let rest = ext s in
    if not (is_empty rest)
    then rest
    else if c == b'.' && not (contains_byte slash s)
    then c ∷ s
    else []

unfoldable pub image_ext_to_kind : List (Bytes × Bytes)
image_ext_to_kind =
    (codes ".png", codes "png")
    ∷ (codes ".jpeg", codes "jpeg")
    ∷ (codes ".jpg", codes "jpeg")
    ∷ (codes ".svg", codes "svg")
    ∷ (codes ".webp", codes "webp")
    ∷ (codes ".avif", codes "avif")
    ∷ []

-- Whether a token takes a value.
unfoldable pub image_path_tokens : List (Bytes × Bool)
image_path_tokens =
    (codes "size", true)
    ∷ (codes "gradient", true)
    ∷ (codes "color1", true)
    ∷ (codes "color2", true)
    ∷ (codes "noise", true)
    ∷ (codes "no-cache", false)
    ∷ []

abbrev is_kind : Bytes → Bool
is_kind s =
    any (str_eq s) (codes "png" ∷ codes "jpeg" ∷ codes "svg" ∷ codes "webp" ∷ codes "avif" ∷ [])

-- The token loop: the query it leaves and the arguments that remain, or the token with no value. The
-- only flag is no-cache.
unfoldable pub image_tokens : List Bytes → Values → go_httpbin.Http.Result (Values × List Bytes)
image_tokens [] q = ok (q, [])
image_tokens (token ∷ []) q = elim (lookup token image_path_tokens) [
  | none ↦ ok (q, token ∷ [])
  | some takes_value ↦
      if takes_value
      then err (image_token_requires_value token)
      else ok (set_query (codes "nocache") (codes "1") q, [])
]
image_tokens (token ∷ value ∷ args) q =
    let flag = image_tokens (value ∷ args) (set_query (codes "nocache") (codes "1") q) in
    let valued = image_tokens args (set_query token value q) in
    elim (lookup token image_path_tokens) [
      | none ↦ ok (q, token ∷ value ∷ args)
      | some takes_value ↦ if takes_value then valued else flag
    ]

module _ (h : Dispatcher) where
  unfoldable pub dispatch_image_by_kind : Bytes → Handler
  dispatch_image_by_kind kind r =
      if not (is_empty (get (codes "size") r.query))
        || (not (is_empty (get (codes "gradient") r.query))
            || not (is_empty (get (codes "color1") r.query)))
      then h.methods (codes "Image") r
      else h.do_image kind

  abbrev of_kind : Bytes → Handler
  of_kind kind r =
      dispatch_image_by_kind kind
        (record (set_path_value (codes "kind") kind r) { path = codes "/image/" ++ kind })

  -- The arguments behind the tokens.
  unfoldable pub image_name : List Bytes → Handler
  unfolding dispatch_image_by_kind set_path_value ext
  image_name [] r = h.methods (codes "ImageAccept") (record r { path = codes "/image" })
  image_name (name ∷ more) r =
      let e = to_lower (ext name) in
      if not (is_empty e)
      then elim (lookup e image_ext_to_kind) [
        | none ↦ write_error 400 (some (unsupported_extension e))
        | some kind ↦ of_kind kind r
      ]
      else if is_kind name
      then (if is_empty_list more then of_kind name r else write_error 404 none)
      else write_error 400 (some (unknown_image_parameter name))
    where
      is_empty_list : List Bytes → Bool
      is_empty_list [] = true
      is_empty_list (x ∷ xs) = false

  unfoldable pub dispatch_image_terminal : List Bytes → Handler
  unfolding image_name image_tokens
  dispatch_image_terminal [] r =
      h.methods (codes "ImageAccept") (record r { path = codes "/image" })
  dispatch_image_terminal (arg ∷ args) r = elim (image_tokens (arg ∷ args) r.query) [
    | err e ↦ write_error 400 (some e)
    | ok taken ↦ image_name taken.1 (record r { query = taken.0 })
  ]

  -- A redirect to a path below the prefix, relative or with the server's own URL.
  abbrev pub redirect_to_path : RedirectType → Request → Bytes → List Call
  redirect_to_path redirect r path = do_redirect h.prefix path 302
  redirect_to_path absolute_redirect r path =
      do_redirect h.prefix (h.absolute r (h.prefix ++ path)) 302
  redirect_to_path relative_redirect r path = do_redirect h.prefix path 302

  -- The path of the redirect that comes next, behind the modifiers.
  unfoldable pub next_path : RedirectType → ℕ → List Bytes → Bytes → Bytes
  next_path kind count [] modifier_prefix =
      if ltb 1 count
      then modifier_prefix ++ slash ∷ redirect_name kind ++ slash ∷ itoa (count - 1)
      else modifier_prefix ++ codes "/get"
  next_path kind count (dest ∷ more) modifier_prefix =
      if ltb 1 count
      then modifier_prefix
        ++ slash ∷ redirect_name kind
        ++ slash ∷ itoa (count - 1)
        ++ slash ∷ join slash (dest ∷ more)
      else modifier_prefix ++ slash ∷ join slash (dest ∷ more)

  unfoldable pub dispatch_redirect_terminal : RedirectType → List Bytes → Bytes → Handler
  unfolding do_redirect next_path
  dispatch_redirect_terminal kind [] modifier_prefix r =
      write_error 400 (some (missing_argument (codes "redirect")))
  dispatch_redirect_terminal kind (arg ∷ dest) modifier_prefix r = elim (atoi arg) [
    | none ↦ write_error 400 (some (invalid_redirect_count arg))
    | some count ↦
        if ltb_ℤ count (pos 1)
        then write_error 400 (some redirect_count_too_small)
        else if ltb_ℤ (pos 20) count
        then write_error 400 (some redirect_count_too_big)
        else redirect_to_path kind r (next_path kind (pos_part count) dest modifier_prefix)
  ]

  abbrev offset_of : List Bytes → Bytes
  offset_of [] = codes "0"
  offset_of (offset ∷ more) = offset

  unfoldable pub dispatch_links_terminal : List Bytes → Handler
  unfolding set_path_value
  dispatch_links_terminal [] r = write_error 400 (some (missing_argument (codes "links")))
  dispatch_links_terminal (num ∷ more) r =
      let offset = offset_of more in
      h.methods (codes "Links")
        (record (set_path_value (codes "offset") offset (set_path_value (codes "numLinks") num r)) {
          path = codes "/links/" ++ num ++ slash ∷ offset;
        })

  unfoldable pub dispatch_cache_terminal : List Bytes → Handler
  unfolding set_path_value
  dispatch_cache_terminal [] r = h.methods (codes "Cache") (record r { path = codes "/cache" })
  dispatch_cache_terminal (seconds ∷ more) r =
      h.methods (codes "CacheControl") (record (set_path_value (codes "numSeconds") seconds r) {
        path = codes "/cache/" ++ seconds;
      })

  unfoldable pub dispatch_base64_terminal : List Bytes → Handler
  unfolding set_path_value
  dispatch_base64_terminal [] r = write_error 400 (some (missing_argument (codes "base64")))
  dispatch_base64_terminal (encoded ∷ []) r =
      h.methods (codes "Base64")
        (record (set_path_value (codes "data") encoded r) { path = codes "/base64/" ++ encoded })
  dispatch_base64_terminal (operation ∷ encoded ∷ more) r =
      h.methods (codes "Base64")
        (record (set_path_value (codes "data") encoded
          (set_path_value (codes "operation") operation r)) {
            path = codes "/base64/" ++ operation ++ slash ∷ encoded;
          })

  abbrev digest_request : Bytes → Bytes → Bytes → Request → Request
  digest_request qop user password r =
      set_path_value (codes "password") password
        (set_path_value (codes "user") user (set_path_value (codes "qop") qop r))

  unfoldable pub dispatch_digest_auth_terminal : List Bytes → Handler
  unfolding set_path_value
  dispatch_digest_auth_terminal (qop ∷ user ∷ password ∷ []) r =
      h.methods (codes "DigestAuth") (record (digest_request qop user password r) {
        path = codes "/digest-auth/" ++ join slash (qop ∷ user ∷ password ∷ []);
      })
  dispatch_digest_auth_terminal (qop ∷ user ∷ password ∷ algorithm ∷ more) r =
      h.methods (codes "DigestAuth")
        (record (set_path_value (codes "algorithm") algorithm
          (digest_request qop user password r)) {
            path = codes "/digest-auth/" ++ join slash (qop ∷ user ∷ password ∷ algorithm ∷ []);
          })
  dispatch_digest_auth_terminal _ r =
      write_error 400 (some (missing_argument (codes "digest-auth")))

  unfoldable pub dispatch_body_terminal : List Bytes → Handler
  unfolding decode_base64_flexible
  dispatch_body_terminal [] r = write_error 400 (some (missing_argument (codes "body")))
  dispatch_body_terminal (arg ∷ args) r = elim (decode_base64_flexible h.base64 arg) [
    | none ↦ write_error 400 (some (invalid_base64 arg))
    | some decoded ↦
        set_header (codes "Content-Type") (codes "text/plain; charset=utf-8")
        ∷ write (raw decoded)
        ∷ []
  ]

  -- The terminals of the switch, with the redirect's path behind the modifiers.
  unfoldable pub special_terminals : List Bytes → Bytes → List (Bytes × Handler)
  unfolding dispatch_image_terminal dispatch_redirect_terminal dispatch_links_terminal
      dispatch_cache_terminal dispatch_base64_terminal dispatch_digest_auth_terminal
      dispatch_body_terminal
  special_terminals args modifier_prefix =
      (codes "image", dispatch_image_terminal args)
      ∷ (codes "redirect", dispatch_redirect_terminal redirect args modifier_prefix)
      ∷ (
        codes "absolute-redirect",
        dispatch_redirect_terminal absolute_redirect args modifier_prefix,
      )
      ∷ (
        codes "relative-redirect",
        dispatch_redirect_terminal relative_redirect args modifier_prefix,
      )
      ∷ (codes "links", dispatch_links_terminal args)
      ∷ (codes "cache", dispatch_cache_terminal args)
      ∷ (codes "base64", dispatch_base64_terminal args)
      ∷ (codes "digest-auth", dispatch_digest_auth_terminal args)
      ∷ (codes "body", dispatch_body_terminal args)
      ∷ []

  abbrev by_registry : PipelineStep → Handler
  by_registry terminal r = elim (lookup terminal.name build_terminal_handlers) [
    | none ↦ write_error 400 (some (unknown_terminal_name terminal.name))
    | some method ↦
        h.methods method (record r { path = slash ∷ terminal.name ++ slashed terminal.args })
  ]

  unfoldable pub dispatch_terminal : TerminalDef → PipelineStep → Bytes → Handler
  unfolding set_path_values special_terminals
  dispatch_terminal def terminal modifier_prefix r =
      let r' = set_path_values def.path_values terminal.args r in
      elim (lookup terminal.name (special_terminals terminal.args modifier_prefix)) [
        | some handler ↦ handler r'
        | none ↦ by_registry terminal r'
      ]

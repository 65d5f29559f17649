-- ===== src/Handlers/Authenticating.antt =====
-- The authentication handlers of httpbin/handlers.go.
use go_httpbin.Base.{
  Bool, true, false, not, ◌&&◌, ◌||◌, Option, none, some, List, [], ◌∷◌, leb, if◌then◌else◌, length,
  Bytes, codes, str_eq, get_str, is_empty,
}
use go_httpbin.Strings.{to_lower, to_upper}
use go_httpbin.Http.{
  Request, Call, Handler, set_header, get, write_error, invalid_qop, invalid_algorithm,
}
use go_httpbin.Digest.{DigestAlgorithm, md5, sha256, check}
use go_httpbin.Responses.{Json, auth_response, bearer_response}
use go_httpbin.Handlers.{Library, HttpBin, write_json}

module _ (lib : Library) (h : HttpBin lib) where
  abbrev authorized : Bool → Bytes → Json
  authorized is_authorized user =
      auth_response
        (record { authenticated = is_authorized; user = user; authorized = is_authorized })

  -- Whether the user and the password of a request are those of its path.
  unfoldable pub is_basic_authorized : Request → Bool
  is_basic_authorized r =
      let given = lib.basic_auth r in
      str_eq given.0 (get_str (codes "user") r.path_values)
      && str_eq given.1 (get_str (codes "password") r.path_values)

  unfoldable pub basic_auth : Handler
  unfolding is_basic_authorized write_json
  basic_auth r =
      let user = (lib.basic_auth r).0 in
      if is_basic_authorized r
      then write_json lib 200 (authorized true user)
      else set_header (codes "Www-Authenticate") (codes "Basic realm=\"Fake Realm\"")
        ∷ write_json lib 401 (authorized false user)

  unfoldable pub hidden_basic_auth : Handler
  unfolding is_basic_authorized write_json
  hidden_basic_auth r =
      if is_basic_authorized r
      then write_json lib 200 (authorized true (lib.basic_auth r).0)
      else write_error 404 none

  -- The algorithm of an upper-case name; MD5 where there is none.
  unfoldable pub digest_algorithm : Bytes → Option DigestAlgorithm
  digest_algorithm name =
      if is_empty name || str_eq name (codes "MD5")
      then some md5
      else if str_eq name (codes "SHA-256")
      then some sha256
      else none

  -- DigestAuth; `fresh` is the header of a new challenge, and `none` the panic of the parser.
  unfoldable pub digest_auth :
      (DigestAlgorithm → Bytes → Bytes)
      → (DigestAlgorithm → Bytes)
      → Bytes
      → Request
      → Option (List Call)
  unfolding digest_algorithm check write_json
  digest_auth hash fresh request_uri r =
      let qop = to_lower (get_str (codes "qop") r.path_values) in
      let user = get_str (codes "user") r.path_values in
      let name = to_upper (get_str (codes "algorithm") r.path_values) in
      if not (str_eq qop (codes "auth"))
      then some (write_error 400 (some (invalid_qop qop)))
      else elim (digest_algorithm name) [
        | none ↦ some (write_error 400 (some (invalid_algorithm name)))
        | some algorithm ↦
            elim (check hash r request_uri user (get_str (codes "password") r.path_values)) [
              | none ↦ none
              | some true ↦ some (write_json lib 200 (authorized true user))
              | some false ↦
                  some
                    (set_header (codes "Www-Authenticate") (fresh algorithm) ∷ write_error 401 none)
            ]
      ]

  -- Bearer; `fields` is strings.Fields.
  unfoldable pub bearer : (Bytes → List Bytes) → Handler
  unfolding write_json
  bearer fields r = elim (fields (get (codes "Authorization") r.header)) [
    | [] ↦ set_header (codes "Www-Authenticate") (codes "Bearer") ∷ write_error 401 none
    | scheme ∷ more ↦ elim more [
      | [] ↦ set_header (codes "Www-Authenticate") (codes "Bearer") ∷ write_error 401 none
      | token ∷ others ↦
          if str_eq scheme (codes "Bearer") && leb (length others) 0
          then write_json lib 200 (bearer_response (record { authenticated = true; token = token }))
          else set_header (codes "Www-Authenticate") (codes "Bearer") ∷ write_error 401 none
    ]
  ]

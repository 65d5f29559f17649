-- ===== src/Digest.antt =====
-- httpbin/digest/digest.go: HTTP digest authentication. `hash` is the hex digest of crypto/md5 or
-- crypto/sha256. A function that may panic returns an `Option`, `none` for the panic.
pub mod Headers
pub mod Checking
use go_httpbin.Base.{
  ◌-◌, Bool, false, not, ◌&&◌, ◌||◌, Option, none, some, List, [], ◌∷◌, ◌++◌, ltb, if◌then◌else◌,
  ◌>>=◌, length, take, drop, Bytes, codes, str_eq, insert, get_str, is_empty,
}
use go_httpbin.Strings.{split, cut, has_prefix, has_suffix, to_lower, remove_byte}
use go_httpbin.Strings.Trimming.{trim_space}
use go_httpbin.Http.{Request, get}

pub data DigestAlgorithm : Type 0 where
  md5 sha256 : DigestAlgorithm

unfoldable pub algorithm_name : DigestAlgorithm → Bytes
algorithm_name md5 = codes "MD5"
algorithm_name sha256 = codes "SHA-256"

unfoldable pub sanitize_realm : Bytes → Bytes
sanitize_realm realm = remove_byte b',' (remove_byte b'"' realm)

pub record Authorization : Type 0 where
  pub algorithm : DigestAlgorithm
  pub cnonce : Bytes
  pub nc : Bytes
  pub nonce : Bytes
  pub opaque : Bytes
  pub qop : Bytes
  pub realm : Bytes
  pub response : Bytes
  pub uri : Bytes
  pub username : Bytes

abbrev pub Dict : Type 0
Dict = List (Bytes × Bytes)

abbrev pub quote : Bytes
quote = b'"' ∷ []

-- `val[1 : len(val)-1]` of a value in quotes; of a single quote it is out of range.
unfoldable pub strip_quotes : Bytes → Option Bytes
strip_quotes val =
    if has_prefix val quote && has_suffix val quote
    then (if ltb (length val) 2 then none else some (take (length val - 2) (drop 1 val)))
    else some val

abbrev put : Bytes → Dict → Option Bytes → Option Dict
put key res none = none
put key res (some val) = some (insert key val res)

-- A round of the loop of parseDictHeader.
unfoldable pub parse_pair : Bytes → Dict → Option Dict
unfolding strip_quotes
parse_pair pair res =
    let parts = cut b'=' (trim_space pair) in
    let key = trim_space parts.0 in
    if is_empty key
    then some res
    else if parts.2
    then put key res (strip_quotes (trim_space parts.1))
    else some (insert key [] res)

unfoldable pub parse_pairs : List Bytes → Dict → Option Dict
unfolding parse_pair
parse_pairs [] res = some res
parse_pairs (pair ∷ pairs) res = parse_pair pair res >>= parse_pairs pairs

unfoldable pub parse_dict_header : Bytes → Option Dict
unfolding parse_pairs
parse_dict_header value = parse_pairs (split b',' value) []

unfoldable pub authorization_of : Dict → Authorization
authorization_of auth = record {
  algorithm =
      if str_eq (to_lower (get_str (codes "algorithm") auth)) (codes "sha-256")
      then sha256
      else md5;
  cnonce = get_str (codes "cnonce") auth;
  nc = get_str (codes "nc") auth;
  nonce = get_str (codes "nonce") auth;
  opaque = get_str (codes "opaque") auth;
  qop = get_str (codes "qop") auth;
  realm = get_str (codes "realm") auth;
  response = get_str (codes "response") auth;
  uri = get_str (codes "uri") auth;
  username = get_str (codes "username") auth;
}

-- The inner `none` is Go's nil.
unfoldable pub parse_authorization_header : Bytes → Option (Option Authorization)
parse_authorization_header value =
    let parts = cut b' ' value in
    if is_empty value
    then some none
    else if not (str_eq parts.0 (codes "Digest")) || not parts.2
    then some none
    else (parse_dict_header parts.1 >>= λ auth. some (some (authorization_of auth)))

abbrev pub colon : Bytes → Bytes → Bytes
colon s t = s ++ b':' ∷ t

module _ (hash : DigestAlgorithm → Bytes → Bytes) where
  unfoldable pub make_ha1 : Bytes → Bytes → Bytes → DigestAlgorithm → Bytes
  make_ha1 realm username password algorithm =
      hash algorithm (colon username (colon realm password))

  unfoldable pub make_ha2 : Authorization → Bytes → Bytes → Bytes
  make_ha2 auth method uri = hash auth.algorithm (colon method uri)

  unfoldable pub response : Authorization → Bytes → Bytes → Bytes → Bytes
  unfolding make_ha1 make_ha2
  response auth password method uri =
      let ha1 = make_ha1 auth.realm auth.username password auth.algorithm in
      let ha2 = make_ha2 auth method uri in
      let r =
        if str_eq auth.qop (codes "auth") || str_eq auth.qop (codes "auth-int")
        then colon ha1 (colon auth.nonce (colon auth.nc (colon auth.cnonce (colon auth.qop ha2))))
        else colon ha1 (colon auth.nonce ha2) in
      hash auth.algorithm r

  abbrev accepts : Request → Bytes → Bytes → Bytes → Option Authorization → Bool
  accepts req request_uri username password none = false
  accepts req request_uri username password (some auth) =
      if not (str_eq auth.username username)
      then false
      else str_eq auth.response (response auth password req.method request_uri)

  -- `request_uri` is the RequestURI of the request. `none` is the panic of the parser.
  unfoldable pub check : Request → Bytes → Bytes → Bytes → Option Bool
  check req request_uri username password =
      parse_authorization_header (get (codes "Authorization") req.header) >>= λ auth.
      some (accepts req request_uri username password auth)

-- Challenge, of the entropy that it draws and the time's text with more of it. `quoted` is fmt's %#v.
unfoldable pub challenge :
    (DigestAlgorithm → Bytes → Bytes)
    → (Bytes → Bytes)
    → Bytes
    → Bytes
    → Bytes
    → DigestAlgorithm
    → Bytes
unfolding sanitize_realm algorithm_name
challenge hash quoted opaque_val nonce_val realm algorithm =
    codes "Digest qop=auth, realm="
    ++ quoted (sanitize_realm realm)
    ++ codes ", algorithm="
    ++ algorithm_name algorithm
    ++ codes ", nonce="
    ++ hash md5 nonce_val
    ++ codes ", opaque="
    ++ hash md5 opaque_val

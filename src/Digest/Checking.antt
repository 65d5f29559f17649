-- ===== src/Digest/Checking.antt =====
-- What Check of httpbin/digest/digest.go accepts: a header in the form clients send, with the
-- response that RFC 2617 prescribes.
use go_httpbin.Base.{◌≡◌, ◌⊎◌, List, [], ◌∷◌, ◌++◌, if◌then◌else◌, Bytes, codes, str_eq}
use go_httpbin.Strings.{to_lower}
use go_httpbin.Digest.{
  Authorization, DigestAlgorithm, md5, sha256, authorization_of, colon, response,
}
use go_httpbin.Digest.Headers.{quoted_list, insert_all}

abbrev pub digest_header : Bytes × Bytes → List (Bytes × Bytes) → Bytes
digest_header p ps = codes "Digest" ++ b' ' ∷ quoted_list (p ∷ ps)

abbrev pub sent_authorization : Bytes × Bytes → List (Bytes × Bytes) → Authorization
sent_authorization p ps = authorization_of (insert_all (p ∷ ps) [])

-- The value that a list of parameters gives a name: that of its last parameter of the name, or `v`.
abbrev pub value_or : Bytes → Bytes → List (Bytes × Bytes) → Bytes
value_or name v [] = v
value_or name v ((k, w) ∷ ps) = value_or name (if str_eq k name then w else v) ps

abbrev pub value_of : Bytes → List (Bytes × Bytes) → Bytes
value_of name ps = value_or name [] ps

-- What the parameters of a header say, by the names that RFC 2617, section 3.2.2, gives them.
abbrev pub described : List (Bytes × Bytes) → Authorization
described ps = record {
  username = value_of (codes "username") ps;
  realm = value_of (codes "realm") ps;
  nonce = value_of (codes "nonce") ps;
  uri = value_of (codes "uri") ps;
  response = value_of (codes "response") ps;
  algorithm =
      if str_eq (to_lower (value_of (codes "algorithm") ps)) (codes "sha-256") then sha256 else md5;
  cnonce = value_of (codes "cnonce") ps;
  opaque = value_of (codes "opaque") ps;
  qop = value_of (codes "qop") ps;
  nc = value_of (codes "nc") ps;
}

gathered : (Bytes → Bytes) → Authorization
gathered value = record {
  username = value (codes "username");
  realm = value (codes "realm");
  nonce = value (codes "nonce");
  uri = value (codes "uri");
  response = value (codes "response");
  algorithm =
      if str_eq (to_lower (value (codes "algorithm"))) (codes "sha-256") then sha256 else md5;
  cnonce = value (codes "cnonce");
  opaque = value (codes "opaque");
  qop = value (codes "qop");
  nc = value (codes "nc");
}

-- Whether the header asks for the longer digest of RFC 2617, or for that of the body.
abbrev pub HasQop : Authorization → Type 0
HasQop auth = (auth.qop ≡ codes "auth") ⊎ (auth.qop ≡ codes "auth-int")

module _ (hash : DigestAlgorithm → Bytes → Bytes) where
  abbrev ha1 : Authorization → Bytes → Bytes
  ha1 auth password = hash auth.algorithm (colon auth.username (colon auth.realm password))

  abbrev ha2 : Authorization → Bytes → Bytes → Bytes
  ha2 auth method uri = hash auth.algorithm (colon method uri)

  -- The hash of RFC 2617, section 3.2.2.1, as a relation; that of the body (auth-int) is taken for auth.
  abbrev pub IsDigest : Authorization → Bytes → Bytes → Bytes → Type 0
  IsDigest auth password method uri =
      (HasQop auth
        → auth.response
          ≡ hash auth.algorithm (
              colon (ha1 auth password) (
                colon auth.nonce
                  (colon auth.nc (colon auth.cnonce (colon auth.qop (ha2 auth method uri)))))))
      × (¬ HasQop auth
          → auth.response
            ≡ hash auth.algorithm
                (colon (ha1 auth password) (colon auth.nonce (ha2 auth method uri))))

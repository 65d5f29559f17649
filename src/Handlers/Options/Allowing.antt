-- ===== src/Handlers/Options/Allowing.antt =====
-- Where /redirect-to leads when the domains are limited.
use go_httpbin.Base.{
  ◌≡◌, refl, ◌≢◌, false, none, some, List, [], ◌∷◌, arith, leb, length, any, All, Bytes, codes,
  str_eq, str_eq_iff, lookup, insert, is_empty,
}
use go_httpbin.Http.{
  Request, Result, ok, err, get, write_error, write_response, in_context, library_error,
  missing_query_parameter,
}
use go_httpbin.Http.Server.{serve, status_of}
use go_httpbin.Handlers.{Library, HttpBin, Url}
use go_httpbin.Handlers.Redirecting.{redirect_to, redirect_to_url, is_allowed}
use go_httpbin.Handlers.Options.{with_allowed_redirect_domains, forbidden_error}

not_empty : (s : Bytes) → s ≢ [] → is_empty s ≡ false
not_empty [] h = absurd (h refl)
not_empty (c ∷ s) h = refl

some_length : (xs : List Bytes) → xs ≢ [] → leb (length xs) 0 ≡ false
some_length [] h = absurd (h refl)
some_length (x ∷ xs) h = ground arith

answer_403 :
    (body : Bytes)
    → (status_of (serve (write_response 403 (codes "text/plain") body)) ≡ 403)
      × (lookup (codes "Location") (serve (write_response 403 (codes "text/plain") body)).header
          ≡ none)
unfolding write_response serve go_httpbin.Http.Server.play_all go_httpbin.Http.Server.play
    go_httpbin.Http.Server.send go_httpbin.Http.Server.finish lookup insert str_eq
answer_403 body = (refl, refl)

module _ (lib : Library) (h : HttpBin lib) (sorted : List Bytes → List Bytes)
    (hosts : List Bytes) where
  abbrev limited : HttpBin lib
  limited = with_allowed_redirect_domains sorted hosts h

  -- A host that a URL names, and that is none of the list.
  abbrev pub IsElsewhere : Url → Type 0
  IsElsewhere u = (lib.hostname_of u ≢ []) × All (λ host. host ≢ lib.hostname_of u) hosts

  not_listed :
      (name : Bytes) (hs : List Bytes) → All (λ host. host ≢ name) hs → any (str_eq name) hs ≡ false
  not_listed name [] a = refl
  not_listed name (x ∷ hs) (n, a) = ground (arith, str_eq_iff name x, not_listed name hs a)

  refused : (u : Url) → hosts ≢ [] → IsElsewhere u → is_allowed lib limited u ≡ false
  unfolding is_allowed with_allowed_redirect_domains
  refused u some_host (named, elsewhere) =
      rw
        (
          not_empty (lib.hostname_of u) named,
          some_length hosts some_host,
          not_listed (lib.hostname_of u) hosts elsewhere,
        )
        refl

  -- With a list of allowed domains that is not empty, a request to be redirected to a URL that names
  -- another host is answered with 403, whatever status it asks for, and has no Location.
  pub redirect_to-elsewhere :
      (r : Request) (u : Url)
      → hosts ≢ []
      → get (codes "url") r.query ≢ []
      → lib.parse_url (get (codes "url") r.query) ≡ some u
      → IsElsewhere u
      → (status_of (serve (redirect_to lib limited r)) ≡ 403)
        × (lookup (codes "Location") (serve (redirect_to lib limited r)).header ≡ none)
  unfolding redirect_to redirect_to_url with_allowed_redirect_domains
  redirect_to-elsewhere r u some_host asked parsed elsewhere =
      rw
        (
          redirect_to,
          not_empty (get (codes "url") r.query) asked,
          parsed,
          redirect_to_url,
          refused u some_host elsewhere,
        )
        (answer_403 (forbidden_error sorted hosts))

-- ===== src/Handlers/Redirecting/Chains.antt =====
-- A client that follows the redirects of a chain.
use go_httpbin.Base.{
  ℕ, zero, suc, ◌-◌, ◌^◌, ◌<◌, ◌≡◌, refl, ap, ◌∙◌, true, false, Option, none, some, List, [], ◌∷◌,
  ◌++◌, arith, if◌then◌else◌, drop-length-append, Bytes, codes, str_eq, lookup,
}
use go_httpbin.Base.Int.{pos, ltb_ℤ}
use go_httpbin.Strings.{has_prefix, trim_prefix}
use go_httpbin.Strings.Number.{itoa, atoi-itoa}
use go_httpbin.Http.{Request, Call, set_header, do_redirect}
use go_httpbin.Parsing.Pauses.{sub64-pos}
use go_httpbin.Handlers.{Library, HttpBin}
use go_httpbin.Handlers.Redirecting.{
  relative_redirect, handle_redirect, redirect_location, redirect_path,
}

-- The Location that a handler's calls set first.
abbrev pub location : List Call → Option Bytes
location (set_header name value ∷ cs) = if str_eq name (codes "Location") then some value else none
location _ = none

pub has_prefix-append : (p s : Bytes) → has_prefix (p ++ s) p ≡ true
unfolding has_prefix
has_prefix-append [] s = refl
has_prefix-append (c ∷ p) s = ground (arith, has_prefix-append p s)

pub trim_prefix-append : (p s : Bytes) → trim_prefix (p ++ s) p ≡ s
unfolding trim_prefix
trim_prefix-append p s = rw (has_prefix-append p s) (drop-length-append p s)

pred_suc : (n : ℕ) → suc n - 1 ≡ n
pred_suc n = omega arith

abbrev pub relative_route : Bytes
relative_route = codes "/relative-redirect/"

module _ (lib : Library) (h : HttpBin lib) (r : Request) where
  -- Where the answer to a request for a path leads, if the path is one of the route. The prefix is
  -- stripped before.
  unfoldable pub step_below : Bytes → Option Bytes
  step_below path =
      if has_prefix path relative_route
      then location (
          relative_redirect lib h (record r {
            path_values = (codes "numRedirects", trim_prefix path relative_route) ∷ [];
          }))
      else none

  unfoldable pub step : Bytes → Option Bytes
  unfolding step_below
  step path = step_below (trim_prefix path h.prefix)

  -- How many redirects a client follows, and where it ends; `limit` is how many it follows at most.
  unfoldable pub follow : ℕ → Bytes → ℕ × Bytes
  unfolding step
  follow zero path = (0, path)
  follow (suc limit) path = elim (step path) [
    | none ↦ (0, path)
    | some next ↦ let rest = follow limit next in (suc rest.0, rest.1)
  ]

  abbrev below : ℕ → Bytes
  below zero = codes "/get"
  below (suc n) = relative_route ++ itoa (suc n)

  step_below-get : step_below (below 0) ≡ none
  unfolding step_below has_prefix
  step_below-get = refl

  more_left : (n : ℕ) → ltb_ℤ (pos (suc n)) (pos 1) ≡ false
  more_left n = ground arith

  counted :
      (n : ℕ)
      → suc n < 2 ^ 63
      → handle_redirect lib h true
          (record r { path_values = (codes "numRedirects", itoa (suc n)) ∷ [] })
        ≡ do_redirect h.prefix (redirect_path lib h true (pos n)) 302
  unfolding handle_redirect redirect_location lookup str_eq
  counted n l =
      rw
        (
          handle_redirect,
          atoi-itoa (suc n) l,
          more_left n,
          sub64-pos (suc n) 1 (omega arith) l,
          pred_suc n,
        )
        refl

  location_page :
      (n : ℕ)
      → location (do_redirect h.prefix (redirect_path lib h true (pos n)) 302)
        ≡ some (h.prefix ++ below n)
  unfolding do_redirect str_eq has_prefix
  location_page zero = refl
  location_page (suc n) = rw (more_left n) refl

  step_below-page :
      (n : ℕ) → suc n < 2 ^ 63 → step_below (below (suc n)) ≡ some (h.prefix ++ below n)
  unfolding step_below has_prefix trim_prefix relative_redirect
  step_below-page n l = rw (counted n l) (location_page n)

  step_of : (s : Bytes) → step (h.prefix ++ s) ≡ step_below s
  unfolding step
  step_of s = ap step_below (trim_prefix-append h.prefix s)

  follow-hop :
      (limit : ℕ) (path next : Bytes)
      → step path ≡ some next
      → follow (suc limit) path ≡ (suc (follow limit next).0, (follow limit next).1)
  unfolding follow
  follow-hop limit path next e = rw (follow, e) refl

  -- Whatever prefix the program serves under, a client that asks for a chain of `n` relative redirects,
  -- where `n` fits an int64, and that follows more than `n` redirects, follows exactly `n` of them and
  -- ends at /get.
  pub follow-below :
      (n limit : ℕ)
      → n < 2 ^ 63
      → n < limit
      → follow limit (h.prefix ++ below n) ≡ (n, h.prefix ++ codes "/get")
  follow-below n zero l m = absurd (omega arith)
  follow-below zero (suc limit) l m =
      unfold follow in rw (follow, step_of (below 0), step_below-get) refl
  follow-below (suc n) (suc limit) l m =
      follow-hop limit (h.prefix ++ below (suc n)) (h.prefix ++ below n)
        (step_of (below (suc n)) ∙ step_below-page n l)
      ∙ ap (λ rest. (suc rest.0, rest.1)) (follow-below n limit (omega arith) (omega arith))

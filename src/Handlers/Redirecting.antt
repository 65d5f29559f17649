-- ===== src/Handlers/Redirecting.antt =====
-- The handlers of httpbin/handlers.go that redirect: chains of redirects, a redirect to a given URL, and
-- the pages of links.
pub mod Chains
use go_httpbin.Base.{
  ℕ, zero, suc, ◌/◌, Bool, true, false, not, ◌&&◌, ◌||◌, none, some, List, [], ◌∷◌, ◌++◌, leb,
  if◌then◌else◌, length, any, Bytes, codes, str_eq, insert, get_str, is_empty,
}
use go_httpbin.Base.Int.{ℤ, pos, negsuc, ltb_ℤ, pos_part, sub64}
use go_httpbin.Strings.{to_lower}
use go_httpbin.Strings.Number.{atoi, itoa}
use go_httpbin.Http.{
  Request, Call, Chunk, Values, Handler, Result, ok, err, set_header, append_header, write_header,
  write, raw, get, write_response, write_error, in_context, library_error,
  redirect_count_not_positive, missing_query_parameter, out_of_range, do_redirect,
}
use go_httpbin.Parsing.{parse_bounded_status_code}
use go_httpbin.Responses.{html_content_type, cookies_response}
use go_httpbin.Handlers.{show_ℤ, Library, HttpBin, Url, get_url, write_json}

module _ (lib : Library) (h : HttpBin lib) where
  abbrev redirect_path : Bool → ℤ → Bytes
  redirect_path relative n =
      if ltb_ℤ n (pos 1)
      then codes "/get"
      else if relative
      then codes "/relative-redirect/" ++ show_ℤ n
      else codes "/absolute-redirect/" ++ show_ℤ n

  unfoldable pub redirect_location : Request → Bool → ℤ → Bytes
  unfolding get_url
  redirect_location r relative n =
      let location = redirect_path relative n in
      if relative
      then location
      else lib.url_text (record (get_url lib r) { path = location; raw_query = [] })

  unfoldable pub handle_redirect : Bool → Handler
  unfolding redirect_location
  handle_redirect relative r = elim (atoi (get_str (codes "numRedirects") r.path_values)) [
    | none ↦ write_error 400 (some (in_context (codes "invalid redirect count") library_error))
    | some n ↦
        if ltb_ℤ n (pos 1)
        then write_error 400 (some redirect_count_not_positive)
        else do_redirect h.prefix (redirect_location r relative (sub64 n (pos 1))) 302
  ]

  unfoldable pub redirect : Handler
  unfolding handle_redirect
  redirect r =
      handle_redirect (not (str_eq (to_lower (get (codes "absolute") r.query)) (codes "true"))) r

  unfoldable pub relative_redirect : Handler
  unfolding handle_redirect
  relative_redirect r = handle_redirect true r

  unfoldable pub absolute_redirect : Handler
  unfolding handle_redirect
  absolute_redirect r = handle_redirect false r

  -- The status of RedirectTo: what the query says, or 302.
  unfoldable pub redirect_status : Bytes → Result ℤ
  redirect_status user_status_code =
      if is_empty user_status_code
      then ok (pos 302)
      else parse_bounded_status_code user_status_code (pos 300) (pos 399)

  -- Whether the allowed domains, if there are any, let a URL with a domain through.
  unfoldable pub is_allowed : Url → Bool
  is_allowed u =
      is_empty (lib.hostname_of u)
      || leb (length h.allowed_redirect_domains) 0
      || any (str_eq (lib.hostname_of u)) h.allowed_redirect_domains

  -- The answer of RedirectTo for a URL that was parsed.
  unfoldable pub redirect_to_url : Url → Handler
  unfolding redirect_status is_allowed
  redirect_to_url u r =
      if is_allowed u
      then elim (redirect_status (get (codes "status_code") r.query)) [
        | err e ↦ write_error 400 (some e)
        | ok code ↦ do_redirect h.prefix (lib.url_text u) (pos_part code)
      ]
      else write_response 403 (codes "text/plain") h.forbidden_redirect_error

  unfoldable pub redirect_to : Handler
  unfolding redirect_to_url
  redirect_to r =
      let input_url = get (codes "url") r.query in
      if is_empty input_url
      then write_error 400 (some (missing_query_parameter (codes "url")))
      else elim (lib.parse_url input_url) [
        | none ↦ write_error 400 (some (in_context (codes "invalid url") library_error))
        | some u ↦ redirect_to_url u r
      ]

  -- The links from the `i`-th on, of which there are `count` more.
  unfoldable pub links_from : ℤ → ℕ → ℕ → ℕ → List Call
  links_from offset n i zero = []
  links_from offset n i (suc count) =
      let rest = links_from offset n (suc i) count in
      let here = not (ltb_ℤ offset (pos i)) && not (ltb_ℤ (pos i) offset) in
      write (
        raw (
          if here
          then itoa i ++ codes " "
          else codes "<a href=\""
            ++ h.prefix
            ++ codes "/links/"
            ++ itoa n
            ++ codes "/"
            ++ itoa i
            ++ codes "\">"
            ++ itoa i
            ++ codes "</a> "))
      ∷ rest

  unfoldable pub do_links_page : ℕ → ℤ → List Call
  unfolding links_from html_content_type
  do_links_page n offset =
      append_header (codes "Content-Type") html_content_type
        ∷ write_header 200
        ∷ write (raw (codes "<html><head><title>Links</title></head><body>"))
        ∷ links_from offset n 0 n
      ++ write (raw (codes "</body></html>")) ∷ []

  unfoldable pub links : Handler
  unfolding do_links_page
  links r = elim (atoi (get_str (codes "numLinks") r.path_values)) [
    | none ↦ write_error 400 (some (in_context (codes "invalid link count") library_error))
    | some n ↦
        if ltb_ℤ n (pos 0) || ltb_ℤ (pos 256) n
        then write_error 400 (some (out_of_range (codes "invalid link count") n (pos 256)))
        else if is_empty (get_str (codes "offset") r.path_values)
        then do_redirect h.prefix
            (lib.url_text (record (lib.url r) { path = (lib.url r).path ++ codes "/0" })) 302
        else elim (atoi (get_str (codes "offset") r.path_values)) [
          | none ↦ write_error 400 (some (in_context (codes "invalid offset") library_error))
          | some offset ↦ do_links_page (pos_part n) offset
        ]
  ]

  -- Cookies: of cookies with one name, the last.
  unfoldable pub cookie_map : List (Bytes × Bytes) → List (Bytes × Bytes) → List (Bytes × Bytes)
  cookie_map [] m = m
  cookie_map ((name, value) ∷ cs) m = cookie_map cs (insert name value m)

  unfoldable pub cookies : Handler
  unfolding cookie_map write_json
  cookies r = write_json lib 200 (cookies_response (cookie_map (lib.cookies r) []))

-- ===== src/Handlers/Negotiating.antt =====
-- parseAcceptHeader of httpbin/helpers.go and Negotiate of httpbin/handlers.go. `sort` is sort.Slice.
pub mod Preferring
use go_httpbin.Base.{
  Bool, Option, none, some, List, [], ◌∷◌, ◌++◌, if◌then◌else◌, Bytes, codes, str_eq, lookup,
  is_empty,
}
use go_httpbin.Strings.{split, cut, has_prefix, trim_prefix}
use go_httpbin.Strings.Trimming.{trim_space}
use go_httpbin.Http.{Request, Call, Handler, set_header, get, write_error, message}
use go_httpbin.Responses.{
  json_content_type, html_content_type, text_content_type, content_type_response,
}
use go_httpbin.Handlers.{Library, write_json}
use go_httpbin.Handlers.Statuses.{Float64}

pub record AcceptEntry (N : Type 0) : Type 0 where
  pub media_type : Bytes
  pub quality : N

abbrev pub Sort : Type 0 → Type 0
Sort A = (A → A → Bool) → List A → List A

abbrev pub quality_param : Bytes
quality_param = codes "q="

module _ {N : Type 0} (float : Float64 N) where
  unfoldable pub read_params : List Bytes → N → N
  read_params [] quality = quality
  read_params (raw ∷ params) quality =
      let param = trim_space raw in
      read_params params (
        if has_prefix param quality_param
        then (elim (float.parse_float (trim_prefix param quality_param)) [
          | none ↦ quality
          | some q ↦ q
        ])
        else quality)

  unfoldable pub parse_entry : Bytes → AcceptEntry N
  unfolding read_params
  parse_entry part =
      let parts = cut b';' part in
      record {
        media_type = trim_space parts.0;
        quality =
            if is_empty parts.1 then float.one else read_params (split b';' parts.1) float.one;
      }

  unfoldable pub parse_entries : List Bytes → List (AcceptEntry N)
  unfolding parse_entry
  parse_entries [] = []
  parse_entries (raw ∷ parts) =
      let rest = parse_entries parts in
      let part = trim_space raw in if is_empty part then rest else parse_entry part ∷ rest

  -- The order that the entries are sorted by.
  abbrev pub is_preferred : AcceptEntry N → AcceptEntry N → Bool
  is_preferred a b = float.lt b.quality a.quality

  unfoldable pub parse_accept_header : Sort (AcceptEntry N) → Bytes → List (AcceptEntry N)
  unfolding parse_entries
  parse_accept_header sort accept =
      if is_empty accept then [] else sort is_preferred (parse_entries (split b',' accept))

unfoldable pub negotiate_types : List (Bytes × Bytes)
negotiate_types =
    (codes "application/json", json_content_type)
    ∷ (codes "text/html", html_content_type)
    ∷ (codes "text/plain", text_content_type)
    ∷ (codes "application/xml", codes "application/xml; charset=utf-8")
    ∷ (codes "image/png", codes "image/png")
    ∷ []

-- The content type that a media type is answered with.
unfoldable pub content_type_for : Bytes → Option Bytes
unfolding negotiate_types
content_type_for media_type =
    if str_eq media_type (codes "*/*")
    then some json_content_type
    else lookup media_type negotiate_types

unfoldable pub first_content_type : {N : Type 0} → List (AcceptEntry N) → Option Bytes
unfolding content_type_for
first_content_type [] = none
first_content_type (entry ∷ entries) =
    let rest = first_content_type entries in
    elim (content_type_for entry.media_type) [ some ct ↦ some ct | none ↦ rest ]

module _ (lib : Library) {N : Type 0} (float : Float64 N) (sort : Sort (AcceptEntry N)) where
  unfoldable pub no_match : Bytes → List Call
  no_match accept =
      write_error 406 (some (message (codes "no matching content type for Accept: " ++ accept)))

  unfoldable pub answer_choice : Bytes → Option Bytes → List Call
  unfolding no_match
  answer_choice accept (some ct) = write_json lib 200 (content_type_response ct)
  answer_choice accept none = no_match accept

  unfoldable pub answer_entries : Bytes → List (AcceptEntry N) → List Call
  unfolding first_content_type answer_choice
  answer_entries accept [] = write_json lib 200 (content_type_response json_content_type)
  answer_entries accept (entry ∷ entries) =
      answer_choice accept (first_content_type (entry ∷ entries))

  unfoldable pub negotiate : Handler
  unfolding parse_accept_header answer_entries
  negotiate r =
      let accept = get (codes "Accept") r.header in
      set_header (codes "Vary") (codes "Accept")
      ∷ answer_entries accept (parse_accept_header float sort accept)

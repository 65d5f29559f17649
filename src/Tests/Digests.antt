-- ===== src/Tests/Digests.antt =====
-- Concrete digest headers, of httpbin/digest/digest.go.
use go_httpbin.Base.{
  ℕ, ◌≡◌, refl, ◌≢◌, Bool, true, not, ◌&&◌, none, some, [], ◌∷◌, ◌++◌, map, arith, leb, ◌==◌, All,
  Bytes, codes,
}
use go_httpbin.Strings.{join}
use go_httpbin.Strings.Splitting.{Lacks}
use go_httpbin.Http.{Request}
use go_httpbin.Digest.{parse_dict_header, quote}
use go_httpbin.Digest.Headers.{
  IsNameByte, IsQuotable, quoted, quoted_list, insert_all, parse_dict_header-quoted_list,
  parse_dict_header-lone_quote,
}
use go_httpbin.Digest.Checking.{digest_header}

is_name_byte : ℕ → Bool
is_name_byte c = leb 33 c && leb c 126 && not (c == b'=') && not (c == b',')

all_name : Bytes → Bool
all_name [] = true
all_name (c ∷ s) = is_name_byte c && all_name s

names_below : (s : Bytes) → all_name s ≡ true → All IsNameByte s
unfolding all_name is_name_byte
names_below [] h = tt
names_below (c ∷ s) h = (ground arith, names_below s (ground arith))

no_comma : Bytes → Bool
no_comma [] = true
no_comma (c ∷ s) = not (c == b',') && no_comma s

no_comma_lem : (s : Bytes) → no_comma s ≡ true → Lacks b',' s
unfolding no_comma
no_comma_lem [] h = tt
no_comma_lem (c ∷ s) h = (ground arith, no_comma_lem s (ground arith))

abbrev user : Bytes × Bytes
user = (codes "username", codes "me")

abbrev answer : Bytes × Bytes
answer = (codes "response", codes "5f")

quotable : (k v : Bytes) → k ≢ [] → all_name k ≡ true → no_comma v ≡ true → IsQuotable (k, v)
quotable k v ne hk hv = ((ne, names_below k hk), no_comma_lem v hv)

user-IsQuotable : IsQuotable user
unfolding all_name is_name_byte no_comma
user-IsQuotable = quotable (codes "username") (codes "me") (λ e. cc) refl refl

answer-IsQuotable : IsQuotable answer
unfolding all_name is_name_byte no_comma
answer-IsQuotable = quotable (codes "response") (codes "5f") (λ e. cc) refl refl

parse_dict_header-quoted_list_example :
    parse_dict_header (quoted_list (user ∷ answer ∷ [])) ≡ some (insert_all (user ∷ answer ∷ []) [])
parse_dict_header-quoted_list_example =
    parse_dict_header-quoted_list user (answer ∷ []) (user-IsQuotable, (answer-IsQuotable, tt))

parse_dict_header-lone_quote_example :
    parse_dict_header (join b',' (map quoted (user ∷ []) ++ (codes "uri" ++ (b'=' ∷ quote)) ∷ []))
    ≡ none
unfolding all_name is_name_byte
parse_dict_header-lone_quote_example =
    parse_dict_header-lone_quote (codes "uri") (user ∷ [])
      ((λ e. cc), names_below (codes "uri") refl) (user-IsQuotable, tt)

abbrev digest_request : Request
digest_request = record {
  method = codes "GET";
  path = codes "/digest-auth/auth/me/pw";
  host = codes "localhost";
  remote_addr = codes "10.0.0.1:5000";
  header = (codes "Authorization", digest_header user (answer ∷ []) ∷ []) ∷ [];
  query = [];
  path_values = [];
}

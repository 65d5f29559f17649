-- ===== src/Handlers/Options.antt =====
-- The options of httpbin/options.go, as functions on the configuration.
pub mod Allowing
use go_httpbin.Base.{
  Bool, true, false, Option, none, some, List, [], ◌∷◌, ◌++◌, map, if◌then◌else◌, Bytes, codes,
  str_eq, is_empty,
}
use go_httpbin.Base.Int.{ℤ}
use go_httpbin.Strings.{split, contains_byte, to_lower}
use go_httpbin.Strings.Trimming.{trim_space}
use go_httpbin.Clients.{Net}
use go_httpbin.Handlers.{Library, HttpBin, DefaultParams}

abbrev pub joined_lines : List Bytes → Bytes
joined_lines [] = []
joined_lines (line ∷ []) = line
joined_lines (line ∷ l ∷ lines) = line ++ codes "\n" ++ joined_lines (l ∷ lines)

-- The message for a URL that is refused. `sorted` is sort.Strings.
unfoldable pub forbidden_error : (List Bytes → List Bytes) → List Bytes → Bytes
forbidden_error sorted hosts =
    codes
      "Forbidden redirect URL. Please be careful with this link.\n\nAllowed redirect destinations:\n"
    ++ joined_lines (sorted (map (λ host. codes "- " ++ host) hosts))

module _ {lib : Library} where
  unfoldable pub with_default_params : DefaultParams → HttpBin lib → HttpBin lib
  with_default_params default_params h = record h { default_params = default_params }

  unfoldable pub with_max_body_size : ℤ → HttpBin lib → HttpBin lib
  with_max_body_size m h = record h { max_body_size = m }

  unfoldable pub with_max_duration : ℤ → HttpBin lib → HttpBin lib
  with_max_duration d h = record h { max_duration = d }

  unfoldable pub with_hostname : Bytes → HttpBin lib → HttpBin lib
  with_hostname s h = record h { hostname = s }

  unfoldable pub with_env : List (Bytes × Bytes) → HttpBin lib → HttpBin lib
  with_env env h = record h { env = env }

  unfoldable pub with_prefix : Bytes → HttpBin lib → HttpBin lib
  with_prefix p h = record h { prefix = p }

  unfoldable pub with_allowed_redirect_domains :
      (List Bytes → List Bytes) → List Bytes → HttpBin lib → HttpBin lib
  unfolding forbidden_error
  with_allowed_redirect_domains sorted hosts h = record h {
    allowed_redirect_domains = hosts;
    forbidden_redirect_error = forbidden_error sorted hosts;
  }

  unfoldable pub with_unsafe_allow_dangerous_responses : HttpBin lib → HttpBin lib
  with_unsafe_allow_dangerous_responses h = record h { unsafe_allow_dangerous_responses = true }

  unfoldable pub with_trusted_proxies : List (lib.net.Network) → HttpBin lib → HttpBin lib
  with_trusted_proxies cidrs h = record h {
    trusted_proxies = cidrs;
    trusted_proxies_configured = true;
  }

  unfoldable pub with_version : Bytes → HttpBin lib → HttpBin lib
  with_version v h = record h { version = v }

module _ (net : Net) (parse_cidr : Bytes → Option net.Network) where
  -- A mask for an address without one.
  unfoldable pub with_mask : Bytes → Bytes
  with_mask s =
      if contains_byte b'/' s
      then s
      else if contains_byte b':' s
      then s ++ codes "/128"
      else s ++ codes "/32"

  -- The loop of ParseTrustedProxies; `none` is its error. `parse_cidr` is net.ParseCIDR.
  unfoldable pub parse_cidrs : List Bytes → Option (List net.Network)
  unfolding with_mask
  parse_cidrs [] = some []
  parse_cidrs (p ∷ parts) =
      let s = trim_space p in
      let rest = parse_cidrs parts in
      if is_empty s then rest else elim (parse_cidr (with_mask s)) [
        | none ↦ none
        | some cidr ↦ elim rest [ none ↦ none | some cidrs ↦ some (cidr ∷ cidrs) ]
      ]

  -- The proxies and whether they are configured. EqualFold is that of ASCII.
  unfoldable pub parse_trusted_proxies : Bytes → Option (List net.Network × Bool)
  unfolding parse_cidrs
  parse_trusted_proxies raw =
      let s = trim_space raw in
      if is_empty s
      then some ([], false)
      else if str_eq (to_lower s) (codes "none")
      then some ([], true)
      else elim (parse_cidrs (split b',' s)) [ none ↦ none | some cidrs ↦ some (cidrs, true) ]

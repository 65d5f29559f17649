-- ===== src/Clients.antt =====
-- Whom a request comes from: extractRemoteIP and getClientIP of httpbin/helpers.go.
pub mod Walking
use go_httpbin.Base.{
  ℕ, Bool, true, false, not, ◌&&◌, Option, none, some, List, [], ◌∷◌, map, ◌==◌, if◌then◌else◌, any,
  Bytes, codes, is_empty,
}
use go_httpbin.Strings.{cut, split, contains_byte}
use go_httpbin.Strings.Trimming.{trim_space}
use go_httpbin.Http.{Request, get}
use mathlib.Core.List.{reverse}

-- What the code calls of Go's package net. `host_of` is the host that net.SplitHostPort returns, empty
-- with an error.
pub record Net : Type 1 where
  pub Ip : Type 0
  pub Network : Type 0
  pub host_of : Bytes → Bytes
  pub parse_ip : Bytes → Option Ip
  pub contains : Network → Ip → Bool

abbrev starts_with_byte : ℕ → Bytes → Bool
starts_with_byte c [] = false
starts_with_byte c (d ∷ s) = d == c

-- The first of the texts that is not empty.
unfoldable pub first_present : List Bytes → Option Bytes
first_present [] = none
first_present (s ∷ more) = let rest = first_present more in if is_empty s then rest else some s

-- The headers in which some hosting platforms give the client's address.
unfoldable pub platform_headers : List Bytes
platform_headers =
    codes "Fly-Client-Ip"
    ∷ codes "Cf-Connecting-Ip"
    ∷ codes "Fastly-Client-Ip"
    ∷ codes "True-Client-Ip"
    ∷ []

abbrev pub forwarded_for : Request → Bytes
forwarded_for r = get (codes "X-Forwarded-For") r.header

abbrev pub first_part : List Bytes → Bytes
first_part [] = []
first_part (p ∷ parts) = p

module _ (net : Net) where
  unfoldable pub extract_remote_ip : Bytes → Bytes
  extract_remote_ip remote_addr =
      if contains_byte b':' remote_addr && not (starts_with_byte b':' remote_addr)
      then net.host_of remote_addr
      else remote_addr

  unfoldable pub is_trusted : List net.Network → net.Ip → Bool
  is_trusted trusted_proxies ip = any (λ cidr. net.contains cidr ip) trusted_proxies

  -- The loop over X-Forwarded-For: `parts` from the right to the left. `leftmost` is the answer of a
  -- loop that ends.
  unfoldable pub walk : List net.Network → List Bytes → Bytes → Bytes
  unfolding is_trusted
  walk trusted_proxies [] leftmost = leftmost
  walk trusted_proxies (p ∷ parts) leftmost =
      let candidate = trim_space p in
      let rest = walk trusted_proxies parts leftmost in
      elim (net.parse_ip candidate) [
        | none ↦ rest
        | some ip ↦ if is_trusted trusted_proxies ip then rest else candidate
      ]

  -- The answer when no trusted proxies are configured: the headers are believed.
  unfoldable pub legacy_client_ip : Request → Bytes
  unfolding first_present platform_headers extract_remote_ip
  legacy_client_ip r = elim (first_present (map (λ name. get name r.header) platform_headers)) [
    | some client_ip ↦ client_ip
    | none ↦
        if is_empty (forwarded_for r)
        then extract_remote_ip r.remote_addr
        else trim_space (cut b',' (forwarded_for r)).0
  ]

  -- Behind a trusted proxy.
  unfoldable pub forwarded_client_ip : List net.Network → Request → Bytes
  unfolding walk extract_remote_ip
  forwarded_client_ip trusted_proxies r =
      let parts = split b',' (forwarded_for r) in
      if is_empty (forwarded_for r)
      then extract_remote_ip r.remote_addr
      else walk trusted_proxies (reverse parts) (trim_space (first_part parts))

  unfoldable pub get_client_ip : List net.Network → Bool → Request → Bytes
  unfolding legacy_client_ip forwarded_client_ip
  get_client_ip trusted_proxies false r = legacy_client_ip r
  get_client_ip [] true r = extract_remote_ip r.remote_addr
  get_client_ip (cidr ∷ cidrs) true r =
      let remote_ip = extract_remote_ip r.remote_addr in
      elim (net.parse_ip remote_ip) [
        | none ↦ remote_ip
        | some ip ↦
            if is_trusted (cidr ∷ cidrs) ip then forwarded_client_ip (cidr ∷ cidrs) r else remote_ip
      ]

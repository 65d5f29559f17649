-- ===== src/Clients/Walking.antt =====
-- Which of the addresses of X-Forwarded-For is taken for the client's.
use go_httpbin.Base.{
  ◌≡◌, refl, sym, ap, ◌∙◌, subst, ◌≢◌, ◌⊎◌, inl, inr, Bool, true, false, not, none, some, List, [],
  ◌∷◌, ◌++◌, if◌then◌else◌, Bool-cases, Option-cases, All, All-append, Bytes, is_empty,
}
use go_httpbin.Strings.{split}
use go_httpbin.Strings.Splitting.{split-ne-nil}
use go_httpbin.Strings.Trimming.{trim_space}
use go_httpbin.Http.{Request}
use go_httpbin.Clients.{
  Net, forwarded_for, first_part, extract_remote_ip, is_trusted, walk, forwarded_client_ip,
  get_client_ip,
}
use mathlib.Core.List.{reverse, reverse-append, reverse-reverse, reverse-cons, append_assoc}

All-reverse {ℓ κ} : {A : Type ℓ} (P : A → Type κ) (xs : List A) → All P xs → All P (reverse xs)
All-reverse P [] h = tt
All-reverse P (x ∷ xs) (p, h) =
    rw (reverse-cons x xs) (All-append P (reverse xs) (x ∷ []) (All-reverse P xs h) (p, tt))

reverse_of :
    {A : Type 0} (before : List A) (p : A) (after parts : List A)
    → reverse parts ≡ before ++ p ∷ after
    → parts ≡ reverse after ++ p ∷ reverse before
reverse_of before p after parts e =
    sym (reverse-reverse parts)
    ∙ ap reverse e
    ∙ reverse-append before (p ∷ after)
    ∙ rw (reverse-cons p after) (append_assoc (reverse after) (p ∷ []) (reverse before))

module _ (net : Net) (trusted_proxies : List net.Network) where
  -- An address of a trusted proxy, and an address of any other host.
  unfoldable pub is_proxy : Bytes → Bool
  unfolding is_trusted
  is_proxy s = elim (net.parse_ip s) [ none ↦ false | some ip ↦ is_trusted net trusted_proxies ip ]

  unfoldable pub is_outside : Bytes → Bool
  unfolding is_trusted
  is_outside s = elim (net.parse_ip s) [
    | none ↦ false
    | some ip ↦ not (is_trusted net trusted_proxies ip)
  ]

  -- A part of the header that names no host but a trusted proxy.
  abbrev pub IsSkipped : Bytes → Type 0
  IsSkipped p = is_outside (trim_space p) ≡ false

  -- Who the client of a request is.
  pub data IsClient (r : Request) : Bytes → Type 0 where
    direct :
        is_proxy (extract_remote_ip net r.remote_addr) ≡ false
        → IsClient r (extract_remote_ip net r.remote_addr)
    not_forwarded :
        is_proxy (extract_remote_ip net r.remote_addr) ≡ true
        → forwarded_for r ≡ []
        → IsClient r (extract_remote_ip net r.remote_addr)
    forwarded :
        (before : List Bytes) (p : Bytes) (after : List Bytes)
        → is_proxy (extract_remote_ip net r.remote_addr) ≡ true
        → forwarded_for r ≢ []
        → split b',' (forwarded_for r) ≡ before ++ p ∷ after
        → is_outside (trim_space p) ≡ true
        → All IsSkipped after
        → IsClient r (trim_space p)
    only_proxies :
        (p : Bytes) (after : List Bytes)
        → is_proxy (extract_remote_ip net r.remote_addr) ≡ true
        → forwarded_for r ≢ []
        → split b',' (forwarded_for r) ≡ p ∷ after
        → All IsSkipped (p ∷ after)
        → IsClient r (trim_space p)

  walk-step :
      (p : Bytes) (parts : List Bytes) (leftmost : Bytes)
      → walk net trusted_proxies (p ∷ parts) leftmost ≡ (
          if is_outside (trim_space p)
          then trim_space p
          else walk net trusted_proxies parts leftmost)
  unfolding walk is_outside
  walk-step p parts leftmost = elim (Option-cases (net.parse_ip (trim_space p))) [
    | inl nobody ↦ rw (walk, is_outside, nobody) refl
    | inr (ip, somebody) ↦ elim (Bool-cases (is_trusted net trusted_proxies ip)) [
      | inl trusted ↦ rw (walk, is_outside, somebody, trusted) refl
      | inr other ↦ rw (walk, is_outside, somebody, other) refl
    ]
  ]

  walk-lem :
      (parts : List Bytes) (leftmost : Bytes)
      → ((before : List Bytes) × (p : Bytes) × (after : List Bytes) × (parts ≡ before ++ p ∷ after)
          × All IsSkipped before
          × (is_outside (trim_space p) ≡ true)
          × (walk net trusted_proxies parts leftmost ≡ trim_space p))
        ⊎ (All IsSkipped parts × (walk net trusted_proxies parts leftmost ≡ leftmost))
  walk-lem [] leftmost = inr (tt, unfold walk in refl)
  walk-lem (p ∷ parts) leftmost = elim (Bool-cases (is_outside (trim_space p))) [
    | inl outside ↦
        inl ([], p, parts, refl, tt, outside, rw (walk-step p parts leftmost, outside) refl)
    | inr skipped ↦ elim (walk-lem parts leftmost) [
      | inl (before, q, after, e, b, o, w) ↦ inl (
        p ∷ before,
        q,
        after,
        ap (◌∷◌ p) e,
        (skipped, b),
        o,
        rw (walk-step p parts leftmost, skipped) w,
      )
      | inr (b, w) ↦ inr ((skipped, b), rw (walk-step p parts leftmost, skipped) w)
    ]
  ]

  headed :
      (parts : List Bytes) → parts ≢ [] → (p : Bytes) × (after : List Bytes) × (parts ≡ p ∷ after)
  headed [] h = absurd (h refl)
  headed (p ∷ after) h = (p, after, refl)

  forwarded-IsClient :
      (r : Request)
      → is_proxy (extract_remote_ip net r.remote_addr) ≡ true
      → forwarded_for r ≢ []
      → IsClient r (
          walk net trusted_proxies
            (reverse (split b',' (forwarded_for r)))
            (trim_space (first_part (split b',' (forwarded_for r)))))
  forwarded-IsClient r proxy present =
      elim (walk-lem (reverse (split b',' (forwarded_for r)))
        (trim_space (first_part (split b',' (forwarded_for r))))) [
          | inl (before, p, after, e, b, o, w) ↦ rw w (
              forwarded (reverse after) p (reverse before) proxy present
                (reverse_of before p after (split b',' (forwarded_for r)) e) o
                (All-reverse IsSkipped before b))
          | inr (b, w) ↦
              let (p, after, e) =
                headed (split b',' (forwarded_for r)) (split-ne-nil b',' (forwarded_for r)) in
              rw (w, e)
                (only_proxies p after proxy present e (
                  subst (All IsSkipped) (ap reverse (ap reverse e) ∙ reverse-reverse (p ∷ after))
                    (All-reverse IsSkipped (reverse (split b',' (forwarded_for r))) b)))
        ]

get_client_ip-eq :
    (net : Net) (trusted_proxies : List net.Network) (r : Request)
    → get_client_ip net trusted_proxies true r ≡ (
        if is_proxy net trusted_proxies (extract_remote_ip net r.remote_addr)
        then forwarded_client_ip net trusted_proxies r
        else extract_remote_ip net r.remote_addr)
unfolding get_client_ip is_proxy is_trusted
get_client_ip-eq net [] r =
    elim (Option-cases (net.parse_ip (extract_remote_ip net r.remote_addr))) [
      | inl nobody ↦ rw (get_client_ip, is_proxy, nobody) refl
      | inr (ip, somebody) ↦ rw (get_client_ip, is_proxy, somebody) refl
    ]
get_client_ip-eq net (cidr ∷ cidrs) r =
    elim (Option-cases (net.parse_ip (extract_remote_ip net r.remote_addr))) [
      | inl nobody ↦ rw (get_client_ip, is_proxy, nobody) refl
      | inr (ip, somebody) ↦ rw (get_client_ip, is_proxy, somebody) refl
    ]

present_or_not : (s : Bytes) → ((s ≡ []) × (is_empty s ≡ true)) ⊎ ((s ≢ []) × (is_empty s ≡ false))
present_or_not [] = inl (refl, refl)
present_or_not (c ∷ s) = inr (cc, refl)

module _ (net : Net) (trusted_proxies : List net.Network) where
  forwarded_client_ip-IsClient :
      (r : Request)
      → is_proxy net trusted_proxies (extract_remote_ip net r.remote_addr) ≡ true
      → IsClient net trusted_proxies r (forwarded_client_ip net trusted_proxies r)
  unfolding forwarded_client_ip
  forwarded_client_ip-IsClient r proxy = elim (present_or_not (forwarded_for r)) [
    | inl (empty, is) ↦ rw is (not_forwarded proxy empty)
    | inr (present, is) ↦ rw is (forwarded-IsClient net trusted_proxies r proxy present)
  ]

  -- With trusted proxies configured, whoever they are and whatever headers a request has, the client is:
  -- the peer, if it is not a trusted proxy or forwards nobody; else the rightmost address of
  -- X-Forwarded-For that is not a trusted proxy's, whatever stands to its left; and the leftmost text,
  -- if no address is.
  pub get_client_ip-IsClient :
      (r : Request) → IsClient net trusted_proxies r (get_client_ip net trusted_proxies true r)
  get_client_ip-IsClient r =
      elim (Bool-cases (is_proxy net trusted_proxies (extract_remote_ip net r.remote_addr))) [
        | inr outside ↦ rw (get_client_ip-eq net trusted_proxies r, outside) (direct outside)
        | inl proxy ↦
            rw (get_client_ip-eq net trusted_proxies r, proxy)
              (forwarded_client_ip-IsClient r proxy)
      ]

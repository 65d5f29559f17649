-- ===== src/Handlers/Guarding/Switching.antt =====
-- What the client of /websocket/echo receives before its connection is served.
use go_httpbin.Base.{
  ◌≡◌, refl, ◌⊎◌, inl, inr, none, some, [], ◌∷◌, ◌++◌, Bytes, codes, str_eq, lookup, insert,
}
use go_httpbin.Http.{Request, Error, ok, get, write_error}
use go_httpbin.Http.Server.{Response, serve, play, play_all, send, finish, status_of}
use go_httpbin.Websocket.{Limits}
use go_httpbin.Websocket.Handshaking.{IsUpgrade, handshake-cases, upgrade_calls, accept_key}
use go_httpbin.Handlers.{Library, HttpBin}
use go_httpbin.Handlers.Guarding.{websocket_limits, websocket_echo}

-- RFC 6455, section 4.2.2: the response of a server that switches protocols. `accept` is made from the
-- client's key.
pub record IsSwitched (accept : Bytes) (p : Response) : Type 0 where
  pub status : status_of p ≡ 101
  pub body : p.body ≡ []
  pub connection : lookup (codes "Connection") p.header ≡ some (codes "upgrade" ∷ [])
  pub upgrade : lookup (codes "Upgrade") p.header ≡ some (codes "websocket" ∷ [])
  pub accepted : lookup (codes "Sec-Websocket-Accept") p.header ≡ some (accept ∷ [])

module _ (lib : Library) (h : HttpBin lib) (sha1_base64 : Bytes → Bytes) where
  -- The digest of the key with the identifier of section 1.3.
  abbrev pub accept_of : Request → Bytes
  accept_of r =
      sha1_base64
        (get (codes "Sec-Websocket-Key") r.header ++ codes "258EAFA5-E914-47DA-95CA-C5AB0DC85B11")

  upgrade-IsSwitched :
      (r : Request) → IsSwitched (accept_of r) (serve (upgrade_calls sha1_base64 r))
  unfolding upgrade_calls accept_key serve play_all play send finish insert lookup str_eq
  upgrade-IsSwitched r = record {
    status = refl;
    body = refl;
    connection = refl;
    upgrade = refl;
    accepted = refl;
  }

  error_status : (e : Error) → status_of (serve (write_error 400 (some e))) ≡ 400
  unfolding write_error serve play_all play send finish
  error_status e = refl

  -- With limits that are accepted, a request to /websocket/echo that asks for an upgrade to a websocket
  -- of version 13, with a key, is answered with the response that switches protocols, and its connection
  -- is served with those limits; any other is answered 400, and is not served.
  pub websocket_echo-switches :
      (r : Request) (limits : Limits)
      → websocket_limits lib h r ≡ ok limits
      → (IsUpgrade r
          × IsSwitched (accept_of r) (serve (websocket_echo lib h sha1_base64 r).0)
          × ((websocket_echo lib h sha1_base64 r).1 ≡ some limits))
        ⊎ ((¬ IsUpgrade r)
            × (status_of (serve (websocket_echo lib h sha1_base64 r).0) ≡ 400)
            × ((websocket_echo lib h sha1_base64 r).1 ≡ none))
  unfolding websocket_echo
  websocket_echo-switches r limits e = elim (handshake-cases sha1_base64 r) [
    | inl (u, done) ↦
        inl (
          u,
          rw (websocket_echo, e, done) (upgrade-IsSwitched r),
          rw (websocket_echo, e, done) refl,
        )
    | inr (n, x, failed) ↦
        inr
          (n, rw (websocket_echo, e, failed) (error_status x), rw (websocket_echo, e, failed) refl)
  ]

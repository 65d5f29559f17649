-- ===== src/Websocket/Handshaking.antt =====
-- Handshake, and the Serve guard on it. `accept_key` stands for acceptKey's SHA-1 and base64.
use go_httpbin.Base.{
  ◌≡◌, refl, ◌≢◌, ◌⊎◌, inl, inr, Bool, true, false, not, ◌&&◌, List, [], ◌∷◌, ◌++◌, arith,
  if◌then◌else◌, Bool-cases, Bytes, codes, str_eq, str_eq_refl, str_eq_iff, is_empty,
}
use go_httpbin.Strings.{to_lower}
use go_httpbin.Http.{
  Error, Result, ok, err, invalid_upgrade, invalid_websocket_version, missing_websocket_key,
  Request, Call, set_header, write_header, get,
}

-- The key that is hashed, and the digest in base64 (crypto/sha1, encoding/base64).
unfoldable pub accept_key : (Bytes → Bytes) → Bytes → Bytes
accept_key sha1_base64 client_key =
    sha1_base64 (client_key ++ codes "258EAFA5-E914-47DA-95CA-C5AB0DC85B11")

unfoldable pub upgrade_calls : (Bytes → Bytes) → Request → List Call
upgrade_calls sha1_base64 r =
    set_header (codes "Connection") (codes "upgrade")
    ∷ set_header (codes "Upgrade") (codes "websocket")
    ∷ set_header (codes "Sec-Websocket-Accept")
        (accept_key sha1_base64 (get (codes "Sec-Websocket-Key") r.header))
    ∷ write_header 101
    ∷ []

-- The calls of a completed handshake, or its error. A second handshake panics, so there is one.
unfoldable pub handshake : (Bytes → Bytes) → Request → Result (List Call)
handshake sha1_base64 r =
    if not (str_eq (to_lower (get (codes "Upgrade") r.header)) (codes "websocket"))
    then err invalid_upgrade
    else if not (str_eq (get (codes "Sec-Websocket-Version") r.header) (codes "13"))
    then err invalid_websocket_version
    else if is_empty (get (codes "Sec-Websocket-Key") r.header)
    then err missing_websocket_key
    else ok (upgrade_calls sha1_base64 r)

-- What a request for a websocket has to bring.
pub record IsUpgrade (r : Request) : Type 0 where
  pub upgrade : to_lower (get (codes "Upgrade") r.header) ≡ codes "websocket"
  pub version : get (codes "Sec-Websocket-Version") r.header ≡ codes "13"
  pub key : get (codes "Sec-Websocket-Key") r.header ≢ []

is_upgrade : Request → Bool
is_upgrade r =
    str_eq (to_lower (get (codes "Upgrade") r.header)) (codes "websocket")
    && str_eq (get (codes "Sec-Websocket-Version") r.header) (codes "13")
    && not (is_empty (get (codes "Sec-Websocket-Key") r.header))

is_upgrade_sound : (r : Request) → is_upgrade r ≡ true → IsUpgrade r
unfolding is_upgrade
is_upgrade_sound r h = record {
  upgrade =
      ground (arith, str_eq_iff (to_lower (get (codes "Upgrade") r.header)) (codes "websocket"));
  version = ground (arith, str_eq_iff (get (codes "Sec-Websocket-Version") r.header) (codes "13"));
  key = ground arith;
}

is_upgrade_complete : (r : Request) → IsUpgrade r → is_upgrade r ≡ true
unfolding is_upgrade
is_upgrade_complete r u =
    rw (u.upgrade, u.version, str_eq_refl (codes "websocket"), str_eq_refl (codes "13"))
      (ground (arith, u.key))

failed :
    (sha1_base64 : Bytes → Bytes) (r : Request)
    → is_upgrade r ≡ false
    → (e : Error) × (handshake sha1_base64 r ≡ err e)
unfolding handshake is_upgrade
failed sha1_base64 r h =
    elim (Bool-cases (str_eq (to_lower (get (codes "Upgrade") r.header)) (codes "websocket"))) [
      | inr other ↦ (invalid_upgrade, rw other refl)
      | inl same ↦
          elim (Bool-cases (str_eq (get (codes "Sec-Websocket-Version") r.header) (codes "13"))) [
            | inr old ↦ (invalid_websocket_version, rw (same, old) refl)
            | inl new ↦ (missing_websocket_key, ground arith)
          ]
    ]

-- A handshake is completed or fails.
pub handshake-cases :
    (sha1_base64 : Bytes → Bytes) (r : Request)
    → (IsUpgrade r × (handshake sha1_base64 r ≡ ok (upgrade_calls sha1_base64 r)))
      ⊎ ((¬ IsUpgrade r) × (e : Error) × (handshake sha1_base64 r ≡ err e))
unfolding handshake is_upgrade
handshake-cases sha1_base64 r = elim (Bool-cases (is_upgrade r)) [
  | inl yes_upgrade ↦ inl (is_upgrade_sound r yes_upgrade, ground (arith, yes_upgrade))
  | inr no_upgrade ↦
      let (e, failure) = failed sha1_base64 r no_upgrade in
      inr ((λ u. (let y = is_upgrade_complete r u in cc)), e, failure)
]

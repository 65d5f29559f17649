-- ===== src/Handlers/Guarding/Limiting.antt =====
-- The messages that reach the handler of /websocket/echo.
use go_httpbin.Base.{ℕ, ◌≤◌, ◌≡◌, arith, All, Bytes, codes}
use go_httpbin.Base.Int.{ℤ, pos_part, ◌≤ℤ◌}
use go_httpbin.Http.{Request, ok, get, ◌>>=◌}
use go_httpbin.Parsing.Ranges.{bind-ok}
use go_httpbin.Websocket.{Limits}
use go_httpbin.Websocket.Serving.{Setting, serve}
use go_httpbin.Websocket.Serving.Delivery.{IsSound, serve-IsSound}
use go_httpbin.Handlers.{Library, HttpBin}
use go_httpbin.Handlers.Guarding.{parse_limit, check_limits, websocket_limits, half}

module _ (lib : Library) (h : HttpBin lib) where
  parse_limit-bounded :
      (name user_limit : Bytes) (default n : ℤ)
      → default ≤ℤ h.max_body_size
      → parse_limit lib h name user_limit default ≡ ok n
      → n ≤ℤ h.max_body_size
  unfolding parse_limit
  parse_limit-bounded name user_limit default n d e = ground arith

  check_limits-ordered :
      (fragment message : ℤ) (l : Limits)
      → check_limits lib h fragment message ≡ ok l
      → message ≤ℤ h.max_body_size
      → (l.max_fragment_size ≤ l.max_message_size) × (l.max_message_size ≤ pos_part h.max_body_size)
  unfolding check_limits
  check_limits-ordered fragment message l e b = ground arith

  websocket_limits-ordered :
      (r : Request) (l : Limits)
      → websocket_limits lib h r ≡ ok l
      → (l.max_fragment_size ≤ l.max_message_size) × (l.max_message_size ≤ pos_part h.max_body_size)
  unfolding websocket_limits
  websocket_limits-ordered r l e =
      let (a, is_a, behind) =
        bind-ok
          (parse_limit lib h (codes "invalid max_fragment_size")
            (get (codes "max_fragment_size") r.query) (half lib h h.max_body_size))
          (λ fragment.
            parse_limit lib h (codes "invalid max_message_size")
              (get (codes "max_message_size") r.query) h.max_body_size
            >>= check_limits lib h fragment)
          l e in
      let (b, is_b, checked) =
        bind-ok
          (parse_limit lib h (codes "invalid max_message_size")
            (get (codes "max_message_size") r.query) h.max_body_size)
          (check_limits lib h a) l behind in
      check_limits-ordered a b l checked (
        parse_limit-bounded (codes "invalid max_message_size")
          (get (codes "max_message_size") r.query) h.max_body_size b (omega arith) is_b)

  -- Whatever the query of a request to /websocket/echo says, where limits are read from it, and whatever
  -- its client then sends, every message that the handler is given is within those limits and within the
  -- limit for bodies, and is well-formed UTF-8 if it is text.
  pub websocket_limits-IsSound :
      (r : Request) (s : Setting) (fuel : ℕ) (input : Bytes)
      → websocket_limits lib h r ≡ ok s.limits
      → (s.limits.max_message_size ≤ pos_part h.max_body_size)
        × All (IsSound s.limits) (serve s fuel input).delivered
  websocket_limits-IsSound r s fuel input e =
      let (ordered, small) = websocket_limits-ordered r s.limits e in
      (small, serve-IsSound s fuel input ordered)

-- ===== src/Websocket.antt =====
-- httpbin/websocket/websocket.go: the server side of a websocket connection.
-- A frame's opcode, a status code and a byte are numbers. What the connection delivers is a list of
-- bytes, which may end anywhere; a failing or timed-out read is such an end.
pub mod Wire
pub mod Encoding
pub mod Validation
pub mod Serving
pub mod Handshaking
use go_httpbin.Base.{ℕ, Bool, Bytes}

pub record Frame : Type 0 where
  pub fin : Bool
  pub rsv1 : Bool
  pub rsv2 : Bool
  pub rsv3 : Bool
  pub opcode : ℕ
  pub payload : Bytes

pub record Message : Type 0 where
  pub binary : Bool
  pub payload : Bytes

-- Go's ints. WebSocketEcho sets them to a number of at least 1, to MaxBodySize or to half of it; that
-- MaxBodySize is not negative is assumed.
pub record Limits : Type 0 where
  pub max_fragment_size : ℕ
  pub max_message_size : ℕ

abbrev pub opcode_continuation : ℕ
opcode_continuation = 0x0

abbrev pub opcode_text : ℕ
opcode_text = 0x1

abbrev pub opcode_binary : ℕ
opcode_binary = 0x2

abbrev pub opcode_close : ℕ
opcode_close = 0x8

abbrev pub opcode_ping : ℕ
opcode_ping = 0x9

abbrev pub opcode_pong : ℕ
opcode_pong = 0xa

-- The errors that a connection is closed with.
pub data WsError : Type 0 where
  unexpected_end unmasked_frame rsv_bits_set close_too_short invalid_close_text : WsError
  payload_too_large control_too_large : ℕ → WsError
  fragmented_control unsupported_opcode : ℕ → WsError
  close_code_out_of_range close_code_reserved : ℕ → WsError
  expected_continuation unexpected_continuation invalid_utf8 : WsError
  message_too_large : ℕ → WsError
  handler_failed : WsError

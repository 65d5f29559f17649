-- ===== src/Tests/Websockets.antt =====
-- Concrete frames and connections, of httpbin/websocket/websocket.go.
use go_httpbin.Base.{
  ℕ, ◌≤◌, ◌<◌, ◌≡◌, refl, ap, subst, ◌≢◌, ◌↔◌, inr, Bool, true, false, ◌&&◌, none, [], ◌∷◌, ◌++◌,
  arith, ltb, length, All, Bytes, codes,
}
use go_httpbin.Websocket.{
  Frame, Message, Limits, WsError, opcode_text, opcode_binary, opcode_ping, opcode_pong,
  opcode_close, opcode_continuation,
}
use go_httpbin.Websocket.Wire.{next_frame, got}
use go_httpbin.Websocket.Encoding.{
  client_frame, IsFrame, header_byte, next_frame-client_frame, write_frame_lem,
}
use go_httpbin.Websocket.Validation.{
  validate_close, validate_frame, IsAcceptable, validate_frame_iff,
}
use go_httpbin.Websocket.Serving.{
  Setting, State, frame_response, echo_handler, serve, serve_loop, running, returned, stop,
  log_frame, log_message, next_round, initial,
}
use go_httpbin.Websocket.Serving.Fragments.{frame_response_endless, whole_frame}
use go_httpbin.Websocket.Serving.Delivery.{serve-IsSound, IsSound}
use go_httpbin.Websocket.Serving.Termination.{serve-ends, RepliesFit}
use go_httpbin.Websocket.Serving.Replies.{
  message_of, Mask, sent, IsSendable, serve_loop_echo, serve_two_fragments,
}

abbrev frame_of : Bool → ℕ → Bytes → Frame
frame_of fin opcode payload = record {
  fin = fin;
  rsv1 = false;
  rsv2 = false;
  rsv3 = false;
  opcode = opcode;
  payload = payload;
}

abbrev hello : Frame
hello = frame_of true opcode_binary (1 ∷ 2 ∷ 3 ∷ [])

hello-IsFrame : IsFrame hello
hello-IsFrame = record {
  opcode = omega arith;
  payload = (omega arith, (omega arith, (omega arith, tt)));
  size = omega arith;
}

next_frame-client_frame_example :
    next_frame 1000 (client_frame 7 8 9 10 hello ++ 5 ∷ []) ≡ got hello (5 ∷ [])
next_frame-client_frame_example =
    next_frame-client_frame 1000 7 8 9 10 hello (5 ∷ [])
      (omega arith, (omega arith, (omega arith, (omega arith, tt)))) hello-IsFrame (omega arith)

validate_frame_iff_example : (validate_frame hello 2 ≡ none) ↔ IsAcceptable hello 2
validate_frame_iff_example = validate_frame_iff hello 2

abbrev binary_message : Message
binary_message = record { binary = true; payload = 1 ∷ 2 ∷ 3 ∷ [] }

frame_response_endless_example : frame_response 50 binary_message 2 ≡ none
frame_response_endless_example = frame_response_endless 50 binary_message 2 (omega arith)

-- An echo server for messages of up to 8 bytes in fragments of up to 4.
abbrev echo : Setting
echo = record {
  limits = record { max_fragment_size = 4; max_message_size = 8 };
  handler = echo_handler;
  max_alloc = 1000;
  error_text = λ e. [];
  is_done = λ n. false;
  write_fails = λ n. false;
}

abbrev greeting : Message
greeting = record { binary = false; payload = codes "ok" }

abbrev greeter : Setting
greeter = record echo { handler = λ msg. go_httpbin.Websocket.Serving.Reply.reply greeting }

abbrev mask : Mask
mask = record {
  a = 1;
  b = 2;
  c = 3;
  d = 4;
  bytes = (omega arith, (omega arith, (omega arith, (omega arith, tt))));
}

serve-IsSound_example : All (IsSound echo.limits) (serve echo 20 (sent mask hello)).delivered
serve-IsSound_example = serve-IsSound echo 20 (sent mask hello) (omega arith)

reply_payload : go_httpbin.Websocket.Serving.Reply → Bytes
reply_payload (go_httpbin.Websocket.Serving.Reply.reply msg) = msg.payload
reply_payload r = []

-- The echo handler, with the same limit for fragments and for messages.
abbrev even_echo : Setting
even_echo = record echo { limits = record { max_fragment_size = 8; max_message_size = 8 } }

even_echo-RepliesFit : RepliesFit even_echo
unfolding reply_payload echo_handler
even_echo-RepliesFit msg resp b e =
    let same : msg.payload ≡ resp.payload = ap reply_payload e in subst (λ p. length p ≤ 8) same b

abbrev wire : Bytes
wire = 130 ∷ 131 ∷ 1 ∷ 2 ∷ 3 ∷ 4 ∷ 5 ∷ 6 ∷ 7 ∷ []

serve-ends_example : (serve even_echo 20 wire).end ≢ running
serve-ends_example = serve-ends even_echo 20 wire (omega arith) even_echo-RepliesFit (omega arith)

abbrev ping : Frame
ping = frame_of true opcode_ping (codes "hi")

abbrev closing : Frame
closing = frame_of true opcode_close []

all_bytes : Bytes → Bool
all_bytes [] = true
all_bytes (b ∷ s) = ltb b 256 && all_bytes s

bytes_below : (s : Bytes) → all_bytes s ≡ true → go_httpbin.Websocket.Encoding.AllBytes s
unfolding all_bytes
bytes_below [] h = tt
bytes_below (b ∷ s) h = (ground arith, bytes_below s (ground arith))

sendable :
    (f : Frame)
    → f.opcode < 16
    → all_bytes f.payload ≡ true
    → length f.payload ≤ 1000
    → validate_frame f 4 ≡ none
    → IsSendable echo f
sendable f op bytes l v = record {
  frame = record { opcode = op; payload = bytes_below f.payload bytes; size = omega arith };
  acceptable = (validate_frame_iff f 4).0 v;
  readable = l;
}

ping-IsSendable : IsSendable echo ping
unfolding validate_frame all_bytes
ping-IsSendable = sendable ping (omega arith) refl (omega arith) refl

closing-IsSendable : IsSendable echo closing
unfolding validate_frame all_bytes validate_close
closing-IsSendable = sendable closing (omega arith) refl (omega arith) refl

hello-IsSendable : IsSendable echo hello
unfolding validate_frame all_bytes
hello-IsSendable = sendable hello (omega arith) refl (omega arith) refl

serve_loop_echo_example :
    serve_loop echo 10 (sent mask hello ++ []) initial
    ≡ serve_loop echo 9 [] (
        next_round
          (record (log_frame
            (whole_frame (message_of echo hello))
            (log_message (message_of echo hello) initial)) { current = none }))
serve_loop_echo_example =
    serve_loop_echo echo 8 mask hello [] initial refl refl refl refl hello-IsSendable refl
      (inr refl) (omega arith)

abbrev first_part : Frame
first_part = frame_of false opcode_binary (1 ∷ 2 ∷ 3 ∷ [])

abbrev last_part : Frame
last_part = frame_of true opcode_continuation (4 ∷ 5 ∷ [])

first_part-IsSendable : IsSendable echo first_part
unfolding validate_frame all_bytes
first_part-IsSendable = sendable first_part (omega arith) refl (omega arith) refl

last_part-IsSendable : IsSendable echo last_part
unfolding validate_frame all_bytes
last_part-IsSendable = sendable last_part (omega arith) refl (omega arith) refl

serve_two_fragments_example :
    (serve echo 100 (sent mask first_part ++ (sent mask last_part ++ []))).end ≡ running
serve_two_fragments_example =
    serve_two_fragments echo 100 mask mask first_part last_part [] refl (λ n. refl)
      first_part-IsSendable last_part-IsSendable refl refl refl refl (omega arith) (omega arith)

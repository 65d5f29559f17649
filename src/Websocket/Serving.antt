-- ===== src/Websocket/Serving.antt =====
-- serveLoop and frameResponse. Both loops take fuel; `running` is a loop that has not ended within it.
pub mod Fragments
pub mod Delivery
pub mod Termination
pub mod Replies
use go_httpbin.Base.{
  ℕ, zero, suc, ◌+◌, ◌-◌, Bool, true, false, not, ◌&&◌, ◌||◌, Option, none, some, List, [], ◌∷◌,
  ◌++◌, ltb, leb, ◌==◌, if◌then◌else◌, length, take, drop, Bytes,
}
use go_httpbin.Strings.Utf8.{valid}
use go_httpbin.Websocket.{
  Frame, Message, Limits, WsError, expected_continuation, unexpected_continuation, invalid_utf8,
  message_too_large, handler_failed, unsupported_opcode, opcode_continuation, opcode_text,
  opcode_binary, opcode_close, opcode_ping, opcode_pong,
}
use go_httpbin.Websocket.Wire.{Read, got, failed, oversized, next_frame, write_frame, close_frame}
use go_httpbin.Websocket.Validation.{validate_frame}

-- The loop of frameResponse: the fuel, the limit, the payload, and the variables of the loop.
unfoldable pub response_loop :
    ℕ → ℕ → Bytes → (offset : ℕ) (opcode : ℕ) → List Frame → Option (List Frame)
response_loop zero size payload offset opcode result = none
response_loop (suc fuel) size payload offset opcode result =
    let op = if ltb 0 offset then opcode_continuation else opcode in
    let fin = leb (length payload) (offset + size) in
    let end = if fin then length payload else offset + size in
    let result' =
      result
      ++ record {
        fin = fin;
        rsv1 = false;
        rsv2 = false;
        rsv3 = false;
        opcode = op;
        payload = take (end - offset) (drop offset payload);
      }
        ∷ [] in
    let again = response_loop fuel size payload offset op result' in
    if fin then some result' else again

unfoldable pub frame_response : ℕ → Message → ℕ → Option (List Frame)
frame_response fuel msg size =
    response_loop fuel size msg.payload 0 (if msg.binary then opcode_binary else opcode_text) []

-- What a handler returns: an error, a nil message, or a message.
pub data Reply : Type 0 where
  failure no_reply : Reply
  reply : Message → Reply

abbrev pub MessageHandler : Type 0
MessageHandler = Message → Reply

unfoldable pub echo_handler : MessageHandler
echo_handler msg = reply msg

-- How the loop ends: it returned, a write failed, making a slice panicked, or it is still running.
pub data End : Type 0 where
  returned write_failed panicked running : End

-- What the loop has done: the frames written, the messages handed to the handler, and the end.
pub record Trace : Type 0 where
  pub written : List Frame
  pub delivered : List Message
  pub end : End

-- What the loop depends on besides the input: the limits, the handler, the runtime's largest slice,
-- the text of an error, and whether the context is done in a round and whether the `n`th write fails.
pub record Setting : Type 0 where
  pub limits : Limits
  pub handler : MessageHandler
  pub max_alloc : ℕ
  pub error_text : WsError → Bytes
  pub is_done : ℕ → Bool
  pub write_fails : ℕ → Bool

-- What one frame does to the loop: it stops it with a close frame, it answers with a frame, it has no
-- effect, or it leaves a message, which is complete if the frame is final.
pub data Action : Type 0 where
  close : ℕ → Option WsError → Action
  answer : Frame → Action
  ignore : Action
  hold : Message → Action

abbrev pub check_text : Bool → Bytes → Action → Action
check_text is_text payload next =
    if is_text && not (valid payload) then close 1007 (some invalid_utf8) else next

abbrev pub start_message : Frame → Option Message → Action
start_message f (some msg) = close 1002 (some expected_continuation)
start_message f none =
    check_text (f.opcode == opcode_text) f.payload
      (hold (record { binary = f.opcode == opcode_binary; payload = f.payload }))

abbrev pub continue_message : ℕ → Frame → Option Message → Action
continue_message max f none = close 1002 (some unexpected_continuation)
continue_message max f (some msg) =
    let payload : Bytes = msg.payload ++ f.payload in
    check_text (not msg.binary) f.payload (
      if ltb max (length payload)
      then close 1009 (some (message_too_large (length payload)))
      else hold (record msg { payload = payload }))

-- The switch on the opcode, behind the validation of the frame.
unfoldable pub act : Limits → Frame → Option Message → Action
act limits f current = elim (validate_frame f limits.max_fragment_size) [
  | some e ↦ close 1002 (some e)
  | none ↦
      if f.opcode == opcode_binary || f.opcode == opcode_text
      then start_message f current
      else if f.opcode == opcode_continuation
      then continue_message limits.max_message_size f current
      else if f.opcode == opcode_close
      then close 1000 none
      else if f.opcode == opcode_ping
      then answer (record f { opcode = opcode_pong })
      else if f.opcode == opcode_pong
      then ignore
      else close 1002 (some (unsupported_opcode f.opcode))
]

abbrev text_of : (WsError → Bytes) → Option WsError → Bytes
text_of error_text none = []
text_of error_text (some e) = error_text e

-- The variables of the loop besides the input: the round, the message so far, and the trace.
pub record State : Type 0 where
  pub round : ℕ
  pub current : Option Message
  pub trace : Trace

abbrev pub stop : End → State → Trace
stop end st = record st.trace { end = end }

abbrev pub log_frame : Frame → State → State
log_frame f st = record st { trace = record st.trace { written = st.trace.written ++ f ∷ [] } }

abbrev pub log_message : Message → State → State
log_message msg st = record st {
  trace = record st.trace { delivered = st.trace.delivered ++ msg ∷ [] };
}

abbrev pub next_round : State → State
next_round st = record st { round = st.round + 1 }

abbrev pub initial : State
initial = record {
  round = 0;
  current = none;
  trace = record { written = []; delivered = []; end = running };
}

module _ (s : Setting) where
  open s use {limits, handler, max_alloc, error_text, is_done, write_fails}

  -- writeFrame, with what comes after it.
  unfoldable pub emit : Frame → State → (State → Trace) → Trace
  emit f st next =
      if write_fails (length st.trace.written) then stop write_failed st else next (log_frame f st)

  unfoldable pub emit_all : List Frame → State → (State → Trace) → Trace
  emit_all [] st next = next st
  emit_all (f ∷ fs) st next = emit f st (λ st'. emit_all fs st' next)

  unfoldable pub close_with : ℕ → Option WsError → State → Trace
  close_with code e st = emit (close_frame code (text_of error_text e)) st (stop returned)

  unfoldable pub send_frames : Option (List Frame) → State → (State → Trace) → Trace
  send_frames none st next = stop running st
  send_frames (some frames) st next =
      emit_all frames st (λ st'. next (record st' { current = none }))

  -- What the handler's answer to a message does. A nil message leaves the current message as it is.
  unfoldable pub take_reply : ℕ → Reply → Message → State → (State → Trace) → Trace
  take_reply fuel failure msg st next = close_with 1011 (some handler_failed) st
  take_reply fuel no_reply msg st next = next (record st { current = some msg })
  take_reply fuel (reply resp) msg st next =
      send_frames (frame_response fuel resp limits.max_fragment_size) st next

  -- The handler's turn, on a final frame.
  unfoldable pub respond : ℕ → Message → State → (State → Trace) → Trace
  respond fuel msg st next = take_reply fuel (handler msg) msg (log_message msg st) next

  unfoldable pub perform : ℕ → Frame → Action → State → (State → Trace) → Trace
  perform fuel f (close code e) st next = close_with code e st
  perform fuel f (answer pong) st next = emit pong st next
  perform fuel f ignore st next = next st
  perform fuel f (hold msg) st next =
      if f.fin then respond fuel msg st next else next (record st { current = some msg })

  -- A round of the loop behind its read.
  unfoldable pub handle_read : ℕ → Read Frame → State → (Bytes → State → Trace) → Trace
  handle_read fuel (failed e) st again = close_with 1011 (some e) st
  handle_read fuel oversized st again = stop panicked st
  handle_read fuel (got f rest) st again =
      perform fuel f (act limits f st.current) st (λ st'. again rest (next_round st'))

  unfoldable pub serve_loop : ℕ → Bytes → State → Trace
  serve_loop zero input st = stop running st
  serve_loop (suc fuel) input st = elim (is_done st.round) [
    | true ↦ stop returned st
    | false ↦
        handle_read fuel (next_frame max_alloc input) st (λ rest st'. serve_loop fuel rest st')
  ]

  unfoldable pub serve : ℕ → Bytes → Trace
  serve fuel input = serve_loop fuel input initial

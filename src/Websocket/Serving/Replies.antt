-- ===== src/Websocket/Serving/Replies.antt =====
-- What the loop answers to what a client sends.
use go_httpbin.Base.{
  ℕ, zero, suc, ◌≤◌, ◌<◌, ◌≡◌, refl, ◌⊎◌, inl, inr, true, false, Option, none, some, [], ◌∷◌, ◌++◌,
  arith, ◌==◌, length, Bytes,
}
use go_httpbin.Strings.Utf8.{valid}
use go_httpbin.Websocket.{
  Frame, Message, opcode_continuation, opcode_text, opcode_binary, opcode_close, opcode_ping,
  opcode_pong,
}
use go_httpbin.Websocket.Wire.{close_frame}
use go_httpbin.Websocket.Encoding.{client_frame, AllBytes, IsFrame, next_frame-client_frame}
use go_httpbin.Websocket.Validation.{IsAcceptable, validate_frame, validate_frame_iff}
use go_httpbin.Websocket.Serving.{
  returned, running, Setting, close, answer, hold, act, State, stop, log_frame, log_message,
  next_round, emit, emit_all, close_with, send_frames, take_reply, respond, perform, handle_read,
  serve_loop, serve, initial, echo_handler,
}
use go_httpbin.Websocket.Serving.Fragments.{
  frame_response_fits, frame_response_endless, whole_frame,
}

-- The four bytes of a mask.
pub record Mask : Type 0 where
  pub a : ℕ
  pub b : ℕ
  pub c : ℕ
  pub d : ℕ
  pub bytes : AllBytes (a ∷ b ∷ c ∷ d ∷ [])

abbrev pub sent : Mask → Frame → Bytes
sent m f = client_frame m.a m.b m.c m.d f

-- A frame that a client may send, of a size that the server can read.
pub record IsSendable (s : Setting) (f : Frame) : Type 0 where
  pub frame : IsFrame f
  pub acceptable : IsAcceptable f s.limits.max_fragment_size
  pub readable : length f.payload ≤ s.max_alloc

module _ (s : Setting) where
  -- A round of the loop on a frame from the client.
  serve_loop-sent :
      (fuel : ℕ) (m : Mask) (f : Frame) (rest : Bytes) (st : State)
      → s.is_done st.round ≡ false
      → IsSendable s f
      → serve_loop s (suc fuel) (sent m f ++ rest) st
        ≡ perform s fuel f
            (act s.limits f st.current)
            st
            (λ st'. serve_loop s fuel rest (next_round st'))
  unfolding serve_loop handle_read
  serve_loop-sent fuel m f rest st live v = rw (
    live,
    serve_loop,
    next_frame-client_frame s.max_alloc m.a m.b m.c m.d f rest m.bytes v.frame v.readable,
    handle_read,
  )

  valid_frame : (f : Frame) → IsSendable s f → validate_frame f s.limits.max_fragment_size ≡ none
  valid_frame f v = (validate_frame_iff f s.limits.max_fragment_size).1 v.acceptable

  act_ping :
      (f : Frame) (current : Option Message)
      → IsSendable s f
      → f.opcode ≡ opcode_ping
      → act s.limits f current ≡ answer (record f { opcode = opcode_pong })
  unfolding act
  act_ping f current v ping = ground (arith, valid_frame f v)

  act_close :
      (f : Frame) (current : Option Message)
      → IsSendable s f
      → f.opcode ≡ opcode_close
      → act s.limits f current ≡ close 1000 none
  unfolding act
  act_close f current v closing = ground (arith, valid_frame f v)

  -- A ping is answered by a pong with its payload, at any time, and the loop goes on as before.
  pub serve_loop_ping :
      (fuel : ℕ) (m : Mask) (f : Frame) (rest : Bytes) (st : State)
      → s.is_done st.round ≡ false
      → s.write_fails (length st.trace.written) ≡ false
      → IsSendable s f
      → f.opcode ≡ opcode_ping
      → serve_loop s (suc fuel) (sent m f ++ rest) st
        ≡ serve_loop s fuel rest (next_round (log_frame (record f { opcode = opcode_pong }) st))
  unfolding perform emit
  serve_loop_ping fuel m f rest st live writes v ping =
      rw (serve_loop-sent fuel m f rest st live v, act_ping f st.current v ping, writes)

  -- A close frame ends the loop, which answers with the code of a normal closure.
  pub serve_loop_close :
      (fuel : ℕ) (m : Mask) (f : Frame) (rest : Bytes) (st : State)
      → s.is_done st.round ≡ false
      → s.write_fails (length st.trace.written) ≡ false
      → IsSendable s f
      → f.opcode ≡ opcode_close
      → serve_loop s (suc fuel) (sent m f ++ rest) st
        ≡ stop returned (log_frame (close_frame 1000 []) st)
  unfolding perform close_with emit
  serve_loop_close fuel m f rest st live writes v closing =
      rw (serve_loop-sent fuel m f rest st live v, act_close f st.current v closing, writes)

  abbrev pub message_of : Frame → Message
  message_of f = record { binary = f.opcode == opcode_binary; payload = f.payload }

  abbrev IsStart : Frame → Type 0
  IsStart f = ((f.opcode ≡ opcode_text) × (valid f.payload ≡ true)) ⊎ (f.opcode ≡ opcode_binary)

  act_start : (f : Frame) → IsSendable s f → IsStart f → act s.limits f none ≡ hold (message_of f)
  unfolding act
  act_start f v start = ground (arith, valid_frame f v)

  -- With the echo handler a message in one frame comes back in one frame, with the same payload.
  pub serve_loop_echo :
      (fuel : ℕ) (m : Mask) (f : Frame) (rest : Bytes) (st : State)
      → s.handler ≡ echo_handler
      → s.is_done st.round ≡ false
      → s.write_fails (length st.trace.written) ≡ false
      → st.current ≡ none
      → IsSendable s f
      → f.fin ≡ true
      → IsStart f
      → length f.payload ≤ s.limits.max_fragment_size
      → serve_loop s (suc (suc fuel)) (sent m f ++ rest) st
        ≡ serve_loop s (suc fuel) rest (
            next_round
              (record (log_frame (whole_frame (message_of f)) (log_message (message_of f) st)) {
                current = none;
              }))
  unfolding perform respond take_reply send_frames emit_all emit echo_handler
  serve_loop_echo fuel m f rest st echo live writes idle v fin start fits = rw (
    serve_loop-sent (suc fuel) m f rest st live v,
    idle,
    act_start f v start,
    fin,
    echo,
    frame_response_fits fuel (message_of f) s.limits.max_fragment_size fits,
    writes,
  )

  act_continue :
      (f : Frame) (msg : Message)
      → IsSendable s f
      → f.opcode ≡ opcode_continuation
      → (msg.binary ≡ true) ⊎ (valid f.payload ≡ true)
      → length (msg.payload ++ f.payload) ≤ s.limits.max_message_size
      → act s.limits f (some msg) ≡ hold (record msg { payload = msg.payload ++ f.payload })
  unfolding act
  act_continue f msg v cont text fits = ground (arith, valid_frame f v)

-- With the echo handler, a message in two fragments that is longer than the fragment limit, but within
-- the message limit, keeps the loop running for ever, whatever the fuel.
pub serve_two_fragments :
    (s : Setting) (fuel : ℕ) (m m' : Mask) (f g : Frame) (rest : Bytes)
    → s.handler ≡ echo_handler
    → ((n : ℕ) → s.is_done n ≡ false)
    → IsSendable s f
    → IsSendable s g
    → f.fin ≡ false
    → f.opcode ≡ opcode_binary
    → g.fin ≡ true
    → g.opcode ≡ opcode_continuation
    → s.limits.max_fragment_size < length (f.payload ++ g.payload)
    → length (f.payload ++ g.payload) ≤ s.limits.max_message_size
    → (serve s fuel (sent m f ++ (sent m' g ++ rest))).end ≡ running
unfolding serve perform respond take_reply send_frames echo_handler
serve_two_fragments s zero m m' f g rest echo live vf vg more start last cont long fits =
    unfold serve_loop in refl
serve_two_fragments s (suc zero) m m' f g rest echo live vf vg more start last cont long fits =
    rw
      (
        serve_loop-sent s zero m f (sent m' g ++ rest) initial (live 0) vf,
        act_start s f vf (inr start),
        more,
      )
      (unfold serve_loop in refl)
serve_two_fragments s (suc (suc fuel)) m m' f g rest echo live vf vg more start last cont long
      fits =
    rw (
      serve_loop-sent s (suc fuel) m f (sent m' g ++ rest) initial (live 0) vf,
      act_start s f vf (inr start),
      more,
      serve_loop-sent s fuel m' g rest
          (record { round = 1; current = some (message_of s f); trace = initial.trace }) (live 1)
          vg,
      act_continue s g (message_of s f) vg cont (inl (ground arith)) fits,
      last,
      echo,
      frame_response_endless fuel (record (message_of s f) { payload = f.payload ++ g.payload })
          s.limits.max_fragment_size long,
    )

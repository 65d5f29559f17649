-- ===== src/Websocket/Serving/Delivery.antt =====
-- What the handler is given: messages within the limits, text in UTF-8.
use go_httpbin.Base.{
  ℕ, zero, suc, ◌≤◌, ◌≡◌, refl, inl, inr, true, false, Option, none, some, List, [], ◌∷◌, arith,
  Bool-cases, length, All, All-append, Bytes,
}
use go_httpbin.Strings.Utf8.{valid, valid-append}
use go_httpbin.Websocket.{Frame, Message, Limits, WsError}
use go_httpbin.Websocket.Wire.{Read, got, failed, oversized, next_frame}
use go_httpbin.Websocket.Validation.{is_data, validate_frame, validate_frame_iff}
use go_httpbin.Websocket.Serving.{
  Reply, failure, no_reply, reply, returned, Trace, Setting, Action, close, answer, ignore, hold,
  act, State, stop, log_frame, log_message, next_round, emit, emit_all, close_with, send_frames,
  take_reply, handle_read, respond, perform, serve_loop, serve, initial, frame_response,
}

pub record IsSound (limits : Limits) (msg : Message) : Type 0 where
  pub text : msg.binary ≡ false → valid msg.payload ≡ true
  pub size : length msg.payload ≤ limits.max_message_size

abbrev pub Current : Limits → Option Message → Type 0
Current limits none = Unit
Current limits (some msg) = IsSound limits msg

data_fits :
    (f : Frame) (max : ℕ)
    → validate_frame f max ≡ none
    → is_data f.opcode ≡ true
    → length f.payload ≤ max
data_fits f max v d = ((validate_frame_iff f max).0 v).data_size (ground arith)

-- A message that a frame starts or continues is sound.
pub act-hold :
    (limits : Limits) (f : Frame) (current : Option Message) (msg : Message)
    → limits.max_fragment_size ≤ limits.max_message_size
    → Current limits current
    → act limits f current ≡ hold msg
    → IsSound limits msg
unfolding act
act-hold limits f none msg le c e = record {
  text = λ t. ground arith;
  size = ground (arith, data_fits f limits.max_fragment_size);
}
act-hold limits f (some m) msg le c e = record {
  text = λ t. ground (arith, valid-append m.payload f.payload);
  size = ground arith;
}

module _ (s : Setting) (le : s.limits.max_fragment_size ≤ s.limits.max_message_size) where
  abbrev AllSound : Trace → Type 0
  AllSound t = All (IsSound s.limits) t.delivered

  record IsSoundState (st : State) : Type 0 where
    current : Current s.limits st.current
    delivered : AllSound st.trace

  -- What comes after a step keeps to sound messages.
  abbrev Keeps : (State → Trace) → Type 0
  Keeps next = (st : State) → IsSoundState st → AllSound (next st)

  emit-AllSound :
      (f : Frame) (st : State) (next : State → Trace)
      → Keeps next
      → IsSoundState st
      → AllSound (emit s f st next)
  unfolding emit
  emit-AllSound f st next k h = elim (Bool-cases (s.write_fails (length st.trace.written))) [
    | inl fails ↦ rw fails h.delivered
    | inr works ↦
        rw works (k (log_frame f st) (record { current = h.current; delivered = h.delivered }))
  ]

  emit_all-AllSound :
      (fs : List Frame) (st : State) (next : State → Trace)
      → Keeps next
      → IsSoundState st
      → AllSound (emit_all s fs st next)
  unfolding emit_all
  emit_all-AllSound [] st next k h = k st h
  emit_all-AllSound (f ∷ fs) st next k h =
      emit-AllSound f st _ (λ st' h'. emit_all-AllSound fs st' next k h') h

  close_with-AllSound :
      (code : ℕ) (e : Option WsError) (st : State)
      → IsSoundState st
      → AllSound (close_with s code e st)
  unfolding close_with
  close_with-AllSound code e st h = emit-AllSound _ st (stop returned) (λ st' h'. h'.delivered) h

  log_message-IsSoundState :
      (msg : Message) (st : State)
      → IsSound s.limits msg
      → IsSoundState st
      → IsSoundState (log_message msg st)
  log_message-IsSoundState msg st m h = record {
    current = h.current;
    delivered = All-append (IsSound s.limits) st.trace.delivered (msg ∷ []) h.delivered (m, tt);
  }

  send_frames-AllSound :
      (fs : Option (List Frame)) (st : State) (next : State → Trace)
      → Keeps next
      → IsSoundState st
      → AllSound (send_frames s fs st next)
  unfolding send_frames
  send_frames-AllSound none st next k h = h.delivered
  send_frames-AllSound (some fs) st next k h =
      emit_all-AllSound fs st _ (λ st' h'. k _ (record { current = tt; delivered = h'.delivered }))
        h

  take_reply-AllSound :
      (fuel : ℕ) (r : Reply) (msg : Message) (st : State) (next : State → Trace)
      → IsSound s.limits msg
      → Keeps next
      → IsSoundState st
      → AllSound (take_reply s fuel r msg st next)
  unfolding take_reply
  take_reply-AllSound fuel failure msg st next m k h = close_with-AllSound 1011 _ st h
  take_reply-AllSound fuel no_reply msg st next m k h =
      k _ (record { current = m; delivered = h.delivered })
  take_reply-AllSound fuel (reply resp) msg st next m k h =
      send_frames-AllSound (frame_response fuel resp s.limits.max_fragment_size) st next k h

  perform-AllSound :
      (fuel : ℕ) (f : Frame) (a : Action) (st : State) (next : State → Trace)
      → ((msg : Message) → a ≡ hold msg → IsSound s.limits msg)
      → Keeps next
      → IsSoundState st
      → AllSound (perform s fuel f a st next)
  unfolding perform respond
  perform-AllSound fuel f (close code e) st next m k h = close_with-AllSound code e st h
  perform-AllSound fuel f (answer pong) st next m k h = emit-AllSound pong st next k h
  perform-AllSound fuel f ignore st next m k h = k st h
  perform-AllSound fuel f (hold msg) st next m k h = elim (Bool-cases f.fin) [
    | inl last ↦ rw last (
        take_reply-AllSound fuel (s.handler msg) msg (log_message msg st) next (m msg refl) k
          (log_message-IsSoundState msg st (m msg refl) h))
    | inr more ↦ rw more (k _ (record { current = m msg refl; delivered = h.delivered }))
  ]

  handle_read-AllSound :
      (fuel : ℕ) (r : Read Frame) (st : State) (again : Bytes → State → Trace)
      → ((rest : Bytes) → Keeps (again rest))
      → IsSoundState st
      → AllSound (handle_read s fuel r st again)
  unfolding handle_read
  handle_read-AllSound fuel (failed e) st again k h = close_with-AllSound 1011 _ st h
  handle_read-AllSound fuel oversized st again k h = h.delivered
  handle_read-AllSound fuel (got f rest) st again k h =
      perform-AllSound fuel f (act s.limits f st.current) st _
        (λ msg e. act-hold s.limits f st.current msg le h.current e)
        (λ st' h'.
          k rest (next_round st') (record { current = h'.current; delivered = h'.delivered }))
        h

  serve_loop-AllSound :
      (fuel : ℕ) (input : Bytes) (st : State)
      → IsSoundState st
      → AllSound (serve_loop s fuel input st)
  unfolding serve_loop
  serve_loop-AllSound zero input st h = h.delivered
  serve_loop-AllSound (suc fuel) input st h = elim (Bool-cases (s.is_done st.round)) [
    | inl done ↦ rw (done, serve_loop) h.delivered
    | inr live ↦
        rw (live, serve_loop)
          (handle_read-AllSound fuel (next_frame s.max_alloc input) st _
            (λ rest st' h'. serve_loop-AllSound fuel rest st' h') h)
  ]

-- Whatever the client sends, every message that the handler is given is within the message limit, and
-- is well-formed UTF-8 if it is text, where the fragment limit is within the message limit.
pub serve-IsSound :
    (s : Setting) (fuel : ℕ) (input : Bytes)
    → s.limits.max_fragment_size ≤ s.limits.max_message_size
    → All (IsSound s.limits) (serve s fuel input).delivered
unfolding serve
serve-IsSound s fuel input le =
    serve_loop-AllSound s le fuel input initial (record { current = tt; delivered = tt })

-- ===== src/Websocket/Serving/Termination.antt =====
-- serveLoop ends: each round takes a frame's bytes off the input.
use go_httpbin.Base.{
  ℕ, zero, suc, ◌+◌, ◌≤◌, ◌<◌, ◌≡◌, refl, ◌≢◌, inl, inr, Option, [], ◌∷◌, arith, ltb, ◌==◌,
  Bool-cases, length, length-drop, Bytes,
}
use Prim.Native.Nat.{bit_and}
use go_httpbin.Websocket.{Frame, Message, WsError}
use go_httpbin.Websocket.Wire.{
  Read, got, failed, oversized, ◌>>=◌, read_full, read_length, read_body, next_frame,
}
use go_httpbin.Websocket.Serving.{
  Reply, failure, no_reply, reply, running, Trace, Setting, Action, close, answer, ignore, hold,
  act, State, log_frame, log_message, next_round, emit, emit_all, close_with, send_frames,
  take_reply, respond, perform, handle_read, serve_loop, serve, initial,
}
use go_httpbin.Websocket.Serving.Fragments.{frame_response_fits}
use go_httpbin.Websocket.Serving.Delivery.{IsSound, Current, act-hold}

read_full-length :
    (n : ℕ) (input s rest : Bytes) → read_full n input ≡ got s rest → length rest + n ≡ length input
unfolding read_full
read_full-length n input s rest h = ground (arith, length-drop n input)

read_length-le :
    (b1 : ℕ) (input : Bytes) (n : ℕ) (rest : Bytes)
    → read_length b1 input ≡ got n rest
    → length rest ≤ length input
unfolding read_length read_full
read_length-le b1 input n rest h = ground (arith, length-drop 2 input, length-drop 8 input)

bind_got {ℓ κ} :
    {A : Type ℓ} {B : Type κ} (m : Read A) (f : A → Bytes → Read B) (b : B) (rest : Bytes)
    → (m >>= f) ≡ got b rest
    → (a : A) × (mid : Bytes) × (m ≡ got a mid) × (f a mid ≡ got b rest)
bind_got (got a mid) f b rest h = (a, mid, refl, h)
bind_got (failed e) f b rest h = cc
bind_got oversized f b rest h = cc

module _ (max_alloc : ℕ) where
  read_body-le :
      (b0 n : ℕ) (input : Bytes) (f : Frame) (rest : Bytes)
      → read_body max_alloc b0 n input ≡ got f rest
      → length rest ≤ length input
  unfolding read_body
  read_body-le b0 n input f rest h =
      let (mask, mid, e, h') = bind_got (read_full 4 input) _ f rest h in
      elim (Bool-cases (ltb max_alloc n)) [
        | inl big ↦ cc (rw big at h')
        | inr fits ↦
            let (payload, end, e', h'') = bind_got (read_full n mid) _ f rest (rw fits at h') in
            ground
              (arith, read_full-length 4 input mask mid e, read_full-length n mid payload end e')
      ]

  -- A frame takes at least two bytes off the input.
  pub next_frame-length :
      (input : Bytes) (f : Frame) (rest : Bytes)
      → next_frame max_alloc input ≡ got f rest
      → length rest + 2 ≤ length input
  unfolding next_frame
  next_frame-length [] f rest h = cc
  next_frame-length (b0 ∷ []) f rest h = cc
  next_frame-length (b0 ∷ b1 ∷ input) f rest h = elim (Bool-cases (bit_and b1 128 == 0)) [
    | inl plain ↦ cc (rw plain at h)
    | inr masked ↦
        let (n, mid, e, h') = bind_got (read_length b1 input) _ f rest (rw masked at h) in
        omega (arith, read_length-le b1 input n mid e, read_body-le b0 n mid f rest h')
  ]

-- The handler answers a message within the message limit within the fragment limit.
abbrev pub RepliesFit : Setting → Type 0
RepliesFit s =
    (msg resp : Message)
    → length msg.payload ≤ s.limits.max_message_size
    → s.handler msg ≡ reply resp
    → length resp.payload ≤ s.limits.max_fragment_size

module _ (s : Setting) (le : s.limits.max_fragment_size ≤ s.limits.max_message_size)
    (fit : RepliesFit s) where
  abbrev Ends : Trace → Type 0
  Ends t = t.end ≢ running

  -- What comes after a step ends, if the message that is held is sound.
  abbrev Finishes : (State → Trace) → Type 0
  Finishes next = (st : State) → Current s.limits st.current → Ends (next st)

  emit-Ends :
      (f : Frame) (st : State) (next : State → Trace)
      → Finishes next
      → Current s.limits st.current
      → Ends (emit s f st next)
  unfolding emit
  emit-Ends f st next k c = elim (Bool-cases (s.write_fails (length st.trace.written))) [
    | inl fails ↦ rw fails (cc)
    | inr works ↦ rw works (k (log_frame f st) c)
  ]

  close_with-Ends : (code : ℕ) (e : Option WsError) (st : State) → Ends (close_with s code e st)
  unfolding close_with emit
  close_with-Ends code e st = elim (Bool-cases (s.write_fails (length st.trace.written))) [
    | inl fails ↦ rw fails (cc)
    | inr works ↦ rw works (cc)
  ]

  take_reply-Ends :
      (fuel : ℕ) (r : Reply) (msg : Message) (st : State) (next : State → Trace)
      → s.handler msg ≡ r
      → IsSound s.limits msg
      → Finishes next
      → Current s.limits st.current
      → Ends (take_reply s (suc fuel) r msg st next)
  unfolding take_reply send_frames emit_all
  take_reply-Ends fuel failure msg st next e m k c = close_with-Ends 1011 _ st
  take_reply-Ends fuel no_reply msg st next e m k c = k _ m
  take_reply-Ends fuel (reply resp) msg st next e m k c =
      rw (frame_response_fits fuel resp s.limits.max_fragment_size (fit msg resp m.size e))
        (emit-Ends _ st _ (λ st' c'. k _ tt) c)

  perform-Ends :
      (fuel : ℕ) (f : Frame) (a : Action) (st : State) (next : State → Trace)
      → ((msg : Message) → a ≡ hold msg → IsSound s.limits msg)
      → Finishes next
      → Current s.limits st.current
      → Ends (perform s (suc fuel) f a st next)
  unfolding perform respond
  perform-Ends fuel f (close code e) st next m k c = close_with-Ends code e st
  perform-Ends fuel f (answer pong) st next m k c = emit-Ends pong st next k c
  perform-Ends fuel f ignore st next m k c = k st c
  perform-Ends fuel f (hold msg) st next m k c = elim (Bool-cases f.fin) [
    | inl last ↦
        rw last
          (take_reply-Ends fuel (s.handler msg) msg (log_message msg st) next refl (m msg refl) k c)
    | inr more ↦ rw more (k _ (m msg refl))
  ]

  handle_read-Ends :
      (fuel : ℕ) (r : Read Frame) (st : State) (again : Bytes → State → Trace)
      → ((f : Frame) (rest : Bytes) → r ≡ got f rest → (0 < fuel) × Finishes (again rest))
      → Current s.limits st.current
      → Ends (handle_read s fuel r st again)
  unfolding handle_read
  handle_read-Ends fuel (failed e) st again k c = close_with-Ends 1011 _ st
  handle_read-Ends fuel oversized st again k c = cc
  handle_read-Ends zero (got f rest) st again k c = absurd (omega (arith, (k f rest refl).0))
  handle_read-Ends (suc fuel) (got f rest) st again k c =
      perform-Ends fuel f (act s.limits f st.current) st _
        (λ msg e. act-hold s.limits f st.current msg le c e)
        (λ st' c'. (k f rest refl).1 (next_round st') c') c

  serve_loop-Ends :
      (fuel : ℕ) (input : Bytes) (st : State)
      → length input < fuel
      → Current s.limits st.current
      → Ends (serve_loop s fuel input st)
  unfolding serve_loop
  serve_loop-Ends zero input st h c = absurd (omega arith)
  serve_loop-Ends (suc fuel) input st h c = elim (Bool-cases (s.is_done st.round)) [
    | inl done ↦ rw (done, serve_loop) (cc)
    | inr live ↦
        rw (live, serve_loop)
          (handle_read-Ends fuel (next_frame s.max_alloc input) st _
            (λ f rest e.
              let shorter = next_frame-length s.max_alloc input f rest e in
              (omega arith, λ st' c'. serve_loop-Ends fuel rest st' (omega arith) c'))
            c)
  ]

-- The loop ends on every input, in at most one round more than the input has bytes, if the handler's
-- answers to messages within the message limit fit into one frame, and the fragment limit is within
-- the message limit.
pub serve-ends :
    (s : Setting) (fuel : ℕ) (input : Bytes)
    → s.limits.max_fragment_size ≤ s.limits.max_message_size
    → RepliesFit s
    → length input < fuel
    → (serve s fuel input).end ≢ running
unfolding serve
serve-ends s fuel input le fit h = serve_loop-Ends s le fit fuel input initial h tt

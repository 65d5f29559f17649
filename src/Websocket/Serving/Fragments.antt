-- ===== src/Websocket/Serving/Fragments.antt =====
-- frameResponse: a message that fits in one frame, and one that does not.
use go_httpbin.Base.{
  ℕ, zero, suc, ◌+◌, ◌-◌, ◌≤◌, ◌<◌, ◌≡◌, refl, ap, Bool, true, false, none, some, List, [], ◌∷◌,
  ◌++◌, arith, if◌then◌else◌, length, take, Bytes,
}
use go_httpbin.Websocket.{Frame, Message, opcode_text, opcode_binary}
use go_httpbin.Websocket.Serving.{response_loop, frame_response}

abbrev pub opcode_of : Bool → ℕ
opcode_of binary = if binary then opcode_binary else opcode_text

-- The one frame of a message that is not split.
abbrev pub whole_frame : Message → Frame
whole_frame msg = record {
  fin = true;
  rsv1 = false;
  rsv2 = false;
  rsv3 = false;
  opcode = opcode_of msg.binary;
  payload = msg.payload;
}

take_all : (s : Bytes) → take (length s) s ≡ s
take_all [] = refl
take_all (c ∷ s) = ap (◌∷◌ c) (take_all s)

-- A message within the limit becomes one final frame with its payload.
pub frame_response_fits :
    (fuel : ℕ) (msg : Message) (size : ℕ)
    → length msg.payload ≤ size
    → frame_response (suc fuel) msg size ≡ some (whole_frame msg ∷ [])
unfolding frame_response response_loop
frame_response_fits fuel msg size h = ground (arith, take_all msg.payload)

response_loop_endless :
    (fuel size op : ℕ) (payload : Bytes) (result : List Frame)
    → size < length payload
    → response_loop fuel size payload 0 op result ≡ none
unfolding response_loop
response_loop_endless zero size op payload result h = refl
response_loop_endless (suc fuel) size op payload result h = ground (
  arith,
  response_loop_endless fuel size op payload
      (result
        ++ record {
          fin = false;
          rsv1 = false;
          rsv2 = false;
          rsv3 = false;
          opcode = op;
          payload = take (0 + size - 0) payload;
        }
          ∷ [])
      h,
)

-- The loop never ends on a message that needs more than one frame: its offset is not advanced.
pub frame_response_endless :
    (fuel : ℕ) (msg : Message) (size : ℕ)
    → size < length msg.payload
    → frame_response fuel msg size ≡ none
unfolding frame_response
frame_response_endless fuel msg size h =
    response_loop_endless fuel size (opcode_of msg.binary) msg.payload [] h

-- ===== src/Websocket/Validation.antt =====
-- validateFrame, and what the frames are that it lets through.
use go_httpbin.Base.{
  ℕ, ◌+◌, ◌*◌, ◌≤◌, ◌≡◌, refl, sym, subst, ◌≢◌, ◌↔◌, Bool, true, false, not, ◌||◌, Option, none,
  some, List, [], ◌∷◌, arith, ltb, leb, ◌==◌, if◌then◌else◌, length, any, Bytes,
}
use go_httpbin.Strings.Utf8.{valid}
use go_httpbin.Websocket.{
  Frame, WsError, rsv_bits_set, payload_too_large, control_too_large, fragmented_control,
  close_too_short, close_code_out_of_range, close_code_reserved, invalid_close_text,
  opcode_continuation, opcode_text, opcode_binary, opcode_close, opcode_ping, opcode_pong,
}
use go_httpbin.Websocket.Wire.{big_endian}

-- reservedStatusCodes
abbrev pub reserved_status_codes : List ℕ
reserved_status_codes = 1004 ∷ 1005 ∷ 1006 ∷ 1015 ∷ 1016 ∷ 1100 ∷ 2000 ∷ 2999 ∷ []

unfoldable pub is_reserved : ℕ → Bool
is_reserved code = any (λ c. c == code) reserved_status_codes

abbrev pub is_data : ℕ → Bool
is_data op = op == opcode_continuation || op == opcode_text || op == opcode_binary

abbrev pub is_control : ℕ → Bool
is_control op = op == opcode_close || op == opcode_ping || op == opcode_pong

-- The checks of a close frame's payload.
unfoldable pub validate_close : Bytes → Option WsError
validate_close [] = none
validate_close (b ∷ []) = some close_too_short
validate_close (a ∷ b ∷ text) =
    let code = big_endian (a ∷ b ∷ []) in
    if ltb code 1000 || leb 5000 code
    then some (close_code_out_of_range code)
    else if is_reserved code
    then some (close_code_reserved code)
    else if not (valid text)
    then some invalid_close_text
    else none

unfoldable pub validate_size : Frame → ℕ → Option WsError
validate_size f max_fragment_size =
    if is_data f.opcode
    then (if ltb max_fragment_size (length f.payload)
        then some (payload_too_large (length f.payload))
        else none)
    else if is_control f.opcode
    then (if ltb 125 (length f.payload)
        then some (control_too_large (length f.payload))
        else if not f.fin
        then some (fragmented_control f.opcode)
        else none)
    else none

-- `none` is Go's nil error.
unfoldable pub validate_frame : Frame → ℕ → Option WsError
unfolding validate_size
validate_frame f max_fragment_size =
    if f.rsv1 || f.rsv2 || f.rsv3
    then some rsv_bits_set
    else elim (validate_size f max_fragment_size) [
      | some e ↦ some e
      | none ↦ if f.opcode == opcode_close then validate_close f.payload else none
    ]

-- A status code of a close frame that is let through.
pub record IsSendable (code : ℕ) : Type 0 where
  pub low : 1000 ≤ code
  pub high : code ≤ 4999
  pub undefined : (code ≢ 1004) × (code ≢ 1016) × (code ≢ 1100) × (code ≢ 2000) × (code ≢ 2999)
  pub internal : (code ≢ 1005) × (code ≢ 1006) × (code ≢ 1015)

-- A close frame is empty, or has a code in two bytes, the higher one first, and a reason in UTF-8.
pub data IsCloseBody : Bytes → Type 0 where
  no_body : IsCloseBody []
  with_code :
      (a b : ℕ) (text : Bytes)
      → IsSendable (256 * a + b)
      → valid text ≡ true
      → IsCloseBody (a ∷ b ∷ text)

-- Opcodes 0 to 2 are data, 8 to 10 control frames, of which 8 closes.
pub record IsAcceptable (f : Frame) (max_fragment_size : ℕ) : Type 0 where
  pub no_extension : (f.rsv1 ≡ false) × (f.rsv2 ≡ false) × (f.rsv3 ≡ false)
  pub data_size : f.opcode ≤ 2 → length f.payload ≤ max_fragment_size
  pub control_size : 8 ≤ f.opcode → f.opcode ≤ 10 → (length f.payload ≤ 125) × (f.fin ≡ true)
  pub close_body : f.opcode ≡ 8 → IsCloseBody f.payload

big_endian-two : (a b : ℕ) → big_endian (a ∷ b ∷ []) ≡ 256 * a + b
big_endian-two a b = omega arith

is_reserved_sound :
    (code : ℕ) → 1000 ≤ code → code ≤ 4999 → is_reserved code ≡ false → IsSendable code
unfolding is_reserved
is_reserved_sound code l h r = record {
  low = l;
  high = h;
  undefined = ground arith;
  internal = ground arith;
}

is_reserved_complete : (code : ℕ) → IsSendable code → is_reserved code ≡ false
unfolding is_reserved
is_reserved_complete code s =
    let (u1, u2, u3, u4, u5) = s.undefined in let (i1, i2, i3) = s.internal in ground arith

validate_close_sound : (s : Bytes) → validate_close s ≡ none → IsCloseBody s
unfolding validate_close
validate_close_sound [] h = no_body
validate_close_sound (b ∷ []) h = cc
validate_close_sound (a ∷ b ∷ text) h =
    with_code a b text
      (subst IsSendable (big_endian-two a b)
        (is_reserved_sound (big_endian (a ∷ b ∷ [])) (ground arith) (ground arith) (ground arith)))
      (ground arith)

validate_close_complete : (s : Bytes) → IsCloseBody s → validate_close s ≡ none
unfolding validate_close
validate_close_complete [] h = refl
validate_close_complete _ (with_code a b text code text_valid) =
    let s = subst IsSendable (sym (big_endian-two a b)) code in
    let l = s.low in
    let u = s.high in let free = is_reserved_complete (big_endian (a ∷ b ∷ [])) s in ground arith

-- validateFrame lets through exactly the frames that have no reserved bit set and, with opcode 0 to 2, a
-- payload within the limit, with opcode 8 to 10, a payload of at most 125 bytes and the final bit, and,
-- with opcode 8, no payload, or a status code from 1000 to 4999 other than 1004, 1005, 1006, 1015, 1016,
-- 1100, 2000 and 2999 with a reason in UTF-8. The payloads of other opcodes are not checked.
pub validate_frame_iff :
    (f : Frame) (max_fragment_size : ℕ)
    → (validate_frame f max_fragment_size ≡ none) ↔ IsAcceptable f max_fragment_size
unfolding validate_frame
validate_frame_iff f max_fragment_size = (
  λ h. record {
    no_extension = ground arith;
    data_size = λ d. ground arith;
    control_size = λ low high. ground arith;
    close_body = λ c. validate_close_sound f.payload (ground arith);
  },
  λ a.
      let close_ok : f.opcode ≡ opcode_close → validate_close f.payload ≡ none =
        λ e. validate_close_complete f.payload (a.close_body e) in
      let ds = a.data_size in
      let cs = a.control_size in let ne = a.no_extension in ground (arith, close_ok, ds, cs, ne),
)

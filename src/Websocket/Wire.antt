-- ===== src/Websocket/Wire.antt =====
-- nextFrame, writeFrame and writeCloseFrame: frames as bytes.
use go_httpbin.Base.{
  ℕ, ◌+◌, ◌-◌, ◌*◌, ◌/◌, ◌%◌, ◌^◌, Bool, true, false, not, none, some, [], ◌∷◌, ◌++◌, ltb, leb,
  ◌==◌, if◌then◌else◌, length, get_elem?, take, drop, Bytes,
}
use Prim.Native.Nat.{bit_and, bit_or, bit_xor}
use go_httpbin.Websocket.{Frame, WsError, unexpected_end, unmasked_frame, opcode_close}

-- Reading: a value and the input behind it, an error, or the panic of a slice that is too long.
pub data Read {ℓ} (A : Type ℓ) : Type ℓ where
  got : A → Bytes → Read A
  failed : WsError → Read A
  oversized : Read A

infixl 5 ◌>>=◌
abbrev pub ◌>>=◌ {ℓ κ} : {A : Type ℓ} {B : Type κ} → Read A → (A → Bytes → Read B) → Read B
got a rest >>= f = f a rest
failed e >>= f = failed e
oversized >>= f = oversized

-- io.ReadFull of `n` bytes.
unfoldable pub read_full : ℕ → Bytes → Read Bytes
read_full n input =
    if leb n (length input) then got (take n input) (drop n input) else failed unexpected_end

abbrev pub big_endian_from : ℕ → Bytes → ℕ
big_endian_from acc [] = acc
big_endian_from acc (b ∷ s) = big_endian_from (acc * 256 + b) s

abbrev pub big_endian : Bytes → ℕ
big_endian s = big_endian_from 0 s

abbrev pub bit_set : ℕ → ℕ → Bool
bit_set b mask = not (bit_and b mask == 0)

abbrev pub sub8 : ℕ → ℕ → ℕ
sub8 a b = (a + 256 - b) % 256

-- The payload's length, by the second byte of the frame.
unfoldable pub read_length : ℕ → Bytes → Read ℕ
read_length b1 input =
    if leb (sub8 b1 128) 125
    then got (sub8 b1 128) input
    else if sub8 b1 128 == 126
    then (read_full 2 input >>= λ l rest. got (big_endian l) rest)
    else (read_full 8 input >>= λ l rest. got (big_endian l) rest)

abbrev pub nth : Bytes → ℕ → ℕ
nth s i = elim (get_elem? s i) [ none ↦ 0 | some b ↦ b ]

-- The loop over the payload: byte `i` against byte `i % 4` of the mask.
unfoldable pub unmask : Bytes → ℕ → Bytes → Bytes
unmask mask i [] = []
unmask mask i (b ∷ s) = bit_xor b (nth mask (i % 4)) ∷ unmask mask (i + 1) s

-- `max_alloc` is the length from which on the runtime refuses to make a byte slice.
module _ (max_alloc : ℕ) where
  unfoldable pub read_body : ℕ → ℕ → Bytes → Read Frame
  read_body b0 n input = read_full 4 input >>= λ mask rest.
      if ltb max_alloc n
      then oversized
      else (read_full n rest >>= λ payload rest'.
          got
            (record {
              fin = bit_set b0 0b1000_0000;
              rsv1 = bit_set b0 0b0100_0000;
              rsv2 = bit_set b0 0b0010_0000;
              rsv3 = bit_set b0 0b0001_0000;
              opcode = bit_and b0 0b0000_1111;
              payload = unmask mask 0 payload;
            })
            rest')

  unfoldable pub next_frame : Bytes → Read Frame
  next_frame (b0 ∷ b1 ∷ input) =
      if bit_and b1 0b1000_0000 == 0
      then failed unmasked_frame
      else (read_length b1 input >>= read_body b0)
  next_frame _ = failed unexpected_end

-- The two bytes and the eight bytes of a length.
abbrev pub be16 : ℕ → Bytes
be16 n = (n / 256 % 256) ∷ (n % 256) ∷ []

abbrev pub be64 : ℕ → Bytes
be64 n =
    (n / 2 ^ 56 % 256)
    ∷ (n / 2 ^ 48 % 256)
    ∷ (n / 2 ^ 40 % 256)
    ∷ (n / 2 ^ 32 % 256)
    ∷ (n / 2 ^ 24 % 256)
    ∷ (n / 2 ^ 16 % 256)
    ∷ be16 n

abbrev pub or_if : Bool → ℕ → ℕ → ℕ
or_if true mask b = bit_or b mask
or_if false mask b = b

-- The first byte of a frame: FIN, RSV1-3, OPCODE.
unfoldable pub first_byte : Frame → ℕ
first_byte f =
    bit_or
      (or_if f.rsv3 0b0001_0000
        (or_if f.rsv2 0b0010_0000 (or_if f.rsv1 0b0100_0000 (or_if f.fin 0b1000_0000 0))))
      (bit_and f.opcode 0b0000_1111)

unfoldable pub length_bytes : ℕ → Bytes
length_bytes n = if leb n 125 then n ∷ [] else if leb n 65535 then 126 ∷ be16 n else 127 ∷ be64 n

-- The bytes that writeFrame puts on the wire, if no write fails.
unfoldable pub write_frame : Frame → Bytes
unfolding first_byte length_bytes
write_frame f = first_byte f ∷ length_bytes (length f.payload) ++ f.payload

-- The frame of writeCloseFrame, with the text of its error.
unfoldable pub close_frame : ℕ → Bytes → Frame
close_frame code text = record {
  fin = true;
  rsv1 = false;
  rsv2 = false;
  rsv3 = false;
  opcode = opcode_close;
  payload = be16 code ++ text;
}

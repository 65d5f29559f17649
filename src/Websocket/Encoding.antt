-- ===== src/Websocket/Encoding.antt =====
-- The layout of RFC 6455 section 5.2, written with sums, and how the code's bit operations agree with it.
use go_httpbin.Base.{
  ℕ, zero, suc, ◌+◌, ◌-◌, ◌*◌, ◌/◌, ◌%◌, ◌^◌, ◌≤◌, ◌<◌, ◌≡◌, refl, ap, inl, inr, Bool, true, false,
  ◌&&◌, [], ◌∷◌, ◌++◌, append_assoc, arith, ltb, leb, ◌==◌, if◌then◌else◌, ==_iff, Bool-cases,
  all_below, all_below_at, length, length-append, take-length-append, drop-length-append, All,
  Bytes,
}
use Prim.Native.Nat.{bit_and, bit_or, bit_xor}
use go_httpbin.Websocket.{Frame}
use go_httpbin.Websocket.Wire.{
  got, read_full, big_endian, bit_set, read_length, nth, unmask, read_body, next_frame, be16, be64,
  or_if, first_byte, write_frame,
}

abbrev pub bit : Bool → ℕ
bit true = 1
bit false = 0

abbrev pub flags : Frame → ℕ
flags f = 8 * bit f.fin + 4 * bit f.rsv1 + 2 * bit f.rsv2 + bit f.rsv3

-- FIN, RSV1-3 and the opcode, from the highest bit down.
abbrev pub header_byte : Frame → ℕ
header_byte f = 16 * flags f + f.opcode

-- The length on the wire of a client's frame: the second byte, with the mask bit, and what follows.
abbrev pub second_byte : ℕ → ℕ
second_byte n = if leb n 125 then 128 + n else if leb n 65535 then 254 else 255

abbrev pub length_rest : ℕ → Bytes
length_rest n = if leb n 125 then [] else if leb n 65535 then be16 n else be64 n

-- The masked payload: the four bytes of the mask take turns.
pub masked : ℕ → ℕ → ℕ → ℕ → Bytes → Bytes
masked a b c d [] = []
masked a b c d (x ∷ s) = bit_xor x a ∷ masked b c d a s

-- A frame as a client sends it.
pub client_frame : ℕ → ℕ → ℕ → ℕ → Frame → Bytes
client_frame a b c d f =
    header_byte f ∷ second_byte (length f.payload) ∷ length_rest (length f.payload)
    ++ (a ∷ b ∷ c ∷ d ∷ masked a b c d f.payload)

abbrev pub AllBytes : Bytes → Type 0
AllBytes = All (λ b. b < 256)

pub record IsFrame (f : Frame) : Type 0 where
  pub opcode : f.opcode < 16
  pub payload : AllBytes f.payload
  pub size : length f.payload < 2 ^ 63

xor_table : all_below 256 (λ x. all_below 256 (λ m. bit_xor (bit_xor x m) m == x)) ≡ true
unfolding all_below
xor_table = refl

xor_twice : (x m : ℕ) → x < 256 → m < 256 → bit_xor (bit_xor x m) m ≡ x
xor_twice x m hx hm =
    (==_iff _ x).0 (
      all_below_at 256 (λ m. bit_xor (bit_xor x m) m == x) m (all_below_at 256 _ x xor_table hx) hm)

abbrev turn : Bytes → ℕ → ℕ
turn mask i = nth mask (i % 4)

turn_again : (mask : Bytes) (i : ℕ) → turn mask (i + 1 + 3) ≡ turn mask i
turn_again mask i = ap (nth mask) (omega arith)

unmask-masked :
    (mask : Bytes) (i : ℕ) (s : Bytes)
    → ((j : ℕ) → turn mask j < 256)
    → AllBytes s
    → unmask mask i
        (masked (turn mask i) (turn mask (i + 1)) (turn mask (i + 2)) (turn mask (i + 3)) s)
      ≡ s
unfolding unmask masked
unmask-masked mask i [] h _ = refl
unmask-masked mask i (x ∷ s) h (hx, hs) =
    let second : turn mask (i + 1 + 1) ≡ turn mask (i + 2) = ap (turn mask) (omega arith) in
    let third : turn mask (i + 1 + 2) ≡ turn mask (i + 3) = ap (turn mask) (omega arith) in
    cc (
      xor_twice x (turn mask i) hx (h i),
      unmask-masked mask (i + 1) s h hs,
      second,
      third,
      turn_again mask i,
    )

bits_table :
    all_below 256 (λ h.
      (bit_and h 0b1000_0000 == h / 128 % 2 * 128)
      && (bit_and h 0b0100_0000 == h / 64 % 2 * 64)
      && (bit_and h 0b0010_0000 == h / 32 % 2 * 32)
      && (bit_and h 0b0001_0000 == h / 16 % 2 * 16)
      && (bit_and h 0b0000_1111 == h % 16))
    ≡ true
unfolding all_below
bits_table = refl

bits_of :
    (h : ℕ)
    → h < 256
    → (bit_and h 0b1000_0000 ≡ h / 128 % 2 * 128)
      × (bit_and h 0b0100_0000 ≡ h / 64 % 2 * 64)
      × (bit_and h 0b0010_0000 ≡ h / 32 % 2 * 32)
      × (bit_and h 0b0001_0000 ≡ h / 16 % 2 * 16)
      × (bit_and h 0b0000_1111 ≡ h % 16)
bits_of h lt = let row = all_below_at 256 _ h bits_table lt in ground arith

big_endian-be16 : (n : ℕ) → n < 65536 → big_endian (be16 n) ≡ n
big_endian-be16 n h = omega arith

big_endian-be64 : (n : ℕ) → n < 2 ^ 64 → big_endian (be64 n) ≡ n
big_endian-be64 n h = omega arith

mask_bit_table : all_below 128 (λ n. bit_and (128 + n) 0b1000_0000 == 128) ≡ true
unfolding all_below
mask_bit_table = refl

mask_bit : (n : ℕ) → n < 128 → bit_and (128 + n) 0b1000_0000 ≡ 128
mask_bit n h = (==_iff _ 128).0 (all_below_at 128 _ n mask_bit_table h)

second_byte_masked : (n : ℕ) → bit_and (second_byte n) 0b1000_0000 ≡ 128
second_byte_masked n = elim (Bool-cases (leb n 125)) [
  | inl small ↦ rw small (mask_bit n (ground arith))
  | inr large ↦
      rw large (elim (Bool-cases (leb n 65535)) [ inl medium ↦ rw medium | inr huge ↦ rw huge ])
]

read_length-second_byte :
    (n : ℕ) (rest : Bytes)
    → n < 2 ^ 64
    → read_length (second_byte n) (length_rest n ++ rest) ≡ got n rest
unfolding read_length read_full
read_length-second_byte n rest h = elim (Bool-cases (leb n 125)) [
  | inl small ↦ rw small (let e : (128 + n + 256 - 128) % 256 ≡ n = ground arith in rw (e, small))
  | inr large ↦ rw large (elim (Bool-cases (leb n 65535)) [
    | inl medium ↦ rw medium (ground (arith, big_endian-be16 n))
    | inr huge ↦ rw huge (ground (arith, big_endian-be64 n))
  ])
]

read_full-append : (s rest : Bytes) → read_full (length s) (s ++ rest) ≡ got s rest
unfolding read_full
read_full-append s rest =
    ground (arith, length-append s rest, take-length-append s rest, drop-length-append s rest)

length-masked : (a b c d : ℕ) (s : Bytes) → length (masked a b c d s) ≡ length s
unfolding masked
length-masked a b c d [] = refl
length-masked a b c d (x ∷ s) = ap suc (length-masked b c d a s)

header_byte-lt : (f : Frame) → f.opcode < 16 → header_byte f < 256
header_byte-lt f h = ground arith

-- The bits that nextFrame takes out of the first byte.
header_bits :
    (f : Frame)
    → f.opcode < 16
    → (bit_set (header_byte f) 0b1000_0000 ≡ f.fin)
      × (bit_set (header_byte f) 0b0100_0000 ≡ f.rsv1)
      × (bit_set (header_byte f) 0b0010_0000 ≡ f.rsv2)
      × (bit_set (header_byte f) 0b0001_0000 ≡ f.rsv3)
      × (bit_and (header_byte f) 0b0000_1111 ≡ f.opcode)
header_bits f h =
    let (b7, b6, b5, b4, low) = bits_of (header_byte f) (header_byte-lt f h) in
    (
      rw b7 (ground arith),
      rw b6 (ground arith),
      rw b5 (ground arith),
      rw b4 (ground arith),
      rw low (ground arith),
    )

turn-lt : (a b c d i : ℕ) → AllBytes (a ∷ b ∷ c ∷ d ∷ []) → turn (a ∷ b ∷ c ∷ d ∷ []) i < 256
turn-lt a b c d i h = turn_cases (i % 4)
  where
    turn_cases : (k : ℕ) → nth (a ∷ b ∷ c ∷ d ∷ []) k < 256
    turn_cases zero = h.0
    turn_cases (suc zero) = h.1.0
    turn_cases (suc (suc zero)) = h.1.1.0
    turn_cases (suc (suc (suc zero))) = h.1.1.1.0
    turn_cases (suc (suc (suc (suc k)))) = omega arith

not_lt : (m n : ℕ) → n ≤ m → ltb m n ≡ false
not_lt m n h = ground arith

module _ (max_alloc : ℕ) where
  read_full-masked :
      (a b c d : ℕ) (s rest : Bytes)
      → read_full (length s) (masked a b c d s ++ rest) ≡ got (masked a b c d s) rest
  read_full-masked a b c d s rest =
      rw (length-masked a b c d s) at (read_full-append (masked a b c d s) rest)

  read_body-masked :
      (a b c d : ℕ) (f : Frame) (rest : Bytes)
      → AllBytes (a ∷ b ∷ c ∷ d ∷ [])
      → IsFrame f
      → length f.payload ≤ max_alloc
      → read_body max_alloc
          (header_byte f)
          (length f.payload)
          (a ∷ b ∷ c ∷ d ∷ masked a b c d f.payload ++ rest)
        ≡ got f rest
  unfolding read_body
  read_body-masked a b c d f rest mask v fits =
      let (b7, b6, b5, b4, low) = header_bits f v.opcode in
      rw (
        read_full-append (a ∷ b ∷ c ∷ d ∷ []) (masked a b c d f.payload ++ rest),
        not_lt max_alloc (length f.payload) fits,
        read_full-masked a b c d f.payload rest,
        unmask-masked (a ∷ b ∷ c ∷ d ∷ []) 0 f.payload (λ i. turn-lt a b c d i mask) v.payload,
        b7,
        b6,
        b5,
        b4,
        low,
      )

  -- nextFrame reads back every frame that a client sends, whatever the mask and whatever follows.
  pub next_frame-client_frame :
      (a b c d : ℕ) (f : Frame) (rest : Bytes)
      → AllBytes (a ∷ b ∷ c ∷ d ∷ [])
      → IsFrame f
      → length f.payload ≤ max_alloc
      → next_frame max_alloc (client_frame a b c d f ++ rest) ≡ got f rest
  unfolding next_frame client_frame
  next_frame-client_frame a b c d f rest mask v fits = rw (
    second_byte_masked (length f.payload),
    append_assoc (length_rest (length f.payload)) _ rest,
    read_length-second_byte (length f.payload) _ (omega (arith, v.size)),
    read_body-masked a b c d f rest mask v fits,
  )

or_table :
    all_below 16 (λ k. all_below 16 (λ op. bit_or (16 * k) (bit_and op 0b0000_1111) == 16 * k + op))
    ≡ true
unfolding all_below
or_table = refl

or_flags :
    (fin rsv1 rsv2 rsv3 : Bool)
    → or_if rsv3 0b0001_0000
        (or_if rsv2 0b0010_0000 (or_if rsv1 0b0100_0000 (or_if fin 0b1000_0000 0)))
      ≡ 16 * (8 * bit fin + 4 * bit rsv1 + 2 * bit rsv2 + bit rsv3)
or_flags true true true true = refl
or_flags true true true false = refl
or_flags true true false true = refl
or_flags true true false false = refl
or_flags true false true true = refl
or_flags true false true false = refl
or_flags true false false true = refl
or_flags true false false false = refl
or_flags false true true true = refl
or_flags false true true false = refl
or_flags false true false true = refl
or_flags false true false false = refl
or_flags false false true true = refl
or_flags false false true false = refl
or_flags false false false true = refl
or_flags false false false false = refl

first_byte-header_byte : (f : Frame) → f.opcode < 16 → first_byte f ≡ header_byte f
unfolding first_byte
first_byte-header_byte f h = rw (or_flags f.fin f.rsv1 f.rsv2 f.rsv3) (
    (==_iff _ _).0 (
      all_below_at 16 (λ op. bit_or (16 * flags f) (bit_and op 0b0000_1111) == 16 * flags f + op)
        f.opcode (all_below_at 16 _ (flags f) or_table (ground arith)) h))

-- writeFrame puts the same layout on the wire, without a mask, and the length in the shortest form.
pub write_frame_lem :
    (f : Frame)
    → f.opcode < 16
    → write_frame f
      ≡ header_byte f
          ∷ (if leb (length f.payload) 125
              then length f.payload ∷ []
              else if leb (length f.payload) 65535
              then 126 ∷ be16 (length f.payload)
              else 127 ∷ be64 (length f.payload))
        ++ f.payload
unfolding write_frame
write_frame_lem f h = rw (first_byte-header_byte f h)

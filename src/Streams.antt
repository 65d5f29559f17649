-- ===== src/Streams.antt =====
-- syntheticByteStream of httpbin/helpers.go: a body of which each byte is computed from its offset,
-- read in pieces. The mutex makes each call one step.
pub mod Reading
use go_httpbin.Base.{
  ℕ, zero, suc, ◌/◌, Bool, true, false, Option, none, some, List, [], ◌∷◌, if◌then◌else◌, Bytes,
}
use go_httpbin.Base.Int.{ℤ, pos, negsuc, ltb_ℤ, pos_part, neg_part, sub_ℕ, add64, sub64, mul64}

pub record SyntheticByteStream : Type 0 where
  pub size : ℤ
  pub factory : ℤ → ℕ
  pub pause_per_byte : ℤ
  pub offset : ℤ

-- Go's `a / b` on int64, rounded towards zero; `none` is its panic on a division by zero.
unfoldable pub div64 : ℤ → ℤ → Option ℤ
div64 a (pos zero) = none
div64 (pos a) (pos (suc b)) = some (pos (a / suc b))
div64 (negsuc a) (pos (suc b)) = some (sub_ℕ 0 (suc a / suc b))
div64 (pos a) (negsuc b) = some (sub_ℕ 0 (a / suc b))
div64 (negsuc a) (negsuc b) = some (add64 (pos (suc a / suc b)) (pos 0))

-- `duration` is in nanoseconds.
unfoldable pub new_synthetic_byte_stream : ℤ → ℤ → (ℤ → ℕ) → Option SyntheticByteStream
unfolding div64
new_synthetic_byte_stream size duration factory = elim (div64 duration size) [
  | none ↦ none
  | some pause ↦
      some (record { size = size; factory = factory; pause_per_byte = pause; offset = pos 0 })
]

-- The loop of Read: `n` bytes, from an offset on.
unfoldable pub generate : (ℤ → ℕ) → ℤ → ℕ → Bytes
generate factory start zero = []
generate factory start (suc n) = factory start ∷ generate factory (add64 start (pos 1)) n

-- What Read returns: the bytes that it put into the buffer, the count, whether the error is io.EOF;
-- and how long it slept.
pub record Answer : Type 0 where
  pub bytes : Bytes
  pub count : ℤ
  pub eof : Bool
  pub slept : ℤ

-- Read, once it knows where it ends and whether that is the end of the stream.
unfoldable pub read_until : Bool → ℤ → SyntheticByteStream → Answer × SyntheticByteStream
unfolding generate
read_until at_end end s =
    let count = sub64 end s.offset in
    (
      record {
        bytes = generate s.factory s.offset (pos_part count);
        count = count;
        eof = at_end;
        slept = if ltb_ℤ (pos 0) s.pause_per_byte then mul64 s.pause_per_byte count else pos 0;
      },
      record s { offset = end },
    )

-- `len` is the length of the buffer.
unfoldable pub read : ℕ → SyntheticByteStream → Answer × SyntheticByteStream
unfolding read_until
read len s =
    let wanted = add64 s.offset (pos len) in
    if ltb_ℤ wanted s.size then read_until false wanted s else read_until true s.size s

pub data Whence : Type 0 where
  seek_start seek_current seek_end other : Whence

pub data SeekError : Type 0 where
  invalid_whence invalid_offset : SeekError

-- A negative offset is stored before it is refused.
unfoldable pub check_offset : SyntheticByteStream → (Option SeekError × ℤ) × SyntheticByteStream
check_offset s =
    if ltb_ℤ s.offset (pos 0) then ((some invalid_offset, pos 0), s) else ((none, s.offset), s)

unfoldable pub seek :
    ℤ → Whence → SyntheticByteStream → (Option SeekError × ℤ) × SyntheticByteStream
unfolding check_offset
seek offset seek_start s = check_offset (record s { offset = offset })
seek offset seek_current s = check_offset (record s { offset = add64 s.offset offset })
seek offset seek_end s = check_offset (record s { offset = sub64 s.size offset })
seek offset other s = ((some invalid_whence, pos 0), s)

-- Reads with buffers of the given lengths, one after the other.
unfoldable pub read_all : List ℕ → SyntheticByteStream → List Answer × SyntheticByteStream
unfolding read
read_all [] s = ([], s)
read_all (len ∷ lens) s =
    let step = read len s in let rest = read_all lens step.1 in (step.0 ∷ rest.0, rest.1)

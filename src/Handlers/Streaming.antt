-- ===== src/Handlers/Streaming.antt =====
-- The handlers of httpbin/handlers.go that write many bytes at once: Bytes, StreamBytes, Stream, Range
-- and ETag. A flush follows a write and adds nothing to what the client receives.
pub mod Chunks
pub mod Seeking
use go_httpbin.Base.{
  ℕ, zero, suc, ◌+◌, ◌%◌, Bool, true, false, not, ◌||◌, Option, none, some, List, [], ◌∷◌, ◌++◌,
  map, ◌==◌, if◌then◌else◌, length, Bytes, codes, get_str, is_empty,
}
use go_httpbin.Base.Int.{ℤ, pos, negsuc, ltb_ℤ, pos_part}
use go_httpbin.Strings.Number.{atoi, itoa}
use go_httpbin.Http.{
  Request, Call, Handler, Result, ok, err, set_header, append_header, write_header, write, raw, get,
  write_error, in_context, library_error, must_be_greater, out_of_range,
}
use go_httpbin.Parsing.{parse_bounded_duration}
use go_httpbin.Streams.{SyntheticByteStream, new_synthetic_byte_stream}
use go_httpbin.Responses.{
  Json, no_body_response, stream_response, binary_content_type, text_content_type,
}
use go_httpbin.Handlers.{Library, HttpBin, describe, show_ℤ, parse_seed}

abbrev has_size : ℤ → Bytes → Bool
has_size (pos n) chunk = length chunk == n
has_size (negsuc n) chunk = false

-- The loop of handleBytes: the chunks that it writes, of the bytes from the `i`-th on, of which there are
-- `count` more. `chunk` is what it has not written yet.
unfoldable pub write_chunks : (ℕ → ℕ) → ℤ → Bytes → ℕ → ℕ → List Bytes
write_chunks random chunk_size [] i zero = []
write_chunks random chunk_size (c ∷ chunk) i zero = (c ∷ chunk) ∷ []
write_chunks random chunk_size chunk i (suc count) =
    let chunk' = chunk ++ random i ∷ [] in
    let fresh = write_chunks random chunk_size [] (suc i) count in
    let more = write_chunks random chunk_size chunk' (suc i) count in
    if has_size chunk_size chunk' then chunk' ∷ fresh else more

abbrev pub writes : List Bytes → List Call
writes = map (λ chunk. write (raw chunk))

module _ (lib : Library) (h : HttpBin lib) where
  -- The size of a streamed chunk.
  unfoldable pub parse_chunk_size : Bytes → Option ℤ
  parse_chunk_size raw_size = if is_empty raw_size then some (pos 10240) else atoi raw_size

  abbrev pub bytes_answer : (ℕ → ℕ) → List Call → ℤ → ℤ → List Call
  bytes_answer random length_header chunk_size num_bytes =
      length_header
      ++ set_header (codes "Content-Type") binary_content_type
        ∷ write_header 200
        ∷ writes (write_chunks random chunk_size [] 0 (pos_part num_bytes))

  -- A number of bytes and a seed that were read. `random` gives the bytes that a seed generates.
  unfoldable pub write_bytes : (ℕ → ℕ) → Bool → ℤ → Handler
  unfolding parse_chunk_size write_chunks binary_content_type
  write_bytes random streaming num_bytes r =
      if ltb_ℤ num_bytes (pos 0)
      then write_error 400 (some (must_be_greater (codes "invalid byte count") num_bytes))
      else if not (ltb_ℤ (pos 0) num_bytes)
      then set_header (codes "Content-Length") (codes "0") ∷ write_header 200 ∷ []
      else if ltb_ℤ h.max_body_size num_bytes
      then write_error 400
          (some (out_of_range (codes "invalid byte count") num_bytes h.max_body_size))
      else if streaming
      then elim (parse_chunk_size (get (codes "chunk_size") r.query)) [
        | none ↦ write_error 400 (some (in_context (codes "invalid chunk_size") library_error))
        | some chunk_size ↦ bytes_answer random [] chunk_size num_bytes
      ]
      else bytes_answer random (set_header (codes "Content-Length") (show_ℤ num_bytes) ∷ [])
          num_bytes num_bytes

  unfoldable pub handle_bytes : (ℤ → ℕ → ℕ) → ℤ → Bool → Handler
  unfolding write_bytes parse_seed
  handle_bytes random now streaming r = elim (atoi (get_str (codes "numBytes") r.path_values)) [
    | none ↦ write_error 400 (some (in_context (codes "invalid byte count") library_error))
    | some num_bytes ↦ elim (parse_seed now (get (codes "seed") r.query)) [
      | none ↦ write_error 400 (some (in_context (codes "invalid seed") library_error))
      | some seed ↦ write_bytes (random seed) streaming num_bytes r
    ]
  ]

  unfoldable pub bytes : (ℤ → ℕ → ℕ) → ℤ → Handler
  unfolding handle_bytes
  bytes random now r = handle_bytes random now false r

  unfoldable pub stream_bytes : (ℤ → ℕ → ℕ) → ℤ → Handler
  unfolding handle_bytes
  stream_bytes random now r = handle_bytes random now true r

  -- The lines of Stream from the `i`-th on, of which there are `count` more.
  unfoldable pub stream_lines : Request → ℕ → ℕ → List Call
  unfolding describe
  stream_lines r i zero = []
  stream_lines r i (suc count) =
      let d = describe lib h r in
      write (
        raw (
          lib.marshal_line (
            stream_response (record {
              id = i;
              args = d.args;
              headers = d.headers;
              origin = d.origin;
              url = d.url;
            }))
          ++ codes "\n"))
      ∷ stream_lines r (suc i) count

  -- At most 100 lines, and at least one.
  unfoldable pub clamp_lines : ℤ → ℕ
  clamp_lines n = if ltb_ℤ (pos 100) n then 100 else if ltb_ℤ n (pos 1) then 1 else pos_part n

  unfoldable pub stream : Handler
  unfolding stream_lines clamp_lines
  stream r = elim (atoi (get_str (codes "numLines") r.path_values)) [
    | none ↦ write_error 400 (some (in_context (codes "invalid count") library_error))
    | some n ↦ stream_lines r 0 (clamp_lines n)
  ]

  -- The byte of a range at an offset, which is not negative.
  unfoldable pub letter : ℤ → ℕ
  letter offset = 97 + pos_part offset % 26

  unfoldable pub range_duration : Bytes → Result ℤ
  unfolding parse_bounded_duration
  range_duration raw_duration =
      if is_empty raw_duration
      then ok (pos 0)
      else parse_bounded_duration lib.clock raw_duration (pos 0) h.max_duration

  -- The headers that Range sets before it checks the number of bytes.
  abbrev pub range_headers : ℤ → List Call → List Call
  range_headers num_bytes cs =
      append_header (codes "Etag") (codes "range" ++ show_ℤ num_bytes)
      ∷ append_header (codes "Accept-Ranges") (codes "bytes")
      ∷ set_header (codes "Content-Type") text_content_type
      ∷ cs

  -- Range; `none` is the panic of a division by zero.
  unfoldable pub range : Request → Option (List Call)
  unfolding range_duration text_content_type new_synthetic_byte_stream
  range r = elim (atoi (get_str (codes "numBytes") r.path_values)) [
    | none ↦ some (write_error 400 (some (in_context (codes "invalid count") library_error)))
    | some num_bytes ↦ elim (range_duration (get (codes "duration") r.query)) [
      | err e ↦ some (write_error 400 (some (in_context (codes "invalid duration") e)))
      | ok duration ↦
          if not (ltb_ℤ (pos 0) num_bytes) || ltb_ℤ h.max_body_size num_bytes
          then some (
              range_headers num_bytes (
                write_error 400
                  (some (out_of_range (codes "invalid count") num_bytes h.max_body_size))))
          else elim (new_synthetic_byte_stream num_bytes duration letter) [
            | none ↦ none
            | some content ↦ some (range_headers num_bytes (lib.serve_stream r content))
          ]
    ]
  ]

  unfoldable pub etag : Handler
  unfolding describe text_content_type
  etag r =
      set_header (codes "Etag") (b'"' ∷ get_str (codes "etag") r.path_values ++ b'"' ∷ [])
      ∷ set_header (codes "Content-Type") text_content_type
      ∷ lib.serve_bytes r (lib.marshal (no_body_response (describe lib h r)))

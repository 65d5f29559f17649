-- ===== src/Handlers/Streaming/Seeking.antt =====
-- The stream that Range hands to http.ServeContent.
use go_httpbin.Base.{
  ℕ, zero, suc, ◌+◌, ◌/◌, ◌%◌, ◌^◌, ◌≤◌, ◌<◌, ◌≡◌, refl, ap, ◌∙◌, false, not, ◌||◌, some, List, [],
  ◌∷◌, ◌++◌, arith, All, Bytes, codes, get_str,
}
use go_httpbin.Base.Int.{pos, ltb_ℤ}
use go_httpbin.Strings.Number.{atoi, itoa}
use go_httpbin.Http.{Request, ok, get, append_header, set_header}
use go_httpbin.Streams.{SyntheticByteStream, read_all, new_synthetic_byte_stream, div64}
use go_httpbin.Streams.Reading.{at_offset, content, all_bytes, sum, seek-read_all}
use go_httpbin.Responses.{text_content_type}
use Prim.Native.Nat.{min}
use go_httpbin.Handlers.{Library, HttpBin}
use go_httpbin.Handlers.Streaming.{range, range_duration, letter}

-- `n` letters from "a" to "z" in turn, from the one of the given number on.
abbrev pub letters : ℕ → ℕ → Bytes
letters i zero = []
letters i (suc n) = (b'a' + i % 26) ∷ letters (suc i) n

module _ (lib : Library) (h : HttpBin lib) where
  letters-content : (i n : ℕ) → content (letter lib h) i n ≡ letters i n
  unfolding letter
  letters-content i zero = refl
  letters-content i (suc n) = ap (◌∷◌ (b'a' + i % 26)) (letters-content (suc i) n)

  made :
      (n d : ℕ)
      → 0 < n
      → new_synthetic_byte_stream (pos n) (pos d) (letter lib h)
        ≡ some (at_offset (letter lib h) (pos (d / n)) n 0)
  unfolding new_synthetic_byte_stream div64
  made zero d h = absurd (omega arith)
  made (suc n) d h = refl

  bounds :
      (n m : ℕ)
      → h.max_body_size ≡ pos m
      → 0 < n
      → n ≤ m
      → (not (ltb_ℤ (pos 0) (pos n)) || ltb_ℤ h.max_body_size (pos n)) ≡ false
  bounds n m e l u = rw e (ground arith)

  -- What http.ServeContent is given for `n` bytes within `d` nanoseconds: a stream of that size, with
  -- equal pauses, from which buffers of any lengths read the letters from "a" to "z" in turn.
  pub record IsAlphabet (n d : ℕ) (s : SyntheticByteStream) : Type 0 where
    pub size : s.size ≡ pos n
    pub pause : s.pause_per_byte ≡ pos (d / n)
    pub bytes :
        (lens : List ℕ)
        → All (λ len. len < 2 ^ 62) lens
        → all_bytes (read_all lens s).0 ≡ letters 0 (min (sum lens) n)

  made-IsAlphabet :
      (n d : ℕ) → n < 2 ^ 62 → IsAlphabet n d (at_offset (letter lib h) (pos (d / n)) n 0)
  made-IsAlphabet n d small = record {
    size = refl;
    pause = refl;
    bytes = λ lens b.
        let (to_end, to_start, read, left) =
          seek-read_all (letter lib h) (pos (d / n)) n small 0 0 0 lens (omega arith) (omega arith)
            b in
        read
        ∙ ap (λ k. content (letter lib h) 0 (min (sum lens) k)) (omega arith)
        ∙ letters-content 0 (min (sum lens) n);
  }

  -- A request for 1 to the greatest number of bytes, with a duration that is accepted or none, does not
  -- panic. Its headers name the number; what http.ServeContent is given is a stream of that many bytes,
  -- read from its start whatever the buffers: the letters from "a" to "z" in turn, with the duration
  -- shared out among them; where there are fewer than 2^62 bytes.
  pub range-serves :
      (r : Request) (n m d : ℕ)
      → h.max_body_size ≡ pos m
      → atoi (get_str (codes "numBytes") r.path_values) ≡ some (pos n)
      → 0 < n
      → n ≤ m
      → n < 2 ^ 62
      → range_duration lib h (get (codes "duration") r.query) ≡ ok (pos d)
      → (s : SyntheticByteStream) × IsAlphabet n d s
        × (range lib h r
            ≡ some (
                append_header (codes "Etag") (codes "range" ++ itoa n)
                ∷ append_header (codes "Accept-Ranges") (codes "bytes")
                ∷ set_header (codes "Content-Type") (codes "text/plain; charset=utf-8")
                ∷ lib.serve_stream r s))
  unfolding range text_content_type
  range-serves r n m d e parsed l u small timed = (
    at_offset (letter lib h) (pos (d / n)) n 0,
    made-IsAlphabet n d small,
    rw (range, parsed, timed, bounds n m e l u, made n d l) refl,
  )

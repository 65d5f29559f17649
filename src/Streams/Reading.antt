-- ===== src/Streams/Reading.antt =====
-- Reads of a synthetic byte stream, with whatever buffers, put together.
use go_httpbin.Base.{
  ℕ, zero, suc, ◌+◌, ◌-◌, ◌^◌, ◌≤◌, ◌<◌, ◌≡◌, refl, ap, inl, inr, Bool, true, false, none, List, [],
  ◌∷◌, ◌++◌, arith, ltb, leb, if◌then◌else◌, ltb→lt, Bool-cases, All, Bytes,
}
use go_httpbin.Base.Int.{ℤ, pos, ltb_ℤ, add64-pos, mul64}
use go_httpbin.Parsing.Pauses.{sub64-pos}
use go_httpbin.Streams.{
  SyntheticByteStream, Answer, seek_start, seek_end, read, read_all, seek, check_offset, generate,
  read_until,
}
use Prim.Native.Nat.{min}

-- `n` bytes of a content, from an offset on.
abbrev pub content : (ℤ → ℕ) → ℕ → ℕ → Bytes
content factory start zero = []
content factory start (suc n) = factory (pos start) ∷ content factory (suc start) n

plus_zero : (n : ℕ) → n + 0 ≡ n
plus_zero n = omega arith

zero_plus : (n : ℕ) → 0 + n ≡ n
zero_plus n = omega arith

suc_plus : (n : ℕ) → n + 1 ≡ suc n
suc_plus n = omega arith

content-append :
    (f : ℤ → ℕ) (start m n : ℕ)
    → content f start (m + n) ≡ content f start m ++ content f (start + m) n
content-append f start zero n = rw (plus_zero start, zero_plus n) refl
content-append f start (suc m) n = grind (arith, content-append f (suc start) m n)

plus_minus : (a b : ℕ) → a + b - a ≡ b
plus_minus a b = omega arith

generate-content :
    (f : ℤ → ℕ) (start n : ℕ) → start + n < 2 ^ 63 → generate f (pos start) n ≡ content f start n
unfolding generate
generate-content f start zero h = refl
generate-content f start (suc n) h =
    rw
      (
        add64-pos start 1 (omega arith),
        suc_plus start,
        generate-content f (suc start) n (omega arith),
      )
      refl

abbrev pub sum : List ℕ → ℕ
sum [] = 0
sum (n ∷ ns) = n + sum ns

abbrev pub all_bytes : List Answer → Bytes
all_bytes [] = []
all_bytes (x ∷ xs) = x.bytes ++ all_bytes xs

module _ (f : ℤ → ℕ) (pause : ℤ) (size : ℕ) where
  abbrev pub at_offset : ℕ → SyntheticByteStream
  at_offset offset = record {
    size = pos size;
    factory = f;
    pause_per_byte = pause;
    offset = pos offset;
  }

  abbrev answer : ℕ → ℕ → Bool → Answer
  answer offset n at_end = record {
    bytes = content f offset n;
    count = pos n;
    eof = at_end;
    slept = if ltb_ℤ (pos 0) pause then mul64 pause (pos n) else pos 0;
  }

module _ (f : ℤ → ℕ) (pause : ℤ) (size : ℕ) (fits : size < 2 ^ 62) where
  read_until_lem :
      (at_end : Bool) (offset n : ℕ)
      → offset + n < 2 ^ 63
      → read_until at_end (pos (offset + n)) (at_offset f pause size offset)
        ≡ (answer f pause size offset n at_end, at_offset f pause size (offset + n))
  unfolding read_until
  read_until_lem at_end offset n h =
      rw
        (
          sub64-pos (offset + n) offset (omega arith) h,
          plus_minus offset n,
          generate-content f offset n h,
        )
        refl

  far :
      (offset : ℕ)
      → offset ≤ size
      → read_until true (pos size) (at_offset f pause size offset)
        ≡ read_until true (pos (offset + (size - offset))) (at_offset f pause size offset)
  far offset h = ap (λ n. read_until true (pos n) (at_offset f pause size offset)) (omega arith)

  read_lem :
      (len offset : ℕ)
      → offset ≤ size
      → len < 2 ^ 62
      → (n : ℕ) × (n ≡ min len (size - offset))
        × (read len (at_offset f pause size offset) ≡ (
          answer f pause size offset n (leb (size - offset) len),
          at_offset f pause size (offset + n),
        ))
  unfolding read
  read_lem len offset h l = elim (Bool-cases (ltb (offset + len) size)) [
    | inl inside ↦ (
      len,
      omega (arith, ltb→lt (offset + len) size inside),
      rw
          (
            add64-pos offset len (omega arith),
            plus_zero (offset + len),
            plus_zero size,
            inside,
            read_until_lem false offset len (omega arith),
          )
          (ap (λ e. (answer f pause size offset len e, at_offset f pause size (offset + len)))
            (ground arith)),
    )
    | inr outside ↦ (
      size - offset,
      ground arith,
      rw (add64-pos offset len (omega arith), plus_zero (offset + len), plus_zero size, outside)
          (rw (far offset h, read_until_lem true offset (size - offset) (omega arith))
            (ap
              (λ e. (
                answer f pause size offset (size - offset) e,
                at_offset f pause size (offset + (size - offset)),
              ))
              (ground arith))),
    )
  ]

  nothing : (k : ℕ) → min 0 k ≡ 0
  nothing k = omega arith

  plus_assoc : (a b c : ℕ) → a + (b + c) ≡ a + b + c
  plus_assoc a b c = omega arith

  split_min :
      (offset len n total : ℕ)
      → n ≡ min len (size - offset)
      → min (len + total) (size - offset) ≡ n + min total (size - (offset + n))
  split_min offset len n total h = omega arith

  -- Reads with buffers of any lengths.
  pub read_all-at_offset :
      (lens : List ℕ) (offset : ℕ)
      → offset ≤ size
      → All (λ len. len < 2 ^ 62) lens
      → (all_bytes (read_all lens (at_offset f pause size offset)).0
          ≡ content f offset (min (sum lens) (size - offset)))
        × ((read_all lens (at_offset f pause size offset)).1
            ≡ at_offset f pause size (offset + min (sum lens) (size - offset)))
  unfolding read_all
  read_all-at_offset [] offset h b = rw (nothing (size - offset), plus_zero offset) (refl, refl)
  read_all-at_offset (len ∷ lens) offset h (b, bs) =
      let (n, n_is, step) = read_lem len offset h b in
      let rest = read_all-at_offset lens (offset + n) (omega arith) bs in
      rw
        (
          step,
          split_min offset len n (sum lens) n_is,
          content-append f offset n (min (sum lens) (size - (offset + n))),
          rest.0,
          rest.1,
          plus_assoc offset n (min (sum lens) (size - (offset + n))),
        )
        (refl, refl)

  -- From any offset, a seek of `k` to the end stands `k` bytes before it and one to a start stands
  -- there. The reads that follow, with buffers of any lengths, give together the content from there on,
  -- as far as the buffers or the stream reach, and leave the stream behind it; while each buffer and
  -- the stream are shorter than 2^62 bytes.
  pub seek-read_all :
      (offset k start : ℕ) (lens : List ℕ)
      → k ≤ size
      → start ≤ size
      → All (λ len. len < 2 ^ 62) lens
      → (seek (pos k) seek_end (at_offset f pause size offset)
          ≡ ((none, pos (size - k)), at_offset f pause size (size - k)))
        × (seek (pos start) seek_start (at_offset f pause size offset)
            ≡ ((none, pos start), at_offset f pause size start))
        × (all_bytes (read_all lens (at_offset f pause size start)).0
            ≡ content f start (min (sum lens) (size - start)))
        × ((read_all lens (at_offset f pause size start)).1
            ≡ at_offset f pause size (start + min (sum lens) (size - start)))
  unfolding seek check_offset
  seek-read_all offset k start lens h i b = (
    rw (sub64-pos size k h (omega arith)) (ground arith),
    ground arith,
    (read_all-at_offset lens start i b).0,
    (read_all-at_offset lens start i b).1,
  )

-- ===== src/Handlers/Streaming/Chunks.antt =====
-- The chunks of the Bytes and StreamBytes endpoints.
use go_httpbin.Base.{
  ℕ, zero, suc, ◌≤◌, ◌<◌, ◌≡◌, refl, ap, ◌∙◌, inl, inr, List, [], ◌∷◌, ◌++◌, append_assoc, arith,
  if◌then◌else◌, ==_iff, Bool-cases, length, length-append, All, Bytes,
}
use go_httpbin.Base.Int.{ℤ, pos}
use go_httpbin.Handlers.Streaming.{write_chunks, has_size}

abbrev pub concat : List Bytes → Bytes
concat [] = []
concat (b ∷ bs) = b ++ concat bs

abbrev pub generated : (ℕ → ℕ) → ℕ → ℕ → Bytes
generated random i zero = []
generated random i (suc n) = random i ∷ generated random (suc i) n

-- One round of the loop, whatever is not written yet.
write_chunks-step :
    (random : ℕ → ℕ) (size : ℤ) (chunk : Bytes) (i n : ℕ)
    → write_chunks random size chunk i (suc n) ≡ (
        if has_size size (chunk ++ random i ∷ [])
        then (chunk ++ random i ∷ []) ∷ write_chunks random size [] (suc i) n
        else write_chunks random size (chunk ++ random i ∷ []) (suc i) n)
unfolding write_chunks
write_chunks-step random size [] i n = refl
write_chunks-step random size (c ∷ chunk) i n = refl

write_chunks-concat :
    (random : ℕ → ℕ) (size : ℤ) (chunk : Bytes) (i n : ℕ)
    → concat (write_chunks random size chunk i n) ≡ chunk ++ generated random i n
write_chunks-concat random size [] i zero = unfold write_chunks in refl
write_chunks-concat random size (c ∷ chunk) i zero = unfold write_chunks in refl
write_chunks-concat random size chunk i (suc n) =
    let chunk' = chunk ++ random i ∷ [] in
    elim (Bool-cases (has_size size chunk')) [
      | inl full ↦
          rw (write_chunks-step random size chunk i n, full)
            (ap (◌++◌ chunk') (write_chunks-concat random size [] (suc i) n)
              ∙ append_assoc chunk (random i ∷ []) (generated random (suc i) n))
      | inr room ↦
          rw (write_chunks-step random size chunk i n, room)
            (write_chunks-concat random size chunk' (suc i) n
              ∙ append_assoc chunk (random i ∷ []) (generated random (suc i) n))
    ]

-- A chunk that is not empty and no longer than the size.
abbrev pub IsChunk : ℕ → Bytes → Type 0
IsChunk size chunk = (1 ≤ length chunk) × (length chunk ≤ size)

write_chunks-IsChunk :
    (random : ℕ → ℕ) (size : ℕ) (chunk : Bytes) (i n : ℕ)
    → length chunk < size
    → All (IsChunk size) (write_chunks random (pos size) chunk i n)
write_chunks-IsChunk random size [] i zero l = unfold write_chunks in tt
write_chunks-IsChunk random size (c ∷ chunk) i zero l =
    unfold write_chunks in ((omega arith, omega arith), tt)
write_chunks-IsChunk random size chunk i (suc n) l =
    let chunk' = chunk ++ random i ∷ [] in
    elim (Bool-cases (has_size (pos size) chunk')) [
      | inl full ↦
          rw (write_chunks-step random (pos size) chunk i n, full)
            (
              (
                omega (arith, length-append chunk (random i ∷ [])),
                omega (arith, (==_iff (length chunk') size).0 full),
              ),
              write_chunks-IsChunk random size [] (suc i) n (omega arith),
            )
      | inr room ↦
          rw (write_chunks-step random (pos size) chunk i n, room)
            (write_chunks-IsChunk random size chunk' (suc i) n
              (ground (arith, length-append chunk (random i ∷ []))))
    ]

-- The chunks that are written give together the generated bytes, in order. Each is at least one byte and
-- at most the chunk size long, if that is not 0.
pub write_chunks_lem :
    (random : ℕ → ℕ) (size n : ℕ)
    → 0 < size
    → (concat (write_chunks random (pos size) [] 0 n) ≡ generated random 0 n)
      × All (IsChunk size) (write_chunks random (pos size) [] 0 n)
write_chunks_lem random size n l =
    (write_chunks-concat random (pos size) [] 0 n, write_chunks-IsChunk random size [] 0 n l)

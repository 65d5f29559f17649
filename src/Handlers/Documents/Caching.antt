-- ===== src/Handlers/Documents/Caching.antt =====
-- A PDF file from the cache is the one that would be made.
use go_httpbin.Base.{
  ℕ, ◌≡◌, refl, ◌⊎◌, inl, inr, Bool, true, false, Option, none, some, List, arith, if◌then◌else◌,
  Option-cases, Bytes, codes,
}
use go_httpbin.Base.Int.{ℤ}
use go_httpbin.Http.{Request, Call, ok, err, write_error, write_response, library_error}
use go_httpbin.Parsing.Ranges.{Result-cases}
use go_httpbin.Caches.{put, get}
use go_httpbin.Caches.Bounded.{find-put}
use go_httpbin.Handlers.Documents.{
  PdfCacheKey, PdfCache, pdf, pdf_of, make_pdf, parse_pdf, is_nocache,
}

module _ (same : Discrete PdfCacheKey) (generate : PdfCacheKey → Option Bytes) where
  -- Every file that the cache holds is the one that is made for its key.
  unfoldable pub IsFaithful : PdfCache → Type 0
  IsFaithful cache =
      (key : PdfCacheKey) → (get same key cache ≡ none) ⊎ (get same key cache ≡ generate key)

  put-IsFaithful :
      (pick : ℕ) (key : PdfCacheKey) (pdf_bytes : Bytes) (cache : PdfCache)
      → generate key ≡ some pdf_bytes
      → IsFaithful cache
      → IsFaithful (put same pick key pdf_bytes cache)
  unfolding IsFaithful
  put-IsFaithful pick key pdf_bytes cache made faithful k =
      elim (find-put same pick key k pdf_bytes cache) [
        | inl kept ↦ elim (same key k) [
          | yes e ↦ inr (ground (arith, kept, made))
          | no n ↦ ground (arith, kept, faithful k)
        ]
        | inr (gone, _) ↦ elim (same key k) [
          | yes e ↦ inr (ground (arith, gone, made))
          | no n ↦ inl (ground (arith, gone))
        ]
      ]

  abbrev made_answer : PdfCacheKey → List Call
  made_answer key = elim (generate key) [
    | none ↦ write_error 500 (some library_error)
    | some pdf_bytes ↦ write_response 200 (codes "application/pdf") pdf_bytes
  ]

  -- What PDF answers if nothing is kept.
  unfoldable pub fresh_answer : ℤ → Request → List Call
  fresh_answer now r = elim (parse_pdf now r.query) [
    | err e ↦ write_error 400 (some e)
    | ok key ↦ made_answer key
  ]

  kept_or_not :
      (pick : ℕ) (nocache : Bool) (key : PdfCacheKey) (pdf_bytes : Bytes) (cache : PdfCache)
      → generate key ≡ some pdf_bytes
      → IsFaithful cache
      → IsFaithful (if nocache then cache else put same pick key pdf_bytes cache)
  kept_or_not pick true key pdf_bytes cache made faithful = faithful
  kept_or_not pick false key pdf_bytes cache made faithful =
      put-IsFaithful pick key pdf_bytes cache made faithful

  make_pdf-IsFaithful :
      (pick : ℕ) (nocache : Bool) (key : PdfCacheKey) (cache : PdfCache)
      → IsFaithful cache
      → ((make_pdf same generate pick nocache key cache).0 ≡ made_answer key)
        × IsFaithful (make_pdf same generate pick nocache key cache).1
  unfolding make_pdf
  make_pdf-IsFaithful pick nocache key cache faithful = elim (Option-cases (generate key)) [
    | inl failed ↦ rw (make_pdf, made_answer, failed) (refl, faithful)
    | inr (pdf_bytes, made) ↦
        rw (make_pdf, made_answer, made)
          (refl, kept_or_not pick nocache key pdf_bytes cache made faithful)
  ]

  found_file :
      (key : PdfCacheKey) (pdf_bytes : Bytes) (cache : PdfCache)
      → IsFaithful cache
      → get same key cache ≡ some pdf_bytes
      → generate key ≡ some pdf_bytes
  unfolding IsFaithful
  found_file key pdf_bytes cache faithful found = ground (arith, faithful key, found)

  pdf_of-IsFaithful :
      (pick : ℕ) (nocache : Bool) (key : PdfCacheKey) (cache : PdfCache)
      → IsFaithful cache
      → ((pdf_of same generate pick nocache key cache).0 ≡ made_answer key)
        × IsFaithful (pdf_of same generate pick nocache key cache).1
  unfolding pdf_of
  pdf_of-IsFaithful pick true key cache faithful = make_pdf-IsFaithful pick true key cache faithful
  pdf_of-IsFaithful pick false key cache faithful = elim (Option-cases (get same key cache)) [
    | inl missing ↦ rw (pdf_of, missing) (make_pdf-IsFaithful pick false key cache faithful)
    | inr (pdf_bytes, found) ↦
        rw (pdf_of, made_answer, found, found_file key pdf_bytes cache faithful found)
          (refl, faithful)
  ]

  -- The cache is invisible: if each file that it holds is the one that is made for its key, PDF answers
  -- any request as if it kept nothing, and leaves a cache that is as faithful; whatever a full cache
  -- throws out.
  pub pdf-fresh_answer :
      (pick : ℕ) (now : ℤ) (r : Request) (cache : PdfCache)
      → IsFaithful cache
      → ((pdf same generate pick now r cache).0 ≡ fresh_answer now r)
        × IsFaithful (pdf same generate pick now r cache).1
  unfolding pdf fresh_answer
  pdf-fresh_answer pick now r cache faithful = elim (Result-cases (parse_pdf now r.query)) [
    | inl (key, parsed) ↦
        rw (pdf, fresh_answer, parsed)
          (pdf_of-IsFaithful pick (is_nocache r.query) key cache faithful)
    | inr (e, failed) ↦ rw (pdf, fresh_answer, failed) (refl, faithful)
  ]
